-- ===== src/Routing/Reach.antt =====
-- `Routes` lists exactly the routes that the table can produce, each once.
use jetstream_router.Common.{
  ◌≡◌, ◌≢◌, ◌⊎◌, ◌↔◌, refl, inl, inr, sym, subst, Bool, true, List, [], ◌∷◌, All, Has, IsOnce,
  Has-append_right, filter, ok, Bool-cases,
}
use jetstream_router.Common.Str.{Str}
use jetstream_router.Event.{Key}
use jetstream_router.Routing.{Rule, Table, Router, routes, route, new, pins_operation}
use jetstream_router.Routing.Build.{IsGood, is_operation, is_collection, built, new_iff}
use jetstream_router.Routing.Precedence.{FirstOf, Chosen, route-Chosen}
use jetstream_router.Routing.Names.{Lists, routes-lem}

pub Has-filter :
    (p : Rule → Bool) (x : Rule) (rules : List Rule) → Has x (filter p rules) → Has x rules
unfolding filter
Has-filter p x [] h = h
Has-filter p x (y ∷ rules) h = elim (Bool-cases (p y)) [
  | inl kept ↦ elim (kept-case (rw (kept, filter) at h)) [
    | inl e ↦ inl e
    | inr later ↦ inr (Has-filter p x rules later)
  ]
  | inr dropped ↦ inr (Has-filter p x rules (rw (dropped, filter) at h))
]
  where
    kept-case : Has x (y ∷ filter p rules) → (y ≡ x) ⊎ Has x (filter p rules)
    kept-case h' = h'

pub filter_passes :
    (p : Rule → Bool) (x : Rule) (rules : List Rule) → Has x (filter p rules) → p x ≡ true
unfolding filter
filter_passes p x [] h = absurd h
filter_passes p x (y ∷ rules) h = elim (Bool-cases (p y)) [
  | inl kept ↦ here kept (filter_passes p x rules) (rw (kept, filter) at h)
  | inr dropped ↦ filter_passes p x rules (rw (dropped, filter) at h)
]
  where
    here :
        p y ≡ true
        → (Has x (filter p rules) → p x ≡ true)
        → (y ≡ x) ⊎ Has x (filter p rules)
        → p x ≡ true
    here kept later (inl e) = subst (λ z. p z ≡ true) e kept
    here kept later (inr k) = later k

pub filter-Has :
    (p : Rule → Bool) (x : Rule) (rules : List Rule)
    → p x ≡ true
    → Has x rules
    → Has x (filter p rules)
unfolding filter
filter-Has p x [] e h = h
filter-Has p x (y ∷ rules) e (inl same) =
    let here : p y ≡ true = subst (λ z. p z ≡ true) (sym same) e in rw (here, filter) (inl same)
filter-Has p x (y ∷ rules) e (inr later) = elim (Bool-cases (p y)) [
  | inl kept ↦ rw (kept, filter) (inr (filter-Has p x rules e later))
  | inr dropped ↦ rw (dropped, filter) (filter-Has p x rules e later)
]

All-Has : (P : Rule → Type 0) (x : Rule) (rules : List Rule) → All P rules → Has x rules → P x
All-Has P x (y ∷ rules) h (inl e) = subst P e h.0
All-Has P x (y ∷ rules) h (inr later) = All-Has P x rules h.1 later
All-Has P x [] h impossible = absurd impossible

-- A name that the table can produce: its fallback, or the route of a rule.
abbrev pub Produces : Table → Str → Type 0
Produces t m = (m ≡ t.fallback) ⊎ ((rule : Rule) × Has rule t.rules × (m ≡ rule.route))

-- For a table that New accepts, Routes lists each name once, and lists exactly the fallback and
-- the routes of the rules.
pub routes_iff :
    (t : Table) (r : Router)
    → new t ≡ ok r
    → IsOnce (routes r) × ((m : Str) → Has m (routes r) ↔ Produces t m)
routes_iff t r h =
    let (set, good, e) = (new_iff t r).0 h in
    subst (λ x. IsOnce (routes x) × ((m : Str) → Has m (routes x) ↔ Produces t m)) (sym e)
      (let (once, iff) = routes-lem (built t) in
        (once, λ m. (λ k. listed m ((iff m).0 k), λ k. (iff m).1 (produced set good m k))))
  where
    listed : (m : Str) → Lists (built t) m → Produces t m
    listed m (inl (rule, k, (_, e))) = inr (rule, Has-filter is_operation rule t.rules k, sym e)
    listed m (inr (inl (rule, k, (_, e)))) =
        inr (rule, Has-filter is_collection rule t.rules k, sym e)
    listed m (inr (inr (_, e))) = inl (sym e)

    produced : t.fallback ≢ [] → All IsGood t.rules → (m : Str) → Produces t m → Lists (built t) m
    produced set good m (inl e) = inr (inr (set, sym e))
    produced set good m (inr (rule, k, e)) =
        let named = (All-Has IsGood rule t.rules good k).has_route in
        elim (Bool-cases (pins_operation rule)) [
          | inl pins ↦ inl (rule, filter-Has is_operation rule t.rules pins k, (named, sym e))
          | inr free ↦
              inr (inl (rule, filter-Has is_collection rule t.rules (rw free) k, (named, sym e)))
        ]

FirstOf-Has :
    (p : Rule → Bool) (rules : List Rule) (rule : Rule) → FirstOf p rules rule → Has rule rules
FirstOf-Has p rules rule (before, after, e, _, _) =
    subst (Has rule) (sym e) (Has-append_right rule before (rule ∷ after) (inl refl))

-- Whatever the key, the route that it is given is one of `Routes`.
pub route-Has-routes :
    (t : Table) (r : Router) (k : Key) → new t ≡ ok r → Has (route r k) (routes r)
route-Has-routes t r k h = ((routes_iff t r h).1 (route r k)).1 (produced (route-Chosen t r k h))
  where
    produced : Chosen t k (route r k) → Produces t (route r k)
    produced (inl (rule, first, e)) = inr (rule, FirstOf-Has _ t.rules rule first, e)
    produced (inr (_, inl (rule, first, e))) = inr (rule, FirstOf-Has _ t.rules rule first, e)
    produced (inr (_, inr (_, e))) = inl e
