-- ===== src/Routing/Precedence.antt =====
-- Which rule decides: rules that pin an operation first, wherever they stand in the table.
use jetstream_router.Common.{
  ◌≡◌, ◌≢◌, ◌⊎◌, ◌↔◌, refl, inl, inr, ap, sym, ◌∙◌, subst, Bool, true, false, ◌&&◌, none, some,
  List, [], ◌∷◌, ◌++◌, All, filter, ok, err, arith, Bool-cases,
}
use jetstream_router.Common.Str.{Str, eq_iff}
use jetstream_router.Event.{Key}
use jetstream_router.PathMatch.{path_match}
use jetstream_router.Routing.{
  Match, Rule, Table, Router, pins_operation, new, accepted, matches, first_match, route,
}
use jetstream_router.Routing.Build.{IsGood, is_operation, is_collection, new_iff}

-- When a rule's predicate holds: an empty field matches anything.
abbrev pub Fits : Match → Key → Type 0
Fits m k =
    ((m.kind ≡ []) ⊎ (m.kind ≡ k.kind))
    × ((m.operation ≡ []) ⊎ (m.operation ≡ k.operation))
    × ((m.collection ≡ [])
        ⊎ ((k.collection ≢ []) × (path_match m.collection k.collection ≡ ok true)))

accepted_iff :
    (m : Match) (k : Key)
    → (accepted (path_match m.collection k.collection) ≡ true)
      ↔ (path_match m.collection k.collection ≡ ok true)
accepted_iff m k = (to (path_match m.collection k.collection), λ h. rw h)
  where
    to : (r : _) → accepted r ≡ true → r ≡ ok true
    to (ok b) h = ap ok h
    to (err e) h = cc

pub matches_iff : (m : Match) (k : Key) → (matches m k ≡ true) ↔ Fits m k
unfolding matches
matches_iff m k = ground (
  arith,
  eq_iff m.kind [],
  eq_iff m.kind k.kind,
  eq_iff m.operation [],
  eq_iff m.operation k.operation,
  eq_iff m.collection [],
  eq_iff k.collection [],
  accepted_iff m k,
)

-- The rule is the first of the list that passes the test.
abbrev pub FirstOf : (Rule → Bool) → List Rule → Rule → Type 0
FirstOf p rules rule =
    (before : List Rule) × (after : List Rule) × (rules ≡ before ++ rule ∷ after)
    × All (λ x. p x ≡ false) before
    × (p rule ≡ true)

-- The rules of one pass that match the key.
abbrev pub hits : (Rule → Bool) → Key → Rule → Bool
hits pass k rule = pass rule && matches rule.match k

module _ (pass : Rule → Bool) (k : Key) where
  abbrev IsFirst : List Rule → Type 0
  IsFirst rules =
      ((rule : Rule) × FirstOf (hits pass k) rules rule
        × (first_match k (filter pass rules) ≡ some rule.route))
      ⊎ (All (λ x. hits pass k x ≡ false) rules × (first_match k (filter pass rules) ≡ none))

  pass_lem : (rules : List Rule) → IsFirst rules
  unfolding first_match filter
  pass_lem [] = inr (tt, refl)
  pass_lem (x ∷ rules) = elim (Bool-cases (hits pass k x)) [
    | inl hit ↦ inl (x, ([], rules, refl, tt, hit), ground arith)
    | inr missed ↦ elim (pass_lem rules) [
      | inl (rule, (before, after, e, none_before, hit), found) ↦
          inl (rule, (x ∷ before, after, ap (◌∷◌ x) e, (missed, none_before), hit), ground arith)
      | inr (no_hit, found) ↦ inr ((missed, no_hit), ground arith)
    ]
  ]

-- The route that a table gives a key, read off its documentation.
abbrev pub Chosen : Table → Key → Str → Type 0
Chosen t k name =
    ((rule : Rule) × FirstOf (hits is_operation k) t.rules rule × (name ≡ rule.route))
    ⊎ (All (λ x. hits is_operation k x ≡ false) t.rules
        × (((rule : Rule) × FirstOf (hits is_collection k) t.rules rule × (name ≡ rule.route))
            ⊎ (All (λ x. hits is_collection k x ≡ false) t.rules × (name ≡ t.fallback))))

-- For a table that New accepts, the route of a key is that of the first rule that pins an
-- operation and matches it; if there is none, that of the first other rule that matches it; if
-- there is none, the fallback.
pub route-Chosen : (t : Table) (r : Router) (k : Key) → new t ≡ ok r → Chosen t k (route r k)
unfolding route
route-Chosen t r k h =
    subst (λ x. Chosen t k (route x k)) (sym ((new_iff t r).0 h).2)
      (elim (pass_lem is_operation k t.rules) [
        | inl (rule, first, found) ↦ inl (rule, first, ground arith)
        | inr (no_hit, found) ↦ inr (
          no_hit,
          elim (pass_lem is_collection k t.rules) [
            | inl (rule, first, found') ↦ inl (rule, first, ground arith)
            | inr (no_hit', found') ↦ inr (no_hit', ground arith)
          ],
        )
      ])

module _ (P : Rule → Type 0) where
  All-passes :
      (rules : List Rule)
      → All P (filter is_operation rules)
      → All P (filter is_collection rules)
      → All P rules
  unfolding filter
  All-passes [] g h = tt
  All-passes (x ∷ rules) g h = elim (Bool-cases (pins_operation x)) [
    | inl pins ↦
        let g' = (rw (pins, filter) at g) in (g'.0, All-passes rules g'.1 (rw (pins, filter) at h))
    | inr free ↦
        let h' = (rw (free, filter) at h) in (h'.0, All-passes rules (rw (free, filter) at g) h'.1)
  ]

  All-filter : (p : Rule → Bool) (rules : List Rule) → All P rules → All P (filter p rules)
  unfolding filter
  All-filter p [] h = tt
  All-filter p (x ∷ rules) h = elim (Bool-cases (p x)) [
    | inl kept ↦ rw (kept, filter) (h.0, All-filter p rules h.1)
    | inr dropped ↦ rw (dropped, filter) (All-filter p rules h.1)
  ]

-- Two tables that agree on their rules that pin an operation, on their other rules and on the
-- fallback build the same router, or are both refused: how the two kinds are mixed does not
-- matter.
pub new_interleaving :
    (t u : Table) (r : Router)
    → filter is_operation t.rules ≡ filter is_operation u.rules
    → filter is_collection t.rules ≡ filter is_collection u.rules
    → t.fallback ≡ u.fallback
    → (new t ≡ ok r) ↔ (new u ≡ ok r)
new_interleaving t u r same_op same_coll same_fallback = (
  moves t u same_op same_coll same_fallback,
  moves u t (sym same_op) (sym same_coll) (sym same_fallback),
)
  where
    moves :
        (t u : Table)
        → filter is_operation t.rules ≡ filter is_operation u.rules
        → filter is_collection t.rules ≡ filter is_collection u.rules
        → t.fallback ≡ u.fallback
        → new t ≡ ok r
        → new u ≡ ok r
    moves t u p q f h =
        let (set, good, e) = (new_iff t r).0 h in
        (new_iff u r).1 (
          λ empty. set (f ∙ empty),
          All-passes IsGood u.rules
              (subst (All IsGood) p (All-filter IsGood is_operation t.rules good))
              (subst (All IsGood) q (All-filter IsGood is_collection t.rules good)),
          e ∙ (λ i. record { op_rules = p i; coll_rules = q i; fallback = f i }),
        )
