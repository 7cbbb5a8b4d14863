-- ===== src/Routing/Filter.antt =====
-- `Collections`, from which the server-side filter is derived.
use jetstream_router.Common.{
  ◌≡◌, ◌≢◌, ◌↔◌, refl, inl, inr, ap, sym, ◌∙◌, subst, Bool, true, false, not, List, [], ◌∷◌, Has,
  filter, ok, arith, Bool-cases,
}
use jetstream_router.Common.Str.{Str, ◌==◌, eq_iff}
use jetstream_router.Event.{Key}
use jetstream_router.PathMatch.Literal.{IsLiteral, path_match_literal}
use jetstream_router.Routing.{
  Rule, Table, Router, pins_operation, is_glob, collect, collections, matches, new,
}
use jetstream_router.Routing.Build.{is_collection, new_iff}
use jetstream_router.Routing.Precedence.{matches_iff}
use jetstream_router.Routing.Reach.{Has-filter, filter-Has, filter_passes}

-- The rule names the collection itself: it is set, and is no glob.
abbrev pub Names : Rule → Str → Type 0
Names rule c = (rule.match.collection ≡ c) × (c ≢ []) × (is_glob c ≡ false)

abbrev NamedIn : List Rule → Str → Type 0
NamedIn rules c = (rule : Rule) × Has rule rules × Names rule c

unnamed :
    (x : Rule) (rules : List Rule) (c : Str) (found : Type 0)
    → (found ↔ NamedIn rules c)
    → ¬ Names x c
    → found ↔ NamedIn (x ∷ rules) c
unnamed x rules c found ih h = (
  λ k. let (rule, listed, names) = ih.0 k in (rule, inr listed, names),
  λ (rule, place, names). elim place [
    | inl e ↦ absurd (h (subst (λ y. Names y c) (sym e) names))
    | inr listed ↦ ih.1 (rule, listed, names)
  ],
)

collect_iff : (rules : List Rule) (c : Str) → Has c (collect rules) ↔ NamedIn rules c
unfolding collect
collect_iff [] c = (λ h. absurd h, λ (_, h, _). h)
collect_iff (x ∷ rules) c = elim (Bool-cases (x.match.collection == [])) [
  | inl empty ↦
      rw (empty, collect)
        (unnamed x rules c _ (collect_iff rules c)
          (λ (e, ne, _). ne (sym e ∙ (eq_iff x.match.collection []).0 empty)))
  | inr full ↦ elim (Bool-cases (is_glob x.match.collection)) [
    | inl glob ↦
        rw (full, collect, glob)
          (unnamed x rules c _ (collect_iff rules c)
            (λ (e, _, plain). cc (ap is_glob e, glob, plain)))
    | inr plain ↦
        rw (full, collect, plain)
          (
            elim [
              | inl e ↦ (
                x,
                inl refl,
                (
                  e,
                  λ empty. cc (full, (eq_iff x.match.collection []).1 (e ∙ empty)),
                  subst (λ y. is_glob y ≡ false) e plain,
                ),
              )
              | inr later ↦
                  let (rule, listed, names) = (collect_iff rules c).0 later in
                  (rule, inr listed, names)
            ],
            λ (rule, place, names). elim place [
              | inl e ↦ inl (ap (λ (y : Rule). y.match.collection) e ∙ names.0)
              | inr listed ↦ inr ((collect_iff rules c).1 (rule, listed, names))
            ],
          )
  ]
]

IsLiteral-is_glob : (c : Str) → IsLiteral c → is_glob c ≡ false
unfolding is_glob
IsLiteral-is_glob [] l = refl
IsLiteral-is_glob (x ∷ c) l = ground (arith, IsLiteral-is_glob c l.1)

-- For a table that New accepts, Collections lists exactly the collections that are set and no
-- globs of the rules that pin no operation; a collection that only a rule with an operation names
-- is not in it.
pub collections_iff :
    (t : Table) (r : Router) (c : Str)
    → new t ≡ ok r
    → Has c (collections r)
      ↔ ((rule : Rule) × Has rule t.rules × (pins_operation rule ≡ false) × Names rule c)
unfolding collections
collections_iff t r c h =
    subst
      (λ x.
        Has c (collections x)
        ↔ ((rule : Rule) × Has rule t.rules × (pins_operation rule ≡ false) × Names rule c))
      (sym ((new_iff t r).0 h).2)
      (
        λ k.
            let (rule, listed, names) = (collect_iff (filter is_collection t.rules) c).0 k in
            (
              rule,
              Has-filter is_collection rule t.rules listed,
              not-true _ (filter_passes is_collection rule t.rules listed),
              names,
            ),
        λ (rule, listed, free, names).
            (collect_iff (filter is_collection t.rules) c).1
              (rule, filter-Has is_collection rule t.rules (rw free) listed, names),
      )
  where
    not-true : (b : Bool) → not b ≡ true → b ≡ false
    not-true b e = ground arith

-- The derived filter keeps every event that a rule with a plain collection and no operation
-- matches: the event's collection is listed.
pub collections_cover :
    (t : Table) (r : Router) (k : Key) (rule : Rule)
    → new t ≡ ok r
    → Has rule t.rules
    → pins_operation rule ≡ false
    → IsLiteral rule.match.collection
    → rule.match.collection ≢ []
    → matches rule.match k ≡ true
    → Has k.collection (collections r)
collections_cover t r k rule h listed free literal ne hit = (collections_iff t r k.collection h).1 (
  rule,
  listed,
  free,
  (
    same,
    λ e. ne (same ∙ e),
    subst (λ c. is_glob c ≡ false) same (IsLiteral-is_glob rule.match.collection literal),
  ),
)
  where
    same : rule.match.collection ≡ k.collection
    same = elim ((matches_iff rule.match k).0 hit).2 [
      | inl empty ↦ absurd (ne empty)
      | inr (_, found) ↦
          (eq_iff rule.match.collection k.collection).0
            (cc (path_match_literal rule.match.collection k.collection literal, found))
    ]
