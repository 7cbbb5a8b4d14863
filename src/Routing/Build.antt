-- ===== src/Routing/Build.antt =====
-- What `New` accepts, what it builds, and which error it reports.
use jetstream_router.Common.{
  ℕ, suc, ◌+◌, ◌≡◌, ◌≢◌, ◌⊎◌, ◌↔◌, refl, inl, inr, ap, sym, subst, ◌∙◌, Bool, true, false, not,
  some, List, [], ◌∷◌, ◌++◌, append-nil, append_assoc, All, filter, take, get_elem?, Result, ok,
  err, arith, Bool-cases,
}
use jetstream_router.Common.Str.{Str, lit, ◌==◌, eq_iff}
use jetstream_router.PathMatch.{fails, path_match}
use jetstream_router.PathMatch.Validity.{path_match-fails}
use jetstream_router.Routing.{
  Rule, Table, Router, NewError, no_fallback, no_route, bad_glob, check_rule, pins_operation, place,
  add_rules, new,
}

-- A rule with a route, whose glob, if any, is well formed: no name makes it fail.
pub record IsGood (rule : Rule) : Type 0 where
  pub has_route : rule.route ≢ []
  pub glob_valid :
      rule.match.collection ≢ []
      → (name : Str) → fails (path_match rule.match.collection name) ≡ false

abbrev pub is_operation : Rule → Bool
is_operation = pins_operation

abbrev pub is_collection : Rule → Bool
is_collection rule = not (pins_operation rule)

check_rule-IsGood : (i : ℕ) (rule : Rule) → check_rule i rule ≡ ok tt → IsGood rule
unfolding check_rule
check_rule-IsGood i rule h = record {
  has_route = ground (arith, eq_iff rule.route []);
  glob_valid = λ ne name.
      path_match-fails rule.match.collection name (lit "probe")
      ∙ ground (arith, eq_iff rule.match.collection [], eq_iff rule.route []);
}

IsGood-check_rule : (i : ℕ) (rule : Rule) → IsGood rule → check_rule i rule ≡ ok tt
unfolding check_rule
IsGood-check_rule i rule g = elim (Bool-cases (rule.match.collection == [])) [
  | inl empty ↦ ground (arith, g.has_route, eq_iff rule.route [])
  | inr full ↦ ground (
    arith,
    g.has_route,
    eq_iff rule.route [],
    eq_iff rule.match.collection [],
    g.glob_valid (λ e. cc (full, (eq_iff rule.match.collection []).1 e)) (lit "probe"),
  )
]

-- The router with the rules added in their order, each to its own pass.
abbrev pub extend : Router → List Rule → Router
extend r rules = record {
  op_rules = r.op_rules ++ filter is_operation rules;
  coll_rules = r.coll_rules ++ filter is_collection rules;
  fallback = r.fallback;
}

extend-place :
    (r : Router) (rule : Rule) (rules : List Rule)
    → extend (place rule r) rules ≡ extend r (rule ∷ rules)
unfolding place filter
extend-place r rule rules = elim (Bool-cases (pins_operation rule)) [
  | inl pins ↦ rw (pins, place, filter, append_assoc)
  | inr free ↦ rw (free, place, filter, append_assoc)
]

extend-nil : (r : Router) → extend r [] ≡ r
unfolding filter
extend-nil r = λ i. record {
  op_rules = append-nil r.op_rules i;
  coll_rules = append-nil r.coll_rules i;
  fallback = r.fallback;
}

Checked : Result NewError (Unit {0}) → Type 0
Checked c = (c ≡ ok tt) ⊎ ((e : NewError) × (c ≡ err e))

check-cases : (c : Result NewError (Unit {0})) → Checked c
unfolding Checked
check-cases (ok tt) = inl refl
check-cases (err e) = inr (e, refl)

add_rules-extend :
    (i : ℕ) (rules : List Rule) (r r' : Router)
    → add_rules i rules r ≡ ok r'
    → All IsGood rules × (r' ≡ extend r rules)
unfolding add_rules Checked
add_rules-extend i [] r r' h = (tt, let e : r ≡ r' = cc in sym e ∙ sym (extend-nil r))
add_rules-extend i (rule ∷ rules) r r' h = elim (check-cases (check_rule i rule)) [
  | inl passed ↦
      let (good, e) =
        add_rules-extend (suc i) rules (place rule r) r' (rw (passed, add_rules) at h) in
      ((check_rule-IsGood i rule passed, good), e ∙ extend-place r rule rules)
  | inr (x, refused) ↦ absurd (ground arith)
]

extend-add_rules :
    (i : ℕ) (rules : List Rule) (r : Router)
    → All IsGood rules
    → add_rules i rules r ≡ ok (extend r rules)
unfolding add_rules
extend-add_rules i [] r g = ap ok (sym (extend-nil r))
extend-add_rules i (rule ∷ rules) r g =
    rw (IsGood-check_rule i rule g.0)
      (extend-add_rules (suc i) rules (place rule r) g.1 ∙ ap ok (extend-place r rule rules))

-- The router that a table stands for.
abbrev pub built : Table → Router
built t = record {
  op_rules = filter is_operation t.rules;
  coll_rules = filter is_collection t.rules;
  fallback = t.fallback;
}

-- New succeeds exactly when the fallback is set, every rule names a route and no glob of a rule
-- can fail against any name; the router then has the rules that pin an operation and those that
-- do not, each in the order of the table, and the fallback.
pub new_iff :
    (t : Table) (r : Router)
    → (new t ≡ ok r) ↔ ((t.fallback ≢ []) × All IsGood t.rules × (r ≡ built t))
unfolding new
new_iff t r = elim (Bool-cases (t.fallback == [])) [
  | inl unset ↦
      (λ h. absurd (ground arith), λ (set, _, _). absurd (set ((eq_iff t.fallback []).0 unset)))
  | inr is_set ↦ (
    λ h.
        let (good, e) = add_rules-extend 0 t.rules start r (rw (is_set, new) at h) in
        (ground (arith, eq_iff t.fallback []), good, e),
    λ (_, good, e). rw (is_set, e) (extend-add_rules 0 t.rules start good),
  )
]
  where
    start : Router
    start = record { op_rules = []; coll_rules = []; fallback = t.fallback }

-- What an error says of the rule that it names.
abbrev pub Blames : NewError → ℕ → List Rule → Type 0
Blames no_fallback i rules = ⊥
Blames (no_route j) i rules =
    (n : ℕ) × (rule : Rule) × (j ≡ i + n)
    × (get_elem? rules n ≡ some rule)
    × All IsGood (take n rules)
    × (rule.route ≡ [])
Blames (bad_glob j glob) i rules =
    (n : ℕ) × (rule : Rule) × (j ≡ i + n)
    × (get_elem? rules n ≡ some rule)
    × All IsGood (take n rules)
    × (rule.match.collection ≡ glob)
    × (glob ≢ [])
    × ((name : Str) → fails (path_match glob name) ≡ true)

check_rule-Blames :
    (i : ℕ) (rule : Rule) (rules : List Rule) (e : NewError)
    → check_rule i rule ≡ err e
    → Blames e i (rule ∷ rules)
unfolding check_rule get_elem? take
check_rule-Blames i rule rules no_fallback h = ground arith
check_rule-Blames i rule rules (no_route j) h =
    (0, rule, ground arith, refl, tt, ground (arith, eq_iff rule.route []))
check_rule-Blames i rule rules (bad_glob j glob) h = (
  0,
  rule,
  ground arith,
  refl,
  tt,
  ground arith,
  ground (arith, eq_iff rule.match.collection []),
  λ name.
      path_match-fails glob name (lit "probe") ∙ ground (arith, eq_iff rule.match.collection []),
)

Blames-cons :
    (i : ℕ) (rule : Rule) (rules : List Rule) (e : NewError)
    → IsGood rule
    → Blames e (suc i) rules
    → Blames e i (rule ∷ rules)
unfolding get_elem? take
Blames-cons i rule rules no_fallback g h = h
Blames-cons i rule rules (no_route j) g (n, blamed, at, found, before, bad) =
    (suc n, blamed, omega arith, found, (g, before), bad)
Blames-cons i rule rules (bad_glob j glob) g (n, blamed, at, found, before, bad, ne, always) =
    (suc n, blamed, omega arith, found, (g, before), bad, ne, always)

add_rules-Blames :
    (i : ℕ) (rules : List Rule) (r : Router) (e : NewError)
    → add_rules i rules r ≡ err e
    → Blames e i rules
unfolding add_rules Checked
add_rules-Blames i [] r e h = absurd (ground arith)
add_rules-Blames i (rule ∷ rules) r e h = elim (check-cases (check_rule i rule)) [
  | inl passed ↦
      Blames-cons i rule rules e (check_rule-IsGood i rule passed)
        (add_rules-Blames (suc i) rules (place rule r) e (rw (passed, add_rules) at h))
  | inr (x, refused) ↦
      let same : x ≡ e = ground arith in
      subst (λ y. Blames y i (rule ∷ rules)) same (check_rule-Blames i rule rules x refused)
]

-- An error of New names the first bad rule by its index: that rule has no route, or has a glob
-- that fails against every name, and every rule before it is good; the fallback is set unless the
-- error says that it is not.
pub new_error :
    (t : Table) (e : NewError)
    → new t ≡ err e
    → ((e ≡ no_fallback) × (t.fallback ≡ [])) ⊎ ((t.fallback ≢ []) × Blames e 0 t.rules)
unfolding new
new_error t e h = elim (Bool-cases (t.fallback == [])) [
  | inl unset ↦ inl (ground arith, (eq_iff t.fallback []).0 unset)
  | inr is_set ↦
      inr (
        ground (arith, eq_iff t.fallback []),
        add_rules-Blames 0 t.rules _ e (rw (is_set, new) at h),
      )
]
