-- ===== src/Config/Validate.antt =====
-- What a configuration that `Validate` accepts promises.
use jetstream_router.Common.{
  ◌≡◌, ◌↔◌, ◌∙◌, refl, sym, subst, some, List, [], ◌∷◌, Has, Result, ok, err, ◌>>=◌, arith,
  Option-cases, inl, inr,
}
use jetstream_router.Common.Int.{pos, ◌≤ℤ◌}
use jetstream_router.Common.Str.{Str}
use jetstream_router.Common.Maps.{lookup}
use jetstream_router.Routing.{Table, Router, routes}
use jetstream_router.Routing
use jetstream_router.Routing.Reach.{Produces, routes_iff}
use jetstream_router.Route
use jetstream_router.Config.{Config, ConfigError, check_routes, check_numbers, new_router, validate}

-- The map has an entry for the name.
abbrev pub IsConfigured : List (Str × Route.Config) → Str → Type 0
IsConfigured m name = (rc : Route.Config) × (lookup name m ≡ some rc)

check_routes_iff :
    (m : List (Str × Route.Config)) (names : List Str)
    → (check_routes m names ≡ ok tt) ↔ ((name : Str) → Has name names → IsConfigured m name)
unfolding check_routes
check_routes_iff m [] = (λ _ name h. absurd h, λ _. refl)
check_routes_iff m (n ∷ names) = elim (Option-cases (lookup n m)) [
  | inl absent ↦
      (λ h. absurd (ground arith), λ h. let (rc, found) = h n (inl refl) in absurd (ground arith))
  | inr (rc, found) ↦
      let (only, all) = check_routes_iff m names in
      let next : check_routes m (n ∷ names) ≡ check_routes m names =
        rw (found, check_routes) refl in
      (
        λ h name place. elim place [
          | inl same ↦ (rc, subst (λ x. lookup x m ≡ some rc) same found)
          | inr there ↦ only (sym next ∙ h) name there
        ],
        λ h. next ∙ all (λ name there. h name (inr there)),
      )
]

check_numbers_iff :
    (c : Config)
    → (check_numbers c ≡ ok tt) ↔ (
        (pos 1 ≤ℤ c.thresholds.engagement)
        × (pos 1 ≤ℤ c.thresholds.follow_burst)
        × (pos 1 ≤ℤ c.state.max_keys_per_shard))
unfolding check_numbers
check_numbers_iff c = (λ h. ground arith, λ h. ground arith)

-- Validate accepts a configuration exactly when New accepts its table, every route that the table
-- can produce has an entry in routes, and the thresholds and the cap on keys are positive.
pub validate_iff :
    (c : Config)
    → (validate c ≡ ok tt) ↔ (
        (r : Router) × (jetstream_router.Routing.new c.routing ≡ ok r)
        × ((name : Str) → Produces c.routing name → IsConfigured c.routes name)
        × (pos 1 ≤ℤ c.thresholds.engagement)
        × (pos 1 ≤ℤ c.thresholds.follow_burst)
        × (pos 1 ≤ℤ c.state.max_keys_per_shard))
unfolding validate new_router
validate_iff c = choose (jetstream_router.Routing.new c.routing) refl
  where
    checks :
        (r : Router)
        → jetstream_router.Routing.new c.routing ≡ ok r
        → validate c ≡ (check_routes c.routes (routes r) >>= (λ _. check_numbers c))
    checks r made = rw (made, validate, new_router) refl

    both :
        (x : Result ConfigError (Unit {0})) (y : Result ConfigError (Unit {0}))
        → ((x >>= (λ _. y)) ≡ ok tt) ↔ ((x ≡ ok tt) × (y ≡ ok tt))
    both (ok u) y = (λ h. (refl, h), λ h. h.1)
    both (err e) y = (λ h. absurd cc, λ h. absurd (cc (h.0)))

    choose :
        (x : Result _ Router)
        → jetstream_router.Routing.new c.routing ≡ x
        → (validate c ≡ ok tt) ↔ (
            (r : Router) × (jetstream_router.Routing.new c.routing ≡ ok r)
            × ((name : Str) → Produces c.routing name → IsConfigured c.routes name)
            × (pos 1 ≤ℤ c.thresholds.engagement)
            × (pos 1 ≤ℤ c.thresholds.follow_burst)
            × (pos 1 ≤ℤ c.state.max_keys_per_shard))
    choose (err e) made =
        (λ h. absurd (ground arith), λ (r, made', _, _, _, _). absurd (ground arith))
    choose (ok r) made =
        let (once, produces) = routes_iff c.routing r made in
        let configured = check_routes_iff c.routes (routes r) in
        let numbers = check_numbers_iff c in
        let parts = both (check_routes c.routes (routes r)) (check_numbers c) in
        (
          λ h.
              let (a, b) = parts.0 (sym (checks r made) ∙ h) in
              let (p, q, w) = numbers.0 b in
              (r, made, λ name p. configured.0 a name ((produces name).1 p), p, q, w),
          λ (r', made', all, p, q, w).
              checks r made
              ∙ parts.1
                  (configured.1 (λ name h. all name ((produces name).0 h)), numbers.1 (p, q, w)),
        )
