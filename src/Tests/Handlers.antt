-- ===== src/Tests/Handlers.antt =====
-- The handlers on concrete events.
use jetstream_router.Common.{
  suc, ◌≡◌, ◌↔◌, refl, inl, inr, sym, subst, true, false, Option, none, some, List, [], ◌∷◌, Has,
  arith, Bool-cases,
}
use jetstream_router.Common.Int.{pos}
use jetstream_router.Common.Str.{Str, lit, ◌==◌, eq_iff}
use jetstream_router.Common.Maps.{lookup}
use jetstream_router.Handler.Window.{Element}
use jetstream_router.Handler.Shard.{
  Limits, Metrics, Shard, ShardSet, Observed, new_shard, new_shard_set, observe,
}
use jetstream_router.Handler.Shard.Invariant.{AllValid, VisitsAll, new_shard_set-AllValid}
use jetstream_router.Handler.Shard.Twice.{observe-observe}
use jetstream_router.Tests.State.{state}

-- The keys of a map, in the order of its entries.
abbrev pub visit : List (Str × Element) → List Str
visit [] = []
visit ((k, _) ∷ m) = k ∷ visit m

visit_iff :
    (m : List (Str × Element)) (k : Str) → Has k (visit m) ↔ ((v : Element) × (lookup k m ≡ some v))
unfolding lookup
visit_iff [] k = (λ h. absurd h, λ (v, h). cc)
visit_iff ((j, w) ∷ m) k =
    let (only, all) = visit_iff m k in
    elim (Bool-cases (j == k)) [
      | inl same ↦ (λ _. (w, rw (same, lookup) refl), λ _. inl ((eq_iff j k).0 same))
      | inr other ↦
          let next : lookup k ((j, w) ∷ m) ≡ lookup k m = rw (other, lookup) refl in
          (
            λ h. elim h [
              | inl e ↦ absurd (ground (arith, (eq_iff j k).1 e))
              | inr there ↦
                  let (v, found) = only there in (v, subst (λ x. x ≡ some v) (sym next) found)
            ],
            λ (v, found). inr (all (v, subst (λ x. x ≡ some v) next found)),
          )
    ]

pub visit-VisitsAll : VisitsAll visit
visit-VisitsAll [] d = (tt, visit_iff [])
visit-VisitsAll ((k, v) ∷ m) d = (
  (
    λ h. let (w, found) = (visit_iff m k).0 h in absurd (ground (arith, d.0)),
    (visit-VisitsAll m d.1).0,
  ),
  visit_iff ((k, v) ∷ m),
)

abbrev limits : Limits
limits = record { max_keys_per_shard = pos 5; dedup_us = pos 1000 }

abbrev set : ShardSet
set = new_shard_set (pos 2) (pos 100) limits

set-AllValid : AllValid set
set-AllValid = new_shard_set-AllValid (pos 2) (pos 100) limits

abbrev key : Str
key = lit "post"

abbrev twice : Option (ShardSet × Observed) → Str → Option Observed
twice none dk = none
twice (some (s, _)) dk = elim (observe visit key dk (pos 11) (pos 2) s) [
  | none ↦ none
  | some (_, o) ↦ some o
]

-- The second like alerts; the same like again is a duplicate.
observe_tests :
    (twice (observe visit key (lit "x") (pos 10) (pos 2) set) (lit "y")
      ≡ some (record { count = 2; dup = false; alert = true }))
    × (twice (observe visit key (lit "x") (pos 10) (pos 2) set) (lit "x")
        ≡ some (record { count = 0; dup = true; alert = false }))
unfolding state
observe_tests = (refl, refl)

abbrev shard : Shard
shard = new_shard (pos 100) limits

abbrev metrics : Metrics
metrics = record { duplicates = 0; alerts_throttled = 0; state_entries = 0 }

abbrev observed : ShardSet × Observed
observed = elim (observe visit key (lit "x") (pos 10) (pos 2) set) [
  | none ↦ (set, record { count = 0; dup = true; alert = false })
  | some r ↦ r
]

observe-observe_example :
    observe visit key (lit "x") (pos 90) (pos 2) observed.0
    ≡ some (
      record (observed.0) {
        metrics = record (observed.0.metrics) { duplicates = suc observed.0.metrics.duplicates };
      },
      record { count = 0; dup = true; alert = false },
    )
unfolding state
observe-observe_example =
    observe-observe visit key (lit "x") (pos 10) (pos 90) (pos 2) set observed.0 observed.1
      set-AllValid refl refl (λ sh at. ground arith)
