-- ===== src/Handler/SocialGraph/Replay.antt =====
-- What the social graph handler does with an event, and with the same event again.
use jetstream_router.Common.{
  suc, ◌≤◌, ◌≡◌, refl, sym, subst, Option, some, List, [], All, length, not, arith, Bool-cases,
  Option-cases, inl, inr,
}
use jetstream_router.Common.Int.{pos, ◌≤ℤ◌}
use jetstream_router.Common.Str.{Str, lit, has_prefix}
use jetstream_router.Event.{Event, dedup_key}
use jetstream_router.Handler.Window.{Element}
use jetstream_router.Handler.Shard.{observe}
use jetstream_router.Handler.Shard.Invariant.{AllValid, VisitsAll, observe-AllValid}
use jetstream_router.Handler.Shard.Again.{observe_again}
use jetstream_router.Handler.Alerts.{Alert, decode}
use jetstream_router.Handler.SocialGraph.{SocialGraph, conclude, count, handle}

module _ (visit : List (Str × Element) → List Str) (visits : VisitsAll visit)
    (unmarshal : Str → Option Str) where
  -- `Handle` returns for every event, with one alert at most, and every table of every shard stays
  -- within its cap.
  pub social_graph-AllValid :
      (g : SocialGraph) (ev : Event)
      → AllValid g.state
      → (g' : SocialGraph) × (alerts : List Alert) × (handle visit unmarshal g ev
          ≡ some (g', alerts))
        × AllValid g'.state
        × (length alerts ≤ 1)
  unfolding handle count conclude
  social_graph-AllValid g ev v = elim (Option-cases (decode unmarshal ev.body)) [
    | inl absent ↦ (g, [], rw (absent, handle) refl, v, omega arith)
    | inr (subject, found) ↦ elim (Bool-cases (not (has_prefix subject (lit "did:")))) [
      | inl skip ↦ (g, [], rw (found, handle, skip) refl, v, omega arith)
      | inr counts ↦
          let (s', o, ran, v', _) =
            observe-AllValid visit visits subject (dedup_key ev) ev.time_us g.threshold g.state v in
          (
            (conclude g subject (s', o)).0,
            (conclude g subject (s', o)).1,
            rw (found, handle, counts, count, ran) refl,
            v',
            ground arith,
          )
    ]
  ]

module _ (visit : List (Str × Element) → List Str) (unmarshal : Str → Option Str) where
  -- On valid shards whose dedup windows are not negative, an event that the social graph handler
  -- is given twice in a row counts once: the second time it sends no alert and leaves every shard
  -- as it is.
  pub social_graph_replay :
      (g g' : SocialGraph) (ev : Event) (alerts : List Alert)
      → AllValid g.state
      → All (λ sh. pos 0 ≤ℤ sh.dedup.window_us) g.state.shards
      → handle visit unmarshal g ev ≡ some (g', alerts)
      → (g'' : SocialGraph) × (handle visit unmarshal g' ev ≡ some (g'', []))
        × (g''.state.shards ≡ g'.state.shards)
  unfolding handle count conclude
  social_graph_replay g g' ev alerts v windows ran =
      elim (Option-cases (decode unmarshal ev.body)) [
        | inl absent ↦ (g', rw (absent, handle) refl, refl)
        | inr (subject, found) ↦ elim (Bool-cases (not (has_prefix subject (lit "did:")))) [
          | inl skip ↦ (g', rw (found, handle, skip) refl, refl)
          | inr counts ↦
              let counted : count visit unmarshal g ev subject ≡ some (g', alerts) =
                rw (found, handle, counts) at ran in
              elim (Option-cases
                (observe visit subject (dedup_key ev) ev.time_us g.threshold g.state)) [
                  | inl panics ↦ absurd (ground arith)
                  | inr ((s', o), observed) ↦
                      let again =
                        observe_again visit subject (dedup_key ev) ev.time_us g.threshold g.state s'
                          o v windows observed in
                      let after : g' ≡ record g { state = s' } = ground arith in
                      subst
                        (λ x.
                          (g'' : SocialGraph) × (handle visit unmarshal x ev ≡ some (g'', []))
                          × (g''.state.shards ≡ x.state.shards))
                        (sym after)
                        (
                          record g {
                            state = record s' {
                              metrics = record (s'.metrics) {
                                duplicates = suc s'.metrics.duplicates;
                              };
                            };
                          },
                          rw (found, handle, counts, count, again) refl,
                          refl,
                        )
                ]
        ]
      ]
