-- ===== src/Handler/Engagement/Replay.antt =====
-- What the engagement handler does with an event, and with the same event again.
use jetstream_router.Common.{
  suc, ◌≤◌, ◌≡◌, refl, sym, subst, Option, some, List, [], All, length, arith, Bool-cases,
  Option-cases, inl, inr,
}
use jetstream_router.Common.Int.{pos, ◌≤ℤ◌}
use jetstream_router.Common.Str.{Str, ◌==◌}
use jetstream_router.Event.{Event, dedup_key}
use jetstream_router.Handler.Window.{Element}
use jetstream_router.Handler.Shard.{observe}
use jetstream_router.Handler.Shard.Invariant.{AllValid, VisitsAll, observe-AllValid}
use jetstream_router.Handler.Shard.Again.{observe_again}
use jetstream_router.Handler.Alerts.{Alert, decode}
use jetstream_router.Handler.Engagement.{Engagement, conclude, count, handle}

module _ (visit : List (Str × Element) → List Str) (visits : VisitsAll visit)
    (unmarshal : Str → Option Str) where
  -- Where range visits every key of a map once, the engagement handler on valid shards returns
  -- for every event, with one alert at most, and every table of every shard stays within its cap.
  pub engagement-AllValid :
      (g : Engagement) (ev : Event)
      → AllValid g.state
      → (g' : Engagement) × (alerts : List Alert) × (handle visit unmarshal g ev
          ≡ some (g', alerts))
        × AllValid g'.state
        × (length alerts ≤ 1)
  unfolding handle count conclude
  engagement-AllValid g ev v = elim (Option-cases (decode unmarshal ev.body)) [
    | inl absent ↦ (g, [], rw (absent, handle) refl, v, omega arith)
    | inr (uri, found) ↦ elim (Bool-cases (uri == [])) [
      | inl skip ↦ (g, [], rw (found, handle, skip) refl, v, omega arith)
      | inr counts ↦
          let (s', o, ran, v', _) =
            observe-AllValid visit visits uri (dedup_key ev) ev.time_us g.threshold g.state v in
          (
            (conclude g ev uri (s', o)).0,
            (conclude g ev uri (s', o)).1,
            rw (found, handle, counts, count, ran) refl,
            v',
            ground arith,
          )
    ]
  ]

module _ (visit : List (Str × Element) → List Str) (unmarshal : Str → Option Str) where
  -- On valid shards whose dedup windows are not negative, an event that the engagement handler is
  -- given twice in a row counts once: the second time it sends no alert and leaves every shard as
  -- it is.
  pub engagement_replay :
      (g g' : Engagement) (ev : Event) (alerts : List Alert)
      → AllValid g.state
      → All (λ sh. pos 0 ≤ℤ sh.dedup.window_us) g.state.shards
      → handle visit unmarshal g ev ≡ some (g', alerts)
      → (g'' : Engagement) × (handle visit unmarshal g' ev ≡ some (g'', []))
        × (g''.state.shards ≡ g'.state.shards)
  unfolding handle count conclude
  engagement_replay g g' ev alerts v windows ran = elim (Option-cases (decode unmarshal ev.body)) [
    | inl absent ↦ (g', rw (absent, handle) refl, refl)
    | inr (uri, found) ↦ elim (Bool-cases (uri == [])) [
      | inl skip ↦ (g', rw (found, handle, skip) refl, refl)
      | inr counts ↦
          let counted : count visit unmarshal g ev uri ≡ some (g', alerts) =
            rw (found, handle, counts) at ran in
          elim (Option-cases (observe visit uri (dedup_key ev) ev.time_us g.threshold g.state)) [
            | inl panics ↦ absurd (ground arith)
            | inr ((s', o), observed) ↦
                let again =
                  observe_again visit uri (dedup_key ev) ev.time_us g.threshold g.state s' o v
                    windows observed in
                let after : g' ≡ record g { state = s' } = ground arith in
                subst
                  (λ x.
                    (g'' : Engagement) × (handle visit unmarshal x ev ≡ some (g'', []))
                    × (g''.state.shards ≡ x.state.shards))
                  (sym after)
                  (
                    record g {
                      state = record s' {
                        metrics = record (s'.metrics) { duplicates = suc s'.metrics.duplicates };
                      };
                    },
                    rw (found, handle, counts, count, again) refl,
                    refl,
                  )
          ]
    ]
  ]
