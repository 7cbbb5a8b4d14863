-- ===== src/Ingest/Machine/Race.antt =====
-- The readiness that `refreshLag` sets after the connection it is about is gone.
use jetstream_router.Common.{ℕ, ◌≡◌, ◌∙◌, ap, refl, true, false, Option, some}
use jetstream_router.Common.Int.{ℤ, pos, ◌≤ℤ◌, ltb_ℤ, ◌*ℤ◌}
use jetstream_router.Common.Str.{Str, lit}
use jetstream_router.Event.{Envelope}
use jetstream_router.Cursor.{lag, eqb_ℤ}
use jetstream_router.Obs.{set_ready}
use jetstream_router.Ingest.{
  disconnected, judge_lag, publish, hang_up, disconnect, count_attempt, delay,
}
use jetstream_router.Ingest.Delay.{IsJitter, delay_lem}
use jetstream_router.Ingest.States.{set_state_lem}
use jetstream_router.Ingest.Machine.Steps.{Run, here, next}
use jetstream_router.Ingest.Machine.{
  reading, waiting, committed, judged, Machine, lose, back_off, settle, judge, report, loses,
  settles, judges, reports,
}

-- A refreshLag that has found the connection up and the lag small.
abbrev pub IsOnTime : (ℤ → ℤ) → Machine → Type 0
IsOnTime since m =
    (m.ingest.connected ≡ true)
    × (eqb_ℤ m.ingest.cursor.latest (pos 0) ≡ false)
    × (ltb_ℤ m.ingest.cfg.max_lag (lag (λ v. since (v *ℤ pos 1000)) m.ingest.cursor) ≡ false)

judge_lag_lem :
    (sprintf : Str → ℤ → Str) (since : ℤ → ℤ) (m : Machine)
    → IsOnTime since m
    → (detail : Str) × (judge_lag sprintf since m.ingest ≡ some (true, detail))
unfolding judge_lag
judge_lag_lem sprintf since m (up, seen, small) = (
  sprintf (lit "lag %.1fs") (lag (λ v. since (v *ℤ pos 1000)) m.ingest.cursor),
  rw (seen, up, small) refl,
)

module _ (unmarshal : Str → Option Envelope) (marshal : ℤ → Str) (sprintf : Str → ℤ → Str) where
  -- Where a read loop runs, the tick of the maintenance loop is about to refresh a small lag, the
  -- context is not cancelled, BackoffMax is not negative and the random numbers keep to their
  -- range, there is an order of steps after which the ingestor waits to reconnect, is not
  -- connected and yet reports that it is ready.
  pub stale_ready :
      (m : Machine) (since jitter : ℤ → ℤ)
      → m.phase ≡ reading
      → m.upkeep ≡ committed
      → m.cancelled ≡ false
      → IsOnTime since m
      → pos 0 ≤ℤ m.ingest.cfg.backoff_max
      → IsJitter jitter
      → (n : Machine) × (k : ℕ) × (d : ℤ) × Run unmarshal marshal sprintf m k n
        × (n.phase ≡ waiting d)
        × (n.ingest.connected ≡ false)
        × (n.ingest.health.ready ≡ true)
  unfolding judge lose settle report back_off hang_up disconnect publish set_ready
  stale_ready m since jitter at tick on on_time limit range =
      let (detail, verdict) = judge_lag_lem sprintf since m on_time in
      let m' = judge sprintf since m in
      let m'' = lose m' in
      let lost = settle jitter (pos 0) m'' in
      let tries = count_attempt (pos 0) m.attempt in
      let (d, waits, _, _, _, _) = (delay_lem jitter m.ingest.cfg tries range).1 limit in
      let to : lost ≡ record m'' {
        ingest = disconnect m''.ingest;
        attempt = tries;
        phase = back_off (delay jitter m.ingest.cfg tries);
      } =
        rw (on, settle) refl in
      (
        report (some (true, detail)) lost,
        _,
        d,
        next
            (next (next (next here (judges m since tick)) (loses m' at))
              (settles m'' jitter (pos 0) refl range))
            (reports lost (some (true, detail)) (ap (λ n. n.upkeep) to ∙ ap judged verdict)),
        ap (λ n. n.phase) to ∙ ap back_off waits,
        ap (λ n. n.ingest.connected) to
            ∙ (set_state_lem disconnected (record (m''.ingest) { reconnects = _ })).1.connected,
        refl,
      )
