-- ===== src/Ingest/Machine/Readiness.antt =====
-- When the process reports that it is ready, and that it is alive.
use jetstream_router.Common.{
  ℕ, ◌≡◌, ◌⊎◌, ◌∙◌, ap, refl, subst, sym, true, false, Option, none, some, if◌then◌else◌, arith,
  Bool-cases, inl, inr, eqb,
}
use jetstream_router.Common.Int.{ℤ}
use jetstream_router.Common.Str.{Str, lit, ◌==◌}
use jetstream_router.Event.{Envelope}
use jetstream_router.Cursor.{Disk, new_cursor}
use jetstream_router.Dispatch.{Dispatcher}
use jetstream_router.Obs.{new_health, set_ready, Response, healthz, readyz, serve}
use jetstream_router.Ingest.{
  disconnected, connecting, reconnecting, Config, new, set_state, announce, publish, hang_up,
  disconnect, establish,
}
use jetstream_router.Ingest.States.{set_state_lem}
use jetstream_router.Ingest.Machine.Round.{read_frame-Kept}
use jetstream_router.Ingest.Machine.Fits.{IsConsistent, phase_of}
use jetstream_router.Ingest.Machine.Steps.{lateness, Run, here, next, is_failed}
use jetstream_router.Ingest.Machine.Reach.{Run-IsConsistent}
use jetstream_router.Ingest.Machine.{
  Phase, top, dialing, greeting, reading, failed, waiting, Machine, start, finish, begin, bad_url,
  refused, accepted, connect, greet, take_in, lose, settle, wake, abandon, cancel, save, judge,
  report, retire, Step, begins, dials, greets, receives, loses, settles, wakes, abandons, saves,
  judges, reports, retires, cancels,
}

-- It is connected, a connection that is lost is being cleared away, or the process is to end.
abbrev pub MayBeReady : Machine → Type 0
MayBeReady m = (m.ingest.connected ≡ true) ⊎ ((m.phase ≡ failed) ⊎ (m.cancelled ≡ true))

abbrev pub IsHonest : Machine → Type 0
IsHonest m = m.ingest.health.ready ≡ true → MayBeReady m

-- Without a connection, and away from a lost one, only the end of the process is left.
is_ending :
    (p : Phase) (m : Machine)
    → m.phase ≡ p
    → is_failed p ≡ false
    → m.ingest.connected ≡ false
    → MayBeReady m
    → m.cancelled ≡ true
is_ending p m at away down (inl up) = ground arith
is_ending p m at away down (inr (inl lost)) = absurd (ground (arith, ap is_failed (sym at ∙ lost)))
is_ending p m at away down (inr (inr over)) = over

begin_keeps :
    (m : Machine)
    → ((begin m).ingest.health ≡ m.ingest.health) × ((begin m).cancelled ≡ m.cancelled)
unfolding begin finish
begin_keeps m =
    let next = if eqb m.attempt 0 then connecting else reconnecting in
    elim (Bool-cases m.cancelled) [
      | inl over ↦
          let to : begin m ≡ finish m = rw (over, begin) refl in
          subst (λ n. (n.ingest.health ≡ m.ingest.health) × (n.cancelled ≡ m.cancelled)) (sym to)
            ((set_state_lem disconnected m.ingest).1.health, refl)
      | inr on ↦
          let to : begin m ≡ record m { ingest = set_state next m.ingest; phase = dialing } =
            rw (on, begin) refl in
          subst (λ n. (n.ingest.health ≡ m.ingest.health) × (n.cancelled ≡ m.cancelled)) (sym to)
            ((set_state_lem next m.ingest).1.health, refl)
    ]

-- After a connection is lost, the process is not ready, or is to end.
settle_lem :
    (jitter : ℤ → ℤ) (held : ℤ) (m : Machine)
    → ((settle jitter held m).ingest.health.ready ≡ false)
      ⊎ ((settle jitter held m).cancelled ≡ true)
unfolding settle finish disconnect set_ready
settle_lem jitter held m = elim (Bool-cases m.cancelled) [
  | inl over ↦
      let to : settle jitter held m ≡ finish m = rw (over, settle) refl in
      inr (ap (λ n. n.cancelled) to ∙ over)
  | inr on ↦ inl (rw (on, settle) refl)
]

is_failed-≡ : (p : Phase) → is_failed p ≡ true → p ≡ failed
is_failed-≡ failed h = refl
is_failed-≡ top h = ground arith
is_failed-≡ p h = ground arith

module _ (unmarshal : Str → Option Envelope) (marshal : ℤ → Str) (sprintf : Str → ℤ → Str) where
  Step-IsHonest :
      (old : Option Str) {m n : Machine} (step : Step unmarshal marshal sprintf m n)
      → lateness unmarshal marshal sprintf step ≡ 0
      → IsConsistent old marshal m
      → IsHonest m
      → IsHonest n
  unfolding lateness connect establish greet take_in lose wake abandon cancel save judge report
      retire announce hang_up publish set_ready
  Step-IsHonest old (begins m at) on_time c h = λ r.
      let (health, over) = begin_keeps m in
      let down = (phase_of old marshal top m at c).1 in
      inr (inr (over ∙ is_ending top m at refl down (h (ap (λ x. x.ready) (sym health) ∙ r))))
  Step-IsHonest old (dials m since bad_url at) on_time c h = λ r. inr (inl refl)
  Step-IsHonest old (dials m since refused at) on_time c h = λ r. inr (inl refl)
  Step-IsHonest old (dials m since accepted at) on_time c h = λ r. inl refl
  Step-IsHonest old (greets m at) on_time c h = λ r. inl (phase_of old marshal greeting m at c).1
  Step-IsHonest old (receives m since choice frame g d at ran) on_time c h = λ r.
      let kept = read_frame-Kept unmarshal since choice frame m.ingest m.disp g d ran in
      inl (kept.connected ∙ (phase_of old marshal reading m at c).1)
  Step-IsHonest old (loses m at) on_time c h = λ r. inr (inl refl)
  Step-IsHonest old (settles m jitter held at range) on_time c h = λ r.
      elim (settle_lem jitter held m) [
        | inl unready ↦ absurd (ground (arith, sym r ∙ unready))
        | inr over ↦ inr (inr over)
      ]
  Step-IsHonest old (wakes m d at) on_time c h = λ r.
      inr (inr (is_ending (waiting d) m at refl (phase_of old marshal (waiting d) m at c).1 (h r)))
  Step-IsHonest old (abandons m d at over) on_time c h = λ r. inr (inr over)
  Step-IsHonest old (saves m fault at) on_time c h = h
  Step-IsHonest old (judges m since at) on_time c h = h
  Step-IsHonest old (reports m none at) on_time c h = h
  Step-IsHonest old (reports m (some (false, detail)) at) on_time c h = λ r. absurd (ground arith)
  Step-IsHonest old (reports m (some (true, detail)) at) on_time c h = λ r.
      elim (Bool-cases m.ingest.connected) [
        | inl up ↦ inl up
        | inr down ↦ elim (Bool-cases (is_failed m.phase)) [
          | inl lost ↦ inr (inl (is_failed-≡ m.phase lost))
          | inr away ↦ absurd (ground (arith, on_time, down, away))
        ]
      ]
  Step-IsHonest old (retires m at over) on_time c h = h
  Step-IsHonest old (cancels m) on_time c h = λ r. inr (inr refl)

  Run-IsHonest :
      (cfg : Config) (d : Dispatcher) (disk : Disk) (k : ℕ) (n : Machine)
      → k ≡ 0
      → Run unmarshal marshal sprintf (start (new cfg new_cursor new_health) d disk) k n
      → IsHonest n
  unfolding start new new_health
  Run-IsHonest cfg d disk k n none_ here = λ r. absurd (ground arith)
  Run-IsHonest cfg d disk k n none_ (next {k = j} {n = p} run step) =
      Step-IsHonest disk.file step (omega arith)
        (Run-IsConsistent unmarshal marshal sprintf cfg d disk j p run)
        (Run-IsHonest cfg d disk j p (omega arith) run)

  -- Whatever happens from the call of Run on, /healthz answers 200, and /readyz answers 200 or
  -- 503; and if no verdict on the lag is set after the connection it is about was cleared away,
  -- /readyz answers 200 only while the ingestor is connected, while a lost connection is being
  -- cleared away, or when the process is to end.
  pub probes_lem :
      (cfg : Config) (d : Dispatcher) (disk : Disk) (metrics : Response) (k : ℕ) (n : Machine)
      → Run unmarshal marshal sprintf (start (new cfg new_cursor new_health) d disk) k n
      → ((serve metrics n.ingest.health (lit "/healthz")).status ≡ 200)
        × (((serve metrics n.ingest.health (lit "/readyz")).status ≡ 200)
            ⊎ ((serve metrics n.ingest.health (lit "/readyz")).status ≡ 503))
        × (k ≡ 0 → (serve metrics n.ingest.health (lit "/readyz")).status ≡ 200 → MayBeReady n)
  unfolding serve healthz readyz ◌==◌
  probes_lem cfg d disk metrics k n run =
      let c = Run-IsConsistent unmarshal marshal sprintf cfg d disk k n run in
      (
        ground (arith, c.alive),
        ground arith,
        λ on_time answer. Run-IsHonest cfg d disk k n on_time run (ground arith),
      )
