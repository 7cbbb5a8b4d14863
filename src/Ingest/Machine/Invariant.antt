-- ===== src/Ingest/Machine/Invariant.antt =====
-- Every step keeps what holds of the machine.
use jetstream_router.Common.{
  Option, ℕ, suc, ◌≤◌, ◌≡◌, ◌⊎◌, ◌∙◌, ap, refl, subst, sym, true, false, if◌then◌else◌, eqb, arith,
  Bool-cases, inl, inr,
}
use jetstream_router.Common.Int.{ℤ, pos, ◌≤ℤ◌, ltb_ℤ}
use jetstream_router.Common.Str.{Str}
use jetstream_router.Cursor.Durable.{IsSavedFrom}
use jetstream_router.Obs.{set_ready}
use jetstream_router.Ingest.{
  State, disconnected, connecting, replaying, live, reconnecting, Ingestor, set_state, subscribe,
  lapsed, establish, disconnect, count_attempt, delay,
}
use jetstream_router.Ingest.States.{set_state_lem, set_state-GaugesAgree}
use jetstream_router.Ingest.Delay.{IsJitter, delay_lem}
use jetstream_router.Ingest.Machine.Fits.{
  IsUp, Fits, IsConsistent, set_state-IsConsistent, phase_of, move-IsConsistent,
}
use jetstream_router.Ingest.Machine.{
  Phase, top, dialing, greeting, failed, stopped, Machine, finish, begin, Dial, bad_url, refused,
  accepted, connect, back_off, settle,
}

subscribe_gap :
    (since : ℤ → ℤ) (g : Ingestor)
    → ((subscribe since g).0 ≡ g) ⊎ ((subscribe since g).0 ≡ record g { gaps = suc g.gaps })
unfolding subscribe
subscribe_gap since g = elim (Bool-cases (ltb_ℤ (pos 0) g.cursor.latest)) [
  | inr fresh ↦ inl (rw (fresh, subscribe) refl)
  | inl resumes ↦ elim (Bool-cases (lapsed since g)) [
    | inl late ↦ inr (rw (resumes, subscribe, late) refl)
    | inr held ↦ inl (rw (resumes, subscribe, held) refl)
  ]
]

attempted : (held : ℤ) (attempt : ℕ) → 1 ≤ count_attempt held attempt
unfolding count_attempt
attempted held attempt = omega arith

module _ (old : Option Str) (marshal : ℤ → Str) where
  pub finish-IsConsistent :
      (m : Machine)
      → m.ingest.connected ≡ false
      → m.cancelled ≡ true
      → IsConsistent old marshal m
      → IsConsistent old marshal (finish m)
  unfolding finish
  finish-IsConsistent m down over c =
      set_state-IsConsistent old marshal disconnected m stopped m.attempt c (refl, down, over)

  pub begin-IsConsistent :
      (m : Machine)
      → m.phase ≡ top
      → IsConsistent old marshal m
      → IsConsistent old marshal (begin m)
  unfolding begin
  begin-IsConsistent m at c =
      let (_, down) = phase_of old marshal top m at c in
      let next = if eqb m.attempt 0 then connecting else reconnecting in
      elim (Bool-cases m.cancelled) [
        | inl over ↦
            let to : begin m ≡ finish m = rw (over, begin) refl in
            subst (IsConsistent old marshal) (sym to) (finish-IsConsistent m down over c)
        | inr on ↦
            let to : begin m ≡ record m { ingest = set_state next m.ingest; phase = dialing } =
              rw (on, begin) refl in
            subst (IsConsistent old marshal) (sym to)
              (set_state-IsConsistent old marshal next m dialing m.attempt c (refl, down))
      ]

  -- `subscribeURL` counts a gap at most.
  subscribe-IsConsistent :
      (since : ℤ → ℤ) (m : Machine)
      → IsConsistent old marshal m
      → IsConsistent old marshal (record m { ingest = (subscribe since m.ingest).0 })
  subscribe-IsConsistent since m c = elim (subscribe_gap since m.ingest) [
    | inl same ↦ subst (λ g. IsConsistent old marshal (record m { ingest = g })) (sym same) c
    | inr more ↦
        subst (λ g. IsConsistent old marshal (record m { ingest = g })) (sym more)
          (record {
            phase = c.phase;
            gauges = c.gauges;
            alive = c.alive;
            behind = c.behind;
            synced = c.synced;
          })
  ]

  up-IsConsistent :
      (s : State) (m : Machine)
      → IsUp s
      → IsConsistent old marshal m
      → IsConsistent old marshal (record m {
        ingest = record (set_state s m.ingest) { connected = true };
        phase = greeting;
      })
  up-IsConsistent s m up c =
      let (there, keeps) = set_state_lem s m.ingest in
      record {
        phase = (subst IsUp (sym there) up, refl);
        gauges = set_state-GaugesAgree s m.ingest c.gauges;
        alive = ap (λ h. h.live) keeps.health ∙ c.alive;
        behind = subst (λ x. x.committed ≤ℤ x.latest) (sym keeps.cursor) c.behind;
        synced = subst (λ x. IsSavedFrom old marshal x m.disk) (sym keeps.cursor) c.synced;
      }

  establish-IsConsistent :
      (m : Machine)
      → IsConsistent old marshal m
      → IsConsistent old marshal (record m { ingest = establish m.ingest; phase = greeting })
  unfolding establish
  establish-IsConsistent m c = elim (Bool-cases (ltb_ℤ (pos 0) m.ingest.cursor.latest)) [
    | inl behind ↦
        let to : establish m.ingest ≡ record (set_state replaying m.ingest) { connected = true } =
          rw (behind, establish) refl in
        subst (λ g. IsConsistent old marshal (record m { ingest = g; phase = greeting })) (sym to)
          (up-IsConsistent replaying m (inl refl) c)
    | inr fresh ↦
        let to : establish m.ingest ≡ record (set_state live m.ingest) { connected = true } =
          rw (fresh, establish) refl in
        subst (λ g. IsConsistent old marshal (record m { ingest = g; phase = greeting })) (sym to)
          (up-IsConsistent live m (inr refl) c)
  ]

  pub connect-IsConsistent :
      (since : ℤ → ℤ) (outcome : Dial) (m : Machine)
      → m.phase ≡ dialing
      → IsConsistent old marshal m
      → IsConsistent old marshal (connect since outcome m)
  unfolding connect
  connect-IsConsistent since bad_url m at c =
      move-IsConsistent old marshal m failed c (phase_of old marshal dialing m at c).1
  connect-IsConsistent since refused m at c =
      let m' = record m { ingest = (subscribe since m.ingest).0 } in
      let c' = subscribe-IsConsistent since m c in
      move-IsConsistent old marshal m' failed c' (phase_of old marshal dialing m' at c').1
  connect-IsConsistent since accepted m at c =
      establish-IsConsistent (record m { ingest = (subscribe since m.ingest).0 })
        (subscribe-IsConsistent since m c)

  -- What `Run` does after a disconnect.
  disconnect-IsConsistent :
      (m : Machine) (phase : Phase) (attempt : ℕ)
      → IsConsistent old marshal m
      → Fits phase m.ingest.cfg disconnected m.ingest.connected attempt m.cancelled
      → IsConsistent old marshal
          (record m { ingest = disconnect m.ingest; attempt = attempt; phase = phase })
  unfolding disconnect set_ready
  disconnect-IsConsistent m phase attempt c fits =
      let m' = record m { ingest = record (m.ingest) { reconnects = suc m.ingest.reconnects } } in
      let c' : IsConsistent old marshal m' = record {
        phase = c.phase;
        gauges = c.gauges;
        alive = c.alive;
        behind = c.behind;
        synced = c.synced;
      } in
      let c'' = set_state-IsConsistent old marshal disconnected m' phase attempt c' fits in
      record {
        phase = c''.phase;
        gauges = c''.gauges;
        alive = c''.alive;
        behind = c''.behind;
        synced = c''.synced;
      }

  pub settle-IsConsistent :
      (jitter : ℤ → ℤ) (held : ℤ) (m : Machine)
      → m.phase ≡ failed
      → IsJitter jitter
      → IsConsistent old marshal m
      → IsConsistent old marshal (settle jitter held m)
  unfolding settle back_off
  settle-IsConsistent jitter held m at range c =
      let down = phase_of old marshal failed m at c in
      let n = count_attempt held m.attempt in
      let (negative, positive) = delay_lem jitter m.ingest.cfg n range in
      elim (Bool-cases m.cancelled) [
        | inl over ↦
            let to : settle jitter held m ≡ finish m = rw (over, settle) refl in
            subst (IsConsistent old marshal) (sym to) (finish-IsConsistent m down over c)
        | inr on ↦
            let to : settle jitter held m ≡ record m {
              ingest = disconnect m.ingest;
              attempt = n;
              phase = back_off (delay jitter m.ingest.cfg n);
            } =
              rw (on, settle) refl in
            subst (IsConsistent old marshal) (sym to) (
              disconnect-IsConsistent m (back_off (delay jitter m.ingest.cfg n)) n c
                (elim (Bool-cases (ltb_ℤ m.ingest.cfg.backoff_max (pos 0))) [
                  | inl below ↦
                      subst
                        (λ d.
                          Fits (back_off d) m.ingest.cfg disconnected m.ingest.connected n
                            m.cancelled)
                        (sym (negative (ground arith))) (ground arith)
                  | inr above ↦
                      let (d, waits, low, limit, cap, _) = positive (ground arith) in
                      subst
                        (λ d.
                          Fits (back_off d) m.ingest.cfg disconnected m.ingest.connected n
                            m.cancelled)
                        (sym waits) (refl, down, attempted held m.attempt, low, limit, cap)
                ]))
      ]
