-- ===== src/Ingest/Machine/Fits.antt =====
-- What the phase of `Run` says of the state, and what holds of the machine at any time.
use jetstream_router.Common.{
  Option, ℕ, ◌≤◌, ◌≡◌, ◌⊎◌, ◌∙◌, ap, refl, subst, sym, Bool, true, false, if◌then◌else◌, eqb,
}
use jetstream_router.Common.Int.{ℤ, pos, ◌≤ℤ◌, ◌<ℤ◌}
use jetstream_router.Common.Str.{Str}
use jetstream_router.Cursor.Durable.{IsSavedFrom}
use jetstream_router.Ingest.{
  State, disconnected, connecting, replaying, live, reconnecting, Config, set_state,
}
use jetstream_router.Ingest.States.{GaugesAgree, set_state_lem, set_state-GaugesAgree}
use jetstream_router.Ingest.Machine.{
  Phase, top, dialing, greeting, reading, failed, waiting, stopped, crashed, Machine,
}

-- The state of a connection that stands.
abbrev pub IsUp : State → Type 0
IsUp s = (s ≡ replaying) ⊎ (s ≡ live)

-- The state, the connection and the number of the attempt, at each place in `Run`.
abbrev pub Fits : Phase → Config → State → Bool → ℕ → Bool → Type 0
Fits top cfg s up attempt over = (s ≡ disconnected) × (up ≡ false)
Fits dialing cfg s up attempt over =
    (s ≡ (if eqb attempt 0 then connecting else reconnecting)) × (up ≡ false)
Fits greeting cfg s up attempt over = IsUp s × (up ≡ true)
Fits reading cfg s up attempt over = IsUp s × (up ≡ true)
Fits failed cfg s up attempt over = up ≡ false
Fits (waiting d) cfg s up attempt over =
    (s ≡ disconnected)
    × (up ≡ false)
    × (1 ≤ attempt)
    × (pos 0 ≤ℤ d)
    × (d ≤ℤ cfg.backoff_max)
    × (d ≤ℤ pos 64000000000)
Fits stopped cfg s up attempt over = (s ≡ disconnected) × (up ≡ false) × (over ≡ true)
Fits crashed cfg s up attempt over = cfg.backoff_max <ℤ pos 0

abbrev pub PhaseFits : Machine → Type 0
PhaseFits m = Fits m.phase m.ingest.cfg m.ingest.state m.ingest.connected m.attempt m.cancelled

pub record IsConsistent (old : Option Str) (marshal : ℤ → Str) (m : Machine) : Type 0 where
  pub phase : PhaseFits m
  pub gauges : GaugesAgree m.ingest.state m.ingest.gauges
  pub alive : m.ingest.health.live ≡ true
  pub behind : m.ingest.cursor.committed ≤ℤ m.ingest.cursor.latest
  pub synced : IsSavedFrom old marshal m.ingest.cursor m.disk

-- A connection that stands only keeps standing.
pub Fits-over :
    (p : Phase) (cfg : Config) (s : State) (up : Bool) (n : ℕ) (b : Bool)
    → Fits p cfg s up n b
    → Fits p cfg s up n true
Fits-over top cfg s up n b h = h
Fits-over dialing cfg s up n b h = h
Fits-over greeting cfg s up n b h = h
Fits-over reading cfg s up n b h = h
Fits-over failed cfg s up n b h = h
Fits-over (waiting d) cfg s up n b h = h
Fits-over stopped cfg s up n b h = (h.0, h.1, refl)
Fits-over crashed cfg s up n b h = h

module _ (old : Option Str) (marshal : ℤ → Str) where
  -- A change of phase, and of the state by `setState`.
  pub set_state-IsConsistent :
      (s : State) (m : Machine) (phase : Phase) (attempt : ℕ)
      → IsConsistent old marshal m
      → Fits phase m.ingest.cfg s m.ingest.connected attempt m.cancelled
      → IsConsistent old marshal
          (record m { ingest = set_state s m.ingest; phase = phase; attempt = attempt })
  set_state-IsConsistent s m phase attempt c fits =
      let (there, keeps) = set_state_lem s m.ingest in
      record {
        phase =
            subst
              (λ x.
                Fits phase x (set_state s m.ingest).state (set_state s m.ingest).connected attempt
                  m.cancelled)
              (sym keeps.cfg)
              (subst
                (λ x.
                  Fits phase m.ingest.cfg x (set_state s m.ingest).connected attempt m.cancelled)
                (sym there)
                (subst (λ x. Fits phase m.ingest.cfg s x attempt m.cancelled) (sym keeps.connected)
                  fits));
        gauges = set_state-GaugesAgree s m.ingest c.gauges;
        alive = ap (λ h. h.live) keeps.health ∙ c.alive;
        behind = subst (λ x. x.committed ≤ℤ x.latest) (sym keeps.cursor) c.behind;
        synced = subst (λ x. IsSavedFrom old marshal x m.disk) (sym keeps.cursor) c.synced;
      }

  pub phase_of :
      (p : Phase) (m : Machine)
      → m.phase ≡ p
      → IsConsistent old marshal m
      → Fits p m.ingest.cfg m.ingest.state m.ingest.connected m.attempt m.cancelled
  phase_of p m at c =
      subst (λ q. Fits q m.ingest.cfg m.ingest.state m.ingest.connected m.attempt m.cancelled) at
        c.phase

  -- A change of phase alone.
  pub move-IsConsistent :
      (m : Machine) (phase : Phase)
      → IsConsistent old marshal m
      → Fits phase m.ingest.cfg m.ingest.state m.ingest.connected m.attempt m.cancelled
      → IsConsistent old marshal (record m { phase = phase })
  move-IsConsistent m phase c fits = record {
    phase = fits;
    gauges = c.gauges;
    alive = c.alive;
    behind = c.behind;
    synced = c.synced;
  }
