-- ===== src/Ingest/States.antt =====
-- `setState` and its gauges.
use jetstream_router.Common.{ℕ, ◌≡◌, ◌⊎◌, refl, true, if◌then◌else◌, arith, Bool-cases, inl, inr}
use jetstream_router.Ingest.{
  State, disconnected, connecting, replaying, live, reconnecting, all_states, same_state, Ingestor,
  set_gauges, set_state,
}

pub same_state-≡ : (s t : State) → same_state s t ≡ true → s ≡ t
unfolding same_state
same_state-≡ disconnected disconnected h = refl
same_state-≡ connecting connecting h = refl
same_state-≡ replaying replaying h = refl
same_state-≡ live live h = refl
same_state-≡ reconnecting reconnecting h = refl
same_state-≡ disconnected t h = ground arith
same_state-≡ connecting t h = ground arith
same_state-≡ replaying t h = ground arith
same_state-≡ live t h = ground arith
same_state-≡ reconnecting t h = ground arith

-- What `setState` leaves alone.
pub record Keeps (g g' : Ingestor) : Type 0 where
  pub cursor : g'.cursor ≡ g.cursor
  pub health : g'.health ≡ g.health
  pub connected : g'.connected ≡ g.connected
  pub cfg : g'.cfg ≡ g.cfg
  pub received : g'.received ≡ g.received
  pub malformed : g'.malformed ≡ g.malformed

Keeps-refl : (g : Ingestor) → Keeps g g
Keeps-refl g = record {
  cursor = refl;
  health = refl;
  connected = refl;
  cfg = refl;
  received = refl;
  malformed = refl;
}

pub set_state_lem :
    (s : State) (g : Ingestor) → ((set_state s g).state ≡ s) × Keeps g (set_state s g)
unfolding set_state
set_state_lem s g = elim (Bool-cases (same_state g.state s)) [
  | inl same ↦ rw (same, set_state) (same_state-≡ g.state s same, Keeps-refl g)
  | inr other ↦
      rw (other, set_state)
        (
          refl,
          record {
            cursor = refl;
            health = refl;
            connected = refl;
            cfg = refl;
            received = refl;
            malformed = refl;
          },
        )
]

-- The gauge of the state is one, and all others are zero.
abbrev pub IsShown : State → (State → ℕ) → Type 0
IsShown s gauges = (label : State) → gauges label ≡ (if same_state label s then 1 else 0)

set_gauges_lem : (s : State) (gauges : State → ℕ) → IsShown s (set_gauges s all_states gauges)
unfolding set_gauges same_state
set_gauges_lem s gauges disconnected = refl
set_gauges_lem s gauges connecting = refl
set_gauges_lem s gauges replaying = refl
set_gauges_lem s gauges live = refl
set_gauges_lem s gauges reconnecting = refl

-- Before the first change of state, no gauge was ever set.
abbrev pub GaugesAgree : State → (State → ℕ) → Type 0
GaugesAgree s gauges =
    IsShown s gauges ⊎ ((s ≡ disconnected) × ((label : State) → gauges label ≡ 0))

pub set_state-GaugesAgree :
    (s : State) (g : Ingestor)
    → GaugesAgree g.state g.gauges
    → GaugesAgree (set_state s g).state (set_state s g).gauges
unfolding set_state
set_state-GaugesAgree s g h = elim (Bool-cases (same_state g.state s)) [
  | inl same ↦ rw (same, set_state) h
  | inr other ↦ rw (other, set_state) (inl (set_gauges_lem s g.gauges))
]
