-- ===== src/Ingest/Machine/Steps.antt =====
-- The runs of the machine.
use jetstream_router.Common.{ℕ, ◌+◌, Bool, true, false, ◌||◌, Option, none, some, if◌then◌else◌}
use jetstream_router.Common.Int.{ℤ}
use jetstream_router.Common.Str.{Str}
use jetstream_router.Event.{Envelope}
use jetstream_router.Ingest.Machine.{
  Phase, failed, Machine, Step, begins, dials, greets, receives, loses, settles, wakes, abandons,
  saves, judges, reports, retires, cancels,
}

abbrev pub is_failed : Phase → Bool
is_failed failed = true
is_failed _ = false

-- A verdict "ready" that is set when the connection that it is about is gone for good.
abbrev pub late : Machine → Option (Bool × Str) → ℕ
late m none = 0
late m (some (false, detail)) = 0
late m (some (true, detail)) = if m.ingest.connected || is_failed m.phase then 0 else 1

module _ (unmarshal : Str → Option Envelope) (marshal : ℤ → Str) (sprintf : Str → ℤ → Str) where
  unfoldable pub lateness : {m n : Machine} → Step unmarshal marshal sprintf m n → ℕ
  lateness (begins m at) = 0
  lateness (dials m since outcome at) = 0
  lateness (greets m at) = 0
  lateness (receives m since choice frame g d at ran) = 0
  lateness (loses m at) = 0
  lateness (settles m jitter held at range) = 0
  lateness (wakes m d at) = 0
  lateness (abandons m d at over) = 0
  lateness (saves m fault at) = 0
  lateness (judges m since at) = 0
  lateness (reports m verdict at) = late m verdict
  lateness (retires m at over) = 0
  lateness (cancels m) = 0

  -- The steps of a run, with the number of late verdicts among them.
  pub data Run (m : Machine) : ℕ → Machine → Type 0 where
    here : Run m 0 m
    next :
        {k : ℕ} {n p : Machine}
        → Run m k n
        → (step : Step unmarshal marshal sprintf n p) → Run m (lateness step + k) p
