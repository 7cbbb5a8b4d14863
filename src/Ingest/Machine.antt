-- ===== src/Ingest/Machine.antt =====
-- internal/jetstream/ingest.go: `Run` and `maintenanceLoop` as the steps of two goroutines, in any
-- order. A step of one is what it does between two accesses of what both share, with two
-- exceptions: `Commit` is one step, and so are the reads of `refreshLag`.
pub mod Round
pub mod Steps
pub mod Fits
pub mod Invariant
pub mod Reach
pub mod Readiness
pub mod Race
use jetstream_router.Common.{
  ℕ, suc, ◌+◌, ◌≡◌, Bool, true, false, Option, none, some, Result, if◌then◌else◌, eqb, ltb,
}
use jetstream_router.Common.Int.{ℤ, pos, ◌≤ℤ◌, ◌<ℤ◌}
use jetstream_router.Common.Str.{Str}
use jetstream_router.Event.{Envelope}
use jetstream_router.Route.{Choice}
use jetstream_router.Cursor.{Disk, Cursor, Fault, commit}
use jetstream_router.Dispatch.{Dispatcher}
use jetstream_router.Obs.{Health}
use jetstream_router.Ingest.Delay.{IsJitter}
use jetstream_router.Ingest.{
  State, disconnected, connecting, reconnecting, Ingestor, Config, new, set_state, subscribe,
  establish, announce, Read, reads, read_frame, judge_lag, publish, hang_up, disconnect,
  count_attempt, delay,
}

-- Where `Run` stands: at its loop's test, in the dial of `connectAndRead`, before it reports that
-- it is ready, in the read loop, after `connectAndRead`, in the backoff, or at its end; `crashed`
-- is the panic of `rand.Int63n`.
pub data Phase : Type 0 where
  top : Phase
  dialing : Phase
  greeting : Phase
  reading : Phase
  failed : Phase
  waiting : ℤ → Phase
  stopped : Phase
  crashed : Phase

-- Where `maintenanceLoop` stands: at its select, before `refreshLag`, within it with what it is
-- about to set, or at its end.
pub data Upkeep : Type 0 where
  resting : Upkeep
  committed : Upkeep
  judged : Option (Bool × Str) → Upkeep
  ended : Upkeep

-- `cancelled` is whether the context is.
pub record Machine : Type 0 where
  pub ingest : Ingestor
  pub disp : Dispatcher
  pub disk : Disk
  pub phase : Phase
  pub attempt : ℕ
  pub upkeep : Upkeep
  pub cancelled : Bool

-- `Run`, when it is called.
unfoldable pub start : Ingestor → Dispatcher → Disk → Machine
start g d disk = record {
  ingest = g;
  disp = d;
  disk = disk;
  phase = top;
  attempt = 0;
  upkeep = resting;
  cancelled = false;
}

-- The end of `Run`, after its loop.
unfoldable pub finish : Machine → Machine
finish m = record m { ingest = set_state disconnected m.ingest; phase = stopped }

-- The test of the loop, and the start of a round.
unfoldable pub begin : Machine → Machine
begin m = if m.cancelled then finish m else record m {
  ingest = set_state (if eqb m.attempt 0 then connecting else reconnecting) m.ingest;
  phase = dialing;
}

-- How the dial goes: the URL does not parse, there is no connection, or there is one.
pub data Dial : Type 0 where
  bad_url : Dial
  refused : Dial
  accepted : Dial

-- `connectAndRead`, up to the connection.
unfoldable pub connect : (ℤ → ℤ) → Dial → Machine → Machine
connect since bad_url m = record m { phase = failed }
connect since refused m = record m { ingest = (subscribe since m.ingest).0; phase = failed }
connect since accepted m = record m {
  ingest = establish (subscribe since m.ingest).0;
  phase = greeting;
}

unfoldable pub greet : Machine → Machine
greet m = record m { ingest = announce m.ingest; phase = reading }

-- A round of the read loop that returned.
unfoldable pub take_in : Ingestor → Dispatcher → Machine → Machine
take_in g d m = record m { ingest = g; disp = d }

-- The read loop ends with an error.
unfoldable pub lose : Machine → Machine
lose m = record m { ingest = hang_up m.ingest; phase = failed }

-- What becomes of the delay.
unfoldable pub back_off : Option ℤ → Phase
back_off none = crashed
back_off (some d) = waiting d

-- `Run`, after `connectAndRead`; `held` is the time since the round began.
unfoldable pub settle : (ℤ → ℤ) → ℤ → Machine → Machine
settle jitter held m =
    if m.cancelled
    then finish m
    else (let attempt = count_attempt held m.attempt in
        record m {
          ingest = disconnect m.ingest;
          attempt = attempt;
          phase = back_off (delay jitter m.ingest.cfg attempt);
        })

-- The select at the end of a round: the timer, or the context.
unfoldable pub wake : Machine → Machine
wake m = record m { phase = top }

unfoldable pub abandon : Machine → Machine
abandon m = record m { phase = stopped }

unfoldable pub cancel : Machine → Machine
cancel m = record m { cancelled = true }

-- A tick of `maintenanceLoop`: it commits, judges the lag, and sets the readiness. The Commit is one
-- step: until `run` makes its final one, the loop is the only caller, and `Advance` leaves the
-- committed position and the file alone.
unfoldable pub save : (ℤ → Str) → Fault → Machine → Machine
save marshal fault m =
    let done = commit marshal fault m.ingest.cursor m.disk in
    record m { ingest = record (m.ingest) { cursor = done.0 }; disk = done.1; upkeep = committed }

unfoldable pub judge : (Str → ℤ → Str) → (ℤ → ℤ) → Machine → Machine
judge sprintf since m = record m { upkeep = judged (judge_lag sprintf since m.ingest) }

unfoldable pub report : Option (Bool × Str) → Machine → Machine
report verdict m = record m { ingest = publish verdict m.ingest; upkeep = resting }

unfoldable pub retire : Machine → Machine
retire m = record m { upkeep = ended }

module _ (unmarshal : Str → Option Envelope) (marshal : ℤ → Str) (sprintf : Str → ℤ → Str) where
  -- One step of a goroutine, or of the world around them. The clock and the random numbers may
  -- differ at each step.
  pub data Step : Machine → Machine → Type 0 where
    begins : (m : Machine) → m.phase ≡ top → Step m (begin m)
    dials :
        (m : Machine) (since : ℤ → ℤ) (outcome : Dial)
        → m.phase ≡ dialing
        → Step m (connect since outcome m)
    greets : (m : Machine) → m.phase ≡ greeting → Step m (greet m)
    receives :
        (m : Machine) (since : ℤ → ℤ) (choice : Choice) (frame : Str) (g : Ingestor)
        (d : Dispatcher)
        → m.phase ≡ reading
        → read_frame unmarshal since choice frame m.ingest m.disp ≡ reads g d
        → Step m (take_in g d m)
    loses : (m : Machine) → m.phase ≡ reading → Step m (lose m)
    settles :
        (m : Machine) (jitter : ℤ → ℤ) (held : ℤ)
        → m.phase ≡ failed
        → IsJitter jitter
        → Step m (settle jitter held m)
    wakes : (m : Machine) (d : ℤ) → m.phase ≡ waiting d → Step m (wake m)
    abandons : (m : Machine) (d : ℤ) → m.phase ≡ waiting d → m.cancelled ≡ true → Step m (abandon m)
    saves : (m : Machine) (fault : Fault) → m.upkeep ≡ resting → Step m (save marshal fault m)
    judges : (m : Machine) (since : ℤ → ℤ) → m.upkeep ≡ committed → Step m (judge sprintf since m)
    reports :
        (m : Machine) (verdict : Option (Bool × Str))
        → m.upkeep ≡ judged verdict
        → Step m (report verdict m)
    retires : (m : Machine) → m.upkeep ≡ resting → m.cancelled ≡ true → Step m (retire m)
    cancels : (m : Machine) → Step m (cancel m)
