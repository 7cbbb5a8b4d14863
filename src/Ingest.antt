-- ===== src/Ingest.antt =====
-- internal/jetstream/ingest.go: the states of the connection, the position to resume from and
-- what becomes of a frame. `since` is the time that has passed since a time in nanoseconds.
pub mod States
pub mod Resume
pub mod Request
pub mod ErrorText
pub mod Frames
pub mod Delay
pub mod Machine
use jetstream_router.Common.{
  ℕ, suc, ◌-◌, ◌+◌, ◌*◌, ◌^◌, ◌/◌, Bool, true, false, ◌&&◌, Option, none, some, List, [], ◌∷◌,
  Result, ok, err, if◌then◌else◌, leb,
}
use jetstream_router.Common.Int.{ℤ, pos, negsuc, leb_ℤ, ltb_ℤ, ◌-ℤ◌, ◌*ℤ◌}
use jetstream_router.Common.Str.{Str, lit, ◌==◌}
use jetstream_router.Obs.{Health, set_ready}
use jetstream_router.Event.{Event, Envelope, DecodeError, decode}
use jetstream_router.Route.{Choice}
use jetstream_router.Cursor.{Cursor, advance, lag, eqb_ℤ}
use jetstream_router.Dispatch.{Dispatcher, Dispatched, hands_on, blocks, crashes, dispatch}

pub data State : Type 0 where
  disconnected : State
  connecting : State
  replaying : State
  live : State
  reconnecting : State

-- The strings that the constants stand for.
unfoldable pub state_name : State → Str
state_name disconnected = lit "disconnected"
state_name connecting = lit "connecting"
state_name replaying = lit "replaying"
state_name live = lit "live"
state_name reconnecting = lit "reconnecting"

abbrev pub all_states : List State
all_states = disconnected ∷ connecting ∷ replaying ∷ live ∷ reconnecting ∷ []

-- `s == t`
unfoldable pub same_state : State → State → Bool
unfolding state_name ◌==◌
same_state s t = state_name s == state_name t

pub record Config : Type 0 where
  pub url : Str
  pub wanted_collections : List Str
  pub replay_rewind : ℤ
  pub live_threshold : ℤ
  pub max_lag : ℤ
  pub replay_window : ℤ
  pub max_frame_bytes : ℤ
  pub idle_timeout : ℤ
  pub backoff_max : ℤ
  pub commit_every : ℤ

-- `gauges` is `ConnState`, at each state as its label; the numbers are counters.
pub record Ingestor : Type 0 where
  pub cfg : Config
  pub cursor : Cursor
  pub health : Health
  pub state : State
  pub connected : Bool
  pub gauges : State → ℕ
  pub received : ℕ
  pub malformed : ℕ
  pub gaps : ℕ
  pub reconnects : ℕ

-- `New`
unfoldable pub new : Config → Cursor → Health → Ingestor
new cfg cur h = record {
  cfg = record cfg {
    idle_timeout = if leb_ℤ cfg.idle_timeout (pos 0) then pos 30000000000 else cfg.idle_timeout;
  };
  cursor = cur;
  health = h;
  state = disconnected;
  connected = false;
  gauges = λ _. 0;
  received = 0;
  malformed = 0;
  gaps = 0;
  reconnects = 0;
}

-- The loop of `setState` over the states.
unfoldable pub set_gauges : State → List State → (State → ℕ) → State → ℕ
set_gauges s [] gauges = gauges
set_gauges s (st ∷ rest) gauges =
    set_gauges s rest
      (λ label. if same_state label st then (if same_state st s then 1 else 0) else gauges label)

-- `setState`
unfoldable pub set_state : State → Ingestor → Ingestor
set_state s g =
    if same_state g.state s
    then g
    else record g { state = s; gauges = set_gauges s all_states g.gauges }

-- The quotient by a thousand, rounded down: `UnixMicro` of a time in nanoseconds.
unfoldable pub unix_micro : ℤ → ℤ
unix_micro (pos n) = pos (n / 1000)
unix_micro (negsuc n) = negsuc (n / 1000)

-- The time in nanoseconds that `subscribeURL` resumes from.
unfoldable pub resume_at : Ingestor → ℤ
resume_at g = (g.cursor.latest *ℤ pos 1000) -ℤ g.cfg.replay_rewind

unfoldable pub lapsed : (ℤ → ℤ) → Ingestor → Bool
lapsed since g =
    ltb_ℤ (pos 0) g.cfg.replay_window && ltb_ℤ g.cfg.replay_window (since (resume_at g))

-- `subscribeURL`: the value of the parameter `cursor`, where it is set.
unfoldable pub subscribe : (ℤ → ℤ) → Ingestor → Ingestor × Option ℤ
subscribe since g =
    if ltb_ℤ (pos 0) g.cursor.latest
    then (if lapsed since g
        then (record g { gaps = suc g.gaps }, none)
        else (g, some (unix_micro (resume_at g))))
    else (g, none)

-- `connectAndRead`, once the connection is there, and the readiness that it then sets.
unfoldable pub establish : Ingestor → Ingestor
establish g =
    record (if ltb_ℤ (pos 0) g.cursor.latest then set_state replaying g else set_state live g) {
      connected = true;
    }

unfoldable pub announce : Ingestor → Ingestor
announce g = record g { health = set_ready true (lit "connected") g.health }

abbrev pub is_replaying : State → Bool
is_replaying replaying = true
is_replaying _ = false

-- The end of a round of the read loop.
unfoldable pub catch_up : (ℤ → ℤ) → Ingestor → Ingestor
catch_up since g =
    if is_replaying g.state
      && leb_ℤ (lag (λ v. since (v *ℤ pos 1000)) g.cursor) g.cfg.live_threshold
    then set_state live g
    else g

-- A round of the read loop returns, or does not: the dispatcher waits or panics.
pub data Read : Type 0 where
  reads : Ingestor → Dispatcher → Read
  stuck : Read

unfoldable pub dispatched : (ℤ → ℤ) → Event → Ingestor → Dispatched → Read
dispatched since ev g (hands_on d accepted) =
    reads (catch_up since (record g { cursor = advance [] ev.time_us g.cursor })) d
dispatched since ev g blocks = stuck
dispatched since ev g crashes = stuck

unfoldable pub handle_frame :
    (ℤ → ℤ) → Choice → Result DecodeError Event → Ingestor → Dispatcher → Read
handle_frame since choice (err _) g d = reads (record g { malformed = suc g.malformed }) d
handle_frame since choice (ok ev) g d = dispatched since ev g (dispatch choice ev d)

-- A round of the read loop, for a frame that was read.
unfoldable pub read_frame :
    (Str → Option Envelope) → (ℤ → ℤ) → Choice → Str → Ingestor → Dispatcher → Read
read_frame unmarshal since choice frame g d =
    handle_frame since choice (decode unmarshal frame) (record g { received = suc g.received }) d

-- The first half of `refreshLag`: what it will set the readiness to, if anything. `sprintf` is
-- `fmt.Sprintf` of a format and a number of seconds.
unfoldable pub judge_lag : (Str → ℤ → Str) → (ℤ → ℤ) → Ingestor → Option (Bool × Str)
judge_lag sprintf since g =
    if eqb_ℤ g.cursor.latest (pos 0)
    then none
    else (let late = lag (λ v. since (v *ℤ pos 1000)) g.cursor in
        if g.connected
        then (if ltb_ℤ g.cfg.max_lag late
            then some (false, sprintf (lit "lagging %.0fs") late)
            else some (true, sprintf (lit "lag %.1fs") late))
        else none)

-- The second half of `refreshLag`.
unfoldable pub publish : Option (Bool × Str) → Ingestor → Ingestor
publish none g = g
publish (some (ready, detail)) g = record g { health = set_ready ready detail g.health }

-- `refreshLag`
unfoldable pub refresh_lag : (Str → ℤ → Str) → (ℤ → ℤ) → Ingestor → Ingestor
refresh_lag sprintf since g = publish (judge_lag sprintf since g) g

-- The end of `connectAndRead` with an error: its deferred store.
unfoldable pub hang_up : Ingestor → Ingestor
hang_up g = record g { connected = false }

-- `Run`, after `connectAndRead` has returned.
unfoldable pub disconnect : Ingestor → Ingestor
disconnect g =
    let g' = set_state disconnected (record g { reconnects = suc g.reconnects }) in
    record g' { health = set_ready false (lit "disconnected") g'.health }

-- How often in a row it has failed: a connection that held for more than a minute starts anew.
unfoldable pub count_attempt : ℤ → ℕ → ℕ
count_attempt held attempt = suc (if ltb_ℤ (pos 60000000000) held then 0 else attempt)

-- The longest delay before the next attempt.
unfoldable pub longest_delay : Config → ℕ → ℤ
longest_delay cfg attempt =
    let d = pos (2 ^ (if leb attempt 6 then attempt else 6) * 1000000000) in
    if ltb_ℤ cfg.backoff_max d then cfg.backoff_max else d

-- The delay; `jitter` is `rand.Int63n`, which panics where its argument is not positive.
unfoldable pub delay : (ℤ → ℤ) → Config → ℕ → Option ℤ
delay jitter cfg attempt =
    let n = longest_delay cfg attempt -ℤ negsuc 0 in
    if leb_ℤ n (pos 0) then none else some (jitter n)
