-- ===== src/Route.antt =====
-- internal/route/route.go: a route's tuning, its bounded queue and the attempts at one event.
-- Times and durations are nanoseconds on `int64`.
pub mod Queue
pub mod Attempts
pub mod Backoff
pub mod Pool
pub mod Wire
use jetstream_router.Common.{
  ℕ, zero, suc, ◌+◌, ◌-◌, ◌%◌, ◌^◌, Bool, true, false, Option, none, some, List, [], ◌∷◌, ◌++◌,
  length, if◌then◌else◌, ltb,
}
use jetstream_router.Common.Int.{ℤ, pos, negsuc, leb_ℤ, ltb_ℤ, of_bits, mul64}
use jetstream_router.Common.Str.{Str, lit, ◌==◌}
use jetstream_router.Event.{Event}

abbrev pub policy_drop : Str
policy_drop = lit "drop"

abbrev pub policy_block : Str
policy_block = lit "block"

pub record Config : Type 0 where
  pub name : Str
  pub buffer : ℤ
  pub workers : ℤ
  pub policy : Str
  pub max_attempts : ℤ
  pub retry_base : ℤ
  pub block_timeout : ℤ

abbrev pub positive_or : ℤ → ℤ → ℤ
positive_or d x = if leb_ℤ x (pos 0) then d else x

-- `withDefaults`
unfoldable pub with_defaults : Config → Config
with_defaults c = record c {
  buffer = positive_or (pos 1024) c.buffer;
  workers = positive_or (pos 1) c.workers;
  policy = if c.policy == [] then policy_drop else c.policy;
  max_attempts = positive_or (pos 3) c.max_attempts;
  retry_base = positive_or (pos 100000000) c.retry_base;
  block_timeout = positive_or (pos 2000000000) c.block_timeout;
}

-- The metrics of a route that `Offer` writes.
pub record Metrics : Type 0 where
  pub routed : ℕ
  pub dropped : ℕ
  pub depth : ℕ

-- The channel is `queue`, the next event to receive first; `closed` once `Drain` has closed it.
pub record Route : Type 0 where
  pub cfg : Config
  pub queue : List Event
  pub closed : Bool
  pub metrics : Metrics

-- `New`
unfoldable pub new : Config → Route
new cfg = record {
  cfg = with_defaults cfg;
  queue = [];
  closed = false;
  metrics = record { routed = 0; dropped = 0; depth = 0 };
}

-- `Depth`
abbrev pub depth : Route → ℕ
depth r = length r.queue

-- Whether a send on the channel is ready.
unfoldable pub has_room : Route → Bool
has_room r = ltb_ℤ (pos (length r.queue)) r.cfg.buffer

-- What a call of `Offer` comes to: it returns a route and whether the event was accepted, the
-- case of its `select` is not ready, or it panics on a closed channel.
pub data Offered : Type 0 where
  returns : Route → Bool → Offered
  waits : Offered
  panics : Offered

-- A send that is taken.
unfoldable pub send : Event → Route → Route
send ev r =
    let queue = r.queue ++ ev ∷ [] in
    record r {
      queue = queue;
      metrics = record (r.metrics) { routed = suc r.metrics.routed; depth = length queue };
    }

unfoldable pub shed : Route → Route
shed r = record r { metrics = record (r.metrics) { dropped = suc r.metrics.dropped } }

-- The case of the `select` that fires under the block policy: the send, which panics on a closed
-- channel, the timer, the context.
pub data Choice : Type 0 where
  sent : Choice
  timed_out : Choice
  cancelled : Choice

unfoldable pub offer_block : Choice → Event → Route → Offered
offer_block sent ev r =
    if r.closed then panics else (if has_room r then returns (send ev r) true else waits)
offer_block timed_out ev r = returns (shed r) false
offer_block cancelled ev r = returns r false

unfoldable pub offer_drop : Event → Route → Offered
offer_drop ev r =
    if r.closed
    then panics
    else (if has_room r then returns (send ev r) true else returns (shed r) false)

-- `Offer`
unfoldable pub offer : Choice → Event → Route → Offered
offer choice ev r =
    if r.cfg.policy == policy_block then offer_block choice ev r else offer_drop ev r

-- What a worker receives from the channel; `none` where nothing is there.
unfoldable pub receive : Route → Option (Event × Route)
receive r = elim r.queue [ [] ↦ none | ev ∷ queue ↦ some (ev, record r { queue = queue }) ]

-- The start of `Drain`; `none` is the panic of closing a channel twice.
unfoldable pub close : Route → Option Route
close r = if r.closed then none else some (record r { closed = true })

-- What the handler does on one attempt.
pub data Answer : Type 0 where
  done : Answer
  transient : Answer
  permanent : Answer
  panicked : Answer

-- `callHandler`: a panic becomes a permanent error, and is counted.
unfoldable pub call_handler : Answer → Answer × ℕ
call_handler panicked = (permanent, 1)
call_handler done = (done, 0)
call_handler transient = (transient, 0)
call_handler permanent = (permanent, 0)

-- What `process` leaves behind: the labels of `Handled` and `DeadLettered` in order, the panics,
-- and the waits between attempts.
pub record Outcome : Type 0 where
  pub handled : List Str
  pub dead_lettered : List Str
  pub panics : ℕ
  pub backoffs : List ℤ

-- `1<<uint(n)` on `int64`.
unfoldable pub shift : ℕ → ℤ
shift n = of_bits (2 ^ n % 2 ^ 64)

-- The wait after an attempt, which the code numbers `n + 1`.
unfoldable pub backoff : ℤ → ℕ → ℤ
backoff retry_base n =
    let wait = mul64 retry_base (shift n) in
    if ltb_ℤ (pos 5000000000) wait then pos 5000000000 else wait

abbrev retried : ℤ → Outcome → Outcome
retried wait o = record o { handled = lit "retry" ∷ o.handled; backoffs = wait ∷ o.backoffs }

abbrev dead : Str → Str → Outcome
dead label reason = record {
  handled = label ∷ [];
  dead_lettered = reason ∷ [];
  panics = 0;
  backoffs = [];
}

-- As many rounds as the loop of `process` can take, and one more.
unfoldable pub rounds : ℤ → ℕ
rounds (pos m) = suc m
rounds (negsuc _) = 1

module _ (handler : ℕ → Answer) (wakes : ℕ → Bool) (cfg : Config) where
  -- The loop of `process` from attempt `n + 1` on. `handler` tells what each attempt does, and
  -- `wakes` whether the timer ends the wait after it, not the context. `none` is a lack of fuel.
  unfoldable pub attempts : ℕ → ℕ → Option Outcome
  attempts zero n = none
  attempts (suc fuel) n =
      let rest = attempts fuel (suc n) in
      let (answer, recovered) = call_handler (handler n) in
      elim answer [
        | done ↦ some (record {
          handled = lit "ok" ∷ [];
          dead_lettered = [];
          panics = recovered;
          backoffs = [];
        })
        | panicked ↦ none
        | permanent ↦
            some (record (dead (lit "permanent") (lit "permanent")) { panics = recovered })
        | transient ↦
            if leb_ℤ cfg.max_attempts (pos (suc n))
            then some (dead (lit "exhausted") (lit "retries_exhausted"))
            else (let wait = backoff cfg.retry_base n in
                if wakes n
                then (elim rest [ none ↦ none | some o ↦ some (retried wait o) ])
                else some (record {
                  handled = lit "retry" ∷ [];
                  dead_lettered = [];
                  panics = 0;
                  backoffs = wait ∷ [];
                }))
      ]

  -- `process`
  unfoldable pub process : Option Outcome
  process = attempts (rounds cfg.max_attempts) 0
