-- ===== src/Route/Pool.antt =====
-- internal/route/route.go: the workers that drain a route, and `Drain`.
pub mod Workers
pub mod Conserved
pub mod Finish
use jetstream_router.Common.{
  ℕ, zero, suc, ◌≡◌, Bool, true, false, ◌&&◌, Option, none, some, List, [], ◌∷◌, ◌++◌, length,
  get_elem?, set, if◌then◌else◌,
}
use jetstream_router.Common.Int.{ℤ, pos, negsuc}
use jetstream_router.Event.{Event}
use jetstream_router.Route.{
  Config, Route, Choice, returns, offer, receive, close, depth, Answer, Outcome, process,
}

-- A worker waits for an event, is in `process` with one, or has returned.
pub data Worker : Type 0 where
  idle : Worker
  busy : Event → Worker
  gone : Worker

-- `outcomes` is what each call of `process` left in the metrics, the latest first.
pub record Pool : Type 0 where
  pub route : Route
  pub workers : List Worker
  pub outcomes : List (Event × Outcome)

-- The loop of `Start`, for the workers that are left to launch.
unfoldable pub launch : ℕ → List Worker
launch zero = []
launch (suc n) = idle ∷ launch n

abbrev pub to_count : ℤ → ℕ
to_count (pos n) = n
to_count (negsuc _) = 0

-- `Start`
unfoldable pub start : Route → Pool
start r = record { route = r; workers = launch (to_count r.cfg.workers); outcomes = [] }

-- A worker goes on with the event that it received, leaves its loop, or has processed its event
-- and sets the gauge of the depth.
unfoldable pub take_event : ℕ → Event → Route → Pool → Pool
take_event i ev r p = record p { route = r; workers = set p.workers i (busy ev) }

unfoldable pub leave : ℕ → Pool → Pool
leave i p = record p { workers = set p.workers i gone }

unfoldable pub finish : ℕ → Event → Outcome → Pool → Pool
finish i ev o p =
    let r = p.route in
    record p {
      route = record r { metrics = record (r.metrics) { depth = length r.queue } };
      workers = set p.workers i idle;
      outcomes = (ev, o) ∷ p.outcomes;
    }

-- A step of the worker `i`, with the events that it takes from the channel: it receives one, it
-- finds the channel closed and empty, or its `process` returns. `handler` and `wakes` are what the
-- attempts at the event meet.
pub data Turn : Pool → List Event → Pool → Type 0 where
  takes :
      (p : Pool) (i : ℕ) (ev : Event) (r : Route)
      → get_elem? p.workers i ≡ some idle
      → receive p.route ≡ some (ev, r)
      → Turn p (ev ∷ []) (take_event i ev r p)
  leaves :
      (p : Pool) (i : ℕ)
      → get_elem? p.workers i ≡ some idle
      → receive p.route ≡ none
      → p.route.closed ≡ true
      → Turn p [] (leave i p)
  finishes :
      (p : Pool) (i : ℕ) (ev : Event) (o : Outcome) (handler : ℕ → Answer) (wakes : ℕ → Bool)
      → get_elem? p.workers i ≡ some (busy ev)
      → process handler wakes p.route.cfg ≡ some o
      → Turn p [] (finish i ev o p)

-- What a started route goes through, with the events that were accepted and those that were
-- received, in order.
pub data Life (p : Pool) : List Event → List Event → Pool → Type 0 where
  starts : Life p [] [] p
  accepts :
      {acc rec : List Event} {q : Pool} {r : Route} (choice : Choice) (ev : Event)
      → Life p acc rec q
      → offer choice ev q.route ≡ returns r true
      → Life p (acc ++ ev ∷ []) rec (record q { route = r })
  refuses :
      {acc rec : List Event} {q : Pool} {r : Route} (choice : Choice) (ev : Event)
      → Life p acc rec q
      → offer choice ev q.route ≡ returns r false
      → Life p acc rec (record q { route = r })
  works :
      {acc rec took : List Event} {q s : Pool}
      → Life p acc rec q
      → Turn q took s
      → Life p acc (rec ++ took) s
  closes :
      {acc rec : List Event} {q : Pool} {r : Route}
      → Life p acc rec q
      → close q.route ≡ some r
      → Life p acc rec (record q { route = r })

-- `r.wg.Wait()` returns: every worker has.
unfoldable pub all_gone : List Worker → Bool
all_gone [] = true
all_gone (idle ∷ ws) = false
all_gone (busy _ ∷ ws) = false
all_gone (gone ∷ ws) = all_gone ws

-- How `Drain` ends: the workers are done, or the deadline passes with events left.
pub data Drained : Type 0 where
  drained : Drained
  deadline : ℕ → Drained

-- The select of `Drain`, by the case that fires; `none` where `done` is not closed.
unfoldable pub drain : Bool → Pool → Option Drained
drain true p = if all_gone p.workers then some drained else none
drain false p = some (deadline (depth p.route))
