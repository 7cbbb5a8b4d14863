-- ===== src/Program/System.antt =====
-- cmd/router/main.go: `run` with the ingestor, the routes and their workers. Their steps come in
-- any order; an offer and a receive meet in the channel of the route.
pub mod Projects
pub mod Running
pub mod Finished
pub mod Settled
pub mod Shutdown
pub mod Closing
pub mod Order
pub mod Start
pub mod Ending
use jetstream_router.Common.{
  ◌≡◌, Bool, Option, some, List, [], ◌∷◌, ◌≢◌, ◌↔◌, none, Has, IsOnce, if◌then◌else◌,
}
use jetstream_router.Common.Int.{ℤ, ◌≤ℤ◌}
use jetstream_router.Common.Str.{Str, ◌==◌}
use jetstream_router.Common.Maps.{lookup, insert}
use jetstream_router.Event.{Event, Envelope}
use jetstream_router.Route.{Route, Outcome, close}
use jetstream_router.Route.Pool.{Worker, Pool, launch, to_count, Turn, Drained, drain}
use jetstream_router.Cursor.{Fault, commit}
use jetstream_router.Cursor.Steps.{Progress, ready, loaded, written, renamed, over, Together, Pair}
use jetstream_router.Dispatch.{Dispatcher}
use jetstream_router.Ingest.{Ingestor}
use jetstream_router.Ingest.Machine.{Machine, stopped, Step}
use jetstream_router.Ingest.Machine as Machines

-- The workers of a route, and what they left in the metrics.
pub record Crew : Type 0 where
  pub workers : List Worker
  pub outcomes : List (Event × Outcome)

-- Where `run` stands: it waits for the ingestor, it has routes left to drain, it waits in `Drain`
-- for one of them, or it has committed.
pub data Stage : Type 0 where
  serving : Stage
  draining : List Str → Stage
  awaiting : Str → List Str → Stage
  ended : Bool → Stage

-- `results` is how each `Drain` so far has ended, the latest first.
pub record System : Type 0 where
  pub machine : Machine
  pub crews : Str → Crew
  pub stage : Stage
  pub results : List (Str × Drained)

abbrev pub routes_of : System → List (Str × Route)
routes_of s = s.machine.disp.routes

abbrev crew_for : Option Route → Crew
crew_for none = record { workers = []; outcomes = [] }
crew_for (some r) = record { workers = launch (to_count r.cfg.workers); outcomes = [] }

-- `run`, once the ingestor runs: `buildRoutes` has started every route.
unfoldable pub serve : Machine → System
serve m = record {
  machine = m;
  crews = λ name. crew_for (lookup name m.disp.routes);
  stage = serving;
  results = [];
}

abbrev pub pool : Str → Route → System → Pool
pool name r s = record {
  route = r;
  workers = (s.crews name).workers;
  outcomes = (s.crews name).outcomes;
}

unfoldable pub set_route : Str → Route → Machine → Machine
set_route name r m = record m { disp = record (m.disp) { routes = insert name r m.disp.routes } }

unfoldable pub set_pool : Str → Pool → System → System
set_pool name p s = record s {
  machine = set_route name p.route s.machine;
  crews = λ other.
      if name == other
      then record { workers = p.workers; outcomes = p.outcomes }
      else s.crews other;
}

-- The final `Commit`, where no other call overlaps with it.
unfoldable pub final_commit : (ℤ → Str) → Fault → System → System
final_commit marshal fault s =
    let m = s.machine in
    let done = commit marshal fault m.ingest.cursor m.disk in
    record s {
      machine = record m { ingest = record (m.ingest) { cursor = done.0 }; disk = done.1 };
      stage = ended done.2;
    }

-- A `Commit` of `maintenanceLoop` that meets the final one: it is about to load the position, or has
-- loaded one. Its later steps can wait for the first step of the final one, since no other reads
-- what they write.
abbrev pub IsUnderway : ℤ → Progress → Type 0
IsUnderway latest ready = Unit
IsUnderway latest (loaded v) = v ≤ℤ latest
IsUnderway latest (written v) = ⊥
IsUnderway latest (renamed v) = ⊥
IsUnderway latest (over b) = ⊥

-- The final `Commit`, the second of two calls, has returned.
unfoldable pub overlapped : Pair → Bool → System → System
overlapped t good s = record s {
  machine = record (s.machine) {
    ingest = record (s.machine.ingest) { cursor = t.cursor };
    disk = t.disk;
  };
  stage = ended good;
}

module _ (unmarshal : Str → Option Envelope) (marshal : ℤ → Str) (sprintf : Str → ℤ → Str) where
  -- A step of the ingestor, of a worker, or of `run`, which drains the routes in some order of the
  -- map.
  pub data Move : System → System → Type 0 where
    ingests :
        (s : System) (n : Machine)
        → Step unmarshal marshal sprintf s.machine n
        → Move s (record s { machine = n })
    works :
        (s : System) (name : Str) (r : Route) (took : List Event) (p : Pool)
        → lookup name (routes_of s) ≡ some r
        → Turn (pool name r s) took p
        → Move s (set_pool name p s)
    stops :
        (s : System) (order : List Str)
        → s.stage ≡ serving
        → s.machine.phase ≡ stopped
        → IsOnce order
        → ((name : Str) → Has name order ↔ (lookup name (routes_of s) ≢ none))
        → Move s (record s { stage = draining order })
    shuts :
        (s : System) (name : Str) (rest : List Str) (r r' : Route)
        → s.stage ≡ draining (name ∷ rest)
        → lookup name (routes_of s) ≡ some r
        → close r ≡ some r'
        → Move s (record s { machine = set_route name r' s.machine; stage = awaiting name rest })
    drains :
        (s : System) (name : Str) (rest : List Str) (r : Route) (finished : Bool) (result : Drained)
        → s.stage ≡ awaiting name rest
        → lookup name (routes_of s) ≡ some r
        → drain finished (pool name r s) ≡ some result
        → Move s (record s { stage = draining rest; results = (name, result) ∷ s.results })
    commits :
        (s : System) (fault : Fault) → s.stage ≡ draining [] → Move s (final_commit marshal fault s)
    overlaps :
        (s : System) (p : Progress) (t : Pair) (good : Bool)
        → s.stage ≡ draining []
        → s.machine.upkeep ≢ Machines.ended
        → IsUnderway s.machine.ingest.cursor.latest p
        → Together marshal
            (record {
              first = p;
              second = ready;
              cursor = s.machine.ingest.cursor;
              disk = s.machine.disk;
            })
            t
        → t.second ≡ over good
        → Move s (overlapped t good s)

  pub data Moves (s : System) : System → Type 0 where
    here : Moves s s
    next : {t u : System} → Moves s t → Move t u → Moves s u
