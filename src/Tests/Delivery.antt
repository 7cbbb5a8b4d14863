-- ===== src/Tests/Delivery.antt =====
-- A route, the cursor and the dispatcher on concrete inputs.
use jetstream_router.Common.{
  ℕ, zero, suc, ◌≡◌, refl, inr, Bool, true, Option, none, some, List, [], ◌∷◌, length, arith, ok,
}
use jetstream_router.Common.Int.{ℤ, pos, negsuc, ◌≤ℤ◌, mul64, ◌*ℤ◌}
use jetstream_router.Common.Str.{Str, lit}
use jetstream_router.Route.{
  Config, Route, new, with_defaults, send, shed, sent, Answer, done, transient, Outcome, backoff,
  process,
}
use jetstream_router.Route.Queue.{Steps, stop, accepts, refuses, takes, Balance, Steps-Balance}
use jetstream_router.Route.Attempts.{Ending, Ends, Leaves, process_lem}
use jetstream_router.Cursor.{Disk, Cursor, new_cursor, load, advance, commit, no_rename}
use jetstream_router.Cursor.Advance.{advance_lem}
use jetstream_router.Cursor.Durable.{load-commit}
use jetstream_router.Config.{default_config, default_table}
use jetstream_router.Config.Defaults.{default_router, default_table-route}
use jetstream_router.Routing.{route, first_match}
use jetstream_router.Dispatch.{Dispatcher, build_routes}
use jetstream_router.Dispatch.Known.{IsKnown, build_routes-IsKnown, dispatch-IsKnown}
use jetstream_router.Tests.Answers.{program, like}

abbrev pub config : Config
config = record {
  name = lit "engagement";
  buffer = pos 1;
  workers = pos 1;
  policy = [];
  max_attempts = pos 0;
  retry_base = pos 0;
  block_timeout = pos 0;
}

abbrev pub first_route : Route
first_route = new config

-- One event is accepted, one is shed, and the first is received.
steps :
    Steps first_route
      (like ∷ [])
      (like ∷ [])
      1
      (record (shed (send like first_route)) { queue = [] })
unfolding program
steps = takes like (refuses sent like (accepts sent like stop refl) refl) refl

Steps-Balance_example :
    Balance first_route
      (like ∷ [])
      (like ∷ [])
      1
      (record (shed (send like first_route)) { queue = [] })
unfolding program
Steps-Balance_example =
    Steps-Balance first_route (record (shed (send like first_route)) { queue = [] }) (like ∷ [])
      (like ∷ []) 1 (omega arith) steps

-- The first attempt is transient, and the second succeeds.
abbrev answers : ℕ → Answer
answers zero = transient
answers (suc _) = done

abbrev always : ℕ → Bool
always n = true

process_tests :
    process answers always (with_defaults config)
    ≡ some (record {
      handled = lit "retry" ∷ lit "ok" ∷ [];
      dead_lettered = [];
      panics = 0;
      backoffs = pos 100000000 ∷ [];
    })
unfolding program mul64 ◌*ℤ◌
process_tests = refl

process_lem_example :
    (o : Outcome) × (calls : ℕ) × (e : Ending) × (process answers always (with_defaults config)
      ≡ some o)
    × Ends answers always (with_defaults config).max_attempts 0 calls e
    × Leaves e o
    × (length o.handled ≡ calls)
    × (pos calls ≤ℤ (with_defaults config).max_attempts)
unfolding program
process_lem_example = process_lem answers always (with_defaults config) (omega arith)

-- The product of the base and the power of two leaves the 64 bits: the thirty-eighth wait is
-- negative, and the wait after the sixty-fifth attempt is zero.
backoff_tests : (backoff (pos 100000000) 37 ≤ℤ negsuc 0) × (backoff (pos 100000000) 64 ≡ pos 0)
unfolding program mul64 ◌*ℤ◌
backoff_tests = (omega arith, refl)

abbrev there : Cursor
there = record { latest = pos 7; committed = pos 5 }

advance_lem_example : there.latest ≤ℤ (advance (pos 8 ∷ []) (pos 9) there).latest
advance_lem_example = (advance_lem (pos 8 ∷ []) (pos 9) there (omega arith, tt)).0

abbrev marshal : ℤ → Str
marshal (pos n) = 0 ∷ n ∷ []
marshal (negsuc n) = 1 ∷ n ∷ []

abbrev unmarshal : Str → Option ℤ
unmarshal [] = none
unmarshal (_ ∷ []) = none
unmarshal (zero ∷ n ∷ _) = some (pos n)
unmarshal (suc _ ∷ n ∷ _) = some (negsuc n)

unmarshal-marshal : (v : ℤ) → unmarshal (marshal v) ≡ some v
unmarshal-marshal (pos n) = refl
unmarshal-marshal (negsuc n) = refl

abbrev disk : Disk
disk = record { file = some (marshal (pos 5)); tmp = none }

load-commit_example :
    (load unmarshal (commit marshal no_rename there disk).1 new_cursor).1
    ≡ (commit marshal no_rename there disk).0.committed
load-commit_example =
    (load-commit marshal unmarshal unmarshal-marshal no_rename there disk (inr refl)).1

abbrev built : List (Str × Route)
built = elim (build_routes default_config default_router) [ ok m ↦ m | _ ↦ [] ]

abbrev dispatcher : Dispatcher
dispatcher = record { router = default_router; routes = built; unknown = 0 }

build_routes-IsKnown_example : IsKnown dispatcher
unfolding program
build_routes-IsKnown_example =
    (build_routes-IsKnown default_table default_router default_config built 0 default_table-route.0
      refl).0

-- A router whose table has only a fallback, and the route that is built for it.
abbrev pub plain : Dispatcher
plain = record {
  router = record { op_rules = []; coll_rules = []; fallback = lit "default" };
  routes = (lit "default", first_route) ∷ [];
  unknown = 0;
}

plain-IsKnown : IsKnown plain
unfolding program route first_match
plain-IsKnown k = (first_route, refl)

dispatch-IsKnown_example :
    IsKnown (record plain { routes = (lit "default", send like first_route) ∷ [] })
unfolding program route first_match
dispatch-IsKnown_example =
    (dispatch-IsKnown sent like plain
      (record plain { routes = (lit "default", send like first_route) ∷ [] }) true plain-IsKnown
      refl).0
