-- ===== src/Tests/Pool.antt =====
-- The workers of a route on a concrete run.
use mathlib.Core.List.{Perm}
use jetstream_router.Common.{
  ℕ, ◌≤◌, ◌≡◌, ◌⊎◌, refl, Bool, true, some, List, [], ◌∷◌, get_elem?, set, arith,
}
use jetstream_router.Common.Str.{lit}
use jetstream_router.Event.{Event}
use jetstream_router.Route.{new, send, sent, Answer, done, Outcome, close}
use jetstream_router.Route.Pool.{
  Pool, start, launch, take_event, leave, finish, Turn, takes, leaves, finishes, Life, starts,
  accepts, works, closes, all_gone, drain, drained,
}
use jetstream_router.Route.Pool.Conserved.{IsConserved, Life-IsConserved, processed}
use jetstream_router.Route.Pool.Finish.{drain_lem, Turns, again, workers_end, turns_due}
use jetstream_router.Route.Pool.Finish as Finish
use jetstream_router.Tests.Answers.{program, like}
use jetstream_router.Tests.Delivery.{config}

unfoldable pub pool_tests : Unit {0}
unfolding program start launch take_event leave finish all_gone drain close get_elem? set
pool_tests = tt

abbrev first : Pool
first = start (new config)

abbrev pub succeeds : ℕ → Answer
succeeds _ = done

abbrev pub wakes : ℕ → Bool
wakes _ = true

abbrev pub ok_outcome : Outcome
ok_outcome = record { handled = lit "ok" ∷ []; dead_lettered = []; panics = 0; backoffs = [] }

abbrev offered : Pool
offered = record first { route = send like first.route }

abbrev taken : Pool
taken = take_event 0 like (record (offered.route) { queue = [] }) offered

abbrev handled : Pool
handled = finish 0 like ok_outcome taken

abbrev shut : Pool
shut = record handled { route = record (handled.route) { closed = true } }

abbrev ended : Pool
ended = leave 0 shut

life : Life first (like ∷ []) (like ∷ []) ended
unfolding pool_tests
life =
    works
      (closes
        (works
          (works (accepts sent like starts refl)
            (takes offered 0 like (record (offered.route) { queue = [] }) refl refl))
          (finishes taken 0 like ok_outcome succeeds wakes refl refl))
        refl)
      (leaves shut 0 refl refl refl)

Life-IsConserved_example : IsConserved (like ∷ []) (like ∷ []) ended
Life-IsConserved_example =
    Life-IsConserved (new config) (like ∷ []) (like ∷ []) ended (unfold pool_tests in refl) life

drain_lem_example :
    (ended.route.closed ≡ true)
    × (ended.route.queue ≡ [])
    × (◌≡◌ {A = List Event} (like ∷ []) (like ∷ []))
    × Perm (like ∷ []) (processed ended)
drain_lem_example = drain_lem config (like ∷ []) (like ∷ []) ended life (unfold pool_tests in refl)

workers_end_example :
    (1 ≤ turns_due shut)
    × ((drain true ended ≡ some drained) ⊎ ((took : List Event) × (s : Pool) × Turn ended took s))
workers_end_example =
    workers_end succeeds wakes shut ended 1 (unfold pool_tests in refl)
      (unfold pool_tests in omega arith)
      (again Finish.done (
        leaves shut 0 (unfold pool_tests in refl) (unfold pool_tests in refl)
          (unfold pool_tests in refl)))
