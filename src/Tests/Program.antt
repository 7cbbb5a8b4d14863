-- ===== src/Tests/Program.antt =====
-- The program on a small configuration, from its start to its end.
use mathlib.Core.List.{Perm}
use jetstream_router.Common.{
  ◌≡◌, ◌⊎◌, ◌↔◌, refl, inl, inr, Bool, true, false, Option, none, some, List, [], ◌∷◌, ok, err,
  if◌then◌else◌, ◌≢◌, Has, Bool-cases,
}
use jetstream_router.Common.Int.{ℤ, pos}
use jetstream_router.Common.Str.{Str, lit, ◌==◌, eq_iff}
use jetstream_router.Common.Maps.{lookup}
use jetstream_router.Event.{Event}
use jetstream_router.Routing.{route, first_match}
use jetstream_router.Routing.Reach.{Produces}
use jetstream_router.Route.{Route, sent, send}
use jetstream_router.Route.Pool.{
  Life, start, take_event, leave, finish, takes, leaves, finishes, drained, Pool,
}
use jetstream_router.Route.Pool.Conserved.{processed}
use jetstream_router.Cursor.{Disk, new_cursor, no_fault, load}
use jetstream_router.Config.{
  Config, default_config, load_file, validated, decoded, validate, File, content, unreadable,
  read_failed,
}
use jetstream_router.Config as Configs
use jetstream_router.Config.Loading.{Chosen, load_iff}
use jetstream_router.Dispatch.{is_registered, no_handler}
use jetstream_router.Dispatch.Known.{IsKnown, fresh}
use jetstream_router.Ingest.{subscribe}
use jetstream_router.Ingest.Machine.{
  Machine, begin, begins, cancel, cancels, greet, greets, connect, accepted, dials, take_in,
  receives, settle, settles, lose, loses, retire, retires,
}
use jetstream_router.Program.{boot, boot_from, boot_with, launch, ingest_config, unbuilt, exit_code}
use jetstream_router.Program.Boot.{boot_lem, boot-subscribe}
use jetstream_router.Program.System.{
  System, serve, draining, awaiting, ended, routes_of, pool, set_route, set_pool, final_commit,
  Moves, here, next, ingests, works, stops, shuts, drains, commits,
}
use jetstream_router.Program.System.Ending.{order_lem, run_ends}
use jetstream_router.Route.{Choice, close}
use jetstream_router.Dispatch.{dispatch, crashes}
use jetstream_router.Ingest.Machine.{stopped}
use jetstream_router.Program.System.{serving}
use jetstream_router.Program.System.Shutdown.{run_lem}
use jetstream_router.Tests.Answers.{program}
use jetstream_router.Tests.Routing.{routing, parse, event}
use jetstream_router.Tests.Ingest.{ingest, no_time, print}
use jetstream_router.Tests.Machine.{machine, encode, least, least-IsJitter}
use jetstream_router.Tests.Pool.{pool_tests, ok_outcome, succeeds, wakes}

main : Unit {0}
unfolding routing program ingest machine pool_tests boot boot_from boot_with launch ingest_config
    exit_code serve set_route set_pool final_commit route first_match validated load_file decoded
    Configs.load default_config
main = tt

abbrev solo : Config
solo = record default_config { routing = record { rules = []; fallback = lit "default" } }

abbrev disk : Disk
disk = record { file = some (7 ∷ []); tmp = none }

boot_tests :
    (exit_code disk (solo, none) ≡ none)
    × (exit_code disk
          (record solo { routing = record { rules = []; fallback = lit "other" } }, none)
        ≡ some 1)
unfolding main
boot_tests = (refl, refl)

abbrev fallback : Str
fallback = lit "default"

abbrev first : Machine
first =
    launch solo disk (record { op_rules = []; coll_rules = []; fallback = fallback })
      ((fallback, fresh solo fallback) ∷ [])

booted : boot solo disk ≡ ok first
unfolding main
booted = refl

abbrev connected : Machine
connected = greet (connect no_time accepted (begin first))

abbrev offered : Route
offered = send event (fresh solo fallback)

-- One frame was read, and the connection was lost when the process was told to end.
abbrev moved : Machine
moved =
    take_in
      (record (connected.ingest) {
        received = 1;
        cursor = record { latest = pos 7; committed = pos 0 };
      })
      (record (connected.disp) { routes = (fallback, offered) ∷ [] }) connected

-- The maintenance loop returns too.
abbrev told : Machine
told = retire (cancel moved)

abbrev over : Machine
over = settle no_time (pos 0) (lose told)

abbrev at_end : System
at_end = record (serve first) { machine = over }

abbrev emptied : Route
emptied = record offered { queue = [] }

abbrev taken : Pool
taken = take_event 0 event emptied (pool fallback offered at_end)

abbrev handled : Pool
handled = finish 0 event ok_outcome taken

abbrev drained_pool : Pool
drained_pool = leave 0 (record handled { route = record (handled.route) { closed = true } })

abbrev with_taken : System
with_taken = set_pool fallback taken at_end

abbrev with_handled : System
with_handled = set_pool fallback handled with_taken

abbrev in_order : System
in_order = record with_handled { stage = draining (fallback ∷ []) }

abbrev shut : System
shut = record in_order {
  machine = set_route fallback (record (handled.route) { closed = true }) in_order.machine;
  stage = awaiting fallback [];
}

abbrev left : System
left = set_pool fallback drained_pool shut

abbrev last : System
last = record left { stage = draining []; results = (fallback, drained) ∷ [] }

only_fallback :
    (name : Str) → Has name (fallback ∷ []) ↔ (lookup name (routes_of with_handled) ≢ none)
unfolding main
only_fallback name = elim (Bool-cases (fallback == name)) [
  | inl same ↦
      (λ h none_. absurd (cc (rw same at none_)), λ known. inl ((eq_iff fallback name).0 same))
  | inr other ↦ (
    λ h none_. elim h [
      | inl e ↦ absurd (cc (other, (eq_iff fallback name).1 e))
      | inr z ↦ absurd z
    ],
    λ known. absurd (known (rw other refl)),
  )
]

serve-Moves : Moves parse encode print (serve first) at_end
unfolding main
serve-Moves =
    next
      (next
        (next
          (next
            (next
              (next
                (next (next here (ingests (serve first) (begin first) (begins first refl))) (
                  ingests (record (serve first) { machine = begin first })
                    (connect no_time accepted (begin first))
                    (dials (begin first) no_time accepted refl)))
                (ingests (record (serve first) { machine = connect no_time accepted (begin first) })
                  connected (greets (connect no_time accepted (begin first)) refl)))
              (ingests (record (serve first) { machine = connected }) moved
                (receives connected no_time sent (1 ∷ 2 ∷ []) moved.ingest moved.disp refl refl)))
            (ingests (record (serve first) { machine = moved }) (cancel moved) (cancels moved)))
          (ingests (record (serve first) { machine = cancel moved }) told
            (retires (cancel moved) refl refl)))
        (ingests (record (serve first) { machine = told }) (lose told) (loses told refl)))
      (ingests (record (serve first) { machine = lose told }) over
        (settles (lose told) least (pos 0) refl least-IsJitter))

last-Moves : Moves parse encode print (serve first) last
unfolding main
last-Moves =
    next
      (next
        (next
          (next
            (next
              (next serve-Moves (
                works at_end fallback offered (event ∷ []) taken refl
                  (takes (pool fallback offered at_end) 0 event emptied refl refl)))
              (works with_taken fallback emptied [] handled refl
                (finishes taken 0 event ok_outcome succeeds wakes refl refl)))
            (stops with_handled (fallback ∷ []) refl refl (λ h. h, tt) only_fallback))
          (shuts in_order fallback [] handled.route (record (handled.route) { closed = true }) refl
            refl refl))
        (works shut fallback (record (handled.route) { closed = true }) [] drained_pool refl
          (leaves (record handled { route = record (handled.route) { closed = true } }) 0 refl refl
            refl)))
      (drains left fallback [] drained_pool.route true drained refl refl refl)

run_lem_example :
    ((name : Str)
      → Produces solo.routing name
      → (r : Route) × (acc : List Event) × (rec : List Event) × (lookup name (routes_of last)
          ≡ some r)
        × Life (start (fresh solo name)) acc rec (pool name r last)
        × (r.queue ≡ [])
        × Perm acc (processed (pool name r last)))
    × (((final_commit encode no_fault last).machine.disk.file ≡ some (encode (pos 7)))
        ⊎ (pos 7 ≡ pos 0))
unfolding main
run_lem_example =
    let (kept, saved) = run_lem parse encode print solo disk first last booted last-Moves refl tt in
    (
      kept,
      saved refl (final_commit encode no_fault last) (next here (commits last no_fault refl)) refl,
    )

boot_lem_example :
    ((m : Machine) × (boot solo disk ≡ ok m)
      × ((name : Str) → Produces solo.routing name → is_registered name ≡ true)
      × IsKnown m.disp)
    ⊎ ((name : Str) × (boot solo disk ≡ err (unbuilt (no_handler name)))
        × Produces solo.routing name
        × (is_registered name ≡ false))
unfolding validate Configs.new_router Configs.check_routes Configs.check_numbers
boot_lem_example = boot_lem solo disk (unfold main in refl)

-- The file holds the cursor 7.
abbrev unmarshal_seven : Str → Option ℤ
unmarshal_seven bytes = if bytes == 7 ∷ [] then some (pos 7) else none

abbrev second_behind : ℤ → ℤ
second_behind v = pos 1000000000

boot-subscribe_example :
    ((load unmarshal_seven disk new_cursor).1 ≡ pos 7)
    × (subscribe second_behind first.ingest ≡ (first.ingest, none))
boot-subscribe_example =
    boot-subscribe solo unmarshal_seven (7 ∷ []) (pos 7) disk first second_behind refl
      (unfold main in refl) booted

-- A file that sets the fallback route, whatever it holds.
abbrev decode_fallback : Str → Config → Config × Bool
decode_fallback b cfg =
    (record cfg { routing = record { rules = []; fallback = lit "default" } }, true)

load_iff_example :
    (Configs.load decode_fallback (lit "router.json") (content (lit "{}")) ≡ (solo, none)) ↔ (
      Chosen decode_fallback (lit "router.json") (content (lit "{}")) solo
      × (validate solo ≡ ok tt))
load_iff_example = load_iff decode_fallback (lit "router.json") (content (lit "{}")) solo

load_tests :
    (Configs.load decode_fallback (lit "router.json") (content (lit "{}")) ≡ (solo, none))
    × ((Configs.load decode_fallback (lit "router.json") unreadable).1 ≡ some read_failed)
unfolding main validate Configs.new_router Configs.check_routes Configs.check_numbers
load_tests = (refl, refl)

order_lem_example :
    ((last.stage ≡ serving)
      × ((choice : Choice) (ev : Event) → dispatch choice ev last.machine.disp ≢ crashes))
    ⊎ ((last.machine.phase ≡ stopped)
        × ((name : Str) (rest : List Str)
            → last.stage ≡ draining (name ∷ rest)
            → (r : Route) × (r' : Route) × (lookup name (routes_of last) ≡ some r)
              × (close r ≡ some r')))
order_lem_example = order_lem parse encode print solo disk first last booted last-Moves

run_ends_example :
    (t : System) × (b : Bool) × Moves parse encode print at_end t × (t.stage ≡ ended b)
run_ends_example =
    run_ends parse encode print solo disk first at_end booted serve-Moves (unfold main in refl)
