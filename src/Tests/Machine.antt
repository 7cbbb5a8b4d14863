-- ===== src/Tests/Machine.antt =====
-- The goroutines of the ingestor on a concrete run.
use jetstream_router.Common.{
  ℕ, ◌*◌, ◌^◌, ◌≤◌, ◌≡◌, ◌⊎◌, refl, true, false, none, some, [], ◌∷◌, arith,
}
use jetstream_router.Common.Int.{ℤ, pos, ◌≤ℤ◌, ◌<ℤ◌}
use jetstream_router.Common.Str.{Str, lit}
use jetstream_router.Cursor.{Disk, new_cursor}
use jetstream_router.Route.{sent, send}
use jetstream_router.Routing.{route, first_match}
use jetstream_router.Obs.{new_health, Response, healthz, readyz, serve}
use jetstream_router.Ingest.{new, delay}
use jetstream_router.Ingest.Delay.{IsJitter, delay_lem}
use jetstream_router.Ingest.Machine.{
  Machine, start, begin, accepted, connect, greet, take_in, save, waiting, begins, dials, greets,
  receives, saves, lose, judge, report, settle, wake, abandon, cancel, retire, finish, back_off,
}
use jetstream_router.Cursor.{no_fault}
use jetstream_router.Ingest.Machine.Steps.{Run, here, next, lateness}
use jetstream_router.Ingest.Machine.Fits.{IsConsistent}
use jetstream_router.Ingest.Machine.Reach.{Run-IsConsistent}
use jetstream_router.Ingest.Machine.Readiness.{MayBeReady, probes_lem}
use jetstream_router.Ingest.Machine.Race.{stale_ready}
use jetstream_router.Tests.Routing.{parse, event}
use jetstream_router.Tests.Delivery.{plain, first_route}
use jetstream_router.Tests.Ingest.{ingest, config, no_time, print}

unfoldable pub machine : Unit {0}
unfolding ingest start begin connect greet take_in save lose judge report settle wake abandon cancel
    retire finish back_off healthz readyz serve lateness
machine = tt

abbrev pub encode : ℤ → Str
encode (pos n) = n ∷ []
encode _ = []

abbrev empty : Disk
empty = record { file = none; tmp = none }

abbrev first : Machine
first = start (new config new_cursor new_health) plain empty

abbrev connected : Machine
connected = greet (connect no_time accepted (begin first))

-- The first frame was read.
abbrev moved : Machine
moved =
    take_in
      (record (connected.ingest) {
        received = 1;
        cursor = record { latest = pos 7; committed = pos 0 };
      })
      (record plain { routes = (lit "default", send event first_route) ∷ [] }) connected

abbrev kept : Machine
kept = save encode no_fault moved

run : Run parse encode print first 0 kept
unfolding machine route first_match
run =
    next
      (next
        (next (next (next here (begins first refl)) (dials (begin first) no_time accepted refl))
          (greets (connect no_time accepted (begin first)) refl))
        (receives connected no_time sent (1 ∷ 2 ∷ []) moved.ingest moved.disp refl refl))
      (saves moved no_fault refl)

Run-IsConsistent_example : IsConsistent none encode kept
Run-IsConsistent_example = Run-IsConsistent parse encode print config plain empty 0 kept run

abbrev metrics : Response
metrics = record { status = 200; body = [] }

probes_lem_example :
    ((serve metrics kept.ingest.health (lit "/healthz")).status ≡ 200)
    × (((serve metrics kept.ingest.health (lit "/readyz")).status ≡ 200)
        ⊎ ((serve metrics kept.ingest.health (lit "/readyz")).status ≡ 503))
    × (◌≡◌ {A = ℕ} 0 0
        → (serve metrics kept.ingest.health (lit "/readyz")).status ≡ 200
        → MayBeReady kept)
probes_lem_example = probes_lem parse encode print config plain empty metrics 0 kept run

abbrev pub least : ℤ → ℤ
least n = pos 0

pub least-IsJitter : IsJitter least
least-IsJitter n h = (omega arith, omega arith)

delay_lem_example :
    (config.backoff_max <ℤ pos 0 → delay least config 3 ≡ none)
    × (pos 0 ≤ℤ config.backoff_max
        → (d : ℤ) × (delay least config 3 ≡ some d)
          × (pos 0 ≤ℤ d)
          × (d ≤ℤ config.backoff_max)
          × (d ≤ℤ pos 64000000000)
          × (3 ≤ 6 → d ≤ℤ pos (2 ^ 3 * 1000000000)))
delay_lem_example = delay_lem least config 3 least-IsJitter

stale_ready_example :
    (n : Machine) × (k : ℕ) × (d : ℤ) × Run parse encode print kept k n
    × (n.phase ≡ waiting d)
    × (n.ingest.connected ≡ false)
    × (n.ingest.health.ready ≡ true)
unfolding machine
stale_ready_example =
    stale_ready parse encode print kept no_time least refl refl refl (refl, refl, refl)
      (omega arith) least-IsJitter
