-- ===== src/Program/System/Start.antt =====
-- What holds of the program when `run` starts.
use jetstream_router.Common.{
  if◌then◌else◌, ◌≡◌, ◌≢◌, ◌∙◌, ap, refl, sym, subst, true, false, some, List, [], ◌∷◌, arith,
  Bool-cases, inl, inr, ok,
}
use jetstream_router.Common.Int.{ℤ}
use jetstream_router.Common.Str.{Str, ◌==◌}
use jetstream_router.Common.Maps.{lookup, insert, lookup-insert}
use jetstream_router.Route.{Route}
use jetstream_router.Route
use jetstream_router.Cursor.{Disk}
use jetstream_router.Config.{Config}
use jetstream_router.Dispatch.{route_config, is_registered, build_from, build_routes}
use jetstream_router.Dispatch.Known.{IsKnown, build_routes-IsKnown}
use jetstream_router.Ingest.Machine.{Machine}
use jetstream_router.Ingest.Machine as Machines
use jetstream_router.Ingest.Machine.Fits.{IsConsistent}
use jetstream_router.Routing.{Router, routes}
use jetstream_router.Ingest.Machine.Reach.{start-IsConsistent}
use jetstream_router.Program.{boot, launch, ingest_config}
use jetstream_router.Program.Boot.{boot-launch}
use jetstream_router.Program.System.{serve}
use jetstream_router.Program.System.Running.{serve-Lives, IsRunning}
use jetstream_router.Program.System.Closing.{closed_at, changed-closed}
use jetstream_router.Program.System.Order.{IsOrdered}

launch-disp :
    (cfg : Config) (disk : Disk) (router : Router) (built : List (Str × Route))
    → IsKnown (record { router = router; routes = built; unknown = 0 })
    → IsKnown (launch cfg disk router built).disp
unfolding launch Machines.start
launch-disp cfg disk router built known = known

pub launch-lookup :
    (cfg : Config) (disk : Disk) (router : Router) (built : List (Str × Route)) (name : Str)
    {r : Route}
    → lookup name built ≡ some r
    → lookup name (launch cfg disk router built).disp.routes ≡ some r
unfolding launch Machines.start
launch-lookup cfg disk router built name there = there

pub boot-IsRunning :
    (marshal : ℤ → Str) (cfg : Config) (disk : Disk) (m : Machine)
    → boot cfg disk ≡ ok m
    → IsRunning disk.file marshal m (serve m)
unfolding serve launch
boot-IsRunning marshal cfg disk m booted =
    let (router, built, made, ran, same) = boot-launch cfg disk m booted in
    record {
      lives = λ name r there. serve-Lives m name r there;
      known =
          subst (λ n. IsKnown n.disp) same
            (launch-disp cfg disk router built
              (build_routes-IsKnown cfg.routing router cfg built 0 made ran).0);
      consistent = λ _. subst (IsConsistent disk.file marshal) same (
          start-IsConsistent marshal (ingest_config cfg router)
            (record { router = router; routes = built; unknown = 0 }) disk);
    }

new_open : (c : Route.Config) → (Route.new c).closed ≡ false
unfolding Route.new
new_open c = refl

-- Every route that is built is open.
build_from-open :
    (cfgs : List (Str × Route.Config)) (names : List Str) (built m : List (Str × Route))
    → build_from cfgs names built ≡ ok m
    → ((name : Str) → closed_at name built ≢ some true)
    → (name : Str) → closed_at name m ≢ some true
unfolding build_from
build_from-open cfgs [] built m ran all name =
    let same : built ≡ m = ground (arith, ran) in
    subst (λ x. closed_at name x ≢ some true) same (all name)
build_from-open cfgs (n ∷ names) built m ran all name = elim (Bool-cases (is_registered n)) [
  | inr stranger ↦ absurd (ground (arith, stranger, ran))
  | inl known ↦
      let new = Route.new (record (route_config n cfgs) { name = n }) in
      let to : build_from cfgs (n ∷ names) built ≡ build_from cfgs names (insert n new built) =
        rw (known, build_from) refl in
      build_from-open cfgs names (insert n new built) m (sym to ∙ ran)
        (λ other shut.
          let after =
            changed-closed n other built (insert n new built) new
              (lookup-insert n other new built) in
          elim (Bool-cases (n == other)) [
            | inl same ↦ absurd (
                cc (
                  shut,
                  after ∙ ap (λ b. if b then some new.closed else closed_at other built) same,
                  new_open (record (route_config n cfgs) { name = n }),
                ))
            | inr apart ↦ all other (
                sym (after ∙ ap (λ b. if b then some new.closed else closed_at other built) apart)
                ∙ shut)
          ])
        name
]

pub boot-IsOrdered :
    (cfg : Config) (disk : Disk) (m : Machine) → boot cfg disk ≡ ok m → IsOrdered (serve m)
unfolding serve launch Machines.start build_routes lookup
boot-IsOrdered cfg disk m booted =
    let (router, built, made, ran, same) = boot-launch cfg disk m booted in
    record {
      quiet = tt;
      opened =
          subst (λ n. (name : Str) → closed_at name n.disp.routes ≢ some true) same
            (build_from-open cfg.routes (routes router) [] built ran (λ name shut. absurd cc));
    }
