-- ===== src/Program/Boot.antt =====
-- What `run` makes of a configuration that `Load` accepts.
use jetstream_router.Common.{
  ◌≡◌, ◌⊎◌, ◌∙◌, ap, refl, sym, subst, true, false, Option, none, some, List, [], ◌∷◌, Has, Result,
  ok, err, arith, Bool-cases, inl, inr,
}
use jetstream_router.Common.Int.{ℤ}
use jetstream_router.Common.Str.{Str}
use jetstream_router.Common.Maps.{insert}
use jetstream_router.Routing.{NewError, Router, routes}
use jetstream_router.Routing
use jetstream_router.Routing.Reach.{Produces, routes_iff}
use jetstream_router.Route.{Route}
use jetstream_router.Route
use jetstream_router.Cursor.{Disk, new_cursor, load, loaded}
use jetstream_router.Config.{Config, validate}
use jetstream_router.Config.Validate.{validate_iff}
use jetstream_router.Dispatch.{
  BuildError, no_handler, is_registered, route_config, build_from, build_routes,
}
use jetstream_router.Dispatch.Known.{IsKnown, build_routes-IsKnown}
use jetstream_router.Ingest.{new, subscribe}
use jetstream_router.Ingest.Machine.{Machine, start}
use jetstream_router.Program.{unbuilt, launch, boot_with, boot_from, boot}

-- The loop of `buildRoutes` ends with all routes, or at the first that has no handler.
build_from_cases :
    (cfgs : List (Str × Route.Config)) (names : List Str) (built : List (Str × Route))
    → ((m : List (Str × Route)) × (build_from cfgs names built ≡ ok m)
        × ((name : Str) → Has name names → is_registered name ≡ true))
      ⊎ ((name : Str) × (build_from cfgs names built ≡ err (no_handler name))
          × Has name names
          × (is_registered name ≡ false))
unfolding build_from
build_from_cases cfgs [] built = inl (built, refl, λ name h. absurd h)
build_from_cases cfgs (n ∷ names) built = elim (Bool-cases (is_registered n)) [
  | inr stranger ↦ inr (n, rw (stranger, build_from) refl, inl refl, stranger)
  | inl known ↦
      let next = insert n (Route.new (record (route_config n cfgs) { name = n })) built in
      let to : build_from cfgs (n ∷ names) built ≡ build_from cfgs names next =
        rw (known, build_from) refl in
      elim (build_from_cases cfgs names next) [
        | inl (m, made, all) ↦ inl (
          m,
          to ∙ made,
          λ name h. elim h [
            | inl same ↦ subst (λ x. is_registered x ≡ true) same known
            | inr later ↦ all name later
          ],
        )
        | inr (name, failed, there, stranger) ↦ inr (name, to ∙ failed, inr there, stranger)
      ]
]

-- For a configuration that Validate accepts, either run starts, every route that the table can
-- produce has a handler, and the dispatcher has a route for every key; or run returns the error
-- that names a route that the table can produce and that has no handler.
pub boot_lem :
    (cfg : Config) (disk : Disk)
    → validate cfg ≡ ok tt
    → ((m : Machine) × (boot cfg disk ≡ ok m)
        × ((name : Str) → Produces cfg.routing name → is_registered name ≡ true)
        × IsKnown m.disp)
      ⊎ ((name : Str) × (boot cfg disk ≡ err (unbuilt (no_handler name)))
          × Produces cfg.routing name
          × (is_registered name ≡ false))
unfolding boot boot_from boot_with build_routes
boot_lem cfg disk valid =
    let (router, made, _, _, _, _) = (validate_iff cfg).0 valid in
    let produces = (routes_iff cfg.routing router made).1 in
    let to : boot cfg disk ≡ boot_with cfg disk router (build_routes cfg router) =
      ap (boot_from cfg disk) made in
    elim (build_from_cases cfg.routes (routes router) []) [
      | inl (built, ran, all) ↦ inl (
        launch cfg disk router built,
        to ∙ ap (boot_with cfg disk router) ran,
        λ name h. all name ((produces name).1 h),
        unfold launch in
            unfold start in
            unfold new in (build_routes-IsKnown cfg.routing router cfg built 0 made ran).0,
      )
      | inr (name, failed, there, stranger) ↦
          inr (name, to ∙ ap (boot_with cfg disk router) failed, (produces name).0 there, stranger)
    ]

launch-subscribe :
    (cfg : Config) (disk : Disk) (router : Router) (built : List (Str × Route)) (since : ℤ → ℤ)
    → subscribe since (launch cfg disk router built).ingest
      ≡ ((launch cfg disk router built).ingest, none)
unfolding subscribe launch start new new_cursor
launch-subscribe cfg disk router built since = refl

-- What the start of the ingestor says of the routes.
pub boot-launch :
    (cfg : Config) (disk : Disk) (m : Machine)
    → boot cfg disk ≡ ok m
    → (router : Router) × (built : List (Str × Route)) × (Routing.new cfg.routing ≡ ok router)
      × (build_routes cfg router ≡ ok built)
      × (launch cfg disk router built ≡ m)
unfolding boot boot_from boot_with
boot-launch cfg disk m ran = choose (Routing.new cfg.routing) refl
  where
    made_by :
        (router : Router) (x : Result BuildError (List (Str × Route)))
        → Routing.new cfg.routing ≡ ok router
        → build_routes cfg router ≡ x
        → boot_with cfg disk router x ≡ ok m
        → (router : Router) × (built : List (Str × Route)) × (Routing.new cfg.routing ≡ ok router)
          × (build_routes cfg router ≡ ok built)
          × (launch cfg disk router built ≡ m)
    made_by router (err e) made ran h = absurd (ground arith)
    made_by router (ok built) made ran h = (router, built, made, ran, ground arith)

    choose :
        (x : Result NewError Router)
        → Routing.new cfg.routing ≡ x
        → (router : Router) × (built : List (Str × Route)) × (Routing.new cfg.routing ≡ ok router)
          × (build_routes cfg router ≡ ok built)
          × (launch cfg disk router built ≡ m)
    choose (err e) made = absurd (ground (arith, sym ran ∙ ap (boot_from cfg disk) made))
    choose (ok router) made =
        made_by router (build_routes cfg router) made refl
          (sym (ap (boot_from cfg disk) made) ∙ ran)

-- Where the cursor file holds a position that reads back, Load on a new cursor returns that
-- position; but when run starts on that disk, the first subscribeURL asks for no position,
-- whatever the clock says.
pub boot-subscribe :
    (cfg : Config) (unmarshal : Str → Option ℤ) (bytes : Str) (v : ℤ) (disk : Disk) (m : Machine)
    (since : ℤ → ℤ)
    → disk.file ≡ some bytes
    → unmarshal bytes ≡ some v
    → boot cfg disk ≡ ok m
    → ((load unmarshal disk new_cursor).1 ≡ v) × (subscribe since m.ingest ≡ (m.ingest, none))
unfolding load loaded
boot-subscribe cfg unmarshal bytes v disk m since there reads ran =
    let (router, built, _, _, same) = boot-launch cfg disk m ran in
    (
      rw (there, load, reads) refl,
      subst (λ n. subscribe since n.ingest ≡ (n.ingest, none)) same
          (launch-subscribe cfg disk router built since),
    )
