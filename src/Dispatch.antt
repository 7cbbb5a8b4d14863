-- ===== src/Dispatch.antt =====
-- cmd/router/main.go: the routes that are built from a configuration, and the dispatch of an
-- event to one of them. A handler is named by the key of the map `handlers`.
pub mod Known
pub mod Handlers
use jetstream_router.Common.{
  ℕ, suc, Bool, true, false, Option, none, some, List, [], ◌∷◌, Result, ok, err, ◌>>=◌,
  if◌then◌else◌, length,
}
use jetstream_router.Common.Int.{ℤ, pos}
use jetstream_router.Common.Str.{Str, lit, ◌==◌}
use jetstream_router.Common.Maps.{lookup, insert}
use jetstream_router.Event.{Event}
use jetstream_router.Routing.{Router, routes, route, collections}
use jetstream_router.Route.{Route, Offered, returns, waits, panics, Choice, offer, new}
use jetstream_router.Route
use jetstream_router.Config.{Config}

pub data BuildError : Type 0 where
  no_handler : Str → BuildError

-- The keys of `handlers`.
unfoldable pub is_registered : Str → Bool
is_registered name =
    if name == lit "content"
    then true
    else (if name == lit "engagement"
        then true
        else (if name == lit "social-graph"
            then true
            else (if name == lit "retraction" then true else name == lit "default")))

-- `cfg.Routes[name]`, which is the zero configuration for a missing key.
unfoldable pub route_config : Str → List (Str × Route.Config) → Route.Config
route_config name m = elim (lookup name m) [
  | some rc ↦ rc
  | none ↦ record {
    name = [];
    buffer = pos 0;
    workers = pos 0;
    policy = [];
    max_attempts = pos 0;
    retry_base = pos 0;
    block_timeout = pos 0;
  }
]

-- The loop of `buildRoutes` over the routes of the table.
unfoldable pub build_from :
    List (Str × Route.Config)
    → List Str
    → List (Str × Route)
    → Result BuildError (List (Str × Route))
build_from cfgs [] built = ok built
build_from cfgs (name ∷ names) built =
    let rest =
      build_from cfgs names
        (insert name (new (record (route_config name cfgs) { name = name })) built) in
    if is_registered name then rest else err (no_handler name)

-- `buildRoutes`
unfoldable pub build_routes : Config → Router → Result BuildError (List (Str × Route))
build_routes cfg router = build_from cfg.routes (routes router) []

-- The collections that `ingestConfig` asks the server for.
unfoldable pub wanted : List Str → Router → List Str
wanted [] router = []
wanted (c ∷ []) router = if c == lit "derive" then collections router else c ∷ []
wanted (c ∷ c' ∷ cs) router = c ∷ c' ∷ cs

-- `unknown` counts the events that no route took.
pub record Dispatcher : Type 0 where
  pub router : Router
  pub routes : List (Str × Route)
  pub unknown : ℕ

pub data Dispatched : Type 0 where
  hands_on : Dispatcher → Bool → Dispatched
  blocks : Dispatched
  crashes : Dispatched

-- The event is offered to the route of the name.
unfoldable pub hand_on : Str → Dispatcher → Offered → Dispatched
hand_on name d (returns r accepted) =
    hands_on (record d { routes = insert name r d.routes }) accepted
hand_on name d waits = blocks
hand_on name d panics = crashes

unfoldable pub dispatch_to : Choice → Event → Str → Dispatcher → Option Route → Dispatched
dispatch_to choice ev name d none = hands_on (record d { unknown = suc d.unknown }) false
dispatch_to choice ev name d (some r) = hand_on name d (offer choice ev r)

-- `Dispatch`
unfoldable pub dispatch : Choice → Event → Dispatcher → Dispatched
dispatch choice ev d =
    let name = route d.router ev.key in dispatch_to choice ev name d (lookup name d.routes)
