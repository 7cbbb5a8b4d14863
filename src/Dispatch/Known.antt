-- ===== src/Dispatch/Known.antt =====
-- Every event finds its route, and a route is touched by its own events only.
use jetstream_router.Common.{
  ℕ, ◌≡◌, ◌⊎◌, ◌∙◌, refl, sym, ap, subst, Bool, true, false, some, List, [], ◌∷◌, Has, ok,
  if◌then◌else◌, arith, Bool-cases, inl, inr,
}
use jetstream_router.Common.Str.{Str, ◌==◌, eq_iff, eq_refl}
use jetstream_router.Common.Maps.{lookup, insert, lookup-insert}
use jetstream_router.Event.{Key, Event}
use jetstream_router.Routing.{Table, Router, routes, route}
use jetstream_router.Routing
use jetstream_router.Routing.Reach.{route-Has-routes}
use jetstream_router.Route.{Route, Offered, returns, waits, panics, Choice, offer, new}
use jetstream_router.Route.{has_room, send, shed, policy_block}
use jetstream_router.Route.Queue.{offer_drop_lem}
use jetstream_router.Config.{Config}
use jetstream_router.Dispatch.{
  is_registered, route_config, build_from, build_routes, Dispatcher, hands_on, hand_on, dispatch_to,
  dispatch,
}

-- The route of a configuration, as it is built.
abbrev pub fresh : Config → Str → Route
fresh cfg name = new (record (route_config name cfg.routes) { name = name })

Has-cases : (k : Str) (ks : List Str) → Has k ks ⊎ (¬ Has k ks)
Has-cases k [] = inr (λ h. h)
Has-cases k (j ∷ ks) = elim (Bool-cases (j == k)) [
  | inl same ↦ inl (inl ((eq_iff j k).0 same))
  | inr other ↦ elim (Has-cases k ks) [
    | inl there ↦ inl (inr there)
    | inr gone ↦
        inr
          (λ h. elim h [ inl same ↦ ground (arith, (eq_iff j k).1 same) | inr there ↦ gone there ])
  ]
]

build_from-lookup :
    (cfg : Config) (names : List Str) (built m : List (Str × Route))
    → build_from cfg.routes names built ≡ ok m
    → ((k : Str)
        → (Has k names → lookup k m ≡ some (fresh cfg k))
          × (¬ Has k names → lookup k m ≡ lookup k built))
unfolding build_from
build_from-lookup cfg [] built m h k = (λ x. absurd x, λ _. ap (lookup k) (ground arith))
build_from-lookup cfg (n ∷ names) built m h k = elim (Bool-cases (is_registered n)) [
  | inr unknown ↦ absurd (ground arith)
  | inl known ↦
      let next = sym (next-built known) ∙ h in
      let (listed, other) = build_from-lookup cfg names (insert n (fresh cfg n) built) m next k in
      (
        λ place. elim (Has-cases k names) [
          | inl there ↦ listed there
          | inr gone ↦ elim place [
            | inr there ↦ absurd (gone there)
            | inl same ↦
                other gone
                ∙ subst (λ x. lookup x (insert n (fresh cfg n) built) ≡ some (fresh cfg x)) same
                    (ground (arith, lookup-insert n n (fresh cfg n) built, eq_refl n))
          ]
        ],
        λ gone.
            let apart : (n == k) ≡ false = elim (Bool-cases (n == k)) [
              | inl same ↦ absurd (gone (inl ((eq_iff n k).0 same)))
              | inr f ↦ f
            ] in
            other (λ there. gone (inr there))
            ∙ ground (arith, lookup-insert n k (fresh cfg n) built),
      )
]
  where
    next-built :
        is_registered n ≡ true
        → build_from cfg.routes (n ∷ names) built
          ≡ build_from cfg.routes names (insert n (fresh cfg n) built)
    next-built known = rw (known, build_from) refl

-- Every event finds a route.
abbrev pub IsKnown : Dispatcher → Type 0
IsKnown d = (k : Key) → (r : Route) × (lookup (route d.router k) d.routes ≡ some r)

-- The routes that buildRoutes makes for the router of an accepted table take every event that
-- there is: each route of the table is there, new, with its own name and its configuration.
pub build_routes-IsKnown :
    (t : Table) (router : Router) (cfg : Config) (built : List (Str × Route)) (n : ℕ)
    → jetstream_router.Routing.new t ≡ ok router
    → build_routes cfg router ≡ ok built
    → IsKnown (record { router = router; routes = built; unknown = n })
      × ((name : Str) → Has name (routes router) → lookup name built ≡ some (fresh cfg name))
unfolding build_routes
build_routes-IsKnown t router cfg built n made ran =
    let there : (name : Str)
        → Has name (routes router)
        → lookup name built ≡ some (fresh cfg name) =
      λ name h. (build_from-lookup cfg (routes router) [] built ran name).0 h in
    (λ k. (_, there (route router k) (route-Has-routes t router k made)), there)

-- Where Dispatch returns, a dispatcher that has a route for every key offers an event to the
-- route that its router names and to no other: that route becomes what Offer makes of it, every
-- other one is untouched, nothing is counted as unknown, and every key still has a route.
pub dispatch-IsKnown :
    (choice : Choice) (ev : Event) (d d' : Dispatcher) (accepted : Bool)
    → IsKnown d
    → dispatch choice ev d ≡ hands_on d' accepted
    → IsKnown d'
      × (d'.unknown ≡ d.unknown)
      × ((r : Route) × (r' : Route) × (lookup (route d.router ev.key) d.routes ≡ some r)
          × (offer choice ev r ≡ returns r' accepted)
          × ((name : Str)
              → lookup name d'.routes
                ≡ (if route d.router ev.key == name then some r' else lookup name d.routes)))
unfolding dispatch dispatch_to hand_on
dispatch-IsKnown choice ev d d' accepted known ran =
    let name = route d.router ev.key in
    let (r, found) = known ev.key in
    let to : dispatch choice ev d ≡ hand_on name d (offer choice ev r) =
      ap (λ x. dispatch_to choice ev name d x) found in
    choose r found (offer choice ev r) refl (sym to ∙ ran)
  where
    choose :
        (r : Route)
        → lookup (route d.router ev.key) d.routes ≡ some r
        → (o : Offered) → offer choice ev r ≡ o
        → hand_on (route d.router ev.key) d o ≡ hands_on d' accepted
        → IsKnown d'
          × (d'.unknown ≡ d.unknown)
          × ((r : Route) × (r' : Route) × (lookup (route d.router ev.key) d.routes ≡ some r)
              × (offer choice ev r ≡ returns r' accepted)
              × ((name : Str)
                  → lookup name d'.routes
                    ≡ (if route d.router ev.key == name then some r' else lookup name d.routes)))
    choose r found waits off h = absurd cc
    choose r found panics off h = absurd cc
    choose r found (returns r' b) off h =
        let name = route d.router ev.key in
        let router : d'.router ≡ d.router = ground arith in
        let unknown : d'.unknown ≡ d.unknown = ground arith in
        let routes_ : d'.routes ≡ insert name r' d.routes = ground arith in
        let answered : b ≡ accepted = ground arith in
        let after : (k : Str)
            → lookup k d'.routes ≡ (if name == k then some r' else lookup k d.routes) =
          λ k. ap (lookup k) routes_ ∙ lookup-insert name k r' d.routes in
        (
          λ k.
              let (s, there) = known k in
              elim (Bool-cases (name == route d.router k)) [
                | inl same ↦
                    (r', ground (arith, after (route d'.router k), ap (λ x. route x k) router))
                | inr other ↦
                    (s, ground (arith, after (route d'.router k), ap (λ x. route x k) router))
              ],
          unknown,
          (r, r', found, off ∙ ap (returns r') answered, after),
        )

-- Where every key has a route, and every route is open and under the drop policy, Dispatch
-- returns for every event and never blocks or panics.
pub dispatch_returns :
    (choice : Choice) (ev : Event) (d : Dispatcher)
    → IsKnown d
    → ((name : Str) (r : Route)
        → lookup name d.routes ≡ some r
        → (r.closed ≡ false) × ((r.cfg.policy == policy_block) ≡ false))
    → (d' : Dispatcher) × (accepted : Bool) × (dispatch choice ev d ≡ hands_on d' accepted)
unfolding dispatch dispatch_to hand_on
dispatch_returns choice ev d known open_ =
    let name = route d.router ev.key in
    let (r, found) = known ev.key in
    let (unclosed, drop) = open_ name r found in
    let to : dispatch choice ev d ≡ hand_on name d (offer choice ev r) =
      ap (λ x. dispatch_to choice ev name d x) found in
    let off = offer_drop_lem choice ev r drop unclosed in
    elim (Bool-cases (has_room r)) [
      | inl room ↦ (
        record d { routes = insert name (send ev r) d.routes },
        true,
        to
            ∙ ap (hand_on name d) (
                off
                ∙ ap (λ b. if b then returns (send ev r) true else returns (shed r) false) room),
      )
      | inr full ↦ (
        record d { routes = insert name (shed r) d.routes },
        false,
        to
            ∙ ap (hand_on name d) (
                off
                ∙ ap (λ b. if b then returns (send ev r) true else returns (shed r) false) full),
      )
    ]
