-- ===== src/Program/System/Closing.antt =====
-- Which steps close the channel of a route, and what an offer to an open one does.
use jetstream_router.Common.{
  ◌≡◌, ◌≢◌, ◌∙◌, ap, refl, sym, subst, Bool, true, false, Option, none, some, List, [], ◌∷◌,
  if◌then◌else◌, arith, Bool-cases, inl, inr,
}
use jetstream_router.Common.Str.{Str, ◌==◌, eq_iff}
use jetstream_router.Common.Maps.{lookup}
use jetstream_router.Event.{Event}
use jetstream_router.Routing.{route}
use jetstream_router.Route.{
  Route, Choice, sent, timed_out, cancelled, Offered, returns, waits, panics, offer, offer_block,
  offer_drop, receive, has_room, send, shed,
}
use jetstream_router.Route.Pool.{Pool, Turn, takes, leaves, finishes, take_event, leave, finish}
use jetstream_router.Dispatch.{Dispatcher, dispatch, dispatch_to, hand_on, crashes}
use jetstream_router.Dispatch.Known.{IsKnown, dispatch-IsKnown}
use jetstream_router.Ingest.Machine.{Machine}
use jetstream_router.Program.System.Projects.{Offers}

abbrev flag : Option Route → Option Bool
flag none = none
flag (some r) = some r.closed

-- Whether the channel of the route of a name is closed; `none` where there is no such route.
abbrev pub closed_at : Str → List (Str × Route) → Option Bool
closed_at name m = flag (lookup name m)

offer-closed :
    (choice : Choice) (ev : Event) (r r' : Route) (accepted : Bool)
    → offer choice ev r ≡ returns r' accepted
    → r'.closed ≡ r.closed
unfolding offer offer_block offer_drop has_room send shed
offer-closed sent ev r r' accepted ran = ground arith
offer-closed timed_out ev r r' accepted ran = ground arith
offer-closed cancelled ev r r' accepted ran = ground arith

receive-closed : (r r' : Route) (ev : Event) → receive r ≡ some (ev, r') → r'.closed ≡ r.closed
unfolding receive
receive-closed r r' ev got = choose r.queue refl
  where
    choose : (queue : List Event) → r.queue ≡ queue → r'.closed ≡ r.closed
    choose [] e = absurd (ground (arith, e, got))
    choose (x ∷ queue) e = ground (arith, e, got)

pub Turn-closed : {p q : Pool} {took : List Event} → Turn p took q → q.route.closed ≡ p.route.closed
unfolding take_event leave finish
Turn-closed (takes p i ev r at got) = receive-closed p.route r ev got
Turn-closed (leaves p i at got shut) = refl
Turn-closed (finishes p i ev o handler wakes at ran) = refl

-- The route of one name becomes another one.
pub changed-closed :
    (name other : Str) (m m' : List (Str × Route)) (r' : Route)
    → lookup other m' ≡ (if name == other then some r' else lookup other m)
    → closed_at other m' ≡ (if name == other then some r'.closed else closed_at other m)
changed-closed name other m m' r' after = elim (Bool-cases (name == other)) [
  | inl same ↦ rw same (ap flag (after ∙ ap (λ b. if b then some r' else lookup other m) same))
  | inr apart ↦ rw apart (ap flag (after ∙ ap (λ b. if b then some r' else lookup other m) apart))
]

pub kept-closed :
    (name other : Str) (m m' : List (Str × Route)) (r r' : Route)
    → lookup name m ≡ some r
    → lookup other m' ≡ (if name == other then some r' else lookup other m)
    → r'.closed ≡ r.closed
    → closed_at other m' ≡ closed_at other m
kept-closed name other m m' r r' found after kept = elim (Bool-cases (name == other)) [
  | inl same ↦
      changed-closed name other m m' r' after
      ∙ ap (λ b. if b then some r'.closed else closed_at other m) same
      ∙ ap some kept
      ∙ sym (ap flag (subst (λ x. lookup x m ≡ some r) ((eq_iff name other).0 same) found))
  | inr apart ↦
      changed-closed name other m m' r' after
      ∙ ap (λ b. if b then some r'.closed else closed_at other m) apart
]

pub Offers-closed :
    (m n : Machine) (name : Str)
    → IsKnown m.disp
    → Offers m n
    → closed_at name n.disp.routes ≡ closed_at name m.disp.routes
Offers-closed m n name known (inl same) = ap (λ d. closed_at name d.routes) same
Offers-closed m n name known (inr (choice, ev, taken, ran)) =
    let (_, _, (r, r', found, offered, after)) =
      dispatch-IsKnown choice ev m.disp n.disp taken known ran in
    kept-closed (route m.disp.router ev.key) name m.disp.routes n.disp.routes r r' found
      (after name) (offer-closed choice ev r r' taken offered)

offer-panics :
    (choice : Choice) (ev : Event) (r : Route) → r.closed ≡ false → offer choice ev r ≢ panics
unfolding offer offer_block offer_drop
offer-panics sent ev r on h = absurd (ground (arith, on, h))
offer-panics timed_out ev r on h = absurd (ground (arith, on, h))
offer-panics cancelled ev r on h = absurd (ground (arith, on, h))

hand_on-crashes :
    (name : Str) (d : Dispatcher) (o : Offered) → hand_on name d o ≡ crashes → o ≡ panics
unfolding hand_on
hand_on-crashes name d (returns r b) h = absurd cc
hand_on-crashes name d waits h = absurd cc
hand_on-crashes name d panics h = refl

-- Offers that meet no closed channel.
pub open-crashes :
    (choice : Choice) (ev : Event) (d : Dispatcher)
    → IsKnown d
    → ((name : Str) → closed_at name d.routes ≢ some true)
    → dispatch choice ev d ≢ crashes
unfolding dispatch dispatch_to hand_on
open-crashes choice ev d known opened crash =
    let (r, found) = known ev.key in
    elim (Bool-cases r.closed) [
      | inl shut ↦ opened (route d.router ev.key) (ap flag found ∙ ap some shut)
      | inr on ↦ offer-panics choice ev r on (
          hand_on-crashes (route d.router ev.key) d (offer choice ev r)
            (sym (ap (λ x. dispatch_to choice ev (route d.router ev.key) d x) found) ∙ crash))
    ]
