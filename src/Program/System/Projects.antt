-- ===== src/Program/System/Projects.antt =====
-- Seen from one route, a run of the program is a life of that route.
use jetstream_router.Common.{
  ◌≡◌, ◌⊎◌, ◌∙◌, ap, refl, sym, subst, Bool, true, false, Option, some, List, [], ◌∷◌, ◌++◌,
  if◌then◌else◌, arith, Bool-cases, inl, inr,
}
use jetstream_router.Common.Int.{ℤ}
use jetstream_router.Common.Str.{Str, ◌==◌, eq_iff}
use jetstream_router.Common.Maps.{lookup}
use jetstream_router.Event.{Event, Envelope}
use jetstream_router.Routing.{route}
use jetstream_router.Route.{Route, Choice, offer, returns}
use jetstream_router.Route.Pool.{start, Life, accepts, refuses}
use jetstream_router.Dispatch.{dispatch, hands_on}
use jetstream_router.Dispatch.Known.{IsKnown, dispatch-IsKnown}
use jetstream_router.Ingest.Frames.{read_frame-Round}
use jetstream_router.Ingest.Frames as Frames
use jetstream_router.Ingest.Machine.{
  Machine, begin, finish, connect, bad_url, refused, accepted, greet, take_in, lose, settle, wake,
  abandon, cancel, save, judge, report, retire, Step, begins, dials, greets, receives, loses,
  settles, wakes, abandons, saves, judges, reports, retires, cancels,
}
use jetstream_router.Program.System.{Crew, System, routes_of, pool}

begin-disp : (m : Machine) → (begin m).disp ≡ m.disp
unfolding begin finish
begin-disp m = elim (Bool-cases m.cancelled) [
  | inl over ↦ rw (over, begin) refl
  | inr on ↦ rw (on, begin) refl
]

settle-disp : (jitter : ℤ → ℤ) (held : ℤ) (m : Machine) → (settle jitter held m).disp ≡ m.disp
unfolding settle finish
settle-disp jitter held m = elim (Bool-cases m.cancelled) [
  | inl over ↦ rw (over, settle) refl
  | inr on ↦ rw (on, settle) refl
]

-- What a step of the ingestor does to the routes: nothing, or what one `Dispatch` does.
abbrev pub Offers : Machine → Machine → Type 0
Offers m n =
    (n.disp ≡ m.disp)
    ⊎ ((choice : Choice) × (ev : Event) × (accepted : Bool) × (dispatch choice ev m.disp
          ≡ hands_on n.disp accepted))

module _ (unmarshal : Str → Option Envelope) (marshal : ℤ → Str) (sprintf : Str → ℤ → Str) where
  pub Step-Offers : {m n : Machine} → Step unmarshal marshal sprintf m n → Offers m n
  unfolding connect greet take_in lose wake abandon cancel save judge report retire
  Step-Offers (begins m at) = inl (begin-disp m)
  Step-Offers (dials m since bad_url at) = inl refl
  Step-Offers (dials m since refused at) = inl refl
  Step-Offers (dials m since accepted at) = inl refl
  Step-Offers (greets m at) = inl refl
  Step-Offers (receives m since choice frame g d at ran) =
      let (handled, _, _, _) =
        subst (Frames.Round unmarshal since choice frame m.ingest m.disp) ran
          (read_frame-Round unmarshal since choice frame m.ingest m.disp) in
      elim handled [
        | inl (_, _, same, _) ↦ inl same
        | inr (ev, taken, _, offered, _, _) ↦ inr (choice, ev, taken, offered)
      ]
  Step-Offers (loses m at) = inl refl
  Step-Offers (settles m jitter held at range) = inl (settle-disp jitter held m)
  Step-Offers (wakes m d at) = inl refl
  Step-Offers (abandons m d at over) = inl refl
  Step-Offers (saves m fault at) = inl refl
  Step-Offers (judges m since at) = inl refl
  Step-Offers (reports m verdict at) = inl refl
  Step-Offers (retires m at over) = inl refl
  Step-Offers (cancels m) = inl refl

-- The route of the name has gone through some life, from the route that it was at first.
abbrev pub Lives : Route → Str → System → Type 0
Lives r₀ name s =
    (r : Route) × (acc : List Event) × (rec : List Event) × (lookup name (routes_of s) ≡ some r)
    × Life (start r₀) acc rec (pool name r s)

-- What a life needs: the route, and its crew.
pub Lives-intro :
    (r₀ : Route) (name : Str) (s : System) (r : Route) (c : Crew) (acc rec : List Event)
    → lookup name (routes_of s) ≡ some r
    → s.crews name ≡ c
    → Life (start r₀) acc rec (record { route = r; workers = c.workers; outcomes = c.outcomes })
    → Lives r₀ name s
Lives-intro r₀ name s r c acc rec there crew life = (
  r,
  acc,
  rec,
  there,
  subst
      (λ x.
        Life (start r₀) acc rec (record { route = r; workers = x.workers; outcomes = x.outcomes }))
      (sym crew) life,
)

pub Lives-same :
    (r₀ : Route) (name : Str) (s t : System)
    → lookup name (routes_of t) ≡ lookup name (routes_of s)
    → t.crews name ≡ s.crews name
    → Lives r₀ name s
    → Lives r₀ name t
Lives-same r₀ name s t routes crew (r, acc, rec, there, life) =
    Lives-intro r₀ name t r (s.crews name) acc rec (routes ∙ there) crew life

-- An offer to the route.
offered-Lives :
    (r₀ r r' : Route) (name : Str) (s : System) (n : Machine) (choice : Choice) (ev : Event)
    (taken : Bool)
    → offer choice ev r ≡ returns r' taken
    → lookup name (routes_of s) ≡ some r
    → lookup name n.disp.routes ≡ some r'
    → Lives r₀ name s
    → Lives r₀ name (record s { machine = n })
offered-Lives r₀ r r' name s n choice ev taken ran found after (r₁, acc, rec, there, life) =
    let same : r₁ ≡ r = ground (arith, sym there ∙ found) in
    let life' = subst (λ x. Life (start r₀) acc rec (pool name x s)) same life in
    choose taken ran life'
  where
    choose :
        (b : Bool)
        → offer choice ev r ≡ returns r' b
        → Life (start r₀) acc rec (pool name r s)
        → Lives r₀ name (record s { machine = n })
    choose true ran life = (r', acc ++ ev ∷ [], rec, after, accepts choice ev life ran)
    choose false ran life = (r', acc, rec, after, refuses choice ev life ran)

pub ingests-Lives :
    (r₀ : Route) (name : Str) (s : System) (n : Machine)
    → IsKnown s.machine.disp
    → Offers s.machine n
    → Lives r₀ name s
    → Lives r₀ name (record s { machine = n })
ingests-Lives r₀ name s n known (inl same) lives =
    Lives-same r₀ name s (record s { machine = n }) (ap (λ d. lookup name d.routes) same) refl lives
ingests-Lives r₀ name s n known (inr (choice, ev, taken, ran)) lives =
    let (_, _, (r, r', found, offered, after)) =
      dispatch-IsKnown choice ev s.machine.disp n.disp taken known ran in
    let to = route s.machine.disp.router ev.key in
    elim (Bool-cases (to == name)) [
      | inr other ↦
          Lives-same r₀ name s (record s { machine = n })
            (after name ∙ ap (λ b. if b then some r' else lookup name (routes_of s)) other) refl
            lives
      | inl same ↦
          offered-Lives r₀ r r' name s n choice ev taken offered
            (subst (λ x. lookup x (routes_of s) ≡ some r) ((eq_iff to name).0 same) found)
            (after name ∙ ap (λ b. if b then some r' else lookup name (routes_of s)) same) lives
    ]

pub Offers-IsKnown : (m n : Machine) → IsKnown m.disp → Offers m n → IsKnown n.disp
Offers-IsKnown m n known (inl same) = subst IsKnown (sym same) known
Offers-IsKnown m n known (inr (choice, ev, taken, ran)) =
    (dispatch-IsKnown choice ev m.disp n.disp taken known ran).0
