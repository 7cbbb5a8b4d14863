-- ===== src/Program/System/Ending.antt =====
-- `run` comes to its end: nothing is offered to a route that is closed, no route is closed twice,
-- and `run` can always finish once the ingestor has.
use jetstream_router.Common.{
  ◌≡◌, ◌≢◌, ◌⊎◌, refl, subst, Bool, true, false, Option, none, some, List, [], ◌∷◌, arith,
  Option-cases, inl, inr, ok,
}
use jetstream_router.Common.Int.{ℤ}
use jetstream_router.Common.Str.{Str}
use jetstream_router.Common.Maps.{lookup, keys, keys_iff, keys-IsOnce}
use jetstream_router.Event.{Event, Envelope}
use jetstream_router.Route.{Route, Choice, close, depth}
use jetstream_router.Route.Pool.{drain, deadline}
use jetstream_router.Cursor.{no_fault, Disk}
use jetstream_router.Config.{Config}
use jetstream_router.Dispatch.{dispatch, crashes}
use jetstream_router.Ingest.Machine.{Machine, stopped}
use jetstream_router.Program.System.{
  System, Stage, serving, draining, awaiting, ended, routes_of, final_commit, Moves, here, next,
  stops, shuts, drains, commits,
}
use jetstream_router.Program.System.Running.{IsRunning, Move-IsRunning}
use jetstream_router.Program.System.Closing.{closed_at, open-crashes}
use jetstream_router.Program.{boot}
use jetstream_router.Program.System.{serve}
use jetstream_router.Program.System.Start.{boot-IsRunning, boot-IsOrdered}
use jetstream_router.Program.System.Order.{Quiet, Opened, IsOrdered, Move-IsOrdered}

known_route :
    (name : Str) (m : List (Str × Route))
    → closed_at name m ≢ none
    → (r : Route) × (lookup name m ≡ some r)
known_route name m there = elim (Option-cases (lookup name m)) [
  | inl absent ↦ absurd (there (rw absent refl))
  | inr found ↦ found
]

open_route :
    (name : Str) (m : List (Str × Route))
    → closed_at name m ≡ some false
    → (r : Route) × (lookup name m ≡ some r) × (r.closed ≡ false)
open_route name m on = elim (Option-cases (lookup name m)) [
  | inl absent ↦ absurd (cc (rw absent at on))
  | inr (r, found) ↦
      let same : some r.closed ≡ some false = rw found at on in (r, found, ground (arith, same))
]

close_open : (r : Route) → r.closed ≡ false → close r ≡ some (record r { closed = true })
unfolding close
close_open r on = rw on refl

module _ (unmarshal : Str → Option Envelope) (marshal : ℤ → Str) (sprintf : Str → ℤ → Str) where
  Moves-join :
      {s t u : System}
      → Moves unmarshal marshal sprintf s t
      → Moves unmarshal marshal sprintf t u
      → Moves unmarshal marshal sprintf s u
  Moves-join first here = first
  Moves-join first (next rest move) = next (Moves-join first rest) move

  abbrev pub Ends : System → Type 0
  Ends s = (t : System) × (b : Bool) × Moves unmarshal marshal sprintf s t × (t.stage ≡ ended b)

  Ends-after : {s t : System} → Moves unmarshal marshal sprintf s t → Ends t → Ends s
  Ends-after first (u, b, rest, at) = (u, b, Moves-join first rest, at)

  -- A `Drain` can end by its deadline.
  awaiting-Ends :
      (old : Option Str) (m : Machine) (name : Str) (rest : List Str) (s : System)
      → s.stage ≡ awaiting name rest
      → IsRunning old marshal m s
      → IsOrdered s
      → ((t : System) → t.stage ≡ draining rest → IsRunning old marshal m t → IsOrdered t → Ends t)
      → Ends s
  unfolding drain
  awaiting-Ends old m name rest s at g o go =
      let opened = subst (λ x. Opened x (routes_of s)) at o.opened in
      let (r, found) = known_route name (routes_of s) opened.1 in
      let move = drains s name rest r false (deadline (depth r)) at found refl in
      Ends-after (next here move) (
        go _ refl (Move-IsRunning unmarshal marshal sprintf old m move g)
          (Move-IsOrdered unmarshal marshal sprintf old m move g o))

  draining-Ends :
      (old : Option Str) (m : Machine) (rest : List Str) (s : System)
      → s.stage ≡ draining rest
      → IsRunning old marshal m s
      → IsOrdered s
      → Ends s
  unfolding final_commit
  draining-Ends old m [] s at g o =
      (final_commit marshal no_fault s, _, next here (commits s no_fault at), refl)
  draining-Ends old m (name ∷ rest) s at g o =
      let (once, all) = subst (λ x. Opened x (routes_of s)) at o.opened in
      let (r, found, on) = open_route name (routes_of s) (all name (inl refl)) in
      let move = shuts s name rest r (record r { closed = true }) at found (close_open r on) in
      Ends-after (next here move) (
        awaiting-Ends old m name rest _ refl (Move-IsRunning unmarshal marshal sprintf old m move g)
          (Move-IsOrdered unmarshal marshal sprintf old m move g o)
          (λ t at' g' o'. draining-Ends old m rest t at' g' o'))

  -- Once the ingestor has ended, `run` can come to its end.
  pub stopped-Ends :
      (old : Option Str) (m : Machine) (s : System)
      → s.machine.phase ≡ stopped
      → IsRunning old marshal m s
      → IsOrdered s
      → Ends s
  stopped-Ends old m s end g o = choose s.stage refl
    where
      choose : (stage : Stage) → s.stage ≡ stage → Ends s
      choose serving at =
          let move =
            stops s (keys (routes_of s)) at end (keys-IsOnce (routes_of s))
              (keys_iff (routes_of s)) in
          Ends-after (next here move) (
            draining-Ends old m (keys (routes_of s)) _ refl
              (Move-IsRunning unmarshal marshal sprintf old m move g)
              (Move-IsOrdered unmarshal marshal sprintf old m move g o))
      choose (draining rest) at = draining-Ends old m rest s at g o
      choose (awaiting name rest) at =
          awaiting-Ends old m name rest s at g o (draining-Ends old m rest)
      choose (ended b) at = (s, b, here, at)

  pub Moves-IsOrdered :
      (old : Option Str) (m : Machine) (s : System)
      → IsRunning old marshal m (serve m)
      → IsOrdered (serve m)
      → Moves unmarshal marshal sprintf (serve m) s
      → IsRunning old marshal m s × IsOrdered s
  Moves-IsOrdered old m s g o here = (g, o)
  Moves-IsOrdered old m s g o (next {t} moves move) =
      let (running, ordered) = Moves-IsOrdered old m t g o moves in
      (
        Move-IsRunning unmarshal marshal sprintf old m move running,
        Move-IsOrdered unmarshal marshal sprintf old m move running ordered,
      )

  -- From a configuration that run can start, whatever the ingestor, the workers and run do, and
  -- in whatever order: as long as run waits for the ingestor, no Dispatch meets a closed channel;
  -- after that the ingestor has ended, and the route that run drains next is there and can be
  -- closed.
  pub order_lem :
      (cfg : Config) (disk : Disk) (m : Machine) (s : System)
      → boot cfg disk ≡ ok m
      → Moves unmarshal marshal sprintf (serve m) s
      → ((s.stage ≡ serving)
          × ((choice : Choice) (ev : Event) → dispatch choice ev s.machine.disp ≢ crashes))
        ⊎ ((s.machine.phase ≡ stopped)
            × ((name : Str) (rest : List Str)
                → s.stage ≡ draining (name ∷ rest)
                → (r : Route) × (r' : Route) × (lookup name (routes_of s) ≡ some r)
                  × (close r ≡ some r')))
  order_lem cfg disk m s booted moves =
      let (g, o) =
        Moves-IsOrdered disk.file m s (boot-IsRunning marshal cfg disk m booted)
          (boot-IsOrdered cfg disk m booted) moves in
      choose g o s.stage refl
    where
      Order : Type 0
      Order =
          ((s.stage ≡ serving)
            × ((choice : Choice) (ev : Event) → dispatch choice ev s.machine.disp ≢ crashes))
          ⊎ ((s.machine.phase ≡ stopped)
              × ((name : Str) (rest : List Str)
                  → s.stage ≡ draining (name ∷ rest)
                  → (r : Route) × (r' : Route) × (lookup name (routes_of s) ≡ some r)
                    × (close r ≡ some r')))

      to_close :
          IsOrdered s
          → (name : Str) (rest : List Str) → s.stage ≡ draining (name ∷ rest)
          → (r : Route) × (r' : Route) × (lookup name (routes_of s) ≡ some r) × (close r ≡ some r')
      to_close o name rest at =
          let (once, all) = subst (λ x. Opened x (routes_of s)) at o.opened in
          let (r, found, on) = open_route name (routes_of s) (all name (inl refl)) in
          (r, record r { closed = true }, found, close_open r on)

      choose :
          IsRunning disk.file marshal m s → IsOrdered s → (stage : Stage) → s.stage ≡ stage → Order
      choose g o serving at = inl (
        at,
        λ choice ev.
            open-crashes choice ev s.machine.disp g.known
              (subst (λ x. Opened x (routes_of s)) at o.opened),
      )
      choose g o (draining rest) at =
          inr (subst (λ x. Quiet x s.machine.phase) at o.quiet, to_close o)
      choose g o (awaiting name rest) at =
          inr (subst (λ x. Quiet x s.machine.phase) at o.quiet, to_close o)
      choose g o (ended b) at = inr (subst (λ x. Quiet x s.machine.phase) at o.quiet, to_close o)

  -- From a configuration that run can start, whatever has happened before: once the ingestor has
  -- ended, there are steps by which run comes to its end.
  pub run_ends :
      (cfg : Config) (disk : Disk) (m : Machine) (s : System)
      → boot cfg disk ≡ ok m
      → Moves unmarshal marshal sprintf (serve m) s
      → s.machine.phase ≡ stopped
      → (t : System) × (b : Bool) × Moves unmarshal marshal sprintf s t × (t.stage ≡ ended b)
  run_ends cfg disk m s booted moves end =
      let (g, o) =
        Moves-IsOrdered disk.file m s (boot-IsRunning marshal cfg disk m booted)
          (boot-IsOrdered cfg disk m booted) moves in
      stopped-Ends disk.file m s end g o
