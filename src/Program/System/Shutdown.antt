-- ===== src/Program/System/Shutdown.antt =====
-- What is left when `run` returns.
use mathlib.Core.List.{Perm}
use jetstream_router.Common.{
  ◌≡◌, ◌⊎◌, refl, sym, subst, true, Option, some, List, [], ◌∷◌, map, Has, arith, Bool-cases, inl,
  inr, ok,
}
use jetstream_router.Common.Int.{ℤ, pos}
use jetstream_router.Common.Str.{Str, ◌==◌, eq_iff}
use jetstream_router.Common.Maps.{lookup}
use jetstream_router.Event.{Event, Envelope}
use jetstream_router.Routing.Reach.{Produces, routes_iff}
use jetstream_router.Route.{Route}
use jetstream_router.Route.Pool.{start, Life, all_gone, Drained, drained, deadline, drain}
use jetstream_router.Route.Pool.Conserved.{processed}
use jetstream_router.Route.Pool.Finish.{drain_lem}
use jetstream_router.Cursor.{Disk}
use jetstream_router.Config.{Config}
use jetstream_router.Dispatch.{route_config}
use jetstream_router.Dispatch.Known.{fresh, build_routes-IsKnown}
use jetstream_router.Ingest.Machine.{Machine}
use jetstream_router.Ingest.Machine as Machines
use jetstream_router.Program.{boot}
use jetstream_router.Program.Boot.{boot-launch}
use jetstream_router.Program.System.{
  System, Stage, serving, draining, awaiting, ended, serve, routes_of, pool, set_pool, final_commit,
  Move, Moves, here, next, ingests, works, stops, shuts, drains, commits, overlaps, overlapped,
}
use jetstream_router.Program.System.Running.{IsOn, IsRunning, Move-IsRunning}
use jetstream_router.Program.System.Finished.{
  Turn-working, AllDone, InTime, AllDone-keep, AllDone-Has, finished_lem,
}
use jetstream_router.Program.System.Start.{launch-lookup, boot-IsRunning, boot-IsOrdered}
use jetstream_router.Program.System.Settled.{settled_lem}
use jetstream_router.Program.System.Order.{Quiet}
use jetstream_router.Program.System.Ending.{Moves-IsOrdered}

-- The routes that `run` has still to drain.
abbrev Covers : (Str → Type 0) → Stage → List (Str × Drained) → Type 0
Covers known serving results = Unit
Covers known (draining rest) results =
    (name : Str) → known name → Has name rest ⊎ Has name (map (λ x. x.0) results)
Covers known (awaiting n rest) results =
    (name : Str) → known name → Has name (n ∷ rest) ⊎ Has name (map (λ x. x.0) results)
Covers known (ended b) results = (name : Str) → known name → Has name (map (λ x. x.0) results)

abbrev Known : Machine → Str → Type 0
Known m name = (r : Route) × (lookup name m.disp.routes ≡ some r)

record IsDraining (m : Machine) (s : System) : Type 0 where
  done : AllDone s.crews s.results
  covers : Covers (Known m) s.stage s.results

covered :
    (known : Str → Type 0) (results : List (Str × Drained)) (name : Str)
    → Covers known (draining []) results
    → known name
    → Has name (map (λ x. x.0) results)
covered known results name all there = elim (all name there) [
  | inl none_ ↦ absurd none_
  | inr before ↦ before
]

-- A route that was drained goes over to the results.
moved :
    (name : Str) (rest : List Str) (results : List (Str × Drained)) (known : Str → Type 0)
    (result : Drained)
    → Covers known (awaiting name rest) results
    → Covers known (draining rest) ((name, result) ∷ results)
moved name rest results known result all other there = elim (all other there) [
  | inl (inl same) ↦ inr (inl same)
  | inl (inr later) ↦ inl later
  | inr before ↦ inr (inr before)
]

module _ (unmarshal : Str → Option Envelope) (marshal : ℤ → Str) (sprintf : Str → ℤ → Str) where
  Move-IsDraining :
      (old : Option Str) (m : Machine) {s t : System}
      → Move unmarshal marshal sprintf s t
      → IsRunning old marshal m s
      → IsDraining m s
      → IsDraining m t
  unfolding set_pool final_commit overlapped drain
  Move-IsDraining old m (ingests s n step) g h = record { done = h.done; covers = h.covers }
  Move-IsDraining old m (works s name r took p there turn) g h = record {
    done =
        AllDone-keep s.crews (set_pool name p s).crews s.results
          (λ other over. elim (Bool-cases (name == other)) [
            | inr apart ↦ rw apart over
            | inl same ↦ absurd (
                ground (
                  arith,
                  Turn-working turn,
                  subst (λ x. all_gone (s.crews x).workers ≡ true)
                      (sym ((eq_iff name other).0 same)) over,
                ))
          ])
          h.done;
    covers = h.covers;
  }
  Move-IsDraining old m (stops s order at end once all) g h = record {
    done = h.done;
    covers = λ name (r, there).
        let (_, _, _, kept, _) = g.lives name r there in
        inl ((all name).1 (λ none_. absurd (ground (arith, kept, none_))));
  }
  Move-IsDraining old m (shuts s name rest r r' at there ran) g h = record {
    done = h.done;
    covers = subst (λ x. Covers (Known m) x s.results) at h.covers;
  }
  Move-IsDraining old m (drains s name rest r finished drained at there ran) g h = record {
    done = (finished_lem finished (pool name r s) ran, h.done);
    covers =
        moved name rest s.results (Known m) drained
          (subst (λ x. Covers (Known m) x s.results) at h.covers);
  }
  Move-IsDraining old m (drains s name rest r finished (deadline n) at there ran) g h = record {
    done = h.done;
    covers =
        moved name rest s.results (Known m) (deadline n)
          (subst (λ x. Covers (Known m) x s.results) at h.covers);
  }
  Move-IsDraining old m (commits s fault at) g h =
      let all = subst (λ x. Covers (Known m) x s.results) at h.covers in
      record {
        done = h.done;
        covers =
            λ name known. elim (all name known) [ inl none_ ↦ absurd none_ | inr there ↦ there ];
      }
  Move-IsDraining old m (overlaps s p t good at apart underway ran returned) g h =
      let all = subst (λ x. Covers (Known m) x s.results) at h.covers in
      record {
        done = h.done;
        covers =
            λ name known. elim (all name known) [ inl none_ ↦ absurd none_ | inr there ↦ there ];
      }

  Moves-holds :
      (old : Option Str) (m : Machine) (s : System)
      → IsRunning old marshal m (serve m)
      → Moves unmarshal marshal sprintf (serve m) s
      → IsRunning old marshal m s × IsDraining m s
  unfolding serve
  Moves-holds old m s g here = (g, record { done = tt; covers = tt })
  Moves-holds old m s g (next {t} moves move) =
      let (running, draining_) = Moves-holds old m t g moves in
      (
        Move-IsRunning unmarshal marshal sprintf old m move running,
        Move-IsDraining old m move running draining_,
      )

  -- From a configuration that run can start, whatever the ingestor, the workers and run do, and
  -- in whatever order: where run has drained every route, and every Drain returned because the
  -- workers were done, each route that the table can produce has an empty channel and has
  -- processed the events that it accepted, each as often; and where the maintenance loop has
  -- returned by then, whatever else happens, once run has ended with a final Commit without an
  -- error the file holds the newest position, unless there is none.
  pub run_lem :
      (cfg : Config) (disk : Disk) (m : Machine) (s : System)
      → boot cfg disk ≡ ok m
      → Moves unmarshal marshal sprintf (serve m) s
      → s.stage ≡ draining []
      → InTime s.results
      → ((name : Str)
          → Produces cfg.routing name
          → (r : Route) × (acc : List Event) × (rec : List Event) × (lookup name (routes_of s)
              ≡ some r)
            × Life (start (fresh cfg name)) acc rec (pool name r s)
            × (r.queue ≡ [])
            × Perm acc (processed (pool name r s)))
        × (s.machine.upkeep ≡ Machines.ended
            → (t : System) → Moves unmarshal marshal sprintf s t
            → t.stage ≡ ended true
            → (t.machine.disk.file ≡ some (marshal s.machine.ingest.cursor.latest))
              ⊎ (s.machine.ingest.cursor.latest ≡ pos 0))
  unfolding drain
  run_lem cfg disk m s booted moves at time =
      let (router, built, made, ran, same) = boot-launch cfg disk m booted in
      let there = (build_routes-IsKnown cfg.routing router cfg built 0 made ran).1 in
      let produces = (routes_iff cfg.routing router made).1 in
      let (running, draining_) =
        Moves-holds disk.file m s (boot-IsRunning marshal cfg disk m booted) moves in
      let (_, ordered) =
        Moves-IsOrdered unmarshal marshal sprintf disk.file m s
          (boot-IsRunning marshal cfg disk m booted) (boot-IsOrdered cfg disk m booted) moves in
      (
        λ name made_.
            let at_first : lookup name m.disp.routes ≡ some (fresh cfg name) =
              subst (λ n. lookup name n.disp.routes ≡ some (fresh cfg name)) same
                (launch-lookup cfg disk router built name (there name ((produces name).1 made_))) in
            let (r, acc, rec, kept, life) = running.lives name (fresh cfg name) at_first in
            let all = AllDone-Has s.crews s.results name draining_.done time (
              covered (Known m) s.results name
                (subst (λ x. Covers (Known m) x s.results) at draining_.covers)
                (fresh cfg name, at_first)) in
            let (_, empty, _, owned) =
              drain_lem (record (route_config name cfg.routes) { name = name }) acc rec
                (pool name r s) life (rw all refl) in
            (r, acc, rec, kept, life, empty, owned),
        λ retired t more good.
            settled_lem unmarshal marshal sprintf disk.file s t at
              (subst (λ x. Quiet x s.machine.phase) at ordered.quiet) retired
              (running.consistent (subst IsOn (sym at) tt)).synced more good,
      )
