-- ===== src/Program/System/Running.antt =====
-- What holds of a run of the program.
use jetstream_router.Common.{
  ◌≡◌, ◌∙◌, ap, refl, sym, subst, Option, some, List, [], ◌++◌, if◌then◌else◌, arith, Bool-cases,
  inl, inr,
}
use jetstream_router.Common.Int.{ℤ}
use jetstream_router.Common.Str.{Str, ◌==◌, eq_iff}
use jetstream_router.Common.Maps.{lookup, lookup-insert}
use jetstream_router.Event.{Event, Envelope}
use jetstream_router.Routing.{route}
use jetstream_router.Route.{Route, close}
use jetstream_router.Route.Pool.{Pool, start, Life, starts, closes, Turn, launch, to_count}
use jetstream_router.Dispatch.Known.{IsKnown}
use jetstream_router.Ingest.Machine.{Machine}
use jetstream_router.Ingest.Machine.Fits.{IsConsistent}
use jetstream_router.Ingest.Machine.Reach.{Step-IsConsistent}
use jetstream_router.Program.System.{
  Crew, System, Stage, awaiting, serve, routes_of, pool, set_route, set_pool, final_commit, Move,
  ingests, stops, shuts, drains, commits, overlaps, overlapped, serving, draining, ended,
}
use jetstream_router.Program.System.Projects.{
  Lives, Lives-intro, Lives-same, ingests-Lives, Offers-IsKnown, Step-Offers,
}

pub serve-Lives :
    (m : Machine) (name : Str) (r : Route)
    → lookup name m.disp.routes ≡ some r
    → Lives r name (serve m)
unfolding serve start
serve-Lives m name r there =
    Lives-intro r name (serve m) r
      (record { workers = launch (to_count r.cfg.workers); outcomes = [] }) [] [] there
      (rw (there, serve) refl) starts

-- A change of one route and its crew, which is a step of that route's life.
changed-Lives :
    (r₀ : Route) (other : Str) (s t : System) (name : Str) (r r' : Route) (c : Crew)
    → lookup other (routes_of t) ≡ (if name == other then some r' else lookup other (routes_of s))
    → t.crews other ≡ (if name == other then c else s.crews other)
    → lookup name (routes_of s) ≡ some r
    → ((acc rec : List Event)
        → Life (start r₀) acc rec (pool name r s)
        → (acc' : List Event) × (rec' : List Event) × Life
            (start r₀)
            acc'
            rec'
            (record { route = r'; workers = c.workers; outcomes = c.outcomes }))
    → Lives r₀ other s
    → Lives r₀ other t
changed-Lives r₀ other s t name r r' c routes crews there step lives =
    elim (Bool-cases (name == other)) [
      | inr apart ↦
          Lives-same r₀ other s t
            (routes ∙ ap (λ b. if b then some r' else lookup other (routes_of s)) apart)
            (crews ∙ ap (λ b. if b then c else s.crews other) apart) lives
      | inl same ↦
          let (r₁, acc, rec, there', life) = lives in
          let e : name ≡ other = (eq_iff name other).0 same in
          let found : r₁ ≡ r =
            ground (arith, sym there' ∙ subst (λ x. lookup x (routes_of s) ≡ some r) e there) in
          let (acc', rec', life') = step acc rec (
            subst (λ x. Life (start r₀) acc rec (pool x r s)) (sym e)
              (subst (λ x. Life (start r₀) acc rec (pool other x s)) found life)) in
          Lives-intro r₀ other t r' c acc' rec'
            (routes ∙ ap (λ b. if b then some r' else lookup other (routes_of s)) same)
            (crews ∙ ap (λ b. if b then c else s.crews other) same) life'
    ]

works-Lives :
    (r₀ : Route) (other : Str) (s : System) (name : Str) (r : Route) (took : List Event) (p : Pool)
    → lookup name (routes_of s) ≡ some r
    → Turn (pool name r s) took p
    → Lives r₀ other s
    → Lives r₀ other (set_pool name p s)
unfolding set_pool set_route
works-Lives r₀ other s name r took p there turn lives =
    changed-Lives r₀ other s (set_pool name p s) name r p.route
      (record { workers = p.workers; outcomes = p.outcomes })
      (lookup-insert name other p.route (routes_of s)) refl there
      (λ acc rec life. (acc, rec ++ took, Life.works life turn)) lives

same_crew :
    (name other : Str) (s : System)
    → s.crews other ≡ (if name == other then s.crews name else s.crews other)
same_crew name other s = elim (Bool-cases (name == other)) [
  | inl same ↦ rw same (ap s.crews (sym ((eq_iff name other).0 same)))
  | inr apart ↦ rw apart refl
]

shuts-Lives :
    (r₀ : Route) (other : Str) (s : System) (stage : Stage) (name : Str) (r r' : Route)
    → lookup name (routes_of s) ≡ some r
    → close r ≡ some r'
    → Lives r₀ other s
    → Lives r₀ other (record s { machine = set_route name r' s.machine; stage = stage })
unfolding set_route
shuts-Lives r₀ other s stage name r r' there ran lives =
    changed-Lives r₀ other s (record s { machine = set_route name r' s.machine; stage = stage })
      name r r' (s.crews name) (lookup-insert name other r' (routes_of s)) (same_crew name other s)
      there (λ acc rec life. (acc, rec, closes life ran)) lives

set_route-IsKnown :
    (name : Str) (r : Route) (m : Machine) → IsKnown m.disp → IsKnown (set_route name r m).disp
unfolding set_route
set_route-IsKnown name r m known k =
    let to = route m.disp.router k in
    let (old, there) = known k in
    elim (Bool-cases (name == to)) [
      | inl same ↦ (r, lookup-insert name to r m.disp.routes ∙ rw same refl)
      | inr apart ↦ (old, lookup-insert name to r m.disp.routes ∙ rw apart there)
    ]

set_route-IsConsistent :
    (old : Option Str) (marshal : ℤ → Str) (name : Str) (r : Route) (m : Machine)
    → IsConsistent old marshal m
    → IsConsistent old marshal (set_route name r m)
unfolding set_route
set_route-IsConsistent old marshal name r m c = record {
  phase = c.phase;
  gauges = c.gauges;
  alive = c.alive;
  behind = c.behind;
  synced = c.synced;
}

-- `run` has not committed for the last time.
abbrev pub IsOn : Stage → Type 0
IsOn serving = Unit
IsOn (draining rest) = Unit
IsOn (awaiting name rest) = Unit
IsOn (ended b) = ⊥

-- What holds of a run of the program, from the machine that it was booted with. Two calls of Commit
-- that overlap can leave another position in the file than the one that counts as committed.
pub record IsRunning (old : Option Str) (marshal : ℤ → Str) (m : Machine) (s : System)
    : Type 0 where
  pub lives : (name : Str) (r : Route) → lookup name m.disp.routes ≡ some r → Lives r name s
  pub known : IsKnown s.machine.disp
  pub consistent : IsOn s.stage → IsConsistent old marshal s.machine

module _ (unmarshal : Str → Option Envelope) (marshal : ℤ → Str) (sprintf : Str → ℤ → Str) where
  pub Move-IsRunning :
      (old : Option Str) (m : Machine) {s t : System}
      → Move unmarshal marshal sprintf s t
      → IsRunning old marshal m s
      → IsRunning old marshal m t
  unfolding set_pool final_commit overlapped
  Move-IsRunning old m (ingests s n step) g =
      let offers = Step-Offers unmarshal marshal sprintf step in
      record {
        lives = λ name r there. ingests-Lives r name s n g.known offers (g.lives name r there);
        known = Offers-IsKnown s.machine n g.known offers;
        consistent = λ on. Step-IsConsistent unmarshal marshal sprintf old step (g.consistent on);
      }
  Move-IsRunning old m (Move.works s name r took p there turn) g = record {
    lives =
        λ other r₀ known. works-Lives r₀ other s name r took p there turn (g.lives other r₀ known);
    known = set_route-IsKnown name p.route s.machine g.known;
    consistent = λ on. set_route-IsConsistent old marshal name p.route s.machine (g.consistent on);
  }
  Move-IsRunning old m (stops s order at end once all) g = record {
    lives = g.lives;
    known = g.known;
    consistent = λ _. g.consistent (subst IsOn (sym at) tt);
  }
  Move-IsRunning old m (shuts s name rest r r' at there ran) g = record {
    lives = λ other r₀ known.
        shuts-Lives r₀ other s (awaiting name rest) name r r' there ran (g.lives other r₀ known);
    known = set_route-IsKnown name r' s.machine g.known;
    consistent = λ _.
        set_route-IsConsistent old marshal name r' s.machine
          (g.consistent (subst IsOn (sym at) tt));
  }
  Move-IsRunning old m (drains s name rest r finished result at there ran) g = record {
    lives = g.lives;
    known = g.known;
    consistent = λ _. g.consistent (subst IsOn (sym at) tt);
  }
  Move-IsRunning old m (commits s fault at) g = record {
    lives = g.lives;
    known = g.known;
    consistent = λ ended_. absurd ended_;
  }
  Move-IsRunning old m (overlaps s p t good at apart underway ran returned) g = record {
    lives = g.lives;
    known = g.known;
    consistent = λ ended_. absurd ended_;
  }
