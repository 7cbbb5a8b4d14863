-- ===== src/Program/System/Order.antt =====
-- The order of the shutdown: what holds of the ingestor and the routes at each stage of `run`.
use jetstream_router.Common.{
  ◌≡◌, ◌≢◌, ◌∙◌, ap, sym, subst, true, false, Option, none, some, List, ◌∷◌, Has, IsOnce,
  if◌then◌else◌, Bool-cases, Option-cases, inl, inr,
}
use jetstream_router.Common.Int.{ℤ}
use jetstream_router.Common.Str.{Str, ◌==◌, eq_iff, eq_refl}
use jetstream_router.Common.Maps.{lookup, insert, lookup-insert}
use jetstream_router.Event.{Envelope}
use jetstream_router.Route.{Route, close}
use jetstream_router.Ingest.Machine.{
  Machine, Phase, stopped, Step, begins, dials, greets, receives, loses, settles, wakes, abandons,
  saves, judges, reports, retires, cancels, save, judge, report, retire, cancel,
}
use jetstream_router.Program.System.{
  System, Stage, serving, draining, awaiting, ended, routes_of, set_route, set_pool, final_commit,
  Move, ingests, works, stops, shuts, drains, commits, overlaps, overlapped,
}
use jetstream_router.Program.System.Projects.{Step-Offers}
use jetstream_router.Program.System.Running.{IsRunning}
use jetstream_router.Program.System.Closing.{
  closed_at, Turn-closed, changed-closed, kept-closed, Offers-closed,
}

-- Once `run` has gone on, the ingestor has ended.
abbrev pub Quiet : Stage → Phase → Type 0
Quiet serving phase = Unit
Quiet (draining rest) phase = phase ≡ stopped
Quiet (awaiting n rest) phase = phase ≡ stopped
Quiet (ended b) phase = phase ≡ stopped

-- The routes that are left to close are there and open, and each is left once.
abbrev pub Left : List Str → List (Str × Route) → Type 0
Left rest m = IsOnce rest × ((name : Str) → Has name rest → closed_at name m ≡ some false)

abbrev pub Opened : Stage → List (Str × Route) → Type 0
Opened serving m = (name : Str) → closed_at name m ≢ some true
Opened (draining rest) m = Left rest m
Opened (awaiting n rest) m = Left rest m × (closed_at n m ≢ none)
Opened (ended b) m = Unit

pub record IsOrdered (s : System) : Type 0 where
  pub quiet : Quiet s.stage s.machine.phase
  pub opened : Opened s.stage (routes_of s)

Opened-same :
    (stage : Stage) (m m' : List (Str × Route))
    → ((name : Str) → closed_at name m' ≡ closed_at name m)
    → Opened stage m
    → Opened stage m'
Opened-same serving m m' same all = λ name shut. all name (sym (same name) ∙ shut)
Opened-same (draining rest) m m' same (once, all) = (once, λ name h. same name ∙ all name h)
Opened-same (awaiting n rest) m m' same ((once, all), there) =
    ((once, λ name h. same name ∙ all name h), λ gone_. there (sym (same n) ∙ gone_))
Opened-same (ended b) m m' same all = tt

Quiet-kept :
    (stage : Stage) (p q : Phase) → (p ≡ stopped → q ≡ stopped) → Quiet stage p → Quiet stage q
Quiet-kept serving p q keep h = tt
Quiet-kept (draining rest) p q keep h = keep h
Quiet-kept (awaiting n rest) p q keep h = keep h
Quiet-kept (ended b) p q keep h = keep h

-- A route that is known and not closed is open.
still_open :
    (name : Str) (m : List (Str × Route))
    → closed_at name m ≢ some true
    → lookup name m ≢ none
    → closed_at name m ≡ some false
still_open name m unclosed there = elim (Option-cases (lookup name m)) [
  | inl absent ↦ absurd (there absent)
  | inr (r, found) ↦ elim (Bool-cases r.closed) [
    | inl shut ↦ absurd (unclosed (rw found (ap some shut)))
    | inr on ↦ rw found (ap some on)
  ]
]

-- What is left after a route is closed.
Left-shut :
    (name : Str) (rest : List Str) (m : List (Str × Route)) (r : Route)
    → Left (name ∷ rest) m
    → Left rest (insert name r m) × (closed_at name (insert name r m) ≢ none)
Left-shut name rest m r ((new, once), all) = (
  (
    once,
    λ other h. elim (Bool-cases (name == other)) [
      | inl same ↦ absurd (new (subst (λ x. Has x rest) (sym ((eq_iff name other).0 same)) h))
      | inr apart ↦
          changed-closed name other m (insert name r m) r (lookup-insert name other r m)
          ∙ ap (λ b. if b then some r.closed else closed_at other m) apart
          ∙ all other (inr h)
    ],
  ),
  λ gone_. absurd (
      cc (
        gone_,
        changed-closed name name m (insert name r m) r (lookup-insert name name r m)
            ∙ ap (λ b. if b then some r.closed else closed_at name m) (eq_refl name),
      )),
)

module _ (unmarshal : Str → Option Envelope) (marshal : ℤ → Str) (sprintf : Str → ℤ → Str) where
  Step-stopped :
      {m n : Machine} → Step unmarshal marshal sprintf m n → m.phase ≡ stopped → n.phase ≡ stopped
  unfolding save judge report retire cancel
  Step-stopped (begins m at) h = absurd cc
  Step-stopped (dials m since outcome at) h = absurd cc
  Step-stopped (greets m at) h = absurd cc
  Step-stopped (receives m since choice frame g d at ran) h = absurd cc
  Step-stopped (loses m at) h = absurd cc
  Step-stopped (settles m jitter held at range) h = absurd cc
  Step-stopped (wakes m d at) h = absurd cc
  Step-stopped (abandons m d at over) h = absurd cc
  Step-stopped (saves m fault at) h = h
  Step-stopped (judges m since at) h = h
  Step-stopped (reports m verdict at) h = h
  Step-stopped (retires m at over) h = h
  Step-stopped (cancels m) h = h

  pub Move-IsOrdered :
      (old : Option Str) (m : Machine) {s t : System}
      → Move unmarshal marshal sprintf s t
      → IsRunning old marshal m s
      → IsOrdered s
      → IsOrdered t
  unfolding set_pool set_route final_commit overlapped close
  Move-IsOrdered old m (ingests s n step) g o = record {
    quiet = Quiet-kept s.stage s.machine.phase n.phase (Step-stopped step) o.quiet;
    opened =
        Opened-same s.stage (routes_of s) n.disp.routes
          (λ name.
            Offers-closed s.machine n name g.known (Step-Offers unmarshal marshal sprintf step))
          o.opened;
  }
  Move-IsOrdered old m (works s name r took p there turn) g o = record {
    quiet = o.quiet;
    opened =
        Opened-same s.stage (routes_of s) (insert name p.route (routes_of s))
          (λ other.
            kept-closed name other (routes_of s) (insert name p.route (routes_of s)) r p.route there
              (lookup-insert name other p.route (routes_of s)) (Turn-closed turn))
          o.opened;
  }
  Move-IsOrdered old m (stops s order at end once all) g o = record {
    quiet = end;
    opened =
        let unclosed = subst (λ x. Opened x (routes_of s)) at o.opened in
        (once, λ name h. still_open name (routes_of s) (unclosed name) ((all name).0 h));
  }
  Move-IsOrdered old m (shuts s name rest r r' at there ran) g o = record {
    quiet = subst (λ x. Quiet x s.machine.phase) at o.quiet;
    opened = Left-shut name rest (routes_of s) r' (subst (λ x. Opened x (routes_of s)) at o.opened);
  }
  Move-IsOrdered old m (drains s name rest r finished result at there ran) g o = record {
    quiet = subst (λ x. Quiet x s.machine.phase) at o.quiet;
    opened = (subst (λ x. Opened x (routes_of s)) at o.opened).0;
  }
  Move-IsOrdered old m (commits s fault at) g o = record {
    quiet = subst (λ x. Quiet x s.machine.phase) at o.quiet;
    opened = tt;
  }
  Move-IsOrdered old m (overlaps s p t good at apart underway ran returned) g o = record {
    quiet = subst (λ x. Quiet x s.machine.phase) at o.quiet;
    opened = tt;
  }
