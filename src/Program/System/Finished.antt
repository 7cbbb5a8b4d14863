-- ===== src/Program/System/Finished.antt =====
-- The routes whose `Drain` has returned, and their workers.
use jetstream_router.Common.{
  ℕ, suc, ◌≡◌, ◌≢◌, refl, subst, Bool, true, false, some, List, [], ◌∷◌, map, Has, get_elem?, arith,
  Bool-cases, inl, inr, zero,
}
use jetstream_router.Common.Str.{Str}
use jetstream_router.Event.{Event}
use jetstream_router.Route.Pool.{
  Worker, idle, busy, gone, Pool, Turn, takes, leaves, finishes, all_gone, Drained, drained,
  deadline, drain,
}
use jetstream_router.Program.System.{Crew}

busy_worker :
    (ws : List Worker) (i : ℕ) (w : Worker)
    → get_elem? ws i ≡ some w
    → w ≢ gone
    → all_gone ws ≡ false
unfolding all_gone get_elem?
busy_worker [] i w at other = absurd (ground arith)
busy_worker (idle ∷ ws) i w at other = refl
busy_worker (busy ev ∷ ws) i w at other = refl
busy_worker (gone ∷ ws) zero w at other = absurd (other (ground arith))
busy_worker (gone ∷ ws) (suc i) w at other = busy_worker ws i w at other

pub Turn-working : {p q : Pool} {took : List Event} → Turn p took q → all_gone p.workers ≡ false
Turn-working (takes p i ev r at got) = busy_worker p.workers i idle at (λ h. cc)
Turn-working (leaves p i at got shut) = busy_worker p.workers i idle at (λ h. cc)
Turn-working (finishes p i ev o handler wakes at ran) =
    busy_worker p.workers i (busy ev) at (λ h. cc)

-- The routes that were drained in time have no worker left.
abbrev pub AllDone : (Str → Crew) → List (Str × Drained) → Type 0
AllDone crews [] = Unit
AllDone crews ((name, drained) ∷ results) =
    (all_gone (crews name).workers ≡ true) × AllDone crews results
AllDone crews ((name, deadline n) ∷ results) = AllDone crews results

-- No deadline has passed.
abbrev pub InTime : List (Str × Drained) → Type 0
InTime [] = Unit
InTime ((name, drained) ∷ results) = InTime results
InTime ((name, deadline n) ∷ results) = ⊥

pub AllDone-keep :
    (crews crews' : Str → Crew) (results : List (Str × Drained))
    → ((name : Str) → all_gone (crews name).workers ≡ true → all_gone (crews' name).workers ≡ true)
    → AllDone crews results
    → AllDone crews' results
AllDone-keep crews crews' [] keep all = tt
AllDone-keep crews crews' ((name, drained) ∷ results) keep all =
    (keep name all.0, AllDone-keep crews crews' results keep all.1)
AllDone-keep crews crews' ((name, deadline n) ∷ results) keep all =
    AllDone-keep crews crews' results keep all

pub AllDone-Has :
    (crews : Str → Crew) (results : List (Str × Drained)) (name : Str)
    → AllDone crews results
    → InTime results
    → Has name (map (λ x. x.0) results)
    → all_gone (crews name).workers ≡ true
AllDone-Has crews [] name all time h = absurd h
AllDone-Has crews ((n, drained) ∷ results) name all time (inl same) =
    subst (λ x. all_gone (crews x).workers ≡ true) same all.0
AllDone-Has crews ((n, drained) ∷ results) name all time (inr h) =
    AllDone-Has crews results name all.1 time h
AllDone-Has crews ((n, deadline k) ∷ results) name all time h = absurd time

-- `Drain` says that the workers are done only if they are.
pub finished_lem :
    (finished : Bool) (p : Pool) → drain finished p ≡ some drained → all_gone p.workers ≡ true
unfolding drain
finished_lem true p ran = elim (Bool-cases (all_gone p.workers)) [
  | inl all ↦ all
  | inr working ↦ absurd (ground arith)
]
finished_lem false p ran = absurd (ground arith)
