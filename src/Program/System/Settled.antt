-- ===== src/Program/System/Settled.antt =====
-- The final `Commit` of `run`, once the ingestor and its maintenance loop have ended.
use jetstream_router.Common.{
  ◌≡◌, ◌⊎◌, ◌∙◌, ap, refl, sym, subst, Bool, true, false, Option, some, [], ◌∷◌, ◌||◌, Bool-cases,
  inl, inr,
}
use jetstream_router.Common.Int.{ℤ, pos}
use jetstream_router.Common.Str.{Str}
use jetstream_router.Event.{Envelope}
use jetstream_router.Cursor.{
  Fault, no_fault, no_directory, torn_write, no_rename, Disk, Cursor, commit, persist, eqb_ℤ,
}
use jetstream_router.Cursor.Durable.{IsSavedFrom, commit-IsSavedFrom}
use jetstream_router.Ingest.Machine.{
  Machine, stopped, Step, begins, dials, greets, receives, loses, settles, wakes, abandons, saves,
  judges, reports, retires, cancels, save, judge, report, retire, cancel,
}
use jetstream_router.Ingest.Machine as Machines
use jetstream_router.Program.System.{
  System, Stage, serving, draining, awaiting, ended, set_pool, set_route, final_commit, Move, Moves,
  here, next, ingests, works, stops, shuts, drains, commits, overlaps,
}

persist-latest :
    (marshal : ℤ → Str) (fault : Fault) (c : Cursor) (disk : Disk)
    → (persist marshal fault c disk).0.latest ≡ c.latest
unfolding persist
persist-latest marshal no_fault c disk = refl
persist-latest marshal no_directory c disk = refl
persist-latest marshal (torn_write part) c disk = refl
persist-latest marshal no_rename c disk = refl

commit-latest :
    (marshal : ℤ → Str) (fault : Fault) (c : Cursor) (disk : Disk)
    → (commit marshal fault c disk).0.latest ≡ c.latest
unfolding commit
commit-latest marshal fault c disk =
    elim (Bool-cases (eqb_ℤ c.latest (pos 0) || eqb_ℤ c.latest c.committed)) [
      | inl kept ↦ rw (kept, commit) refl
      | inr changed ↦ rw (changed, commit) (persist-latest marshal fault c disk)
    ]

-- What the file has to hold at each stage, where every route is drained.
abbrev Saved : Option Str → (ℤ → Str) → ℤ → Stage → Cursor → Disk → Type 0
Saved old marshal latest serving c disk = ⊥
Saved old marshal latest (draining []) c disk = IsSavedFrom old marshal c disk
Saved old marshal latest (draining (name ∷ rest)) c disk = ⊥
Saved old marshal latest (awaiting name rest) c disk = ⊥
Saved old marshal latest (ended false) c disk = Unit
Saved old marshal latest (ended true) c disk =
    (disk.file ≡ some (marshal latest)) ⊎ (latest ≡ pos 0)

pub record IsSettled (old : Option Str) (marshal : ℤ → Str) (latest : ℤ) (s : System) : Type 0 where
  pub quiet : s.machine.phase ≡ stopped
  pub retired : s.machine.upkeep ≡ Machines.ended
  pub newest : s.machine.ingest.cursor.latest ≡ latest
  pub saved : Saved old marshal latest s.stage s.machine.ingest.cursor s.machine.disk

Saved-ended :
    (old : Option Str) (marshal : ℤ → Str) (latest : ℤ) (b : Bool) (c : Cursor) (disk : Disk)
    → (b ≡ true → (disk.file ≡ some (marshal latest)) ⊎ (latest ≡ pos 0))
    → Saved old marshal latest (ended b) c disk
Saved-ended old marshal latest true c disk there = there refl
Saved-ended old marshal latest false c disk there = tt

-- A Commit without an error has put the newest position into the file.
commit-newest :
    (old : Option Str) (marshal : ℤ → Str) (fault : Fault) (latest : ℤ) (c : Cursor) (disk : Disk)
    → c.latest ≡ latest
    → IsSavedFrom old marshal c disk
    → (commit marshal fault c disk).2 ≡ true
    → ((commit marshal fault c disk).1.file ≡ some (marshal latest)) ⊎ (latest ≡ pos 0)
commit-newest old marshal fault latest c disk at synced good =
    let (saved, newest) = commit-IsSavedFrom old marshal fault c disk synced in
    elim (newest good) [
      | inr none_ ↦ inr (sym at ∙ none_)
      | inl same ↦ elim saved [
        | inl (zero_, _) ↦ inr (sym at ∙ sym same ∙ zero_)
        | inr there ↦ inl (there ∙ ap (λ v. some (marshal v)) (same ∙ at))
      ]
    ]

module _ (unmarshal : Str → Option Envelope) (marshal : ℤ → Str) (sprintf : Str → ℤ → Str) where
  -- What is left of the ingestor no longer moves the cursor or writes the file.
  abbrev Still : Machine → Machine → Type 0
  Still m n =
      (n.phase ≡ stopped)
      × (n.upkeep ≡ Machines.ended)
      × (n.ingest.cursor ≡ m.ingest.cursor)
      × (n.disk ≡ m.disk)

  Step-Still :
      {m n : Machine}
      → Step unmarshal marshal sprintf m n
      → m.phase ≡ stopped
      → m.upkeep ≡ Machines.ended
      → Still m n
  unfolding save judge report retire cancel
  Step-Still (begins m at) h e = absurd cc
  Step-Still (dials m since outcome at) h e = absurd cc
  Step-Still (greets m at) h e = absurd cc
  Step-Still (receives m since choice frame g d at ran) h e = absurd cc
  Step-Still (loses m at) h e = absurd cc
  Step-Still (settles m jitter held at range) h e = absurd cc
  Step-Still (wakes m d at) h e = absurd cc
  Step-Still (abandons m d at over) h e = absurd cc
  Step-Still (saves m fault at) h e = absurd cc
  Step-Still (judges m since at) h e = absurd cc
  Step-Still (reports m verdict at) h e = absurd cc
  Step-Still (retires m at over) h e = absurd cc
  Step-Still (cancels m) h e = (h, e, refl, refl)

  Move-IsSettled :
      (old : Option Str) (latest : ℤ) {s t : System}
      → Move unmarshal marshal sprintf s t
      → IsSettled old marshal latest s
      → IsSettled old marshal latest t
  unfolding set_pool set_route final_commit
  Move-IsSettled old latest (ingests s n step) g =
      let (quiet, retired, cur, disk) = Step-Still step g.quiet g.retired in
      record {
        quiet = quiet;
        retired = retired;
        newest = ap (λ c. c.latest) cur ∙ g.newest;
        saved =
            subst (λ c. Saved old marshal latest s.stage c n.disk) (sym cur)
              (subst (Saved old marshal latest s.stage s.machine.ingest.cursor) (sym disk) g.saved);
      }
  Move-IsSettled old latest (works s name r took p there turn) g = record {
    quiet = g.quiet;
    retired = g.retired;
    newest = g.newest;
    saved = g.saved;
  }
  Move-IsSettled old latest (stops s order at end once all) g =
      absurd
        (subst (λ x. Saved old marshal latest x s.machine.ingest.cursor s.machine.disk) at g.saved)
  Move-IsSettled old latest (shuts s name rest r r' at there ran) g =
      absurd
        (subst (λ x. Saved old marshal latest x s.machine.ingest.cursor s.machine.disk) at g.saved)
  Move-IsSettled old latest (drains s name rest r finished result at there ran) g =
      absurd
        (subst (λ x. Saved old marshal latest x s.machine.ingest.cursor s.machine.disk) at g.saved)
  Move-IsSettled old latest (commits s fault at) g =
      let c = s.machine.ingest.cursor in
      let disk = s.machine.disk in
      let done = commit marshal fault c disk in
      record {
        quiet = g.quiet;
        retired = g.retired;
        newest = commit-latest marshal fault c disk ∙ g.newest;
        saved = Saved-ended old marshal latest done.2 done.0 done.1 (
            commit-newest old marshal fault latest c disk g.newest
              (subst (λ x. Saved old marshal latest x c disk) at g.saved));
      }
  Move-IsSettled old latest (overlaps s p t good at apart underway ran returned) g =
      absurd (apart g.retired)

  pub Moves-IsSettled :
      (old : Option Str) (latest : ℤ) {s t : System}
      → Moves unmarshal marshal sprintf s t
      → IsSettled old marshal latest s
      → IsSettled old marshal latest t
  Moves-IsSettled old latest here g = g
  Moves-IsSettled old latest (next moves move) g =
      Move-IsSettled old latest move (Moves-IsSettled old latest moves g)

  -- A drained program whose ingestor has ended ends with the newest position in the file.
  pub settled_lem :
      (old : Option Str) (s t : System)
      → s.stage ≡ draining []
      → s.machine.phase ≡ stopped
      → s.machine.upkeep ≡ Machines.ended
      → IsSavedFrom old marshal s.machine.ingest.cursor s.machine.disk
      → Moves unmarshal marshal sprintf s t
      → t.stage ≡ ended true
      → (t.machine.disk.file ≡ some (marshal s.machine.ingest.cursor.latest))
        ⊎ (s.machine.ingest.cursor.latest ≡ pos 0)
  settled_lem old s t at quiet retired synced moves good =
      let latest = s.machine.ingest.cursor.latest in
      let g = Moves-IsSettled old latest moves (record {
        quiet = quiet;
        retired = retired;
        newest = refl;
        saved =
            subst (λ x. Saved old marshal latest x s.machine.ingest.cursor s.machine.disk) (sym at)
              synced;
      }) in
      subst (λ x. Saved old marshal latest x t.machine.ingest.cursor t.machine.disk) good g.saved
