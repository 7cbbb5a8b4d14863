-- ===== src/Ingest/Machine/Reach.antt =====
-- The runs of the machine: what every step keeps, from the call of `Run` on.
use jetstream_router.Common.{
  ℕ, ◌≡◌, ◌∙◌, ap, refl, subst, sym, ◌||◌, Option, none, some, arith, Bool-cases, inl, inr,
}
use jetstream_router.Common.Int.{ℤ, pos, ◌≤ℤ◌}
use jetstream_router.Common.Str.{Str}
use jetstream_router.Event.{Envelope}
use jetstream_router.Cursor.{
  Disk, Cursor, new_cursor, Fault, no_fault, no_directory, torn_write, no_rename, persist, commit,
  eqb_ℤ,
}
use jetstream_router.Cursor.Durable.{IsSavedFrom, commit-IsSavedFrom}
use jetstream_router.Dispatch.{Dispatcher}
use jetstream_router.Obs.{set_ready, new_health}
use jetstream_router.Ingest.{Config, new, State, announce, publish, hang_up}
use jetstream_router.Ingest.States.{GaugesAgree}
use jetstream_router.Ingest.Frames.{CatchesUp}
use jetstream_router.Ingest.Machine.Round.{read_frame-Kept}
use jetstream_router.Ingest.Machine.Fits.{
  IsUp, Fits, PhaseFits, IsConsistent, Fits-over, phase_of, move-IsConsistent,
}
use jetstream_router.Ingest.Machine.Invariant.{
  begin-IsConsistent, connect-IsConsistent, settle-IsConsistent,
}
use jetstream_router.Ingest.Machine.Steps.{Run, here, next}
use jetstream_router.Ingest.Machine.{
  top, greeting, reading, waiting, stopped, Machine, start, greet, take_in, lose, wake, abandon,
  cancel, save, judge, report, retire, Step, begins, dials, greets, receives, loses, settles, wakes,
  abandons, saves, judges, reports, retires, cancels,
}

CatchesUp-IsUp : (s s' : State) → CatchesUp s s' → IsUp s → IsUp s'
CatchesUp-IsUp s s' (inl same) up = subst IsUp (sym same) up
CatchesUp-IsUp s s' (inr (_, there)) up = inr there

pub commit_lem :
    (marshal : ℤ → Str) (fault : Fault) (c : Cursor) (disk : Disk)
    → c.committed ≤ℤ c.latest
    → (commit marshal fault c disk).0.committed ≤ℤ (commit marshal fault c disk).0.latest
unfolding commit persist
commit_lem marshal fault c disk behind =
    elim (Bool-cases (eqb_ℤ c.latest (pos 0) || eqb_ℤ c.latest c.committed)) [
      | inl kept ↦ rw (kept, commit) behind
      | inr changed ↦ rw (changed, commit) (persisted fault)
    ]
  where
    persisted :
        (f : Fault) → (persist marshal f c disk).0.committed ≤ℤ (persist marshal f c disk).0.latest
    persisted no_fault = omega arith
    persisted no_directory = behind
    persisted (torn_write part) = behind
    persisted no_rename = behind

-- What a step does that changes neither the state nor the cursor.
keep-IsConsistent :
    (old : Option Str) (marshal : ℤ → Str) (m n : Machine)
    → n.ingest.state ≡ m.ingest.state
    → n.ingest.gauges ≡ m.ingest.gauges
    → n.ingest.health.live ≡ m.ingest.health.live
    → n.ingest.cursor ≡ m.ingest.cursor
    → n.disk ≡ m.disk
    → PhaseFits n
    → IsConsistent old marshal m
    → IsConsistent old marshal n
keep-IsConsistent old marshal m n state gauges alive cursor disk fits c = record {
  phase = fits;
  gauges =
      subst (λ s. GaugesAgree s n.ingest.gauges) (sym state)
        (subst (GaugesAgree m.ingest.state) (sym gauges) c.gauges);
  alive = alive ∙ c.alive;
  behind = subst (λ x. x.committed ≤ℤ x.latest) (sym cursor) c.behind;
  synced =
      subst (λ x. IsSavedFrom old marshal x n.disk) (sym cursor)
        (subst (IsSavedFrom old marshal m.ingest.cursor) (sym disk) c.synced);
}

IsSaved-committed :
    (old : Option Str) (marshal : ℤ → Str) (c c' : Cursor) (disk : Disk)
    → c'.committed ≡ c.committed
    → IsSavedFrom old marshal c disk
    → IsSavedFrom old marshal c' disk
IsSaved-committed old marshal c c' disk same (inl (none_, missing)) = inl (same ∙ none_, missing)
IsSaved-committed old marshal c c' disk same (inr there) =
    inr (there ∙ ap (λ v. some (marshal v)) (sym same))

pub start-IsConsistent :
    (marshal : ℤ → Str) (cfg : Config) (d : Dispatcher) (disk : Disk)
    → IsConsistent disk.file marshal (start (new cfg new_cursor new_health) d disk)
unfolding start new new_cursor new_health
start-IsConsistent marshal cfg d disk = record {
  phase = (refl, refl);
  gauges = inr (refl, λ _. refl);
  alive = refl;
  behind = omega arith;
  synced = inl (refl, refl);
}

module _ (unmarshal : Str → Option Envelope) (marshal : ℤ → Str) (sprintf : Str → ℤ → Str) where
  pub Step-IsConsistent :
      (old : Option Str) {m n : Machine}
      → Step unmarshal marshal sprintf m n
      → IsConsistent old marshal m
      → IsConsistent old marshal n
  unfolding greet take_in lose wake abandon cancel save judge report retire announce hang_up
      set_ready publish
  Step-IsConsistent old (begins m at) c = begin-IsConsistent old marshal m at c
  Step-IsConsistent old (dials m since outcome at) c =
      connect-IsConsistent old marshal since outcome m at c
  Step-IsConsistent old (greets m at) c =
      keep-IsConsistent old marshal m (greet m) refl refl refl refl refl
        (phase_of old marshal greeting m at c) c
  Step-IsConsistent old (receives m since choice frame g d at ran) c =
      let kept = read_frame-Kept unmarshal since choice frame m.ingest m.disp g d ran in
      let (up, there) = phase_of old marshal reading m at c in
      record {
        phase =
            subst (λ p. Fits p g.cfg g.state g.connected m.attempt m.cancelled) (sym at)
              (CatchesUp-IsUp m.ingest.state g.state kept.state up, kept.connected ∙ there);
        gauges = kept.gauges c.gauges;
        alive = ap (λ h. h.live) kept.health ∙ c.alive;
        behind =
            subst (λ x. x ≤ℤ g.cursor.latest) (sym kept.committed)
              (omega (arith, c.behind, kept.forward));
        synced =
            IsSaved-committed old marshal m.ingest.cursor g.cursor m.disk kept.committed c.synced;
      }
  Step-IsConsistent old (loses m at) c =
      keep-IsConsistent old marshal m (lose m) refl refl refl refl refl refl c
  Step-IsConsistent old (settles m jitter held at range) c =
      settle-IsConsistent old marshal jitter held m at range c
  Step-IsConsistent old (wakes m d at) c =
      let fits = phase_of old marshal (waiting d) m at c in
      move-IsConsistent old marshal m top c (fits.0, fits.1)
  Step-IsConsistent old (abandons m d at over) c =
      let fits = phase_of old marshal (waiting d) m at c in
      move-IsConsistent old marshal m stopped c (fits.0, fits.1, over)
  Step-IsConsistent old (saves m fault at) c = record {
    phase = c.phase;
    gauges = c.gauges;
    alive = c.alive;
    behind = commit_lem marshal fault m.ingest.cursor m.disk c.behind;
    synced = (commit-IsSavedFrom old marshal fault m.ingest.cursor m.disk c.synced).0;
  }
  Step-IsConsistent old (judges m since at) c =
      keep-IsConsistent old marshal m (judge sprintf since m) refl refl refl refl refl c.phase c
  Step-IsConsistent old (reports m none at) c =
      keep-IsConsistent old marshal m (report none m) refl refl refl refl refl c.phase c
  Step-IsConsistent old (reports m (some (ready, detail)) at) c =
      keep-IsConsistent old marshal m (report (some (ready, detail)) m) refl refl refl refl refl
        c.phase c
  Step-IsConsistent old (retires m at over) c =
      keep-IsConsistent old marshal m (retire m) refl refl refl refl refl c.phase c
  Step-IsConsistent old (cancels m) c =
      keep-IsConsistent old marshal m (cancel m) refl refl refl refl refl
        (Fits-over m.phase m.ingest.cfg m.ingest.state m.ingest.connected m.attempt m.cancelled
          c.phase)
        c

  -- Whatever the two goroutines of the ingestor and the world do, and in whatever order: from the
  -- call of Run with a new cursor on, the connection state and the connected flag fit the place
  -- that Run has reached, and a backoff is not longer than BackoffMax and sixty-four seconds; the
  -- gauge of the state is one and all others zero, or none was ever set; liveness is never
  -- withdrawn; the committed position is not after the newest one; and the file holds the
  -- committed position, or what it held at the start if nothing was committed.
  pub Run-IsConsistent :
      (cfg : Config) (d : Dispatcher) (disk : Disk) (k : ℕ) (n : Machine)
      → Run unmarshal marshal sprintf (start (new cfg new_cursor new_health) d disk) k n
      → IsConsistent disk.file marshal n
  Run-IsConsistent cfg d disk k n here = start-IsConsistent marshal cfg d disk
  Run-IsConsistent cfg d disk k n (next {k = j} {n = p} run step) =
      Step-IsConsistent disk.file step (Run-IsConsistent cfg d disk j p run)
