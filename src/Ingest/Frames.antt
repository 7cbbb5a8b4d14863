-- ===== src/Ingest/Frames.antt =====
-- What the read loop does with frames.
use jetstream_router.Common.{
  ℕ, suc, ◌+◌, ◌≤◌, ◌≡◌, ◌⊎◌, ◌∙◌, refl, sym, subst, Bool, true, ◌&&◌, Option, List, [], ◌∷◌, All,
  Result, ok, err, arith, Bool-cases, inl, inr,
}
use jetstream_router.Common.Int.{ℤ, pos, ◌≤ℤ◌, leb_ℤ, ◌*ℤ◌}
use jetstream_router.Common.Str.{Str}
use jetstream_router.Event.{Event, Envelope, DecodeError, malformed, decode}
use jetstream_router.Route.{Choice}
use jetstream_router.Cursor.{Cursor, advance, lag}
use jetstream_router.Cursor.Advance.{advance_lem}
use jetstream_router.Dispatch.{Dispatcher, Dispatched, hands_on, blocks, crashes, dispatch}
use jetstream_router.Ingest.States.{set_state_lem}
use jetstream_router.Ingest.{
  State, replaying, live, Ingestor, catch_up, Read, reads, stuck, dispatched, handle_frame,
  read_frame, is_replaying,
}

-- The state is kept, or goes from replaying to live.
abbrev pub CatchesUp : State → State → Type 0
CatchesUp s s' = (s' ≡ s) ⊎ ((s ≡ replaying) × (s' ≡ live))

pub CatchesUp-trans : (a b c : State) → CatchesUp a b → CatchesUp b c → CatchesUp a c
CatchesUp-trans a b c (inl e) (inl f) = inl (f ∙ e)
CatchesUp-trans a b c (inl e) (inr (f, h)) = inr (sym e ∙ f, h)
CatchesUp-trans a b c (inr (e, f)) (inl h) = inr (e, h ∙ f)
CatchesUp-trans a b c (inr (e, f)) (inr (h, k)) = inr (e, k)

pub is_replaying-≡ : (s : State) → is_replaying s ≡ true → s ≡ replaying
is_replaying-≡ s h = ground arith

catch_up_lem :
    (since : ℤ → ℤ) (g : Ingestor)
    → ((catch_up since g).cursor ≡ g.cursor)
      × CatchesUp g.state (catch_up since g).state
      × ((catch_up since g).received ≡ g.received)
      × ((catch_up since g).malformed ≡ g.malformed)
unfolding catch_up
catch_up_lem since g =
    elim (Bool-cases (
      is_replaying g.state
      && leb_ℤ (lag (λ v. since (v *ℤ pos 1000)) g.cursor) g.cfg.live_threshold)) [
        | inr stays ↦ rw (stays, catch_up) (refl, inl refl, refl, refl)
        | inl caught ↦
            let (state, keeps) = set_state_lem live g in
            rw (caught, catch_up)
              (
                keeps.cursor,
                inr (is_replaying-≡ g.state (ground arith), state),
                keeps.received,
                keeps.malformed,
              )
      ]

module _ (unmarshal : Str → Option Envelope) (since : ℤ → ℤ) where
  -- What one frame does: it is malformed, or its event was dispatched, accepted or not.
  abbrev pub Handles : Choice → Str → Ingestor → Dispatcher → Ingestor → Dispatcher → Type 0
  Handles choice frame g d g' d' =
      ((decode unmarshal frame ≡ err malformed)
        × (g'.malformed ≡ suc g.malformed)
        × (d' ≡ d)
        × (g'.cursor ≡ g.cursor))
      ⊎ ((ev : Event) × (accepted : Bool) × (decode unmarshal frame ≡ ok ev)
          × (dispatch choice ev d ≡ hands_on d' accepted)
          × (g'.malformed ≡ g.malformed)
          × (pos 1 ≤ℤ ev.time_us → ev.time_us ≤ℤ g'.cursor.latest))

  abbrev pub Round : Choice → Str → Ingestor → Dispatcher → Read → Type 0
  Round choice frame g d stuck = Unit
  Round choice frame g d (reads g' d') =
      Handles choice frame g d g' d'
      × (g'.received ≡ suc g.received)
      × (g.cursor.latest ≤ℤ g'.cursor.latest)
      × CatchesUp g.state g'.state

  dispatched-Round :
      (choice : Choice) (frame : Str) (g : Ingestor) (d : Dispatcher) (ev : Event) (r : Dispatched)
      → decode unmarshal frame ≡ ok ev
      → dispatch choice ev d ≡ r
      → Round choice frame g d (dispatched since ev (record g { received = suc g.received }) r)
  unfolding dispatched
  dispatched-Round choice frame g d ev blocks decoded sent_ = tt
  dispatched-Round choice frame g d ev crashes decoded sent_ = tt
  dispatched-Round choice frame g d ev (hands_on d' accepted) decoded sent_ =
      let (forward, reached, from, _, _) = advance_lem [] ev.time_us g.cursor tt in
      let moved = record g { received = suc g.received; cursor = advance [] ev.time_us g.cursor } in
      let (cursor, state, received, malformed_) = catch_up_lem since moved in
      (
        inr (
          ev,
          accepted,
          decoded,
          sent_,
          malformed_,
          λ later. subst (λ c. ev.time_us ≤ℤ c.latest) (sym cursor) (reached later),
        ),
        received,
        subst (λ c. g.cursor.latest ≤ℤ c.latest) (sym cursor) forward,
        state,
      )

  pub read_frame-Round :
      (choice : Choice) (frame : Str) (g : Ingestor) (d : Dispatcher)
      → Round choice frame g d (read_frame unmarshal since choice frame g d)
  unfolding read_frame handle_frame
  read_frame-Round choice frame g d = choose (decode unmarshal frame) refl
    where
      choose :
          (x : Result DecodeError Event)
          → decode unmarshal frame ≡ x
          → Round choice frame g d
              (handle_frame since choice x (record g { received = suc g.received }) d)
      choose (err malformed) decoded =
          (inl (decoded, refl, refl, refl), refl, omega arith, inl refl)
      choose (ok ev) decoded =
          dispatched-Round choice frame g d ev (dispatch choice ev d) decoded refl

  -- Frames that are read one after another.
  pub data Reads (g : Ingestor) (d : Dispatcher)
      : List Str → ℕ → Ingestor → Dispatcher → Type 0 where
    start : Reads g d [] 0 g d
    next :
        {frames : List Str} {n : ℕ} {g' g'' : Ingestor} {d' d'' : Dispatcher} (choice : Choice)
        (frame : Str)
        → Reads g d frames n g' d'
        → read_frame unmarshal since choice frame g' d' ≡ reads g'' d''
        → Reads g d (frame ∷ frames) (suc n) g'' d''

  -- The cursor is past the event of the frame, if it has one.
  abbrev pub IsPassed : Cursor → Str → Type 0
  IsPassed c frame =
      (ev : Event) → decode unmarshal frame ≡ ok ev → pos 1 ≤ℤ ev.time_us → ev.time_us ≤ℤ c.latest

  IsPassed-later :
      (c c' : Cursor) (frames : List Str)
      → c.latest ≤ℤ c'.latest
      → All (IsPassed c) frames
      → All (IsPassed c') frames
  IsPassed-later c c' [] h all = tt
  IsPassed-later c c' (f ∷ frames) h all = (
    λ ev decoded late. let below = all.0 ev decoded late in omega (arith, below, h),
    IsPassed-later c c' frames h all.1,
  )

  Handles-IsPassed :
      (choice : Choice) (frame : Str) (g g' : Ingestor) (d d' : Dispatcher)
      → Handles choice frame g d g' d'
      → IsPassed g'.cursor frame × (g.malformed ≤ g'.malformed) × (g'.malformed ≤ suc g.malformed)
  Handles-IsPassed choice frame g g' d d' (inl (bad, more, _, _)) =
      (λ ev decoded _. absurd (ground arith), omega (arith, more), omega (arith, more))
  Handles-IsPassed choice frame g g' d d' (inr (ev, accepted, good, _, same, reached)) = (
    λ ev' decoded late.
        let e : ev ≡ ev' = ground arith in
        subst (λ x. x.time_us ≤ℤ g'.cursor.latest) e
          (reached (subst (λ x. pos 1 ≤ℤ x.time_us) (sym e) late)),
    omega (arith, same),
    omega (arith, same),
  )

  -- Whatever frames the read loop goes through, each is counted as received, and as malformed at
  -- most once; the cursor never moves back and ends at least as far as the time of every frame
  -- that decodes and has a positive time, whether its event was accepted or shed; and the state
  -- is kept or goes from replaying to live.
  pub Reads-IsPassed :
      (g : Ingestor) (d : Dispatcher) (frames : List Str) (n : ℕ) (g' : Ingestor) (d' : Dispatcher)
      → Reads g d frames n g' d'
      → (g'.received ≡ g.received + n)
        × (g.cursor.latest ≤ℤ g'.cursor.latest)
        × All (IsPassed g'.cursor) frames
        × (g.malformed ≤ g'.malformed)
        × (g'.malformed ≤ g.malformed + n)
        × CatchesUp g.state g'.state
  Reads-IsPassed g d frames n g' d' start =
      (omega arith, omega arith, tt, omega arith, omega arith, inl refl)
  Reads-IsPassed g d frames n g' d'
        (next {frames = fs} {n = m} {g' = h} {d' = e} choice frame rest ran) =
      let (received, forward, passed, low, high, states) = Reads-IsPassed g d fs m h e rest in
      let (handled, one, onward, state) =
        subst (Round choice frame h e) ran (read_frame-Round choice frame h e) in
      let (here, low', high') = Handles-IsPassed choice frame h g' e d' handled in
      (
        omega (arith, received, one),
        omega (arith, forward, onward),
        (here, IsPassed-later h.cursor g'.cursor fs onward passed),
        omega (arith, low, low'),
        omega (arith, high, high'),
        CatchesUp-trans g.state h.state g'.state states state,
      )
