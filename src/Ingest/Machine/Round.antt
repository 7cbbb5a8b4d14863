-- ===== src/Ingest/Machine/Round.antt =====
-- What a round of the read loop leaves alone.
use jetstream_router.Common.{
  ◌≡◌, ◌∙◌, ap, refl, subst, sym, Result, ok, err, ◌&&◌, Bool-cases, inl, inr, arith,
}
use jetstream_router.Common.Int.{ℤ, pos, ◌≤ℤ◌, leb_ℤ, ◌*ℤ◌}
use jetstream_router.Common.Str.{Str}
use jetstream_router.Common.{Option, suc, []}
use jetstream_router.Event.{Event, Envelope, DecodeError, decode}
use jetstream_router.Route.{Choice}
use jetstream_router.Cursor.{advance, lag}
use jetstream_router.Cursor.Advance.{advance_lem}
use jetstream_router.Dispatch.{Dispatched, hands_on, blocks, crashes, Dispatcher, dispatch}
use jetstream_router.Ingest.{
  live, Ingestor, is_replaying, catch_up, Read, reads, stuck, dispatched, handle_frame, read_frame,
}
use jetstream_router.Ingest.States.{GaugesAgree, set_state_lem, set_state-GaugesAgree}
use jetstream_router.Ingest.Frames.{CatchesUp, CatchesUp-trans, is_replaying-≡}

-- What a round of the read loop leaves alone, and what it may change.
pub record Kept (g g' : Ingestor) : Type 0 where
  pub cfg : g'.cfg ≡ g.cfg
  pub health : g'.health ≡ g.health
  pub connected : g'.connected ≡ g.connected
  pub committed : g'.cursor.committed ≡ g.cursor.committed
  pub forward : g.cursor.latest ≤ℤ g'.cursor.latest
  pub state : CatchesUp g.state g'.state
  pub gauges : GaugesAgree g.state g.gauges → GaugesAgree g'.state g'.gauges

Kept-refl : (g : Ingestor) → Kept g g
Kept-refl g = record {
  cfg = refl;
  health = refl;
  connected = refl;
  committed = refl;
  forward = omega arith;
  state = inl refl;
  gauges = λ h. h;
}

Kept-trans : (g h k : Ingestor) → Kept g h → Kept h k → Kept g k
Kept-trans g h k a b = record {
  cfg = b.cfg ∙ a.cfg;
  health = b.health ∙ a.health;
  connected = b.connected ∙ a.connected;
  committed = b.committed ∙ a.committed;
  forward = omega (arith, a.forward, b.forward);
  state = CatchesUp-trans g.state h.state k.state a.state b.state;
  gauges = λ p. b.gauges (a.gauges p);
}

catch_up-Kept : (since : ℤ → ℤ) (g : Ingestor) → Kept g (catch_up since g)
unfolding catch_up
catch_up-Kept since g =
    elim (Bool-cases (
      is_replaying g.state
      && leb_ℤ (lag (λ v. since (v *ℤ pos 1000)) g.cursor) g.cfg.live_threshold)) [
        | inr stays ↦ rw (stays, catch_up) (Kept-refl g)
        | inl caught ↦
            let (there, keeps) = set_state_lem live g in
            rw (caught, catch_up)
              (record {
                cfg = keeps.cfg;
                health = keeps.health;
                connected = keeps.connected;
                committed = ap (λ c. c.committed) keeps.cursor;
                forward = subst (λ c. g.cursor.latest ≤ℤ c.latest) (sym keeps.cursor) (omega arith);
                state = inr (is_replaying-≡ g.state (ground arith), there);
                gauges = λ h. set_state-GaugesAgree live g h;
              })
      ]

advance-Kept :
    (ev : Event) (g : Ingestor) → Kept g (record g { cursor = advance [] ev.time_us g.cursor })
advance-Kept ev g =
    let (forward, _, _, committed, _) = advance_lem [] ev.time_us g.cursor tt in
    record {
      cfg = refl;
      health = refl;
      connected = refl;
      committed = committed;
      forward = forward;
      state = inl refl;
      gauges = λ h. h;
    }

abbrev Held : Ingestor → Read → Type 0
Held g stuck = Unit
Held g (reads g' d') = Kept g g'

dispatched-Held :
    (since : ℤ → ℤ) (ev : Event) (g : Ingestor) (r : Dispatched) → Held g (dispatched since ev g r)
unfolding dispatched
dispatched-Held since ev g blocks = tt
dispatched-Held since ev g crashes = tt
dispatched-Held since ev g (hands_on d accepted) =
    let moved = record g { cursor = advance [] ev.time_us g.cursor } in
    Kept-trans g moved (catch_up since moved) (advance-Kept ev g) (catch_up-Kept since moved)

handle_frame-Held :
    (since : ℤ → ℤ) (choice : Choice) (x : Result DecodeError Event) (g : Ingestor) (d : Dispatcher)
    → Held g (handle_frame since choice x g d)
unfolding handle_frame
handle_frame-Held since choice (err e) g d = record {
  cfg = refl;
  health = refl;
  connected = refl;
  committed = refl;
  forward = omega arith;
  state = inl refl;
  gauges = λ h. h;
}
handle_frame-Held since choice (ok ev) g d = dispatched-Held since ev g (dispatch choice ev d)

-- A round that returns keeps all this.
pub read_frame-Kept :
    (unmarshal : Str → Option Envelope) (since : ℤ → ℤ) (choice : Choice) (frame : Str)
    (g : Ingestor) (d : Dispatcher) (g' : Ingestor) (d' : Dispatcher)
    → read_frame unmarshal since choice frame g d ≡ reads g' d'
    → Kept g g'
unfolding read_frame
read_frame-Kept unmarshal since choice frame g d g' d' ran =
    let counted = record g { received = suc g.received } in
    let held : Held counted (reads g' d') =
      subst (Held counted) ran
        (handle_frame-Held since choice (decode unmarshal frame) counted d) in
    record {
      cfg = held.cfg;
      health = held.health;
      connected = held.connected;
      committed = held.committed;
      forward = held.forward;
      state = held.state;
      gauges = held.gauges;
    }
