-- ===== src/Route/Pool/Conserved.antt =====
-- No event is lost between a route's channel and its workers.
use mathlib.Core.List.{Perm, perm_middle, perm_append_singleton}
use mathlib.Core.List.Perm
use jetstream_router.Common.{
  ◌≡◌, ◌≢◌, ◌∙◌, ap, refl, sym, subst, true, false, none, some, List, [], ◌∷◌, ◌++◌, map,
  append-nil, append_assoc, set, arith, Bool-cases, inl, inr,
}
use jetstream_router.Event.{Event}
use jetstream_router.Route.{
  Route, Choice, sent, timed_out, cancelled, returns, send, shed, offer, offer_block, offer_drop,
  receive, close,
}
use jetstream_router.Route.Queue.{Effect, offer-Effect, receive_lem}
use jetstream_router.Route.Pool.{
  idle, busy, gone, Pool, to_count, start, take_event, leave, finish, Turn, takes, leaves, finishes,
  Life, starts, accepts, refuses, works, closes,
}
use jetstream_router.Route.Pool.Workers.{
  in_flight, in_flight-busy, in_flight-idle, in_flight-gone, HasGone, HasGone-set, launch_lem,
}

abbrev pub processed : Pool → List Event
processed p = map (λ x. x.0) p.outcomes

-- What holds of a route at any time, from the events that were accepted and received.
pub record IsConserved (acc rec : List Event) (p : Pool) : Type 0 where
  pub order : acc ≡ rec ++ p.route.queue
  pub owned : Perm rec (in_flight p.workers ++ processed p)
  pub ended : HasGone p.workers → (p.route.closed ≡ true) × (p.route.queue ≡ [])

-- No closed channel accepts an event.
offer-open :
    (choice : Choice) (ev : Event) (r s : Route)
    → offer choice ev r ≡ returns s true
    → r.closed ≡ false
unfolding offer offer_block offer_drop
offer-open sent ev r s ran = elim (Bool-cases r.closed) [
  | inl shut ↦ absurd (ground (arith, shut, ran))
  | inr open_ ↦ open_
]
offer-open timed_out ev r s ran = elim (Bool-cases r.closed) [
  | inl shut ↦ absurd (ground (arith, shut, ran))
  | inr open_ ↦ open_
]
offer-open cancelled ev r s ran = elim (Bool-cases r.closed) [
  | inl shut ↦ absurd (ground (arith, shut, ran))
  | inr open_ ↦ open_
]

accepted_lem :
    (choice : Choice) (ev : Event) (r s : Route)
    → offer choice ev r ≡ returns s true
    → (r.closed ≡ false) × (s.queue ≡ r.queue ++ ev ∷ [])
unfolding send
accepted_lem choice ev r s ran = (
  offer-open choice ev r s ran,
  ap (λ x. x.queue) (subst (Effect r ev) ran (offer-Effect choice ev r)).1,
)

refused_lem :
    (choice : Choice) (ev : Event) (r s : Route)
    → offer choice ev r ≡ returns s false
    → (s.queue ≡ r.queue) × (s.closed ≡ r.closed)
unfolding shed
refused_lem choice ev r s ran = elim (subst (Effect r ev) ran (offer-Effect choice ev r)) [
  | inl same ↦ (ap (λ x. x.queue) same, ap (λ x. x.closed) same)
  | inr (_, same) ↦ (ap (λ x. x.queue) same, ap (λ x. x.closed) same)
]

close_lem :
    (r s : Route) → close r ≡ some s → (s.queue ≡ r.queue) × (s.closed ≡ true) × (s.cfg ≡ r.cfg)
unfolding close
close_lem r s ran = (ground arith, ground arith, ground arith)

receive-none : (r : Route) → receive r ≡ none → r.queue ≡ []
unfolding receive
receive-none r none_ = choose r.queue refl
  where
    choose : (q : List Event) → r.queue ≡ q → r.queue ≡ []
    choose [] e = e
    choose (x ∷ xs) e = absurd (ground arith)

idle-ne-gone : idle ≢ gone
idle-ne-gone h = cc

busy-ne-gone : (ev : Event) → busy ev ≢ gone
busy-ne-gone ev h = cc

Turn-IsConserved :
    {p q : Pool} {took : List Event} (acc rec : List Event)
    → Turn p took q
    → IsConserved acc rec p
    → IsConserved acc (rec ++ took) q
unfolding take_event leave finish
Turn-IsConserved acc rec (takes p i ev r at got) c =
    let (queue, _, _) = receive_lem p.route r ev got in
    record {
      order = c.order ∙ ap (λ x. rec ++ x) queue ∙ sym (append_assoc rec (ev ∷ []) r.queue);
      owned = Perm.trans (perm_append_singleton ev rec) (
          Perm.trans (Perm.cons ev c.owned)
            (Perm.append_right (processed p) (Perm.symm (in_flight-busy p.workers i ev at))));
      ended = λ over. absurd (
          ground
            (arith, queue, (c.ended (HasGone-set p.workers i (busy ev) (busy-ne-gone ev) over)).1));
    }
Turn-IsConserved acc rec (leaves p i at got shut) c = record {
  order = c.order ∙ ap (λ x. x ++ p.route.queue) (sym (append-nil rec));
  owned =
      subst (λ x. Perm x (in_flight (set p.workers i gone) ++ processed p)) (sym (append-nil rec))
        (subst (λ x. Perm rec (x ++ processed p)) (sym (in_flight-gone p.workers i at)) c.owned);
  ended = λ over. (shut, receive-none p.route got);
}
Turn-IsConserved acc rec (finishes p i ev o handler wakes at ran) c = record {
  order = c.order ∙ ap (λ x. x ++ p.route.queue) (sym (append-nil rec));
  owned =
      subst (λ x. Perm x (in_flight (set p.workers i idle) ++ ev ∷ processed p))
        (sym (append-nil rec))
        (Perm.trans c.owned (
          Perm.trans (Perm.append_right (processed p) (in_flight-idle p.workers i ev at))
            (Perm.symm (perm_middle (in_flight (set p.workers i idle)) (processed p)))));
  ended = λ over. c.ended (HasGone-set p.workers i idle idle-ne-gone over);
}

-- On a route that starts with an empty channel, whatever the order of offers, receives, ends of
-- process and the close: the accepted events are those that were received followed by those in
-- the channel, the received ones are those that a worker holds and those that were processed,
-- each as often, and a worker returns only when the channel is closed and empty.
pub Life-IsConserved :
    (r : Route) (acc rec : List Event) (p : Pool)
    → r.queue ≡ []
    → Life (start r) acc rec p
    → IsConserved acc rec p
unfolding start
Life-IsConserved r acc rec p empty starts = record {
  order = sym empty;
  owned =
      let (none_, _, _) = launch_lem (to_count r.cfg.workers) in
      subst (λ x. Perm [] (x ++ [])) (sym none_) Perm.nil;
  ended = λ over. absurd ((launch_lem (to_count r.cfg.workers)).1 over);
}
Life-IsConserved r acc rec p empty (accepts {acc = a} {q} {r = s} choice ev life ran) =
    let c = Life-IsConserved r a rec q empty life in
    let (open_, queue) = accepted_lem choice ev q.route s ran in
    record {
      order =
          ap (λ x. x ++ ev ∷ []) c.order
          ∙ append_assoc rec q.route.queue (ev ∷ [])
          ∙ ap (λ x. rec ++ x) (sym queue);
      owned = c.owned;
      ended = λ over. absurd (ground (arith, open_, (c.ended over).0));
    }
Life-IsConserved r acc rec p empty (refuses {q} {r = s} choice ev life ran) =
    let c = Life-IsConserved r acc rec q empty life in
    let (queue, shut) = refused_lem choice ev q.route s ran in
    record {
      order = c.order ∙ ap (λ x. rec ++ x) (sym queue);
      owned = c.owned;
      ended = λ over. (shut ∙ (c.ended over).0, queue ∙ (c.ended over).1);
    }
Life-IsConserved r acc rec p empty (works {rec = b} {q} life turn) =
    Turn-IsConserved acc b turn (Life-IsConserved r acc b q empty life)
Life-IsConserved r acc rec p empty (closes {q} {r = s} life ran) =
    let c = Life-IsConserved r acc rec q empty life in
    let (queue, shut, _) = close_lem q.route s ran in
    record {
      order = c.order ∙ ap (λ x. rec ++ x) (sym queue);
      owned = c.owned;
      ended = λ over. (shut, queue ∙ (c.ended over).1);
    }
