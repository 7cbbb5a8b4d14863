-- ===== src/Route/Queue.antt =====
-- The queue of a route under any order of offers and receives.
use jetstream_router.Common.{
  ℕ, suc, ◌+◌, ◌≤◌, ◌≡◌, ◌⊎◌, refl, ap, sym, ◌∙◌, subst, Bool, true, false, some, List, [], ◌∷◌,
  ◌++◌, append-nil, append_assoc, length, length-append, if◌then◌else◌, arith, Bool-cases, inl, inr,
}
use jetstream_router.Common.Int.{pos, ◌≤ℤ◌}
use jetstream_router.Common.Str.{◌==◌}
use jetstream_router.Event.{Event}
use jetstream_router.Route.{
  Route, has_room, Choice, sent, timed_out, cancelled, Offered, returns, waits, panics, send, shed,
  offer_block, offer_drop, offer, receive, policy_block,
}

-- What a route goes through while it is open, with the events that were accepted, those that were
-- received and the number that `Offer` refused.
pub data Steps (r : Route) : List Event → List Event → ℕ → Route → Type 0 where
  stop : Steps r [] [] 0 r
  accepts :
      {acc rec : List Event} {n : ℕ} {s s' : Route} (choice : Choice) (ev : Event)
      → Steps r acc rec n s
      → offer choice ev s ≡ returns s' true
      → Steps r (acc ++ ev ∷ []) rec n s'
  refuses :
      {acc rec : List Event} {n : ℕ} {s s' : Route} (choice : Choice) (ev : Event)
      → Steps r acc rec n s
      → offer choice ev s ≡ returns s' false
      → Steps r acc rec (suc n) s'
  takes :
      {acc rec : List Event} {n : ℕ} {s s' : Route} (ev : Event)
      → Steps r acc rec n s
      → receive s ≡ some (ev, s')
      → Steps r acc (rec ++ ev ∷ []) n s'

-- What `Offer` can do, whatever the case of the `select` that fires.
abbrev pub Effect : Route → Event → Offered → Type 0
Effect s ev (returns s' true) = (has_room s ≡ true) × (s' ≡ send ev s)
Effect s ev (returns s' false) =
    (s' ≡ shed s) ⊎ (((s.cfg.policy == policy_block) ≡ true) × (s' ≡ s))
Effect s ev waits = Unit
Effect s ev panics = s.closed ≡ true

-- A send that is tried, with what happens where the channel is full.
tries-Effect :
    (ev : Event) (s : Route) (full : Offered)
    → Effect s ev full
    → Effect s ev
        (if s.closed then panics else (if has_room s then returns (send ev s) true else full))
tries-Effect ev s full h = choose s.closed (has_room s) refl refl
  where
    choose :
        (c b : Bool)
        → s.closed ≡ c
        → has_room s ≡ b
        → Effect s ev (if c then panics else (if b then returns (send ev s) true else full))
    choose true b shut room = shut
    choose false true open_ room = (room, refl)
    choose false false open_ room = h

offer_drop-Effect : (ev : Event) (s : Route) → Effect s ev (offer_drop ev s)
unfolding offer_drop
offer_drop-Effect ev s = tries-Effect ev s (returns (shed s) false) (inl refl)

offer_block-Effect :
    (choice : Choice) (ev : Event) (s : Route)
    → (s.cfg.policy == policy_block) ≡ true
    → Effect s ev (offer_block choice ev s)
unfolding offer_block
offer_block-Effect sent ev s block = tries-Effect ev s waits tt
offer_block-Effect timed_out ev s block = inl refl
offer_block-Effect cancelled ev s block = inr (block, refl)

pub offer-Effect : (choice : Choice) (ev : Event) (s : Route) → Effect s ev (offer choice ev s)
unfolding offer
offer-Effect choice ev s = elim (Bool-cases (s.cfg.policy == policy_block)) [
  | inr drop ↦
      let same : offer choice ev s ≡ offer_drop ev s = rw (drop, offer) refl in
      subst (Effect s ev) (sym same) (offer_drop-Effect ev s)
  | inl block ↦
      let same : offer choice ev s ≡ offer_block choice ev s = rw (block, offer) refl in
      subst (Effect s ev) (sym same) (offer_block-Effect choice ev s block)
]

-- What holds of a route at any time, from the events that went in and out and the refusals.
pub record Balance (r : Route) (acc rec : List Event) (n : ℕ) (s : Route) : Type 0 where
  pub order : r.queue ++ acc ≡ rec ++ s.queue
  pub bounded : pos (length s.queue) ≤ℤ r.cfg.buffer
  pub routed : s.metrics.routed ≡ r.metrics.routed + length acc
  pub dropped : s.metrics.dropped ≤ r.metrics.dropped + n
  pub all_dropped :
      (r.cfg.policy == policy_block) ≡ false → s.metrics.dropped ≡ r.metrics.dropped + n
  pub same_cfg : s.cfg ≡ r.cfg

Balance-send :
    (r t : Route) (a c : List Event) (m : ℕ) (ev : Event)
    → has_room t ≡ true
    → Balance r a c m t
    → Balance r (a ++ ev ∷ []) c m (send ev t)
unfolding send has_room
Balance-send r t a c m ev room b = record {
  order =
      sym (append_assoc r.queue a (ev ∷ []))
      ∙ ap (λ x. x ++ ev ∷ []) b.order
      ∙ append_assoc c t.queue (ev ∷ []);
  bounded =
      subst (λ x. pos (length (t.queue ++ ev ∷ [])) ≤ℤ x.buffer) b.same_cfg
        (ground (arith, length-append t.queue (ev ∷ [])));
  routed = omega (arith, b.routed, length-append a (ev ∷ []));
  dropped = b.dropped;
  all_dropped = b.all_dropped;
  same_cfg = b.same_cfg;
}

Balance-refused :
    (r t s : Route) (a c : List Event) (m : ℕ) (ev : Event)
    → Effect t ev (returns s false)
    → Balance r a c m t
    → Balance r a c (suc m) s
unfolding shed
Balance-refused r t s a c m ev (inl e) b = subst (Balance r a c (suc m)) (sym e) (record {
  order = b.order;
  bounded = b.bounded;
  routed = b.routed;
  dropped = omega (arith, b.dropped);
  all_dropped = λ drop. omega (arith, b.all_dropped drop);
  same_cfg = b.same_cfg;
})
Balance-refused r t s a c m ev (inr (block, e)) b = subst (Balance r a c (suc m)) (sym e) (record {
  order = b.order;
  bounded = b.bounded;
  routed = b.routed;
  dropped = omega (arith, b.dropped);
  all_dropped = λ drop. absurd (ground (arith, ap (λ x. x.policy == policy_block) b.same_cfg));
  same_cfg = b.same_cfg;
})

pub receive_lem :
    (t s : Route) (ev : Event)
    → receive t ≡ some (ev, s)
    → (t.queue ≡ ev ∷ s.queue) × (s.cfg ≡ t.cfg) × (s.metrics ≡ t.metrics)
unfolding receive
receive_lem t s ev ran = choose t.queue refl
  where
    choose :
        (q : List Event)
        → t.queue ≡ q
        → (t.queue ≡ ev ∷ s.queue) × (s.cfg ≡ t.cfg) × (s.metrics ≡ t.metrics)
    choose [] e = absurd (ground arith)
    choose (x ∷ xs) e = (ground arith, ground arith, ground arith)

Balance-receive :
    (r t s : Route) (a c : List Event) (m : ℕ) (ev : Event)
    → (t.queue ≡ ev ∷ s.queue) × (s.cfg ≡ t.cfg) × (s.metrics ≡ t.metrics)
    → Balance r a c m t
    → Balance r a (c ++ ev ∷ []) m s
Balance-receive r t s a c m ev (queue, cfg, metrics) b = record {
  order = b.order ∙ ap (λ x. c ++ x) queue ∙ sym (append_assoc c (ev ∷ []) s.queue);
  bounded = ground (arith, b.bounded, ap length queue);
  routed = ap (λ x. x.routed) metrics ∙ b.routed;
  dropped = omega (arith, b.dropped, ap (λ x. x.dropped) metrics);
  all_dropped = λ drop. ap (λ x. x.dropped) metrics ∙ b.all_dropped drop;
  same_cfg = cfg ∙ b.same_cfg;
}

-- Whatever the order of offers and receives on a route whose queue fits the buffer, events come
-- out in the order in which they were accepted, none twice and none lost; the queue never holds
-- more than the buffer, every accepted event is counted as routed, and under the drop policy
-- every other event that was offered is counted as dropped.
pub Steps-Balance :
    (r s : Route) (acc rec : List Event) (n : ℕ)
    → pos (length r.queue) ≤ℤ r.cfg.buffer
    → Steps r acc rec n s
    → Balance r acc rec n s
Steps-Balance r s acc rec n fits stop = record {
  order = append-nil r.queue;
  bounded = fits;
  routed = omega arith;
  dropped = omega arith;
  all_dropped = λ _. omega arith;
  same_cfg = refl;
}
Steps-Balance r s acc rec n fits (accepts {acc = a} {rec = c} {n = m} {s = t} choice ev steps ran) =
    let (room, sent_) = subst (Effect t ev) ran (offer-Effect choice ev t) in
    subst (Balance r (a ++ ev ∷ []) c m) (sym sent_)
      (Balance-send r t a c m ev room (Steps-Balance r t a c m fits steps))
Steps-Balance r s acc rec n fits (refuses {acc = a} {rec = c} {n = m} {s = t} choice ev steps ran) =
    Balance-refused r t s a c m ev (subst (Effect t ev) ran (offer-Effect choice ev t))
      (Steps-Balance r t a c m fits steps)
Steps-Balance r s acc rec n fits (takes {acc = a} {rec = c} {n = m} {s = t} ev steps ran) =
    Balance-receive r t s a c m ev (receive_lem t s ev ran) (Steps-Balance r t a c m fits steps)

-- Under the drop policy `Offer` never waits, whatever the channel: while the route is open it
-- returns at once, and accepts the event exactly when the buffer has room.
pub offer_drop_lem :
    (choice : Choice) (ev : Event) (s : Route)
    → (s.cfg.policy == policy_block) ≡ false
    → s.closed ≡ false
    → offer choice ev s ≡ (if has_room s then returns (send ev s) true else returns (shed s) false)
unfolding offer offer_drop
offer_drop_lem choice ev s drop open_ = rw (drop, offer, open_) refl
