-- ===== src/Route/Pool/Finish.antt =====
-- What `Drain` waits for.
use mathlib.Core.List.{Perm}
use jetstream_router.Common.{
  ℕ, suc, ◌+◌, ◌*◌, ◌≤◌, ◌≡◌, ◌⊎◌, ◌∙◌, ap, refl, sym, subst, Bool, true, false, Option-cases, some,
  List, [], ◌∷◌, ◌++◌, append-nil, length, arith, Bool-cases, inl, inr,
}
use jetstream_router.Common.Int.{ℤ, pos, negsuc, ◌≤ℤ◌}
use jetstream_router.Event.{Event}
use jetstream_router.Route.{Config, Route, new, with_defaults, positive_or, receive, Answer}
use jetstream_router.Route.Queue.{receive_lem}
use jetstream_router.Route.Attempts.{process_lem}
use jetstream_router.Route.Pool.{
  idle, busy, gone, Pool, to_count, start, take_event, leave, finish, Turn, takes, leaves, finishes,
  Life, starts, accepts, refuses, works, closes, all_gone, drained, drain,
}
use jetstream_router.Route.Pool.Workers.{
  all_gone_lem, launch_lem, length-set, turns_left, turns_left-set, find_worker,
}
use jetstream_router.Route.Pool.Conserved.{processed, Life-IsConserved}

Turn-length : {p q : Pool} {took : List Event} → Turn p took q → length q.workers ≡ length p.workers
unfolding take_event leave finish
Turn-length (takes p i ev r at got) = length-set p.workers i (busy ev)
Turn-length (leaves p i at got shut) = length-set p.workers i gone
Turn-length (finishes p i ev o handler wakes at ran) = length-set p.workers i idle

some_workers : (x : ℤ) → 1 ≤ to_count (positive_or (pos 1) x)
some_workers (pos n) = ground arith
some_workers (negsuc n) = ground arith

staffed :
    (cfg : Config) (acc rec : List Event) (p : Pool)
    → Life (start (new cfg)) acc rec p
    → 1 ≤ length p.workers
unfolding start new with_defaults
staffed cfg acc rec p starts =
    let n = to_count (positive_or (pos 1) cfg.workers) in
    omega (arith, (launch_lem n).2, some_workers cfg.workers)
staffed cfg acc rec p (accepts {acc = a} {q} {r = s} choice ev life ran) = staffed cfg a rec q life
staffed cfg acc rec p (refuses {q} {r = s} choice ev life ran) = staffed cfg acc rec q life
staffed cfg acc rec p (works {rec = b} {q} life turn) =
    omega (arith, Turn-length turn, staffed cfg acc b q life)
staffed cfg acc rec p (closes {q} {r = s} life ran) = staffed cfg acc rec q life

-- Where Drain returns because the workers are done, the channel is closed and empty, the events
-- were received in the order in which they were accepted, and the events that were processed are
-- the accepted ones, each as often: none was lost or processed twice.
pub drain_lem :
    (cfg : Config) (acc rec : List Event) (p : Pool)
    → Life (start (new cfg)) acc rec p
    → drain true p ≡ some drained
    → (p.route.closed ≡ true) × (p.route.queue ≡ []) × (rec ≡ acc) × Perm acc (processed p)
unfolding drain
drain_lem cfg acc rec p life ran = elim (Bool-cases (all_gone p.workers)) [
  | inr working ↦ absurd (ground arith)
  | inl all ↦
      let c = Life-IsConserved (new cfg) acc rec p (unfold new in refl) life in
      let (none_, someone) = all_gone_lem p.workers all in
      let (shut, empty) : (p.route.closed ≡ true) × (p.route.queue ≡ []) = elim someone [
        | inl nobody ↦ absurd (omega (arith, staffed cfg acc rec p life, ap length nobody))
        | inr over ↦ c.ended over
      ] in
      let same : acc ≡ rec = c.order ∙ ap (λ x. rec ++ x) empty ∙ append-nil rec in
      (
        shut,
        empty,
        sym same,
        subst (λ x. Perm x (processed p)) (sym same)
            (subst (λ x. Perm rec (x ++ processed p)) none_ c.owned),
      )
]

-- Turns of the workers, one after another.
pub data Turns (p : Pool) : ℕ → Pool → Type 0 where
  done : Turns p 0 p
  again : {n : ℕ} {took : List Event} {q s : Pool} → Turns p n q → Turn q took s → Turns p (suc n) s

abbrev pub turns_due : Pool → ℕ
turns_due p = 2 * length p.route.queue + turns_left p.workers

receive_closed : (r s : Route) (ev : Event) → receive r ≡ some (ev, s) → s.closed ≡ r.closed
unfolding receive
receive_closed r s ev got = choose r.queue refl
  where
    choose : (q : List Event) → r.queue ≡ q → s.closed ≡ r.closed
    choose [] e = absurd (ground arith)
    choose (x ∷ xs) e = ground arith

Turn-turns_due :
    {p q : Pool} {took : List Event}
    → Turn p took q
    → (suc (turns_due q) ≤ turns_due p)
      × (q.route.closed ≡ p.route.closed)
      × (q.route.cfg ≡ p.route.cfg)
unfolding take_event leave finish
Turn-turns_due (takes p i ev r at got) =
    let (queue, cfg, _) = receive_lem p.route r ev got in
    (
      omega (arith, turns_left-set p.workers i idle (busy ev) at, ap length queue),
      receive_closed p.route r ev got,
      cfg,
    )
Turn-turns_due (leaves p i at got shut) =
    (omega (arith, turns_left-set p.workers i idle gone at), refl, refl)
Turn-turns_due (finishes p i ev o handler wakes at ran) =
    (omega (arith, turns_left-set p.workers i (busy ev) idle at), refl, refl)

Turns-turns_due :
    (p : Pool) {n : ℕ} {q : Pool}
    → Turns p n q
    → (n + turns_due q ≤ turns_due p)
      × (q.route.closed ≡ p.route.closed)
      × (q.route.cfg ≡ p.route.cfg)
Turns-turns_due p done = (omega arith, refl, refl)
Turns-turns_due p (again turns turn) =
    let (low, shut, cfg) = Turns-turns_due p turns in
    let (less, shut', cfg') = Turn-turns_due turn in
    (omega (arith, low, less), shut' ∙ shut, cfg' ∙ cfg)

-- A worker of a closed route that has not returned can go on.
goes_on :
    (handler : ℕ → Answer) (wakes : ℕ → Bool) (p : Pool)
    → p.route.closed ≡ true
    → pos 1 ≤ℤ p.route.cfg.max_attempts
    → all_gone p.workers ≡ false
    → (took : List Event) × (q : Pool) × Turn p took q
goes_on handler wakes p shut tries working =
    let (i, found) = find_worker p.workers working in
    elim found [
      | inl waits ↦ elim (Option-cases (receive p.route)) [
        | inl none_ ↦ (_, _, leaves p i waits none_ shut)
        | inr ((ev, r), got) ↦ (_, _, takes p i ev r waits got)
      ]
      | inr (ev, holds) ↦
          let (o, _, _, ran, _, _, _, _) = process_lem handler wakes p.route.cfg tries in
          (_, _, finishes p i ev o handler wakes holds ran)
    ]

-- Once a route with a positive number of attempts is closed, its workers take at most two turns
-- for each event in the channel, two for each busy worker and one for each that waits; and after
-- any number of turns either Drain finds them all done or one of them can go on.
pub workers_end :
    (handler : ℕ → Answer) (wakes : ℕ → Bool) (p q : Pool) (n : ℕ)
    → p.route.closed ≡ true
    → pos 1 ≤ℤ p.route.cfg.max_attempts
    → Turns p n q
    → (n ≤ turns_due p)
      × ((drain true q ≡ some drained) ⊎ ((took : List Event) × (s : Pool) × Turn q took s))
unfolding drain
workers_end handler wakes p q n shut tries turns =
    let (low, same, cfg) = Turns-turns_due p turns in
    (
      omega (arith, low),
      elim (Bool-cases (all_gone q.workers)) [
        | inl all ↦ inl (rw all refl)
        | inr working ↦ inr (
            goes_on handler wakes q (same ∙ shut)
              (subst (λ c. pos 1 ≤ℤ c.max_attempts) (sym cfg) tries) working)
      ],
    )
