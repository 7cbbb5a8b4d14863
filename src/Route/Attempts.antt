-- ===== src/Route/Attempts.antt =====
-- How many attempts `process` makes, and how it ends.
use jetstream_router.Common.{
  ℕ, zero, suc, ◌+◌, ◌<◌, ◌≡◌, ◌⊎◌, refl, ap, ◌∙◌, Bool, true, false, Option, some, [], ◌∷◌, length,
  arith, Bool-cases, inl, inr,
}
use jetstream_router.Common.Int.{ℤ, pos, negsuc, ◌≤ℤ◌, ◌<ℤ◌, leb_ℤ}
use jetstream_router.Common.Str.{lit}
use jetstream_router.Route.{
  Config, Answer, done, transient, permanent, panicked, call_handler, Outcome, attempts, rounds,
  process,
}

-- How `process` can end: the event is handled, or it is dead-lettered, or the context ends it
-- during a wait.
pub data Ending : Type 0 where
  handled_ok : Ending
  failed : Ending
  exhausted : Ending
  interrupted : Ending

-- `Ends` tells what happens from attempt `n + 1` on, independently of the loop: each attempt that
-- is transient and not the last is followed by a wait and the next attempt.
pub data Ends (handler : ℕ → Answer) (wakes : ℕ → Bool) (max : ℤ) : ℕ → ℕ → Ending → Type 0 where
  succeeds : {n : ℕ} → handler n ≡ done → Ends handler wakes max n 1 handled_ok
  fails :
      {n : ℕ} → (handler n ≡ permanent) ⊎ (handler n ≡ panicked) → Ends handler wakes max n 1 failed
  gives_up :
      {n : ℕ} → handler n ≡ transient → max ≤ℤ pos (suc n) → Ends handler wakes max n 1 exhausted
  stops :
      {n : ℕ}
      → handler n ≡ transient
      → pos (suc n) <ℤ max
      → wakes n ≡ false
      → Ends handler wakes max n 1 interrupted
  retries :
      {n calls : ℕ} {e : Ending}
      → handler n ≡ transient
      → pos (suc n) <ℤ max
      → wakes n ≡ true
      → Ends handler wakes max (suc n) calls e
      → Ends handler wakes max n (suc calls) e

-- What each ending leaves in the metrics.
abbrev pub Leaves : Ending → Outcome → Type 0
Leaves handled_ok o = (o.dead_lettered ≡ [])
Leaves failed o = o.dead_lettered ≡ lit "permanent" ∷ []
Leaves exhausted o = o.dead_lettered ≡ lit "retries_exhausted" ∷ []
Leaves interrupted o = o.dead_lettered ≡ []

-- The loop from attempt `n + 1` on returns, in agreement with `Ends`.
Agrees : (ℕ → Answer) → (ℕ → Bool) → ℤ → ℕ → Option Outcome → Type 0
Agrees handler wakes max n result =
    (o : Outcome) × (calls : ℕ) × (e : Ending) × (result ≡ some o)
    × Ends handler wakes max n calls e
    × Leaves e o
    × (length o.handled ≡ calls)
    × ((pos (n + calls) ≤ℤ max) ⊎ (calls ≡ 1))

Leaves-retried :
    (e : Ending) (o o' : Outcome) → o'.dead_lettered ≡ o.dead_lettered → Leaves e o → Leaves e o'
Leaves-retried handled_ok o o' same left = same ∙ left
Leaves-retried failed o o' same left = same ∙ left
Leaves-retried exhausted o o' same left = same ∙ left
Leaves-retried interrupted o o' same left = same ∙ left

module _ (handler : ℕ → Answer) (wakes : ℕ → Bool) (cfg : Config) where
  attempts-Agrees :
      (fuel n : ℕ)
      → 0 < fuel
      → cfg.max_attempts ≤ℤ pos (fuel + n)
      → Agrees handler wakes cfg.max_attempts n (attempts handler wakes cfg fuel n)
  unfolding attempts Agrees call_handler
  attempts-Agrees zero n some_ enough = absurd (omega arith)
  attempts-Agrees (suc fuel) n some_ enough =
      choose (λ f g. attempts-Agrees fuel (suc n) f g) (handler n) refl
    where
      choose :
          (0 < fuel
            → cfg.max_attempts ≤ℤ pos (fuel + suc n)
            → Agrees handler wakes cfg.max_attempts
                (suc n)
                (attempts handler wakes cfg fuel (suc n)))
          → (a : Answer) → handler n ≡ a
          → Agrees handler wakes cfg.max_attempts n (attempts handler wakes cfg (suc fuel) n)
      choose next done e =
          rw (e, attempts) (_, 1, handled_ok, refl, succeeds e, refl, refl, inr refl)
      choose next permanent e =
          rw (e, attempts) (_, 1, failed, refl, fails (inl e), refl, refl, inr refl)
      choose next panicked e =
          rw (e, attempts) (_, 1, failed, refl, fails (inr e), refl, refl, inr refl)
      choose next transient e = elim (Bool-cases (leb_ℤ cfg.max_attempts (pos (suc n)))) [
        | inl last ↦
            rw (e, attempts, last)
              (_, 1, exhausted, refl, gives_up e (ground arith), refl, refl, inr refl)
        | inr more ↦ elim (Bool-cases (wakes n)) [
          | inr interrupts ↦
              rw (e, attempts, more, interrupts)
                (_, 1, interrupted, refl, stops e (ground arith) interrupts, refl, refl, inr refl)
          | inl wakes_ ↦
              let (o, calls, ending, ran, ends, left, count, few) =
                next (ground arith) (ground arith) in
              rw (e, attempts, more, wakes_, ran)
                (
                  _,
                  suc calls,
                  ending,
                  refl,
                  retries e (ground arith) wakes_ ends,
                  Leaves-retried ending o _ refl left,
                  ap suc count,
                  inl (ground arith),
                )
        ]
      ]

  -- With a positive number of attempts process always comes to an end, in at most as many
  -- attempts as are configured, each counted once: at the first that succeeds, fails for good or
  -- panics, at the last one, or at a wait that the context ends; an event that has failed, and
  -- only such an event, is dead-lettered, once.
  pub process_lem :
      pos 1 ≤ℤ cfg.max_attempts
      → (o : Outcome) × (calls : ℕ) × (e : Ending) × (process handler wakes cfg ≡ some o)
        × Ends handler wakes cfg.max_attempts 0 calls e
        × Leaves e o
        × (length o.handled ≡ calls)
        × (pos calls ≤ℤ cfg.max_attempts)
  unfolding process rounds Agrees
  process_lem positive = choose cfg.max_attempts refl
    where
      choose :
          (m : ℤ)
          → cfg.max_attempts ≡ m
          → (o : Outcome) × (calls : ℕ) × (e : Ending) × (process handler wakes cfg ≡ some o)
            × Ends handler wakes cfg.max_attempts 0 calls e
            × Leaves e o
            × (length o.handled ≡ calls)
            × (pos calls ≤ℤ cfg.max_attempts)
      choose (negsuc m) same = absurd (ground arith)
      choose (pos m) same =
          let (o, calls, e, ran, ends, left, count, few) =
            attempts-Agrees (suc m) 0 (omega arith) (ground arith) in
          (
            o,
            calls,
            e,
            ap (λ x. attempts handler wakes cfg (rounds x) 0) same ∙ ran,
            ends,
            left,
            count,
            ground arith,
          )
