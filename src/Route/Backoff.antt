-- ===== src/Route/Backoff.antt =====
-- The wait between two attempts.
use jetstream_router.Common.{ℕ, ◌*◌, ◌^◌, ◌≤◌, ◌≡◌, ap, ◌∙◌, if◌then◌else◌, ltb, arith}
use jetstream_router.Common.Int.{ℤ, pos, ◌≤ℤ◌, mul64, wrap, wrap_lem, ◌*ℤ◌}
use native.Mathlib.Nat.{pow-le-pow_right, mul-le-mul}
use jetstream_router.Route.{shift, backoff}

pow_bound : (n : ℕ) → n ≤ 30 → 2 ^ n ≤ 2 ^ 30
pow_bound n h = pow-le-pow_right (omega arith) h

product_lem : (a b : ℕ) → pos a *ℤ pos b ≡ pos (a * b)
unfolding ◌*ℤ◌
product_lem a b = ground arith

-- For a base of at most five seconds and up to thirty-one attempts, the wait after an attempt is
-- the base doubled as often as there were attempts before it, cut off at five seconds.
pub backoff_lem :
    (base n : ℕ)
    → base ≤ 5000000000
    → n ≤ 30
    → backoff (pos base) n
      ≡ pos (if ltb 5000000000 (base * 2 ^ n) then 5000000000 else base * 2 ^ n)
unfolding backoff shift mul64
backoff_lem base n b h =
    let small = pow_bound n h in
    let shifted : shift n ≡ pos (2 ^ n) = ground arith in
    let product : base * 2 ^ n ≤ 5000000000 * 2 ^ 30 = mul-le-mul b small in
    let times : mul64 (pos base) (pos (2 ^ n)) ≡ pos (base * 2 ^ n) =
      ap wrap (product_lem base (2 ^ n)) ∙ wrap_lem (pos (base * 2 ^ n)) (ground arith) in
    rw (shifted, backoff, times) (ground arith)

-- Whatever the base and the attempt, the wait is at most five seconds.
pub backoff_bound : (base : ℤ) (n : ℕ) → backoff base n ≤ℤ pos 5000000000
unfolding backoff
backoff_bound base n = ground arith
