-- ===== src/Ingest/Delay.antt =====
-- How long `Run` waits before it connects again.
use jetstream_router.Common.{
  ℕ, zero, suc, ◌*◌, ◌^◌, ◌≤◌, ◌≡◌, refl, true, none, some, if◌then◌else◌, leb, arith, Bool-cases,
  inl, inr,
}
use jetstream_router.Common.Int.{ℤ, pos, negsuc, ◌≤ℤ◌, ◌<ℤ◌, ltb_ℤ, leb_ℤ, -ℤ_parts, ◌-ℤ◌}
use jetstream_router.Ingest.{Config, longest_delay, delay}

-- The documented range of `rand.Int63n`.
abbrev pub IsJitter : (ℤ → ℤ) → Type 0
IsJitter jitter = (n : ℤ) → pos 1 ≤ℤ n → (pos 0 ≤ℤ jitter n) × (jitter n <ℤ n)

powers :
    (attempt : ℕ)
    → (2 ^ (if leb attempt 6 then attempt else 6) ≤ 64)
      × (attempt ≤ 6 → 2 ^ (if leb attempt 6 then attempt else 6) ≡ 2 ^ attempt)
powers attempt = elim (Bool-cases (leb attempt 6)) [
  | inl small ↦ rw small (low attempt small, λ _. refl)
  | inr large ↦ rw large (omega arith, λ h. ground arith)
]
  where
    low : (n : ℕ) → leb n 6 ≡ true → 2 ^ n ≤ 64
    low zero h = omega arith
    low (suc zero) h = omega arith
    low (suc (suc zero)) h = omega arith
    low (suc (suc (suc zero))) h = omega arith
    low (suc (suc (suc (suc zero)))) h = omega arith
    low (suc (suc (suc (suc (suc zero))))) h = omega arith
    low (suc (suc (suc (suc (suc (suc zero)))))) h = omega arith
    low (suc (suc (suc (suc (suc (suc (suc n))))))) h = absurd (ground arith)

longest_delay_lem :
    (cfg : Config) (attempt : ℕ)
    → (longest_delay cfg attempt ≤ℤ cfg.backoff_max)
      × (longest_delay cfg attempt ≤ℤ pos 64000000000)
      × (attempt ≤ 6 → longest_delay cfg attempt ≤ℤ pos (2 ^ attempt * 1000000000))
      × (pos 0 ≤ℤ cfg.backoff_max → pos 0 ≤ℤ longest_delay cfg attempt)
unfolding longest_delay
longest_delay_lem cfg attempt =
    let (most, same) = powers attempt in
    let p : ℕ = 2 ^ (if leb attempt 6 then attempt else 6) in
    elim (Bool-cases (ltb_ℤ cfg.backoff_max (pos (p * 1000000000)))) [
      | inl cut ↦ rw cut (omega arith, ground (arith, most), λ h. ground (arith, same h), λ h. h)
      | inr whole ↦
          rw whole (ground arith, omega (arith, most), λ h. omega (arith, same h), λ h. omega arith)
    ]

-- Where rand.Int63n keeps to its range: with a limit that is negative the computation of the
-- delay panics; otherwise the delay is not negative and at most the limit, at most sixty-four
-- seconds, and at most two to the power of the attempt in seconds.
pub delay_lem :
    (jitter : ℤ → ℤ) (cfg : Config) (attempt : ℕ)
    → IsJitter jitter
    → (cfg.backoff_max <ℤ pos 0 → delay jitter cfg attempt ≡ none)
      × (pos 0 ≤ℤ cfg.backoff_max
          → (d : ℤ) × (delay jitter cfg attempt ≡ some d)
            × (pos 0 ≤ℤ d)
            × (d ≤ℤ cfg.backoff_max)
            × (d ≤ℤ pos 64000000000)
            × (attempt ≤ 6 → d ≤ℤ pos (2 ^ attempt * 1000000000)))
unfolding delay
delay_lem jitter cfg attempt range =
    let (limit, cap, power, low) = longest_delay_lem cfg attempt in
    let longest = longest_delay cfg attempt in
    let n = longest -ℤ negsuc 0 in
    let parts = -ℤ_parts longest (negsuc 0) in
    elim (Bool-cases (leb_ℤ n (pos 0))) [
      | inl none_ ↦ (λ negative. rw none_ refl, λ h. absurd (ground (arith, parts, low h)))
      | inr there ↦ (
        λ negative. absurd (ground (arith, parts, limit)),
        λ h.
            let (above, below) = range n (ground arith) in
            (
              jitter n,
              rw there refl,
              above,
              ground (arith, parts, below, limit),
              ground (arith, parts, below, cap),
              λ few. ground (arith, parts, below, power few),
            ),
      )
    ]
