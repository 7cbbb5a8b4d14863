-- ===== src/Cursor/Advance.antt =====
-- `Advance` only moves forward.
use jetstream_router.Common.{
  ◌≡◌, ◌⊎◌, refl, sym, subst, true, List, [], ◌∷◌, Has, arith, Bool-cases, inl, inr,
}
use jetstream_router.Common.Int.{ℤ, pos, negsuc, ◌≤ℤ◌, leb_ℤ}
use jetstream_router.Cursor.{Cursor, swap, advance, eqb_ℤ}

pub eqb_ℤ-≡ : (a b : ℤ) → eqb_ℤ a b ≡ true → a ≡ b
eqb_ℤ-≡ (pos a) (pos b) h = ground arith
eqb_ℤ-≡ (pos a) (negsuc b) h = ground arith
eqb_ℤ-≡ (negsuc a) (pos b) h = ground arith
eqb_ℤ-≡ (negsuc a) (negsuc b) h = ground arith

-- What the rounds find only grows: nobody else moves the cursor back.
abbrev pub Grows : ℤ → List ℤ → Type 0
Grows cur [] = Unit
Grows cur (found ∷ rest) = (cur ≤ℤ found) × Grows found rest

-- A position that is as far as both, and one that was given or found.
abbrev Ahead : ℤ → ℤ → List ℤ → ℤ → Type 0
Ahead time_us cur found v = (time_us ≤ℤ v) × (cur ≤ℤ v) × ((v ≡ time_us) ⊎ Has v (cur ∷ found))

swap_lem :
    (time_us cur : ℤ) (found : List ℤ)
    → Grows cur found
    → Ahead time_us cur found (swap time_us cur found)
unfolding swap
swap_lem time_us cur [] h = elim (Bool-cases (leb_ℤ time_us cur)) [
  | inl behind ↦ rw (behind, swap) (ground arith, ground arith, inr (inl refl))
  | inr ahead ↦ rw (ahead, swap) (ground arith, ground arith, inl refl)
]
swap_lem time_us cur (found ∷ rest) h =
    let (a, b, c) = swap_lem time_us found rest h.1 in
    elim (Bool-cases (leb_ℤ time_us cur)) [
      | inl behind ↦ rw (behind, swap) (ground arith, ground arith, inr (inl refl))
      | inr ahead ↦ elim (Bool-cases (eqb_ℤ found cur)) [
        | inl same ↦ rw (ahead, swap, same) (ground arith, ground arith, inl refl)
        | inr other ↦
            let next : swap time_us cur (found ∷ rest) ≡ swap time_us found rest =
              rw (ahead, swap, other) refl in
            subst (Ahead time_us cur (found ∷ rest)) (sym next)
              (a, ground (arith, h.0, b), elim c [ inl e ↦ inl e | inr p ↦ inr (inr p) ])
      ]
    ]

-- Whatever others store while Advance retries, as long as they only move forward, the cursor ends
-- at the given position or further, never before where it was, and at a position that was given
-- or found; a position that is not positive is ignored, and what is committed is kept.
pub advance_lem :
    (found : List ℤ) (time_us : ℤ) (c : Cursor)
    → Grows c.latest found
    → (c.latest ≤ℤ (advance found time_us c).latest)
      × (pos 1 ≤ℤ time_us → time_us ≤ℤ (advance found time_us c).latest)
      × (((advance found time_us c).latest ≡ time_us)
          ⊎ Has (advance found time_us c).latest (c.latest ∷ found))
      × ((advance found time_us c).committed ≡ c.committed)
      × (time_us ≤ℤ pos 0 → advance found time_us c ≡ c)
unfolding advance
advance_lem found time_us c h =
    let (a, b, from) = swap_lem time_us c.latest found h in
    elim (Bool-cases (leb_ℤ time_us (pos 0))) [
      | inl ignored ↦
          rw (ignored, advance) (ground arith, λ p. ground arith, inr (inl refl), refl, λ _. refl)
      | inr counts ↦
          let next : advance found time_us c ≡ record c { latest = swap time_us c.latest found } =
            rw (counts, advance) refl in
          subst
            (λ x.
              (c.latest ≤ℤ x.latest)
              × (pos 1 ≤ℤ time_us → time_us ≤ℤ x.latest)
              × ((x.latest ≡ time_us) ⊎ Has x.latest (c.latest ∷ found))
              × (x.committed ≡ c.committed)
              × (time_us ≤ℤ pos 0 → x ≡ c))
            (sym next) (b, λ _. a, from, refl, λ below. absurd (ground (arith, counts, below)))
    ]
