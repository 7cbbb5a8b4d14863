-- ===== src/PathMatch/Rune.antt =====
-- `utf8.DecodeRuneInString` of Go's standard library: a character, whether it is an encoding
-- error, and the bytes that follow it.
use jetstream_router.Common.{
  ℕ, ◌+◌, ◌-◌, ◌*◌, ◌≤◌, Bool, true, false, ◌&&◌, [], ◌∷◌, length, if◌then◌else◌, ltb, leb, eqb,
  arith, ◌≡◌, ◌++◌, refl, Bool-cases, inl, inr,
}
use jetstream_router.Common.Str.{Str}

abbrev within : ℕ → ℕ → ℕ → Bool
within lo b hi = leb lo b && leb b hi

-- `RuneError` with width 1 (0 at the end of the text).
abbrev invalid : Str → ℕ × Bool × Str
invalid s = (0xfffd, true, s)

two_bytes : ℕ → Str → ℕ × Bool × Str
two_bytes b (c ∷ s) =
    if within 0x80 c 0xbf then ((b - 0xc0) * 64 + (c - 0x80), false, s) else invalid (c ∷ s)
two_bytes b [] = invalid []

three_bytes : ℕ → Str → ℕ × Bool × Str
three_bytes b (c ∷ d ∷ s) =
    if within (if eqb b 0xe0 then 0xa0 else 0x80) c (if eqb b 0xed then 0x9f else 0xbf)
      && within 0x80 d 0xbf
    then ((b - 0xe0) * 4096 + (c - 0x80) * 64 + (d - 0x80), false, s)
    else invalid (c ∷ d ∷ s)
three_bytes b s = invalid s

four_bytes : ℕ → Str → ℕ × Bool × Str
four_bytes b (c ∷ d ∷ e ∷ s) =
    if within (if eqb b 0xf0 then 0x90 else 0x80) c (if eqb b 0xf4 then 0x8f else 0xbf)
      && within 0x80 d 0xbf
      && within 0x80 e 0xbf
    then ((b - 0xf0) * 262144 + (c - 0x80) * 4096 + (d - 0x80) * 64 + (e - 0x80), false, s)
    else invalid (c ∷ d ∷ e ∷ s)
four_bytes b s = invalid s

unfoldable pub decode_rune : Str → ℕ × Bool × Str
unfolding two_bytes three_bytes four_bytes
decode_rune [] = invalid []
decode_rune (b ∷ s) =
    if ltb b 0x80
    then (b, false, s)
    else (if ltb b 0xc2
        then invalid s
        else (if ltb b 0xe0
            then two_bytes b s
            else (if ltb b 0xf0
                then three_bytes b s
                else (if ltb b 0xf5 then four_bytes b s else invalid s))))

two_bytes-le : (b : ℕ) (s : Str) → length (two_bytes b s).2 ≤ length s
unfolding two_bytes
two_bytes-le b [] = omega arith
two_bytes-le b (c ∷ s) = ground arith

three_bytes-le : (b : ℕ) (s : Str) → length (three_bytes b s).2 ≤ length s
unfolding three_bytes
three_bytes-le b (c ∷ d ∷ s) = ground arith
three_bytes-le b (c ∷ []) = omega arith
three_bytes-le b [] = omega arith

four_bytes-le : (b : ℕ) (s : Str) → length (four_bytes b s).2 ≤ length s
unfolding four_bytes
four_bytes-le b (c ∷ d ∷ e ∷ s) = ground arith
four_bytes-le b (c ∷ d ∷ []) = omega arith
four_bytes-le b (c ∷ []) = omega arith
four_bytes-le b [] = omega arith

-- A character takes at least one byte.
pub length-decode_rune : (b : ℕ) (s : Str) → length (decode_rune (b ∷ s)).2 ≤ length s
unfolding decode_rune
length-decode_rune b s = ground (arith, two_bytes-le b s, three_bytes-le b s, four_bytes-le b s)

-- A decoder that takes some bytes does so whatever follows them.
abbrev IsLocal : (Str → ℕ × Bool × Str) → Str → Type 0
IsLocal f s = (w : Str) × (s ≡ w ++ (f s).2) × ((t : Str) → f (w ++ t) ≡ ((f s).0, false, t))

two_bytes-IsLocal : (b : ℕ) (s : Str) → (two_bytes b s).1 ≡ false → IsLocal (two_bytes b) s
unfolding two_bytes
two_bytes-IsLocal b [] good = absurd cc
two_bytes-IsLocal b (c ∷ s) good = elim (Bool-cases (within 0x80 c 0xbf)) [
  | inl in_ ↦ rw (in_, two_bytes) (c ∷ [], refl, λ t. rw (in_, two_bytes) refl)
  | inr out ↦ absurd (cc (rw (out, two_bytes) at good))
]

three_bytes-IsLocal : (b : ℕ) (s : Str) → (three_bytes b s).1 ≡ false → IsLocal (three_bytes b) s
unfolding three_bytes
three_bytes-IsLocal b [] good = absurd cc
three_bytes-IsLocal b (c ∷ []) good = absurd cc
three_bytes-IsLocal b (c ∷ d ∷ s) good =
    elim (Bool-cases (
      within (if eqb b 0xe0 then 0xa0 else 0x80) c (if eqb b 0xed then 0x9f else 0xbf)
      && within 0x80 d 0xbf)) [
        | inl in_ ↦ rw (in_, three_bytes) (c ∷ d ∷ [], refl, λ t. rw (in_, three_bytes) refl)
        | inr out ↦ absurd (cc (rw (out, three_bytes) at good))
      ]

four_bytes-IsLocal : (b : ℕ) (s : Str) → (four_bytes b s).1 ≡ false → IsLocal (four_bytes b) s
unfolding four_bytes
four_bytes-IsLocal b [] good = absurd cc
four_bytes-IsLocal b (c ∷ []) good = absurd cc
four_bytes-IsLocal b (c ∷ d ∷ []) good = absurd cc
four_bytes-IsLocal b (c ∷ d ∷ e ∷ s) good =
    elim (Bool-cases (
      within (if eqb b 0xf0 then 0x90 else 0x80) c (if eqb b 0xf4 then 0x8f else 0xbf)
      && within 0x80 d 0xbf
      && within 0x80 e 0xbf)) [
        | inl in_ ↦ rw (in_, four_bytes) (c ∷ d ∷ e ∷ [], refl, λ t. rw (in_, four_bytes) refl)
        | inr out ↦ absurd (cc (rw (out, four_bytes) at good))
      ]

-- The bytes of a character that is no encoding error are decoded so whatever follows them.
pub decode_rune-IsLocal :
    (b : ℕ) (s : Str)
    → (decode_rune (b ∷ s)).1 ≡ false
    → (w : Str) × (s ≡ w ++ (decode_rune (b ∷ s)).2)
      × ((t : Str) → decode_rune (b ∷ w ++ t) ≡ ((decode_rune (b ∷ s)).0, false, t))
unfolding decode_rune
decode_rune-IsLocal b s good = elim (Bool-cases (ltb b 0x80)) [
  | inl one ↦ rw (one, decode_rune) ([], refl, λ t. refl)
  | inr e1 ↦ elim (Bool-cases (ltb b 0xc2)) [
    | inl none_ ↦ absurd (cc (rw (e1, none_, decode_rune) at good))
    | inr e2 ↦ elim (Bool-cases (ltb b 0xe0)) [
      | inl two ↦
          let (w, split, local) = two_bytes-IsLocal b s (rw (e1, e2, two, decode_rune) at good) in
          rw (e1, e2, two, decode_rune) (w, split, local)
      | inr e3 ↦ elim (Bool-cases (ltb b 0xf0)) [
        | inl three ↦
            let (w, split, local) =
              three_bytes-IsLocal b s (rw (e1, e2, e3, three, decode_rune) at good) in
            rw (e1, e2, e3, three, decode_rune) (w, split, local)
        | inr e4 ↦ elim (Bool-cases (ltb b 0xf5)) [
          | inl four ↦
              let (w, split, local) =
                four_bytes-IsLocal b s (rw (e1, e2, e3, e4, four, decode_rune) at good) in
              rw (e1, e2, e3, e4, four, decode_rune) (w, split, local)
          | inr e5 ↦ absurd (cc (rw (e1, e2, e3, e4, e5, decode_rune) at good))
        ]
      ]
    ]
  ]
]
