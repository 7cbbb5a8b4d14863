-- ===== src/PathMatch/Total.antt =====
-- The fuel of each loop suffices: `path_match` never runs out of it.
use jetstream_router.Common.{
  ℕ, zero, suc, ◌+◌, ◌≤◌, ◌<◌, ◌≡◌, ◌⊎◌, refl, Bool, true, false, not, ◌&&◌, Option, none, some, [],
  ◌∷◌, length, Result, ok, err, ◌>>=◌, arith, eqb, Bool-cases, Option-cases, inl, inr,
}
use jetstream_router.Common.Str.{Str}
use jetstream_router.PathMatch.{
  MatchError, bad_pattern, out_of_fuel, take_rune, after_escape, get_esc, range_end, closes, ranges,
  negation, Round, class_round, any_round, byte_round, escape_round, round, is_nil, chunk_from,
  match_chunk, strip_stars, scan, in_range, scan_chunk, skip, advance, check_rest, match_from,
  path_match,
}
use jetstream_router.PathMatch.Rune.{decode_rune, length-decode_rune}

-- The fuel was enough, and what is returned has at most the given size.
abbrev pub Bounded {ℓ} : {A : Type ℓ} → (A → ℕ) → ℕ → Result MatchError A → Type 0
Bounded size n (ok a) = size a ≤ n
Bounded size n (err bad_pattern) = Unit
Bounded size n (err out_of_fuel) = ⊥

bind-Bounded {ℓ κ} :
    {A : Type ℓ} {B : Type κ} (size : A → ℕ) (size' : B → ℕ) (n k : ℕ) (m : Result MatchError A)
    (f : A → Result MatchError B)
    → Bounded size n m
    → ((a : A) → size a ≤ n → Bounded size' k (f a))
    → Bounded size' k (m >>= f)
bind-Bounded size size' n k (ok a) f h g = g a h
bind-Bounded size size' n k (err bad_pattern) f h g = tt
bind-Bounded size size' n k (err out_of_fuel) f h g = h

abbrev rest_size {ℓ} : {A : Type ℓ} → A × Str → ℕ
rest_size p = length p.1

take_rune-Bounded :
    (r : ℕ) (invalid : Bool) (s : Str) → Bounded rest_size (length s) (take_rune (r, invalid, s))
unfolding take_rune
take_rune-Bounded r invalid [] = tt
take_rune-Bounded r true (c ∷ s) = tt
take_rune-Bounded r false (c ∷ s) = omega arith

after_escape-Bounded : (s : Str) (n : ℕ) → length s ≤ suc n → Bounded rest_size n (after_escape s)
unfolding after_escape
after_escape-Bounded [] n h = tt
after_escape-Bounded (c ∷ s) n h =
    weaken _ (length-decode_rune c s) (take_rune-Bounded _ _ (decode_rune (c ∷ s)).2)
  where
    weaken :
        (r : Result MatchError (ℕ × Str))
        → length (decode_rune (c ∷ s)).2 ≤ length s
        → Bounded rest_size (length (decode_rune (c ∷ s)).2) r
        → Bounded rest_size n r
    weaken (ok a) le b = omega arith
    weaken (err bad_pattern) le b = tt
    weaken (err out_of_fuel) le b = b

get_esc-Bounded : (s : Str) (n : ℕ) → length s ≤ suc n → Bounded rest_size n (get_esc s)
unfolding get_esc
get_esc-Bounded [] n h = tt
get_esc-Bounded (c ∷ s) n h =
    ground (arith, after_escape-Bounded (c ∷ s) n, after_escape-Bounded s n)

range_end-Bounded : (lo : ℕ) (s : Str) (n : ℕ) → length s ≤ n → Bounded rest_size n (range_end lo s)
unfolding range_end
range_end-Bounded lo [] n h = omega arith
range_end-Bounded lo (c ∷ s) n h = ground (arith, get_esc-Bounded s n)

closes-lt : (n : ℕ) (s rest : Str) → closes n s ≡ some rest → length rest ≤ length s
unfolding closes
closes-lt n [] rest h = cc
closes-lt n (c ∷ s) rest h = ground arith

ranges-Bounded :
    (fuel r : ℕ) (found : Bool) (n : ℕ) (s : Str) (k : ℕ)
    → length s < fuel
    → length s ≤ k
    → Bounded rest_size k (ranges fuel r found n s)
unfolding ranges
ranges-Bounded zero r found n s k h le = elim h [ ]
ranges-Bounded (suc fuel) r found n [] k h le = tt
ranges-Bounded (suc fuel) r found n (c ∷ s) k h le = elim (Option-cases (closes n (c ∷ s))) [
  | inl more ↦
      rw (more, ranges)
        (bind-Bounded rest_size rest_size (length s) k (get_esc (c ∷ s)) _
          (get_esc-Bounded (c ∷ s) (length s) (omega arith))
          (λ (lo, s') h'.
            bind-Bounded rest_size rest_size (length s) k (range_end lo s') _
              (range_end-Bounded lo s' (length s) h')
              (λ (hi, s'') h''. ranges-Bounded fuel r _ (n + 1) s'' k (omega arith) (omega arith))))
  | inr (rest, done) ↦ rw (done, ranges) (omega (arith, closes-lt n (c ∷ s) rest done))
]

negation-le : (s : Str) → length (negation s).1 ≤ length s
unfolding negation
negation-le [] = omega arith
negation-le (c ∷ s) = ground arith

abbrev round_size : Round → ℕ
round_size x = length x.0

class_round-Bounded :
    (s : Str) (failed : Bool) (name : Str)
    → Bounded round_size (length s) (class_round s failed name)
unfolding class_round
class_round-Bounded s failed name =
    bind-Bounded rest_size round_size (length s) (length s) _ _
      (ranges-Bounded (suc (length (negation s).1)) _ false 0 (negation s).1 (length s)
        (omega arith) (negation-le s))
      (λ (found, s') h. h)

round-Bounded :
    (c : ℕ) (s : Str) (failed : Bool) (name : Str)
    → Bounded round_size (length s) (round c s failed name)
unfolding round
round-Bounded c s failed name = ground (
  arith,
  class_round-Bounded s failed name,
  any-le s failed name,
  escape-le s failed name,
  byte-le s failed name,
)
  where
    any-le : (s : Str) (failed : Bool) (name : Str) → length (any_round s failed name).0 ≤ length s
    any-le s true name = omega arith
    any-le s false [] = omega arith
    any-le s false (b ∷ name) = omega arith

    byte-le :
        (s : Str) (failed : Bool) (name : Str) → length (byte_round c s failed name).0 ≤ length s
    byte-le s true name = omega arith
    byte-le s false [] = omega arith
    byte-le s false (b ∷ name) = omega arith

    escape-le :
        (s : Str) (failed : Bool) (name : Str)
        → Bounded round_size (length s) (escape_round s failed name)
    escape-le [] failed name = tt
    escape-le (d ∷ s) true name = omega arith
    escape-le (d ∷ s) false [] = omega arith
    escape-le (d ∷ s) false (b ∷ name) = omega arith

abbrev no_size {ℓ} : {A : Type ℓ} → A → ℕ
no_size a = 0

chunk_from-Bounded :
    (fuel : ℕ) (chunk : Str) (failed : Bool) (name : Str)
    → length chunk < fuel
    → Bounded no_size 0 (chunk_from fuel chunk failed name)
unfolding chunk_from
chunk_from-Bounded zero chunk failed name h = elim h [ ]
chunk_from-Bounded (suc fuel) [] failed name h = omega arith
chunk_from-Bounded (suc fuel) (c ∷ chunk) failed name h =
    bind-Bounded round_size no_size (length chunk) 0 _ _ (round-Bounded c chunk _ name)
      (λ (chunk', failed', name') h'. chunk_from-Bounded fuel chunk' failed' name' (omega arith))

pub match_chunk-Bounded :
    (chunk name : Str) → Bounded {A = Str × Bool} no_size 0 (match_chunk chunk name)
unfolding match_chunk
match_chunk-Bounded chunk name =
    chunk_from-Bounded (suc (length chunk)) chunk false name (omega arith)

strip_stars-le : (p : Str) → length (strip_stars p).1 ≤ length p
unfolding strip_stars
strip_stars-le [] = omega arith
strip_stars-le (c ∷ p) = ground (arith, strip_stars-le p)

scan-le : (escaped inside : Bool) (p : Str) → length (scan escaped inside p).1 ≤ length p
unfolding scan
scan-le escaped inside [] = omega arith
scan-le escaped inside (c ∷ p) =
    ground (arith, scan-le (not escaped && eqb c 0x5c) (in_range escaped inside c) p)

-- A scan takes at least one byte off the pattern.
pub scan_chunk-le : (c : ℕ) (p : Str) → length (scan_chunk (c ∷ p)).2 ≤ length p
unfolding scan_chunk
scan_chunk-le c p = elim (Bool-cases (eqb c b'*')) [
  | inl star ↦
      rw (star, scan_chunk, strip_stars)
        (omega (arith, strip_stars-le p, scan-le false false (strip_stars p).1))
  | inr plain ↦
      rw (plain, scan_chunk, strip_stars, scan, plain)
        (scan-le (eqb c 0x5c) (in_range false false c) p)
]

skip-Bounded : (chunk rest name : Str) → Bounded {A = Option Str} no_size 0 (skip chunk rest name)
unfolding skip
skip-Bounded chunk rest [] = omega arith
skip-Bounded chunk rest (b ∷ name) =
    ground (arith, match_chunk-Bounded chunk name, skip-Bounded chunk rest name)

advance-Bounded :
    (star : Bool) (chunk rest name : Str)
    → Bounded {A = Option Str} no_size 0 (advance star chunk rest name)
unfolding advance
advance-Bounded star chunk rest name =
    ground (arith, match_chunk-Bounded chunk name, skip-Bounded chunk rest name)

check_rest-Bounded :
    (fuel : ℕ) (p : Str) → length p < fuel → Bounded {A = Bool} no_size 0 (check_rest fuel p)
unfolding check_rest
check_rest-Bounded zero p h = elim h [ ]
check_rest-Bounded (suc fuel) [] h = omega arith
check_rest-Bounded (suc fuel) (c ∷ p) h =
    let (_, chunk, rest) = scan_chunk (c ∷ p) in
    bind-Bounded no_size no_size 0 0 (match_chunk chunk []) _ (match_chunk-Bounded chunk [])
      (λ _ _. check_rest-Bounded fuel rest (omega (arith, scan_chunk-le c p)))

match_from-Bounded :
    (fuel : ℕ) (p name : Str)
    → length p < fuel
    → Bounded {A = Bool} no_size 0 (match_from fuel p name)
unfolding match_from
match_from-Bounded zero p name h = elim h [ ]
match_from-Bounded (suc fuel) [] name h = omega arith
match_from-Bounded (suc fuel) (c ∷ p) name h =
    let (star, chunk, rest) = scan_chunk (c ∷ p) in
    let shorter : length rest < fuel = omega (arith, scan_chunk-le c p) in
    elim (Bool-cases (star && is_nil chunk)) [
      | inl done ↦ rw (done, match_from) (omega arith)
      | inr more ↦
          rw (more, match_from)
            (bind-Bounded no_size no_size 0 0 (advance star chunk rest name) _
              (advance-Bounded star chunk rest name)
              (elim [
                | some t ↦ λ _. match_from-Bounded fuel rest t shorter
                | none ↦ λ _. check_rest-Bounded fuel rest shorter
              ]))
    ]

-- The matcher always ends: on every pattern and name it answers, or reports a bad pattern.
pub path_match_total :
    (pattern name : Str)
    → ((b : Bool) × (path_match pattern name ≡ ok b)) ⊎ (path_match pattern name ≡ err bad_pattern)
unfolding path_match
path_match_total pattern name =
    answers (path_match pattern name)
      (match_from-Bounded (suc (length pattern)) pattern name (omega arith))
  where
    answers :
        (r : Result MatchError Bool)
        → Bounded no_size 0 r
        → ((b : Bool) × (r ≡ ok b)) ⊎ (r ≡ err bad_pattern)
    answers (ok b) h = inl (b, refl)
    answers (err bad_pattern) h = inr refl
    answers (err out_of_fuel) h = absurd h
