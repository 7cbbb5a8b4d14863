-- ===== src/PathMatch/Chunks.antt =====
-- Whether a chunk of a pattern is malformed does not depend on the name.
use jetstream_router.Common.{
  ℕ, zero, suc, ◌+◌, ◌≡◌, ◌⊎◌, refl, subst, Bool, true, false, ◌||◌, [], ◌∷◌, length, Result, ok,
  err, ◌>>=◌, eqb, if◌then◌else◌, Bool-cases, Option-cases, inl, inr,
}
use jetstream_router.Common.Str.{Str}
use jetstream_router.PathMatch.{
  MatchError, fails, get_esc, range_end, closes, ranges, negation, same, Round, class_round,
  any_round, byte_round, escape_round, round, chunk_from, match_chunk,
}
use jetstream_router.PathMatch.Rune.{decode_rune}

pub Result-cases {ℓ} :
    {A : Type ℓ} (r : Result MatchError A)
    → ((a : A) × (r ≡ ok a)) ⊎ ((e : MatchError) × (r ≡ err e))
Result-cases (ok a) = inl (a, refl)
Result-cases (err e) = inr (e, refl)

abbrev pub rest_of {ℓ} : {A : Type ℓ} → Result MatchError (A × Str) → Result MatchError Str
rest_of (ok (a, s)) = ok s
rest_of (err e) = err e

ranges-rest :
    (fuel r r' : ℕ) (found found' : Bool) (n : ℕ) (s : Str)
    → rest_of (ranges fuel r found n s) ≡ rest_of (ranges fuel r' found' n s)
unfolding ranges
ranges-rest zero r r' found found' n s = refl
ranges-rest (suc fuel) r r' found found' n s = elim (Option-cases (closes n s)) [
  | inr (rest, done) ↦ rw (done, ranges)
  | inl more ↦ elim (Result-cases (get_esc s)) [
    | inr (e, bad) ↦ rw (more, ranges, bad)
    | inl ((lo, s'), low) ↦ elim (Result-cases (range_end lo s')) [
      | inr (e, bad) ↦ rw (more, ranges, low, bad)
      | inl ((hi, s''), high) ↦ rw (more, ranges, low, high) (ranges-rest fuel r r' _ _ (n + 1) s'')
    ]
  ]
]

abbrev chunk_of : Result MatchError Round → Result MatchError Str
chunk_of (ok (chunk, failed, s)) = ok chunk
chunk_of (err e) = err e

class_round-chunk :
    (s : Str) (failed failed' : Bool) (name name' : Str)
    → chunk_of (class_round s failed name) ≡ chunk_of (class_round s failed' name')
unfolding class_round
class_round-chunk s failed failed' name name' =
    let (negated, s') = negation s in
    let fuel = suc (length s') in
    let r = (decode_rune name).0 in
    let r' = (decode_rune name').0 in
    lift (ranges fuel r false 0 s') (ranges fuel r' false 0 s') (λ b. failed || same b negated)
      (λ b. failed' || same b negated) (if failed then name else (decode_rune name).2)
      (if failed' then name' else (decode_rune name').2) (ranges-rest fuel r r' false false 0 s')
  where
    lift :
        (m m' : Result MatchError (Bool × Str)) (f f' : Bool → Bool) (t t' : Str)
        → rest_of m ≡ rest_of m'
        → chunk_of (m >>= λ (b, c). ok (c, f b, t)) ≡ chunk_of (m' >>= λ (b, c). ok (c, f' b, t'))
    lift (ok (b, c)) (ok (b', c')) f f' t t' e = e
    lift (err x) (err x') f f' t t' e = e
    lift (ok (b, c)) (err x') f f' t t' e = e
    lift (err x) (ok (b', c')) f f' t t' e = e

any_round-chunk : (s : Str) (failed : Bool) (name : Str) → (any_round s failed name).0 ≡ s
unfolding any_round
any_round-chunk s true name = refl
any_round-chunk s false [] = refl
any_round-chunk s false (b ∷ name) = refl

byte_round-chunk :
    (c : ℕ) (s : Str) (failed : Bool) (name : Str) → (byte_round c s failed name).0 ≡ s
unfolding byte_round
byte_round-chunk c s true name = refl
byte_round-chunk c s false [] = refl
byte_round-chunk c s false (b ∷ name) = refl

escape_round-chunk :
    (s : Str) (failed failed' : Bool) (name name' : Str)
    → chunk_of (escape_round s failed name) ≡ chunk_of (escape_round s failed' name')
unfolding escape_round
escape_round-chunk [] failed failed' name name' = refl
escape_round-chunk (c ∷ s) failed failed' name name' =
    rw (byte_round-chunk c s failed name, byte_round-chunk c s failed' name')

round-chunk :
    (c : ℕ) (s : Str) (failed failed' : Bool) (name name' : Str)
    → chunk_of (round c s failed name) ≡ chunk_of (round c s failed' name')
unfolding round
round-chunk c s failed failed' name name' = elim (Bool-cases (eqb c b'[')) [
  | inl class ↦ rw (class, round) (class_round-chunk s failed failed' name name')
  | inr e ↦ elim (Bool-cases (eqb c b'?')) [
    | inl any ↦ rw (e, round, any, any_round-chunk s failed name, any_round-chunk s failed' name')
    | inr e' ↦ elim (Bool-cases (eqb c 0x5c)) [
      | inl escape ↦ rw (e, round, e', escape) (escape_round-chunk s failed failed' name name')
      | inr plain ↦ rw (
        e,
        round,
        e',
        plain,
        byte_round-chunk c s failed name,
        byte_round-chunk c s failed' name',
      )
    ]
  ]
]

bind_round-fails :
    (m m' : Result MatchError Round) (f : Round → Result MatchError (Str × Bool))
    → chunk_of m ≡ chunk_of m'
    → ((chunk : Str) (failed failed' : Bool) (name name' : Str)
        → fails (f (chunk, failed, name)) ≡ fails (f (chunk, failed', name')))
    → fails (m >>= f) ≡ fails (m' >>= f)
bind_round-fails (ok (c, g, s)) (ok (c', g', s')) f e h =
    let same_chunk : c ≡ c' = cc in
    subst (λ x. fails (f (c, g, s)) ≡ fails (f (x, g', s'))) same_chunk (h c g g' s s')
bind_round-fails (err x) (err x') f e h = refl
bind_round-fails (ok (c, g, s)) (err x') f e h = cc
bind_round-fails (err x) (ok (c', g', s')) f e h = cc

chunk_from-fails :
    (fuel : ℕ) (chunk : Str) (failed failed' : Bool) (name name' : Str)
    → fails (chunk_from fuel chunk failed name) ≡ fails (chunk_from fuel chunk failed' name')
unfolding chunk_from
chunk_from-fails zero chunk failed failed' name name' = refl
chunk_from-fails (suc fuel) [] failed failed' name name' = refl
chunk_from-fails (suc fuel) (c ∷ chunk) failed failed' name name' =
    bind_round-fails (round c chunk _ name) (round c chunk _ name') _
      (round-chunk c chunk _ _ name name')
      (λ chunk' g g' s s'. chunk_from-fails fuel chunk' g g' s s')

pub match_chunk-fails :
    (chunk name name' : Str) → fails (match_chunk chunk name) ≡ fails (match_chunk chunk name')
unfolding match_chunk
match_chunk-fails chunk name name' =
    chunk_from-fails (suc (length chunk)) chunk false false name name'
