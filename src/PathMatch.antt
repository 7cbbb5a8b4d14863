-- ===== src/PathMatch.antt =====
-- `path.Match` of Go's standard library, which internal/routing/routing.go calls to validate and
-- to match a collection glob. A pattern and a name are bytes; `?` and a class read one UTF-8
-- character. Each loop that shortens the pattern takes fuel, and running out of it is an outcome
-- of its own.
pub mod Rune
pub mod Total
pub mod Chunks
pub mod Validity
pub mod Literal
use jetstream_router.Common.{
  ℕ, zero, suc, ◌+◌, Bool, true, false, not, ◌&&◌, ◌||◌, Option, none, some, List, [], ◌∷◌, length,
  Result, ok, err, ◌>>=◌, if◌then◌else◌, ltb, leb, eqb,
}
use jetstream_router.Common.Str.{Str, ◌==◌}
use Rune.{decode_rune}

pub data MatchError : Type 0 where
  bad_pattern out_of_fuel : MatchError

-- `err != nil`
abbrev pub fails {ℓ} : {A : Type ℓ} → Result MatchError A → Bool
fails (ok a) = false
fails (err e) = true

-- `getEsc`: a character of a class, and what follows it.
unfoldable pub take_rune : ℕ × Bool × Str → Result MatchError (ℕ × Str)
take_rune (r, invalid, []) = err bad_pattern
take_rune (r, invalid, (c ∷ s)) = if invalid then err bad_pattern else ok (r, c ∷ s)

unfoldable pub after_escape : Str → Result MatchError (ℕ × Str)
unfolding take_rune
after_escape [] = err bad_pattern
after_escape (c ∷ s) = take_rune (decode_rune (c ∷ s))

unfoldable pub get_esc : Str → Result MatchError (ℕ × Str)
unfolding after_escape
get_esc [] = err bad_pattern
get_esc (c ∷ s) =
    if eqb c b'-' || eqb c b']'
    then err bad_pattern
    else (if eqb c 0x5c then after_escape s else after_escape (c ∷ s))

-- The upper end of a range, `lo` if there is none.
unfoldable pub range_end : ℕ → Str → Result MatchError (ℕ × Str)
unfolding get_esc
range_end lo [] = ok (lo, [])
range_end lo (c ∷ s) = if eqb c b'-' then get_esc s else ok (lo, c ∷ s)

-- The class's closing bracket, which counts only after the first range.
unfoldable pub closes : ℕ → Str → Option Str
closes n [] = none
closes n (c ∷ s) = if eqb c b']' && ltb 0 n then some s else none

-- The loop over the ranges of a class: whether `r` is in one, and the rest of the pattern.
unfoldable pub ranges : ℕ → ℕ → Bool → ℕ → Str → Result MatchError (Bool × Str)
unfolding closes range_end get_esc
ranges zero r found n chunk = err out_of_fuel
ranges (suc fuel) r found n chunk = elim (closes n chunk) [
  | some rest ↦ ok (found, rest)
  | none ↦ do
    (lo, chunk') ← get_esc chunk
    (hi, chunk'') ← range_end lo chunk'
    ranges fuel r (found || leb lo r && leb r hi) (n + 1) chunk''
]

unfoldable pub negation : Str → Bool × Str
negation [] = (false, [])
negation (c ∷ s) = if eqb c b'^' then (true, s) else (false, c ∷ s)

abbrev pub same : Bool → Bool → Bool
same true b = b
same false b = not b

-- One round of `matchChunk`: the pattern, `failed` and the name after it.
abbrev pub Round : Type 0
Round = Str × Bool × Str

unfoldable pub class_round : Str → Bool → Str → Result MatchError Round
unfolding ranges negation
class_round chunk failed s =
    let (r, _, s') = decode_rune s in
    let (negated, chunk') = negation chunk in
    do
      (found, chunk'') ← ranges (suc (length chunk')) r false 0 chunk'
      ok (chunk'', failed || same found negated, if failed then s else s')

unfoldable pub any_round : Str → Bool → Str → Round
any_round chunk true s = (chunk, true, s)
any_round chunk false [] = (chunk, true, [])
any_round chunk false (b ∷ s) = let (_, _, s') = decode_rune (b ∷ s) in (chunk, eqb b b'/', s')

unfoldable pub byte_round : ℕ → Str → Bool → Str → Round
byte_round c chunk true s = (chunk, true, s)
byte_round c chunk false [] = (chunk, true, [])
byte_round c chunk false (b ∷ s) = (chunk, not (eqb c b), s)

unfoldable pub escape_round : Str → Bool → Str → Result MatchError Round
unfolding byte_round
escape_round [] failed s = err bad_pattern
escape_round (c ∷ chunk) failed s = ok (byte_round c chunk failed s)

unfoldable pub round : ℕ → Str → Bool → Str → Result MatchError Round
unfolding class_round any_round byte_round escape_round
round c chunk failed s =
    if eqb c b'['
    then class_round chunk failed s
    else (if eqb c b'?'
        then ok (any_round chunk failed s)
        else (if eqb c 0x5c then escape_round chunk failed s else ok (byte_round c chunk failed s)))

abbrev pub is_nil : Str → Bool
is_nil [] = true
is_nil (_ ∷ _) = false

-- The loop of `matchChunk`: the rest of the name, and whether the chunk matched.
unfoldable pub chunk_from : ℕ → Str → Bool → Str → Result MatchError (Str × Bool)
unfolding round
chunk_from zero chunk failed s = err out_of_fuel
chunk_from (suc fuel) [] failed s = ok (if failed then [] else s, not failed)
chunk_from (suc fuel) (c ∷ chunk) failed s = do
  (chunk', failed', s') ← round c chunk (failed || is_nil s) s
  chunk_from fuel chunk' failed' s'

unfoldable pub match_chunk : Str → Str → Result MatchError (Str × Bool)
unfolding chunk_from
match_chunk chunk s = chunk_from (suc (length chunk)) chunk false s

-- `scanChunk`: the stars in front, the chunk up to the next star outside a class, and the rest.
unfoldable pub strip_stars : Str → Bool × Str
strip_stars [] = (false, [])
strip_stars (c ∷ p) =
    let (_, rest) = strip_stars p in if eqb c b'*' then (true, rest) else (false, c ∷ p)

abbrev pub in_range : Bool → Bool → ℕ → Bool
in_range true inside c = inside
in_range false inside c = eqb c b'[' || not (eqb c b']') && inside

unfoldable pub scan : Bool → Bool → Str → Str × Str
scan escaped inside [] = ([], [])
scan escaped inside (c ∷ p) =
    let (chunk, rest) = scan (not escaped && eqb c 0x5c) (in_range escaped inside c) p in
    if not escaped && eqb c b'*' && not inside then ([], c ∷ p) else (c ∷ chunk, rest)

unfoldable pub scan_chunk : Str → Bool × Str × Str
unfolding strip_stars scan
scan_chunk p =
    let (star, p') = strip_stars p in let (chunk, rest) = scan false false p' in (star, chunk, rest)

unfoldable pub has_slash : Str → Bool
has_slash [] = false
has_slash (b ∷ s) = eqb b b'/' || has_slash s

-- Where to go on, if the chunk matched: not with a name left over after the last chunk.
abbrev pub usable : Str → Str × Bool → Option Str
usable rest (t, matched) = if matched && (is_nil t || not (is_nil rest)) then some t else none

-- The loop that skips bytes of the name under a star.
unfoldable pub skip : Str → Str → Str → Result MatchError (Option Str)
skip chunk rest [] = ok none
skip chunk rest (b ∷ s) = elim (eqb b b'/') [
  | true ↦ ok none
  | false ↦ do
    here ← match_chunk chunk s
    elim (usable rest here) [ some t ↦ ok (some t) | none ↦ skip chunk rest s ]
]

unfoldable pub advance : Bool → Str → Str → Str → Result MatchError (Option Str)
advance star chunk rest name = do
  here ← match_chunk chunk name
  elim (usable rest here) [
    | some t ↦ ok (some t)
    | none ↦ if star then skip chunk rest name else ok none
  ]

-- The loop that checks the remaining chunks once the match has failed.
unfoldable pub check_rest : ℕ → Str → Result MatchError Bool
check_rest zero p = err out_of_fuel
check_rest (suc fuel) [] = ok false
check_rest (suc fuel) (c ∷ p) =
    let (_, chunk, rest) = scan_chunk (c ∷ p) in do _ ← match_chunk chunk []; check_rest fuel rest

unfoldable pub match_from : ℕ → Str → Str → Result MatchError Bool
match_from zero p name = err out_of_fuel
match_from (suc fuel) [] name = ok (is_nil name)
match_from (suc fuel) (c ∷ p) name =
    let (star, chunk, rest) = scan_chunk (c ∷ p) in
    elim (star && is_nil chunk) [
      | true ↦ ok (not (has_slash name))
      | false ↦ do
        next ← advance star chunk rest name
        elim next [ some t ↦ match_from fuel rest t | none ↦ check_rest fuel rest ]
    ]

unfoldable pub path_match : Str → Str → Result MatchError Bool
path_match pattern name = match_from (suc (length pattern)) pattern name
