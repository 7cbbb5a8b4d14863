-- ===== src/PathMatch/Literal.antt =====
-- Patterns with no special byte, and such a pattern followed by a star: the two kinds of
-- collection that a routing table names.
use jetstream_router.Common.{
  ℕ, zero, suc, ◌<◌, ◌≡◌, ◌≢◌, ◌↔◌, refl, ap, ◌∙◌, subst, Bool, true, false, not, ◌&&◌, ◌||◌,
  Option, none, some, [], ◌∷◌, ◌++◌, append-nil, All, length, Result, ok, ◌>>=◌, arith, eqb,
  if◌then◌else◌, length-append,
}
use jetstream_router.Common.Str.{Str, lit, ◌==◌}
use jetstream_router.PathMatch.{
  MatchError, round, is_nil, chunk_from, match_chunk, strip_stars, scan, in_range, scan_chunk,
  has_slash, advance, check_rest, match_from, path_match,
}

-- None of the bytes `*`, `?`, `[` and `\` occurs.
abbrev pub IsLiteral : Str → Type 0
IsLiteral = All (λ c. (c ≢ b'*') × (c ≢ b'?') × (c ≢ b'[') × (c ≢ 0x5c))

-- What follows `p` in `s`, if `s` begins with `p`.
pub drop_prefix : Str → Str → Option Str
drop_prefix [] s = some s
drop_prefix (c ∷ p) [] = none
drop_prefix (c ∷ p) (b ∷ s) = if eqb c b then drop_prefix p s else none

drop_prefix-append : (p t : Str) → drop_prefix p (p ++ t) ≡ some t
unfolding drop_prefix
drop_prefix-append [] t = refl
drop_prefix-append (c ∷ p) t = ground (arith, drop_prefix-append p t)

drop_prefix-some : (p s t : Str) → drop_prefix p s ≡ some t → s ≡ p ++ t
unfolding drop_prefix
drop_prefix-some [] s t h = ground arith
drop_prefix-some (c ∷ p) [] t h = cc
drop_prefix-some (c ∷ p) (b ∷ s) t h = ground (arith, drop_prefix-some p s t)

-- Whether nothing is left over.
abbrev outcome_eq : Option Str → Bool
outcome_eq none = false
outcome_eq (some t) = is_nil t

abbrev outcome : Option Str → Str × Bool
outcome none = ([], false)
outcome (some t) = (t, true)

chunk_from-failed :
    (fuel : ℕ) (p s : Str)
    → IsLiteral p
    → length p < fuel
    → chunk_from fuel p true s ≡ ok ([], false)
unfolding chunk_from round
chunk_from-failed zero p s l h = elim h [ ]
chunk_from-failed (suc fuel) [] s l h = refl
chunk_from-failed (suc fuel) (c ∷ p) s l h = ground (arith, chunk_from-failed fuel p s l.1)

chunk_from-literal :
    (fuel : ℕ) (p s : Str)
    → IsLiteral p
    → length p < fuel
    → chunk_from fuel p false s ≡ ok (outcome (drop_prefix p s))
unfolding chunk_from round drop_prefix
chunk_from-literal zero p s l h = elim h [ ]
chunk_from-literal (suc fuel) [] s l h = refl
chunk_from-literal (suc fuel) (c ∷ p) [] l h = ground (arith, chunk_from-failed fuel p [] l.1)
chunk_from-literal (suc fuel) (c ∷ p) (b ∷ s) l h =
    ground (arith, chunk_from-failed fuel p s l.1, chunk_from-literal fuel p s l.1)

match_chunk-literal : (p s : Str) → IsLiteral p → match_chunk p s ≡ ok (outcome (drop_prefix p s))
unfolding match_chunk
match_chunk-literal p s l = chunk_from-literal (suc (length p)) p s l (omega arith)

eqb-ne : (a b : ℕ) → a ≢ b → eqb a b ≡ false
eqb-ne a b h = ground arith

in_range_outside : (c : ℕ) → c ≢ b'[' → in_range false false c ≡ false
in_range_outside c h = ground arith

-- A literal is one chunk, up to a star or the end.
scan-literal :
    (p r : Str) → IsLiteral p → scan false false r ≡ ([], r) → scan false false (p ++ r) ≡ (p, r)
scan-literal [] r l h = h
scan-literal (c ∷ p) r l h =
    scan-cons c (p ++ r) l.0 ∙ ap (λ (x : Str × Str). (c ∷ x.0, x.1)) (scan-literal p r l.1 h)
  where
    scan-cons :
        (c : ℕ) (p : Str)
        → (c ≢ b'*') × (c ≢ b'?') × (c ≢ b'[') × (c ≢ 0x5c)
        → scan false false (c ∷ p) ≡ (c ∷ (scan false false p).0, (scan false false p).1)
    scan-cons c p l =
        unfold scan in rw (eqb-ne c b'*' l.0, eqb-ne c 0x5c l.3, in_range_outside c l.2)

scan_chunk-literal :
    (p r : Str)
    → IsLiteral p
    → p ≢ []
    → scan false false r ≡ ([], r)
    → scan_chunk (p ++ r) ≡ (false, p, r)
unfolding scan_chunk
scan_chunk-literal [] r l ne h = absurd (ne refl)
scan_chunk-literal (c ∷ p) r l ne h =
    rw (eqb-ne c b'*' l.0.0, scan_chunk, strip_stars, scan-literal (c ∷ p) r l h)

drop_prefix-== : (p s : Str) → outcome_eq (drop_prefix p s) ≡ (p == s)
unfolding drop_prefix ◌==◌
drop_prefix-== [] [] = refl
drop_prefix-== [] (b ∷ s) = refl
drop_prefix-== (c ∷ p) [] = refl
drop_prefix-== (c ∷ p) (b ∷ s) = ground (arith, drop_prefix-== p s)

-- The name to go on with after a literal chunk.
abbrev continue : Str → Option Str → Option Str
continue r none = none
continue r (some t) = if is_nil t || not (is_nil r) then some t else none

advance-literal :
    (p r name : Str) → IsLiteral p → advance false p r name ≡ ok (continue r (drop_prefix p name))
unfolding advance
advance-literal p r name l = ground (arith, match_chunk-literal p name l)

abbrev finish : ℕ → Str → Option Str → Result MatchError Bool
finish fuel rest none = check_rest fuel rest
finish fuel rest (some t) = match_from fuel rest t

-- One round of the matcher, over the chunk that the scan found.
abbrev round_of : ℕ → Str → Bool × Str × Str → Result MatchError Bool
round_of fuel name (star, chunk, rest) = elim (star && is_nil chunk) [
  | true ↦ ok (not (has_slash name))
  | false ↦ do next ← advance star chunk rest name; finish fuel rest next
]

match_from-round_of :
    (fuel c : ℕ) (p name : Str)
    → match_from (suc fuel) (c ∷ p) name ≡ round_of fuel name (scan_chunk (c ∷ p))
unfolding match_from
match_from-round_of fuel c p name = refl

match_from-literal :
    (fuel : ℕ) (p r name : Str)
    → IsLiteral p
    → p ≢ []
    → scan false false r ≡ ([], r)
    → match_from (suc fuel) (p ++ r) name ≡ finish fuel r (continue r (drop_prefix p name))
match_from-literal fuel [] r name l ne h = absurd (ne refl)
match_from-literal fuel (c ∷ p) r name l ne h =
    match_from-round_of fuel c (p ++ r) name
    ∙ ap (round_of fuel name) (scan_chunk-literal (c ∷ p) r l ne h)
    ∙ ap (λ m. m >>= finish fuel r) (advance-literal (c ∷ p) r name l)

answer : (o : Option Str) (fuel : ℕ) → finish (suc fuel) [] (continue [] o) ≡ ok (outcome_eq o)
unfolding match_from check_rest
answer none fuel = refl
answer (some []) fuel = refl
answer (some (c ∷ t)) fuel = refl

-- A pattern with no special byte matches exactly the name that it spells.
pub path_match_literal : (p name : Str) → IsLiteral p → path_match p name ≡ ok (p == name)
unfolding path_match
path_match_literal [] name l = nothing name
  where
    nothing : (name : Str) → path_match [] name ≡ ok ([] == name)
    nothing [] = unfold match_from ◌==◌ in refl
    nothing (b ∷ name) = unfold match_from ◌==◌ in refl
path_match_literal (c ∷ p) name l =
    let one_round =
      match_from-literal (suc (length p)) (c ∷ p) [] name l (λ e. cc) (unfold scan in refl) in
    subst (λ x. match_from (suc (suc (length p))) x name ≡ ok ((c ∷ p) == name))
      (append-nil (c ∷ p))
      (one_round
        ∙ answer (drop_prefix (c ∷ p) name) (length p)
        ∙ ap ok (drop_prefix-== (c ∷ p) name))

abbrev star_answer : Option Str → Bool
star_answer none = false
star_answer (some t) = not (has_slash t)

answer_star :
    (o : Option Str) (fuel : ℕ)
    → finish (suc (suc fuel)) (lit "*") (continue (lit "*") o) ≡ ok (star_answer o)
unfolding match_from check_rest scan_chunk match_chunk
answer_star none fuel = refl
answer_star (some []) fuel = refl
answer_star (some (c ∷ t)) fuel = refl

length-star : (p : Str) → length (p ++ lit "*") ≡ suc (length p)
length-star p = omega (arith, length-append p (lit "*"))

matched :
    (p name : Str)
    → IsLiteral p
    → path_match (p ++ lit "*") name ≡ ok (star_answer (drop_prefix p name))
unfolding path_match
matched [] name l = unfold match_from drop_prefix scan_chunk in refl
matched (c ∷ p) name l = rw (length-star p) (
    match_from-literal (suc (suc (length p))) (c ∷ p) (lit "*") name l (λ e. cc)
      (unfold scan in refl)
    ∙ answer_star (drop_prefix (c ∷ p) name) (length p))

-- A pattern with no special byte, followed by a star, matches exactly the names that begin with
-- it and go on with no slash.
pub path_match_star :
    (p name : Str)
    → IsLiteral p
    → (path_match (p ++ lit "*") name ≡ ok true)
      ↔ ((t : Str) × (name ≡ p ++ t) × (has_slash t ≡ false))
path_match_star p name l = (
  λ h. found (drop_prefix p name) (drop_prefix-some p name) (cc (result, h)),
  λ (t, e, plain). result ∙ rw (e, drop_prefix-append p t) (rw (plain) refl),
)
  where
    result : path_match (p ++ lit "*") name ≡ ok (star_answer (drop_prefix p name))
    result = matched p name l

    found :
        (o : Option Str)
        → ((t : Str) → o ≡ some t → name ≡ p ++ t)
        → star_answer o ≡ true
        → (t : Str) × (name ≡ p ++ t) × (has_slash t ≡ false)
    found none h e = cc
    found (some t) h e = (t, h t refl, ground arith)
