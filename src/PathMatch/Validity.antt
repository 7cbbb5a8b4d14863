-- ===== src/PathMatch/Validity.antt =====
-- Whether a pattern is malformed does not depend on the name that it is matched against.
use jetstream_router.Common.{
  ℕ, zero, suc, ◌<◌, ◌≡◌, ◌≢◌, ◌⊎◌, ◌↔◌, refl, subst, sym, ◌∙◌, Bool, true, false, ◌&&◌, Option,
  none, some, [], ◌∷◌, length, Result, ok, err, ◌>>=◌, arith, eqb, Bool-cases, inl, inr,
}
use jetstream_router.Common.Str.{Str}
use jetstream_router.PathMatch.{
  MatchError, fails, bad_pattern, is_nil, match_chunk, strip_stars, scan, scan_chunk, skip, advance,
  check_rest, match_from, path_match,
}
use jetstream_router.PathMatch.Total.{path_match_total, scan_chunk-le}
use jetstream_router.PathMatch.Chunks.{match_chunk-fails}

skip-fails :
    (chunk rest name : Str)
    → fails (match_chunk chunk []) ≡ false
    → fails (skip chunk rest name) ≡ false
unfolding skip
skip-fails chunk rest [] h = refl
skip-fails chunk rest (b ∷ name) h =
    ground (arith, match_chunk-fails chunk name [], skip-fails chunk rest name h)

advance-fails :
    (star : Bool) (chunk rest name : Str)
    → fails (advance star chunk rest name) ≡ fails (match_chunk chunk [])
unfolding advance
advance-fails star chunk rest name =
    ground (arith, match_chunk-fails chunk name [], skip-fails chunk rest name)

-- What is left of a pattern without its leading stars does not begin with a star.
strip_stars_lem :
    (p : Str)
    → ((strip_stars p).1 ≡ [])
      ⊎ ((c : ℕ) × (q : Str) × ((strip_stars p).1 ≡ c ∷ q) × (eqb c b'*' ≡ false))
unfolding strip_stars
strip_stars_lem [] = inl refl
strip_stars_lem (c ∷ p) = elim (Bool-cases (eqb c b'*')) [
  | inl star ↦ rw (star, strip_stars) (strip_stars_lem p)
  | inr plain ↦ inr (c, p, ground arith, plain)
]

scan-ne-nil : (c : ℕ) (q : Str) → eqb c b'*' ≡ false → (scan false false (c ∷ q)).0 ≢ []
unfolding scan
scan-ne-nil c q plain = rw (plain, scan) (λ e. cc)

-- An empty chunk stands at the end of the pattern only.
scan_chunk-nil : (p : Str) → (scan_chunk p).1 ≡ [] → (scan_chunk p).2 ≡ []
unfolding scan_chunk
scan_chunk-nil p h = elim (strip_stars_lem p) [
  | inl done ↦ rw (done, scan_chunk, scan)
  | inr (c, q, e, plain) ↦
      absurd (scan-ne-nil c q plain (subst (λ x. (scan false false x).0 ≡ []) e h))
]

is_nil→eq : (s : Str) → is_nil s ≡ true → s ≡ []
is_nil→eq [] h = refl
is_nil→eq (c ∷ s) h = cc

check_rest-nil : (fuel : ℕ) → check_rest (suc fuel) [] ≡ ok false
unfolding check_rest
check_rest-nil fuel = refl

match_chunk-nil : match_chunk [] [] ≡ ok ([], true)
unfolding match_chunk
match_chunk-nil = refl

-- A pattern that ends in a star passes the check of its remaining chunks.
check_rest_last :
    (fuel : ℕ) (c : ℕ) (p : Str)
    → (scan_chunk (c ∷ p)).1 ≡ []
    → check_rest (suc (suc fuel)) (c ∷ p) ≡ ok false
unfolding check_rest
check_rest_last fuel c p e =
    rw (e, check_rest, match_chunk-nil, scan_chunk-nil (c ∷ p) e) (check_rest-nil fuel)

&&-right : (a b : Bool) → (a && b) ≡ true → b ≡ true
&&-right a b h = ground arith

bind-fails :
    (m : Result MatchError (Option Str)) (m' : Result MatchError (Str × Bool))
    (k : Option Str → Result MatchError Bool) (k' : Result MatchError Bool)
    → fails m ≡ fails m'
    → ((o : Option Str) → fails (k o) ≡ fails k')
    → fails (m >>= k) ≡ fails (m' >>= λ _. k')
bind-fails (ok o) (ok a) k k' e h = h o
bind-fails (err x) (err y) k k' e h = refl
bind-fails (ok o) (err y) k k' e h = cc
bind-fails (err x) (ok a) k k' e h = cc

-- The match fails on a pattern exactly when the check of all its chunks does.
match_from-fails :
    (fuel : ℕ) (p name : Str)
    → length p < fuel
    → fails (match_from fuel p name) ≡ fails (check_rest fuel p)
unfolding match_from check_rest
match_from-fails zero p name h = elim h [ ]
match_from-fails (suc fuel) [] name h = refl
match_from-fails (suc zero) (c ∷ p) name h = absurd (omega arith)
match_from-fails (suc (suc fuel)) (c ∷ p) name h =
    let (star, chunk, rest) = scan_chunk (c ∷ p) in
    elim (Bool-cases (star && is_nil chunk)) [
      | inl done ↦
          rw (done, match_from, check_rest_last fuel c p (is_nil→eq chunk (&&-right star _ done)))
      | inr more ↦
          rw (more, match_from)
            (bind-fails (advance star chunk rest name) (match_chunk chunk []) _
              (check_rest (suc fuel) rest) (advance-fails star chunk rest name)
              (elim [
                | some t ↦ match_from-fails (suc fuel) rest t (omega (arith, scan_chunk-le c p))
                | none ↦ refl
              ]))
    ]

pub path_match-fails : (p name name' : Str) → fails (path_match p name) ≡ fails (path_match p name')
unfolding path_match
path_match-fails p name name' =
    match_from-fails (suc (length p)) p name (omega arith)
    ∙ sym (match_from-fails (suc (length p)) p name' (omega arith))

-- A pattern is reported as bad against one name exactly if it is against every other name, so a
-- pattern that was tried once can be relied on.
pub bad_pattern_iff :
    (p name name' : Str)
    → (path_match p name ≡ err bad_pattern) ↔ (path_match p name' ≡ err bad_pattern)
bad_pattern_iff p name name' = (bad name name', bad name' name)
  where
    bad : (n n' : Str) → path_match p n ≡ err bad_pattern → path_match p n' ≡ err bad_pattern
    bad n n' h = elim (path_match_total p n') [
      | inl (b, e) ↦ absurd (contradiction b e)
      | inr e ↦ e
    ]
      where
        contradiction : (b : Bool) → path_match p n' ≡ ok b → ⊥
        contradiction b e = cc (path_match-fails p n n', h, e)
