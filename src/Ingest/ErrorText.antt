-- ===== src/Ingest/ErrorText.antt =====
-- internal/jetstream/ingest.go: `errString`, the text of an error that may be logged.
-- `strconv.Itoa` is an argument.
use jetstream_router.Common.{
  ℕ, zero, suc, ◌-◌, ◌≤◌, ◌≡◌, ◌↔◌, ◌∙◌, ap, refl, sym, subst, true, false, Option, none, some, [],
  ◌∷◌, ◌++◌, length, length-append, take, if◌then◌else◌, ltb, arith, Bool-cases, inl, inr,
}
use jetstream_router.Common.Int.{ℤ}
use jetstream_router.Common.Str.{Str, lit}
use jetstream_router.PathMatch.Rune.{decode_rune, length-decode_rune, decode_rune-IsLocal}

-- An error that wraps a `websocket.CloseError`, with its code, or another one, with its text.
pub data ReadError : Type 0 where
  close_error : ℤ → ReadError
  other : Str → ReadError

-- The characters of a text without the bytes that are none; every round takes one byte or more.
unfoldable pub valid_runes : ℕ → Str → Str
valid_runes zero s = []
valid_runes (suc fuel) [] = []
valid_runes (suc fuel) (b ∷ s) =
    let (rune, bad, rest) = decode_rune (b ∷ s) in
    let kept = valid_runes fuel rest in
    if bad then kept else take (length (b ∷ s) - length rest) (b ∷ s) ++ kept

-- `strings.ToValidUTF8`, with nothing in the place of what is not valid.
unfoldable pub to_valid_utf8 : Str → Str
to_valid_utf8 s = valid_runes (length s) s

-- `errString`
unfoldable pub err_string : (ℤ → Str) → Option ReadError → Str
err_string itoa none = []
err_string itoa (some (close_error code)) = lit "websocket close " ++ itoa code
err_string itoa (some (other s)) = to_valid_utf8 (if ltb 200 (length s) then take 200 s else s)

pub data IsUtf8 : Str → Type 0 where
  empty : IsUtf8 []
  character :
      (b : ℕ) (s : Str)
      → (decode_rune (b ∷ s)).1 ≡ false
      → IsUtf8 (decode_rune (b ∷ s)).2
      → IsUtf8 (b ∷ s)

take-length : (w t : Str) → take (length w) (w ++ t) ≡ w
unfolding take
take-length [] t = refl
take-length (c ∷ w) t = ap (λ x. c ∷ x) (take-length w t)

length-take : (n : ℕ) (s : Str) → length (take n s) ≤ n
unfolding take
length-take zero s = omega arith
length-take (suc n) [] = omega arith
length-take (suc n) (c ∷ s) = omega (arith, length-take n s)

-- The first bytes of a text, up to the rest that is left.
take_rest : (b : ℕ) (s w t : Str) → s ≡ w ++ t → take (length (b ∷ s) - length t) (b ∷ s) ≡ b ∷ w
unfolding take
take_rest b s w t split =
    let long : length (b ∷ s) - length t ≡ suc (length w) =
      omega (arith, ap length split ∙ length-append w t) in
    ap (λ n. take n (b ∷ s)) long
    ∙ ap (λ x. b ∷ take (length w) x) split
    ∙ ap (λ x. b ∷ x) (take-length w t)

-- A round that meets a byte of no character, and one that meets a character.
drops :
    (fuel b : ℕ) (s : Str)
    → (decode_rune (b ∷ s)).1 ≡ true
    → valid_runes (suc fuel) (b ∷ s) ≡ valid_runes fuel (decode_rune (b ∷ s)).2
unfolding valid_runes
drops fuel b s bad = rw bad refl

keeps :
    (fuel b : ℕ) (s w : Str)
    → (decode_rune (b ∷ s)).1 ≡ false
    → s ≡ w ++ (decode_rune (b ∷ s)).2
    → valid_runes (suc fuel) (b ∷ s) ≡ b ∷ w ++ valid_runes fuel (decode_rune (b ∷ s)).2
unfolding valid_runes
keeps fuel b s w good split =
    let kept = valid_runes fuel (decode_rune (b ∷ s)).2 in
    rw good (ap (λ x. x ++ kept) (take_rest b s w (decode_rune (b ∷ s)).2 split))

valid_runes-IsUtf8 : (fuel : ℕ) (s : Str) → IsUtf8 (valid_runes fuel s)
unfolding valid_runes
valid_runes-IsUtf8 zero s = empty
valid_runes-IsUtf8 (suc fuel) [] = empty
valid_runes-IsUtf8 (suc fuel) (b ∷ s) =
    let rest = (decode_rune (b ∷ s)).2 in
    let ih = valid_runes-IsUtf8 fuel rest in
    elim (Bool-cases (decode_rune (b ∷ s)).1) [
      | inl bad ↦ subst IsUtf8 (sym (drops fuel b s bad)) ih
      | inr good ↦
          let (w, split, local) = decode_rune-IsLocal b s good in
          let after = local (valid_runes fuel rest) in
          subst IsUtf8 (sym (keeps fuel b s w good split)) (
            character b (w ++ valid_runes fuel rest) (ap (λ x. x.1) after)
              (subst IsUtf8 (sym (ap (λ x. x.2) after)) ih))
    ]

length-valid_runes : (fuel : ℕ) (s : Str) → length (valid_runes fuel s) ≤ length s
unfolding valid_runes
length-valid_runes zero s = omega arith
length-valid_runes (suc fuel) [] = omega arith
length-valid_runes (suc fuel) (b ∷ s) =
    let rest = (decode_rune (b ∷ s)).2 in
    let ih = length-valid_runes fuel rest in
    elim (Bool-cases (decode_rune (b ∷ s)).1) [
      | inl bad ↦ omega (arith, ih, length-decode_rune b s, ap length (drops fuel b s bad))
      | inr good ↦
          let (w, split, _) = decode_rune-IsLocal b s good in
          omega (
            arith,
            ih,
            ap length (keeps fuel b s w good split),
            length-append w (valid_runes fuel rest),
            ap length split ∙ length-append w rest,
          )
    ]

valid_runes_same : (fuel : ℕ) (s : Str) → length s ≤ fuel → IsUtf8 s → valid_runes fuel s ≡ s
unfolding valid_runes
valid_runes_same zero [] fits v = refl
valid_runes_same zero (b ∷ s) fits v = absurd (omega arith)
valid_runes_same (suc fuel) [] fits v = refl
valid_runes_same (suc fuel) (b ∷ s) fits (character _ _ good v) =
    let (w, split, _) = decode_rune-IsLocal b s good in
    let ih =
      valid_runes_same fuel (decode_rune (b ∷ s)).2 (omega (arith, length-decode_rune b s)) v in
    keeps fuel b s w good split ∙ ap (λ x. b ∷ w ++ x) ih ∙ sym (ap (λ x. b ∷ x) split)

-- For an error that is no close of the websocket, errString returns at most two hundred bytes of
-- valid UTF-8, whatever the text of the error, and returns that text itself exactly when it is
-- that short and valid.
pub err_string_lem :
    (itoa : ℤ → Str) (s : Str)
    → (length (err_string itoa (some (other s))) ≤ 200)
      × IsUtf8 (err_string itoa (some (other s)))
      × ((err_string itoa (some (other s)) ≡ s) ↔ ((length s ≤ 200) × IsUtf8 s))
unfolding err_string to_valid_utf8
err_string_lem itoa s = (short, valid, same)
  where
    cut : Str
    cut = if ltb 200 (length s) then take 200 s else s

    cut-le : length cut ≤ 200
    cut-le = elim (Bool-cases (ltb 200 (length s))) [
      | inl long ↦ rw long (length-take 200 s)
      | inr fits ↦ rw fits (ground arith)
    ]

    short : length (err_string itoa (some (other s))) ≤ 200
    short = omega (arith, length-valid_runes (length cut) cut, cut-le)

    valid : IsUtf8 (err_string itoa (some (other s)))
    valid = valid_runes-IsUtf8 (length cut) cut

    same : (err_string itoa (some (other s)) ≡ s) ↔ ((length s ≤ 200) × IsUtf8 s)
    same = (
      λ e. (subst (λ x. length x ≤ 200) e short, subst IsUtf8 e valid),
      λ (fits, v).
          let uncut : cut ≡ s =
            let below : ltb 200 (length s) ≡ false = ground arith in rw below refl in
          subst (λ x. valid_runes (length x) x ≡ s) (sym uncut)
            (valid_runes_same (length s) s (omega arith) v),
    )
