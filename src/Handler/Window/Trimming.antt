-- ===== src/Handler/Window/Trimming.antt =====
-- The loop that trims the stamps, and the stamps of every key after `Add`.
use jetstream_router.Common.{
  ℕ, suc, ◌^◌, ◌≤◌, ◌<◌, ◌≡◌, ◌≢◌, refl, ap, sym, ◌∙◌, List, [], ◌∷◌, ◌++◌, append-nil, length,
  length-append, if◌then◌else◌, arith, Bool-cases, inl, inr,
}
use jetstream_router.Common.Int.{ℤ, pos, ◌≤ℤ◌, ◌-ℤ◌, sub64, sub64_lem}
use jetstream_router.Common.Str.{Str, ◌==◌, eq_iff}
use jetstream_router.Handler.Window.{Entry, Window, remove_element, value, trim, add}
use jetstream_router.Handler.Window.Invariant.{IsValid}
use jetstream_router.Handler.Window.Counts.{stamps_of, add-trim}

-- What a trim leaves once more stamps are appended.
pub then_append : ℤ → List ℤ → List ℤ → List ℤ
then_append c [] zs = trim c zs
then_append c (t ∷ ts) zs = t ∷ (ts ++ zs)

pub trim-then_append : (c : ℤ) (xs zs : List ℤ) → trim c (xs ++ zs) ≡ then_append c (trim c xs) zs
unfolding trim then_append
trim-then_append c [] zs = refl
trim-then_append c (t ∷ xs) zs = ground (arith, trim-then_append c xs zs)

pub trim-append :
    (c : ℤ) (xs ys zs : List ℤ) → trim c xs ≡ trim c ys → trim c (xs ++ zs) ≡ trim c (ys ++ zs)
trim-append c xs ys zs h =
    trim-then_append c xs zs ∙ ap (λ x. then_append c x zs) h ∙ sym (trim-then_append c ys zs)

pub trim-trim : (c d : ℤ) (ts : List ℤ) → c ≤ℤ d → trim d (trim c ts) ≡ trim d ts
unfolding trim
trim-trim c d [] h = refl
trim-trim c d (t ∷ ts) h = ground (arith, trim-trim c d ts)

pub cutoff_lem :
    (t win : ℕ) → t < 2 ^ 63 → win < 2 ^ 63 → sub64 (pos t) (pos win) ≡ pos t -ℤ pos win
unfolding ◌-ℤ◌
cutoff_lem t win h k = sub64_lem (pos t) (pos win) (ground arith)

pub value-remove_element :
    (k j : Str) (es : List Entry)
    → k ≢ j
    → (value j (remove_element k es)).stamps ≡ (value j es).stamps
unfolding value remove_element
value-remove_element k j [] h = refl
value-remove_element k j (e ∷ es) h =
    ground (arith, value-remove_element k j es h, eq_iff e.key k, eq_iff e.key j)

pub length-remove_element-le :
    (k : Str) (es : List Entry) → length (remove_element k es) ≤ length es
unfolding remove_element
length-remove_element-le k [] = omega arith
length-remove_element-le k (e ∷ es) = ground (arith, length-remove_element-le k es)

-- The cap leaves room for one more key than the window has, so `Add` evicts nothing.
pub stamps_of-add :
    (k j : Str) (now_us : ℤ) (w : Window)
    → IsValid w
    → pos (suc (length w.lru)) ≤ℤ w.max_keys
    → (length (add k now_us w).0.lru ≤ suc (length w.lru))
      × (stamps_of j (add k now_us w).0 ≡ (
          if k == j
          then trim (sub64 now_us w.window_us) (stamps_of k w ++ now_us ∷ [])
          else stamps_of j w))
stamps_of-add k j now_us w v room =
    let (kept, dropped, front, _, split, needed) = add-trim k now_us w v in
    let nothing : dropped ≡ [] = elim needed [
      | inl nothing ↦ nothing
      | inr (_, exact, _) ↦ no_drop kept dropped exact (ap length split)
    ] in
    let whole : remove_element k w.lru ≡ kept =
      split ∙ ap (λ x. kept ++ x) nothing ∙ append-nil kept in
    (
      omega (arith, ap length front, ap length whole, length-remove_element-le k w.lru),
      ap (λ (es : List Entry). (value j es).stamps) front ∙ others kept whole,
    )
  where
    no_drop :
        (kept dropped : List Entry)
        → pos (suc (length kept)) ≡ w.max_keys
        → length (remove_element k w.lru) ≡ length (kept ++ dropped)
        → dropped ≡ []
    no_drop kept [] exact e = refl
    no_drop kept (x ∷ dropped) exact e = absurd (
        ground
          (arith, exact, room, length-append kept (x ∷ dropped), length-remove_element-le k w.lru))

    others :
        (kept : List Entry)
        → remove_element k w.lru ≡ kept
        → (value j (
            record {
              key = k;
              stamps = trim (sub64 now_us w.window_us) (stamps_of k w ++ now_us ∷ []);
            }
            ∷ kept)).stamps
          ≡ (if k == j
              then trim (sub64 now_us w.window_us) (stamps_of k w ++ now_us ∷ [])
              else stamps_of j w)
    others kept whole = elim (Bool-cases (k == j)) [
      | inl same ↦ unfold value in rw same
      | inr other ↦
          unfold value in
          rw other (
            ap (λ es. (value j es).stamps) (sym whole)
            ∙ value-remove_element k j w.lru (λ e. cc ((eq_iff k j).1 e, other)))
    ]
