-- ===== src/Handler/Content/Filters.antt =====
-- The language filter and the keywords.
use jetstream_router.Common.{
  ◌≡◌, ◌≢◌, ◌↔◌, ◌⊎◌, refl, ap, sym, ◌∙◌, subst, Bool, true, false, List, [], ◌∷◌, Has, arith,
  Bool-cases, inl, inr,
}
use jetstream_router.Common.Str.{Str, ◌==◌, eq_iff, eq_refl}
use jetstream_router.Common.Maps.{lookup, insert, lookup-insert}
use jetstream_router.Handler.Retraction.{index}
use jetstream_router.Handler.Alerts.{lower}
use jetstream_router.Handler.Content.{
  PostRecord, add_langs, speaks, add_patterns, hits, language_passes,
}

index-insert :
    (k l : Str) (m : List (Str × Bool)) → (k == l) ≡ false → index l (insert k true m) ≡ index l m
unfolding index
index-insert k l m other = ground (arith, lookup-insert k l true m)

index_same : (k : Str) (m : List (Str × Bool)) → index k (insert k true m) ≡ true
unfolding index
index_same k m = ground (arith, lookup-insert k k true m, eq_refl k)

speaks-add_langs :
    (l : Str) (ls : List Str) (m : List (Str × Bool))
    → (index l (add_langs ls m) ≡ true) ↔ (Has l ls ⊎ (index l m ≡ true))
unfolding add_langs
speaks-add_langs l [] m = (λ h. inr h, λ h. elim h [ inl x ↦ absurd x | inr y ↦ y ])
speaks-add_langs l (k ∷ ls) m =
    let (only, all) = speaks-add_langs l ls (insert k true m) in
    (
      λ h. elim (only h) [
        | inl there ↦ inl (inr there)
        | inr here ↦ elim (Bool-cases (k == l)) [
          | inl same ↦ inl (inl ((eq_iff k l).0 same))
          | inr other ↦ inr (sym (index-insert k l m other) ∙ here)
        ]
      ],
      λ h. elim h [
        | inl (inr there) ↦ all (inl there)
        | inl (inl same) ↦
            all (inr (subst (λ x. index x (insert k true m) ≡ true) same (index_same k m)))
        | inr before ↦ elim (Bool-cases (k == l)) [
          | inl same ↦ all (
              inr (
                subst (λ x. index x (insert k true m) ≡ true) ((eq_iff k l).0 same)
                  (index_same k m)))
          | inr other ↦ all (inr (index-insert k l m other ∙ before))
        ]
      ],
    )

empty : (x : Str) → index x [] ≡ true → ⊥
unfolding index lookup
empty x h = cc

insert_some :
    (k : Str) (m : List (Str × Bool))
    → (p : Str × Bool) × (rest : List (Str × Bool)) × (insert k true m ≡ p ∷ rest)
unfolding insert
insert_some k [] = ((k, true), [], refl)
insert_some k ((j, b) ∷ m) = elim (Bool-cases (j == k)) [
  | inl same ↦ ((k, true), m, rw (same, insert) refl)
  | inr other ↦ ((j, b), insert k true m, rw (other, insert) refl)
]

add_langs_some :
    (l : Str) (ls : List Str) (m : List (Str × Bool))
    → (p : Str × Bool) × (rest : List (Str × Bool)) × (add_langs (l ∷ ls) m ≡ p ∷ rest)
unfolding add_langs
add_langs_some l [] m = insert_some l m
add_langs_some l (k ∷ ls) m = add_langs_some k ls (insert l true m)

speaks_iff :
    (m : List (Str × Bool)) (ls : List Str)
    → (speaks m ls ≡ true) ↔ ((l : Str) × Has l ls × (index l m ≡ true))
unfolding speaks
speaks_iff m [] = (λ h. cc, λ (l, h, _). absurd h)
speaks_iff m (k ∷ ls) = elim (Bool-cases (index k m)) [
  | inl here ↦ (λ _. (k, inl refl, here), λ _. rw (here, speaks) refl)
  | inr not_here ↦
      let (only, all) = speaks_iff m ls in
      (
        λ h. let (l, there, holds) = only (rw (not_here, speaks) at h) in (l, inr there, holds),
        λ (l, place, holds). elim place [
          | inl same ↦ absurd (ground (arith, ap (λ x. index x m) same))
          | inr there ↦
              let next : speaks m (k ∷ ls) ≡ speaks m ls = rw (not_here, speaks) refl in
              next ∙ all (l, there, holds)
        ],
      )
]

module _ (to_lower : Str → Str) where
  Has-lower :
      (x : Str) (ls : List Str)
      → Has x (lower to_lower ls) ↔ ((l : Str) × Has l ls × (to_lower l ≡ x))
  unfolding lower
  Has-lower x [] = (λ h. absurd h, λ (l, h, _). absurd h)
  Has-lower x (k ∷ ls) =
      let (only, all) = Has-lower x ls in
      (
        λ h. elim h [
          | inl same ↦ (k, inl refl, same)
          | inr there ↦ let (l, h, same) = only there in (l, inr h, same)
        ],
        λ (l, place, same). elim place [
          | inl here ↦ inl (ap to_lower here ∙ same)
          | inr there ↦ inr (all (l, there, same))
        ],
      )

  -- A post passes the language filter: no language is configured, or one of its own is, whatever
  -- the case of its letters.
  abbrev pub Speaks : List Str → PostRecord → Type 0
  Speaks langs rec =
      (langs ≡ [])
      ⊎ ((l : Str) × (l' : Str) × Has l rec.langs × Has l' langs × (to_lower l ≡ to_lower l'))

  language_passes-cons :
      (p : Str × Bool) (m m' : List (Str × Bool)) (rec : PostRecord)
      → m' ≡ p ∷ m
      → language_passes to_lower m' rec ≡ speaks m' (lower to_lower rec.langs)
  unfolding language_passes
  language_passes-cons p m m' rec e = rw e refl

  pub language_passes_iff :
      (langs : List Str) (rec : PostRecord)
      → (language_passes to_lower (add_langs (lower to_lower langs) []) rec ≡ true)
        ↔ Speaks langs rec
  unfolding lower add_langs language_passes
  language_passes_iff [] rec = (λ _. inl refl, λ _. refl)
  language_passes_iff (l ∷ ls) rec =
      let m = add_langs (lower to_lower (l ∷ ls)) [] in
      let (p, rest, some_) = add_langs_some (to_lower l) (lower to_lower ls) [] in
      let same = language_passes-cons p rest m rec some_ in
      (
        λ h.
            let (x, there, holds) = (speaks_iff m (lower to_lower rec.langs)).0 (sym same ∙ h) in
            let (k, said, lowered) = (Has-lower x rec.langs).0 there in
            elim ((speaks-add_langs x (lower to_lower (l ∷ ls)) []).0 holds) [
              | inr never ↦ absurd (empty x never)
              | inl wanted ↦
                  let (k', listed, lowered') = (Has-lower x (l ∷ ls)).0 wanted in
                  inr (k, k', said, listed, lowered ∙ sym lowered')
            ],
        λ h. elim h [
          | inl none_ ↦ absurd (ne none_)
          | inr (k, k', said, listed, e) ↦
              same
              ∙ (speaks_iff m (lower to_lower rec.langs)).1 (
                to_lower k,
                (Has-lower (to_lower k) rec.langs).1 (k, said, refl),
                (speaks-add_langs (to_lower k) (lower to_lower (l ∷ ls)) []).1
                    (inl ((Has-lower (to_lower k) (l ∷ ls)).1 (k', listed, sym e))),
              )
        ],
      )
    where
      ne : (l ∷ ls) ≡ [] → ⊥
      ne e = cc

  -- A keyword, blank ones left out, matches the text.
  abbrev pub Mentions : (Str → Str) → (Str → Str → Bool) → List Str → Str → Type 0
  Mentions trim_space matches keywords body =
      (w : Str) × Has w keywords
      × ((trim_space w == []) ≡ false)
      × (matches (trim_space w) body ≡ true)

  pub hits_iff :
      (trim_space : Str → Str) (matches : Str → Str → Bool) (keywords : List Str) (body : Str)
      → (hits matches (add_patterns to_lower trim_space keywords) body ≢ [])
        ↔ Mentions trim_space matches keywords body
  unfolding hits add_patterns
  hits_iff trim_space matches [] body = (λ h. absurd (h refl), λ (w, h, _, _). absurd h)
  hits_iff trim_space matches (w ∷ ws) body =
      let (only, all) = hits_iff trim_space matches ws body in
      elim (Bool-cases (trim_space w == [])) [
        | inl blank ↦
            let same : hits matches (add_patterns to_lower trim_space (w ∷ ws)) body
                ≡ hits matches (add_patterns to_lower trim_space ws) body =
              rw (blank, add_patterns) refl in
            (
              λ h.
                  let (k, there, full, fits) = only (λ e. h (same ∙ e)) in
                  (k, inr there, full, fits),
              λ (k, place, full, fits). elim place [
                | inl here ↦ absurd (ground (arith, ap (λ x. trim_space x == []) here))
                | inr there ↦ λ e. all (k, there, full, fits) (sym same ∙ e)
              ],
            )
        | inr full ↦ elim (Bool-cases (matches (trim_space w) body)) [
          | inl fits ↦
              (λ _. (w, inl refl, full, fits), λ _. rw (full, add_patterns, fits, hits) (λ e. cc))
          | inr misses ↦
              let same : hits matches (add_patterns to_lower trim_space (w ∷ ws)) body
                  ≡ hits matches (add_patterns to_lower trim_space ws) body =
                rw (full, add_patterns, misses, hits) refl in
              (
                λ h.
                    let (k, there, full, fits) = only (λ e. h (same ∙ e)) in
                    (k, inr there, full, fits),
                λ (k, place, full', fits). elim place [
                  | inl here ↦ absurd (ground (arith, ap (λ x. matches (trim_space x) body) here))
                  | inr there ↦ λ e. all (k, there, full', fits) (sym same ∙ e)
                ],
              )
        ]
      ]
