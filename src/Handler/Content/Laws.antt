-- ===== src/Handler/Content/Laws.antt =====
-- When a post is reported, and what the report can tell.
use jetstream_router.Common.{
  ◌≡◌, ◌≢◌, ◌≤◌, ◌↔◌, ◌⊎◌, refl, ap, sym, ◌∙◌, subst, Bool, true, false, Option, some, List, [],
  ◌∷◌, Has, length, not, if◌then◌else◌, arith, Bool-cases, Option-cases, inl, inr,
}
use jetstream_router.Common.Str.{Str, ◌==◌, eq_iff}
use jetstream_router.Event.{Event, op_delete}
use jetstream_router.Handler.Alerts.{decode, lower}
use jetstream_router.Handler.Content.{
  PostRecord, Keyword, Content, speaks, matched, new_content, hits, language_passes, handle_post,
  handle,
}
use jetstream_router.Handler.Content.Filters.{Speaks, Mentions, language_passes_iff, hits_iff}

List-cases : {A : Type 0} (xs : List A) → (xs ≡ []) ⊎ ((x : A) × (ys : List A) × (xs ≡ x ∷ ys))
List-cases [] = inl refl
List-cases (x ∷ xs) = inr (x, xs, refl)

matched-same :
    (ev ev' : Event) (rec rec' : PostRecord) (hit : List Str)
    → ev.did ≡ ev'.did
    → ev.rkey ≡ ev'.rkey
    → rec.langs ≡ rec'.langs
    → length rec.body ≡ length rec'.body
    → matched ev rec hit ≡ matched ev' rec' hit
unfolding matched
matched-same ev ev' rec rec' hit did rkey langs len = rw (did, rkey, langs, len) refl

same_blank : (s t : Str) → length s ≡ length t → (s == []) ≡ (t == [])
unfolding ◌==◌
same_blank [] [] h = refl
same_blank [] (y ∷ t) h = absurd (omega (arith, h))
same_blank (x ∷ s) [] h = absurd (omega (arith, h))
same_blank (x ∷ s) (y ∷ t) h = refl

module _ (to_lower trim_space : Str → Str) (matches : Str → Str → Bool)
    (unmarshal : Str → Option PostRecord) where
  handle_post_iff :
      (c : Content) (ev : Event) (rec : PostRecord)
      → ((handle_post to_lower matches unmarshal c ev rec ≢ []
            → (language_passes to_lower c.langs rec ≡ true)
              × (hits matches c.patterns rec.body ≢ []))
          × ((language_passes to_lower c.langs rec ≡ true)
              → (hits matches c.patterns rec.body ≢ [])
              → handle_post to_lower matches unmarshal c ev rec ≢ []))
        × (length (handle_post to_lower matches unmarshal c ev rec) ≤ 1)
  unfolding handle_post
  handle_post_iff c ev rec = elim (Bool-cases (language_passes to_lower c.langs rec)) [
    | inr other ↦ rw (other, handle_post) ((λ h. absurd (h refl), λ h. cc), omega arith)
    | inl passes ↦ elim (List-cases (hits matches c.patterns rec.body)) [
      | inl none_ ↦
          rw (passes, handle_post, none_)
            ((λ h. absurd (h refl), λ _ h. absurd (h refl)), omega arith)
      | inr (w, ws, some_) ↦
          rw (passes, handle_post, some_) ((λ _. (refl, λ e. cc), λ _ _ e. cc), omega arith)
    ]
  ]

  hits-same :
      (ks : List Keyword) (body body' : Str)
      → ((k : Keyword) → Has k ks → matches k.pattern body ≡ matches k.pattern body')
      → hits matches ks body ≡ hits matches ks body'
  unfolding hits
  hits-same [] body body' h = refl
  hits-same (k ∷ ks) body body' h =
      let rest = hits-same ks body body' (λ j p. h j (inr p)) in
      let here = h k (inl refl) in ground arith

  language-same :
      (m : List (Str × Bool)) (rec rec' : PostRecord)
      → rec.langs ≡ rec'.langs
      → language_passes to_lower m rec ≡ language_passes to_lower m rec'
  unfolding language_passes
  language-same [] rec rec' e = refl
  language-same (p ∷ m) rec rec' e = ap (λ ls. speaks (p ∷ m) (lower to_lower ls)) e

  handle_post_private :
      (c : Content) (ev ev' : Event) (rec rec' : PostRecord)
      → (ev.key ≡ ev'.key) × (ev.did ≡ ev'.did) × (ev.rkey ≡ ev'.rkey)
      → rec.langs ≡ rec'.langs
      → length rec.body ≡ length rec'.body
      → ((k : Keyword)
          → Has k c.patterns
          → matches k.pattern rec.body ≡ matches k.pattern rec'.body)
      → handle_post to_lower matches unmarshal c ev rec
        ≡ handle_post to_lower matches unmarshal c ev' rec'
  unfolding handle_post
  handle_post_private c ev ev' rec rec' (_, did, rkey) langs len fits =
      let language = language-same c.langs rec rec' langs in
      let hit = hits-same c.patterns rec.body rec'.body fits in
      rw (language, hit)
        (elim (List-cases (hits matches c.patterns rec'.body)) [
          | inl none_ ↦ rw none_ refl
          | inr (w, ws, some_) ↦ rw some_ (
              ap (λ a. if not (language_passes to_lower c.langs rec') then [] else a ∷ [])
                (matched-same ev ev' rec rec' (w ∷ ws) did rkey langs len))
        ])

  -- The handler built from keywords and languages reports an event exactly when it is no delete,
  -- its body is a post with a text, the post passes the language filter and the text matches a
  -- keyword that is not blank; it sends one alert at most.
  pub handle_iff :
      (keywords langs : List Str) (ev : Event)
      → ((handle to_lower matches unmarshal (new_content to_lower trim_space keywords langs) ev
            ≢ [])
          ↔ ((ev.key.operation ≢ op_delete)
              × ((rec : PostRecord) × (decode unmarshal ev.body ≡ some rec)
                  × (rec.body ≢ [])
                  × Speaks to_lower langs rec
                  × Mentions to_lower trim_space matches keywords rec.body)))
        × (length (
              handle to_lower matches unmarshal (new_content to_lower trim_space keywords langs) ev)
            ≤ 1)
  unfolding handle handle_post new_content
  handle_iff keywords langs ev = elim (Bool-cases (ev.key.operation == op_delete)) [
    | inl delete ↦
        rw (delete, handle)
          (
            (
              λ h. absurd (h refl),
              λ h. absurd (h.0 ((eq_iff ev.key.operation op_delete).0 delete)),
            ),
            omega arith,
          )
    | inr kept ↦ elim (Option-cases (decode unmarshal ev.body)) [
      | inl absent ↦
          rw (kept, handle, absent)
            ((λ h. absurd (h refl), λ (_, (rec, found, _, _, _)). cc), omega arith)
      | inr (rec, found) ↦ elim (Bool-cases (rec.body == [])) [
        | inl blank ↦
            rw (kept, handle, found, blank)
              (
                (
                  λ h. absurd (h refl),
                  λ (_, (rec', found', full, _, _)).
                      absurd (full (ground (arith, (eq_iff rec.body []).0 blank))),
                ),
                omega arith,
              )
        | inr full ↦
            let c = new_content to_lower trim_space keywords langs in
            let ((only, all), one) = handle_post_iff c ev rec in
            let speaks = language_passes_iff to_lower langs rec in
            let mentions = hits_iff to_lower trim_space matches keywords rec.body in
            rw (kept, handle, found, full)
              (
                (
                  λ h.
                      let (language, hit) = only h in
                      (
                        λ e. absurd (ground (arith, (eq_iff ev.key.operation op_delete).1 e)),
                        (
                          rec,
                          refl,
                          λ e. absurd (ground (arith, (eq_iff rec.body []).1 e)),
                          speaks.0 language,
                          mentions.0 hit,
                        ),
                      ),
                  λ (_, (rec', found', _, language, hit)).
                      let same : rec' ≡ rec = ground arith in
                      all (speaks.1 (subst (Speaks to_lower langs) same language)) (
                        mentions.1 (
                          subst (λ r. Mentions to_lower trim_space matches keywords r.body) same
                            hit)),
                ),
                one,
              )
      ]
    ]
  ]

  -- An alert tells nothing of a text but its length and the keywords that match it: two posts
  -- that agree in these, in their languages, key, DID and rkey make the same alerts.
  pub handle_private :
      (c : Content) (ev ev' : Event) (rec rec' : PostRecord)
      → decode unmarshal ev.body ≡ some rec
      → decode unmarshal ev'.body ≡ some rec'
      → (ev.key ≡ ev'.key) × (ev.did ≡ ev'.did) × (ev.rkey ≡ ev'.rkey)
      → rec.langs ≡ rec'.langs
      → length rec.body ≡ length rec'.body
      → ((k : Keyword)
          → Has k c.patterns
          → matches k.pattern rec.body ≡ matches k.pattern rec'.body)
      → handle to_lower matches unmarshal c ev ≡ handle to_lower matches unmarshal c ev'
  unfolding handle handle_post
  handle_private c ev ev' rec rec' found found' same langs len fits =
      let same_op : (ev.key.operation == op_delete) ≡ (ev'.key.operation == op_delete) =
        ap (λ k. k.operation == op_delete) same.0 in
      let blank : (rec.body == []) ≡ (rec'.body == []) = same_blank rec.body rec'.body len in
      elim (Bool-cases (ev.key.operation == op_delete)) [
        | inl delete ↦
            let delete' : (ev'.key.operation == op_delete) ≡ true = sym same_op ∙ delete in
            rw (delete, delete', handle) refl
        | inr kept ↦
            let kept' : (ev'.key.operation == op_delete) ≡ false = sym same_op ∙ kept in
            rw (kept, kept', handle, found, found', sym blank)
              (ap (λ x. if rec.body == [] then [] else x)
                (handle_post_private c ev ev' rec rec' same langs len fits))
      ]
