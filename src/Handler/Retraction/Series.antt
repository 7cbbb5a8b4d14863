-- ===== src/Handler/Retraction/Series.antt =====
-- The time series that deletions can make.
use jetstream_router.Common.{
  ◌+◌, ◌≡◌, refl, subst, Bool, true, false, List, [], ◌∷◌, All, Has, length, arith, Bool-cases, inl,
  inr,
}
use jetstream_router.Common.Str.{Str, lit, ◌==◌, eq_iff}
use jetstream_router.Common.Maps.{lookup}
use jetstream_router.Event.{Event}
use jetstream_router.Handler.Retraction.{
  Retraction, index, label, resolution, handle, handle_all, known_collections, counted_collections,
}

-- The collections of a `map[string]bool` whose values are all true.
abbrev keys : List (Str × Bool) → List Str
keys [] = []
keys ((k, _) ∷ m) = k ∷ keys m

index-Has : (k : Str) (m : List (Str × Bool)) → index k m ≡ true → Has k (keys m)
unfolding index lookup
index-Has k [] h = cc
index-Has k ((j, b) ∷ m) h = elim (Bool-cases (j == k)) [
  | inl same ↦ inl ((eq_iff j k).0 same)
  | inr other ↦ inr (index-Has k m (rw (other, index, lookup) at h))
]

-- The pairs of labels that `Handle` can count under.
abbrev pub series : List (Str × Str)
series =
    (lit "app.bsky.feed.like", lit "no-index")
    ∷ (lit "app.bsky.feed.repost", lit "no-index")
    ∷ (lit "app.bsky.graph.follow", lit "no-index")
    ∷ (lit "app.bsky.feed.post", lit "not-applicable")
    ∷ (lit "other", lit "not-applicable")
    ∷ []

not-counted : (c : Str) → index c known_collections ≡ false → index c counted_collections ≡ false
unfolding index lookup
not-counted c h = ground arith

-- A collection that is known is one of four.
pub known_cases :
    (P : Str → Type 0) (c : Str)
    → index c known_collections ≡ true
    → P (lit "app.bsky.feed.like")
    → P (lit "app.bsky.feed.repost")
    → P (lit "app.bsky.graph.follow")
    → P (lit "app.bsky.feed.post")
    → P c
known_cases P c known like repost follow post = elim (index-Has c known_collections known) [
  | inl e ↦ subst P e like
  | inr (inl e) ↦ subst P e repost
  | inr (inr (inl e)) ↦ subst P e follow
  | inr (inr (inr (inl e))) ↦ subst P e post
  | inr (inr (inr (inr h))) ↦ absurd h
]

labels-Has : (c : Str) → Has (label c, resolution c) series
unfolding label resolution index lookup ◌==◌
labels-Has c = elim (Bool-cases (index c known_collections)) [
  | inl known ↦
      known_cases (λ x. Has (label x, resolution x) series) c known (inl refl) (inr (inl refl))
        (inr (inr (inl refl))) (inr (inr (inr (inl refl))))
  | inr unknown ↦
      let uncounted : index c counted_collections ≡ false = not-counted c unknown in
      rw (unknown, label, uncounted, resolution) (inr (inr (inr (inr (inl refl)))))
]

-- Where every increment so far was under one of five pairs of labels, the increments for any list
-- of deletes are too, one for each event, whatever collections strangers delete from.
pub handle_all-series :
    (r : Retraction) (evs : List Event)
    → All (λ p. Has p series) r.retractions
    → All (λ p. Has p series) (handle_all r evs).retractions
      × (length (handle_all r evs).retractions ≡ length evs + length r.retractions)
unfolding handle_all handle
handle_all-series r [] h = (h, omega arith)
handle_all-series r (ev ∷ evs) h =
    let (fits, total) = handle_all-series (handle r ev) evs (labels-Has ev.key.collection, h) in
    (fits, omega (arith, total))
