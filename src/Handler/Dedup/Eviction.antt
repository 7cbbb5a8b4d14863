-- ===== src/Handler/Dedup/Eviction.antt =====
-- The loop of `Seen` that makes room for a key.
use jetstream_router.Common.{
  ℕ, zero, suc, ◌<◌, ◌≡◌, ◌⊎◌, refl, ap, sym, ◌∙◌, subst, true, false, List, [], ◌∷◌, ◌++◌,
  append-nil, append_assoc, length, length-append, arith, Bool-cases, Option-cases, inl, inr,
}
use jetstream_router.Common.Int.{pos, ◌≤ℤ◌, leb_ℤ}
use jetstream_router.Common.Str.{Str, eq_iff, eq_refl}
use jetstream_router.Common.Maps.{lookup, delete, lookup-delete}
use jetstream_router.Handler.Dedup.{Dedup, remove_key, back, remove, evict_from}
use jetstream_router.Handler.Dedup.Order.{
  has, Unique, has-remove_key, back_split, back-none, has-concat, remove_key_back, has-append_left,
}
use jetstream_router.Handler.Dedup.Links.{IsLinked, remove_lem, remove-IsLinked}

-- What the loop of `Seen` does: there is room for one more key, and the keys that are gone stood
-- at the back of the list.
pub record Evicts (d d' : Dedup) : Type 0 where
  pub linked : IsLinked d'
  pub room : pos (suc (length d'.order)) ≤ℤ d.max_keys
  pub same_max : d'.max_keys ≡ d.max_keys
  pub same_window : d'.window_us ≡ d.window_us
  pub dropped : List Str
  pub split : d.order ≡ d'.order ++ dropped
  pub needed : (dropped ≡ []) ⊎ (pos (suc (length d'.order)) ≡ d.max_keys)
  pub kept : (k : Str) → has k d'.order ≡ true → lookup k d'.seen ≡ lookup k d.seen

-- One round of the loop, before the rounds that follow it.
Evicts-step :
    {d e d' : Dedup} (front : List Str) (k : Str)
    → d.order ≡ front ++ k ∷ []
    → Unique d.order
    → d.max_keys ≤ℤ pos (length d.order)
    → e.order ≡ front
    → e.max_keys ≡ d.max_keys
    → e.window_us ≡ d.window_us
    → e.seen ≡ delete k d.seen
    → Evicts e d'
    → Evicts d d'
Evicts-step {d} {e} {d'} front k split u full front_left same_max same_window deleted r = record {
  linked = r.linked;
  room = subst (λ m. pos (suc (length d'.order)) ≤ℤ m) same_max r.room;
  same_max = r.same_max ∙ same_max;
  same_window = r.same_window ∙ same_window;
  dropped = r.dropped ++ k ∷ [];
  split =
      split
      ∙ ap (λ x. x ++ k ∷ []) (sym front_left ∙ r.split)
      ∙ append_assoc d'.order r.dropped (k ∷ []);
  needed = inr (elim r.needed [
    | inr exact ↦ exact ∙ same_max
    | inl nothing ↦
        let kept : front ≡ d'.order =
          sym front_left ∙ r.split ∙ ap (λ x. d'.order ++ x) nothing ∙ append-nil d'.order in
        let room = subst (λ m. pos (suc (length d'.order)) ≤ℤ m) same_max r.room in
        ground (arith, ap length split, ap length kept, length-append front (k ∷ []), room)
  ]);
  kept = λ j here.
      let left : has j front ≡ true =
        subst (λ x. has j x ≡ true) (sym r.split ∙ front_left)
          (has-append_left j d'.order r.dropped here) in
      let gone : has k front ≡ false = ground (
        arith,
        has-remove_key k k d.order u,
        eq_refl k,
        ap (λ x. has k (remove_key k x)) split,
        ap (has k) (remove_key_back front k (subst Unique split u)),
      ) in
      ground (arith, r.kept j here, ap (lookup j) deleted, lookup-delete k j d.seen, eq_iff k j);
}

pub evict_from-Evicts :
    (fuel : ℕ) (d : Dedup)
    → length d.order < fuel
    → IsLinked d
    → pos 1 ≤ℤ d.max_keys
    → Evicts d (evict_from fuel d)
unfolding evict_from
evict_from-Evicts zero d h l p = elim h [ ]
evict_from-Evicts (suc fuel) d h l p = elim (Bool-cases (leb_ℤ d.max_keys (pos (length d.seen)))) [
  | inr room ↦
      rw (room, evict_from)
        (record {
          linked = l;
          room = ground (arith, l.same_size);
          same_max = refl;
          same_window = refl;
          dropped = [];
          split = sym (append-nil d.order);
          needed = inl refl;
          kept = λ k here. refl;
        })
  | inl full ↦ elim (Option-cases (back d.order)) [
    | inl none_ ↦ absurd (ground (arith, ap length (back-none d.order none_), l.same_size))
    | inr (k, last) ↦
        let (front, split) = back_split d.order k last in
        let front_left : remove_key k d.order ≡ front =
          rw split (remove_key_back front k (subst Unique split l.unique)) in
        let here : has k d.order ≡ true = rw split (has-concat front k) in
        let removed = remove_lem k d l here in
        let linked = remove-IsLinked k d l here in
        let order : (remove k d).order ≡ front = ap (λ x. x.order) removed ∙ front_left in
        let max : (remove k d).max_keys ≡ d.max_keys = ap (λ x. x.max_keys) removed in
        rw (full, evict_from, last)
          (Evicts-step front k split l.unique (ground (arith, l.same_size)) order max
            (ap (λ x. x.window_us) removed) (ap (λ x. x.seen) removed)
            (evict_from-Evicts fuel _
              (omega (arith, ap length split, ap length order, length-append front (k ∷ [])))
              (record {
                agree = linked.agree;
                times = linked.times;
                keys = linked.keys;
                distinct = linked.distinct;
                unique = linked.unique;
                same_size = linked.same_size;
              })
              (subst (λ m. pos 1 ≤ℤ m) (sym max) p)))
  ]
]
