-- ===== src/Handler/Dedup/Invariant.antt =====
-- The invariant of `Dedup`: the two maps and the list hold the same keys, and never more than
-- the cap.
use jetstream_router.Common.{
  suc, ◌≡◌, refl, ap, sym, subst, false, some, List, ◌++◌, length, arith, Bool-cases, Option-cases,
  inl, inr,
}
use jetstream_router.Common.Int.{ℤ, pos, ◌≤ℤ◌, leb_ℤ, sub64}
use jetstream_router.Common.Str.{Str, eq_iff, eq_refl}
use jetstream_router.Common.Maps.{
  lookup, insert, delete, lookup-insert, insert-Distinct, length-insert,
}
use jetstream_router.Handler.Dedup.{
  Dedup, new_dedup, remove_key, remove, evict_from, record_key, seen,
}
use jetstream_router.Handler.Dedup.Order.{has, has-remove_key, has-append_left}
use jetstream_router.Handler.Dedup.Links.{IsLinked, remove_lem, remove-IsLinked}
use jetstream_router.Handler.Dedup.Eviction.{Evicts, evict_from-Evicts}

pub record IsValid (d : Dedup) : Type 0 where
  pub linked : IsLinked d
  pub bounded : pos (length d.seen) ≤ℤ d.max_keys
  pub positive : pos 1 ≤ℤ d.max_keys

pub new_dedup-IsValid : (window_us max_keys : ℤ) → IsValid (new_dedup window_us max_keys)
unfolding new_dedup has lookup
new_dedup-IsValid window_us max_keys = record {
  linked = record {
    agree = λ k. refl;
    times = λ k h. refl;
    keys = λ k h. refl;
    distinct = tt;
    unique = tt;
    same_size = refl;
  };
  bounded = ground arith;
  positive = ground arith;
}

pub has-append_false : (k : Str) (ks js : List Str) → has k (ks ++ js) ≡ false → has k ks ≡ false
unfolding has
has-append_false k ks js h = elim (Bool-cases (has k ks)) [
  | inl t ↦ absurd (ground (arith, has-append_left k ks js t))
  | inr f ↦ f
]

pub record_key-Evicts :
    (key : Str) (now_us : ℤ) (d : Dedup)
    → IsLinked d
    → pos 1 ≤ℤ d.max_keys
    → Evicts d (evict_from (suc (length d.order)) d)
record_key-Evicts key now_us d l p = evict_from-Evicts (suc (length d.order)) d (omega arith) l p

-- A key that is not there is recorded.
pub record_key-IsValid :
    (key : Str) (now_us : ℤ) (d : Dedup)
    → IsLinked d
    → pos 1 ≤ℤ d.max_keys
    → has key d.order ≡ false
    → IsValid (record_key key now_us d)
unfolding record_key has
record_key-IsValid key now_us d l p absent =
    let r = record_key-Evicts key now_us d l p in
    let d' = evict_from (suc (length d.order)) d in
    let gone : has key d'.order ≡ false =
      has-append_false key d'.order r.dropped (subst (λ x. has key x ≡ false) r.split absent) in
    record {
      linked = record {
        agree =
            λ j. ground (arith, lookup-insert key j key d'.elems, r.linked.agree j, eq_iff key j);
        times = λ j h. ground (arith, lookup-insert key j now_us d'.seen, r.linked.times j);
        keys = λ j h. ground (arith, lookup-insert key j now_us d'.seen, r.linked.keys j);
        distinct = insert-Distinct key now_us d'.seen r.linked.distinct;
        unique = (gone, r.linked.unique);
        same_size =
            ground
              (arith, length-insert key now_us d'.seen, r.linked.keys key gone, r.linked.same_size);
      };
      bounded =
          subst (λ m. pos (length (insert key now_us d'.seen)) ≤ℤ m) (sym r.same_max)
            (ground (
              arith,
              length-insert key now_us d'.seen,
              r.linked.keys key gone,
              r.linked.same_size,
              r.room,
            ));
      positive = subst (λ m. pos 1 ≤ℤ m) (sym r.same_max) p;
    }

-- The state that `Seen` records a stale key in: the key is gone.
pub remove_stale :
    (key : Str) (d : Dedup) (at : ℤ)
    → IsLinked d
    → lookup key d.seen ≡ some at
    → IsLinked (remove key d)
      × ((remove key d).max_keys ≡ d.max_keys)
      × ((remove key d).order ≡ remove_key key d.order)
      × (has key (remove key d).order ≡ false)
      × ((remove key d).window_us ≡ d.window_us)
      × ((remove key d).seen ≡ delete key d.seen)
remove_stale key d at l found = elim (Bool-cases (has key d.order)) [
  | inr gone ↦ absurd (ground (arith, l.keys key gone))
  | inl here ↦
      let removed = remove_lem key d l here in
      let order = ap (λ x. x.order) removed in
      (
        remove-IsLinked key d l here,
        ap (λ x. x.max_keys) removed,
        order,
        rw order (ground (arith, has-remove_key key key d.order l.unique, eq_refl key)),
        ap (λ x. x.window_us) removed,
        ap (λ x. x.seen) removed,
      )
]

-- Seen keeps the invariant of Dedup: both maps and the list hold the same keys, each once, and
-- never more keys than the cap.
pub seen-IsValid : (key : Str) (now_us : ℤ) (d : Dedup) → IsValid d → IsValid (seen key now_us d).0
unfolding seen
seen-IsValid key now_us d v = elim (Option-cases (lookup key d.seen)) [
  | inl absent ↦
      rw (absent, seen)
        (record_key-IsValid key now_us d v.linked v.positive (v.linked.times key absent))
  | inr (at, found) ↦ elim (Bool-cases (leb_ℤ (sub64 now_us at) d.window_us)) [
    | inl early ↦ rw (found, seen, early) v
    | inr late ↦
        let (linked, max, _, gone, _, _) = remove_stale key d at v.linked found in
        rw (found, seen, late)
          (record_key-IsValid key now_us (remove key d) linked
            (subst (λ m. pos 1 ≤ℤ m) (sym max) v.positive) gone)
  ]
]
