-- ===== src/Handler/Dedup/Links.antt =====
-- The maps of `Dedup` and its list hold the same keys.
use jetstream_router.Common.{
  ◌≡◌, refl, true, false, none, some, length, if◌then◌else◌, arith, Option-cases, inl, inr,
}
use jetstream_router.Common.Str.{Str, eq_iff}
use jetstream_router.Common.Maps.{
  lookup, delete, Distinct, lookup-delete, delete-Distinct, length-delete,
}
use jetstream_router.Handler.Dedup.{Dedup, remove_key, remove}
use jetstream_router.Handler.Dedup.Order.{
  has, Unique, has-remove_key, remove_key-Unique, length-remove_key,
}

pub record IsLinked (d : Dedup) : Type 0 where
  pub agree : (k : Str) → lookup k d.elems ≡ (if has k d.order then some k else none)
  pub times : (k : Str) → (lookup k d.seen ≡ none) → has k d.order ≡ false
  pub keys : (k : Str) → has k d.order ≡ false → lookup k d.seen ≡ none
  pub distinct : Distinct d.seen
  pub unique : Unique d.order
  pub same_size : length d.seen ≡ length d.order

-- `remove` of a key that is there.
pub remove_lem :
    (k : Str) (d : Dedup)
    → IsLinked d
    → has k d.order ≡ true
    → remove k d
      ≡ record d { order = remove_key k d.order; elems = delete k d.elems; seen = delete k d.seen }
unfolding remove
remove_lem k d l here =
    let found : lookup k d.elems ≡ some k = ground (arith, l.agree k) in rw (found, remove) refl

pub remove-IsLinked :
    (k : Str) (d : Dedup) → IsLinked d → has k d.order ≡ true → IsLinked (remove k d)
remove-IsLinked k d l here = rw (remove_lem k d l here) (record {
  agree = λ j. ground (
    arith,
    lookup-delete k j d.elems,
    has-remove_key k j d.order l.unique,
    l.agree j,
    eq_iff k j,
  );
  times = λ j h.
      ground (arith, lookup-delete k j d.seen, has-remove_key k j d.order l.unique, l.times j);
  keys = λ j h.
      ground (arith, lookup-delete k j d.seen, has-remove_key k j d.order l.unique, l.keys j);
  distinct = delete-Distinct k d.seen l.distinct;
  unique = remove_key-Unique k d.order l.unique;
  same_size = elim (Option-cases (lookup k d.seen)) [
    | inl absent ↦ absurd (ground (arith, l.times k absent))
    | inr (at, found) ↦ omega (
      arith,
      length-delete k d.seen at l.distinct found,
      length-remove_key k d.order here,
      l.same_size,
    )
  ];
})
