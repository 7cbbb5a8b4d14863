-- ===== src/Handler/Dedup.antt =====
-- internal/handler/state.go, `Dedup`. A list element is named by its key, as in `Window`.
-- `evicted` records the calls of `onEvict`.
pub mod Order
pub mod Links
pub mod Eviction
pub mod Invariant
pub mod Memory
use jetstream_router.Common.{
  ℕ, zero, suc, Bool, true, false, Option, none, some, List, [], ◌∷◌, ◌++◌, length, if◌then◌else◌,
}
use jetstream_router.Common.Int.{ℤ, pos, leb_ℤ, sub64}
use jetstream_router.Common.Str.{Str, lit, ◌==◌}
use jetstream_router.Common.Maps.{lookup, insert, delete}

pub record Dedup : Type 0 where
  pub window_us : ℤ
  pub max_keys : ℤ
  pub seen : List (Str × ℤ)
  pub order : List Str
  pub elems : List (Str × Str)
  pub evicted : List Str

-- `NewDedup`
unfoldable pub new_dedup : ℤ → ℤ → Dedup
new_dedup window_us max_keys = record {
  window_us = window_us;
  max_keys = if leb_ℤ max_keys (pos 0) then pos 50000 else max_keys;
  seen = [];
  order = [];
  elems = [];
  evicted = [];
}

-- `list.Remove`
unfoldable pub remove_key : Str → List Str → List Str
remove_key el [] = []
remove_key el (k ∷ ks) = if k == el then ks else k ∷ remove_key el ks

-- `list.Back`
unfoldable pub back : List Str → Option Str
back [] = none
back (k ∷ []) = some k
back (k ∷ j ∷ ks) = back (j ∷ ks)

unfoldable pub remove : Str → Dedup → Dedup
remove key d = elim (lookup key d.elems) [
  | none ↦ record d { seen = delete key d.seen }
  | some el ↦ record d {
    order = remove_key el d.order;
    elems = delete key d.elems;
    seen = delete key d.seen;
  }
]

-- The loop of `Seen`; each round removes an element, so the list bounds the rounds.
unfoldable pub evict_from : ℕ → Dedup → Dedup
evict_from zero d = d
evict_from (suc fuel) d =
    if leb_ℤ d.max_keys (pos (length d.seen))
    then (elim (back d.order) [
      | none ↦ d
      | some key ↦
          let d' = remove key d in
          evict_from fuel (record d' { evicted = d'.evicted ++ lit "size" ∷ [] })
    ])
    else d

-- The part of `Seen` that records a key that is not there.
unfoldable pub record_key : Str → ℤ → Dedup → Dedup
record_key key now_us d =
    let d' = evict_from (suc (length d.order)) d in
    record d' {
      seen = insert key now_us d'.seen;
      order = key ∷ d'.order;
      elems = insert key key d'.elems;
    }

-- `Seen`
unfoldable pub seen : Str → ℤ → Dedup → Dedup × Bool
seen key now_us d = elim (lookup key d.seen) [
  | none ↦ (record_key key now_us d, false)
  | some at ↦
      if leb_ℤ (sub64 now_us at) d.window_us
      then (d, true)
      else (record_key key now_us (remove key d), false)
]

-- `Len`
abbrev pub len : Dedup → ℕ
len d = length d.seen
