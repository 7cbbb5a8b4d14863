-- ===== src/Handler/Throttle.antt =====
-- internal/handler/state.go, `Throttle`. `evicted` records the calls of `onEvict`.
pub mod Laws
use jetstream_router.Common.{
  ℕ, Bool, true, false, none, some, List, [], ◌∷◌, ◌++◌, length, if◌then◌else◌,
}
use jetstream_router.Common.Int.{ℤ, pos, leb_ℤ, ltb_ℤ, sub64}
use jetstream_router.Common.Str.{Str, lit}
use jetstream_router.Common.Maps.{lookup, insert}

pub record Throttle : Type 0 where
  pub interval_us : ℤ
  pub last : List (Str × ℤ)
  pub max_keys : ℤ
  pub evicted : List Str

-- `NewThrottle`
unfoldable pub new_throttle : ℤ → ℤ → Throttle
new_throttle interval_us max_keys = record {
  interval_us = interval_us;
  last = [];
  max_keys = if leb_ℤ max_keys (pos 0) then pos 10000 else max_keys;
  evicted = [];
}

-- The guard at the top of `Allow`.
unfoldable pub blocked : Str → ℤ → Throttle → Bool
blocked key now_us t = elim (lookup key t.last) [
  | none ↦ false
  | some at ↦ ltb_ℤ (sub64 now_us at) t.interval_us
]

-- The bound on the table.
unfoldable pub make_room : Throttle → Throttle
make_room t =
    if leb_ℤ t.max_keys (pos (length t.last))
    then record t { last = []; evicted = t.evicted ++ lit "size" ∷ [] }
    else t

-- `Allow`
unfoldable pub allow : Str → ℤ → Throttle → Throttle × Bool
allow key now_us t =
    if blocked key now_us t
    then (t, false)
    else (let t' = make_room t in (record t' { last = insert key now_us t'.last }, true))
