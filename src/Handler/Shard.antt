-- ===== src/Handler/Shard.antt =====
-- internal/handler/shard.go: the state of a route, partitioned by key. A call holds the lock of
-- the one shard that it reads and writes, so calls on a shard follow one another. `visit` is the
-- order in which `range` goes over a map; it is Go's to choose.
pub mod Lookup
pub mod Invariant
pub mod Observe
pub mod Twice
pub mod Again
use Prim.Native.Nat.{bit_xor}
use jetstream_router.Common.{
  ℕ, zero, suc, ◌+◌, ◌*◌, ◌%◌, ◌^◌, Bool, true, false, Option, none, some, List, [], ◌∷◌, get_elem?,
  length, if◌then◌else◌, ltb, leb, eqb,
}
use jetstream_router.Common.Int.{ℤ, pos, pos_part, leb_ℤ, ltb_ℤ}
use jetstream_router.Common.Str.{Str}
use jetstream_router.Handler.Window.{Window, Element, new_window, add, sweep, len}
use jetstream_router.Handler.Throttle.{Throttle, new_throttle, allow}
use jetstream_router.Handler.Dedup.{Dedup, new_dedup, seen}

abbrev pub sweep_every : ℕ
sweep_every = 2048

-- internal/handler/handler.go, `Limits`.
pub record Limits : Type 0 where
  pub max_keys_per_shard : ℤ
  pub dedup_us : ℤ

-- The metrics of a route that a shard writes.
pub record Metrics : Type 0 where
  pub duplicates : ℕ
  pub alerts_throttled : ℕ
  pub state_entries : ℕ

pub record Shard : Type 0 where
  pub window : Window
  pub throttle : Throttle
  pub dedup : Dedup
  pub since_sweep : ℕ

pub record ShardSet : Type 0 where
  pub shards : List Shard
  pub metrics : Metrics

-- The three results of `observe`.
pub record Observed : Type 0 where
  pub count : ℕ
  pub dup : Bool
  pub alert : Bool

unfoldable pub new_shard : ℤ → Limits → Shard
new_shard window_us l = record {
  window = new_window window_us l.max_keys_per_shard;
  throttle = new_throttle window_us l.max_keys_per_shard;
  dedup = new_dedup l.dedup_us l.max_keys_per_shard;
  since_sweep = 0;
}

unfoldable pub replicate : {A : Type 0} → ℕ → A → List A
replicate zero x = []
replicate (suc n) x = x ∷ replicate n x

-- `newShardSet`
unfoldable pub new_shard_set : ℤ → ℤ → Limits → ShardSet
new_shard_set n window_us l = record {
  shards = replicate (if ltb_ℤ n (pos 1) then 1 else pos_part n) (new_shard window_us l);
  metrics = record { duplicates = 0; alerts_throttled = 0; state_entries = 0 };
}

-- `hash/fnv`, `New32a` and `Write`: the hash after some bytes, from the hash before them.
unfoldable pub fnv32a : ℕ → Str → ℕ
fnv32a h [] = h
fnv32a h (b ∷ bs) = fnv32a (bit_xor h b * 16777619 % 2 ^ 32) bs

-- The index that `for_` picks among so many shards.
unfoldable pub index_for : Str → ℕ → ℕ
index_for key n = if eqb n 1 then 0 else fnv32a 2166136261 key % n

unfoldable pub set_at : ℕ → Shard → List Shard → List Shard
set_at i sh [] = []
set_at zero sh (s ∷ ss) = sh ∷ ss
set_at (suc i) sh (s ∷ ss) = s ∷ set_at i sh ss

-- The end of `observe`: whether an alert may fire.
unfoldable pub decide : Str → ℤ → ℤ → ℕ → Shard → Metrics → Shard × Metrics × Observed
decide key now_us threshold count sh m =
    if ltb_ℤ (pos count) threshold
    then (sh, m, record { count = count; dup = false; alert = false })
    else (let (throttle, allowed) = allow key now_us sh.throttle in
        let sh' = record sh { throttle = throttle } in
        if allowed then (sh', m, record { count = count; dup = false; alert = true }) else (
          sh',
          record m { alerts_throttled = suc m.alerts_throttled },
          record { count = count; dup = false; alert = false },
        ))

module _ (visit : List (Str × Element) → List Str) where
  -- The TTL sweep, after a key has been counted.
  unfoldable pub tick : ℤ → Shard → Shard
  tick now_us sh =
      let since = suc sh.since_sweep in
      if leb sweep_every since
      then record sh { since_sweep = 0; window = sweep (visit sh.window.entries) now_us sh.window }
      else record sh { since_sweep = since }

  -- `observe`, for an event that `Seen` has not seen before.
  unfoldable pub observe_new : Str → ℤ → ℤ → Shard → Metrics → Shard × Metrics × Observed
  observe_new key now_us threshold sh m =
      let (window, count) = add key now_us sh.window in
      let sh' = tick now_us (record sh { window = window }) in
      decide key now_us threshold count sh' (record m { state_entries = len sh'.window })

  -- `observe`, on the shard whose lock it holds.
  unfoldable pub observe_shard : Str → Str → ℤ → ℤ → Shard → Metrics → Shard × Metrics × Observed
  observe_shard key dedup_key now_us threshold sh m =
      let (dedup, dup) = seen dedup_key now_us sh.dedup in
      let sh' = record sh { dedup = dedup } in
      if dup
      then (
        sh',
        record m { duplicates = suc m.duplicates },
        record { count = 0; dup = true; alert = false },
      )
      else observe_new key now_us threshold sh' m

  -- `observe` writes back what its shard has become; `none` is an index that is out of range.
  unfoldable pub observe_at :
      Option Shard → ℕ → Str → Str → ℤ → ℤ → ShardSet → Option (ShardSet × Observed)
  observe_at none i key dedup_key now_us threshold s = none
  observe_at (some sh) i key dedup_key now_us threshold s =
      let (sh', m, o) = observe_shard key dedup_key now_us threshold sh s.metrics in
      some (record s { shards = set_at i sh' s.shards; metrics = m }, o)

  -- `observe`
  unfoldable pub observe : Str → Str → ℤ → ℤ → ShardSet → Option (ShardSet × Observed)
  observe key dedup_key now_us threshold s =
      let i = index_for key (length s.shards) in
      observe_at (get_elem? s.shards i) i key dedup_key now_us threshold s
