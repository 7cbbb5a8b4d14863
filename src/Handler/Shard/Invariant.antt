-- ===== src/Handler/Shard/Invariant.antt =====
-- The invariant of a shard set, and that `observe` always finds a shard and keeps it.
use jetstream_router.Common.{
  ℕ, zero, suc, ◌<◌, ◌≡◌, ◌↔◌, refl, ap, some, List, Has, IsOnce, All, length, leb, arith,
  Bool-cases, inl, inr,
}
use jetstream_router.Common.Int.{ℤ, pos, ltb_ℤ}
use jetstream_router.Common.Str.{Str}
use jetstream_router.Common.Maps.{lookup, Distinct}
use jetstream_router.Handler.Window.{Element}
use jetstream_router.Handler.Window.Invariant as WindowInvariant
use jetstream_router.Handler.Window.Sweep.{sweep_lem}
use jetstream_router.Handler.Throttle.{allow}
use jetstream_router.Handler.Throttle.Laws as ThrottleLaws
use jetstream_router.Handler.Dedup.{seen}
use jetstream_router.Handler.Dedup.Invariant as DedupInvariant
use jetstream_router.Handler.Shard.{
  Limits, Metrics, Shard, ShardSet, Observed, new_shard, new_shard_set, replicate, index_for,
  set_at, tick, decide, observe_new, observe_shard, observe_at, observe, sweep_every,
}
use jetstream_router.Handler.Shard.Lookup.{
  index_for-length, get_elem-length, All-get_elem, length-set_at, All-set_at,
}

-- `range` visits every key of a map, and each once.
abbrev pub VisitsAll : (List (Str × Element) → List Str) → Type 0
VisitsAll visit =
    (m : List (Str × Element))
    → Distinct m
    → IsOnce (visit m) × ((k : Str) → Has k (visit m) ↔ ((v : Element) × (lookup k m ≡ some v)))

pub record IsValid (sh : Shard) : Type 0 where
  pub window : WindowInvariant.IsValid sh.window
  pub throttle : ThrottleLaws.IsValid sh.throttle
  pub dedup : DedupInvariant.IsValid sh.dedup
  pub sweeps : sh.since_sweep < sweep_every

abbrev pub AllValid : ShardSet → Type 0
AllValid s = All IsValid s.shards × (0 < length s.shards)

All-replicate : (n : ℕ) (sh : Shard) → IsValid sh → All IsValid (replicate n sh)
unfolding replicate
All-replicate zero sh v = tt
All-replicate (suc n) sh v = (v, All-replicate n sh v)

length-replicate : (n : ℕ) (sh : Shard) → length (replicate n sh) ≡ n
unfolding replicate
length-replicate zero sh = refl
length-replicate (suc n) sh = ap suc (length-replicate n sh)

pub new_shard_set-AllValid : (n window_us : ℤ) (l : Limits) → AllValid (new_shard_set n window_us l)
unfolding new_shard_set new_shard
new_shard_set-AllValid n window_us l = (
  All-replicate _ _ (record {
    window = (WindowInvariant.new_window-IsValid window_us l.max_keys_per_shard).0;
    throttle = ThrottleLaws.new_throttle-IsValid window_us l.max_keys_per_shard;
    dedup = DedupInvariant.new_dedup-IsValid l.dedup_us l.max_keys_per_shard;
    sweeps = omega arith;
  }),
  rw (length-replicate _ (new_shard window_us l)) (ground arith),
)

decide-IsValid :
    (key : Str) (now_us threshold : ℤ) (count : ℕ) (sh : Shard) (m : Metrics)
    → IsValid sh
    → IsValid (decide key now_us threshold count sh m).0
unfolding decide
decide-IsValid key now_us threshold count sh m v =
    let allowed = ThrottleLaws.allow-IsValid key now_us sh.throttle v.throttle in
    elim (Bool-cases (ltb_ℤ (pos count) threshold)) [
      | inl below ↦ rw (below, decide) v
      | inr reached ↦ elim (Bool-cases (allow key now_us sh.throttle).1) [
        | inl fires ↦
            rw (reached, decide, fires)
              (record { window = v.window; throttle = allowed; dedup = v.dedup; sweeps = v.sweeps })
        | inr held ↦
            rw (reached, decide, held)
              (record { window = v.window; throttle = allowed; dedup = v.dedup; sweeps = v.sweeps })
      ]
    ]

module _ (visit : List (Str × Element) → List Str) (visits : VisitsAll visit) where
  tick-IsValid : (now_us : ℤ) (sh : Shard) → IsValid sh → IsValid (tick visit now_us sh)
  unfolding tick
  tick-IsValid now_us sh v = elim (Bool-cases (leb sweep_every (suc sh.since_sweep))) [
    | inl due ↦
        let (once, all) = visits sh.window.entries v.window.linked.distinct in
        rw (due, tick)
          (record {
            window =
                (sweep_lem (visit sh.window.entries) now_us sh.window v.window once (λ k. (
                  λ h. let (e, found) = (all k).0 h in ground (arith, v.window.linked.agree k),
                  λ h. (all k).1 (k, ground (arith, v.window.linked.agree k)),
                ))).0;
            throttle = v.throttle;
            dedup = v.dedup;
            sweeps = omega arith;
          })
    | inr early ↦
        rw (early, tick)
          (record {
            window = v.window;
            throttle = v.throttle;
            dedup = v.dedup;
            sweeps = ground arith;
          })
  ]

  observe_new-IsValid :
      (key : Str) (now_us threshold : ℤ) (sh : Shard) (m : Metrics)
      → IsValid sh
      → IsValid (observe_new visit key now_us threshold sh m).0
  unfolding observe_new
  observe_new-IsValid key now_us threshold sh m v = decide-IsValid key now_us threshold _ _ _ (
      tick-IsValid now_us _ (record {
        window = WindowInvariant.add-IsValid key now_us sh.window v.window;
        throttle = v.throttle;
        dedup = v.dedup;
        sweeps = v.sweeps;
      }))

  observe_shard-IsValid :
      (key dedup_key : Str) (now_us threshold : ℤ) (sh : Shard) (m : Metrics)
      → IsValid sh
      → IsValid (observe_shard visit key dedup_key now_us threshold sh m).0
  unfolding observe_shard
  observe_shard-IsValid key dedup_key now_us threshold sh m v =
      let dedup = DedupInvariant.seen-IsValid dedup_key now_us sh.dedup v.dedup in
      let after : IsValid (record sh { dedup = (seen dedup_key now_us sh.dedup).0 }) = record {
        window = v.window;
        throttle = v.throttle;
        dedup = dedup;
        sweeps = v.sweeps;
      } in
      elim (Bool-cases (seen dedup_key now_us sh.dedup).1) [
        | inl dup ↦ rw (dup, observe_shard) after
        | inr new ↦ rw (new, observe_shard) (observe_new-IsValid key now_us threshold _ m after)
      ]

  -- Where range visits every key of a map once, observe on valid shards always finds a shard and
  -- keeps the invariant of all of them: every table of every shard stays within its cap.
  pub observe-AllValid :
      (key dedup_key : Str) (now_us threshold : ℤ) (s : ShardSet)
      → AllValid s
      → (s' : ShardSet) × (o : Observed) × (observe visit key dedup_key now_us threshold s
          ≡ some (s', o))
        × AllValid s'
        × (length s'.shards ≡ length s.shards)
  unfolding observe observe_at
  observe-AllValid key dedup_key now_us threshold s (all, some_) =
      let i = index_for key (length s.shards) in
      let (sh, at) = get_elem-length i s.shards (index_for-length key (length s.shards) some_) in
      let (sh', m, o) = observe_shard visit key dedup_key now_us threshold sh s.metrics in
      let v =
        observe_shard-IsValid key dedup_key now_us threshold sh s.metrics
          (All-get_elem IsValid i s.shards sh all at) in
      let same = length-set_at i sh' s.shards in
      (
        record s { shards = set_at i sh' s.shards; metrics = m },
        o,
        rw (at, observe) refl,
        (All-set_at IsValid i sh' s.shards v all, omega (arith, same)),
        same,
      )
