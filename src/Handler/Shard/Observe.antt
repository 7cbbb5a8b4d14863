-- ===== src/Handler/Shard/Observe.antt =====
-- What `observe` answers, and what it leaves alone.
use jetstream_router.Common.{
  ℕ, suc, ◌≡◌, ◌≢◌, ◌↔◌, refl, subst, Option-cases, true, false, some, List, get_elem?, length,
  arith, Bool-cases, inl, inr, leb,
}
use jetstream_router.Common.Int.{ℤ, pos, ◌≤ℤ◌, ltb_ℤ}
use jetstream_router.Common.Str.{Str}
use jetstream_router.Handler.Window.{Element, add, len}
use jetstream_router.Handler.Throttle.{allow}
use jetstream_router.Handler.Dedup.{seen}
use jetstream_router.Handler.Shard.{
  Metrics, Shard, ShardSet, Observed, index_for, tick, decide, observe_new, observe_shard,
  observe_at, observe, sweep_every,
}
use jetstream_router.Handler.Shard.Lookup.{get_elem-set_at, get_elem_some}

-- An alert fires exactly when the count reaches the threshold and the throttle lets the key pass;
-- a shard counts each alert that the throttle holds back.
abbrev Decides : Str → ℤ → ℤ → ℕ → Shard → Metrics → Shard × Metrics × Observed → Type 0
Decides key now_us threshold count sh m (sh', m', o) =
    (o.count ≡ count)
    × (o.dup ≡ false)
    × ((o.alert ≡ true) ↔ ((threshold ≤ℤ pos count) × ((allow key now_us sh.throttle).1 ≡ true)))
    × (m'.duplicates ≡ m.duplicates)

decide-Decides :
    (key : Str) (now_us threshold : ℤ) (count : ℕ) (sh : Shard) (m : Metrics)
    → Decides key now_us threshold count sh m (decide key now_us threshold count sh m)
unfolding decide
decide-Decides key now_us threshold count sh m = elim (Bool-cases (ltb_ℤ (pos count) threshold)) [
  | inl below ↦ rw (below, decide) (refl, refl, ground arith, refl)
  | inr reached ↦ elim (Bool-cases (allow key now_us sh.throttle).1) [
    | inl fires ↦ rw (reached, decide, fires) (refl, refl, ground arith, refl)
    | inr held ↦ rw (reached, decide, held) (refl, refl, ground arith, refl)
  ]
]

module _ (visit : List (Str × Element) → List Str) where
  throttle-tick : (now_us : ℤ) (sh : Shard) → (tick visit now_us sh).throttle ≡ sh.throttle
  unfolding tick
  throttle-tick now_us sh = elim (Bool-cases (leb sweep_every (suc sh.since_sweep))) [
    | inl due ↦ rw (due, tick) refl
    | inr early ↦ rw (early, tick) refl
  ]

  observe_new-Decides :
      (key : Str) (now_us threshold : ℤ) (sh : Shard) (m : Metrics)
      → Decides key now_us threshold
          (add key now_us sh.window).1
          sh
          m
          (observe_new visit key now_us threshold sh m)
  unfolding observe_new
  observe_new-Decides key now_us threshold sh m =
      let (window, count) = add key now_us sh.window in
      let sh' = tick visit now_us (record sh { window = window }) in
      let (counted, new, fires, kept) =
        decide-Decides key now_us threshold count sh'
          (record m { state_entries = len sh'.window }) in
      (
        counted,
        new,
        subst
            (λ t.
              ((observe_new visit key now_us threshold sh m).2.alert ≡ true)
              ↔ ((threshold ≤ℤ pos count) × ((allow key now_us t).1 ≡ true)))
            (throttle-tick now_us (record sh { window = window })) fires,
        kept,
      )

  -- On the shard of its key observe reports a duplicate exactly when Seen does, and then counts
  -- it and leaves the window and the throttle alone; otherwise it reports the count of Add, and
  -- an alert exactly when that reaches the threshold and Allow lets the key pass.
  pub observe_shard_lem :
      (key dedup_key : Str) (now_us threshold : ℤ) (sh : Shard) (m : Metrics)
      → ((observe_shard visit key dedup_key now_us threshold sh m).2.dup
          ≡ (seen dedup_key now_us sh.dedup).1)
        × ((seen dedup_key now_us sh.dedup).1 ≡ true
            → observe_shard visit key dedup_key now_us threshold sh m ≡ (
              record sh { dedup = (seen dedup_key now_us sh.dedup).0 },
              record m { duplicates = suc m.duplicates },
              record { count = 0; dup = true; alert = false },
            ))
        × ((seen dedup_key now_us sh.dedup).1 ≡ false
            → Decides key now_us threshold
                (add key now_us sh.window).1
                sh
                m
                (observe_shard visit key dedup_key now_us threshold sh m))
  unfolding observe_shard
  observe_shard_lem key dedup_key now_us threshold sh m =
      let sh' = record sh { dedup = (seen dedup_key now_us sh.dedup).0 } in
      elim (Bool-cases (seen dedup_key now_us sh.dedup).1) [
        | inl dup ↦ rw (dup, observe_shard) (refl, λ _. refl, λ h. cc)
        | inr new ↦
            let decided = observe_new-Decides key now_us threshold sh' m in
            rw (new, observe_shard) (decided.1, λ h. cc, λ _. decided)
      ]

  -- observe changes no shard but the one at the index of the key.
  pub observe_others :
      (key dedup_key : Str) (now_us threshold : ℤ) (s s' : ShardSet) (o : Observed) (j : ℕ)
      → observe visit key dedup_key now_us threshold s ≡ some (s', o)
      → j ≢ index_for key (length s.shards)
      → get_elem? s'.shards j ≡ get_elem? s.shards j
  unfolding observe observe_at
  observe_others key dedup_key now_us threshold s s' o j ran other =
      let i = index_for key (length s.shards) in
      elim (Option-cases (get_elem? s.shards i)) [
        | inl absent ↦ absurd (ground arith)
        | inr (sh, at) ↦
            let after = (observe_shard visit key dedup_key now_us threshold sh s.metrics).0 in
            ground (arith, get_elem-set_at i j after s.shards (get_elem_some i s.shards sh at))
      ]
