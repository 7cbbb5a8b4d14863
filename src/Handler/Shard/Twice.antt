-- ===== src/Handler/Shard/Twice.antt =====
-- A delivery repeated within the dedup window: the replay after a reconnect.
use jetstream_router.Common.{
  ℕ, zero, suc, ◌≡◌, refl, ap, sym, ◌∙◌, subst, true, false, some, List, [], ◌∷◌, get_elem?, length,
  arith, Bool-cases, inl, inr, leb,
}
use jetstream_router.Common.Int.{ℤ, pos, ◌≤ℤ◌, ltb_ℤ, sub64}
use jetstream_router.Common.Str.{Str}
use jetstream_router.Common.Maps.{lookup}
use jetstream_router.Handler.Window.{Element}
use jetstream_router.Handler.Throttle.{allow}
use jetstream_router.Handler.Dedup.{seen}
use jetstream_router.Handler.Dedup.Memory.{seen_iff, settings-seen}
use jetstream_router.Handler.Shard.{
  Metrics, Shard, ShardSet, Observed, index_for, set_at, tick, decide, observe_new, observe_shard,
  observe_at, observe, sweep_every,
}
use jetstream_router.Handler.Shard.Lookup.{
  index_for-length, get_elem-length, get_elem-set_at, All-get_elem, length-set_at,
}
use jetstream_router.Handler.Shard.Invariant.{AllValid, IsValid}
use jetstream_router.Handler.Shard.Observe.{observe_shard_lem}

dedup-decide :
    (key : Str) (now_us threshold : ℤ) (count : ℕ) (sh : Shard) (m : Metrics)
    → (decide key now_us threshold count sh m).0.dedup ≡ sh.dedup
unfolding decide
dedup-decide key now_us threshold count sh m = elim (Bool-cases (ltb_ℤ (pos count) threshold)) [
  | inl below ↦ rw (below, decide) refl
  | inr reached ↦ elim (Bool-cases (allow key now_us sh.throttle).1) [
    | inl fires ↦ rw (reached, decide, fires) refl
    | inr held ↦ rw (reached, decide, held) refl
  ]
]

set_at-get_elem :
    (i : ℕ) (sh : Shard) (xs : List Shard) → get_elem? xs i ≡ some sh → set_at i sh xs ≡ xs
unfolding set_at get_elem?
set_at-get_elem i sh [] h = refl
set_at-get_elem zero sh (x ∷ xs) h = ground arith
set_at-get_elem (suc i) sh (x ∷ xs) h = ap (◌∷◌ x) (set_at-get_elem i sh xs h)

module _ (visit : List (Str × Element) → List Str) where
  dedup-tick : (now_us : ℤ) (sh : Shard) → (tick visit now_us sh).dedup ≡ sh.dedup
  unfolding tick
  dedup-tick now_us sh = elim (Bool-cases (leb sweep_every (suc sh.since_sweep))) [
    | inl due ↦ rw (due, tick) refl
    | inr early ↦ rw (early, tick) refl
  ]

  dedup-observe_shard :
      (key dedup_key : Str) (now_us threshold : ℤ) (sh : Shard) (m : Metrics)
      → (observe_shard visit key dedup_key now_us threshold sh m).0.dedup
        ≡ (seen dedup_key now_us sh.dedup).0
  unfolding observe_shard observe_new
  dedup-observe_shard key dedup_key now_us threshold sh m =
      let sh' = record sh { dedup = (seen dedup_key now_us sh.dedup).0 } in
      elim (Bool-cases (seen dedup_key now_us sh.dedup).1) [
        | inl dup ↦ rw (dup, observe_shard) refl
        | inr new ↦
            rw (new, observe_shard) (dedup-decide key now_us threshold _ _ _ ∙ dedup-tick now_us _)
      ]

  -- What `observe` is, where the shard of the key is known.
  pub observe_found :
      (key dedup_key : Str) (now_us threshold : ℤ) (s : ShardSet) (sh : Shard)
      → get_elem? s.shards (index_for key (length s.shards)) ≡ some sh
      → observe visit key dedup_key now_us threshold s
        ≡ some (
          record s {
            shards =
                set_at
                  (index_for key (length s.shards))
                  (observe_shard visit key dedup_key now_us threshold sh s.metrics).0
                  s.shards;
            metrics = (observe_shard visit key dedup_key now_us threshold sh s.metrics).1;
          },
          (observe_shard visit key dedup_key now_us threshold sh s.metrics).2,
        )
  unfolding observe observe_at
  observe_found key dedup_key now_us threshold s sh at = rw (at, observe) refl

  pub observe_duplicate :
      (key dedup_key : Str) (now_us threshold : ℤ) (s : ShardSet) (sh : Shard)
      → get_elem? s.shards (index_for key (length s.shards)) ≡ some sh
      → observe_shard visit key dedup_key now_us threshold sh s.metrics ≡ (
        sh,
        record (s.metrics) { duplicates = suc s.metrics.duplicates },
        record { count = 0; dup = true; alert = false },
      )
      → observe visit key dedup_key now_us threshold s
        ≡ some (
          record s { metrics = record (s.metrics) { duplicates = suc s.metrics.duplicates } },
          record { count = 0; dup = true; alert = false },
        )
  observe_duplicate key dedup_key now_us threshold s sh at again =
      let i = index_for key (length s.shards) in
      observe_found key dedup_key now_us threshold s sh at
      ∙ ap (λ r. some (record s { shards = set_at i r.0 s.shards; metrics = r.1 }, r.2)) again
      ∙ ap
          (λ shards. some (
            record s {
              shards = shards;
              metrics = record (s.metrics) { duplicates = suc s.metrics.duplicates };
            },
            record { count = 0; dup = true; alert = false },
          ))
          (set_at-get_elem i sh s.shards at)

  -- The shard that has counted the event sees the second delivery as a duplicate.
  pub observe_shard-observe_shard :
      (key dedup_key : Str) (first second threshold : ℤ) (sh : Shard) (m m' : Metrics)
      → IsValid sh
      → (seen dedup_key first sh.dedup).1 ≡ false
      → sub64 second first ≤ℤ sh.dedup.window_us
      → let sh' = (observe_shard visit key dedup_key first threshold sh m).0 in
        observe_shard visit key dedup_key second threshold sh' m' ≡ (
          sh',
          record m' { duplicates = suc m'.duplicates },
          record { count = 0; dup = true; alert = false },
        )
  observe_shard-observe_shard key dedup_key first second threshold sh m m' v new within =
      let sh' = (observe_shard visit key dedup_key first threshold sh m).0 in
      let kept = dedup-observe_shard key dedup_key first threshold sh m in
      let window = (settings-seen dedup_key first sh.dedup v.dedup).1 in
      let found : lookup dedup_key sh'.dedup.seen ≡ some first =
        subst (λ d. lookup dedup_key d.seen ≡ some first) (sym kept)
          ((seen_iff dedup_key first sh.dedup).2 new) in
      let near : sub64 second first ≤ℤ sh'.dedup.window_us =
        subst (λ d. sub64 second first ≤ℤ d.window_us) (sym kept)
          (subst (λ x. sub64 second first ≤ℤ x) (sym window) within) in
      let dup = (seen_iff dedup_key second sh'.dedup).0.1 (first, found, near) in
      let same : (seen dedup_key second sh'.dedup).0 ≡ sh'.dedup =
        (seen_iff dedup_key second sh'.dedup).1 dup in
      (observe_shard_lem visit key dedup_key second threshold sh' m').1 dup
      ∙ ap
          (λ d. (
            record sh' { dedup = d },
            record m' { duplicates = suc m'.duplicates },
            record { count = 0; dup = true; alert = false },
          ))
          same

  -- On valid shards, an event that was counted and is delivered once more within the dedup window
  -- of its shard is reported as a duplicate without an alert, and changes nothing but the
  -- duplicate counter.
  pub observe-observe :
      (key dedup_key : Str) (first second threshold : ℤ) (s s' : ShardSet) (o : Observed)
      → AllValid s
      → observe visit key dedup_key first threshold s ≡ some (s', o)
      → o.dup ≡ false
      → ((sh : Shard)
          → get_elem? s.shards (index_for key (length s.shards)) ≡ some sh
          → sub64 second first ≤ℤ sh.dedup.window_us)
      → observe visit key dedup_key second threshold s'
        ≡ some (
          record s' { metrics = record (s'.metrics) { duplicates = suc s'.metrics.duplicates } },
          record { count = 0; dup = true; alert = false },
        )
  observe-observe key dedup_key first second threshold s s' o (all, some_) ran new within =
      let i = index_for key (length s.shards) in
      let bound = index_for-length key (length s.shards) some_ in
      let (sh, at) = get_elem-length i s.shards bound in
      let sh' = (observe_shard visit key dedup_key first threshold sh s.metrics).0 in
      let is = sym ran ∙ observe_found key dedup_key first threshold s sh at in
      let shards : s'.shards ≡ set_at i sh' s.shards = ground arith in
      let answer : o ≡ (observe_shard visit key dedup_key first threshold sh s.metrics).2 =
        ground arith in
      let same : length s'.shards ≡ length s.shards =
        ap length shards ∙ length-set_at i sh' s.shards in
      let at' : get_elem? s'.shards (index_for key (length s'.shards)) ≡ some sh' =
        rw (same, shards) (ground (arith, get_elem-set_at i i sh' s.shards bound)) in
      let first_new : (seen dedup_key first sh.dedup).1 ≡ false =
        sym (observe_shard_lem visit key dedup_key first threshold sh s.metrics).0
        ∙ sym (ap (λ x. x.dup) answer)
        ∙ new in
      let again =
        observe_shard-observe_shard key dedup_key first second threshold sh s.metrics s'.metrics
          (All-get_elem IsValid i s.shards sh all at) first_new (within sh at) in
      observe_duplicate key dedup_key second threshold s' sh' at' again
