-- ===== src/Handler/Shard/Again.antt =====
-- An event that a handler is given again at once.
use jetstream_router.Common.{
  suc, ◌≡◌, ap, sym, ◌∙◌, subst, true, false, some, List, All, get_elem?, length, arith, Bool-cases,
  inl, inr,
}
use jetstream_router.Common.Int.{ℤ, pos, ◌≤ℤ◌, sub64, sub64_refl}
use jetstream_router.Common.Str.{Str}
use jetstream_router.Handler.Window.{Element}
use jetstream_router.Handler.Dedup.{seen}
use jetstream_router.Handler.Dedup.Memory.{seen_iff}
use jetstream_router.Handler.Shard.{
  Metrics, Shard, ShardSet, Observed, index_for, set_at, observe_shard, observe,
}
use jetstream_router.Handler.Shard.Lookup.{
  index_for-length, get_elem-length, get_elem-set_at, All-get_elem, length-set_at,
}
use jetstream_router.Handler.Shard.Invariant.{AllValid, IsValid}
use jetstream_router.Handler.Shard.Observe.{observe_shard_lem}
use jetstream_router.Handler.Shard.Twice.{
  observe_found, observe_duplicate, observe_shard-observe_shard,
}

module _ (visit : List (Str × Element) → List Str) where
  -- The shard that has handled the event sees it as a duplicate from then on.
  observe_shard_again :
      (key dedup_key : Str) (now_us threshold : ℤ) (sh : Shard) (m m' : Metrics)
      → IsValid sh
      → sub64 now_us now_us ≤ℤ sh.dedup.window_us
      → let sh' = (observe_shard visit key dedup_key now_us threshold sh m).0 in
        observe_shard visit key dedup_key now_us threshold sh' m' ≡ (
          sh',
          record m' { duplicates = suc m'.duplicates },
          record { count = 0; dup = true; alert = false },
        )
  observe_shard_again key dedup_key now_us threshold sh m m' v within =
      elim (Bool-cases (seen dedup_key now_us sh.dedup).1) [
        | inr new ↦
            observe_shard-observe_shard visit key dedup_key now_us now_us threshold sh m m' v new
              within
        | inl dup ↦
            let same : (seen dedup_key now_us sh.dedup).0 ≡ sh.dedup =
              (seen_iff dedup_key now_us sh.dedup).1 dup in
            let first = (observe_shard_lem visit key dedup_key now_us threshold sh m).1 dup in
            let kept : (observe_shard visit key dedup_key now_us threshold sh m).0 ≡ sh =
              ap (λ r. r.0) first ∙ ap (λ d. record sh { dedup = d }) same in
            let again = (observe_shard_lem visit key dedup_key now_us threshold sh m').1 dup in
            subst
              (λ x. observe_shard visit key dedup_key now_us threshold x m' ≡ (
                x,
                record m' { duplicates = suc m'.duplicates },
                record { count = 0; dup = true; alert = false },
              ))
              (sym kept)
              (again
                ∙ ap
                    (λ d. (
                      record sh { dedup = d },
                      record m' { duplicates = suc m'.duplicates },
                      record { count = 0; dup = true; alert = false },
                    ))
                    same)
      ]

  -- An event handled once more at once is a duplicate, and nothing but the counter changes.
  pub observe_again :
      (key dedup_key : Str) (now_us threshold : ℤ) (s s' : ShardSet) (o : Observed)
      → AllValid s
      → All (λ sh. pos 0 ≤ℤ sh.dedup.window_us) s.shards
      → observe visit key dedup_key now_us threshold s ≡ some (s', o)
      → observe visit key dedup_key now_us threshold s'
        ≡ some (
          record s' { metrics = record (s'.metrics) { duplicates = suc s'.metrics.duplicates } },
          record { count = 0; dup = true; alert = false },
        )
  observe_again key dedup_key now_us threshold s s' o (all, some_) windows ran =
      let i = index_for key (length s.shards) in
      let bound = index_for-length key (length s.shards) some_ in
      let (sh, at) = get_elem-length i s.shards bound in
      let sh' = (observe_shard visit key dedup_key now_us threshold sh s.metrics).0 in
      let is = sym ran ∙ observe_found visit key dedup_key now_us threshold s sh at in
      let shards : s'.shards ≡ set_at i sh' s.shards = ground arith in
      let same : length s'.shards ≡ length s.shards =
        ap length shards ∙ length-set_at i sh' s.shards in
      let at' : get_elem? s'.shards (index_for key (length s'.shards)) ≡ some sh' =
        rw (same, shards) (ground (arith, get_elem-set_at i i sh' s.shards bound)) in
      let window = All-get_elem (λ sh. pos 0 ≤ℤ sh.dedup.window_us) i s.shards sh windows at in
      observe_duplicate visit key dedup_key now_us threshold s' sh' at' (
        observe_shard_again key dedup_key now_us threshold sh s.metrics s'.metrics
          (All-get_elem IsValid i s.shards sh all at) (rw (sub64_refl now_us) window))
