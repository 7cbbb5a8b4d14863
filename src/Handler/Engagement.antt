-- ===== src/Handler/Engagement.antt =====
-- internal/handler/engagement.go. `unmarshal` reads the `subject.uri` of a record's body.
pub mod Replay
use jetstream_router.Common.{ℕ, Bool, Option, none, some, List, [], ◌∷◌, if◌then◌else◌, ◌||◌, not}
use jetstream_router.Common.Int.{ℤ, pos}
use jetstream_router.Common.Str.{Str, lit, ◌==◌}
use jetstream_router.Event.{Event, dedup_key}
use jetstream_router.Handler.Window.{Element}
use jetstream_router.Handler.Shard.{Limits, ShardSet, Observed, new_shard_set, observe}
use jetstream_router.Handler.Alerts.{Attr, text, number, Alert, decode}

pub record Engagement : Type 0 where
  pub threshold : ℤ
  pub state : ShardSet

-- `NewEngagement`
unfoldable pub new_engagement : ℤ → ℤ → ℤ → Limits → Engagement
new_engagement shards threshold window_us l = record {
  threshold = threshold;
  state = new_shard_set shards window_us l;
}

-- The alert of a threshold that is crossed.
unfoldable pub crossed : Engagement → Event → Str → ℕ → Alert
crossed g ev uri count = record {
  level = lit "warn";
  route = lit "engagement";
  msg = lit "threshold crossed";
  attrs =
      (lit "subject", text uri)
      ∷ (lit "count", number (pos count))
      ∷ (lit "threshold", number g.threshold)
      ∷ (lit "collection", text ev.key.collection)
      ∷ [];
}

-- The end of `Handle`, with what `observe` returned.
unfoldable pub conclude : Engagement → Event → Str → ShardSet × Observed → Engagement × List Alert
conclude g ev uri (state, o) =
    (record g { state = state }, if o.dup || not o.alert then [] else crossed g ev uri o.count ∷ [])

module _ (visit : List (Str × Element) → List Str) (unmarshal : Str → Option Str) where
  -- `Handle` of a record with a subject; `none` is a panic.
  unfoldable pub count : Engagement → Event → Str → Option (Engagement × List Alert)
  count g ev uri = elim (observe visit uri (dedup_key ev) ev.time_us g.threshold g.state) [
    | none ↦ none
    | some result ↦ some (conclude g ev uri result)
  ]

  -- `Handle`
  unfoldable pub handle : Engagement → Event → Option (Engagement × List Alert)
  handle g ev = elim (decode unmarshal ev.body) [
    | none ↦ some (g, [])
    | some uri ↦ if uri == [] then some (g, []) else count g ev uri
  ]
