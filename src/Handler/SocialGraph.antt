-- ===== src/Handler/SocialGraph.antt =====
-- internal/handler/socialgraph.go. `unmarshal` reads the `subject` of a record's body.
pub mod Replay
use jetstream_router.Common.{ℕ, Bool, Option, none, some, List, [], ◌∷◌, if◌then◌else◌, ◌||◌, not}
use jetstream_router.Common.Int.{ℤ, pos}
use jetstream_router.Common.Str.{Str, lit, has_prefix}
use jetstream_router.Event.{Event, dedup_key}
use jetstream_router.Handler.Window.{Element}
use jetstream_router.Handler.Shard.{Limits, ShardSet, Observed, new_shard_set, observe}
use jetstream_router.Handler.Alerts.{Attr, text, number, Alert, decode, quot}

pub record SocialGraph : Type 0 where
  pub threshold : ℤ
  pub window_us : ℤ
  pub state : ShardSet

-- `NewSocialGraph`
unfoldable pub new_social_graph : ℤ → ℤ → ℤ → Limits → SocialGraph
new_social_graph shards threshold window_us l = record {
  threshold = threshold;
  window_us = window_us;
  state = new_shard_set shards window_us l;
}

-- The alert of a burst.
unfoldable pub burst : SocialGraph → Str → ℕ → Alert
burst g subject count = record {
  level = lit "info";
  route = lit "social-graph";
  msg = lit "burst detected";
  attrs =
      (lit "target", text subject)
      ∷ (lit "count", number (pos count))
      ∷ (lit "window_s", number (quot g.window_us 1000000))
      ∷ (lit "metric", text (lit "follow_events"))
      ∷ [];
}

-- The end of `Handle`, with what `observe` returned.
unfoldable pub conclude : SocialGraph → Str → ShardSet × Observed → SocialGraph × List Alert
conclude g subject (state, o) =
    (record g { state = state }, if o.dup || not o.alert then [] else burst g subject o.count ∷ [])

module _ (visit : List (Str × Element) → List Str) (unmarshal : Str → Option Str) where
  -- `Handle` of a record whose subject is an account; `none` is a panic.
  unfoldable pub count : SocialGraph → Event → Str → Option (SocialGraph × List Alert)
  count g ev subject = elim (observe visit subject (dedup_key ev) ev.time_us g.threshold g.state) [
    | none ↦ none
    | some result ↦ some (conclude g subject result)
  ]

  -- `Handle`
  unfoldable pub handle : SocialGraph → Event → Option (SocialGraph × List Alert)
  handle g ev = elim (decode unmarshal ev.body) [
    | none ↦ some (g, [])
    | some subject ↦
        if not (has_prefix subject (lit "did:")) then some (g, []) else count g ev subject
  ]
