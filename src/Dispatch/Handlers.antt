-- ===== src/Dispatch/Handlers.antt =====
-- cmd/router/main.go: the map `handlers` of `buildRoutes`, and a call of `Handle` through the
-- interface `route.Handler`. The calls of a route's workers follow one another here: the shards
-- have locks, and the fallback, which has none, is taken to have one worker. The lines that the fallback logs itself are the result of its `handle`.

pub mod Answers
pub mod Sound
use jetstream_router.Common.{Bool, Option, none, some, List, [], ◌∷◌}
use jetstream_router.Common.Str.{Str, lit}
use jetstream_router.Common.Maps.{lookup, insert}
use jetstream_router.Event.{Event}
use jetstream_router.Handler.Window.{Element}
use jetstream_router.Handler.Shard.{Limits}
use jetstream_router.Handler.Alerts.{Alert, LogSink, new_sink, alert_all, quot}
use jetstream_router.Handler.Content.{Content, PostRecord, new_content}
use jetstream_router.Handler.Content as Contents
use jetstream_router.Handler.Engagement.{Engagement, new_engagement}
use jetstream_router.Handler.Engagement as Engagements
use jetstream_router.Handler.SocialGraph.{SocialGraph, new_social_graph}
use jetstream_router.Handler.SocialGraph as Graphs
use jetstream_router.Handler.Retraction.{Retraction}
use jetstream_router.Handler.Retraction as Retractions
use jetstream_router.Handler.Unrouted.{Default, new_default}
use jetstream_router.Handler.Unrouted as Unrouted
use jetstream_router.Route.{Answer, done, panicked}
use jetstream_router.Config.{Config}
use jetstream_router.Dispatch.{route_config}

-- The types that implement `route.Handler`, with their state.
pub data Handler : Type 0 where
  content : Content → Handler
  engagement : Engagement → Handler
  social_graph : SocialGraph → Handler
  retraction : Retraction → Handler
  fallback : Default → Handler

-- `limits`, and the `Microseconds` of a duration.
unfoldable pub limits : Config → Limits
limits cfg = record {
  max_keys_per_shard = cfg.state.max_keys_per_shard;
  dedup_us = quot cfg.state.dedup_window 1000;
}

-- The handlers by the name of their route, and the sink that they share.
pub record Desk : Type 0 where
  pub handlers : List (Str × Handler)
  pub sink : LogSink

-- What Go and its library give to the handlers.
pub record World : Type 0 where
  pub visit : List (Str × Element) → List Str
  pub to_lower : Str → Str
  pub trim_space : Str → Str
  pub matches : Str → Str → Bool
  pub read_post : Str → Option PostRecord
  pub read_subject_uri : Str → Option Str
  pub read_subject : Str → Option Str

module _ (w : World) where
  -- The composite literal `handlers`.
  unfoldable pub handlers : Config → List (Str × Handler)
  handlers cfg =
      (lit "content", content (new_content w.to_lower w.trim_space cfg.keywords cfg.languages))
      ∷ (
        lit "engagement",
        engagement (
            new_engagement (route_config (lit "engagement") cfg.routes).workers
              cfg.thresholds.engagement (quot cfg.thresholds.engagement_window 1000) (limits cfg)),
      )
      ∷ (
        lit "social-graph",
        social_graph (
            new_social_graph (route_config (lit "social-graph") cfg.routes).workers
              cfg.thresholds.follow_burst (quot cfg.thresholds.follow_window 1000) (limits cfg)),
      )
      ∷ (lit "retraction", retraction (record { retractions = [] }))
      ∷ (lit "default", fallback new_default)
      ∷ []

  abbrev pub new_desk : Config → Desk
  new_desk cfg = record { handlers = handlers cfg; sink = new_sink }

  -- `Handle`, with the alerts that it sends; `none` is a panic.
  unfoldable pub handle : Handler → Event → Option (Handler × List Alert)
  handle (content c) ev = some (content c, Contents.handle w.to_lower w.matches w.read_post c ev)
  handle (engagement g) ev = elim (Engagements.handle w.visit w.read_subject_uri g ev) [
    | none ↦ none
    | some (g', alerts) ↦ some (engagement g', alerts)
  ]
  handle (social_graph g) ev = elim (Graphs.handle w.visit w.read_subject g ev) [
    | none ↦ none
    | some (g', alerts) ↦ some (social_graph g', alerts)
  ]
  handle (retraction r) ev = some (retraction (Retractions.handle r ev), [])
  handle (fallback d) ev = some (fallback (Unrouted.handle d ev).0, [])

  -- The handler of a name is left as it has become, and its alerts go to the sink.
  unfoldable pub settle : Str → Desk → Option (Handler × List Alert) → Option Desk
  settle name d none = none
  settle name d (some (h, alerts)) =
      some (record { handlers = insert name h d.handlers; sink = alert_all alerts d.sink })

  -- A call of the handler of a route.
  unfoldable pub serve : Str × Event → Desk → Option Desk
  serve (name, ev) d = elim (lookup name d.handlers) [
    | none ↦ none
    | some h ↦ settle name d (handle h ev)
  ]

  unfoldable pub serve_all : List (Str × Event) → Desk → Option Desk
  serve_all [] d = some d
  serve_all (call ∷ calls) d = elim (serve call d) [ none ↦ none | some d' ↦ serve_all calls d' ]

  -- What an attempt of `process` meets: no `Handle` returns an error.
  unfoldable pub answer : Str × Event → Desk → Answer
  answer call d = elim (serve call d) [ none ↦ panicked | some _ ↦ done ]
