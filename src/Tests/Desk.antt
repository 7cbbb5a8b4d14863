-- ===== src/Tests/Desk.antt =====
-- The handlers of the default configuration, on a few events.
use jetstream_router.Common.{◌≡◌, refl, true, Option, none, some, List, [], ◌∷◌, length}
use jetstream_router.Common.Int.{pos}
use jetstream_router.Common.Str.{Str, lit}
use jetstream_router.Common.Maps.{lookup, insert}
use jetstream_router.Event.{Event}
use jetstream_router.Handler.Alerts.{alert_all, alert}
use jetstream_router.Route.{process}
use jetstream_router.Config.{default_config}
use jetstream_router.Dispatch.{is_registered, route_config}
use jetstream_router.Dispatch.Handlers.{
  World, Desk, new_desk, handlers, handle, settle, serve, serve_all, answer, limits,
}
use jetstream_router.Dispatch.Handlers.Sound.{IsReady, ok_at_once, serve_all-IsReady}
use jetstream_router.Tests.Answers.{program, event, like}
use jetstream_router.Tests.Handlers.{visit, visit-VisitsAll}

-- Every body is a post about one account; a keyword matches every text.
abbrev world : World
world = record {
  visit = visit;
  to_lower = λ s. s;
  trim_space = λ s. s;
  matches = λ word body. true;
  read_post = λ raw. some (record { body = raw; langs = lit "en" ∷ [] });
  read_subject_uri = λ raw. some (lit "at://did:plc:b/app.bsky.feed.post/3k");
  read_subject = λ raw. some (lit "did:plc:b");
}

abbrev calls : List (Str × Event)
calls =
    (lit "engagement", like)
    ∷ (lit "content", event (pos 8) (lit "app.bsky.feed.post"))
    ∷ (lit "default", event (pos 9) (lit "com.example.thing"))
    ∷ []

serve_all-IsReady_example :
    (d : Desk) × (serve_all world calls (new_desk world default_config) ≡ some d)
    × IsReady (length calls) d
    × (process
          (λ _. answer world (lit "social-graph", like) d)
          (λ _. true)
          (route_config (lit "social-graph") default_config.routes)
        ≡ some ok_at_once)
unfolding is_registered program
serve_all-IsReady_example =
    serve_all-IsReady world visit-VisitsAll default_config calls (lit "social-graph") like
      (λ _. true) (route_config (lit "social-graph") default_config.routes)
      (refl, (refl, (refl, tt))) refl

-- The content route has alerted, under its own label; the engagement of one like is too small.
abbrev alerts_of : Option Desk → List (Str × Str)
alerts_of none = []
alerts_of (some d) = d.sink.alerts

desk_tests :
    alerts_of (serve_all world calls (new_desk world default_config))
    ≡ (lit "content", lit "keyword matched") ∷ []
unfolding program serve_all serve settle handle handlers limits alert_all alert lookup insert
    default_config
desk_tests = refl
