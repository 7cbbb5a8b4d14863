-- ===== src/Tests/Answers.antt =====
-- The handlers on concrete events.
use jetstream_router.Common.{
  ℕ, zero, suc, ◌+◌, ◌*◌, ◌^◌, ◌≤◌, ◌≡◌, ◌≢◌, ◌↔◌, ◌⊎◌, refl, inl, inr, Bool, true, false, Option,
  none, some, List, [], ◌∷◌, ◌++◌, Has, All, length, if◌then◌else◌, arith, ok, ltb, subst,
}
use jetstream_router.Common.Int.{ℤ, pos, ◌≤ℤ◌, sub64}
use jetstream_router.Common.Str.{Str, lit, ◌==◌, has_prefix}
use jetstream_router.Event.{Event, dedup_key}
use jetstream_router.Handler.Shard.{Limits}
use jetstream_router.Handler.Alerts.{Alert, decode, lower}
use jetstream_router.Handler.Engagement.{Engagement, new_engagement, conclude, count, handle}
use jetstream_router.Handler.SocialGraph.{SocialGraph, new_social_graph}
use jetstream_router.Handler.SocialGraph as Social
use jetstream_router.Handler.Retraction.{Retraction, handle_all}
use jetstream_router.Handler.Unrouted.{Default, new_default, bucket, bucket_from, reason}
use jetstream_router.Handler.Unrouted as Unrouted
use jetstream_router.Handler.Retraction as Retractions
use jetstream_router.Handler.Unrouted.Buckets.{new_default-IsBounded}
use jetstream_router.Handler.Unrouted.Spacing.{handle-run-handle}
use jetstream_router.Handler.Unrouted.Spacing as Spacing
use jetstream_router.Handler.Content.{
  PostRecord, Keyword, Content, new_content, add_langs, add_patterns, language_passes, speaks, hits,
  handle_post, matched,
}
use jetstream_router.Handler.Content as Contents
use jetstream_router.Handler.Content.Laws.{handle_iff, handle_private}
use jetstream_router.Route.{
  new, with_defaults, has_room, send, shed, offer, offer_drop, offer_block, receive, call_handler,
  backoff, shift, attempts, rounds, process,
}
use jetstream_router.Cursor.{new_cursor, load, loaded, advance, swap, commit, persist}
use jetstream_router.Routing.{routes, add_routes, add_name}
use jetstream_router.Dispatch.{
  dispatch, dispatch_to, hand_on, build_routes, build_from, is_registered, route_config,
}
use jetstream_router.Tests.State.{state}
use jetstream_router.Tests.Handlers.{visit}

unfoldable pub program : Unit {0}
unfolding state Retractions.index jetstream_router.Common.take jetstream_router.Common.filter
    dedup_key decode lower new_engagement conclude count handle new_social_graph Social.conclude
    Social.count Social.handle handle_all Retractions.handle new_default bucket bucket_from reason
    Unrouted.handle Spacing.run new_content add_langs add_patterns language_passes speaks hits
    handle_post matched Contents.handle new with_defaults has_room send shed offer offer_drop
    offer_block receive call_handler backoff shift attempts rounds process new_cursor load loaded
    advance swap commit persist routes add_routes add_name dispatch dispatch_to hand_on build_routes
    build_from is_registered route_config has_prefix
program = tt

abbrev limits : Limits
limits = record { max_keys_per_shard = pos 5; dedup_us = pos 1000 }

abbrev likes : Engagement
likes = new_engagement (pos 2) (pos 1) (pos 100) limits

abbrev pub event : ℤ → Str → Event
event time_us collection = record {
  key = record { kind = lit "commit"; collection = collection; operation = lit "create" };
  did = lit "did:plc:a";
  time_us = time_us;
  rkey = lit "3k";
  body = lit "{}";
}

abbrev pub like : Event
like = event (pos 7) (lit "app.bsky.feed.like")

-- Every body is about one account.
abbrev subject_of : Str → Option Str
subject_of raw = some (lit "did:plc:b")

abbrev after_like : Engagement × List Alert
after_like = elim (handle visit subject_of likes like) [ none ↦ (likes, []) | some r ↦ r ]

engagement_tests : length after_like.1 ≡ 1
unfolding program
engagement_tests = refl

abbrev follows : SocialGraph
follows = new_social_graph (pos 1) (pos 1) (pos 100) limits

abbrev after_follow : SocialGraph × List Alert
after_follow = elim (Social.handle visit subject_of follows like) [
  | none ↦ (follows, [])
  | some r ↦ r
]

abbrev strange : ℤ → Event
strange time_us = event time_us (lit "com.example.thing")

-- Lines of one bucket, too soon and in time.
unrouted_tests :
    ((Unrouted.handle new_default (strange (pos 1))).1 ≡ lit "other" ∷ [])
    × ((Unrouted.handle
          (Unrouted.handle new_default (strange (pos 1))).0
          (strange (pos 60000000))).1
        ≡ [])
    × ((Unrouted.handle
          (Unrouted.handle new_default (strange (pos 1))).0
          (strange (pos 60000001))).1
        ≡ lit "other" ∷ [])
unfolding program
unrouted_tests = (refl, refl, refl)

handle-run-handle_example : pos 60000000 ≤ℤ sub64 (pos 60000001) (pos 1)
unfolding program
handle-run-handle_example =
    handle-run-handle (lit "other") (strange (pos 1)) (strange (pos 60000001))
      (strange (pos 2) ∷ []) new_default new_default-IsBounded (inl refl) (λ h. h) (inl refl)

abbrev same : Str → Str
same s = s

abbrev post_of : Str → Option PostRecord
post_of raw = some (record { body = raw; langs = lit "en" ∷ [] })

abbrev post : Str → Event
post text = record (event (pos 7) (lit "app.bsky.feed.post")) { body = text }

content_tests :
    (length (
        Contents.handle same ◌==◌ post_of
          (new_content same same (lit "agent" ∷ []) (lit "en" ∷ []))
          (post (lit "agent")))
      ≡ 1)
    × (Contents.handle same ◌==◌ post_of
          (new_content same same (lit "agent" ∷ []) (lit "de" ∷ []))
          (post (lit "agent"))
        ≡ [])
unfolding program
content_tests = (refl, refl)

handle_iff_example :
    length (
      Contents.handle same ◌==◌ post_of
        (new_content same same (lit "agent" ∷ []) (lit "en" ∷ []))
        (post (lit "agent")))
    ≤ 1
handle_iff_example =
    (handle_iff same same ◌==◌ post_of (lit "agent" ∷ []) (lit "en" ∷ []) (post (lit "agent"))).1

-- Both texts have five bytes, and neither matches.
handle_private_example :
    Contents.handle same ◌==◌ post_of
      (new_content same same (lit "agent" ∷ []) [])
      (post (lit "hello"))
    ≡ Contents.handle same ◌==◌ post_of
        (new_content same same (lit "agent" ∷ []) [])
        (post (lit "world"))
unfolding program
handle_private_example =
    handle_private same same ◌==◌ post_of (new_content same same (lit "agent" ∷ []) [])
      (post (lit "hello")) (post (lit "world"))
      (record { body = lit "hello"; langs = lit "en" ∷ [] })
      (record { body = lit "world"; langs = lit "en" ∷ [] }) refl refl (refl, refl, refl) refl refl
      (λ k h. elim h [
        | inl e ↦ subst (λ x. (x.pattern == lit "hello") ≡ (x.pattern == lit "world")) e refl
        | inr none_ ↦ absurd none_
      ])
