-- ===== src/Tests/Routing.antt =====
-- The decoding of frames and the routing of events on concrete inputs.
use jetstream_router.Common.{
  ◌≡◌, ◌≢◌, ◌↔◌, ◌⊎◌, refl, false, Option, none, some, [], ◌∷◌, All, Has, ok, err, filter, arith,
}
use jetstream_router.Common.Int.{pos, ◌≤ℤ◌}
use jetstream_router.Common.Str.{Str, lit, ◌==◌}
use jetstream_router.Event.{
  Event, Commit, Envelope, dedup_key, decode, from_envelope, with_commit, base_event, commit_event,
  malformed,
}
use jetstream_router.Event.Decode.{Denotes, decode_iff}
use jetstream_router.Event.DedupKey.{dedup_key_injective}
use jetstream_router.Routing.{
  Rule, Table, Router, no_fallback, no_route, new, route, collections, check_rule, place, add_rules,
  pins_operation, first_match, collect, is_glob,
}
use jetstream_router.Routing.Build.{IsGood, built, new_iff, Blames, new_error}
use jetstream_router.Routing.Precedence.{Chosen, route-Chosen, new_interleaving}
use jetstream_router.Routing.Reach.{Produces}
use jetstream_router.Routing.Filter.{Names, collections_iff}
use jetstream_router.Config.{default_table, rule, default_config, validate}
use jetstream_router.Config.Validate.{validate_iff, IsConfigured}
use jetstream_router.Config.Defaults.{default_router, default_table-route}

unfoldable pub routing : Unit {0}
unfolding dedup_key decode from_envelope with_commit base_event commit_event new add_rules place
    check_rule first_match collections collect is_glob ◌==◌ filter
routing = tt

abbrev pub like : Commit
like = record {
  operation = lit "create";
  collection = lit "app.bsky.feed.like";
  rkey = lit "3k";
  body = lit "{}";
}

abbrev pub envelope : Envelope
envelope = record {
  did = lit "did:plc:a";
  time_us = pos 7;
  kind = lit "commit";
  commit = some like;
}

abbrev pub bare : Envelope
bare = record envelope { commit = none }

-- A parser that knows two frames.
abbrev pub parse : Str → Option Envelope
parse [] = none
parse (_ ∷ []) = some bare
parse (_ ∷ _ ∷ _) = some envelope

abbrev pub event : Event
event = record {
  key = record {
    kind = lit "commit";
    collection = lit "app.bsky.feed.like";
    operation = lit "create";
  };
  did = lit "did:plc:a";
  time_us = pos 7;
  rkey = lit "3k";
  body = lit "{}";
}

decode_tests :
    (decode parse (1 ∷ 2 ∷ []) ≡ ok event)
    × (decode parse (1 ∷ []) ≡ err malformed)
    × (decode parse [] ≡ err malformed)
unfolding routing
decode_tests = (refl, refl, refl)

decode_iff_example :
    (decode parse (1 ∷ 2 ∷ []) ≡ ok event)
    ↔ ((env : Envelope) × (parse (1 ∷ 2 ∷ []) ≡ some env) × Denotes env event)
decode_iff_example = (decode_iff parse (1 ∷ 2 ∷ [])).0 event

dedup_key_injective_example :
    (event.did ≡ event.did)
    × (event.key.collection ≡ event.key.collection)
    × (event.rkey ≡ event.rkey)
    × (event.key.operation ≡ event.key.operation)
dedup_key_injective_example =
    dedup_key_injective event (record event { time_us = pos 9 }) (ground arith) (ground arith)
      (ground arith) (ground arith) (ground arith) (ground arith) (unfold dedup_key in refl)

made : new default_table ≡ ok default_router
made = default_table-route.0

new_iff_example : (new default_table ≡ ok default_router) ↔ (
    (default_table.fallback ≢ [])
    × All IsGood default_table.rules
    × (default_router ≡ built default_table))
new_iff_example = new_iff default_table default_router

abbrev nameless : Table
nameless = record { rules = rule [] [] [] ∷ []; fallback = lit "default" }

new_error_example :
    ((no_route 0 ≡ no_fallback) × (nameless.fallback ≡ []))
    ⊎ ((nameless.fallback ≢ []) × Blames (no_route 0) 0 nameless.rules)
new_error_example = new_error nameless (no_route 0) (unfold routing in refl)

route-Chosen_example : Chosen default_table event.key (route default_router event.key)
route-Chosen_example = route-Chosen default_table default_router event.key made

abbrev swapped : Table
swapped = record {
  rules =
      rule (lit "app.bsky.feed.post") [] (lit "content")
      ∷ rule (lit "app.bsky.feed.like") [] (lit "engagement")
      ∷ rule [] (lit "delete") (lit "retraction")
      ∷ rule (lit "app.bsky.feed.repost") [] (lit "engagement")
      ∷ rule (lit "app.bsky.graph.follow") [] (lit "social-graph")
      ∷ [];
  fallback = lit "default";
}

new_interleaving_example :
    (new default_table ≡ ok default_router) ↔ (new swapped ≡ ok default_router)
new_interleaving_example =
    new_interleaving default_table swapped default_router (unfold routing in refl)
      (unfold routing in refl) refl

collections_iff_example : Has (lit "app.bsky.feed.like") (collections default_router) ↔ (
    (r : Rule) × Has r default_table.rules
    × (pins_operation r ≡ false)
    × Names r (lit "app.bsky.feed.like"))
collections_iff_example =
    collections_iff default_table default_router (lit "app.bsky.feed.like") made

validate_iff_example : (validate default_config ≡ ok tt) ↔ (
    (r : Router) × (new default_config.routing ≡ ok r)
    × ((name : Str)
        → Produces default_config.routing name
        → IsConfigured default_config.routes name)
    × (pos 1 ≤ℤ default_config.thresholds.engagement)
    × (pos 1 ≤ℤ default_config.thresholds.follow_burst)
    × (pos 1 ≤ℤ default_config.state.max_keys_per_shard))
validate_iff_example = validate_iff default_config
