-- ===== src/Handler/Retraction.antt =====
-- internal/handler/retraction.go. `retractions` holds the labels of the increments of the counter
-- `obs.Retractions`, the last one first.
pub mod Series
use jetstream_router.Common.{
  Bool, true, false, Option, none, some, List, [], ◌∷◌, if◌then◌else◌, not,
}
use jetstream_router.Common.Str.{Str, lit}
use jetstream_router.Common.Maps.{lookup}
use jetstream_router.Event.{Event}

abbrev pub counted_collections : List (Str × Bool)
counted_collections =
    (lit "app.bsky.feed.like", true)
    ∷ (lit "app.bsky.feed.repost", true)
    ∷ (lit "app.bsky.graph.follow", true)
    ∷ []

abbrev pub known_collections : List (Str × Bool)
known_collections =
    (lit "app.bsky.feed.like", true)
    ∷ (lit "app.bsky.feed.repost", true)
    ∷ (lit "app.bsky.graph.follow", true)
    ∷ (lit "app.bsky.feed.post", true)
    ∷ []

-- `m[k]` of a `map[string]bool`.
unfoldable pub index : Str → List (Str × Bool) → Bool
index k m = elim (lookup k m) [ none ↦ false | some b ↦ b ]

pub record Retraction : Type 0 where
  pub retractions : List (Str × Str)

unfoldable pub label : Str → Str
label collection = if not (index collection known_collections) then lit "other" else collection

unfoldable pub resolution : Str → Str
resolution collection =
    if index collection counted_collections then lit "no-index" else lit "not-applicable"

-- `Handle`
unfoldable pub handle : Retraction → Event → Retraction
handle r ev = record {
  retractions = (label ev.key.collection, resolution ev.key.collection) ∷ r.retractions;
}

unfoldable pub handle_all : Retraction → List Event → Retraction
handle_all r [] = r
handle_all r (ev ∷ evs) = handle_all (handle r ev) evs
