-- ===== src/Handler/Unrouted.antt =====
-- internal/handler/default.go: the fallback route. `reasons` holds the labels of the increments
-- of `obs.Unrouted`, the last one first.
pub mod Buckets
pub mod Spacing
use jetstream_router.Common.{
  ℕ, Bool, ◌&&◌, List, [], ◌∷◌, ◌++◌, if◌then◌else◌, not, length, ltb, take,
}
use jetstream_router.Common.Int.{ℤ, pos}
use jetstream_router.Common.Str.{Str, lit, ◌==◌}
use jetstream_router.Event.{Event, kind_commit}
use jetstream_router.Handler.Throttle.{Throttle, new_throttle, allow}
use jetstream_router.Handler.Retraction.{index, known_collections}

pub record Default : Type 0 where
  pub seen : Throttle
  pub reasons : List Str

-- `NewDefault`
unfoldable pub new_default : Default
new_default = record { seen = new_throttle (pos 60000000) (pos 512); reasons = [] }

abbrev pub prefixes : List Str
prefixes =
    lit "app.bsky.feed." ∷ lit "app.bsky.graph." ∷ lit "app.bsky.actor." ∷ lit "chat.bsky." ∷ []

-- The loop of `bucket`.
unfoldable pub bucket_from : Str → List Str → Str
bucket_from collection [] = lit "other"
bucket_from collection (p ∷ ps) =
    if ltb (length p) (length collection) && take (length p) collection == p
    then p ++ lit "*"
    else bucket_from collection ps

unfoldable pub bucket : Str → Str
bucket collection =
    if index collection known_collections then collection else bucket_from collection prefixes

unfoldable pub reason : Event → Str
reason ev =
    if not (ev.key.kind == kind_commit) then lit "non-commit-kind" else lit "unmapped-collection"

-- `Handle`; the result holds the bucket of each line that is logged.
unfoldable pub handle : Default → Event → Default × List Str
handle d ev =
    let d' = record d { reasons = reason ev ∷ d.reasons } in
    if reason ev == lit "unmapped-collection"
    then (let b = bucket ev.key.collection in
        let (seen, allowed) = allow b ev.time_us d'.seen in
        (record d' { seen = seen }, if allowed then b ∷ [] else []))
    else (d', [])
