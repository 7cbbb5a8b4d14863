-- ===== src/Config/Defaults.antt =====
-- How the default table routes.
use jetstream_router.Common.{
  filter, ◌≡◌, ◌≢◌, refl, Bool, true, not, ◌&&◌, [], ◌∷◌, ok, if◌then◌else◌, eqb, arith,
}
use jetstream_router.Common.Str.{Str, lit, ◌==◌, eq_iff}
use jetstream_router.Event.{Key, kind_commit, op_delete}
use jetstream_router.Routing.{Router, matches, first_match, route, new}
use jetstream_router.Routing.Build.{IsGood, new_iff}
use jetstream_router.PathMatch.Literal.{IsLiteral, path_match_literal}
use jetstream_router.Config.{default_table, rule}

-- The routes that the documentation of the defaults gives.
abbrev pub default_route : Key → Str
default_route k =
    if not (k.kind == kind_commit)
    then lit "default"
    else (if k.operation == op_delete
        then lit "retraction"
        else (if k.collection == lit "app.bsky.feed.post"
            then lit "content"
            else (if k.collection == lit "app.bsky.feed.like"
                then lit "engagement"
                else (if k.collection == lit "app.bsky.feed.repost"
                    then lit "engagement"
                    else (if k.collection == lit "app.bsky.graph.follow"
                        then lit "social-graph"
                        else lit "default")))))

abbrev pub default_router : Router
default_router = record {
  op_rules = rule [] (lit "delete") (lit "retraction") ∷ [];
  coll_rules =
      rule (lit "app.bsky.feed.post") [] (lit "content")
      ∷ rule (lit "app.bsky.feed.like") [] (lit "engagement")
      ∷ rule (lit "app.bsky.feed.repost") [] (lit "engagement")
      ∷ rule (lit "app.bsky.graph.follow") [] (lit "social-graph")
      ∷ [];
  fallback = lit "default";
}

-- A rule for commits of one collection, whatever the operation.
matches_collection :
    (c : Str) (k : Key)
    → IsLiteral c
    → c ≢ []
    → matches (record { kind = kind_commit; collection = c; operation = [] }) k
      ≡ (k.kind == kind_commit && k.collection == c)
unfolding matches ◌==◌
matches_collection c k literal some_ = ground (
  arith,
  path_match_literal c k.collection literal,
  eq_iff c [],
  eq_iff c k.collection,
  eq_iff k.collection c,
  eq_iff k.collection [],
  eq_iff kind_commit k.kind,
  eq_iff k.kind kind_commit,
)

matches_delete :
    (k : Key)
    → matches (record { kind = kind_commit; collection = []; operation = op_delete }) k
      ≡ (k.kind == kind_commit && k.operation == op_delete)
unfolding matches ◌==◌
matches_delete k = ground (
  arith,
  eq_iff op_delete k.operation,
  eq_iff k.operation op_delete,
  eq_iff kind_commit k.kind,
  eq_iff k.kind kind_commit,
)

is_literal : Str → Bool
is_literal [] = true
is_literal (c ∷ s) =
    not (eqb c b'*') && not (eqb c b'?') && not (eqb c b'[') && not (eqb c 0x5c) && is_literal s

is_literal-IsLiteral : (s : Str) → is_literal s ≡ true → IsLiteral s
unfolding is_literal
is_literal-IsLiteral [] h = tt
is_literal-IsLiteral (c ∷ s) h = (ground arith, is_literal-IsLiteral s (ground arith))

-- The rule of a collection is accepted, and matches the commits of the collection.
collection_rule :
    (c name : Str)
    → is_literal c ≡ true
    → c ≢ []
    → name ≢ []
    → IsGood (record {
      match = record { kind = kind_commit; collection = c; operation = [] };
      route = name;
    })
collection_rule c name literal some_ named = record {
  has_route = named;
  glob_valid = λ _ text. rw (path_match_literal c text (is_literal-IsLiteral c literal)) refl;
}

-- The default table is accepted, and sends deletes to retraction, posts to content, likes and
-- reposts to engagement, follows to social-graph and everything else to default.
pub default_table-route :
    (new default_table ≡ ok default_router) × ((k : Key) → route default_router k ≡ default_route k)
unfolding is_literal route first_match filter ◌==◌
default_table-route = (
  (new_iff default_table default_router).1 (
    λ e. cc,
    (
      record { has_route = λ e. cc; glob_valid = λ h. absurd (h refl) },
      (
        collection_rule (lit "app.bsky.feed.post") (lit "content") refl (λ e. cc) (λ e. cc),
        (
          collection_rule (lit "app.bsky.feed.like") (lit "engagement") refl (λ e. cc) (λ e. cc),
          (
            collection_rule (lit "app.bsky.feed.repost") (lit "engagement") refl (λ e. cc)
                (λ e. cc),
            (
              collection_rule (lit "app.bsky.graph.follow") (lit "social-graph") refl (λ e. cc)
                  (λ e. cc),
              tt,
            ),
          ),
        ),
      ),
    ),
    refl,
  ),
  λ k. ground (
    arith,
    matches_delete k,
    matches_collection (lit "app.bsky.feed.post") k
        (is_literal-IsLiteral (lit "app.bsky.feed.post") refl) (λ e. cc),
    matches_collection (lit "app.bsky.feed.like") k
        (is_literal-IsLiteral (lit "app.bsky.feed.like") refl) (λ e. cc),
    matches_collection (lit "app.bsky.feed.repost") k
        (is_literal-IsLiteral (lit "app.bsky.feed.repost") refl) (λ e. cc),
    matches_collection (lit "app.bsky.graph.follow") k
        (is_literal-IsLiteral (lit "app.bsky.graph.follow") refl) (λ e. cc),
  ),
)
