-- ===== src/Handler/Unrouted/Buckets.antt =====
-- The buckets that unknown collections are logged under, and the table of the throttle.
use jetstream_router.Common.{
  ◌≤◌, ◌≡◌, refl, ap, sym, subst, false, ◌&&◌, some, List, [], ◌∷◌, ◌++◌, Has, length, take, ltb,
  arith, Bool-cases, Option-cases, inl, inr,
}
use jetstream_router.Common.Int.{ℤ, pos, leb_ℤ}
use jetstream_router.Common.Str.{Str, lit, ◌==◌, eq_iff, eq_refl}
use jetstream_router.Common.Maps.{
  lookup, delete, Distinct, lookup-insert, lookup-delete, insert-Distinct, delete-Distinct,
  length-delete, delete_absent,
}
use jetstream_router.Event.{Event}
use jetstream_router.Handler.Throttle.{Throttle, new_throttle, blocked, make_room, allow}
use jetstream_router.Handler.Retraction.{index, known_collections}
use jetstream_router.Handler.Retraction.Series.{known_cases}
use jetstream_router.Handler.Unrouted.{
  Default, new_default, prefixes, bucket_from, bucket, reason, handle,
}

-- Every bucket there is.
abbrev pub buckets : List Str
buckets =
    lit "app.bsky.feed.like"
    ∷ lit "app.bsky.feed.repost"
    ∷ lit "app.bsky.graph.follow"
    ∷ lit "app.bsky.feed.post"
    ∷ lit "app.bsky.feed.*"
    ∷ lit "app.bsky.graph.*"
    ∷ lit "app.bsky.actor.*"
    ∷ lit "chat.bsky.*"
    ∷ lit "other"
    ∷ []

starred : List Str → List Str
starred [] = lit "other" ∷ []
starred (p ∷ ps) = (p ++ lit "*") ∷ starred ps

bucket_from-Has : (c : Str) (ps : List Str) → Has (bucket_from c ps) (starred ps)
unfolding bucket_from starred
bucket_from-Has c [] = inl refl
bucket_from-Has c (p ∷ ps) =
    elim (Bool-cases (ltb (length p) (length c) && take (length p) c == p)) [
      | inl fits ↦ rw (fits, bucket_from) (inl refl)
      | inr other ↦
          let next : bucket_from c (p ∷ ps) ≡ bucket_from c ps = rw (other, bucket_from) refl in
          inr (subst (λ x. Has x (starred ps)) (sym next) (bucket_from-Has c ps))
    ]

-- However many collections there are, an unknown one is logged under one of nine buckets.
pub bucket-Has : (c : Str) → Has (bucket c) buckets
unfolding bucket index lookup ◌==◌ starred
bucket-Has c = elim (Bool-cases (index c known_collections)) [
  | inl known ↦
      known_cases (λ x. Has (bucket x) buckets) c known (inl refl) (inr (inl refl))
        (inr (inr (inl refl))) (inr (inr (inr (inl refl))))
  | inr unknown ↦
      let h : Has (bucket c) (starred prefixes) =
        rw (unknown, bucket) (bucket_from-Has c prefixes) in
      inr (inr (inr (inr h)))
]

length-absent :
    {V : Type 0} (m : List (Str × V)) → ((k : Str) (v : V) → lookup k m ≡ some v → ⊥) → length m ≤ 0
unfolding lookup
length-absent {V} [] h = omega arith
length-absent {V} ((k, v) ∷ m) h = absurd (h k v (ground (arith, eq_refl k)))

-- A map whose keys are among some values holds no more keys than there are values.
length-Distinct :
    {V : Type 0} (bs : List Str) (m : List (Str × V))
    → Distinct m
    → ((k : Str) (v : V) → lookup k m ≡ some v → Has k bs)
    → length m ≤ length bs
length-Distinct {V} [] m d h = length-absent m h
length-Distinct {V} (b ∷ bs) m d h =
    let rest = length-Distinct bs (delete b m) (delete-Distinct b m d) (λ k v found.
      elim (Bool-cases (b == k)) [
        | inl same ↦ absurd (ground (arith, lookup-delete b k m))
        | inr other ↦ elim (h k v (ground (arith, lookup-delete b k m))) [
          | inl e ↦ absurd (ground (arith, eq_iff b k))
          | inr there ↦ there
        ]
      ]) in
    elim (Option-cases (lookup b m)) [
      | inl absent ↦ omega (arith, ap length (delete_absent b m absent), rest)
      | inr (v, found) ↦ omega (arith, length-delete b m v d found, rest)
    ]

-- The table holds buckets and has never been reset.
pub record IsBounded (t : Throttle) : Type 0 where
  pub distinct : Distinct t.last
  pub among : (k : Str) (v : ℤ) → lookup k t.last ≡ some v → Has k buckets
  pub never_full : t.max_keys ≡ pos 512
  pub never_reset : t.evicted ≡ []
  pub minute : t.interval_us ≡ pos 60000000

pub new_default-IsBounded : IsBounded new_default.seen
unfolding new_default new_throttle lookup
new_default-IsBounded = record {
  distinct = tt;
  among = λ k v found. cc;
  never_full = refl;
  never_reset = refl;
  minute = refl;
}

pub length-IsBounded : (t : Throttle) → IsBounded t → length t.last ≤ 9
length-IsBounded t b = length-Distinct buckets t.last b.distinct b.among

pub make_room-IsBounded : (t : Throttle) → IsBounded t → make_room t ≡ t
unfolding make_room
make_room-IsBounded t b =
    let room : leb_ℤ t.max_keys (pos (length t.last)) ≡ false =
      ground (arith, length-IsBounded t b, b.never_full) in
    rw (room, make_room) refl

pub allow-IsBounded :
    (k : Str) (now_us : ℤ) (t : Throttle)
    → Has k buckets
    → IsBounded t
    → IsBounded (allow k now_us t).0
unfolding allow
allow-IsBounded k now_us t known b = elim (Bool-cases (blocked k now_us t)) [
  | inl stop ↦ rw (stop, allow) b
  | inr pass ↦
      rw (pass, allow, make_room-IsBounded t b)
        (record {
          distinct = insert-Distinct k now_us t.last b.distinct;
          among = λ j v found. elim (Bool-cases (k == j)) [
            | inl same ↦ subst (λ x. Has x buckets) ((eq_iff k j).0 same) known
            | inr other ↦ b.among j v (ground (arith, lookup-insert k j now_us t.last))
          ];
          never_full = b.never_full;
          never_reset = b.never_reset;
          minute = b.minute;
        })
]

-- The fallback route's throttle holds at most nine keys, so it is never reset.
pub handle-IsBounded :
    (d : Default) (ev : Event) → IsBounded d.seen → IsBounded (handle d ev).0.seen
unfolding handle
handle-IsBounded d ev b = elim (Bool-cases (reason ev == lit "unmapped-collection")) [
  | inl unmapped ↦
      rw (unmapped, handle)
        (allow-IsBounded (bucket ev.key.collection) ev.time_us d.seen (bucket-Has ev.key.collection)
          b)
  | inr other ↦ rw (other, handle) b
]
