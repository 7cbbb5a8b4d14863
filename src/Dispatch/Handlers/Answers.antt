-- ===== src/Dispatch/Handlers/Answers.antt =====
-- What a call of one handler does: it returns, keeps its state sound, and sends one alert at most,
-- under labels of a fixed list.
use jetstream_router.Common.{
  ◌≡◌, ◌⊎◌, refl, inl, inr, some, List, [], ◌∷◌, Has, arith, Bool-cases, Option-cases, not, ◌||◌,
}
use jetstream_router.Common.Str.{Str, lit, ◌==◌, has_prefix}
use jetstream_router.Event.{Event, dedup_key}
use jetstream_router.Handler.Shard.{ShardSet, Observed, observe}
use jetstream_router.Handler.Shard.Invariant.{AllValid, VisitsAll}
use jetstream_router.Handler.Alerts.{Alert, decode}
use jetstream_router.Handler.Content.{Content, PostRecord, hits, language_passes}
use jetstream_router.Handler.Content as Contents
use jetstream_router.Event.{op_delete}
use jetstream_router.Handler.Engagement.{Engagement}
use jetstream_router.Handler.Engagement as Engagements
use jetstream_router.Handler.Engagement.Replay.{engagement-AllValid}
use jetstream_router.Handler.SocialGraph.{SocialGraph}
use jetstream_router.Handler.SocialGraph as Graphs
use jetstream_router.Handler.SocialGraph.Replay.{social_graph-AllValid}
use jetstream_router.Dispatch.Handlers.{
  Handler, content, engagement, social_graph, retraction, fallback, World, handle,
}

-- The labels of `obs.Alerts`.
abbrev pub labels : List (Str × Str)
labels =
    (lit "content", lit "keyword matched")
    ∷ (lit "engagement", lit "threshold crossed")
    ∷ (lit "social-graph", lit "burst detected")
    ∷ []

abbrev pub IsQuiet : List Alert → Type 0
IsQuiet alerts = (alerts ≡ []) ⊎ ((a : Alert) × (alerts ≡ a ∷ []) × Has (a.route, a.msg) labels)

abbrev pub IsSound : Handler → Type 0
IsSound (content c) = Unit
IsSound (engagement g) = AllValid g.state
IsSound (social_graph g) = AllValid g.state
IsSound (retraction r) = Unit
IsSound (fallback d) = Unit

module _ (w : World) where
  content-IsQuiet :
      (c : Content) (ev : Event) → IsQuiet (Contents.handle w.to_lower w.matches w.read_post c ev)
  unfolding Contents.handle Contents.handle_post Contents.matched
  content-IsQuiet c ev = elim (Bool-cases (ev.key.operation == op_delete)) [
    | inl deletes ↦ rw (deletes, Contents.handle) (inl refl)
    | inr kept ↦ elim (Option-cases (decode w.read_post ev.body)) [
      | inl absent ↦ rw (kept, Contents.handle, absent) (inl refl)
      | inr (rec, found) ↦ elim (Bool-cases (rec.body == [])) [
        | inl empty ↦ rw (kept, Contents.handle, found, empty) (inl refl)
        | inr full ↦ rw (kept, Contents.handle, found, full) (of_post rec)
      ]
    ]
  ]
    where
      of_hits :
          (rec : PostRecord) (hit : List Str)
          → IsQuiet (elim hit [ [] ↦ [] | h ∷ hs ↦ Contents.matched ev rec (h ∷ hs) ∷ [] ])
      of_hits rec [] = inl refl
      of_hits rec (h ∷ hs) = inr (Contents.matched ev rec (h ∷ hs), refl, inl refl)

      of_post :
          (rec : PostRecord)
          → IsQuiet (Contents.handle_post w.to_lower w.matches w.read_post c ev rec)
      of_post rec = elim (Bool-cases (language_passes w.to_lower c.langs rec)) [
        | inl passes ↦ rw (passes, Contents.handle_post) (of_hits rec _)
        | inr stays ↦ rw (stays, Contents.handle_post) (inl refl)
      ]

  engagement_conclude :
      (g : Engagement) (ev : Event) (subject : Str) (r : ShardSet × Observed)
      → IsQuiet (Engagements.conclude g ev subject r).1
  unfolding Engagements.conclude Engagements.crossed
  engagement_conclude g ev subject (state, o) = elim (Bool-cases (o.dup || not o.alert)) [
    | inl silent ↦ rw (silent) (inl refl)
    | inr fires ↦ rw (fires) (inr (_, refl, inr (inl refl)))
  ]

  engagement-IsQuiet :
      (g g' : Engagement) (ev : Event) (alerts : List Alert)
      → Engagements.handle w.visit w.read_subject_uri g ev ≡ some (g', alerts)
      → IsQuiet alerts
  unfolding Engagements.handle Engagements.count
  engagement-IsQuiet g g' ev alerts ran = elim (Option-cases (decode w.read_subject_uri ev.body)) [
    | inl absent ↦ let none_ : alerts ≡ [] = ground (arith, absent, ran) in inl none_
    | inr (subject, found) ↦ elim (Bool-cases (subject == [])) [
      | inl skip ↦ let none_ : alerts ≡ [] = ground (arith, found, skip, ran) in inl none_
      | inr counts ↦
          elim (Option-cases
            (observe w.visit subject (dedup_key ev) ev.time_us g.threshold g.state)) [
              | inl panics ↦ absurd (ground (arith, found, counts, panics, ran))
              | inr (r, observed) ↦
                  let same : alerts ≡ (Engagements.conclude g ev subject r).1 =
                    ground (arith, found, counts, observed, ran) in
                  rw (same) (engagement_conclude g ev subject r)
            ]
    ]
  ]

  social_graph_conclude :
      (g : SocialGraph) (ev : Event) (subject : Str) (r : ShardSet × Observed)
      → IsQuiet (Graphs.conclude g subject r).1
  unfolding Graphs.conclude Graphs.burst
  social_graph_conclude g ev subject (state, o) = elim (Bool-cases (o.dup || not o.alert)) [
    | inl silent ↦ rw (silent) (inl refl)
    | inr fires ↦ rw (fires) (inr (_, refl, inr (inr (inl refl))))
  ]

  social_graph-IsQuiet :
      (g g' : SocialGraph) (ev : Event) (alerts : List Alert)
      → Graphs.handle w.visit w.read_subject g ev ≡ some (g', alerts)
      → IsQuiet alerts
  unfolding Graphs.handle Graphs.count
  social_graph-IsQuiet g g' ev alerts ran = elim (Option-cases (decode w.read_subject ev.body)) [
    | inl absent ↦ let none_ : alerts ≡ [] = ground (arith, absent, ran) in inl none_
    | inr (subject, found) ↦ elim (Bool-cases (not (has_prefix subject (lit "did:")))) [
      | inl skip ↦ let none_ : alerts ≡ [] = ground (arith, found, skip, ran) in inl none_
      | inr counts ↦
          elim (Option-cases
            (observe w.visit subject (dedup_key ev) ev.time_us g.threshold g.state)) [
              | inl panics ↦ absurd (ground (arith, found, counts, panics, ran))
              | inr (r, observed) ↦
                  let same : alerts ≡ (Graphs.conclude g subject r).1 =
                    ground (arith, found, counts, observed, ran) in
                  rw (same) (social_graph_conclude g ev subject r)
            ]
    ]
  ]

module _ (w : World) (visits : VisitsAll w.visit) where
  -- A call of `Handle` on a sound handler returns, leaves a sound handler, and sends one alert at
  -- most, under labels of the list.
  pub handle-IsSound :
      (h : Handler) (ev : Event)
      → IsSound h
      → (h' : Handler) × (alerts : List Alert) × (handle w h ev ≡ some (h', alerts))
        × IsSound h'
        × IsQuiet alerts
  unfolding handle
  handle-IsSound (content c) ev v = (content c, _, refl, tt, content-IsQuiet w c ev)
  handle-IsSound (engagement g) ev v =
      let (g', alerts, ran, v', _) = engagement-AllValid w.visit visits w.read_subject_uri g ev v in
      (engagement g', alerts, rw (ran, handle) refl, v', engagement-IsQuiet w g g' ev alerts ran)
  handle-IsSound (social_graph g) ev v =
      let (g', alerts, ran, v', _) = social_graph-AllValid w.visit visits w.read_subject g ev v in
      (
        social_graph g',
        alerts,
        rw (ran, handle) refl,
        v',
        social_graph-IsQuiet w g g' ev alerts ran,
      )
  handle-IsSound (retraction r) ev v = (_, [], refl, tt, inl refl)
  handle-IsSound (fallback d) ev v = (_, [], refl, tt, inl refl)
