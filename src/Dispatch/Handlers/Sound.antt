-- ===== src/Dispatch/Handlers/Sound.antt =====
-- The handlers that `buildRoutes` makes, over any sequence of calls.
use jetstream_router.Common.{
  ℕ, suc, ◌+◌, ◌≤◌, ◌≡◌, refl, ap, inl, inr, sym, ◌∙◌, subst, Bool, true, some, List, [], ◌∷◌, Has,
  All, length, arith, Bool-cases,
}
use jetstream_router.Common.Int.{ℤ, pos, negsuc}
use jetstream_router.Common.Str.{Str, lit, ◌==◌, eq_iff}
use jetstream_router.Common.Maps.{lookup, insert, lookup-insert}
use jetstream_router.Event.{Event}
use jetstream_router.Handler.Shard.Invariant.{VisitsAll, new_shard_set-AllValid}
use jetstream_router.Handler.Engagement.{new_engagement}
use jetstream_router.Handler.SocialGraph.{new_social_graph}
use jetstream_router.Handler.Alerts.{Alert, LogSink, alert, alert_all}
use jetstream_router.Route.{Answer, done, Outcome, process, attempts, call_handler, rounds}
use jetstream_router.Route
use jetstream_router.Config.{Config}
use jetstream_router.Dispatch.{is_registered}
use jetstream_router.Dispatch.Handlers.{
  Handler, Desk, World, handlers, new_desk, settle, serve, serve_all, answer,
}
use jetstream_router.Dispatch.Handlers.Answers.{IsSound, IsQuiet, labels, handle-IsSound}

abbrev pub names : List Str
names =
    lit "content" ∷ lit "engagement" ∷ lit "social-graph" ∷ lit "retraction" ∷ lit "default" ∷ []

registered-Has : (name : Str) → is_registered name ≡ true → Has name names
unfolding is_registered
registered-Has name known = elim (Bool-cases (name == lit "content")) [
  | inl a ↦ inl (sym ((eq_iff name _).0 a))
  | inr a ↦ elim (Bool-cases (name == lit "engagement")) [
    | inl b ↦ inr (inl (sym ((eq_iff name _).0 b)))
    | inr b ↦ elim (Bool-cases (name == lit "social-graph")) [
      | inl c ↦ inr (inr (inl (sym ((eq_iff name _).0 c))))
      | inr c ↦ elim (Bool-cases (name == lit "retraction")) [
        | inl d ↦ inr (inr (inr (inl (sym ((eq_iff name _).0 d)))))
        | inr d ↦
            let last : (name == lit "default") ≡ true = rw (is_registered, a, b, c, d) at known in
            inr (inr (inr (inr (inl (sym ((eq_iff name _).0 last))))))
      ]
    ]
  ]
]

-- Every name of a handler has one, which is sound; the alerts so far are under the labels of the
-- list, and there are at most so many.
pub record IsReady (calls : ℕ) (d : Desk) : Type 0 where
  pub ready :
      (name : Str)
      → is_registered name ≡ true
      → (h : Handler) × (lookup name d.handlers ≡ some h) × IsSound h
  pub labelled : All (λ p. Has p labels) d.sink.alerts
  pub few : length d.sink.alerts ≤ calls

new_desk-IsReady : (w : World) (cfg : Config) → IsReady 0 (new_desk w cfg)
unfolding handlers lookup ◌==◌ new_engagement new_social_graph
new_desk-IsReady w cfg = record {
  ready = λ name known. at name (registered-Has name known);
  labelled = tt;
  few = omega arith;
}
  where
    Ready : Str → Type 0
    Ready name = (h : Handler) × (lookup name (handlers w cfg) ≡ some h) × IsSound h

    at : (name : Str) → Has name names → Ready name
    at name (inl e) = subst Ready e (_, refl, tt)
    at name (inr (inl e)) = subst Ready e (_, refl, new_shard_set-AllValid _ _ _)
    at name (inr (inr (inl e))) = subst Ready e (_, refl, new_shard_set-AllValid _ _ _)
    at name (inr (inr (inr (inl e)))) = subst Ready e (_, refl, tt)
    at name (inr (inr (inr (inr (inl e))))) = subst Ready e (_, refl, tt)
    at name (inr (inr (inr (inr (inr e))))) = absurd e

alert_all-IsQuiet :
    (alerts : List Alert) (s : LogSink) (calls : ℕ)
    → IsQuiet alerts
    → All (λ p. Has p labels) s.alerts
    → length s.alerts ≤ calls
    → All (λ p. Has p labels) (alert_all alerts s).alerts
      × (length (alert_all alerts s).alerts ≤ suc calls)
unfolding alert_all alert
alert_all-IsQuiet alerts s calls (inl none_) labelled few = rw (none_) (labelled, omega arith)
alert_all-IsQuiet alerts s calls (inr (a, one, there)) labelled few =
    rw (one) ((there, labelled), omega arith)

-- The outcome of an attempt that succeeds at once.
abbrev pub ok_at_once : Outcome
ok_at_once = record { handled = lit "ok" ∷ []; dead_lettered = []; panics = 0; backoffs = [] }

process-done :
    (handler : ℕ → Answer) (wakes : ℕ → Bool) (rc : Route.Config)
    → handler 0 ≡ done
    → process handler wakes rc ≡ some ok_at_once
unfolding process rounds attempts
process-done handler wakes rc good = start rc.max_attempts
  where
    called : call_handler (handler 0) ≡ (done, 0)
    called = ap call_handler good ∙ unfold call_handler in refl

    start : (m : ℤ) → attempts handler wakes rc (rounds m) 0 ≡ some ok_at_once
    start (pos m) = ground (arith, called)
    start (negsuc m) = ground (arith, called)

module _ (w : World) (visits : VisitsAll w.visit) where
  serve-IsReady :
      (calls : ℕ) (d : Desk) (name : Str) (ev : Event)
      → IsReady calls d
      → is_registered name ≡ true
      → (d' : Desk) × (serve w (name, ev) d ≡ some d') × IsReady (suc calls) d'
  unfolding serve settle
  serve-IsReady calls d name ev r known =
      let (h, at, v) = r.ready name known in
      let (h', alerts, ran, v', quiet) = handle-IsSound w visits h ev v in
      let d' : Desk = record {
        handlers = insert name h' d.handlers;
        sink = alert_all alerts d.sink;
      } in
      (
        d',
        rw (at, serve, ran) refl,
        record {
          ready = λ other known'. elim (Bool-cases (name == other)) [
            | inl same ↦ (h', ground (arith, lookup-insert name other h' d.handlers, same), v')
            | inr differs ↦
                let (g, there, sound) = r.ready other known' in
                (g, ground (arith, lookup-insert name other h' d.handlers, differs, there), sound)
          ];
          labelled = (alert_all-IsQuiet alerts d.sink calls quiet r.labelled r.few).0;
          few = (alert_all-IsQuiet alerts d.sink calls quiet r.labelled r.few).1;
        },
      )

  serves :
      (before : ℕ) (d : Desk) (calls : List (Str × Event))
      → IsReady before d
      → All (λ c. is_registered c.0 ≡ true) calls
      → (d' : Desk) × (serve_all w calls d ≡ some d') × IsReady (before + length calls) d'
  unfolding serve_all
  serves before d [] r known = (d, refl, subst (λ n. IsReady n d) (omega arith) r)
  serves before d ((name, ev) ∷ calls) r (known, rest) =
      let (d1, ran, r1) = serve-IsReady before d name ev r known in
      let (d2, ran', r2) = serves (suc before) d1 calls r1 rest in
      (d2, rw (serve_all, ran) ran', subst (λ n. IsReady n d2) (omega arith) r2)

  -- Where range visits every key of a map once: over any calls, under names of the map, of the
  -- handlers that buildRoutes makes from a configuration, no handler panics, every table of every
  -- shard stays within its cap, and the alerts that are counted are no more than the calls and
  -- stand under one of three pairs of labels; and an event that a route processes after them
  -- succeeds at the first attempt, without a retry or a dead letter.
  pub serve_all-IsReady :
      (cfg : Config) (calls : List (Str × Event)) (name : Str) (ev : Event) (wakes : ℕ → Bool)
      (rc : Route.Config)
      → All (λ c. is_registered c.0 ≡ true) calls
      → is_registered name ≡ true
      → (d : Desk) × (serve_all w calls (new_desk w cfg) ≡ some d)
        × IsReady (length calls) d
        × (process (λ _. answer w (name, ev) d) wakes rc ≡ some ok_at_once)
  unfolding answer
  serve_all-IsReady cfg calls name ev wakes rc all known =
      let (d, ran, r) = serves 0 (new_desk w cfg) calls (new_desk-IsReady w cfg) all in
      let (d', served, _) = serve-IsReady (0 + length calls) d name ev r known in
      (
        d,
        ran,
        subst (λ n. IsReady n d) (omega arith) r,
        process-done (λ _. answer w (name, ev) d) wakes rc (rw (answer, served) refl),
      )
