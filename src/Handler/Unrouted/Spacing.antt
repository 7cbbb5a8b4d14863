-- ===== src/Handler/Unrouted/Spacing.antt =====
-- How often the fallback route logs.
use jetstream_router.Common.{
  ◌≡◌, ◌⊎◌, refl, ap, ◌∙◌, subst, true, false, some, List, [], ◌∷◌, ◌++◌, Has, Has-append_left,
  Has-append_right, arith, Bool-cases, inl, inr,
}
use jetstream_router.Common.Int.{ℤ, pos, ltb_ℤ, ◌≤ℤ◌, sub64}
use jetstream_router.Common.Str.{Str, lit, ◌==◌, eq_iff}
use jetstream_router.Common.Maps.{lookup, lookup-insert}
use jetstream_router.Event.{Event}
use jetstream_router.Handler.Throttle.{Throttle, blocked, allow}
use jetstream_router.Handler.Throttle.Laws.{allow_iff}
use jetstream_router.Handler.Unrouted.{Default, bucket, reason, handle}
use jetstream_router.Handler.Unrouted.Buckets.{IsBounded, make_room-IsBounded, handle-IsBounded}

-- The events are handled in order; the result holds the bucket of each line that is logged.
unfoldable pub run : List Event → Default → Default × List Str
run [] d = (d, [])
run (ev ∷ evs) d =
    let (d', lines) = handle d ev in let (d'', rest) = run evs d' in (d'', lines ++ rest)

-- A bucket that is not logged keeps its time.
lookup-allow :
    (b k : Str) (now_us : ℤ) (t : Throttle)
    → IsBounded t
    → ((k == b) ≡ false) ⊎ ((allow k now_us t).1 ≡ false)
    → lookup b (allow k now_us t).0.last ≡ lookup b t.last
unfolding allow
lookup-allow b k now_us t bounded quiet = elim (Bool-cases (blocked k now_us t)) [
  | inl stop ↦ rw (stop, allow) refl
  | inr pass ↦ elim quiet [
    | inr refused ↦ absurd (ground arith)
    | inl other ↦
        rw (pass, allow, make_room-IsBounded t bounded)
          (ground (arith, lookup-insert k b now_us t.last))
  ]
]

lookup-handle :
    (b : Str) (ev : Event) (d : Default)
    → IsBounded d.seen
    → ¬ Has b (handle d ev).1
    → lookup b (handle d ev).0.seen.last ≡ lookup b d.seen.last
unfolding handle
lookup-handle b ev d bounded quiet = elim (Bool-cases (reason ev == lit "unmapped-collection")) [
  | inr other ↦ rw (other, handle) refl
  | inl unmapped ↦
      let k = bucket ev.key.collection in
      rw (unmapped, handle)
        (lookup-allow b k ev.time_us d.seen bounded
          (elim (Bool-cases (allow k ev.time_us d.seen).1) [
            | inr refused ↦ inr refused
            | inl logged ↦ elim (Bool-cases (k == b)) [
              | inr other ↦ inl other
              | inl same ↦
                  absurd (quiet (rw (unmapped, handle, logged) (inl ((eq_iff k b).0 same))))
            ]
          ]))
]

lookup-run :
    (b : Str) (evs : List Event) (d : Default)
    → IsBounded d.seen
    → ¬ Has b (run evs d).1
    → IsBounded (run evs d).0.seen × (lookup b (run evs d).0.seen.last ≡ lookup b d.seen.last)
unfolding run
lookup-run b [] d bounded quiet = (bounded, refl)
lookup-run b (ev ∷ evs) d bounded quiet =
    let d' = (handle d ev).0 in
    let (bounded', same) =
      lookup-run b evs d' (handle-IsBounded d ev bounded)
        (λ h. quiet (Has-append_right b (handle d ev).1 (run evs d').1 h)) in
    (
      bounded',
      same
          ∙ lookup-handle b ev d bounded
              (λ h. quiet (Has-append_left b (handle d ev).1 (run evs d').1 h)),
    )

-- A line is logged for the bucket of the event, which the throttle lets pass.
logged :
    (b : Str) (ev : Event) (d : Default)
    → Has b (handle d ev).1
    → ((allow b ev.time_us d.seen).1 ≡ true)
      × ((handle d ev).0.seen ≡ (allow b ev.time_us d.seen).0)
unfolding handle
logged b ev d line = elim (Bool-cases (reason ev == lit "unmapped-collection")) [
  | inr other ↦ absurd (rw (other, handle) at line)
  | inl unmapped ↦
      let k = bucket ev.key.collection in
      elim (Bool-cases (allow k ev.time_us d.seen).1) [
        | inr refused ↦ absurd (rw (unmapped, handle, refused) at line)
        | inl passes ↦ elim (rw (unmapped, handle, passes) at line) [
          | inr h ↦ absurd h
          | inl same ↦ (
            subst (λ x. (allow x ev.time_us d.seen).1 ≡ true) same passes,
            rw (unmapped, handle) (ap (λ x. (allow x ev.time_us d.seen).0) same),
          )
        ]
      ]
]

-- From a throttle that holds buckets only, two lines that the fallback route logs for one bucket,
-- with none of it between them, are a minute of event time apart or more, whatever events come in
-- between.
pub handle-run-handle :
    (b : Str) (first second : Event) (evs : List Event) (d : Default)
    → IsBounded d.seen
    → Has b (handle d first).1
    → ¬ Has b (run evs (handle d first).0).1
    → Has b (handle (run evs (handle d first).0).0 second).1
    → pos 60000000 ≤ℤ sub64 second.time_us first.time_us
handle-run-handle b first second evs d bounded line quiet again =
    let d' = (handle d first).0 in
    let d'' = (run evs d').0 in
    let (bounded'', same) = lookup-run b evs d' (handle-IsBounded d first bounded) quiet in
    let (fires, left) = logged b first d line in
    let recorded : lookup b d''.seen.last ≡ some first.time_us =
      same ∙ ap (λ t. lookup b t.last) left ∙ (allow_iff b first.time_us d.seen).2 fires in
    let (fires', _) = logged b second d'' again in
    elim (Bool-cases (ltb_ℤ (sub64 second.time_us first.time_us) (pos 60000000))) [
      | inr late ↦ ground arith
      | inl early ↦
          let stop =
            (allow_iff b second.time_us d''.seen).0.1
              (first.time_us, recorded, rw (bounded''.minute) (ground arith)) in
          cc
    ]
