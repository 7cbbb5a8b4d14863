-- ===== src/Handler/Throttle/Laws.antt =====
-- The spacing of the events that `Throttle` lets pass, and the bound on its table.
use jetstream_router.Common.{
  suc, ◌+◌, ◌≤◌, ◌≡◌, ◌↔◌, ◌∙◌, refl, true, false, some, List, [], ◌∷◌, All, length, arith,
  Bool-cases, Option-cases, inl, inr,
}
use jetstream_router.Common.Int.{ℤ, pos, ◌≤ℤ◌, ◌<ℤ◌, ltb_ℤ, leb_ℤ, sub64}
use jetstream_router.Common.Str.{Str, ◌==◌, eq_refl}
use jetstream_router.Common.Maps.{lookup, Distinct, lookup-insert, insert-Distinct, length-insert}
use jetstream_router.Handler.Throttle.{Throttle, new_throttle, blocked, make_room, allow}

pub record IsValid (t : Throttle) : Type 0 where
  pub distinct : Distinct t.last
  pub bounded : pos (length t.last) ≤ℤ t.max_keys
  pub positive : pos 1 ≤ℤ t.max_keys

pub new_throttle-IsValid : (interval_us max_keys : ℤ) → IsValid (new_throttle interval_us max_keys)
unfolding new_throttle
new_throttle-IsValid interval_us max_keys = record {
  distinct = tt;
  bounded = ground arith;
  positive = ground arith;
}

-- Allow keeps the invariant of a throttle: the table holds each key once and never more keys than
-- the cap.
pub allow-IsValid :
    (key : Str) (now_us : ℤ) (t : Throttle) → IsValid t → IsValid (allow key now_us t).0
unfolding allow make_room
allow-IsValid key now_us t v = elim (Bool-cases (blocked key now_us t)) [
  | inl stop ↦ rw (stop, allow) v
  | inr pass ↦ elim (Bool-cases (leb_ℤ t.max_keys (pos (length t.last)))) [
    | inl full ↦
        rw (pass, allow, full, make_room)
          (record {
            distinct = insert-Distinct key now_us [] tt;
            bounded = ground (arith, v.positive, length-insert key now_us []);
            positive = v.positive;
          })
    | inr room ↦
        rw (pass, allow, room, make_room)
          (record {
            distinct = insert-Distinct key now_us t.last v.distinct;
            bounded = ground (arith, length-insert key now_us t.last);
            positive = v.positive;
          })
  ]
]

-- Calls of `Allow` on a throttle, in order, with the answers left out.
unfoldable pub run : List (Str × ℤ) → Throttle → Throttle
run [] t = t
run ((key, now_us) ∷ calls) t = run calls (allow key now_us t).0

-- Allow refuses a key exactly when the table holds a time for it that is less than the interval
-- ago, and changes nothing then; when it lets the key pass, the time is what the table holds for
-- the key afterwards.
pub allow_iff :
    (key : Str) (now_us : ℤ) (t : Throttle)
    → (((allow key now_us t).1 ≡ false)
        ↔ ((at : ℤ) × (lookup key t.last ≡ some at) × (sub64 now_us at <ℤ t.interval_us)))
      × ((allow key now_us t).1 ≡ false → (allow key now_us t).0 ≡ t)
      × ((allow key now_us t).1 ≡ true → lookup key (allow key now_us t).0.last ≡ some now_us)
unfolding allow blocked
allow_iff key now_us t = elim (Option-cases (lookup key t.last)) [
  | inl absent ↦ (
    (λ h. cc, λ (at, found, _). cc),
    λ h. cc,
    λ h.
        rw (absent, blocked, allow)
          (ground (arith, lookup-insert key key now_us (make_room t).last, eq_refl key)),
  )
  | inr (at, found) ↦ elim (Bool-cases (ltb_ℤ (sub64 now_us at) t.interval_us)) [
    | inl early ↦ (
      (λ h. (at, found, ground arith), λ _. rw (found, blocked, allow, early) refl),
      λ _. rw (found, blocked, allow, early) refl,
      λ h. absurd (ground arith),
    )
    | inr late ↦ (
      (λ h. absurd (ground arith), λ (at', found', q). absurd (ground arith)),
      λ h. absurd (ground arith),
      λ _.
          rw (found, blocked, allow, late)
            (ground (arith, lookup-insert key key now_us (make_room t).last, eq_refl key)),
    )
  ]
]

-- With room for a key, a call of another key leaves the time of this one alone.
lookup-allow :
    (k key : Str) (now_us : ℤ) (t : Throttle)
    → (key == k) ≡ false
    → pos (suc (length t.last)) ≤ℤ t.max_keys
    → (lookup k (allow key now_us t).0.last ≡ lookup k t.last)
      × (length (allow key now_us t).0.last ≤ suc (length t.last))
      × ((allow key now_us t).0.max_keys ≡ t.max_keys)
      × ((allow key now_us t).0.interval_us ≡ t.interval_us)
unfolding allow make_room
lookup-allow k key now_us t other room = elim (Bool-cases (blocked key now_us t)) [
  | inl stop ↦ rw (stop, allow) (refl, omega arith, refl, refl)
  | inr pass ↦
      let fits : leb_ℤ t.max_keys (pos (length t.last)) ≡ false = ground arith in
      rw (pass, allow, fits, make_room)
        (
          ground (arith, lookup-insert key k now_us t.last),
          ground (arith, length-insert key now_us t.last),
          refl,
          refl,
        )
]

abbrev Others : Str → List (Str × ℤ) → Type 0
Others k calls = All (λ c. (c.0 == k) ≡ false) calls

lookup-run :
    (k : Str) (calls : List (Str × ℤ)) (t : Throttle)
    → Others k calls
    → pos (length t.last + length calls) ≤ℤ t.max_keys
    → (lookup k (run calls t).last ≡ lookup k t.last) × ((run calls t).interval_us ≡ t.interval_us)
unfolding run
lookup-run k [] t others room = (refl, refl)
lookup-run k ((key, now_us) ∷ calls) t (other, others) room =
    let (same, grows, max, interval) = lookup-allow k key now_us t other (ground arith) in
    let (same', interval') =
      lookup-run k calls (allow key now_us t).0 others (rw max (ground (arith, grows))) in
    (same' ∙ same, interval' ∙ interval)

settings-allow :
    (key : Str) (now_us : ℤ) (t : Throttle)
    → ((allow key now_us t).0.max_keys ≡ t.max_keys)
      × ((allow key now_us t).0.interval_us ≡ t.interval_us)
unfolding allow make_room
settings-allow key now_us t = elim (Bool-cases (blocked key now_us t)) [
  | inl stop ↦ rw (stop, allow) (refl, refl)
  | inr pass ↦ elim (Bool-cases (leb_ℤ t.max_keys (pos (length t.last)))) [
    | inl full ↦ rw (pass, allow, full, make_room) (refl, refl)
    | inr room ↦ rw (pass, allow, room, make_room) (refl, refl)
  ]
]

-- A key that was let pass, and is let pass again after calls of other keys that the table has
-- room for, passes no sooner than the interval after the first time.
pub allow-run-allow :
    (k : Str) (first second : ℤ) (calls : List (Str × ℤ)) (t : Throttle)
    → (allow k first t).1 ≡ true
    → Others k calls
    → pos (length (allow k first t).0.last + length calls) ≤ℤ t.max_keys
    → (allow k second (run calls (allow k first t).0)).1 ≡ true
    → t.interval_us ≤ℤ sub64 second first
allow-run-allow k first second calls t fires others room again =
    let (max, interval) = settings-allow k first t in
    let t' = (allow k first t).0 in
    let (same, interval') = lookup-run k calls t' others (rw max room) in
    let found = same ∙ (allow_iff k first t).2 fires in
    elim (Bool-cases (ltb_ℤ (sub64 second first) t.interval_us)) [
      | inl early ↦
          let stop =
            (allow_iff k second (run calls t')).0.1
              (first, found, rw (interval', interval) (ground arith)) in
          cc
      | inr late ↦ ground arith
    ]
