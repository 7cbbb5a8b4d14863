-- ===== src/Handler/Dedup/Memory.antt =====
-- What `Seen` answers, and how long it remembers a key.
use jetstream_router.Common.{
  ℕ, suc, ◌+◌, ◌≡◌, ◌↔◌, refl, ap, sym, ◌∙◌, subst, true, false, some, List, [], ◌∷◌, ◌++◌, All,
  append-nil, take, length, arith, Bool-cases, Option-cases, inl, inr,
}
use jetstream_router.Common.Int.{ℤ, pos, ◌≤ℤ◌, leb_ℤ, sub64}
use jetstream_router.Common.Str.{Str, ◌==◌, eq_refl}
use jetstream_router.Common.Maps.{lookup, lookup-insert, lookup-delete}
use jetstream_router.Handler.Dedup.{Dedup, remove, evict_from, record_key, seen}
use jetstream_router.Handler.Dedup.Order.{
  has, has-take-remove_key, take-append, has-take, has-take-suc,
}
use jetstream_router.Handler.Dedup.Links.{IsLinked}
use jetstream_router.Handler.Dedup.Invariant.{
  IsValid, record_key-Evicts, remove_stale, seen-IsValid,
}

recorded :
    (key : Str) (now_us : ℤ) (d : Dedup) → lookup key (record_key key now_us d).seen ≡ some now_us
unfolding record_key
recorded key now_us d =
    let d' = evict_from (suc (length d.order)) d in
    ground (arith, lookup-insert key key now_us d'.seen, eq_refl key)

-- Seen reports a duplicate exactly when a time no more than the window ago is recorded for the
-- key, and changes nothing then; otherwise the time is what is recorded for the key afterwards.
pub seen_iff :
    (key : Str) (now_us : ℤ) (d : Dedup)
    → (((seen key now_us d).1 ≡ true)
        ↔ ((at : ℤ) × (lookup key d.seen ≡ some at) × (sub64 now_us at ≤ℤ d.window_us)))
      × ((seen key now_us d).1 ≡ true → (seen key now_us d).0 ≡ d)
      × ((seen key now_us d).1 ≡ false → lookup key (seen key now_us d).0.seen ≡ some now_us)
unfolding seen
seen_iff key now_us d = elim (Option-cases (lookup key d.seen)) [
  | inl absent ↦
      ((λ h. cc, λ (at, found, _). cc), λ h. cc, λ h. rw (absent, seen) (recorded key now_us d))
  | inr (at, found) ↦ elim (Bool-cases (leb_ℤ (sub64 now_us at) d.window_us)) [
    | inl early ↦ (
      (λ h. (at, found, ground arith), λ _. rw (found, seen, early) refl),
      λ _. rw (found, seen, early) refl,
      λ h. absurd (ground arith),
    )
    | inr late ↦ (
      (λ h. absurd (ground arith), λ (at', found', q). absurd (ground arith)),
      λ h. absurd (ground arith),
      λ _. rw (found, seen, late) (recorded key now_us (remove key d)),
    )
  ]
]

-- The key stands among the first `n` of the list, with the time.
record Recent (k : Str) (at : ℤ) (n : ℕ) (d : Dedup) : Type 0 where
  near : has k (take n d.order) ≡ true
  time : lookup k d.seen ≡ some at

-- To record another key moves this one back by one place at most.
record_key-Recent :
    (k key : Str) (at now_us : ℤ) (n : ℕ) (d : Dedup)
    → (key == k) ≡ false
    → IsLinked d
    → pos (suc n) ≤ℤ d.max_keys
    → pos 1 ≤ℤ d.max_keys
    → Recent k at n d
    → Recent k at (suc n) (record_key key now_us d)
unfolding record_key has take
record_key-Recent k key at now_us n d other l room p r =
    let e = record_key-Evicts key now_us d l p in
    let d' = evict_from (suc (length d.order)) d in
    let same : take n d.order ≡ take n d'.order = elim e.needed [
      | inl nothing ↦ ap (take n) (e.split ∙ ap (λ x. d'.order ++ x) nothing ∙ append-nil d'.order)
      | inr exact ↦ ap (take n) e.split ∙ take-append n d'.order e.dropped (ground (arith, exact))
    ] in
    let near : has k (take n d'.order) ≡ true = subst (λ x. has k x ≡ true) same r.near in
    record {
      near = ground (arith, near);
      time = ground (
        arith,
        lookup-insert key k now_us d'.seen,
        e.kept k (has-take n k d'.order near),
        r.time,
      );
    }

settings-record_key :
    (key : Str) (now_us : ℤ) (d : Dedup)
    → IsLinked d
    → pos 1 ≤ℤ d.max_keys
    → ((record_key key now_us d).max_keys ≡ d.max_keys)
      × ((record_key key now_us d).window_us ≡ d.window_us)
unfolding record_key
settings-record_key key now_us d l p =
    let e = record_key-Evicts key now_us d l p in (e.same_max, e.same_window)

pub settings-seen :
    (key : Str) (now_us : ℤ) (d : Dedup)
    → IsValid d
    → ((seen key now_us d).0.max_keys ≡ d.max_keys)
      × ((seen key now_us d).0.window_us ≡ d.window_us)
unfolding seen
settings-seen key now_us d v = elim (Option-cases (lookup key d.seen)) [
  | inl absent ↦ rw (absent, seen) (settings-record_key key now_us d v.linked v.positive)
  | inr (at, found) ↦ elim (Bool-cases (leb_ℤ (sub64 now_us at) d.window_us)) [
    | inl early ↦ rw (found, seen, early) (refl, refl)
    | inr late ↦
        let (linked, max, _, _, window, _) = remove_stale key d at v.linked found in
        let (max', window') =
          settings-record_key key now_us (remove key d) linked
            (subst (λ m. pos 1 ≤ℤ m) (sym max) v.positive) in
        rw (found, seen, late) (max' ∙ max, window' ∙ window)
  ]
]

seen-Recent :
    (k key : Str) (at now_us : ℤ) (n : ℕ) (d : Dedup)
    → (key == k) ≡ false
    → IsValid d
    → pos (suc n) ≤ℤ d.max_keys
    → Recent k at n d
    → Recent k at (suc n) (seen key now_us d).0
unfolding seen
seen-Recent k key at now_us n d other v room r = elim (Option-cases (lookup key d.seen)) [
  | inl absent ↦
      rw (absent, seen) (record_key-Recent k key at now_us n d other v.linked room v.positive r)
  | inr (at', found) ↦ elim (Bool-cases (leb_ℤ (sub64 now_us at') d.window_us)) [
    | inl early ↦
        rw (found, seen, early) (record { near = has-take-suc n k d.order r.near; time = r.time })
    | inr late ↦
        let (linked, max, order, _, _, deleted) = remove_stale key d at' v.linked found in
        rw (found, seen, late)
          (record_key-Recent k key at now_us n (remove key d) other linked
            (subst (λ m. pos (suc n) ≤ℤ m) (sym max) room)
            (subst (λ m. pos 1 ≤ℤ m) (sym max) v.positive)
            (record {
              near =
                  subst (λ x. has k (take n x) ≡ true) (sym order)
                    (has-take-remove_key n key k d.order other r.near);
              time = ap (lookup k) deleted ∙ ground (arith, lookup-delete key k d.seen, r.time);
            }))
  ]
]

-- Calls of `Seen`, in order.
unfoldable pub run : List (Str × ℤ) → Dedup → Dedup
run [] d = d
run ((key, now_us) ∷ calls) d = run calls (seen key now_us d).0

abbrev Others : Str → List (Str × ℤ) → Type 0
Others k calls = All (λ c. (c.0 == k) ≡ false) calls

run-Recent :
    (k : Str) (at : ℤ) (n : ℕ) (calls : List (Str × ℤ)) (d : Dedup)
    → Others k calls
    → IsValid d
    → pos (n + length calls) ≤ℤ d.max_keys
    → Recent k at n d
    → (lookup k (run calls d).seen ≡ some at) × ((run calls d).window_us ≡ d.window_us)
unfolding run
run-Recent k at n [] d others v room r = (r.time, refl)
run-Recent k at n ((key, now_us) ∷ calls) d (other, others) v room r =
    let (max, window) = settings-seen key now_us d v in
    let (time, window') =
      run-Recent k at (suc n) calls (seen key now_us d).0 others (seen-IsValid key now_us d v)
        (subst (λ m. pos (suc n + length calls) ≤ℤ m) (sym max) (ground arith))
        (seen-Recent k key at now_us n d other v (ground arith) r) in
    (time, window' ∙ window)

seen-front :
    (key : Str) (now_us : ℤ) (d : Dedup)
    → (seen key now_us d).1 ≡ false
    → has key (take 1 (seen key now_us d).0.order) ≡ true
unfolding seen record_key has take
seen-front key now_us d new = elim (Option-cases (lookup key d.seen)) [
  | inl absent ↦ rw (absent, seen) (ground (arith, eq_refl key))
  | inr (at, found) ↦ elim (Bool-cases (leb_ℤ (sub64 now_us at) d.window_us)) [
    | inl early ↦ absurd (ground arith)
    | inr late ↦ rw (found, seen, late) (ground (arith, eq_refl key))
  ]
]

-- On a valid state, a key that was recorded, followed by fewer calls for other keys than the cap,
-- is reported as a duplicate at any time within the window.
pub seen-run-seen :
    (k : Str) (first second : ℤ) (calls : List (Str × ℤ)) (d : Dedup)
    → IsValid d
    → (seen k first d).1 ≡ false
    → Others k calls
    → pos (suc (length calls)) ≤ℤ d.max_keys
    → sub64 second first ≤ℤ d.window_us
    → (seen k second (run calls (seen k first d).0)).1 ≡ true
seen-run-seen k first second calls d v new others room within =
    let d' = (seen k first d).0 in
    let (max, window) = settings-seen k first d v in
    let (time, window') =
      run-Recent k first 1 calls d' others (seen-IsValid k first d v)
        (subst (λ m. pos (1 + length calls) ≤ℤ m) (sym max) (ground arith))
        (record { near = seen-front k first d new; time = (seen_iff k first d).2 new }) in
    (seen_iff k second (run calls d')).0.1
      (first, time, subst (λ m. sub64 second first ≤ℤ m) (sym (window' ∙ window)) within)
