-- ===== src/Handler/Window/Invariant.antt =====
-- The invariant of a window: map and list agree, and neither outgrows the cap.
use jetstream_router.Common.{
  ℕ, zero, suc, ◌<◌, ◌≡◌, ◌⊎◌, refl, ap, sym, ◌∙◌, subst, true, false, none, List, [], ◌∷◌, ◌++◌,
  append-nil, append_assoc, length, length-append, arith, Bool-cases, Option-cases, inl, inr,
}
use jetstream_router.Common.Int.{ℤ, pos, ◌≤ℤ◌, leb_ℤ}
use jetstream_router.Common.Str.{Str, lit}
use jetstream_router.Common.Maps.{lookup, delete}
use jetstream_router.Handler.Window.{
  Entry, Window, new_window, remove_element, back, evict_from, evict_if_full, touch, stamp, add,
}
use jetstream_router.Handler.Window.Elements.{
  has_key, Unique, IsLinked, IsLinked-push, IsLinked-remove, IsLinked-move, IsLinked-restamp,
  back_split, back-none, remove_element_back, has_key-concat,
}

pub record IsValid (w : Window) : Type 0 where
  pub linked : IsLinked w.entries w.lru
  pub bounded : pos (length w.lru) ≤ℤ w.max_keys
  pub positive : pos 1 ≤ℤ w.max_keys

-- `NewWindow` builds a valid window whatever cap it is given, and keeps a positive cap.
pub new_window-IsValid :
    (window_us max_keys : ℤ)
    → IsValid (new_window window_us max_keys)
      × (pos 1 ≤ℤ max_keys → (new_window window_us max_keys).max_keys ≡ max_keys)
unfolding new_window has_key lookup
new_window-IsValid window_us max_keys = (
  record {
    linked = record { agree = λ k. refl; distinct = tt; unique = tt; same_size = refl };
    bounded = ground arith;
    positive = ground arith;
  },
  λ h. ground arith,
)

-- What an eviction does: there is room for one more key, and the entries that are gone stood at
-- the back of the list.
pub record Evicts (w w' : Window) : Type 0 where
  pub linked : IsLinked w'.entries w'.lru
  pub room : pos (suc (length w'.lru)) ≤ℤ w.max_keys
  pub same_max : w'.max_keys ≡ w.max_keys
  pub same_window : w'.window_us ≡ w.window_us
  pub dropped : List Entry
  pub split : w.lru ≡ w'.lru ++ dropped
  pub needed : (dropped ≡ []) ⊎ (pos (suc (length w'.lru)) ≡ w.max_keys)

-- One round of the eviction, before the rounds that follow it.
Evicts-step :
    {w w' : Window} (front : List Entry) (e : Entry)
    → w.lru ≡ front ++ e ∷ []
    → w.max_keys ≤ℤ pos (length w.lru)
    → Evicts
        (record w {
          lru = remove_element e.key w.lru;
          entries = delete e.key w.entries;
          evicted = w.evicted ++ lit "size" ∷ [];
        })
        w'
    → remove_element e.key w.lru ≡ front
    → Evicts w w'
Evicts-step {w} {w'} front e split full r front_left = record {
  linked = r.linked;
  room = r.room;
  same_max = r.same_max;
  same_window = r.same_window;
  dropped = r.dropped ++ e ∷ [];
  split =
      split
      ∙ ap (λ x. x ++ e ∷ []) (sym front_left ∙ r.split)
      ∙ append_assoc w'.lru r.dropped (e ∷ []);
  needed = inr (elim r.needed [
    | inr exact ↦ exact
    | inl nothing ↦
        let kept : front ≡ w'.lru =
          sym front_left ∙ r.split ∙ ap (λ x. w'.lru ++ x) nothing ∙ append-nil w'.lru in
        ground (arith, ap length split, ap length kept, length-append front (e ∷ []), r.room)
  ]);
}

evict_from-Evicts :
    (fuel : ℕ) (w : Window)
    → length w.lru < fuel
    → IsLinked w.entries w.lru
    → pos 1 ≤ℤ w.max_keys
    → Evicts w (evict_from fuel w)
unfolding evict_from
evict_from-Evicts zero w h l p = elim h [ ]
evict_from-Evicts (suc fuel) w h l p =
    elim (Bool-cases (leb_ℤ w.max_keys (pos (length w.entries)))) [
      | inr room ↦
          rw (room, evict_from)
            (record {
              linked = l;
              room = ground (arith, l.same_size);
              same_max = refl;
              same_window = refl;
              dropped = [];
              split = sym (append-nil w.lru);
              needed = inl refl;
            })
      | inl full ↦ elim (Option-cases (back w.lru)) [
        | inl none_ ↦ absurd (ground (arith, ap length (back-none w.lru none_), l.same_size))
        | inr (e, last) ↦
            let (front, split) = back_split w.lru e last in
            let front_left : remove_element e.key w.lru ≡ front =
              rw split (remove_element_back front e (subst Unique split l.unique)) in
            let has : has_key e.key w.lru ≡ true = rw split (has_key-concat front e) in
            rw (full, evict_from, last)
              (Evicts-step front e split (ground (arith, l.same_size))
                (evict_from-Evicts fuel _
                  (omega
                    (arith, ap length split, ap length front_left, length-append front (e ∷ [])))
                  (IsLinked-remove e.key has l) p)
                front_left)
      ]
    ]

pub evict_if_full-Evicts : (w : Window) → IsValid w → Evicts w (evict_if_full w)
unfolding evict_if_full
evict_if_full-Evicts w v =
    evict_from-Evicts (suc (length w.lru)) w (omega arith) v.linked v.positive

pub has_key-append_left :
    (k : Str) (xs ys : List Entry) → has_key k (xs ++ ys) ≡ false → has_key k xs ≡ false
unfolding has_key
has_key-append_left k [] ys h = refl
has_key-append_left k (e ∷ xs) ys h = ground (arith, has_key-append_left k xs ys)

pub lookup-evict_if_full :
    (key : Str) (w : Window)
    → IsValid w
    → lookup key w.entries ≡ none
    → lookup key (evict_if_full w).entries ≡ none
lookup-evict_if_full key w v absent =
    let r = evict_if_full-Evicts w v in
    let gone : has_key key (evict_if_full w).lru ≡ false =
      has_key-append_left key _ r.dropped
        (subst (λ x. has_key key x ≡ false) r.split (ground (arith, v.linked.agree key))) in
    ground (arith, r.linked.agree key)

pub touch-IsValid : (key : Str) (w : Window) → IsValid w → IsValid (touch key w)
unfolding touch
touch-IsValid key w v = elim (Option-cases (lookup key w.entries)) [
  | inl absent ↦
      let r = evict_if_full-Evicts w v in
      rw (absent, touch)
        (record {
          linked = IsLinked-push key [] (lookup-evict_if_full key w v absent) r.linked;
          bounded = rw r.same_max r.room;
          positive = rw r.same_max v.positive;
        })
  | inr (el, found) ↦
      let same : el ≡ key = ground (arith, v.linked.agree key) in
      let has : has_key key w.lru ≡ true = ground (arith, v.linked.agree key) in
      let moved = IsLinked-move key has v.linked in
      rw (found, touch, same)
        (record {
          linked = moved;
          bounded = ground (arith, v.bounded, moved.same_size, v.linked.same_size);
          positive = v.positive;
        })
]

stamp-IsLinked :
    (window_us now_us : ℤ) (m : List _) (es : List Entry)
    → IsLinked m es
    → IsLinked m (stamp window_us now_us es).0 × (length (stamp window_us now_us es).0 ≡ length es)
unfolding stamp
stamp-IsLinked window_us now_us m [] l = (l, refl)
stamp-IsLinked window_us now_us m (e ∷ es) l = (IsLinked-restamp e _ l, refl)

-- Add keeps the invariant of a window: the map and the list agree, hold each key once, and never
-- hold more keys than the cap.
pub add-IsValid : (key : Str) (now_us : ℤ) (w : Window) → IsValid w → IsValid (add key now_us w).0
unfolding add
add-IsValid key now_us w v =
    let t = touch-IsValid key w v in
    let (linked, same) = stamp-IsLinked w.window_us now_us _ _ t.linked in
    record { linked = linked; bounded = ground (arith, t.bounded, same); positive = t.positive }
