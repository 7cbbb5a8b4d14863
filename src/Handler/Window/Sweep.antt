-- ===== src/Handler/Window/Sweep.antt =====
-- `Sweep` drops the keys with nothing left in the window, whatever the order of the map.
use jetstream_router.Common.{
  ◌+◌, ◌≡◌, ◌↔◌, refl, ap, sym, ◌∙◌, subst, Bool, true, false, not, ◌&&◌, ◌||◌, List, [], ◌∷◌, ◌++◌,
  Has, IsOnce, filter, length, length-append, if◌then◌else◌, arith, Bool-cases, inl, inr,
}
use jetstream_router.Common.Int.{ℤ, sub64}
use jetstream_router.Common.Str.{Str, lit, ◌==◌, eq_iff, eq_refl}
use jetstream_router.Common.Maps.{delete}
use jetstream_router.Handler.Window.{
  Entry, Window, remove_element, value, is_stale, sweep_keys, sweep, len,
}
use jetstream_router.Handler.Window.Elements.{
  has_key, Unique, IsLinked-remove, has_key-remove_element, length-remove_element,
}
use jetstream_router.Handler.Window.Invariant.{IsValid}

contains : List Str → Str → Bool
contains [] k = false
contains (j ∷ js) k = j == k || contains js k

Has-contains : (k : Str) (js : List Str) → Has k js → contains js k ≡ true
unfolding contains
Has-contains k [] h = absurd h
Has-contains k (j ∷ js) (inl e) = ground (arith, eq_iff j k)
Has-contains k (j ∷ js) (inr h) = ground (arith, Has-contains k js h)

-- The entry is live, or not one of the keys that are visited.
abbrev survives : ℤ → List Str → Entry → Bool
survives cutoff keys e = not (contains keys e.key && is_stale cutoff e)

filter_absent :
    (cutoff : ℤ) (k : Str) (es : List Entry)
    → has_key k es ≡ false
    → filter (survives cutoff (k ∷ [])) es ≡ es
unfolding filter contains has_key
filter_absent cutoff k [] h = refl
filter_absent cutoff k (e ∷ es) h =
    ground (arith, filter_absent cutoff k es, eq_iff e.key k, eq_iff k e.key)

-- One round of the loop.
round-filter :
    (cutoff : ℤ) (k : Str) (es : List Entry)
    → Unique es
    → has_key k es ≡ true
    → (if is_stale cutoff (value k es) then remove_element k es else es)
      ≡ filter (survives cutoff (k ∷ [])) es
unfolding filter contains has_key value remove_element
round-filter cutoff k [] u h = cc
round-filter cutoff k (e ∷ es) u h =
    ground (
      arith,
      round-filter cutoff k es u.1,
      filter_absent cutoff k es,
      eq_iff e.key k,
      eq_iff k e.key,
    )

filter-filter :
    (cutoff : ℤ) (k : Str) (keys : List Str) (es : List Entry)
    → filter (survives cutoff keys) (filter (survives cutoff (k ∷ [])) es)
      ≡ filter (survives cutoff (k ∷ keys)) es
unfolding filter contains
filter-filter cutoff k keys [] = refl
filter-filter cutoff k keys (e ∷ es) = ground (arith, filter-filter cutoff k keys es)

filter_all :
    (cutoff : ℤ) (keys : List Str) (es : List Entry)
    → ((k : Str) → has_key k es ≡ true → contains keys k ≡ true)
    → filter (survives cutoff keys) es ≡ filter (λ e. not (is_stale cutoff e)) es
unfolding filter has_key
filter_all cutoff keys [] h = refl
filter_all cutoff keys (e ∷ es) h =
    ground (arith, filter_all cutoff keys es (λ k p. h k (ground arith)), h e.key, eq_refl e.key)

-- Each visited key is visited once, and is a key of the list.
abbrev Visits : List Str → List Entry → Type 0
Visits order es = IsOnce order × ((k : Str) → Has k order → has_key k es ≡ true)

Visits-remove :
    (k : Str) (keys : List Str) (es : List Entry)
    → Unique es
    → Visits (k ∷ keys) es
    → Visits keys (remove_element k es)
Visits-remove k keys es u ((fresh, once), present) = (
  once,
  λ j h. elim (Bool-cases (k == j)) [
    | inl same ↦ absurd (fresh (subst (λ x. Has x keys) (sym ((eq_iff k j).0 same)) h))
    | inr other ↦ ground (arith, has_key-remove_element k j es u, present j (inr h))
  ],
)

-- What the loop leaves of a window.
abbrev Swept : ℤ → List Str → Window → Window → Type 0
Swept cutoff keys w w' =
    IsValid w'
    × (w'.lru ≡ filter (survives cutoff keys) w.lru)
    × (length w'.evicted + length w'.lru ≡ length w.evicted + length w.lru)

filter_nothing : (cutoff : ℤ) (es : List Entry) → es ≡ filter (survives cutoff []) es
unfolding filter contains
filter_nothing cutoff [] = refl
filter_nothing cutoff (e ∷ es) = ap (◌∷◌ e) (filter_nothing cutoff es)

Swept-cons :
    (cutoff : ℤ) (k : Str) (keys : List Str) (w u w' : Window)
    → u.lru ≡ filter (survives cutoff (k ∷ [])) w.lru
    → length u.evicted + length u.lru ≡ length w.evicted + length w.lru
    → Swept cutoff keys u w'
    → Swept cutoff (k ∷ keys) w w'
Swept-cons cutoff k keys w u w' kept same (valid, rest, total) = (
  valid,
  rest ∙ ap (filter (survives cutoff keys)) kept ∙ filter-filter cutoff k keys w.lru,
  total ∙ same,
)

-- One round of the loop on a stale entry.
abbrev dropped : Str → Window → Window
dropped k w = record w {
  lru = remove_element k w.lru;
  entries = delete k w.entries;
  evicted = w.evicted ++ lit "ttl" ∷ [];
}

dropped-IsValid :
    (k : Str) (w : Window) → has_key k w.lru ≡ true → IsValid w → IsValid (dropped k w)
dropped-IsValid k w has v = record {
  linked = IsLinked-remove k has v.linked;
  bounded = ground (arith, length-remove_element k w.lru has, v.bounded);
  positive = v.positive;
}

sweep_keys-Swept :
    (cutoff : ℤ) (keys : List Str) (w : Window)
    → IsValid w
    → Visits keys w.lru
    → Swept cutoff keys w (sweep_keys cutoff keys w)
unfolding sweep_keys
sweep_keys-Swept cutoff [] w v h = (v, filter_nothing cutoff w.lru, refl)
sweep_keys-Swept cutoff (k ∷ keys) w v h =
    let has = h.1 k (inl refl) in
    let kept = round-filter cutoff k w.lru v.linked.unique has in
    elim (Bool-cases (is_stale cutoff (value k w.lru))) [
      | inl stale ↦
          rw (stale, sweep_keys)
            (Swept-cons cutoff k keys w (dropped k w) _ (rw stale at kept)
              (omega (
                arith,
                length-append w.evicted (lit "ttl" ∷ []),
                length-remove_element k w.lru has,
              ))
              (sweep_keys-Swept cutoff keys (dropped k w) (dropped-IsValid k w has v)
                (Visits-remove k keys w.lru v.linked.unique h)))
      | inr live ↦
          rw (live, sweep_keys)
            (Swept-cons cutoff k keys w w _ (rw live at kept) refl
              (sweep_keys-Swept cutoff keys w v (h.0.1, λ j p. h.1 j (inr p))))
    ]

-- On a valid window and for every order in which the keys of the map can be visited, each once
-- and none left out, Sweep keeps the invariant, leaves exactly the entries whose last stamp is in
-- the window, in their order, and reports one eviction for each entry that is gone.
pub sweep_lem :
    (order : List Str) (now_us : ℤ) (w : Window)
    → IsValid w
    → IsOnce order
    → ((k : Str) → Has k order ↔ (has_key k w.lru ≡ true))
    → IsValid (sweep order now_us w)
      × ((sweep order now_us w).lru
          ≡ filter (λ e. not (is_stale (sub64 now_us w.window_us) e)) w.lru)
      × (length (sweep order now_us w).evicted + len (sweep order now_us w)
          ≡ length w.evicted + len w)
unfolding sweep
sweep_lem order now_us w v once visits =
    let cutoff = sub64 now_us w.window_us in
    let (valid, kept, total) = sweep_keys-Swept cutoff order w v (once, λ k h. (visits k).0 h) in
    (
      valid,
      kept ∙ filter_all cutoff order w.lru (λ k h. Has-contains k order ((visits k).1 h)),
      omega (arith, valid.linked.same_size, v.linked.same_size, total),
    )
