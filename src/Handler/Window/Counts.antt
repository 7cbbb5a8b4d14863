-- ===== src/Handler/Window/Counts.antt =====
-- What one `Add` does to the entries.
use jetstream_router.Common.{
  suc, ◌≤◌, ◌≡◌, ◌⊎◌, refl, ap, sym, ◌∙◌, Bool, false, not, List, [], ◌∷◌, ◌++◌, append-nil, filter,
  length, length-append, arith, Option-cases, Bool-cases, All, inl, inr,
}
use jetstream_router.Common.Int.{ℤ, pos, ◌≤ℤ◌, ◌<ℤ◌, ltb_ℤ, sub64}
use jetstream_router.Common.Str.{Str}
use jetstream_router.Common.Maps.{lookup}
use jetstream_router.Handler.Window.{
  Entry, Window, remove_element, value, evict_if_full, touch, trim, stamp, add,
}
use jetstream_router.Handler.Window.Elements.{has_key, key-value}
use jetstream_router.Handler.Window.Invariant.{IsValid, evict_if_full-Evicts}

-- The stamps kept for a key; none, if the key has no entry.
abbrev pub stamps_of : Str → Window → List ℤ
stamps_of k w = (value k w.lru).stamps

pub value_absent : (k : Str) (es : List Entry) → has_key k es ≡ false → (value k es).stamps ≡ []
unfolding has_key value
value_absent k [] h = refl
value_absent k (e ∷ es) h = ground (arith, value_absent k es)

pub remove_element_absent :
    (k : Str) (es : List Entry) → has_key k es ≡ false → remove_element k es ≡ es
unfolding has_key remove_element
remove_element_absent k [] h = refl
remove_element_absent k (e ∷ es) h = ground (arith, remove_element_absent k es)

-- The list after `touch`: the key's entry in front, and the others as they were, less those that
-- were evicted from the back to make room for a new key.
pub record Touches (key : Str) (w w' : Window) : Type 0 where
  pub kept : List Entry
  pub dropped : List Entry
  pub front : w'.lru ≡ record { key = key; stamps = stamps_of key w } ∷ kept
  pub split : remove_element key w.lru ≡ kept ++ dropped
  pub needed :
      (dropped ≡ [])
      ⊎ ((has_key key w.lru ≡ false)
          × (pos (suc (length kept)) ≡ w.max_keys)
          × (length dropped ≤ 1))
  pub same_window : w'.window_us ≡ w.window_us
  pub same_max : w'.max_keys ≡ w.max_keys

pub touch-Touches : (key : Str) (w : Window) → IsValid w → Touches key w (touch key w)
unfolding touch
touch-Touches key w v = elim (Option-cases (lookup key w.entries)) [
  | inl absent ↦
      let r = evict_if_full-Evicts w v in
      let gone : has_key key w.lru ≡ false = ground (arith, v.linked.agree key) in
      rw (absent, touch)
        (record {
          kept = (evict_if_full w).lru;
          dropped = r.dropped;
          front =
              ap (λ (s : List ℤ). record { key = key; stamps = s } ∷ (evict_if_full w).lru)
                (sym (value_absent key w.lru gone));
          split = remove_element_absent key w.lru gone ∙ r.split;
          needed = elim r.needed [
            | inl nothing ↦ inl nothing
            | inr exact ↦ inr (
              gone,
              exact,
              ground (
                arith,
                ap length r.split,
                length-append (evict_if_full w).lru r.dropped,
                v.bounded,
                exact,
              ),
            )
          ];
          same_window = r.same_window;
          same_max = r.same_max;
        })
  | inr (el, found) ↦
      let same : el ≡ key = ground (arith, v.linked.agree key) in
      rw (found, touch, same)
        (record {
          kept = remove_element key w.lru;
          dropped = [];
          front =
              ap
                (λ (k : Str).
                  record { key = k; stamps = stamps_of key w } ∷ remove_element key w.lru)
                (key-value key w.lru);
          split = sym (append-nil _);
          needed = inl refl;
          same_window = refl;
          same_max = refl;
        })
]

-- The list after `Add`, by the code's own trim.
pub add-trim :
    (key : Str) (now_us : ℤ) (w : Window)
    → IsValid w
    → (kept : List Entry) × (dropped : List Entry) × ((add key now_us w).0.lru
        ≡ record {
          key = key;
          stamps = trim (sub64 now_us w.window_us) (stamps_of key w ++ now_us ∷ []);
        }
          ∷ kept)
      × ((add key now_us w).1
          ≡ length (trim (sub64 now_us w.window_us) (stamps_of key w ++ now_us ∷ [])))
      × (remove_element key w.lru ≡ kept ++ dropped)
      × ((dropped ≡ [])
          ⊎ ((has_key key w.lru ≡ false)
              × (pos (suc (length kept)) ≡ w.max_keys)
              × (length dropped ≤ 1)))
unfolding add stamp
add-trim key now_us w v =
    let t = touch-Touches key w v in (t.kept, t.dropped, rw t.front, rw t.front, t.split, t.needed)

-- The first of the stamps, if there is one, is not before the cutoff.
abbrev pub Starts : ℤ → List ℤ → Type 0
Starts cutoff [] = Unit
Starts cutoff (t ∷ ts) = cutoff ≤ℤ t

-- What is left of the stamps without those in front that are before the cutoff.
abbrev pub IsTrimmed : ℤ → List ℤ → List ℤ → Type 0
IsTrimmed cutoff before after =
    (out : List ℤ) × (before ≡ out ++ after) × All (λ t. t <ℤ cutoff) out × Starts cutoff after

trim-IsTrimmed : (cutoff : ℤ) (ts : List ℤ) → IsTrimmed cutoff ts (trim cutoff ts)
unfolding trim
trim-IsTrimmed cutoff [] = ([], refl, tt, tt)
trim-IsTrimmed cutoff (t ∷ ts) = elim (Bool-cases (ltb_ℤ t cutoff)) [
  | inl old ↦
      let (out, split, all, start) = trim-IsTrimmed cutoff ts in
      rw (old, trim) (t ∷ out, ap (λ x. t ∷ x) split, (ground arith, all), start)
  | inr fresh ↦ rw (fresh, trim) ([], refl, tt, ground arith)
]

-- On a valid window Add moves the entry of the key to the front with the new stamp appended and
-- the stamps in front that are out of the window trimmed, and returns the number left; the other
-- entries keep their stamps and order, and one is lost only if the key is new and the window
-- full, the least recently touched.
pub add_lem :
    (key : Str) (now_us : ℤ) (w : Window)
    → IsValid w
    → (stamps : List ℤ) × (kept : List Entry) × (dropped : List Entry) × ((add key now_us w).0.lru
        ≡ record { key = key; stamps = stamps } ∷ kept)
      × ((add key now_us w).1 ≡ length stamps)
      × IsTrimmed (sub64 now_us w.window_us) (stamps_of key w ++ now_us ∷ []) stamps
      × (remove_element key w.lru ≡ kept ++ dropped)
      × ((dropped ≡ [])
          ⊎ ((has_key key w.lru ≡ false)
              × (pos (suc (length kept)) ≡ w.max_keys)
              × (length dropped ≤ 1)))
add_lem key now_us w v =
    let (kept, dropped, front, count, split, needed) = add-trim key now_us w v in
    (_, kept, dropped, front, count, trim-IsTrimmed _ _, split, needed)

pub add_settings :
    (key : Str) (now_us : ℤ) (w : Window)
    → IsValid w
    → ((add key now_us w).0.window_us ≡ w.window_us) × ((add key now_us w).0.max_keys ≡ w.max_keys)
unfolding add
add_settings key now_us w v = let t = touch-Touches key w v in (t.same_window, t.same_max)

-- Stamps in ascending order.
abbrev pub IsAscending : List ℤ → Type 0
IsAscending [] = Unit
IsAscending (t ∷ []) = Unit
IsAscending (t ∷ t' ∷ ts) = (t ≤ℤ t') × IsAscending (t' ∷ ts)

abbrev pub in_window : ℤ → ℤ → Bool
in_window cutoff t = not (ltb_ℤ t cutoff)

filter_ascending :
    (cutoff t : ℤ) (ts : List ℤ)
    → IsAscending (t ∷ ts)
    → ltb_ℤ t cutoff ≡ false
    → filter (in_window cutoff) (t ∷ ts) ≡ t ∷ ts
unfolding filter
filter_ascending cutoff t [] a h = ground arith
filter_ascending cutoff t (t' ∷ ts) a h = ground (arith, filter_ascending cutoff t' ts a.1)

-- On ascending stamps the trim from the front keeps exactly those in the window.
pub trim-filter :
    (cutoff : ℤ) (ts : List ℤ) → IsAscending ts → trim cutoff ts ≡ filter (in_window cutoff) ts
unfolding trim filter
trim-filter cutoff [] a = refl
trim-filter cutoff (t ∷ []) a = ground arith
trim-filter cutoff (t ∷ t' ∷ ts) a =
    ground (arith, trim-filter cutoff (t' ∷ ts) a.1, filter_ascending cutoff t (t' ∷ ts) a)
