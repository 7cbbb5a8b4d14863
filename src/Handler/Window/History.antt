-- ===== src/Handler/Window/History.antt =====
-- A window against the whole history of its events.
use jetstream_router.Common.{
  ℕ, suc, ◌+◌, ◌^◌, ◌≤◌, ◌<◌, ◌≡◌, refl, ap, sym, ◌∙◌, subst, Bool, ◌&&◌, List, [], ◌∷◌, ◌++◌, All,
  All-append, filter, length, if◌then◌else◌, leb, arith, Bool-cases, inl, inr,
}
use jetstream_router.Common.Int.{ℤ, pos, ◌≤ℤ◌, ◌-ℤ◌, sub64, -ℤ_parts}
use jetstream_router.Common.Str.{Str, ◌==◌, eq_iff, eq_refl}
use jetstream_router.Handler.Window.{Window, new_window, value, trim, add}
use jetstream_router.Handler.Window.Invariant.{IsValid, new_window-IsValid, add-IsValid}
use jetstream_router.Handler.Window.Counts.{
  stamps_of, add-trim, add_settings, IsAscending, in_window, trim-filter,
}
use jetstream_router.Handler.Window.Trimming.{trim-append, trim-trim, cutoff_lem, stamps_of-add}

-- The events of a history, the latest first: a key and the microsecond at which it occurred.
abbrev pub History : Type 0
History = List (Str × ℕ)

-- The window after the events.
pub after : History → Window → Window
after [] w = w
after ((k, t) ∷ h) w = (add k (pos t) (after h w)).0

abbrev pub IsOrdered : History → Type 0
IsOrdered [] = Unit
IsOrdered (e ∷ []) = Unit
IsOrdered (e ∷ e' ∷ h) = (e'.1 ≤ e.1) × IsOrdered (e' ∷ h)

-- The number of events of the key that are at most `win` older than `now`.
pub occurrences : Str → ℕ → ℕ → History → ℕ
occurrences k now win [] = 0
occurrences k now win ((j, t) ∷ h) =
    let rest = occurrences k now win h in if j == k && leb now (t + win) then suc rest else rest

-- The times of the key's events, the earliest first.
times : Str → History → List ℤ
times k [] = []
times k ((j, t) ∷ h) = let rest = times k h in if j == k then rest ++ pos t ∷ [] else rest

record Tracks (win : ℕ) (max_keys : ℤ) (h : History) (w : Window) : Type 0 where
  valid : IsValid w
  same_window : w.window_us ≡ pos win
  same_max : w.max_keys ≡ max_keys
  size : length w.lru ≤ length h
  same :
      (k : Str) (now : ℕ)
      → IsOrdered ((k, now) ∷ h)
      → now < 2 ^ 63
      → trim (pos now -ℤ pos win) (stamps_of k w) ≡ trim (pos now -ℤ pos win) (times k h)

IsOrdered-skip : (e e' : Str × ℕ) (h : History) → IsOrdered (e ∷ e' ∷ h) → IsOrdered (e ∷ h)
IsOrdered-skip e e' [] o = tt
IsOrdered-skip e e' (e'' ∷ h) o = (omega arith, o.1.1)

IsOrdered-tail : (e : Str × ℕ) (h : History) → IsOrdered (e ∷ h) → IsOrdered h
IsOrdered-tail e [] o = tt
IsOrdered-tail e (e' ∷ h) o = o.1

cutoff_mono :
    (t now win : ℕ)
    → t ≤ now
    → t < 2 ^ 63
    → win < 2 ^ 63
    → sub64 (pos t) (pos win) ≤ℤ pos now -ℤ pos win
cutoff_mono t now win le h k =
    rw (cutoff_lem t win h k)
      (omega (arith, -ℤ_parts (pos t) (pos win), -ℤ_parts (pos now) (pos win)))

Tracks-add :
    (win : ℕ) (max_keys : ℤ) (h : History) (w : Window) (k : Str) (t : ℕ)
    → win < 2 ^ 63
    → t < 2 ^ 63
    → IsOrdered ((k, t) ∷ h)
    → pos (suc (length h)) ≤ℤ max_keys
    → Tracks win max_keys h w
    → Tracks win max_keys ((k, t) ∷ h) (add k (pos t) w).0
unfolding times
Tracks-add win max_keys h w k t small early ordered fits tracks =
    let room : pos (suc (length w.lru)) ≤ℤ w.max_keys =
      rw tracks.same_max (ground (arith, tracks.size)) in
    record {
      valid = add-IsValid k (pos t) w tracks.valid;
      same_window = (add_settings k (pos t) w tracks.valid).0 ∙ tracks.same_window;
      same_max = (add_settings k (pos t) w tracks.valid).1 ∙ tracks.same_max;
      size = omega (arith, (stamps_of-add k k (pos t) w tracks.valid room).0, tracks.size);
      same = λ j now o late.
          ap (trim (pos now -ℤ pos win)) (stamps_of-add k j (pos t) w tracks.valid room).1
          ∙ (elim (Bool-cases (k == j)) [
            | inr other ↦
                rw (other, times) (tracks.same j now (IsOrdered-skip (j, now) (k, t) h o) late)
            | inl same_key ↦
                rw (same_key, times, tracks.same_window)
                  (trim-trim _ _ _ (cutoff_mono t now win o.0 early small)
                    ∙ trim-append _ _ (times j h) (pos t ∷ []) (
                        subst
                          (λ x.
                            trim (pos now -ℤ pos win) (stamps_of x w)
                            ≡ trim (pos now -ℤ pos win) (times j h))
                          (sym ((eq_iff k j).0 same_key))
                          (tracks.same j now (IsOrdered-skip (j, now) (k, t) h o) late)))
          ]);
    }

after-Tracks :
    (win : ℕ) (max_keys : ℤ) (h : History)
    → win < 2 ^ 63
    → (now : ℕ) → now < 2 ^ 63
    → (k : Str) → IsOrdered ((k, now) ∷ h)
    → pos (suc (length h)) ≤ℤ max_keys
    → Tracks win max_keys h (after h (new_window (pos win) max_keys))
unfolding after
after-Tracks win max_keys [] small now late key ordered fits =
    let (valid, same_max) = new_window-IsValid (pos win) max_keys in
    record {
      valid = valid;
      same_window = unfold new_window in refl;
      same_max = same_max fits;
      size = unfold new_window in omega arith;
      same = λ k t o l. unfold new_window value times in refl;
    }
after-Tracks win max_keys ((k, t) ∷ h) small now late key ordered fits =
    Tracks-add win max_keys h _ k t small (omega arith) ordered.1 (omega arith)
      (after-Tracks win max_keys h small t (omega arith) k ordered.1 (omega arith))

AllUpTo : ℕ → List ℤ → Type 0
AllUpTo t = All (λ x. x ≤ℤ pos t)

IsAscending-concat :
    (ts : List ℤ) (t : ℕ) → IsAscending ts → AllUpTo t ts → IsAscending (ts ++ pos t ∷ [])
unfolding AllUpTo
IsAscending-concat [] t a h = tt
IsAscending-concat (x ∷ []) t a h = (h.0, tt)
IsAscending-concat (x ∷ y ∷ ts) t a h = (a.0, IsAscending-concat (y ∷ ts) t a.1 h.1)

times-AllUpTo : (k j : Str) (t : ℕ) (h : History) → IsOrdered ((j, t) ∷ h) → AllUpTo t (times k h)
unfolding AllUpTo times
times-AllUpTo k j t [] o = tt
times-AllUpTo k j t ((i, u) ∷ h) o =
    let earlier = times-AllUpTo k j t h (IsOrdered-skip (j, t) (i, u) h o) in
    elim (Bool-cases (i == k)) [
      | inl same ↦
          rw (same, times)
            (All-append (λ x. x ≤ℤ pos t) (times k h) (pos u ∷ []) earlier (omega arith))
      | inr other ↦ rw (other, times) earlier
    ]

times-IsAscending : (k : Str) (h : History) → IsOrdered h → IsAscending (times k h)
unfolding times
times-IsAscending k [] o = tt
times-IsAscending k ((j, t) ∷ h) o =
    let earlier = times-IsAscending k h (IsOrdered-tail (j, t) h o) in
    elim (Bool-cases (j == k)) [
      | inl same ↦
          rw (same, times) (IsAscending-concat (times k h) t earlier (times-AllUpTo k j t h o))
      | inr other ↦ rw (other, times) earlier
    ]

in_window_lem : (t now win : ℕ) → in_window (pos now -ℤ pos win) (pos t) ≡ leb now (t + win)
unfolding ◌-ℤ◌
in_window_lem t now win = ground arith

length-filter-concat :
    (p : ℤ → Bool) (ts : List ℤ) (t : ℤ)
    → length (filter p (ts ++ t ∷ [])) ≡ length (filter p ts) + (if p t then 1 else 0)
unfolding filter
length-filter-concat p [] t = ground arith
length-filter-concat p (x ∷ ts) t = ground (arith, length-filter-concat p ts t)

length-filter-times :
    (k : Str) (now win : ℕ) (h : History)
    → length (filter (in_window (pos now -ℤ pos win)) (times k h)) ≡ occurrences k now win h
unfolding occurrences times
length-filter-times k now win [] = unfold filter in refl
length-filter-times k now win ((j, t) ∷ h) = elim (Bool-cases (j == k)) [
  | inl same ↦
      rw (same, times, occurrences)
        (length-filter-concat _ (times k h) (pos t)
          ∙ rw (in_window_lem, length-filter-times k now win h) (ground arith))
  | inr other ↦ rw (other, times, occurrences) (length-filter-times k now win h)
]

times-cons : (k : Str) (t : ℕ) (h : History) → times k ((k, t) ∷ h) ≡ times k h ++ pos t ∷ []
unfolding times
times-cons k t h = rw (eq_refl k)

-- Over a history of events in ascending order of their times, within the 64 bits and with a cap
-- that leaves room for all, Add returns the number of events of the key, this one included, that
-- lie at most one window before it.
pub add-occurrences :
    (win : ℕ) (max_keys : ℤ) (h : History) (k : Str) (now : ℕ)
    → win < 2 ^ 63
    → now < 2 ^ 63
    → IsOrdered ((k, now) ∷ h)
    → pos (suc (length h)) ≤ℤ max_keys
    → (add k (pos now) (after h (new_window (pos win) max_keys))).1
      ≡ occurrences k now win ((k, now) ∷ h)
add-occurrences win max_keys h k now small late ordered fits =
    let w = after h (new_window (pos win) max_keys) in
    let tracks = after-Tracks win max_keys h small now late k ordered fits in
    let c = pos now -ℤ pos win in
    let cut : sub64 (pos now) w.window_us ≡ c =
      ap (sub64 (pos now)) tracks.same_window ∙ cutoff_lem now win late small in
    let (_, _, _, count, _, _) = add-trim k (pos now) w tracks.valid in
    count
    ∙ ap (λ d. length (trim d (stamps_of k w ++ pos now ∷ []))) cut
    ∙ ap length (
        trim-append c _ (times k h) (pos now ∷ []) (tracks.same k now ordered late)
        ∙ ap (trim c) (sym (times-cons k now h))
        ∙ trim-filter c _ (times-IsAscending k ((k, now) ∷ h) ordered))
    ∙ length-filter-times k now win ((k, now) ∷ h)
