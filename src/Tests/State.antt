-- ===== src/Tests/State.antt =====
-- The state of a shard on concrete inputs.
use jetstream_router.Common.{
  suc, ◌≤◌, ◌≡◌, ◌⊎◌, refl, true, false, not, List, [], ◌∷◌, ◌++◌, filter, length, get_elem?, arith,
}
use jetstream_router.Common.Int.{ℤ, pos, ◌≤ℤ◌, sub64, wrap, ◌-ℤ◌}
use jetstream_router.Common.Str.{Str, lit, ◌==◌}
use jetstream_router.Common.Maps.{lookup, insert, delete}
use jetstream_router.Handler.Window.{
  Window, Entry, new_window, add, touch, evict_if_full, evict_from, trim, stamp, value,
  remove_element, back, sweep, sweep_keys, is_stale, last_stamp, len,
}
use jetstream_router.Handler.Window.Elements.{has_key}
use jetstream_router.Handler.Window.Invariant as WindowInvariant
use jetstream_router.Handler.Window.Counts.{stamps_of, IsTrimmed, add_lem}
use jetstream_router.Handler.Window.Sweep.{sweep_lem}
use jetstream_router.Handler.Window.History.{after, occurrences, add-occurrences}
use jetstream_router.Handler.Dedup.{Dedup, new_dedup, seen, record_key, remove}
use jetstream_router.Handler.Dedup as DedupModule
use jetstream_router.Handler.Dedup.Invariant as DedupInvariant
use jetstream_router.Handler.Dedup.Memory.{seen_iff, seen-run-seen}
use jetstream_router.Handler.Dedup.Memory as Memory
use jetstream_router.Handler.Throttle.{Throttle, new_throttle, blocked, make_room, allow}
use jetstream_router.Handler.Throttle.Laws.{allow_iff, allow-run-allow}
use jetstream_router.Handler.Throttle.Laws as ThrottleLaws
use jetstream_router.Handler.Shard.{
  new_shard, new_shard_set, replicate, index_for, fnv32a, set_at, tick, decide, observe_new,
  observe_shard, observe_at, observe,
}

unfoldable pub state : Unit {0}
unfolding new_window add touch evict_if_full evict_from trim stamp value remove_element back sweep
    sweep_keys is_stale last_stamp ◌==◌ lookup insert delete new_dedup seen record_key remove
    DedupModule.evict_from DedupModule.back DedupModule.remove_key new_throttle blocked make_room
    allow Memory.run ThrottleLaws.run new_shard_set new_shard replicate index_for fnv32a set_at tick
    decide observe_new observe_shard observe_at observe get_elem? sub64 wrap ◌-ℤ◌ filter
state = tt

abbrev a : Str
a = lit "a"

abbrev b : Str
b = lit "b"

abbrev one : Window
one = (add a (pos 10) (new_window (pos 100) (pos 1))).0

-- A second key evicts the first from a window of one, and a stamp leaves the window in time.
window_tests :
    ((add a (pos 50) one).1 ≡ 2)
    × ((add a (pos 111) one).1 ≡ 1)
    × ((add b (pos 20) one).0.evicted ≡ lit "size" ∷ [])
    × (len (sweep (a ∷ []) (pos 200) one) ≡ 0)
unfolding state
window_tests = (refl, refl, refl, refl)

one-IsValid : WindowInvariant.IsValid one
one-IsValid =
    WindowInvariant.add-IsValid a (pos 10) (new_window (pos 100) (pos 1))
      (WindowInvariant.new_window-IsValid (pos 100) (pos 1)).0

add_lem_example :
    (stamps : List ℤ) × (kept : List Entry) × (dropped : List Entry) × ((add a (pos 150) one).0.lru
      ≡ record { key = a; stamps = stamps } ∷ kept)
    × ((add a (pos 150) one).1 ≡ length stamps)
    × IsTrimmed (sub64 (pos 150) one.window_us) (stamps_of a one ++ pos 150 ∷ []) stamps
    × (remove_element a one.lru ≡ kept ++ dropped)
    × ((dropped ≡ [])
        ⊎ ((has_key a one.lru ≡ false)
            × (pos (suc (length kept)) ≡ one.max_keys)
            × (length dropped ≤ 1)))
add_lem_example = add_lem a (pos 150) one one-IsValid

add-occurrences_example :
    (add a (pos 50) (after ((b, 20) ∷ (a, 10) ∷ []) (new_window (pos 100) (pos 9)))).1
    ≡ occurrences a 50 100 ((a, 50) ∷ (b, 20) ∷ (a, 10) ∷ [])
add-occurrences_example =
    add-occurrences 100 (pos 9) ((b, 20) ∷ (a, 10) ∷ []) a 50 (omega arith) (omega arith)
      (omega arith, (omega arith, tt)) (omega arith)

sweep_lem_example :
    (sweep (a ∷ []) (pos 200) one).lru
    ≡ filter (λ e. not (is_stale (sub64 (pos 200) one.window_us) e)) one.lru
unfolding state has_key
sweep_lem_example =
    (sweep_lem (a ∷ []) (pos 200) one one-IsValid (λ h. h, tt)
      (λ k. (λ h. ground arith, λ h. ground arith))).1

abbrev d : Dedup
d = new_dedup (pos 100) (pos 2)

d-IsValid : DedupInvariant.IsValid d
d-IsValid = DedupInvariant.new_dedup-IsValid (pos 100) (pos 2)

dedup_tests :
    ((seen a (pos 50) (seen a (pos 10) d).0).1 ≡ true)
    × ((seen a (pos 111) (seen a (pos 10) d).0).1 ≡ false)
    × ((seen a (pos 11) (Memory.run ((b, pos 10) ∷ (lit "c", pos 10) ∷ []) (seen a (pos 10) d).0)).1
        ≡ false)
unfolding state
dedup_tests = (refl, refl, refl)

seen-run-seen_example :
    (seen a (pos 50) (Memory.run ((b, pos 20) ∷ []) (seen a (pos 10) d).0)).1 ≡ true
seen-run-seen_example =
    seen-run-seen a (pos 10) (pos 50) ((b, pos 20) ∷ []) d d-IsValid (unfold state in refl)
      (unfold state in refl, tt) (unfold state in omega arith) (unfold state in omega arith)

abbrev t : Throttle
t = new_throttle (pos 60) (pos 5)

t-IsValid : ThrottleLaws.IsValid t
t-IsValid = ThrottleLaws.new_throttle-IsValid (pos 60) (pos 5)

allow-run-allow_example : t.interval_us ≤ℤ sub64 (pos 90) (pos 10)
allow-run-allow_example =
    allow-run-allow a (pos 10) (pos 90) ((b, pos 20) ∷ []) t (unfold state in refl)
      (unfold state in refl, tt) (unfold state in omega arith) (unfold state in refl)
