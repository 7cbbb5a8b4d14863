-- ===== src/Handler/Window.antt =====
-- internal/handler/state.go, `Window`. A list element is named by the key of its entry, which
-- never changes: the map holds the keys that have an element, and the list holds the entries,
-- the most recently touched first. `evicted` records the calls of `onEvict`.
pub mod Elements
pub mod Invariant
pub mod Sweep
pub mod Counts
pub mod Trimming
pub mod History
use jetstream_router.Common.{
  ℕ, zero, suc, Bool, true, Option, none, some, List, [], ◌∷◌, ◌++◌, length, if◌then◌else◌,
}
use jetstream_router.Common.Int.{ℤ, pos, leb_ℤ, ltb_ℤ, sub64}
use jetstream_router.Common.Str.{Str, lit, ◌==◌}
use jetstream_router.Common.Maps.{lookup, insert, delete}

pub record Entry : Type 0 where
  pub key : Str
  pub stamps : List ℤ

-- `*list.Element`
abbrev pub Element : Type 0
Element = Str

pub record Window : Type 0 where
  pub window_us : ℤ
  pub max_keys : ℤ
  pub entries : List (Str × Element)
  pub lru : List Entry
  pub evicted : List Str

-- `NewWindow`
unfoldable pub new_window : ℤ → ℤ → Window
new_window window_us max_keys = record {
  window_us = window_us;
  max_keys = if leb_ℤ max_keys (pos 0) then pos 10000 else max_keys;
  entries = [];
  lru = [];
  evicted = [];
}

-- `list.Remove`
unfoldable pub remove_element : Element → List Entry → List Entry
remove_element el [] = []
remove_element el (e ∷ es) = if e.key == el then es else e ∷ remove_element el es

-- The value of an element of the list; of an element that is not in it, an entry of its own.
unfoldable pub value : Element → List Entry → Entry
value el [] = record { key = el; stamps = [] }
value el (e ∷ es) = if e.key == el then e else value el es

-- `list.MoveToFront`
abbrev pub move_to_front : Element → List Entry → List Entry
move_to_front el es = value el es ∷ remove_element el es

-- `list.Back`
unfoldable pub back : List Entry → Option Entry
back [] = none
back (e ∷ []) = some e
back (e ∷ e' ∷ es) = back (e' ∷ es)

-- The loop of `evictIfFull`; each round removes an element, so the list bounds the rounds.
unfoldable pub evict_from : ℕ → Window → Window
evict_from zero w = w
evict_from (suc fuel) w =
    if leb_ℤ w.max_keys (pos (length w.entries))
    then (elim (back w.lru) [
      | none ↦ w
      | some e ↦ evict_from fuel (record w {
        lru = remove_element e.key w.lru;
        entries = delete e.key w.entries;
        evicted = w.evicted ++ lit "size" ∷ [];
      })
    ])
    else w

unfoldable pub evict_if_full : Window → Window
unfolding evict_from
evict_if_full w = evict_from (suc (length w.lru)) w

-- The element of the key, at the front of the list: a new one, or the one that is there.
unfoldable pub touch : Str → Window → Window
touch key w = elim (lookup key w.entries) [
  | none ↦
      let w' = evict_if_full w in
      record w' {
        lru = record { key = key; stamps = [] } ∷ w'.lru;
        entries = insert key key w'.entries;
      }
  | some el ↦ record w { lru = move_to_front el w.lru }
]

-- The loop that drops what has fallen out of the window.
unfoldable pub trim : ℤ → List ℤ → List ℤ
trim cutoff [] = []
trim cutoff (t ∷ ts) = if ltb_ℤ t cutoff then trim cutoff ts else t ∷ ts

-- `touch` has left the element of the key in front. A stamp is appended to its entry, which is trimmed; the result is the number left.
unfoldable pub stamp : ℤ → ℤ → List Entry → List Entry × ℕ
stamp window_us now_us [] = ([], 0)
stamp window_us now_us (e ∷ es) =
    let stamps = trim (sub64 now_us window_us) (e.stamps ++ now_us ∷ []) in
    (record e { stamps = stamps } ∷ es, length stamps)

-- `Add`
unfoldable pub add : Str → ℤ → Window → Window × ℕ
add key now_us w =
    let w' = touch key w in
    let (lru, count) = stamp w.window_us now_us w'.lru in (record w' { lru = lru }, count)

-- `e.stamps[len(e.stamps)-1]`, where it exists.
unfoldable pub last_stamp : List ℤ → Option ℤ
last_stamp [] = none
last_stamp (t ∷ []) = some t
last_stamp (t ∷ t' ∷ ts) = last_stamp (t' ∷ ts)

unfoldable pub is_stale : ℤ → Entry → Bool
is_stale cutoff e = elim (last_stamp e.stamps) [ none ↦ true | some t ↦ ltb_ℤ t cutoff ]

-- The loop of `Sweep` over the map's keys, in whatever order Go visits them.
unfoldable pub sweep_keys : ℤ → List Str → Window → Window
sweep_keys cutoff [] w = w
sweep_keys cutoff (key ∷ keys) w = sweep_keys cutoff keys (
    if is_stale cutoff (value key w.lru)
    then record w {
      lru = remove_element key w.lru;
      entries = delete key w.entries;
      evicted = w.evicted ++ lit "ttl" ∷ [];
    }
    else w)

-- `Sweep`; `order` is the order in which `range` visits the keys.
unfoldable pub sweep : List Str → ℤ → Window → Window
sweep order now_us w = sweep_keys (sub64 now_us w.window_us) order w

-- `Len`
abbrev pub len : Window → ℕ
len w = length w.entries
