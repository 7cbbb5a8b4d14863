-- ===== src/Cursor/Steps.antt =====
-- internal/jetstream/cursor.go: `Commit` as the steps between which another goroutine can run.
use jetstream_router.Common.{◌≡◌, ◌∙◌, refl, ap, sym, Bool, true, false, ◌||◌, Option, none, some}
use jetstream_router.Common.Int.{ℤ, pos}
use jetstream_router.Common.Str.{Str}
use jetstream_router.Cursor.{
  Disk, Cursor, Fault, no_fault, no_directory, torn_write, no_rename, persist, commit, eqb_ℤ,
}

-- Where a call of `Commit` stands: at its start, with the position that it has loaded, with the
-- temporary file written, with the file renamed, or at its end, where `true` is a nil error.
pub data Progress : Type 0 where
  ready : Progress
  loaded : ℤ → Progress
  written : ℤ → Progress
  renamed : ℤ → Progress
  over : Bool → Progress

-- Nothing is left to commit.
abbrev pub is_done : Cursor → Bool
is_done c = eqb_ℤ c.latest (pos 0) || eqb_ℤ c.latest c.committed

-- One step of a call, with the cursor and the disk that all calls share.
pub data Stride (marshal : ℤ → Str)
    : Progress → Cursor → Disk → Progress → Cursor → Disk → Type 0 where
  skips : (c : Cursor) (d : Disk) → is_done c ≡ true → Stride marshal ready c d (over true) c d
  loads :
      (c : Cursor) (d : Disk) → is_done c ≡ false → Stride marshal ready c d (loaded c.latest) c d
  fails : (v : ℤ) (c : Cursor) (d : Disk) → Stride marshal (loaded v) c d (over false) c d
  tears :
      (v : ℤ) (c : Cursor) (d : Disk) (part : Str)
      → Stride marshal (loaded v) c d (over false) c (record d { tmp = some part })
  writes :
      (v : ℤ) (c : Cursor) (d : Disk)
      → Stride marshal (loaded v) c d (written v) c (record d { tmp = some (marshal v) })
  gives_up : (v : ℤ) (c : Cursor) (d : Disk) → Stride marshal (written v) c d (over false) c d
  renames :
      (v : ℤ) (c : Cursor) (d : Disk) (bytes : Str)
      → d.tmp ≡ some bytes
      → Stride marshal (written v) c d (renamed v) c (record { file = some bytes; tmp = none })
  stores :
      (v : ℤ) (c : Cursor) (d : Disk)
      → Stride marshal (renamed v) c d (over true) (record c { committed = v }) d

-- A call that nobody else runs beside.
pub data Alone (marshal : ℤ → Str) (c : Cursor) (d : Disk) : Progress → Cursor → Disk → Type 0 where
  begins : Alone marshal c d ready c d
  goes_on :
      {p q : Progress} {c' c'' : Cursor} {d' d'' : Disk}
      → Alone marshal c d p c' d'
      → Stride marshal p c' d' q c'' d''
      → Alone marshal c d q c'' d''

-- What a call that runs alone has done at each place.
abbrev Reaches : (ℤ → Str) → Cursor → Disk → Progress → Cursor → Disk → Type 0
Reaches marshal c d ready c' d' = (c' ≡ c) × (d' ≡ d)
Reaches marshal c d (loaded v) c' d' = (is_done c ≡ false) × (v ≡ c.latest) × (c' ≡ c) × (d' ≡ d)
Reaches marshal c d (written v) c' d' =
    (is_done c ≡ false)
    × (v ≡ c.latest)
    × (c' ≡ c)
    × (d' ≡ record d { tmp = some (marshal c.latest) })
Reaches marshal c d (renamed v) c' d' =
    (is_done c ≡ false)
    × (v ≡ c.latest)
    × (c' ≡ c)
    × (d' ≡ record { file = some (marshal c.latest); tmp = none })
Reaches marshal c d (over b) c' d' = (fault : Fault) × (commit marshal fault c d ≡ (c', d', b))

abbrev with_tmp : Disk → Str → Disk
with_tmp d bytes = record d { tmp = some bytes }

abbrev with_committed : Cursor → ℤ → Cursor
with_committed c v = record c { committed = v }

abbrev only_file : Option Str → Disk
only_file f = record { file = f; tmp = none }

module _ (marshal : ℤ → Str) (c : Cursor) (d : Disk) where
  fault_lem :
      (fault : Fault) → is_done c ≡ false → commit marshal fault c d ≡ persist marshal fault c d
  unfolding commit
  fault_lem fault open_ = rw (open_, commit) refl

  -- The result of a call, read off what has become of the cursor and the disk.
  result :
      (fault : Fault) (c' c₁ : Cursor) (d' d₁ : Disk) (b : Bool)
      → commit marshal fault c d ≡ (c', d', b)
      → c₁ ≡ c'
      → d₁ ≡ d'
      → commit marshal fault c d ≡ (c₁, d₁, b)
  result fault c' c₁ d' d₁ b ran cur dis =
      ran ∙ ap (λ x. (x, d', b)) (sym cur) ∙ ap (λ y. (c₁, y, b)) (sym dis)

  -- A call of Commit that runs alone does what `commit` does, with some fault or none.
  pub Alone-commit :
      {p : Progress} {c' : Cursor} {d' : Disk}
      → Alone marshal c d p c' d'
      → Reaches marshal c d p c' d'
  unfolding commit persist
  Alone-commit begins = (refl, refl)
  Alone-commit (goes_on before (skips c₁ d₁ done)) =
      let (cur, dis) = Alone-commit before in
      let done' : is_done c ≡ true = ap is_done (sym cur) ∙ done in
      (no_fault, result no_fault c c₁ d d₁ true (rw (done', commit) refl) cur dis)
  Alone-commit (goes_on before (loads c₁ d₁ more)) =
      let (cur, dis) = Alone-commit before in
      (ap is_done (sym cur) ∙ more, ap (λ x. x.latest) cur, cur, dis)
  Alone-commit (goes_on before (fails v c₁ d₁)) =
      let (open_, same, cur, dis) = Alone-commit before in
      (no_directory, result no_directory c c₁ d d₁ false (fault_lem no_directory open_) cur dis)
  Alone-commit (goes_on before (tears v c₁ d₁ part)) =
      let (open_, same, cur, dis) = Alone-commit before in
      (
        torn_write part,
        result (torn_write part) c c₁ (record d { tmp = some part }) (record d₁ { tmp = some part })
            false (fault_lem (torn_write part) open_) cur (ap (λ x. with_tmp x part) dis),
      )
  Alone-commit (goes_on before (writes v c₁ d₁)) =
      let (open_, same, cur, dis) = Alone-commit before in
      (
        open_,
        same,
        cur,
        ap (λ x. with_tmp x (marshal v)) dis ∙ ap (λ x. with_tmp d (marshal x)) same,
      )
  Alone-commit (goes_on before (gives_up v c₁ d₁)) =
      let (open_, same, cur, dis) = Alone-commit before in
      (
        no_rename,
        result no_rename c c₁ (record d { tmp = some (marshal c.latest) }) d₁ false
            (fault_lem no_rename open_) cur dis,
      )
  Alone-commit (goes_on before (renames v c₁ d₁ bytes there)) =
      let (open_, same, cur, dis) = Alone-commit before in
      let found : some bytes ≡ some (marshal c.latest) = sym there ∙ ap (λ x. x.tmp) dis in
      (open_, same, cur, ap only_file found)
  Alone-commit (goes_on before (stores v c₁ d₁)) =
      let (open_, same, cur, dis) = Alone-commit before in
      (
        no_fault,
        result no_fault (record c { committed = c.latest }) (record c₁ { committed = v })
            (record { file = some (marshal c.latest); tmp = none }) d₁ true
            (fault_lem no_fault open_)
            (ap (λ x. with_committed x v) cur ∙ ap (with_committed c) same) dis,
      )

-- Two calls with the cursor and the disk that they share.
pub record Pair : Type 0 where
  pub first : Progress
  pub second : Progress
  pub cursor : Cursor
  pub disk : Disk

pub data Together (marshal : ℤ → Str) (s : Pair) : Pair → Type 0 where
  meets : Together marshal s s
  first_goes :
      {t : Pair} {p : Progress} {c : Cursor} {d : Disk}
      → Together marshal s t
      → Stride marshal t.first t.cursor t.disk p c d
      → Together marshal s (record t { first = p; cursor = c; disk = d })
  second_goes :
      {t : Pair} {p : Progress} {c : Cursor} {d : Disk}
      → Together marshal s t
      → Stride marshal t.second t.cursor t.disk p c d
      → Together marshal s (record t { second = p; cursor = c; disk = d })

-- Where one call of Commit has loaded a position, and another begins once there is a newer one to
-- commit, there is an order of their steps after which the second call has returned without an
-- error and its position counts as committed, but the file holds the position of the first.
pub stale_file :
    (marshal : ℤ → Str) (v : ℤ) (c : Cursor) (d : Disk)
    → is_done c ≡ false
    → (t : Pair) × Together marshal
        (record { first = loaded v; second = ready; cursor = c; disk = d })
        t
      × (t.second ≡ over true)
      × (t.cursor.committed ≡ c.latest)
      × (t.disk.file ≡ some (marshal v))
stale_file marshal v c d open_ = (
  _,
  second_goes
      (second_goes
        (first_goes (second_goes (second_goes meets (loads c d open_)) (writes c.latest c d))
          (writes v c (record d { tmp = some (marshal c.latest) })))
        (renames c.latest c (record d { tmp = some (marshal v) }) (marshal v) refl))
      (stores c.latest c (record { file = some (marshal v); tmp = none })),
  refl,
  refl,
  refl,
)
