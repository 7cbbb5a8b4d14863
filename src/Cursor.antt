-- ===== src/Cursor.antt =====
-- internal/jetstream/cursor.go: the position in the stream, and its file. `encoding/json` is the
-- arguments `marshal` and `unmarshal`. Of the file system the model keeps the two files that the
-- cursor writes.
pub mod Advance
pub mod Durable
pub mod Steps
use jetstream_router.Common.{
  Bool, true, false, ◌||◌, Option, none, some, List, [], ◌∷◌, if◌then◌else◌, eqb, ◌&&◌,
}
use jetstream_router.Common.Int.{ℤ, pos, leb_ℤ, ltb_ℤ, pos_part, neg_part}
use jetstream_router.Common.Str.{Str}

-- The content of the cursor's file and of the temporary file; `none` is a missing file.
pub record Disk : Type 0 where
  pub file : Option Str
  pub tmp : Option Str

pub record Cursor : Type 0 where
  pub latest : ℤ
  pub committed : ℤ

-- `NewCursor`
unfoldable pub new_cursor : Cursor
new_cursor = record { latest = pos 0; committed = pos 0 }

abbrev pub eqb_ℤ : ℤ → ℤ → Bool
eqb_ℤ a b = leb_ℤ a b && leb_ℤ b a

-- What `Load` makes of a position that it can read.
unfoldable pub loaded : Option ℤ → Cursor → Cursor × ℤ
loaded none c = (c, pos 0)
loaded (some v) c = (record { latest = v; committed = v }, v)

-- `Load`
unfoldable pub load : (Str → Option ℤ) → Disk → Cursor → Cursor × ℤ
load unmarshal disk c = elim disk.file [
  | none ↦ (c, pos 0)
  | some bytes ↦ loaded (unmarshal bytes) c
]

-- The loop of `Advance`: `cur` is what a round loads, and each entry of `found` what the
-- `CompareAndSwap` of a round finds instead; after the last one nobody interferes. The result is
-- what `latest` holds in the end.
unfoldable pub swap : ℤ → ℤ → List ℤ → ℤ
swap time_us cur [] = if leb_ℤ time_us cur then cur else time_us
swap time_us cur (found ∷ rest) =
    let again = swap time_us found rest in
    if leb_ℤ time_us cur then cur else (if eqb_ℤ found cur then time_us else again)

-- `Advance`
unfoldable pub advance : List ℤ → ℤ → Cursor → Cursor
advance found time_us c =
    if leb_ℤ time_us (pos 0) then c else record c { latest = swap time_us c.latest found }

-- Where `Commit` fails, or the process dies: before it writes, with a part of the temporary file
-- written, or before the rename.
pub data Fault : Type 0 where
  no_fault : Fault
  no_directory : Fault
  torn_write : Str → Fault
  no_rename : Fault

-- The part of `Commit` that writes; `true` is a nil error.
unfoldable pub persist : (ℤ → Str) → Fault → Cursor → Disk → Cursor × Disk × Bool
persist marshal no_directory c disk = (c, disk, false)
persist marshal (torn_write part) c disk = (c, record disk { tmp = some part }, false)
persist marshal no_rename c disk = (c, record disk { tmp = some (marshal c.latest) }, false)
persist marshal no_fault c disk =
    (record c { committed = c.latest }, record { file = some (marshal c.latest); tmp = none }, true)

-- `Commit`
unfoldable pub commit : (ℤ → Str) → Fault → Cursor → Disk → Cursor × Disk × Bool
commit marshal fault c disk =
    if eqb_ℤ c.latest (pos 0) || eqb_ℤ c.latest c.committed
    then (c, disk, true)
    else persist marshal fault c disk

-- `Lag`; `since` is the time that has passed since a time in microseconds.
unfoldable pub lag : (ℤ → ℤ) → Cursor → ℤ
lag since c =
    if eqb_ℤ c.latest (pos 0)
    then pos 0
    else (let d = since c.latest in if ltb_ℤ d (pos 0) then pos 0 else d)
