-- ===== src/Cursor/Durable.antt =====
-- What a crash leaves of the position.
use jetstream_router.Common.{
  ◌≡◌, ◌⊎◌, ◌∙◌, ap, refl, sym, subst, true, ◌||◌, Option, none, some, Bool-cases, inl, inr,
}
use jetstream_router.Common.Int.{ℤ, pos}
use jetstream_router.Common.Str.{Str}
use jetstream_router.Cursor.{
  Disk, Cursor, new_cursor, loaded, load, Fault, no_fault, no_directory, torn_write, no_rename,
  persist, commit, eqb_ℤ,
}
use jetstream_router.Cursor.Advance.{eqb_ℤ-≡}

-- The file holds what was committed last, or what it held at first if nothing was.
abbrev pub IsSavedFrom : Option Str → (ℤ → Str) → Cursor → Disk → Type 0
IsSavedFrom old marshal c disk =
    ((c.committed ≡ pos 0) × (disk.file ≡ old)) ⊎ (disk.file ≡ some (marshal c.committed))

-- The file holds what was committed last, if anything was.
abbrev pub IsSynced : (ℤ → Str) → Cursor → Disk → Type 0
IsSynced = IsSavedFrom none

module _ (old : Option Str) (marshal : ℤ → Str) where
  persist-IsSavedFrom :
      (fault : Fault) (c : Cursor) (disk : Disk)
      → IsSavedFrom old marshal c disk
      → IsSavedFrom old marshal (persist marshal fault c disk).0 (persist marshal fault c disk).1
        × ((persist marshal fault c disk).2 ≡ true
            → (persist marshal fault c disk).0.committed ≡ c.latest)
  unfolding persist
  persist-IsSavedFrom no_fault c disk synced = (inr refl, λ _. refl)
  persist-IsSavedFrom no_directory c disk synced = (synced, λ h. cc)
  persist-IsSavedFrom (torn_write part) c disk synced = (synced, λ h. cc)
  persist-IsSavedFrom no_rename c disk synced = (synced, λ h. cc)

  pub commit-IsSavedFrom :
      (fault : Fault) (c : Cursor) (disk : Disk)
      → IsSavedFrom old marshal c disk
      → IsSavedFrom old marshal (commit marshal fault c disk).0 (commit marshal fault c disk).1
        × ((commit marshal fault c disk).2 ≡ true
            → ((commit marshal fault c disk).0.committed ≡ c.latest) ⊎ (c.latest ≡ pos 0))
  unfolding commit
  commit-IsSavedFrom fault c disk synced =
      elim (Bool-cases (eqb_ℤ c.latest (pos 0) || eqb_ℤ c.latest c.committed)) [
        | inr changed ↦
            let (synced', good) = persist-IsSavedFrom fault c disk synced in
            rw (changed, commit) (synced', λ h. inl (good h))
        | inl kept ↦
            rw (kept, commit)
              (
                synced,
                λ _. elim (Bool-cases (eqb_ℤ c.latest (pos 0))) [
                  | inl zero_ ↦ inr (eqb_ℤ-≡ c.latest (pos 0) zero_)
                  | inr other ↦ inl (
                      sym (
                        eqb_ℤ-≡ c.latest c.committed
                          (subst (λ b. (b || eqb_ℤ c.latest c.committed) ≡ true) other kept)))
                ],
              )
      ]

module _ (marshal : ℤ → Str) (unmarshal : Str → Option ℤ)
    (unmarshal-marshal : (v : ℤ) → unmarshal (marshal v) ≡ some v) where
  load-IsSynced :
      (c : Cursor) (disk : Disk)
      → IsSynced marshal c disk
      → load unmarshal disk new_cursor
        ≡ (record { latest = c.committed; committed = c.committed }, c.committed)
  unfolding load loaded new_cursor
  load-IsSynced c disk (inl (nothing, missing)) =
      ap (λ f. load unmarshal (record { file = f; tmp = disk.tmp }) new_cursor) missing
      ∙ ap (λ v. (record { latest = v; committed = v }, v)) (sym nothing)
  load-IsSynced c disk (inr there) =
      ap (λ f. load unmarshal (record { file = f; tmp = disk.tmp }) new_cursor) there
      ∙ ap (λ v. loaded v new_cursor) (unmarshal-marshal c.committed)

  -- Where the JSON of a position reads back, and the file holds what was committed last: wherever
  -- Commit fails or the process dies, the file stays readable, a fresh cursor loads the position
  -- that was committed last, and that is the newest one where Commit reports no error, unless
  -- there is none.
  pub load-commit :
      (fault : Fault) (c : Cursor) (disk : Disk)
      → IsSynced marshal c disk
      → IsSynced marshal (commit marshal fault c disk).0 (commit marshal fault c disk).1
        × ((load unmarshal (commit marshal fault c disk).1 new_cursor).1
            ≡ (commit marshal fault c disk).0.committed)
        × ((commit marshal fault c disk).2 ≡ true
            → ((commit marshal fault c disk).0.committed ≡ c.latest) ⊎ (c.latest ≡ pos 0))
  load-commit fault c disk synced =
      let (synced', good) = commit-IsSavedFrom none marshal fault c disk synced in
      (
        synced',
        ap (λ r. r.1)
            (load-IsSynced (commit marshal fault c disk).0 (commit marshal fault c disk).1 synced'),
        good,
      )
