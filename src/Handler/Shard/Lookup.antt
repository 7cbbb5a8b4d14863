-- ===== src/Handler/Shard/Lookup.antt =====
-- The shard of a key is there, and the others are left alone.
use jetstream_router.Common.{
  ℕ, zero, suc, ◌<◌, ◌≡◌, refl, ap, subst, some, List, [], ◌∷◌, All, get_elem?, length,
  if◌then◌else◌, eqb, arith,
}
use jetstream_router.Common.Str.{Str}
use jetstream_router.Handler.Shard.{Shard, index_for, set_at}

-- Whatever the bytes of the key, the index is one of a shard.
pub index_for-length : (key : Str) (n : ℕ) → 0 < n → index_for key n < n
unfolding index_for
index_for-length key n h = ground arith

module _ {A : Type 0} where
  pub get_elem-length : (i : ℕ) (xs : List A) → i < length xs → (x : A) × (get_elem? xs i ≡ some x)
  unfolding get_elem?
  get_elem-length i [] h = absurd (omega arith)
  get_elem-length zero (x ∷ xs) h = (x, refl)
  get_elem-length (suc i) (x ∷ xs) h = get_elem-length i xs (omega arith)

  pub get_elem_some : (i : ℕ) (xs : List A) (x : A) → get_elem? xs i ≡ some x → i < length xs
  unfolding get_elem?
  get_elem_some i [] x h = absurd cc
  get_elem_some zero (y ∷ xs) x h = omega arith
  get_elem_some (suc i) (y ∷ xs) x h = omega (arith, get_elem_some i xs x h)

  pub All-get_elem :
      (P : A → Type 0) (i : ℕ) (xs : List A) (x : A) → All P xs → get_elem? xs i ≡ some x → P x
  unfolding get_elem?
  All-get_elem P i [] x h e = absurd (cc)
  All-get_elem P zero (y ∷ xs) x h e = subst P (ground arith) h.0
  All-get_elem P (suc i) (y ∷ xs) x h e = All-get_elem P i xs x h.1 e

pub length-set_at : (i : ℕ) (sh : Shard) (xs : List Shard) → length (set_at i sh xs) ≡ length xs
unfolding set_at
length-set_at i sh [] = refl
length-set_at zero sh (x ∷ xs) = refl
length-set_at (suc i) sh (x ∷ xs) = ap suc (length-set_at i sh xs)

pub get_elem-set_at :
    (i j : ℕ) (sh : Shard) (xs : List Shard)
    → i < length xs
    → get_elem? (set_at i sh xs) j ≡ (if eqb i j then some sh else get_elem? xs j)
unfolding set_at get_elem?
get_elem-set_at i j sh [] h = absurd (omega arith)
get_elem-set_at zero zero sh (x ∷ xs) h = ground arith
get_elem-set_at zero (suc j) sh (x ∷ xs) h = ground arith
get_elem-set_at (suc i) zero sh (x ∷ xs) h = ground arith
get_elem-set_at (suc i) (suc j) sh (x ∷ xs) h = ground (arith, get_elem-set_at i j sh xs)

pub All-set_at :
    (P : Shard → Type 0) (i : ℕ) (sh : Shard) (xs : List Shard)
    → P sh
    → All P xs
    → All P (set_at i sh xs)
unfolding set_at
All-set_at P i sh [] p h = tt
All-set_at P zero sh (x ∷ xs) p h = (p, h.1)
All-set_at P (suc i) sh (x ∷ xs) p h = (h.0, All-set_at P i sh xs p h.1)
