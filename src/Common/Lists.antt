-- ===== src/Common/Lists.antt =====
-- Lists measured by native numbers, under the library's names, and predicates by recursion.
use Prim.Native.Nat.{ℕ, zero, suc, ◌+◌}
use mathlib.Core.Path.{◌≡◌}
use mathlib.Core.Logic.{◌⊎◌, inl, inr}
use mathlib.Core.List.{List, [], ◌∷◌, ◌++◌}
use mathlib.Core.Bool.{Bool}
use mathlib.Core.Option.{Option, none, some}
use native.Mathlib.Omega.{arith}
use jetstream_router.Common.Tests.{if◌then◌else◌}

module _ {ℓ} {A : Type ℓ} where
  abbrev pub length : List A → ℕ
  length [] = 0
  length (x ∷ xs) = suc (length xs)

  pub length-append : (xs ys : List A) → length (xs ++ ys) ≡ length xs + length ys
  length-append [] ys = omega arith
  length-append (x ∷ xs) ys = omega (arith, length-append xs ys)

  unfoldable pub take : ℕ → List A → List A
  take zero xs = []
  take (suc n) [] = []
  take (suc n) (x ∷ xs) = x ∷ take n xs

  unfoldable pub get_elem? : List A → ℕ → Option A
  get_elem? [] i = none
  get_elem? (x ∷ xs) zero = some x
  get_elem? (x ∷ xs) (suc i) = get_elem? xs i

  -- A write out of bounds changes nothing.
  unfoldable pub set : List A → ℕ → A → List A
  set [] i v = []
  set (x ∷ xs) zero v = v ∷ xs
  set (x ∷ xs) (suc i) v = x ∷ set xs i v

  unfoldable pub filter : (A → Bool) → List A → List A
  filter p [] = []
  filter p (x ∷ xs) = let rest = filter p xs in if p x then x ∷ rest else rest

module _ {A : Type 0} where
  -- The value is in the list.
  abbrev pub Has : A → List A → Type 0
  Has x [] = ⊥
  Has x (y ∷ ys) = (y ≡ x) ⊎ Has x ys

  -- No value stands in the list twice.
  abbrev pub IsOnce : List A → Type 0
  IsOnce [] = Unit
  IsOnce (x ∷ xs) = (¬ Has x xs) × IsOnce xs

  pub Has-append_left : (x : A) (xs ys : List A) → Has x xs → Has x (xs ++ ys)
  Has-append_left x (y ∷ xs) ys (inl e) = inl e
  Has-append_left x (y ∷ xs) ys (inr h) = inr (Has-append_left x xs ys h)
  Has-append_left x [] ys h = absurd h

  pub Has-append_right : (x : A) (xs ys : List A) → Has x ys → Has x (xs ++ ys)
  Has-append_right x [] ys h = h
  Has-append_right x (y ∷ xs) ys h = inr (Has-append_right x xs ys h)

  pub Has-append : (x : A) (xs ys : List A) → Has x (xs ++ ys) → Has x xs ⊎ Has x ys
  Has-append x [] ys h = inr h
  Has-append x (y ∷ xs) ys (inl e) = inl (inl e)
  Has-append x (y ∷ xs) ys (inr h) = elim (Has-append x xs ys h) [
    | inl l ↦ inl (inr l)
    | inr r ↦ inr r
  ]

module _ {ℓ κ} {A : Type ℓ} (P : A → Type κ) where
  abbrev pub All : List A → Type κ
  All [] = Unit
  All (x ∷ xs) = P x × All xs

  pub All-append : (xs ys : List A) → All xs → All ys → All (xs ++ ys)
  All-append [] ys hx hy = hy
  All-append (x ∷ xs) ys hx hy = (hx.0, All-append xs ys hx.1 hy)
