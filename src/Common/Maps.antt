-- ===== src/Common/Maps.antt =====
-- Go maps with string keys: association lists.
use Prim.Native.Nat.{suc, ◌+◌}
use mathlib.Core.Path.{◌≡◌, refl, subst}
use mathlib.Core.List.{List, [], ◌∷◌}
use mathlib.Core.Option.{Option, none, some}
use native.Mathlib.Omega.{arith}
use mathlib.Core.Logic.{◌≢◌, ◌↔◌, inl, inr}
use jetstream_router.Common.Tests.{if◌then◌else◌, Bool-cases, Option-cases}
use jetstream_router.Common.Lists.{length, Has, IsOnce}
use jetstream_router.Common.Str.{Str, ◌==◌, eq_iff}

module _ {ℓ} {V : Type ℓ} where
  -- `v, ok := m[k]`
  unfoldable pub lookup : Str → List (Str × V) → Option V
  lookup k [] = none
  lookup k ((j, v) ∷ m) = if j == k then some v else lookup k m

  -- `delete(m, k)`
  unfoldable pub delete : Str → List (Str × V) → List (Str × V)
  delete k [] = []
  delete k ((j, v) ∷ m) = let rest = delete k m in if j == k then rest else (j, v) ∷ rest

  -- `m[k] = v`
  unfoldable pub insert : Str → V → List (Str × V) → List (Str × V)
  insert key new [] = (key, new) ∷ []
  insert key new ((j, old) ∷ rest) =
      let kept = insert key new rest in if j == key then (key, new) ∷ rest else (j, old) ∷ kept

  abbrev pub Distinct : List (Str × V) → Type ℓ
  Distinct [] = Unit
  Distinct ((k, _) ∷ m) = (lookup k m ≡ none) × Distinct m

module _ {ℓ} {V : Type ℓ} where
  pub lookup-insert :
      (key asked : Str) (new : V) (m : List (Str × V))
      → lookup asked (insert key new m) ≡ (if key == asked then some new else lookup asked m)
  unfolding insert lookup
  lookup-insert key asked new [] = refl
  lookup-insert key asked new ((at, old) ∷ rest) =
      let ih = lookup-insert key asked new rest in
      ground (arith, ih, eq_iff at key, eq_iff at asked, eq_iff key asked)

  pub lookup-delete :
      (k j : Str) (m : List (Str × V))
      → lookup j (delete k m) ≡ (if k == j then none else lookup j m)
  unfolding lookup delete
  lookup-delete k j [] = ground arith
  lookup-delete k j ((i, w) ∷ m) =
      ground (arith, eq_iff k j, eq_iff i k, eq_iff i j, lookup-delete k j m)

  pub insert-Distinct :
      (k : Str) (v : V) (m : List (Str × V)) → Distinct m → Distinct (insert k v m)
  unfolding insert lookup
  insert-Distinct k v [] d = (refl, tt)
  insert-Distinct k v ((i, w) ∷ m) d =
      ground (arith, eq_iff i k, eq_iff k i, lookup-insert k i v m, insert-Distinct k v m d.1)

  pub delete-Distinct : (k : Str) (m : List (Str × V)) → Distinct m → Distinct (delete k m)
  unfolding delete
  delete-Distinct k [] d = tt
  delete-Distinct k ((i, w) ∷ m) d =
      ground (arith, lookup-delete k i m, eq_iff k i, delete-Distinct k m d.1)

  pub delete_absent : (k : Str) (m : List (Str × V)) → lookup k m ≡ none → delete k m ≡ m
  unfolding delete lookup
  delete_absent k [] h = refl
  delete_absent k ((i, w) ∷ m) h = ground (arith, delete_absent k m)

  pub length-delete :
      (k : Str) (m : List (Str × V)) (v : V)
      → Distinct m
      → lookup k m ≡ some v
      → length (delete k m) + 1 ≡ length m
  unfolding delete lookup
  length-delete k [] v d h = ground arith
  length-delete k ((i, w) ∷ m) v d h =
      ground (arith, eq_iff i k, delete_absent k m, length-delete k m v d.1)

  pub length-insert :
      (k : Str) (v : V) (m : List (Str × V))
      → length (insert k v m) ≡ (elim (lookup k m) [ none ↦ suc (length m) | some _ ↦ length m ])
  unfolding insert lookup
  length-insert k v [] = refl
  length-insert k v ((i, w) ∷ m) = ground (arith, length-insert k v m)

module _ {ℓ} {V : Type ℓ} where
  -- The keys of a map, each once.
  abbrev pub keys : List (Str × V) → List Str
  keys [] = []
  keys ((k, _) ∷ m) = elim (lookup k m) [ none ↦ k ∷ keys m | some _ ↦ keys m ]

  pub keys_iff : (m : List (Str × V)) (name : Str) → Has name (keys m) ↔ (lookup name m ≢ none)
  unfolding lookup
  keys_iff [] name = (λ h. absurd h, λ there. there refl)
  keys_iff ((k, v) ∷ m) name =
      let ih = keys_iff m name in
      let to = (eq_iff k name).0 in
      elim (Option-cases (lookup k m)) [
        | inl new ↦ elim (Bool-cases (k == name)) [
          | inl same ↦ rw (same, keys, new) (λ h none_. absurd cc, λ there. inl (to same))
          | inr apart ↦
              rw (keys, new, apart)
                (
                  λ h. elim h [
                    | inl e ↦ absurd (cc (apart, (eq_iff k name).1 e))
                    | inr later ↦ ih.0 later
                  ],
                  λ there. inr (ih.1 there),
                )
        ]
        | inr (w, old) ↦ elim (Bool-cases (k == name)) [
          | inl same ↦
              let there : lookup name m ≢ none =
                subst (λ x. lookup x m ≢ none) (to same) (λ none_. absurd (cc (old, none_))) in
              rw (same, keys, old) (λ h none_. absurd cc, λ found. ih.1 there)
          | inr apart ↦ rw (apart, keys, old) ih
        ]
      ]

  pub keys-IsOnce : (m : List (Str × V)) → IsOnce (keys m)
  keys-IsOnce [] = tt
  keys-IsOnce ((k, v) ∷ m) = elim (Option-cases (lookup k m)) [
    | inl new ↦ rw (keys, new) (λ h. (keys_iff m k).0 h new, keys-IsOnce m)
    | inr (w, old) ↦ rw (keys, old) (keys-IsOnce m)
  ]
