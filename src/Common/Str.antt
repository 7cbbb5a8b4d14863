-- ===== src/Common/Str.antt =====
-- Go strings: sequences of bytes.
use Prim.Native.Char.{code}
use Prim.Native.String.{String}
use Prim.Native.Nat.{ℕ}
use mathlib.Core.Path.{◌≡◌, refl}
use mathlib.Core.Logic.{◌↔◌}
use mathlib.Core.Bool.{Bool, true, false, ◌&&◌}
use mathlib.Core.List.{List, [], ◌∷◌, ◌++◌}
use native.Mathlib.Omega.{arith}
use jetstream_router.Common.Tests.{eqb}

abbrev pub Str : Type 0
Str = List ℕ

-- The bytes of an ASCII literal.
abbrev pub lit : String → Str
lit String.[] = []
lit (String.◌∷◌ c s) = code c ∷ lit s

infix 50 ◌==◌
unfoldable pub ◌==◌ : Str → Str → Bool
[] == [] = true
[] == (_ ∷ _) = false
(_ ∷ _) == [] = false
(x ∷ xs) == (y ∷ ys) = eqb x y && xs == ys

pub eq_iff : (s t : Str) → ((s == t) ≡ true) ↔ (s ≡ t)
unfolding ◌==◌
eq_iff [] [] = ground arith
eq_iff [] (y ∷ ys) = ground arith
eq_iff (x ∷ xs) [] = ground arith
eq_iff (x ∷ xs) (y ∷ ys) = ground (arith, eq_iff xs ys)

pub eq_refl : (s : Str) → (s == s) ≡ true
eq_refl s = (eq_iff s s).1 refl

-- `strings.HasPrefix(s, prefix)`
unfoldable pub has_prefix : Str → Str → Bool
has_prefix s [] = true
has_prefix [] (_ ∷ _) = false
has_prefix (x ∷ s) (y ∷ p) = eqb x y && has_prefix s p

pub has_prefix_iff : (s p : Str) → (has_prefix s p ≡ true) ↔ ((t : Str) × (s ≡ p ++ t))
unfolding has_prefix
has_prefix_iff s [] = (λ _. (s, refl), λ _. refl)
has_prefix_iff [] (y ∷ p) = (λ h. cc, λ h. cc (h.1))
has_prefix_iff (x ∷ s) (y ∷ p) = (
  λ h. let (t, e) = (has_prefix_iff s p).0 (ground arith) in (t, ground arith),
  λ h. let q = (has_prefix_iff s p).1 (h.0, ground (arith, h.1)) in ground (arith, h.1),
)
