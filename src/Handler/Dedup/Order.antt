-- ===== src/Handler/Dedup/Order.antt =====
-- The list of keys behind `Dedup`, the oldest at the back.
use jetstream_router.Common.{
  ℕ, zero, suc, ◌+◌, ◌≤◌, ◌≡◌, refl, ap, Bool, true, false, ◌||◌, none, some, List, [], ◌∷◌, ◌++◌,
  take, length, if◌then◌else◌, arith,
}
use jetstream_router.Common.Str.{Str, ◌==◌, eq_iff, eq_refl}
use jetstream_router.Handler.Dedup.{remove_key, back}

unfoldable pub has : Str → List Str → Bool
has k [] = false
has k (j ∷ js) = j == k || has k js

abbrev pub Unique : List Str → Type 0
Unique [] = Unit
Unique (k ∷ ks) = (has k ks ≡ false) × Unique ks

pub has-remove_key :
    (k j : Str) (ks : List Str)
    → Unique ks
    → has j (remove_key k ks) ≡ (if k == j then false else has j ks)
unfolding has remove_key
has-remove_key k j [] u = ground arith
has-remove_key k j (i ∷ ks) u =
    ground (arith, has-remove_key k j ks u.1, eq_iff i k, eq_iff i j, eq_iff k j)

pub remove_key-Unique : (k : Str) (ks : List Str) → Unique ks → Unique (remove_key k ks)
unfolding remove_key
remove_key-Unique k [] u = tt
remove_key-Unique k (i ∷ ks) u =
    ground (arith, has-remove_key k i ks u.1, remove_key-Unique k ks u.1)

pub length-remove_key :
    (k : Str) (ks : List Str) → has k ks ≡ true → length (remove_key k ks) + 1 ≡ length ks
unfolding has remove_key
length-remove_key k [] h = cc
length-remove_key k (i ∷ ks) h = ground (arith, length-remove_key k ks)

pub back_split :
    (ks : List Str) (k : Str) → back ks ≡ some k → (front : List Str) × (ks ≡ front ++ k ∷ [])
unfolding back
back_split [] k h = cc
back_split (i ∷ []) k h = ([], ground arith)
back_split (i ∷ j ∷ ks) k h =
    let (front, same) = back_split (j ∷ ks) k h in (i ∷ front, ap (◌∷◌ i) same)

pub back-none : (ks : List Str) → back ks ≡ none → ks ≡ []
unfolding back
back-none [] h = refl
back-none (i ∷ []) h = cc
back-none (i ∷ j ∷ ks) h = absurd (ne (back-none (j ∷ ks) h))
  where
    ne : (j ∷ ks) ≡ [] → ⊥
    ne e = cc

pub has-concat : (front : List Str) (k : Str) → has k (front ++ k ∷ []) ≡ true
unfolding has
has-concat [] k = ground (arith, eq_refl k)
has-concat (i ∷ front) k = ground (arith, has-concat front k)

pub remove_key_back :
    (front : List Str) (k : Str) → Unique (front ++ k ∷ []) → remove_key k (front ++ k ∷ []) ≡ front
unfolding remove_key
remove_key_back [] k u = ground (arith, eq_refl k)
remove_key_back (i ∷ front) k u =
    ground (arith, remove_key_back front k u.1, eq_iff i k, has-concat front k)

pub has-append_left : (k : Str) (ks js : List Str) → has k ks ≡ true → has k (ks ++ js) ≡ true
unfolding has
has-append_left k [] js h = cc
has-append_left k (i ∷ ks) js h = ground (arith, has-append_left k ks js)

pub has-take-suc :
    (n : ℕ) (j : Str) (ks : List Str) → has j (take n ks) ≡ true → has j (take (suc n) ks) ≡ true
unfolding has take
has-take-suc zero j ks h = cc
has-take-suc (suc n) j [] h = cc
has-take-suc (suc n) j (i ∷ ks) h = ground (arith, has-take-suc n j ks)

-- To remove another key moves a key towards the front, if at all.
pub has-take-remove_key :
    (n : ℕ) (k j : Str) (ks : List Str)
    → (k == j) ≡ false
    → has j (take n ks) ≡ true
    → has j (take n (remove_key k ks)) ≡ true
unfolding has take remove_key
has-take-remove_key zero k j ks d h = cc
has-take-remove_key (suc n) k j [] d h = cc
has-take-remove_key (suc n) k j (i ∷ ks) d h =
    ground (arith, has-take-remove_key n k j ks d, eq_iff i k, has-take-suc n j ks)

pub take-append :
    {A : Type 0} (n : ℕ) (xs ys : List A) → n ≤ length xs → take n (xs ++ ys) ≡ take n xs
unfolding take
take-append zero xs ys h = refl
take-append (suc n) [] ys h = absurd (omega arith)
take-append (suc n) (x ∷ xs) ys h = ap (◌∷◌ x) (take-append n xs ys (omega arith))

pub has-take : (n : ℕ) (k : Str) (ks : List Str) → has k (take n ks) ≡ true → has k ks ≡ true
unfolding has take
has-take zero k ks h = cc
has-take (suc n) k [] h = cc
has-take (suc n) k (i ∷ ks) h = ground (arith, has-take n k ks)
