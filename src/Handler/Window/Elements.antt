-- ===== src/Handler/Window/Elements.antt =====
-- The list of a window and the map beside it.
use jetstream_router.Common.{
  ◌+◌, ◌≡◌, refl, ap, Bool, true, false, ◌||◌, none, some, List, [], ◌∷◌, ◌++◌, length,
  if◌then◌else◌, arith,
}
use jetstream_router.Common.Str.{Str, ◌==◌, eq_iff, eq_refl}
use jetstream_router.Common.Maps.{
  lookup, insert, delete, Distinct, lookup-insert, lookup-delete, insert-Distinct, delete-Distinct,
  length-delete, length-insert,
}
use jetstream_router.Handler.Window.{Entry, Element, remove_element, value, move_to_front, back}

-- Whether some entry of the list has the key.
unfoldable pub has_key : Str → List Entry → Bool
has_key k [] = false
has_key k (e ∷ es) = e.key == k || has_key k es

abbrev pub Unique : List Entry → Type 0
Unique [] = Unit
Unique (e ∷ es) = (has_key e.key es ≡ false) × Unique es

pub has_key-remove_element :
    (k j : Str) (es : List Entry)
    → Unique es
    → has_key j (remove_element k es) ≡ (if k == j then false else has_key j es)
unfolding has_key remove_element
has_key-remove_element k j [] u = ground arith
has_key-remove_element k j (e ∷ es) u =
    ground (arith, has_key-remove_element k j es u.1, eq_iff e.key k, eq_iff e.key j, eq_iff k j)

pub remove_element-Unique : (k : Str) (es : List Entry) → Unique es → Unique (remove_element k es)
unfolding remove_element
remove_element-Unique k [] u = tt
remove_element-Unique k (e ∷ es) u =
    ground (arith, has_key-remove_element k e.key es u.1, remove_element-Unique k es u.1)

pub length-remove_element :
    (k : Str) (es : List Entry) → has_key k es ≡ true → length (remove_element k es) + 1 ≡ length es
unfolding has_key remove_element
length-remove_element k [] h = cc
length-remove_element k (e ∷ es) h = ground (arith, length-remove_element k es)

pub key-value : (k : Str) (es : List Entry) → (value k es).key ≡ k
unfolding value
key-value k [] = refl
key-value k (e ∷ es) = ground (arith, key-value k es, eq_iff e.key k)

-- The entry at the back is the last of the list.
pub back_split :
    (es : List Entry) (e : Entry) → back es ≡ some e → (front : List Entry) × (es ≡ front ++ e ∷ [])
unfolding back
back_split [] e h = cc
back_split (x ∷ []) e h = ([], ground arith)
back_split (x ∷ y ∷ es) e h =
    let (front, same) = back_split (y ∷ es) e h in (x ∷ front, ap (◌∷◌ x) same)

pub back-none : (es : List Entry) → back es ≡ none → es ≡ []
unfolding back
back-none [] h = refl
back-none (x ∷ []) h = cc
back-none (x ∷ y ∷ es) h = absurd (ne (back-none (y ∷ es) h))
  where
    ne : (y ∷ es) ≡ [] → ⊥
    ne e = cc

pub has_key-concat : (front : List Entry) (e : Entry) → has_key e.key (front ++ e ∷ []) ≡ true
unfolding has_key
has_key-concat [] e = ground (arith, eq_refl e.key)
has_key-concat (x ∷ front) e = ground (arith, has_key-concat front e)

pub remove_element_back :
    (front : List Entry) (e : Entry)
    → Unique (front ++ e ∷ [])
    → remove_element e.key (front ++ e ∷ []) ≡ front
unfolding remove_element
remove_element_back [] e u = ground (arith, eq_refl e.key)
remove_element_back (x ∷ front) e u =
    ground (arith, remove_element_back front e u.1, eq_iff x.key e.key, has_key-concat front e)

-- The map holds exactly the keys of the list, each with its element.
pub record IsLinked (m : List (Str × Element)) (es : List Entry) : Type 0 where
  pub agree : (k : Str) → lookup k m ≡ (if has_key k es then some k else none)
  pub distinct : Distinct m
  pub unique : Unique es
  pub same_size : length m ≡ length es

pub IsLinked-push :
    {m : List (Str × Element)} {es : List Entry} (k : Str) (stamps : List _)
    → lookup k m ≡ none
    → IsLinked m es
    → IsLinked (insert k k m) (record { key = k; stamps = stamps } ∷ es)
unfolding has_key
IsLinked-push {m} {es} k stamps h l = record {
  agree = λ j. ground (arith, lookup-insert k j k m, l.agree j, eq_iff k j);
  distinct = insert-Distinct k k m l.distinct;
  unique = (ground (arith, l.agree k), l.unique);
  same_size = ground (arith, length-insert k k m, l.same_size);
}

pub IsLinked-remove :
    {m : List (Str × Element)} {es : List Entry} (k : Str)
    → has_key k es ≡ true
    → IsLinked m es
    → IsLinked (delete k m) (remove_element k es)
IsLinked-remove {m} {es} k h l = record {
  agree = λ j.
      ground
        (arith, lookup-delete k j m, has_key-remove_element k j es l.unique, l.agree j, eq_iff k j);
  distinct = delete-Distinct k m l.distinct;
  unique = remove_element-Unique k es l.unique;
  same_size =
      let found : lookup k m ≡ some k = ground (arith, l.agree k) in
      omega
        (arith, length-delete k m k l.distinct found, length-remove_element k es h, l.same_size);
}

-- Only the keys of the list and their order matter to the map.
pub IsLinked-move :
    {m : List (Str × Element)} {es : List Entry} (k : Str)
    → has_key k es ≡ true
    → IsLinked m es
    → IsLinked m (move_to_front k es)
unfolding has_key
IsLinked-move {m} {es} k h l = record {
  agree = λ j. ground (
    arith,
    l.agree j,
    has_key-remove_element k j es l.unique,
    key-value k es,
    eq_iff k j,
    eq_iff (value k es).key j,
  );
  distinct = l.distinct;
  unique = (
    ground (
      arith,
      key-value k es,
      has_key-remove_element k (value k es).key es l.unique,
      eq_iff k (value k es).key,
    ),
    remove_element-Unique k es l.unique,
  );
  same_size = omega (arith, length-remove_element k es h, l.same_size);
}

-- To change the stamps of the first entry leaves the keys as they are.
pub IsLinked-restamp :
    {m : List (Str × Element)} {es : List Entry} (e : Entry) (stamps : List _)
    → IsLinked m (e ∷ es)
    → IsLinked m (record e { stamps = stamps } ∷ es)
unfolding has_key
IsLinked-restamp e stamps l = record {
  agree = l.agree;
  distinct = l.distinct;
  unique = l.unique;
  same_size = l.same_size;
}
