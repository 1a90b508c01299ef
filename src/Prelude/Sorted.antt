-- ===== src/Prelude/Sorted.antt =====
-- Sorted lists of keys: membership, the strict order, `sort.Strings` and `sort.SearchStrings`.
use gapdb.Prelude.Tests.{if◌then◌else◌, Bool-cases}
use gapdb.Prelude.Lists.{All}
use gapdb.Prelude.Keys.{Bytes, key_eq, key_lt, key_eq_sym, key_lt_trans, key_lt_total, key_lt-ne}
use Prim.Native.Nat.{ℕ, suc}
use mathlib.Core.Path.{◌≡◌, refl}
use mathlib.Core.Logic.{inl, inr}
use mathlib.Core.Bool.{Bool, true, false, ◌||◌}
use mathlib.Core.List.{List, [], ◌∷◌, ◌++◌}
use native.Mathlib.Omega.{arith}

unfoldable pub has : Bytes → List Bytes → Bool
has k [] = false
has k (x ∷ xs) = key_eq x k || has k xs

abbrev pub Above : Bytes → List Bytes → Type 0
Above k xs = All (λ x. key_lt k x ≡ true) xs

-- Strictly increasing.
abbrev pub IsOrdered : List Bytes → Type 0
IsOrdered [] = Unit {0}
IsOrdered (x ∷ xs) = Above x xs × IsOrdered xs

pub Above-trans : (j k : Bytes) (xs : List Bytes) → key_lt j k ≡ true → Above k xs → Above j xs
Above-trans j k [] h a = tt
Above-trans j k (x ∷ xs) h a = (key_lt_trans j k x h a.0, Above-trans j k xs h a.1)

pub has-Above : (k : Bytes) (xs : List Bytes) → Above k xs → has k xs ≡ false
unfolding has
has-Above k [] a = refl
has-Above k (x ∷ xs) a = ground (arith, has-Above k xs a.1, key_lt-ne k x a.0, key_eq_sym x k)

pub has-append : (k : Bytes) (xs ys : List Bytes) → has k (xs ++ ys) ≡ (has k xs || has k ys)
unfolding has
has-append k [] ys = refl
has-append k (x ∷ xs) ys = ground (arith, has-append k xs ys)

insert_sorted : Bytes → List Bytes → List Bytes
insert_sorted k [] = k ∷ []
insert_sorted k (x ∷ xs) = if key_lt x k then x ∷ insert_sorted k xs else k ∷ x ∷ xs

-- `sort.Strings`
unfoldable pub sort_strings : List Bytes → List Bytes
unfolding insert_sorted
sort_strings [] = []
sort_strings (k ∷ ks) = insert_sorted k (sort_strings ks)

insert_sorted-All {κ} :
    (P : Bytes → Type κ) (k : Bytes) (xs : List Bytes) → P k → All P xs → All P (insert_sorted k xs)
unfolding insert_sorted
insert_sorted-All P k [] p a = (p, tt)
insert_sorted-All P k (x ∷ xs) p a = elim (Bool-cases (key_lt x k)) [
  | inl e ↦ rw e (a.0, insert_sorted-All P k xs p a.1)
  | inr e ↦ rw e (p, a)
]

pub sort_strings-All {κ} :
    (P : Bytes → Type κ) (ks : List Bytes) → All P ks → All P (sort_strings ks)
unfolding sort_strings
sort_strings-All P [] a = tt
sort_strings-All P (k ∷ ks) a =
    insert_sorted-All P k (sort_strings ks) a.0 (sort_strings-All P ks a.1)

has-insert_sorted :
    (j k : Bytes) (xs : List Bytes) → has j (insert_sorted k xs) ≡ (key_eq k j || has j xs)
unfolding has insert_sorted
has-insert_sorted j k [] = refl
has-insert_sorted j k (x ∷ xs) = ground (arith, has-insert_sorted j k xs)

pub has-sort_strings : (j : Bytes) (ks : List Bytes) → has j (sort_strings ks) ≡ has j ks
unfolding has sort_strings
has-sort_strings j [] = refl
has-sort_strings j (k ∷ ks) =
    ground (arith, has-insert_sorted j k (sort_strings ks), has-sort_strings j ks)

insert_sorted-IsOrdered :
    (k : Bytes) (xs : List Bytes) → has k xs ≡ false → IsOrdered xs → IsOrdered (insert_sorted k xs)
unfolding has insert_sorted
insert_sorted-IsOrdered k [] h o = (tt, tt)
insert_sorted-IsOrdered k (x ∷ xs) h o = elim (Bool-cases (key_lt x k)) [
  | inl e ↦ rw e (
    insert_sorted-All (λ y. key_lt x y ≡ true) k xs e o.0,
    insert_sorted-IsOrdered k xs (ground arith) o.1,
  )
  | inr e ↦
      let less : key_lt k x ≡ true = key_lt_total x k e (ground arith) in
      rw e ((less, Above-trans k x xs less o.0), o)
]

-- No key stands twice.
abbrev pub IsDistinct : List Bytes → Type 0
IsDistinct [] = Unit {0}
IsDistinct (k ∷ ks) = (has k ks ≡ false) × IsDistinct ks

pub sort_strings-IsOrdered : (ks : List Bytes) → IsDistinct ks → IsOrdered (sort_strings ks)
unfolding sort_strings
sort_strings-IsOrdered [] d = tt
sort_strings-IsOrdered (k ∷ ks) d =
    insert_sorted-IsOrdered k (sort_strings ks) (ground (arith, has-sort_strings k ks))
      (sort_strings-IsOrdered ks d.1)

-- `sort.SearchStrings`: the first index whose key is not below `key`.
unfoldable search_strings : List Bytes → Bytes → ℕ
search_strings [] key = 0
search_strings (x ∷ xs) key = if key_lt x key then suc (search_strings xs key) else 0

abbrev pub is_at : List Bytes → ℕ → Bytes → Bool
is_at [] i key = false
is_at (x ∷ xs) ℕ.zero key = key_eq x key
is_at (x ∷ xs) (suc i) key = is_at xs i key

-- `index < len(keys) && keys[index] == key`
unfoldable pub found : List Bytes → Bytes → Bool
unfolding search_strings
found keys key = is_at keys (search_strings keys key) key

-- In an ordered list the search finds exactly the keys that are there.
pub found-has : (keys : List Bytes) (key : Bytes) → IsOrdered keys → found keys key ≡ has key keys
unfolding found has
found-has [] key o = refl
found-has (x ∷ xs) key o = elim (Bool-cases (key_lt x key)) [
  | inl e ↦ ground (arith, found-has xs key o.1, key_lt-ne x key e)
  | inr e ↦ ground (
    arith,
    key_lt_total x key e,
    λ (less : key_lt key x ≡ true). has-Above key xs (Above-trans key x xs less o.0),
  )
]
