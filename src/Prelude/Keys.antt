-- ===== src/Prelude/Keys.antt =====
-- Go strings as lists of bytes: equality, the order of `<`, and `strings.HasPrefix`.
use gapdb.Prelude.Tests.{ltb, ◌==◌, if◌then◌else◌}
use Prim.Native.Nat.{ℕ}
use mathlib.Core.Path.{◌≡◌, refl}
use mathlib.Core.Bool.{Bool, true, false, ◌&&◌}
use mathlib.Core.List.{List, [], ◌∷◌}
use native.Mathlib.Omega.{arith}

abbrev pub Bytes : Type 0
Bytes = List ℕ

unfoldable pub key_eq : Bytes → Bytes → Bool
key_eq [] [] = true
key_eq [] (y ∷ ys) = false
key_eq (x ∷ xs) [] = false
key_eq (x ∷ xs) (y ∷ ys) = (x == y) && key_eq xs ys

-- Bytewise, a proper prefix first.
unfoldable pub key_lt : Bytes → Bytes → Bool
key_lt [] [] = false
key_lt [] (y ∷ ys) = true
key_lt (x ∷ xs) [] = false
key_lt (x ∷ xs) (y ∷ ys) = if ltb x y then true else (x == y) && key_lt xs ys

unfoldable pub has_prefix : Bytes → Bytes → Bool
has_prefix xs [] = true
has_prefix [] (y ∷ ys) = false
has_prefix (x ∷ xs) (y ∷ ys) = (x == y) && has_prefix xs ys

pub key_eq→eq : (a b : Bytes) → key_eq a b ≡ true → a ≡ b
unfolding key_eq
key_eq→eq [] [] h = refl
key_eq→eq [] (y ∷ ys) h = cc
key_eq→eq (x ∷ xs) [] h = cc
key_eq→eq (x ∷ xs) (y ∷ ys) h = ground (arith, key_eq→eq xs ys)

pub key_eq_refl : (a : Bytes) → key_eq a a ≡ true
unfolding key_eq
key_eq_refl [] = refl
key_eq_refl (x ∷ xs) = ground (arith, key_eq_refl xs)

pub key_lt_irrefl : (a : Bytes) → key_lt a a ≡ false
unfolding key_lt
key_lt_irrefl [] = refl
key_lt_irrefl (x ∷ xs) = ground (arith, key_lt_irrefl xs)

pub key_lt_trans : (a b c : Bytes) → key_lt a b ≡ true → key_lt b c ≡ true → key_lt a c ≡ true
unfolding key_lt
key_lt_trans [] [] c h k = cc
key_lt_trans [] (y ∷ ys) [] h k = k
key_lt_trans [] (y ∷ ys) (z ∷ zs) h k = refl
key_lt_trans (x ∷ xs) [] c h k = cc
key_lt_trans (x ∷ xs) (y ∷ ys) [] h k = cc
key_lt_trans (x ∷ xs) (y ∷ ys) (z ∷ zs) h k = ground (arith, key_lt_trans xs ys zs)

pub key_lt_total : (a b : Bytes) → key_lt a b ≡ false → key_eq a b ≡ false → key_lt b a ≡ true
unfolding key_lt key_eq
key_lt_total [] [] h k = cc
key_lt_total [] (y ∷ ys) h k = cc
key_lt_total (x ∷ xs) [] h k = refl
key_lt_total (x ∷ xs) (y ∷ ys) h k = ground (arith, key_lt_total xs ys)

pub key_lt-ne : (a b : Bytes) → key_lt a b ≡ true → key_eq a b ≡ false
unfolding key_lt key_eq
key_lt-ne [] [] h = cc
key_lt-ne [] (y ∷ ys) h = refl
key_lt-ne (x ∷ xs) [] h = refl
key_lt-ne (x ∷ xs) (y ∷ ys) h = ground (arith, key_lt-ne xs ys)

pub key_eq_sym : (a b : Bytes) → key_eq a b ≡ key_eq b a
unfolding key_eq
key_eq_sym [] [] = refl
key_eq_sym [] (y ∷ ys) = refl
key_eq_sym (x ∷ xs) [] = refl
key_eq_sym (x ∷ xs) (y ∷ ys) = ground (arith, key_eq_sym xs ys)

pub key_lt_asym : (a b : Bytes) → key_lt a b ≡ true → key_lt b a ≡ false
unfolding key_lt
key_lt_asym [] [] h = cc
key_lt_asym [] (y ∷ ys) h = refl
key_lt_asym (x ∷ xs) [] h = cc
key_lt_asym (x ∷ xs) (y ∷ ys) h = ground (arith, key_lt_asym xs ys)
