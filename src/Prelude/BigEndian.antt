-- ===== src/Prelude/BigEndian.antt =====
-- encoding/binary: unsigned integers in big-endian byte order.
use Prim.Native.Nat.{ℕ, ◌+◌, ◌*◌, ◌/◌, ◌%◌, ◌^◌, ◌<◌}
use mathlib.Core.Path.{◌≡◌}
use mathlib.Core.List.{[], ◌∷◌}
use native.Mathlib.Omega.{arith}
use gapdb.Prelude.Keys.{Bytes}

-- A read past the end of the slice gives 0; the code reads inside it only.
unfoldable pub be16 : Bytes → ℕ
be16 (a ∷ b ∷ _) = a * 256 + b
be16 _ = 0

unfoldable pub be32 : Bytes → ℕ
be32 (a ∷ b ∷ c ∷ d ∷ _) = ((a * 256 + b) * 256 + c) * 256 + d
be32 _ = 0

unfoldable pub put16 : ℕ → Bytes
put16 n = (n / 256 % 256) ∷ (n % 256) ∷ []

unfoldable pub put32 : ℕ → Bytes
put32 n = (n / 16777216 % 256) ∷ (n / 65536 % 256) ∷ (n / 256 % 256) ∷ (n % 256) ∷ []

unfoldable pub put64 : ℕ → Bytes
unfolding put32
put64 n =
    (n / 72057594037927936 % 256)
    ∷ (n / 281474976710656 % 256)
    ∷ (n / 1099511627776 % 256)
    ∷ (n / 4294967296 % 256)
    ∷ put32 n

unfoldable pub be64 : Bytes → ℕ
unfolding be32
be64 (a ∷ b ∷ c ∷ d ∷ rest) = be32 (a ∷ b ∷ c ∷ d ∷ []) * 4294967296 + be32 rest
be64 _ = 0

pub be16-put16 : (n : ℕ) → n < 2 ^ 16 → be16 (put16 n) ≡ n
unfolding be16 put16
be16-put16 n h = omega arith

pub be32-put32 : (n : ℕ) → n < 2 ^ 32 → be32 (put32 n) ≡ n
unfolding be32 put32
be32-put32 n h = omega arith

pub be64-put64 : (n : ℕ) → n < 2 ^ 64 → be64 (put64 n) ≡ n
unfolding be64 put64 be32
be64-put64 n h = omega arith
