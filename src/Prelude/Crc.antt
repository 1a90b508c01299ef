-- ===== src/Prelude/Crc.antt =====
-- hash/crc32 with the Castagnoli polynomial: the checksum bit by bit, which the table of the
-- library computes byte by byte.
use gapdb.Prelude.Tests.{◌==◌, if◌then◌else◌}
use gapdb.Prelude.Keys.{Bytes}
use Prim.Native.Nat.{ℕ, zero, suc, ◌/◌, ◌%◌, ◌^◌, ◌<◌, bit_xor}
use mathlib.Core.Path.{◌≡◌, refl}
use mathlib.Core.List.{[], ◌∷◌}
use native.Mathlib.Omega.{arith}

-- The reversed polynomial.
abbrev castagnoli : ℕ
castagnoli = 0x82f63b78

crc_bits : ℕ → ℕ → ℕ
crc_bits zero c = c
crc_bits (suc n) c = crc_bits n (if c % 2 == 1 then bit_xor (c / 2) castagnoli else c / 2)

crc_bytes : ℕ → Bytes → ℕ
unfolding crc_bits
crc_bytes c [] = c
crc_bytes c (b ∷ bs) = crc_bytes (crc_bits 8 (bit_xor c b)) bs

-- `crc32.Checksum(bytes, castagnoli)`, a uint32
unfoldable pub crc32c : Bytes → ℕ
unfolding crc_bytes
crc32c bs = bit_xor (crc_bytes 0xffffffff bs) 0xffffffff % 2 ^ 32

pub crc32c-lt : (bs : Bytes) → crc32c bs < 2 ^ 32
unfolding crc32c
crc32c-lt bs = omega arith

-- The check value of the algorithm: the checksum of the digits from 1 to 9.
crc32c_check :
    crc32c (0x31 ∷ 0x32 ∷ 0x33 ∷ 0x34 ∷ 0x35 ∷ 0x36 ∷ 0x37 ∷ 0x38 ∷ 0x39 ∷ []) ≡ 0xe3069283
unfolding crc32c
crc32c_check = refl
