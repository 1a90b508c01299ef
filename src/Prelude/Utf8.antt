-- ===== src/Prelude/Utf8.antt =====
-- `utf8.ValidString` of Go's unicode/utf8, on a list of bytes.
use gapdb.Prelude.Tests.{ltb, leb, ◌==◌, if◌then◌else◌}
use Prim.Native.Nat.{ℕ, zero, suc}
use mathlib.Core.Bool.{Bool, true, false, ◌&&◌}
use mathlib.Core.List.{[], ◌∷◌}
use gapdb.Prelude.Keys.{Bytes}

-- The number of continuation bytes that a leading byte asks for.
continuations : ℕ → ℕ
continuations b = if ltb b 0x80 then 0 else if ltb b 0xe0 then 1 else if ltb b 0xf0 then 2 else 3

is_lead : ℕ → Bool
is_lead b = if ltb b 0x80 then true else leb 0xc2 b && leb b 0xf4

-- The bounds on the first continuation byte, which rule out overlong forms and surrogates.
first_low : ℕ → ℕ
first_low b = if b == 0xe0 then 0xa0 else if b == 0xf0 then 0x90 else 0x80

first_high : ℕ → ℕ
first_high b = if b == 0xed then 0x9f else if b == 0xf4 then 0x8f else 0xbf

valid_from : ℕ → ℕ → ℕ → Bytes → Bool
unfolding continuations is_lead first_low first_high
valid_from zero low high [] = true
valid_from (suc pending) low high [] = false
valid_from zero low high (b ∷ bs) =
    is_lead b && valid_from (continuations b) (first_low b) (first_high b) bs
valid_from (suc pending) low high (b ∷ bs) =
    leb low b && leb b high && valid_from pending 0x80 0xbf bs

unfoldable pub utf8_valid : Bytes → Bool
unfolding valid_from
utf8_valid s = valid_from 0 0x80 0xbf s
