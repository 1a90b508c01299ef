-- ===== src/Prelude/Slices.antt =====
-- Go slices of byte buffers: a cut by offsets, the zero bytes, and a case split on a fixed length.
use gapdb.Prelude.Tests.{◌==◌}
use gapdb.Prelude.Lists.{length, take, drop}
use gapdb.Prelude.Keys.{Bytes}
use Prim.Native.Nat.{ℕ, zero, suc, ◌-◌}
use mathlib.Core.Path.{◌≡◌}
use mathlib.Core.Bool.{Bool, true, ◌&&◌}
use mathlib.Core.List.{[], ◌∷◌}
use native.Mathlib.Omega.{arith}

-- `buffer[from:to]`
abbrev pub slice : ℕ → ℕ → Bytes → Bytes
slice from to buffer = take (to - from) (drop from buffer)

-- `buffer[index]`, 0 past the end, which the code does not reach
abbrev pub byte_at : ℕ → Bytes → ℕ
byte_at zero [] = 0
byte_at zero (b ∷ bs) = b
byte_at (suc n) [] = 0
byte_at (suc n) (b ∷ bs) = byte_at n bs

-- `make([]byte, n)`
abbrev pub zeros : ℕ → Bytes
zeros zero = []
zeros (suc n) = 0 ∷ zeros n

-- `allZero` of internal/persist/identity.go
unfoldable pub all_zero : Bytes → Bool
all_zero [] = true
all_zero (b ∷ bs) = (b == 0) && all_zero bs

-- What is to be shown of the buffers of a length, byte by byte.
abbrev pub Each {κ} : ℕ → (Bytes → Type κ) → Type κ
Each zero P = P []
Each (suc n) P = (b : ℕ) → Each n (λ bs. P (b ∷ bs))

pub each {κ} : (n : ℕ) (P : Bytes → Type κ) → Each n P → (bs : Bytes) → length bs ≡ n → P bs
each zero P p [] h = p
each zero P p (b ∷ bs) h = absurd (omega arith)
each (suc n) P p [] h = absurd (omega arith)
each (suc n) P p (b ∷ bs) h = each n (λ rest. P (b ∷ rest)) (p b) bs (omega arith)
