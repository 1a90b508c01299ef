-- ===== src/Engine/Clock.antt =====
-- internal/clock/clock.go: the clock that never runs backwards. A reading of the source clock is
-- an argument of each call.
use gapdb.Prelude.{Bool, true, not, Option, none, some, ◌≡◌, arith, if◌then◌else◌}
use gapdb.Prelude.Int.{ltb_ℤ, ◌≤ℤ◌}
use gapdb.Api.Types.{Instant}

-- `latest` is none until the first call.
pub record Nondecreasing : Type 0 where
  pub latest : Option Instant

clamp : Option Instant → Instant → Instant
clamp none now = now
clamp (some latest) now = if ltb_ℤ latest now then now else latest

-- `Nondecreasing.Now`
unfoldable pub clock_now : Nondecreasing → Instant → Instant × Nondecreasing
unfolding clamp
clock_now c source = (clamp c.latest source, record { latest = some (clamp c.latest source) })

-- `IsExpired`
unfoldable pub is_expired : Instant → Instant → Bool
is_expired expires_at now = not (ltb_ℤ now expires_at)

-- The second of two readings of the engine clock is not before the first, whatever the source
-- clock says.
pub clock_now_mono :
    (c : Nondecreasing) (first second : Instant)
    → (clock_now c first).0 ≤ℤ (clock_now (clock_now c first).1 second).0
unfolding clock_now
clock_now_mono c first second = ground arith

-- If a record has expired at one reading of the engine clock, it has expired at the next,
-- whatever the source clock says.
pub is_expired_stays :
    (c : Nondecreasing) (first second expires_at : Instant)
    → is_expired expires_at (clock_now c first).0 ≡ true
    → is_expired expires_at (clock_now (clock_now c first).1 second).0 ≡ true
unfolding is_expired
is_expired_stays c first second expires_at h = ground (arith, clock_now_mono c first second)
