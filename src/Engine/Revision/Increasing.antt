-- ===== src/Engine/Revision/Increasing.antt =====
-- The allocator hands out every revision at most once, in increasing order.
use gapdb.Prelude.{ℕ, ◌+◌, ◌^◌, ◌<◌, ◌≤◌, ◌≡◌, refl, true, false, none, some, arith, ◌⊎◌}
use gapdb.Api.Errors.{Result, ok, err}
use gapdb.Persist.Frames.{RevisionRange}
use gapdb.Engine.Revision.{RangeAllocator, Reserve, allocate, accept, new_range_allocator}

-- `issued` is the last revision that was handed out, or the committed revision at the start.
pub record IsAfter (issued : ℕ) (a : RangeAllocator) : Type 0 where
  pub fits : a.last < 2 ^ 64
  pub ahead : (a.exhausted ≡ true) ⊎ ((issued < a.next) × (a.next ≤ a.last + 1))

-- A range that the storage hands over is a pair of uint64.
abbrev pub Fits : {R : Type 0} → Reserve R → Type 0
Fits none = Unit {0}
Fits {R} (some reserve) =
    (r : R) (after : ℕ) (r' : R) (range : RevisionRange)
    → reserve r after ≡ (r', ok range)
    → range.last < 2 ^ 64

-- If the last revision of the range is below 2 ^ 64 and the range is accepted, then the new
-- allocator is ahead of the committed revision.
pub new_range_allocator-IsAfter :
    (current : ℕ) (range : RevisionRange) {a : RangeAllocator}
    → range.last < 2 ^ 64
    → new_range_allocator current range ≡ ok a
    → IsAfter current a
unfolding new_range_allocator
new_range_allocator-IsAfter current range fits e = ground arith

module _ {R : Type 0} where
  accept-IsAfter :
      (issued : ℕ) (a : RangeAllocator) (answer : R × Result RevisionRange) (r : R)
      (a' : RangeAllocator) (revision : ℕ)
      → ((range : RevisionRange) → answer.1 ≡ ok range → range.last < 2 ^ 64)
      → a.exhausted ≡ false
      → issued ≤ a.last
      → accept a answer ≡ (r, a', ok revision)
      → (issued < revision) × (revision < 2 ^ 64) × IsAfter revision a'
  unfolding accept
  accept-IsAfter issued a (s, err e) r a' revision fits x h q = cc
  accept-IsAfter issued a (s, ok range) r a' revision fits x h q = ground (arith, fits range refl)

  -- If reserved ranges are uint64 pairs and the allocator is ahead of the last issued revision,
  -- then an allocated revision is above that one and below 2 ^ 64, and the allocator is ahead of
  -- it in turn.
  pub allocate-IsAfter :
      (reserve : Reserve R) (r : R) (a : RangeAllocator) (issued : ℕ) {r' : R} {a' : RangeAllocator}
      {revision : ℕ}
      → Fits reserve
      → IsAfter issued a
      → allocate reserve r a ≡ (r', a', ok revision)
      → (issued < revision) × (revision < 2 ^ 64) × IsAfter revision a'
  unfolding allocate
  allocate-IsAfter none r a issued fits v e = ground arith
  allocate-IsAfter (some reserve) r a issued {r'} {a'} {revision} fits v e = ground (
    arith,
    accept-IsAfter issued a (reserve r a.last) r' a' revision
        (λ range q. fits r a.last (reserve r a.last).0 range (ground arith)),
  )
