-- ===== src/Engine/Revision.antt =====
-- internal/engine/revision.go: revisions handed out from durably reserved ranges.
pub mod Increasing
use gapdb.Prelude.{
  ℕ, ◌+◌, ◌-◌, ◌%◌, ◌^◌, ◌||◌, Bool, true, false, Option, none, some, ltb, leb, ◌==◌, if◌then◌else◌,
}
use gapdb.Api.Errors.{Error, revision_range_exhausted, Result, ok, err, ◌>>=◌, ◌>>◌, reject}
use gapdb.Persist.Frames.{RevisionRange}

abbrev pub max_uint64 : ℕ
max_uint64 = 2 ^ 64 - 1

pub record RangeAllocator : Type 0 where
  pub next : ℕ
  pub last : ℕ
  pub exhausted : Bool

unfoldable validate_range : RevisionRange → ℕ → Result (Unit {0})
validate_range range after =
    reject (range.first == 0 || leb range.first after || ltb range.last range.first)
      (revision_range_exhausted after)

unfoldable pub new_range_allocator : ℕ → RevisionRange → Result RangeAllocator
unfolding validate_range
new_range_allocator current range = do
  validate_range range current
  ok (record { next = range.first; last = range.last; exhausted = false })

-- The end of `Next`: hand out `next` and step, without wrapping past the largest revision.
take_next : RangeAllocator → ℕ × RangeAllocator
take_next a = (
  a.next,
  if a.next == max_uint64
      then record a { exhausted = true }
      else record a { next = (a.next + 1) % 2 ^ 64 },
)

-- `R` is the storage that the reserve function reads and writes.
abbrev pub Reserve : Type 0 → Type 0
Reserve R = Option (R → ℕ → R × Result RevisionRange)

module _ {R : Type 0} where
  accept : RangeAllocator → R × Result RevisionRange → R × RangeAllocator × Result ℕ
  unfolding take_next validate_range
  accept a (r, err e) = (r, a, err e)
  accept a (r, ok range) = elim (validate_range range a.last) [
    | err e ↦ (r, a, err e)
    | ok _ ↦
        let (revision, a') = take_next (record a { next = range.first; last = range.last }) in
        (r, a', ok revision)
  ]

  refill : Reserve R → R → RangeAllocator → R × RangeAllocator × Result ℕ
  unfolding accept
  refill none r a = (r, a, err (revision_range_exhausted a.last))
  refill (some reserve) r a = accept a (reserve r a.last)

  -- `RangeAllocator.Next`
  unfoldable pub allocate : Reserve R → R → RangeAllocator → R × RangeAllocator × Result ℕ
  unfolding refill take_next
  allocate reserve r a =
      if a.exhausted
      then (r, a, err (revision_range_exhausted a.last))
      else if ltb a.last a.next
      then refill reserve r a
      else let (revision, a') = take_next a in (r, a', ok revision)
