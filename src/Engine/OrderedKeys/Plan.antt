-- ===== src/Engine/OrderedKeys/Plan.antt =====
-- The index after a batch is ordered, and holds exactly the keys that the batch leaves.
use gapdb.Prelude.{
  false, not, ◌&&◌, ◌||◌, List, [], ◌++◌, Bytes, arith, ◌≡◌, ◌∙◌, inl, inr, Bool-cases, All, leb,
  length, ◌+◌,
}
use mathlib.Core.List.{append-nil}
use gapdb.Prelude.Sorted.{
  has, IsOrdered, IsDistinct, has-append, sort_strings, has-sort_strings, sort_strings-All,
  sort_strings-IsOrdered,
}
use gapdb.Api.Types.{Mutation, keys_of, IsKnown}
use gapdb.Engine.OrderedKeys.{
  KeyIndex, Survey, survey, removals, merge_additions, merge_ordered_key_delta, plan_ordered_keys,
  install_plan,
}
use gapdb.Engine.OrderedKeys.Merge.{has-merge, merge-IsOrdered}
use gapdb.Engine.OrderedKeys.Delta.{
  present_after, additions-IsDistinct, additions-fresh, delta-present_after, survey-additions,
  survey_unchanged, AfterLast, survey_no_merge, append-IsOrdered, all-AfterLast,
}

-- An index is right for a batch if it is ordered and holds the keys that the two lists say.
abbrev Describes : List Bytes → List Mutation → List Bytes → Type 0
Describes base ms keys =
    IsOrdered keys
    × ((k : Bytes)
        → has k keys
          ≡ ((has k base && not (has k (removals base ms))) || has k (merge_additions base ms)))

module _ (base : List Bytes) (ms : List Mutation) (o : IsOrdered base)
    (d : IsDistinct (keys_of ms)) where
  sorted_additions-fresh : All (λ a. has a base ≡ false) (sort_strings (merge_additions base ms))
  sorted_additions-fresh = sort_strings-All _ _ (additions-fresh base ms o)

  unchanged-Describes :
      removals base ms ≡ [] → merge_additions base ms ≡ [] → Describes base ms base
  unfolding has
  unchanged-Describes r a = (o, λ k. ground (arith))

  appended-Describes :
      removals base ms ≡ []
      → All (AfterLast base) (merge_additions base ms)
      → Describes base ms (base ++ sort_strings (merge_additions base ms))
  unfolding has
  appended-Describes r a = (
    append-IsOrdered base _ o (sort_strings-IsOrdered _ (additions-IsDistinct base ms d))
        (all-AfterLast base _ o sorted_additions-fresh (sort_strings-All _ _ a)),
    λ k. ground (
      arith,
      has-append k base (sort_strings (merge_additions base ms)),
      has-sort_strings k (merge_additions base ms),
    ),
  )

  merged-Describes : Describes base ms (merge_ordered_key_delta base ms).keys
  unfolding merge_ordered_key_delta
  merged-Describes = (
    merge-IsOrdered _ base _ o (sort_strings-IsOrdered _ (additions-IsDistinct base ms d))
        sorted_additions-fresh,
    λ k. ground (
      arith,
      has-merge k (removals base ms) base (sort_strings (merge_additions base ms)),
      has-sort_strings k (merge_additions base ms),
    ),
  )

abbrev blank : Survey
blank = record { changed = false; bulk_merge = false; additions = [] }

install_plan-Describes :
    (index : KeyIndex) (ms : List Mutation)
    → IsOrdered index.keys
    → IsKnown ms
    → IsDistinct (keys_of ms)
    → Describes index.keys ms (install_plan index (plan_ordered_keys index ms)).keys
unfolding install_plan plan_ordered_keys
install_plan-Describes index ms o kn d = elim (Bool-cases (survey index.keys blank ms).changed) [
  | inr same ↦
      let (_, r, a) = survey_unchanged index.keys blank ms kn same in
      rw (same, append-nil index.keys) (unchanged-Describes index.keys ms o d r a)
  | inl changed ↦ elim (Bool-cases (survey index.keys blank ms).bulk_merge) [
    | inl bulk ↦ rw (changed, bulk) (merged-Describes index.keys ms o d)
    | inr plain ↦
        let (_, r, a) = survey_no_merge index.keys blank ms kn plain in
        rw (changed, plain, survey-additions index.keys blank ms kn)
          (elim (Bool-cases (
            leb (length index.keys + length (sort_strings (merge_additions index.keys ms)))
              index.capacity)) [
                | inl fits ↦ rw fits (appended-Describes index.keys ms o d r a)
                | inr grows ↦ rw grows (appended-Describes index.keys ms o d r a)
              ])
  ]
]

-- If the index is strictly ordered, and the mutations are puts and deletes of distinct keys, then
-- the index after the plan is strictly ordered, and a key is in it exactly if the mutation of
-- that key puts it, or if it was there and no mutation deletes it.
pub install_plan-present_after :
    (index : KeyIndex) (ms : List Mutation)
    → IsOrdered index.keys
    → IsKnown ms
    → IsDistinct (keys_of ms)
    → IsOrdered (install_plan index (plan_ordered_keys index ms)).keys
      × ((k : Bytes)
          → has k (install_plan index (plan_ordered_keys index ms)).keys
            ≡ present_after k ms (has k index.keys))
install_plan-present_after index ms o kn d =
    let (ordered, holds) = install_plan-Describes index ms o kn d in
    (ordered, λ k. holds k ∙ delta-present_after k index.keys ms o d)
