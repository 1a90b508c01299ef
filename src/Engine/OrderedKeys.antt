-- ===== src/Engine/OrderedKeys.antt =====
-- internal/engine/writer.go: the plan of the ordered key index, made before a revision is
-- allocated, and its installation when the batch is published.
pub mod Merge
pub mod Delta
pub mod Plan
use gapdb.Prelude.{
  ℕ, ◌+◌, ◌-◌, ◌*◌, ◌&&◌, ◌||◌, not, Bool, true, false, Option, none, some, List, [], ◌∷◌, ◌++◌,
  Bytes, length, ltb, leb, if◌then◌else◌, key_lt, key_eq,
}
use Prim.Native.Nat.{max}
use gapdb.Prelude.Sorted.{has, sort_strings, found}
use gapdb.Api.Types.{Mutation, MutationKind}

-- The slice `orderedKeys`, with its capacity.
pub record KeyIndex : Type 0 where
  pub keys : List Bytes
  pub capacity : ℕ

-- `replacement` is none where the Go slice is nil.
pub record OrderedKeyPlan : Type 0 where
  pub replacement : Option KeyIndex
  pub tail : List Bytes

abbrev pub is_delete : MutationKind → Bool
is_delete MutationKind.delete = true
is_delete _ = false

abbrev pub is_put : MutationKind → Bool
is_put MutationKind.put = true
is_put _ = false

-- The last key, or the empty text.
unfoldable pub last_key : List Bytes → Bytes
last_key [] = []
last_key (k ∷ []) = k
last_key (k ∷ j ∷ rest) = last_key (j ∷ rest)

-- `last != "" && key <= last`
abbrev pub not_after : Bytes → Bytes → Bool
not_after [] key = false
not_after (b ∷ bs) key = not (key_lt (b ∷ bs) key)

-- The variables of the first loop of `planOrderedKeys`.
pub record Survey : Type 0 where
  pub changed : Bool
  pub bulk_merge : Bool
  pub additions : List Bytes

abbrev pub survey_one : List Bytes → Survey → Mutation → Survey
survey_one keys s m =
    let exists = found keys m.key in
    let deleted = is_delete m.kind && exists in
    let added = is_put m.kind && not exists in
    record {
      changed = s.changed || deleted || added;
      bulk_merge = s.bulk_merge || deleted || (added && not_after (last_key keys) m.key);
      additions = if added then s.additions ++ (m.key ∷ []) else s.additions;
    }

pub survey : List Bytes → Survey → List Mutation → Survey
survey keys s [] = s
survey keys s (m ∷ rest) = survey keys (survey_one keys s m) rest

-- The keys that `mergeOrderedKeyDelta` removes from the base, in the order of the batch.
pub removals : List Bytes → List Mutation → List Bytes
removals base [] = []
removals base (m ∷ rest) =
    if is_delete m.kind && found base m.key then m.key ∷ removals base rest else removals base rest

-- The keys that it adds.
pub merge_additions : List Bytes → List Mutation → List Bytes
merge_additions base [] = []
merge_additions base (m ∷ rest) =
    if not (is_delete m.kind) && not (found base m.key)
    then m.key ∷ merge_additions base rest
    else merge_additions base rest

-- Its last loop, over what is left of the base and of the sorted additions.
pub merge : List Bytes → List Bytes → List Bytes → List Bytes
merge removed [] [] = []
merge removed [] (a ∷ as') = a ∷ merge removed [] as'
merge removed (b ∷ bs) [] =
    let rest = merge removed bs [] in if has b removed then rest else b ∷ rest
merge removed (b ∷ bs) (a ∷ as') =
    let past_base = merge removed bs (a ∷ as') in
    let past_addition = merge removed (b ∷ bs) as' in
    if has b removed then past_base else if key_lt b a then b ∷ past_base else a ∷ past_addition

-- `mergeOrderedKeyDelta`
pub merge_ordered_key_delta : List Bytes → List Mutation → KeyIndex
unfolding removals merge_additions merge
merge_ordered_key_delta base mutations =
    let removed = removals base mutations in
    let additions = merge_additions base mutations in
    record {
      keys = merge removed base (sort_strings additions);
      capacity = length base + length additions - length removed;
    }

abbrev pub no_plan : OrderedKeyPlan
no_plan = record { replacement = none; tail = [] }

abbrev pub grown_plan : KeyIndex → List Bytes → OrderedKeyPlan
grown_plan index additions = record {
  replacement = some (record {
    keys = index.keys ++ additions;
    capacity = max 16 (max (index.capacity * 2) (length index.keys + length additions));
  });
  tail = [];
}

-- `planOrderedKeys`
unfoldable pub plan_ordered_keys : KeyIndex → List Mutation → OrderedKeyPlan
unfolding survey merge_ordered_key_delta
plan_ordered_keys index mutations =
    let s =
      survey index.keys (record { changed = false; bulk_merge = false; additions = [] })
        mutations in
    let additions = sort_strings s.additions in
    if not s.changed
    then no_plan
    else if not s.bulk_merge
    then if leb (length index.keys + length additions) index.capacity
      then record { replacement = none; tail = additions }
      else grown_plan index additions
    else record { replacement = some (merge_ordered_key_delta index.keys mutations); tail = [] }

-- The installation of a plan by `execute`.
unfoldable pub install_plan : KeyIndex → OrderedKeyPlan → KeyIndex
install_plan index plan = elim plan.replacement [
  | some replacement ↦ replacement
  | none ↦ record index { keys = index.keys ++ plan.tail }
]
