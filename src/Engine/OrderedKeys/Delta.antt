-- ===== src/Engine/OrderedKeys/Delta.antt =====
-- The two loops over the mutations of a batch, against what the batch says of each key.
use gapdb.Prelude.{
  Bool, true, false, not, ◌&&◌, ◌||◌, List, [], ◌∷◌, ◌++◌, Bytes, arith, ◌≡◌, refl, sym, inl, inr,
  Bool-cases, All, All-append, key_lt, key_eq, if◌then◌else◌,
}
use mathlib.Core.List.{append_assoc, append-nil}
use gapdb.Prelude.Keys.{key_eq→eq, key_lt_trans}
use gapdb.Prelude.Sorted.{has, Above, IsOrdered, IsDistinct, found-has}
use gapdb.Api.Types.{Mutation, keys_of, IsKnown}
use gapdb.Engine.OrderedKeys.{
  Survey, is_delete, last_key, not_after, survey, survey_one, removals, merge_additions,
}

-- What the batch does to a key: the mutation of that key decides, if there is one.
unfoldable pub present_after : Bytes → List Mutation → Bool → Bool
present_after k [] b = b
present_after k (m ∷ rest) b =
    present_after k rest (if key_eq m.key k then not (is_delete m.kind) else b)

has-removals_fresh :
    (k : Bytes) (base : List Bytes) (ms : List Mutation)
    → has k (keys_of ms) ≡ false
    → has k (removals base ms) ≡ false
unfolding has removals
has-removals_fresh k base [] h = refl
has-removals_fresh k base (m ∷ rest) h = ground (arith, has-removals_fresh k base rest)

has-additions_fresh :
    (k : Bytes) (base : List Bytes) (ms : List Mutation)
    → has k (keys_of ms) ≡ false
    → has k (merge_additions base ms) ≡ false
unfolding has merge_additions
has-additions_fresh k base [] h = refl
has-additions_fresh k base (m ∷ rest) h = ground (arith, has-additions_fresh k base rest)

present_after_fresh :
    (k : Bytes) (ms : List Mutation) (b : Bool)
    → has k (keys_of ms) ≡ false
    → present_after k ms b ≡ b
unfolding has present_after
present_after_fresh k [] b h = refl
present_after_fresh k (m ∷ rest) b h = ground (arith, present_after_fresh k rest b)

pub additions-IsDistinct :
    (base : List Bytes) (ms : List Mutation)
    → IsDistinct (keys_of ms)
    → IsDistinct (merge_additions base ms)
unfolding merge_additions
additions-IsDistinct base [] d = tt
additions-IsDistinct base (m ∷ rest) d =
    ground (arith, has-additions_fresh m.key base rest d.0, additions-IsDistinct base rest d.1)

pub additions-fresh :
    (base : List Bytes) (ms : List Mutation)
    → IsOrdered base
    → All (λ a. has a base ≡ false) (merge_additions base ms)
unfolding merge_additions
additions-fresh base [] o = tt
additions-fresh base (m ∷ rest) o =
    ground (arith, additions-fresh base rest o, found-has base m.key o)

same_has : (j k : Bytes) (xs : List Bytes) → key_eq j k ≡ true → has j xs ≡ has k xs
same_has j k xs e = cc (key_eq→eq j k e)

-- The three ways that the new index is described agree.
pub delta-present_after :
    (k : Bytes) (base : List Bytes) (ms : List Mutation)
    → IsOrdered base
    → IsDistinct (keys_of ms)
    → ((has k base && not (has k (removals base ms))) || has k (merge_additions base ms))
      ≡ present_after k ms (has k base)
unfolding has removals merge_additions present_after
delta-present_after k base [] o d = ground arith
delta-present_after k base (m ∷ rest) o d = elim (Bool-cases (key_eq m.key k)) [
  | inr other ↦ ground (arith, delta-present_after k base rest o d.1)
  | inl here ↦ ground (
    arith,
    found-has base m.key o,
    same_has m.key k base here,
    same_has m.key k (keys_of rest) here,
    has-removals_fresh k base rest,
    has-additions_fresh k base rest,
    present_after_fresh k rest true,
    present_after_fresh k rest false,
  )
]

-- What the first loop finds, against the two lists of the merge.
pub survey-additions :
    (keys : List Bytes) (s : Survey) (ms : List Mutation)
    → IsKnown ms
    → (survey keys s ms).additions ≡ s.additions ++ merge_additions keys ms
unfolding survey merge_additions
survey-additions keys s [] kn = sym (append-nil s.additions)
survey-additions keys s (m ∷ rest) kn = ground (
  arith,
  survey-additions keys (survey_one keys s m) rest kn.1,
  append_assoc s.additions (m.key ∷ []) (merge_additions keys rest),
)

pub survey_unchanged :
    (keys : List Bytes) (s : Survey) (ms : List Mutation)
    → IsKnown ms
    → (survey keys s ms).changed ≡ false
    → (s.changed ≡ false) × (removals keys ms ≡ []) × (merge_additions keys ms ≡ [])
unfolding survey removals merge_additions
survey_unchanged keys s [] kn e = (e, refl, refl)
survey_unchanged keys s (m ∷ rest) kn e =
    ground (arith, survey_unchanged keys (survey_one keys s m) rest kn.1 e)

abbrev pub AfterLast : List Bytes → Bytes → Type 0
AfterLast keys k = not_after (last_key keys) k ≡ false

pub survey_no_merge :
    (keys : List Bytes) (s : Survey) (ms : List Mutation)
    → IsKnown ms
    → (survey keys s ms).bulk_merge ≡ false
    → (s.bulk_merge ≡ false)
      × (removals keys ms ≡ [])
      × All (AfterLast keys) (merge_additions keys ms)
unfolding survey removals merge_additions
survey_no_merge keys s [] kn e = (e, refl, tt)
survey_no_merge keys s (m ∷ rest) kn e =
    ground (arith, survey_no_merge keys (survey_one keys s m) rest kn.1 e)

above_of_not_after : (x k : Bytes) → key_eq x k ≡ false → not_after x k ≡ false → key_lt x k ≡ true
unfolding key_lt key_eq
above_of_not_after [] [] d a = cc
above_of_not_after [] (y ∷ ys) d a = refl
above_of_not_after (x ∷ xs) k d a = ground arith

-- An addition that is not in the index, and is not refused as too small, lies above every key.
after_last :
    (k : Bytes) (keys : List Bytes)
    → IsOrdered keys
    → has k keys ≡ false
    → AfterLast keys k
    → All (λ x. key_lt x k ≡ true) keys
unfolding has last_key
after_last k [] o h a = tt
after_last k (x ∷ []) o h a = (above_of_not_after x k (ground arith) a, tt)
after_last k (x ∷ y ∷ rest) o h a =
    let later = after_last k (y ∷ rest) o.1 (ground arith) a in
    (key_lt_trans x y k o.0.0 later.0, later)

pub append-IsOrdered :
    (keys adds : List Bytes)
    → IsOrdered keys
    → IsOrdered adds
    → All (λ a. All (λ x. key_lt x a ≡ true) keys) adds
    → IsOrdered (keys ++ adds)
append-IsOrdered [] adds o p h = p
append-IsOrdered (x ∷ xs) adds o p h =
    (All-append _ xs adds o.0 (heads adds h), append-IsOrdered xs adds o.1 p (tails adds h))
  where
    heads : (as' : List Bytes) → All (λ a. All (λ y. key_lt y a ≡ true) (x ∷ xs)) as' → Above x as'
    heads [] h' = tt
    heads (a ∷ as') h' = (h'.0.0, heads as' h'.1)

    tails :
        (as' : List Bytes)
        → All (λ a. All (λ y. key_lt y a ≡ true) (x ∷ xs)) as'
        → All (λ a. All (λ y. key_lt y a ≡ true) xs) as'
    tails [] h' = tt
    tails (a ∷ as') h' = (h'.0.1, tails as' h'.1)

pub all-AfterLast :
    (keys adds : List Bytes)
    → IsOrdered keys
    → All (λ a. has a keys ≡ false) adds
    → All (AfterLast keys) adds
    → All (λ a. All (λ x. key_lt x a ≡ true) keys) adds
all-AfterLast keys [] o f a = tt
all-AfterLast keys (k ∷ adds) o f a =
    (after_last k keys o f.0 a.0, all-AfterLast keys adds o f.1 a.1)
