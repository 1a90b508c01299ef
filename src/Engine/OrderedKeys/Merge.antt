-- ===== src/Engine/OrderedKeys/Merge.antt =====
-- The merge of the base with the sorted additions: what it holds, and that it is ordered.
use gapdb.Prelude.{
  true, false, not, ◌&&◌, ◌||◌, List, [], ◌∷◌, Bytes, arith, ◌≡◌, refl, inl, inr, Bool-cases, All,
  key_lt, key_eq,
}
use gapdb.Prelude.Keys.{key_eq→eq, key_lt_total}
use gapdb.Prelude.Sorted.{has, IsOrdered, Above-trans}
use gapdb.Engine.OrderedKeys.{merge}

merge-All {κ} :
    (P : Bytes → Type κ) (removed base adds : List Bytes)
    → All P base
    → All P adds
    → All P (merge removed base adds)
unfolding merge
merge-All P removed [] [] b a = tt
merge-All P removed [] (y ∷ ys) b a = (a.0, merge-All P removed [] ys tt a.1)
merge-All P removed (x ∷ xs) [] b a = elim (Bool-cases (has x removed)) [
  | inl e ↦ rw e (merge-All P removed xs [] b.1 tt)
  | inr e ↦ rw e (b.0, merge-All P removed xs [] b.1 tt)
]
merge-All P removed (x ∷ xs) (y ∷ ys) b a = elim (Bool-cases (has x removed)) [
  | inl e ↦ rw e (merge-All P removed xs (y ∷ ys) b.1 a)
  | inr e ↦ elim (Bool-cases (key_lt x y)) [
    | inl f ↦ rw (e, f) (b.0, merge-All P removed xs (y ∷ ys) b.1 a)
    | inr f ↦ rw (e, f) (a.0, merge-All P removed (x ∷ xs) ys b a.1)
  ]
]

has-same : (x k : Bytes) (xs : List Bytes) → key_eq x k ≡ true → has x xs ≡ has k xs
has-same x k xs e = cc (key_eq→eq x k e)

pub has-merge :
    (k : Bytes) (removed base adds : List Bytes)
    → has k (merge removed base adds) ≡ ((has k base && not (has k removed)) || has k adds)
unfolding merge has
has-merge k removed [] [] = refl
has-merge k removed [] (y ∷ ys) = ground (arith, has-merge k removed [] ys)
has-merge k removed (x ∷ xs) [] = ground (arith, has-merge k removed xs [], has-same x k removed)
has-merge k removed (x ∷ xs) (y ∷ ys) =
    ground (
      arith,
      has-merge k removed xs (y ∷ ys),
      has-merge k removed (x ∷ xs) ys,
      has-same x k removed,
    )

fresh_tail :
    (x : Bytes) (xs adds : List Bytes)
    → All (λ a. has a (x ∷ xs) ≡ false) adds
    → All (λ a. has a xs ≡ false) adds
unfolding has
fresh_tail x xs [] f = tt
fresh_tail x xs (y ∷ ys) f = (ground arith, fresh_tail x xs ys f.1)

pub merge-IsOrdered :
    (removed base adds : List Bytes)
    → IsOrdered base
    → IsOrdered adds
    → All (λ a. has a base ≡ false) adds
    → IsOrdered (merge removed base adds)
unfolding merge
merge-IsOrdered removed [] [] b a f = tt
merge-IsOrdered removed [] (y ∷ ys) b a f = (
  merge-All (λ z. key_lt y z ≡ true) removed [] ys tt a.0,
  merge-IsOrdered removed [] ys tt a.1 f.1,
)
merge-IsOrdered removed (x ∷ xs) [] b a f = elim (Bool-cases (has x removed)) [
  | inl e ↦ rw e (merge-IsOrdered removed xs [] b.1 tt tt)
  | inr e ↦ rw e (
    merge-All (λ z. key_lt x z ≡ true) removed xs [] b.0 tt,
    merge-IsOrdered removed xs [] b.1 tt tt,
  )
]
merge-IsOrdered removed (x ∷ xs) (y ∷ ys) b a f =
    let fresh = fresh_tail x xs (y ∷ ys) f in
    elim (Bool-cases (has x removed)) [
      | inl e ↦ rw e (merge-IsOrdered removed xs (y ∷ ys) b.1 a fresh)
      | inr e ↦ elim (Bool-cases (key_lt x y)) [
        | inl less ↦
            rw (e, less)
              (
                merge-All (λ z. key_lt x z ≡ true) removed xs (y ∷ ys) b.0
                    (less, Above-trans x y ys less a.0),
                merge-IsOrdered removed xs (y ∷ ys) b.1 a fresh,
              )
        | inr f' ↦
            let less : key_lt y x ≡ true = key_lt_total x y f' (unfold has in ground arith) in
            rw (e, f')
              (
                merge-All (λ z. key_lt y z ≡ true) removed (x ∷ xs) ys
                    (less, Above-trans y x xs less b.0) a.0,
                merge-IsOrdered removed (x ∷ xs) ys b a.1 f.1,
              )
      ]
    ]
