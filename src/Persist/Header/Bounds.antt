-- ===== src/Persist/Header/Bounds.antt =====
-- The fields of an identity that was decoded are of the sizes that the file has for them.
use mathlib.Core.Path.{subst}
use gapdb.Prelude.{
  ℕ, zero, suc, ◌^◌, ◌<◌, ◌==◌, ◌||◌, not, [], ◌∷◌, Bytes, key_eq, length, take, drop, All, ◌≡◌,
  arith, length-take, length-drop,
}
use gapdb.Prelude.BigEndian.{be16, be32, be64}
use gapdb.Prelude.Crc.{crc32c}
use gapdb.Prelude.Slices.{slice, all_zero}
use gapdb.Api.Errors.{Error, ok, reject, >>=-eq-ok}
use gapdb.Persist.Header.{
  Identity, decode_identity, identity_magic, header_size, storage_version, is_zero_id,
}

-- Every item is a byte.
abbrev pub IsBytes : Bytes → Type 0
IsBytes = All (λ b. b < 256)

pub take-IsBytes : (n : ℕ) (xs : Bytes) → IsBytes xs → IsBytes (take n xs)
take-IsBytes zero xs h = tt
take-IsBytes (suc n) [] h = tt
take-IsBytes (suc n) (x ∷ xs) h = (h.0, take-IsBytes n xs h.1)

pub drop-IsBytes : (n : ℕ) (xs : Bytes) → IsBytes xs → IsBytes (drop n xs)
drop-IsBytes zero xs h = h
drop-IsBytes (suc n) [] h = tt
drop-IsBytes (suc n) (x ∷ xs) h = drop-IsBytes n xs h.1

be32-lt : (xs : Bytes) → IsBytes xs → be32 xs < 2 ^ 32
unfolding be32
be32-lt [] h = omega arith
be32-lt (a ∷ []) h = omega arith
be32-lt (a ∷ b ∷ []) h = omega arith
be32-lt (a ∷ b ∷ c ∷ []) h = omega arith
be32-lt (a ∷ b ∷ c ∷ d ∷ rest) h = omega arith

be64-lt : (xs : Bytes) → IsBytes xs → be64 xs < 2 ^ 64
unfolding be64
be64-lt [] h = omega arith
be64-lt (a ∷ []) h = omega arith
be64-lt (a ∷ b ∷ []) h = omega arith
be64-lt (a ∷ b ∷ c ∷ []) h = omega arith
be64-lt (a ∷ b ∷ c ∷ d ∷ rest) h = omega (
  arith,
  be32-lt (a ∷ b ∷ c ∷ d ∷ []) (h.0, (h.1.0, (h.1.1.0, (h.1.1.1.0, tt)))),
  be32-lt rest h.1.1.1.1,
)

-- The fields of an identity are of the sizes that the file has for them.
pub record IsIdentity (i : Identity) : Type 0 where
  pub sixteen : length i.database_id ≡ 16
  pub end_small : i.reserved_revision_end < 2 ^ 64
  pub generation_small : i.generation < 2 ^ 64

sized : (n : ℕ) (e : Error) (u : Unit {0}) → reject (not (n == header_size)) e ≡ ok u → n ≡ 64
sized n e u q = ground (arith, q)

same : (i j : Identity) → ok i ≡ ok j → i ≡ j
same i j q = ground (arith, q)

-- An identity that is decoded from bytes has an id of 16 bytes, and a reservation and a
-- generation below 2^64.
pub decode_identity-IsIdentity :
    (file : Bytes) (i : Identity) → IsBytes file → decode_identity file ≡ ok i → IsIdentity i
unfolding decode_identity
decode_identity-IsIdentity file i bytes q =
    let (_, p, q1) = >>=-eq-ok (reject (not (length file == header_size)) _) _ q in
    let (_, _, q2) = >>=-eq-ok (reject (not (key_eq (take 8 file) identity_magic)) _) _ q1 in
    let (_, _, q3) = >>=-eq-ok (reject (not (be16 (slice 8 10 file) == storage_version)) _) _ q2 in
    let (_, _, q4) = >>=-eq-ok (reject (not (be16 (slice 10 12 file) == header_size)) _) _ q3 in
    let (_, _, q5) = >>=-eq-ok (reject (not (all_zero (slice 44 60 file))) _) _ q4 in
    let (_, _, q6) =
      >>=-eq-ok (reject (not (crc32c (take 60 file) == be32 (slice 60 64 file))) _) _ q5 in
    let (_, _, q7) =
      >>=-eq-ok (reject (is_zero_id (slice 12 28 file) || be64 (slice 36 44 file) == 0) _) _ q6 in
    let size : length file ≡ 64 = sized (length file) _ _ p in
    let left = length-drop 12 file (omega arith) in
    let made = same _ i q7 in
    subst IsIdentity made (record {
      sixteen = length-take 16 (drop 12 file) (omega arith);
      end_small =
          be64-lt (slice 28 36 file) (take-IsBytes 8 (drop 28 file) (drop-IsBytes 28 file bytes));
      generation_small =
          be64-lt (slice 36 44 file) (take-IsBytes 8 (drop 36 file) (drop-IsBytes 36 file bytes));
    })
