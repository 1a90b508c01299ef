-- ===== src/Persist/Snapshot/Accepted.antt =====
-- What `DecodeSnapshot` accepts, `validateSnapshotState` does not refuse.
use mathlib.Core.Path.{subst}
use gapdb.Prelude.{
  ℕ, zero, suc, ◌+◌, ◌-◌, ◌==◌, ◌||◌, ◌&&◌, not, true, false, Option, none, some, List, [], ◌∷◌,
  Bytes, key_lt, utf8_valid, length, take, drop, ltb, length-take, All, ◌≡◌, refl, arith,
}
use gapdb.Prelude.Keys.{key_lt_trans, key_lt-ne}
use gapdb.Prelude.Sorted.{has}
use gapdb.Prelude.{All, ◌/◌, if◌then◌else◌}
use gapdb.Prelude.Int.{of_uint64}
use gapdb.Prelude.BigEndian.{be32, be64}
use gapdb.Prelude.Slices.{slice, byte_at, all_zero}
use gapdb.Api.Errors.{ok, reject, >>=-eq-ok}
use gapdb.Api.Options.{Limits}
use gapdb.Api.Types.{Record, new_record}
use gapdb.Persist.Recovery.{
  Manifest, SnapshotState, validate_snapshot_state, check_records, unsorted,
}
use gapdb.Persist.Snapshot.{
  decode_record, decode_records, decode_header, decode_snapshot, not_above,
}

-- Records in the order of their keys, behind `last`, each within the snapshot.
Chain : ℕ → Option Bytes → List Record → Type 0
Chain revision last [] = Unit {0}
Chain revision last (r ∷ rest) =
    ((length r.key == 0 || not (utf8_valid r.key) || r.revision == 0 || ltb revision r.revision)
      ≡ false)
    × (not_above last r.key ≡ false)
    × Chain revision (some r.key) rest

taken-nonempty :
    (n : ℕ) (body : Bytes)
    → (n == 0) ≡ false
    → ltb (length body) n ≡ false
    → (length (take n body) == 0) ≡ false
taken-nonempty n body h k = rw (length-take n body (ground (arith, k))) h

same : (x y : Record × ℕ) → ok x ≡ ok y → x ≡ y
same x y q = ground (arith, q)

decode_record-Chain :
    (limits : Limits) (revision offset : ℕ) (last : Option Bytes) (payload : Bytes) (x : Record × ℕ)
    (rest : List Record)
    → decode_record limits revision offset last payload ≡ ok x
    → Chain revision (some x.0.key) rest
    → Chain revision last (x.0 ∷ rest)
unfolding Chain decode_record
decode_record-Chain limits revision offset last payload x rest q later =
    let body = drop 40 payload in
    let key_bytes = be32 (slice 0 4 payload) in
    let value_bytes = be32 (slice 4 8 payload) in
    let (_, _, q1) = >>=-eq-ok (reject (ltb (length payload) 40) _) _ q in
    let flags = byte_at 16 payload in
    let record_revision = be64 (slice 8 16 payload) in
    let nanos = be64 (slice 24 32 payload) in
    let (_, _, q2) =
      >>=-eq-ok
        (reject
          (not (flags / 2 == 0)
            || not (all_zero (slice 17 24 payload))
            || not (all_zero (slice 32 40 payload)))
          _)
        _ q1 in
    let (_, sized, q3) =
      >>=-eq-ok
        (reject
          (key_bytes == 0
            || ltb limits.max_key_bytes key_bytes
            || ltb limits.max_value_bytes value_bytes
            || ltb (length body) key_bytes
            || ltb (length body - key_bytes) value_bytes)
          _)
        _ q2 in
    let (_, p, q4) =
      >>=-eq-ok
        (reject
          (not (utf8_valid (take key_bytes body))
            || record_revision == 0
            || ltb revision record_revision
            || not_above last (take key_bytes body))
          _)
        _ q3 in
    let (_, _, q5) = >>=-eq-ok (reject (not (flags == 1) && not (nanos == 0)) _) _ q4 in
    let some_key : (length (take key_bytes body) == 0) ≡ false =
      taken-nonempty key_bytes body (ground (arith, sized)) (ground (arith, sized)) in
    let read : Record × ℕ = (
      new_record (take key_bytes body) (some (take value_bytes (drop key_bytes body)))
          (be64 (slice 8 16 payload))
          (if byte_at 16 payload == 1 then some (of_uint64 (be64 (slice 24 32 payload))) else none),
      40 + key_bytes + value_bytes,
    ) in
    let chain : Chain revision (some read.0.key) rest → Chain revision last (read.0 ∷ rest) =
      λ l. (ground (arith, p, some_key), ground (arith, p), l) in
    subst
      (λ (y : Record × ℕ). Chain revision (some y.0.key) rest → Chain revision last (y.0 ∷ rest))
      (same read x q5) chain later

decode_records-Chain :
    (limits : Limits) (revision count offset : ℕ) (last : Option Bytes) (payload : Bytes)
    (rs : List Record)
    → decode_records limits revision count offset last payload ≡ ok rs
    → Chain revision last rs
unfolding Chain decode_records
decode_records-Chain limits revision zero offset last payload rs q =
    let (_, _, q1) = >>=-eq-ok (reject (not (length payload == 0)) _) _ q in
    let none_left : [] ≡ rs = ground (arith, q1) in subst (Chain revision last) none_left tt
decode_records-Chain limits revision (suc count) offset last payload rs q =
    let (x, p, q1) = >>=-eq-ok (decode_record limits revision offset last payload) _ q in
    let (rest, p1, q2) =
      >>=-eq-ok
        (decode_records limits revision count (offset + x.1) (some x.0.key) (drop x.1 payload)) _
        q1 in
    let made : (x.0 ∷ rest) ≡ rs = ground (arith, q2) in
    subst (Chain revision last) made (
      decode_record-Chain limits revision offset last payload x rest p (
        decode_records-Chain limits revision count (offset + x.1) (some x.0.key) (drop x.1 payload)
          rest p1))

-- The other way round from `Above`.
Below : Bytes → List Bytes → Type 0
Below k xs = All (λ x. key_lt x k ≡ true) xs

has-Below : (k : Bytes) (xs : List Bytes) → Below k xs → has k xs ≡ false
unfolding Below has
has-Below k [] below = refl
has-Below k (x ∷ xs) below = ground (arith, has-Below k xs below.1, key_lt-ne x k below.0)

Below-trans : (j k : Bytes) (xs : List Bytes) → key_lt j k ≡ true → Below j xs → Below k xs
unfolding Below
Below-trans j k [] h below = tt
Below-trans j k (x ∷ xs) h below = (key_lt_trans x j k below.0 h, Below-trans j k xs h below.1)

-- The keys that were seen, the last first.
IsDescending : List Bytes → Type 0
unfolding Below
IsDescending [] = Unit {0}
IsDescending (p ∷ s) = Below p s

last_seen : List Bytes → Option Bytes
last_seen [] = none
last_seen (p ∷ s) = some p

next_key :
    (k : Bytes) (seen : List Bytes)
    → IsDescending seen
    → not_above (last_seen seen) k ≡ false
    → Below k seen × (unsorted seen k ≡ false)
unfolding IsDescending last_seen Below
next_key k [] below h = (tt, refl)
next_key k (p ∷ s) below h =
    let after : key_lt p k ≡ true = ground (arith, h) in ((after, Below-trans p k s after below), h)

check_records-Chain :
    (revision index : ℕ) (seen : List Bytes) (rs : List Record)
    → IsDescending seen
    → Chain revision (last_seen seen) rs
    → check_records revision index seen rs ≡ ok tt
unfolding Chain check_records IsDescending last_seen
check_records-Chain revision index seen [] below chain = refl
check_records-Chain revision index seen (r ∷ rest) below chain =
    let (behind, sorted) = next_key r.key seen below chain.1 in
    rw chain.0 (
      rw sorted (
        rw (has-Below r.key seen behind)
          (check_records-Chain revision (suc index) (r.key ∷ seen) rest behind chain.2)))

validated :
    (state : SnapshotState) (manifest : Manifest)
    → state.revision ≡ manifest.snapshot_revision
    → Chain state.revision none state.records
    → validate_snapshot_state state manifest ≡ ok tt
unfolding validate_snapshot_state IsDescending last_seen
validated state manifest same_revision chain =
    let checked = check_records-Chain state.revision 0 [] state.records tt chain in
    let equal : not (state.revision == manifest.snapshot_revision) ≡ false = ground arith in
    rw equal checked

-- The state that is made of the two.
abbrev state_of : ℕ → List Record → SnapshotState
state_of revision rs = record { revision = revision; records = rs }

made :
    (revision : ℕ) (rs : List Record) (state : SnapshotState)
    → ok (state_of revision rs) ≡ ok state
    → (revision ≡ state.revision) × (rs ≡ state.records)
made revision rs state q = (ground (arith, q), ground (arith, q))

module _ (sha256 : Bytes → Bytes) where
  decode_snapshot-Chain :
      (encoded id digest : Bytes) (limits : Limits) (state : SnapshotState)
      → decode_snapshot sha256 encoded id digest limits ≡ ok state
      → Chain state.revision none state.records
  unfolding decode_snapshot
  decode_snapshot-Chain encoded id digest limits state q =
      let (header, _, q1) = >>=-eq-ok (decode_header sha256 encoded id digest) _ q in
      let (rs, p, q2) = >>=-eq-ok (decode_records limits header.0 header.1 64 none header.2) _ q1 in
      let chain = decode_records-Chain limits header.0 header.1 64 none header.2 rs p in
      let (revised, filled) = made header.0 rs state q2 in
      subst (λ (n : ℕ). Chain n none state.records) revised
        (subst (Chain header.0 none) filled chain)

  -- If DecodeSnapshot accepts a file and the revision of its state is the one in the manifest,
  -- then validateSnapshotState accepts the state for this manifest.
  pub decode_snapshot-validate_snapshot_state :
      (encoded id digest : Bytes) (limits : Limits) (state : SnapshotState) (manifest : Manifest)
      → decode_snapshot sha256 encoded id digest limits ≡ ok state
      → state.revision ≡ manifest.snapshot_revision
      → validate_snapshot_state state manifest ≡ ok tt
  decode_snapshot-validate_snapshot_state encoded id digest limits state manifest q same_revision =
      validated state manifest same_revision
        (decode_snapshot-Chain encoded id digest limits state q)
