-- ===== src/Engine/Writer/Exclusive.antt =====
-- Two compare-and-swap requests that expect the same revision.
use gapdb.Prelude.{ℕ, ◌≢◌, Option, none, some, List, Bytes, ◌≡◌, refl, sym, ◌∙◌, arith}
use gapdb.Prelude.Dict.{lookup}
use gapdb.Prelude.Keys.{key_eq_refl}
use gapdb.Api.Errors.{Result, ok}
use gapdb.Api.Types.{Instant, Record, AckMode}
use gapdb.Engine.Admission.{compare_and_swap, request_batch}
use gapdb.Engine.Apply.Records.{record_after}
use gapdb.Engine.Conditions.{check_mutations, condition_error, by_kind, is_live}
use gapdb.Engine.State.{Storage, Engine, CommitResult}
use gapdb.Engine.Writer.{execute_safely}
use gapdb.Engine.Writer.Atomicity.{effective}
use gapdb.Engine.Writer.Invariant.{IsConsistent}
use gapdb.Engine.Writer.Success.{execute_safely-Succeeded}

-- A swap that is admitted finds a record of the expected revision.
expected_found :
    (records : List (Bytes × Record)) (now : Instant) (current : ℕ) (key : Bytes) (expected : ℕ)
    (value : Option Bytes) (at : Option Instant) (ack : AckMode)
    → (let (b, single) = request_batch (compare_and_swap key expected value at ack) in
        check_mutations records now current single 0 b.mutations)
      ≡ ok tt
    → (r : Record) × (lookup key records ≡ some r) × (r.revision ≡ expected)
unfolding request_batch check_mutations condition_error by_kind is_live
expected_found records now current key expected value at ack q = found (lookup key records) refl
  where
    found :
        (o : Option Record)
        → lookup key records ≡ o
        → (r : Record) × (lookup key records ≡ some r) × (r.revision ≡ expected)
    found none h = absurd (ground (arith, q, h))
    found (some r) h = (r, h, ground (arith, q, h))

-- What a swap leaves under its key.
swapped :
    (revision : ℕ) (key : Bytes) (expected : ℕ) (value : Option Bytes) (at : Option Instant)
    (ack : AckMode) (o : Option Record) (y : Record)
    → record_after revision key
        (request_batch (compare_and_swap key expected value at ack)).0.mutations
        o
      ≡ some y
    → y.revision ≡ revision
unfolding request_batch record_after
swapped revision key expected value at ack o y q = ground (arith, q, key_eq_refl key)

module _ {L A : Type 0} (s : Storage L A) (key : Bytes) (expected : ℕ) (source later : Instant)
    (value value' : Option Bytes) (at at' : Option Instant) (ack ack' : AckMode) where
  abbrev swap :
      Option Bytes
      → Option Instant
      → AckMode
      → Instant
      → Engine L A
      → Engine L A × Result CommitResult
  swap v t a now e =
      let (b, single) = request_batch (compare_and_swap key expected v t a) in
      execute_safely s b single now e

  -- On a consistent store, after a compare-and-swap has succeeded, a second compare-and-swap on
  -- the engine it leaves that expects the same revision of the same key never succeeds.
  pub compare_and_swap_once :
      (e e' e'' : Engine L A) (r r' : CommitResult)
      → IsConsistent e.store
      → swap value at ack source e ≡ (e', ok r)
      → swap value' at' ack' later e' ≢ (e'', ok r')
  compare_and_swap_once e e' e'' r r' c first second =
      let (b, single) = request_batch (compare_and_swap key expected value at ack) in
      let (b', single') = request_batch (compare_and_swap key expected value' at' ack') in
      let u = execute_safely-Succeeded s b single source e first in
      let u' = execute_safely-Succeeded s b' single' later e' second in
      let (x, here, old) =
        expected_found e.store.records (effective s b single source e) e.store.current key expected
          value at ack u.admitted.conditions in
      let (y, there, same) =
        expected_found e'.store.records (effective s b' single' later e') e'.store.current key
          expected value' at' ack' u'.admitted.conditions in
      let fresh =
        swapped r.result.revision key expected value at ack (lookup key e.store.records) y
          (sym (u.records key) ∙ there) in
      absurd (omega (arith, fresh, same, old, u.newer, c.revisions key x here))
