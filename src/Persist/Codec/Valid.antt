-- ===== src/Persist/Codec/Valid.antt =====
-- What `validateCommit` makes sure of.
use gapdb.Prelude.{
  ℕ, suc, ◌≤◌, ◌==◌, ◌||◌, not, false, Option, none, some, List, [], ◌∷◌, Bytes, utf8_valid, length,
  ltb, ◌≡◌, refl, arith, All,
}
use gapdb.Prelude.Dict.{lookup, insert}
use gapdb.Prelude.Int.{to_uint64, of_uint64, eq_ℤ→eq}
use gapdb.Api.Errors.{ok, >>=-eq-ok, reject}
use gapdb.Api.Options.{Limits}
use gapdb.Api.Types.{ChangeKind, Instant}
use gapdb.Api.Validate.{is_some}
use gapdb.Persist.Frames.{Effect, CommitFrame}
use gapdb.Persist.Codec.{validate_commit, check_effects, check_kind, check_expiry, repeated}
use gapdb.Persist.Codec.Payload.{KindOk, Writable}

empty : (value : Bytes) → not (length value == 0) ≡ false → value ≡ []
empty [] h = refl
empty (b ∷ bs) h = absurd (ground arith)

not_some : (at : Option Instant) → is_some at ≡ false → at ≡ none
not_some none h = refl
not_some (some t) h = cc

removal :
    (e : Effect) (limits : Limits)
    → check_kind ChangeKind.delete e limits ≡ ok tt
    → ((e.value ≡ []) × (e.expires_at ≡ none)) × (length e.value ≤ limits.max_value_bytes)
unfolding check_kind
removal e limits q =
    let bare : (not (length e.value == 0) ≡ false) × (is_some e.expires_at ≡ false) =
      (ground (arith, q), ground (arith, q)) in
    let none_left = empty e.value bare.0 in
    ((none_left, not_some e.expires_at bare.1), rw none_left (omega arith))

check_expiry-KindOk :
    (value : Bytes) (at : Option Instant) → check_expiry at ≡ ok tt → KindOk ChangeKind.put value at
unfolding check_expiry
check_expiry-KindOk value none q = tt
check_expiry-KindOk value (some t) q = eq_ℤ→eq (of_uint64 (to_uint64 t)) t (ground (arith, q))

check_kind-KindOk :
    (kind : ChangeKind) (e : Effect) (limits : Limits)
    → check_kind kind e limits ≡ ok tt
    → KindOk kind e.value e.expires_at × (length e.value ≤ limits.max_value_bytes)
unfolding check_kind
check_kind-KindOk ChangeKind.put e limits q =
    let (_, p, q') = >>=-eq-ok (reject (ltb limits.max_value_bytes (length e.value)) _) _ q in
    (check_expiry-KindOk e.value e.expires_at q', ground (arith, p))
check_kind-KindOk ChangeKind.delete e limits q = removal e limits q
check_kind-KindOk ChangeKind.expire e limits q = removal e limits q
check_kind-KindOk ChangeKind.unknown e limits q = cc

check_effects-Writable :
    (limits : Limits) (index : ℕ) (seen : List (Bytes × ℕ)) (es : List Effect)
    → check_effects limits index seen es ≡ ok tt
    → All (Writable limits) es
unfolding check_effects
check_effects-Writable limits index seen [] q = tt
check_effects-Writable limits index seen (e ∷ rest) q =
    let (_, named, q1) = >>=-eq-ok (reject (length e.key == 0 || not (utf8_valid e.key)) _) _ q in
    let (_, fits, q2) = >>=-eq-ok (reject (ltb limits.max_key_bytes (length e.key)) _) _ q1 in
    let (_, _, q3) = >>=-eq-ok (repeated e.key index (lookup e.key seen)) _ q2 in
    let (_, kind, q4) = >>=-eq-ok (check_kind e.kind e limits) _ q3 in
    let checked = check_kind-KindOk e.kind e limits kind in
    (
      record {
        nonempty = ground (arith, named);
        valid = ground (arith, named);
        key_fits = ground (arith, fits);
        value_fits = checked.1;
        kind_ok = checked.0;
      },
      check_effects-Writable limits (suc index) (insert e.key index seen) rest q4,
    )

-- What `validateCommit` makes sure of.
pub record Valid (limits : Limits) (c : CommitFrame) : Type 0 where
  pub revised : (c.revision == 0) ≡ false
  pub nonempty : (length c.effects == 0) ≡ false
  pub operations : length c.effects ≤ limits.max_batch_operations
  pub writable : All (Writable limits) c.effects

pub validate_commit-Valid :
    (c : CommitFrame) (limits : Limits) → validate_commit c limits ≡ ok tt → Valid limits c
unfolding validate_commit
validate_commit-Valid c limits q =
    let (_, revised, q1) = >>=-eq-ok (reject (c.revision == 0) _) _ q in
    let (_, some_effect, q2) = >>=-eq-ok (reject (length c.effects == 0) _) _ q1 in
    let (_, few, q3) =
      >>=-eq-ok (reject (ltb limits.max_batch_operations (length c.effects)) _) _ q2 in
    record {
      revised = ground (arith, revised);
      nonempty = ground (arith, some_effect);
      operations = ground (arith, few);
      writable = check_effects-Writable limits 0 [] c.effects q3;
    }
