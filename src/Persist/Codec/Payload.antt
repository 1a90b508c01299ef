-- ===== src/Persist/Codec/Payload.antt =====
-- The loop of `DecodeCommitFrame` on what the loop of `EncodeCommitFrame` wrote.
use gapdb.Prelude.{
  ℕ, ◌+◌, ◌-◌, ◌≤◌, ◌<◌, ◌^◌, ◌==◌, ◌||◌, not, true, false, Option, none, some, List, [], ◌∷◌, ◌++◌,
  Bytes, utf8_valid, length, take, drop, ltb, ◌≡◌, refl, arith, ge→ltb, take-append, drop-append,
  drop-drop, length-append, All,
}
use gapdb.Prelude.BigEndian.{be64, put32, put64, be32-put32, be64-put64}
use gapdb.Prelude.Int.{to_uint64, of_uint64, to_uint64-lt}
use gapdb.Prelude.Slices.{all_zero}
use gapdb.Api.Errors.{ok}
use gapdb.Api.Options.{Limits}
use gapdb.Api.Types.{ChangeKind, Instant}
use gapdb.Persist.Frames.{Effect}
use gapdb.Persist.Effects.{
  effect_of, decode_effect, decode_effects, encode_effects, kind_byte, flag_byte, effect_fields,
  effect_header,
}

-- What the switch of `validateCommit` makes sure of.
abbrev pub KindOk : ChangeKind → Bytes → Option Instant → Type 0
KindOk ChangeKind.put value none = Unit {0}
KindOk ChangeKind.put value (some t) = of_uint64 (to_uint64 t) ≡ t
KindOk ChangeKind.unknown value at = ⊥
KindOk _ value at = (value ≡ []) × (at ≡ none)

-- What the code makes sure of before it writes an effect.
pub record Writable (limits : Limits) (e : Effect) : Type 0 where
  pub nonempty : (length e.key == 0) ≡ false
  pub valid : utf8_valid e.key ≡ true
  pub key_fits : length e.key ≤ limits.max_key_bytes
  pub value_fits : length e.value ≤ limits.max_value_bytes
  pub kind_ok : KindOk e.kind e.value e.expires_at

-- The number that stands for an expiry.
abbrev nanos_of : Option Instant → ℕ
nanos_of none = 0
nanos_of (some t) = to_uint64 t

abbrev size_of : Effect → ℕ
size_of e = effect_header + length e.key + length e.value

effect_of-kind_byte :
    (kind : ChangeKind) (key value : Bytes) (at : Option Instant) (offset : ℕ)
    → KindOk kind value at
    → effect_of (kind_byte kind) (flag_byte at) key value (nanos_of at) offset
      ≡ ok (record { kind = kind; key = key; value = value; expires_at = at })
unfolding effect_of
effect_of-kind_byte ChangeKind.put key value none offset h = refl
effect_of-kind_byte ChangeKind.put key value (some t) offset h = rw h refl
effect_of-kind_byte ChangeKind.delete key value at offset h = rw (h.0, h.1) refl
effect_of-kind_byte ChangeKind.expire key value at offset h = rw (h.0, h.1) refl
effect_of-kind_byte ChangeKind.unknown key value at offset h = absurd h

abbrev effect_head : ChangeKind → ℕ → ℕ → Option Instant → Bytes → Bytes
effect_head kind key_length value_length at body =
    effect_fields kind key_length value_length at ++ body

decode_effect-effect_head :
    (limits : Limits) (offset : ℕ) (kind : ChangeKind) (key value : Bytes) (at : Option Instant)
    (body : Bytes)
    → KindOk kind value at
    → length key < 2 ^ 32
    → length value < 2 ^ 32
    → (take (length key) body ≡ key) × (take (length value) (drop (length key) body) ≡ value)
    → (ltb limits.max_key_bytes (length key)
        || ltb limits.max_value_bytes (length value)
        || ltb (length body) (length key)
        || ltb (length body - length key) (length value))
      ≡ false
    → (length key == 0 || not (utf8_valid key)) ≡ false
    → decode_effect limits offset (effect_head kind (length key) (length value) at body)
      ≡ ok (
        record { kind = kind; key = key; value = value; expires_at = at },
        effect_header + length key + length value,
      )
unfolding decode_effect put32 put64 all_zero effect_of be64
decode_effect-effect_head limits offset kind key value none body k sk sv cut fits valid = rw (
  ge→ltb (length (effect_head kind (length key) (length value) none body)) effect_header
      (omega arith),
  be32-put32 (length key) sk,
  be32-put32 (length value) sv,
  fits,
  cut.0,
  cut.1,
  valid,
  effect_of-kind_byte kind key value none (offset + effect_header) k,
)
decode_effect-effect_head limits offset kind key value (some t) body k sk sv cut fits valid = rw (
  ge→ltb (length (effect_head kind (length key) (length value) (some t) body)) effect_header
      (omega arith),
  be32-put32 (length key) sk,
  be32-put32 (length value) sv,
  be64-put64 (to_uint64 t) (to_uint64-lt t),
  fits,
  cut.0,
  cut.1,
  valid,
  effect_of-kind_byte kind key value (some t) (offset + effect_header) k,
)

-- The bytes of the effects.
abbrev pub payload_size : List Effect → ℕ
payload_size [] = 0
payload_size (e ∷ rest) = size_of e + payload_size rest

drop-effect_head :
    (kind : ChangeKind) (m n : ℕ) (at : Option Instant) (body : Bytes)
    → drop effect_header (effect_head kind m n at body) ≡ body
unfolding put32 put64
drop-effect_head kind m n none body = refl
drop-effect_head kind m n (some t) body = refl

length-effect_head :
    (kind : ChangeKind) (m n : ℕ) (at : Option Instant) (body : Bytes)
    → length (effect_head kind m n at body) ≡ effect_header + length body
unfolding put32 put64
length-effect_head kind m n none body = omega arith
length-effect_head kind m n (some t) body = omega arith

pub length-encode_effects : (es : List Effect) → length (encode_effects es) ≡ payload_size es
unfolding encode_effects
length-encode_effects [] = refl
length-encode_effects (e ∷ rest) = omega (
  arith,
  length-effect_head e.kind (length e.key) (length e.value) e.expires_at
      (e.key ++ (e.value ++ encode_effects rest)),
  length-append e.key (e.value ++ encode_effects rest),
  length-append e.value (encode_effects rest),
  length-encode_effects rest,
)

abbrev body_of : Effect → Bytes → Bytes
body_of e rest = e.key ++ (e.value ++ rest)

drop-size_of :
    (e : Effect) (rest : Bytes)
    → drop
        (size_of e)
        (effect_head e.kind (length e.key) (length e.value) e.expires_at (body_of e rest))
      ≡ rest
drop-size_of e rest =
    let head = effect_head e.kind (length e.key) (length e.value) e.expires_at (body_of e rest) in
    rw (
      ← drop-drop (effect_header + length e.key) (length e.value) head,
      ← drop-drop effect_header (length e.key) head,
      drop-effect_head e.kind (length e.key) (length e.value) e.expires_at (body_of e rest),
      drop-append (length e.key) e.key (e.value ++ rest) refl,
      drop-append (length e.value) e.value rest refl,
    )

decode_effect-Writable :
    (limits : Limits) (offset : ℕ) (e : Effect) (rest : Bytes)
    → Writable limits e
    → size_of e < 2 ^ 32
    → decode_effect limits offset
        (effect_head e.kind (length e.key) (length e.value) e.expires_at (body_of e rest))
      ≡ ok (e, size_of e)
decode_effect-Writable limits offset e rest w small =
    let all = length-append e.key (e.value ++ rest) in
    let later = length-append e.value rest in
    decode_effect-effect_head limits offset e.kind e.key e.value e.expires_at (body_of e rest)
      w.kind_ok (omega arith) (omega arith)
      (
        take-append (length e.key) e.key (e.value ++ rest) refl,
        rw (
          drop-append (length e.key) e.key (e.value ++ rest) refl,
          take-append (length e.value) e.value rest refl,
        ),
      )
      (rw (
        ge→ltb limits.max_key_bytes (length e.key) w.key_fits,
        ge→ltb limits.max_value_bytes (length e.value) w.value_fits,
        ge→ltb (length (body_of e rest)) (length e.key) (omega arith),
        ge→ltb (length (body_of e rest) - length e.key) (length e.value) (omega arith),
      ))
      (rw (w.nonempty, w.valid))

-- What was written is read back.
pub decode_effects-encode_effects :
    (limits : Limits) (offset : ℕ) (es : List Effect)
    → All (Writable limits) es
    → payload_size es < 2 ^ 32
    → decode_effects limits (length es) offset (encode_effects es) ≡ ok es
unfolding decode_effects encode_effects
decode_effects-encode_effects limits offset [] w small = refl
decode_effects-encode_effects limits offset (e ∷ rest) w small = rw (
  decode_effect-Writable limits offset e (encode_effects rest) w.0 (omega arith),
  drop-size_of e (encode_effects rest),
  decode_effects-encode_effects limits (offset + size_of e) rest w.1 (omega arith),
)
