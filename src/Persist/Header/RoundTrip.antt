-- ===== src/Persist/Header/RoundTrip.antt =====
-- A block that was encoded is decoded to what it was made of.
use gapdb.Prelude.{
  ℕ, ◌==◌, ◌||◌, ◌<◌, ◌^◌, false, [], ◌∷◌, Bytes, key_eq, length, ◌≡◌, refl, arith, ==_refl,
}
use gapdb.Prelude.BigEndian.{be16, put16, put32, put64, be32-put32, be64-put64}
use gapdb.Prelude.Crc.{crc32c, crc32c-lt}
use gapdb.Prelude.Keys.{key_eq_refl}
use gapdb.Prelude.Slices.{all_zero, each}
use gapdb.Api.Errors.{ok, reject, >>=-eq-ok}
use gapdb.Persist.Header.{
  WalHeader, Identity, encode_wal_header, decode_wal_header, encode_identity, decode_identity,
  is_zero_id, block, sealed, wal_magic, identity_magic, header_size,
}

-- Sixteen bytes, written out.
abbrev sixteen : (a b c d e f g h i j k l m n o p : ℕ) → Bytes
sixteen a b c d e f g h i j k l m n o p =
    a ∷ b ∷ c ∷ d ∷ e ∷ f ∷ g ∷ h ∷ i ∷ j ∷ k ∷ l ∷ m ∷ n ∷ o ∷ p ∷ []

length-block :
    (magic id : Bytes) (first second : ℕ)
    → length magic ≡ 8
    → length id ≡ 16
    → length (sealed (block magic id first second)) ≡ header_size
unfolding put16 put32 put64
length-block magic id first second eight sixteen =
    each 8 (λ (m : Bytes). length (sealed (block m id first second)) ≡ header_size)
      (λ a b c d e f g h.
        each 16
          (λ (i : Bytes).
            length (sealed (block (a ∷ b ∷ c ∷ d ∷ e ∷ f ∷ g ∷ h ∷ []) i first second))
            ≡ header_size)
          (λ _ _ _ _ _ _ _ _ _ _ _ _ _ _ _ _. refl) id sixteen)
      magic eight

decode_wal_header-sealed :
    (id : Bytes) (first generation : ℕ)
    → length id ≡ 16
    → first < 2 ^ 64
    → generation < 2 ^ 64
    → (first == 0 || generation == 0) ≡ false
    → decode_wal_header (sealed (block wal_magic id first generation)) id
      ≡ ok (record { database_id = id; first_revision = first; generation = generation })
unfolding decode_wal_header put16 put32 put64 be16 all_zero key_eq
decode_wal_header-sealed id first generation len small small' nz =
    each 16
      (λ (bs : Bytes).
        decode_wal_header (sealed (block wal_magic bs first generation)) bs
        ≡ ok (record { database_id = bs; first_revision = first; generation = generation }))
      (λ a b c d e f g h i j k l m n o p.
        let bs = sixteen a b c d e f g h i j k l m n o p in
        let crc = crc32c (block wal_magic bs first generation) in
        rw (
          be32-put32 crc (crc32c-lt (block wal_magic bs first generation)),
          be64-put64 first small,
          be64-put64 generation small',
          key_eq_refl bs,
          nz,
          ==_refl crc,
        ))
      id len

decode_identity-sealed :
    (id : Bytes) (last generation : ℕ)
    → length id ≡ 16
    → last < 2 ^ 64
    → generation < 2 ^ 64
    → (is_zero_id id || generation == 0) ≡ false
    → decode_identity (sealed (block identity_magic id last generation))
      ≡ ok (record { database_id = id; reserved_revision_end = last; generation = generation })
unfolding decode_identity put16 put32 put64 be16 all_zero key_eq
decode_identity-sealed id last generation len small small' =
    each 16
      (λ (bs : Bytes).
        (is_zero_id bs || generation == 0) ≡ false
        → decode_identity (sealed (block identity_magic bs last generation))
          ≡ ok (record { database_id = bs; reserved_revision_end = last; generation = generation }))
      (λ a b c d e f g h i j k l m n o p nz.
        let bs = sixteen a b c d e f g h i j k l m n o p in
        let crc = crc32c (block identity_magic bs last generation) in
        rw (
          be32-put32 crc (crc32c-lt (block identity_magic bs last generation)),
          be64-put64 last small,
          be64-put64 generation small',
          nz,
          ==_refl crc,
        ))
      id len

-- If a log header with a database id of 16 bytes and numbers below 2^64 is encoded, then it is
-- decoded for this database id to the same header, and the encoding has 64 bytes.
pub decode_wal_header-encode_wal_header :
    (h : WalHeader) (encoded : Bytes)
    → length h.database_id ≡ 16
    → h.first_revision < 2 ^ 64
    → h.generation < 2 ^ 64
    → encode_wal_header h ≡ ok encoded
    → (decode_wal_header encoded h.database_id ≡ ok h) × (length encoded ≡ header_size)
unfolding encode_wal_header
decode_wal_header-encode_wal_header h encoded len small small' q =
    let (_, p, q') =
      >>=-eq-ok (reject (is_zero_id h.database_id || h.first_revision == 0 || h.generation == 0) _)
        _ q in
    let made : encoded ≡ sealed (block wal_magic h.database_id h.first_revision h.generation) =
      cc in
    rw made (
      decode_wal_header-sealed h.database_id h.first_revision h.generation len small small'
          (ground (arith, p)),
      length-block wal_magic h.database_id h.first_revision h.generation refl len,
    )

-- If an identity with a database id of 16 bytes and numbers below 2^64 is encoded, then it is
-- decoded to itself.
pub decode_identity-encode_identity :
    (i : Identity) (encoded : Bytes)
    → length i.database_id ≡ 16
    → i.reserved_revision_end < 2 ^ 64
    → i.generation < 2 ^ 64
    → encode_identity i ≡ ok encoded
    → decode_identity encoded ≡ ok i
unfolding encode_identity
decode_identity-encode_identity i encoded len small small' q =
    let (_, p, q') = >>=-eq-ok (reject (is_zero_id i.database_id) _) _ q in
    let (_, p', q'') = >>=-eq-ok (reject (i.generation == 0) _) _ q' in
    let made : encoded
        ≡ sealed (block identity_magic i.database_id i.reserved_revision_end i.generation) =
      cc in
    rw made (
      decode_identity-sealed i.database_id i.reserved_revision_end i.generation len small small'
        (ground (arith, p, p')))
