-- ===== src/Persist/Header/Canonical.antt =====
-- A block that is decoded has the bytes of its encoding.
use gapdb.Prelude.{◌*◌, ◌/◌, ◌%◌}
use gapdb.Prelude.{
  ℕ, zero, suc, ◌+◌, ◌==◌, ◌||◌, not, true, false, [], ◌∷◌, ◌++◌, Bytes, key_eq, length, take, drop,
  ◌≡◌, refl, sym, ap, ◌∙◌, arith, length-take, length-drop, ◌≤◌,
}
use gapdb.Prelude.{Bool, take-add, take_whole}
use gapdb.Prelude.Keys.{key_eq→eq}
use gapdb.Prelude.BigEndian.{be16, be32, be64, put16, put32, put64}
use gapdb.Prelude.Crc.{crc32c}
use gapdb.Prelude.Slices.{slice, zeros, all_zero, each}
use gapdb.Api.Errors.{Error, ok, reject, >>=-eq-ok}
use gapdb.Persist.Header.{
  WalHeader, Identity, encode_wal_header, decode_wal_header, encode_identity, decode_identity,
  is_zero_id, block, sealed, wal_magic, identity_magic, header_size, storage_version,
}
use gapdb.Persist.Header.Bounds.{IsBytes, take-IsBytes, drop-IsBytes}

put16-be16 : (xs : Bytes) → length xs ≡ 2 → IsBytes xs → put16 (be16 xs) ≡ xs
unfolding put16 be16
put16-be16 xs =
    each 2 (λ (b : Bytes). IsBytes b → put16 (be16 b) ≡ b)
      (λ a b h.
        let n = a * 256 + b in
        let p : n / 256 % 256 ≡ a = omega arith in let q : n % 256 ≡ b = omega arith in rw (p, q))
      xs

put32-be32 : (xs : Bytes) → length xs ≡ 4 → IsBytes xs → put32 (be32 xs) ≡ xs
unfolding put32 be32
put32-be32 xs =
    each 4 (λ (b : Bytes). IsBytes b → put32 (be32 b) ≡ b)
      (λ a b c d h.
        let n = ((a * 256 + b) * 256 + c) * 256 + d in
        let p : n / 16777216 % 256 ≡ a = omega arith in
        let q : n / 65536 % 256 ≡ b = omega arith in
        let r : n / 256 % 256 ≡ c = omega arith in
        let s : n % 256 ≡ d = omega arith in rw (p, q, r, s))
      xs

zeros-all_zero : (n : ℕ) (xs : Bytes) → length xs ≡ n → all_zero xs ≡ true → xs ≡ zeros n
unfolding all_zero
zeros-all_zero zero [] h z = refl
zeros-all_zero zero (x ∷ xs) h z = absurd (omega arith)
zeros-all_zero (suc n) [] h z = absurd (omega arith)
zeros-all_zero (suc n) (x ∷ xs) h z =
    let none_here : x ≡ 0 = ground (arith, z) in
    rw (none_here, zeros-all_zero n xs (omega arith) (ground (arith, z)))

put64-be64 : (xs : Bytes) → length xs ≡ 8 → IsBytes xs → put64 (be64 xs) ≡ xs
unfolding put64 be64 put32 be32
put64-be64 xs =
    each 8 (λ (b : Bytes). IsBytes b → put64 (be64 b) ≡ b)
      (λ a b c d e f g h v.
        let high = ((a * 256 + b) * 256 + c) * 256 + d in
        let low = ((e * 256 + f) * 256 + g) * 256 + h in
        let n = high * 4294967296 + low in
        let p1 : n / 72057594037927936 % 256 ≡ a = omega arith in
        let p2 : n / 281474976710656 % 256 ≡ b = omega arith in
        let p3 : n / 1099511627776 % 256 ≡ c = omega arith in
        let p4 : n / 4294967296 % 256 ≡ d = omega arith in
        let p5 : n / 16777216 % 256 ≡ e = omega arith in
        let p6 : n / 65536 % 256 ≡ f = omega arith in
        let p7 : n / 256 % 256 ≡ g = omega arith in
        let p8 : n % 256 ≡ h = omega arith in rw (p1, p2, p3, p4, p5, p6, p7, p8))
      xs

-- The first 60 bytes, field by field.
assembled :
    (file : Bytes)
    → take 60 file
      ≡ take 8 file
        ++ slice 8 10 file
        ++ slice 10 12 file
        ++ slice 12 28 file
        ++ slice 28 36 file
        ++ slice 36 44 file
        ++ slice 44 60 file
assembled file =
    take-add 44 16 file
    ∙ ap (λ b. b ++ slice 44 60 file)
        (take-add 36 8 file
          ∙ ap (λ b. b ++ slice 36 44 file)
              (take-add 28 8 file
                ∙ ap (λ b. b ++ slice 28 36 file)
                    (take-add 12 16 file
                      ∙ ap (λ b. b ++ slice 12 28 file)
                          (take-add 10 2 file
                            ∙ ap (λ b. b ++ slice 10 12 file) (take-add 8 2 file)))))

-- A file of the size of a block, whose bytes are bytes.
record Sized (file : Bytes) : Type 0 where
  size : length file ≡ 64
  bytes : IsBytes file

length-slice :
    (file : Bytes) (m n : ℕ) → Sized file → m + n ≤ 64 → length (take n (drop m file)) ≡ n
length-slice file m n z h =
    length-take n (drop m file) (omega (arith, z.size, length-drop m file (omega (arith, z.size))))

slice-IsBytes : (file : Bytes) (m n : ℕ) → Sized file → IsBytes (take n (drop m file))
slice-IsBytes file m n z = take-IsBytes n (drop m file) (drop-IsBytes m file z.bytes)

-- What both decoders check of a file.
record Checked (magic file : Bytes) : Type 0 where
  sized : Sized file
  named : take 8 file ≡ magic
  version : be16 (slice 8 10 file) ≡ storage_version
  header : be16 (slice 10 12 file) ≡ header_size
  reserved : all_zero (slice 44 60 file) ≡ true
  checksum : crc32c (take 60 file) ≡ be32 (slice 60 64 file)

word16 :
    (file : Bytes) (m v : ℕ)
    → Sized file
    → m + 2 ≤ 64
    → be16 (take 2 (drop m file)) ≡ v
    → take 2 (drop m file) ≡ put16 v
word16 file m v z h q =
    sym (put16-be16 (take 2 (drop m file)) (length-slice file m 2 z h) (slice-IsBytes file m 2 z))
    ∙ ap put16 q

word64 :
    (file : Bytes) (m : ℕ)
    → Sized file
    → m + 8 ≤ 64
    → take 8 (drop m file) ≡ put64 (be64 (take 8 (drop m file)))
word64 file m z h =
    sym (put64-be64 (take 8 (drop m file)) (length-slice file m 8 z h) (slice-IsBytes file m 8 z))

take-block :
    (magic file : Bytes)
    → Checked magic file
    → take 60 file
      ≡ block magic (slice 12 28 file) (be64 (slice 28 36 file)) (be64 (slice 36 44 file))
take-block magic file k =
    let z = k.sized in
    assembled file
    ∙ rw
        (
          k.named,
          word16 file 8 storage_version z (omega arith) k.version,
          word16 file 10 header_size z (omega arith) k.header,
          zeros-all_zero 16 (slice 44 60 file) (length-slice file 44 16 z (omega arith)) k.reserved,
          ← word64 file 28 z (omega arith),
          ← word64 file 36 z (omega arith),
        )
        refl

sealed-file :
    (magic file : Bytes)
    → Checked magic file
    → sealed (block magic (slice 12 28 file) (be64 (slice 28 36 file)) (be64 (slice 36 44 file)))
      ≡ file
sealed-file magic file k =
    ap sealed (sym (take-block magic file k))
    ∙ ap (λ b. take 60 file ++ b)
        (ap put32 k.checksum
          ∙ put32-be32 (slice 60 64 file) (length-slice file 60 4 k.sized (omega arith))
              (slice-IsBytes file 60 4 k.sized))
    ∙ sym (take-add 60 4 file)
    ∙ take_whole 64 file (sym k.sized.size)

equal : (m n : ℕ) (e : Error) (u : Unit {0}) → reject (not (m == n)) e ≡ ok u → m ≡ n
equal m n e u q = ground (arith, q)

named_as :
    (xs ys : Bytes) (e : Error) (u : Unit {0}) → reject (not (key_eq xs ys)) e ≡ ok u → xs ≡ ys
named_as xs ys e u q = key_eq→eq xs ys (ground (arith, q))

is_equal : (m n : ℕ) → not (m == n) ≡ false → m ≡ n
is_equal m n q = ground (arith, q)

is_true : (b : Bool) → not b ≡ false → b ≡ true
is_true true q = refl
is_true false q = cc

holds : (b : Bool) (e : Error) (u : Unit {0}) → reject (not b) e ≡ ok u → b ≡ true
holds b e u q = ground (arith, q)

neither :
    (a b : Bool) (e : Error) (u : Unit {0}) → reject (a || b) e ≡ ok u → (a ≡ false) × (b ≡ false)
neither a b e u q = (ground (arith, q), ground (arith, q))

made :
    (i : Identity) (id : Bytes) (last generation : ℕ)
    → ok (record { database_id = id; reserved_revision_end = last; generation = generation }) ≡ ok i
    → i ≡ record { database_id = id; reserved_revision_end = last; generation = generation }
made i id last generation q =
    let same : record { database_id = id; reserved_revision_end = last; generation = generation }
        ≡ i =
      ground (arith, q) in
    sym same

-- If a file of bytes is decoded to an identity, then that identity is encoded to this file.
pub encode_identity-decode_identity :
    (file : Bytes) (i : Identity)
    → IsBytes file
    → decode_identity file ≡ ok i
    → encode_identity i ≡ ok file
unfolding decode_identity encode_identity
encode_identity-decode_identity file i bytes q =
    let (_, p1, q1) = >>=-eq-ok (reject (not (length file == header_size)) _) _ q in
    let (_, p2, q2) = >>=-eq-ok (reject (not (key_eq (take 8 file) identity_magic)) _) _ q1 in
    let (_, p3, q3) = >>=-eq-ok (reject (not (be16 (slice 8 10 file) == storage_version)) _) _ q2 in
    let (_, p4, q4) = >>=-eq-ok (reject (not (be16 (slice 10 12 file) == header_size)) _) _ q3 in
    let (_, p5, q5) = >>=-eq-ok (reject (not (all_zero (slice 44 60 file))) _) _ q4 in
    let (_, p6, q6) =
      >>=-eq-ok (reject (not (crc32c (take 60 file) == be32 (slice 60 64 file))) _) _ q5 in
    let (_, p7, q7) =
      >>=-eq-ok (reject (is_zero_id (slice 12 28 file) || be64 (slice 36 44 file) == 0) _) _ q6 in
    let checked : Checked identity_magic file = record {
      sized = record { size = equal (length file) 64 _ _ p1; bytes = bytes };
      named = named_as (take 8 file) identity_magic _ _ p2;
      version = equal (be16 (slice 8 10 file)) storage_version _ _ p3;
      header = equal (be16 (slice 10 12 file)) header_size _ _ p4;
      reserved = holds (all_zero (slice 44 60 file)) _ _ p5;
      checksum = equal (crc32c (take 60 file)) (be32 (slice 60 64 file)) _ _ p6;
    } in
    let whole = sealed-file identity_magic file checked in
    let (id_there, generation_there) =
      neither (is_zero_id (slice 12 28 file)) (be64 (slice 36 44 file) == 0) _ _ p7 in
    rw (made i _ _ _ q7) (rw id_there (rw generation_there (ap ok whole)))

made_header :
    (h : WalHeader) (id : Bytes) (first generation : ℕ)
    → ok (record { database_id = id; first_revision = first; generation = generation }) ≡ ok h
    → h ≡ record { database_id = id; first_revision = first; generation = generation }
made_header h id first generation q =
    let same : record { database_id = id; first_revision = first; generation = generation } ≡ h =
      ground (arith, q) in
    sym same

-- If a file of bytes is decoded to a log header for a database id that is not zero, then the
-- header has this id and is encoded to this file.
pub encode_wal_header-decode_wal_header :
    (file id : Bytes) (h : WalHeader)
    → IsBytes file
    → is_zero_id id ≡ false
    → decode_wal_header file id ≡ ok h
    → (h.database_id ≡ id) × (encode_wal_header h ≡ ok file)
unfolding decode_wal_header encode_wal_header
encode_wal_header-decode_wal_header file id h bytes some_id q =
    let (_, p1, q1) = >>=-eq-ok (reject (not (length file == header_size)) _) _ q in
    let (_, p2, q2) = >>=-eq-ok (reject (not (key_eq (take 8 file) wal_magic)) _) _ q1 in
    let (_, p3, q3) = >>=-eq-ok (reject (not (be16 (slice 8 10 file) == storage_version)) _) _ q2 in
    let (_, p4, q4) =
      >>=-eq-ok
        (reject (not (be16 (slice 10 12 file) == header_size) || not (all_zero (slice 44 60 file)))
          _)
        _ q3 in
    let (_, p5, q5) =
      >>=-eq-ok (reject (not (crc32c (take 60 file) == be32 (slice 60 64 file))) _) _ q4 in
    let (_, p6, q6) = >>=-eq-ok (reject (not (key_eq (slice 12 28 file) id)) _) _ q5 in
    let (_, p7, q7) =
      >>=-eq-ok (reject (be64 (slice 28 36 file) == 0 || be64 (slice 36 44 file) == 0) _) _ q6 in
    let (header, reserved) =
      neither (not (be16 (slice 10 12 file) == header_size)) (not (all_zero (slice 44 60 file))) _ _
        p4 in
    let checked : Checked wal_magic file = record {
      sized = record { size = equal (length file) 64 _ _ p1; bytes = bytes };
      named = named_as (take 8 file) wal_magic _ _ p2;
      version = equal (be16 (slice 8 10 file)) storage_version _ _ p3;
      header = is_equal (be16 (slice 10 12 file)) header_size header;
      reserved = is_true (all_zero (slice 44 60 file)) reserved;
      checksum = equal (crc32c (take 60 file)) (be32 (slice 60 64 file)) _ _ p5;
    } in
    let same_id = named_as (slice 12 28 file) id _ _ p6 in
    let id_there : is_zero_id (slice 12 28 file) ≡ false = ap is_zero_id same_id ∙ some_id in
    let (first_there, generation_there) =
      neither (be64 (slice 28 36 file) == 0) (be64 (slice 36 44 file) == 0) _ _ p7 in
    rw (made_header h _ _ _ q7) (
      same_id,
      rw id_there
          (rw first_there (rw generation_there (ap ok (sealed-file wal_magic file checked)))),
    )
