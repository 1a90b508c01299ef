-- ===== src/Engine/Scan/Complete.antt =====
-- A page of a scan against the records of the store.
use gapdb.Prelude.{
  ℕ, suc, ◌+◌, ◌==◌, ◌≤◌, ◌||◌, Bool, true, false, Option, none, some, List, [], ◌∷◌, ◌++◌, Bytes,
  length, ltb, key_lt, has_prefix, if◌then◌else◌, ◌≡◌, refl, sym, ap, ◌∙◌, arith, All, Bool-cases,
  inl, inr,
}
use gapdb.Prelude.Keys.{key_lt_trans}
use gapdb.Prelude.Sorted.{Above, IsOrdered}
use gapdb.Api.Errors.{ok, reject, >>=-eq-ok}
use gapdb.Engine.Prefix.{validate_prefix}
use gapdb.Engine.Clock.{clock_now}
use gapdb.Api.Types.{Instant, Record}
use gapdb.Api.Options.{Limits}
use gapdb.Engine.Reads.{live_record}
use gapdb.Engine.State.{Store, Engine}
use gapdb.Engine.Scan.{
  Round, beyond, skipped, full, fails, adds, round_at, scan_round, scan_keys, add_record,
  scan_record_bytes, is_full, check_cursor_prefix, page_instant, ScanPage, scan_prefix, keys_from,
  is_reached, page_of,
}

-- The keys with a prefix stand together: a key above one that is not below the prefix and does not
-- have it does not have it either.
has_prefix_above :
    (p a b : Bytes)
    → key_lt a p ≡ false
    → has_prefix a p ≡ false
    → key_lt a b ≡ true
    → has_prefix b p ≡ false
unfolding key_lt has_prefix
has_prefix_above [] a b le ne lt = cc
has_prefix_above (x ∷ p) [] b le ne lt = cc
has_prefix_above (x ∷ p) (y ∷ a) [] le ne lt = refl
has_prefix_above (x ∷ p) (y ∷ a) (z ∷ b) le ne lt = ground (arith, has_prefix_above p a b)

with_live : Option Record → List Record → List Record
with_live none rs = rs
with_live (some r) rs = r ∷ rs

-- The live records under a prefix, in the order of the index: what a scan promises.
unfoldable pub live_under : Store → Bytes → Instant → List Bytes → List Record
unfolding with_live
live_under store prefix as_of [] = []
live_under store prefix as_of (key ∷ rest) =
    let later = live_under store prefix as_of rest in
    if has_prefix key prefix then with_live (live_record store as_of key) later else later

live_under-Above :
    (store : Store) (prefix : Bytes) (as_of : Instant) (key : Bytes) (rest : List Bytes)
    → key_lt key prefix ≡ false
    → has_prefix key prefix ≡ false
    → Above key rest
    → live_under store prefix as_of rest ≡ []
unfolding live_under
live_under-Above store prefix as_of key [] le ne above = refl
live_under-Above store prefix as_of key (k ∷ rest) le ne above =
    rw (has_prefix_above prefix key k le ne above.0)
      (live_under-Above store prefix as_of key rest le ne above.1)

module _ (store : Store) (limits : Limits) (limit : ℕ) (prefix : Bytes) (as_of : Instant) where
  -- What a round finds of a key: `later` is what there is under the prefix after it.
  abbrev Judged : ℕ → ℕ → Bytes → List Record → Round → Type 0
  Judged taken used key later beyond = has_prefix key prefix ≡ false
  Judged taken used key later skipped =
      (if has_prefix key prefix then with_live (live_record store as_of key) later else later)
      ≡ later
  Judged taken used key later full = Unit {0}
  Judged taken used key later (fails error) = Unit {0}
  Judged taken used key later (adds r) =
      ((if has_prefix key prefix then with_live (live_record store as_of key) later else later)
        ≡ r ∷ later)
      × (is_full limits limit taken used r ≡ false)

  scan_round-Judged :
      (taken used : ℕ) (key : Bytes) (later : List Record)
      → Judged taken used key later (scan_round store limits limit prefix as_of taken used key)
  unfolding scan_round round_at live_record with_live
  scan_round-Judged taken used key later = ground arith

  -- The page holds the first of the live records, and all of them unless it is truncated.
  abbrev pub Covers : ℕ → ℕ → List Record → List Record × Bool → Type 0
  Covers taken used all (rs, truncated) =
      (missing : List Record) × (all ≡ rs ++ missing)
      × (truncated ≡ false → missing ≡ [])
      × (taken + length rs ≤ limit)

  -- The same of the rest of the keys, wherever the loop has come to.
  abbrev Later : List Bytes → Type 0
  Later keys =
      (taken used : ℕ) (page : List Record × Bool)
      → taken ≤ limit
      → scan_keys store limits limit prefix as_of taken used keys ≡ ok page
      → Covers taken used (live_under store prefix as_of keys) page

  one_more :
      (taken used : ℕ) (r : Record) (all : List Record) (page : List Record × Bool)
      → Covers (suc taken) used all page
      → Covers taken used (r ∷ all) (r ∷ page.0, page.1)
  one_more taken used r all (rs, truncated) (missing, same, whole, le) =
      (missing, ap (◌∷◌ r) same, whole, ground arith)

  -- One round, and those after it.
  one_round :
      (taken used : ℕ) (key : Bytes) (rest : List Bytes) (page : List Record × Bool) (round : Round)
      → IsOrdered (key ∷ rest)
      → key_lt key prefix ≡ false
      → taken ≤ limit
      → scan_round store limits limit prefix as_of taken used key ≡ round
      → Judged taken used key (live_under store prefix as_of rest) round
      → Later rest
      → scan_keys store limits limit prefix as_of taken used (key ∷ rest) ≡ ok page
      → Covers taken used (live_under store prefix as_of (key ∷ rest)) page
  unfolding scan_keys live_under
  one_round taken used key rest page beyond o from le e j later q = (
    [],
    ground (arith, live_under-Above store prefix as_of key rest from j o.0),
    λ _. refl,
    ground arith,
  )
  one_round taken used key rest page skipped o from le e j later q =
      rw j (later taken used page le (ground (arith)))
  one_round taken used key rest page full o from le e j later q =
      (live_under store prefix as_of (key ∷ rest), ground arith, λ t. ground arith, ground arith)
  one_round taken used key rest page (fails error) o from le e j later q = absurd (ground arith)
  one_round taken used key rest page (adds r) o from le e j later q =
      let (page', here, there) =
        >>=-eq-ok
          (scan_keys store limits limit prefix as_of (suc taken) (used + scan_record_bytes r) rest)
          (add_record r) {b = page} (ground arith) in
      let same : page ≡ (r ∷ page'.0, page'.1) = ground (arith, there) in
      rw (j.0, same)
        (one_more taken used r (live_under store prefix as_of rest) page'
          (later (suc taken) (used + scan_record_bytes r) page' (ground arith) here))

  pub scan_keys-Covers :
      (keys : List Bytes) → IsOrdered keys → All (λ k. key_lt k prefix ≡ false) keys → Later keys
  unfolding scan_keys live_under
  scan_keys-Covers [] o from taken used page le q = ([], ground arith, λ _. refl, ground arith)
  scan_keys-Covers (key ∷ rest) o from taken used page le q =
      one_round taken used key rest page _ o from.0 le refl
        (scan_round-Judged taken used key (live_under store prefix as_of rest))
        (scan_keys-Covers rest o.1 from.1) q

keys_from-IsOrdered :
    (p : Bytes → Bool) (keys : List Bytes) → IsOrdered keys → IsOrdered (keys_from p keys)
unfolding keys_from
keys_from-IsOrdered p [] o = tt
keys_from-IsOrdered p (key ∷ rest) o = elim (Bool-cases (p key)) [
  | inl e ↦ rw e o
  | inr e ↦ rw e (keys_from-IsOrdered p rest o.1)
]

not_below_above :
    (prefix key k : Bytes)
    → key_lt key prefix ≡ false
    → key_lt key k ≡ true
    → key_lt k prefix ≡ false
unfolding key_lt
not_below_above prefix key k h l = elim (Bool-cases (key_lt k prefix)) [
  | inl e ↦ cc (key_lt_trans key k prefix l e)
  | inr e ↦ e
]

all_not_below :
    (prefix key : Bytes) (ks : List Bytes)
    → key_lt key prefix ≡ false
    → Above key ks
    → All (λ k. key_lt k prefix ≡ false) ks
all_not_below prefix key [] h a = tt
all_not_below prefix key (k ∷ ks) h a =
    (not_below_above prefix key k h a.0, all_not_below prefix key ks h a.1)

keys_from-not_below :
    (prefix : Bytes) (keys : List Bytes)
    → IsOrdered keys
    → All (λ k. key_lt k prefix ≡ false) (keys_from (is_reached prefix none) keys)
unfolding keys_from
keys_from-not_below prefix [] o = tt
keys_from-not_below prefix (key ∷ rest) o = elim (Bool-cases (key_lt key prefix)) [
  | inl e ↦ rw e (keys_from-not_below prefix rest o.1)
  | inr e ↦ rw e (e, all_not_below prefix key rest e o.0)
]

below_has_no_prefix :
    (prefix key : Bytes) → key_lt key prefix ≡ true → has_prefix key prefix ≡ false
unfolding key_lt has_prefix
below_has_no_prefix [] [] h = cc
below_has_no_prefix [] (y ∷ ys) h = cc
below_has_no_prefix (x ∷ xs) [] h = refl
below_has_no_prefix (x ∷ xs) (y ∷ ys) h = ground (arith, below_has_no_prefix xs ys)

-- The keys that the search passes over hold nothing under the prefix.
live_under-keys_from :
    (store : Store) (prefix : Bytes) (as_of : Instant) (keys : List Bytes)
    → live_under store prefix as_of (keys_from (is_reached prefix none) keys)
      ≡ live_under store prefix as_of keys
unfolding live_under keys_from
live_under-keys_from store prefix as_of [] = refl
live_under-keys_from store prefix as_of (key ∷ rest) = elim (Bool-cases (key_lt key prefix)) [
  | inl e ↦ rw (e, below_has_no_prefix prefix key e) (live_under-keys_from store prefix as_of rest)
  | inr e ↦ rw e refl
]

-- If the index is strictly ordered and the first page of a scan is answered, then its records are
-- a first part of the live records under the prefix in the order of the index, all of them if the
-- page has no cursor, and no more than the limit.
pub scan_prefix-live_under :
    {L A : Type 0} (e : Engine L A) (source : Instant) (prefix : Bytes) (limit : ℕ)
    (page : ScanPage)
    → IsOrdered e.store.ordered_keys.keys
    → scan_prefix e source prefix limit none ≡ ok page
    → (missing : List Record) × (live_under e.store prefix page.as_of e.store.ordered_keys.keys
        ≡ page.records ++ missing)
      × (page.cursor ≡ none → missing ≡ [])
      × (length page.records ≤ limit)
unfolding scan_prefix check_cursor_prefix page_instant
scan_prefix-live_under e source prefix limit page o q =
    let (_, _, q₁) = >>=-eq-ok (validate_prefix prefix e.limits) _ q in
    let (_, _, q₂) =
      >>=-eq-ok (reject ((limit == 0) || ltb e.limits.max_scan_records limit) _) _ q₁ in
    let now = (clock_now e.clock source).0 in
    let keys = keys_from (is_reached prefix none) e.store.ordered_keys.keys in
    let (scanned, q₃, q₄) = >>=-eq-ok (scan_keys e.store e.limits limit prefix now 0 0 keys) _ q₂ in
    let (missing, same, whole, le) =
      scan_keys-Covers e.store e.limits limit prefix now keys
        (keys_from-IsOrdered (is_reached prefix none) e.store.ordered_keys.keys o)
        (keys_from-not_below prefix e.store.ordered_keys.keys o) 0 0 scanned (ground arith) q₃ in
    let made : page ≡ page_of prefix e.store.current now scanned = ground (arith, q₄) in
    rw made (
      missing,
      sym (live_under-keys_from e.store prefix now e.store.ordered_keys.keys) ∙ same,
      λ h. whole (ground (arith, h)),
      ground (arith, le),
    )
