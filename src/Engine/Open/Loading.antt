-- ===== src/Engine/Open/Loading.antt =====
-- A state that was constructed is consistent.
use gapdb.Prelude.{
  ℕ, ◌≤◌, ◌==◌, length, not, leb, ◌||◌, none, some, List, [], ◌∷◌, Bytes, ◌≡◌, refl, ◌∙◌, arith,
  inl, inr, Bool-cases, ltb,
}
use gapdb.Prelude.Int.{pos, ltb_ℤ}
use gapdb.Prelude.Dict.{lookup, insert, lookup-insert}
use gapdb.Prelude.Keys.{key_eq, key_eq→eq, key_eq_sym}
use gapdb.Prelude.Sorted.{has, IsDistinct, sort_strings-IsOrdered, has-sort_strings}
use gapdb.Api.Errors.{Result, ok, reject, >>=-eq-ok}
use gapdb.Api.Types.{Record}
use gapdb.Api.Options.{Limits, validate_options}
use gapdb.Api.Validate.{is_some, validate_key}
use gapdb.Engine.History.{HistoryLog, initialize, rebuild, rebuild_from, append, recovered_events}
use gapdb.Engine.History.Retention.{IsBounded, append-IsBounded}
use gapdb.Engine.Expiry.{schedule_record_expiry}
use gapdb.Persist.Frames.{CommitFrame}
use gapdb.Engine.State.{Engine}
use gapdb.Engine.Writer.Invariant.{IsConsistent}
use gapdb.Engine.Open.{Config, Loaded, check_cleanup, load_records, map_keys, limits_of, new}

has-map_keys : (k : Bytes) (m : List (Bytes × Record)) → has k (map_keys m) ≡ is_some (lookup k m)
unfolding has lookup
has-map_keys k [] = refl
has-map_keys k ((j, r) ∷ rest) = ground (arith, has-map_keys k rest)

has-map_keys-insert :
    (j k : Bytes) (r : Record) (m : List (Bytes × Record))
    → has j (map_keys (insert k r m)) ≡ (key_eq k j || has j (map_keys m))
has-map_keys-insert j k r m =
    ground (arith, has-map_keys j (insert k r m), has-map_keys j m, lookup-insert k j r m)

insert-IsDistinct :
    (k : Bytes) (r : Record) (m : List (Bytes × Record))
    → IsDistinct (map_keys m)
    → IsDistinct (map_keys (insert k r m))
unfolding insert has
insert-IsDistinct k r [] d = (refl, tt)
insert-IsDistinct k r ((j, s) ∷ rest) d = elim (Bool-cases (key_eq j k)) [
  | inl same ↦ rw same (rw (← (key_eq→eq j k same)) d.0, d.1)
  | inr other ↦ rw other (
    ground (arith, has-map_keys-insert j k r rest, key_eq_sym j k, d.0),
    insert-IsDistinct k r rest d.1,
  )
]

-- What the loop has checked of the records so far.
record IsLoaded (current : ℕ) (m : List (Bytes × Record)) : Type 0 where
  distinct : IsDistinct (map_keys m)
  revisions : (k : Bytes) (r : Record) → lookup k m ≡ some r → r.revision ≤ current

ok-eq : {X : Type 0} (x y : X) → ◌≡◌ {A = Result X} (ok x) (ok y) → x ≡ y
ok-eq x y q = cc

lookup_nothing : (k : Bytes) → lookup {V = Record} k [] ≡ none
unfolding lookup
lookup_nothing k = refl

load_records-IsLoaded :
    (limits : Limits) (current : ℕ) (loaded : Loaded) (rs : List Record) (loaded' : Loaded)
    → IsLoaded current loaded.records
    → load_records limits current loaded rs ≡ ok loaded'
    → IsLoaded current loaded'.records
unfolding load_records
load_records-IsLoaded limits current loaded [] loaded' i q = rw (← (ok-eq loaded loaded' q)) i
load_records-IsLoaded limits current loaded (r ∷ rest) loaded' i q =
    let (_, _, q₁) = >>=-eq-ok (validate_key r.key limits) _ q in
    let (_, q₂, q₃) = >>=-eq-ok (reject (r.revision == 0 || ltb current r.revision) _) _ q₁ in
    let (_, _, q₄) = >>=-eq-ok (reject (ltb limits.max_value_bytes (length r.value)) _) _ q₃ in
    let (_, _, q₅) = >>=-eq-ok (check_cleanup limits r.key r.expires_at) _ q₄ in
    let (_, _, q₆) = >>=-eq-ok (reject (is_some (lookup r.key loaded.records)) _) _ q₅ in
    load_records-IsLoaded limits current
      (record {
        records = insert r.key r loaded.records;
        expiries = schedule_record_expiry r loaded.expiries;
      })
      rest loaded'
      (record {
        distinct = insert-IsDistinct r.key r loaded.records i.distinct;
        revisions =
            λ k x h. ground (arith, q₂, lookup-insert r.key k r loaded.records, i.revisions k x);
      })
      q₆

rebuild_from-IsBounded :
    (previous : ℕ) (h : HistoryLog) (commits : List CommitFrame) (current : ℕ) (h' : HistoryLog)
    → IsBounded h
    → rebuild_from previous h commits current ≡ ok h'
    → IsBounded h'
unfolding rebuild_from
rebuild_from-IsBounded previous h [] current h' v q =
    let (_, _, q') = >>=-eq-ok (reject (not (previous == current)) _) _ q in
    rw (← (ok-eq h h' q')) v
rebuild_from-IsBounded previous h (commit ∷ rest) current h' v q =
    let (_, _, q') =
      >>=-eq-ok (reject (leb commit.revision previous || ltb current commit.revision) _) _ q in
    rebuild_from-IsBounded commit.revision
      (append h (recovered_events commit.revision 0 commit.effects)) rest current h'
      (append-IsBounded h (recovered_events commit.revision 0 commit.effects) v) q'

initialize-IsBounded : (limits : Limits) (revision : ℕ) → IsBounded (initialize limits revision)
unfolding initialize
initialize-IsBounded limits revision = record {
  events_counted = refl;
  bytes_counted = refl;
  events_within = omega arith;
  bytes_within = omega arith;
}

-- If a state is constructed from a configuration, then its store is consistent and the durable
-- revision is at most the current one.
pub new-IsConsistent :
    {L A : Type 0} (c : Config L A) (e : Engine L A)
    → new c ≡ ok e
    → IsConsistent e.store × (e.durable_through ≤ e.store.current)
unfolding new rebuild
new-IsConsistent c e q =
    let limits = limits_of c.limits in
    let (_, _, q₁) = >>=-eq-ok (validate_options limits) _ q in
    let (_, _, q₀) = >>=-eq-ok (reject (ltb_ℤ c.queue_capacity (pos 0)) _) _ q₁ in
    let (_, p, q₂) =
      >>=-eq-ok (reject (ltb c.current_revision c.durable_through_revision) _) _ q₀ in
    let (_, _, q₃) = >>=-eq-ok (reject (ltb c.current_revision c.snapshot_revision) _) _ q₂ in
    let (loaded, q₄, q₅) =
      >>=-eq-ok
        (load_records limits c.current_revision (record { records = []; expiries = [] }) c.records)
        _ q₃ in
    let (history, q₆, q₇) =
      >>=-eq-ok
        (rebuild (initialize limits c.snapshot_revision) c.recovered_commits c.current_revision) _
        q₅ in
    let i =
      load_records-IsLoaded limits c.current_revision (record { records = []; expiries = [] })
        c.records loaded
        (record { distinct = tt; revisions = λ k r h. ground (arith, lookup_nothing k) }) q₄ in
    rw (← (ok-eq _ e q₇)) (
      record {
        ordered = sort_strings-IsOrdered (map_keys loaded.records) i.distinct;
        indexed = λ k. has-sort_strings k (map_keys loaded.records) ∙ has-map_keys k loaded.records;
        revisions = i.revisions;
        bounded =
            rebuild_from-IsBounded _ (initialize limits c.snapshot_revision) c.recovered_commits
              c.current_revision history (initialize-IsBounded limits c.snapshot_revision) q₆;
      },
      ground (arith, p),
    )
