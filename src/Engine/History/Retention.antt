-- ===== src/Engine/History/Retention.antt =====
-- What `append` keeps: the counters count, the bounds hold, and only a compacted prefix is lost.
use mathlib.Core.List.{append_assoc}
use gapdb.Prelude.{
  ℕ, ◌+◌, ◌≤◌, ◌≡◌, refl, sym, ap, ◌∙◌, inl, inr, List, [], ◌∷◌, ◌++◌, arith, length, All,
  All-append, Bool-cases,
}
use gapdb.Api.Types.{ChangeEvent}
use gapdb.Engine.History.{EventGroup, HistoryLog, append, without_oldest, is_over, evict, group_of}

abbrev pub sum_events : List EventGroup → ℕ
sum_events [] = 0
sum_events (g ∷ rest) = length g.events + sum_events rest

abbrev pub sum_bytes : List EventGroup → ℕ
sum_bytes [] = 0
sum_bytes (g ∷ rest) = g.bytes + sum_bytes rest

sum_events-append :
    (xs ys : List EventGroup) → sum_events (xs ++ ys) ≡ sum_events xs + sum_events ys
sum_events-append [] ys = omega arith
sum_events-append (x ∷ xs) ys = omega (arith, sum_events-append xs ys)

sum_bytes-append : (xs ys : List EventGroup) → sum_bytes (xs ++ ys) ≡ sum_bytes xs + sum_bytes ys
sum_bytes-append [] ys = omega arith
sum_bytes-append (x ∷ xs) ys = omega (arith, sum_bytes-append xs ys)

-- The counters are the sums over the retained commits, and lie within the bounds.
pub record IsBounded (h : HistoryLog) : Type 0 where
  pub events_counted : h.event_count ≡ sum_events h.commits
  pub bytes_counted : h.byte_count ≡ sum_bytes h.commits
  pub events_within : h.event_count ≤ h.max_events
  pub bytes_within : h.byte_count ≤ h.max_bytes

evict-IsBounded :
    (gs : List EventGroup) (h : HistoryLog)
    → h.event_count ≡ sum_events gs
    → h.byte_count ≡ sum_bytes gs
    → IsBounded (evict h gs)
unfolding evict
evict-IsBounded [] h e b = ground arith
evict-IsBounded (g ∷ rest) h e b = ground (arith, evict-IsBounded rest (without_oldest h g))

-- If the event and byte counts of the log are right and within their limits, then they are so
-- after the events of a commit are appended.
pub append-IsBounded :
    (h : HistoryLog) (events : List ChangeEvent) → IsBounded h → IsBounded (append h events)
unfolding append
append-IsBounded h [] v = v
append-IsBounded h (event ∷ rest) v =
    let g = group_of event rest in
    evict-IsBounded (h.commits ++ (g ∷ [])) _
      (omega (arith, sum_events-append h.commits (g ∷ []), v.events_counted))
      (omega (arith, sum_bytes-append h.commits (g ∷ []), v.bytes_counted))

-- `full` is every commit that was ever appended; what the log has lost is compacted.
pub record Retains (h : HistoryLog) (full : List EventGroup) : Type 0 where
  pub dropped : List EventGroup
  pub split : full ≡ dropped ++ h.commits
  pub old : All (λ g. g.revision ≤ h.compacted_through) dropped

older :
    (m n : ℕ) (gs : List EventGroup)
    → m ≤ n
    → All (λ g. g.revision ≤ m) gs
    → All (λ g. g.revision ≤ n) gs
older m n [] h o = tt
older m n (g ∷ gs) h o = (omega arith, older m n gs h o.1)

abbrev Kept : HistoryLog → List EventGroup → List EventGroup → Type 0
Kept h dropped gs =
    (lost : List EventGroup) × (dropped ++ gs ≡ lost ++ (evict h gs).commits)
    × All (λ g. g.revision ≤ (evict h gs).compacted_through) lost

evict-Kept :
    (gs dropped : List EventGroup) (h : HistoryLog)
    → All (λ g. g.revision ≤ h.compacted_through) dropped
    → Kept h dropped gs
unfolding evict
evict-Kept [] dropped h old = (dropped, refl, old)
evict-Kept (g ∷ rest) dropped h old = elim (Bool-cases (is_over h)) [
  | inr fits ↦ rw (fits, evict) (dropped, refl, old)
  | inl over ↦
      let (lost, split, olds) =
        evict-Kept rest (dropped ++ (g ∷ [])) (without_oldest h g) (
          All-append _ dropped (g ∷ []) (older _ _ dropped (ground arith) old)
            (ground arith, tt)) in
      rw (over, evict) (lost, sym (append_assoc dropped (g ∷ []) rest) ∙ split, olds)
]

-- If the log retains all groups of a full history but old ones, then after the events of a commit
-- are appended it retains all groups of the extended history but old ones, and every group that
-- it lacks is at or below the compacted revision.
pub append-Retains :
    (h : HistoryLog) (full : List EventGroup) (event : ChangeEvent) (rest : List ChangeEvent)
    → Retains h full
    → Retains (append h (event ∷ rest)) (full ++ (group_of event rest ∷ []))
unfolding append
append-Retains h full event rest r =
    let g = group_of event rest in
    let (lost, split, olds) = evict-Kept (h.commits ++ (g ∷ [])) r.dropped _ r.old in
    record {
      dropped = lost;
      split = ap (λ l. l ++ (g ∷ [])) r.split ∙ append_assoc r.dropped h.commits (g ∷ []) ∙ split;
      old = olds;
    }
