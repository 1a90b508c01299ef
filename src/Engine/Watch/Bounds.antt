-- ===== src/Engine/Watch/Bounds.antt =====
-- No watcher holds more than its buffer, and the count of the active watchers is right.
use gapdb.Prelude.{
  ℕ, suc, ◌+◌, ◌==◌, ◌≤◌, Bool, true, false, none, List, [], ◌∷◌, Bytes, length, ltb, leb, ◌≡◌, ◌≢◌,
  refl, arith, All, inl, inr, Bool-cases,
}
use gapdb.Api.Errors.{ok, reject, >>=-eq-ok}
use gapdb.Api.Options.{Limits}
use gapdb.Engine.History.{HistoryLog, replay_groups_for_watch}
use gapdb.Engine.Watch.{WatchEndReason, Watcher, Registry, Published, stays, leaves}
use gapdb.Engine.History.Replay.{replay_groups_for_watch-within}
use gapdb.Engine.Watch.Register.{
  register_watch, add_watcher, new_watcher, unregister_watch, without_watcher, end_all,
  shutdown_watchers,
}

-- A registered watcher has no end message, and its queue is within the limit, in events and groups.
abbrev pub IsWithin : Watcher → Type 0
IsWithin w = (w.end ≡ none) × (w.queued_events ≤ w.limit) × (length w.live ≤ w.limit)

-- A watcher that was taken out has an end message.
abbrev pub HasEnded : Watcher → Type 0
HasEnded w = w.end ≢ none

-- The registry, with `n` watchers aside.
abbrev Counts : ℕ → Registry → Type 0
Counts n r =
    (r.active_watches ≡ length r.watchers + n) × All IsWithin r.watchers × All HasEnded r.removed

pub record IsAccounted (r : Registry) : Type 0 where
  pub counted : r.active_watches ≡ length r.watchers
  pub within : All IsWithin r.watchers
  pub ended : All HasEnded r.removed

abbrev Fine : Published → Type 0
Fine (stays w) = IsWithin w
Fine (leaves w) = HasEnded w

without_watcher-Counts :
    (id : ℕ) (reason : WatchEndReason) (current n : ℕ) (ws : List Watcher) (r : Registry)
    → r.active_watches ≡ length ws + n
    → r.watchers ≡ []
    → All IsWithin ws
    → All HasEnded r.removed
    → Counts n (without_watcher id reason current ws r)
unfolding without_watcher
without_watcher-Counts id reason current n [] r c e h d = rw e (ground (arith, c), tt, d)
without_watcher-Counts id reason current n (w ∷ rest) r c e h d =
    let (c', h', d') =
      without_watcher-Counts id reason current (suc n) rest r (omega (arith, c)) e h.1 d in
    elim (Bool-cases (w.id == id)) [
      | inl here ↦ rw here (omega (arith, c), h.1, ((λ q. cc), d))
      | inr other ↦ rw other (omega (arith, c'), (h.0, h'), d')
    ]

end_all-Counts :
    (current : ℕ) (ws : List Watcher) (r : Registry)
    → r.active_watches ≡ length ws
    → r.watchers ≡ []
    → All HasEnded r.removed
    → Counts 0 (end_all current ws r) × ((end_all current ws r).watchers ≡ [])
unfolding end_all
end_all-Counts current [] r c e d = (rw e (ground (arith, c), tt, d), e)
end_all-Counts current (w ∷ rest) r c e d =
    end_all-Counts current rest _ (omega (arith)) e ((λ q. cc), d)

-- If the registry is accounted for, then it is so after a watcher is unregistered.
pub unregister_watch-IsAccounted :
    (id : ℕ) (reason : WatchEndReason) (current : ℕ) (r : Registry)
    → IsAccounted r
    → IsAccounted (unregister_watch id reason current r)
unfolding unregister_watch
unregister_watch-IsAccounted id reason current r a =
    let (c, h, d) =
      without_watcher-Counts id reason current 0 r.watchers (record r { watchers = [] })
        (omega (arith, a.counted)) refl a.within a.ended in
    record { counted = omega (arith, c); within = h; ended = d }

-- If the registry is accounted for, then it is so after the shutdown, and no watcher is
-- registered or counted any more.
pub shutdown_watchers-IsAccounted :
    (current : ℕ) (r : Registry)
    → IsAccounted r
    → IsAccounted (shutdown_watchers current r)
      × ((shutdown_watchers current r).watchers ≡ [])
      × ((shutdown_watchers current r).active_watches ≡ 0)
unfolding shutdown_watchers
shutdown_watchers-IsAccounted current r a =
    let ((c, h, d), none_left) =
      end_all-Counts current r.watchers (record r { watchers = [] }) a.counted refl a.ended in
    (
      record { counted = omega (arith, c); within = h; ended = d },
      none_left,
      ground (arith, c, none_left),
    )

add_watcher-IsAccounted :
    (r : Registry) (w : Watcher) (current maximum events : ℕ) (fits : Bool)
    → IsAccounted r
    → suc (length r.watchers) ≤ maximum
    → w.end ≡ none
    → w.live ≡ []
    → (fits ≡ true → events ≤ w.limit)
    → IsAccounted (add_watcher r w current events fits)
      × (length (add_watcher r w current events fits).watchers ≤ maximum)
unfolding add_watcher
add_watcher-IsAccounted r w current maximum events true a le e l f = (
  record {
    counted = ground (arith, a.counted);
    within = ((e, f refl, rw l (omega arith)), a.within);
    ended = a.ended;
  },
  le,
)
add_watcher-IsAccounted r w current maximum events false a le e l f = (
  record { counted = a.counted; within = a.within; ended = ((λ q. cc), a.ended) },
  omega (arith, le),
)

-- If the registry is accounted for and within the limit of watchers, then it is so after a
-- watcher is registered.
pub register_watch-IsAccounted :
    (limits : Limits) (h : HistoryLog) (current depth : ℕ) (r : Registry) (prefix : Bytes)
    (from : ℕ) (r' : Registry) (id : ℕ)
    → IsAccounted r
    → length r.watchers ≤ limits.max_watch_clients
    → register_watch limits h current depth r prefix from ≡ ok (r', id)
    → IsAccounted r' × (length r'.watchers ≤ limits.max_watch_clients)
unfolding register_watch
register_watch-IsAccounted limits h current depth r prefix from r' id a le q =
    let (_, _, q₁) = >>=-eq-ok (reject (ltb current from) _) _ q in
    let ((groups, events, fits), found, q₂) =
      >>=-eq-ok (replay_groups_for_watch h prefix from limits.watch_buffer_events) _ q₁ in
    let (_, room, q₃) =
      >>=-eq-ok (reject (leb limits.max_watch_clients (length r.watchers)) _) _ q₂ in
    let w = new_watcher limits (suc r.next_watcher_id) current prefix from groups in
    let (a', le') =
      add_watcher-IsAccounted (record r { next_watcher_id = suc r.next_watcher_id }) w current
        limits.max_watch_clients events fits
        (record { counted = a.counted; within = a.within; ended = a.ended }) (ground (arith, room))
        refl refl
        (λ f.
          replay_groups_for_watch-within h prefix from limits.watch_buffer_events groups events
            (rw (← f) found)) in
    let same : r'
        ≡ add_watcher (record r { next_watcher_id = suc r.next_watcher_id }) w current events fits =
      ground (arith, q₃) in
    rw same (a', le')
