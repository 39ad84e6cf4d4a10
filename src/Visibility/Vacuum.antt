-- ===== src/Visibility/Vacuum.antt =====
-- `HeapTupleSatisfiesVacuum` and its kin: whether a row may still be seen by anyone.
pub mod Laws
use pg_tde.Base.{ℕ, Bool, true, false, ◌&&◌, ◌||◌, not, if◌then◌else◌, ◌==◌}
use pg_tde.Visibility.{
  Header, Transactions, heap_xmin_committed, heap_xmin_invalid, heap_xmax_committed,
  heap_xmax_invalid, is_xmin_invalid, set_hint_bits,
}

pub data HtsvResult : Type 0 where
  dead live recently_dead insert_in_progress delete_in_progress : HtsvResult

-- The status, `*dead_after`, and the header.
pub record Status : Type 0 where
  pub result : HtsvResult
  pub dead_after : ℕ
  pub header : Header

abbrev pub status : HtsvResult → Header → Status
status r t = record { result = r; dead_after = 0; header = t }

abbrev pub dies_after : ℕ → Header → Status
dies_after xid t = record { result = recently_dead; dead_after = xid; header = t }

-- The server's macro `HeapTupleHeaderGetUpdateXid`.
abbrev pub header_update_xid : Header → ℕ
header_update_xid t =
    if not t.xmax_invalid && (t.xmax_is_multi && not t.lock_only) then t.update_xid else t.raw_xmax

module _ (tx : Transactions) where
  -- `HeapTupleHeaderIsOnlyLocked`
  unfoldable pub heap_tuple_header_is_only_locked : Header → Bool
  heap_tuple_header_is_only_locked t =
      if t.xmax_invalid
      then true
      else if t.lock_only
      then true
      else if t.raw_xmax == 0
      then true
      else if not t.xmax_is_multi
      then false
      else if tx.is_current t.update_xid
      then false
      else if tx.in_progress t.update_xid
      then false
      else not (tx.did_commit t.update_xid)

  -- Rows of the current transaction.
  unfoldable pub vacuum_own : Header → HtsvResult
  vacuum_own t =
      if t.xmax_invalid
      then insert_in_progress
      else if t.locked_only || heap_tuple_header_is_only_locked t
      then insert_in_progress
      else if tx.is_current (header_update_xid t)
      then delete_in_progress
      else insert_in_progress

  -- The deleting transaction only locked the row.
  unfoldable pub vacuum_locked : Header → Status
  vacuum_locked t =
      if t.xmax_committed
      then status live t
      else if t.xmax_is_multi
      then (if not t.locked_upgraded && tx.multi_running t.raw_xmax true
          then status live t
          else status live (set_hint_bits tx heap_xmax_invalid 0 t))
      else if tx.in_progress t.raw_xmax
      then status live t
      else status live (set_hint_bits tx heap_xmax_invalid 0 t)

  -- The inserting transaction has committed.
  unfoldable pub vacuum_xmax : Header → Status
  vacuum_xmax t =
      if t.xmax_invalid
      then status live t
      else if t.locked_only
      then vacuum_locked t
      else if t.xmax_is_multi
      then (if tx.in_progress t.update_xid
          then status delete_in_progress t
          else if tx.did_commit t.update_xid
          then dies_after t.update_xid t
          else if not (tx.multi_running t.raw_xmax false)
          then status live (set_hint_bits tx heap_xmax_invalid 0 t)
          else status live t)
      else if t.xmax_committed
      then dies_after t.raw_xmax t
      else if tx.in_progress t.raw_xmax
      then status delete_in_progress t
      else if tx.did_commit t.raw_xmax
      then dies_after t.raw_xmax (set_hint_bits tx heap_xmax_committed t.raw_xmax t)
      else status live (set_hint_bits tx heap_xmax_invalid 0 t)

  -- Rows that an old VACUUM FULL moved.
  unfoldable pub vacuum_moved : Header → Status
  vacuum_moved t =
      if t.moved_off
      then (if tx.is_current t.xvac
          then status delete_in_progress t
          else if tx.in_progress t.xvac
          then status delete_in_progress t
          else if tx.did_commit t.xvac
          then status dead (set_hint_bits tx heap_xmin_invalid 0 t)
          else vacuum_xmax (set_hint_bits tx heap_xmin_committed 0 t))
      else if tx.is_current t.xvac
      then status insert_in_progress t
      else if tx.in_progress t.xvac
      then status insert_in_progress t
      else if tx.did_commit t.xvac
      then vacuum_xmax (set_hint_bits tx heap_xmin_committed 0 t)
      else status dead (set_hint_bits tx heap_xmin_invalid 0 t)

  -- `HeapTupleSatisfiesVacuumHorizon` where the inserting transaction is not marked as committed.
  unfoldable pub horizon_unmarked : Header → Status
  horizon_unmarked t =
      if is_xmin_invalid t
      then status dead t
      else if t.moved_off || t.moved_in
      then vacuum_moved t
      else if tx.is_current t.raw_xmin
      then status (vacuum_own t) t
      else if tx.in_progress t.raw_xmin
      then status insert_in_progress t
      else if tx.did_commit t.raw_xmin
      then vacuum_xmax (set_hint_bits tx heap_xmin_committed t.raw_xmin t)
      else status dead (set_hint_bits tx heap_xmin_invalid 0 t)

  unfoldable pub heap_tuple_satisfies_vacuum_horizon : Header → Status
  heap_tuple_satisfies_vacuum_horizon t =
      if t.xmin_committed then vacuum_xmax t else horizon_unmarked t

  -- A row that is recently dead is dead when no one can see it: by `removable`, the test of the
  -- xid that killed it.
  abbrev pub beyond : (ℕ → Bool) → Status → Status
  beyond removable s = elim s.result [
    | recently_dead ↦ if removable s.dead_after then record s { result = dead } else s
    | _ ↦ s
  ]

  -- `HeapTupleSatisfiesVacuum`
  unfoldable pub heap_tuple_satisfies_vacuum : ℕ → Header → Status
  heap_tuple_satisfies_vacuum oldest_xmin t =
      beyond (λ xid. tx.precedes xid oldest_xmin) (heap_tuple_satisfies_vacuum_horizon t)

  abbrev pub is_dead : HtsvResult → Bool
  is_dead dead = true
  is_dead _ = false

  -- `HeapTupleSatisfiesNonVacuumable`; the test is `GlobalVisTestIsRemovableXid` of `vistest`.
  unfoldable pub heap_tuple_satisfies_non_vacuumable : (ℕ → Bool) → Header → Bool × Header
  heap_tuple_satisfies_non_vacuumable removable t =
      let s = beyond removable (heap_tuple_satisfies_vacuum_horizon t) in
      (not (is_dead s.result), s.header)

-- `HeapTupleIsSurelyDead`
unfoldable pub heap_tuple_is_surely_dead : (ℕ → Bool) → Header → Bool
heap_tuple_is_surely_dead removable t =
    if not t.xmin_committed
    then is_xmin_invalid t
    else if t.xmax_invalid
    then false
    else if t.locked_only
    then false
    else if t.xmax_is_multi
    then false
    else if not t.xmax_committed
    then false
    else removable t.raw_xmax
