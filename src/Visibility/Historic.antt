-- ===== src/Visibility/Historic.antt =====
-- `HeapTupleSatisfiesHistoricMVCC`: catalog rows as logical decoding sees them, and
-- `HeapTupleSatisfiesVisibility`, which picks the routine for a snapshot.
pub mod Laws
use pg_tde.Base.{
  ℕ, Bool, true, false, ◌&&◌, ◌||◌, not, List, [], ◌∷◌, length, if◌then◌else◌, ltb, leb, ◌==◌,
}
use pg_tde.Visibility.{
  Header, Transactions, Snapshot, is_xmin_invalid, is_xmin_frozen, heap_tuple_satisfies_mvcc,
  heap_tuple_satisfies_toast,
}
use pg_tde.Visibility.Self.{heap_tuple_satisfies_self}
use pg_tde.Visibility.Dirty.{heap_tuple_satisfies_dirty}
use pg_tde.Visibility.Vacuum.{heap_tuple_satisfies_non_vacuumable}

-- A snapshot of logical decoding. `bsearch` is the C library's, and `resolve_cmin`, `resolve_cmax` what
-- `ResolveCminCmaxDuringDecoding` finds for the tuple, if it finds it.
pub record Historic : Type 0 where
  pub xmin : ℕ
  pub xmax : ℕ
  pub curcid : ℕ
  pub xip : List ℕ
  pub subxip : List ℕ
  pub bsearch : ℕ → List ℕ → Bool
  pub resolved : Bool
  pub cmin : ℕ
  pub cmax : ℕ

abbrev pub invalid_command_id : ℕ
invalid_command_id = 4294967295

abbrev pub frozen_transaction_id : ℕ
frozen_transaction_id = 2

-- The server's macro `HeapTupleHeaderGetXmin`.
abbrev pub header_xmin : Header → ℕ
header_xmin t = if is_xmin_frozen t then frozen_transaction_id else t.raw_xmin

module _ (tx : Transactions) (s : Historic) where
  unfoldable pub transaction_id_in_array : ℕ → List ℕ → Bool
  transaction_id_in_array xid xip = ltb 0 (length xip) && s.bsearch xid xip

  -- The inserting transaction is visible; `TransactionIdFollowsOrEquals` is the negation of
  -- `TransactionIdPrecedes`.
  unfoldable pub historic_xmin : Header → Bool
  historic_xmin t =
      let xmin = header_xmin t in
      if is_xmin_invalid t
      then false
      else if transaction_id_in_array xmin s.subxip
      then (if not s.resolved then false else not (leb s.curcid s.cmin))
      else if tx.precedes xmin s.xmin
      then not (not t.xmin_committed && not (tx.did_commit xmin))
      else if not (tx.precedes xmin s.xmax)
      then false
      else transaction_id_in_array xmin s.xip

  -- The deleting transaction `xmax`.
  unfoldable pub historic_deleter : ℕ → Header → Bool
  historic_deleter xmax t =
      if transaction_id_in_array xmax s.subxip
      then (if not s.resolved || (s.cmax == invalid_command_id) then true else leb s.curcid s.cmax)
      else if tx.precedes xmax s.xmin
      then (if t.xmax_committed then false else not (tx.did_commit xmax))
      else if not (tx.precedes xmax s.xmax)
      then true
      else not (transaction_id_in_array xmax s.xip)

  unfoldable pub heap_tuple_satisfies_historic_mvcc : Header → Bool
  heap_tuple_satisfies_historic_mvcc t =
      if not (historic_xmin t)
      then false
      else if t.xmax_invalid
      then true
      else if t.locked_only
      then true
      else historic_deleter (if t.xmax_is_multi then t.update_xid else t.raw_xmax) t

-- `snapshot->snapshot_type`, with what the routine for it reads.
pub data SnapshotKind : Type 0 where
  snapshot_mvcc : Snapshot → SnapshotKind
  snapshot_self snapshot_any snapshot_toast snapshot_dirty : SnapshotKind
  snapshot_historic_mvcc : Historic → SnapshotKind
  snapshot_non_vacuumable : (ℕ → Bool) → SnapshotKind

-- `HeapTupleSatisfiesVisibility`; for `snapshot_any` it is `HeapTupleSatisfiesAny`.
unfoldable pub heap_tuple_satisfies_visibility :
    Transactions → SnapshotKind → Header → Bool × Header
heap_tuple_satisfies_visibility tx (snapshot_mvcc s) t = heap_tuple_satisfies_mvcc tx s t
heap_tuple_satisfies_visibility tx snapshot_self t = heap_tuple_satisfies_self tx t
heap_tuple_satisfies_visibility tx snapshot_any t = (true, t)
heap_tuple_satisfies_visibility tx snapshot_toast t = heap_tuple_satisfies_toast tx t
heap_tuple_satisfies_visibility tx snapshot_dirty t =
    ((heap_tuple_satisfies_dirty tx t).seen, (heap_tuple_satisfies_dirty tx t).header)
heap_tuple_satisfies_visibility tx (snapshot_historic_mvcc s) t =
    (heap_tuple_satisfies_historic_mvcc tx s t, t)
heap_tuple_satisfies_visibility tx (snapshot_non_vacuumable removable) t =
    heap_tuple_satisfies_non_vacuumable tx removable t
