-- ===== src/Visibility.antt =====
-- Which version of a row a reader sees, src/access/pg_tdeam_visibility.c: the tuple's header,
-- `SetHintBits`, `HeapTupleSatisfiesToast` and `HeapTupleSatisfiesMVCC`. The children have the
-- routines for the other kinds of snapshot, for updates and for vacuum.
pub mod Hints
pub mod Self
pub mod Update
pub mod Dirty
pub mod Unhinted
pub mod Vacuum
pub mod Historic
use pg_tde.Base.{ℕ, Option, Bool, true, false, ◌&&◌, ◌||◌, not, if◌then◌else◌, ltb, leb, ◌==◌}

-- A tuple's header as the server's macros read it. `locked_only` is `HEAP_XMAX_IS_LOCKED_ONLY`,
-- which no hint bit bears on, `lock_only` the bit `HEAP_XMAX_LOCK_ONLY`, `locked_upgraded` is
-- `HEAP_LOCKED_UPGRADED` and `update_xid` is `HeapTupleGetUpdateXid`. An item pointer is a number.
pub record Header : Type 0 where
  pub xmin_committed : Bool
  pub xmin_invalid : Bool
  pub xmax_committed : Bool
  pub xmax_invalid : Bool
  pub moved_off : Bool
  pub moved_in : Bool
  pub xmax_is_multi : Bool
  pub lock_only : Bool
  pub locked_only : Bool
  pub locked_upgraded : Bool
  pub raw_xmin : ℕ
  pub raw_xmax : ℕ
  pub xvac : ℕ
  pub update_xid : ℕ
  pub cmin : ℕ
  pub cmax : ℕ
  pub t_ctid : ℕ
  pub speculative_token : Option ℕ

-- The server's view of transactions, and of the log and the buffer for `SetHintBits`.
-- `multi_running` is `MultiXactIdIsRunning` and `precedes` is `TransactionIdPrecedes`.
pub record Transactions : Type 0 where
  pub is_current : ℕ → Bool
  pub in_progress : ℕ → Bool
  pub did_commit : ℕ → Bool
  pub multi_running : ℕ → Bool → Bool
  pub precedes : ℕ → ℕ → Bool
  pub commit_lsn : ℕ → ℕ
  pub needs_flush : ℕ → Bool
  pub buffer_permanent : Bool
  pub buffer_lsn : ℕ

-- `curcid`, and `XidInMVCCSnapshot`.
pub record Snapshot : Type 0 where
  pub curcid : ℕ
  pub in_snapshot : ℕ → Bool

pub data Hint : Type 0 where
  heap_xmin_committed heap_xmin_invalid heap_xmax_committed heap_xmax_invalid : Hint

abbrev pub with_hint : Hint → Header → Header
with_hint heap_xmin_committed t = record t { xmin_committed = true }
with_hint heap_xmin_invalid t = record t { xmin_invalid = true }
with_hint heap_xmax_committed t = record t { xmax_committed = true }
with_hint heap_xmax_invalid t = record t { xmax_invalid = true }

-- `HeapTupleHeaderXminInvalid` and `HeapTupleHeaderXminFrozen`: frozen is both bits.
abbrev pub is_xmin_invalid : Header → Bool
is_xmin_invalid t = t.xmin_invalid && not t.xmin_committed

abbrev pub is_xmin_frozen : Header → Bool
is_xmin_frozen t = t.xmin_invalid && t.xmin_committed

-- What is known once the inserting transaction has been looked at.
pub data Verdict : Type 0 where
  visible invisible look_at_xmax : Verdict

abbrev pub verdict : Bool → Verdict
verdict true = visible
verdict false = invisible

module _ (tx : Transactions) where
  -- `SetHintBits`; 0 is `InvalidTransactionId`.
  unfoldable pub set_hint_bits : Hint → ℕ → Header → Header
  set_hint_bits hint xid t =
      let lsn = tx.commit_lsn xid in
      if not (xid == 0) && (tx.buffer_permanent && (tx.needs_flush lsn && ltb tx.buffer_lsn lsn))
      then t
      else with_hint hint t

  -- `HeapTupleSatisfiesToast`
  unfoldable pub heap_tuple_satisfies_toast : Header → Bool × Header
  heap_tuple_satisfies_toast t =
      if t.xmin_committed
      then (true, t)
      else if is_xmin_invalid t
      then (false, t)
      else if t.moved_off
      then (if tx.is_current t.xvac
          then (false, t)
          else if tx.in_progress t.xvac
          then (true, t)
          else if tx.did_commit t.xvac
          then (false, set_hint_bits heap_xmin_invalid 0 t)
          else (true, set_hint_bits heap_xmin_committed 0 t))
      else if t.moved_in
      then (if tx.is_current t.xvac
          then (true, t)
          else if tx.in_progress t.xvac
          then (false, t)
          else if tx.did_commit t.xvac
          then (true, set_hint_bits heap_xmin_committed 0 t)
          else (false, set_hint_bits heap_xmin_invalid 0 t))
      else (not (t.raw_xmin == 0), t)

  -- Rows that an old VACUUM FULL moved, as `HeapTupleSatisfiesSelf`, `Update` and `Dirty` take them.
  unfoldable pub moved_xmin : Header → Verdict × Header
  moved_xmin t =
      if t.moved_off
      then (if tx.is_current t.xvac
          then (invisible, t)
          else if tx.in_progress t.xvac
          then (look_at_xmax, t)
          else if tx.did_commit t.xvac
          then (invisible, set_hint_bits heap_xmin_invalid 0 t)
          else (look_at_xmax, set_hint_bits heap_xmin_committed 0 t))
      else if tx.is_current t.xvac
      then (look_at_xmax, t)
      else if tx.in_progress t.xvac
      then (invisible, t)
      else if tx.did_commit t.xvac
      then (look_at_xmax, set_hint_bits heap_xmin_committed 0 t)
      else (invisible, set_hint_bits heap_xmin_invalid 0 t)

  module _ (snapshot : Snapshot) where
    -- Rows of the reader's own transaction.
    unfoldable pub mvcc_own : Header → Verdict × Header
    mvcc_own t =
        if leb snapshot.curcid t.cmin
        then (invisible, t)
        else if t.xmax_invalid
        then (visible, t)
        else if t.locked_only
        then (visible, t)
        else if t.xmax_is_multi
        then (if not (tx.is_current t.update_xid)
            then (visible, t)
            else (verdict (leb snapshot.curcid t.cmax), t))
        else if not (tx.is_current t.raw_xmax)
        then (visible, set_hint_bits heap_xmax_invalid 0 t)
        else (verdict (leb snapshot.curcid t.cmax), t)

    -- `HeapTupleSatisfiesMVCC` as far as "the inserting transaction has committed".
    unfoldable pub mvcc_xmin : Header → Verdict × Header
    mvcc_xmin t =
        if t.xmin_committed
        then (if not (is_xmin_frozen t) && snapshot.in_snapshot t.raw_xmin
            then (invisible, t)
            else (look_at_xmax, t))
        else if is_xmin_invalid t
        then (invisible, t)
        else if t.moved_off
        then (if tx.is_current t.xvac
            then (invisible, t)
            else if snapshot.in_snapshot t.xvac
            then (look_at_xmax, t)
            else if tx.did_commit t.xvac
            then (invisible, set_hint_bits heap_xmin_invalid 0 t)
            else (look_at_xmax, set_hint_bits heap_xmin_committed 0 t))
        else if t.moved_in
        then (if tx.is_current t.xvac
            then (look_at_xmax, t)
            else if snapshot.in_snapshot t.xvac
            then (invisible, t)
            else if tx.did_commit t.xvac
            then (look_at_xmax, set_hint_bits heap_xmin_committed 0 t)
            else (invisible, set_hint_bits heap_xmin_invalid 0 t))
        else if tx.is_current t.raw_xmin
        then mvcc_own t
        else if snapshot.in_snapshot t.raw_xmin
        then (invisible, t)
        else if tx.did_commit t.raw_xmin
        then (look_at_xmax, set_hint_bits heap_xmin_committed t.raw_xmin t)
        else (invisible, set_hint_bits heap_xmin_invalid 0 t)

    -- The rest of it: the deleting transaction.
    unfoldable pub mvcc_xmax : Header → Bool × Header
    mvcc_xmax t =
        if t.xmax_invalid
        then (true, t)
        else if t.locked_only
        then (true, t)
        else if t.xmax_is_multi
        then (if tx.is_current t.update_xid
            then (leb snapshot.curcid t.cmax, t)
            else if snapshot.in_snapshot t.update_xid
            then (true, t)
            else (not (tx.did_commit t.update_xid), t))
        else if t.xmax_committed
        then (snapshot.in_snapshot t.raw_xmax, t)
        else if tx.is_current t.raw_xmax
        then (leb snapshot.curcid t.cmax, t)
        else if snapshot.in_snapshot t.raw_xmax
        then (true, t)
        else if tx.did_commit t.raw_xmax
        then (false, set_hint_bits heap_xmax_committed t.raw_xmax t)
        else (true, set_hint_bits heap_xmax_invalid 0 t)

    -- How the two parts are joined.
    unfoldable pub mvcc_join : Verdict × Header → Bool × Header
    mvcc_join (visible, t) = (true, t)
    mvcc_join (invisible, t) = (false, t)
    mvcc_join (look_at_xmax, t) = mvcc_xmax t

    unfoldable pub heap_tuple_satisfies_mvcc : Header → Bool × Header
    heap_tuple_satisfies_mvcc t = mvcc_join (mvcc_xmin t)
