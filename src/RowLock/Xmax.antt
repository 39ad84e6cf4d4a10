-- ===== src/RowLock/Xmax.antt =====
-- The new xmax and header bits of a row that is locked or updated: `compute_new_xmax_infomask`.
pub mod Keeps
use pg_tde.Base.{
  ℕ, Bool, true, false, ◌&&◌, ◌||◌, not, Option, none, some, if◌then◌else◌, ltb, ◌==◌,
}
use pg_tde.RowLock.{
  LockTupleMode, lock_tuple_key_share, lock_tuple_share, lock_tuple_no_key_exclusive,
  lock_tuple_exclusive, MultiXactStatus, for_key_share, for_share, for_no_key_update, for_update,
  no_key_update, update, strength, get_mxact_status_for_lock, tuplock_from_mxstatus, Infomask,
  Server,
}
use pg_tde.RowLock.Members.{get_multi_xact_id_hint_bits, multi_xact_id_get_update_xid}

-- `*result_xmax`, `*result_infomask` and `*result_infomask2`.
pub record NewXmax : Type 0 where
  pub xmax : ℕ
  pub infomask : Infomask

-- The server's macros `HEAP_XMAX_IS_LOCKED_ONLY` and `HEAP_LOCKED_UPGRADED`.
abbrev pub is_locked_only : Infomask → Bool
is_locked_only m = m.lock_only || (not m.is_multi && (m.excl_lock && not m.keyshr_lock))

abbrev pub is_locked_upgraded : Infomask → Bool
is_locked_upgraded m = m.is_multi && (m.lock_only && (not m.excl_lock && not m.keyshr_lock))

abbrev pub no_bits : Infomask
no_bits = record {
  is_multi = false;
  lock_only = false;
  keyshr_lock = false;
  excl_lock = false;
  xmax_committed = false;
  xmax_invalid = false;
  keys_updated = false;
}

-- The bits of a lock by one transaction.
abbrev pub lock_bits : LockTupleMode → Infomask
lock_bits lock_tuple_key_share = record no_bits { lock_only = true; keyshr_lock = true }
lock_bits lock_tuple_share = record no_bits {
  lock_only = true;
  keyshr_lock = true;
  excl_lock = true;
}
lock_bits lock_tuple_no_key_exclusive = record no_bits { lock_only = true; excl_lock = true }
lock_bits lock_tuple_exclusive = record no_bits {
  lock_only = true;
  excl_lock = true;
  keys_updated = true;
}

abbrev pub is_exclusive : LockTupleMode → Bool
is_exclusive lock_tuple_exclusive = true
is_exclusive _ = false

-- The first branch at `l5`: no one else holds the row. Each `goto l5` sets `HEAP_XMAX_INVALID` first,
-- so it ends here.
unfoldable pub sole_xmax : ℕ → LockTupleMode → Bool → NewXmax
sole_xmax add_to_xmax mode is_update = record {
  xmax = add_to_xmax;
  infomask =
      if is_update then record no_bits { keys_updated = is_exclusive mode } else lock_bits mode;
}

abbrev pub update_status : Infomask → MultiXactStatus
update_status old = if old.keys_updated then update else no_key_update

-- The status of a transaction that holds the row by itself, by the bits; none where `LOCK_ONLY` stands
-- alone.
unfoldable pub held_status : Infomask → Option MultiXactStatus
held_status old =
    if is_locked_only old
    then (if old.keyshr_lock && not old.excl_lock
        then some for_key_share
        else if old.keyshr_lock && old.excl_lock
        then some for_share
        else if old.excl_lock
        then (if old.keys_updated then some for_update else some for_no_key_update)
        else none)
    else some (update_status old)

abbrev pub strongest_of : LockTupleMode → LockTupleMode → LockTupleMode
strongest_of mode old_mode = if ltb (strength mode) (strength old_mode) then old_mode else mode

module _ (server : Server) where
  -- The multixact that `make` gives for the new status, with the bits for its members.
  unfoldable pub multi_xmax : (MultiXactStatus → ℕ) → Option MultiXactStatus → Option NewXmax
  multi_xmax make none = none
  multi_xmax make (some new_status) = some (record {
    xmax = make new_status;
    infomask = get_multi_xact_id_hint_bits server (make new_status);
  })

  -- A new multixact of the old holder and the new one; none where the mode cannot be had.
  unfoldable pub join_xmax : ℕ → MultiXactStatus → ℕ → LockTupleMode → Bool → Option NewXmax
  join_xmax xmax status add_to_xmax mode is_update =
      multi_xmax (server.multi_create xmax status add_to_xmax)
        (get_mxact_status_for_lock mode is_update)

  -- The old xmax is a multixact.
  unfoldable pub expand_xmax : ℕ → Infomask → ℕ → LockTupleMode → Bool → Option NewXmax
  expand_xmax xmax old add_to_xmax mode is_update =
      if is_locked_upgraded old
      then some (sole_xmax add_to_xmax mode is_update)
      else if not (server.multi_running xmax (is_locked_only old))
          && (is_locked_only old
              || not (server.did_commit (multi_xact_id_get_update_xid server xmax)))
      then some (sole_xmax add_to_xmax mode is_update)
      else multi_xmax (server.multi_expand xmax add_to_xmax)
          (get_mxact_status_for_lock mode is_update)

  -- The old xmax is a transaction in progress, with the status that its bits show.
  unfoldable pub running_xmax :
      ℕ → Option MultiXactStatus → ℕ → LockTupleMode → Bool → Option NewXmax
  running_xmax xmax none add_to_xmax mode is_update = some (sole_xmax add_to_xmax mode is_update)
  running_xmax xmax (some old_status) add_to_xmax mode is_update =
      if xmax == add_to_xmax
      then some
          (sole_xmax add_to_xmax (strongest_of mode (tuplock_from_mxstatus old_status)) is_update)
      else join_xmax xmax old_status add_to_xmax mode is_update

  -- `compute_new_xmax_infomask`; none is the `elog(ERROR)` of `get_mxact_status_for_lock`.
  unfoldable pub compute_new_xmax_infomask :
      ℕ → Infomask → ℕ → LockTupleMode → Bool → Option NewXmax
  compute_new_xmax_infomask xmax old add_to_xmax mode is_update =
      if old.xmax_invalid
      then some (sole_xmax add_to_xmax mode is_update)
      else if old.is_multi
      then expand_xmax xmax old add_to_xmax mode is_update
      else if old.xmax_committed
      then join_xmax xmax (update_status old) add_to_xmax mode is_update
      else if server.in_progress xmax
      then running_xmax xmax (held_status old) add_to_xmax mode is_update
      else if not (is_locked_only old) && server.did_commit xmax
      then join_xmax xmax (update_status old) add_to_xmax mode is_update
      else some (sole_xmax add_to_xmax mode is_update)
