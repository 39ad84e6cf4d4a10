-- ===== src/RowLock/Members.antt =====
-- The members of a multixact: the header bits for them, the updater, conflicts, and waiting.
pub mod HintBits
pub mod Conflicts
use pg_tde.Base.{
  ℕ, ◌+◌, Bool, true, false, ◌&&◌, ◌||◌, not, Option, none, some, List, [], ◌∷◌, ◌++◌,
  if◌then◌else◌, ltb, ◌==◌,
}
use pg_tde.RowLock.{
  LockTupleMode, lock_tuple_key_share, lock_tuple_share, lock_tuple_no_key_exclusive,
  lock_tuple_exclusive, MultiXactStatus, for_key_share, for_share, for_no_key_update, for_update,
  no_key_update, update, LockMode, MultiXactMember, strength, hwlock, get_mxact_status_for_lock,
  tuplock_from_mxstatus, isupdate_from_mxstatus, lockmode_from_mxstatus, Infomask, Server,
}

-- The variables of the loop in `GetMultiXactIdHintBits`.
pub record Scan : Type 0 where
  pub keys_updated : Bool
  pub has_update : Bool
  pub strongest : LockTupleMode

abbrev pub stronger : LockTupleMode → LockTupleMode → LockTupleMode
stronger mode strongest = if ltb (strength strongest) (strength mode) then mode else strongest

abbrev pub sets_keys_updated : MultiXactStatus → Bool
sets_keys_updated for_update = true
sets_keys_updated update = true
sets_keys_updated _ = false

unfoldable pub scan_members : List MultiXactMember → Scan → Scan
scan_members [] s = s
scan_members (m ∷ ms) s = scan_members ms (record {
  keys_updated = s.keys_updated || sets_keys_updated m.status;
  has_update = s.has_update || isupdate_from_mxstatus m.status;
  strongest = stronger (tuplock_from_mxstatus m.status) s.strongest;
})

abbrev pub excl_bit : LockTupleMode → Bool
excl_bit lock_tuple_key_share = false
excl_bit _ = true

abbrev pub keyshr_bit : LockTupleMode → Bool
keyshr_bit lock_tuple_key_share = true
keyshr_bit lock_tuple_share = true
keyshr_bit _ = false

-- The bits once the members were scanned.
abbrev pub hint_bits_of : Scan → Infomask
hint_bits_of s = record {
  is_multi = true;
  lock_only = not s.has_update;
  keyshr_lock = keyshr_bit s.strongest;
  excl_lock = excl_bit s.strongest;
  xmax_committed = false;
  xmax_invalid = false;
  keys_updated = s.keys_updated;
}

abbrev pub no_members : Option (List MultiXactMember) → List MultiXactMember
no_members none = []
no_members (some ms) = ms

-- `ms` with the first updater; 0 is `InvalidTransactionId`.
unfoldable pub first_updater : List MultiXactMember → ℕ
first_updater [] = 0
first_updater (m ∷ ms) = if isupdate_from_mxstatus m.status then m.xid else first_updater ms

module _ (server : Server) where
  -- `GetMultiXactIdHintBits`
  unfoldable pub get_multi_xact_id_hint_bits : ℕ → Infomask
  get_multi_xact_id_hint_bits multi = hint_bits_of (
      scan_members (no_members (server.members multi))
        (record { keys_updated = false; has_update = false; strongest = lock_tuple_key_share }))

  -- `MultiXactIdGetUpdateXid`, in a build without assertions.
  unfoldable pub multi_xact_id_get_update_xid : ℕ → ℕ
  multi_xact_id_get_update_xid xmax = first_updater (no_members (server.members xmax))

  -- Whether a member that is not the current transaction's stands in the way of `wanted`.
  abbrev pub member_conflicts : LockMode → MultiXactMember → Bool
  member_conflicts wanted m =
      if not (server.lock_modes_conflict (lockmode_from_mxstatus m.status) wanted)
      then false
      else if isupdate_from_mxstatus m.status
      then not (server.did_abort m.xid)
      else server.in_progress m.xid

  -- The loop of `DoesMultiXactIdConflict`: `track` says that `current_is_member` is not NULL, and the
  -- result is the conflict and `*current_is_member`.
  unfoldable pub conflict_loop : LockMode → Bool → List MultiXactMember → Bool → Bool → Bool × Bool
  conflict_loop wanted track [] result current = (result, current)
  conflict_loop wanted track (m ∷ ms) result current =
      let found = result || member_conflicts wanted m in
      let rest_current = conflict_loop wanted track ms result (current || track) in
      let rest_other = conflict_loop wanted track ms found current in
      if result && (not track || current)
      then (result, current)
      else if server.is_current m.xid
      then rest_current
      else rest_other

  -- `DoesMultiXactIdConflict`; `upgraded` is `HEAP_LOCKED_UPGRADED(infomask)`.
  unfoldable pub does_multi_xact_id_conflict : ℕ → Bool → LockTupleMode → Bool → Bool × Bool
  does_multi_xact_id_conflict multi upgraded lockmode track =
      if upgraded
      then (false, false)
      else conflict_loop (hwlock lockmode) track (no_members (server.members multi)) false false

  -- The loop of `Do_MultiXactIdWait`. `lock_wait` is `ConditionalXactLockTableWait`; the result is the
  -- value returned, the transactions waited for, and the count of those that remain.
  unfoldable pub wait_loop :
      (ℕ → Bool) → LockMode → Bool → Bool → List MultiXactMember → List ℕ → ℕ → Bool × List ℕ × ℕ
  wait_loop lock_wait wanted nowait count [] waited remain = (true, waited, remain)
  wait_loop lock_wait wanted nowait count (m ∷ ms) waited remain =
      let rest_current = wait_loop lock_wait wanted nowait count ms waited (remain + 1) in
      let rest_free =
        wait_loop lock_wait wanted nowait count ms waited
          (if count && server.in_progress m.xid then remain + 1 else remain) in
      let rest_waited =
        wait_loop lock_wait wanted nowait count ms (waited ++ (m.xid ∷ [])) remain in
      if server.is_current m.xid
      then rest_current
      else if not (server.lock_modes_conflict (lockmode_from_mxstatus m.status) wanted)
      then rest_free
      else if nowait && not (lock_wait m.xid)
      then (false, waited, remain)
      else rest_waited

  -- `Do_MultiXactIdWait`; `count` says that `remaining` is not NULL.
  unfoldable pub do_multi_xact_id_wait :
      (ℕ → Bool) → ℕ → MultiXactStatus → Bool → Bool → Bool → Bool × List ℕ × ℕ
  do_multi_xact_id_wait lock_wait multi status upgraded nowait count =
      if upgraded
      then (true, [], 0)
      else wait_loop lock_wait (lockmode_from_mxstatus status) nowait count
          (no_members (server.members multi)) [] 0

-- `TM_Ok`, `TM_SelfModified`, `TM_Updated`, `TM_Deleted`, as far as `test_lockmode_for_conflict` gives
-- them, with `*needwait`.
pub data TmResult : Type 0 where
  tm_ok tm_self_modified tm_updated tm_deleted : TmResult

-- `test_lockmode_for_conflict`; `moved` says that `t_self` and `t_ctid` differ. Of
-- `wantedstatus` only the lock mode is used, which is that of `mode`.
unfoldable pub test_lockmode_for_conflict :
    Server → MultiXactStatus → ℕ → LockTupleMode → Bool → TmResult × Bool
test_lockmode_for_conflict server status xid mode moved =
    let conflict = server.lock_modes_conflict (lockmode_from_mxstatus status) (hwlock mode) in
    if server.is_current xid
    then (tm_self_modified, false)
    else if server.in_progress xid
    then (tm_ok, conflict)
    else if server.did_abort xid
    then (tm_ok, false)
    else if server.did_commit xid
    then (if not (isupdate_from_mxstatus status)
        then (tm_ok, false)
        else if conflict
        then (if moved then (tm_updated, false) else (tm_deleted, false))
        else (tm_ok, false))
    else (tm_ok, false)
