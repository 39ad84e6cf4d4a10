-- ===== src/Tests/Locks.antt =====
-- Row locks.
use pg_tde.Base.{
  ℕ, ◌+◌, ◌-◌, ◌*◌, ◌/◌, ◌%◌, ◌≡◌, refl, true, false, ◌&&◌, ◌||◌, not, some, inl, [], ◌∷◌, any,
  arith, if◌then◌else◌, ltb, ◌==◌,
}
use pg_tde.RowLock.{
  lock_tuple_share, lock_tuple_no_key_exclusive, lock_tuple_exclusive, MultiXactStatus,
  MultiXactMember, for_share, for_no_key_update, for_key_share, for_update, no_key_update, update,
  hwlock, access_share_lock, row_share_lock, exclusive_lock, access_exclusive_lock, LockMode,
  Infomask, Server, isupdate_from_mxstatus,
}
use pg_tde.RowLock.Members.{
  sets_keys_updated, no_members, get_multi_xact_id_hint_bits, multi_xact_id_get_update_xid,
  does_multi_xact_id_conflict, do_multi_xact_id_wait, test_lockmode_for_conflict,
}
use pg_tde.RowLock.Members.Conflicts.{
  in_the_way, is_own, does_multi_xact_id_conflict_lem, holders, stands, after, wait-then-conflict,
}
use pg_tde.RowLock.Xmax.{no_bits, compute_new_xmax_infomask}
use pg_tde.RowLock.Xmax.Keeps.{updater, updater_of, compute_new_xmax_infomask-updater}

abbrev lock_level : LockMode → ℕ
lock_level access_share_lock = 1
lock_level row_share_lock = 2
lock_level exclusive_lock = 7
lock_level access_exclusive_lock = 8

-- A status as a digit, and back.
abbrev digit : MultiXactStatus → ℕ
digit for_key_share = 0
digit for_share = 1
digit for_no_key_update = 2
digit for_update = 3
digit no_key_update = 4
digit update = 5

abbrev status_of : ℕ → MultiXactStatus
status_of n =
    if n == 0
    then for_key_share
    else if n == 1
    then for_share
    else if n == 2
    then for_no_key_update
    else if n == 3
    then for_update
    else if n == 4
    then no_key_update
    else update

-- Transaction 5 updates the row and is in progress, 6 has a share lock; 9 is the current one. Multixact 20 has
-- both, 21 only the first; one from 100 on has 5 and 9 with the statuses that its digits tell.
abbrev some_locks : Server
some_locks = record {
  is_current = λ xid. xid == 9;
  in_progress = λ xid. xid == 5 || xid == 6;
  did_abort = λ xid. false;
  did_commit = λ xid. not (xid == 5 || xid == 6);
  multi_running = λ multi lock_only. true;
  members = λ multi.
      if ltb multi 100
      then (if multi == 20
          then some (
              record { xid = 6; status = for_share }
              ∷ (record { xid = 5; status = no_key_update } ∷ []))
          else some (record { xid = 5; status = no_key_update } ∷ []))
      else some (
          record { xid = 5; status = status_of ((multi - 100) / 10) }
          ∷ (record { xid = 9; status = status_of ((multi - 100) % 10) } ∷ []));
  multi_create = λ xid status other lock. 100 + (digit status * 10 + digit lock);
  multi_expand = λ multi xid status. multi;
  lock_modes_conflict = λ a b. ltb 8 (lock_level a + lock_level b);
}

abbrev some_infomask : Infomask
some_infomask = record no_bits { keys_updated = true }

some_create :
    (status lock : MultiXactStatus)
    → some_locks.members (some_locks.multi_create 5 status 9 lock)
      ≡ some (record { xid = 5; status = status } ∷ (record { xid = 9; status = lock } ∷ []))
some_create status lock = ground arith

compute_new_xmax_infomask-updater_example :
    updater_of some_locks
      (compute_new_xmax_infomask some_locks 5 some_infomask 9 lock_tuple_share false)
    ≡ some 5
unfolding updater
compute_new_xmax_infomask-updater_example =
    compute_new_xmax_infomask-updater some_locks 5 some_infomask 9 lock_tuple_share some_create
      (λ lock. inl refl) (λ e. ground (arith, e)) (λ e. ground (arith, e)) refl
      (λ e. ground (arith, e))

does_multi_xact_id_conflict_example :
    does_multi_xact_id_conflict some_locks 20 false lock_tuple_exclusive true ≡ (
      any
          (in_the_way some_locks (hwlock lock_tuple_exclusive))
          (no_members (some_locks.members 20)),
      true && any (is_own some_locks) (no_members (some_locks.members 20)),
    )
does_multi_xact_id_conflict_example =
    does_multi_xact_id_conflict_lem some_locks 20 lock_tuple_exclusive true

wait-then-conflict_example :
    let ms = no_members (some_locks.members 20) in
    let waiting = do_multi_xact_id_wait some_locks (λ xid. true) 20 for_update false false true in
    (waiting.0 ≡ true)
    × (waiting.1 ≡ holders some_locks (hwlock lock_tuple_exclusive) ms)
    × ((does_multi_xact_id_conflict
          (after some_locks (λ xid. false) (λ xid. xid == 5))
          20
          false
          lock_tuple_exclusive
          false).0
        ≡ any (stands some_locks (λ xid. false) (λ xid. xid == 5) (hwlock lock_tuple_exclusive)) ms)
unfolding do_multi_xact_id_wait pg_tde.RowLock.Members.wait_loop
wait-then-conflict_example =
    wait-then-conflict some_locks (λ xid. true) 20 lock_tuple_exclusive false for_update false true
      refl (λ xid. false) (λ xid. xid == 5) false refl refl
