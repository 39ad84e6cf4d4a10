-- ===== src/RowLock/Members/Conflicts.antt =====
-- Conflicts with the members of a multixact, and waiting for them.
use pg_tde.Base.{
  arith, ℕ, ◌≡◌, refl, ap, sym, ◌∙◌, Bool, true, false, ◌&&◌, ◌||◌, not, if◌then◌else◌, some, List,
  [], ◌∷◌, ◌++◌, any, all, append_nil, append_assoc, ◌+◌,
}
use pg_tde.RowLock.{
  LockTupleMode, LockMode, MultiXactStatus, MultiXactMember, get_mxact_status_for_lock, hwlock,
  isupdate_from_mxstatus, lockmode_from_mxstatus, Server,
}
use pg_tde.RowLock.Members.{
  no_members, member_conflicts, conflict_loop, does_multi_xact_id_conflict, wait_loop,
  do_multi_xact_id_wait, TmResult, tm_ok, tm_self_modified, tm_updated, tm_deleted,
  test_lockmode_for_conflict,
}

module _ (server : Server) where
  -- A member of another transaction that stands in the way of `wanted`.
  abbrev pub in_the_way : LockMode → MultiXactMember → Bool
  in_the_way wanted m = not (server.is_current m.xid) && member_conflicts server wanted m

  abbrev pub is_own : MultiXactMember → Bool
  is_own m = server.is_current m.xid

  conflict_loop-result :
      (wanted : LockMode) (track : Bool) (ms : List MultiXactMember) (result current : Bool)
      → (conflict_loop server wanted track ms result current).0
        ≡ (result || any (in_the_way wanted) ms)
  unfolding conflict_loop
  conflict_loop-result wanted track [] result current = ground arith
  conflict_loop-result wanted track (m ∷ ms) result current = ground (
    arith,
    conflict_loop-result wanted track ms result (current || track),
    conflict_loop-result wanted track ms (result || member_conflicts server wanted m) current,
  )

  conflict_loop-current :
      (wanted : LockMode) (track : Bool) (ms : List MultiXactMember) (result current : Bool)
      → (conflict_loop server wanted track ms result current).1
        ≡ (current || (track && any is_own ms))
  unfolding conflict_loop
  conflict_loop-current wanted track [] result current = ground arith
  conflict_loop-current wanted track (m ∷ ms) result current = ground (
    arith,
    conflict_loop-current wanted track ms result (current || track),
    conflict_loop-current wanted track ms (result || member_conflicts server wanted m) current,
  )

  -- DoesMultiXactIdConflict on a multixact that is not of before an upgrade: it reports a conflict when a member of
  -- another transaction has a conflicting lock, and is an update that has not aborted or a lock whose holder runs;
  -- it reports that the current transaction is a member when the caller asks and it is. That it leaves its loop
  -- early makes no difference.
  pub does_multi_xact_id_conflict_lem :
      (multi : ℕ) (lockmode : LockTupleMode) (track : Bool)
      → does_multi_xact_id_conflict server multi false lockmode track ≡ (
        any (in_the_way (hwlock lockmode)) (no_members (server.members multi)),
        track && any is_own (no_members (server.members multi)),
      )
  unfolding does_multi_xact_id_conflict
  does_multi_xact_id_conflict_lem multi lockmode track =
      let ms = no_members (server.members multi) in
      λ i. (
        conflict_loop-result (hwlock lockmode) track ms false false i,
        conflict_loop-current (hwlock lockmode) track ms false false i,
      )

  -- The transactions, other than the current one, of the members whose lock conflicts with `wanted`, in their order.
  unfoldable pub holders : LockMode → List MultiXactMember → List ℕ
  holders wanted [] = []
  holders wanted (m ∷ ms) =
      if not (server.is_current m.xid)
        && server.lock_modes_conflict (lockmode_from_mxstatus m.status) wanted
      then m.xid ∷ holders wanted ms
      else holders wanted ms

  module _ (lock_wait : ℕ → Bool) (wanted : LockMode) (nowait count : Bool) where
    wait_loop-result :
        (ms : List MultiXactMember) (waited : List ℕ) (remain : ℕ)
        → (wait_loop server lock_wait wanted nowait count ms waited remain).0
          ≡ (not nowait || all lock_wait (holders wanted ms))
    unfolding wait_loop holders
    wait_loop-result [] waited remain = ground arith
    wait_loop-result (m ∷ ms) waited remain = ground (
      arith,
      wait_loop-result ms waited (remain + 1),
      wait_loop-result ms waited (if count && server.in_progress m.xid then remain + 1 else remain),
      wait_loop-result ms (waited ++ (m.xid ∷ [])) remain,
    )

    wait_loop-waited :
        (ms : List MultiXactMember) (waited : List ℕ) (remain : ℕ)
        → (wait_loop server lock_wait wanted nowait count ms waited remain).0 ≡ true
        → (wait_loop server lock_wait wanted nowait count ms waited remain).1
          ≡ waited ++ holders wanted ms
    unfolding wait_loop holders
    wait_loop-waited [] waited remain e = sym (append_nil waited)
    wait_loop-waited (m ∷ ms) waited remain e = ground (
      arith,
      wait_loop-waited ms waited (remain + 1),
      wait_loop-waited ms waited (if count && server.in_progress m.xid then remain + 1 else remain),
      wait_loop-waited ms (waited ++ (m.xid ∷ [])) remain,
      append_assoc waited (m.xid ∷ []) (holders wanted ms),
    )

  module _ (in_progress did_abort : ℕ → Bool) where
    -- The server later, when other transactions have ended.
    abbrev pub after : Server
    after = record server { in_progress = in_progress; did_abort = did_abort }

    -- A member of another transaction whose conflicting update did not abort.
    abbrev pub stands : LockMode → MultiXactMember → Bool
    stands wanted m =
        not (server.is_current m.xid)
        && (server.lock_modes_conflict (lockmode_from_mxstatus m.status) wanted
            && (isupdate_from_mxstatus m.status && not (did_abort m.xid)))

    holders-ended :
        (wanted : LockMode) (ms : List MultiXactMember)
        → all (λ xid. not (in_progress xid)) (holders wanted ms) ≡ true
        → any (λ m. not (server.is_current m.xid) && member_conflicts after wanted m) ms
          ≡ any (stands wanted) ms
    unfolding holders
    holders-ended wanted [] e = refl
    holders-ended wanted (m ∷ ms) e = ground (arith, holders-ended wanted ms)

lockmode-hwlock :
    (mode : LockTupleMode) (is_update : Bool) (status : MultiXactStatus)
    → get_mxact_status_for_lock mode is_update ≡ some status
    → lockmode_from_mxstatus status ≡ hwlock mode
lockmode-hwlock mode is_update status e = ground arith

module _ (server : Server) (lock_wait : ℕ → Bool) (multi : ℕ) (mode : LockTupleMode)
    (is_update : Bool) (status : MultiXactStatus) (nowait count : Bool)
    (names : get_mxact_status_for_lock mode is_update ≡ some status) where
  -- The wait succeeds when it may block, or when each conditional wait succeeds.
  do_multi_xact_id_wait-result :
      (do_multi_xact_id_wait server lock_wait multi status false nowait count).0 ≡ (
        not nowait
        || all lock_wait (holders server (hwlock mode) (no_members (server.members multi))))
  unfolding do_multi_xact_id_wait
  do_multi_xact_id_wait-result =
      wait_loop-result server lock_wait _ nowait count (no_members (server.members multi)) [] 0
      ∙ ap (λ w. not nowait || all lock_wait (holders server w (no_members (server.members multi))))
          (lockmode-hwlock mode is_update status names)

  do_multi_xact_id_wait-waited :
      (do_multi_xact_id_wait server lock_wait multi status false nowait count).0 ≡ true
      → (do_multi_xact_id_wait server lock_wait multi status false nowait count).1
        ≡ holders server (hwlock mode) (no_members (server.members multi))
  unfolding do_multi_xact_id_wait
  do_multi_xact_id_wait-waited done =
      wait_loop-waited server lock_wait _ nowait count (no_members (server.members multi)) [] 0 done
      ∙ ap (λ w. holders server w (no_members (server.members multi)))
          (lockmode-hwlock mode is_update status names)

  -- Do_MultiXactIdWait on a multixact that is not of before an upgrade: where it may block it succeeds, and it then has
  -- waited, in their order, for exactly the members of other transactions whose lock conflicts; once these
  -- have ended, DoesMultiXactIdConflict for the same lock mode reports only members whose conflicting update
  -- did not abort.
  pub wait-then-conflict :
      (in_progress did_abort : ℕ → Bool) (track : Bool)
      → nowait ≡ false
      → all
          (λ xid. not (in_progress xid))
          (do_multi_xact_id_wait server lock_wait multi status false nowait count).1
        ≡ true
      → ((do_multi_xact_id_wait server lock_wait multi status false nowait count).0 ≡ true)
        × ((do_multi_xact_id_wait server lock_wait multi status false nowait count).1
            ≡ holders server (hwlock mode) (no_members (server.members multi)))
        × ((does_multi_xact_id_conflict
              (after server in_progress did_abort)
              multi
              false
              mode
              track).0
            ≡ any
                (stands server in_progress did_abort (hwlock mode))
                (no_members (server.members multi)))
  wait-then-conflict in_progress did_abort track blocks ended =
      let done =
        do_multi_xact_id_wait-result
        ∙ ap
            (λ b.
              not b
              || all lock_wait (holders server (hwlock mode) (no_members (server.members multi))))
            blocks in
      let waited = do_multi_xact_id_wait-waited done in
      (
        done,
        waited,
        ap (λ p. p.0)
              (does_multi_xact_id_conflict_lem (after server in_progress did_abort) multi mode
                track)
            ∙ holders-ended server in_progress did_abort (hwlock mode)
                (no_members (server.members multi))
                (sym (ap (all (λ xid. not (in_progress xid))) waited) ∙ ended),
      )

-- Whether `test_lockmode_for_conflict` tells the caller to wait or to give up.
abbrev pub stops : TmResult × Bool → Bool
stops (tm_ok, needwait) = needwait
stops (tm_self_modified, needwait) = false
stops (tm_updated, needwait) = true
stops (tm_deleted, needwait) = true

-- The two tests for conflicts agree: for a transaction that holds the row by itself, which the server knows as in
-- progress, committed or aborted and as one of these only, test_lockmode_for_conflict tells the caller to wait or to give up
-- exactly when DoesMultiXactIdConflict reports a conflict with a multixact of that one member.
pub test_lockmode_for_conflict-agrees :
    (server : Server) (multi : ℕ) (m : MultiXactMember) (mode : LockTupleMode) (moved track : Bool)
    → server.members multi ≡ some (m ∷ [])
    → (server.in_progress m.xid ≡ true → server.did_abort m.xid ≡ false)
    → (server.in_progress m.xid ≡ false → server.did_abort m.xid ≡ not (server.did_commit m.xid))
    → stops (test_lockmode_for_conflict server m.status m.xid mode moved)
      ≡ (does_multi_xact_id_conflict server multi false mode track).0
unfolding test_lockmode_for_conflict
test_lockmode_for_conflict-agrees server multi m mode moved track one runs ended =
    ground arith
    ∙ sym (ap (λ o. any (in_the_way server (hwlock mode)) (no_members o)) one)
    ∙ sym (ap (λ p. p.0) (does_multi_xact_id_conflict_lem server multi mode track))
