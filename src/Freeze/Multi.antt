-- ===== src/Freeze/Multi.antt =====
-- `FreezeMultiXactId`: what becomes of a multixact in `xmax`.
use pg_tde.Base.{
  ℕ, Bool, true, false, ◌&&◌, ◌||◌, not, Option, none, some, List, [], ◌∷◌, ◌++◌, if◌then◌else◌,
  ◌==◌,
}
use pg_tde.RowLock.{MultiXactMember, isupdate_from_mxstatus}
use pg_tde.RowLock.Members.{multi_xact_id_get_update_xid, no_members}
use pg_tde.Freeze.{
  Bits, xmax_is_locked_only, locked_upgraded, VacuumCutoffs, HeapPageFreeze, FreezeServer,
}

-- The flags that come back, with `newxmax`: `FRM_NOOP`, `FRM_INVALIDATE_XMAX`, `FRM_RETURN_IS_XID`, whose
-- Boolean is `FRM_MARK_COMMITTED`, and `FRM_RETURN_IS_MULTI`.
pub data MultiAction : Type 0 where
  frm_noop frm_invalidate_xmax : MultiAction
  frm_return_is_xid : ℕ → Bool → MultiAction
  frm_return_is_multi : ℕ → MultiAction

-- The variables of the second loop.
pub record Second : Type 0 where
  pub newmembers : List MultiXactMember
  pub has_lockers : Bool
  pub update_xid : ℕ
  pub update_committed : Bool

abbrev pub require_freeze : HeapPageFreeze → HeapPageFreeze
require_freeze page = record page { freeze_required = true }

abbrev pub second_start : Second
second_start = record {
  newmembers = [];
  has_lockers = false;
  update_xid = 0;
  update_committed = false;
}

abbrev pub is_empty : List MultiXactMember → Bool
is_empty [] = true
is_empty (m ∷ ms) = false

module _ (sv : FreezeServer) (cutoffs : VacuumCutoffs) where
  -- The first loop: whether it stops at a member before the limit, and the oldest xid.
  unfoldable pub first_pass : List MultiXactMember → ℕ → Bool × ℕ
  first_pass [] oldest = (false, oldest)
  first_pass (m ∷ ms) oldest =
      let rest = first_pass ms (if sv.precedes m.xid oldest then m.xid else oldest) in
      if sv.precedes m.xid cutoffs.freeze_limit then (true, oldest) else rest

  -- A member of the second loop; none is an error for corrupted data.
  unfoldable pub second_member : MultiXactMember → Second → Option Second
  second_member m s =
      let running = sv.server.is_current m.xid || sv.server.in_progress m.xid in
      let committed = sv.server.did_commit m.xid in
      if not (isupdate_from_mxstatus m.status)
      then (if running
          then (if sv.precedes m.xid cutoffs.oldest_xmin
              then none
              else some (record s { newmembers = s.newmembers ++ (m ∷ []); has_lockers = true }))
          else some s)
      else if not (s.update_xid == 0)
      then none
      else if not running && not committed
      then some s
      else if sv.precedes m.xid cutoffs.oldest_xmin
      then none
      else some (record s {
        newmembers = s.newmembers ++ (m ∷ []);
        update_xid = m.xid;
        update_committed = not running;
      })

  unfoldable pub second_pass : List MultiXactMember → Second → Option Second
  second_pass [] s = some s
  second_pass (m ∷ ms) s = elim (second_member m s) [ none ↦ none | some s' ↦ second_pass ms s' ]

  -- What the second loop decides.
  unfoldable pub replacement : Second → MultiAction
  replacement s =
      if is_empty s.newmembers
      then frm_invalidate_xmax
      else if not (s.update_xid == 0) && not s.has_lockers
      then frm_return_is_xid s.update_xid s.update_committed
      else frm_return_is_multi (sv.create_from_members s.newmembers)

  unfoldable pub replace_multi :
      List MultiXactMember → HeapPageFreeze → Option (MultiAction × HeapPageFreeze)
  replace_multi ms page = elim (second_pass ms second_start) [
    | none ↦ none
    | some s ↦ some (replacement s, require_freeze page)
  ]

  -- A multixact at or after `OldestMxact`.
  unfoldable pub freeze_members :
      ℕ → List MultiXactMember → HeapPageFreeze → Option (MultiAction × HeapPageFreeze)
  freeze_members multi [] page = some (frm_invalidate_xmax, require_freeze page)
  freeze_members multi (m ∷ ms) page =
      let first = first_pass (m ∷ ms) page.freeze_page_relfrozen_xid in
      if first.0 || sv.multi_precedes multi cutoffs.multi_xact_cutoff
      then replace_multi (m ∷ ms) page
      else some (
        frm_noop,
        record page {
          freeze_page_relfrozen_xid = first.1;
          freeze_page_relmin_mxid =
              if sv.multi_precedes multi page.freeze_page_relmin_mxid
              then multi
              else page.freeze_page_relmin_mxid;
        },
      )

  -- A multixact before `OldestMxact`, which cannot have running members.
  unfoldable pub freeze_old_multi :
      ℕ → Bits → HeapPageFreeze → Option (MultiAction × HeapPageFreeze)
  freeze_old_multi multi b page =
      let update_xact = multi_xact_id_get_update_xid sv.server multi in
      if sv.server.multi_running multi (xmax_is_locked_only b)
      then none
      else if xmax_is_locked_only b
      then some (frm_invalidate_xmax, require_freeze page)
      else if sv.precedes update_xact cutoffs.relfrozenxid
      then none
      else if sv.precedes update_xact cutoffs.oldest_xmin
      then (if sv.server.did_commit update_xact
          then none
          else some (frm_invalidate_xmax, require_freeze page))
      else some (frm_return_is_xid update_xact false, require_freeze page)

  -- `FreezeMultiXactId`; none is one of its errors.
  unfoldable pub freeze_multi_xact_id :
      ℕ → Bits → HeapPageFreeze → Option (MultiAction × HeapPageFreeze)
  freeze_multi_xact_id multi b page =
      if (multi == 0) || locked_upgraded b
      then some (frm_invalidate_xmax, require_freeze page)
      else if sv.multi_precedes multi cutoffs.relminmxid
      then none
      else if sv.multi_precedes multi cutoffs.oldest_mxact
      then freeze_old_multi multi b page
      else freeze_members multi (no_members (sv.server.members multi)) page
