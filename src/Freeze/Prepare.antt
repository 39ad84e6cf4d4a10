-- ===== src/Freeze/Prepare.antt =====
-- `pg_tde_tuple_should_freeze`, `pg_tde_prepare_freeze_tuple` and `pg_tde_execute_freeze_tuple`.
use pg_tde.Base.{
  ℕ, Bool, true, false, ◌&&◌, ◌||◌, not, Option, none, some, List, [], ◌∷◌, if◌then◌else◌, ◌==◌,
}
use pg_tde.RowLock.{MultiXactMember, Infomask}
use pg_tde.RowLock.Members.{get_multi_xact_id_hint_bits, no_members}
use pg_tde.Freeze.{
  Bits, TupleHeader, get_xmin, get_xvac, xmax_is_locked_only, locked_upgraded, is_normal_xid,
  VacuumCutoffs, HeapPageFreeze, FreezeServer,
}
use pg_tde.Freeze.Multi.{
  MultiAction, frm_noop, frm_invalidate_xmax, frm_return_is_xid, frm_return_is_multi,
  require_freeze, freeze_multi_xact_id,
}

-- `HeapTupleFreeze` without the offset. The flags are `XLH_FREEZE_XVAC`, `XLH_INVALID_XVAC`,
-- `HEAP_FREEZE_CHECK_XMIN_COMMITTED` and `HEAP_FREEZE_CHECK_XMAX_ABORTED`.
pub record HeapTupleFreeze : Type 0 where
  pub xmax : ℕ
  pub bits : Bits
  pub freeze_xvac : Bool
  pub invalid_xvac : Bool
  pub check_xmin_committed : Bool
  pub check_xmax_aborted : Bool

-- What becomes of `xmax`: as it is, `replace_xmax` or `freeze_xmax`, with the bits, the check, and
-- `xmax_already_frozen`.
pub record XmaxPlan : Type 0 where
  pub xmax : ℕ
  pub bits : Bits
  pub replace_xmax : Bool
  pub freeze_xmax : Bool
  pub xmax_already_frozen : Bool
  pub check_xmax_aborted : Bool
  pub page : HeapPageFreeze

-- Clearing `HEAP_XMAX_BITS`.
abbrev pub clear_xmax_bits : Bits → Bits
clear_xmax_bits b = record b {
  xmax_committed = false;
  xmax_invalid = false;
  xmax_is_multi = false;
  lock_only = false;
  keyshr_lock = false;
  excl_lock = false;
}

-- Taking in the bits of `GetMultiXactIdHintBits`.
abbrev pub with_multi_bits : Infomask → Bits → Bits
with_multi_bits m b = record (clear_xmax_bits b) {
  xmax_committed = m.xmax_committed;
  xmax_invalid = m.xmax_invalid;
  xmax_is_multi = m.is_multi;
  lock_only = m.lock_only;
  keyshr_lock = m.keyshr_lock;
  excl_lock = m.excl_lock;
  keys_updated = m.keys_updated;
}

-- The bits of a tuple whose `xmax` is frozen.
abbrev pub without_xmax : Bits → Bits
without_xmax b = record (clear_xmax_bits b) {
  xmax_invalid = true;
  hot_updated = false;
  keys_updated = false;
}

-- The prepared plan, the page's state, `*totally_frozen`, and what the function returns.
pub record Prepared : Type 0 where
  pub frz : HeapTupleFreeze
  pub page : HeapPageFreeze
  pub totally_frozen : Bool
  pub has_plan : Bool

abbrev pub or_oldest : (ℕ → ℕ → Bool) → ℕ → ℕ → ℕ
or_oldest precedes xid oldest = if precedes xid oldest then xid else oldest

-- The trackers of `pg_tde_tuple_should_freeze`, and whether to freeze.
pub record Trackers : Type 0 where
  pub relfrozen_xid : ℕ
  pub relmin_mxid : ℕ
  pub freeze : Bool

module _ (sv : FreezeServer) (cutoffs : VacuumCutoffs) where
  abbrev pub track_xid : ℕ → Trackers → Trackers
  track_xid xid r = record r {
    relfrozen_xid = or_oldest sv.precedes xid r.relfrozen_xid;
    freeze = sv.precedes xid cutoffs.freeze_limit || r.freeze;
  }

  unfoldable pub track_members : List MultiXactMember → Trackers → Trackers
  track_members [] r = r
  track_members (m ∷ ms) r = track_members ms (track_xid m.xid r)

  unfoldable pub track_multi : ℕ → Bits → Trackers → Trackers
  track_multi multi b r =
      let older = record r { relmin_mxid = or_oldest sv.multi_precedes multi r.relmin_mxid } in
      if multi == 0
      then r
      else if locked_upgraded b
      then record older { freeze = true }
      else track_members (no_members (sv.server.members multi))
          (record older { freeze = sv.multi_precedes multi cutoffs.multi_xact_cutoff || r.freeze })

  unfoldable pub track_xvac : TupleHeader → Trackers → Trackers
  track_xvac t r =
      if is_normal_xid (get_xvac t)
      then record r {
        relfrozen_xid = or_oldest sv.precedes (get_xvac t) r.relfrozen_xid;
        freeze = true;
      }
      else r

  -- `pg_tde_tuple_should_freeze`
  unfoldable pub pg_tde_tuple_should_freeze : TupleHeader → Trackers → Trackers
  pg_tde_tuple_should_freeze t start =
      let r = if is_normal_xid (get_xmin t) then track_xid (get_xmin t) start else start in
      let after =
        if t.bits.xmax_is_multi
        then track_multi t.raw_xmax t.bits r
        else if is_normal_xid t.raw_xmax
        then track_xid t.raw_xmax r
        else r in
      track_xvac t after

  -- The part of `pg_tde_prepare_freeze_tuple` about a multixact in `xmax`.
  unfoldable pub multi_plan : TupleHeader → MultiAction × HeapPageFreeze → XmaxPlan
  multi_plan t (frm_noop, page) = record {
    xmax = t.raw_xmax;
    bits = t.bits;
    replace_xmax = false;
    freeze_xmax = false;
    xmax_already_frozen = false;
    check_xmax_aborted = false;
    page = page;
  }
  multi_plan t (frm_return_is_xid newxmax mark_committed, page) = record {
    xmax = newxmax;
    bits = record (clear_xmax_bits t.bits) { xmax_committed = mark_committed };
    replace_xmax = true;
    freeze_xmax = false;
    xmax_already_frozen = false;
    check_xmax_aborted = false;
    page = page;
  }
  multi_plan t (frm_return_is_multi newxmax, page) = record {
    xmax = newxmax;
    bits = with_multi_bits (get_multi_xact_id_hint_bits sv.server newxmax) t.bits;
    replace_xmax = true;
    freeze_xmax = false;
    xmax_already_frozen = false;
    check_xmax_aborted = false;
    page = page;
  }
  multi_plan t (frm_invalidate_xmax, page) = record {
    xmax = 0;
    bits = without_xmax t.bits;
    replace_xmax = false;
    freeze_xmax = true;
    xmax_already_frozen = false;
    check_xmax_aborted = false;
    page = page;
  }

  -- The part about an xid in `xmax`; none is an error.
  unfoldable pub xid_plan : TupleHeader → HeapPageFreeze → Option XmaxPlan
  xid_plan t page =
      let old = sv.precedes t.raw_xmax cutoffs.oldest_xmin in
      if is_normal_xid t.raw_xmax
      then (if sv.precedes t.raw_xmax cutoffs.relfrozenxid
          then none
          else some (record {
            xmax = if old then 0 else t.raw_xmax;
            bits = if old then without_xmax t.bits else t.bits;
            replace_xmax = false;
            freeze_xmax = old;
            xmax_already_frozen = false;
            check_xmax_aborted = old && not (xmax_is_locked_only t.bits);
            page = page;
          }))
      else if t.raw_xmax == 0
      then some (record {
        xmax = t.raw_xmax;
        bits = t.bits;
        replace_xmax = false;
        freeze_xmax = false;
        xmax_already_frozen = true;
        check_xmax_aborted = false;
        page = page;
      })
      else none

  unfoldable pub xmax_plan : TupleHeader → HeapPageFreeze → Option XmaxPlan
  xmax_plan t page =
      if t.bits.xmax_is_multi
      then (elim (freeze_multi_xact_id sv cutoffs t.raw_xmax t.bits page) [
        | none ↦ none
        | some r ↦ some (multi_plan t r)
      ])
      else xid_plan t page

  -- The page's state after the question whether this tuple forces freezing.
  unfoldable pub force_freeze : TupleHeader → Bool → HeapPageFreeze → HeapPageFreeze
  force_freeze t already page =
      let r = pg_tde_tuple_should_freeze t (record {
        relfrozen_xid = page.no_freeze_page_relfrozen_xid;
        relmin_mxid = page.no_freeze_page_relmin_mxid;
        freeze = false;
      }) in
      if not page.freeze_required && not already
      then record page {
        freeze_required = r.freeze;
        no_freeze_page_relfrozen_xid = r.relfrozen_xid;
        no_freeze_page_relmin_mxid = r.relmin_mxid;
      }
      else page

  -- The end of it, `freeze_xmin` and `replace_xvac` being known.
  unfoldable pub join_plan : TupleHeader → Bool → Bool → XmaxPlan → Prepared
  join_plan t freeze_xmin replace_xvac x =
      let xmin_already_frozen = not (is_normal_xid (get_xmin t)) in
      record {
        frz = record {
          xmax = x.xmax;
          bits = record x.bits {
            xmin_committed = freeze_xmin || x.bits.xmin_committed;
            xmin_invalid = freeze_xmin || x.bits.xmin_invalid;
          };
          freeze_xvac = replace_xvac && not t.bits.moved_off;
          invalid_xvac = replace_xvac && t.bits.moved_off;
          check_xmin_committed = freeze_xmin;
          check_xmax_aborted = x.check_xmax_aborted;
        };
        page = force_freeze t (xmin_already_frozen && x.xmax_already_frozen) x.page;
        totally_frozen =
            (freeze_xmin || xmin_already_frozen) && (x.freeze_xmax || x.xmax_already_frozen);
        has_plan = freeze_xmin || (replace_xvac || (x.replace_xmax || x.freeze_xmax));
      }

  -- `pg_tde_prepare_freeze_tuple`; none is an error for corrupted data.
  unfoldable pub pg_tde_prepare_freeze_tuple : TupleHeader → HeapPageFreeze → Option Prepared
  pg_tde_prepare_freeze_tuple t page =
      let xmin = get_xmin t in
      let replace_xvac = is_normal_xid (get_xvac t) in
      let page' = if replace_xvac then require_freeze page else page in
      if is_normal_xid xmin && sv.precedes xmin cutoffs.relfrozenxid
      then none
      else elim (xmax_plan t page') [
        | none ↦ none
        | some x ↦ some (
            join_plan t (is_normal_xid xmin && sv.precedes xmin cutoffs.oldest_xmin) replace_xvac x)
      ]

-- `pg_tde_execute_freeze_tuple`; 2 is `FrozenTransactionId`. `HeapTupleHeaderSetXvac` is on a moved tuple.
unfoldable pub pg_tde_execute_freeze_tuple : HeapTupleFreeze → TupleHeader → TupleHeader
pg_tde_execute_freeze_tuple frz t = record t {
  raw_xmax = frz.xmax;
  field3 = if frz.invalid_xvac then 0 else if frz.freeze_xvac then 2 else t.field3;
  bits = frz.bits;
}

module _ (sv : FreezeServer) where
  -- The checks of `pg_tde_freeze_execute_prepared` for one tuple: false is an error.
  unfoldable pub passes_checks : HeapTupleFreeze → TupleHeader → Bool
  passes_checks frz t =
      if frz.check_xmin_committed && not (sv.server.did_commit t.raw_xmin)
      then false
      else not (frz.check_xmax_aborted && sv.server.did_commit t.raw_xmax)

  -- `pg_tde_freeze_tuple`: the header, and whether it was frozen.
  unfoldable pub pg_tde_freeze_tuple :
      (relfrozenxid relminmxid freeze_limit multi_xact_cutoff : ℕ)
      → TupleHeader
      → Option (Bool × TupleHeader)
  pg_tde_freeze_tuple relfrozenxid relminmxid freeze_limit multi_xact_cutoff t =
      let cutoffs : VacuumCutoffs = record {
        relfrozenxid = relfrozenxid;
        relminmxid = relminmxid;
        oldest_xmin = freeze_limit;
        oldest_mxact = multi_xact_cutoff;
        freeze_limit = freeze_limit;
        multi_xact_cutoff = multi_xact_cutoff;
      } in
      elim (pg_tde_prepare_freeze_tuple sv cutoffs t (record {
        freeze_required = true;
        freeze_page_relfrozen_xid = freeze_limit;
        freeze_page_relmin_mxid = multi_xact_cutoff;
        no_freeze_page_relfrozen_xid = freeze_limit;
        no_freeze_page_relmin_mxid = multi_xact_cutoff;
      })) [
        | none ↦ none
        | some p ↦ some (p.has_plan, if p.has_plan then pg_tde_execute_freeze_tuple p.frz t else t)
      ]

-- `pg_tde_tuple_needs_eventual_freeze`
unfoldable pub pg_tde_tuple_needs_eventual_freeze : TupleHeader → Bool
pg_tde_tuple_needs_eventual_freeze t =
    if is_normal_xid (get_xmin t)
    then true
    else if t.bits.xmax_is_multi && not (t.raw_xmax == 0)
    then true
    else if not t.bits.xmax_is_multi && is_normal_xid t.raw_xmax
    then true
    else (t.bits.moved_off || t.bits.moved_in) && is_normal_xid (get_xvac t)
