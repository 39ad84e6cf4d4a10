-- ===== src/Visibility/Update.antt =====
-- `HeapTupleSatisfiesUpdate`: whether a row may be updated, and if not, why.
pub mod Laws
use pg_tde.Base.{ℕ, Bool, true, false, ◌&&◌, ◌||◌, not, if◌then◌else◌, leb, ◌==◌}
use pg_tde.Visibility.{
  Header, Transactions, Verdict, visible, invisible, look_at_xmax, heap_xmin_committed,
  heap_xmin_invalid, heap_xmax_committed, heap_xmax_invalid, is_xmin_invalid, set_hint_bits,
  moved_xmin,
}

pub data TmResult : Type 0 where
  tm_ok tm_invisible tm_self_modified tm_updated tm_deleted tm_being_modified : TmResult

-- What is known once the inserting transaction has been looked at.
pub data UpdateXmin : Type 0 where
  answer : TmResult → UpdateXmin
  xmin_committed : UpdateXmin

abbrev pub of_verdict : Verdict × Header → UpdateXmin × Header
of_verdict (visible, t) = (answer tm_ok, t)
of_verdict (invisible, t) = (answer tm_invisible, t)
of_verdict (look_at_xmax, t) = (xmin_committed, t)

module _ (tx : Transactions) (curcid : ℕ) (t_self : ℕ) where
  -- A row that the current transaction updated: after or before the scan started.
  abbrev pub by_self : Header → TmResult
  by_self t = if leb curcid t.cmax then tm_self_modified else tm_invisible

  -- A row that a committed transaction updated or deleted: `t_ctid` points to the new version.
  abbrev pub by_other : Header → TmResult
  by_other t = if not (t_self == t.t_ctid) then tm_updated else tm_deleted

  abbrev pub if_running : Bool → TmResult
  if_running running = if running then tm_being_modified else tm_ok

  -- Rows of the current transaction.
  unfoldable pub update_own : Header → TmResult × Header
  update_own t =
      if leb curcid t.cmin
      then (tm_invisible, t)
      else if t.xmax_invalid
      then (tm_ok, t)
      else if t.locked_only
      then (if t.xmax_is_multi
          then (if_running (tx.multi_running t.raw_xmax true), t)
          else (if_running (tx.in_progress t.raw_xmax), t))
      else if t.xmax_is_multi
      then (if not (tx.is_current t.update_xid)
          then (if_running (tx.multi_running t.raw_xmax false), t)
          else (by_self t, t))
      else if not (tx.is_current t.raw_xmax)
      then (tm_ok, set_hint_bits tx heap_xmax_invalid 0 t)
      else (by_self t, t)

  -- As far as "the inserting transaction has committed".
  unfoldable pub update_xmin : Header → UpdateXmin × Header
  update_xmin t =
      if t.xmin_committed
      then (xmin_committed, t)
      else if is_xmin_invalid t
      then (answer tm_invisible, t)
      else if t.moved_off || t.moved_in
      then of_verdict (moved_xmin tx t)
      else if tx.is_current t.raw_xmin
      then (answer (update_own t).0, (update_own t).1)
      else if tx.in_progress t.raw_xmin
      then (answer tm_invisible, t)
      else if tx.did_commit t.raw_xmin
      then (xmin_committed, set_hint_bits tx heap_xmin_committed t.raw_xmin t)
      else (answer tm_invisible, set_hint_bits tx heap_xmin_invalid 0 t)

  -- The deleting transaction is a multixact that is not known to have committed.
  unfoldable pub update_multi : Header → TmResult × Header
  update_multi t =
      let running = tx.multi_running t.raw_xmax false in
      if t.locked_upgraded
      then (tm_ok, t)
      else if t.locked_only
      then (if tx.multi_running t.raw_xmax true
          then (tm_being_modified, t)
          else (tm_ok, set_hint_bits tx heap_xmax_invalid 0 t))
      else if (t.update_xid == 0) && running
      then (tm_being_modified, t)
      else if tx.is_current t.update_xid
      then (by_self t, t)
      else if running
      then (tm_being_modified, t)
      else if tx.did_commit t.update_xid
      then (by_other t, t)
      else if not running
      then (tm_ok, set_hint_bits tx heap_xmax_invalid 0 t)
      else (tm_being_modified, t)

  -- The deleting transaction.
  unfoldable pub update_xmax : Header → TmResult × Header
  update_xmax t =
      if t.xmax_invalid
      then (tm_ok, t)
      else if t.xmax_committed
      then (if t.locked_only then (tm_ok, t) else (by_other t, t))
      else if t.xmax_is_multi
      then update_multi t
      else if tx.is_current t.raw_xmax
      then (if t.locked_only then (tm_being_modified, t) else (by_self t, t))
      else if tx.in_progress t.raw_xmax
      then (tm_being_modified, t)
      else if not (tx.did_commit t.raw_xmax)
      then (tm_ok, set_hint_bits tx heap_xmax_invalid 0 t)
      else if t.locked_only
      then (tm_ok, set_hint_bits tx heap_xmax_invalid 0 t)
      else (by_other t, set_hint_bits tx heap_xmax_committed t.raw_xmax t)

  unfoldable pub update_join : UpdateXmin × Header → TmResult × Header
  update_join (answer r, t) = (r, t)
  update_join (xmin_committed, t) = update_xmax t

  unfoldable pub heap_tuple_satisfies_update : Header → TmResult × Header
  heap_tuple_satisfies_update t = update_join (update_xmin t)
