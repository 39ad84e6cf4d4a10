-- ===== src/Visibility/Self.antt =====
-- `HeapTupleSatisfiesSelf`: the row as it stands now for its own transaction.
use pg_tde.Base.{Bool, true, false, ◌||◌, not, if◌then◌else◌}
use pg_tde.Visibility.{
  Header, Transactions, Verdict, visible, invisible, look_at_xmax, heap_xmin_committed,
  heap_xmin_invalid, heap_xmax_committed, heap_xmax_invalid, is_xmin_invalid, set_hint_bits,
  moved_xmin, verdict,
}

module _ (tx : Transactions) where
  -- Rows of the current transaction.
  unfoldable pub self_own : Header → Verdict × Header
  self_own t =
      if t.xmax_invalid
      then (visible, t)
      else if t.locked_only
      then (visible, t)
      else if t.xmax_is_multi
      then (verdict (not (tx.is_current t.update_xid)), t)
      else if not (tx.is_current t.raw_xmax)
      then (visible, set_hint_bits tx heap_xmax_invalid 0 t)
      else (invisible, t)

  -- As far as "the inserting transaction has committed".
  unfoldable pub self_xmin : Header → Verdict × Header
  self_xmin t =
      if t.xmin_committed
      then (look_at_xmax, t)
      else if is_xmin_invalid t
      then (invisible, t)
      else if t.moved_off || t.moved_in
      then moved_xmin tx t
      else if tx.is_current t.raw_xmin
      then self_own t
      else if tx.in_progress t.raw_xmin
      then (invisible, t)
      else if tx.did_commit t.raw_xmin
      then (look_at_xmax, set_hint_bits tx heap_xmin_committed t.raw_xmin t)
      else (invisible, set_hint_bits tx heap_xmin_invalid 0 t)

  -- The deleting transaction.
  unfoldable pub self_xmax : Header → Bool × Header
  self_xmax t =
      if t.xmax_invalid
      then (true, t)
      else if t.xmax_committed
      then (t.locked_only, t)
      else if t.xmax_is_multi
      then (if t.locked_only
          then (true, t)
          else if tx.is_current t.update_xid
          then (false, t)
          else if tx.in_progress t.update_xid
          then (true, t)
          else (not (tx.did_commit t.update_xid), t))
      else if tx.is_current t.raw_xmax
      then (t.locked_only, t)
      else if tx.in_progress t.raw_xmax
      then (true, t)
      else if not (tx.did_commit t.raw_xmax)
      then (true, set_hint_bits tx heap_xmax_invalid 0 t)
      else if t.locked_only
      then (true, set_hint_bits tx heap_xmax_invalid 0 t)
      else (false, set_hint_bits tx heap_xmax_committed t.raw_xmax t)

  unfoldable pub self_join : Verdict × Header → Bool × Header
  self_join (visible, t) = (true, t)
  self_join (invisible, t) = (false, t)
  self_join (look_at_xmax, t) = self_xmax t

  unfoldable pub heap_tuple_satisfies_self : Header → Bool × Header
  heap_tuple_satisfies_self t = self_join (self_xmin t)
