-- ===== src/Visibility/Dirty.antt =====
-- `HeapTupleSatisfiesDirty`: the row with the effects of open transactions, and which of them are
-- at work on it.
pub mod Laws
use pg_tde.Base.{ℕ, Bool, true, false, ◌||◌, not, Option, none, some, if◌then◌else◌, get_or}
use pg_tde.Visibility.{
  Header, Transactions, Verdict, visible, invisible, look_at_xmax, heap_xmin_committed,
  heap_xmin_invalid, heap_xmax_committed, heap_xmax_invalid, is_xmin_invalid, set_hint_bits,
  moved_xmin,
}
use pg_tde.Visibility.Self.{self_own}

-- The answer, the header, and what the call leaves in `snapshot->xmin`, `snapshot->xmax` and
-- `snapshot->speculativeToken`.
pub record Found : Type 0 where
  pub seen : Bool
  pub header : Header
  pub xmin : ℕ
  pub xmax : ℕ
  pub token : ℕ

abbrev pub found : Bool → Header → Found
found b t = record { seen = b; header = t; xmin = 0; xmax = 0; token = 0 }

abbrev pub token_of : Option ℕ → ℕ
token_of none = 0
token_of (some n) = n

module _ (tx : Transactions) where
  -- The deleting transaction.
  unfoldable pub dirty_xmax : Header → Found
  dirty_xmax t =
      if t.xmax_invalid
      then found true t
      else if t.xmax_committed
      then found t.locked_only t
      else if t.xmax_is_multi
      then (if t.locked_only
          then found true t
          else if tx.is_current t.update_xid
          then found false t
          else if tx.in_progress t.update_xid
          then record (found true t) { xmax = t.update_xid }
          else found (not (tx.did_commit t.update_xid)) t)
      else if tx.is_current t.raw_xmax
      then found t.locked_only t
      else if tx.in_progress t.raw_xmax
      then (if not t.locked_only then record (found true t) { xmax = t.raw_xmax } else found true t)
      else if not (tx.did_commit t.raw_xmax)
      then found true (set_hint_bits tx heap_xmax_invalid 0 t)
      else if t.locked_only
      then found true (set_hint_bits tx heap_xmax_invalid 0 t)
      else found false (set_hint_bits tx heap_xmax_committed t.raw_xmax t)

  unfoldable pub dirty_join : Verdict × Header → Found
  dirty_join (visible, t) = found true t
  dirty_join (invisible, t) = found false t
  dirty_join (look_at_xmax, t) = dirty_xmax t

  -- The rows of the current transaction are taken as `HeapTupleSatisfiesSelf` takes them.
  unfoldable pub heap_tuple_satisfies_dirty : Header → Found
  heap_tuple_satisfies_dirty t =
      if t.xmin_committed
      then dirty_xmax t
      else if is_xmin_invalid t
      then found false t
      else if t.moved_off || t.moved_in
      then dirty_join (moved_xmin tx t)
      else if tx.is_current t.raw_xmin
      then dirty_join (self_own tx t)
      else if tx.in_progress t.raw_xmin
      then record (found true t) { xmin = t.raw_xmin; token = token_of t.speculative_token }
      else if tx.did_commit t.raw_xmin
      then dirty_xmax (set_hint_bits tx heap_xmin_committed t.raw_xmin t)
      else found false (set_hint_bits tx heap_xmin_invalid 0 t)
