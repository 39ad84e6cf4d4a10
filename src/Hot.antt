-- ===== src/Hot.antt =====
-- Pruning of HOT chains, src/access/pg_tde_prune.c: the line pointers of a page, `PruneState` and the
-- routines that record what is to change. The children have the walk along a chain, the whole page and
-- the replay of the record in the log.
pub mod Chain
pub mod Roots
pub mod Page
pub mod Safe
pub mod SafeChain
pub mod Statuses
pub mod SafePage
pub mod Ends
pub mod Returns
pub mod Redo
use pg_tde.Base.{
  ℕ, zero, suc, Bool, true, false, ◌&&◌, ◌||◌, not, Option, none, some, List, [], ◌∷◌, ◌++◌,
  if◌then◌else◌, ◌==◌,
}
use pg_tde.Visibility.{Header, Transactions, is_xmin_invalid}
use pg_tde.Visibility.Historic.{header_xmin}
use pg_tde.Visibility.Vacuum.{
  HtsvResult, dead, live, recently_dead, insert_in_progress, delete_in_progress, Status,
  header_update_xid, heap_tuple_satisfies_vacuum_horizon,
}

-- A tuple on the page: its header, the bits `HEAP_ONLY_TUPLE` and `HEAP_HOT_UPDATED`, the offset number
-- in `t_ctid`, and where the line pointer says the tuple is stored.
pub record HotTuple : Type 0 where
  pub header : Header
  pub heap_only : Bool
  pub hot_updated : Bool
  pub ctid_off : ℕ
  pub lp_off : ℕ
  pub lp_len : ℕ

pub data LinePointer : Type 0 where
  lp_unused lp_dead : LinePointer
  lp_redirect : ℕ → LinePointer
  lp_normal : HotTuple → LinePointer

-- The server's macro `HeapTupleHeaderIsHotUpdated`.
abbrev pub is_hot_updated : HotTuple → Bool
is_hot_updated t = t.hot_updated && (not t.header.xmax_invalid && not (is_xmin_invalid t.header))

-- `PageGetItemId` for the offset numbers 1 to `length lines`; a line pointer past the end is unused.
abbrev pub item_id : List LinePointer → ℕ → LinePointer
item_id [] o = lp_unused
item_id (lp ∷ lines) zero = lp_unused
item_id (lp ∷ lines) (suc zero) = lp
item_id (lp ∷ lines) (suc (suc o)) = item_id lines (suc o)

-- What the server answers. `removable` is `GlobalVisTestIsRemovableXid` of `vistest`, `threshold_active` is
-- `OldSnapshotThresholdActive`, and `limited_xmin` the xmin that `TransactionIdLimitedForOldSnapshots` sets,
-- 0 if it sets none.
pub record PruneServer : Type 0 where
  pub tx : Transactions
  pub removable : ℕ → Bool
  pub threshold_active : Bool
  pub limited_xmin : ℕ

-- `PruneState`. The arrays are lists; `htsv` maps an offset number to the status, none for -1.
pub record PruneState : Type 0 where
  pub old_snap_xmin : ℕ
  pub old_snap_used : Bool
  pub new_prune_xid : ℕ
  pub conflict_horizon : ℕ
  pub redirected : List (ℕ × ℕ)
  pub nowdead : List ℕ
  pub nowunused : List ℕ
  pub marked : ℕ → Bool
  pub htsv : ℕ → Option HtsvResult

abbrev pub set_at {ℓ} : {A : Type ℓ} → ℕ → A → (ℕ → A) → ℕ → A
set_at o x f k = if k == o then x else f k

module _ (sv : PruneServer) where
  -- `heap_prune_satisfies_vacuum` once the tuple is recently dead.
  unfoldable pub limited_status : ℕ → PruneState → HtsvResult × PruneState
  limited_status dead_after st =
      let xmin = if st.old_snap_xmin == 0 then sv.limited_xmin else st.old_snap_xmin in
      if st.old_snap_used
      then (if sv.tx.precedes dead_after st.old_snap_xmin then dead else recently_dead, st)
      else if sv.removable dead_after
      then (dead, st)
      else if not sv.threshold_active
      then (recently_dead, st)
      else if not (xmin == 0) && sv.tx.precedes dead_after xmin
      then (dead, record st { old_snap_xmin = xmin; old_snap_used = true })
      else (recently_dead, record st { old_snap_xmin = xmin })

  -- What it does with the status that `HeapTupleSatisfiesVacuumHorizon` found.
  unfoldable pub final_status : Status → PruneState → HtsvResult × PruneState
  final_status s st = elim s.result [
    | recently_dead ↦ limited_status s.dead_after st
    | other ↦ (other, st)
  ]

  -- `heap_prune_satisfies_vacuum`: the status, the state, and the header with its hint bits.
  unfoldable pub heap_prune_satisfies_vacuum :
      PruneState → Header → HtsvResult × PruneState × Header
  heap_prune_satisfies_vacuum st t =
      let s = heap_tuple_satisfies_vacuum_horizon sv.tx t in
      let r = final_status s st in (r.0, r.1, s.header)

  -- `heap_prune_record_prunable`
  unfoldable pub record_prunable : ℕ → PruneState → PruneState
  record_prunable xid st =
      if st.new_prune_xid == 0 || sv.tx.precedes xid st.new_prune_xid
      then record st { new_prune_xid = xid }
      else st

  -- `HeapTupleHeaderAdvanceConflictHorizon`, in pg_tdeam.c; `TransactionIdFollows` is `TransactionIdPrecedes`
  -- the other way round.
  unfoldable pub advance_conflict_horizon : Header → ℕ → ℕ
  advance_conflict_horizon t horizon =
      let xmin = header_xmin t in
      let xmax = header_update_xid t in
      let h =
        if (t.moved_off || t.moved_in) && sv.tx.precedes horizon t.xvac then t.xvac else horizon in
      if t.xmin_committed || (not (is_xmin_invalid t) && sv.tx.did_commit xmin)
      then (if not (xmax == xmin) && sv.tx.precedes h xmax then xmax else h)
      else h

-- `heap_prune_record_redirect`
abbrev pub record_redirect : ℕ → ℕ → PruneState → PruneState
record_redirect offnum rdoffnum st = record st {
  redirected = st.redirected ++ ((offnum, rdoffnum) ∷ []);
  marked = set_at rdoffnum true (set_at offnum true st.marked);
}

-- `heap_prune_record_dead`
abbrev pub record_dead : ℕ → PruneState → PruneState
record_dead offnum st = record st {
  nowdead = st.nowdead ++ (offnum ∷ []);
  marked = set_at offnum true st.marked;
}

-- `heap_prune_record_unused`
abbrev pub record_unused : ℕ → PruneState → PruneState
record_unused offnum st = record st {
  nowunused = st.nowunused ++ (offnum ∷ []);
  marked = set_at offnum true st.marked;
}
