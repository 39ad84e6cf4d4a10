-- ===== src/Visibility/Hints.antt =====
-- Hint bits do not change what a reader sees.
use pg_tde.Base.{arith, ℕ, ◌≡◌, true, false, ◌&&◌, not}
use pg_tde.Visibility.{
  Header, Transactions, Snapshot, set_hint_bits, mvcc_own, mvcc_xmin, mvcc_xmax, mvcc_join,
  heap_tuple_satisfies_mvcc,
}

module _ (tx : Transactions) (snapshot : Snapshot) where
  -- After the deleting transaction was looked at, looking again gives the same answer.
  pub mvcc_xmax-again :
      (t : Header)
      → (mvcc_xmax tx snapshot (mvcc_xmax tx snapshot t).1).0 ≡ (mvcc_xmax tx snapshot t).0
  unfolding mvcc_xmax set_hint_bits
  mvcc_xmax-again t = ground arith

  -- A row version of other transactions is seen when its insertion is committed for the snapshot and
  -- its deletion is not. It was not moved, is not only locked, has no multixact, and its hint bits
  -- are true of the transactions.
  pub heap_tuple_satisfies_mvcc_lem :
      (t : Header)
      → t.moved_off ≡ false
      → t.moved_in ≡ false
      → t.locked_only ≡ false
      → t.xmax_is_multi ≡ false
      → tx.is_current t.raw_xmin ≡ false
      → tx.is_current t.raw_xmax ≡ false
      → (t.xmin_committed ≡ true → tx.did_commit t.raw_xmin ≡ true)
      → (t.xmin_invalid ≡ true → tx.did_commit t.raw_xmin ≡ false)
      → (t.xmax_committed ≡ true → tx.did_commit t.raw_xmax ≡ true)
      → (t.xmax_invalid ≡ true → tx.did_commit t.raw_xmax ≡ false)
      → let committed = λ (xid : ℕ). tx.did_commit xid && not (snapshot.in_snapshot xid) in
        (heap_tuple_satisfies_mvcc tx snapshot t).0
        ≡ (committed t.raw_xmin && not (committed t.raw_xmax))
  unfolding heap_tuple_satisfies_mvcc mvcc_join mvcc_xmin mvcc_own mvcc_xmax set_hint_bits
  heap_tuple_satisfies_mvcc_lem t off in_ locked multi own_min own_max minc mini maxc maxi =
      ground arith
