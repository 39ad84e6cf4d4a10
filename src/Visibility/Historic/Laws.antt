-- ===== src/Visibility/Historic/Laws.antt =====
-- What logical decoding sees, in terms of one notion of the past.
use pg_tde.Base.{arith, ℕ, ◌≡◌, true, false, Bool, ◌||◌, ◌&&◌, not, if◌then◌else◌}
use pg_tde.Visibility.{Header, Transactions, is_xmin_invalid}
use pg_tde.Visibility.Historic.{
  Historic, historic_xmin, historic_deleter, heap_tuple_satisfies_historic_mvcc,
  transaction_id_in_array, header_xmin,
}

-- Whether the snapshot counts `xid` as committed: a transaction before its horizon by the commit log,
-- one inside its bounds by its list, none after.
abbrev pub in_past : Transactions → Historic → ℕ → Bool
in_past tx s xid =
    if tx.precedes xid s.xmin
    then tx.did_commit xid
    else tx.precedes xid s.xmax && transaction_id_in_array tx s xid s.xip

module _ (tx : Transactions) (s : Historic) (t : Header) where
  -- A row of transactions other than the decoded one is seen when its insertion is in the snapshot's
  -- past and it has no deletion, by an update or a delete, that is in it too. The hint bits are true
  -- of the transactions.
  pub heap_tuple_satisfies_historic_mvcc_lem :
      let xmin = header_xmin t in
      let xmax = if t.xmax_is_multi then t.update_xid else t.raw_xmax in
      transaction_id_in_array tx s xmin s.subxip ≡ false
      → transaction_id_in_array tx s xmax s.subxip ≡ false
      → (t.xmin_committed ≡ true → tx.did_commit xmin ≡ true)
      → (is_xmin_invalid t ≡ true → in_past tx s xmin ≡ false)
      → (t.xmax_committed ≡ true → tx.did_commit xmax ≡ true)
      → heap_tuple_satisfies_historic_mvcc tx s t
        ≡ (in_past tx s xmin && (t.xmax_invalid || (t.locked_only || not (in_past tx s xmax))))
  unfolding heap_tuple_satisfies_historic_mvcc historic_xmin historic_deleter
  heap_tuple_satisfies_historic_mvcc_lem own_min own_max minc mini maxc = ground arith
