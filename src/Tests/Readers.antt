-- ===== src/Tests/Readers.antt =====
-- Row visibility for updates, dirty reads, vacuum and logical decoding.
use pg_tde.Base.{◌≡◌, refl, true, false, ◌&&◌, ◌||◌, not, [], ◌∷◌, arith, ltb, ◌==◌}
use pg_tde.Visibility.{Header, Transactions, Snapshot, heap_tuple_satisfies_mvcc, is_xmin_invalid}
use pg_tde.Visibility.Self.{heap_tuple_satisfies_self}
use pg_tde.Visibility.Update.{heap_tuple_satisfies_update}
use pg_tde.Visibility.Update.Laws.{allowed, heap_tuple_satisfies_update-allowed}
use pg_tde.Visibility.Vacuum.{heap_tuple_satisfies_vacuum, dead}
use pg_tde.Visibility.Vacuum.Laws.{vacuum_dead-mvcc_invisible}
use pg_tde.Visibility.Historic.{
  Historic, transaction_id_in_array, heap_tuple_satisfies_historic_mvcc,
}
use pg_tde.Visibility.Historic.Laws.{in_past, heap_tuple_satisfies_historic_mvcc_lem}
use pg_tde.Tests.Files.{some_transactions, some_snapshot, some_header}

heap_tuple_satisfies_update-allowed_example :
    allowed
      (heap_tuple_satisfies_update some_transactions 0 77 some_header).0
      (heap_tuple_satisfies_self some_transactions some_header).0
    ≡ true
heap_tuple_satisfies_update-allowed_example =
    heap_tuple_satisfies_update-allowed some_transactions 0 77 some_header (λ e. ground (arith, e))
      (λ e. absurd (ground arith)) refl refl

-- Transaction 4 deleted the row and committed, before the horizon 6.
abbrev deleted_header : Header
deleted_header = record some_header { raw_xmax = 4 }

abbrev later_transactions : Transactions
later_transactions = record some_transactions {
  is_current = λ xid. false;
  did_commit = λ xid. ltb xid 6;
}

vacuum_dead-mvcc_invisible_example :
    (heap_tuple_satisfies_mvcc
      (record later_transactions { is_current = λ xid. xid == 6 })
      some_snapshot
      deleted_header).0
    ≡ false
unfolding heap_tuple_satisfies_vacuum pg_tde.Visibility.Vacuum.heap_tuple_satisfies_vacuum_horizon
    pg_tde.Visibility.Vacuum.vacuum_xmax
vacuum_dead-mvcc_invisible_example =
    vacuum_dead-mvcc_invisible later_transactions some_snapshot (λ xid. xid == 6) deleted_header 6
      refl refl (λ e. refl) (λ xid e. e) (λ xid e. ground (arith, e)) (λ xid e. ground (arith, e))
      refl

abbrev some_history : Historic
some_history = record {
  xmin = 5;
  xmax = 7;
  curcid = 0;
  xip = 5 ∷ [];
  subxip = [];
  bsearch = λ xid xip. xid == 5;
  resolved = false;
  cmin = 0;
  cmax = 0;
}

heap_tuple_satisfies_historic_mvcc_example :
    heap_tuple_satisfies_historic_mvcc some_transactions some_history some_header ≡ (
      in_past some_transactions some_history 5
      && (false || (false || not (in_past some_transactions some_history 6))))
unfolding transaction_id_in_array
heap_tuple_satisfies_historic_mvcc_example =
    heap_tuple_satisfies_historic_mvcc_lem some_transactions some_history some_header refl refl
      (λ e. refl) (λ e. ground (arith, e)) (λ e. ground (arith, e))
