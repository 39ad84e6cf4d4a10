-- ===== src/Tests/Files.antt =====
-- Pending deletions, the visibility map and row visibility.
use pg_tde.Base.{
  ℕ, ◌≡◌, refl, true, false, some, none, List, [], ◌∷◌, ◌++◌, arith, bit_or, if◌then◌else◌, ltb,
  ◌==◌,
}
use pg_tde.Xact
use pg_tde.Xact.{
  FilePath, PendingFileDelete, do_pending_deletes, cleanup_pending_deletes, pg_tde_xact_callback,
  commit, abort,
}
use pg_tde.Xact.Pending.{select, paths, is_outer, is_due, do_pending_deletes_lem}
use pg_tde.Xact.Siblings.{
  Backend, begin_sub, end_sub, rollback_sub, register, run, sibling_rollback-unlinks,
}
use pg_tde.Xact.{eqb}
use pg_tde.VisibilityMap
use pg_tde.VisibilityMap.{
  Page, Fork, status, heapblk_to_mapblock, pg_tde_visibilitymap_clear, pg_tde_visibilitymap_set,
  pg_tde_visibilitymap_prepare_truncate,
}
use pg_tde.VisibilityMap.Blocks.{pg_tde_visibilitymap_set_lem}
use pg_tde.Visibility.{Header, Transactions, Snapshot, heap_tuple_satisfies_mvcc}
use pg_tde.Visibility.Hints.{heap_tuple_satisfies_mvcc_lem}

abbrev created : PendingFileDelete
created = record { path = 1 ∷ []; at_commit = false; nest_level = 1 }

abbrev dropped : PendingFileDelete
dropped = record { path = 2 ∷ []; at_commit = true; nest_level = 2 }

abbrev two_pending : Xact.State
two_pending = record { pending_deletes = dropped ∷ created ∷ []; unlinked = [] }

abbrev some_backend : Backend
some_backend = record { nest_level = 1; files = two_pending }

do_pending_deletes_example : do_pending_deletes 2 true two_pending ≡ record {
  pending_deletes = select (is_outer 2) two_pending.pending_deletes;
  unlinked = two_pending.unlinked ++ paths (is_due 2 true) two_pending.pending_deletes;
}
do_pending_deletes_example = do_pending_deletes_lem 2 true two_pending

sibling_rollback-unlinks_example :
    let after =
      run some_backend
        (begin_sub ∷ register (7 ∷ []) false ∷ end_sub ∷ begin_sub ∷ rollback_sub ∷ []) in
    (rest : List FilePath) × (after.files.unlinked
      ≡ some_backend.files.unlinked ++ ((7 ∷ []) ∷ rest))
sibling_rollback-unlinks_example = sibling_rollback-unlinks some_backend (7 ∷ [])

abbrev some_fork : Fork
some_fork = record {
  smgr_exists = true;
  smgr_nblocks = 3;
  cached_nblocks = some 3;
  page = λ b. record { is_new = false; lsn = 0; map = λ i. 228 };
  heap_lsn = λ b. 0;
  heap_all_visible = λ b. true;
  wal = [];
}

abbrev some_server : VisibilityMap.Server
some_server = record {
  needs_wal = true;
  catalog_rel = false;
  hint_bit_needed = true;
  in_recovery = false;
  lsn_of = λ wal. 9;
  page_init = λ p. p;
  extend_to = λ n f. f;
}

pg_tde_visibilitymap_set_example :
    (f' : Fork) × (pg_tde_visibilitymap_set some_server 40001
        (some 40001)
        0
        (some (heapblk_to_mapblock 40001))
        5
        3
        some_fork
      ≡ some f')
    × ((x : ℕ)
        → status f' x
          ≡ (if x == 40001 then bit_or (status some_fork 40001) 3 else status some_fork x))
pg_tde_visibilitymap_set_example =
    pg_tde_visibilitymap_set_lem some_server 40001 0 5 3 some_fork (λ b i. omega arith)
      (omega arith) (λ e. omega arith) refl refl

-- Transaction 5 inserted the row and committed; 6 deletes it and is in progress.
abbrev pub some_transactions : Transactions
some_transactions = record {
  is_current = λ xid. xid == 9;
  in_progress = λ xid. xid == 6;
  did_commit = λ xid. xid == 5;
  multi_running = λ multi lock_only. false;
  precedes = ltb;
  commit_lsn = λ xid. 0;
  needs_flush = λ lsn. false;
  buffer_permanent = true;
  buffer_lsn = 0;
}

abbrev pub some_snapshot : Snapshot
some_snapshot = record { curcid = 0; in_snapshot = λ xid. xid == 6 }

abbrev pub some_header : Header
some_header = record {
  xmin_committed = true;
  xmin_invalid = false;
  xmax_committed = false;
  xmax_invalid = false;
  moved_off = false;
  moved_in = false;
  xmax_is_multi = false;
  lock_only = false;
  locked_only = false;
  locked_upgraded = false;
  raw_xmin = 5;
  raw_xmax = 6;
  xvac = 0;
  update_xid = 0;
  cmin = 0;
  cmax = 0;
  t_ctid = 77;
  speculative_token = none;
}

heap_tuple_satisfies_mvcc_example :
    (heap_tuple_satisfies_mvcc some_transactions some_snapshot some_header).0 ≡ true
heap_tuple_satisfies_mvcc_example =
    heap_tuple_satisfies_mvcc_lem some_transactions some_snapshot some_header refl refl refl refl
      refl refl (λ e. refl) (λ e. ground (arith, e)) (λ e. ground (arith, e)) (λ e. refl)
