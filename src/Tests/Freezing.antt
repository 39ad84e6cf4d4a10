-- ===== src/Tests/Freezing.antt =====
-- Freezing of a row with a multixact, and the record of freezing.
use mathlib.Core.List.{Permᴰ}
use pg_tde.Base.{
  arith, ℕ, ◌≡◌, refl, ap, true, false, Option, some, none, List, [], ◌∷◌, if◌then◌else◌, ltb, ◌==◌,
}
use pg_tde.Visibility.{Snapshot, heap_tuple_satisfies_mvcc}
use pg_tde.RowLock.{MultiXactMember, for_key_share, no_key_update}
use pg_tde.RowLock.Members.{multi_xact_id_get_update_xid, first_updater}
use pg_tde.Freeze.{Bits, TupleHeader, VacuumCutoffs, HeapPageFreeze, FreezeServer, get_xvac}
use pg_tde.Freeze.Multi.{freeze_multi_xact_id}
use pg_tde.Freeze.Prepare.{
  HeapTupleFreeze, Prepared, pg_tde_prepare_freeze_tuple, pg_tde_execute_freeze_tuple,
  passes_checks, pg_tde_tuple_needs_eventual_freeze,
}
use pg_tde.Freeze.Deleter.{transactions, header_of}
use pg_tde.Freeze.Visible.{freeze_tuple-mvcc}
use pg_tde.Freeze.Total.{totally_frozen-needs_nothing}
use pg_tde.Freeze.Plans.{
  FrozenItem, Page, execute_all, pg_tde_log_freeze_plan, pg_tde_xlog_freeze_page,
}
use pg_tde.Freeze.Order.{freeze_page-redo}
use pg_tde.Tests.Files.{some_transactions}

abbrev running_updater : MultiXactMember
running_updater = record { xid = 20; status = no_key_update }

-- Transaction 20 updated the row and still runs; 10 locked it and has ended.
abbrev members_of : ℕ → Option (List MultiXactMember)
members_of n =
    if n == 7
    then some (record { xid = 10; status = for_key_share } ∷ (running_updater ∷ []))
    else if n == 9
    then some (running_updater ∷ [])
    else none

abbrev freeze_server : FreezeServer
freeze_server = record {
  server = record {
    is_current = λ xid. false;
    in_progress = λ xid. xid == 20;
    did_abort = λ xid. false;
    did_commit = λ xid. xid == 5;
    multi_running = λ multi lock_only. false;
    members = members_of;
    multi_create = λ x s y t. 8;
    multi_expand = λ m x s. 8;
    lock_modes_conflict = λ a b. false;
  };
  precedes = ltb;
  multi_precedes = ltb;
  create_from_members = λ ms. 9;
}

abbrev freeze_cutoffs : VacuumCutoffs
freeze_cutoffs = record {
  relfrozenxid = 3;
  relminmxid = 2;
  oldest_xmin = 15;
  oldest_mxact = 5;
  freeze_limit = 15;
  multi_xact_cutoff = 5;
}

abbrev multi_bits : Bits
multi_bits = record {
  xmin_committed = false;
  xmin_invalid = false;
  xmax_committed = false;
  xmax_invalid = false;
  xmax_is_multi = true;
  lock_only = false;
  keyshr_lock = false;
  excl_lock = true;
  moved_off = false;
  moved_in = false;
  keys_updated = false;
  hot_updated = false;
  other = 0;
}

abbrev multi_row : TupleHeader
multi_row = record { raw_xmin = 5; raw_xmax = 7; field3 = 0; bits = multi_bits }

abbrev page_start : HeapPageFreeze
page_start = record {
  freeze_required = false;
  freeze_page_relfrozen_xid = 15;
  freeze_page_relmin_mxid = 5;
  no_freeze_page_relfrozen_xid = 15;
  no_freeze_page_relmin_mxid = 5;
}

-- The multixact gives way to its updater.
abbrev multi_frz : HeapTupleFreeze
multi_frz = record {
  xmax = 20;
  bits = record multi_bits {
    xmin_committed = true;
    xmin_invalid = true;
    xmax_is_multi = false;
    excl_lock = false;
  };
  freeze_xvac = false;
  invalid_xvac = false;
  check_xmin_committed = true;
  check_xmax_aborted = false;
}

abbrev multi_prepared : Prepared
multi_prepared = record {
  frz = multi_frz;
  page = record page_start { freeze_required = true };
  totally_frozen = false;
  has_plan = true;
}

prepare-multi_row :
    pg_tde_prepare_freeze_tuple freeze_server freeze_cutoffs multi_row page_start
    ≡ some multi_prepared
unfolding pg_tde_prepare_freeze_tuple pg_tde.Freeze.Prepare.xmax_plan
    pg_tde.Freeze.Multi.freeze_multi_xact_id pg_tde.Freeze.Multi.freeze_members
    pg_tde.Freeze.Multi.first_pass pg_tde.Freeze.Multi.replace_multi pg_tde.Freeze.Multi.second_pass
    pg_tde.Freeze.Multi.second_member pg_tde.Freeze.Multi.replacement
    pg_tde.Freeze.Prepare.multi_plan pg_tde.Freeze.Prepare.join_plan
    pg_tde.Freeze.Prepare.force_freeze
prepare-multi_row = refl

abbrev freeze_snapshot : Snapshot
freeze_snapshot = record { curcid = 0; in_snapshot = λ xid. xid == 20 }

before_limit : (x : ℕ) → ltb x 15 ≡ true → (false ≡ false) × (freeze_snapshot.in_snapshot x ≡ false)
before_limit x e = (refl, ground arith)

freeze_tuple-mvcc_example :
    (heap_tuple_satisfies_mvcc
      (transactions freeze_server some_transactions)
      freeze_snapshot
      (header_of freeze_server 0 0 0 (pg_tde_execute_freeze_tuple multi_frz multi_row))).0
    ≡ (heap_tuple_satisfies_mvcc
        (transactions freeze_server some_transactions)
        freeze_snapshot
        (header_of freeze_server 0 0 0 multi_row)).0
unfolding multi_xact_id_get_update_xid first_updater passes_checks pg_tde.Freeze.Multi.second_pass
    pg_tde.Freeze.Multi.second_member
freeze_tuple-mvcc_example =
    freeze_tuple-mvcc freeze_server freeze_cutoffs some_transactions freeze_snapshot 0 0 0 multi_row
      refl refl (λ e. absurd cc) (λ e. absurd cc) before_limit (refl, λ e k. absurd (omega arith))
      (λ m e. absurd cc) refl refl
      (λ r e.
        ap
          (λ o. elim o as (λ q. Option (List MultiXactMember)) [
            | none ↦ none
            | some q ↦ some q.newmembers
          ])
          e)
      page_start multi_prepared prepare-multi_row refl

-- A row that its inserting transaction locked.
abbrev locked_row : TupleHeader
locked_row = record {
  raw_xmin = 5;
  raw_xmax = 5;
  field3 = 0;
  bits = record multi_bits { xmax_is_multi = false; lock_only = true };
}

abbrev locked_prepared : Prepared
locked_prepared = record {
  frz = record {
    xmax = 0;
    bits = record multi_bits {
      xmin_committed = true;
      xmin_invalid = true;
      xmax_invalid = true;
      xmax_is_multi = false;
      excl_lock = false;
    };
    freeze_xvac = false;
    invalid_xvac = false;
    check_xmin_committed = true;
    check_xmax_aborted = false;
  };
  page = record page_start { freeze_required = true; no_freeze_page_relfrozen_xid = 5 };
  totally_frozen = true;
  has_plan = true;
}

prepare-locked_row :
    pg_tde_prepare_freeze_tuple freeze_server freeze_cutoffs locked_row page_start
    ≡ some locked_prepared
unfolding pg_tde_prepare_freeze_tuple pg_tde.Freeze.Prepare.xmax_plan pg_tde.Freeze.Prepare.xid_plan
    pg_tde.Freeze.Prepare.join_plan pg_tde.Freeze.Prepare.force_freeze
    pg_tde.Freeze.Prepare.pg_tde_tuple_should_freeze pg_tde.Freeze.Prepare.track_xvac
prepare-locked_row = refl

totally_frozen-needs_nothing_example :
    pg_tde_tuple_needs_eventual_freeze (pg_tde_execute_freeze_tuple locked_prepared.frz locked_row)
    ≡ false
totally_frozen-needs_nothing_example =
    totally_frozen-needs_nothing freeze_server freeze_cutoffs locked_row page_start locked_prepared
      prepare-locked_row refl

-- Two rows with one plan and a third with another; qsort puts the third first.
abbrev frozen_items : List FrozenItem
frozen_items =
    record { offset = 1; frz = multi_frz }
    ∷ (record { offset = 2; frz = locked_prepared.frz }
        ∷ (record { offset = 3; frz = locked_prepared.frz } ∷ []))

abbrev plan_at : ℕ → HeapTupleFreeze
plan_at o = if o == 1 then multi_frz else locked_prepared.frz

abbrev two_first : List FrozenItem → List FrozenItem
two_first [] = []
two_first (a ∷ []) = a ∷ []
two_first (a ∷ b ∷ items) = b ∷ a ∷ items

abbrev rows : Page
rows o = if o == 1 then multi_row else locked_row

freeze_page-redo_example :
    let log = pg_tde_log_freeze_plan two_first frozen_items in
    (redone : Page) × (pg_tde_xlog_freeze_page log.0 log.1 rows ≡ some redone)
    × ((o : ℕ) → redone o ≡ execute_all frozen_items rows o)
freeze_page-redo_example =
    freeze_page-redo two_first frozen_items rows plan_at (refl, (refl, (refl, tt)))
      (Permᴰ.swap refl refl)
