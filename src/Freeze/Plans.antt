-- ===== src/Freeze/Plans.antt =====
-- The freeze record of the log: `pg_tde_log_freeze_plan` groups the tuples of a page by plan, and
-- `pg_tde_xlog_freeze_page` carries the plans out.
use pg_tde.Base.{
  ℕ, zero, suc, Bool, true, false, ◌&&◌, not, Option, none, some, List, [], ◌∷◌, if◌then◌else◌,
  ◌==◌,
}
use pg_tde.Freeze.{Bits, TupleHeader}
use pg_tde.Freeze.Prepare.{HeapTupleFreeze, pg_tde_execute_freeze_tuple}

-- `HeapTupleFreeze` with its offset on the page.
pub record FrozenItem : Type 0 where
  pub offset : ℕ
  pub frz : HeapTupleFreeze

-- `xl_pg_tde_freeze_plan`: the actions, and for how many tuples.
pub record FreezePlan : Type 0 where
  pub xmax : ℕ
  pub bits : Bits
  pub freeze_xvac : Bool
  pub invalid_xvac : Bool
  pub ntuples : ℕ

-- A page's tuples by their offset numbers.
abbrev pub Page : Type 0
Page = ℕ → TupleHeader

abbrev pub freeze_at : ℕ → HeapTupleFreeze → Page → Page
freeze_at offset frz page o =
    if o == offset then pg_tde_execute_freeze_tuple frz (page o) else page o

-- The second loop of `pg_tde_freeze_execute_prepared`.
unfoldable pub execute_all : List FrozenItem → Page → Page
execute_all [] page = page
execute_all (it ∷ items) page = execute_all items (freeze_at it.offset it.frz page)

abbrev pub same_bit : Bool → Bool → Bool
same_bit true b = b
same_bit false b = not b

abbrev pub same_bits : Bits → Bits → Bool
same_bits a b =
    same_bit a.xmin_committed b.xmin_committed
    && (same_bit a.xmin_invalid b.xmin_invalid
        && (same_bit a.xmax_committed b.xmax_committed
            && (same_bit a.xmax_invalid b.xmax_invalid
                && (same_bit a.xmax_is_multi b.xmax_is_multi
                    && (same_bit a.lock_only b.lock_only
                        && (same_bit a.keyshr_lock b.keyshr_lock
                            && (same_bit a.excl_lock b.excl_lock
                                && (same_bit a.moved_off b.moved_off
                                    && (same_bit a.moved_in b.moved_in
                                        && (same_bit a.keys_updated b.keys_updated
                                            && (same_bit a.hot_updated b.hot_updated
                                                && (a.other == b.other))))))))))))

-- `pg_tde_log_freeze_eq`
unfoldable pub pg_tde_log_freeze_eq : FreezePlan → HeapTupleFreeze → Bool
pg_tde_log_freeze_eq plan frz =
    (plan.xmax == frz.xmax)
    && (same_bits plan.bits frz.bits
        && (same_bit plan.freeze_xvac frz.freeze_xvac
            && same_bit plan.invalid_xvac frz.invalid_xvac))

-- `pg_tde_log_freeze_new_plan`
abbrev pub pg_tde_log_freeze_new_plan : HeapTupleFreeze → FreezePlan
pg_tde_log_freeze_new_plan frz = record {
  xmax = frz.xmax;
  bits = frz.bits;
  freeze_xvac = frz.freeze_xvac;
  invalid_xvac = frz.invalid_xvac;
  ntuples = 1;
}

-- The loop, with the open plan: the plans from it on, and the offsets.
unfoldable pub group_items : FreezePlan → List FrozenItem → List FreezePlan × List ℕ
group_items open_plan [] = (open_plan ∷ [], [])
group_items open_plan (it ∷ items) =
    let more = group_items (record open_plan { ntuples = suc open_plan.ntuples }) items in
    let new = group_items (pg_tde_log_freeze_new_plan it.frz) items in
    if pg_tde_log_freeze_eq open_plan it.frz
    then (more.0, it.offset ∷ more.1)
    else (open_plan ∷ new.0, it.offset ∷ new.1)

-- `pg_tde_log_freeze_plan`; `sort` is `qsort` with `pg_tde_log_freeze_cmp`.
unfoldable pub log_sorted : List FrozenItem → List FreezePlan × List ℕ
log_sorted [] = ([], [])
log_sorted (it ∷ items) =
    let grouped = group_items (pg_tde_log_freeze_new_plan it.frz) items in
    (grouped.0, it.offset ∷ grouped.1)

abbrev pub pg_tde_log_freeze_plan :
    (List FrozenItem → List FrozenItem) → List FrozenItem → List FreezePlan × List ℕ
pg_tde_log_freeze_plan sort items = log_sorted (sort items)

-- The per-tuple form of a plan in `pg_tde_xlog_freeze_page`.
abbrev pub plan_of : FreezePlan → HeapTupleFreeze
plan_of p = record {
  xmax = p.xmax;
  bits = p.bits;
  freeze_xvac = p.freeze_xvac;
  invalid_xvac = p.invalid_xvac;
  check_xmin_committed = false;
  check_xmax_aborted = false;
}

-- The inner loop: `n` tuples at the next offsets. The page, and the offsets left; none if the record has
-- too few.
unfoldable pub replay_tuples : HeapTupleFreeze → ℕ → List ℕ → Page → Option (Page × List ℕ)
replay_tuples frz zero offsets page = some (page, offsets)
replay_tuples frz (suc n) [] page = none
replay_tuples frz (suc n) (o ∷ offsets) page = replay_tuples frz n offsets (freeze_at o frz page)

-- `pg_tde_xlog_freeze_page` where the page has to be redone.
unfoldable pub pg_tde_xlog_freeze_page : List FreezePlan → List ℕ → Page → Option Page
pg_tde_xlog_freeze_page [] offsets page = some page
pg_tde_xlog_freeze_page (p ∷ plans) offsets page =
    elim (replay_tuples (plan_of p) p.ntuples offsets page) [
      | none ↦ none
      | some r ↦ pg_tde_xlog_freeze_page plans r.1 r.0
    ]
