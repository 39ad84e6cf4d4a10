-- ===== src/Hot/Page.antt =====
-- `pg_tde_page_prune` and `pg_tde_page_prune_execute`, and `pg_tde_xlog_prune` of pg_tdeam.c.
use pg_tde.Base.{
  ℕ, zero, suc, ◌+◌, Bool, true, false, ◌||◌, not, Option, none, some, List, [], ◌∷◌, if◌then◌else◌,
  ltb, ◌==◌, length, ◌++◌, ◌*◌, take, drop,
}
use pg_tde.Prune.{Line, unused, without_storage, stored, Plan, Step, keep, recrypt, move, set_line}
use pg_tde.Prune.Repair.{Repaired, repair_fragmentation}
use pg_tde.Hot.{
  LinePointer, lp_unused, lp_dead, lp_redirect, lp_normal, item_id, set_at, PruneServer, PruneState,
  heap_prune_satisfies_vacuum,
}
use pg_tde.Hot.Chain.{heap_prune_chain}

-- `ItemIdSetRedirect`, `ItemIdSetDead` and `ItemIdSetUnused`: the line pointer of an offset number.
abbrev pub set_item_id : ℕ → LinePointer → List LinePointer → List LinePointer
set_item_id o lp [] = []
set_item_id zero lp (old ∷ lines) = old ∷ lines
set_item_id (suc zero) lp (old ∷ lines) = lp ∷ lines
set_item_id (suc (suc o)) lp (old ∷ lines) = old ∷ set_item_id (suc o) lp lines

abbrev pub set_redirects : List (ℕ × ℕ) → List LinePointer → List LinePointer
set_redirects [] lines = lines
set_redirects ((from, to) ∷ more) lines =
    set_redirects more (set_item_id from (lp_redirect to) lines)

abbrev pub set_all : LinePointer → List ℕ → List LinePointer → List LinePointer
set_all lp [] lines = lines
set_all lp (o ∷ more) lines = set_all lp more (set_item_id o lp lines)

-- What is to be done: the three arrays and the conflict horizon.
pub record PruneRecord : Type 0 where
  pub redirected : List (ℕ × ℕ)
  pub nowdead : List ℕ
  pub nowunused : List ℕ
  pub conflict_horizon : ℕ

-- The loops of `pg_tde_page_prune_execute`.
unfoldable pub execute_items : PruneRecord → List LinePointer → List LinePointer
execute_items r lines =
    set_all lp_unused r.nowunused (set_all lp_dead r.nowdead (set_redirects r.redirected lines))

-- The line pointers as `TdePageRepairFragmentation` reads them.
abbrev pub compaction_line : LinePointer → Line
compaction_line lp_unused = unused
compaction_line lp_dead = without_storage
compaction_line (lp_redirect to) = without_storage
compaction_line (lp_normal t) = stored t.lp_off t.lp_len

abbrev pub compaction_lines : List LinePointer → List Line
compaction_lines [] = []
compaction_lines (lp ∷ lines) = compaction_line lp ∷ compaction_lines lines

-- The page's header fields that matter here.
pub record PageHeader : Type 0 where
  pub pd_lower : ℕ
  pub pd_upper : ℕ
  pub pd_special : ℕ
  pub pd_prune_xid : ℕ
  pub page_full : Bool

-- `itemid->lp_off = off`
abbrev pub set_lp_off : ℕ → ℕ → List LinePointer → List LinePointer
set_lp_off o off [] = []
set_lp_off zero off (lp ∷ lines) = lp ∷ lines
set_lp_off (suc zero) off (lp_normal t ∷ lines) = lp_normal (record t { lp_off = off }) ∷ lines
set_lp_off (suc zero) off (lp_unused ∷ lines) = lp_unused ∷ lines
set_lp_off (suc zero) off (lp_dead ∷ lines) = lp_dead ∷ lines
set_lp_off (suc zero) off (lp_redirect to ∷ lines) = lp_redirect to ∷ lines
set_lp_off (suc (suc o)) off (lp ∷ lines) = lp ∷ set_lp_off (suc o) off lines

-- The line pointers after the steps of a compaction; the steps that copy and re-encrypt data leave them alone.
abbrev pub set_lp_offs : List Step → List LinePointer → List LinePointer
set_lp_offs [] lines = lines
set_lp_offs (set_line offsetindex off ∷ steps) lines =
    set_lp_offs steps (set_lp_off (offsetindex + 1) off lines)
set_lp_offs (keep off size ∷ steps) lines = set_lp_offs steps lines
set_lp_offs (recrypt read_off write_off len ∷ steps) lines = set_lp_offs steps lines
set_lp_offs (move to_off from_off size ∷ steps) lines = set_lp_offs steps lines

abbrev pub steps_of : Option Plan → List Step
steps_of none = []
steps_of (some plan) = plan.steps

-- The end of `pg_tde_page_prune_execute`, with what `TdePageRepairFragmentation` does; none for its error.
abbrev pub repair_lines : List LinePointer → Option Repaired → Option (List LinePointer × Repaired)
repair_lines lines none = none
repair_lines lines (some rep) = some (set_lp_offs (steps_of rep.compaction) lines, rep)

-- `pg_tde_page_prune_execute`; none is the error of `TdePageRepairFragmentation`, for a corrupted page.
unfoldable pub pg_tde_page_prune_execute :
    PruneRecord → PageHeader → List LinePointer → Option (List LinePointer × Repaired)
pg_tde_page_prune_execute r page lines =
    let changed = execute_items r lines in
    repair_lines changed
      (repair_fragmentation page.pd_lower page.pd_upper page.pd_special (compaction_lines changed))

-- The record in the log: two counts, the horizon, and the three arrays one after the other.
pub record XlogPrune : Type 0 where
  pub conflict_horizon : ℕ
  pub nredirected : ℕ
  pub ndead : ℕ
  pub offsets : List ℕ

abbrev pub pair_offsets : List (ℕ × ℕ) → List ℕ
pair_offsets [] = []
pair_offsets ((from, to) ∷ pairs) = from ∷ (to ∷ pair_offsets pairs)

abbrev pub log_prune : PruneRecord → XlogPrune
log_prune r = record {
  conflict_horizon = r.conflict_horizon;
  nredirected = length r.redirected;
  ndead = length r.nowdead;
  offsets = pair_offsets r.redirected ++ (r.nowdead ++ r.nowunused);
}

-- The first `n` pairs of an array.
abbrev pub read_pairs : ℕ → List ℕ → List (ℕ × ℕ)
read_pairs zero offsets = []
read_pairs (suc n) [] = []
read_pairs (suc n) (from ∷ []) = []
read_pairs (suc n) (from ∷ (to ∷ offsets)) = (from, to) ∷ read_pairs n offsets

-- How `pg_tde_xlog_prune` finds the arrays.
abbrev pub read_prune : XlogPrune → PruneRecord
read_prune x =
    let nowdead = drop (x.nredirected * 2) x.offsets in
    record {
      redirected = read_pairs x.nredirected x.offsets;
      nowdead = take x.ndead nowdead;
      nowunused = drop x.ndead nowdead;
      conflict_horizon = x.conflict_horizon;
    }

-- The result of pruning: the line pointers after the compaction, `repaired` where there was one, and `log`, the record
-- that goes into the log, for relations that are logged.
pub record Pruned : Type 0 where
  pub ndeleted : ℕ
  pub nnewlpdead : ℕ
  pub lines : List LinePointer
  pub repaired : Option Repaired
  pub pd_prune_xid : ℕ
  pub page_full : Bool
  pub log : Option XlogPrune
  pub dirty_hint : Bool

abbrev pub is_chain_item : LinePointer → Bool
is_chain_item lp_unused = false
is_chain_item lp_dead = false
is_chain_item (lp_redirect to) = true
is_chain_item (lp_normal t) = true

abbrev pub prune_start : ℕ → PruneState
prune_start old_snap_xmin = record {
  old_snap_xmin = old_snap_xmin;
  old_snap_used = false;
  new_prune_xid = 0;
  conflict_horizon = 0;
  redirected = [];
  nowdead = [];
  nowunused = [];
  marked = λ o. false;
  htsv = λ o. none;
}

abbrev pub prune_record : PruneState → PruneRecord
prune_record st = record {
  redirected = st.redirected;
  nowdead = st.nowdead;
  nowunused = st.nowunused;
  conflict_horizon = st.conflict_horizon;
}

-- Whether something is to be changed.
abbrev pub has_changes : PruneState → Bool
has_changes st =
    ltb 0 (length st.redirected) || (ltb 0 (length st.nowdead) || ltb 0 (length st.nowunused))

abbrev pub changed_page :
    Bool → ℕ → PruneState → Option (List LinePointer × Repaired) → Option Pruned
changed_page needs_wal n st none = none
changed_page needs_wal n st (some (lines, rep)) = some (record {
  ndeleted = n;
  nnewlpdead = length st.nowdead;
  lines = lines;
  repaired = some rep;
  pd_prune_xid = st.new_prune_xid;
  page_full = false;
  log = if needs_wal then some (log_prune (prune_record st)) else none;
  dirty_hint = false;
})

abbrev pub unchanged_page : PageHeader → List LinePointer → ℕ → PruneState → Pruned
unchanged_page page lines n st =
    let hint = not (page.pd_prune_xid == st.new_prune_xid) || page.page_full in
    record {
      ndeleted = n;
      nnewlpdead = length st.nowdead;
      lines = lines;
      repaired = none;
      pd_prune_xid = if hint then st.new_prune_xid else page.pd_prune_xid;
      page_full = if hint then false else page.page_full;
      log = none;
      dirty_hint = hint;
    }

-- The critical section, in which the error of the repair is a PANIC: none.
unfoldable pub apply_prune : Bool → PageHeader → List LinePointer → ℕ × PruneState → Option Pruned
apply_prune needs_wal page lines (n, st) =
    if has_changes st
    then changed_page needs_wal n st (pg_tde_page_prune_execute (prune_record st) page lines)
    else some (unchanged_page page lines n st)

module _ (sv : PruneServer) where
  -- The first loop, from the last line pointer to the first: the statuses, and the headers with their
  -- hint bits. `o` is the offset number of the first of `lines`.
  unfoldable pub determine : ℕ → List LinePointer → PruneState → PruneState × List LinePointer
  determine o [] st = (st, [])
  determine o (lp_normal t ∷ lines) st =
      let rest = determine (o + 1) lines st in
      let r = heap_prune_satisfies_vacuum sv rest.0 t.header in
      (
        record r.1 { htsv = set_at o (some r.0) r.1.htsv },
        lp_normal (record t { header = r.2 }) ∷ rest.1,
      )
  determine o (lp ∷ lines) st =
      let rest = determine (o + 1) lines st in
      (record rest.0 { htsv = set_at o none rest.0.htsv }, lp ∷ rest.1)

  -- One round of the second loop: `ndeleted` and the state.
  unfoldable pub prune_item : List LinePointer → ℕ → ℕ × PruneState → Option (ℕ × PruneState)
  prune_item lines o (n, st) =
      if st.marked o
      then some (n, st)
      else if not (is_chain_item (item_id lines o))
      then some (n, st)
      else elim (heap_prune_chain sv lines o st) [ none ↦ none | some r ↦ some (n + r.0, r.1) ]

  -- The second loop, for `k` line pointers from `o` on.
  unfoldable pub prune_items : List LinePointer → ℕ → ℕ → ℕ × PruneState → Option (ℕ × PruneState)
  prune_items lines zero o acc = some acc
  prune_items lines (suc k) o acc = elim (prune_item lines o acc) [
    | none ↦ none
    | some acc' ↦ prune_items lines k (o + 1) acc'
  ]

  -- `pg_tde_page_prune`; none is an error of `heap_prune_chain`, or a PANIC in the critical section.
  unfoldable pub pg_tde_page_prune : ℕ → Bool → PageHeader → List LinePointer → Option Pruned
  pg_tde_page_prune old_snap_xmin needs_wal page lines =
      let d = determine 1 lines (prune_start old_snap_xmin) in
      elim (prune_items d.1 (length d.1) 1 (0, d.0)) [
        | none ↦ none
        | some acc ↦ apply_prune needs_wal page d.1 acc
      ]

-- `pg_tde_xlog_prune` where the page has to be redone.
abbrev pub pg_tde_xlog_prune :
    XlogPrune → PageHeader → List LinePointer → Option (List LinePointer × Repaired)
pg_tde_xlog_prune x page lines = pg_tde_page_prune_execute (read_prune x) page lines
