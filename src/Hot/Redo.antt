-- ===== src/Hot/Redo.antt =====
-- Replay of the record of pruning in the log.
use pg_tde.Base.{
  arith, ℕ, zero, suc, ◌+◌, ◌*◌, ◌++◌, take, drop, take-length, drop-length, ◌≡◌, refl, ap, ap₂,
  subst, sym, ◌∙◌, Bool, true, false, Option, none, some, if◌then◌else◌, List, [], ◌∷◌, length,
}
use pg_tde.Visibility.Unhinted.{unhinted, unhinted-horizon}
use pg_tde.Prune.{Step, keep, recrypt, move, set_line}
use pg_tde.Prune.Repair.{Repaired, repair_fragmentation}
use pg_tde.Hot.{
  LinePointer, lp_unused, lp_dead, lp_redirect, lp_normal, PruneServer, PruneState,
  heap_prune_satisfies_vacuum,
}
use pg_tde.Hot.Page.{
  set_lp_off, set_lp_offs, steps_of, repair_lines, XlogPrune, pair_offsets, log_prune, read_pairs,
  read_prune, set_item_id, set_redirects, set_all, PruneRecord, execute_items, compaction_line,
  compaction_lines, PageHeader, pg_tde_page_prune_execute, Pruned, determine, prune_items,
  prune_start, has_changes, changed_page, unchanged_page, prune_record, apply_prune,
  pg_tde_page_prune, pg_tde_xlog_prune,
}

read_pairs-pair_offsets :
    (pairs : List (ℕ × ℕ)) (rest : List ℕ)
    → read_pairs (length pairs) (pair_offsets pairs ++ rest) ≡ pairs
read_pairs-pair_offsets [] rest = refl
read_pairs-pair_offsets ((from, to) ∷ pairs) rest =
    ap (λ l. (from, to) ∷ l) (read_pairs-pair_offsets pairs rest)

drop-pair_offsets :
    (pairs : List (ℕ × ℕ)) (rest : List ℕ)
    → drop (length pairs * 2) (pair_offsets pairs ++ rest) ≡ rest
drop-pair_offsets [] rest = refl
drop-pair_offsets ((from, to) ∷ pairs) rest =
    let two : suc (length pairs) * 2 ≡ suc (suc (length pairs * 2)) = omega arith in
    ap (λ n. drop n (from ∷ (to ∷ (pair_offsets pairs ++ rest)))) two ∙ drop-pair_offsets pairs rest

-- The arrays are found in the record as they were put there.
read-log_prune : (r : PruneRecord) → read_prune (log_prune r) ≡ r
read-log_prune r =
    let rest = r.nowdead ++ r.nowunused in
    let pairs = read_pairs-pair_offsets r.redirected rest in
    let after = drop-pair_offsets r.redirected rest in
    let dead = ap (take (length r.nowdead)) after ∙ take-length r.nowdead r.nowunused in
    let unused = ap (drop (length r.nowdead)) after ∙ drop-length r.nowdead r.nowunused in
    cc (pairs, dead, unused)

-- The line pointers, without the hint bits of the tuples.
abbrev pub strip : LinePointer → LinePointer
strip (lp_normal t) = lp_normal (record t { header = unhinted t.header })
strip lp_unused = lp_unused
strip lp_dead = lp_dead
strip (lp_redirect to) = lp_redirect to

abbrev pub strip_all : List LinePointer → List LinePointer
strip_all [] = []
strip_all (lp ∷ lines) = strip lp ∷ strip_all lines

strip_all-set_item_id :
    (o : ℕ) (lp : LinePointer) (lines : List LinePointer)
    → strip_all (set_item_id o lp lines) ≡ set_item_id o (strip lp) (strip_all lines)
strip_all-set_item_id o lp [] = refl
strip_all-set_item_id zero lp (old ∷ lines) = refl
strip_all-set_item_id (suc zero) lp (old ∷ lines) = refl
strip_all-set_item_id (suc (suc o)) lp (old ∷ lines) =
    ap (λ l. strip old ∷ l) (strip_all-set_item_id (suc o) lp lines)

strip_all-set_redirects :
    (rs : List (ℕ × ℕ)) (lines : List LinePointer)
    → strip_all (set_redirects rs lines) ≡ set_redirects rs (strip_all lines)
strip_all-set_redirects [] lines = refl
strip_all-set_redirects ((o, to) ∷ rs) lines =
    strip_all-set_redirects rs (set_item_id o (lp_redirect to) lines)
    ∙ ap (set_redirects rs) (strip_all-set_item_id o (lp_redirect to) lines)

pub strip_all-set_all :
    (lp : LinePointer) (os : List ℕ) (lines : List LinePointer)
    → strip lp ≡ lp
    → strip_all (set_all lp os lines) ≡ set_all lp os (strip_all lines)
strip_all-set_all lp [] lines e = refl
strip_all-set_all lp (o ∷ os) lines e =
    strip_all-set_all lp os (set_item_id o lp lines) e
    ∙ ap (set_all lp os)
        (strip_all-set_item_id o lp lines ∙ ap (λ l. set_item_id o l (strip_all lines)) e)

strip_all-execute_items :
    (r : PruneRecord) (lines : List LinePointer)
    → strip_all (execute_items r lines) ≡ execute_items r (strip_all lines)
unfolding execute_items
strip_all-execute_items r lines =
    let redirected = set_redirects r.redirected lines in
    strip_all-set_all lp_unused r.nowunused (set_all lp_dead r.nowdead redirected) refl
    ∙ ap (set_all lp_unused r.nowunused) (
        strip_all-set_all lp_dead r.nowdead redirected refl
        ∙ ap (set_all lp_dead r.nowdead) (strip_all-set_redirects r.redirected lines))

compaction_line-strip : (lp : LinePointer) → compaction_line (strip lp) ≡ compaction_line lp
compaction_line-strip (lp_normal t) = refl
compaction_line-strip lp_unused = refl
compaction_line-strip lp_dead = refl
compaction_line-strip (lp_redirect to) = refl

compaction_lines-strip_all :
    (lines : List LinePointer) → compaction_lines (strip_all lines) ≡ compaction_lines lines
compaction_lines-strip_all [] = refl
compaction_lines-strip_all (lp ∷ lines) =
    ap₂ (λ a b. a ∷ b) (compaction_line-strip lp) (compaction_lines-strip_all lines)

strip_all-set_lp_off :
    (o off : ℕ) (lines : List LinePointer)
    → strip_all (set_lp_off o off lines) ≡ set_lp_off o off (strip_all lines)
strip_all-set_lp_off o off [] = refl
strip_all-set_lp_off zero off (lp ∷ lines) = refl
strip_all-set_lp_off (suc zero) off (lp_normal t ∷ lines) = refl
strip_all-set_lp_off (suc zero) off (lp_unused ∷ lines) = refl
strip_all-set_lp_off (suc zero) off (lp_dead ∷ lines) = refl
strip_all-set_lp_off (suc zero) off (lp_redirect to ∷ lines) = refl
strip_all-set_lp_off (suc (suc o)) off (lp ∷ lines) =
    ap (λ l. strip lp ∷ l) (strip_all-set_lp_off (suc o) off lines)

strip_all-set_lp_offs :
    (steps : List Step) (lines : List LinePointer)
    → strip_all (set_lp_offs steps lines) ≡ set_lp_offs steps (strip_all lines)
strip_all-set_lp_offs [] lines = refl
strip_all-set_lp_offs (set_line i off ∷ steps) lines =
    strip_all-set_lp_offs steps (set_lp_off (i + 1) off lines)
    ∙ ap (set_lp_offs steps) (strip_all-set_lp_off (i + 1) off lines)
strip_all-set_lp_offs (keep off size ∷ steps) lines = strip_all-set_lp_offs steps lines
strip_all-set_lp_offs (recrypt from to len ∷ steps) lines = strip_all-set_lp_offs steps lines
strip_all-set_lp_offs (move to from size ∷ steps) lines = strip_all-set_lp_offs steps lines

-- What the repair reads is the same for two pages that differ in hint bits alone.
repair-strip :
    (page : PageHeader) (changed changed' : List LinePointer)
    → strip_all changed' ≡ strip_all changed
    → repair_fragmentation page.pd_lower page.pd_upper page.pd_special (compaction_lines changed')
      ≡ repair_fragmentation page.pd_lower page.pd_upper page.pd_special (compaction_lines changed)
repair-strip page changed changed' same =
    ap (repair_fragmentation page.pd_lower page.pd_upper page.pd_special) (
      sym (compaction_lines-strip_all changed')
      ∙ (ap compaction_lines same ∙ compaction_lines-strip_all changed))

determine-strip :
    (sv : PruneServer) (b : ℕ) (lines : List LinePointer) (st : PruneState)
    → strip_all (determine sv b lines st).1 ≡ strip_all lines
unfolding determine heap_prune_satisfies_vacuum
determine-strip sv b [] st = refl
determine-strip sv b (lp_normal t ∷ lines) st =
    ap₂ (λ h l. lp_normal (record t { header = h }) ∷ l) (unhinted-horizon sv.tx t.header)
      (determine-strip sv (b + 1) lines st)
determine-strip sv b (lp_unused ∷ lines) st =
    ap (λ l. lp_unused ∷ l) (determine-strip sv (b + 1) lines st)
determine-strip sv b (lp_dead ∷ lines) st =
    ap (λ l. lp_dead ∷ l) (determine-strip sv (b + 1) lines st)
determine-strip sv b (lp_redirect to ∷ lines) st =
    ap (λ l. lp_redirect to ∷ l) (determine-strip sv (b + 1) lines st)

-- What replay has to come to: the line pointers and the repair of the pruning.
abbrev pub Replayed : Option (List LinePointer × Repaired) → Option Pruned → Type 0
Replayed redo none = Unit
Replayed redo (some p) =
    (redone : List LinePointer × Repaired) × (redo ≡ some redone)
    × (strip_all redone.0 ≡ strip_all p.lines)
    × (p.repaired ≡ some redone.1)

changed_page-Replayed :
    (wal : Bool) (n : ℕ) (st : PruneState) (changed changed' : List LinePointer)
    (o o' : Option Repaired)
    → o' ≡ o
    → strip_all changed' ≡ strip_all changed
    → Replayed (repair_lines changed' o') (changed_page wal n st (repair_lines changed o))
changed_page-Replayed wal n st changed changed' none o' e same = tt
changed_page-Replayed wal n st changed changed' (some rep) o' e same =
    let steps = steps_of rep.compaction in
    (
      (set_lp_offs steps changed', rep),
      ap (repair_lines changed') e,
      strip_all-set_lp_offs steps changed'
          ∙ (ap (set_lp_offs steps) same ∙ sym (strip_all-set_lp_offs steps changed)),
      refl,
    )

executed-Replayed :
    (wal : Bool) (page : PageHeader) (lines lines' : List LinePointer) (n : ℕ) (st : PruneState)
    → strip_all lines' ≡ strip_all lines
    → Replayed
        (pg_tde_page_prune_execute (prune_record st) page lines')
        (changed_page wal n st (pg_tde_page_prune_execute (prune_record st) page lines))
unfolding pg_tde_page_prune_execute
executed-Replayed wal page lines lines' n st same =
    let r = prune_record st in
    let executed =
      strip_all-execute_items r lines'
      ∙ (ap (execute_items r) same ∙ sym (strip_all-execute_items r lines)) in
    changed_page-Replayed wal n st (execute_items r lines) (execute_items r lines') _ _
      (repair-strip page (execute_items r lines) (execute_items r lines') executed) executed

-- The record that a page leaves.
abbrev pub log_of : Option Pruned → Option XlogPrune
log_of none = none
log_of (some p) = p.log

logged_record :
    (n : ℕ) (st : PruneState) (e : Option (List LinePointer × Repaired)) (x : XlogPrune)
    (wal : Bool)
    → log_of (changed_page wal n st e) ≡ some x
    → log_prune (prune_record st) ≡ x
logged_record n st none x wal logged = absurd cc
logged_record n st (some executed) x false logged = absurd cc
logged_record n st (some executed) x true logged =
    ap (λ o. elim o as (λ q. XlogPrune) [ none ↦ x | some y ↦ y ]) logged

Replayed-if :
    (b : Bool) (redo : Option (List LinePointer × Repaired)) (x : XlogPrune) (q q' : Option Pruned)
    → (log_of q ≡ some x → Replayed redo q)
    → (log_of q' ≡ some x → Replayed redo q')
    → log_of (if b then q else q') ≡ some x
    → Replayed redo (if b then q else q')
Replayed-if true redo x q q' k k' = k
Replayed-if false redo x q q' k k' = k'

apply_prune-Replayed :
    (wal : Bool) (page : PageHeader) (lines lines' : List LinePointer) (acc : ℕ × PruneState)
    (x : XlogPrune)
    → strip_all lines' ≡ strip_all lines
    → log_of (apply_prune wal page lines acc) ≡ some x
    → Replayed (pg_tde_xlog_prune x page lines') (apply_prune wal page lines acc)
unfolding apply_prune
apply_prune-Replayed wal page lines lines' (n, st) x same =
    let executed = pg_tde_page_prune_execute (prune_record st) page lines in
    Replayed-if (has_changes st) (pg_tde_xlog_prune x page lines') x
      (changed_page wal n st executed) (some (unchanged_page page lines n st))
      (λ logged.
        let decoded : prune_record st ≡ read_prune x =
          sym (read-log_prune (prune_record st))
          ∙ ap read_prune (logged_record n st executed x wal logged) in
        subst
          (λ r. Replayed (pg_tde_page_prune_execute r page lines') (changed_page wal n st executed))
          decoded (executed-Replayed wal page lines lines' n st same))
      (λ logged. absurd cc)

after-Replayed :
    (wal : Bool) (page : PageHeader) (lines lines' : List LinePointer) (o : Option (ℕ × PruneState))
    (x : XlogPrune)
    → strip_all lines' ≡ strip_all lines
    → let q = elim o as (λ q. Option Pruned) [
      | none ↦ none
      | some acc ↦ apply_prune wal page lines acc
    ] in
      log_of q ≡ some x → Replayed (pg_tde_xlog_prune x page lines') q
after-Replayed wal page lines lines' none x same logged = tt
after-Replayed wal page lines lines' (some acc) x same logged =
    apply_prune-Replayed wal page lines lines' acc x same logged

-- Replay of pruning: where pg_tde_page_prune puts a record into the log, pg_tde_xlog_prune finds in its counts and offsets
-- what was to be done, and on a copy of the page that is as it was but for hint bits comes to the same line pointers, up to
-- hint bits, and the same compaction.
pub page_prune-redo :
    (sv : PruneServer) (old_snap_xmin : ℕ) (wal : Bool) (page : PageHeader)
    (lines lines' : List LinePointer) (p : Pruned) (x : XlogPrune)
    → pg_tde_page_prune sv old_snap_xmin wal page lines ≡ some p
    → p.log ≡ some x
    → strip_all lines' ≡ strip_all lines
    → (redone : List LinePointer × Repaired) × (pg_tde_xlog_prune x page lines' ≡ some redone)
      × (strip_all redone.0 ≡ strip_all p.lines)
      × (p.repaired ≡ some redone.1)
unfolding pg_tde_page_prune
page_prune-redo sv old_snap_xmin wal page lines lines' p x e logged same =
    let d = determine sv 1 lines (prune_start old_snap_xmin) in
    let replayed =
      after-Replayed wal page d.1 lines' (prune_items sv d.1 (length d.1) 1 (0, d.0)) x
        (same ∙ sym (determine-strip sv 1 lines (prune_start old_snap_xmin)))
        (ap (log_of) e ∙ logged) in
    subst (Replayed (pg_tde_xlog_prune x page lines')) e replayed
