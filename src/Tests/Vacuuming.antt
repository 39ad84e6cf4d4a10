-- ===== src/Tests/Vacuuming.antt =====
-- The pages that vacuum reads, and the bits it sets in the visibility map.
use pg_tde.Base.{
  arith, ℕ, ◌-◌, ◌≡◌, refl, Bool, true, false, ◌&&◌, ◌||◌, not, Option, none, some, if◌then◌else◌,
  List, [], ◌∷◌, all, any, ltb, ◌==◌,
}
use pg_tde.Visibility.Vacuum.{
  heap_tuple_satisfies_vacuum, heap_tuple_satisfies_vacuum_horizon, vacuum_xmax,
}
use pg_tde.Freeze.Prepare.{pg_tde_tuple_needs_eventual_freeze}
use pg_tde.Hot.{LinePointer, lp_dead, lp_normal}
use pg_tde.Vacuum.{VacuumRel, skip_loop, lazy_scan_skip, scan_heap_loop, lazy_scan_heap}
use pg_tde.Vacuum.Page.{
  VacuumedPage, visible_loop, pg_tde_page_is_all_visible, free_dead, lazy_vacuum_pg_tde_page,
}
use pg_tde.Vacuum.SecondPass.{
  VacuumedRel, lazy_vacuum_pg_tde_rel, logged, replay, lazy_vacuum_rel-redo,
}
use pg_tde.Hot.Redo.{strip_all}
use pg_tde.Vacuum.Skips.{lazy_scan_heap-fair}
use pg_tde.Vacuum.Seen.{line_seen, line_frozen, lazy_vacuum_page-seen}
use pg_tde.Tests.Files.{some_transactions, some_snapshot, some_header}

-- Every page is all-visible, and the pages below 36 are all-frozen but for page 3.
abbrev vacuumed_table : VacuumRel
vacuumed_table = record {
  rel_pages = 40;
  aggressive = false;
  skipwithvm = true;
  all_visible = λ b. true;
  all_frozen = λ b. ltb b 36 && not (b == 3);
}

-- Only the last page is read, and the relation counts as having skipped a page that is not frozen.
last_page_read : lazy_scan_heap vacuumed_table ≡ ((39, true) ∷ [], true)
unfolding lazy_scan_heap scan_heap_loop lazy_scan_skip skip_loop
last_page_read = refl

lazy_scan_heap-fair_example :
    (any (λ p. 3 == p.0) (lazy_scan_heap vacuumed_table).0
      || (vacuumed_table.all_visible 3
          && (not (3 == vacuumed_table.rel_pages - 1)
              && (vacuumed_table.skipwithvm
                  && (vacuumed_table.all_frozen 3
                      || (not vacuumed_table.aggressive && (lazy_scan_heap vacuumed_table).1))))))
    ≡ true
lazy_scan_heap-fair_example = lazy_scan_heap-fair vacuumed_table 3 (omega arith)

-- A frozen row.
abbrev old_row : LinePointer
old_row = lp_normal (record {
  header = record some_header { xmin_invalid = true; xmax_invalid = true; raw_xmax = 0 };
  heap_only = false;
  hot_updated = false;
  ctid_off = 2;
  lp_off = 8000;
  lp_len = 40;
})

abbrev two_lines : List LinePointer
two_lines = lp_dead ∷ (old_row ∷ [])

abbrev dead_items : List (ℕ × ℕ)
dead_items = (7, 1) ∷ ((8, 4) ∷ [])

abbrev vacuumed : VacuumedPage
vacuumed = lazy_vacuum_pg_tde_page (λ lines. lines) some_transactions 6 7 dead_items two_lines

abbrev reader_xid : ℕ → Bool
reader_xid xid = xid == 6

both_bits_set : vacuumed.map_flags ≡ some (3, 0)
unfolding lazy_vacuum_pg_tde_page free_dead pg_tde_page_is_all_visible visible_loop
    heap_tuple_satisfies_vacuum heap_tuple_satisfies_vacuum_horizon vacuum_xmax
    pg_tde_tuple_needs_eventual_freeze
both_bits_set = refl

current_runs : (xid : ℕ) → reader_xid xid ≡ true → some_transactions.in_progress xid ≡ true
current_runs xid e = e

old_ended :
    (xid : ℕ) → some_transactions.precedes xid 6 ≡ true → some_snapshot.in_snapshot xid ≡ false
old_ended xid e = ground arith

lazy_vacuum_page-seen_example :
    (all
        (line_seen some_transactions some_snapshot reader_xid 6 current_runs old_ended)
        vacuumed.lines
      ≡ true)
    × ((not (3 == 3)
          || all
              (line_frozen some_transactions some_snapshot reader_xid 6 current_runs old_ended)
              vacuumed.lines)
        ≡ true)
lazy_vacuum_page-seen_example =
    lazy_vacuum_page-seen some_transactions some_snapshot reader_xid 6 current_runs old_ended
      (λ lines. lines) 7 dead_items two_lines 3 0 both_bits_set

-- Blocks 7 and 8 have a dead line pointer each.
abbrev two_pages : ℕ → List LinePointer
two_pages b = if b == 7 then two_lines else old_row ∷ (lp_dead ∷ [])

abbrev pages_items : List (ℕ × ℕ)
pages_items = (7, 1) ∷ ((8, 2) ∷ [])

abbrev after_pass : Option VacuumedRel
after_pass = lazy_vacuum_pg_tde_rel (λ lines. lines) some_transactions 6 2 pages_items two_pages

pass_log :
    elim after_pass as (λ o. List (ℕ × List ℕ)) [ none ↦ [] | some r ↦ r.log ]
    ≡ (7, 1 ∷ []) ∷ ((8, 2 ∷ []) ∷ [])
unfolding lazy_vacuum_pg_tde_rel lazy_vacuum_pg_tde_page free_dead
pass_log = refl

lazy_vacuum_rel-redo_example :
    (r : VacuumedRel) × (after_pass ≡ some r)
    × (logged r.log ≡ pages_items)
    × ((b : ℕ) → strip_all (replay (λ lines. lines) r.log two_pages b) ≡ strip_all (r.pages b))
lazy_vacuum_rel-redo_example =
    lazy_vacuum_rel-redo (λ lines. lines) some_transactions 6 (λ lines. refl) 2 pages_items
      two_pages two_pages (omega arith) (λ b. refl)
