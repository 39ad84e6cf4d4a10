-- ===== src/Vacuum/Redo.antt =====
-- The replay of what vacuum does to a page.
use pg_tde.Base.{
  arith, ℕ, map, ◌≡◌, refl, ap, ap₂, ◌∙◌, sym, Bool, true, false, ◌&&◌, not, List, [], ◌∷◌, ◌++◌,
  if◌then◌else◌, ◌==◌,
}
use pg_tde.Visibility.{Transactions}
use pg_tde.Visibility.Unhinted.{unhinted-vacuum}
use pg_tde.Visibility.Historic.{header_xmin}
use pg_tde.Visibility.Vacuum.{heap_tuple_satisfies_vacuum}
use pg_tde.Freeze.Prepare.{pg_tde_tuple_needs_eventual_freeze}
use pg_tde.Hot.{LinePointer, lp_unused, lp_dead, lp_redirect, lp_normal}
use pg_tde.Hot.Page.{set_item_id, set_all}
use pg_tde.Hot.Redo.{strip_all, strip_all-set_all}
use pg_tde.Vacuum.Page.{
  PageVisible, fields_of, not_visible, is_live, newer_cutoff, visible_loop,
  pg_tde_page_is_all_visible, free_dead, lazy_vacuum_pg_tde_page, pg_tde_xlog_vacuum,
}

-- The dead items of one block.
abbrev pub on_block : ℕ → List ℕ → List (ℕ × ℕ)
on_block blkno = map (λ o. (blkno, o))

-- The offsets that come off the front of the dead items are those of the block, and the page changes by them.
abbrev Freed :
    ℕ → List (ℕ × ℕ) → List LinePointer → List LinePointer × List ℕ × List (ℕ × ℕ) → Type 0
Freed blkno items lines r =
    (r.0 ≡ set_all lp_unused r.1 lines) × (on_block blkno r.1 ++ r.2 ≡ items)

Freed-if :
    (b : Bool) (blkno : ℕ) (items : List (ℕ × ℕ)) (lines : List LinePointer)
    (x y : List LinePointer × List ℕ × List (ℕ × ℕ))
    → Freed blkno items lines x
    → (b ≡ false → Freed blkno items lines y)
    → Freed blkno items lines (if b then x else y)
Freed-if true blkno items lines x y k k' = k
Freed-if false blkno items lines x y k k' = k' refl

free_dead-Freed :
    (blkno : ℕ) (items : List (ℕ × ℕ)) (lines : List LinePointer)
    → Freed blkno items lines (free_dead blkno items lines)
unfolding free_dead
free_dead-Freed blkno [] lines = (refl, refl)
free_dead-Freed blkno ((tblk, toff) ∷ items) lines =
    let ih = free_dead-Freed blkno items (set_item_id toff lp_unused lines) in
    let rest = free_dead blkno items (set_item_id toff lp_unused lines) in
    Freed-if (not (tblk == blkno)) blkno ((tblk, toff) ∷ items) lines
      (lines, [], (tblk, toff) ∷ items) (rest.0, toff ∷ rest.1, rest.2) (refl, refl)
      (λ e.
        let same : blkno ≡ tblk = ground arith in
        (
          ih.0,
          ap (λ b. (b, toff) ∷ (on_block blkno rest.1 ++ rest.2)) same
              ∙ ap (λ l. (tblk, toff) ∷ l) ih.1,
        ))

module _ (tx : Transactions) (oldest_xmin : ℕ) where
  abbrev Alike : List LinePointer → PageVisible → Type 0
  Alike lines r = strip_all r.lines ≡ strip_all lines

  Alike-if :
      (b : Bool) (lines : List LinePointer) (x y : PageVisible)
      → Alike lines x
      → Alike lines y
      → Alike lines (if b then x else y)
  Alike-if true lines x y k k' = k
  Alike-if false lines x y k k' = k'

  -- The test of a page changes hint bits alone.
  visible_loop-Alike :
      (lines : List LinePointer) (cutoff : ℕ) (frozen : Bool)
      → Alike lines (visible_loop tx oldest_xmin lines cutoff frozen)
  unfolding visible_loop
  visible_loop-Alike [] cutoff frozen = refl
  visible_loop-Alike (lp_unused ∷ lines) cutoff frozen =
      ap (λ l. lp_unused ∷ l) (visible_loop-Alike lines cutoff frozen)
  visible_loop-Alike (lp_redirect to ∷ lines) cutoff frozen =
      ap (λ l. lp_redirect to ∷ l) (visible_loop-Alike lines cutoff frozen)
  visible_loop-Alike (lp_dead ∷ lines) cutoff frozen = refl
  visible_loop-Alike (lp_normal t ∷ lines) cutoff frozen =
      let s = heap_tuple_satisfies_vacuum tx oldest_xmin t.header in
      let gone = not_visible cutoff (lp_normal (record t { header = s.header }) ∷ lines) in
      let needs = pg_tde_tuple_needs_eventual_freeze (fields_of s.header) in
      let cutoff' = newer_cutoff tx oldest_xmin (header_xmin s.header) cutoff in
      let here = lp_normal t ∷ lines in
      let marked : Alike here gone =
        ap (λ h. lp_normal (record t { header = h }) ∷ strip_all lines)
          (unhinted-vacuum tx oldest_xmin t.header) in
      Alike-if (not (is_live s.result)) here gone _ marked (
        Alike-if (not s.header.xmin_committed) here gone _ marked (
          Alike-if (not (tx.precedes (header_xmin s.header) oldest_xmin)) here gone _ marked (
            ap₂ (λ h l. lp_normal (record t { header = h }) ∷ l)
              (unhinted-vacuum tx oldest_xmin t.header)
              (visible_loop-Alike lines cutoff' (frozen && not needs)))))

  -- Replaying the record of lazy_vacuum_pg_tde_page on a page that is as before but for hint bits gives the line pointers
  -- that vacuum leaves, up to hint bits; and the items of the record with those left over are the list of dead items, in
  -- order. The truncation of line pointers does not look into tuples.
  pub lazy_vacuum_page-redo :
      (truncate_lines : List LinePointer → List LinePointer)
      → ((lines : List LinePointer)
          → strip_all (truncate_lines lines) ≡ truncate_lines (strip_all lines))
      → (blkno : ℕ) (items : List (ℕ × ℕ)) (lines before : List LinePointer)
      → strip_all before ≡ strip_all lines
      → let r = lazy_vacuum_pg_tde_page truncate_lines tx oldest_xmin blkno items lines in
        (strip_all (pg_tde_xlog_vacuum truncate_lines r.unused before) ≡ strip_all r.lines)
        × (on_block blkno r.unused ++ r.items ≡ items)
  unfolding lazy_vacuum_pg_tde_page pg_tde_page_is_all_visible
  lazy_vacuum_page-redo truncate_lines shallow blkno items lines before e =
      let freed = free_dead blkno items lines in
      let f = free_dead-Freed blkno items lines in
      let os = freed.1 in
      (
        shallow (set_all lp_unused os before)
            ∙ ap truncate_lines (
                strip_all-set_all lp_unused os before refl
                ∙ ap (set_all lp_unused os) e
                ∙ sym (strip_all-set_all lp_unused os lines refl)
                ∙ ap (strip_all) (sym f.0))
            ∙ sym (shallow freed.0)
            ∙ sym (visible_loop-Alike (truncate_lines freed.0) 0 true),
        f.1,
      )
