-- ===== src/Vacuum/SecondPass.antt =====
-- The second pass of vacuum over the heap, src/access/pg_tde_vacuumlazy.c: `lazy_vacuum_pg_tde_rel`.
use pg_tde.Base.{
  arith, ℕ, zero, suc, ◌≤◌, ◌≡◌, refl, ap, ◌∙◌, Bool, true, false, not, Option, none, some, List,
  [], ◌∷◌, ◌++◌, length, if◌then◌else◌, ◌==◌,
}
use pg_tde.Visibility.{Transactions}
use pg_tde.Hot.{LinePointer, lp_unused}
use pg_tde.Hot.Page.{set_item_id}
use pg_tde.Hot.Redo.{strip_all}
use pg_tde.Vacuum.Page.{VacuumedPage, free_dead, lazy_vacuum_pg_tde_page, pg_tde_xlog_vacuum}
use pg_tde.Vacuum.Redo.{on_block, lazy_vacuum_page-redo}

-- The pages of the heap, with the records written and what the visibility map gets for each page.
pub record VacuumedRel : Type 0 where
  pub pages : ℕ → List LinePointer
  pub log : List (ℕ × List ℕ)
  pub map_flags : List (ℕ × Option (ℕ × ℕ))

abbrev pub put_page : ℕ → List LinePointer → (ℕ → List LinePointer) → ℕ → List LinePointer
put_page blkno lines pages b = if b == blkno then lines else pages b

abbrev pub with_page : ℕ → VacuumedPage → Option VacuumedRel → Option VacuumedRel
with_page blkno p none = none
with_page blkno p (some r) = some (record {
  pages = r.pages;
  log = (blkno, p.unused) ∷ r.log;
  map_flags = (blkno, p.map_flags) ∷ r.map_flags;
})

module _ (truncate_lines : List LinePointer → List LinePointer) (tx : Transactions)
    (oldest_xmin : ℕ) where
  -- The loop over the dead items, in at most `fuel` rounds.
  unfoldable pub lazy_vacuum_pg_tde_rel :
      ℕ → List (ℕ × ℕ) → (ℕ → List LinePointer) → Option VacuumedRel
  lazy_vacuum_pg_tde_rel fuel [] pages = some (record { pages = pages; log = []; map_flags = [] })
  lazy_vacuum_pg_tde_rel zero ((blkno, toff) ∷ items) pages = none
  lazy_vacuum_pg_tde_rel (suc fuel) ((blkno, toff) ∷ items) pages =
      let p =
        lazy_vacuum_pg_tde_page truncate_lines tx oldest_xmin blkno ((blkno, toff) ∷ items)
          (pages blkno) in
      with_page blkno p (lazy_vacuum_pg_tde_rel fuel p.items (put_page blkno p.lines pages))

-- The dead items that the records list.
abbrev pub logged : List (ℕ × List ℕ) → List (ℕ × ℕ)
logged [] = []
logged ((blkno, unused) ∷ log) = on_block blkno unused ++ logged log

-- The replay of the records, in their order.
abbrev pub replay :
    (List LinePointer → List LinePointer)
    → List (ℕ × List ℕ)
    → (ℕ → List LinePointer)
    → ℕ
    → List LinePointer
replay truncate_lines [] pages = pages
replay truncate_lines ((blkno, unused) ∷ log) pages =
    replay truncate_lines log
      (put_page blkno (pg_tde_xlog_vacuum truncate_lines unused (pages blkno)) pages)

shorter-if :
    (b : Bool) (n : ℕ) (x y : List LinePointer × List ℕ × List (ℕ × ℕ))
    → (b ≡ true → length x.2 ≤ n)
    → length y.2 ≤ n
    → length (if b then x else y).2 ≤ n
shorter-if true n x y k k' = k refl
shorter-if false n x y k k' = k'

free_dead-shorter :
    (blkno : ℕ) (items : List (ℕ × ℕ)) (lines : List LinePointer)
    → length (free_dead blkno items lines).2 ≤ length items
unfolding free_dead
free_dead-shorter blkno [] lines = omega arith
free_dead-shorter blkno ((tblk, toff) ∷ items) lines =
    let rest = free_dead blkno items (set_item_id toff lp_unused lines) in
    let ih = free_dead-shorter blkno items (set_item_id toff lp_unused lines) in
    shorter-if (not (tblk == blkno)) (suc (length items)) (lines, [], (tblk, toff) ∷ items)
      (rest.0, toff ∷ rest.1, rest.2) (λ e. omega arith) (omega arith)

page_items-shorter :
    (truncate_lines : List LinePointer → List LinePointer) (tx : Transactions)
    (oldest_xmin blkno toff : ℕ) (items : List (ℕ × ℕ)) (lines : List LinePointer)
    → length
        (lazy_vacuum_pg_tde_page truncate_lines tx oldest_xmin blkno
          ((blkno, toff) ∷ items)
          lines).items
      ≤ length items
unfolding lazy_vacuum_pg_tde_page free_dead
page_items-shorter truncate_lines tx oldest_xmin blkno toff items lines =
    let rest = free_dead blkno items (set_item_id toff lp_unused lines) in
    shorter-if (not (blkno == blkno)) (length items) (lines, [], (blkno, toff) ∷ items)
      (rest.0, toff ∷ rest.1, rest.2) (λ e. absurd (ground arith))
      (free_dead-shorter blkno items (set_item_id toff lp_unused lines))

module _ (truncate_lines : List LinePointer → List LinePointer) (tx : Transactions)
    (oldest_xmin : ℕ)
    (shallow : (lines : List LinePointer)
      → strip_all (truncate_lines lines) ≡ truncate_lines (strip_all lines)) where
  abbrev Same : (ℕ → List LinePointer) → (ℕ → List LinePointer) → Type 0
  Same pages pages' = (b : ℕ) → strip_all (pages b) ≡ strip_all (pages' b)

  choice_alike :
      (c : Bool) (x x' y y' : List LinePointer)
      → strip_all x ≡ strip_all x'
      → strip_all y ≡ strip_all y'
      → strip_all (if c then x else y) ≡ strip_all (if c then x' else y')
  choice_alike true x x' y y' e e' = e
  choice_alike false x x' y y' e e' = e'

  put_page-Same :
      (blkno : ℕ) (lines lines' : List LinePointer) (pages pages' : ℕ → List LinePointer)
      → strip_all lines ≡ strip_all lines'
      → Same pages pages'
      → Same (put_page blkno lines pages) (put_page blkno lines' pages')
  put_page-Same blkno lines lines' pages pages' e same b =
      choice_alike (b == blkno) lines lines' (pages b) (pages' b) e (same b)

  abbrev Passed : List (ℕ × ℕ) → (ℕ → List LinePointer) → Option VacuumedRel → Type 0
  Passed items before o =
      (r : VacuumedRel) × (o ≡ some r)
      × (logged r.log ≡ items)
      × Same (replay truncate_lines r.log before) r.pages

  -- The second pass of vacuum ends after at most as many rounds as there are dead items; its records list the dead items,
  -- all of them, in order; and replaying them on pages that are as before but for hint bits gives the line
  -- pointers that vacuum leaves on every page, up to hint bits. The truncation of line
  -- pointers does not look into tuples.
  pub lazy_vacuum_rel-redo :
      (fuel : ℕ) (items : List (ℕ × ℕ)) (pages before : ℕ → List LinePointer)
      → length items ≤ fuel
      → Same before pages
      → Passed items before (lazy_vacuum_pg_tde_rel truncate_lines tx oldest_xmin fuel items pages)
  unfolding lazy_vacuum_pg_tde_rel
  lazy_vacuum_rel-redo fuel [] pages before enough same = (_, refl, refl, same)
  lazy_vacuum_rel-redo zero ((blkno, toff) ∷ items) pages before enough same = absurd (omega arith)
  lazy_vacuum_rel-redo (suc fuel) ((blkno, toff) ∷ items) pages before enough same =
      let p =
        lazy_vacuum_pg_tde_page truncate_lines tx oldest_xmin blkno ((blkno, toff) ∷ items)
          (pages blkno) in
      let redo =
        lazy_vacuum_page-redo tx oldest_xmin truncate_lines shallow blkno ((blkno, toff) ∷ items)
          (pages blkno) (before blkno) (same blkno) in
      let redone = pg_tde_xlog_vacuum truncate_lines p.unused (before blkno) in
      let less = page_items-shorter truncate_lines tx oldest_xmin blkno toff items (pages blkno) in
      let ih =
        lazy_vacuum_rel-redo fuel p.items (put_page blkno p.lines pages)
          (put_page blkno redone before) (omega arith)
          (put_page-Same blkno redone p.lines before pages redo.0 same) in
      (_, ap (with_page blkno p) ih.1, ap (λ l. on_block blkno p.unused ++ l) ih.2 ∙ redo.1, ih.3)
