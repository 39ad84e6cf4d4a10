-- ===== src/Vacuum.antt =====
-- Which pages vacuum reads, src/access/pg_tde_vacuumlazy.c: `lazy_scan_skip`, and the loop of
-- `lazy_scan_heap` as far as it chooses pages. The children have the test of a whole page.
pub mod Skips
pub mod Page
pub mod Seen
pub mod Redo
pub mod SecondPass
use pg_tde.Base.{
  ℕ, zero, suc, ◌+◌, ◌-◌, Bool, true, false, ◌&&◌, ◌||◌, not, List, [], ◌∷◌, if◌then◌else◌, ltb,
  ◌==◌,
}

-- `SKIP_PAGES_THRESHOLD`
abbrev pub skip_pages_threshold : ℕ
skip_pages_threshold = 32

-- The fields of `LVRelState` that bear on skipping, and the bits that `pg_tde_visibilitymap_get_status`
-- gives for a block.
pub record VacuumRel : Type 0 where
  pub rel_pages : ℕ
  pub aggressive : Bool
  pub skipwithvm : Bool
  pub all_visible : ℕ → Bool
  pub all_frozen : ℕ → Bool

-- The variables of the loop in `lazy_scan_skip`.
pub record SkipLoop : Type 0 where
  pub next_unskippable_block : ℕ
  pub nskippable_blocks : ℕ
  pub next_unskippable_allvis : Bool
  pub skipsallvis : Bool

-- What `lazy_scan_skip` sets, with `vacrel->skippedallvis`.
pub record SkipRange : Type 0 where
  pub next_unskippable_block : ℕ
  pub next_unskippable_allvis : Bool
  pub skipping_current_range : Bool
  pub skippedallvis : Bool

abbrev pub stopped_at : ℕ → ℕ → Bool → Bool → SkipLoop
stopped_at block n skipsallvis allvis = record {
  next_unskippable_block = block;
  nskippable_blocks = n;
  next_unskippable_allvis = allvis;
  skipsallvis = skipsallvis;
}

module _ (v : VacuumRel) where
  -- The loop, with `k` blocks left in the relation.
  unfoldable pub skip_loop : ℕ → ℕ → ℕ → Bool → SkipLoop
  skip_loop zero block n skipsallvis = stopped_at block n skipsallvis true
  skip_loop (suc k) block n skipsallvis =
      let rest = skip_loop k (block + 1) (n + 1) (skipsallvis || not (v.all_frozen block)) in
      if not (v.all_visible block)
      then stopped_at block n skipsallvis false
      else if block == v.rel_pages - 1
      then stopped_at block n skipsallvis true
      else if not v.skipwithvm
      then stopped_at block n skipsallvis false
      else if not (v.all_frozen block) && v.aggressive
      then stopped_at block n skipsallvis true
      else rest

  -- `lazy_scan_skip`
  unfoldable pub lazy_scan_skip : ℕ → Bool → SkipRange
  lazy_scan_skip next_block skippedallvis =
      let r = skip_loop (v.rel_pages - next_block) next_block 0 false in
      let skips = not (ltb r.nskippable_blocks skip_pages_threshold) in
      record {
        next_unskippable_block = r.next_unskippable_block;
        next_unskippable_allvis = r.next_unskippable_allvis;
        skipping_current_range = skips;
        skippedallvis = skippedallvis || (skips && r.skipsallvis);
      }

  -- The loop of `lazy_scan_heap` with `k` blocks left: the blocks that are read, each with
  -- `all_visible_according_to_vm`, and `skippedallvis` in the end.
  unfoldable pub scan_heap_loop : ℕ → ℕ → SkipRange → List (ℕ × Bool) × Bool
  scan_heap_loop zero blkno r = ([], r.skippedallvis)
  scan_heap_loop (suc k) blkno r = elim (blkno == r.next_unskippable_block) [
    | true ↦
        let rest = scan_heap_loop k (blkno + 1) (lazy_scan_skip (blkno + 1) r.skippedallvis) in
        ((blkno, r.next_unskippable_allvis) ∷ rest.0, rest.1)
    | false ↦
        let rest = scan_heap_loop k (blkno + 1) r in
        if r.skipping_current_range then rest else ((blkno, true) ∷ rest.0, rest.1)
  ]

  unfoldable pub lazy_scan_heap : List (ℕ × Bool) × Bool
  lazy_scan_heap = scan_heap_loop v.rel_pages 0 (lazy_scan_skip 0 false)
