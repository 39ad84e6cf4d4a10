-- ===== src/HeapScan.antt =====
-- Sequential scans of a table, src/access/pg_tdeam.c: the descriptor of a scan, its limits, and the order
-- in which it takes the blocks.
pub mod Order
pub mod Gettup
use pg_tde.Base.{
  ℕ, ◌+◌, ◌-◌, ◌%◌, ◌^◌, zero, suc, Bool, true, false, ◌||◌, Option, none, some, List, [], ◌∷◌,
  if◌then◌else◌, u32, ltb, leb, ◌==◌,
}

pub data ScanDirection : Type 0 where
  forward backward : ScanDirection

-- `HeapScanDescData`, as far as the order of blocks depends on it. `numblocks` is none for
-- `InvalidBlockNumber`; `reported` is what `ss_report_location` was told, the newest first.
pub record Scan : Type 0 where
  pub nblocks : ℕ
  pub startblock : ℕ
  pub numblocks : Option ℕ
  pub parallel : Bool
  pub allow_sync : Bool
  pub reported : List ℕ

-- `pg_tde_setscanlimits`
unfoldable pub set_scan_limits : ℕ → Option ℕ → Scan → Scan
set_scan_limits start_blk num_blks scan = record scan {
  startblock = start_blk;
  numblocks = num_blks;
}

abbrev pub is_none_left : Option ℕ → Bool
is_none_left none = false
is_none_left (some n) = n == 0

-- `--scan->rs_numblocks`; it is not 0 before.
abbrev pub one_fewer : Option ℕ → Option ℕ
one_fewer none = none
one_fewer (some n) = some (n - 1)

-- Where a backward scan starts; the sum is one of 32 bits.
abbrev pub last_block : Scan → ℕ
last_block scan = elim scan.numblocks [
  | some n ↦ u32 (u32 (scan.startblock + n) + (2 ^ 32 - 1)) % scan.nblocks
  | none ↦ if ltb 0 scan.startblock then scan.startblock - 1 else scan.nblocks - 1
]

-- `pg_tde_gettup_initial_block`, with the block or none for `InvalidBlockNumber`. `next_page` is what the
-- server's `table_block_parallelscan_nextpage` answers.
unfoldable pub initial_block : Option ℕ → ScanDirection → Scan → Option ℕ × Scan
initial_block next_page forward scan =
    if scan.nblocks == 0 || is_none_left scan.numblocks
    then (none, scan)
    else if scan.parallel
    then (next_page, scan)
    else (some scan.startblock, scan)
initial_block next_page backward scan =
    if scan.nblocks == 0 || is_none_left scan.numblocks
    then (none, scan)
    else (some (last_block scan), record scan { allow_sync = false })

-- The end of the forward case, with the limit counted down.
abbrev pub forward_to : ℕ → Scan → Option ℕ × Scan
forward_to block scan =
    if is_none_left scan.numblocks
    then (none, scan)
    else if scan.allow_sync
    then (some block, record scan { reported = block ∷ scan.reported })
    else (some block, scan)

-- The end of the backward case.
abbrev pub backward_from : ℕ → Scan → Option ℕ × Scan
backward_from block scan =
    if is_none_left scan.numblocks
    then (none, scan)
    else (some ((if block == 0 then scan.nblocks else block) - 1), scan)

-- `pg_tde_gettup_advance_block`
unfoldable pub advance_block : Option ℕ → ScanDirection → ℕ → Scan → Option ℕ × Scan
advance_block next_page forward block scan =
    let next = if leb scan.nblocks (u32 (block + 1)) then 0 else u32 (block + 1) in
    if scan.parallel
    then (next_page, scan)
    else if next == scan.startblock
    then (none, scan)
    else forward_to next (record scan { numblocks = one_fewer scan.numblocks })
advance_block next_page backward block scan =
    if block == scan.startblock
    then (none, scan)
    else backward_from block (record scan { numblocks = one_fewer scan.numblocks })

abbrev pub after_block : ℕ → Option (List ℕ) → Option (List ℕ)
after_block block none = none
after_block block (some rest) = some (block ∷ rest)

-- The blocks that the loop `while (block != InvalidBlockNumber)` of `pg_tde_gettup` takes, on fuel; none
-- when the fuel is used up.
unfoldable pub blocks_from : ℕ → ScanDirection → Option ℕ × Scan → Option (List ℕ)
blocks_from fuel dir (none, scan) = some []
blocks_from zero dir (some block, scan) = none
blocks_from (suc fuel) dir (some block, scan) =
    after_block block (blocks_from fuel dir (advance_block none dir block scan))

-- All blocks of a scan.
abbrev pub scan_blocks : ℕ → ScanDirection → Scan → Option (List ℕ)
scan_blocks fuel dir scan = blocks_from fuel dir (initial_block none dir scan)
