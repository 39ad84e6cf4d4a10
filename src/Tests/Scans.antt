-- ===== src/Tests/Scans.antt =====
-- Sequential scans.
use pg_tde.Base.{ℕ, ◌+◌, ◌≡◌, true, false, not, some, none, [], ◌∷◌, arith, ◌==◌}
use pg_tde.HeapScan.{Scan, forward, backward, scan_blocks}
use pg_tde.HeapScan.Order.{blocks_up, blocks_down, scan_blocks_lem}
use pg_tde.HeapScan.Gettup.{Table, fresh, fetch_all}
use pg_tde.HeapScan.Gettup.Results.{all_places}
use pg_tde.HeapScan.Gettup.Fetch.{fetch_all_lem}

-- A scan of 5 blocks from block 3, limited to 4.
abbrev some_scan : Scan
some_scan = record {
  nblocks = 5;
  startblock = 3;
  numblocks = some 4;
  parallel = false;
  allow_sync = true;
  reported = [];
}

scan_blocks_example :
    (scan_blocks 10 forward some_scan ≡ some (blocks_up 5 3 0 4))
    × (scan_blocks 10 backward some_scan ≡ some (blocks_down 5 3 4))
scan_blocks_example =
    scan_blocks_lem 5 3 (some 4) true [] 10 (omega arith) (omega arith) (omega arith) (omega arith)

-- Each block has two tuples, at lines 1 and 3; the tuple 1 is not visible.
abbrev some_table : Table ℕ
some_table = record {
  lines = λ block. some block ∷ (none ∷ (some (block + 10) ∷ []));
  visible = λ t. not (t == 1);
  matches = λ t. true;
}

fetch_all_example :
    (fetch_all some_table 20 10 forward (fresh some_scan)
      ≡ some (all_places some_table forward (blocks_up 5 3 0 4)))
    × (fetch_all some_table 20 10 backward (fresh some_scan)
        ≡ some (all_places some_table backward (blocks_down 5 3 4)))
unfolding blocks_up blocks_down
fetch_all_example =
    fetch_all_lem some_table 5 3 (some 4) true [] 10 20 (omega arith) (omega arith) (omega arith)
      (omega arith) (omega arith) (omega arith)
