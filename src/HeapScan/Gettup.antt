-- ===== src/HeapScan/Gettup.antt =====
-- Fetching the next tuple of a scan: `pg_tde_gettup` with `pg_tde_gettup_start_page` and
-- `pg_tde_gettup_continue_page`, for a table that does not change during the scan.
pub mod Results
pub mod Fetch
use pg_tde.Base.{
  ℕ, zero, suc, ◌+◌, ◌-◌, min, Bool, true, false, ◌&&◌, Option, none, some, List, [], ◌∷◌, length,
  get_or, if◌then◌else◌,
}
use pg_tde.HeapScan.{Scan, ScanDirection, forward, backward, initial_block, advance_block}

-- The lines of each block, none where `ItemIdIsNormal` fails; `visible` is `HeapTupleSatisfiesVisibility`, and
-- `matches` is `HeapKeyTest`, true where there is no key.
pub record Table {ℓ} (Tuple : Type ℓ) : Type ℓ where
  pub lines : ℕ → List (Option Tuple)
  pub visible : Tuple → Bool
  pub matches : Tuple → Bool

-- The rest of `HeapScanDescData`: `rs_inited`, `rs_cblock` and `rs_coffset`.
pub record Descriptor : Type 0 where
  pub inited : Bool
  pub scan : Scan
  pub cblock : ℕ
  pub coffset : ℕ

-- A scan that has not begun.
abbrev pub fresh : Scan → Descriptor
fresh scan = record { inited = false; scan = scan; cblock = 0; coffset = 0 }

module _ {ℓ} {Tuple : Type ℓ} (table : Table Tuple) where
  abbrev pub qualifies : Option Tuple → Bool
  qualifies none = false
  qualifies (some t) = table.visible t && table.matches t

  -- `lineoff += dir`
  abbrev pub step : ScanDirection → ℕ → ℕ
  step forward lineoff = lineoff + 1
  step backward lineoff = lineoff - 1

  abbrev pub max_offset : ℕ → ℕ
  max_offset block = length (table.lines block)

  -- The loop over the lines of a page: the line of the tuple that is returned.
  unfoldable pub line_loop : ScanDirection → ℕ → ℕ → ℕ → Option ℕ
  line_loop dir block lineoff zero = none
  line_loop dir block lineoff (suc linesleft) =
      let rest = line_loop dir block (step dir lineoff) linesleft in
      if qualifies (get_or (table.lines block) (lineoff - 1) none) then some lineoff else rest

  -- `pg_tde_gettup_start_page`: `*lineoff`; `*linesleft` is the number of lines.
  abbrev pub start_page : ScanDirection → ℕ → ℕ
  start_page forward block = 1
  start_page backward block = max_offset block

  -- `pg_tde_gettup_continue_page`: `*lineoff` and `*linesleft`; no lines are left where the number is negative.
  abbrev pub continue_lineoff : ScanDirection → ℕ → ℕ → ℕ
  continue_lineoff forward block coffset = coffset + 1
  continue_lineoff backward block coffset = min (max_offset block) (coffset - 1)

  abbrev pub continue_linesleft : ScanDirection → ℕ → ℕ → ℕ
  continue_linesleft forward block coffset = max_offset block + 1 - (coffset + 1)
  continue_linesleft backward block coffset = min (max_offset block) (coffset - 1)

  -- What a call gives: the place of the tuple, none at the end of the scan.
  abbrev pub Fetched : Type 0
  Fetched = Option (ℕ × ℕ) × Descriptor

  -- The tuple that the page's loop stopped at, else what follows on the next pages.
  abbrev pub or_next : ℕ → Scan → Option ℕ → Option Fetched → Option Fetched
  or_next block scan none rest = rest
  or_next block scan (some lineoff) rest = some (
    some (block, lineoff),
    record { inited = true; scan = scan; cblock = block; coffset = lineoff },
  )

  -- `while (block != InvalidBlockNumber)`, on fuel.
  unfoldable pub page_loop : ℕ → ScanDirection → Option ℕ × Scan → Option Fetched
  page_loop fuel dir (none, scan) =
      some (none, record { inited = false; scan = scan; cblock = 0; coffset = 0 })
  page_loop zero dir (some block, scan) = none
  page_loop (suc fuel) dir (some block, scan) =
      or_next block scan (line_loop dir block (start_page dir block) (max_offset block))
        (page_loop fuel dir (advance_block none dir block scan))

  -- `pg_tde_gettup`
  unfoldable pub gettup : ℕ → ScanDirection → Descriptor → Option Fetched
  gettup fuel dir d =
      if d.inited
      then or_next d.cblock d.scan
          (line_loop dir d.cblock (continue_lineoff dir d.cblock d.coffset)
            (continue_linesleft dir d.cblock d.coffset))
          (page_loop fuel dir (advance_block none dir d.cblock d.scan))
      else page_loop fuel dir (initial_block none dir d.scan)

  -- What a call that got `r` leads to: calls until the end of the scan.
  abbrev pub fetched_then :
      (Descriptor → Option (List (ℕ × ℕ))) → Option Fetched → Option (List (ℕ × ℕ))
  fetched_then more none = none
  fetched_then more (some (none, d)) = some []
  fetched_then more (some (some place, d)) = elim (more d) [
    | none ↦ none
    | some places ↦ some (place ∷ places)
  ]

  -- The places of all tuples that at most `calls` calls return, the last of which finds the end.
  unfoldable pub fetch_all : ℕ → ℕ → ScanDirection → Descriptor → Option (List (ℕ × ℕ))
  fetch_all zero fuel dir d = none
  fetch_all (suc calls) fuel dir d = fetched_then (fetch_all calls fuel dir) (gettup fuel dir d)
