-- ===== src/HeapScan/Gettup/Fetch.antt =====
-- The tuples that a scan returns.
use pg_tde.Base.{
  arith, ℕ, zero, suc, ◌≤◌, ◌<◌, ◌^◌, ◌≡◌, refl, ap, sym, ◌∙◌, subst, Bool, true, Option, none,
  some, List, [], ◌∷◌, ◌++◌, length, if◌then◌else◌,
}
use pg_tde.HeapScan.{
  Scan, ScanDirection, forward, backward, initial_block, advance_block, blocks_from, after_block,
  scan_blocks,
}
use pg_tde.HeapScan.Order.{
  blocks_from-ended, serial, pages, blocks_up, blocks_down, scan_blocks_lem,
}
use pg_tde.HeapScan.Gettup.{
  Table, Descriptor, fresh, line_loop, continue_lineoff, continue_linesleft, Fetched, or_next,
  page_loop, gettup, fetched_then, fetch_all,
}
use pg_tde.HeapScan.Gettup.Results.{
  good, good_lines, good_blocks, Ready, Stops, line_loop-Stops, Ready-start, all_places,
  good_blocks-places,
}

abbrev or_nil : Option (List ℕ) → List ℕ
or_nil none = []
or_nil (some blocks) = blocks

after_block-some :
    (block : ℕ) (o : Option (List ℕ)) (blocks : List ℕ)
    → after_block block o ≡ some blocks
    → (rest : List ℕ) × (o ≡ some rest) × (block ∷ rest ≡ blocks)
after_block-some block none blocks e = ground arith
after_block-some block (some rest) blocks e = (rest, refl, ap or_nil e)

-- More fuel gives the same blocks.
blocks_from-more :
    (fuel all_fuel : ℕ) (dir : ScanDirection) (r : Option ℕ × Scan) (blocks : List ℕ)
    → fuel ≤ all_fuel
    → blocks_from fuel dir r ≡ some blocks
    → blocks_from all_fuel dir r ≡ some blocks
unfolding blocks_from
blocks_from-more fuel all_fuel dir (none, scan) blocks enough e =
    blocks_from-ended all_fuel dir (none, scan) refl
    ∙ (sym (blocks_from-ended fuel dir (none, scan) refl) ∙ e)
blocks_from-more zero all_fuel dir (some block, scan) blocks enough e = ground arith
blocks_from-more (suc fuel) zero dir (some block, scan) blocks enough e = absurd (omega arith)
blocks_from-more (suc fuel) (suc all_fuel) dir (some block, scan) blocks enough e =
    let (rest, made, split) = after_block-some block _ blocks e in
    ap (after_block block) (blocks_from-more fuel all_fuel dir _ rest (omega arith) made)
    ∙ ap some split

module _ {ℓ} {Tuple : Type ℓ} (table : Table Tuple) where
  -- The tuples ahead of a scan: those of its page after the last one, and those of the blocks to come.
  abbrev Ahead : ScanDirection → ℕ → Descriptor → List (ℕ × ℕ) → Type 0
  Ahead dir fuel d places =
      (blocks : List ℕ) × (blocks_from fuel dir (advance_block none dir d.cblock d.scan)
        ≡ some blocks)
      × (places
          ≡ good table dir d.cblock (continue_lineoff table dir d.cblock d.coffset)
              (continue_linesleft table dir d.cblock d.coffset)
            ++ good_blocks table dir blocks)
      × Ready table dir d.cblock (continue_lineoff table dir d.cblock d.coffset)
          (continue_linesleft table dir d.cblock d.coffset)
      × (d.inited ≡ true)

  -- A call returns the first of the tuples ahead and leaves the others, or finds the end.
  abbrev Returns : ScanDirection → ℕ → List (ℕ × ℕ) → Option (Fetched table) → Type 0
  Returns dir fuel places none = ⊥
  Returns dir fuel places (some (none, d)) = places ≡ []
  Returns dir fuel places (some (some place, d)) =
      (rest : List (ℕ × ℕ)) × (places ≡ place ∷ rest) × Ahead dir fuel d rest

  or_next-Returns :
      (dir : ScanDirection) (fuel block : ℕ) (scan : Scan) (blocks : List ℕ) (l : List (ℕ × ℕ))
      (o : Option ℕ) (rest : Option (Fetched table))
      → blocks_from fuel dir (advance_block none dir block scan) ≡ some blocks
      → Stops table dir block l o
      → Returns dir fuel (good_blocks table dir blocks) rest
      → Returns dir fuel (l ++ good_blocks table dir blocks) (or_next table block scan o rest)
  or_next-Returns dir fuel block scan blocks l none rest e stops returns =
      subst (λ k. Returns dir fuel (k ++ good_blocks table dir blocks) rest) (sym stops) returns
  or_next-Returns dir fuel block scan blocks l (some at) rest e stops returns =
      (_, ap (λ k. k ++ good_blocks table dir blocks) stops.0, (blocks, e, refl, stops.1, refl))

  page_loop-Returns :
      (fuel all_fuel : ℕ) (dir : ScanDirection) (r : Option ℕ × Scan) (blocks : List ℕ)
      → fuel ≤ all_fuel
      → blocks_from fuel dir r ≡ some blocks
      → Returns dir all_fuel (good_blocks table dir blocks) (page_loop table fuel dir r)
  unfolding page_loop blocks_from
  page_loop-Returns fuel all_fuel dir (none, scan) blocks enough e =
      ap (λ o. good_blocks table dir (or_nil o))
        (sym e ∙ blocks_from-ended fuel dir (none, scan) refl)
  page_loop-Returns zero all_fuel dir (some block, scan) blocks enough e = ground arith
  page_loop-Returns (suc fuel) all_fuel dir (some block, scan) blocks enough e =
      let (rest, made, split) = after_block-some block _ blocks e in
      subst
        (λ bs.
          Returns dir all_fuel (good_blocks table dir bs)
            (page_loop table (suc fuel) dir (some block, scan)))
        split
        (or_next-Returns dir all_fuel block scan rest (good_lines table dir block) _ _
          (blocks_from-more fuel all_fuel dir _ rest (omega arith) made)
          (line_loop-Stops table dir block _ _ (Ready-start table dir block))
          (page_loop-Returns fuel all_fuel dir (advance_block none dir block scan) rest
            (omega arith) made))

  gettup-Returns :
      (fuel : ℕ) (dir : ScanDirection) (d : Descriptor) (places : List (ℕ × ℕ))
      → Ahead dir fuel d places
      → Returns dir fuel places (gettup table fuel dir d)
  unfolding gettup
  gettup-Returns fuel dir d places (blocks, made, split, ready, begun) =
      let next = page_loop table fuel dir (advance_block none dir d.cblock d.scan) in
      let off = continue_lineoff table dir d.cblock d.coffset in
      let left = continue_linesleft table dir d.cblock d.coffset in
      let found = or_next table d.cblock d.scan (line_loop table dir d.cblock off left) next in
      subst
        (λ k.
          Returns dir fuel k
            (if d.inited then found else page_loop table fuel dir (initial_block none dir d.scan)))
        (sym split)
        (subst
          (λ b.
            Returns dir fuel (good table dir d.cblock off left ++ good_blocks table dir blocks)
              (if b then found else page_loop table fuel dir (initial_block none dir d.scan)))
          (sym begun)
          (or_next-Returns dir fuel d.cblock d.scan blocks (good table dir d.cblock off left) _ _
            made (line_loop-Stops table dir d.cblock off left ready)
            (page_loop-Returns fuel fuel dir _ blocks (omega arith) made)))

  fetched_then-all :
      (dir : ScanDirection) (calls fuel : ℕ) (places : List (ℕ × ℕ)) (r : Option (Fetched table))
      → Returns dir fuel places r
      → length places < suc calls
      → ((d : Descriptor) (rest : List (ℕ × ℕ))
          → Ahead dir fuel d rest
          → length rest < calls
          → fetch_all table calls fuel dir d ≡ some rest)
      → fetched_then table (fetch_all table calls fuel dir) r ≡ some places
  fetched_then-all dir calls fuel places none returns enough more = absurd returns
  fetched_then-all dir calls fuel places (some (none, d)) returns enough more =
      ap some (sym returns)
  fetched_then-all dir calls fuel places (some (some place, d)) (rest, split, ahead) enough more =
      let shorter : length places ≡ suc (length rest) = ap length split in
      ap (λ o. elim o as (λ q. Option (List (ℕ × ℕ))) [ none ↦ none | some ps ↦ some (place ∷ ps) ])
        (more d rest ahead (omega arith))
      ∙ ap some (sym split)

  fetch_all-Ahead :
      (calls fuel : ℕ) (dir : ScanDirection) (d : Descriptor) (places : List (ℕ × ℕ))
      → Ahead dir fuel d places
      → length places < calls
      → fetch_all table calls fuel dir d ≡ some places
  unfolding fetch_all
  fetch_all-Ahead zero fuel dir d places ahead enough = absurd (omega arith)
  fetch_all-Ahead (suc calls) fuel dir d places ahead enough =
      fetched_then-all dir calls fuel places (gettup table fuel dir d)
        (gettup-Returns fuel dir d places ahead) enough
        (λ d' rest ahead' short. fetch_all-Ahead calls fuel dir d' rest ahead' short)

  fetch_all-blocks :
      (calls fuel : ℕ) (dir : ScanDirection) (scan : Scan) (blocks : List ℕ)
      → scan_blocks fuel dir scan ≡ some blocks
      → length (good_blocks table dir blocks) < calls
      → fetch_all table calls fuel dir (fresh scan) ≡ some (good_blocks table dir blocks)
  unfolding fetch_all gettup
  fetch_all-blocks zero fuel dir scan blocks made enough = absurd (omega arith)
  fetch_all-blocks (suc calls) fuel dir scan blocks made enough =
      fetched_then-all dir calls fuel (good_blocks table dir blocks)
        (page_loop table fuel dir (initial_block none dir scan))
        (page_loop-Returns fuel fuel dir _ blocks (omega arith) made) enough
        (λ d' rest ahead' short. fetch_all-Ahead calls fuel dir d' rest ahead' short)

  -- A serial scan of a table that does not change returns each of its tuples that is visible and matches the key once: calls of
  -- pg_tde_gettup until it finds the end, one more than there are such tuples, give those of the blocks that the
  -- scan takes, forward from the start block and in the order of each page's line pointers, and backward in the
  -- opposite order of blocks and of line pointers. The start block is in the table, the limit, if any, is at most its number
  -- of blocks, and this is at most 2^31.
  pub fetch_all_lem :
      (n start : ℕ) (limit : Option ℕ) (sync : Bool) (seen : List ℕ) (fuel calls : ℕ)
      → start < n
      → n ≤ 2 ^ 31
      → pages n limit ≤ n
      → pages n limit ≤ fuel
      → length (all_places table forward (blocks_up n start 0 (pages n limit))) < calls
      → length (all_places table backward (blocks_down n start (pages n limit))) < calls
      → let d = fresh (serial n start limit sync seen) in
        (fetch_all table calls fuel forward d
          ≡ some (all_places table forward (blocks_up n start 0 (pages n limit))))
        × (fetch_all table calls fuel backward d
            ≡ some (all_places table backward (blocks_down n start (pages n limit))))
  fetch_all_lem n start limit sync seen fuel calls inside half near enough up down =
      let order = scan_blocks_lem n start limit sync seen fuel inside half near enough in
      let ups = blocks_up n start 0 (pages n limit) in
      let downs = blocks_down n start (pages n limit) in
      let forth = good_blocks-places table forward ups in
      let back = good_blocks-places table backward downs in
      (
        fetch_all-blocks calls fuel forward (serial n start limit sync seen) _ order.0
              (subst (λ l. length l < calls) (sym forth) up)
            ∙ ap some forth,
        fetch_all-blocks calls fuel backward (serial n start limit sync seen) _ order.1
              (subst (λ l. length l < calls) (sym back) down)
            ∙ ap some back,
      )
