-- ===== src/HeapScan/Order.antt =====
-- The order in which a serial scan takes the blocks.
use pg_tde.Base.{
  arith, ℕ, ◌+◌, ◌-◌, ◌%◌, ◌^◌, ◌≤◌, ◌<◌, zero, suc, ◌≡◌, refl, ap, ◌∙◌, Bool, false, Option, none,
  some, List, [], ◌∷◌, ◌⊎◌, inl, inr, if◌then◌else◌, u32, ltb,
}
use pg_tde.HeapScan.{
  Scan, ScanDirection, forward, backward, one_fewer, last_block, initial_block, advance_block,
  after_block, blocks_from, scan_blocks,
}
use native.Mathlib.Nat.{mod-eq_of_lt, mod-eq-sub-mod}

-- The block at `at`, counted past the end of a table of `n` blocks.
abbrev pub around : ℕ → ℕ → ℕ
around n at = if ltb at n then at else at - n

-- The `count` blocks from the `i`-th after `start`.
unfoldable pub blocks_up : ℕ → ℕ → ℕ → ℕ → List ℕ
blocks_up n start i zero = []
blocks_up n start i (suc count) = around n (start + i) ∷ blocks_up n start (suc i) count

-- The `count` first blocks after `start`, the last of them first.
unfoldable pub blocks_down : ℕ → ℕ → ℕ → List ℕ
blocks_down n start zero = []
blocks_down n start (suc count) = around n (start + count) ∷ blocks_down n start count

abbrev pub serial : ℕ → ℕ → Option ℕ → Bool → List ℕ → Scan
serial n start limit sync seen = record {
  nblocks = n;
  startblock = start;
  numblocks = limit;
  parallel = false;
  allow_sync = sync;
  reported = seen;
}

-- How many blocks a scan of `n` blocks takes.
abbrev pub pages : ℕ → Option ℕ → ℕ
pages n none = n
pages n (some k) = k

pub blocks_from-ended :
    (fuel : ℕ) (dir : ScanDirection) (r : Option ℕ × Scan)
    → r.0 ≡ none
    → blocks_from fuel dir r ≡ some []
unfolding blocks_from
blocks_from-ended zero dir (none, scan) e = refl
blocks_from-ended (suc fuel) dir (none, scan) e = refl
blocks_from-ended fuel dir (some block, scan) e = ground arith

mod-around : (n x : ℕ) → x < n + n → x % n ≡ around n x
mod-around n x small = grind (arith, mod-eq_of_lt, mod-eq-sub-mod)

pages-one_fewer :
    (n : ℕ) (limit : Option ℕ) (i c : ℕ)
    → pages (n - i) limit ≡ suc (suc c)
    → pages (n - suc i) (one_fewer limit) ≡ suc c
pages-one_fewer n none i c e = omega arith
pages-one_fewer n (some k) i c e = omega arith

limit-one_fewer :
    (limit : Option ℕ) (c : ℕ)
    → (limit ≡ none) ⊎ (limit ≡ some (suc c))
    → (one_fewer limit ≡ none) ⊎ (one_fewer limit ≡ some c)
limit-one_fewer none c e = inl refl
limit-one_fewer (some k) c e = ground arith

module _ (n start : ℕ) (inside : start < n) (fits : n < 2 ^ 32) where
  forward-last :
      (limit : Option ℕ) (i : ℕ) (sync : Bool) (seen : List ℕ)
      → i < n
      → pages (n - i) limit ≡ 1
      → (advance_block none forward (around n (start + i)) (serial n start limit sync seen)).0
        ≡ none
  unfolding advance_block
  forward-last none i sync seen near e = ground arith
  forward-last (some k) i sync seen near e = ground arith

  abbrev told : Bool → ℕ → List ℕ → List ℕ
  told sync block seen = if sync then block ∷ seen else seen

  forward-more :
      (limit : Option ℕ) (i c : ℕ) (sync : Bool) (seen : List ℕ)
      → i + suc (suc c) ≤ n
      → pages (n - i) limit ≡ suc (suc c)
      → advance_block none forward (around n (start + i)) (serial n start limit sync seen) ≡ (
        some (around n (start + suc i)),
        serial n start (one_fewer limit) sync (told sync (around n (start + suc i)) seen),
      )
  unfolding advance_block
  forward-more none i c sync seen near e = ground arith
  forward-more (some k) i c sync seen near e = ground arith

  forward_run :
      (c : ℕ) (limit : Option ℕ) (i fuel : ℕ) (sync : Bool) (seen : List ℕ)
      → i + suc c ≤ n
      → pages (n - i) limit ≡ suc c
      → suc c ≤ fuel
      → blocks_from fuel forward (some (around n (start + i)), serial n start limit sync seen)
        ≡ some (blocks_up n start i (suc c))
  unfolding blocks_from blocks_up
  forward_run c limit i zero sync seen near e enough = absurd (omega arith)
  forward_run zero limit i (suc fuel) sync seen near e enough =
      ap (after_block (around n (start + i)))
        (blocks_from-ended fuel forward _ (forward-last limit i sync seen (omega arith) e))
  forward_run (suc c) limit i (suc fuel) sync seen near e enough =
      ap (after_block (around n (start + i))) (
        ap (blocks_from fuel forward) (forward-more limit i c sync seen near e)
        ∙ forward_run c (one_fewer limit) (suc i) fuel sync _ (omega arith)
            (pages-one_fewer n limit i c e) (omega arith))

  backward-last :
      (limit : Option ℕ) (sync : Bool) (seen : List ℕ)
      → (advance_block none backward (around n (start + 0)) (serial n start limit sync seen)).0
        ≡ none
  unfolding advance_block
  backward-last limit sync seen = ground arith

  backward-more :
      (limit : Option ℕ) (c : ℕ) (sync : Bool) (seen : List ℕ)
      → suc c < n
      → (limit ≡ none) ⊎ (limit ≡ some (suc (suc c)))
      → advance_block none backward (around n (start + suc c)) (serial n start limit sync seen)
        ≡ (some (around n (start + c)), serial n start (one_fewer limit) sync seen)
  unfolding advance_block
  backward-more none c sync seen near e = ground arith
  backward-more (some k) c sync seen near e = ground arith

  backward_run :
      (c : ℕ) (limit : Option ℕ) (fuel : ℕ) (sync : Bool) (seen : List ℕ)
      → c < n
      → (limit ≡ none) ⊎ (limit ≡ some (suc c))
      → suc c ≤ fuel
      → blocks_from fuel backward (some (around n (start + c)), serial n start limit sync seen)
        ≡ some (blocks_down n start (suc c))
  unfolding blocks_from blocks_down
  backward_run c limit zero sync seen near e enough = absurd (omega arith)
  backward_run zero limit (suc fuel) sync seen near e enough =
      ap (after_block (around n (start + 0)))
        (blocks_from-ended fuel backward _ (backward-last limit sync seen))
  backward_run (suc c) limit (suc fuel) sync seen near e enough =
      ap (after_block (around n (start + suc c))) (
        ap (blocks_from fuel backward) (backward-more limit c sync seen near e)
        ∙ backward_run c (one_fewer limit) fuel sync seen (omega arith)
            (limit-one_fewer limit (suc c) e) (omega arith))

  last_block-around :
      (limit : Option ℕ) (sync : Bool) (seen : List ℕ) (c : ℕ)
      → n ≤ 2 ^ 31
      → suc c ≤ n
      → pages n limit ≡ suc c
      → last_block (serial n start limit sync seen) ≡ around n (start + c)
  last_block-around none sync seen c half near e = ground arith
  last_block-around (some k) sync seen c half near e =
      let at : u32 (u32 (start + k) + (2 ^ 32 - 1)) ≡ start + c = omega arith in
      ap (λ x. x % n) at ∙ mod-around n (start + c) (omega arith)

  initial-forward :
      (limit : Option ℕ) (c : ℕ) (sync : Bool) (seen : List ℕ)
      → pages n limit ≡ suc c
      → initial_block none forward (serial n start limit sync seen)
        ≡ (some (around n (start + 0)), serial n start limit sync seen)
  unfolding initial_block
  initial-forward none c sync seen e = ground arith
  initial-forward (some k) c sync seen e = ground arith

  initial-backward :
      (limit : Option ℕ) (c : ℕ) (sync : Bool) (seen : List ℕ)
      → n ≤ 2 ^ 31
      → suc c ≤ n
      → pages n limit ≡ suc c
      → initial_block none backward (serial n start limit sync seen)
        ≡ (some (around n (start + c)), serial n start limit false seen)
  unfolding initial_block
  initial-backward none c sync seen half near e = ground (arith, last_block-around none sync seen c)
  initial-backward (some k) c sync seen half near e =
      ground (arith, last_block-around (some k) sync seen c)

limit-of_pages :
    (n c : ℕ) (limit : Option ℕ) → pages n limit ≡ suc c → (limit ≡ none) ⊎ (limit ≡ some (suc c))
limit-of_pages n c none e = inl refl
limit-of_pages n c (some k) e = inr (ap some e)

initial-empty :
    (dir : ScanDirection) (n start : ℕ) (sync : Bool) (seen : List ℕ)
    → (initial_block none dir (serial n start (some 0) sync seen)).0 ≡ none
unfolding initial_block
initial-empty forward n start sync seen = ground arith
initial-empty backward n start sync seen = ground arith

scan_blocks-run :
    (n start : ℕ) (inside : start < n) (half : n ≤ 2 ^ 31) (limit : Option ℕ) (c : ℕ) (sync : Bool)
    (seen : List ℕ) (fuel : ℕ)
    → suc c ≤ n
    → suc c ≤ fuel
    → pages n limit ≡ suc c
    → (scan_blocks fuel forward (serial n start limit sync seen)
        ≡ some (blocks_up n start 0 (suc c)))
      × (scan_blocks fuel backward (serial n start limit sync seen)
          ≡ some (blocks_down n start (suc c)))
scan_blocks-run n start inside half limit c sync seen fuel near enough e =
    let fits : n < 2 ^ 32 = omega arith in
    (
      ap (blocks_from fuel forward) (initial-forward n start inside fits limit c sync seen e)
          ∙ forward_run n start inside fits c limit 0 fuel sync seen (omega arith)
              (ap (λ m. pages m limit) (omega arith) ∙ e) enough,
      ap (blocks_from fuel backward)
            (initial-backward n start inside fits limit c sync seen half near e)
          ∙ backward_run n start inside fits c limit fuel false seen near
              (limit-of_pages n c limit e) enough,
    )

-- A serial scan ends, and takes its blocks round the table from the start block, each once: for a table of at most
-- 2^31 blocks, a start block in it and a limit, if any, of at most its number of blocks, a forward scan takes
-- the blocks start, start + 1, ... counted past the end of the table, as many as the limit or the table has,
-- and a backward scan the same blocks in the opposite order; that many rounds of the loop are enough.
pub scan_blocks_lem :
    (n start : ℕ) (limit : Option ℕ) (sync : Bool) (seen : List ℕ) (fuel : ℕ)
    → start < n
    → n ≤ 2 ^ 31
    → pages n limit ≤ n
    → pages n limit ≤ fuel
    → (scan_blocks fuel forward (serial n start limit sync seen)
        ≡ some (blocks_up n start 0 (pages n limit)))
      × (scan_blocks fuel backward (serial n start limit sync seen)
          ≡ some (blocks_down n start (pages n limit)))
unfolding blocks_up blocks_down
scan_blocks_lem zero start limit sync seen fuel inside half near enough = absurd (omega arith)
scan_blocks_lem (suc n) start (some zero) sync seen fuel inside half near enough = (
  blocks_from-ended fuel forward _ (initial-empty forward (suc n) start sync seen),
  blocks_from-ended fuel backward _ (initial-empty backward (suc n) start sync seen),
)
scan_blocks_lem (suc n) start (some (suc c)) sync seen fuel inside half near enough =
    scan_blocks-run (suc n) start inside half (some (suc c)) c sync seen fuel near enough refl
scan_blocks_lem (suc n) start none sync seen fuel inside half near enough =
    scan_blocks-run (suc n) start inside half none n sync seen fuel near enough refl
