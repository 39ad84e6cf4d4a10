-- ===== src/HeapScan/Gettup/Results.antt =====
-- The lines of a page that a scan stops at.
use pg_tde.Base.{
  arith, ℕ, zero, suc, ◌+◌, ◌-◌, ◌≤◌, ◌≡◌, refl, ap₂, subst, Bool, true, false, Option, none, some,
  List, [], ◌∷◌, ◌++◌, get_or, if◌then◌else◌, length, ◌&&◌, ◌∙◌, sym, ap, append_assoc, append_nil,
}
use pg_tde.HeapScan.{ScanDirection, forward, backward}
use pg_tde.HeapScan.Gettup.{
  Table, qualifies, step, max_offset, line_loop, start_page, continue_lineoff, continue_linesleft,
}

module _ {ℓ} {Tuple : Type ℓ} (table : Table Tuple) where
  -- The qualifying lines of `left` lines from `lineoff` on.
  unfoldable pub good : ScanDirection → ℕ → ℕ → ℕ → List (ℕ × ℕ)
  good dir block lineoff zero = []
  good dir block lineoff (suc left) =
      if qualifies table (get_or (table.lines block) (lineoff - 1) none)
      then (block, lineoff) ∷ good dir block (step table dir lineoff) left
      else good dir block (step table dir lineoff) left

  -- The qualifying lines of a page, in the direction of the scan.
  abbrev pub good_lines : ScanDirection → ℕ → List (ℕ × ℕ)
  good_lines dir block = good dir block (start_page table dir block) (max_offset table block)

  abbrev pub good_blocks : ScanDirection → List ℕ → List (ℕ × ℕ)
  good_blocks dir [] = []
  good_blocks dir (block ∷ blocks) = good_lines dir block ++ good_blocks dir blocks

  -- `lineoff` and `left` are a place that a page's loop passes.
  abbrev pub Ready : ScanDirection → ℕ → ℕ → ℕ → Type 0
  Ready forward block lineoff left = (lineoff + left ≡ max_offset table block + 1) × (1 ≤ lineoff)
  Ready backward block lineoff left = (lineoff ≡ left) × (left ≤ max_offset table block)

  -- With the good lines `l` ahead, the loop stops at the first, and the next call goes on after it.
  abbrev pub Stops : ScanDirection → ℕ → List (ℕ × ℕ) → Option ℕ → Type 0
  Stops dir block l none = l ≡ []
  Stops dir block l (some at) =
      (l
        ≡ (block, at)
          ∷ good dir block (continue_lineoff table dir block at)
              (continue_linesleft table dir block at))
      × Ready dir block (continue_lineoff table dir block at)
          (continue_linesleft table dir block at)

  Stops-if :
      (b : Bool) (dir : ScanDirection) (block : ℕ) (l l' : List (ℕ × ℕ)) (o o' : Option ℕ)
      → Stops dir block l o
      → Stops dir block l' o'
      → Stops dir block (if b then l else l') (if b then o else o')
  Stops-if true dir block l l' o o' h h' = h
  Stops-if false dir block l l' o o' h h' = h'

  Ready-step :
      (dir : ScanDirection) (block lineoff left : ℕ)
      → Ready dir block lineoff (suc left)
      → Ready dir block (step table dir lineoff) left
  Ready-step forward block lineoff left r = (omega (arith, r.0), omega arith)
  Ready-step backward block lineoff left r = (omega (arith, r.0), omega (arith, r.1))

  continue-step :
      (dir : ScanDirection) (block lineoff left : ℕ)
      → Ready dir block lineoff (suc left)
      → (step table dir lineoff ≡ continue_lineoff table dir block lineoff)
        × (left ≡ continue_linesleft table dir block lineoff)
  continue-step forward block lineoff left r = (refl, omega (arith, r.0))
  continue-step backward block lineoff left r = (omega (arith, r.0, r.1), omega (arith, r.0, r.1))

  pub line_loop-Stops :
      (dir : ScanDirection) (block lineoff left : ℕ)
      → Ready dir block lineoff left
      → Stops dir block (good dir block lineoff left) (line_loop table dir block lineoff left)
  unfolding line_loop good
  line_loop-Stops dir block lineoff zero r = refl
  line_loop-Stops dir block lineoff (suc left) r =
      let next = Ready-step dir block lineoff left r in
      let at = continue-step dir block lineoff left r in
      Stops-if _ dir block ((block, lineoff) ∷ good dir block (step table dir lineoff) left) _
        (some lineoff) _
        (
          ap₂ (λ off n. (block, lineoff) ∷ good dir block off n) at.0 at.1,
          subst (λ off. Ready dir block off (continue_linesleft table dir block lineoff)) at.0
              (subst (Ready dir block (step table dir lineoff)) at.1 next),
        )
        (line_loop-Stops dir block (step table dir lineoff) left next)

  pub Ready-start :
      (dir : ScanDirection) (block : ℕ)
      → Ready dir block (start_page table dir block) (max_offset table block)
  Ready-start forward block = (omega arith, omega arith)
  Ready-start backward block = (refl, omega arith)

  -- What a scan should return of a page, independently of how it goes through it: `wanted` tuples.
  abbrev pub wanted : Option Tuple → Bool
  wanted none = false
  wanted (some t) = table.visible t && table.matches t

  -- The places of the wanted lines of a page, `i` the offset number of the first of `lines`: first to last, and
  -- last to first.
  abbrev pub places_up : ℕ → ℕ → List (Option Tuple) → List (ℕ × ℕ)
  places_up block i [] = []
  places_up block i (o ∷ lines) =
      if wanted o then (block, i) ∷ places_up block (i + 1) lines else places_up block (i + 1) lines

  abbrev pub places_down : ℕ → ℕ → List (Option Tuple) → List (ℕ × ℕ)
  places_down block i [] = []
  places_down block i (o ∷ lines) =
      places_down block (i + 1) lines ++ (if wanted o then (block, i) ∷ [] else [])

  abbrev pub places_of : ScanDirection → ℕ → List (ℕ × ℕ)
  places_of forward block = places_up block 1 (table.lines block)
  places_of backward block = places_down block 1 (table.lines block)

  abbrev pub all_places : ScanDirection → List ℕ → List (ℕ × ℕ)
  all_places dir [] = []
  all_places dir (block ∷ blocks) = places_of dir block ++ all_places dir blocks

  qualifies-wanted : (o : Option Tuple) → qualifies table o ≡ wanted o
  qualifies-wanted none = refl
  qualifies-wanted (some t) = refl

  -- The lines of `block` after the first `j` are `lines`.
  abbrev From : ℕ → ℕ → List (Option Tuple) → Type ℓ
  From block j lines = (k : ℕ) → get_or (table.lines block) (j + k) none ≡ get_or lines k none

  From-here :
      (block j : ℕ) (o : Option Tuple) (lines : List (Option Tuple))
      → From block j (o ∷ lines)
      → get_or (table.lines block) j none ≡ o
  From-here block j o lines from =
      ap (λ n. get_or (table.lines block) n none) (omega arith) ∙ from 0

  From-rest :
      (block j : ℕ) (o : Option Tuple) (lines : List (Option Tuple))
      → From block j (o ∷ lines)
      → From block (suc j) lines
  From-rest block j o lines from k =
      ap (λ n. get_or (table.lines block) n none) (omega arith) ∙ from (suc k)

  good-none : (block : ℕ) → good backward block 0 0 ≡ []
  unfolding good
  good-none block = refl

  good-up :
      (block j n : ℕ)
      → good forward block (suc j) (suc n) ≡ (
          if qualifies table (get_or (table.lines block) j none)
          then (block, suc j) ∷ good forward block (suc (suc j)) n
          else good forward block (suc (suc j)) n)
  unfolding good
  good-up block j n =
      let back : suc j - 1 ≡ j = omega arith in
      let on : suc j + 1 ≡ suc (suc j) = omega arith in
      ap₂
        (λ i i'.
          if qualifies table (get_or (table.lines block) i none)
          then (block, suc j) ∷ good forward block i' n
          else good forward block i' n)
        back on

  good-down :
      (block j : ℕ)
      → good backward block (suc j) (suc j) ≡ (
          if qualifies table (get_or (table.lines block) j none)
          then (block, suc j) ∷ good backward block j j
          else good backward block j j)
  unfolding good
  good-down block j =
      let back : suc j - 1 ≡ j = omega arith in
      ap
        (λ i.
          if qualifies table (get_or (table.lines block) i none)
          then (block, suc j) ∷ good backward block i j
          else good backward block i j)
        back

  qualifies-here :
      (block j : ℕ) (o : Option Tuple) (lines : List (Option Tuple))
      → From block j (o ∷ lines)
      → qualifies table (get_or (table.lines block) j none) ≡ wanted o
  qualifies-here block j o lines from =
      ap (qualifies table) (From-here block j o lines from) ∙ qualifies-wanted o

  good-places_up :
      (block j : ℕ) (lines : List (Option Tuple))
      → From block j lines
      → good forward block (suc j) (length lines) ≡ places_up block (suc j) lines
  unfolding good
  good-places_up block j [] from = refl
  good-places_up block j (o ∷ lines) from =
      let rest = good-places_up block (suc j) lines (From-rest block j o lines from) in
      let on : suc (suc j) ≡ suc j + 1 = omega arith in
      good-up block j (length lines)
      ∙ (ap₂ (λ b l. if b then (block, suc j) ∷ l else l) (qualifies-here block j o lines from) rest
          ∙ ap
              (λ i.
                if wanted o
                then (block, suc j) ∷ places_up block i lines
                else places_up block i lines)
              on)

  chosen :
      (b : Bool) (p : ℕ × ℕ) (xs ys : List (ℕ × ℕ))
      → (xs ++ (if b then p ∷ ys else ys)) ≡ ((xs ++ (if b then p ∷ [] else [])) ++ ys)
  chosen true p xs ys = sym (append_assoc xs (p ∷ []) ys)
  chosen false p xs ys = sym (append_assoc xs [] ys)

  good-places_down :
      (block j : ℕ) (lines : List (Option Tuple))
      → From block j lines
      → good backward block (j + length lines) (j + length lines)
        ≡ (places_down block (suc j) lines ++ good backward block j j)
  good-places_down block j [] from = ap (λ n. good backward block n n) (omega arith)
  good-places_down block j (o ∷ lines) from =
      let rest = good-places_down block (suc j) lines (From-rest block j o lines from) in
      let at : j + suc (length lines) ≡ suc j + length lines = omega arith in
      let on : suc (suc j) ≡ suc j + 1 = omega arith in
      let ahead = places_down block (suc (suc j)) lines in
      let behind = good backward block j j in
      ap (λ n. good backward block n n) at
      ∙ (rest
          ∙ (ap (λ l. ahead ++ l)
                (good-down block j
                  ∙ ap (λ b. if b then (block, suc j) ∷ behind else behind)
                      (qualifies-here block j o lines from))
              ∙ (chosen (wanted o) (block, suc j) ahead behind
                  ∙ ap
                      (λ i.
                        (places_down block i lines
                          ++ (if wanted o then (block, suc j) ∷ [] else []))
                        ++ behind)
                      on)))

  good_lines-places : (dir : ScanDirection) (block : ℕ) → good_lines dir block ≡ places_of dir block
  good_lines-places forward block =
      good-places_up block 0 (table.lines block)
        (λ k. ap (λ n. get_or (table.lines block) n none) (omega arith))
  good_lines-places backward block =
      ap (λ n. good backward block n n) (omega arith)
      ∙ (good-places_down block 0 (table.lines block)
            (λ k. ap (λ n. get_or (table.lines block) n none) (omega arith))
          ∙ (ap (λ l. places_down block 1 (table.lines block) ++ l) (good-none block)
              ∙ append_nil (places_down block 1 (table.lines block))))

  pub good_blocks-places :
      (dir : ScanDirection) (blocks : List ℕ) → good_blocks dir blocks ≡ all_places dir blocks
  good_blocks-places dir [] = refl
  good_blocks-places dir (block ∷ blocks) =
      ap₂ (λ xs ys. xs ++ ys) (good_lines-places dir block) (good_blocks-places dir blocks)
