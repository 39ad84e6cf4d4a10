-- ===== src/Vacuum/Skips.antt =====
-- What vacuum does not read.
use pg_tde.Base.{
  arith, ℕ, zero, suc, ◌+◌, ◌-◌, ◌≤◌, ◌<◌, ◌≡◌, refl, ap, subst, ◌∙◌, Bool, true, false, ◌&&◌, ◌||◌,
  not, List, any, if◌then◌else◌, ◌==◌, inl, inr, Bool-cases,
}
use pg_tde.Vacuum.{
  VacuumRel, SkipLoop, SkipRange, skip_loop, lazy_scan_skip, scan_heap_loop, lazy_scan_heap,
}

module _ (v : VacuumRel) where
  -- Whether a block may be skipped.
  abbrev pub skippable : ℕ → Bool
  skippable b =
      v.all_visible b
      && (not (b == v.rel_pages - 1) && (v.skipwithvm && (v.all_frozen b || not v.aggressive)))

  -- The blocks from `block` up to where the loop stops.
  abbrev Passes : ℕ → SkipLoop → Type 0
  Passes block r =
      (block ≤ r.next_unskippable_block)
      × ((b : ℕ)
          → block ≤ b
          → b < r.next_unskippable_block
          → (skippable b ≡ true) × ((v.all_frozen b || r.skipsallvis) ≡ true))

  Passes-if :
      (b : Bool) (block : ℕ) (x y : SkipLoop)
      → (b ≡ true → Passes block x)
      → (b ≡ false → Passes block y)
      → Passes block (if b then x else y)
  Passes-if true block x y k k' = k refl
  Passes-if false block x y k k' = k' refl

  stopped-Passes :
      (block n : ℕ) (allvis skips : Bool)
      → Passes block (record {
        next_unskippable_block = block;
        nskippable_blocks = n;
        next_unskippable_allvis = allvis;
        skipsallvis = skips;
      })
  stopped-Passes block n allvis skips = (omega arith, λ b low high. absurd (omega arith))

  skip_loop-keeps : (k block n : ℕ) → (skip_loop v k block n true).skipsallvis ≡ true
  unfolding skip_loop
  skip_loop-keeps zero block n = refl
  skip_loop-keeps (suc k) block n = ground (arith, skip_loop-keeps k (block + 1) (n + 1))

  frozen_or :
      (k block n : ℕ) (frozen skips : Bool)
      → (frozen || (skip_loop v k block n (skips || not frozen)).skipsallvis) ≡ true
  frozen_or k block n true skips = refl
  frozen_or k block n false true = skip_loop-keeps k block n
  frozen_or k block n false false = skip_loop-keeps k block n

  skip_loop-Passes : (k block n : ℕ) (skips : Bool) → Passes block (skip_loop v k block n skips)
  unfolding skip_loop
  skip_loop-Passes zero block n skips = stopped-Passes block n true skips
  skip_loop-Passes (suc k) block n skips =
      let rest = skip_loop v k (block + 1) (n + 1) (skips || not (v.all_frozen block)) in
      let ih = skip_loop-Passes k (block + 1) (n + 1) (skips || not (v.all_frozen block)) in
      Passes-if (not (v.all_visible block)) block _ _ (λ _. stopped-Passes block n false skips)
        (λ vis.
          Passes-if (block == v.rel_pages - 1) block _ _ (λ _. stopped-Passes block n true skips)
            (λ inner.
              Passes-if (not v.skipwithvm) block _ _ (λ _. stopped-Passes block n false skips)
                (λ with_vm.
                  Passes-if (not (v.all_frozen block) && v.aggressive) block _ rest
                    (λ _. stopped-Passes block n true skips)
                    (λ may. (
                      omega (arith, ih.0),
                      λ b low high. elim (Bool-cases (b == block)) [
                        | inl e ↦
                            let same : block ≡ b = ground arith in
                            subst
                              (λ c.
                                (skippable c ≡ true)
                                × ((v.all_frozen c || rest.skipsallvis) ≡ true))
                              same
                              (
                                ground arith,
                                frozen_or k (block + 1) (n + 1) (v.all_frozen block) skips,
                              )
                        | inr e ↦ ih.1 b (ground arith) high
                      ],
                    )))))

  -- What is known of a range in the loop over the relation, from `blkno` on.
  abbrev InRange : ℕ → SkipRange → Type 0
  InRange blkno r =
      (blkno ≤ r.next_unskippable_block)
      × ((b : ℕ)
          → blkno ≤ b
          → b < r.next_unskippable_block
          → (skippable b ≡ true)
            × (r.skipping_current_range ≡ true → (v.all_frozen b || r.skippedallvis) ≡ true))

  or_right : (a b c : Bool) → (a || b) ≡ true → (a || (c || b)) ≡ true
  or_right a b c e = ground arith

  lazy_scan_skip-InRange :
      (block : ℕ) (skipped : Bool) → InRange block (lazy_scan_skip v block skipped)
  unfolding lazy_scan_skip
  lazy_scan_skip-InRange block skipped =
      let p = skip_loop-Passes (v.rel_pages - block) block 0 false in
      (p.0, λ b low high. ((p.1 b low high).0, λ on. ground (arith, (p.1 b low high).1, on)))

  lazy_scan_skip-keeps : (block : ℕ) → (lazy_scan_skip v block true).skippedallvis ≡ true
  unfolding lazy_scan_skip
  lazy_scan_skip-keeps block = refl

  -- A block that is not read may be skipped, and if it is not frozen the relation counts as such.
  abbrev Fair : ℕ → List (ℕ × Bool) × Bool → Type 0
  Fair b r = (any (λ p. b == p.0) r.0 || (skippable b && (v.all_frozen b || r.1))) ≡ true

  Fair-if :
      (c : Bool) (b : ℕ) (x y : List (ℕ × Bool) × Bool)
      → (c ≡ true → Fair b x)
      → (c ≡ false → Fair b y)
      → Fair b (if c then x else y)
  Fair-if true b x y k k' = k refl
  Fair-if false b x y k k' = k' refl

  Fair-elim :
      (c : Bool) (b : ℕ) (x y : List (ℕ × Bool) × Bool)
      → (c ≡ true → Fair b x)
      → (c ≡ false → Fair b y)
      → Fair b (elim c [ true ↦ x | false ↦ y ])
  Fair-elim true b x y k k' = k refl
  Fair-elim false b x y k k' = k' refl

  scan_heap_loop-keeps :
      (k blkno : ℕ) (r : SkipRange) → r.skippedallvis ≡ true → (scan_heap_loop v k blkno r).1 ≡ true
  unfolding scan_heap_loop
  scan_heap_loop-keeps zero blkno r e = e
  scan_heap_loop-keeps (suc k) blkno r e =
      let again : (lazy_scan_skip v (blkno + 1) r.skippedallvis).skippedallvis ≡ true =
        ap (λ s. (lazy_scan_skip v (blkno + 1) s).skippedallvis) e
        ∙ lazy_scan_skip-keeps (blkno + 1) in
      let renewed =
        scan_heap_loop-keeps k (blkno + 1) (lazy_scan_skip v (blkno + 1) r.skippedallvis) again in
      let same = scan_heap_loop-keeps k (blkno + 1) r e in ground (arith, renewed, same)

  later-InRange :
      (blkno : ℕ) (r : SkipRange)
      → InRange blkno r
      → (blkno == r.next_unskippable_block) ≡ false
      → InRange (blkno + 1) r
  later-InRange blkno r (low, range) apart =
      (ground arith, λ b above high. range b (omega arith) high)

  passed :
      (k blkno : ℕ) (r : SkipRange)
      → (v.all_frozen blkno || r.skippedallvis) ≡ true
      → (v.all_frozen blkno || (scan_heap_loop v k (blkno + 1) r).1) ≡ true
  passed k blkno r e = elim (Bool-cases r.skippedallvis) [
    | inl on ↦ let kept = scan_heap_loop-keeps k (blkno + 1) r on in ground (arith, kept)
    | inr off ↦ ground arith
  ]

  scan_heap_loop-Fair :
      (k blkno : ℕ) (r : SkipRange) (b : ℕ)
      → InRange blkno r
      → blkno ≤ b
      → b < blkno + k
      → Fair b (scan_heap_loop v k blkno r)
  unfolding scan_heap_loop
  scan_heap_loop-Fair zero blkno r b range low high = absurd (omega arith)
  scan_heap_loop-Fair (suc k) blkno r b range low high = elim (Bool-cases (b == blkno)) [
    | inl e ↦
        Fair-elim (blkno == r.next_unskippable_block) b _ _ (λ _. ground arith)
          (λ apart.
            Fair-if r.skipping_current_range b _ _
              (λ on.
                let here : blkno ≡ b = ground arith in
                let may = range.1 blkno (omega arith) (ground (arith, range.0)) in
                let done = passed k blkno r (may.1 on) in
                subst (λ c. Fair c (scan_heap_loop v k (blkno + 1) r)) here
                  (ground (arith, may.0, done)))
              (λ _. ground arith))
    | inr e ↦
        Fair-elim (blkno == r.next_unskippable_block) b _ _
          (λ _.
            let ih =
              scan_heap_loop-Fair k (blkno + 1) (lazy_scan_skip v (blkno + 1) r.skippedallvis) b
                (lazy_scan_skip-InRange (blkno + 1) r.skippedallvis) (ground arith) (omega arith) in
            ground (arith, ih))
          (λ apart.
            let ih =
              scan_heap_loop-Fair k (blkno + 1) r b (later-InRange blkno r range apart)
                (ground arith) (omega arith) in
            Fair-if r.skipping_current_range b _ _ (λ _. ih) (λ _. ground (arith, ih)))
  ]

  -- What vacuum does not read it may skip: each block of the relation is either read by the loop of lazy_scan_heap,
  -- or the visibility map calls it all-visible, it is not the last, page skipping is not disabled, and it is all-frozen or
  -- else the vacuum is not aggressive and skippedallvis is set in the end.
  pub lazy_scan_heap-fair :
      (b : ℕ)
      → b < v.rel_pages
      → (any (λ p. b == p.0) (lazy_scan_heap v).0
          || (v.all_visible b
              && (not (b == v.rel_pages - 1)
                  && (v.skipwithvm
                      && (v.all_frozen b || (not v.aggressive && (lazy_scan_heap v).1))))))
        ≡ true
  unfolding lazy_scan_heap
  lazy_scan_heap-fair b low =
      let fair =
        scan_heap_loop-Fair v.rel_pages 0 (lazy_scan_skip v 0 false) b
          (lazy_scan_skip-InRange 0 false) (omega arith) (omega arith) in
      ground (arith, fair)
