-- ===== src/VisibilityMap/Truncate.antt =====
-- Truncation of the visibility map.
use pg_tde.Base.{
  ℕ, zero, suc, ◌+◌, ◌-◌, ◌*◌, ◌/◌, ◌%◌, ◌<◌, ◌≡◌, ◌≢◌, refl, ◌∙◌, sym, ap, ap₂, ◌⊎◌, inl, inr,
  true, false, ◌&&◌, not, none, some, arith, if◌then◌else◌, ltb, leb, ◌==◌, Bool-cases, nlt→ltb,
  lt→ltb, ◌≤◌,
}
use pg_tde.VisibilityMap.{
  Page, Fork, Server, put_page, put_byte, bits_of, status, mapsize, heapblk_to_mapblock,
  heapblocks_per_page, heapblk_to_mapbyte, heapblk_to_offset, pg_tde_visibilitymap_prepare_truncate,
  shorter, truncate_page, vm_readbuf, log_cut, cut_last, load_nblocks, nblocks_from, init_page,
}
use pg_tde.VisibilityMap.Blocks.{IsBytes}
use pg_tde.VisibilityMap.Bytes.{bits_of-below}

-- The bits of heap page `x` in page `p` of the map.
abbrev page_status : Page → ℕ → ℕ
page_status p x = bits_of (heapblk_to_offset x) (p.map (heapblk_to_mapbyte x))

zero_bits : (k : ℕ) → k < 4 → bits_of (k * 2) 0 ≡ 0
zero_bits zero h = refl
zero_bits (suc zero) h = refl
zero_bits (suc (suc zero)) h = refl
zero_bits (suc (suc (suc zero))) h = refl
zero_bits (suc (suc (suc (suc k)))) h = absurd (omega arith)

module _ (n x : ℕ) (same : heapblk_to_mapblock x ≡ heapblk_to_mapblock n) where
  ltb-pair : heapblk_to_mapbyte x ≡ heapblk_to_mapbyte n → ltb (x % 4) (n % 4) ≡ ltb x n
  ltb-pair eq = elim (Bool-cases (ltb x n)) [
    | inl less ↦ rw (less) (lt→ltb _ _ (let h : x < n = ground (arith, less) in omega arith))
    | inr more ↦ rw (more) (nlt→ltb _ _ (let h : n ≤ x = ground (arith, more) in omega arith))
  ]

  ltb-above : ltb (heapblk_to_mapbyte n) (heapblk_to_mapbyte x) ≡ true → ltb x n ≡ false
  ltb-above above =
      let h : heapblk_to_mapbyte n < heapblk_to_mapbyte x = ground (arith, above) in
      nlt→ltb _ _ (omega arith)

  ltb-under :
      (heapblk_to_mapbyte x == heapblk_to_mapbyte n) ≡ false
      → ltb (heapblk_to_mapbyte n) (heapblk_to_mapbyte x) ≡ false
      → ltb x n ≡ true
  ltb-under other under =
      let h : heapblk_to_mapbyte x < heapblk_to_mapbyte n = ground (arith, other, under) in
      lt→ltb _ _ (omega arith)

-- In the page that is cut, the bits of the heap pages below `n` stay and all others are clear.
page_status-truncate_page :
    (n x : ℕ) (p : Page)
    → ((i : ℕ) → p.map i < 256)
    → heapblk_to_mapblock x ≡ heapblk_to_mapblock n
    → page_status (truncate_page n p) x ≡ (if ltb x n then page_status p x else 0)
unfolding truncate_page put_byte
page_status-truncate_page n x p bytes same =
    let b = heapblk_to_mapbyte n in
    elim (Bool-cases (heapblk_to_mapbyte x == b)) [
      | inl here ↦
          let eq : heapblk_to_mapbyte x ≡ b = ground (arith, here) in
          let self : ltb b b ≡ false = ground arith in
          let order : ltb (x % 4) (n % 4) ≡ ltb x n = ltb-pair n x same eq in
          rw (truncate_page, put_byte, here, self)
            (bits_of-below (n % 4) (x % 4) (p.map b) (omega arith) (omega arith) (bytes b)
              ∙ rw (order)
                  (ap (λ i. if ltb x n then bits_of (x % 4 * 2) (p.map i) else 0) (sym eq)))
      | inr other ↦ elim (Bool-cases (ltb b (heapblk_to_mapbyte x))) [
        | inl above ↦
            let inside : ltb (heapblk_to_mapbyte x) mapsize ≡ true = lt→ltb _ _ (omega arith) in
            let order : ltb x n ≡ false = ltb-above n x same above in
            rw (truncate_page, put_byte, other, above, inside, order)
              (zero_bits (x % 4) (omega arith))
        | inr under ↦
            let order : ltb x n ≡ true = ltb-under n x same other under in
            rw (truncate_page, put_byte, other, under, order)
      ]
    ]

-- The blocks of the map that `n` heap pages need.
abbrev pub blocks_for : ℕ → ℕ
blocks_for n = (n + (heapblocks_per_page - 1)) / heapblocks_per_page

blocks_for-aligned :
    (n : ℕ)
    → (heapblk_to_mapbyte n == 0 && heapblk_to_offset n == 0) ≡ true
    → heapblk_to_mapblock n ≡ blocks_for n
blocks_for-aligned n e =
    let h : heapblk_to_mapbyte n ≡ 0 = ground (arith, e) in
    let h2 : heapblk_to_offset n ≡ 0 = ground (arith, e) in omega arith

below-aligned :
    (n x : ℕ)
    → (heapblk_to_mapbyte n == 0 && heapblk_to_offset n == 0) ≡ true
    → heapblk_to_mapblock x < blocks_for n
    → x < n
below-aligned n x e remains =
    let h : heapblk_to_mapbyte n ≡ 0 = ground (arith, e) in
    let h2 : heapblk_to_offset n ≡ 0 = ground (arith, e) in omega arith

blocks_for-cut :
    (n : ℕ)
    → (heapblk_to_mapbyte n == 0 && heapblk_to_offset n == 0) ≡ false
    → heapblk_to_mapblock n + 1 ≡ blocks_for n
blocks_for-cut n e =
    let h : (heapblk_to_mapbyte n ≢ 0) ⊎ (heapblk_to_offset n ≢ 0) = ground (arith, e) in
    omega arith

module _ (server : Server) (n nblocks : ℕ) (f : Fork) where
  -- A page that is known to be in the fork, and is not new, is read as it is.
  load_nblocks-cached : f.cached_nblocks ≡ some nblocks → load_nblocks f ≡ (nblocks, f)
  unfolding load_nblocks nblocks_from
  load_nblocks-cached cached = ap (λ o. nblocks_from o f) cached

  init_page-old : (blk : ℕ) → (f.page blk).is_new ≡ false → init_page server blk f ≡ f
  unfolding init_page
  init_page-old blk old =
      ap (λ b. if b then put_page blk (server.page_init (f.page blk)) f else f) old

  vm_readbuf-inside :
      (blk : ℕ)
      → f.cached_nblocks ≡ some nblocks
      → blk < nblocks
      → (f.page blk).is_new ≡ false
      → vm_readbuf server blk false f ≡ (some blk, f)
  unfolding vm_readbuf
  vm_readbuf-inside blk cached inside old =
      let test : leb nblocks blk ≡ false = ground arith in
      rw (vm_readbuf, load_nblocks-cached cached, test, init_page-old blk old)

  status-cut :
      (x : ℕ)
      → IsBytes f
      → heapblk_to_mapblock x < blocks_for n
      → let m = heapblk_to_mapblock n in
        status (put_page m (truncate_page n (f.page m)) f) x ≡ (if ltb x n then status f x else 0)
  unfolding put_page
  status-cut x bytes remains = elim (Bool-cases (heapblk_to_mapblock x == heapblk_to_mapblock n)) [
    | inl here ↦
        let eq : heapblk_to_mapblock x ≡ heapblk_to_mapblock n = ground (arith, here) in
        rw (put_page, here)
          (page_status-truncate_page n x (f.page (heapblk_to_mapblock n))
              (bytes (heapblk_to_mapblock n)) eq
            ∙ ap (λ b. if ltb x n then page_status (f.page b) x else 0) (sym eq))
    | inr other ↦
        let apart : heapblk_to_mapblock x ≢ heapblk_to_mapblock n = ground (arith, other) in
        let order : ltb x n ≡ true = lt→ltb _ _ (omega arith) in rw (put_page, other, order)
  ]

  status-log_cut : (blk x : ℕ) (g : Fork) → status (log_cut server blk g) x ≡ status g x
  unfolding log_cut
  status-log_cut blk x g =
      elim (Bool-cases (not server.in_recovery && (server.needs_wal && server.hint_bit_needed))) [
        | inl logs ↦ rw (log_cut, logs)
        | inr quiet ↦ rw (log_cut, quiet)
      ]

  nblocks-log_cut : (blk : ℕ) (g : Fork) → (log_cut server blk g).smgr_nblocks ≡ g.smgr_nblocks
  unfolding log_cut
  nblocks-log_cut blk g =
      elim (Bool-cases (not server.in_recovery && (server.needs_wal && server.hint_bit_needed))) [
        | inl logs ↦ rw (log_cut, logs)
        | inr quiet ↦ rw (log_cut, quiet)
      ]

  prepare_truncate-aligned :
      f.smgr_exists ≡ true
      → (heapblk_to_mapbyte n == 0 && heapblk_to_offset n == 0) ≡ true
      → pg_tde_visibilitymap_prepare_truncate server n f ≡ shorter (heapblk_to_mapblock n) f
  unfolding pg_tde_visibilitymap_prepare_truncate
  prepare_truncate-aligned there aligned =
      let m = heapblk_to_mapblock n in
      ap₂
        (λ e c.
          if not e
          then (none, f)
          else if c
          then shorter m f
          else cut_last server n m (vm_readbuf server m false f))
        there aligned

  prepare_truncate-cut :
      f.smgr_exists ≡ true
      → (heapblk_to_mapbyte n == 0 && heapblk_to_offset n == 0) ≡ false
      → let m = heapblk_to_mapblock n in
        vm_readbuf server m false f ≡ (some m, f)
        → pg_tde_visibilitymap_prepare_truncate server n f
          ≡ shorter (m + 1) (log_cut server m (put_page m (truncate_page n (f.page m)) f))
  unfolding pg_tde_visibilitymap_prepare_truncate cut_last
  prepare_truncate-cut there cut reads =
      let m = heapblk_to_mapblock n in
      ap₂
        (λ e c.
          if not e
          then (none, f)
          else if c
          then shorter m f
          else cut_last server n m (vm_readbuf server m false f))
        there cut
      ∙ ap (cut_last server n m) reads

  -- Truncation to `n` heap pages, of a map whose bytes are below 256, whose size is cached, and that
  -- has the page with the first cut one, not as a new page: in the blocks of the map that remain, the bits of the heap pages below `n` are
  -- as before and all others are clear; the call returns the number of those blocks, or none when the
  -- file is no longer than that.
  pub pg_tde_visibilitymap_prepare_truncate_lem :
      IsBytes f
      → f.smgr_exists ≡ true
      → f.cached_nblocks ≡ some nblocks
      → heapblk_to_mapblock n < nblocks
      → (f.page (heapblk_to_mapblock n)).is_new ≡ false
      → let r = pg_tde_visibilitymap_prepare_truncate server n f in
        (r.0 ≡ (if leb f.smgr_nblocks (blocks_for n) then none else some (blocks_for n)))
        × ((x : ℕ)
            → heapblk_to_mapblock x < blocks_for n
            → status r.1 x ≡ (if ltb x n then status f x else 0))
  unfolding shorter put_page
  pg_tde_visibilitymap_prepare_truncate_lem bytes there cached inside old =
      let m = heapblk_to_mapblock n in
      elim (Bool-cases (heapblk_to_mapbyte n == 0 && heapblk_to_offset n == 0)) [
        | inl aligned ↦
            let size : m ≡ blocks_for n = blocks_for-aligned n aligned in
            let e = prepare_truncate-aligned there aligned in
            (
              ap (λ r. r.0) e ∙ ap (λ k. if leb f.smgr_nblocks k then none else some k) size,
              λ x remains.
                  ap (λ r. status r.1 x) e
                  ∙ (let order : ltb x n ≡ true = lt→ltb _ _ (below-aligned n x aligned remains) in
                      rw order),
            )
        | inr cut ↦
            let size : m + 1 ≡ blocks_for n = blocks_for-cut n cut in
            let g = put_page m (truncate_page n (f.page m)) f in
            let e = prepare_truncate-cut there cut (vm_readbuf-inside m cached inside old) in
            (
              ap (λ r. r.0) e
                  ∙ ap₂ (λ b k. if leb b k then none else some k) (nblocks-log_cut m g) size,
              λ x remains.
                  ap (λ r. status r.1 x) e ∙ status-log_cut m x g ∙ status-cut x bytes remains,
            )
      ]
