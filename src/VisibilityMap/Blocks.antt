-- ===== src/VisibilityMap/Blocks.antt =====
-- What the operations of the visibility map do to the bits of every heap page.
use pg_tde.Base.{
  ℕ, ◌-◌, ◌*◌, ◌%◌, ◌<◌, ◌≡◌, refl, ◌∙◌, sym, ap, ap₂, bit_and, bit_or, inl, inr, Bool, true, false,
  ◌&&◌, ◌||◌, not, ◌≢◌, zero, suc, some, arith, if◌then◌else◌, ◌==◌, Bool-cases,
}
use pg_tde.VisibilityMap.{
  Fork, Server, put_page, put_byte, bits_of, with_bits, mask_of, without, status,
  heapblk_to_mapblock, heapblk_to_mapbyte, heapblk_to_offset, pg_tde_visibilitymap_clear,
  pg_tde_visibilitymap_set, set_asserted, set_logged, set_lsn, protect_heap, log_pg_tde_visible,
}
use pg_tde.VisibilityMap.Bytes.{bits_of-with_bits, bits_of-without, bits_of-unmet, bits_of-same}

abbrev pub IsBytes : Fork → Type 0
IsBytes f = (blk i : ℕ) → (f.page blk).map i < 256

-- The byte that holds the bits of a heap page.
abbrev byte_of : Fork → ℕ → ℕ
byte_of f h = (f.page (heapblk_to_mapblock h)).map (heapblk_to_mapbyte h)

-- The fork once that byte is `v`.
abbrev updated : Fork → ℕ → ℕ → Fork
updated f h v =
    let page = f.page (heapblk_to_mapblock h) in
    put_page (heapblk_to_mapblock h)
      (record page { map = put_byte (heapblk_to_mapbyte h) v page.map }) f

page-update :
    (f : Fork) (h v blk i : ℕ)
    → ((updated f h v).page blk).map i ≡ (
        if (blk == heapblk_to_mapblock h) && (i == heapblk_to_mapbyte h)
        then v
        else (f.page blk).map i)
unfolding put_page put_byte
page-update f h v blk i = elim (Bool-cases (blk == heapblk_to_mapblock h)) [
  | inr other ↦ rw (put_page, other)
  | inl here ↦
      let eq : blk ≡ heapblk_to_mapblock h = ground (arith, here) in
      elim (Bool-cases (i == heapblk_to_mapbyte h)) [
        | inl at ↦ rw (put_page, put_byte, here, at)
        | inr at ↦ rw (put_page, put_byte, here, at) (ap (λ b. (f.page b).map i) (sym eq))
      ]
]

-- Two heap pages with the same block, byte and pair are the same page.
place-injective :
    (x h : ℕ)
    → heapblk_to_mapblock x ≡ heapblk_to_mapblock h
    → heapblk_to_mapbyte x ≡ heapblk_to_mapbyte h
    → x % 4 ≡ h % 4
    → x ≡ h
place-injective x h e1 e2 e3 = omega arith

-- Whether the byte of `h` is the byte of `x`.
abbrev shares_byte : ℕ → ℕ → Bool
shares_byte h x =
    (heapblk_to_mapblock x == heapblk_to_mapblock h)
    && (heapblk_to_mapbyte x == heapblk_to_mapbyte h)

shares_byte-block :
    (h x : ℕ) → shares_byte h x ≡ true → heapblk_to_mapblock x ≡ heapblk_to_mapblock h
shares_byte-block h x e = ground (arith, e)

shares_byte-byte : (h x : ℕ) → shares_byte h x ≡ true → heapblk_to_mapbyte x ≡ heapblk_to_mapbyte h
shares_byte-byte h x e = ground (arith, e)

shares_byte-apart : (h x : ℕ) → shares_byte h x ≡ false → (x == h) ≡ false
shares_byte-apart h x e = ground (arith, e)

module _ (f : Fork) (h v r : ℕ) (own : bits_of (h % 4 * 2) v ≡ r)
    (others : (j : ℕ)
      → j < 4
      → (j == h % 4) ≡ false
      → bits_of (j * 2) v ≡ bits_of (j * 2) (byte_of f h)) where
  status-shared :
      (x : ℕ) → shares_byte h x ≡ true → bits_of (x % 4 * 2) v ≡ (if x == h then r else status f x)
  status-shared x shared = elim (Bool-cases (x == h)) [
    | inl same ↦ let eq : x ≡ h = ground (arith, same) in rw (same, eq) own
    | inr differs ↦
        let e1 = shares_byte-block h x shared in
        let e2 = shares_byte-byte h x shared in
        let apart : (x % 4 == h % 4) ≡ false = ground (arith, differs, place-injective x h e1 e2) in
        others (x % 4) (omega arith) apart
        ∙ rw (differs) (ap₂ (λ b i. bits_of (x % 4 * 2) ((f.page b).map i)) (sym e1) (sym e2))
  ]

  status-update : (x : ℕ) → status (updated f h v) x ≡ (if x == h then r else status f x)
  status-update x =
      ap (λ byte. bits_of (x % 4 * 2) byte)
        (page-update f h v (heapblk_to_mapblock x) (heapblk_to_mapbyte x))
      ∙ elim (Bool-cases (shares_byte h x)) [
        | inl shared ↦ rw (shared) (status-shared x shared)
        | inr apart ↦ let differs = shares_byte-apart h x apart in rw (apart, differs)
      ]

-- The log and the LSNs do not touch the bits.
status-set_lsn : (f : Fork) (blk lsn x : ℕ) → status (set_lsn blk lsn f) x ≡ status f x
unfolding set_lsn put_page
status-set_lsn f blk lsn x = elim (Bool-cases (heapblk_to_mapblock x == blk)) [
  | inl here ↦
      let eq : heapblk_to_mapblock x ≡ blk = ground (arith, here) in
      rw (set_lsn, put_page, here)
        (ap (λ b. bits_of (heapblk_to_offset x) ((f.page b).map (heapblk_to_mapbyte x))) (sym eq))
  | inr other ↦ rw (set_lsn, put_page, other)
]

status-protect_heap :
    (server : Server) (h lsn : ℕ) (f : Fork) (x : ℕ)
    → status (protect_heap server h lsn f) x ≡ status f x
unfolding protect_heap
status-protect_heap server h lsn f x = elim (Bool-cases server.hint_bit_needed) [
  | inl hint ↦ rw (protect_heap, hint)
  | inr hint ↦ rw (protect_heap, hint)
]

status-set_logged :
    (server : Server) (h recptr horizon flags : ℕ) (f : Fork) (x : ℕ)
    → status (set_logged server h recptr horizon flags f) x ≡ status f x
unfolding set_logged log_pg_tde_visible protect_heap
status-set_logged server h recptr horizon flags f x =
    let logged = log_pg_tde_visible server h (heapblk_to_mapblock h) horizon flags f in
    elim (Bool-cases server.needs_wal) [
      | inr unlogged ↦ rw (set_logged, unlogged)
      | inl wal ↦ elim (Bool-cases (recptr == 0)) [
        | inr replay ↦
            rw (set_logged, wal, replay) (status-set_lsn f (heapblk_to_mapblock h) recptr x)
        | inl normal ↦
            rw (set_logged, wal, normal)
              (status-set_lsn (protect_heap server h logged.0 logged.1) (heapblk_to_mapblock h)
                  logged.0 x
                ∙ status-protect_heap server h logged.0 logged.1 x)
      ]
    ]

status-same :
    (f : Fork) (h r : ℕ)
    → status f h ≡ r
    → (x : ℕ) → status f x ≡ (if x == h then r else status f x)
status-same f h r e x = elim (Bool-cases (x == h)) [
  | inl same ↦ let eq : x ≡ h = ground (arith, same) in rw (same, eq) e
  | inr differs ↦ rw differs
]

holds_self : (n : ℕ) → (n == n) ≡ true
holds_self n = ground arith

-- In a map whose bytes are below 256, with the right buffer and flags below 4: clearing flags for a
-- heap page never fails, takes them from its bits, whether the call reports a change or not,
-- and leaves the bits of every other heap page as they are.
pub pg_tde_visibilitymap_clear_lem :
    (h flags : ℕ) (f : Fork)
    → IsBytes f
    → flags < 4
    → (cleared : Bool) × (f' : Fork) × (pg_tde_visibilitymap_clear h
          (some (heapblk_to_mapblock h))
          flags
          f
        ≡ some (cleared, f'))
      × ((x : ℕ) → status f' x ≡ (if x == h then bit_and (status f h) (3 - flags) else status f x))
unfolding pg_tde_visibilitymap_clear
pg_tde_visibilitymap_clear_lem h flags f bytes small =
    elim (Bool-cases (bit_and (byte_of f h) (mask_of (heapblk_to_offset h) flags) == 0)) [
      | inl unmet ↦ (
        false,
        f,
        rw (pg_tde_visibilitymap_clear, holds_self (heapblk_to_mapblock h), unmet),
        status-same f h _
            (bits_of-unmet (h % 4) flags (byte_of f h) (omega arith) small (bytes _ _) unmet),
      )
      | inr met ↦ (
        true,
        updated f h (without (mask_of (heapblk_to_offset h) flags) (byte_of f h)),
        rw (pg_tde_visibilitymap_clear, holds_self (heapblk_to_mapblock h), met),
        status-update f h (without (mask_of (heapblk_to_offset h) flags) (byte_of f h)) _
            (let self : (h % 4 == h % 4) ≡ true = ground arith in
              bits_of-without (h % 4) (h % 4) flags (byte_of f h) (omega arith) (omega arith) small
                (bytes _ _)
              ∙ rw (self) refl)
            (λ j jlt apart.
              bits_of-without (h % 4) j flags (byte_of f h) (omega arith) jlt small (bytes _ _)
              ∙ rw (apart) refl),
      )
    ]

valid_flags :
    (flags : ℕ) → flags < 4 → flags ≢ 2 → ((bit_and flags 3 == flags) && not (flags == 2)) ≡ true
valid_flags zero small known = refl
valid_flags (suc zero) small known = refl
valid_flags (suc (suc zero)) small known = absurd (known refl)
valid_flags (suc (suc (suc zero))) small known = refl
valid_flags (suc (suc (suc (suc n)))) small known = absurd (omega arith)

set_asserted-holds :
    (server : Server) (h recptr flags : ℕ) (f : Fork)
    → flags < 4
    → flags ≢ 2
    → server.in_recovery ≡ not (recptr == 0)
    → (server.in_recovery || f.heap_all_visible h) ≡ true
    → set_asserted server h (some h) recptr flags f ≡ true
set_asserted-holds server h recptr flags f small known replay marked =
    let held = holds_self h in
    let valid = valid_flags flags small known in ground (arith, held, valid)

not_in_replay :
    (server : Server) (recptr : ℕ)
    → server.in_recovery ≡ not (recptr == 0)
    → (server.needs_wal && (recptr == 0 && server.in_recovery)) ≡ false
not_in_replay server recptr replay = ground arith

-- In a map whose bytes are below 256, with the right buffers, for flags that are not all-frozen alone, with a
-- record's LSN just in recovery, and for a heap page that is marked as all-visible unless in recovery: setting
-- flags adds them to the bits of the page, and leaves the bits of every other heap page as they are; no assert fails and
-- there is no error.
pub pg_tde_visibilitymap_set_lem :
    (server : Server) (h recptr cutoff_xid flags : ℕ) (f : Fork)
    → IsBytes f
    → flags < 4
    → flags ≢ 2
    → server.in_recovery ≡ not (recptr == 0)
    → (server.in_recovery || f.heap_all_visible h) ≡ true
    → (f' : Fork) × (pg_tde_visibilitymap_set server h
          (some h)
          recptr
          (some (heapblk_to_mapblock h))
          cutoff_xid
          flags
          f
        ≡ some f')
      × ((x : ℕ) → status f' x ≡ (if x == h then bit_or (status f h) flags else status f x))
unfolding pg_tde_visibilitymap_set
pg_tde_visibilitymap_set_lem server h recptr cutoff_xid flags f bytes small known replay marked =
    let asserted = set_asserted-holds server h recptr flags f small known replay marked in
    let unreplayed = not_in_replay server recptr replay in
    elim (Bool-cases (flags == status f h)) [
      | inl same ↦ (
        f,
        rw (
          pg_tde_visibilitymap_set,
          asserted,
          holds_self h,
          holds_self (heapblk_to_mapblock h),
          same,
        ),
        status-same f h _
            (sym (bits_of-same (h % 4) flags (byte_of f h) (omega arith) small (bytes _ _) same)),
      )
      | inr differs ↦
          let byte = with_bits (heapblk_to_offset h) flags (byte_of f h) in
          (
            set_logged server h recptr cutoff_xid flags (updated f h byte),
            rw (
              pg_tde_visibilitymap_set,
              asserted,
              holds_self h,
              holds_self (heapblk_to_mapblock h),
              differs,
              unreplayed,
            ),
            λ x.
                status-set_logged server h recptr cutoff_xid flags (updated f h byte) x
                ∙ status-update f h byte _
                    (let self : (h % 4 == h % 4) ≡ true = ground arith in
                      bits_of-with_bits (h % 4) (h % 4) flags (byte_of f h) (omega arith)
                        (omega arith) small (bytes _ _)
                      ∙ rw (self) refl)
                    (λ j jlt apart.
                      bits_of-with_bits (h % 4) j flags (byte_of f h) (omega arith) jlt small
                        (bytes _ _)
                      ∙ rw (apart) refl)
                    x,
          )
    ]
