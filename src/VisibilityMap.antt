-- ===== src/VisibilityMap.antt =====
-- The visibility map, src/access/pg_tde_visibilitymap.c: two bits for each heap page, all-visible
-- and all-frozen, in a fork of pages of its own.
pub mod Blocks
pub mod Bytes
pub mod Truncate
use pg_tde.Base.{
  ℕ, ◌+◌, ◌-◌, ◌*◌, ◌/◌, ◌%◌, ◌^◌, bit_and, bit_or, Bool, true, false, ◌&&◌, ◌||◌, not, Option,
  none, some, List, [], ◌∷◌, ◌++◌, if◌then◌else◌, ltb, leb, ◌==◌, u8,
}

abbrev pub mapsize : ℕ
mapsize = 8192 - 24

abbrev pub heapblocks_per_byte : ℕ
heapblocks_per_byte = 4

abbrev pub heapblocks_per_page : ℕ
heapblocks_per_page = mapsize * heapblocks_per_byte

abbrev pub heapblk_to_mapblock : ℕ → ℕ
heapblk_to_mapblock x = x / heapblocks_per_page

abbrev pub heapblk_to_mapbyte : ℕ → ℕ
heapblk_to_mapbyte x = x % heapblocks_per_page / heapblocks_per_byte

abbrev pub heapblk_to_offset : ℕ → ℕ
heapblk_to_offset x = x % heapblocks_per_byte * 2

-- A buffer is the number of the block it holds; `InvalidBuffer` is none.
abbrev pub Buffer : Type 0
Buffer = Option ℕ

-- `is_new` is `PageIsNew`; `map` is what `PageGetContents` points to.
pub record Page : Type 0 where
  pub is_new : Bool
  pub lsn : ℕ
  pub map : ℕ → ℕ

pub data WalRecord : Type 0 where
  visible : (horizon flags vm_block heap_block : ℕ) (heap_image : Bool) → WalRecord
  new_page : (vm_block : ℕ) → WalRecord

-- The fork on disk and in shared buffers, the size that the relation's smgr entry caches, the LSNs
-- of the heap's pages and whether they are marked as all-visible, and the log.
pub record Fork : Type 0 where
  pub smgr_exists : Bool
  pub smgr_nblocks : ℕ
  pub cached_nblocks : Option ℕ
  pub page : ℕ → Page
  pub heap_lsn : ℕ → ℕ
  pub heap_all_visible : ℕ → Bool
  pub wal : List WalRecord

-- What the server provides: its settings, the LSN of a record that is inserted (from the log with
-- it), `PageInit`, and `ExtendBufferedRelTo`, which makes the fork at least so many blocks long.
pub record Server : Type 0 where
  pub needs_wal : Bool
  pub catalog_rel : Bool
  pub hint_bit_needed : Bool
  pub in_recovery : Bool
  pub lsn_of : List WalRecord → ℕ
  pub page_init : Page → Page
  pub extend_to : ℕ → Fork → Fork

-- `pages[blk] = p`
unfoldable pub put_page : ℕ → Page → Fork → Fork
put_page blk p f = record f { page = λ b. if b == blk then p else f.page b }

-- `PageSetLSN` of a map page
unfoldable pub set_lsn : ℕ → ℕ → Fork → Fork
set_lsn blk lsn f = put_page blk (record (f.page blk) { lsn = lsn }) f

-- `bytes[at] = v`
unfoldable pub put_byte : ℕ → ℕ → (ℕ → ℕ) → ℕ → ℕ
put_byte at v bytes i = if i == at then v else bytes i

-- `(byte >> offset) & VISIBILITYMAP_VALID_BITS`; sign extension of the byte does not reach the two
-- bits that are kept, since `offset` is at most 6.
abbrev pub bits_of : ℕ → ℕ → ℕ
bits_of offset byte = bit_and (byte / 2 ^ offset) 3

-- `byte |= flags << offset`
abbrev pub with_bits : ℕ → ℕ → ℕ → ℕ
with_bits offset flags byte = u8 (bit_or byte (flags * 2 ^ offset))

-- `uint8 mask = flags << offset`
abbrev pub mask_of : ℕ → ℕ → ℕ
mask_of offset flags = u8 (flags * 2 ^ offset)

-- `byte &= ~mask`
abbrev pub without : ℕ → ℕ → ℕ
without mask byte = bit_and byte (255 - mask)

-- `byte &= (1 << offset) - 1`
abbrev pub below : ℕ → ℕ → ℕ
below offset byte = bit_and byte (2 ^ offset - 1)

abbrev pub holds : Buffer → ℕ → Bool
holds none blk = false
holds (some b) blk = b == blk

abbrev pub status : Fork → ℕ → ℕ
status f heap_blk =
    bits_of (heapblk_to_offset heap_blk)
      ((f.page (heapblk_to_mapblock heap_blk)).map (heapblk_to_mapbyte heap_blk))

-- `pg_tde_visibilitymap_clear`; none is `elog(ERROR)`.
unfoldable pub pg_tde_visibilitymap_clear : ℕ → Buffer → ℕ → Fork → Option (Bool × Fork)
pg_tde_visibilitymap_clear heap_blk vmbuf flags f =
    let map_block = heapblk_to_mapblock heap_blk in
    let map_byte = heapblk_to_mapbyte heap_blk in
    let mask = mask_of (heapblk_to_offset heap_blk) flags in
    let page = f.page map_block in
    if not (holds vmbuf map_block)
    then none
    else if bit_and (page.map map_byte) mask == 0
    then some (false, f)
    else some (
      true,
      put_page map_block
          (record page { map = put_byte map_byte (without mask (page.map map_byte)) page.map }) f,
    )

-- `pg_tde_visibilitymap_pin_ok`
unfoldable pub pg_tde_visibilitymap_pin_ok : ℕ → Buffer → Bool
pg_tde_visibilitymap_pin_ok heap_blk vmbuf = holds vmbuf (heapblk_to_mapblock heap_blk)

-- The cached size, looked up when it is not known.
unfoldable pub nblocks_from : Option ℕ → Fork → ℕ × Fork
nblocks_from (some n) f = (n, f)
nblocks_from none f =
    let n = if f.smgr_exists then f.smgr_nblocks else 0 in (n, record f { cached_nblocks = some n })

unfoldable pub load_nblocks : Fork → ℕ × Fork
load_nblocks f = nblocks_from f.cached_nblocks f

-- `map` of the last page that remains, with the bits of the truncated heap pages cleared
unfoldable pub truncate_page : ℕ → Page → Page
truncate_page nheapblocks page =
    let trunc_byte = heapblk_to_mapbyte nheapblocks in
    let trunc_offset = heapblk_to_offset nheapblocks in
    let zeroed = λ (i : ℕ). if ltb trunc_byte i && ltb i mapsize then 0 else page.map i in
    record page { map = put_byte trunc_byte (below trunc_offset (zeroed trunc_byte)) zeroed }

-- The new number of blocks, or none, when the fork is no longer than that.
unfoldable pub shorter : ℕ → Fork → Option ℕ × Fork
shorter newnblocks f = (if leb f.smgr_nblocks newnblocks then none else some newnblocks, f)

module _ (server : Server) where
  -- `log_pg_tde_visible` of src/access/pg_tdeam.c: the LSN and the log with the record.
  unfoldable pub log_pg_tde_visible : ℕ → ℕ → ℕ → ℕ → Fork → ℕ × Fork
  log_pg_tde_visible heap_blk map_block horizon vmflags f =
      let flags = if server.catalog_rel then bit_or vmflags 4 else vmflags in
      let wal = f.wal ++ (visible horizon flags map_block heap_blk server.hint_bit_needed ∷ []) in
      (server.lsn_of wal, record f { wal = wal })

  -- The heap page's LSN moves too, when pages have checksums.
  unfoldable pub protect_heap : ℕ → ℕ → Fork → Fork
  protect_heap heap_blk lsn f =
      if server.hint_bit_needed
      then record f { heap_lsn = λ b. if b == heap_blk then lsn else f.heap_lsn b }
      else f

  -- The log and the LSNs, once `pg_tde_visibilitymap_set` has changed the byte. `recptr` is 0,
  -- `InvalidXLogRecPtr`, unless a record is replayed.
  unfoldable pub set_logged : ℕ → ℕ → ℕ → ℕ → Fork → Fork
  set_logged heap_blk recptr horizon flags f =
      let map_block = heapblk_to_mapblock heap_blk in
      let logged = log_pg_tde_visible heap_blk map_block horizon flags f in
      if not server.needs_wal
      then f
      else if not (recptr == 0)
      then set_lsn map_block recptr f
      else set_lsn map_block logged.0 (protect_heap heap_blk logged.0 logged.1)

  -- The asserts of `pg_tde_visibilitymap_set` on entry.
  abbrev pub set_asserted : ℕ → Buffer → ℕ → ℕ → Fork → Bool
  set_asserted heap_blk heap_buf recptr flags f =
      (server.in_recovery || recptr == 0)
      && ((server.in_recovery || (holds heap_buf heap_blk && f.heap_all_visible heap_blk))
          && ((bit_and flags 3 == flags) && not (flags == 2)))

  -- `pg_tde_visibilitymap_set`; none is an `elog(ERROR)` or an assert that fails.
  unfoldable pub pg_tde_visibilitymap_set : ℕ → Buffer → ℕ → Buffer → ℕ → ℕ → Fork → Option Fork
  pg_tde_visibilitymap_set heap_blk heap_buf recptr vm_buf cutoff_xid flags f =
      let map_block = heapblk_to_mapblock heap_blk in
      let map_byte = heapblk_to_mapbyte heap_blk in
      let map_offset = heapblk_to_offset heap_blk in
      let page = f.page map_block in
      let byte = page.map map_byte in
      let wrong_heap : Bool = elim heap_buf [ none ↦ false | some b ↦ not (b == heap_blk) ] in
      if not (set_asserted heap_blk heap_buf recptr flags f)
      then none
      else if wrong_heap || not (holds vm_buf map_block)
      then none
      else if flags == bits_of map_offset byte
      then some f
      else if server.needs_wal && (recptr == 0 && server.in_recovery)
      then none
      else some (
          set_logged heap_blk recptr cutoff_xid flags (
            put_page map_block
              (record page { map = put_byte map_byte (with_bits map_offset flags byte) page.map })
              f))

  -- A page that was never written is initialised.
  unfoldable pub init_page : ℕ → Fork → Fork
  init_page blkno f =
      if (f.page blkno).is_new then put_page blkno (server.page_init (f.page blkno)) f else f

  -- `vm_readbuf`, with `vm_extend`
  unfoldable pub vm_readbuf : ℕ → Bool → Fork → Buffer × Fork
  vm_readbuf blkno extend f =
      let loaded = load_nblocks f in
      if leb loaded.0 blkno
      then if extend
        then (some blkno, init_page blkno (server.extend_to (blkno + 1) loaded.1))
        else (none, loaded.1)
      else (some blkno, init_page blkno loaded.1)

  -- `pg_tde_visibilitymap_pin`
  unfoldable pub pg_tde_visibilitymap_pin : ℕ → Buffer → Fork → Buffer × Fork
  pg_tde_visibilitymap_pin heap_blk vmbuf f =
      let map_block = heapblk_to_mapblock heap_blk in
      if holds vmbuf map_block then (vmbuf, f) else vm_readbuf map_block true f

  -- `pg_tde_visibilitymap_get_status`, with the buffer that it leaves in `*vmbuf`
  unfoldable pub pg_tde_visibilitymap_get_status : ℕ → Buffer → Fork → ℕ × (Buffer × Fork)
  pg_tde_visibilitymap_get_status heap_blk vmbuf f =
      let map_block = heapblk_to_mapblock heap_blk in
      if holds vmbuf map_block
      then (status f heap_blk, (vmbuf, f))
      else let r = vm_readbuf map_block false f in
        elim r.0 [ none ↦ (0, (none, r.1)) | some b ↦ (status r.1 heap_blk, (some b, r.1)) ]

  -- With checksums, the page that is cut is logged whole.
  unfoldable pub log_cut : ℕ → Fork → Fork
  log_cut blk f =
      if not server.in_recovery && (server.needs_wal && server.hint_bit_needed)
      then record f { wal = f.wal ++ (new_page blk ∷ []) }
      else f

  -- The last page, as it was read, is cut.
  unfoldable pub cut_last : ℕ → ℕ → Buffer × Fork → Option ℕ × Fork
  cut_last nheapblocks blk (none, f) = (none, f)
  cut_last nheapblocks blk (some b, f) =
      shorter (blk + 1) (log_cut blk (put_page blk (truncate_page nheapblocks (f.page blk)) f))

  -- `pg_tde_visibilitymap_prepare_truncate`
  unfoldable pub pg_tde_visibilitymap_prepare_truncate : ℕ → Fork → Option ℕ × Fork
  pg_tde_visibilitymap_prepare_truncate nheapblocks f =
      let trunc_block = heapblk_to_mapblock nheapblocks in
      if not f.smgr_exists
      then (none, f)
      else if heapblk_to_mapbyte nheapblocks == 0 && heapblk_to_offset nheapblocks == 0
      then shorter trunc_block f
      else cut_last nheapblocks trunc_block (vm_readbuf trunc_block false f)
