-- ===== src/Tuple.antt =====
-- Encryption of whole tuples, src/encryption/enc_tuple.c: adding an item to a page, decrypting a
-- tuple, and handing tuples to the executor. The server's page, tuple and slot routines are a
-- parameter.
pub mod Offset
pub mod ReadBack
pub mod Slot
use pg_tde.Base.{
  ℕ, ◌+◌, ◌-◌, ◌*◌, ◌%◌, ◌^◌, Bool, true, false, Option, none, some, List, if◌then◌else◌, u32, u64,
  Ptr, Mem,
}
use pg_tde.Aes.{Platform}
use pg_tde.Crypt.{State, pg_tde_crypt}

-- PostgreSQL's block size, as it is by default.
abbrev pub blcksz : ℕ
blcksz = 8192

-- `HeapTuple`; the header's `t_hoff` is read from memory.
pub record HeapTuple : Type 0 where
  pub t_len : ℕ
  pub t_data : Ptr

-- What the file calls of the server. `page_add_item` is `PageAddItemExtended` (page, item, size,
-- offset number, flags); `copy_tuple` is `heap_copytuple`, into memory of its own.
pub record Server : Type 0 where
  pub page_add_item : Ptr → Ptr → ℕ → ℕ → ℕ → Mem → ℕ × Mem
  pub pd_upper : Ptr → Mem → ℕ
  pub t_hoff : Ptr → Mem → ℕ
  pub copy_tuple : HeapTuple → Mem → HeapTuple × Mem

-- `(bn * BLCKSZ) + offset_in_page`: the product is of 32 bits, the sum of 64.
unfoldable pub offset_in_file : ℕ → ℕ → ℕ
offset_in_file bn offset_in_page = u64 (u32 (bn * blcksz) + offset_in_page)

module _ (pf : Platform) (sv : Server) where
  unfoldable pub pg_tde_crypt_tuple :
      ℕ → Ptr → HeapTuple → HeapTuple → List ℕ → State → Option State
  pg_tde_crypt_tuple bn page tuple out_tuple key s =
      let t_hoff = sv.t_hoff tuple.t_data s.mem in
      let data_len = u32 (tuple.t_len + 2 ^ 32 - t_hoff) in
      let tuple_offset_in_page = u64 (tuple.t_data + 2 ^ 64 - page) in
      let tup_data = tuple.t_data + t_hoff in
      let out_data = out_tuple.t_data + sv.t_hoff out_tuple.t_data s.mem in
      pg_tde_crypt pf (offset_in_file bn tuple_offset_in_page) tup_data data_len out_data key s

  -- The header goes to the page in clear with the item; the data is encrypted over its copy there.
  -- `key` is what `GetRelationKeys` returns.
  unfoldable pub page_add_item_extended :
      ℕ → Ptr → Ptr → ℕ → ℕ → ℕ → List ℕ → State → Option (ℕ × State)
  page_add_item_extended bn page item size offset_number flags key s =
      let added = sv.page_add_item page item size offset_number flags s.mem in
      let header_size = sv.t_hoff item added.1 in
      let upper = sv.pd_upper page added.1 in
      let to_addr = page + upper + header_size in
      let data_len = u32 (size + 2 ^ 32 - header_size) in
      elim (pg_tde_crypt pf (offset_in_file bn upper) (item + header_size) data_len to_addr key
        (record s { mem = added.1 })) [ none ↦ none | some s' ↦ some (added.0, s') ]

  -- `PGTdeExecStoreBufferHeapTuple` up to the call that fills the slot: the tuple that it gets.
  unfoldable pub exec_store_buffer_heap_tuple :
      Bool → ℕ → Ptr → HeapTuple → List ℕ → State → Option (HeapTuple × State)
  exec_store_buffer_heap_tuple is_toast bn page tuple key s =
      if is_toast
      then some (tuple, s)
      else (let copied = sv.copy_tuple tuple s.mem in
          elim (pg_tde_crypt_tuple bn page tuple copied.0 key (record s { mem = copied.1 })) [
            | none ↦ none
            | some s' ↦ some (record tuple { t_data = copied.0.t_data }, s')
          ])

  -- `PGTdeExecStorePinnedBufferHeapTuple`: the same steps before another slot routine.
  unfoldable pub exec_store_pinned_buffer_heap_tuple :
      Bool → ℕ → Ptr → HeapTuple → List ℕ → State → Option (HeapTuple × State)
  exec_store_pinned_buffer_heap_tuple is_toast bn page tuple key s =
      if is_toast
      then some (tuple, s)
      else (let copied = sv.copy_tuple tuple s.mem in
          elim (pg_tde_crypt_tuple bn page tuple copied.0 key (record s { mem = copied.1 })) [
            | none ↦ none
            | some s' ↦ some (record tuple { t_data = copied.0.t_data }, s')
          ])
