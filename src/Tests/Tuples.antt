-- ===== src/Tests/Tuples.antt =====
-- Tuples on a page, with a server whose `t_hoff` is 24 and that puts every item at 1000.
use pg_tde.Base.{
  ℕ, ◌+◌, ◌-◌, ◌<◌, ◌≡◌, refl, inl, inr, some, arith, bit_xor, Mem, if◌then◌else◌, ltb, false,
}
use pg_tde.Aes.Keystream.{Serves, keystream}
use pg_tde.Crypt.{State}
use pg_tde.Tuple.{
  Server, HeapTuple, offset_in_file, page_add_item_extended, pg_tde_crypt_tuple,
  exec_store_buffer_heap_tuple,
}
use pg_tde.Tuple.Offset.{offset_in_file-injective, offset_in_file-repeats}
use pg_tde.Tuple.ReadBack.{
  ReadsHeader, IsAdded, page_add_item_extended-IsCrypted, add-then-crypt_tuple,
}
use pg_tde.Tuple.Slot.{IsCopied, exec_store_buffer_heap_tuple-decrypts}
use pg_tde.Tests.Encryption.{plain_platform, plain_platform-IsEcb, some_key, some_state}

-- `memcpy`
abbrev copied_to : ℕ → ℕ → ℕ → Mem → Mem
copied_to dst src n m a =
    if ltb a dst then m a else if ltb a (dst + n) then m (src + (a - dst)) else m a

abbrev some_server : Server
some_server = record {
  page_add_item =
      λ page item size offset_number flags m. (offset_number, copied_to (page + 1000) item size m);
  pd_upper = λ page m. 1000;
  t_hoff = λ a m. 24;
  copy_tuple =
      λ tuple m. (record tuple { t_data = 50000 }, copied_to 50000 tuple.t_data tuple.t_len m);
}

reads_header : ReadsHeader some_server
reads_header m m' a a' h = refl

offset_in_file-injective_example : (3 + 0 ≡ 3) × (100 + 0 ≡ 100)
offset_in_file-injective_example =
    offset_in_file-injective 3 3 100 100 (omega arith) (omega arith) (omega arith) (omega arith)
      refl

offset_in_file-repeats_example : offset_in_file (3 + 524288) 100 ≡ offset_in_file 3 100
offset_in_file-repeats_example = offset_in_file-repeats 3 100 (omega arith)

-- An item of 64 bytes at 100 goes to the page at 8192.
item-IsAdded :
    IsAdded some_server 8192 100 64 some_state.mem
      (some_server.page_add_item 8192 100 64 1 0 some_state.mem).1
item-IsAdded = record {
  fits = omega arith;
  copied = λ i h. ground arith;
  source = λ i h. ground arith;
}

abbrev ItemIsEncrypted : Type 0
ItemIsEncrypted =
    let added = some_server.page_add_item 8192 100 64 1 0 some_state.mem in
    (s1 : State) × (page_add_item_extended plain_platform some_server 1 8192 100 64 1 0 some_key
        some_state
      ≡ some (added.0, s1))
    × Serves s1.ctx some_key
    × (some_server.t_hoff (8192 + 1000) s1.mem ≡ 24)
    × ((i : ℕ) → i < 24 → s1.mem (8192 + 1000 + i) ≡ some_state.mem (100 + i))
    × ((i : ℕ)
        → i < 64 - 24
        → s1.mem (8192 + 1000 + 24 + i)
          ≡ bit_xor (some_state.mem (100 + 24 + i))
              (keystream plain_platform some_key (offset_in_file 1 1000 + i)))

encrypted_item : ItemIsEncrypted
encrypted_item =
    page_add_item_extended-IsCrypted plain_platform plain_platform-IsEcb some_server reads_header 1
      8192 100 64 1 0 some_key some_state item-IsAdded (inl (omega arith)) (omega arith)
      (omega arith) (inl refl)

add-then-crypt_tuple_example :
    (s2 : State) × (pg_tde_crypt_tuple plain_platform some_server 1 8192
        (record { t_len = 64; t_data = 8192 + 1000 })
        (record { t_len = 64; t_data = 50000 })
        some_key
        encrypted_item.0
      ≡ some s2)
    × ((i : ℕ) → i < 64 - 24 → s2.mem (50000 + 24 + i) ≡ some_state.mem (100 + 24 + i))
add-then-crypt_tuple_example =
    add-then-crypt_tuple plain_platform plain_platform-IsEcb some_server reads_header 1 8192 100 64
      1 0 1 (record { t_len = 64; t_data = 50000 }) some_key some_state encrypted_item.0
      item-IsAdded (inl (omega arith)) (omega arith) (omega arith) (inl refl) encrypted_item.1 refl
      (inr (inr (omega arith)))

tuple-IsCopied :
    let tuple : HeapTuple = record { t_len = 64; t_data = 8192 + 1000 } in
    IsCopied tuple some_state.mem (some_server.copy_tuple tuple some_state.mem)
tuple-IsCopied = record {
  same = λ i h. ground arith;
  source = λ i h. ground arith;
  apart = inl (omega arith);
}

exec_store_buffer_heap_tuple-decrypts_example :
    let tuple : HeapTuple = record { t_len = 64; t_data = 8192 + 1000 } in
    (t : HeapTuple) × (s' : State) × (exec_store_buffer_heap_tuple plain_platform some_server false
        1 8192 tuple some_key some_state
      ≡ some (t, s'))
    × (t.t_len ≡ 64)
    × ((i : ℕ) → i < 24 → s'.mem (t.t_data + i) ≡ some_state.mem (8192 + 1000 + i))
    × ((i : ℕ)
        → i < 64 - 24
        → s'.mem (t.t_data + 24 + i)
          ≡ bit_xor
              (some_state.mem (8192 + 1000 + 24 + i))
              (keystream plain_platform some_key (offset_in_file 1 1000 + i)))
    × ((i : ℕ) → i < 64 → s'.mem (8192 + 1000 + i) ≡ some_state.mem (8192 + 1000 + i))
exec_store_buffer_heap_tuple-decrypts_example =
    exec_store_buffer_heap_tuple-decrypts plain_platform plain_platform-IsEcb some_server
      reads_header 1 8192 1000 64 some_key some_state (omega arith) (omega arith) (omega arith)
      tuple-IsCopied (inl refl)
