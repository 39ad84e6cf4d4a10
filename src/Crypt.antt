-- ===== src/Crypt.antt =====
-- Encryption of byte ranges of a relation file, src/encryption/enc_tuple.c: `pg_tde_crypt` and
-- `pg_tde_move_encrypted_data`.
pub mod Batches
pub mod Stream
pub mod Move
pub mod Laws
use pg_tde.Base.{
  ℕ, zero, suc, ◌+◌, ◌-◌, ◌*◌, ◌/◌, ◌%◌, ◌^◌, min, bit_xor, Bool, true, false, Option, none, some,
  List, if◌then◌else◌, ltb, u32, u64, get_or, Ptr, Mem, store,
}
use pg_tde.Aes.{
  Platform, Ctx, aes_block_size, num_aes_blocks_in_batch, data_bytes_per_aes_batch,
  aes128_encrypted_zero_blocks,
}

-- What a call changes: the cached context of the key, and memory.
pub record State : Type 0 where
  pub ctx : Ctx
  pub mem : Mem

-- The variables of `pg_tde_crypt` that its loops only read.
pub record Call : Type 0 where
  pub start_offset : ℕ
  pub src : Ptr
  pub data_len : ℕ
  pub out : Ptr
  pub key : List ℕ

abbrev pub call : ℕ → Ptr → ℕ → Ptr → List ℕ → Call
call start_offset src data_len out key = record {
  start_offset = start_offset;
  src = src;
  data_len = data_len;
  out = out;
  key = key;
}

-- `batch_no > 0 ? 0 : aes_block_no`
abbrev pub key_shift : Call → ℕ → ℕ
key_shift c batch_no = if ltb 0 batch_no then 0 else c.start_offset % aes_block_size

abbrev pub end_block : Call → ℕ
end_block c = u64 (c.start_offset + c.data_len + (aes_block_size - 1)) / aes_block_size

-- The loop over `i`, with its rounds left first: one byte is XORed with one byte of `enc_key`.
unfoldable pub crypt_bytes : Call → ℕ → ℕ → ℕ → ℕ → List ℕ → Mem → Mem
crypt_bytes c zero i data_index shift enc_key m = m
crypt_bytes c (suc n) i data_index shift enc_key m =
    let key_byte = get_or enc_key (u32 (i + shift)) 0 in
    crypt_bytes c n (u32 (i + 1)) (u32 (data_index + 1)) shift enc_key
      (store m (c.out + data_index) (bit_xor (m (c.src + data_index)) key_byte))

-- `current_batch_bytes`, cut at the end of the data.
unfoldable pub batch_bytes : Call → ℕ → ℕ → ℕ → ℕ → ℕ
batch_bytes c batch_start batch_end batch_no data_index =
    let whole =
      u32 (u64 ((batch_end - batch_start) * aes_block_size + 2 ^ 64 - key_shift c batch_no)) in
    if ltb c.data_len (u32 (data_index + whole))
    then u32 (c.data_len + 2 ^ 32 - data_index)
    else whole

module _ (pf : Platform) where
  -- The loop over batches of at most 100 blocks; `none` is a fault in the keystream routine, or
  -- that the fuel ran out.
  unfoldable pub crypt_batches : Call → ℕ → ℕ → ℕ → ℕ → State → Option State
  crypt_batches c zero batch_start batch_no data_index s = none
  crypt_batches c (suc fuel) batch_start batch_no data_index s =
      elim (ltb batch_start (end_block c)) [
        | false ↦ some s
        | true ↦
            let batch_end = min (u64 (batch_start + num_aes_blocks_in_batch)) (end_block c) in
            let n = batch_bytes c batch_start batch_end batch_no data_index in
            elim (aes128_encrypted_zero_blocks pf s.ctx c.key batch_start batch_end) [
              | none ↦ none
              | some (ctx, enc_key) ↦
                  crypt_batches c fuel (u64 (batch_start + num_aes_blocks_in_batch))
                    (u32 (batch_no + 1)) (u32 (data_index + n))
                    (record {
                      ctx = ctx;
                      mem = crypt_bytes c n 0 data_index (key_shift c batch_no) enc_key s.mem;
                    })
            ]
      ]

  -- `pg_tde_crypt`: encrypts or decrypts, both being the same XOR.
  unfoldable pub pg_tde_crypt : ℕ → Ptr → ℕ → Ptr → List ℕ → State → Option State
  pg_tde_crypt start_offset src data_len out key s =
      crypt_batches (call start_offset src data_len out key)
        (data_len / data_bytes_per_aes_batch + 3) (start_offset / aes_block_size) 0 0 s

  -- The loop of `pg_tde_move_encrypted_data`, through the local buffer `decrypted`.
  unfoldable pub move_batches :
      ℕ → ℕ → ℕ → Ptr → ℕ → Ptr → ℕ → List ℕ → Ptr → ℕ → State → Option State
  move_batches zero bytes_left read_off read_data write_off write_data data_len key dec curr s =
      none
  move_batches (suc fuel) bytes_left read_off read_data write_off write_data data_len key dec curr
        s =
      elim (ltb 0 bytes_left) [
        | false ↦ some s
        | true ↦
            let batch_len = min (min data_bytes_per_aes_batch data_len) bytes_left in
            elim (pg_tde_crypt (u64 (read_off + curr)) (read_data + curr) batch_len dec key s) [
              | none ↦ none
              | some s' ↦
                  elim (pg_tde_crypt (u64 (write_off + curr)) dec batch_len (write_data + curr) key
                    s') [
                      | none ↦ none
                      | some s'' ↦
                          move_batches fuel (bytes_left - batch_len) read_off read_data write_off
                            write_data data_len key dec (u32 (curr + batch_len)) s''
                    ]
            ]
      ]

  -- `pg_tde_move_encrypted_data`: from its key stream at one offset to that at another.
  unfoldable pub pg_tde_move_encrypted_data :
      ℕ → Ptr → ℕ → Ptr → ℕ → List ℕ → Ptr → State → Option State
  pg_tde_move_encrypted_data read_off read_data write_off write_data data_len key dec s =
      move_batches (data_len / data_bytes_per_aes_batch + 2) data_len read_off read_data write_off
        write_data data_len key dec 0 s
