-- ===== src/Crypt/Batches.antt =====
-- The loops of `pg_tde_crypt`: after `n` bytes exactly those bytes of the output are written, each
-- the input byte XORed with the keystream at its own position in the file.
use pg_tde.Base.{
  ℕ, zero, suc, ◌+◌, ◌^◌, ◌≤◌, ◌<◌, ◌≡◌, ◌⊎◌, inl, inr, bit_xor, List, arith, u32, get_or, Ptr, Mem,
  store, Outside,
}
use pg_tde.Aes.{Platform}
use pg_tde.Aes.Keystream.{keystream}
use pg_tde.Crypt.{Call, crypt_bytes}

-- In place, or between two ranges that do not meet.
abbrev pub NoOverlap : Ptr → Ptr → ℕ → Type 0
NoOverlap src out n = (out ≡ src) ⊎ (out + n ≤ src) ⊎ (src + n ≤ out)

-- The positions that the routine can serve: block numbers fit an `int`, and the counts their
-- `uint32`.
pub record InRange (start_offset data_len : ℕ) : Type 0 where
  pub blocks_fit : start_offset + data_len + 15 ≤ 2 ^ 35
  pub counts_fit : data_len + 1600 < 2 ^ 32

module _ (pf : Platform) (c : Call) (m0 : Mem) where
  pub record IsWritten (n : ℕ) (m : Mem) : Type 0 where
    pub written :
        (i : ℕ)
        → i < n
        → m (c.out + i) ≡ bit_xor (m0 (c.src + i)) (keystream pf c.key (c.start_offset + i))
    pub kept : (a : Ptr) → Outside c.out n a → m a ≡ m0 a

  unread :
      (n : ℕ) (m : Mem)
      → NoOverlap c.src c.out c.data_len
      → n < c.data_len
      → IsWritten n m
      → m (c.src + n) ≡ m0 (c.src + n)
  unread n m (inl same) lt w = w.kept (c.src + n) (inr (omega arith))
  unread n m (inr (inl after)) lt w = w.kept (c.src + n) (inr (omega arith))
  unread n m (inr (inr before)) lt w = w.kept (c.src + n) (inl (omega arith))

  IsWritten-store :
      (n : ℕ) (m : Mem) (v : ℕ)
      → NoOverlap c.src c.out c.data_len
      → n < c.data_len
      → IsWritten n m
      → v ≡ keystream pf c.key (c.start_offset + n)
      → IsWritten (n + 1) (store m (c.out + n) (bit_xor (m (c.src + n)) v))
  unfolding store
  IsWritten-store n m v apart lt w e = record {
    written = λ i h. ground (arith, w.written i, unread n m apart lt w);
    kept = λ a h. ground (arith, w.kept a);
  }

  pub crypt_bytes-IsWritten :
      (n i data_index shift : ℕ) (enc : List ℕ) (m : Mem)
      → NoOverlap c.src c.out c.data_len
      → data_index + n ≤ c.data_len
      → c.data_len + 1600 < 2 ^ 32
      → i + n + shift < 2 ^ 32
      → ((k : ℕ)
          → k < n
          → get_or enc (i + k + shift) 0 ≡ keystream pf c.key (c.start_offset + (data_index + k)))
      → IsWritten data_index m
      → IsWritten (data_index + n) (crypt_bytes c n i data_index shift enc m)
  unfolding crypt_bytes
  crypt_bytes-IsWritten zero i data_index shift enc m apart h1 h2 h3 stream w =
      let e : data_index + 0 ≡ data_index = omega arith in rw e w
  crypt_bytes-IsWritten (suc n) i data_index shift enc m apart h1 h2 h3 stream w =
      let at : u32 (i + shift) ≡ i + shift = omega arith in
      let i' : u32 (i + 1) ≡ i + 1 = omega arith in
      let d' : u32 (data_index + 1) ≡ data_index + 1 = omega arith in
      let e : data_index + suc n ≡ data_index + 1 + n = omega arith in
      let byte : get_or enc (i + shift) 0 ≡ keystream pf c.key (c.start_offset + data_index) =
        ground (arith, stream 0) in
      rw (e, at, i', d')
        (crypt_bytes-IsWritten n (i + 1) (data_index + 1) shift enc _ apart (omega arith) h2
          (omega arith) (λ k h. ground (arith, stream (k + 1)))
          (IsWritten-store data_index m _ apart (omega arith) w byte))
