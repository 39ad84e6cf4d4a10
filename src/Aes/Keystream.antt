-- ===== src/Aes/Keystream.antt =====
-- The keystream as a function of the position in the file, and `Aes128EncryptedZeroBlocks` as the
-- routine that computes a stretch of it.
use pg_tde.Base.{
  ℕ, zero, suc, ◌+◌, ◌-◌, ◌*◌, ◌/◌, ◌%◌, ◌^◌, ◌≤◌, ◌<◌, ◌≡◌, refl, ◌∙◌, sym, ap, ◌⊎◌, inl, inr,
  none, some, List, arith, u32, u64, dec_lt, Mem, bytes_at, length-bytes_at, bytes_at-add,
  bytes_at-ext, length, get_or, get_or-append_left, get_or-append_right,
}
use pg_tde.Aes.{
  Platform, IsEcb, Ctx, aes_run2, counter_byte, fill_counters, aes128_encrypted_zero_blocks,
}
use pg_tde.Aes.Counters.{block_byte, fill_counters-IsFilled}

-- A context that serves `key`: not made yet, or made with `key`.
abbrev pub Serves : Ctx → List ℕ → Type 0
Serves ctx key = (ctx ≡ none) ⊎ (ctx ≡ some key)

module _ (pf : Platform) where
  -- The 16 bytes that are encrypted for block `j` of a file.
  abbrev pub counter_block : ℕ → List ℕ
  counter_block j = bytes_at (block_byte pf j) 0 16

  -- The byte that the byte at position `a` of a file is XORed with.
  unfoldable pub keystream : List ℕ → ℕ → ℕ
  keystream key a = get_or (pf.ecb key (counter_block (a / 16))) (a % 16) 0

  pub aes_run2-Serves :
      (ctx : Ctx) (key input : List ℕ)
      → Serves ctx key
      → aes_run2 pf ctx key input ≡ (some key, pf.ecb key input)
  unfolding aes_run2
  aes_run2-Serves none key input s = refl
  aes_run2-Serves (some k) key input (inl e) = cc
  aes_run2-Serves (some k) key input (inr e) = cc

  -- Different blocks have different counters, whatever the shifts of 32 bits and more give: the low
  -- four bytes tell the numbers of an `int` apart.
  pub counter_block-injective :
      (j k : ℕ) → j < 2 ^ 31 → k < 2 ^ 31 → counter_block j ≡ counter_block k → j ≡ k
  unfolding counter_byte
  counter_block-injective j k hj hk e =
      let at = λ (p : ℕ). ap (λ (b : List ℕ). get_or b p 0) e in
      let e0 : j / 1 % 256 ≡ k / 1 % 256 = at 15 in
      let e1 : j / 256 % 256 ≡ k / 256 % 256 = at 14 in
      let e2 : j / 65536 % 256 ≡ k / 65536 % 256 = at 13 in
      let e3 : j / 16777216 % 256 ≡ k / 16777216 % 256 = at 12 in omega arith

  -- The routine, given what its counter loops leave in the buffer.
  zero_blocks_of :
      (ctx : Ctx) (key : List ℕ) (b1 b2 : ℕ) (d : Mem)
      → Serves ctx key
      → b1 ≤ b2
      → b2 ≤ b1 + 100
      → b2 ≤ 2 ^ 31
      → fill_counters pf 101 b1 b1 b2 (λ a. 0) ≡ some d
      → aes128_encrypted_zero_blocks pf ctx key b1 b2
        ≡ some (some key, pf.ecb key (bytes_at d 0 (16 * (b2 - b1))))
  unfolding aes128_encrypted_zero_blocks
  zero_blocks_of ctx key b1 b2 d serves h1 h2 h3 filled =
      let start : u32 b1 ≡ b1 = omega arith in
      let size : u32 (u64 (b2 + 2 ^ 64 - b1) * 16) ≡ 16 * (b2 - b1) = omega arith in
      rw (aes128_encrypted_zero_blocks, start, filled, size)
        (ap some (aes_run2-Serves ctx key (bytes_at d 0 (16 * (b2 - b1))) serves))

module _ (pf : Platform) (is_ecb : IsEcb pf) where
  -- Encrypting many blocks at once is encrypting the block that holds the index.
  ecb_at :
      (key : List ℕ) (m : Mem) (a n i : ℕ)
      → i < 16 * n
      → get_or (pf.ecb key (bytes_at m a (16 * n))) i 0
        ≡ get_or (pf.ecb key (bytes_at m (a + 16 * (i / 16)) 16)) (i % 16) 0
  ecb_at key m a zero i h = absurd (omega arith)
  ecb_at key m a (suc n) i h =
      let block = bytes_at m a 16 in
      let rest = bytes_at m (a + 16) (16 * n) in
      let out = pf.ecb key block in
      let size : length out ≡ 16 = is_ecb.block_length key block (length-bytes_at m a 16) in
      rw
        (
          bytes_at-add m a (16 * suc n) 16 (16 * n) (omega arith),
          is_ecb.by_blocks key block rest (length-bytes_at m a 16),
        )
        (elim (dec_lt i 16) [
          | yes first ↦
              let q : a + 16 * (i / 16) ≡ a = omega arith in
              let r : i % 16 ≡ i = omega arith in
              rw (q, r) (get_or-append_left out (pf.ecb key rest) i 0 (omega arith))
          | no later ↦
              let q : a + 16 + 16 * ((i - 16) / 16) ≡ a + 16 * (i / 16) = omega arith in
              let r : (i - 16) % 16 ≡ i % 16 = omega arith in
              get_or-append_right out (pf.ecb key rest) i 0 (omega arith)
              ∙ ap (λ (k : ℕ). get_or (pf.ecb key rest) (i - k) 0) size
              ∙ ecb_at key m (a + 16) n (i - 16) (omega arith)
              ∙ rw (q, r)
        ])

  -- Up to 100 blocks: the buffer is not overrun, the context serves the key afterwards, and byte
  -- `i` of the result is the keystream at `i` bytes from the first block.
  pub zero_blocks-keystream :
      (ctx : Ctx) (key : List ℕ) (b1 b2 : ℕ)
      → Serves ctx key
      → b1 ≤ b2
      → b2 ≤ b1 + 100
      → b2 ≤ 2 ^ 31
      → (enc : List ℕ) × (aes128_encrypted_zero_blocks pf ctx key b1 b2 ≡ some (some key, enc))
        × ((i : ℕ) → i < 16 * (b2 - b1) → get_or enc i 0 ≡ keystream pf key (16 * b1 + i))
  unfolding keystream
  zero_blocks-keystream ctx key b1 b2 serves h1 h2 h3 =
      let run =
        fill_counters-IsFilled pf 101 b1 b1 b2 (λ a. 0) (omega arith) h1 h2 h3 (omega arith)
          (λ p q. refl) in
      (
        pf.ecb key (bytes_at run.mem 0 (16 * (b2 - b1))),
        zero_blocks_of pf ctx key b1 b2 run.mem serves h1 h2 h3 run.returns,
        λ i h.
            let q : (16 * b1 + i) / 16 ≡ b1 + i / 16 = omega arith in
            let r : (16 * b1 + i) % 16 ≡ i % 16 = omega arith in
            let at : 16 * (b1 + i / 16 - b1) ≡ 0 + 16 * (i / 16) = omega arith in
            let block =
              bytes_at-ext run.mem (block_byte pf (b1 + i / 16)) (0 + 16 * (i / 16)) 0 16 (λ p lt.
                ap (λ (k : ℕ). run.mem (k + p)) (sym at)
                ∙ run.filled (b1 + i / 16) p (omega arith) (omega arith) lt
                ∙ ap (block_byte pf (b1 + i / 16)) (omega arith)) in
            ecb_at key run.mem 0 (b2 - b1) i h ∙ rw (q, r, block),
      )
