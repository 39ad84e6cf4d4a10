-- ===== src/Aes.antt =====
-- The keystream of src/encryption/enc_aes.c: AES-CTR built from AES-ECB. OpenSSL is a parameter;
-- the counters that the code writes, and its cached context, are the code's.
pub mod Counters
pub mod Keystream
use pg_tde.Base.{
  ℕ, zero, suc, ◌+◌, ◌-◌, ◌*◌, ◌/◌, ◌%◌, ◌^◌, ◌<◌, ◌≡◌, Bool, true, false, Option, none, some, List,
  [], ◌++◌, length, if◌then◌else◌, ltb, u32, u64, Mem, Ptr, store, bytes_at,
}

-- What the code takes from OpenSSL and from the compiler: `EVP_CipherUpdate` of an AES-128-ECB
-- context (key, input), and what a right shift of an `int` by 32 bits or more gives, which C
-- leaves undefined.
pub record Platform : Type 0 where
  pub ecb : List ℕ → List ℕ → List ℕ
  pub wide_shift : ℕ → ℕ → ℕ

-- ECB encrypts each block of 16 bytes by itself, and a block has 16 bytes again.
pub record IsEcb (pf : Platform) : Type 0 where
  pub by_blocks :
      (key b rest : List ℕ)
      → length b ≡ 16
      → pf.ecb key (b ++ rest) ≡ pf.ecb key b ++ pf.ecb key rest
  pub block_length : (key b : List ℕ) → length b ≡ 16 → length (pf.ecb key b) ≡ 16

abbrev pub aes_block_size : ℕ
aes_block_size = 16

abbrev pub num_aes_blocks_in_batch : ℕ
num_aes_blocks_in_batch = 100

abbrev pub data_bytes_per_aes_batch : ℕ
data_bytes_per_aes_batch = 1600

-- The context behind `*ctxPtr`: `none` is NULL, else the key that it was initialised with.
abbrev pub Ctx : Type 0
Ctx = Option (List ℕ)

-- The loop variable is an `int`: a 32-bit pattern, which the comparison with a `uint64_t` extends
-- by its sign.
abbrev pub sign_extend : ℕ → ℕ
sign_extend j = if ltb j (2 ^ 31) then j else j + (2 ^ 64 - 2 ^ 32)

module _ (pf : Platform) where
  -- `AesRun2`: an ECB context is made with `key` when there is none, and used as it is otherwise.
  unfoldable pub aes_run2 : Ctx → List ℕ → List ℕ → Ctx × List ℕ
  aes_run2 none key input = (some key, pf.ecb key input)
  aes_run2 (some k) key input = (some k, pf.ecb k input)

  -- `(j >> (8*i)) & 0xFF`
  unfoldable pub counter_byte : ℕ → ℕ → ℕ
  counter_byte j i = if ltb i 4 then j / 2 ^ (8 * i) % 256 else pf.wide_shift j (8 * i) % 256

  -- `for (i = 0; i < 8; ++i) data[16*(j-blockNumber1)+15-i] = …`, with the rounds left first and
  -- `base` for `16*(j-blockNumber1)`; `none` is a write outside `data`.
  unfoldable pub put_counter : ℕ → ℕ → ℕ → ℕ → Mem → Option Mem
  put_counter zero i j base d = some d
  put_counter (suc n) i j base d =
      let at = u64 (base + 15 + 2 ^ 64 - i) in
      let rest = put_counter n (i + 1) j base (store d at (counter_byte j i)) in
      if ltb at data_bytes_per_aes_batch then rest else none

  -- `for (int j = blockNumber1; j < blockNumber2; ++j)`. A round past the buffer faults, so the
  -- fuel of 101 rounds is never used up.
  unfoldable pub fill_counters : ℕ → ℕ → ℕ → ℕ → Mem → Option Mem
  fill_counters zero j b1 b2 d = none
  fill_counters (suc fuel) j b1 b2 d = elim (ltb (sign_extend j) b2) [
    | true ↦ elim (put_counter 8 0 j (u64 (16 * u64 (sign_extend j + 2 ^ 64 - b1))) d) [
      | none ↦ none
      | some d' ↦ fill_counters fuel (u32 (j + 1)) b1 b2 d'
    ]
    | false ↦ some d
  ]

  -- `Aes128EncryptedZeroBlocks`: the context and the encrypted counters.
  unfoldable pub aes128_encrypted_zero_blocks : Ctx → List ℕ → ℕ → ℕ → Option (Ctx × List ℕ)
  aes128_encrypted_zero_blocks ctx key b1 b2 =
      let data_len = u32 (u64 (b2 + 2 ^ 64 - b1) * 16) in
      elim (fill_counters 101 (u32 b1) b1 b2 (λ a. 0)) [
        | none ↦ none
        | some d ↦ some (aes_run2 ctx key (bytes_at d 0 data_len))
      ]
