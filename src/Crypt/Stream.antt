-- ===== src/Crypt/Stream.antt =====
-- `pg_tde_crypt` as a stream cipher: the loop over batches computes the byte-wise specification.
use pg_tde.Base.{
  ℕ, zero, suc, ◌+◌, ◌-◌, ◌*◌, ◌/◌, ◌^◌, ◌≤◌, ◌<◌, ◌≡◌, refl, ◌∙◌, ap, subst, ◌⊎◌, inl, inr, min,
  true, false, Option, some, List, arith, if◌then◌else◌, ltb, u32, u64, dec_lt, get_or, Ptr, Mem,
  lt→ltb, nlt→ltb,
}
use pg_tde.Aes.{Platform, IsEcb, Ctx, aes128_encrypted_zero_blocks, num_aes_blocks_in_batch}
use pg_tde.Aes.Keystream.{Serves, keystream, zero_blocks-keystream}
use pg_tde.Crypt.{
  State, Call, call, key_shift, end_block, crypt_bytes, batch_bytes, crypt_batches, pg_tde_crypt,
}
use pg_tde.Crypt.Batches.{NoOverlap, InRange, IsWritten, crypt_bytes-IsWritten}

-- How much a batch covers: up to its last block, or up to the end of the data.
record IsBatch (c : Call) (batch_start batch_end batch_no data_index n : ℕ) : Type 0 where
  within : data_index + n ≤ c.data_len
  keyed : n + key_shift c batch_no ≤ 16 * (batch_end - batch_start)
  continues : batch_end < end_block c → c.start_offset + data_index + n ≡ 16 * batch_end
  finishes : end_block c ≤ batch_end → data_index + n ≡ c.data_len

key_shift-lt : (c : Call) (batch_no : ℕ) → key_shift c batch_no < 16
key_shift-lt c batch_no = ground arith

key_shift-later : (c : Call) (batch_no : ℕ) → key_shift c (batch_no + 1) ≡ 0
key_shift-later c batch_no = ground arith

-- The machine arithmetic of `current_batch_bytes` does not wrap.
batch_bytes-cut :
    (c : Call) (batch_start batch_end batch_no data_index : ℕ)
    → c.data_len + 1600 < 2 ^ 32
    → batch_start < batch_end
    → batch_end ≤ batch_start + 100
    → data_index ≤ c.data_len
    → let whole = 16 * (batch_end - batch_start) - key_shift c batch_no in
      batch_bytes c batch_start batch_end batch_no data_index
      ≡ (if ltb c.data_len (data_index + whole) then c.data_len - data_index else whole)
unfolding batch_bytes
batch_bytes-cut c batch_start batch_end batch_no data_index h1 h2 h3 h4 =
    let shift = key_shift c batch_no in
    let shift_lt : shift < 16 = key_shift-lt c batch_no in
    let whole : u32 (u64 ((batch_end - batch_start) * 16 + 2 ^ 64 - shift))
        ≡ 16 * (batch_end - batch_start) - shift =
      omega arith in
    let sum : u32 (data_index + (16 * (batch_end - batch_start) - shift))
        ≡ data_index + (16 * (batch_end - batch_start) - shift) =
      omega arith in
    let left : u32 (c.data_len + 2 ^ 32 - data_index) ≡ c.data_len - data_index = omega arith in
    rw (whole, sum, left)

batch_bytes-cases :
    (c : Call) (batch_start batch_end batch_no data_index : ℕ)
    → c.data_len + 1600 < 2 ^ 32
    → batch_start < batch_end
    → batch_end ≤ batch_start + 100
    → data_index ≤ c.data_len
    → let whole = 16 * (batch_end - batch_start) - key_shift c batch_no in
      let n = batch_bytes c batch_start batch_end batch_no data_index in
      ((c.data_len < data_index + whole) × (n ≡ c.data_len - data_index))
      ⊎ ((data_index + whole ≤ c.data_len) × (n ≡ whole))
batch_bytes-cases c batch_start batch_end batch_no data_index h1 h2 h3 h4 =
    let whole = 16 * (batch_end - batch_start) - key_shift c batch_no in
    let cut = batch_bytes-cut c batch_start batch_end batch_no data_index h1 h2 h3 h4 in
    elim (dec_lt c.data_len (data_index + whole)) [
      | yes over ↦
          let test : ltb c.data_len (data_index + whole) ≡ true = lt→ltb _ _ over in
          inl (over, cut ∙ rw test)
      | no fits ↦
          let test : ltb c.data_len (data_index + whole) ≡ false = nlt→ltb _ _ fits in
          inr (omega arith, cut ∙ rw test)
    ]

end_block_lem :
    (c : Call)
    → InRange c.start_offset c.data_len
    → end_block c ≡ (c.start_offset + c.data_len + 15) / 16
end_block_lem c range =
    let h = range.blocks_fit in
    let e : u64 (c.start_offset + c.data_len + 15) ≡ c.start_offset + c.data_len + 15 =
      omega arith in
    ap (λ (k : ℕ). k / 16) e

first_lt : (first last stop : ℕ) → first < stop → last ≡ min (first + 100) stop → first < last
first_lt first last stop h e = omega arith

last_le : (first last stop : ℕ) → last ≡ min (first + 100) stop → last ≤ first + 100
last_le first last stop e = omega arith

-- Once more over plain numbers: `stop` is the block after the last.
batch_arith :
    (start len first last shift done n stop : ℕ)
    → shift < 16
    → stop ≡ (start + len + 15) / 16
    → first < stop
    → last ≡ min (first + 100) stop
    → 16 * first + shift ≡ start + done
    → done ≤ len
    → let whole = 16 * (last - first) - shift in
      ((len < done + whole) × (n ≡ len - done)) ⊎ ((done + whole ≤ len) × (n ≡ whole))
      → (done + n ≤ len)
        × (n + shift ≤ 16 * (last - first))
        × (last < stop → start + done + n ≡ 16 * last)
        × (stop ≤ last → done + n ≡ len)
batch_arith start len first last shift done n stop h1 h2 h3 h4 h5 h6 (inl (over, e)) = omega arith
batch_arith start len first last shift done n stop h1 h2 h3 h4 h5 h6 (inr (fits, e)) = omega arith

batch_bytes-IsBatch :
    (c : Call) (batch_start batch_end batch_no data_index : ℕ)
    → InRange c.start_offset c.data_len
    → batch_start < end_block c
    → batch_end ≡ min (batch_start + 100) (end_block c)
    → 16 * batch_start + key_shift c batch_no ≡ c.start_offset + data_index
    → data_index ≤ c.data_len
    → IsBatch c batch_start batch_end batch_no data_index
        (batch_bytes c batch_start batch_end batch_no data_index)
batch_bytes-IsBatch c batch_start batch_end batch_no data_index range more e at le =
    let n = batch_bytes c batch_start batch_end batch_no data_index in
    let facts =
      batch_arith c.start_offset c.data_len batch_start batch_end (key_shift c batch_no) data_index
        n (end_block c) (key_shift-lt c batch_no) (end_block_lem c range) more e at le
        (batch_bytes-cases c batch_start batch_end batch_no data_index range.counts_fit
          (first_lt batch_start batch_end (end_block c) more e)
          (last_le batch_start batch_end (end_block c) e) le) in
    record { within = facts.0; keyed = facts.1; continues = facts.2; finishes = facts.3 }

stop_fits_lem :
    (start len stop : ℕ)
    → stop ≡ (start + len + 15) / 16
    → start + len + 15 ≤ 2 ^ 35
    → stop ≤ 2 ^ 31
stop_fits_lem start len stop e h = omega arith

min_ge : (first stop : ℕ) → first < stop → first ≤ min (first + 100) stop
min_ge first stop h = omega arith

min_le : (first stop : ℕ) → min (first + 100) stop ≤ first + 100
min_le first stop = omega arith

min_le_right : (first stop k : ℕ) → stop ≤ k → min (first + 100) stop ≤ k
min_le_right first stop k h = omega arith

module _ (pf : Platform) (c : Call) where
  -- One round of the loop, given the keystream of its batch.
  crypt_batches-lt :
      (fuel first batch_no done : ℕ) (s : State) {ctx : Ctx} {enc : List ℕ}
      → first < end_block c
      → first + 100 < 2 ^ 64
      → aes128_encrypted_zero_blocks pf s.ctx c.key first (min (first + 100) (end_block c))
        ≡ some (ctx, enc)
      → let n = batch_bytes c first (min (first + 100) (end_block c)) batch_no done in
        crypt_batches pf c (suc fuel) first batch_no done s
        ≡ crypt_batches pf c fuel
            (first + 100)
            (u32 (batch_no + 1))
            (u32 (done + n))
            (record { ctx = ctx; mem = crypt_bytes c n 0 done (key_shift c batch_no) enc s.mem })
  unfolding crypt_batches
  crypt_batches-lt fuel first batch_no done s h small e =
      let test : ltb first (end_block c) ≡ true = lt→ltb _ _ h in
      let next : u64 (first + num_aes_blocks_in_batch) ≡ first + 100 = omega arith in
      rw (crypt_batches, test, next, e, next)

  crypt_batches-end :
      (fuel first batch_no done : ℕ) (s : State)
      → end_block c ≤ first
      → crypt_batches pf c (suc fuel) first batch_no done s ≡ some s
  unfolding crypt_batches
  crypt_batches-end fuel first batch_no done s h =
      let test : ltb first (end_block c) ≡ false = nlt→ltb _ _ (omega arith) in
      rw (crypt_batches, test)

  module _ (m0 : Mem) where
    pub record IsCrypted (result : Option State) : Type 0 where
      pub state : State
      pub returns : result ≡ some state
      pub serves : Serves state.ctx c.key
      pub bytes : IsWritten pf c m0 c.data_len state.mem

    module _ (is_ecb : IsEcb pf) (range : InRange c.start_offset c.data_len)
        (apart : NoOverlap c.src c.out c.data_len) where
      crypt_batches-IsCrypted :
          (fuel first batch_no done : ℕ) (s : State)
          → Serves s.ctx c.key
          → IsWritten pf c m0 done s.mem
          → done ≤ c.data_len
          → (first < end_block c → 16 * first + key_shift c batch_no ≡ c.start_offset + done)
          → (end_block c ≤ first → done ≡ c.data_len)
          → end_block c ≤ first + 100 * fuel
          → batch_no + fuel < 2 ^ 32
          → IsCrypted (crypt_batches pf c (suc fuel) first batch_no done s)
      crypt_batches-IsCrypted zero first batch_no done s serves w le at full enough few =
          let e = full (omega arith) in
          record {
            state = s;
            returns = crypt_batches-end zero first batch_no done s (omega arith);
            serves = serves;
            bytes = subst (λ k. IsWritten pf c m0 k s.mem) e w;
          }
      crypt_batches-IsCrypted (suc fuel) first batch_no done s serves w le at full enough few =
          elim (dec_lt first (end_block c)) [
            | no over ↦
                let e = full (omega arith) in
                record {
                  state = s;
                  returns = crypt_batches-end (suc fuel) first batch_no done s (omega arith);
                  serves = serves;
                  bytes = subst (λ k. IsWritten pf c m0 k s.mem) e w;
                }
            | yes more ↦
                let last = min (first + 100) (end_block c) in
                let n = batch_bytes c first last batch_no done in
                let stop_fits : end_block c ≤ 2 ^ 31 =
                  stop_fits_lem _ _ _ (end_block_lem c range) range.blocks_fit in
                let part =
                  batch_bytes-IsBatch c first last batch_no done range more refl (at more) le in
                let stream =
                  zero_blocks-keystream pf is_ecb s.ctx c.key first last serves (min_ge _ _ more)
                    (min_le _ _) (min_le_right _ _ _ stop_fits) in
                let keys_at : (k : ℕ)
                    → get_or stream.0 (k + key_shift c batch_no) 0
                      ≡ keystream pf c.key (16 * first + (k + key_shift c batch_no))
                    → get_or stream.0 (0 + k + key_shift c batch_no) 0
                      ≡ keystream pf c.key (c.start_offset + (done + k)) =
                  λ k e.
                    ap (λ (j : ℕ). get_or stream.0 j 0) (omega arith)
                    ∙ e
                    ∙ ap (keystream pf c.key) (omega (arith, at more)) in
                let w' =
                  crypt_bytes-IsWritten pf c m0 n 0 done (key_shift c batch_no) stream.0 s.mem apart
                    part.within range.counts_fit (omega arith)
                    (λ k h. keys_at k (stream.2 (k + key_shift c batch_no) (omega arith))) w in
                let rest =
                  crypt_batches-IsCrypted fuel (first + 100) (batch_no + 1) (done + n)
                    (record {
                      ctx = some c.key;
                      mem = crypt_bytes c n 0 done (key_shift c batch_no) stream.0 s.mem;
                    })
                    (inr refl) w' part.within
                    (λ h. omega (arith, part.continues, key_shift-later c batch_no))
                    (λ h. omega (arith, part.finishes)) (omega arith) (omega arith) in
                let next : u32 (batch_no + 1) ≡ batch_no + 1 = omega arith in
                let index : u32 (done + n) ≡ done + n = omega (arith, part.within) in
                record {
                  state = rest.state;
                  returns =
                      crypt_batches-lt (suc fuel) first batch_no done s more (omega arith) stream.1
                      ∙ rw (next, index) rest.returns;
                  serves = rest.serves;
                  bytes = rest.bytes;
                }
          ]

-- The work of `pg_tde_crypt`: it returns, with the context made for the key, and byte `i` of the
-- output is byte `i` of the input XORed with the keystream at `start_offset + i`; no other byte of
-- memory changes.
pub pg_tde_crypt-IsCrypted :
    (pf : Platform)
    → IsEcb pf
    → (start_offset : ℕ) (src : Ptr) (data_len : ℕ) (out : Ptr) (key : List ℕ) (s : State)
    → InRange start_offset data_len
    → NoOverlap src out data_len
    → Serves s.ctx key
    → IsCrypted pf
        (call start_offset src data_len out key)
        s.mem
        (pg_tde_crypt pf start_offset src data_len out key s)
unfolding pg_tde_crypt
pg_tde_crypt-IsCrypted pf is_ecb start_offset src data_len out key s range apart serves =
    let c = call start_offset src data_len out key in
    let start : 16 * (start_offset / 16) + key_shift c 0 ≡ start_offset + 0 = omega arith in
    let none_written : IsWritten pf c s.mem 0 s.mem = record {
      written = λ i h. absurd (omega arith);
      kept = λ a h. refl;
    } in
    let blocks = end_block_lem c range in
    let len_fits = range.counts_fit in
    let start_fits = range.blocks_fit in
    let fuel : data_len / 1600 + 3 ≡ suc (data_len / 1600 + 2) = omega arith in
    rw fuel (
      crypt_batches-IsCrypted pf c s.mem is_ecb range apart (data_len / 1600 + 2)
        (start_offset / 16) 0 0 s serves none_written (omega arith) (λ h. start) (λ h. omega arith)
        (omega arith) (omega arith))
