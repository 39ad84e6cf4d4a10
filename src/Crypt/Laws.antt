-- ===== src/Crypt/Laws.antt =====
-- What follows from the stream: decryption undoes encryption, and a byte is encrypted alike
-- whatever offset the call starts from.
use pg_tde.Base.{ℕ, ◌+◌, ◌≤◌, ◌<◌, ◌≡◌, ◌∙◌, ap, bit_xor, bit_xor-bit_xor, some, List, arith, Ptr}
use pg_tde.Aes.{Platform, IsEcb}
use pg_tde.Aes.Keystream.{Serves, keystream}
use pg_tde.Crypt.{State, pg_tde_crypt}
use pg_tde.Crypt.Batches.{NoOverlap, InRange}
use pg_tde.Crypt.Stream.{pg_tde_crypt-IsCrypted}

module _ (pf : Platform) (is_ecb : IsEcb pf) where
  -- Encrypting bytes and then decrypting the result at the same offset, each in place or into a
  -- range that does not meet its input, succeeds and gives the bytes back.
  pub pg_tde_crypt-twice :
      (offset : ℕ) (src : Ptr) (n : ℕ) (out back : Ptr) (key : List ℕ) (s : State)
      → InRange offset n
      → NoOverlap src out n
      → NoOverlap out back n
      → Serves s.ctx key
      → (s1 s2 : State) × (pg_tde_crypt pf offset src n out key s ≡ some s1)
        × (pg_tde_crypt pf offset out n back key s1 ≡ some s2)
        × ((i : ℕ) → i < n → s2.mem (back + i) ≡ s.mem (src + i))
  pg_tde_crypt-twice offset src n out back key s range apart apart' serves =
      let enc = pg_tde_crypt-IsCrypted pf is_ecb offset src n out key s range apart serves in
      let dec =
        pg_tde_crypt-IsCrypted pf is_ecb offset out n back key enc.state range apart' enc.serves in
      (
        enc.state,
        dec.state,
        enc.returns,
        dec.returns,
        λ i h.
            dec.bytes.written i h
            ∙ ap (λ (b : ℕ). bit_xor b (keystream pf key (offset + i))) (enc.bytes.written i h)
            ∙ bit_xor-bit_xor (s.mem (src + i)) (keystream pf key (offset + i)),
      )

  -- A call that starts `k` bytes further on gives the same bytes as the call over the whole range
  -- gives there: random access into the encrypted file.
  pub pg_tde_crypt-from :
      (offset : ℕ) (src : Ptr) (n k j : ℕ) (out out' : Ptr) (key : List ℕ) (s : State)
      → InRange offset n
      → k + j ≤ n
      → NoOverlap src out n
      → NoOverlap (src + k) out' j
      → Serves s.ctx key
      → (whole part : State) × (pg_tde_crypt pf offset src n out key s ≡ some whole)
        × (pg_tde_crypt pf (offset + k) (src + k) j out' key s ≡ some part)
        × ((i : ℕ) → i < j → part.mem (out' + i) ≡ whole.mem (out + (k + i)))
  pg_tde_crypt-from offset src n k j out out' key s range fits apart apart' serves =
      let len_fits = range.counts_fit in
      let start_fits = range.blocks_fit in
      let range' : InRange (offset + k) j = record {
        blocks_fit = omega arith;
        counts_fit = omega arith;
      } in
      let a = pg_tde_crypt-IsCrypted pf is_ecb offset src n out key s range apart serves in
      let b =
        pg_tde_crypt-IsCrypted pf is_ecb (offset + k) (src + k) j out' key s range' apart' serves in
      (
        a.state,
        b.state,
        a.returns,
        b.returns,
        λ i h. ground (arith, b.bytes.written i, a.bytes.written (k + i)),
      )
