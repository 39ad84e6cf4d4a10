-- ===== src/Aes/Counters.antt =====
-- What the counter loops write: for each block its number, big-endian, in 16 bytes.
use pg_tde.Base.{
  ℕ, zero, suc, ◌+◌, ◌-◌, ◌*◌, ◌^◌, ◌≤◌, ◌<◌, ◌≡◌, refl, ◌∙◌, ◌⊎◌, inl, inr, true, false, Option,
  some, arith, if◌then◌else◌, ltb, u32, u64, dec_lt, Mem, store,
}
use pg_tde.Aes.{
  Platform, data_bytes_per_aes_batch, sign_extend, counter_byte, put_counter, fill_counters,
}

module _ (pf : Platform) where
  -- Byte `p` of the counter of block `j`.
  abbrev pub block_byte : ℕ → ℕ → ℕ
  block_byte j p = if ltb p 8 then 0 else counter_byte pf j (15 - p)

  record IsPut (i j base : ℕ) (d : Mem) (out : Option Mem) : Type 0 where
    mem : Mem
    returns : out ≡ some mem
    inside : (k : ℕ) → i ≤ k → k < 8 → mem (base + 15 - k) ≡ counter_byte pf j k
    outside : (p : ℕ) → (p < base + 8) ⊎ (base + 15 < p + i) → mem p ≡ d p

  put_counter-IsPut :
      (n i j base : ℕ) (d : Mem)
      → i + n ≡ 8
      → base + 16 ≤ data_bytes_per_aes_batch
      → IsPut i j base d (put_counter pf n i j base d)
  unfolding put_counter store
  put_counter-IsPut zero i j base d e fits = record {
    mem = d;
    returns = refl;
    inside = λ k p q. absurd (omega arith);
    outside = λ p q. refl;
  }
  put_counter-IsPut (suc n) i j base d e fits =
      let at : u64 (base + 15 + 2 ^ 64 - i) ≡ base + 15 - i = omega arith in
      let d' = store d (base + 15 - i) (counter_byte pf j i) in
      let rest = put_counter-IsPut n (i + 1) j base d' (omega arith) fits in
      record {
        mem = rest.mem;
        returns = rw (at, put_counter) (ground (arith, rest.returns));
        inside = λ k p q. ground (arith, rest.inside k, rest.outside (base + 15 - i));
        outside = λ p q. ground (arith, rest.outside p);
      }

  -- One block's counter: bytes 0 to 7 are zero already, the code writes bytes 8 to 15.
  put_counter-block_byte :
      (j base : ℕ) (d : Mem)
      → base + 16 ≤ data_bytes_per_aes_batch
      → ((p : ℕ) → base ≤ p → p < base + 16 → d p ≡ 0)
      → (d' : Mem) × (put_counter pf 8 0 j base d ≡ some d')
        × ((p : ℕ) → p < 16 → d' (base + p) ≡ block_byte j p)
        × ((p : ℕ) → (p < base) ⊎ (base + 16 ≤ p) → d' p ≡ d p)
  put_counter-block_byte j base d fits fresh =
      let put = put_counter-IsPut 8 0 j base d refl fits in
      (
        put.mem,
        put.returns,
        λ p q. ground (arith, put.inside (15 - p), put.outside (base + p), fresh (base + p)),
        λ p q. put.outside p (ground arith),
      )

  pub record IsFilled (j b1 b2 : ℕ) (d : Mem) (out : Option Mem) : Type 0 where
    pub mem : Mem
    pub returns : out ≡ some mem
    pub filled : (k p : ℕ) → j ≤ k → k < b2 → p < 16 → mem (16 * (k - b1) + p) ≡ block_byte k p
    pub before : (p : ℕ) → p < 16 * (j - b1) → mem p ≡ d p

  fill_counters-lt :
      (fuel j b1 b2 : ℕ) (d d' : Mem)
      → b1 ≤ j
      → j < b2
      → b2 ≤ 2 ^ 31
      → put_counter pf 8 0 j (16 * (j - b1)) d ≡ some d'
      → fill_counters pf (suc fuel) j b1 b2 d ≡ fill_counters pf fuel (j + 1) b1 b2 d'
  unfolding fill_counters
  fill_counters-lt fuel j b1 b2 d d' h1 h2 h3 put =
      let test : ltb (sign_extend j) b2 ≡ true = ground arith in
      let at : u64 (16 * u64 (sign_extend j + 2 ^ 64 - b1)) ≡ 16 * (j - b1) = ground arith in
      let next : u32 (j + 1) ≡ j + 1 = omega arith in rw (fill_counters, test, at, put, next)

  fill_counters_self :
      (fuel b1 b2 : ℕ) (d : Mem) → b2 ≤ 2 ^ 31 → fill_counters pf (suc fuel) b2 b1 b2 d ≡ some d
  unfolding fill_counters
  fill_counters_self fuel b1 b2 d h =
      let test : ltb (sign_extend b2) b2 ≡ false = ground arith in rw (fill_counters, test)

  pub fill_counters-IsFilled :
      (fuel j b1 b2 : ℕ) (d : Mem)
      → b1 ≤ j
      → j ≤ b2
      → b2 ≤ b1 + 100
      → b2 ≤ 2 ^ 31
      → b2 < j + fuel
      → ((p : ℕ) → 16 * (j - b1) ≤ p → d p ≡ 0)
      → IsFilled j b1 b2 d (fill_counters pf fuel j b1 b2 d)
  fill_counters-IsFilled zero j b1 b2 d h1 h2 h3 h4 enough fresh = absurd (omega arith)
  fill_counters-IsFilled (suc fuel) j b1 b2 d h1 h2 h3 h4 enough fresh = elim (dec_lt j b2) [
    | yes more ↦
        (let base = 16 * (j - b1) in
          let put = put_counter-block_byte j base d (omega arith) (λ p lo hi. fresh p lo) in
          let rest =
            fill_counters-IsFilled fuel (j + 1) b1 b2 put.0 (omega arith) (omega arith) h3 h4
              (omega arith) (λ p q. put.3 p (inr (omega arith)) ∙ fresh p (omega arith)) in
          record {
            mem = rest.mem;
            returns = fill_counters-lt fuel j b1 b2 d put.0 h1 more h4 put.1 ∙ rest.returns;
            filled = λ k p lo hi q. elim (dec_lt j k) [
              | yes later ↦ rest.filled k p (omega arith) hi q
              | no now ↦
                  let e : k ≡ j = omega arith in
                  rw e (rest.before (base + p) (omega arith) ∙ put.2 p q)
            ];
            before = λ p q. rest.before p (omega arith) ∙ put.3 p (inl q);
          })
    | no done ↦
        let e : j ≡ b2 = omega arith in
        record {
          mem = d;
          returns = rw e (fill_counters_self fuel b1 b2 d h4);
          filled = λ k p lo hi q. absurd (omega arith);
          before = λ p q. refl;
        }
  ]
