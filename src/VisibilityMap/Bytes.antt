-- ===== src/VisibilityMap/Bytes.antt =====
-- One byte of the map: four pairs of bits. The laws are computed for every byte.
use pg_tde.Base.{
  ℕ, zero, suc, ◌*◌, ◌<◌, ◌≡◌, refl, bit_and, bit_or, Bool, true, false, ◌&&◌, arith, if◌then◌else◌,
  ltb, ◌==◌, ◌-◌, Bool-cases, inl, inr, ==_iff, sym, ◌∙◌,
}
use pg_tde.VisibilityMap.{bits_of, with_bits, mask_of, without, below}

-- `p i` for every `i < n`
abbrev all_below : ℕ → (ℕ → Bool) → Bool
all_below zero p = true
all_below (suc n) p = p n && all_below n p

and-left : (a b : Bool) → (a && b) ≡ true → a ≡ true
and-left true b e = refl
and-left false b e = e

and-right : (a b : Bool) → (a && b) ≡ true → b ≡ true
and-right true b e = e
and-right false true e = refl
and-right false false e = e

all_below-at : (n : ℕ) (p : ℕ → Bool) → all_below n p ≡ true → (i : ℕ) → i < n → p i ≡ true
all_below-at zero p e i h = absurd (omega arith)
all_below-at (suc n) p e i h = elim (Bool-cases (i == n)) [
  | inl same ↦ let eq : i ≡ n = ground (arith, same) in rw eq (and-left (p n) (all_below n p) e)
  | inr differs ↦ all_below-at n p (and-right (p n) (all_below n p) e) i (ground (arith, differs))
]

with_bits_test : ℕ → ℕ → ℕ → ℕ → Bool
with_bits_test k j flags byte =
    bits_of (j * 2) (with_bits (k * 2) flags byte)
    == (if j == k then bit_or (bits_of (j * 2) byte) flags else bits_of (j * 2) byte)

with_bits_tests :
    all_below 4 (λ k.
      all_below 4
        (λ j. all_below 4 (λ flags. all_below 256 (λ byte. with_bits_test k j flags byte))))
    ≡ true
unfolding with_bits_test
with_bits_tests = refl

without_test : ℕ → ℕ → ℕ → ℕ → Bool
without_test k j flags byte =
    bits_of (j * 2) (without (mask_of (k * 2) flags) byte)
    == (if j == k then bit_and (bits_of (j * 2) byte) (3 - flags) else bits_of (j * 2) byte)

without_tests :
    all_below 4 (λ k.
      all_below 4 (λ j. all_below 4 (λ flags. all_below 256 (λ byte. without_test k j flags byte))))
    ≡ true
unfolding without_test
without_tests = refl

-- A mask that meets no bit of the byte leaves the pair as it is.
unmet_test : ℕ → ℕ → ℕ → Bool
unmet_test k flags byte =
    if bit_and byte (mask_of (k * 2) flags) == 0
    then bits_of (k * 2) byte == bit_and (bits_of (k * 2) byte) (3 - flags)
    else true

unmet_tests :
    all_below 4 (λ k. all_below 4 (λ flags. all_below 256 (λ byte. unmet_test k flags byte))) ≡ true
unfolding unmet_test
unmet_tests = refl

same_test : ℕ → ℕ → ℕ → Bool
same_test k flags byte =
    if flags == bits_of (k * 2) byte
    then bit_or (bits_of (k * 2) byte) flags == bits_of (k * 2) byte
    else true

same_tests :
    all_below 4 (λ k. all_below 4 (λ flags. all_below 256 (λ byte. same_test k flags byte))) ≡ true
unfolding same_test
same_tests = refl

below_test : ℕ → ℕ → ℕ → Bool
below_test k j byte =
    bits_of (j * 2) (below (k * 2) byte) == (if ltb j k then bits_of (j * 2) byte else 0)

below_tests :
    all_below 4 (λ k. all_below 4 (λ j. all_below 256 (λ byte. below_test k j byte))) ≡ true
unfolding below_test
below_tests = refl

abbrev all3 : (ℕ → ℕ → ℕ → Bool) → ℕ → ℕ → Bool
all3 p k j = all_below 256 (p k j)

at3 :
    (p : ℕ → ℕ → ℕ → Bool)
    → all_below 4 (λ k. all_below 4 (λ j. all_below 256 (p k j))) ≡ true
    → (k j byte : ℕ) → k < 4
    → j < 4
    → byte < 256
    → p k j byte ≡ true
at3 p e k j byte hk hj hb =
    all_below-at 256 (p k j)
      (all_below-at 4 (λ j. all_below 256 (p k j))
        (all_below-at 4 (λ k. all_below 4 (λ j. all_below 256 (p k j))) e k hk) j hj)
      byte hb

at4 :
    (p : ℕ → ℕ → ℕ → ℕ → Bool)
    → all_below 4 (λ k. all_below 4 (λ j. all_below 4 (λ flags. all_below 256 (p k j flags))))
      ≡ true
    → (k j flags byte : ℕ) → k < 4
    → j < 4
    → flags < 4
    → byte < 256
    → p k j flags byte ≡ true
at4 p e k j flags byte hk hj hf hb =
    at3 (p k)
      (all_below-at 4 (λ k. all_below 4 (λ j. all_below 4 (λ flags. all_below 256 (p k j flags)))) e
        k hk)
      j flags byte hj hf hb

module _ (k j flags byte : ℕ) (hk : k < 4) (hj : j < 4) (hf : flags < 4) (hb : byte < 256) where
  pub bits_of-with_bits :
      bits_of (j * 2) (with_bits (k * 2) flags byte)
      ≡ (if j == k then bit_or (bits_of (j * 2) byte) flags else bits_of (j * 2) byte)
  unfolding with_bits_test
  bits_of-with_bits = (==_iff _ _).0 (at4 with_bits_test with_bits_tests k j flags byte hk hj hf hb)

  pub bits_of-without :
      bits_of (j * 2) (without (mask_of (k * 2) flags) byte)
      ≡ (if j == k then bit_and (bits_of (j * 2) byte) (3 - flags) else bits_of (j * 2) byte)
  unfolding without_test
  bits_of-without = (==_iff _ _).0 (at4 without_test without_tests k j flags byte hk hj hf hb)

module _ (k flags byte : ℕ) (hk : k < 4) (hf : flags < 4) (hb : byte < 256) where
  pub bits_of-unmet :
      (bit_and byte (mask_of (k * 2) flags) == 0) ≡ true
      → bits_of (k * 2) byte ≡ bit_and (bits_of (k * 2) byte) (3 - flags)
  unfolding unmet_test
  bits_of-unmet e =
      (==_iff _ _).0 (sym (rw (e) refl) ∙ at3 unmet_test unmet_tests k flags byte hk hf hb)

  pub bits_of-same :
      (flags == bits_of (k * 2) byte) ≡ true
      → bit_or (bits_of (k * 2) byte) flags ≡ bits_of (k * 2) byte
  unfolding same_test
  bits_of-same e =
      (==_iff _ _).0 (sym (rw (e) refl) ∙ at3 same_test same_tests k flags byte hk hf hb)

module _ (k j byte : ℕ) (hk : k < 4) (hj : j < 4) (hb : byte < 256) where
  pub bits_of-below :
      bits_of (j * 2) (below (k * 2) byte) ≡ (if ltb j k then bits_of (j * 2) byte else 0)
  unfolding below_test
  bits_of-below = (==_iff _ _).0 (at3 below_test below_tests k j byte hk hj hb)
