-- ===== src/Base/Bits.antt =====
-- The laws of `^` on bytes that the cipher's XOR rests on.
use Prim.Native.Nat.{
  ℕ, zero, suc, ◌+◌, ◌*◌, ◌/◌, ◌%◌, ◌≤◌, ◌<◌, bit_xor, bit_xor-bitwise, digits, differ,
}
use mathlib.Core.Path.{◌≡◌, refl, ◌∙◌}
use native.Mathlib.Omega.{arith}

abbrev xor_digits : ℕ → ℕ → ℕ → ℕ
xor_digits n a b = digits (λ b. b) differ n a b

xor_digits_fuel : (n m a b : ℕ) → a ≤ n → a ≤ m → xor_digits n a b ≡ xor_digits m a b
xor_digits_fuel zero zero a b p q = refl
xor_digits_fuel zero (suc m) zero b p q = refl
xor_digits_fuel zero (suc m) (suc a) b p q = absurd (omega arith)
xor_digits_fuel (suc n) zero zero b p q = refl
xor_digits_fuel (suc n) zero (suc a) b p q = absurd (omega arith)
xor_digits_fuel (suc n) (suc m) zero b p q = refl
xor_digits_fuel (suc n) (suc m) (suc a) b p q =
    omega (arith, xor_digits_fuel n m (suc a / 2) (b / 2) (omega arith) (omega arith))

zero-bit_xor : (b : ℕ) → bit_xor 0 b ≡ b
zero-bit_xor b = bit_xor-bitwise 0 b

bit_xor_step : (a b : ℕ) → bit_xor a b ≡ bit_xor (a / 2) (b / 2) * 2 + differ (a % 2) (b % 2)
bit_xor_step zero b = omega (arith, zero-bit_xor b, zero-bit_xor (b / 2))
bit_xor_step (suc a) b = omega (
  arith,
  bit_xor-bitwise (suc a) b,
  bit_xor-bitwise (suc a / 2) (b / 2),
  xor_digits_fuel a (suc a / 2) (suc a / 2) (b / 2) (omega arith) (omega arith),
)

differ-lt : (x y : ℕ) → x < 2 → y < 2 → differ x y < 2
differ-lt zero y p q = q
differ-lt (suc zero) zero p q = omega arith
differ-lt (suc zero) (suc zero) p q = omega arith
differ-lt (suc zero) (suc (suc y)) p q = absurd (omega arith)
differ-lt (suc (suc x)) y p q = absurd (omega arith)

differ-differ : (x y : ℕ) → x < 2 → y < 2 → differ (differ x y) y ≡ x
differ-differ zero zero p q = refl
differ-differ zero (suc zero) p q = refl
differ-differ zero (suc (suc y)) p q = absurd (omega arith)
differ-differ (suc zero) zero p q = refl
differ-differ (suc zero) (suc zero) p q = refl
differ-differ (suc zero) (suc (suc y)) p q = absurd (omega arith)
differ-differ (suc (suc x)) y p q = absurd (omega arith)

-- One digit of the claim, from the claim for the digits above it.
xor_twice_step :
    (a b : ℕ) → bit_xor (bit_xor (a / 2) (b / 2)) (b / 2) ≡ a / 2 → bit_xor (bit_xor a b) b ≡ a
xor_twice_step a b ih =
    let c = bit_xor a b in
    let d = differ (a % 2) (b % 2) in
    let d_lt : d < 2 = differ-lt (a % 2) (b % 2) (omega arith) (omega arith) in
    let back : differ d (b % 2) ≡ a % 2 =
      differ-differ (a % 2) (b % 2) (omega arith) (omega arith) in
    let step : c ≡ bit_xor (a / 2) (b / 2) * 2 + d = bit_xor_step a b in
    let high : c / 2 ≡ bit_xor (a / 2) (b / 2) = omega arith in
    let low : c % 2 ≡ d = omega arith in bit_xor_step c b ∙ rw (high, low, ih, back) (omega arith)

xor_twice_fuel : (n a b : ℕ) → a + b ≤ n → bit_xor (bit_xor a b) b ≡ a
xor_twice_fuel zero a b h =
    let ea : a ≡ 0 = omega arith in let eb : b ≡ 0 = omega arith in rw (ea, eb)
xor_twice_fuel (suc n) zero zero h = refl
xor_twice_fuel (suc n) zero (suc b) h =
    xor_twice_step zero (suc b) (xor_twice_fuel n (0 / 2) (suc b / 2) (omega arith))
xor_twice_fuel (suc n) (suc a) b h =
    xor_twice_step (suc a) b (xor_twice_fuel n (suc a / 2) (b / 2) (omega arith))

-- XOR with the same byte twice gives the byte back.
pub bit_xor-bit_xor : (a b : ℕ) → bit_xor (bit_xor a b) b ≡ a
bit_xor-bit_xor a b = xor_twice_fuel (a + b) a b (omega arith)
