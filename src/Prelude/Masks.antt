-- ===== src/Prelude/Masks.antt =====
-- `&` with masks and `|` of disjoint fields, as arithmetic.
use Prim.Native.Nat.{
  ℕ, zero, suc, ◌+◌, ◌-◌, ◌*◌, ◌/◌, ◌%◌, ◌^◌, ◌≤◌, ◌<◌, min, max, bit_and, bit_or, bit_and-bitwise,
  bit_or-bitwise,
}
use mathlib.Core.Path.{◌≡◌, refl, sym, ap, ◌∙◌}
use native.Mathlib.Nat.{
  le_refl, pow-suc, div-div-eq-div-mul, mul-div-mul_right, mod-eq-sub-mul-div, mul-div-le,
}
use native.Mathlib.Decide.{dec_lt}
use native.Mathlib.Omega.{arith}
use gamespy_emulator.Prelude.Bits.{bitwise-suc, lt-two-pow}

bit_and_step : (m n : ℕ) → bit_and m n ≡ bit_and (m / 2) (n / 2) * 2 + min (m % 2) (n % 2)
bit_and_step (suc m) n = simp bit_and-bitwise (bitwise-suc (λ k. 0) min m n)
bit_and_step zero n = simp bit_and-bitwise (omega arith)

bit_and_zero_fuel : (n a b : ℕ) → a ≤ n → b ≤ 0 → bit_and a b ≡ 0
bit_and_zero_fuel n zero b h k = bit_and-bitwise 0 b
bit_and_zero_fuel zero (suc a) b h k = absurd (omega arith)
bit_and_zero_fuel (suc n) (suc a) b h k = omega (
  arith,
  bit_and_step (suc a) b,
  bit_and_zero_fuel n (suc a / 2) (b / 2) (omega arith) (omega arith),
)

bit_and_zero : (a b : ℕ) → b ≤ 0 → bit_and a b ≡ 0
bit_and_zero a b h = bit_and_zero_fuel a a b (le_refl _) h

bit_and-le_fuel : (n a b : ℕ) → b ≤ n → bit_and a b ≤ b
bit_and-le_fuel zero a b h = omega (arith, bit_and_zero a b h)
bit_and-le_fuel (suc n) a b h = elim (dec_lt 0 b) [
  | yes p ↦ omega (arith, bit_and_step a b, bit_and-le_fuel n (a / 2) (b / 2) (omega arith))
  | no p ↦ omega (arith, bit_and_zero a b (omega arith))
]

-- A mask bounds the result.
pub bit_and-le : (a b : ℕ) → bit_and a b ≤ b
bit_and-le a b = bit_and-le_fuel b a b (le_refl _)

-- `& 0xFF` gives a byte.
pub bit_and_byte : (a : ℕ) → bit_and a 255 < 256
bit_and_byte a = omega (arith, bit_and-le a 255)

bit_or_step : (m n : ℕ) → bit_or m n ≡ bit_or (m / 2) (n / 2) * 2 + max (m % 2) (n % 2)
bit_or_step (suc m) n = simp bit_or-bitwise (bitwise-suc (λ k. k) max m n)
bit_or_step zero n = simp bit_or-bitwise (omega arith)

bit_or-zero_fuel : (n a : ℕ) → a ≤ n → bit_or a 0 ≡ a
bit_or-zero_fuel n zero h = refl
bit_or-zero_fuel zero (suc a) h = absurd (omega arith)
bit_or-zero_fuel (suc n) (suc a) h =
    omega (arith, bit_or_step (suc a) 0, bit_or-zero_fuel n (suc a / 2) (omega arith))

pub bit_or-zero : (a : ℕ) → bit_or a 0 ≡ a
bit_or-zero a = bit_or-zero_fuel a a (le_refl _)

double_pow : (q k : ℕ) → q * 2 ^ suc k ≡ 2 * (q * 2 ^ k)
double_pow q k = omega (arith, ap (λ (t : ℕ). q * t) (pow-suc 2 k))

-- `(q << k) | r` is a sum where `r` has at most k digits.
pub bit_or_shifted : (k q r : ℕ) → r < 2 ^ k → bit_or (q * 2 ^ k) r ≡ q * 2 ^ k + r
bit_or_shifted zero q r h =
    let e : r ≡ 0 = omega arith in
    let e' : q * 2 ^ 0 ≡ q = omega arith in rw (e, e') (omega (arith, bit_or-zero q))
bit_or_shifted (suc k) q r h = ground (
  arith,
  bit_or_step (q * 2 ^ suc k) r,
  double_pow q k,
  pow-suc 2 k,
  bit_or_shifted k q (r / 2) (omega (arith, pow-suc 2 k)),
)

div_pow_suc : (k t : ℕ) → t * 2 / 2 ^ suc k ≡ t / 2 ^ k
div_pow_suc k t =
    ap (λ (m : ℕ). t * 2 / m) (omega (arith, pow-suc 2 k))
    ∙ mul-div-mul_right t (2 ^ k) (omega arith)

div_two_pow : (k a : ℕ) → a / 2 ^ suc k ≡ a / 2 / 2 ^ k
div_two_pow k a =
    ap (λ (t : ℕ). a / t) (omega (arith, pow-suc 2 k)) ∙ sym (div-div-eq-div-mul a 2 (2 ^ k))

mod_pow_suc : (k a : ℕ) → a % 2 ^ suc k ≡ a / 2 % 2 ^ k * 2 + a % 2
mod_pow_suc k a =
    let q = a / 2 / 2 ^ k in
    let whole : 2 ^ suc k * (a / 2 ^ suc k) ≡ 2 * (2 ^ k * q) =
      ap (λ (t : ℕ). 2 ^ suc k * t) (div_two_pow k a)
      ∙ ap (λ (t : ℕ). t * q) (pow-suc 2 k)
      ∙ omega arith in
    omega (
      arith,
      whole,
      mod-eq-sub-mul-div a (2 ^ suc k),
      mod-eq-sub-mul-div (a / 2) (2 ^ k),
      mul-div-le (a / 2) (2 ^ k),
    )

-- A mask of k ones takes the low k digits.
pub bit_and_mask : (k a : ℕ) → bit_and a (2 ^ k - 1) ≡ a % 2 ^ k
bit_and_mask zero a = omega (arith, bit_and_zero a 0 (le_refl _))
bit_and_mask (suc k) a =
    let half : (2 ^ suc k - 1) / 2 ≡ 2 ^ k - 1 = omega (arith, pow-suc 2 k, lt-two-pow k) in
    let odd : (2 ^ suc k - 1) % 2 ≡ 1 = omega (arith, pow-suc 2 k, lt-two-pow k) in
    let halves : bit_and (a / 2) ((2 ^ suc k - 1) / 2) ≡ a / 2 % 2 ^ k =
      ap (bit_and (a / 2)) half ∙ bit_and_mask k (a / 2) in
    omega (arith, bit_and_step a (2 ^ suc k - 1), halves, mod_pow_suc k a)

-- A mask of ones above k zeros, shifted down.
pub bit_and_shifted : (k a m : ℕ) → bit_and a (m * 2 ^ k) / 2 ^ k ≡ bit_and (a / 2 ^ k) m
bit_and_shifted zero a m =
    let e : m * 2 ^ 0 ≡ m = omega arith in
    let e' : a / 2 ^ 0 ≡ a = omega arith in rw (e, e') (omega arith)
bit_and_shifted (suc k) a m =
    let half : m * 2 ^ suc k / 2 ≡ m * 2 ^ k = omega (arith, double_pow m k) in
    let even : m * 2 ^ suc k % 2 ≡ 0 = omega (arith, double_pow m k) in
    let step : bit_and a (m * 2 ^ suc k) ≡ bit_and (a / 2) (m * 2 ^ k) * 2 =
      omega (arith, bit_and_step a (m * 2 ^ suc k), ap (bit_and (a / 2)) half) in
    ap (λ (t : ℕ). t / 2 ^ suc k) step
    ∙ div_pow_suc k (bit_and (a / 2) (m * 2 ^ k))
    ∙ bit_and_shifted k (a / 2) m
    ∙ ap (λ (t : ℕ). bit_and t m) (sym (div_two_pow k a))
