-- ===== src/Prelude/Bits.antt =====
-- `^` (exclusive or) on bytes and words at every width: it cancels, its operands commute, and it
-- stays within the width. The library has the digit recursion only.
use Prim.Native.Nat.{
  ℕ, zero, suc, ◌+◌, ◌*◌, ◌/◌, ◌%◌, ◌^◌, ◌≤◌, ◌<◌, bit_xor, digits, bitwise, differ,
  bit_xor-bitwise,
}
use mathlib.Core.Path.{◌≡◌, refl}
use native.Mathlib.Nat.{le_refl, pow-suc, pow-le-pow_right}
use native.Mathlib.Omega.{arith}

-- The digit recursion with fuel for its first operand does not depend on the fuel.
module _ (z : ℕ → ℕ) (f : ℕ → ℕ → ℕ) where
  enough_digits : (k l : ℕ) {x : ℕ} (y : ℕ) → x ≤ k → x ≤ l → digits z f k x y ≡ digits z f l x y
  enough_digits (suc k) (suc l) {x = suc x} y hk hl =
      rw (enough_digits k l {x = suc x / 2} (y / 2) (omega arith) (omega arith))
  enough_digits (suc k) (suc l) {x = zero} y hk hl = refl
  enough_digits (suc k) zero {x = zero} y hk hl = refl
  enough_digits zero (suc l) {x = zero} y hk hl = refl
  enough_digits zero zero {x = zero} y hk hl = refl
  enough_digits (suc k) zero {x = suc x} y hk hl = absurd (omega arith)
  enough_digits zero l {x = suc x} y hk hl = absurd (omega arith)

  pub bitwise-suc :
      (x y : ℕ)
      → bitwise z f (suc x) y ≡ bitwise z f (suc x / 2) (y / 2) * 2 + f (suc x % 2) (y % 2)
  bitwise-suc x y =
      let half = suc x / 2 in
      omega (arith, enough_digits x half {x = half} (y / 2) (omega arith) (le_refl half))

-- The lowest digit of `a ^ b`.
abbrev pub xor_digit : ℕ → ℕ → ℕ
xor_digit a b = (a + b) % 2

differ_small : (x y : ℕ) → x < 2 → y < 2 → differ x y ≡ xor_digit x y
differ_small zero y p q = omega arith
differ_small (suc zero) zero p q = refl
differ_small (suc zero) (suc zero) p q = refl
differ_small (suc zero) (suc (suc y)) p q = absurd (omega arith)
differ_small (suc (suc x)) y p q = absurd (omega arith)

differ_digit : (a b : ℕ) → differ (a % 2) (b % 2) ≡ xor_digit a b
differ_digit a b = omega (arith, differ_small (a % 2) (b % 2) (omega arith) (omega arith))

zero-bit_xor : (b : ℕ) → bit_xor 0 b ≡ b
zero-bit_xor b = bit_xor-bitwise 0 b

pub bit_xor_step : (a b : ℕ) → bit_xor a b ≡ bit_xor (a / 2) (b / 2) * 2 + xor_digit a b
bit_xor_step zero b = omega (arith, zero-bit_xor b, zero-bit_xor (b / 2))
bit_xor_step (suc a) b =
    simp bit_xor-bitwise (omega (arith, bitwise-suc (λ y. y) differ a b, differ_digit (suc a) b))

-- Exclusive or of two w-bit words is a w-bit word.
pub bit_xor-lt : (k a b : ℕ) → a < 2 ^ k → b < 2 ^ k → bit_xor a b < 2 ^ k
bit_xor-lt zero a b p q = let e : a ≡ 0 = omega arith in rw e (omega (arith, zero-bit_xor b))
bit_xor-lt (suc k) a b p q = omega (
  arith,
  bit_xor_step a b,
  pow-suc 2 k,
  bit_xor-lt k (a / 2) (b / 2) (omega (arith, pow-suc 2 k)) (omega (arith, pow-suc 2 k)),
)

pub lt-two-pow : (n : ℕ) → n < 2 ^ n
lt-two-pow zero = omega arith
lt-two-pow (suc n) = omega (arith, lt-two-pow n, pow-suc 2 n)

two-pow-le : (a b : ℕ) → 2 ^ a ≤ 2 ^ (a + b)
two-pow-le a b = pow-le-pow_right (omega arith) (omega arith)

two-pow-le' : (a b : ℕ) → 2 ^ b ≤ 2 ^ (a + b)
two-pow-le' a b = pow-le-pow_right (omega arith) (omega arith)

-- The digit step for a chain of two.
xor_twice_step :
    (a b c : ℕ)
    → bit_xor (bit_xor a b) c ≡ bit_xor (bit_xor (a / 2) (b / 2)) (c / 2) * 2 + (a + b + c) % 2
xor_twice_step a b c =
    let h : bit_xor a b / 2 ≡ bit_xor (a / 2) (b / 2) = omega (arith, bit_xor_step a b) in
    let s : bit_xor (bit_xor a b) c
        ≡ bit_xor (bit_xor (a / 2) (b / 2)) (c / 2) * 2 + xor_digit (bit_xor a b) c =
      rw (← h) (bit_xor_step (bit_xor a b) c) in
    omega (arith, s, bit_xor_step a b)

xor_cancel_fuel : (k a b : ℕ) → a < 2 ^ k → b < 2 ^ k → bit_xor (bit_xor a b) b ≡ a
xor_cancel_fuel zero a b p q =
    let e : a ≡ 0 = omega arith in let e' : b ≡ 0 = omega arith in rw (e, e') refl
xor_cancel_fuel (suc k) a b p q =
    let ih =
      xor_cancel_fuel k (a / 2) (b / 2) (omega (arith, pow-suc 2 k)) (omega (arith, pow-suc 2 k)) in
    omega (arith, ih, xor_twice_step a b b)

-- The same operand twice cancels.
pub xor_cancel : (a b : ℕ) → bit_xor (bit_xor a b) b ≡ a
xor_cancel a b =
    xor_cancel_fuel (a + b) a b (omega (arith, lt-two-pow a, two-pow-le a b))
      (omega (arith, lt-two-pow b, two-pow-le' a b))

xor_right_comm_fuel :
    (k a b c : ℕ)
    → a < 2 ^ k
    → b < 2 ^ k
    → c < 2 ^ k
    → bit_xor (bit_xor a b) c ≡ bit_xor (bit_xor a c) b
xor_right_comm_fuel zero a b c p q r =
    let e : b ≡ 0 = omega arith in let e' : c ≡ 0 = omega arith in rw (e, e') refl
xor_right_comm_fuel (suc k) a b c p q r =
    let ih =
      xor_right_comm_fuel k (a / 2) (b / 2) (c / 2) (omega (arith, pow-suc 2 k))
        (omega (arith, pow-suc 2 k)) (omega (arith, pow-suc 2 k)) in
    omega (arith, ih, xor_twice_step a b c, xor_twice_step a c b)

-- The operands of a chain may be swapped.
pub xor_right_comm : (a b c : ℕ) → bit_xor (bit_xor a b) c ≡ bit_xor (bit_xor a c) b
xor_right_comm a b c =
    xor_right_comm_fuel (a + (b + c)) a b c (omega (arith, lt-two-pow a, two-pow-le a (b + c)))
      (omega (arith, lt-two-pow b, two-pow-le b (a + c), two-pow-le' a (b + c), two-pow-le b c))
      (omega (arith, lt-two-pow c, two-pow-le' b c, two-pow-le' a (b + c)))
