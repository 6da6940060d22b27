-- ===== src/Base/Xor.antt =====
-- Exclusive or of binary numbers at variables: it can be undone on either side and keeps a width.
use Prim.Native.Nat.{
  ℕ, zero, suc, ◌+◌, ◌*◌, ◌/◌, ◌%◌, ◌^◌, ◌≤◌, ◌<◌, bit_xor, differ, digits, bit_xor-bitwise,
}
use mathlib.Core.Path.{◌≡◌, refl}
use native.Mathlib.Omega.{arith}
use native.Mathlib.Nat.{pow-suc}

abbrev xor_digits : ℕ → ℕ → ℕ → ℕ
xor_digits count a b = digits (λ b. b) differ count a b

-- Any count of digits that is large enough gives the same result.
xor_digits_enough : (k l a b : ℕ) → a ≤ k → a ≤ l → xor_digits k a b ≡ xor_digits l a b
xor_digits_enough zero zero _ b p q = refl
xor_digits_enough (suc k) zero zero b p q = refl
xor_digits_enough (suc k) (suc l) zero b p q = refl
xor_digits_enough zero (suc l) zero b p q = refl
xor_digits_enough zero (suc l) (suc a) b p q = absurd (omega arith)
xor_digits_enough (suc k) zero (suc a) b p q = absurd (omega arith)
xor_digits_enough (suc k) (suc l) (suc a) b p q =
    omega (arith, xor_digits_enough k l (suc a / 2) (b / 2) (omega arith) (omega arith))

differ_digits : (x y : ℕ) → x < 2 → y < 2 → differ x y ≡ (x + y) % 2
differ_digits zero y hx hy = omega arith
differ_digits (suc zero) zero hx hy = omega arith
differ_digits (suc zero) (suc zero) hx hy = omega arith
differ_digits (suc zero) (suc (suc y)) hx hy = absurd (omega arith)
differ_digits (suc (suc x)) y hx hy = absurd (omega arith)

zero-bit_xor : (b : ℕ) → bit_xor 0 b ≡ b
zero-bit_xor b = bit_xor-bitwise 0 b

pub bit_xor_step : (a b : ℕ) → bit_xor a b ≡ bit_xor (a / 2) (b / 2) * 2 + (a % 2 + b % 2) % 2
bit_xor_step zero b = omega (arith, zero-bit_xor b, zero-bit_xor (b / 2))
bit_xor_step (suc a) b = omega (
  arith,
  bit_xor-bitwise (suc a) b,
  bit_xor-bitwise (suc a / 2) (b / 2),
  differ_digits (suc a % 2) (b % 2) (omega arith) (omega arith),
  xor_digits_enough a (suc a / 2) (suc a / 2) (b / 2) (omega arith) (omega arith),
)

left_below : (n a b c : ℕ) → a ≤ n → bit_xor a b ≡ bit_xor a c → b ≡ c
left_below n zero b c h e = omega (arith, zero-bit_xor b, zero-bit_xor c)
left_below zero (suc a) b c h e = absurd (omega arith)
left_below (suc n) (suc a) b c h e = omega (
  arith,
  bit_xor_step (suc a) b,
  bit_xor_step (suc a) c,
  left_below n (suc a / 2) (b / 2) (c / 2) (omega arith)
      (omega (arith, bit_xor_step (suc a) b, bit_xor_step (suc a) c)),
)

pub bit_xor_cancel_left : (a b c : ℕ) → bit_xor a b ≡ bit_xor a c → b ≡ c
bit_xor_cancel_left a b c = left_below a a b c (omega arith)

right_below : (n a c b : ℕ) → a ≤ n → c ≤ n → bit_xor a b ≡ bit_xor c b → a ≡ c
right_below zero a c b h k e = omega arith
right_below (suc n) a c b h k e = omega (
  arith,
  bit_xor_step a b,
  bit_xor_step c b,
  right_below n (a / 2) (c / 2) (b / 2) (omega arith) (omega arith)
      (omega (arith, bit_xor_step a b, bit_xor_step c b)),
)

pub bit_xor_cancel_right : (a c b : ℕ) → bit_xor a b ≡ bit_xor c b → a ≡ c
bit_xor_cancel_right a c b = right_below (a + c) a c b (omega arith) (omega arith)

pub bit_xor-lt : (k a b : ℕ) → a < 2 ^ k → b < 2 ^ k → bit_xor a b < 2 ^ k
bit_xor-lt zero zero b h g = omega (arith, zero-bit_xor b)
bit_xor-lt zero (suc a) b h g = absurd (omega arith)
bit_xor-lt (suc k) a b h g = omega (
  arith,
  pow-suc 2 k,
  bit_xor_step a b,
  bit_xor-lt k (a / 2) (b / 2) (omega (arith, pow-suc 2 k)) (omega (arith, pow-suc 2 k)),
)
