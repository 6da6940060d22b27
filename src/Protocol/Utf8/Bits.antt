-- ===== src/Protocol/Utf8/Bits.antt =====
-- The masks of the decoder as arithmetic on bytes.
use Prim.Native.Nat.{bit_and, bit_or, max, digits, bit_or-bitwise}
use native.Mathlib.Nat.{pow-suc}
use cmf_watch_pro_2_os.Base.{
  ℕ, zero, suc, ◌+◌, ◌*◌, ◌/◌, ◌%◌, ◌^◌, ◌≤◌, ◌<◌, ◌≡◌, refl, ap, Bool, true, ◌&&◌, none, some,
  arith, ◌==◌, ==_iff, if◌then◌else◌,
}
use cmf_watch_pro_2_os.Protocol.Utf8.{lead, is_continuation, join}

every_below : ℕ → (ℕ → Bool) → Bool
every_below zero p = true
every_below (suc n) p = p n && every_below n p

every_below-at : (n : ℕ) (p : ℕ → Bool) (x : ℕ) → every_below n p ≡ true → x < n → p x ≡ true
unfolding every_below
every_below-at zero p x h lt = absurd (omega arith)
every_below-at (suc n) p x h lt = ground (arith, every_below-at n p x)

-- A mask that agrees with an arithmetic expression on all bytes.
by_table :
    (mask : ℕ) (f : ℕ → ℕ)
    → every_below 256 (λ x. bit_and x mask == f x) ≡ true
    → (x : ℕ) → x < 256
    → bit_and x mask ≡ f x
by_table mask f table x h =
    (==_iff (bit_and x mask) (f x)).0 (every_below-at 256 (λ x. bit_and x mask == f x) x table h)

masks :
    (x : ℕ)
    → x < 256
    → (bit_and x 0xe0 ≡ x / 32 * 32)
      × (bit_and x 0x1f ≡ x % 32)
      × (bit_and x 0xf0 ≡ x / 16 * 16)
      × (bit_and x 0x0f ≡ x % 16)
      × (bit_and x 0xf8 ≡ x / 8 * 8)
      × (bit_and x 0x07 ≡ x % 8)
      × (bit_and x 0xc0 ≡ x / 64 * 64)
      × (bit_and x 0x3f ≡ x % 64)
unfolding every_below
masks x h = (
  by_table 0xe0 (λ x. x / 32 * 32) refl x h,
  by_table 0x1f (λ x. x % 32) refl x h,
  by_table 0xf0 (λ x. x / 16 * 16) refl x h,
  by_table 0x0f (λ x. x % 16) refl x h,
  by_table 0xf8 (λ x. x / 8 * 8) refl x h,
  by_table 0x07 (λ x. x % 8) refl x h,
  by_table 0xc0 (λ x. x / 64 * 64) refl x h,
  by_table 0x3f (λ x. x % 64) refl x h,
)

abbrev or_digits : ℕ → ℕ → ℕ → ℕ
or_digits count a b = digits (λ b. b) max count a b

or_digits_enough : (k l a b : ℕ) → a ≤ k → a ≤ l → or_digits k a b ≡ or_digits l a b
or_digits_enough zero zero _ b p q = refl
or_digits_enough (suc k) zero zero b p q = refl
or_digits_enough (suc k) (suc l) zero b p q = refl
or_digits_enough zero (suc l) zero b p q = refl
or_digits_enough zero (suc l) (suc a) b p q = absurd (omega arith)
or_digits_enough (suc k) zero (suc a) b p q = absurd (omega arith)
or_digits_enough (suc k) (suc l) (suc a) b p q =
    omega (arith, or_digits_enough k l (suc a / 2) (b / 2) (omega arith) (omega arith))

zero-bit_or : (b : ℕ) → bit_or 0 b ≡ b
zero-bit_or b = bit_or-bitwise 0 b

bit_or_step : (a b : ℕ) → bit_or a b ≡ bit_or (a / 2) (b / 2) * 2 + max (a % 2) (b % 2)
bit_or_step zero b = omega (arith, zero-bit_or b, zero-bit_or (b / 2))
bit_or_step (suc a) b = omega (
  arith,
  bit_or-bitwise (suc a) b,
  bit_or-bitwise (suc a / 2) (b / 2),
  or_digits_enough a (suc a / 2) (suc a / 2) (b / 2) (omega arith) (omega arith),
)

-- An even number on the left leaves the lowest digit to the right.
bit_or-double : (a b : ℕ) → bit_or (a * 2) b ≡ bit_or a (b / 2) * 2 + b % 2
bit_or-double a b =
    let half : a * 2 / 2 ≡ a = omega arith in
    let step : bit_or (a * 2) b ≡ bit_or a (b / 2) * 2 + max (a * 2 % 2) (b % 2) =
      rw half at (bit_or_step (a * 2) b) in
    omega arith

bit_or-zero_below : (n a : ℕ) → a ≤ n → bit_or a 0 ≡ a
bit_or-zero_below n zero h = zero-bit_or 0
bit_or-zero_below zero (suc a) h = absurd (omega arith)
bit_or-zero_below (suc n) (suc a) h =
    omega (arith, bit_or_step (suc a) 0, bit_or-zero_below n (suc a / 2) (omega arith))

-- Shifted by k digits, a number leaves room for k digits.
bit_or_shifted : (k a b : ℕ) → b < 2 ^ k → bit_or (a * 2 ^ k) b ≡ a * 2 ^ k + b
bit_or_shifted zero zero zero h = omega (arith, zero-bit_or 0)
bit_or_shifted zero (suc a) zero h =
    omega (arith, bit_or-zero_below (suc a * 1) (suc a * 1) (omega arith))
bit_or_shifted zero a (suc b) h = absurd (omega arith)
bit_or_shifted (suc k) a b h =
    let twice : a * 2 ^ suc k ≡ a * 2 ^ k * 2 =
      omega (arith, ap (λ (t : ℕ). a * t) (pow-suc 2 k)) in
    rw twice (
      omega (
        arith,
        bit_or-double (a * 2 ^ k) b,
        bit_or_shifted k a (b / 2) (omega (arith, pow-suc 2 k)),
      ))

pub join-eq : (c x : ℕ) → c < 2 ^ 26 → x < 256 → join c x ≡ c * 64 + x % 64
unfolding join
join-eq c x hc hx =
    let fits : c * 64 % 2 ^ 32 ≡ c * 64 = omega arith in
    rw (fits, (masks x hx).7) (bit_or_shifted 6 c (x % 64) (omega arith))

pub lead-eq :
    (b : ℕ)
    → b < 256
    → lead b ≡ (
        if b / 32 == 6
        then some (b % 32, 1)
        else if b / 16 == 14
        then some (b % 16, 2)
        else if b / 8 == 30
        then some (b % 8, 3)
        else none)
unfolding lead
lead-eq b h = ground (arith, masks b h)

pub is_continuation-eq : (x : ℕ) → x < 256 → is_continuation x ≡ (x / 64 == 2)
unfolding is_continuation
is_continuation-eq x h = ground (arith, masks x h)
