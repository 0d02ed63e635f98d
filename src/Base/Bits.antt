-- ===== src/Base/Bits.antt =====
-- `&`, `|` and `^` on numbers of any width: one equation for the lowest digit, and the laws that
-- follow from it by induction on the number of digits.
use Prim.Native.Nat.{
  ℕ, zero, suc, ◌+◌, ◌-◌, ◌*◌, ◌/◌, ◌%◌, ◌^◌, ◌≤◌, ◌<◌, min, max, differ, digits, bitwise, bit_and,
  bit_or, bit_xor, bit_and-bitwise, bit_or-bitwise, bit_xor-bitwise,
}
use mathlib.Core.Path.{◌≡◌, refl, ap, sym, ◌∙◌}
use native.Mathlib.Nat.{pow-suc, one-le-pow, le_refl, add-zero, add-suc}
use native.Mathlib.Omega.{arith}

-- The count of digits to go does not matter once it covers the first number.
module _ (z : ℕ → ℕ) (f : ℕ → ℕ → ℕ) where
  digits_enough : (n m a b : ℕ) → a ≤ n → a ≤ m → digits z f n a b ≡ digits z f m a b
  digits_enough zero zero a b p q = refl
  digits_enough zero (suc m) zero b p q = refl
  digits_enough zero (suc m) (suc a) b p q = absurd (omega arith)
  digits_enough (suc n) zero zero b p q = refl
  digits_enough (suc n) zero (suc a) b p q = absurd (omega arith)
  digits_enough (suc n) (suc m) zero b p q = refl
  digits_enough (suc n) (suc m) (suc a) b p q =
      ap (λ (t : ℕ). t * 2 + f (suc a % 2) (b % 2))
        (digits_enough n m (suc a / 2) (b / 2) (omega arith) (omega arith))

  -- One digit of `bitwise`, for an operation that agrees with `z` once the first number is 0.
  bitwise_step :
      ((b : ℕ) → z b ≡ z (b / 2) * 2 + f 0 (b % 2))
      → (a b : ℕ) → bitwise z f a b ≡ bitwise z f (a / 2) (b / 2) * 2 + f (a % 2) (b % 2)
  bitwise_step hz zero b = hz b
  bitwise_step hz (suc a) b =
      ap (λ (t : ℕ). t * 2 + f (suc a % 2) (b % 2))
        (digits_enough a (suc a / 2) (suc a / 2) (b / 2) (omega arith) (le_refl _))

pub bit_and_step : (a b : ℕ) → bit_and a b ≡ bit_and (a / 2) (b / 2) * 2 + min (a % 2) (b % 2)
bit_and_step a b =
    bit_and-bitwise a b
    ∙ bitwise_step (λ x. zero) min (λ x. omega arith) a b
    ∙ ap (λ (t : ℕ). t * 2 + min (a % 2) (b % 2)) (sym (bit_and-bitwise (a / 2) (b / 2)))

pub bit_or_step : (a b : ℕ) → bit_or a b ≡ bit_or (a / 2) (b / 2) * 2 + max (a % 2) (b % 2)
bit_or_step a b =
    bit_or-bitwise a b
    ∙ bitwise_step (λ x. x) max (λ x. omega arith) a b
    ∙ ap (λ (t : ℕ). t * 2 + max (a % 2) (b % 2)) (sym (bit_or-bitwise (a / 2) (b / 2)))

pub bit_xor_step : (a b : ℕ) → bit_xor a b ≡ bit_xor (a / 2) (b / 2) * 2 + differ (a % 2) (b % 2)
bit_xor_step a b =
    bit_xor-bitwise a b
    ∙ bitwise_step (λ x. x) differ (λ x. omega arith) a b
    ∙ ap (λ (t : ℕ). t * 2 + differ (a % 2) (b % 2)) (sym (bit_xor-bitwise (a / 2) (b / 2)))

-- Exclusive or of two digits is their sum without the carry.
differ_digits : (x y : ℕ) → x < 2 → y < 2 → differ x y ≡ (x + y) % 2
differ_digits zero y p q = omega arith
differ_digits (suc zero) zero p q = refl
differ_digits (suc zero) (suc zero) p q = refl
differ_digits (suc zero) (suc (suc y)) p q = absurd (omega arith)
differ_digits (suc (suc x)) y p q = absurd (omega arith)

-- The half and the lowest digit of each operation.
pub bit_xor_half : (a b : ℕ) → bit_xor a b / 2 ≡ bit_xor (a / 2) (b / 2)
bit_xor_half a b =
    omega (arith, bit_xor_step a b, differ_digits (a % 2) (b % 2) (omega arith) (omega arith))

pub bit_xor_low : (a b : ℕ) → bit_xor a b % 2 ≡ (a + b) % 2
bit_xor_low a b =
    omega (arith, bit_xor_step a b, differ_digits (a % 2) (b % 2) (omega arith) (omega arith))

pub bit_and_half : (a b : ℕ) → bit_and a b / 2 ≡ bit_and (a / 2) (b / 2)
bit_and_half a b = omega (arith, bit_and_step a b)

pub bit_and_low : (a b : ℕ) → bit_and a b % 2 ≡ min (a % 2) (b % 2)
bit_and_low a b = omega (arith, bit_and_step a b)

pub bit_or_half : (a b : ℕ) → bit_or a b / 2 ≡ bit_or (a / 2) (b / 2)
bit_or_half a b = omega (arith, bit_or_step a b)

pub bit_or_low : (a b : ℕ) → bit_or a b % 2 ≡ max (a % 2) (b % 2)
bit_or_low a b = omega (arith, bit_or_step a b)

-- Numbers are equal if their halves and lowest digits are.
pub eq_of_halves : (a b : ℕ) → a / 2 ≡ b / 2 → a % 2 ≡ b % 2 → a ≡ b
eq_of_halves a b p q = omega arith

pub below_pow : (a : ℕ) → a < 2 ^ a
below_pow zero = omega arith
below_pow (suc a) = omega (arith, below_pow a, pow-suc 2 a)

pub bit_xor-lt : (n a b : ℕ) → a < 2 ^ n → b < 2 ^ n → bit_xor a b < 2 ^ n
bit_xor-lt zero zero zero p q = omega arith
bit_xor-lt zero zero (suc b) p q = absurd (omega arith)
bit_xor-lt zero (suc a) b p q = absurd (omega arith)
bit_xor-lt (suc n) a b p q = omega (
  arith,
  pow-suc 2 n,
  bit_xor_half a b,
  bit_xor-lt n (a / 2) (b / 2) (omega (arith, pow-suc 2 n)) (omega (arith, pow-suc 2 n)),
)

pub bit_and-le : (n a b : ℕ) → a < 2 ^ n → bit_and a b ≤ a
bit_and-le zero zero b p = omega (arith, bit_and-bitwise 0 b)
bit_and-le zero (suc a) b p = absurd (omega arith)
bit_and-le (suc n) a b p =
    omega (arith, bit_and_step a b, bit_and-le n (a / 2) (b / 2) (omega (arith, pow-suc 2 n)))

pub bit_or-lt : (n a b : ℕ) → a < 2 ^ n → b < 2 ^ n → bit_or a b < 2 ^ n
bit_or-lt zero zero zero p q = omega arith
bit_or-lt zero zero (suc b) p q = absurd (omega arith)
bit_or-lt zero (suc a) b p q = absurd (omega arith)
bit_or-lt (suc n) a b p q = omega (
  arith,
  pow-suc 2 n,
  bit_or_half a b,
  bit_or-lt n (a / 2) (b / 2) (omega (arith, pow-suc 2 n)) (omega (arith, pow-suc 2 n)),
)

pub bit_xor_zero : (n a : ℕ) → a < 2 ^ n → bit_xor a 0 ≡ a
bit_xor_zero zero zero h = refl
bit_xor_zero zero (suc a) h = absurd (omega arith)
bit_xor_zero (suc n) a h =
    omega (
      arith,
      bit_xor_half a 0,
      bit_xor_low a 0,
      bit_xor_zero n (a / 2) (omega (arith, pow-suc 2 n)),
    )

bit_or_zero : (n a : ℕ) → a < 2 ^ n → bit_or a 0 ≡ a
bit_or_zero zero zero h = refl
bit_or_zero zero (suc a) h = absurd (omega arith)
bit_or_zero (suc n) a h =
    omega (arith, bit_or_step a 0, bit_or_zero n (a / 2) (omega (arith, pow-suc 2 n)))

bit_and_zero : (n a : ℕ) → a < 2 ^ n → bit_and a 0 ≡ 0
bit_and_zero n a h = go n a h
  where
    go : (n a : ℕ) → a < 2 ^ n → bit_and a 0 ≡ 0
    go zero zero h = refl
    go zero (suc a) h = absurd (omega arith)
    go (suc n) a h = omega (arith, bit_and_step a 0, go n (a / 2) (omega (arith, pow-suc 2 n)))

bit_xor_comm_below : (n a b : ℕ) → a < 2 ^ n → b < 2 ^ n → bit_xor a b ≡ bit_xor b a
bit_xor_comm_below zero zero zero p q = refl
bit_xor_comm_below zero zero (suc b) p q = absurd (omega arith)
bit_xor_comm_below zero (suc a) b p q = absurd (omega arith)
bit_xor_comm_below (suc n) a b p q = omega (
  arith,
  bit_xor_half a b,
  bit_xor_low a b,
  bit_xor_half b a,
  bit_xor_low b a,
  bit_xor_comm_below n (a / 2) (b / 2) (omega (arith, pow-suc 2 n)) (omega (arith, pow-suc 2 n)),
)

pub bit_xor_self : (n a : ℕ) → a < 2 ^ n → bit_xor a a ≡ 0
bit_xor_self zero zero p = refl
bit_xor_self zero (suc a) p = absurd (omega arith)
bit_xor_self (suc n) a p =
    omega (
      arith,
      bit_xor_half a a,
      bit_xor_low a a,
      bit_xor_self n (a / 2) (omega (arith, pow-suc 2 n)),
    )

pub bit_xor_assoc :
    (n a b c : ℕ)
    → a < 2 ^ n
    → b < 2 ^ n
    → c < 2 ^ n
    → bit_xor (bit_xor a b) c ≡ bit_xor a (bit_xor b c)
bit_xor_assoc zero zero zero zero p q r = refl
bit_xor_assoc zero zero zero (suc c) p q r = absurd (omega arith)
bit_xor_assoc zero zero (suc b) c p q r = absurd (omega arith)
bit_xor_assoc zero (suc a) b c p q r = absurd (omega arith)
bit_xor_assoc (suc n) a b c p q r = ground (
  arith,
  bit_xor_half (bit_xor a b) c,
  bit_xor_low (bit_xor a b) c,
  bit_xor_half a b,
  bit_xor_low a b,
  bit_xor_half a (bit_xor b c),
  bit_xor_low a (bit_xor b c),
  bit_xor_half b c,
  bit_xor_low b c,
  pow-suc 2 n,
  bit_xor_assoc n (a / 2) (b / 2) (c / 2),
)

pub bit_xor_comm : (a b : ℕ) → bit_xor a b ≡ bit_xor b a
bit_xor_comm a b =
    bit_xor_comm_below (a + b) a b (below_sum a b) (omega (arith, below_sum b a, swap a b))
  where
    below_sum : (x y : ℕ) → x < 2 ^ (x + y)
    below_sum x y = omega (arith, below_pow (x + y))

    swap : (x y : ℕ) → 2 ^ (x + y) ≡ 2 ^ (y + x)
    swap x y = ap (λ (t : ℕ). 2 ^ t) (omega arith)

pub zero_bit_xor : (n a : ℕ) → a < 2 ^ n → bit_xor 0 a ≡ a
zero_bit_xor n a h = bit_xor_comm 0 a ∙ bit_xor_zero n a h

-- What was mixed in by `^` twice is gone.
pub bit_xor_cancel : (n a b : ℕ) → a < 2 ^ n → b < 2 ^ n → bit_xor (bit_xor a b) b ≡ a
bit_xor_cancel n a b p q =
    bit_xor_assoc n a b b p q q ∙ ap (bit_xor a) (bit_xor_self n b q) ∙ bit_xor_zero n a p

-- Two fields that do not overlap: `|` and `^` are `+`, and `&` with a mask takes the low one.
pub shift_suc : (k q : ℕ) → q * 2 ^ suc k ≡ 2 * (q * 2 ^ k)
shift_suc k q = omega (arith, ap (λ (t : ℕ). q * t) (pow-suc 2 k))

pub bit_or_fields : (k q r : ℕ) → r < 2 ^ k → bit_or (q * 2 ^ k) r ≡ q * 2 ^ k + r
bit_or_fields zero q zero p = bit_or_zero _ (q * 2 ^ 0) (below_pow _) ∙ omega arith
bit_or_fields zero q (suc r) p = absurd (omega arith)
bit_or_fields (suc k) q r p =
    ground
      (arith, bit_or_step (q * 2 ^ suc k) r, bit_or_fields k q (r / 2), pow-suc 2 k, shift_suc k q)

pub bit_xor_fields : (k q r : ℕ) → r < 2 ^ k → bit_xor (q * 2 ^ k) r ≡ q * 2 ^ k + r
bit_xor_fields zero q zero p = bit_xor_zero _ (q * 2 ^ 0) (below_pow _) ∙ omega arith
bit_xor_fields zero q (suc r) p = absurd (omega arith)
bit_xor_fields (suc k) q r p = ground (
  arith,
  bit_xor_half (q * 2 ^ suc k) r,
  bit_xor_low (q * 2 ^ suc k) r,
  bit_xor_fields k q (r / 2),
  pow-suc 2 k,
  shift_suc k q,
)

bit_and_fields : (k q r : ℕ) → r < 2 ^ k → bit_and (q * 2 ^ k + r) (2 ^ k - 1) ≡ r
bit_and_fields zero q zero p = bit_and_zero _ (q * 2 ^ 0 + 0) (below_pow _)
bit_and_fields zero q (suc r) p = absurd (omega arith)
bit_and_fields (suc k) q r p = ground (
  arith,
  bit_and_step (q * 2 ^ suc k + r) (2 ^ suc k - 1),
  bit_and_fields k q (r / 2),
  pow-suc 2 k,
  below_pow k,
  shift_suc k q,
)

pub bit_and_mask : (k a : ℕ) → bit_and a (2 ^ k - 1) ≡ a % 2 ^ k
bit_and_mask k a = ground (arith, one-le-pow k 2, bit_and_fields k (a / 2 ^ k) (a % 2 ^ k))

-- The laws of `^` with no bound: every number is below some power of two.
below_sums : (a b c : ℕ) → a < 2 ^ (a + b + c)
below_sums a b zero = omega (arith, below_pow (a + b), ap (λ (t : ℕ). 2 ^ t) (add-zero (a + b)))
below_sums a b (suc c) =
    omega
      (arith, below_sums a b c, pow-suc 2 (a + b + c), ap (λ (t : ℕ). 2 ^ t) (add-suc (a + b) c))

regroup : (a b c : ℕ) → 2 ^ (a + b + c) ≡ 2 ^ (b + c + a)
regroup a b c = ap_pow (a + b + c) (b + c + a) (omega arith)
  where
    ap_pow : (m n : ℕ) → m ≡ n → 2 ^ m ≡ 2 ^ n
    ap_pow m n e = ap (λ (t : ℕ). 2 ^ t) e

pub xor_assoc : (a b c : ℕ) → bit_xor (bit_xor a b) c ≡ bit_xor a (bit_xor b c)
xor_assoc a b c =
    bit_xor_assoc (a + b + c) a b c (below_sums a b c)
      (omega (arith, below_sums b c a, regroup a b c))
      (omega (arith, below_sums c a b, regroup a b c, regroup b c a))

pub xor_cancel : (a b : ℕ) → bit_xor (bit_xor a b) b ≡ a
xor_cancel a b =
    bit_xor_cancel (a + b + 0) a b (below_sums a b 0)
      (omega (arith, below_sums b 0 a, regroup a b 0))

pub xor_cancel_left : (a b : ℕ) → bit_xor b (bit_xor b a) ≡ a
xor_cancel_left a b =
    bit_xor_comm b (bit_xor b a) ∙ ap (λ (t : ℕ). bit_xor t b) (bit_xor_comm b a) ∙ xor_cancel a b

bit_or_comm_below : (n a b : ℕ) → a < 2 ^ n → b < 2 ^ n → bit_or a b ≡ bit_or b a
bit_or_comm_below zero zero zero p q = refl
bit_or_comm_below zero zero (suc b) p q = absurd (omega arith)
bit_or_comm_below zero (suc a) b p q = absurd (omega arith)
bit_or_comm_below (suc n) a b p q = omega (
  arith,
  bit_or_step a b,
  bit_or_step b a,
  bit_or_comm_below n (a / 2) (b / 2) (omega (arith, pow-suc 2 n)) (omega (arith, pow-suc 2 n)),
)

pub bit_or_comm : (a b : ℕ) → bit_or a b ≡ bit_or b a
bit_or_comm a b =
    bit_or_comm_below (a + b + 0) a b (below_sums a b 0)
      (omega (arith, below_sums b 0 a, regroup a b 0))
