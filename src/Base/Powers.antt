-- ===== src/Base/Powers.antt =====
-- Powers, and a case split on the eight bytes of a word.
use Prim.Native.Nat.{ℕ, zero, suc, ◌+◌, ◌*◌, ◌^◌, ◌≤◌, ◌<◌}
use mathlib.Core.Path.{◌≡◌, refl, ap, sym, ◌∙◌}
use native.Mathlib.Nat.{pow-suc, pow-zero}
use native.Mathlib.Omega.{arith}

pub pow_suc : (a n : ℕ) → a ^ suc n ≡ a * a ^ n
pow_suc a n = pow-suc a n ∙ omega arith

pub pow_add : (a m n : ℕ) → a ^ (m + n) ≡ a ^ m * a ^ n
pow_add a zero n =
    let e : zero + n ≡ n = omega arith in
    ap (λ (t : ℕ). a ^ t) e ∙ omega (arith, ap (λ (t : ℕ). t * a ^ n) (pow-zero a))
pow_add a (suc m) n =
    let e : suc m + n ≡ suc (m + n) = omega arith in
    ap (λ (t : ℕ). a ^ t) e
    ∙ pow_suc a (m + n)
    ∙ ap (λ (t : ℕ). a * t) (pow_add a m n)
    ∙ omega (arith, ap (λ (t : ℕ). t * a ^ n) (pow_suc a m))

-- Eight bits make a byte.
pub pow_bytes : (n : ℕ) → 2 ^ (8 * n) ≡ 256 ^ n
pow_bytes zero = refl
pow_bytes (suc n) =
    let e : 8 * suc n ≡ 8 + 8 * n = omega arith in
    ap (λ (t : ℕ). 2 ^ t) e ∙ pow_add 2 8 (8 * n) ∙ omega (arith, pow_bytes n, pow_suc 256 n)

pub pow_mono : (m n : ℕ) → m ≤ n → 2 ^ m ≤ 2 ^ n
pow_mono zero zero h = omega arith
pow_mono zero (suc n) h = omega (arith, pow_mono zero n (omega arith), pow_suc 2 n)
pow_mono (suc m) zero h = absurd (omega arith)
pow_mono (suc m) (suc n) h = omega (arith, pow_mono m n (omega arith), pow_suc 2 n, pow_suc 2 m)

pub below_eight {ℓ} :
    (P : ℕ → Type ℓ) → P 0 → P 1 → P 2 → P 3 → P 4 → P 5 → P 6 → P 7 → (i : ℕ) → i < 8 → P i
below_eight P a b c d e f g k zero h = a
below_eight P a b c d e f g k (suc zero) h = b
below_eight P a b c d e f g k (suc (suc zero)) h = c
below_eight P a b c d e f g k (suc (suc (suc zero))) h = d
below_eight P a b c d e f g k (suc (suc (suc (suc zero)))) h = e
below_eight P a b c d e f g k (suc (suc (suc (suc (suc zero))))) h = f
below_eight P a b c d e f g k (suc (suc (suc (suc (suc (suc zero)))))) h = g
below_eight P a b c d e f g k (suc (suc (suc (suc (suc (suc (suc zero))))))) h = k
below_eight P a b c d e f g k (suc (suc (suc (suc (suc (suc (suc (suc i)))))))) h =
    absurd (omega arith)

pub pow_pos : (n : ℕ) → 0 < 2 ^ n
pow_pos zero = omega arith
pow_pos (suc n) = omega (arith, pow_pos n, pow_suc 2 n)

pub pow_pow : (a m n : ℕ) → (a ^ m) ^ n ≡ a ^ (n * m)
pow_pow a m zero =
    let e : zero ≡ zero * m = omega arith in
    pow-zero (a ^ m) ∙ sym (pow-zero a) ∙ ap (λ (t : ℕ). a ^ t) e
pow_pow a m (suc n) =
    let e : m + n * m ≡ suc n * m = omega arith in
    pow_suc (a ^ m) n
    ∙ ap (λ (t : ℕ). a ^ m * t) (pow_pow a m n)
    ∙ sym (pow_add a m (n * m))
    ∙ ap (λ (t : ℕ). a ^ t) e
