-- ===== src/Bignum/Digits.antt =====
-- Single bytes and bits of a Bignum, and its length: `bignum_byte`, `bignum_bit`,
-- `bignum_bitcount`, `ssh1_bignum_length`, `ssh2_bignum_length` of sshbn.c.
use pageant.Base.{
  ℕ, zero, suc, ◌+◌, ◌-◌, ◌*◌, ◌/◌, ◌%◌, ◌^◌, ◌≤◌, ◌<◌, bit_and, ◌≡◌, ◌≢◌, inl, inr, refl, sym, ap,
  ◌∙◌, [], ◌∷◌, arith, leb, ◌==◌, if◌then◌else◌, length, get_or, get_or_past, Bool-cases,
}
use pageant.Base.Bits.{bit_and_mask}
use pageant.Base.Powers.{pow_suc, pow_add, pow_pos, pow_pow, below_eight}
use pageant.Bignum.{word_base, bignum_int_bits, Bignum}
use pageant.Bignum.Value.{value, Words, value-lt}
use native.Mathlib.Nat.{div-div-eq-div-mul, zero-div, add-mul-div_left}
use pageant.Bignum.Bytes.{pow_high}
use mathlib.Core.Path.{subst}
use native.Mathlib.Decide.{dec_lt}

-- Byte `i` of a Bignum, 0 being the least significant; the index of the source is never negative.
pub bignum_byte : Bignum → ℕ → ℕ
bignum_byte bn i =
    if leb (8 * length bn) i then 0 else bit_and (get_or bn (i / 8) 0 / 2 ^ (i % 8 * 8)) 0xff

pub bignum_bit : Bignum → ℕ → ℕ
bignum_bit bn i =
    if leb (bignum_int_bits * length bn) i
    then 0
    else bit_and (get_or bn (i / bignum_int_bits) 0 / 2 ^ (i % bignum_int_bits)) 1

-- The loop of `bignum_bitcount`; its argument is the source's `bitcount + 1`.
bitcount_loop : Bignum → ℕ → ℕ
bitcount_loop bn zero = 0
bitcount_loop bn (suc k) =
    let lower = bitcount_loop bn k in
    if get_or bn (k / bignum_int_bits) 0 / 2 ^ (k % bignum_int_bits) == 0 then lower else suc k

unfoldable pub bignum_bitcount : Bignum → ℕ
unfolding bitcount_loop
bignum_bitcount bn = bitcount_loop bn (length bn * bignum_int_bits)

unfoldable pub ssh1_bignum_length : Bignum → ℕ
ssh1_bignum_length bn = 2 + (bignum_bitcount bn + 7) / 8

unfoldable pub ssh2_bignum_length : Bignum → ℕ
ssh2_bignum_length bn = 4 + (bignum_bitcount bn + 8) / 8

-- One byte of a word below the word `hi`.
low_byte :
    (i : ℕ)
    → i < 8
    → (w hi : ℕ) → w < word_base
    → w / 2 ^ (i % 8 * 8) % 256 ≡ (w + word_base * hi) / 256 ^ i % 256
low_byte =
    below_eight
      (λ i.
        (w hi : ℕ)
        → w < word_base
        → w / 2 ^ (i % 8 * 8) % 256 ≡ (w + word_base * hi) / 256 ^ i % 256)
      (λ w hi h. omega arith) (λ w hi h. omega arith) (λ w hi h. omega arith)
      (λ w hi h. omega arith) (λ w hi h. omega arith) (λ w hi h. omega arith)
      (λ w hi h. omega arith) (λ w hi h. omega arith)

-- Byte `i` without the test of the range, which only saves a read of 0.
word_byte : Bignum → ℕ → ℕ
word_byte bn i = get_or bn (i / 8) 0 / 2 ^ (i % 8 * 8) % 256

word_byte-value : (bn : Bignum) (i : ℕ) → Words bn → word_byte bn i ≡ value bn / 256 ^ i % 256
unfolding word_byte value
word_byte-value [] i h =
    ap (λ (t : ℕ). t % 256) (zero-div (2 ^ (i % 8 * 8)) ∙ sym (zero-div (256 ^ i)))
word_byte-value (w ∷ ws) i (p, h) = elim (dec_lt i 8) [
  | yes small ↦ let e : i / 8 ≡ 0 = omega arith in rw e (low_byte i small w (value ws) p)
  | no large ↦
      let e : i / 8 ≡ suc ((i - 8) / 8) = omega arith in
      let f : i % 8 ≡ (i - 8) % 8 = omega arith in
      let hi : (w + word_base * value ws) / word_base ≡ value ws = omega arith in
      rw
        (
          e,
          f,
          pow_high i large,
          ← div-div-eq-div-mul (w + word_base * value ws) word_base (256 ^ (i - 8)),
          hi,
        )
        (word_byte-value ws (i - 8) h)
]

past_byte : (bn : Bignum) (i : ℕ) → 8 * length bn ≤ i → 0 ≡ word_byte bn i
unfolding word_byte
past_byte bn i h =
    let past : length bn ≤ i / 8 = omega arith in
    rw (get_or_past bn (i / 8) 0 past, zero-div (2 ^ (i % 8 * 8))) refl

-- For a number whose elements fit their words, `bignum_byte` is the byte of the value at that
-- position, also past the end of the array.
pub bignum_byte-value :
    (bn : Bignum) (i : ℕ) → Words bn → bignum_byte bn i ≡ value bn / 256 ^ i % 256
unfolding bignum_byte word_byte
bignum_byte-value bn i h = elim (Bool-cases (leb (8 * length bn) i)) [
  | inl past ↦ rw past (past_byte bn i (ground arith) ∙ word_byte-value bn i h)
  | inr inside ↦
      rw inside (bit_and_mask 8 (get_or bn (i / 8) 0 / 2 ^ (i % 8 * 8)) ∙ word_byte-value bn i h)
]

-- What is above bit `k` is what is above it in its word, and an even number.
shift_word :
    (bn : Bignum) (k : ℕ)
    → Words bn
    → (h : ℕ) × (value bn / 2 ^ k ≡ get_or bn (k / 64) 0 / 2 ^ (k % 64) + 2 * h)
unfolding value
shift_word [] k h = (0, ground (arith, zero-div (2 ^ k), zero-div (2 ^ (k % 64))))
shift_word (w ∷ ws) k (p, h) = elim (dec_lt k 64) [
  | yes small ↦
      let e : k / 64 ≡ 0 = omega arith in
      let f : k % 64 ≡ k = omega arith in
      let g : 64 ≡ k + suc (63 - k) = omega arith in
      let b : word_base ≡ 2 ^ k * (2 * 2 ^ (63 - k)) =
        ap (λ (t : ℕ). 2 ^ t) g
        ∙ pow_add 2 k (suc (63 - k))
        ∙ ap (λ (t : ℕ). 2 ^ k * t) (pow_suc 2 (63 - k)) in
      let split : w + word_base * value ws ≡ w + 2 ^ k * (2 * (2 ^ (63 - k) * value ws)) =
        omega (arith, ap (λ (t : ℕ). t * value ws) b) in
      (
        2 ^ (63 - k) * value ws,
        ap (λ (t : ℕ). t / 2 ^ k) split ∙ add-mul-div_left w _ (pow_pos k) ∙ rw (e, f) refl,
      )
  | no large ↦
      let e : k / 64 ≡ suc ((k - 64) / 64) = omega arith in
      let f : k % 64 ≡ (k - 64) % 64 = omega arith in
      let g : k ≡ 64 + (k - 64) = omega arith in
      let hi : (w + word_base * value ws) / word_base ≡ value ws = omega arith in
      let (q, r) = shift_word ws (k - 64) h in
      (
        q,
        ap (λ (t : ℕ). (w + word_base * value ws) / t)
              (ap (λ (t : ℕ). 2 ^ t) g ∙ pow_add 2 64 (k - 64))
            ∙ sym (div-div-eq-div-mul _ word_base (2 ^ (k - 64)))
            ∙ ap (λ (t : ℕ). t / 2 ^ (k - 64)) hi
            ∙ r
            ∙ rw (e, f) refl,
      )
]

-- `n` is the number of binary digits of `v`.
abbrev pub IsBitLength : ℕ → ℕ → Type 0
IsBitLength v n = (v < 2 ^ n) × (0 < n → 2 ^ (n - 1) ≤ v)

small_quotient : (v p q : ℕ) → v < 2 * p → v / p ≡ 2 * q → v < p
small_quotient v p q h e = grind arith

quotient_pos : (v p : ℕ) → v / p ≢ 0 → p ≤ v
quotient_pos v p h = grind arith

bitcount_loop-IsBitLength :
    (bn : Bignum) (k : ℕ)
    → Words bn
    → value bn < 2 ^ k
    → IsBitLength (value bn) (bitcount_loop bn k)
unfolding bitcount_loop
bitcount_loop-IsBitLength bn zero h lt = (lt, λ p. absurd (omega arith))
bitcount_loop-IsBitLength bn (suc k) h lt =
    let (q, e) = shift_word bn k h in
    let pred_suc : suc k - 1 ≡ k = omega arith in
    elim (Bool-cases (get_or bn (k / 64) 0 / 2 ^ (k % 64) == 0)) [
      | inl z ↦ rw z (
          bitcount_loop-IsBitLength bn k h
            (small_quotient _ (2 ^ k) q (omega (arith, pow_suc 2 k)) (ground arith)))
      | inr nz ↦ rw nz (lt, λ p. rw pred_suc (quotient_pos (value bn) (2 ^ k) (ground arith)))
    ]

-- For a number whose elements fit their words, `bignum_bitcount` is the number of binary digits
-- of the value, 0 for zero.
pub bignum_bitcount-IsBitLength :
    (bn : Bignum) → Words bn → IsBitLength (value bn) (bignum_bitcount bn)
unfolding bignum_bitcount
bignum_bitcount-IsBitLength bn h =
    bitcount_loop-IsBitLength bn (length bn * 64) h
      (subst (λ (t : ℕ). value bn < t) (pow_pow 2 64 (length bn)) (value-lt bn h))

-- For a number whose elements fit their words, `bignum_byte` is the byte of the value at that
-- position, also past the end of the array, and `bignum_bitcount` is the bit length of the value.
pub digits-value :
    (bn : Bignum) (i : ℕ)
    → Words bn
    → (bignum_byte bn i ≡ value bn / 256 ^ i % 256) × IsBitLength (value bn) (bignum_bitcount bn)
digits-value bn i h = (bignum_byte-value bn i h, bignum_bitcount-IsBitLength bn h)
