-- ===== src/Bignum/Ssh1.antt =====
-- `ssh1_write_bignum` and `ssh1_read_bignum` of sshbn.c: the SSH-1 form of a number, a 16-bit bit
-- count and then the bytes, most significant first.
use pageant.Base.{
  ℕ, zero, suc, ◌+◌, ◌-◌, ◌*◌, ◌/◌, ◌%◌, ◌^◌, ◌<◌, bit_and, ◌≡◌, refl, sym, ap, ap₂, ◌∙◌, false,
  length-append, Option, none, some, List, [], ◌∷◌, ◌++◌, arith, ltb, if◌then◌else◌, length, get_or,
  take, drop,
}
use pageant.Base.Bits.{bit_and_mask}
use pageant.Base.Powers.{pow_suc, pow_bytes, pow_mono, pow_pos}
use pageant.Bignum.{Bignum}
use pageant.Bignum.Value.{value, Words}
use pageant.Bignum.Compare.{IsBignum}
use pageant.Bignum.Bytes.{be_value, IsBytes, from_bytes, from_bytes-value}
use pageant.Bignum.Digits.{
  bignum_byte, bignum_byte-value, bignum_bitcount, bignum_bitcount-IsBitLength, ssh1_bignum_length,
}
use native.Mathlib.Nat.{mod-eq_of_lt, mod-lt, mul-add-mod_self_left, div-add-mod}
use mathlib.Core.Path.{subst}

-- `for (i = n; i--;) *p++ = bignum_byte(bn, i);`
pub bytes_down : Bignum → ℕ → List ℕ
bytes_down bn zero = []
bytes_down bn (suc n) = bignum_byte bn n ∷ bytes_down bn n

-- The bytes written; their number is the value that the source returns.
unfoldable pub ssh1_write_bignum : Bignum → List ℕ
ssh1_write_bignum bn =
    let len = ssh1_bignum_length bn in
    let bitc = bignum_bitcount bn in
    bit_and (bitc / 2 ^ 8) 0xff ∷ bit_and bitc 0xff ∷ bytes_down bn (len - 2)

-- With a place for the result: the bytes consumed and the number; `none` is the -1 for data that
-- ends too early. There are at most 8192 bytes, so that the assertion of bignum_from_bytes holds.
unfoldable pub ssh1_read_bignum : List ℕ → Option (ℕ × Bignum)
ssh1_read_bignum bytes =
    if ltb (length bytes) 2
    then none
    else let w = get_or bytes 0 0 * 2 ^ 8 + get_or bytes 1 0 in
      let b = (w + 7) / 8 in
      if ltb (length bytes) (b + 2) then none else some (b + 2, from_bytes (take b (drop 2 bytes)))

pub length-bytes_down : (bn : Bignum) (n : ℕ) → length (bytes_down bn n) ≡ n
unfolding bytes_down
length-bytes_down bn zero = refl
length-bytes_down bn (suc n) = ap suc (length-bytes_down bn n)

pub bytes_down-IsBytes : (bn : Bignum) (n : ℕ) → Words bn → IsBytes (bytes_down bn n)
unfolding bytes_down
bytes_down-IsBytes bn zero h = tt
bytes_down-IsBytes bn (suc n) h =
    (omega (arith, bignum_byte-value bn n h), bytes_down-IsBytes bn n h)

split_top : (v p : ℕ) → 0 < p → v % (p * 256) ≡ v / p % 256 * p + v % p
split_top v p h =
    ap (λ (t : ℕ). t % (p * 256)) parts
    ∙ mul-add-mod_self_left (p * 256) (v / p / 256) low
    ∙ mod-eq_of_lt (low_fits (v / p % 256) (v % p) (omega arith) (mod-lt v h))
  where
    low : ℕ
    low = v / p % 256 * p + v % p

    parts : v ≡ p * 256 * (v / p / 256) + (v / p % 256 * p + v % p)
    parts =
        let e : v / p ≡ 256 * (v / p / 256) + v / p % 256 = omega arith in
        omega (arith, div-add-mod v p, ap (λ (t : ℕ). p * t) e)

    low_fits : (r s : ℕ) → r < 256 → s < p → r * p + s < p * 256
    low_fits r s a b = grind arith

pub bytes_down-value :
    (bn : Bignum) (n : ℕ) → Words bn → be_value (bytes_down bn n) ≡ value bn % 256 ^ n
unfolding bytes_down be_value
bytes_down-value bn zero h = omega arith
bytes_down-value bn (suc n) h =
    ap₂ (λ (x y : ℕ). x + y)
      (ap₂ (λ (x y : ℕ). x * 256 ^ y) (bignum_byte-value bn n h) (length-bytes_down bn n))
      (bytes_down-value bn n h)
    ∙ sym (split_top (value bn) (256 ^ n) positive)
    ∙ ap (λ (t : ℕ). value bn % t) (omega (arith, pow_suc 256 n))
  where
    positive : 0 < 256 ^ n
    positive = subst (λ (t : ℕ). 0 < t) (pow_bytes n) (pow_pos (8 * n))

take-append_length {ℓ} :
    {A : Type ℓ} (n : ℕ) (xs ys : List A) → length xs ≡ n → take n (xs ++ ys) ≡ xs
take-append_length zero [] ys e = refl
take-append_length zero (x ∷ xs) ys e = absurd (omega arith)
take-append_length (suc n) [] ys e = absurd (omega arith)
take-append_length (suc n) (x ∷ xs) ys e =
    ap (λ t. x ∷ t) (take-append_length n xs ys (omega arith))

-- Reading a header that announces the bytes `ws`.
read_header :
    (b0 b1 n : ℕ) (ws more : List ℕ)
    → (b0 * 2 ^ 8 + b1 + 7) / 8 ≡ n
    → length ws ≡ n
    → ssh1_read_bignum (b0 ∷ b1 ∷ (ws ++ more)) ≡ some (n + 2, from_bytes ws)
unfolding ssh1_read_bignum
read_header b0 b1 n ws more e l =
    let long : ltb (length (b0 ∷ b1 ∷ (ws ++ more))) 2 ≡ false = ground arith in
    let enough : ltb (length (b0 ∷ b1 ∷ (ws ++ more))) (n + 2) ≡ false =
      ground (arith, length-append ws more) in
    rw (long, e, enough, take-append_length n ws more l) refl

-- For a number whose elements fit their words and that has fewer than 2 ^ 16 bits,
-- `ssh1_read_bignum` reads back what `ssh1_write_bignum` wrote, whatever bytes follow: it
-- consumes exactly the bytes written, `ssh1_bignum_length` of them, and the number read has the
-- same value and is well formed.
pub ssh1_read_bignum-write :
    (bn : Bignum) (more : List ℕ)
    → Words bn
    → bignum_bitcount bn < 2 ^ 16
    → (r : Bignum) × (ssh1_read_bignum (ssh1_write_bignum bn ++ more)
        ≡ some (length (ssh1_write_bignum bn), r))
      × (value r ≡ value bn)
      × IsBignum r
      × (length (ssh1_write_bignum bn) ≡ ssh1_bignum_length bn)
unfolding ssh1_write_bignum ssh1_read_bignum ssh1_bignum_length
ssh1_read_bignum-write bn more h fits =
    let bc = bignum_bitcount bn in
    let n = (bc + 7) / 8 in
    let e : 2 + n - 2 ≡ n = omega arith in
    let count : (bit_and (bc / 2 ^ 8) 0xff * 2 ^ 8 + bit_and bc 0xff + 7) / 8 ≡ n =
      omega (arith, bit_and_mask 8 (bc / 2 ^ 8), bit_and_mask 8 bc) in
    let (v, ok) = from_bytes-value (bytes_down bn n) (bytes_down-IsBytes bn n h) in
    let bound : value bn < 256 ^ n =
      subst (λ (t : ℕ). value bn < t) (pow_bytes n)
        (omega (arith, bignum_bitcount-IsBitLength bn h, pow_mono bc (8 * n) (omega arith))) in
    (
      from_bytes (bytes_down bn n),
      rw e (
          read_header _ _ n (bytes_down bn n) more count (length-bytes_down bn n)
          ∙ ap (λ (t : ℕ). some (t, from_bytes (bytes_down bn n)))
              (omega (arith, length-bytes_down bn n))),
      v ∙ bytes_down-value bn n h ∙ mod-eq_of_lt bound,
      ok,
      rw e (omega (arith, length-bytes_down bn n)),
    )
