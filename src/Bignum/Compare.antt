-- ===== src/Bignum/Compare.antt =====
-- `bignum_cmp`, `decbn` and `bignum_mod_short` of sshbn.c.
use pageant.Base.{
  ℕ, zero, suc, ◌+◌, ◌-◌, ◌*◌, ◌/◌, ◌%◌, ◌^◌, ◌≤◌, ◌<◌, max, ◌≡◌, ◌≢◌, ◌⊎◌, inl, inr, refl, sym, ap,
  ◌∙◌, Bool, true, not, ◌&&◌, ◌||◌, Option, none, some, List, [], ◌∷◌, arith, ltb, ◌==◌,
  if◌then◌else◌, length, get_or, take, Bool-cases,
}
use pageant.Bignum.{word_base, bignum_int_mask, Bignum}
use pageant.Bignum.Value.{value, Words, TopNonzero}
use mathlib.Core.Option
use native.Mathlib.Nat.{pow-suc, mod-add-div, add-mul-mod_self_left, mod-eq_of_lt, mod-eq-sub-mod}

-- The -1, 0 and +1 that `bignum_cmp` returns.
pub data Sign : Type 0 where
  negative equal positive : Sign

-- The loop with `i` words left, from the top; `a[i]` past the count of `a` is 0.
unfoldable pub cmp_loop : ℕ → List ℕ → List ℕ → Sign
cmp_loop zero a b = equal
cmp_loop (suc i) a b =
    let aval = get_or a i 0 in
    let bval = get_or b i 0 in
    let lower = cmp_loop i a b in
    if ltb aval bval then negative else if ltb bval aval then positive else lower

-- The count that the comparison works with: a single word 0 counts as no word.
unfoldable pub significant : Bignum → ℕ
significant a = if length a == 1 && get_or a 0 0 == 0 then 0 else length a

-- `assert(amax == 0 || a[amax] != 0)`
unfoldable pub is_canonical : Bignum → Bool
unfolding significant
is_canonical a = significant a == 0 || not (get_or a (significant a - 1) 0 == 0)

-- `none` is a failed assertion.
pub bignum_cmp : Bignum → Bignum → Option Sign
bignum_cmp a b =
    if is_canonical a && is_canonical b
    then some (cmp_loop (max (significant a) (significant b)) a b)
    else none

-- `bn[i]--` on a word.
abbrev pub word_dec : ℕ → ℕ
word_dec w = (w + word_base - 1) % word_base

-- `none` is the write past the end that the source makes on a Bignum without words.
pub decbn : Bignum → Option Bignum
decbn [] = none
decbn (w ∷ []) = some (word_dec w ∷ [])
decbn (w ∷ x ∷ xs) =
    if w == 0
    then Option.map (λ ws. bignum_int_mask ∷ ws) (decbn (x ∷ xs))
    else some (word_dec w ∷ x ∷ xs)

-- The loop over the words from the top down; `unsigned long` has 32 bits at least.
mod_loop : ℕ → ℕ → List ℕ → ℕ
mod_loop m base_r [] = 0
mod_loop m base_r (w ∷ ws) = ((mod_loop m base_r ws * base_r) % 2 ^ 32 + w % m) % 2 ^ 32 % m

pub bignum_mod_short : Bignum → ℕ → ℕ
unfolding mod_loop
bignum_mod_short number modulus =
    mod_loop modulus ((bignum_int_mask - modulus + 1) % modulus) number % 2 ^ 16

-- Word `i` splits off the top of the lowest `i + 1` words.
pub value-take-suc :
    (i : ℕ) (a : List ℕ) → value (take (suc i) a) ≡ value (take i a) + word_base ^ i * get_or a i 0
unfolding value
value-take-suc zero [] = omega arith
value-take-suc zero (w ∷ ws) = omega arith
value-take-suc (suc i) [] = omega arith
value-take-suc (suc i) (w ∷ ws) =
    omega (arith, value-take-suc i ws, ap (λ (t : ℕ). t * get_or ws i 0) (pow-suc word_base i))

value-take-lt : (i : ℕ) (a : List ℕ) → Words a → value (take i a) < word_base ^ i
unfolding value
value-take-lt zero a h = omega arith
value-take-lt (suc i) [] h = omega (arith, value-take-lt i [] tt, pow-suc word_base i)
value-take-lt (suc i) (w ∷ ws) h = omega (arith, h.0, value-take-lt i ws h.1, pow-suc word_base i)

-- What a sign says of two numbers.
abbrev pub Compares : Sign → ℕ → ℕ → Type 0
Compares negative x y = x < y
Compares equal x y = x ≡ y
Compares positive x y = y < x

top_decides : (x y p u v : ℕ) → x < p → u < v → x + p * u < y + p * v
top_decides x y p u v h k = grind arith

Compares-add : (s : Sign) (x y t u : ℕ) → t ≡ u → Compares s x y → Compares s (x + t) (y + u)
Compares-add negative x y t u e h = omega arith
Compares-add equal x y t u e h = omega arith
Compares-add positive x y t u e h = omega arith

cmp_loop-Compares :
    (i : ℕ) (a b : List ℕ)
    → Words a
    → Words b
    → Compares (cmp_loop i a b) (value (take i a)) (value (take i b))
unfolding cmp_loop
cmp_loop-Compares zero a b ha hb = refl
cmp_loop-Compares (suc i) a b ha hb =
    let ea = value-take-suc i a in
    let eb = value-take-suc i b in
    elim (Bool-cases (ltb (get_or a i 0) (get_or b i 0))) [
      | inl lo ↦
          rw (lo, ea, eb)
            (top_decides _ _ (word_base ^ i) (get_or a i 0) (get_or b i 0) (value-take-lt i a ha)
              (ground arith))
      | inr not_lo ↦ elim (Bool-cases (ltb (get_or b i 0) (get_or a i 0))) [
        | inl hi ↦
            rw (not_lo, hi, ea, eb)
              (top_decides _ _ (word_base ^ i) (get_or b i 0) (get_or a i 0) (value-take-lt i b hb)
                (ground arith))
        | inr not_hi ↦
            rw (not_lo, not_hi, ea, eb)
              (Compares-add (cmp_loop i a b) _ _ _ _
                (ap (λ (t : ℕ). word_base ^ i * t) (ground arith)) (cmp_loop-Compares i a b ha hb))
      ]
    ]

-- Every element fits a word, and the top word is not zero unless it is the only one.
abbrev pub IsBignum : Bignum → Type 0
IsBignum b = Words b × (TopNonzero b ⊎ (b ≡ 0 ∷ []))

pub value-take_all : (n : ℕ) (a : List ℕ) → length a ≤ n → value (take n a) ≡ value a
unfolding value
value-take_all zero [] h = refl
value-take_all zero (w ∷ ws) h = absurd (omega arith)
value-take_all (suc n) [] h = refl
value-take_all (suc n) (w ∷ ws) h =
    ap (λ (t : ℕ). w + word_base * t) (value-take_all n ws (omega arith))

significant-value : (n : ℕ) (a : List ℕ) → significant a ≤ n → value (take n a) ≡ value a
unfolding significant value
significant-value n [] h = value-take_all n [] (omega arith)
significant-value zero (zero ∷ []) h = refl
significant-value (suc n) (zero ∷ []) h = value-take_all (suc n) (0 ∷ []) (omega arith)
significant-value n (suc w ∷ []) h = value-take_all n (suc w ∷ []) (ground arith)
significant-value n (w ∷ x ∷ xs) h = value-take_all n (w ∷ x ∷ xs) (ground arith)

TopNonzero-top : (w : ℕ) (ws : List ℕ) → TopNonzero (w ∷ ws) → get_or (w ∷ ws) (length ws) 0 ≢ 0
TopNonzero-top w [] h = h
TopNonzero-top w (x ∷ xs) h = TopNonzero-top x xs h

TopNonzero-is_canonical : (a : List ℕ) → TopNonzero a → is_canonical a ≡ true
unfolding is_canonical
TopNonzero-is_canonical [] h = refl
TopNonzero-is_canonical (w ∷ []) h = ground arith
TopNonzero-is_canonical (w ∷ x ∷ xs) h = ground (arith, TopNonzero-top w (x ∷ xs) h)

IsBignum-is_canonical : (a : List ℕ) → IsBignum a → is_canonical a ≡ true
IsBignum-is_canonical a (h, inl t) = TopNonzero-is_canonical a t
IsBignum-is_canonical a (h, inr e) = rw e (unfold is_canonical in refl)

-- On well-formed operands `bignum_cmp` fails no assertion, and its sign is that of the comparison
-- of the two values.
pub bignum_cmp-Compares :
    (a b : Bignum)
    → IsBignum a
    → IsBignum b
    → (s : Sign) × (bignum_cmp a b ≡ some s) × Compares s (value a) (value b)
unfolding bignum_cmp
bignum_cmp-Compares a b ha hb =
    let n = max (significant a) (significant b) in
    (
      cmp_loop n a b,
      rw (IsBignum-is_canonical a ha, IsBignum-is_canonical b hb) refl,
      rw (← significant-value n a (omega arith), ← significant-value n b (omega arith))
          (cmp_loop-Compares n a b ha.0 hb.0),
    )

-- For a number whose elements fit their words and whose value is not zero, `decbn` stops inside
-- the array, its result has one less as its value and the same length, and its elements fit their
-- words.
pub decbn-value :
    (b : Bignum)
    → Words b
    → 0 < value b
    → (d : Bignum) × (decbn b ≡ some d) × (value d + 1 ≡ value b) × Words d × (length d ≡ length b)
unfolding decbn value
decbn-value [] h pos = absurd (omega arith)
decbn-value (w ∷ []) h pos = (word_dec w ∷ [], refl, omega arith, omega arith, refl)
decbn-value (zero ∷ x ∷ xs) h pos =
    let (d, e, v, ws, l) = decbn-value (x ∷ xs) h.1 (omega arith) in
    (bignum_int_mask ∷ d, rw e refl, omega arith, (omega arith, ws), omega arith)
decbn-value (suc w ∷ x ∷ xs) h pos =
    (word_dec (suc w) ∷ x ∷ xs, ground arith, omega arith, (omega arith, h.1), refl)

-- `(r << 64) + w` modulo `m`, by the remainders of its parts.
mod_step : (v w b m : ℕ) → ((v % m) * (b % m) + w % m) % m ≡ (w + b * v) % m
mod_step v w b m = sym (
    ap (λ (t : ℕ). t % m)
      (split (v % m) (b % m) (w % m) (v / m) (b / m) (w / m) v b w (mod-add-div v m)
        (mod-add-div b m) (mod-add-div w m))
    ∙ add-mul-mod_self_left ((v % m) * (b % m) + w % m) m _)
  where
    split :
        (v' b' w' vq bq wq v b w : ℕ)
        → v' + m * vq ≡ v
        → b' + m * bq ≡ b
        → w' + m * wq ≡ w
        → w + b * v ≡ (v' * b' + w') + m * (wq + bq * v' + b' * vq + m * bq * vq)
    split v' b' w' vq bq wq v b w e f g = rw (← e, ← f, ← g) (omega arith)

product_fits : (x y z : ℕ) → x < 2 ^ 16 → y < 2 ^ 16 → z < 2 ^ 16 → x * y + z < 2 ^ 32
product_fits x y z p q r = grind arith

unwrapped : (x z : ℕ) → x + z < 2 ^ 32 → (x % 2 ^ 32 + z) % 2 ^ 32 ≡ x + z
unwrapped x z h = omega arith

mod_loop-value :
    (m : ℕ) (ws : List ℕ) → 0 < m → m < 2 ^ 16 → mod_loop m (word_base % m) ws ≡ value ws % m
unfolding mod_loop value
mod_loop-value m [] pos small = sym (mod-eq_of_lt pos)
mod_loop-value m (w ∷ ws) pos small =
    let fits =
      product_fits (value ws % m) (word_base % m) (w % m) (omega arith) (omega arith)
        (omega arith) in
    rw (mod_loop-value m ws pos small)
      (ap (λ (t : ℕ). t % m) (unwrapped _ (w % m) fits) ∙ mod_step (value ws) w word_base m)

-- For a modulus from 1 to 2 ^ 16 - 1, `bignum_mod_short` is the remainder of the value by it: no
-- product or sum of its 32-bit arithmetic wraps around.
pub bignum_mod_short-value :
    (number : Bignum) (modulus : ℕ)
    → 0 < modulus
    → modulus < 2 ^ 16
    → bignum_mod_short number modulus ≡ value number % modulus
unfolding bignum_mod_short
bignum_mod_short-value number modulus pos small =
    let e : (bignum_int_mask - modulus + 1) % modulus ≡ word_base % modulus =
      ap (λ (t : ℕ). t % modulus) (omega arith) ∙ sym (mod-eq-sub-mod (omega arith)) in
    rw (e, mod_loop-value modulus number pos small) (omega arith)
