-- ===== src/Bignum.antt =====
-- sshbn.c: non-negative integers of any size. A Bignum of the source is an array whose element 0
-- counts the words that follow, least significant word first. Here it is the list of those words;
-- element 0 is the list's length, and word `b[i]` of the source is element `i - 1`.
-- The width is that of the first branch of sshbn.h, 64 bits with a 128-bit double word.
pub mod Value
pub mod Sum
pub mod Compare
pub mod Restore
pub mod Bytes
pub mod Digits
pub mod Ssh1
mod Tests
use pageant.Base.{
  ℕ, zero, suc, ◌+◌, ◌-◌, ◌*◌, ◌/◌, ◌%◌, ◌^◌, ◌<◌, max, bit_and, bit_or, Bool, true, false, not,
  ◌&&◌, ◌||◌, Option, none, some, List, [], ◌∷◌, ltb, leb, ◌==◌, if◌then◌else◌, length, get_or, set,
  take, replicate,
}
use mathlib.Core.Option

-- BignumInt has 64 bits.
abbrev pub bignum_int_bits : ℕ
bignum_int_bits = 64

abbrev pub word_base : ℕ
word_base = 2 ^ 64

abbrev pub bignum_int_mask : ℕ
bignum_int_mask = 2 ^ 64 - 1

abbrev pub Bignum : Type 0
Bignum = List ℕ

-- The macro BignumADC: the sum is taken in the double word, then cut into word and carry.
pub record Adc : Type 0 where
  pub word : ℕ
  pub carry : ℕ

unfoldable pub adc : ℕ → ℕ → ℕ → Adc
adc a b c =
    let t = (a % word_base + b % word_base + c) % 2 ^ 128 in
    record { word = t % word_base; carry = t / word_base % word_base }

-- `~w` on a word.
abbrev pub complement : ℕ → ℕ
complement w = bignum_int_mask - w % word_base

-- Word `b[1]` of what is left of a Bignum, 0 past its end; and what is left behind it.
abbrev pub first : List ℕ → ℕ
first [] = 0
first (w ∷ ws) = w

abbrev pub rest : List ℕ → List ℕ
rest [] = []
rest (w ∷ ws) = ws

-- What the loop of `bigadd` and `bigsub` has written: the words from `ret[i]` on, the carry out of
-- the last, and `maxspot`.
pub record Written : Type 0 where
  pub words : List ℕ
  pub carry : ℕ
  pub maxspot : ℕ

-- The loop from index `i` with `n` rounds left, over what is left of `a` and `b`; `of_b` is what
-- each round does to the word of `b` (nothing in `bigadd`, `~` in `bigsub`).
pub adc_loop : (ℕ → ℕ) → ℕ → ℕ → List ℕ → List ℕ → ℕ → ℕ → Written
adc_loop of_b zero i a b carry maxspot = record { words = []; carry = carry; maxspot = maxspot }
adc_loop of_b (suc n) i a b carry maxspot =
    let s = adc (first a) (of_b (first b)) carry in
    let spot = if not (s.word == 0) && ltb maxspot i then i else maxspot in
    let later = adc_loop of_b n (i + 1) (rest a) (rest b) s.carry spot in
    record { words = s.word ∷ later.words; carry = later.carry; maxspot = later.maxspot }

pub bigadd : Bignum → Bignum → Bignum
bigadd a b =
    let rlen = max (length a) (length b) + 1 in
    let w = adc_loop (λ x. x) rlen 1 a b 0 0 in take w.maxspot w.words

-- `none` is the null pointer: the difference would be negative.
pub bigsub : Bignum → Bignum → Option Bignum
bigsub a b =
    let rlen = max (length a) (length b) in
    let w = adc_loop complement rlen 1 a b 1 0 in
    if w.carry == 0 then none else some (take w.maxspot w.words)

-- What `while (b[0] > 1 && b[b[0]] == 0) b[0]--;` makes of the count.
restored_length : List ℕ → ℕ → ℕ
restored_length ws zero = 0
restored_length ws (suc zero) = 1
restored_length ws (suc (suc n)) =
    let shorter = restored_length ws (suc n) in
    if get_or ws (suc n) 0 == 0 then shorter else suc (suc n)

pub bn_restore_invariant : Bignum → Bignum
unfolding restored_length
bn_restore_invariant b = take (restored_length b (length b)) b
