-- ===== src/Cipher/Des/Swaps.antt =====
-- The bit permutations of DES undo each other, and keep the words in 32 bits.
use pageant.Base.{
  ℕ, zero, suc, ◌*◌, ◌/◌, ◌^◌, ◌≤◌, ◌<◌, bit_and, bit_xor, ◌≡◌, refl, sym, ap, ap₂, ◌∙◌, arith,
}
use pageant.Base.Bits.{
  bit_xor_half, bit_and-le, bit_xor-lt, xor_assoc, xor_cancel, xor_cancel_left, bit_xor_comm,
}
use pageant.Word32.{shl, shr}
use pageant.Word32.Blocks.{IsWord}
use pageant.Cipher.Des.{Pair}
use pageant.Cipher.Des.Block.{bitswap, bitswap', exchange, initial_permutation, final_permutation}
use native.Mathlib.Nat.{pow-suc, div-div-eq-div-mul}

abbrev pub IsPair : Pair → Type 0
IsPair x = IsWord x.l × IsWord x.r

abbrev pub pair : ℕ → ℕ → Pair
pair l r = record { l = l; r = r }

bit_xor_shift : (n a b : ℕ) → bit_xor a b / 2 ^ n ≡ bit_xor (a / 2 ^ n) (b / 2 ^ n)
bit_xor_shift zero a b =
    let p : 2 ^ 0 ≡ 1 = refl in
    let x : (c : ℕ) → c / 1 ≡ c = λ c. omega arith in
    x (bit_xor a b) ∙ ap₂ bit_xor (sym (x a)) (sym (x b))
bit_xor_shift (suc n) a b =
    let h : (c : ℕ) → c / 2 ^ suc n ≡ (c / 2) / 2 ^ n = λ c.
      let e : 2 * 2 ^ n ≡ 2 ^ suc n = omega (arith, pow-suc 2 n) in
      sym (div-div-eq-div-mul c 2 (2 ^ n) ∙ ap (λ (t : ℕ). c / t) e) in
    h (bit_xor a b)
    ∙ (ap (λ (t : ℕ). t / 2 ^ n) (bit_xor_half a b)
        ∙ (bit_xor_shift n (a / 2) (b / 2) ∙ ap₂ bit_xor (sym (h a)) (sym (h b))))

-- What is swapped, from the words after the swap, is what was swapped before.
swap_again :
    (n mask l r : ℕ)
    → ((s : ℕ) → s ≤ mask → shr (shl s n) n ≡ s)
    → mask < 2 ^ 32
    → let s = bit_and mask (bit_xor (shr r n) l) in
      bit_and mask (bit_xor (shr (bit_xor r (shl s n)) n) (bit_xor l s)) ≡ s
swap_again n mask l r h m =
    let s = bit_and mask (bit_xor (shr r n) l) in
    let e = h s (bit_and-le 32 mask (bit_xor (shr r n) l) m) in
    ap (bit_and mask) (
      ap (λ (t : ℕ). bit_xor t (bit_xor l s))
        (bit_xor_shift n r (shl s n) ∙ ap (bit_xor (shr r n)) e)
      ∙ cancel_both (shr r n) l s)
  where
    cancel_both : (a b c : ℕ) → bit_xor (bit_xor a c) (bit_xor b c) ≡ bit_xor a b
    cancel_both a b c =
        xor_assoc a c (bit_xor b c)
        ∙ ap (bit_xor a) (ap (bit_xor c) (bit_xor_comm b c) ∙ xor_cancel_left b c)

bitswap-bitswap :
    (n mask : ℕ) (x : Pair)
    → ((s : ℕ) → s ≤ mask → shr (shl s n) n ≡ s)
    → mask < 2 ^ 32
    → bitswap n mask (bitswap n mask x) ≡ x
unfolding bitswap
bitswap-bitswap n mask x h m =
    let s = bit_and mask (bit_xor (shr x.r n) x.l) in
    rw (swap_again n mask x.l x.r h m) (ap₂ pair (xor_cancel x.l s) (xor_cancel x.r (shl s n)))

bitswap'-bitswap' :
    (n mask : ℕ) (x : Pair)
    → ((s : ℕ) → s ≤ mask → shr (shl s n) n ≡ s)
    → mask < 2 ^ 32
    → bitswap' n mask (bitswap' n mask x) ≡ x
unfolding bitswap'
bitswap'-bitswap' n mask x h m = ap exchange (bitswap-bitswap n mask (exchange x) h m)

fits1 : (s : ℕ) → s ≤ 0x55555555 → shr (shl s 1) 1 ≡ s
fits1 s h = omega arith

fits2 : (s : ℕ) → s ≤ 0x33333333 → shr (shl s 2) 2 ≡ s
fits2 s h = omega arith

fits4 : (s : ℕ) → s ≤ 0x0f0f0f0f → shr (shl s 4) 4 ≡ s
fits4 s h = omega arith

fits8 : (s : ℕ) → s ≤ 0x00ff00ff → shr (shl s 8) 8 ≡ s
fits8 s h = omega arith

fits16 : (s : ℕ) → s ≤ 0x0000ffff → shr (shl s 16) 16 ≡ s
fits16 s h = omega arith

swap1 : (x : Pair) → bitswap' 1 0x55555555 (bitswap' 1 0x55555555 x) ≡ x
swap1 x = bitswap'-bitswap' 1 0x55555555 x fits1 (omega arith)

swap2 : (x : Pair) → bitswap 2 0x33333333 (bitswap 2 0x33333333 x) ≡ x
swap2 x = bitswap-bitswap 2 0x33333333 x fits2 (omega arith)

swap4 : (x : Pair) → bitswap' 4 0x0f0f0f0f (bitswap' 4 0x0f0f0f0f x) ≡ x
swap4 x = bitswap'-bitswap' 4 0x0f0f0f0f x fits4 (omega arith)

swap8 : (x : Pair) → bitswap 8 0x00ff00ff (bitswap 8 0x00ff00ff x) ≡ x
swap8 x = bitswap-bitswap 8 0x00ff00ff x fits8 (omega arith)

swap16 : (x : Pair) → bitswap' 16 0x0000ffff (bitswap' 16 0x0000ffff x) ≡ x
swap16 x = bitswap'-bitswap' 16 0x0000ffff x fits16 (omega arith)

pub initial-final : (x : Pair) → initial_permutation (final_permutation x) ≡ x
unfolding initial_permutation final_permutation
initial-final x =
    ap
      (λ (y : Pair).
        bitswap' 1 0x55555555
          (bitswap 8 0x00ff00ff (bitswap 2 0x33333333 (bitswap' 16 0x0000ffff y))))
      (swap4 (
        bitswap' 16 0x0000ffff
          (bitswap 2 0x33333333 (bitswap 8 0x00ff00ff (bitswap' 1 0x55555555 x)))))
    ∙ (ap (λ (y : Pair). bitswap' 1 0x55555555 (bitswap 8 0x00ff00ff (bitswap 2 0x33333333 y)))
          (swap16 (bitswap 2 0x33333333 (bitswap 8 0x00ff00ff (bitswap' 1 0x55555555 x))))
        ∙ (ap (λ (y : Pair). bitswap' 1 0x55555555 (bitswap 8 0x00ff00ff y))
              (swap2 (bitswap 8 0x00ff00ff (bitswap' 1 0x55555555 x)))
            ∙ (ap (λ (y : Pair). bitswap' 1 0x55555555 y) (swap8 (bitswap' 1 0x55555555 x))
                ∙ (swap1 x))))

pub final-initial : (x : Pair) → final_permutation (initial_permutation x) ≡ x
unfolding initial_permutation final_permutation
final-initial x =
    ap
      (λ (y : Pair).
        bitswap' 4 0x0f0f0f0f
          (bitswap' 16 0x0000ffff (bitswap 2 0x33333333 (bitswap 8 0x00ff00ff y))))
      (swap1 (
        bitswap 8 0x00ff00ff
          (bitswap 2 0x33333333 (bitswap' 16 0x0000ffff (bitswap' 4 0x0f0f0f0f x)))))
    ∙ (ap (λ (y : Pair). bitswap' 4 0x0f0f0f0f (bitswap' 16 0x0000ffff (bitswap 2 0x33333333 y)))
          (swap8 (bitswap 2 0x33333333 (bitswap' 16 0x0000ffff (bitswap' 4 0x0f0f0f0f x))))
        ∙ (ap (λ (y : Pair). bitswap' 4 0x0f0f0f0f (bitswap' 16 0x0000ffff y))
              (swap2 (bitswap' 16 0x0000ffff (bitswap' 4 0x0f0f0f0f x)))
            ∙ (ap (λ (y : Pair). bitswap' 4 0x0f0f0f0f y) (swap16 (bitswap' 4 0x0f0f0f0f x))
                ∙ (swap4 x))))

bitswap-IsPair : (n mask : ℕ) (x : Pair) → mask < 2 ^ 32 → IsPair x → IsPair (bitswap n mask x)
unfolding bitswap
bitswap-IsPair n mask x m (hl, hr) =
    let s = bit_and mask (bit_xor (shr x.r n) x.l) in
    let le = bit_and-le 32 mask (bit_xor (shr x.r n) x.l) m in
    (bit_xor-lt 32 x.l s hl (omega (arith, le, m)), bit_xor-lt 32 x.r (shl s n) hr (omega arith))

bitswap'-IsPair : (n mask : ℕ) (x : Pair) → mask < 2 ^ 32 → IsPair x → IsPair (bitswap' n mask x)
unfolding bitswap'
bitswap'-IsPair n mask x m (hl, hr) =
    let h = bitswap-IsPair n mask (exchange x) m (hr, hl) in (h.1, h.0)

pub initial-IsPair : (x : Pair) → IsPair x → IsPair (initial_permutation x)
unfolding initial_permutation
initial-IsPair x h = bitswap'-IsPair 1 0x55555555 _ (omega arith) (
    bitswap-IsPair 8 0x00ff00ff _ (omega arith) (
      bitswap-IsPair 2 0x33333333 _ (omega arith) (
        bitswap'-IsPair 16 0x0000ffff _ (omega arith)
          (bitswap'-IsPair 4 0x0f0f0f0f x (omega arith) h))))

pub final-IsPair : (x : Pair) → IsPair x → IsPair (final_permutation x)
unfolding final_permutation
final-IsPair x h = bitswap'-IsPair 4 0x0f0f0f0f _ (omega arith) (
    bitswap'-IsPair 16 0x0000ffff _ (omega arith) (
      bitswap-IsPair 2 0x33333333 _ (omega arith) (
        bitswap-IsPair 8 0x00ff00ff _ (omega arith)
          (bitswap'-IsPair 1 0x55555555 x (omega arith) h))))
