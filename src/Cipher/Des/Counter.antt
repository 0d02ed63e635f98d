-- ===== src/Cipher/Des/Counter.antt =====
-- The counter mode of sshdes.c undoes itself.
use pageant.Base.{
  ℕ, zero, suc, ◌+◌, ◌*◌, bit_xor, ◌≡◌, refl, ◌∙◌, List, [], ◌∷◌, ◌++◌, arith, drop, length,
  length-drop, All, All-drop,
}
use pageant.Base.Bits.{xor_cancel, bit_xor-lt}
use pageant.Word32.{u32, get_32bit_msb_first, put_32bit_msb_first}
use pageant.Word32.Bytes.{IsByte, msb-IsOrder}
use pageant.Word32.Blocks.{IsWord, get-block, put-block, length-block}
use pageant.Cipher.Des.{Pair}
use pageant.Cipher.Des.Modes.{sdctr_loop, next_high}
use pageant.Cipher.Des.Swaps.{IsPair}
use pageant.Cipher.Des.Chain.{written}

next_high-IsWord : (iv0 low : ℕ) → IsWord iv0 → IsWord (next_high iv0 low)
next_high-IsWord iv0 low h = ground arith

module _ (f : ℕ → ℕ → Pair) where
  sdctr-block :
      (n l r iv0 iv1 : ℕ) (rest : List ℕ)
      → IsWord l
      → IsWord r
      → let b = f iv0 iv1 in
        let low = u32 (iv1 + 1) in
        let later = sdctr_loop f n rest (next_high iv0 low) low in
        sdctr_loop f (suc n) (put_32bit_msb_first l ++ (put_32bit_msb_first r ++ rest)) iv0 iv1
        ≡ written
            (put_32bit_msb_first (bit_xor l b.l)
              ++ (put_32bit_msb_first (bit_xor r b.r) ++ later.blk))
            later.iv0
            later.iv1
  unfolding sdctr_loop
  sdctr-block n l r iv0 iv1 rest hl hr =
      let (e, (h, k)) = get-block msb-IsOrder l r rest hl hr in rw (e, h, k) refl

  sdctr_step :
      (n : ℕ) (blk : List ℕ) (iv0 iv1 : ℕ)
      → let b = f iv0 iv1 in
        let low = u32 (iv1 + 1) in
        let later = sdctr_loop f n (drop 8 blk) (next_high iv0 low) low in
        sdctr_loop f (suc n) blk iv0 iv1
        ≡ written
            (put_32bit_msb_first (bit_xor (get_32bit_msb_first blk) b.l)
              ++ (put_32bit_msb_first (bit_xor (get_32bit_msb_first (drop 4 blk)) b.r)
                  ++ later.blk))
            later.iv0
            later.iv1
  unfolding sdctr_loop
  sdctr_step n blk iv0 iv1 = refl

  sdctr-empty : (blk : List ℕ) (iv0 iv1 : ℕ) → sdctr_loop f 0 blk iv0 iv1 ≡ written [] iv0 iv1
  unfolding sdctr_loop
  sdctr-empty blk iv0 iv1 = refl

module _ (f : ℕ → ℕ → Pair) (bounded : (l r : ℕ) → IsWord l → IsWord r → IsPair (f l r)) where
  pub sdctr-sdctr_loop :
      (n : ℕ) (blk : List ℕ) (iv0 iv1 : ℕ)
      → All IsByte blk
      → length blk ≡ n * 8
      → IsWord iv0
      → IsWord iv1
      → let w = sdctr_loop f n blk iv0 iv1 in sdctr_loop f n w.blk iv0 iv1 ≡ written blk w.iv0 w.iv1
  sdctr-sdctr_loop zero [] iv0 iv1 h k h0 h1 =
      rw (sdctr-empty f [] iv0 iv1) (sdctr-empty f [] iv0 iv1)
  sdctr-sdctr_loop zero (x ∷ blk) iv0 iv1 h k h0 h1 = absurd (omega arith)
  sdctr-sdctr_loop (suc n) blk iv0 iv1 h k h0 h1 =
      let xl = get_32bit_msb_first blk in
      let xr = get_32bit_msb_first (drop 4 blk) in
      let hl : IsWord xl = msb-IsOrder.get-lt blk h (omega arith) in
      let hr : IsWord xr =
        msb-IsOrder.get-lt (drop 4 blk) (All-drop IsByte 4 blk h)
          (omega (arith, length-drop 4 blk)) in
      let b = f iv0 iv1 in
      let hb : IsPair b = bounded iv0 iv1 h0 h1 in
      let low = u32 (iv1 + 1) in
      let high = next_high iv0 low in
      let rest = drop 8 blk in
      let later = sdctr_loop f n rest high low in
      let ih : sdctr_loop f n later.blk high low ≡ written rest later.iv0 later.iv1 =
        sdctr-sdctr_loop n rest high low (All-drop IsByte 8 blk h)
          (omega (arith, length-drop 8 blk)) (next_high-IsWord iv0 low h0) (omega arith) in
      rw (sdctr_step f n blk iv0 iv1) (
        sdctr-block f n (bit_xor xl b.l) (bit_xor xr b.r) iv0 iv1 later.blk
          (bit_xor-lt 32 xl b.l hl hb.0) (bit_xor-lt 32 xr b.r hr hb.1)
        ∙ rw (ih, xor_cancel xl b.l, xor_cancel xr b.r, put-block msb-IsOrder blk h (omega arith))
            refl)

pub length-sdctr_loop :
    (f : ℕ → ℕ → Pair) (n : ℕ) (blk : List ℕ) (iv0 iv1 : ℕ)
    → length (sdctr_loop f n blk iv0 iv1).blk ≡ n * 8
unfolding sdctr_loop
length-sdctr_loop f zero blk iv0 iv1 = refl
length-sdctr_loop f (suc n) blk iv0 iv1 =
    length-block msb-IsOrder _ _ _ ∙ omega (arith, length-sdctr_loop f n (drop 8 blk) _ _)
