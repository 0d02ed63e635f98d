-- ===== src/Cipher/Blowfish/Counter.antt =====
-- Theorems on the counter mode of Blowfish, blowfish_msb_sdctr of sshblowf.c.
use pageant.Base.{
  ℕ, zero, suc, ◌+◌, ◌*◌, ◌/◌, ◌%◌, ◌^◌, bit_xor, ◌≡◌, refl, sym, ap, ap₂, ◌∙◌, List, [], ◌∷◌, ◌++◌,
  ◌==◌, if◌then◌else◌, arith, drop, length, length-drop, All, All-drop,
}
use pageant.Base.Bits.{xor_cancel, bit_xor-lt}
use pageant.Word32.{u32, put_32bit_msb_first, get_32bit_msb_first}
use pageant.Word32.Bytes.{IsByte, msb-IsOrder}
use pageant.Cipher.Blowfish.{
  BlowfishContext, blowfish_encrypt, sdctr_loop, finish, blowfish_msb_sdctr,
}
use pageant.Cipher.Blowfish.Modes.{IsPair, written, blowfish_encrypt-IsPair, IsContext}
use pageant.Word32.Blocks.{IsWord, get-block, put-block, length-block, IsBlocks}

abbrev next_high : ℕ → ℕ → ℕ
next_high iv0 low = if low == 0 then u32 (iv0 + 1) else iv0

next_high-IsWord : (iv0 low : ℕ) → IsWord iv0 → IsWord (next_high iv0 low)
next_high-IsWord iv0 low h = ground arith

-- Counter mode with one counter of 64 bits, here any number: each block of `blk` is mixed with the
-- encrypted counter, which goes up by one.
unfoldable pub counter_mode : BlowfishContext → ℕ → ℕ → List ℕ → List ℕ
counter_mode ctx zero counter blk = []
counter_mode ctx (suc n) counter blk =
    let b = blowfish_encrypt ctx (counter / 2 ^ 32 % 2 ^ 32) (counter % 2 ^ 32) in
    put_32bit_msb_first (bit_xor (get_32bit_msb_first blk) b.l)
    ++ (put_32bit_msb_first (bit_xor (get_32bit_msb_first (drop 4 blk)) b.r)
        ++ counter_mode ctx n (counter + 1) (drop 8 blk))

next_high-counter :
    (c : ℕ) → next_high (c / 2 ^ 32 % 2 ^ 32) (u32 (c % 2 ^ 32 + 1)) ≡ (c + 1) / 2 ^ 32 % 2 ^ 32
next_high-counter c = ground arith

module _ (ctx : BlowfishContext) where
  -- One step on a block just stored.
  sdctr-block :
      (n l r iv0 iv1 : ℕ) (rest : List ℕ)
      → IsWord l
      → IsWord r
      → let b = blowfish_encrypt ctx iv0 iv1 in
        let low = u32 (iv1 + 1) in
        let later = sdctr_loop ctx n rest (next_high iv0 low) low in
        sdctr_loop ctx (suc n) (put_32bit_msb_first l ++ (put_32bit_msb_first r ++ rest)) iv0 iv1
        ≡ written
            (put_32bit_msb_first (bit_xor l b.l)
              ++ (put_32bit_msb_first (bit_xor r b.r) ++ later.blk))
            later.iv0
            later.iv1
  unfolding sdctr_loop
  sdctr-block n l r iv0 iv1 rest hl hr =
      let (e, (f, g)) = get-block msb-IsOrder l r rest hl hr in rw (e, f, g) refl

  sdctr_step :
      (n : ℕ) (blk : List ℕ) (iv0 iv1 : ℕ)
      → let b = blowfish_encrypt ctx iv0 iv1 in
        let low = u32 (iv1 + 1) in
        let later = sdctr_loop ctx n (drop 8 blk) (next_high iv0 low) low in
        sdctr_loop ctx (suc n) blk iv0 iv1
        ≡ written
            (put_32bit_msb_first (bit_xor (get_32bit_msb_first blk) b.l)
              ++ (put_32bit_msb_first (bit_xor (get_32bit_msb_first (drop 4 blk)) b.r)
                  ++ later.blk))
            later.iv0
            later.iv1
  unfolding sdctr_loop
  sdctr_step n blk iv0 iv1 = refl

  sdctr_loop-counter :
      (n c : ℕ) (blk : List ℕ)
      → sdctr_loop ctx n blk (c / 2 ^ 32 % 2 ^ 32) (c % 2 ^ 32)
        ≡ written (counter_mode ctx n c blk) ((c + n) / 2 ^ 32 % 2 ^ 32) ((c + n) % 2 ^ 32)
  unfolding sdctr_loop counter_mode
  sdctr_loop-counter zero c blk = let e : c + 0 ≡ c = omega arith in rw e refl
  sdctr_loop-counter (suc n) c blk =
      let e : c + suc n ≡ c + 1 + n = omega arith in
      let low : u32 (c % 2 ^ 32 + 1) ≡ (c + 1) % 2 ^ 32 = omega arith in
      sdctr_step n blk (c / 2 ^ 32 % 2 ^ 32) (c % 2 ^ 32)
      ∙ rw (next_high-counter c, low, sdctr_loop-counter n (c + 1) (drop 8 blk), e) refl

  sdctr-empty : (blk : List ℕ) (iv0 iv1 : ℕ) → sdctr_loop ctx 0 blk iv0 iv1 ≡ written [] iv0 iv1
  unfolding sdctr_loop
  sdctr-empty blk iv0 iv1 = refl

  sdctr-sdctr_loop :
      (n : ℕ) (blk : List ℕ) (iv0 iv1 : ℕ)
      → All IsWord ctx.p
      → All IsByte blk
      → length blk ≡ n * 8
      → IsWord iv0
      → IsWord iv1
      → let w = sdctr_loop ctx n blk iv0 iv1 in
        sdctr_loop ctx n w.blk iv0 iv1 ≡ written blk w.iv0 w.iv1
  sdctr-sdctr_loop zero [] iv0 iv1 hp h k h0 h1 =
      rw (sdctr-empty [] iv0 iv1) (sdctr-empty [] iv0 iv1)
  sdctr-sdctr_loop zero (x ∷ blk) iv0 iv1 hp h k h0 h1 = absurd (omega arith)
  sdctr-sdctr_loop (suc n) blk iv0 iv1 hp h k h0 h1 =
      let xl = get_32bit_msb_first blk in
      let xr = get_32bit_msb_first (drop 4 blk) in
      let hl : IsWord xl = msb-IsOrder.get-lt blk h (omega arith) in
      let hr : IsWord xr =
        msb-IsOrder.get-lt (drop 4 blk) (All-drop IsByte 4 blk h)
          (omega (arith, length-drop 4 blk)) in
      let b = blowfish_encrypt ctx iv0 iv1 in
      let hb : IsPair b = blowfish_encrypt-IsPair ctx iv0 iv1 hp h0 h1 in
      let low = u32 (iv1 + 1) in
      let high = next_high iv0 low in
      let rest = drop 8 blk in
      let later = sdctr_loop ctx n rest high low in
      let ih : sdctr_loop ctx n later.blk high low ≡ written rest later.iv0 later.iv1 =
        sdctr-sdctr_loop n rest high low hp (All-drop IsByte 8 blk h)
          (omega (arith, length-drop 8 blk)) (next_high-IsWord iv0 low h0) (omega arith) in
      rw (sdctr_step n blk iv0 iv1) (
        sdctr-block n (bit_xor xl b.l) (bit_xor xr b.r) iv0 iv1 later.blk
          (bit_xor-lt 32 xl b.l hl hb.0) (bit_xor-lt 32 xr b.r hr hb.1)
        ∙ rw (ih, xor_cancel xl b.l, xor_cancel xr b.r, put-block msb-IsOrder blk h (omega arith))
            refl)

  length-sdctr_loop :
      (n : ℕ) (blk : List ℕ) (iv0 iv1 : ℕ) → length (sdctr_loop ctx n blk iv0 iv1).blk ≡ n * 8
  unfolding sdctr_loop
  length-sdctr_loop zero blk iv0 iv1 = refl
  length-sdctr_loop (suc n) blk iv0 iv1 =
      let low = u32 (iv1 + 1) in
      length-block msb-IsOrder _ _ _
      ∙ omega (arith, length-sdctr_loop n (drop 8 blk) (next_high iv0 low) low)

-- The mode undoes itself.
sdctr-undone :
    (ctx : BlowfishContext) (blk : List ℕ)
    → IsContext ctx
    → IsBlocks blk
    → let c = blowfish_msb_sdctr blk ctx in blowfish_msb_sdctr c.0 ctx ≡ (blk, c.1)
unfolding blowfish_msb_sdctr
sdctr-undone ctx blk (hp, (h0, h1)) (h, k) =
    let n = length blk / 8 in
    let e : length (sdctr_loop ctx n blk ctx.iv0 ctx.iv1).blk / 8 ≡ n =
      omega (arith, length-sdctr_loop ctx n blk ctx.iv0 ctx.iv1) in
    rw (e, sdctr-sdctr_loop ctx n blk ctx.iv0 ctx.iv1 hp h (omega arith) h0 h1) refl

-- For a context whose words of `P` and chaining value are below 2 ^ 32 and a buffer of bytes in
-- whole blocks, `blowfish_msb_sdctr` mixes the blocks with the encryptions of the successive
-- values of one 64-bit counter, `iv0` its high word and `iv1` its low word, and leaves in `iv0`
-- and `iv1` the counter plus the number of blocks, modulo 2 ^ 64; applied from the same counter
-- to its own output it gives the buffer back, and ends with the same context.
pub sdctr-counter_mode :
    (ctx : BlowfishContext) (blk : List ℕ)
    → IsContext ctx
    → IsBlocks blk
    → let n = length blk / 8 in
      let c = ctx.iv0 * 2 ^ 32 + ctx.iv1 in
      let after = blowfish_msb_sdctr blk ctx in
      (after ≡ (
        counter_mode ctx n c blk,
        record ctx { iv0 = (c + n) / 2 ^ 32 % 2 ^ 32; iv1 = (c + n) % 2 ^ 32 },
      ))
      × (blowfish_msb_sdctr after.0 ctx ≡ (blk, after.1))
sdctr-counter_mode ctx blk (hp, (h0, h1)) h =
    let c = ctx.iv0 * 2 ^ 32 + ctx.iv1 in
    let high : c / 2 ^ 32 % 2 ^ 32 ≡ ctx.iv0 = omega (arith, h0, h1) in
    let low : c % 2 ^ 32 ≡ ctx.iv1 = omega (arith, h1) in
    (
      unfold blowfish_msb_sdctr in
          ap (finish ctx) (
            sym (ap₂ (sdctr_loop ctx (length blk / 8) blk) high low)
            ∙ sdctr_loop-counter ctx (length blk / 8) c blk),
      sdctr-undone ctx blk (hp, (h0, h1)) h,
    )
