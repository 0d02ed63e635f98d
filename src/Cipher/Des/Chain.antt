-- ===== src/Cipher/Des/Chain.antt =====
-- A mode undone with the inverse of its block function.
use pageant.Base.{
  ℕ, zero, suc, ◌*◌, ◌<◌, bit_and, bit_xor, ◌≡◌, refl, ◌∙◌, List, [], ◌∷◌, ◌++◌, arith, drop,
  length, length-drop, All, All-drop,
}
use pageant.Base.Bits.{xor_cancel_left, bit_xor-lt, bit_and_mask}
use pageant.Word32.{shr, get_32bit_msb_first, put_32bit_msb_first}
use pageant.Word32.Bytes.{IsByte, msb-IsOrder}
use pageant.Word32.Blocks.{IsWord, get-block, put-block, length-block}
use pageant.Cipher.Des.{Pair}
use pageant.Cipher.Des.Modes.{Written, encrypt_loop, decrypt_loop}
use pageant.Cipher.Des.Swaps.{IsPair, pair}

abbrev pub written : List ℕ → ℕ → ℕ → Written
written blk iv0 iv1 = record { blk = blk; iv0 = iv0; iv1 = iv1 }

-- A block function keeps words, and another undoes it on them.
pub record IsUndone (f g : ℕ → ℕ → Pair) : Type 0 where
  pub bounded : (l r : ℕ) → IsWord l → IsWord r → IsPair (f l r)
  pub undone : (l r : ℕ) → IsWord l → IsWord r → g (f l r).l (f l r).r ≡ pair l r

module _ (f g : ℕ → ℕ → Pair) (law : IsUndone f g) where
  -- One step on a block just stored.
  decrypt-block :
      (n l r iv0 iv1 : ℕ) (rest : List ℕ)
      → IsWord l
      → IsWord r
      → let out = g l r in
        let later = decrypt_loop g n rest l r in
        decrypt_loop g (suc n) (put_32bit_msb_first l ++ (put_32bit_msb_first r ++ rest)) iv0 iv1
        ≡ written
            (put_32bit_msb_first (bit_xor iv0 out.l)
              ++ (put_32bit_msb_first (bit_xor iv1 out.r) ++ later.blk))
            later.iv0
            later.iv1
  unfolding decrypt_loop
  decrypt-block n l r iv0 iv1 rest hl hr =
      let (e, (h, k)) = get-block msb-IsOrder l r rest hl hr in rw (e, h, k) refl

  decrypt-empty : (blk : List ℕ) (iv0 iv1 : ℕ) → decrypt_loop g 0 blk iv0 iv1 ≡ written [] iv0 iv1
  unfolding decrypt_loop
  decrypt-empty blk iv0 iv1 = refl

  pub decrypt-encrypt_loop :
      (n : ℕ) (blk : List ℕ) (iv0 iv1 : ℕ)
      → All IsByte blk
      → length blk ≡ n * 8
      → IsWord iv0
      → IsWord iv1
      → let w = encrypt_loop f n blk iv0 iv1 in
        decrypt_loop g n w.blk iv0 iv1 ≡ written blk w.iv0 w.iv1
  unfolding encrypt_loop
  decrypt-encrypt_loop zero [] iv0 iv1 h k h0 h1 = decrypt-empty [] iv0 iv1
  decrypt-encrypt_loop zero (x ∷ blk) iv0 iv1 h k h0 h1 = absurd (omega arith)
  decrypt-encrypt_loop (suc n) blk iv0 iv1 h k h0 h1 =
      let xl = get_32bit_msb_first blk in
      let xr = get_32bit_msb_first (drop 4 blk) in
      let hl : IsWord xl = msb-IsOrder.get-lt blk h (omega arith) in
      let hr : IsWord xr =
        msb-IsOrder.get-lt (drop 4 blk) (All-drop IsByte 4 blk h)
          (omega (arith, length-drop 4 blk)) in
      let c = f (bit_xor iv0 xl) (bit_xor iv1 xr) in
      let w0 = bit_xor-lt 32 iv0 xl h0 hl in
      let w1 = bit_xor-lt 32 iv1 xr h1 hr in
      let hc : IsPair c = law.bounded (bit_xor iv0 xl) (bit_xor iv1 xr) w0 w1 in
      let later = encrypt_loop f n (drop 8 blk) c.l c.r in
      let ih : decrypt_loop g n later.blk c.l c.r ≡ written (drop 8 blk) later.iv0 later.iv1 =
        decrypt-encrypt_loop n (drop 8 blk) c.l c.r (All-drop IsByte 8 blk h)
          (omega (arith, length-drop 8 blk)) hc.0 hc.1 in
      decrypt-block n c.l c.r iv0 iv1 later.blk hc.0 hc.1
      ∙ rw
          (
            ih,
            law.undone (bit_xor iv0 xl) (bit_xor iv1 xr) w0 w1,
            xor_cancel_left xl iv0,
            xor_cancel_left xr iv1,
            put-block msb-IsOrder blk h (omega arith),
          )
          refl

  pub length-encrypt_loop :
      (n : ℕ) (blk : List ℕ) (iv0 iv1 : ℕ) → length (encrypt_loop f n blk iv0 iv1).blk ≡ n * 8
  unfolding encrypt_loop
  length-encrypt_loop zero blk iv0 iv1 = refl
  length-encrypt_loop (suc n) blk iv0 iv1 =
      length-block msb-IsOrder _ _ _ ∙ omega (arith, length-encrypt_loop n (drop 8 blk) _ _)

module _ (f : ℕ → ℕ → Pair) where
  -- The other way round: what decryption stores, encrypted.
  encrypt-block :
      (n l r iv0 iv1 : ℕ) (rest : List ℕ)
      → IsWord l
      → IsWord r
      → let out = f (bit_xor iv0 l) (bit_xor iv1 r) in
        let later = encrypt_loop f n rest out.l out.r in
        encrypt_loop f (suc n) (put_32bit_msb_first l ++ (put_32bit_msb_first r ++ rest)) iv0 iv1
        ≡ written
            (put_32bit_msb_first out.l ++ (put_32bit_msb_first out.r ++ later.blk))
            later.iv0
            later.iv1
  unfolding encrypt_loop
  encrypt-block n l r iv0 iv1 rest hl hr =
      let (e, (h, k)) = get-block msb-IsOrder l r rest hl hr in rw (e, h, k) refl

  encrypt-empty : (blk : List ℕ) (iv0 iv1 : ℕ) → encrypt_loop f 0 blk iv0 iv1 ≡ written [] iv0 iv1
  unfolding encrypt_loop
  encrypt-empty blk iv0 iv1 = refl

module _ (f g : ℕ → ℕ → Pair) (law : IsUndone g f) where
  pub encrypt-decrypt_loop :
      (n : ℕ) (blk : List ℕ) (iv0 iv1 : ℕ)
      → All IsByte blk
      → length blk ≡ n * 8
      → IsWord iv0
      → IsWord iv1
      → let w = decrypt_loop g n blk iv0 iv1 in
        encrypt_loop f n w.blk iv0 iv1 ≡ written blk w.iv0 w.iv1
  unfolding decrypt_loop
  encrypt-decrypt_loop zero [] iv0 iv1 h k h0 h1 = encrypt-empty f [] iv0 iv1
  encrypt-decrypt_loop zero (x ∷ blk) iv0 iv1 h k h0 h1 = absurd (omega arith)
  encrypt-decrypt_loop (suc n) blk iv0 iv1 h k h0 h1 =
      let xl = get_32bit_msb_first blk in
      let xr = get_32bit_msb_first (drop 4 blk) in
      let hl : IsWord xl = msb-IsOrder.get-lt blk h (omega arith) in
      let hr : IsWord xr =
        msb-IsOrder.get-lt (drop 4 blk) (All-drop IsByte 4 blk h)
          (omega (arith, length-drop 4 blk)) in
      let out = g xl xr in
      let ho : IsPair out = law.bounded xl xr hl hr in
      let later = decrypt_loop g n (drop 8 blk) xl xr in
      let ih : encrypt_loop f n later.blk xl xr ≡ written (drop 8 blk) later.iv0 later.iv1 =
        encrypt-decrypt_loop n (drop 8 blk) xl xr (All-drop IsByte 8 blk h)
          (omega (arith, length-drop 8 blk)) hl hr in
      encrypt-block f n (bit_xor iv0 out.l) (bit_xor iv1 out.r) iv0 iv1 later.blk
        (bit_xor-lt 32 iv0 out.l h0 ho.0) (bit_xor-lt 32 iv1 out.r h1 ho.1)
      ∙ rw
          (
            xor_cancel_left out.l iv0,
            xor_cancel_left out.r iv1,
            law.undone xl xr hl hr,
            ih,
            put-block msb-IsOrder blk h (omega arith),
          )
          refl

-- What the modes store are whole blocks of bytes.
put-All : (v : ℕ) (rest : List ℕ) → All IsByte rest → All IsByte (put_32bit_msb_first v ++ rest)
unfolding put_32bit_msb_first
put-All v rest h =
    let byte : (x : ℕ) → bit_and x 0xff < 256 = λ x. omega (arith, bit_and_mask 8 x) in
    (byte (shr v 24), (byte (shr v 16), (byte (shr v 8), (byte v, h))))

pub encrypt_loop-All :
    (f : ℕ → ℕ → Pair) (n : ℕ) (blk : List ℕ) (iv0 iv1 : ℕ)
    → All IsByte (encrypt_loop f n blk iv0 iv1).blk
unfolding encrypt_loop
encrypt_loop-All f zero blk iv0 iv1 = tt
encrypt_loop-All f (suc n) blk iv0 iv1 =
    put-All _ _ (put-All _ _ (encrypt_loop-All f n (drop 8 blk) _ _))

pub decrypt_loop-All :
    (g : ℕ → ℕ → Pair) (n : ℕ) (blk : List ℕ) (iv0 iv1 : ℕ)
    → All IsByte (decrypt_loop g n blk iv0 iv1).blk
unfolding decrypt_loop
decrypt_loop-All g zero blk iv0 iv1 = tt
decrypt_loop-All g (suc n) blk iv0 iv1 =
    put-All _ _ (put-All _ _ (decrypt_loop-All g n (drop 8 blk) _ _))

pub length-decrypt_loop :
    (g : ℕ → ℕ → Pair) (n : ℕ) (blk : List ℕ) (iv0 iv1 : ℕ)
    → length (decrypt_loop g n blk iv0 iv1).blk ≡ n * 8
unfolding decrypt_loop
length-decrypt_loop g zero blk iv0 iv1 = refl
length-decrypt_loop g (suc n) blk iv0 iv1 =
    length-block msb-IsOrder _ _ _ ∙ omega (arith, length-decrypt_loop g n (drop 8 blk) _ _)
