-- ===== src/Cipher/Blowfish/Modes.antt =====
-- The CBC modes of Blowfish over whole buffers: what they need of a byte order, the width of the
-- chaining values, and a second pass.
use pageant.Base.{
  ℕ, zero, suc, ◌*◌, ◌/◌, bit_xor, ◌≡◌, refl, ◌∙◌, List, [], ◌∷◌, ◌++◌, arith, get_or, drop, length,
  length-drop, All, All-get_or, All-drop,
}
use pageant.Base.Bits.{xor_cancel_left, bit_xor-lt}
use pageant.Word32.Blocks.{IsWord, get-block, put-block, length-block, IsBlocks}
use pageant.Word32.Bytes.{IsByte, IsOrder, msb-IsOrder, lsb-IsOrder}
use pageant.Cipher.Blowfish.{
  BlowfishContext, Pair, mix, round, rounds_up, blowfish_encrypt, blowfish_decrypt, Order,
  msb_first, lsb_first, Written, encrypt_cbc_loop, decrypt_cbc_loop, encrypt_cbc, decrypt_cbc,
  blowfish_msb_encrypt_cbc, blowfish_msb_decrypt_cbc, blowfish_lsb_encrypt_cbc,
  blowfish_lsb_decrypt_cbc,
}
use pageant.Cipher.Blowfish.Block.{blowfish_decrypt-encrypt}

abbrev pub IsPair : Pair → Type 0
IsPair x = IsWord x.l × IsWord x.r

mix-IsWord : (ctx : BlowfishContext) (x : ℕ) → IsWord (mix ctx x)
unfolding mix
mix-IsWord ctx x = omega arith

rounds_up-IsPair :
    (ctx : BlowfishContext) (n : ℕ) (x : Pair)
    → All IsWord ctx.p
    → IsPair x
    → IsPair (rounds_up ctx n x)
unfolding rounds_up round
rounds_up-IsPair ctx zero x hp h = h
rounds_up-IsPair ctx (suc n) x hp h =
    let y = rounds_up ctx n x in
    let hy : IsPair y = rounds_up-IsPair ctx n x hp h in
    let hk : IsWord (get_or ctx.p n 0) = All-get_or IsWord ctx.p n 0 hp (omega arith) in
    (
      bit_xor-lt 32 (mix ctx (bit_xor y.l (get_or ctx.p n 0))) y.r (mix-IsWord ctx _) hy.1,
      bit_xor-lt 32 y.l (get_or ctx.p n 0) hy.0 hk,
    )

pub blowfish_encrypt-IsPair :
    (ctx : BlowfishContext) (xl xr : ℕ)
    → All IsWord ctx.p
    → IsWord xl
    → IsWord xr
    → IsPair (blowfish_encrypt ctx xl xr)
unfolding blowfish_encrypt
blowfish_encrypt-IsPair ctx xl xr hp hl hr =
    let h = rounds_up-IsPair ctx 16 (record { l = xl; r = xr }) hp (hl, hr) in
    (
      bit_xor-lt 32 _ _ h.1 (All-get_or IsWord ctx.p 17 0 hp (omega arith)),
      bit_xor-lt 32 _ _ h.0 (All-get_or IsWord ctx.p 16 0 hp (omega arith)),
    )

abbrev pub written : List ℕ → ℕ → ℕ → Written
written blk iv0 iv1 = record { blk = blk; iv0 = iv0; iv1 = iv1 }

module _ (o : Order) (law : IsOrder o.get o.put) (ctx : BlowfishContext) where
  -- One step of decryption on a block just stored.
  decrypt_cbc-block :
      (n l r iv0 iv1 : ℕ) (rest : List ℕ)
      → IsWord l
      → IsWord r
      → let out = blowfish_decrypt ctx l r in
        let later = decrypt_cbc_loop o ctx n rest l r in
        decrypt_cbc_loop o ctx (suc n) (o.put l ++ (o.put r ++ rest)) iv0 iv1
        ≡ written
            (o.put (bit_xor iv0 out.l) ++ (o.put (bit_xor iv1 out.r) ++ later.blk))
            later.iv0
            later.iv1
  unfolding decrypt_cbc_loop
  decrypt_cbc-block n l r iv0 iv1 rest hl hr =
      let (e, (f, g)) = get-block law l r rest hl hr in rw (e, f, g) refl

  decrypt_cbc-empty :
      (blk : List ℕ) (iv0 iv1 : ℕ) → decrypt_cbc_loop o ctx 0 blk iv0 iv1 ≡ written [] iv0 iv1
  unfolding decrypt_cbc_loop
  decrypt_cbc-empty blk iv0 iv1 = refl

  decrypt-encrypt_loop :
      (n : ℕ) (blk : List ℕ) (iv0 iv1 : ℕ)
      → All IsWord ctx.p
      → All IsByte blk
      → length blk ≡ n * 8
      → IsWord iv0
      → IsWord iv1
      → let w = encrypt_cbc_loop o ctx n blk iv0 iv1 in
        decrypt_cbc_loop o ctx n w.blk iv0 iv1 ≡ written blk w.iv0 w.iv1
  unfolding encrypt_cbc_loop
  decrypt-encrypt_loop zero [] iv0 iv1 hp h k h0 h1 = decrypt_cbc-empty [] iv0 iv1
  decrypt-encrypt_loop zero (x ∷ blk) iv0 iv1 hp h k h0 h1 = absurd (omega arith)
  decrypt-encrypt_loop (suc n) blk iv0 iv1 hp h k h0 h1 =
      let xl = o.get blk in
      let xr = o.get (drop 4 blk) in
      let hl : IsWord xl = law.get-lt blk h (omega arith) in
      let hr : IsWord xr =
        law.get-lt (drop 4 blk) (All-drop IsByte 4 blk h) (omega (arith, length-drop 4 blk)) in
      let c = blowfish_encrypt ctx (bit_xor iv0 xl) (bit_xor iv1 xr) in
      let hc : IsPair c =
        blowfish_encrypt-IsPair ctx _ _ hp (bit_xor-lt 32 iv0 xl h0 hl)
          (bit_xor-lt 32 iv1 xr h1 hr) in
      let later = encrypt_cbc_loop o ctx n (drop 8 blk) c.l c.r in
      let ih : decrypt_cbc_loop o ctx n later.blk c.l c.r
          ≡ written (drop 8 blk) later.iv0 later.iv1 =
        decrypt-encrypt_loop n (drop 8 blk) c.l c.r hp (All-drop IsByte 8 blk h)
          (omega (arith, length-drop 8 blk)) hc.0 hc.1 in
      decrypt_cbc-block n c.l c.r iv0 iv1 later.blk hc.0 hc.1
      ∙ rw
          (
            ih,
            blowfish_decrypt-encrypt ctx (bit_xor iv0 xl) (bit_xor iv1 xr),
            xor_cancel_left xl iv0,
            xor_cancel_left xr iv1,
            put-block law blk h (omega arith),
          )
          refl

  length-encrypt_cbc_loop :
      (n : ℕ) (blk : List ℕ) (iv0 iv1 : ℕ)
      → length (encrypt_cbc_loop o ctx n blk iv0 iv1).blk ≡ n * 8
  unfolding encrypt_cbc_loop
  length-encrypt_cbc_loop zero blk iv0 iv1 = refl
  length-encrypt_cbc_loop (suc n) blk iv0 iv1 =
      let c = blowfish_encrypt ctx (bit_xor iv0 (o.get blk)) (bit_xor iv1 (o.get (drop 4 blk))) in
      length-block law c.l c.r _ ∙ omega (arith, length-encrypt_cbc_loop n (drop 8 blk) c.l c.r)

-- A context whose key words and chaining value are 32 bits wide, which the type `word32` promises.
abbrev pub IsContext : BlowfishContext → Type 0
IsContext ctx = All IsWord ctx.p × (IsWord ctx.iv0 × IsWord ctx.iv1)

decrypt-encrypt_cbc :
    (o : Order) (law : IsOrder o.get o.put) (ctx : BlowfishContext) (blk : List ℕ)
    → IsContext ctx
    → IsBlocks blk
    → let c = encrypt_cbc o blk ctx in decrypt_cbc o c.0 ctx ≡ (blk, c.1)
unfolding encrypt_cbc decrypt_cbc
decrypt-encrypt_cbc o law ctx blk (hp, (h0, h1)) (h, k) =
    let n = length blk / 8 in
    let e : length (encrypt_cbc_loop o ctx n blk ctx.iv0 ctx.iv1).blk / 8 ≡ n =
      omega (arith, length-encrypt_cbc_loop o law ctx n blk ctx.iv0 ctx.iv1) in
    rw (e, decrypt-encrypt_loop o law ctx n blk ctx.iv0 ctx.iv1 hp h (omega arith) h0 h1) refl

-- For a context whose words of `P` and chaining value are below 2 ^ 32 and a buffer of bytes in
-- whole blocks, `blowfish_msb_decrypt_cbc` from the same chaining value gives back the buffer
-- that `blowfish_msb_encrypt_cbc` encrypted, and ends with the context that the encryption ended
-- with.
pub msb_decrypt-encrypt :
    (ctx : BlowfishContext) (blk : List ℕ)
    → IsContext ctx
    → IsBlocks blk
    → let c = blowfish_msb_encrypt_cbc blk ctx in blowfish_msb_decrypt_cbc c.0 ctx ≡ (blk, c.1)
unfolding blowfish_msb_encrypt_cbc blowfish_msb_decrypt_cbc
msb_decrypt-encrypt = decrypt-encrypt_cbc msb_first msb-IsOrder

-- For a context whose words of `P` and chaining value are below 2 ^ 32 and a buffer of bytes in
-- whole blocks, `blowfish_lsb_decrypt_cbc` from the same chaining value gives back the buffer
-- that `blowfish_lsb_encrypt_cbc` encrypted, and ends with the context that the encryption ended
-- with.
pub lsb_decrypt-encrypt :
    (ctx : BlowfishContext) (blk : List ℕ)
    → IsContext ctx
    → IsBlocks blk
    → let c = blowfish_lsb_encrypt_cbc blk ctx in blowfish_lsb_decrypt_cbc c.0 ctx ≡ (blk, c.1)
unfolding blowfish_lsb_encrypt_cbc blowfish_lsb_decrypt_cbc
lsb_decrypt-encrypt = decrypt-encrypt_cbc lsb_first lsb-IsOrder

-- For a context whose words of `P` and chaining value are below 2 ^ 32 and a buffer of bytes in
-- whole blocks, in either byte order, the CBC decryption of Blowfish from the same chaining value
-- gives back the buffer that the encryption encrypted, and ends with the context that the
-- encryption ended with.
pub cbc_decrypt-encrypt :
    (ctx : BlowfishContext) (blk : List ℕ)
    → IsContext ctx
    → IsBlocks blk
    → (let c = blowfish_msb_encrypt_cbc blk ctx in blowfish_msb_decrypt_cbc c.0 ctx ≡ (blk, c.1))
      × (let c = blowfish_lsb_encrypt_cbc blk ctx in blowfish_lsb_decrypt_cbc c.0 ctx ≡ (blk, c.1))
cbc_decrypt-encrypt ctx blk h b = (msb_decrypt-encrypt ctx blk h b, lsb_decrypt-encrypt ctx blk h b)
