-- ===== src/Cipher/Des/Modes.antt =====
-- The modes of sshdes.c: CBC of DES, the CBC of triple DES with one chaining value (SSH-2) and with three
-- (SSH-1), and its counter mode.
use pageant.Base.{
  ℕ, zero, suc, ◌+◌, ◌/◌, bit_xor, List, [], ◌++◌, ◌==◌, if◌then◌else◌, drop, length,
}
use pageant.Word32.{u32, get_32bit_msb_first, put_32bit_msb_first}
use pageant.Cipher.Des.{DesContext, Pair}
use pageant.Cipher.Des.Block.{des_encipher, des_decipher}

-- What a loop over the blocks has written, and the chaining value that it ends with.
pub record Written : Type 0 where
  pub blk : List ℕ
  pub iv0 : ℕ
  pub iv1 : ℕ

-- The loops of the modes, with the block function `f` and `n` blocks of 8 bytes to go.
unfoldable pub encrypt_loop : (ℕ → ℕ → Pair) → ℕ → List ℕ → ℕ → ℕ → Written
encrypt_loop f zero blk iv0 iv1 = record { blk = []; iv0 = iv0; iv1 = iv1 }
encrypt_loop f (suc n) blk iv0 iv1 =
    let out =
      f (bit_xor iv0 (get_32bit_msb_first blk)) (bit_xor iv1 (get_32bit_msb_first (drop 4 blk))) in
    let later = encrypt_loop f n (drop 8 blk) out.l out.r in
    record {
      blk = put_32bit_msb_first out.l ++ (put_32bit_msb_first out.r ++ later.blk);
      iv0 = later.iv0;
      iv1 = later.iv1;
    }

unfoldable pub decrypt_loop : (ℕ → ℕ → Pair) → ℕ → List ℕ → ℕ → ℕ → Written
decrypt_loop f zero blk iv0 iv1 = record { blk = []; iv0 = iv0; iv1 = iv1 }
decrypt_loop f (suc n) blk iv0 iv1 =
    let xl = get_32bit_msb_first blk in
    let xr = get_32bit_msb_first (drop 4 blk) in
    let out = f xl xr in
    let later = decrypt_loop f n (drop 8 blk) xl xr in
    record {
      blk =
          put_32bit_msb_first (bit_xor iv0 out.l)
          ++ (put_32bit_msb_first (bit_xor iv1 out.r) ++ later.blk);
      iv0 = later.iv0;
      iv1 = later.iv1;
    }

-- The counter after `iv0` and `iv1`.
abbrev pub next_high : ℕ → ℕ → ℕ
next_high iv0 low = if low == 0 then u32 (iv0 + 1) else iv0

unfoldable pub sdctr_loop : (ℕ → ℕ → Pair) → ℕ → List ℕ → ℕ → ℕ → Written
sdctr_loop f zero blk iv0 iv1 = record { blk = []; iv0 = iv0; iv1 = iv1 }
sdctr_loop f (suc n) blk iv0 iv1 =
    let b = f iv0 iv1 in
    let low = u32 (iv1 + 1) in
    let later = sdctr_loop f n (drop 8 blk) (next_high iv0 low) low in
    record {
      blk =
          put_32bit_msb_first (bit_xor (get_32bit_msb_first blk) b.l)
          ++ (put_32bit_msb_first (bit_xor (get_32bit_msb_first (drop 4 blk)) b.r) ++ later.blk);
      iv0 = later.iv0;
      iv1 = later.iv1;
    }

-- A call of a mode: the bytes written over the buffer, and the context with its new chaining value.
abbrev pub finish : DesContext → Written → List ℕ × DesContext
finish sched w = (w.blk, record sched { iv0 = w.iv0; iv1 = w.iv1 })

-- The length of the buffer is a multiple of 8, which the source asserts.
unfoldable pub des_cbc_encrypt : List ℕ → DesContext → List ℕ × DesContext
unfolding encrypt_loop des_encipher
des_cbc_encrypt blk sched =
    finish sched (encrypt_loop (des_encipher sched) (length blk / 8) blk sched.iv0 sched.iv1)

unfoldable pub des_cbc_decrypt : List ℕ → DesContext → List ℕ × DesContext
unfolding decrypt_loop des_decipher
des_cbc_decrypt blk sched =
    finish sched (decrypt_loop (des_decipher sched) (length blk / 8) blk sched.iv0 sched.iv1)

-- `scheds[0]` to `scheds[2]`.
pub record Triple : Type 0 where
  pub first : DesContext
  pub second : DesContext
  pub third : DesContext

unfoldable pub des_3cbc_encrypt : List ℕ → Triple → List ℕ × Triple
unfolding des_cbc_encrypt des_cbc_decrypt
des_3cbc_encrypt blk scheds =
    let (blk1, first) = des_cbc_encrypt blk scheds.first in
    let (blk2, second) = des_cbc_decrypt blk1 scheds.second in
    let (blk3, third) = des_cbc_encrypt blk2 scheds.third in
    (blk3, record { first = first; second = second; third = third })

unfoldable pub des_3cbc_decrypt : List ℕ → Triple → List ℕ × Triple
unfolding des_cbc_encrypt des_cbc_decrypt
des_3cbc_decrypt blk scheds =
    let (blk1, third) = des_cbc_decrypt blk scheds.third in
    let (blk2, second) = des_cbc_encrypt blk1 scheds.second in
    let (blk3, first) = des_cbc_decrypt blk2 scheds.first in
    (blk3, record { first = first; second = second; third = third })

-- The three block functions that one block of triple DES goes through.
unfoldable pub encipher3 : Triple → ℕ → ℕ → Pair
unfolding des_encipher des_decipher
encipher3 scheds l r =
    let a = des_encipher scheds.first l r in
    let b = des_decipher scheds.second a.l a.r in des_encipher scheds.third b.l b.r

unfoldable pub decipher3 : Triple → ℕ → ℕ → Pair
unfolding des_encipher des_decipher
decipher3 scheds l r =
    let a = des_decipher scheds.third l r in
    let b = des_encipher scheds.second a.l a.r in des_decipher scheds.first b.l b.r

abbrev pub finish3 : Triple → Written → List ℕ × Triple
finish3 scheds w = (w.blk, record scheds { first = (finish scheds.first w).1 })

unfoldable pub des_cbc3_encrypt : List ℕ → Triple → List ℕ × Triple
unfolding encrypt_loop encipher3
des_cbc3_encrypt blk scheds =
    finish3 scheds
      (encrypt_loop (encipher3 scheds) (length blk / 8) blk scheds.first.iv0 scheds.first.iv1)

unfoldable pub des_cbc3_decrypt : List ℕ → Triple → List ℕ × Triple
unfolding decrypt_loop decipher3
des_cbc3_decrypt blk scheds =
    finish3 scheds
      (decrypt_loop (decipher3 scheds) (length blk / 8) blk scheds.first.iv0 scheds.first.iv1)

unfoldable pub des_sdctr3 : List ℕ → Triple → List ℕ × Triple
unfolding sdctr_loop encipher3
des_sdctr3 blk scheds =
    finish3 scheds
      (sdctr_loop (encipher3 scheds) (length blk / 8) blk scheds.first.iv0 scheds.first.iv1)
