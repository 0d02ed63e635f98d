-- ===== src/Cipher/Blowfish.antt =====
-- sshblowf.c: the Blowfish block cipher and its modes. A context holds the tables and the two words
-- of the chaining value.
pub mod Block
pub mod Modes
pub mod Counter
pub mod Tables
pub mod Key
pub mod Keyed
pub mod Sessions
use pageant.Base.{
  ℕ, zero, suc, ◌+◌, ◌*◌, ◌/◌, ◌%◌, ◌^◌, bit_and, bit_xor, List, [], ◌∷◌, ◌++◌, ◌==◌, if◌then◌else◌,
  get_or, drop, length,
}
use pageant.Word32.{
  u32, get_32bit_msb_first, get_32bit_lsb_first, put_32bit_msb_first, put_32bit_lsb_first,
}

pub record BlowfishContext : Type 0 where
  pub s0 : List ℕ
  pub s1 : List ℕ
  pub s2 : List ℕ
  pub s3 : List ℕ
  pub p : List ℕ
  pub iv0 : ℕ
  pub iv1 : ℕ

-- The variables `xL` and `xR`, and the two words of `output`.
pub record Pair : Type 0 where
  pub l : ℕ
  pub r : ℕ

-- The macro F.
pub mix : BlowfishContext → ℕ → ℕ
mix ctx x =
    let a = bit_and (x / 2 ^ 24) 0xff in
    let b = bit_and (x / 2 ^ 16) 0xff in
    let c = bit_and (x / 2 ^ 8) 0xff in
    let d = bit_and x 0xff in
    u32 (
      bit_xor (u32 (get_or ctx.s0 a 0 + get_or ctx.s1 b 0)) (get_or ctx.s2 c 0) + get_or ctx.s3 d 0)

-- The macro ROUND: `xL ^= P[n], t = xL, xL = F(xL) ^ xR, xR = t`.
pub round : BlowfishContext → ℕ → Pair → Pair
round ctx n x =
    let t = bit_xor x.l (get_or ctx.p n 0) in record { l = bit_xor (mix ctx t) x.r; r = t }

-- ROUND(0) to ROUND(n - 1).
pub rounds_up : BlowfishContext → ℕ → Pair → Pair
rounds_up ctx zero x = x
rounds_up ctx (suc n) x = round ctx n (rounds_up ctx n x)

-- ROUND(n + 1) down to ROUND(2).
pub rounds_down : BlowfishContext → ℕ → Pair → Pair
rounds_down ctx zero x = x
rounds_down ctx (suc n) x = rounds_down ctx n (round ctx (suc (suc n)) x)

unfoldable pub blowfish_encrypt : BlowfishContext → ℕ → ℕ → Pair
blowfish_encrypt ctx xl xr =
    let x = rounds_up ctx 16 (record { l = xl; r = xr }) in
    record { l = bit_xor x.r (get_or ctx.p 17 0); r = bit_xor x.l (get_or ctx.p 16 0) }

unfoldable pub blowfish_decrypt : BlowfishContext → ℕ → ℕ → Pair
blowfish_decrypt ctx xl xr =
    let x = rounds_down ctx 16 (record { l = xl; r = xr }) in
    record { l = bit_xor x.r (get_or ctx.p 0 0); r = bit_xor x.l (get_or ctx.p 1 0) }

-- The byte order of a mode: GET_32BIT_… and PUT_32BIT_….
pub record Order : Type 0 where
  pub get : List ℕ → ℕ
  pub put : ℕ → List ℕ

abbrev pub lsb_first : Order
lsb_first = record { get = get_32bit_lsb_first; put = put_32bit_lsb_first }

abbrev pub msb_first : Order
msb_first = record { get = get_32bit_msb_first; put = put_32bit_msb_first }

-- What a loop over the blocks has written, and the chaining value that it ends with.
pub record Written : Type 0 where
  pub blk : List ℕ
  pub iv0 : ℕ
  pub iv1 : ℕ

-- The loops have `n` blocks of 8 bytes to go.
pub encrypt_cbc_loop : Order → BlowfishContext → ℕ → List ℕ → ℕ → ℕ → Written
encrypt_cbc_loop o ctx zero blk iv0 iv1 = record { blk = []; iv0 = iv0; iv1 = iv1 }
encrypt_cbc_loop o ctx (suc n) blk iv0 iv1 =
    let xl = o.get blk in
    let xr = o.get (drop 4 blk) in
    let out = blowfish_encrypt ctx (bit_xor iv0 xl) (bit_xor iv1 xr) in
    let later = encrypt_cbc_loop o ctx n (drop 8 blk) out.l out.r in
    record { blk = o.put out.l ++ (o.put out.r ++ later.blk); iv0 = later.iv0; iv1 = later.iv1 }

pub decrypt_cbc_loop : Order → BlowfishContext → ℕ → List ℕ → ℕ → ℕ → Written
decrypt_cbc_loop o ctx zero blk iv0 iv1 = record { blk = []; iv0 = iv0; iv1 = iv1 }
decrypt_cbc_loop o ctx (suc n) blk iv0 iv1 =
    let xl = o.get blk in
    let xr = o.get (drop 4 blk) in
    let out = blowfish_decrypt ctx xl xr in
    let later = decrypt_cbc_loop o ctx n (drop 8 blk) xl xr in
    record {
      blk = o.put (bit_xor iv0 out.l) ++ (o.put (bit_xor iv1 out.r) ++ later.blk);
      iv0 = later.iv0;
      iv1 = later.iv1;
    }

pub sdctr_loop : BlowfishContext → ℕ → List ℕ → ℕ → ℕ → Written
sdctr_loop ctx zero blk iv0 iv1 = record { blk = []; iv0 = iv0; iv1 = iv1 }
sdctr_loop ctx (suc n) blk iv0 iv1 =
    let b = blowfish_encrypt ctx iv0 iv1 in
    let low = u32 (iv1 + 1) in
    let high = if low == 0 then u32 (iv0 + 1) else iv0 in
    let later = sdctr_loop ctx n (drop 8 blk) high low in
    record {
      blk =
          put_32bit_msb_first (bit_xor (get_32bit_msb_first blk) b.l)
          ++ (put_32bit_msb_first (bit_xor (get_32bit_msb_first (drop 4 blk)) b.r) ++ later.blk);
      iv0 = later.iv0;
      iv1 = later.iv1;
    }

-- A call of a mode: the bytes written over the buffer, and the context with its new chaining value.
abbrev pub finish : BlowfishContext → Written → List ℕ × BlowfishContext
finish ctx w = (w.blk, record ctx { iv0 = w.iv0; iv1 = w.iv1 })

-- The length of the buffer is a multiple of 8, which the source asserts.
unfoldable pub encrypt_cbc : Order → List ℕ → BlowfishContext → List ℕ × BlowfishContext
unfolding encrypt_cbc_loop
encrypt_cbc o blk ctx = finish ctx (encrypt_cbc_loop o ctx (length blk / 8) blk ctx.iv0 ctx.iv1)

unfoldable pub decrypt_cbc : Order → List ℕ → BlowfishContext → List ℕ × BlowfishContext
unfolding decrypt_cbc_loop
decrypt_cbc o blk ctx = finish ctx (decrypt_cbc_loop o ctx (length blk / 8) blk ctx.iv0 ctx.iv1)

unfoldable pub blowfish_lsb_encrypt_cbc : List ℕ → BlowfishContext → List ℕ × BlowfishContext
unfolding encrypt_cbc
blowfish_lsb_encrypt_cbc = encrypt_cbc lsb_first

unfoldable pub blowfish_lsb_decrypt_cbc : List ℕ → BlowfishContext → List ℕ × BlowfishContext
unfolding decrypt_cbc
blowfish_lsb_decrypt_cbc = decrypt_cbc lsb_first

unfoldable pub blowfish_msb_encrypt_cbc : List ℕ → BlowfishContext → List ℕ × BlowfishContext
unfolding encrypt_cbc
blowfish_msb_encrypt_cbc = encrypt_cbc msb_first

unfoldable pub blowfish_msb_decrypt_cbc : List ℕ → BlowfishContext → List ℕ × BlowfishContext
unfolding decrypt_cbc
blowfish_msb_decrypt_cbc = decrypt_cbc msb_first

unfoldable pub blowfish_msb_sdctr : List ℕ → BlowfishContext → List ℕ × BlowfishContext
unfolding sdctr_loop
blowfish_msb_sdctr blk ctx = finish ctx (sdctr_loop ctx (length blk / 8) blk ctx.iv0 ctx.iv1)
