-- ===== src/Cipher/Blowfish/Sessions.antt =====
-- The functions of sshblowf.c that the SSH code calls: the keys and chaining values of a session, and
-- the modes on its packets. An SSH-1 session has a context for each direction.
use pageant.Base.{ℕ, zero, suc, ◌/◌, ◌≡◌, ap, List, [], ◌++◌, arith, length, drop, All}
use pageant.Word32.{get_32bit_msb_first, get_32bit_lsb_first, put_32bit_lsb_first}
use pageant.Word32.Bytes.{IsByte}
use pageant.Cipher.Blowfish.{
  BlowfishContext, blowfish_encrypt, blowfish_lsb_encrypt_cbc, blowfish_lsb_decrypt_cbc,
  blowfish_msb_encrypt_cbc, blowfish_msb_decrypt_cbc, blowfish_msb_sdctr,
}
use pageant.Word32.Blocks.{IsBlocks}
use pageant.Cipher.Blowfish.Modes.{lsb_decrypt-encrypt}
use pageant.Cipher.Blowfish.Key.{blowfish_setkey}
use pageant.Cipher.Blowfish.Keyed.{blowfish_setkey-IsKeyed}

-- `n` blocks of 8 bytes to go.
pub encrypt_ecb_loop : BlowfishContext → ℕ → List ℕ → List ℕ
encrypt_ecb_loop ctx zero blk = []
encrypt_ecb_loop ctx (suc n) blk =
    let out = blowfish_encrypt ctx (get_32bit_lsb_first blk) (get_32bit_lsb_first (drop 4 blk)) in
    put_32bit_lsb_first out.l ++ (put_32bit_lsb_first out.r ++ encrypt_ecb_loop ctx n (drop 8 blk))

unfoldable pub blowfish_lsb_encrypt_ecb : List ℕ → BlowfishContext → List ℕ
blowfish_lsb_encrypt_ecb blk ctx = encrypt_ecb_loop ctx (length blk / 8) blk

unfoldable pub blowfish_key : BlowfishContext → List ℕ → BlowfishContext
blowfish_key ctx key = blowfish_setkey ctx key 16

unfoldable pub blowfish256_key : BlowfishContext → List ℕ → BlowfishContext
blowfish256_key ctx key = blowfish_setkey ctx key 32

unfoldable pub blowfish_iv : BlowfishContext → List ℕ → BlowfishContext
blowfish_iv ctx key = record ctx {
  iv0 = get_32bit_msb_first key;
  iv1 = get_32bit_msb_first (drop 4 key);
}

-- `ctx[0]` and `ctx[1]`.
pub record Session : Type 0 where
  pub sending : BlowfishContext
  pub receiving : BlowfishContext

unfoldable pub blowfish_sesskey : Session → List ℕ → Session
blowfish_sesskey s key =
    let ctx = record (blowfish_setkey s.sending key 32) { iv0 = 0; iv1 = 0 } in
    record { sending = ctx; receiving = ctx }

unfoldable pub blowfish_ssh1_encrypt_blk : Session → List ℕ → List ℕ × Session
blowfish_ssh1_encrypt_blk s blk =
    let (out, ctx) = blowfish_lsb_encrypt_cbc blk s.sending in (out, record s { sending = ctx })

unfoldable pub blowfish_ssh1_decrypt_blk : Session → List ℕ → List ℕ × Session
blowfish_ssh1_decrypt_blk s blk =
    let (out, ctx) = blowfish_lsb_decrypt_cbc blk s.receiving in (out, record s { receiving = ctx })

unfoldable pub blowfish_ssh2_encrypt_blk : BlowfishContext → List ℕ → List ℕ × BlowfishContext
blowfish_ssh2_encrypt_blk ctx blk = blowfish_msb_encrypt_cbc blk ctx

unfoldable pub blowfish_ssh2_decrypt_blk : BlowfishContext → List ℕ → List ℕ × BlowfishContext
blowfish_ssh2_decrypt_blk ctx blk = blowfish_msb_decrypt_cbc blk ctx

unfoldable pub blowfish_ssh2_sdctr : BlowfishContext → List ℕ → List ℕ × BlowfishContext
blowfish_ssh2_sdctr ctx blk = blowfish_msb_sdctr blk ctx

-- For a key of bytes and a buffer of bytes in whole blocks, in a session set up by
-- `blowfish_sesskey`, `blowfish_ssh1_decrypt_blk` gives back the buffer that
-- `blowfish_ssh1_encrypt_blk` encrypted in the same session: encryption does not touch the
-- context of the other direction.
pub ssh1_decrypt-encrypt :
    (s : Session) (key blk : List ℕ)
    → All IsByte key
    → IsBlocks blk
    → let sent = blowfish_ssh1_encrypt_blk (blowfish_sesskey s key) blk in
      (blowfish_ssh1_decrypt_blk sent.1 sent.0).0 ≡ blk
unfolding blowfish_sesskey blowfish_ssh1_encrypt_blk blowfish_ssh1_decrypt_blk
ssh1_decrypt-encrypt s key blk hk hb =
    let ctx : BlowfishContext = record (blowfish_setkey s.sending key 32) { iv0 = 0; iv1 = 0 } in
    let words = (blowfish_setkey-IsKeyed s.sending key 32 hk).p_array.1 in
    ap (λ (w : List ℕ × BlowfishContext). w.0)
      (lsb_decrypt-encrypt ctx blk (words, (omega arith, omega arith)) hb)
