-- ===== src/Cipher/Tests.antt =====
-- Runs of the ciphers, and their theorems at concrete data.
use pageant.Base.{ℕ, ◌+◌, ◌*◌, ◌^◌, ◌≡◌, refl, List, [], ◌∷◌, ◌++◌, arith}
use pageant.Cipher.Blowfish.{
  BlowfishContext, blowfish_encrypt, blowfish_decrypt, blowfish_msb_encrypt_cbc,
  blowfish_msb_decrypt_cbc, blowfish_lsb_encrypt_cbc, blowfish_lsb_decrypt_cbc, blowfish_msb_sdctr,
}
use pageant.Cipher.Blowfish.Block.{blowfish_decrypt-encrypt}
use pageant.Word32.Blocks.{IsBlocks}
use pageant.Cipher.Blowfish.Modes.{IsContext, cbc_decrypt-encrypt}
use pageant.Cipher.Blowfish.Sessions.{
  Session, blowfish_sesskey, blowfish_ssh1_encrypt_blk, blowfish_ssh1_decrypt_blk,
  ssh1_decrypt-encrypt,
}
use pageant.Cipher.Blowfish.Counter.{counter_mode, sdctr-counter_mode}
use pageant.Cipher.Blowfish.Key.{blowfish_setkey}
use pageant.Cipher.Blowfish.Keyed.{IsKeyed, blowfish_setkey-IsKeyed}
use pageant.Cipher.Arcfour.{arcfour_block, arcfour_setkey, arcfour128_key, arcfour256_key}
use pageant.Cipher.Arcfour.Table.{IsReady, key-IsReady}
use pageant.Cipher.Des.Schedule.{des_key_setup}
use pageant.Cipher.Des.Block.{des_encipher}
use pageant.Cipher.Des.Modes.{
  des_cbc_encrypt, des_cbc_decrypt, des_cbc3_encrypt, des_cbc3_decrypt, des_sdctr3,
}
use pageant.Cipher.Des.Keys.{key_setup, des3_key}
use pageant.Cipher.Des.Undo.{modes_undone}
use pageant.Cipher.Des.Ssh1.{setup-IsChained, key3-IsChained}

abbrev key : List ℕ
key = 1 ∷ 2 ∷ 3 ∷ 4 ∷ 5 ∷ []

abbrev key8 : List ℕ
key8 = 1 ∷ 2 ∷ 3 ∷ 4 ∷ 5 ∷ 6 ∷ 7 ∷ 8 ∷ []

abbrev block : List ℕ
block = 0x10 ∷ 0x32 ∷ 0x54 ∷ 0x76 ∷ 0x98 ∷ 0xba ∷ 0xdc ∷ 0xfe ∷ []

-- The first bytes of the key stream of RFC 6229 for the key 0102030405.
arcfour_stream :
    (arcfour_block (arcfour_setkey key 5) (0 ∷ 0 ∷ 0 ∷ 0 ∷ [])).0 ≡ 0xb2 ∷ 0x39 ∷ 0x63 ∷ 0x05 ∷ []
unfolding arcfour_block arcfour_setkey
arcfour_stream = refl

-- A context with short tables: a read past their end is 0 in the model.
abbrev small : BlowfishContext
small = record {
  s0 = 7 ∷ [];
  s1 = 8 ∷ [];
  s2 = 9 ∷ [];
  s3 = 10 ∷ [];
  p = 0x243f6a88 ∷ 0x85a308d3 ∷ 0x13198a2e ∷ [];
  iv0 = 0xffffffff;
  iv1 = 0xffffffff;
}

small-IsContext : IsContext small
small-IsContext = omega arith

block-IsBlocks : IsBlocks (block ++ block)
block-IsBlocks = omega arith

blowfish_decrypt-encrypt_example :
    blowfish_decrypt small (blowfish_encrypt small 1 2).l (blowfish_encrypt small 1 2).r
    ≡ record { l = 1; r = 2 }
blowfish_decrypt-encrypt_example = blowfish_decrypt-encrypt small 1 2

-- The counter goes from 2 ^ 64 - 1 to 1.
sdctr-counter_mode_example :
    (blowfish_msb_sdctr (block ++ block) small ≡ (
      counter_mode small 2 (0xffffffff * 2 ^ 32 + 0xffffffff) (block ++ block),
      record small { iv0 = 0; iv1 = 1 },
    ))
    × (blowfish_msb_sdctr (blowfish_msb_sdctr (block ++ block) small).0 small
        ≡ (block ++ block, (blowfish_msb_sdctr (block ++ block) small).1))
sdctr-counter_mode_example =
    sdctr-counter_mode small (block ++ block) small-IsContext block-IsBlocks

blowfish_setkey-IsKeyed_example : IsKeyed (blowfish_setkey small key 5)
blowfish_setkey-IsKeyed_example = blowfish_setkey-IsKeyed small key 5 (omega arith)

key-IsReady_example :
    IsReady (arcfour_block (arcfour128_key block) key).1
    × IsReady (arcfour_block (arcfour256_key block) key).1
key-IsReady_example = key-IsReady block key

abbrev session : Session
session = record { sending = small; receiving = small }

ssh1_decrypt-encrypt_example :
    (blowfish_ssh1_decrypt_blk
      (blowfish_ssh1_encrypt_blk (blowfish_sesskey session key) (block ++ block)).1
      (blowfish_ssh1_encrypt_blk (blowfish_sesskey session key) (block ++ block)).0).0
    ≡ block ++ block
ssh1_decrypt-encrypt_example =
    ssh1_decrypt-encrypt session key (block ++ block) (omega arith) block-IsBlocks

cbc_decrypt-encrypt_example :
    (blowfish_msb_decrypt_cbc (blowfish_msb_encrypt_cbc (block ++ block) small).0 small
      ≡ (block ++ block, (blowfish_msb_encrypt_cbc (block ++ block) small).1))
    × (blowfish_lsb_decrypt_cbc (blowfish_lsb_encrypt_cbc (block ++ block) small).0 small
        ≡ (block ++ block, (blowfish_lsb_encrypt_cbc (block ++ block) small).1))
cbc_decrypt-encrypt_example =
    cbc_decrypt-encrypt small (block ++ block) small-IsContext block-IsBlocks

-- Bytes enough for three keys.
abbrev triple_key : List ℕ
triple_key = block ++ (key ++ (key ++ (key ++ block)))

-- The encryption of a block of zeros with a key of zeros.
des_zero : des_encipher (des_key_setup 0 0) 0 0 ≡ record { l = 0x8ca64de9; r = 0xc1b123a7 }
unfolding des_encipher des_key_setup
des_zero = refl

modes_undone_example :
    (des_cbc_decrypt (des_cbc_encrypt block (key_setup block)).0 (key_setup block)
      ≡ (block, (des_cbc_encrypt block (key_setup block)).1))
    × (des_cbc3_decrypt (des_cbc3_encrypt block (des3_key triple_key)).0 (des3_key triple_key)
        ≡ (block, (des_cbc3_encrypt block (des3_key triple_key)).1))
    × (des_sdctr3 (des_sdctr3 block (des3_key triple_key)).0 (des3_key triple_key)
        ≡ (block, (des_sdctr3 block (des3_key triple_key)).1))
modes_undone_example =
    modes_undone (key_setup block) (des3_key triple_key) block (setup-IsChained block)
      (key3-IsChained triple_key) (omega arith)
