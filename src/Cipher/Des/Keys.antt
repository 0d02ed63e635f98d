-- ===== src/Cipher/Des/Keys.antt =====
-- The ciphers of sshdes.c by their keys: the tables of functions that a connection calls, and the
-- encryption of key files.
use pageant.Base.{ℕ, List, drop}
use pageant.Word32.{get_32bit_msb_first}
use pageant.Cipher.Des.{DesContext}
use pageant.Cipher.Des.Schedule.{des_key_setup}
use pageant.Cipher.Des.Modes.{
  Triple, des_3cbc_encrypt, des_3cbc_decrypt, des_cbc3_encrypt, des_cbc3_decrypt,
}

-- `des_key_setup` of the 8 bytes at `key`.
unfoldable pub key_setup : List ℕ → DesContext
unfolding des_key_setup
key_setup key = des_key_setup (get_32bit_msb_first key) (get_32bit_msb_first (drop 4 key))

unfoldable pub des3_key : List ℕ → Triple
unfolding key_setup
des3_key key = record {
  first = key_setup key;
  second = key_setup (drop 8 key);
  third = key_setup (drop 16 key);
}

unfoldable pub des3_iv : List ℕ → Triple → Triple
des3_iv key keys = record keys {
  first = record keys.first {
    iv0 = get_32bit_msb_first key;
    iv1 = get_32bit_msb_first (drop 4 key);
  };
}

-- Three keys for each direction.
unfoldable pub des3_sesskey : List ℕ → Triple × Triple
unfolding des3_key
des3_sesskey key = (des3_key key, des3_key key)

unfoldable pub des3_encrypt_blk : List ℕ → Triple × Triple → List ℕ × (Triple × Triple)
unfolding des_3cbc_encrypt
des3_encrypt_blk blk (keys, others) =
    let (out, keys') = des_3cbc_encrypt blk keys in (out, (keys', others))

unfoldable pub des3_decrypt_blk : List ℕ → Triple × Triple → List ℕ × (Triple × Triple)
unfolding des_3cbc_decrypt
des3_decrypt_blk blk (keys, others) =
    let (out, others') = des_3cbc_decrypt blk others in (out, (keys, others'))

-- The keys of SSH-1 key files: the third is the first.
unfoldable pub pubkey_keys : List ℕ → Triple
unfolding key_setup
pubkey_keys key = record {
  first = key_setup key;
  second = key_setup (drop 8 key);
  third = key_setup key;
}

unfoldable pub des3_encrypt_pubkey : List ℕ → List ℕ → List ℕ
unfolding pubkey_keys des_3cbc_encrypt
des3_encrypt_pubkey key blk = (des_3cbc_encrypt blk (pubkey_keys key)).0

unfoldable pub des3_decrypt_pubkey : List ℕ → List ℕ → List ℕ
unfolding pubkey_keys des_3cbc_decrypt
des3_decrypt_pubkey key blk = (des_3cbc_decrypt blk (pubkey_keys key)).0

unfoldable pub des3_encrypt_pubkey_ossh : List ℕ → List ℕ → List ℕ → List ℕ
unfolding des3_key des3_iv des_cbc3_encrypt
des3_encrypt_pubkey_ossh key iv blk = (des_cbc3_encrypt blk (des3_iv iv (des3_key key))).0

unfoldable pub des3_decrypt_pubkey_ossh : List ℕ → List ℕ → List ℕ → List ℕ
unfolding des3_key des3_iv des_cbc3_decrypt
des3_decrypt_pubkey_ossh key iv blk = (des_cbc3_decrypt blk (des3_iv iv (des3_key key))).0
