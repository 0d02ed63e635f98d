-- ===== src/Cipher/Des/Undo.antt =====
-- Theorems on the modes of DES and triple DES, and on encrypted key files.
use pageant.Base.{
  ℕ, ◌/◌, ◌≤◌, ◌≡◌, refl, ap, ◌∙◌, List, arith, drop, length, length-drop, All, All-drop,
}
use pageant.Word32.Bytes.{IsByte, msb-IsOrder}
use pageant.Word32.Blocks.{IsWord, IsBlocks}
use pageant.Cipher.Des.{DesContext, Pair}
use pageant.Cipher.Des.Block.{des_encipher, des_decipher, forwards, backwards}
use pageant.Cipher.Des.Swaps.{IsPair}
use pageant.Cipher.Des.Feistel.{crypt-IsPair, decipher-encipher}
use pageant.Cipher.Des.Modes.{
  encrypt_loop, decrypt_loop, Triple, encipher3, decipher3, des_cbc_encrypt, des_cbc_decrypt,
  des_cbc3_encrypt, des_cbc3_decrypt, des_sdctr3, sdctr_loop,
}
use pageant.Cipher.Des.Keys.{des3_key, des3_iv, des3_encrypt_pubkey_ossh, des3_decrypt_pubkey_ossh}
use pageant.Cipher.Des.Chain.{IsUndone, written, decrypt-encrypt_loop, length-encrypt_loop}
use pageant.Cipher.Des.Counter.{sdctr-sdctr_loop, length-sdctr_loop}

pub encipher-IsPair :
    (sched : DesContext) (l r : ℕ) → IsWord l → IsWord r → IsPair (des_encipher sched l r)
unfolding des_encipher
encipher-IsPair sched l r hl hr = crypt-IsPair forwards sched l r hl hr

pub decipher-IsPair :
    (sched : DesContext) (l r : ℕ) → IsWord l → IsWord r → IsPair (des_decipher sched l r)
unfolding des_decipher
decipher-IsPair sched l r hl hr = crypt-IsPair backwards sched l r hl hr

pub encipher-IsUndone : (sched : DesContext) → IsUndone (des_encipher sched) (des_decipher sched)
encipher-IsUndone sched = record {
  bounded = encipher-IsPair sched;
  undone = λ l r hl hr. (decipher-encipher sched l r hl hr).0;
}

encipher3-IsUndone : (scheds : Triple) → IsUndone (encipher3 scheds) (decipher3 scheds)
unfolding encipher3 decipher3
encipher3-IsUndone scheds = record {
  bounded = λ l r hl hr.
      let a = des_encipher scheds.first l r in
      let ha = encipher-IsPair scheds.first l r hl hr in
      let b = des_decipher scheds.second a.l a.r in
      let hb = decipher-IsPair scheds.second a.l a.r ha.0 ha.1 in
      encipher-IsPair scheds.third b.l b.r hb.0 hb.1;
  undone = λ l r hl hr.
      let a = des_encipher scheds.first l r in
      let ha = encipher-IsPair scheds.first l r hl hr in
      let b = des_decipher scheds.second a.l a.r in
      let hb = decipher-IsPair scheds.second a.l a.r ha.0 ha.1 in
      let second : Pair → Pair = λ v. des_encipher scheds.second v.l v.r in
      let first : Pair → Pair = λ v. des_decipher scheds.first v.l v.r in
      ap (λ (v : Pair). first (second v)) (decipher-encipher scheds.third b.l b.r hb.0 hb.1).0
      ∙ (ap first (decipher-encipher scheds.second a.l a.r ha.0 ha.1).1
          ∙ (decipher-encipher scheds.first l r hl hr).0);
}

module _ (f g : ℕ → ℕ → Pair) (law : IsUndone f g) where
  -- A whole buffer.
  pub buffer-undone :
      (blk : List ℕ) (iv0 iv1 : ℕ)
      → IsBlocks blk
      → IsWord iv0
      → IsWord iv1
      → let w = encrypt_loop f (length blk / 8) blk iv0 iv1 in
        decrypt_loop g (length w.blk / 8) w.blk iv0 iv1 ≡ written blk w.iv0 w.iv1
  buffer-undone blk iv0 iv1 (h, k) h0 h1 =
      let n = length blk / 8 in
      let e : length (encrypt_loop f n blk iv0 iv1).blk / 8 ≡ n =
        omega (arith, length-encrypt_loop f g law n blk iv0 iv1) in
      rw e (decrypt-encrypt_loop f g law n blk iv0 iv1 h (omega arith) h0 h1)

-- A chaining value in 32-bit words, which the type `word32` promises.
abbrev pub IsChained : DesContext → Type 0
IsChained sched = IsWord sched.iv0 × IsWord sched.iv1

cbc3-undone :
    (scheds : Triple) (blk : List ℕ)
    → IsChained scheds.first
    → IsBlocks blk
    → let c = des_cbc3_encrypt blk scheds in des_cbc3_decrypt c.0 scheds ≡ (blk, c.1)
unfolding des_cbc3_encrypt des_cbc3_decrypt
cbc3-undone scheds blk (c, d) h =
    rw (buffer-undone _ _ (encipher3-IsUndone scheds) blk scheds.first.iv0 scheds.first.iv1 h c d)
      refl

sdctr3-undone :
    (scheds : Triple) (blk : List ℕ)
    → IsChained scheds.first
    → IsBlocks blk
    → let c = des_sdctr3 blk scheds in des_sdctr3 c.0 scheds ≡ (blk, c.1)
unfolding des_sdctr3
sdctr3-undone scheds blk (c, d) (h, k) =
    let f = encipher3 scheds in
    let n = length blk / 8 in
    let iv = scheds.first in
    let e : length (sdctr_loop f n blk iv.iv0 iv.iv1).blk / 8 ≡ n =
      omega (arith, length-sdctr_loop f n blk iv.iv0 iv.iv1) in
    rw
      (
        e,
        sdctr-sdctr_loop f (encipher3-IsUndone scheds).bounded n blk iv.iv0 iv.iv1 h (omega arith) c
            d,
      )
      refl

-- For a chaining value of words below 2 ^ 32 and a buffer of bytes in whole blocks, decryption
-- from the chaining value that the encryption began with gives the buffer back and ends with the
-- chaining value that the encryption ended with, whatever the key schedules are: for DES in CBC
-- mode, for triple DES in the CBC mode of SSH-2, and for triple DES in counter mode, where
-- decryption is encryption.
pub modes_undone :
    (sched : DesContext) (scheds : Triple) (blk : List ℕ)
    → IsChained sched
    → IsChained scheds.first
    → IsBlocks blk
    → (let c = des_cbc_encrypt blk sched in des_cbc_decrypt c.0 sched ≡ (blk, c.1))
      × (let c = des_cbc3_encrypt blk scheds in des_cbc3_decrypt c.0 scheds ≡ (blk, c.1))
      × (let c = des_sdctr3 blk scheds in des_sdctr3 c.0 scheds ≡ (blk, c.1))
unfolding des_cbc_encrypt des_cbc_decrypt
modes_undone sched scheds blk (a, b) h3 h = (
  rw (buffer-undone _ _ (encipher-IsUndone sched) blk sched.iv0 sched.iv1 h a b) refl,
  cbc3-undone scheds blk h3 h,
  sdctr3-undone scheds blk h3 h,
)

-- For every key, an initial value of 8 bytes and a buffer of bytes in whole blocks,
-- `des3_decrypt_pubkey_ossh` gives back the buffer that `des3_encrypt_pubkey_ossh` encrypted.
pub pubkey_decrypt-encrypt :
    (key iv blk : List ℕ)
    → All IsByte iv
    → 8 ≤ length iv
    → IsBlocks blk
    → des3_decrypt_pubkey_ossh key iv (des3_encrypt_pubkey_ossh key iv blk) ≡ blk
unfolding des3_decrypt_pubkey_ossh des3_encrypt_pubkey_ossh
pubkey_decrypt-encrypt key iv blk h k b =
    let scheds = des3_iv iv (des3_key key) in
    ap (λ (r : List ℕ × Triple). r.0) (cbc3-undone scheds blk (chained key iv h k) b)
  where
    chained :
        (key iv : List ℕ)
        → All IsByte iv
        → 8 ≤ length iv
        → IsChained (des3_iv iv (des3_key key)).first
    chained key iv h k = (
      msb-IsOrder.get-lt iv h (omega arith),
      msb-IsOrder.get-lt (drop 4 iv) (All-drop IsByte 4 iv h) (omega (arith, length-drop 4 iv)),
    )
