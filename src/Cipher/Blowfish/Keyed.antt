-- ===== src/Cipher/Blowfish/Keyed.antt =====
-- The arrays of a Blowfish context through the key set-up: their sizes and the width of their words.
use pageant.Base.{
  ℕ, zero, suc, ◌+◌, ◌*◌, ◌%◌, ◌^◌, ◌<◌, ◌≤◌, ◌≡◌, refl, ◌∙◌, List, [], ◌∷◌, Option, none, some,
  arith, Bool, true, ◌&&◌, ltb, ltb→lt, get_or, length, length-set, All, All-set, All-get_or,
}
use pageant.Base.Bits.{bit_xor-lt}
use pageant.Word32.Bytes.{IsByte}
use pageant.Cipher.Blowfish.{BlowfishContext, Pair}
use pageant.Word32.Blocks.{IsWord}
use pageant.Cipher.Blowfish.Modes.{IsPair, blowfish_encrypt-IsPair}
use pageant.Cipher.Blowfish.Tables.{parray, sbox0, sbox1, sbox2, sbox3}
use pageant.Cipher.Blowfish.Key.{
  blowfish_initkey, mix_key_word, mix_key, Target, to_p, to_s0, to_s1, to_s2, to_s3, write, store,
  Expansion, mix_salt_word, expand_step, expand_loop, expand_all, blowfish_expandkey,
  blowfish_setkey,
}

-- An array of `n` words.
abbrev pub IsArray : ℕ → List ℕ → Type 0
IsArray n xs = (length xs ≡ n) × All IsWord xs

-- The arrays of `struct BlowfishContext`.
pub record IsKeyed (ctx : BlowfishContext) : Type 0 where
  pub p_array : IsArray 18 ctx.p
  pub s0_array : IsArray 256 ctx.s0
  pub s1_array : IsArray 256 ctx.s1
  pub s2_array : IsArray 256 ctx.s2
  pub s3_array : IsArray 256 ctx.s3

-- A write within an array.
write-IsArray :
    (n i v : ℕ) (xs : List ℕ) → i < n → IsArray n xs → IsWord v → IsArray n (write xs i v)
unfolding write
write-IsArray n i v xs b (e, h) hv =
    let within : ltb i (length xs) ≡ true = ground (arith, b, e) in
    rw within (length-set xs i v ∙ e, All-set IsWord xs i v h hv)

-- The tables are compared entry by entry, by computation.
all_words : List ℕ → Bool
all_words [] = true
all_words (x ∷ xs) = ltb x (2 ^ 32) && all_words xs

all_words-All : (xs : List ℕ) → all_words xs ≡ true → All IsWord xs
unfolding all_words
all_words-All [] h = tt
all_words-All (x ∷ xs) h = (ltb→lt x (2 ^ 32) (ground arith), all_words-All xs (ground arith))

parray-IsArray : IsArray 18 parray
unfolding parray all_words
parray-IsArray = (refl, all_words-All parray refl)

sbox0-IsArray : IsArray 256 sbox0
unfolding sbox0 all_words
sbox0-IsArray = (refl, all_words-All sbox0 refl)

sbox1-IsArray : IsArray 256 sbox1
unfolding sbox1 all_words
sbox1-IsArray = (refl, all_words-All sbox1 refl)

sbox2-IsArray : IsArray 256 sbox2
unfolding sbox2 all_words
sbox2-IsArray = (refl, all_words-All sbox2 refl)

sbox3-IsArray : IsArray 256 sbox3
unfolding sbox3 all_words
sbox3-IsArray = (refl, all_words-All sbox3 refl)

blowfish_initkey-IsKeyed : (ctx : BlowfishContext) → IsKeyed (blowfish_initkey ctx)
unfolding blowfish_initkey
blowfish_initkey-IsKeyed ctx = record {
  p_array = parray-IsArray;
  s0_array = sbox0-IsArray;
  s1_array = sbox1-IsArray;
  s2_array = sbox2-IsArray;
  s3_array = sbox3-IsArray;
}

module _ (bs : List ℕ) (size : ℕ) where
  mix_salt_word-IsWord : (pos w : ℕ) → IsWord w → IsWord (mix_salt_word bs size pos w)
  unfolding mix_salt_word
  mix_salt_word-IsWord pos w h =
      bit_xor-lt 32 _ _
        (bit_xor-lt 32 _ _ (bit_xor-lt 32 _ _ (bit_xor-lt 32 w _ h (omega arith)) (omega arith))
          (omega arith))
        (omega arith)

  mix_key_word-IsWord : (i w : ℕ) → All IsByte bs → IsWord w → IsWord (mix_key_word bs size i w)
  unfolding mix_key_word
  mix_key_word-IsWord i w hb h =
      let last : get_or bs ((i * 4 + 3) % size) 0 < 256 =
        All-get_or IsByte bs ((i * 4 + 3) % size) 0 hb (omega arith) in
      bit_xor-lt 32 _ _
        (bit_xor-lt 32 _ _ (bit_xor-lt 32 _ _ (bit_xor-lt 32 w _ h (omega arith)) (omega arith))
          (omega arith))
        (omega (arith, last))

  mix_key-IsArray :
      (n i : ℕ) (p : List ℕ)
      → All IsByte bs
      → i + n ≤ 18
      → IsArray 18 p
      → IsArray 18 (mix_key bs size n i p)
  unfolding mix_key
  mix_key-IsArray zero i p hb fits h = h
  mix_key-IsArray (suc n) i p hb fits h =
      let w = mix_key_word bs size i (get_or p i 0) in
      mix_key-IsArray n (suc i) (write p i w) hb (omega (arith, fits)) (
        write-IsArray 18 i w p (omega (arith, fits)) h
          (mix_key_word-IsWord i (get_or p i 0) hb (All-get_or IsWord p i 0 h.1 (omega arith))))

-- The number of words of a target.
abbrev room : Target → ℕ
room to_p = 18
room to_s0 = 256
room to_s1 = 256
room to_s2 = 256
room to_s3 = 256

store-IsKeyed :
    (t : Target) (i : ℕ) (str : Pair) (ctx : BlowfishContext)
    → IsKeyed ctx
    → IsPair str
    → i + 1 < room t
    → IsKeyed (store t i str ctx)
unfolding store
store-IsKeyed to_p i str ctx k (hl, hr) b = record {
  p_array =
      write-IsArray 18 (i + 1) str.r _ b
        (write-IsArray 18 i str.l ctx.p (omega (arith, b)) k.p_array hl) hr;
  s0_array = k.s0_array;
  s1_array = k.s1_array;
  s2_array = k.s2_array;
  s3_array = k.s3_array;
}
store-IsKeyed to_s0 i str ctx k (hl, hr) b = record {
  p_array = k.p_array;
  s0_array =
      write-IsArray 256 (i + 1) str.r _ b
        (write-IsArray 256 i str.l ctx.s0 (omega (arith, b)) k.s0_array hl) hr;
  s1_array = k.s1_array;
  s2_array = k.s2_array;
  s3_array = k.s3_array;
}
store-IsKeyed to_s1 i str ctx k (hl, hr) b = record {
  p_array = k.p_array;
  s0_array = k.s0_array;
  s1_array =
      write-IsArray 256 (i + 1) str.r _ b
        (write-IsArray 256 i str.l ctx.s1 (omega (arith, b)) k.s1_array hl) hr;
  s2_array = k.s2_array;
  s3_array = k.s3_array;
}
store-IsKeyed to_s2 i str ctx k (hl, hr) b = record {
  p_array = k.p_array;
  s0_array = k.s0_array;
  s1_array = k.s1_array;
  s2_array =
      write-IsArray 256 (i + 1) str.r _ b
        (write-IsArray 256 i str.l ctx.s2 (omega (arith, b)) k.s2_array hl) hr;
  s3_array = k.s3_array;
}
store-IsKeyed to_s3 i str ctx k (hl, hr) b = record {
  p_array = k.p_array;
  s0_array = k.s0_array;
  s1_array = k.s1_array;
  s2_array = k.s2_array;
  s3_array =
      write-IsArray 256 (i + 1) str.r _ b
        (write-IsArray 256 i str.l ctx.s3 (omega (arith, b)) k.s3_array hl) hr;
}

-- The variables of the expansion, with words in `str`.
abbrev IsExpansion : Expansion → Type 0
IsExpansion x = IsPair x.str × IsKeyed x.ctx

module _ (salt : List ℕ) (saltbytes : ℕ) where
  expand_step-IsExpansion :
      (t : Target) (i : ℕ) (x : Expansion)
      → IsExpansion x
      → i + 1 < room t
      → IsExpansion (expand_step salt saltbytes t i x)
  unfolding expand_step
  expand_step-IsExpansion t i x ((hl, hr), k) b =
      let h =
        blowfish_encrypt-IsPair x.ctx (mix_salt_word salt saltbytes x.saltpos x.str.l)
          (mix_salt_word salt saltbytes (x.saltpos + 4) x.str.r) k.p_array.1
          (mix_salt_word-IsWord salt saltbytes x.saltpos x.str.l hl)
          (mix_salt_word-IsWord salt saltbytes (x.saltpos + 4) x.str.r hr) in
      (h, store-IsKeyed t i _ x.ctx k h b)

  expand_loop-IsExpansion :
      (t : Target) (n i : ℕ) (x : Expansion)
      → IsExpansion x
      → i + 2 * n ≤ room t
      → IsExpansion (expand_loop salt saltbytes t n i x)
  unfolding expand_loop
  expand_loop-IsExpansion t zero i x h fits = h
  expand_loop-IsExpansion t (suc n) i x h fits =
      expand_loop-IsExpansion t n (i + 2) (expand_step salt saltbytes t i x)
        (expand_step-IsExpansion t i x h (omega (arith, fits))) (omega (arith, fits))

  expand_all-IsExpansion :
      (x : Expansion) → IsExpansion x → IsExpansion (expand_all salt saltbytes x)
  unfolding expand_all
  expand_all-IsExpansion x h =
      let h0 = expand_loop-IsExpansion to_p 9 0 x h (omega arith) in
      let fits : 0 + 2 * 128 ≤ 256 = omega arith in
      let h1 = expand_loop-IsExpansion to_s0 128 0 _ h0 fits in
      let h2 = expand_loop-IsExpansion to_s1 128 0 _ h1 fits in
      let h3 = expand_loop-IsExpansion to_s2 128 0 _ h2 fits in
      expand_loop-IsExpansion to_s3 128 0 _ h3 fits

  expanded-IsKeyed :
      (ctx : BlowfishContext) (key : List ℕ) (keybytes : ℕ)
      → All IsByte key
      → IsKeyed ctx
      → let keyed = record ctx { p = mix_key key keybytes 18 0 ctx.p } in
        IsKeyed
          (expand_all salt saltbytes
            (record { str = record { l = 0; r = 0 }; saltpos = 0; ctx = keyed })).ctx
  expanded-IsKeyed ctx key keybytes hb k =
      (expand_all-IsExpansion _ (
        (omega arith, omega arith),
        record {
          p_array = mix_key-IsArray key keybytes 18 0 ctx.p hb (omega arith) k.p_array;
          s0_array = k.s0_array;
          s1_array = k.s1_array;
          s2_array = k.s2_array;
          s3_array = k.s3_array;
        },
      )).1

-- For a key of bytes, `blowfish_expandkey` keeps the sizes of the five arrays, with no write past an end, and 32-bit words in
-- them, with a salt or without.
pub blowfish_expandkey-IsKeyed :
    (ctx : BlowfishContext) (key : List ℕ) (keybytes : ℕ) (salt : Option (List ℕ × ℕ))
    → All IsByte key
    → IsKeyed ctx
    → IsKeyed (blowfish_expandkey ctx key keybytes salt)
unfolding blowfish_expandkey
blowfish_expandkey-IsKeyed ctx key keybytes none hb k =
    expanded-IsKeyed (0 ∷ []) 1 ctx key keybytes hb k
blowfish_expandkey-IsKeyed ctx key keybytes (some (salt, saltbytes)) hb k =
    expanded-IsKeyed salt saltbytes ctx key keybytes hb k

-- For a key of bytes, `blowfish_setkey` leaves 18 words in `P` and 256 words in each of `S0` to
-- `S3`, all below 2 ^ 32, whatever the context held: no write of the expansion goes past the end
-- of an array.
pub blowfish_setkey-IsKeyed :
    (ctx : BlowfishContext) (key : List ℕ) (keybytes : ℕ)
    → All IsByte key
    → IsKeyed (blowfish_setkey ctx key keybytes)
unfolding blowfish_setkey
blowfish_setkey-IsKeyed ctx key keybytes hb =
    blowfish_expandkey-IsKeyed (blowfish_initkey ctx) key keybytes none hb
      (blowfish_initkey-IsKeyed ctx)
