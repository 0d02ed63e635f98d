-- ===== src/Cipher/Blowfish/Key.antt =====
-- The key set-up of Blowfish: blowfish_initkey, blowfish_expandkey and blowfish_setkey of sshblowf.c.
use pageant.Base.{
  ℕ, zero, suc, ◌+◌, ◌*◌, ◌%◌, bit_xor, List, [], ◌∷◌, Option, none, some, ◌++◌, get_or, set, ltb,
  length, if◌then◌else◌,
}
use pageant.Word32.{shl}
use pageant.Cipher.Blowfish.{BlowfishContext, Pair, blowfish_encrypt}
use pageant.Cipher.Blowfish.Tables.{parray, sbox0, sbox1, sbox2, sbox3}

-- The chaining value stays as it is.
unfoldable pub blowfish_initkey : BlowfishContext → BlowfishContext
blowfish_initkey ctx = record ctx { p = parray; s0 = sbox0; s1 = sbox1; s2 = sbox2; s3 = sbox3 }

-- A write to an array. A write past the end lengthens it, the overrun of the source's array.
unfoldable pub write : List ℕ → ℕ → ℕ → List ℕ
write xs i v = if ltb i (length xs) then set xs i v else xs ++ v ∷ []

-- `P[i] ^= key[…] << …` four times, for the key bytes at `4i` to `4i + 3`, repeated cyclically.
unfoldable pub mix_key_word : List ℕ → ℕ → ℕ → ℕ → ℕ
mix_key_word key keybytes i w =
    let byte : ℕ → ℕ = λ k. get_or key ((i * 4 + k) % keybytes) 0 in
    bit_xor (bit_xor (bit_xor (bit_xor w (shl (byte 0) 24)) (shl (byte 1) 16)) (shl (byte 2) 8))
      (byte 3)

-- The loop over `P`, which has `n` words to go from `i` on.
unfoldable pub mix_key : List ℕ → ℕ → ℕ → ℕ → List ℕ → List ℕ
unfolding mix_key_word write
mix_key key keybytes zero i p = p
mix_key key keybytes (suc n) i p =
    mix_key key keybytes n (suc i) (write p i (mix_key_word key keybytes i (get_or p i 0)))

-- The arrays that the expansion overwrites.
pub data Target : Type 0 where
  to_p : Target
  to_s0 : Target
  to_s1 : Target
  to_s2 : Target
  to_s3 : Target

-- `P[i] = str[0]; P[i + 1] = str[1];`, and the like for the others.
unfoldable pub store : Target → ℕ → Pair → BlowfishContext → BlowfishContext
unfolding write
store to_p i str ctx = record ctx { p = write (write ctx.p i str.l) (i + 1) str.r }
store to_s0 i str ctx = record ctx { s0 = write (write ctx.s0 i str.l) (i + 1) str.r }
store to_s1 i str ctx = record ctx { s1 = write (write ctx.s1 i str.l) (i + 1) str.r }
store to_s2 i str ctx = record ctx { s2 = write (write ctx.s2 i str.l) (i + 1) str.r }
store to_s3 i str ctx = record ctx { s3 = write (write ctx.s3 i str.l) (i + 1) str.r }

-- The variables of the expansion: `str`, `saltpos` and the context.
pub record Expansion : Type 0 where
  pub str : Pair
  pub saltpos : ℕ
  pub ctx : BlowfishContext

-- Four of the eight rounds that mix the salt into `str`: one word, from `saltpos` on.
unfoldable pub mix_salt_word : List ℕ → ℕ → ℕ → ℕ → ℕ
mix_salt_word salt saltbytes saltpos w =
    let byte : ℕ → ℕ = λ k. get_or salt ((saltpos + k) % saltbytes) 0 in
    bit_xor (bit_xor (bit_xor (bit_xor w (shl (byte 0) 24)) (shl (byte 1) 16)) (shl (byte 2) 8))
      (shl (byte 3) 0)

-- One pass of a loop: mix in the salt, encrypt `str`, store it.
unfoldable pub expand_step : List ℕ → ℕ → Target → ℕ → Expansion → Expansion
unfolding mix_salt_word store
expand_step salt saltbytes target i x =
    let str =
      blowfish_encrypt x.ctx (mix_salt_word salt saltbytes x.saltpos x.str.l)
        (mix_salt_word salt saltbytes (x.saltpos + 4) x.str.r) in
    record { str = str; saltpos = x.saltpos + 8; ctx = store target i str x.ctx }

-- A loop `for (i = …; …; i += 2)` with `n` passes to go.
unfoldable pub expand_loop : List ℕ → ℕ → Target → ℕ → ℕ → Expansion → Expansion
unfolding expand_step
expand_loop salt saltbytes target zero i x = x
expand_loop salt saltbytes target (suc n) i x =
    expand_loop salt saltbytes target n (i + 2) (expand_step salt saltbytes target i x)

-- The five loops, one after the other.
unfoldable pub expand_all : List ℕ → ℕ → Expansion → Expansion
unfolding expand_loop
expand_all salt saltbytes x =
    let x0 = expand_loop salt saltbytes to_p 9 0 x in
    let x1 = expand_loop salt saltbytes to_s0 128 0 x0 in
    let x2 = expand_loop salt saltbytes to_s1 128 0 x1 in
    let x3 = expand_loop salt saltbytes to_s2 128 0 x2 in expand_loop salt saltbytes to_s3 128 0 x3

-- A missing salt is one zero byte.
unfoldable pub blowfish_expandkey :
    BlowfishContext → List ℕ → ℕ → Option (List ℕ × ℕ) → BlowfishContext
unfolding mix_key expand_all
blowfish_expandkey ctx key keybytes none =
    let keyed = record ctx { p = mix_key key keybytes 18 0 ctx.p } in
    (expand_all (0 ∷ []) 1 (record { str = record { l = 0; r = 0 }; saltpos = 0; ctx = keyed })).ctx
blowfish_expandkey ctx key keybytes (some (salt, saltbytes)) =
    let keyed = record ctx { p = mix_key key keybytes 18 0 ctx.p } in
    (expand_all salt saltbytes
      (record { str = record { l = 0; r = 0 }; saltpos = 0; ctx = keyed })).ctx

unfoldable pub blowfish_setkey : BlowfishContext → List ℕ → ℕ → BlowfishContext
unfolding blowfish_initkey blowfish_expandkey
blowfish_setkey ctx key keybytes = blowfish_expandkey (blowfish_initkey ctx) key keybytes none
