-- ===== src/Cipher/Arcfour.antt =====
-- ssharcf.c: the Arcfour stream cipher. `i`, `j` and the 256 bytes of `s` are the context.
use pageant.Base.{
  ℕ, zero, suc, ◌+◌, ◌%◌, ◌^◌, bit_and, bit_xor, List, [], ◌∷◌, get_or, set, replicate,
}
pub mod Table

pub record ArcfourContext : Type 0 where
  pub i : ℕ
  pub j : ℕ
  pub s : List ℕ

-- `tmp = s[i]; s[i] = s[j]; s[j] = tmp;`
unfoldable pub swap : List ℕ → ℕ → ℕ → List ℕ
swap s i j = let tmp = get_or s i 0 in let s1 = set s i (get_or s j 0) in set s1 j tmp

-- The state after one byte of key stream.
unfoldable pub step : ArcfourContext → ArcfourContext
unfolding swap
step ctx =
    let i = bit_and (ctx.i + 1) 0xff in
    let j = bit_and (ctx.j + get_or ctx.s i 0) 0xff in record { i = i; j = j; s = swap ctx.s i j }

-- `s[(s[i]+s[j]) & 0xff]`, after the step.
unfoldable pub key_byte : ArcfourContext → ℕ
key_byte ctx = get_or ctx.s (bit_and (get_or ctx.s ctx.i 0 + get_or ctx.s ctx.j 0) 0xff) 0

-- The bytes that take the place of `blk`, and the context.
unfoldable pub arcfour_block : ArcfourContext → List ℕ → List ℕ × ArcfourContext
unfolding step key_byte
arcfour_block ctx [] = ([], ctx)
arcfour_block ctx (b ∷ blk) =
    let next = step ctx in
    let later = arcfour_block next blk in (bit_xor b (key_byte next) ∷ later.0, later.1)

-- `s[i] = i` for i below 256, the last `n` of them.
pub identity_from : ℕ → ℕ → List ℕ
identity_from i zero = []
identity_from i (suc n) = i ∷ identity_from (i + 1) n

-- `k[i] = key[i % keybytes]`
pub repeat_from : List ℕ → ℕ → ℕ → ℕ → List ℕ
repeat_from key keybytes i zero = []
repeat_from key keybytes i (suc n) =
    get_or key (i % keybytes) 0 ∷ repeat_from key keybytes (i + 1) n

-- The second loop of `arcfour_setkey`, from `i` on, for what is left of `k`.
pub schedule : List ℕ → ℕ → ℕ → List ℕ → List ℕ
unfolding swap
schedule s i j [] = s
schedule s i j (k ∷ ks) =
    let j1 = bit_and (j + get_or s i 0 + k) 0xff in schedule (swap s i j1) (i + 1) j1 ks

-- The source asserts that `keybytes` is at most 256.
unfoldable pub arcfour_setkey : List ℕ → ℕ → ArcfourContext
unfolding identity_from repeat_from schedule
arcfour_setkey key keybytes = record {
  i = 0;
  j = 0;
  s = schedule (identity_from 0 256) 0 0 (repeat_from key keybytes 0 256);
}

unfoldable pub arcfour_stir : ArcfourContext → ArcfourContext
arcfour_stir ctx = (arcfour_block ctx (replicate 1536 0)).1

unfoldable pub arcfour128_key : List ℕ → ArcfourContext
arcfour128_key key = arcfour_stir (arcfour_setkey key 16)

unfoldable pub arcfour256_key : List ℕ → ArcfourContext
arcfour256_key key = arcfour_stir (arcfour_setkey key 32)
