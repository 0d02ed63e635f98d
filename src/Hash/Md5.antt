-- ===== src/Hash/Md5.antt =====
-- sshmd5.c: the core of MD5 and the instance of the outer algorithm.
use pageant.Base.{ℕ, ◌+◌, bit_and, bit_or, bit_xor, List, [], ◌∷◌, ◌++◌, not, get_or}
use pageant.Word32.{u32, invert, rol, put_32bit_lsb_first}
use pageant.Hash.Stream.{Core, uint_below, simple}
use pageant.Hash.Gather.{gather_lsb}

-- `h[0]` to `h[3]`, and the variables `a` to `d` of MD5_Block.
pub record Words : Type 0 where
  pub a : ℕ
  pub b : ℕ
  pub c : ℕ
  pub d : ℕ

unfoldable pub core_init : Words
core_init = record { a = 0x67452301; b = 0xefcdab89; c = 0x98badcfe; d = 0x10325476 }

-- The macros F, G, H, I.
pub data Mixer : Type 0 where
  mix_f mix_g mix_h mix_i : Mixer

mix : Mixer → ℕ → ℕ → ℕ → ℕ
mix mix_f x y z = bit_or (bit_and x y) (bit_and (invert x) z)
mix mix_g x y z = bit_or (bit_and x z) (bit_and (invert z) y)
mix mix_h x y z = bit_xor (bit_xor x y) z
mix mix_i x y z = bit_xor y (bit_or x (invert z))

-- The arguments of a line of MD5_Block behind the variables.
pub record Step : Type 0 where
  pub k : ℕ
  pub s : ℕ
  pub ti : ℕ

abbrev step : ℕ → ℕ → ℕ → Step
step k s ti = record { k = k; s = s; ti = ti }

-- The macro `subround` on the variables in the order in which the line names them; the next line
-- names the last one first.
subround : Mixer → List ℕ → Words → Step → Words
unfolding mix rol
subround f block v p =
    let w = u32 (v.b + rol (u32 (v.a + mix f v.b v.c v.d + get_or block p.k 0 + p.ti)) p.s) in
    record { a = v.d; b = w; c = v.b; d = v.c }

subrounds : Mixer → List ℕ → Words → List Step → Words
unfolding subround
subrounds f block v [] = v
subrounds f block v (p ∷ ps) = subrounds f block (subround f block v p) ps

f_steps : List Step
f_steps =
    step 0 7 0xd76aa478
    ∷ step 1 12 0xe8c7b756
    ∷ step 2 17 0x242070db
    ∷ step 3 22 0xc1bdceee
    ∷ step 4 7 0xf57c0faf
    ∷ step 5 12 0x4787c62a
    ∷ step 6 17 0xa8304613
    ∷ step 7 22 0xfd469501
    ∷ step 8 7 0x698098d8
    ∷ step 9 12 0x8b44f7af
    ∷ step 10 17 0xffff5bb1
    ∷ step 11 22 0x895cd7be
    ∷ step 12 7 0x6b901122
    ∷ step 13 12 0xfd987193
    ∷ step 14 17 0xa679438e
    ∷ step 15 22 0x49b40821
    ∷ []

g_steps : List Step
g_steps =
    step 1 5 0xf61e2562
    ∷ step 6 9 0xc040b340
    ∷ step 11 14 0x265e5a51
    ∷ step 0 20 0xe9b6c7aa
    ∷ step 5 5 0xd62f105d
    ∷ step 10 9 0x02441453
    ∷ step 15 14 0xd8a1e681
    ∷ step 4 20 0xe7d3fbc8
    ∷ step 9 5 0x21e1cde6
    ∷ step 14 9 0xc33707d6
    ∷ step 3 14 0xf4d50d87
    ∷ step 8 20 0x455a14ed
    ∷ step 13 5 0xa9e3e905
    ∷ step 2 9 0xfcefa3f8
    ∷ step 7 14 0x676f02d9
    ∷ step 12 20 0x8d2a4c8a
    ∷ []

h_steps : List Step
h_steps =
    step 5 4 0xfffa3942
    ∷ step 8 11 0x8771f681
    ∷ step 11 16 0x6d9d6122
    ∷ step 14 23 0xfde5380c
    ∷ step 1 4 0xa4beea44
    ∷ step 4 11 0x4bdecfa9
    ∷ step 7 16 0xf6bb4b60
    ∷ step 10 23 0xbebfbc70
    ∷ step 13 4 0x289b7ec6
    ∷ step 0 11 0xeaa127fa
    ∷ step 3 16 0xd4ef3085
    ∷ step 6 23 0x04881d05
    ∷ step 9 4 0xd9d4d039
    ∷ step 12 11 0xe6db99e5
    ∷ step 15 16 0x1fa27cf8
    ∷ step 2 23 0xc4ac5665
    ∷ []

i_steps : List Step
i_steps =
    step 0 6 0xf4292244
    ∷ step 7 10 0x432aff97
    ∷ step 14 15 0xab9423a7
    ∷ step 5 21 0xfc93a039
    ∷ step 12 6 0x655b59c3
    ∷ step 3 10 0x8f0ccc92
    ∷ step 10 15 0xffeff47d
    ∷ step 1 21 0x85845dd1
    ∷ step 8 6 0x6fa87e4f
    ∷ step 15 10 0xfe2ce6e0
    ∷ step 6 15 0xa3014314
    ∷ step 13 21 0x4e0811a1
    ∷ step 4 6 0xf7537e82
    ∷ step 11 10 0xbd3af235
    ∷ step 2 15 0x2ad7d2bb
    ∷ step 9 21 0xeb86d391
    ∷ []

unfoldable pub md5_block : Words → List ℕ → Words
unfolding subrounds f_steps g_steps h_steps i_steps
md5_block s block =
    let v =
      subrounds mix_i block
        (subrounds mix_h block (subrounds mix_g block (subrounds mix_f block s f_steps) g_steps)
          h_steps)
        i_steps in
    record { a = u32 (s.a + v.a); b = u32 (s.b + v.b); c = u32 (s.c + v.c); d = u32 (s.d + v.d) }

unfoldable pub md5_digest : Words → List ℕ
unfolding put_32bit_lsb_first
md5_digest s =
    put_32bit_lsb_first s.a
    ++ put_32bit_lsb_first s.b
    ++ put_32bit_lsb_first s.c
    ++ put_32bit_lsb_first s.d

-- MD5Update adds to the block also if nothing is in it.
unfoldable pub md5 : Core
unfolding core_init md5_block gather_lsb md5_digest put_32bit_lsb_first
md5 = record {
  H = Words;
  initial = core_init;
  block = λ s b. md5_block s (gather_lsb 16 b);
  just_add = λ used len. uint_below (used + len) 64;
  more = λ used len. not (uint_below (used + len) 64);
  store_length = λ hi lo. put_32bit_lsb_first lo ++ put_32bit_lsb_first hi;
  digest = md5_digest;
}

unfoldable pub md5_simple : List ℕ → List ℕ
unfolding md5 simple
md5_simple p = simple md5 p
