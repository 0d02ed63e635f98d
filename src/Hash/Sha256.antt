-- ===== src/Hash/Sha256.antt =====
-- sshsh256.c: the core of SHA-256 and the instance of the outer algorithm.
use pageant.Base.{ℕ, zero, suc, ◌+◌, bit_and, bit_xor, not, ◌&&◌, List, [], ◌∷◌, ◌++◌, ◌==◌, get_or}
use pageant.Word32.{u32, shr, invert, ror, put_32bit_msb_first}
use pageant.Hash.Gather.{gather_msb, reverse_onto}
use pageant.Hash.Stream.{Core, int_below, simple}

-- Eight words: `h[0]` to `h[7]`, and the variables `a` to `h` of the block function.
pub record Words : Type 0 where
  pub a : ℕ
  pub b : ℕ
  pub c : ℕ
  pub d : ℕ
  pub e : ℕ
  pub f : ℕ
  pub g : ℕ
  pub h : ℕ

unfoldable pub ch : ℕ → ℕ → ℕ → ℕ
ch x y z = bit_xor (bit_and x y) (bit_and (invert x) z)

unfoldable pub maj : ℕ → ℕ → ℕ → ℕ
maj x y z = bit_xor (bit_xor (bit_and x y) (bit_and x z)) (bit_and y z)

unfoldable pub bigsigma0 : ℕ → ℕ
unfolding ror
bigsigma0 x = bit_xor (bit_xor (ror x 2) (ror x 13)) (ror x 22)

unfoldable pub bigsigma1 : ℕ → ℕ
unfolding ror
bigsigma1 x = bit_xor (bit_xor (ror x 6) (ror x 11)) (ror x 25)

unfoldable pub smallsigma0 : ℕ → ℕ
unfolding ror
smallsigma0 x = bit_xor (bit_xor (ror x 7) (ror x 18)) (shr x 3)

unfoldable pub smallsigma1 : ℕ → ℕ
unfolding ror
smallsigma1 x = bit_xor (bit_xor (ror x 17) (ror x 19)) (shr x 10)

unfoldable pub core_init : Words
core_init = record {
  a = 0x6a09e667;
  b = 0xbb67ae85;
  c = 0x3c6ef372;
  d = 0xa54ff53a;
  e = 0x510e527f;
  f = 0x9b05688c;
  g = 0x1f83d9ab;
  h = 0x5be0cd19;
}

-- `k[0]` to `k[63]`.
round_constants : List ℕ
round_constants =
    0x428a2f98 ∷ 0x71374491 ∷ 0xb5c0fbcf ∷ 0xe9b5dba5 ∷ 0x3956c25b ∷ 0x59f111f1 ∷ 0x923f82a4
    ∷ 0xab1c5ed5 ∷ 0xd807aa98 ∷ 0x12835b01 ∷ 0x243185be ∷ 0x550c7dc3 ∷ 0x72be5d74 ∷ 0x80deb1fe
    ∷ 0x9bdc06a7 ∷ 0xc19bf174 ∷ 0xe49b69c1 ∷ 0xefbe4786 ∷ 0x0fc19dc6 ∷ 0x240ca1cc ∷ 0x2de92c6f
    ∷ 0x4a7484aa ∷ 0x5cb0a9dc ∷ 0x76f988da ∷ 0x983e5152 ∷ 0xa831c66d ∷ 0xb00327c8 ∷ 0xbf597fc7
    ∷ 0xc6e00bf3 ∷ 0xd5a79147 ∷ 0x06ca6351 ∷ 0x14292967 ∷ 0x27b70a85 ∷ 0x2e1b2138 ∷ 0x4d2c6dfc
    ∷ 0x53380d13 ∷ 0x650a7354 ∷ 0x766a0abb ∷ 0x81c2c92e ∷ 0x92722c85 ∷ 0xa2bfe8a1 ∷ 0xa81a664b
    ∷ 0xc24b8b70 ∷ 0xc76c51a3 ∷ 0xd192e819 ∷ 0xd6990624 ∷ 0xf40e3585 ∷ 0x106aa070 ∷ 0x19a4c116
    ∷ 0x1e376c08 ∷ 0x2748774c ∷ 0x34b0bcb5 ∷ 0x391c0cb3 ∷ 0x4ed8aa4a ∷ 0x5b9cca4f ∷ 0x682e6ff3
    ∷ 0x748f82ee ∷ 0x78a5636f ∷ 0x84c87814 ∷ 0x8cc70208 ∷ 0x90befffa ∷ 0xa4506ceb ∷ 0xbef9a3f7
    ∷ 0xc67178f2 ∷ []

-- The message schedule `w[16]` to `w[63]`, `n` words to go; the list has the words so far, the last
-- first, so `w[t - k]` is element `k - 1`.
schedule : ℕ → List ℕ → List ℕ
unfolding smallsigma0 smallsigma1
schedule zero w = w
schedule (suc n) w = schedule n (
    u32 (smallsigma1 (get_or w 1 0) + get_or w 6 0 + smallsigma0 (get_or w 14 0) + get_or w 15 0)
    ∷ w)

-- The macro ROUND. The eight rounds of an iteration of the source pass the variables rotated by
-- one place each; here their contents move instead.
round : Words → ℕ → ℕ → Words
unfolding bigsigma0 bigsigma1 ch maj
round s k w =
    let t1 = s.h + bigsigma1 s.e + ch s.e s.f s.g + k + w in
    let t2 = bigsigma0 s.a + maj s.a s.b s.c in
    record {
      a = u32 (t1 + t2);
      b = s.a;
      c = s.b;
      d = s.c;
      e = u32 (s.d + t1);
      f = s.e;
      g = s.f;
      h = s.g;
    }

rounds : Words → List ℕ → List ℕ → Words
unfolding round
rounds s [] w = s
rounds s (k ∷ ks) [] = s
rounds s (k ∷ ks) (t ∷ ts) = rounds (round s k t) ks ts

add_words : Words → Words → Words
add_words s t = record {
  a = u32 (s.a + t.a);
  b = u32 (s.b + t.b);
  c = u32 (s.c + t.c);
  d = u32 (s.d + t.d);
  e = u32 (s.e + t.e);
  f = u32 (s.f + t.f);
  g = u32 (s.g + t.g);
  h = u32 (s.h + t.h);
}

unfoldable pub sha256_block : Words → List ℕ → Words
unfolding schedule rounds add_words reverse_onto round_constants
sha256_block s block =
    let w = reverse_onto (schedule 48 (reverse_onto block [])) [] in
    add_words s (rounds s round_constants w)

unfoldable pub sha256_digest : Words → List ℕ
unfolding put_32bit_msb_first
sha256_digest s =
    put_32bit_msb_first s.a
    ++ put_32bit_msb_first s.b
    ++ put_32bit_msb_first s.c
    ++ put_32bit_msb_first s.d
    ++ put_32bit_msb_first s.e
    ++ put_32bit_msb_first s.f
    ++ put_32bit_msb_first s.g
    ++ put_32bit_msb_first s.h

-- SHA256_Bytes adds to the block only if something is in it already.
unfoldable pub sha256 : Core
unfolding core_init sha256_block gather_msb sha256_digest put_32bit_msb_first
sha256 = record {
  H = Words;
  initial = core_init;
  block = λ s b. sha256_block s (gather_msb 16 b);
  just_add = λ used len. not (used == 0) && int_below (used + len) 64;
  more = λ used len. not (int_below (used + len) 64);
  store_length = λ hi lo. put_32bit_msb_first hi ++ put_32bit_msb_first lo;
  digest = sha256_digest;
}

unfoldable pub sha256_simple : List ℕ → List ℕ
unfolding sha256 simple
sha256_simple p = simple sha256 p
