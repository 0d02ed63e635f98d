-- ===== src/Hash/Sha1.antt =====
-- sshsha.c: the core of SHA-1 and the instance of the outer algorithm.
use pageant.Base.{
  ℕ, zero, suc, ◌+◌, bit_and, bit_or, bit_xor, not, ◌&&◌, List, [], ◌∷◌, ◌++◌, ◌==◌, get_or,
}
use pageant.Word32.{u32, invert, rol, put_32bit_msb_first}
use pageant.Hash.Stream.{Core, int_below, simple}
use pageant.Hash.Gather.{gather_msb, reverse_onto}

-- The digest words, and the variables `a` to `e` of SHATransform.
pub record Words : Type 0 where
  pub a : ℕ
  pub b : ℕ
  pub c : ℕ
  pub d : ℕ
  pub e : ℕ

unfoldable pub core_init : Words
core_init = record {
  a = 0x67452301;
  b = 0xefcdab89;
  c = 0x98badcfe;
  d = 0x10325476;
  e = 0xc3d2e1f0;
}

-- `w[16]` to `w[79]`, `n` to go, over the words so far with the last first.
schedule : ℕ → List ℕ → List ℕ
unfolding rol
schedule zero w = w
schedule (suc n) w =
    let tmp =
      bit_xor (bit_xor (bit_xor (get_or w 2 0) (get_or w 7 0)) (get_or w 13 0)) (get_or w 15 0) in
    schedule n (rol tmp 1 ∷ w)

-- The function of `b`, `c`, `d` and the constant of the four loops.
pub data Phase : Type 0 where
  first second third fourth : Phase

mix : Phase → ℕ → ℕ → ℕ → ℕ
mix first b c d = bit_or (bit_and b c) (bit_and d (invert b))
mix second b c d = bit_xor (bit_xor b c) d
mix third b c d = bit_or (bit_or (bit_and b c) (bit_and b d)) (bit_and c d)
mix fourth b c d = bit_xor (bit_xor b c) d

constant : Phase → ℕ
constant first = 0x5a827999
constant second = 0x6ed9eba1
constant third = 0x8f1bbcdc
constant fourth = 0xca62c1d6

round : Phase → Words → ℕ → Words
unfolding mix constant rol
round ph s w =
    let tmp = u32 (rol s.a 5 + mix ph s.b s.c s.d + s.e + w + constant ph) in
    record { a = tmp; b = s.a; c = rol s.b 30; d = s.c; e = s.d }

-- One loop of `n` rounds; the words that are left come back with the state.
rounds : Phase → ℕ → Words → List ℕ → Words × List ℕ
unfolding round
rounds ph zero s w = (s, w)
rounds ph (suc n) s [] = (s, [])
rounds ph (suc n) s (w ∷ ws) = rounds ph n (round ph s w) ws

unfoldable pub sha_transform : Words → List ℕ → Words
unfolding schedule rounds reverse_onto
sha_transform s block =
    let w = reverse_onto (schedule 64 (reverse_onto block [])) [] in
    let (s1, w1) = rounds first 20 s w in
    let (s2, w2) = rounds second 20 s1 w1 in
    let (s3, w3) = rounds third 20 s2 w2 in
    let (s4, w4) = rounds fourth 20 s3 w3 in
    record {
      a = u32 (s.a + s4.a);
      b = u32 (s.b + s4.b);
      c = u32 (s.c + s4.c);
      d = u32 (s.d + s4.d);
      e = u32 (s.e + s4.e);
    }

unfoldable pub sha_digest : Words → List ℕ
unfolding put_32bit_msb_first
sha_digest s =
    put_32bit_msb_first s.a
    ++ put_32bit_msb_first s.b
    ++ put_32bit_msb_first s.c
    ++ put_32bit_msb_first s.d
    ++ put_32bit_msb_first s.e

-- SHA_Bytes adds to the block only if something is in it already.
unfoldable pub sha1 : Core
unfolding core_init sha_transform gather_msb sha_digest put_32bit_msb_first
sha1 = record {
  H = Words;
  initial = core_init;
  block = λ s b. sha_transform s (gather_msb 16 b);
  just_add = λ used len. not (used == 0) && int_below (used + len) 64;
  more = λ used len. not (int_below (used + len) 64);
  store_length = λ hi lo. put_32bit_msb_first hi ++ put_32bit_msb_first lo;
  digest = sha_digest;
}

unfoldable pub sha_simple : List ℕ → List ℕ
unfolding sha1 simple
sha_simple p = simple sha1 p
