-- ===== src/Hash/Digests.antt =====
-- The digests that sshsh256.c, sshsha.c and sshmd5.c compute.
use pageant.Base.{ℕ, ◌-◌, ◌/◌, ◌%◌, ◌^◌, ◌<◌, ◌≡◌, refl, List, [], ◌∷◌, ◌++◌, arith, length, All}
use pageant.Word32.{put_32bit_msb_first, put_32bit_lsb_first}
use pageant.Word32.Bytes.{put_msb_value}
use pageant.Hash.Stream.{init, final}
use pageant.Hash.Blocks.{IsShortCut, joined}
use pageant.Hash.Padding.{big_endian, little_endian, Stores, IsDigest, feed, final-feed}
use pageant.Hash.Sha256.{sha256}
use pageant.Hash.Sha1.{sha1}
use pageant.Hash.Md5.{md5}

pub sha256-IsShortCut : IsShortCut sha256
unfolding sha256
sha256-IsShortCut = record {
  fits = λ used len h g e. ground arith;
  passes = λ used len h g e. ground arith;
  goes_on = λ used len h g. ground arith;
}

pub sha1-IsShortCut : IsShortCut sha1
unfolding sha1
sha1-IsShortCut = record {
  fits = λ used len h g e. ground arith;
  passes = λ used len h g e. ground arith;
  goes_on = λ used len h g. ground arith;
}

pub md5-IsShortCut : IsShortCut md5
unfolding md5
md5-IsShortCut = record {
  fits = λ used len h g e. ground arith;
  passes = λ used len h g e. ground arith;
  goes_on = λ used len h g. ground arith;
}

same8 :
    {a b c d e f g h a' b' c' d' e' f' g' h' : ℕ}
    → a ≡ a'
    → b ≡ b'
    → c ≡ c'
    → d ≡ d'
    → e ≡ e'
    → f ≡ f'
    → g ≡ g'
    → h ≡ h'
    → a ∷ b ∷ c ∷ d ∷ e ∷ f ∷ g ∷ h ∷ [] ≡ a' ∷ b' ∷ c' ∷ d' ∷ e' ∷ f' ∷ g' ∷ h' ∷ []
same8 p q r s t u v w = rw (p, q, r, s, t, u, v, w) refl

big_endian_words :
    (n : ℕ)
    → put_32bit_msb_first (n / 2 ^ 32 % 2 ^ 32) ++ put_32bit_msb_first (n % 2 ^ 32) ≡ big_endian 8 n
unfolding big_endian
big_endian_words n =
    rw (put_msb_value (n / 2 ^ 32 % 2 ^ 32), put_msb_value (n % 2 ^ 32))
      (same8 (omega arith) (omega arith) (omega arith) (omega arith) (omega arith) (omega arith)
        (omega arith) (omega arith))

little_endian_words :
    (n : ℕ)
    → put_32bit_lsb_first (n % 2 ^ 32) ++ put_32bit_lsb_first (n / 2 ^ 32 % 2 ^ 32)
      ≡ little_endian 8 n
unfolding put_32bit_lsb_first little_endian
little_endian_words n =
    same8 (omega arith) (omega arith) (omega arith) (omega arith) (omega arith) (omega arith)
      (omega arith) (omega arith)

pub sha256-Stores : Stores sha256 big_endian
unfolding sha256
sha256-Stores = big_endian_words

pub sha1-Stores : Stores sha1 big_endian
unfolding sha1
sha1-Stores = big_endian_words

pub md5-Stores : Stores md5 little_endian
unfolding md5
md5-Stores = little_endian_words

-- For a message taken in by any calls of SHA256_Bytes after SHA256_Init, each of fewer than 2 ^
-- 31 - 64 bytes, SHA256_Final gives the SHA-256 block function folded over the 64-byte blocks of
-- the padded message, the length in bits modulo 2 ^ 64 included.
pub sha256-feed :
    (pieces : List (List ℕ))
    → All (λ p. length p < 2 ^ 31 - 64) pieces
    → IsDigest sha256 big_endian (joined pieces) (final sha256 (feed sha256 (init sha256) pieces))
unfolding sha256
sha256-feed pieces h =
    final-feed sha256 sha256-IsShortCut (λ hi lo. refl) big_endian sha256-Stores pieces h

-- For a message taken in by any calls of SHA_Bytes after SHA_Init, each of fewer than 2 ^ 31 - 64
-- bytes, SHA_Final gives the SHA-1 block function folded over the 64-byte blocks of the padded
-- message, with the length in bits stored high byte first.
pub sha1-feed :
    (pieces : List (List ℕ))
    → All (λ p. length p < 2 ^ 31 - 64) pieces
    → IsDigest sha1 big_endian (joined pieces) (final sha1 (feed sha1 (init sha1) pieces))
unfolding sha1
sha1-feed pieces h = final-feed sha1 sha1-IsShortCut (λ hi lo. refl) big_endian sha1-Stores pieces h

-- For a message taken in by any calls of MD5Update after MD5Init, each of fewer than 2 ^ 31 - 64
-- bytes, MD5Final gives the MD5 block function folded over the 64-byte blocks of the padded
-- message, with the length in bits stored low byte first.
pub md5-feed :
    (pieces : List (List ℕ))
    → All (λ p. length p < 2 ^ 31 - 64) pieces
    → IsDigest md5 little_endian (joined pieces) (final md5 (feed md5 (init md5) pieces))
unfolding md5
md5-feed pieces h = final-feed md5 md5-IsShortCut (λ hi lo. refl) little_endian md5-Stores pieces h
