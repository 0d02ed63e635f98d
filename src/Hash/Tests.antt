-- ===== src/Hash/Tests.antt =====
-- Runs of the hashes on "abc", and the theorems at concrete messages.
use pageant.Base.{ℕ, ◌≡◌, refl, List, [], ◌∷◌, ◌++◌, arith, replicate}
use pageant.Hash.Stream.{init, final}
use pageant.Hash.Padding.{big_endian, little_endian, IsDigest, feed}
use pageant.Hash.Sha256.{sha256, sha256_simple}
use pageant.Hash.Sha1.{sha1, sha_simple}
use pageant.Hash.Md5.{md5, md5_simple}
use pageant.Word32.{put_32bit_msb_first}
use pageant.Hash.Hmac.{Keys, hmac_sha1_simple}
use pageant.Hash.Hmac.Instances.{
  sha256_key_internal, sha256_do_hmac, sha1_key_internal, sha1_do_hmac, hmacmd5_key,
  hmacmd5_do_hmac_ssh,
}
use pageant.Hash.Hmac.Nested.{IsHmac}
use pageant.Hash.Hmac.Macs.{macs-IsHmac}
use pageant.Hash.Digests.{sha256-feed, sha1-feed, md5-feed}

abbrev abc : List ℕ
abc = 0x61 ∷ 0x62 ∷ 0x63 ∷ []

sha256_abc :
    sha256_simple abc
    ≡ 186 ∷ 120 ∷ 22 ∷ 191 ∷ 143 ∷ 1 ∷ 207 ∷ 234 ∷ 65 ∷ 65 ∷ 64 ∷ 222 ∷ 93 ∷ 174 ∷ 34 ∷ 35 ∷ 176 ∷ 3
      ∷ 97 ∷ 163 ∷ 150 ∷ 23 ∷ 122 ∷ 156 ∷ 180 ∷ 16 ∷ 255 ∷ 97 ∷ 242 ∷ 0 ∷ 21 ∷ 173 ∷ []
unfolding sha256_simple
sha256_abc = refl

sha1_abc :
    sha_simple abc
    ≡ 169 ∷ 153 ∷ 62 ∷ 54 ∷ 71 ∷ 6 ∷ 129 ∷ 106 ∷ 186 ∷ 62 ∷ 37 ∷ 113 ∷ 120 ∷ 80 ∷ 194 ∷ 108 ∷ 156
      ∷ 208 ∷ 216 ∷ 157 ∷ []
unfolding sha_simple
sha1_abc = refl

md5_abc :
    md5_simple abc
    ≡ 144 ∷ 1 ∷ 80 ∷ 152 ∷ 60 ∷ 210 ∷ 79 ∷ 176 ∷ 214 ∷ 150 ∷ 63 ∷ 125 ∷ 40 ∷ 225 ∷ 127 ∷ 114 ∷ []
unfolding md5_simple
md5_abc = refl

sha256-feed_example :
    IsDigest sha256 big_endian
      (abc ++ abc ++ [])
      (final sha256 (feed sha256 (init sha256) (abc ∷ abc ∷ [])))
sha256-feed_example = sha256-feed (abc ∷ abc ∷ []) (omega arith)

sha1-feed_example :
    IsDigest sha1 big_endian
      (abc ++ abc ++ [])
      (final sha1 (feed sha1 (init sha1) (abc ∷ abc ∷ [])))
sha1-feed_example = sha1-feed (abc ∷ abc ∷ []) (omega arith)

md5-feed_example :
    IsDigest md5 little_endian (abc ++ abc ++ []) (final md5 (feed md5 (init md5) (abc ∷ abc ∷ [])))
md5-feed_example = md5-feed (abc ∷ abc ∷ []) (omega arith)

-- The first test of RFC 2202: twenty bytes 0x0b and "Hi There".
hmac_sha1_hi_there :
    hmac_sha1_simple
      (replicate 20 0x0b)
      20
      (0x48 ∷ 0x69 ∷ 0x20 ∷ 0x54 ∷ 0x68 ∷ 0x65 ∷ 0x72 ∷ 0x65 ∷ [])
    ≡ 0xb6 ∷ 0x17 ∷ 0x31 ∷ 0x86 ∷ 0x55 ∷ 0x05 ∷ 0x72 ∷ 0x64 ∷ 0xe2 ∷ 0x8b ∷ 0xc0 ∷ 0xb6 ∷ 0xfb
      ∷ 0x37 ∷ 0x8c ∷ 0x8e ∷ 0xf1 ∷ 0x46 ∷ 0xbe ∷ 0x00 ∷ []
unfolding hmac_sha1_simple sha1 final init
hmac_sha1_hi_there = refl

abbrev blank_sha256 : Keys sha256
blank_sha256 = record { inner = init sha256; outer = init sha256; running = init sha256 }

abbrev blank_sha1 : Keys sha1
blank_sha1 = record { inner = init sha1; outer = init sha1; running = init sha1 }

abbrev blank_md5 : Keys md5
blank_md5 = record { inner = init md5; outer = init md5; running = init md5 }

macs-IsHmac_example :
    IsHmac sha256 big_endian abc
      (put_32bit_msb_first 7 ++ abc)
      (sha256_do_hmac (sha256_key_internal blank_sha256 abc 3) abc 7)
    × IsHmac sha1 big_endian abc
        (put_32bit_msb_first 7 ++ abc)
        (sha1_do_hmac (sha1_key_internal blank_sha1 abc 3) abc 7)
    × IsHmac md5 little_endian abc
        (put_32bit_msb_first 7 ++ abc)
        (hmacmd5_do_hmac_ssh (hmacmd5_key blank_md5 abc 3) abc 7)
macs-IsHmac_example =
    macs-IsHmac blank_sha256 blank_sha1 blank_md5 abc abc 7 (omega arith) (omega arith)
