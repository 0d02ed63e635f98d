-- ===== src/Hash/Hmac/Macs.antt =====
-- The MACs hmac-sha2-256, hmac-sha1 and hmac-md5, on a packet and its sequence number.
use pageant.Base.{ℕ, ◌-◌, ◌^◌, ◌≤◌, ◌<◌, ◌≡◌, refl, List, [], ◌∷◌, ◌++◌, append-nil, arith, length}
use mathlib.Core.Path.{subst}
use pageant.Word32.{put_32bit_msb_first}
use pageant.Word32.Bytes.{msb-IsOrder}
use pageant.Hash.Stream.{Core}
use pageant.Hash.Blocks.{IsShortCut}
use pageant.Hash.Sha256.{sha256}
use pageant.Hash.Sha1.{sha1}
use pageant.Hash.Md5.{md5}
use pageant.Hash.Padding.{Stores, big_endian, little_endian}
use pageant.Hash.Digests.{
  sha256-IsShortCut, sha1-IsShortCut, md5-IsShortCut, sha256-Stores, sha1-Stores, md5-Stores,
}
use pageant.Hash.Hmac.{Keys, key_internal, do_hmac}
use pageant.Hash.Hmac.Instances.{
  sha256_key_internal, sha256_do_hmac, sha1_key_internal, sha1_do_hmac, hmacmd5_key,
  hmacmd5_do_hmac_ssh,
}
use pageant.Hash.Hmac.Nested.{IsHmac, genresult-IsHmac}

module _ (core : Core) (cut : IsShortCut core)
    (eight : (hi lo : ℕ) → length (core.store_length hi lo) ≡ 8) (count : ℕ → ℕ → List ℕ)
    (stored : Stores core count) (short : (h : core.H) → length (core.digest h) < 2 ^ 31 - 64) where
  do_hmac-IsHmac :
      (keys : Keys core) (key blk : List ℕ) (seq : ℕ)
      → length key ≤ 64
      → length blk < 2 ^ 31 - 64
      → IsHmac core count key
          (put_32bit_msb_first seq ++ blk)
          (do_hmac core (key_internal core keys key (length key)) blk seq)
  unfolding do_hmac
  do_hmac-IsHmac keys key blk seq h k =
      let seqbuf = put_32bit_msb_first seq in
      let ready = key_internal core keys key (length key) in
      subst (λ (t : List ℕ). IsHmac core count key (seqbuf ++ t) (do_hmac core ready blk seq))
        (append-nil blk)
        (genresult-IsHmac core cut eight count stored short keys key (seqbuf ∷ blk ∷ []) h
          (omega (arith, msb-IsOrder.length-put seq), (k, tt)))

-- For a key of at most 64 bytes, set up by `sha256_key_internal`, and a packet of fewer than 2 ^
-- 31 - 64 bytes, `sha256_do_hmac` gives the HMAC of RFC 2104 over SHA-256 of the four bytes of the
-- sequence number and the packet: the digest of the outer key block followed by the digest of the
-- inner key block and that text.
pub sha256_do_hmac-IsHmac :
    (keys : Keys sha256) (key blk : List ℕ) (seq : ℕ)
    → length key ≤ 64
    → length blk < 2 ^ 31 - 64
    → IsHmac sha256 big_endian key
        (put_32bit_msb_first seq ++ blk)
        (sha256_do_hmac (sha256_key_internal keys key (length key)) blk seq)
unfolding sha256 sha256_key_internal sha256_do_hmac
sha256_do_hmac-IsHmac =
    do_hmac-IsHmac sha256 sha256-IsShortCut (λ hi lo. refl) big_endian sha256-Stores
      (λ h. omega arith)

-- For a key of at most 64 bytes, set up by `sha1_key_internal`, and a packet of fewer than 2 ^ 31 - 64
-- bytes, `sha1_do_hmac` gives the HMAC of RFC 2104 over SHA-1 of the four bytes of the sequence
-- number and the packet.
pub sha1_do_hmac-IsHmac :
    (keys : Keys sha1) (key blk : List ℕ) (seq : ℕ)
    → length key ≤ 64
    → length blk < 2 ^ 31 - 64
    → IsHmac sha1 big_endian key
        (put_32bit_msb_first seq ++ blk)
        (sha1_do_hmac (sha1_key_internal keys key (length key)) blk seq)
unfolding sha1 sha1_key_internal sha1_do_hmac
sha1_do_hmac-IsHmac =
    do_hmac-IsHmac sha1 sha1-IsShortCut (λ hi lo. refl) big_endian sha1-Stores (λ h. omega arith)

-- For a key of at most 64 bytes, set up by `hmacmd5_key`, and a packet of fewer than 2 ^ 31 - 64
-- bytes, `hmacmd5_do_hmac_ssh` gives the HMAC of RFC 2104 over MD5 of the four bytes of the
-- sequence number and the packet.
pub hmacmd5_do_hmac_ssh-IsHmac :
    (keys : Keys md5) (key blk : List ℕ) (seq : ℕ)
    → length key ≤ 64
    → length blk < 2 ^ 31 - 64
    → IsHmac md5 little_endian key
        (put_32bit_msb_first seq ++ blk)
        (hmacmd5_do_hmac_ssh (hmacmd5_key keys key (length key)) blk seq)
unfolding md5 hmacmd5_key hmacmd5_do_hmac_ssh
hmacmd5_do_hmac_ssh-IsHmac =
    do_hmac-IsHmac md5 md5-IsShortCut (λ hi lo. refl) little_endian md5-Stores (λ h. omega arith)

-- For a key of at most 64 bytes, set up by `sha256_key_internal`, `sha1_key_internal` or
-- `hmacmd5_key`, and a packet of fewer than 2 ^ 31 - 64 bytes, `sha256_do_hmac`, `sha1_do_hmac`
-- and `hmacmd5_do_hmac_ssh` give the HMAC of RFC 2104 over SHA-256, SHA-1 and MD5 of the four
-- bytes of the sequence number and the packet: the digest of the outer key block followed by the
-- digest of the inner key block and that text.
pub macs-IsHmac :
    (keys256 : Keys sha256) (keys1 : Keys sha1) (keys5 : Keys md5) (key blk : List ℕ) (seq : ℕ)
    → length key ≤ 64
    → length blk < 2 ^ 31 - 64
    → IsHmac sha256 big_endian key
        (put_32bit_msb_first seq ++ blk)
        (sha256_do_hmac (sha256_key_internal keys256 key (length key)) blk seq)
      × IsHmac sha1 big_endian key
          (put_32bit_msb_first seq ++ blk)
          (sha1_do_hmac (sha1_key_internal keys1 key (length key)) blk seq)
      × IsHmac md5 little_endian key
          (put_32bit_msb_first seq ++ blk)
          (hmacmd5_do_hmac_ssh (hmacmd5_key keys5 key (length key)) blk seq)
macs-IsHmac keys256 keys1 keys5 key blk seq h k = (
  sha256_do_hmac-IsHmac keys256 key blk seq h k,
  sha1_do_hmac-IsHmac keys1 key blk seq h k,
  hmacmd5_do_hmac_ssh-IsHmac keys5 key blk seq h k,
)
