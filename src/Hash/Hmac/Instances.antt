-- ===== src/Hash/Hmac/Instances.antt =====
-- The HMAC functions of the three files, by the names that they have there: the key functions, the MAC
-- of a packet, and the generate and verify functions with the length that each MAC is cut to.
use pageant.Base.{ℕ, Bool, List}
use pageant.Hash.Sha1.{sha1}
use pageant.Hash.Sha256.{sha256}
use pageant.Hash.Md5.{md5}
use pageant.Hash.Hmac.{Keys, key_internal, do_hmac, hmac_generate, hmac_verify}

unfoldable pub sha256_key_internal : Keys sha256 → List ℕ → ℕ → Keys sha256
unfolding key_internal
sha256_key_internal = key_internal sha256

unfoldable pub sha256_key : Keys sha256 → List ℕ → Keys sha256
unfolding sha256_key_internal
sha256_key keys key = sha256_key_internal keys key 32

unfoldable pub sha256_do_hmac : Keys sha256 → List ℕ → ℕ → List ℕ
unfolding do_hmac
sha256_do_hmac = do_hmac sha256

unfoldable pub sha256_generate : Keys sha256 → List ℕ → ℕ → ℕ → List ℕ
unfolding hmac_generate
sha256_generate = hmac_generate sha256 32

unfoldable pub sha256_verify : Keys sha256 → List ℕ → ℕ → ℕ → Bool
unfolding hmac_verify
sha256_verify = hmac_verify sha256 32

unfoldable pub sha1_key_internal : Keys sha1 → List ℕ → ℕ → Keys sha1
unfolding key_internal
sha1_key_internal = key_internal sha1

unfoldable pub sha1_key : Keys sha1 → List ℕ → Keys sha1
unfolding sha1_key_internal
sha1_key keys key = sha1_key_internal keys key 20

unfoldable pub sha1_key_buggy : Keys sha1 → List ℕ → Keys sha1
unfolding sha1_key_internal
sha1_key_buggy keys key = sha1_key_internal keys key 16

unfoldable pub sha1_do_hmac : Keys sha1 → List ℕ → ℕ → List ℕ
unfolding do_hmac
sha1_do_hmac = do_hmac sha1

unfoldable pub sha1_generate : Keys sha1 → List ℕ → ℕ → ℕ → List ℕ
unfolding hmac_generate
sha1_generate = hmac_generate sha1 20

unfoldable pub sha1_verify : Keys sha1 → List ℕ → ℕ → ℕ → Bool
unfolding hmac_verify
sha1_verify = hmac_verify sha1 20

unfoldable pub sha1_96_generate : Keys sha1 → List ℕ → ℕ → ℕ → List ℕ
unfolding hmac_generate
sha1_96_generate = hmac_generate sha1 12

unfoldable pub sha1_96_verify : Keys sha1 → List ℕ → ℕ → ℕ → Bool
unfolding hmac_verify
sha1_96_verify = hmac_verify sha1 12

unfoldable pub hmacmd5_key : Keys md5 → List ℕ → ℕ → Keys md5
unfolding key_internal
hmacmd5_key = key_internal md5

unfoldable pub hmacmd5_key_16 : Keys md5 → List ℕ → Keys md5
unfolding hmacmd5_key
hmacmd5_key_16 keys key = hmacmd5_key keys key 16

unfoldable pub hmacmd5_do_hmac_ssh : Keys md5 → List ℕ → ℕ → List ℕ
unfolding do_hmac
hmacmd5_do_hmac_ssh = do_hmac md5

unfoldable pub hmacmd5_generate : Keys md5 → List ℕ → ℕ → ℕ → List ℕ
unfolding hmac_generate
hmacmd5_generate = hmac_generate md5 16

unfoldable pub hmacmd5_verify : Keys md5 → List ℕ → ℕ → ℕ → Bool
unfolding hmac_verify
hmacmd5_verify = hmac_verify md5 16
