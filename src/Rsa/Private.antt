-- ===== src/Rsa/Private.antt =====
-- sshrsa.c: the six numbers of a private key in the form of OpenSSH, written by rsa2_openssh_fmtkey and
-- read by rsa2_openssh_createkey, the latter up to its call of rsa_verify.
use pageant.Base.{
  ℕ, zero, suc, ◌+◌, Bool, Option, none, some, List, [], ◌∷◌, ◌++◌, ltb, if◌then◌else◌,
}
use pageant.Bignum.{Bignum}
use pageant.Bignum.Digits.{ssh2_bignum_length}
use pageant.Rsa.{RsaKey, getmp, rsa2_newkey, put_mp}
pub mod Format

-- The six numbers in the order of the format; `none` where one of the pointers is null.
unfoldable pub numbers_of :
    Bignum
    → Bignum
    → Option Bignum
    → Option Bignum
    → Option Bignum
    → Option Bignum
    → Option (List Bignum)
numbers_of modulus exponent (some d) (some iqmp) (some p) (some q) =
    some (modulus ∷ exponent ∷ d ∷ iqmp ∷ p ∷ q ∷ [])
numbers_of modulus exponent (some d) (some iqmp) (some p) none = none
numbers_of modulus exponent (some d) (some iqmp) none q = none
numbers_of modulus exponent (some d) none p q = none
numbers_of modulus exponent none iqmp p q = none

unfoldable pub total_length : List Bignum → ℕ
total_length [] = 0
total_length (bn ∷ numbers) = ssh2_bignum_length bn + total_length numbers

-- The macro ENC for each number.
unfoldable pub put_all : List Bignum → List ℕ
put_all [] = []
put_all (bn ∷ numbers) = put_mp bn ++ put_all numbers

-- The length that is returned and the bytes that are written; a null number is `none`, a null pointer
-- read by ssh2_bignum_length.
unfoldable pub rsa2_openssh_fmtkey : RsaKey → ℕ → Option (ℕ × List ℕ)
unfolding numbers_of total_length put_all
rsa2_openssh_fmtkey rsa len =
    elim (numbers_of rsa.modulus rsa.exponent rsa.private_exponent rsa.iqmp rsa.p rsa.q) [
      | none ↦ none
      | some numbers ↦
          let bloblen = total_length numbers in
          some (bloblen, if ltb len bloblen then [] else put_all numbers)
    ]

-- `n` calls of getmp in a row: each reads on where the one before has stopped, also after a failure.
unfoldable pub get_many : ℕ → List ℕ → List (Option Bignum) × List ℕ
unfolding getmp
get_many zero blob = ([], blob)
get_many (suc n) blob =
    let (bn, rest) = getmp blob in let (others, end) = get_many n rest in (bn ∷ others, end)

-- The check for null numbers.
unfoldable pub key_of : List (Option Bignum) → Option RsaKey
key_of (some modulus ∷ some exponent ∷ d ∷ iqmp ∷ p ∷ q ∷ []) =
    elim (numbers_of modulus exponent d iqmp p q) [
      | none ↦ none
      | some numbers ↦ some record {
        modulus = modulus;
        exponent = exponent;
        private_exponent = d;
        p = p;
        q = q;
        iqmp = iqmp;
      }
    ]
key_of numbers = none

-- The key and what is left of the blob.
unfoldable pub read_openssh_key : List ℕ → Option RsaKey × List ℕ
unfolding get_many key_of
read_openssh_key blob = let (numbers, rest) = get_many 6 blob in (key_of numbers, rest)

-- rsa2_private_blob; `none` is a null pointer that is read.
unfoldable pub rsa2_private_blob : RsaKey → Option (List ℕ)
unfolding put_all
rsa2_private_blob rsa =
    elim (numbers_of rsa.modulus rsa.exponent rsa.private_exponent rsa.iqmp rsa.p rsa.q) [
      | some (m ∷ e ∷ d ∷ iqmp ∷ p ∷ q ∷ []) ↦ some (put_all (d ∷ p ∷ q ∷ iqmp ∷ []))
      | _ ↦ none
    ]

unfoldable pub with_private : List (Option Bignum) → RsaKey → RsaKey
with_private (d ∷ p ∷ q ∷ iqmp ∷ []) rsa = record rsa {
  private_exponent = d;
  p = p;
  q = q;
  iqmp = iqmp;
}
with_private numbers rsa = rsa

unfoldable pub fill : Option RsaKey → List (Option Bignum) → Option RsaKey
unfolding with_private
fill none numbers = none
fill (some rsa) numbers = some (with_private numbers rsa)

-- rsa2_createkey up to its call of rsa_verify. The result of rsa2_newkey is not looked at: `none` is the
-- null pointer that is written through.
unfoldable pub read_created_key : List ℕ → List ℕ → Option RsaKey
unfolding rsa2_newkey get_many fill
read_created_key pub_blob priv_blob = fill (rsa2_newkey pub_blob) (get_many 4 priv_blob).0
