-- ===== src/Rsa.antt =====
-- sshrsa.c: the blob of a public RSA key, written and read.
use pageant.Base.{
  ℕ, ◌+◌, ◌-◌, ◌/◌, ◌^◌, Bool, true, false, not, ◌||◌, Option, none, some, List, [], ◌∷◌, ◌++◌, ltb,
  leb, ◌==◌, if◌then◌else◌, length, take, drop,
}
use pageant.Word32.{get_32bit_msb_first, put_32bit_msb_first}
use pageant.Bignum.{Bignum}
use pageant.Bignum.Bytes.{from_bytes}
use pageant.Bignum.Digits.{bignum_bitcount}
use pageant.Bignum.Ssh1.{bytes_down}
use pageant.Agent.Keys.{same_list}
pub mod Blob
pub mod Listing
pub mod Private
mod Tests

-- `struct RSAKey`, less the fields that this code only sets to 0; a null number is `none`.
pub record RsaKey : Type 0 where
  pub modulus : Bignum
  pub exponent : Bignum
  pub private_exponent : Option Bignum
  pub p : Option Bignum
  pub q : Option Bignum
  pub iqmp : Option Bignum

-- getstring: `*p` and what `*data` is left at. A string that is too long leaves the data behind its
-- length word.
unfoldable pub getstring : List ℕ → Option (List ℕ) × List ℕ
getstring data' =
    let len = get_32bit_msb_first data' in
    let rest = drop 4 data' in
    if ltb (length data') 4
    then (none, data')
    else if leb (2 ^ 31) len
    then (none, data')
    else if ltb (length data' - 4) len
    then (none, rest)
    else (some (take len rest), drop len rest)

-- A null string makes a null number. The assertion of bignum_from_bytes, that there are fewer than
-- `INT_MAX / 8` bytes, is left out here: a longer string ends the program.
abbrev pub number_of : Option (List ℕ) → Option Bignum
number_of none = none
number_of (some bytes) = some (from_bytes bytes)

unfoldable pub getmp : List ℕ → Option Bignum × List ℕ
unfolding getstring
getmp data' = let (p, rest) = getstring data' in (number_of p, rest)

abbrev pub ssh_rsa : List ℕ
ssh_rsa = b's' ∷ b's' ∷ b'h' ∷ b'-' ∷ b'r' ∷ b's' ∷ b'a' ∷ []

-- The two numbers, when both are there.
unfoldable pub public_key : Option Bignum → Option Bignum → Option RsaKey
public_key none modulus = none
public_key (some exponent) none = none
public_key (some exponent) (some modulus) = some record {
  modulus = modulus;
  exponent = exponent;
  private_exponent = none;
  p = none;
  q = none;
  iqmp = none;
}

-- rsa2_newkey behind its first getstring.
unfoldable pub newkey_from : Option (List ℕ) × List ℕ → Option RsaKey
unfolding getmp public_key
newkey_from (none, rest) = none
newkey_from (some name, rest) =
    let (exponent, rest1) = getmp rest in
    let (modulus, rest2) = getmp rest1 in
    if same_list name ssh_rsa then public_key exponent modulus else none

unfoldable pub rsa2_newkey : List ℕ → Option RsaKey
unfolding getstring newkey_from
rsa2_newkey data' = newkey_from (getstring data')

-- A length word and then the bytes of a number, `PUT_32BIT` and the loop of rsa2_public_blob.
unfoldable pub put_mp : Bignum → List ℕ
put_mp bn = let len = (bignum_bitcount bn + 8) / 8 in put_32bit_msb_first len ++ bytes_down bn len

unfoldable pub rsa2_public_blob : RsaKey → List ℕ
unfolding put_mp
rsa2_public_blob rsa =
    put_32bit_msb_first 7 ++ (ssh_rsa ++ (put_mp rsa.exponent ++ put_mp rsa.modulus))
