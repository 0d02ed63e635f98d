-- ===== src/Rsa/Blob.antt =====
-- A public key is read back from its blob.
use pageant.Base.{
  ℕ, ◌+◌, ◌-◌, ◌*◌, ◌/◌, ◌^◌, ◌<◌, false, ◌≡◌, refl, sym, ap, ◌∙◌, Option, none, some, List, [],
  ◌++◌, append_assoc, append-nil, arith, ltb, leb, length, length-append,
}
use pageant.Base.Powers.{pow_bytes, pow_mono}
use pageant.Word32.{put_32bit_msb_first}
use pageant.Word32.Bytes.{msb-IsOrder}
use pageant.Bignum.{Bignum}
use pageant.Bignum.Value.{value, Words}
use pageant.Bignum.Compare.{IsBignum}
use pageant.Bignum.Bytes.{from_bytes, from_bytes-value}
use pageant.Bignum.Digits.{bignum_bitcount, bignum_bitcount-IsBitLength}
use pageant.Bignum.Ssh1.{bytes_down, bytes_down-value, length-bytes_down, bytes_down-IsBytes}
use pageant.Agent.Wire.Strings.{drop-append, take-append}
use pageant.Rsa.{
  RsaKey, getstring, number_of, getmp, ssh_rsa, public_key, newkey_from, rsa2_newkey, put_mp,
  rsa2_public_blob,
}
use pageant.Agent.Keys.{same_list}
use native.Mathlib.Nat.{mod-eq_of_lt}
use mathlib.Core.Path.{subst}

getstring-put :
    (string rest : List ℕ)
    → length string < 2 ^ 31
    → getstring (put_32bit_msb_first (length string) ++ (string ++ rest)) ≡ (some string, rest)
unfolding getstring put_32bit_msb_first
getstring-put string rest h =
    let src = put_32bit_msb_first (length string) ++ (string ++ rest) in
    let n = length-append string rest in
    let g = msb-IsOrder.get-put (length string) (string ++ rest) (omega (arith, h)) in
    let l1 : ltb (length src) 4 ≡ false = ground arith in
    let l2 : leb (2 ^ 31) (length string) ≡ false = ground (arith, h) in
    let l3 : ltb (length src - 4) (length string) ≡ false = ground (arith, n) in
    rw (g, l1, l2, l3, take-append string rest, drop-append string rest) refl

-- The number that is read where one was written.
unfoldable pub reread : Bignum → Bignum
reread bn = from_bytes (bytes_down bn ((bignum_bitcount bn + 8) / 8))

pub getmp-put_mp :
    (bn : Bignum) (rest : List ℕ)
    → bignum_bitcount bn < 2 ^ 31
    → getmp (put_mp bn ++ rest) ≡ (some (reread bn), rest)
unfolding getmp put_mp reread
getmp-put_mp bn rest h =
    let n = (bignum_bitcount bn + 8) / 8 in
    let bytes = bytes_down bn n in
    let l = length-bytes_down bn n in
    let e : put_mp bn ++ rest ≡ put_32bit_msb_first (length bytes) ++ (bytes ++ rest) =
      append_assoc (put_32bit_msb_first n) bytes rest
      ∙ ap (λ (k : ℕ). put_32bit_msb_first k ++ (bytes ++ rest)) (sym l) in
    ap (λ (r : Option (List ℕ) × List ℕ). (number_of r.0, r.1))
      (ap getstring e ∙ getstring-put bytes rest (omega (arith, l, h)))

pub reread-value : (bn : Bignum) → Words bn → (value (reread bn) ≡ value bn) × IsBignum (reread bn)
unfolding reread
reread-value bn h =
    let bc = bignum_bitcount bn in
    let n = (bc + 8) / 8 in
    let (v, ok) = from_bytes-value (bytes_down bn n) (bytes_down-IsBytes bn n h) in
    let bound : value bn < 256 ^ n =
      subst (λ (t : ℕ). value bn < t) (pow_bytes n)
        (omega (arith, bignum_bitcount-IsBitLength bn h, pow_mono bc (8 * n) (omega arith))) in
    (v ∙ bytes_down-value bn n h ∙ mod-eq_of_lt bound, ok)

-- What rsa2_newkey makes of the blob of a key.
unfoldable pub reread_key : RsaKey → RsaKey
reread_key rsa = record {
  modulus = reread rsa.modulus;
  exponent = reread rsa.exponent;
  private_exponent = none;
  p = none;
  q = none;
  iqmp = none;
}

numbers :
    (rest rest1 : List ℕ) (exponent modulus : Bignum)
    → getmp rest ≡ (some exponent, rest1)
    → getmp rest1 ≡ (some modulus, [])
    → newkey_from (some ssh_rsa, rest)
      ≡ some record {
        modulus = modulus;
        exponent = exponent;
        private_exponent = none;
        p = none;
        q = none;
        iqmp = none;
      }
unfolding newkey_from public_key same_list
numbers rest rest1 exponent modulus e f =
    ap (λ (r : Option Bignum × List ℕ). public_key r.0 (getmp r.1).0) e
    ∙ ap (λ (r : Option Bignum × List ℕ). public_key (some exponent) r.0) f

pub newkey-blob :
    (rsa : RsaKey)
    → bignum_bitcount rsa.exponent < 2 ^ 31
    → bignum_bitcount rsa.modulus < 2 ^ 31
    → rsa2_newkey (rsa2_public_blob rsa) ≡ some (reread_key rsa)
unfolding rsa2_newkey rsa2_public_blob reread_key same_list
newkey-blob rsa h g =
    let rest = put_mp rsa.exponent ++ put_mp rsa.modulus in
    let r1 = getstring-put ssh_rsa rest (omega arith) in
    let r2 = getmp-put_mp rsa.exponent (put_mp rsa.modulus) h in
    let r3 : getmp (put_mp rsa.modulus) ≡ (some (reread rsa.modulus), []) =
      ap getmp (sym (append-nil (put_mp rsa.modulus))) ∙ getmp-put_mp rsa.modulus [] g in
    ap newkey_from r1 ∙ numbers rest _ (reread rsa.exponent) (reread rsa.modulus) r2 r3

-- For a key whose exponent and modulus have elements that fit their words and fewer than 2 ^ 31
-- bits, `rsa2_newkey` reads from what `rsa2_public_blob` wrote a key with well-formed numbers of
-- the same values.
pub rsa2_newkey-rsa2_public_blob :
    (rsa : RsaKey)
    → Words rsa.exponent
    → Words rsa.modulus
    → bignum_bitcount rsa.exponent < 2 ^ 31
    → bignum_bitcount rsa.modulus < 2 ^ 31
    → (r : RsaKey) × (rsa2_newkey (rsa2_public_blob rsa) ≡ some r)
      × (value r.exponent ≡ value rsa.exponent)
      × (value r.modulus ≡ value rsa.modulus)
      × IsBignum r.exponent
      × IsBignum r.modulus
unfolding reread_key
rsa2_newkey-rsa2_public_blob rsa he hm h g =
    let (ve, oe) = reread-value rsa.exponent he in
    let (vm, om) = reread-value rsa.modulus hm in
    (reread_key rsa, newkey-blob rsa h g, ve, vm, oe, om)
