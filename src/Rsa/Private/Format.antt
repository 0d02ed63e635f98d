-- ===== src/Rsa/Private/Format.antt =====
-- Private keys are read back from both of their forms.
use pageant.Base.{
  ℕ, suc, ◌+◌, ◌/◌, ◌^◌, ◌<◌, ◌≤◌, false, ◌≡◌, refl, sym, ap, ap₂, ◌∙◌, Option, some, List, [], ◌∷◌,
  ◌++◌, map, append_assoc, append-nil, arith, ltb, length, length-append, All,
}
use pageant.Word32.{put_32bit_msb_first}
use pageant.Word32.Bytes.{msb-IsOrder}
use pageant.Bignum.{Bignum}
use pageant.Bignum.Value.{value, Words}
use pageant.Bignum.Compare.{IsBignum}
use pageant.Bignum.Digits.{bignum_bitcount, ssh2_bignum_length}
use pageant.Bignum.Ssh1.{bytes_down, length-bytes_down}
use pageant.Rsa.{RsaKey, getmp, put_mp, rsa2_public_blob}
use pageant.Rsa.Blob.{reread, reread_key, reread-value, getmp-put_mp, newkey-blob}
use pageant.Rsa.Private.{
  numbers_of, total_length, put_all, rsa2_openssh_fmtkey, get_many, key_of, read_openssh_key,
  rsa2_private_blob, with_private, fill, read_created_key,
}

-- A number that can be sent: its elements fit their words, and its length an `int`.
abbrev pub IsSent : Bignum → Type 0
IsSent bn = Words bn × (bignum_bitcount bn < 2 ^ 31)

abbrev pub complete : Bignum → Bignum → Bignum → Bignum → Bignum → Bignum → RsaKey
complete modulus exponent d iqmp p q = record {
  modulus = modulus;
  exponent = exponent;
  private_exponent = some d;
  p = some p;
  q = some q;
  iqmp = some iqmp;
}

get_many-step :
    (n : ℕ) (blob rest end : List ℕ) (bn : Option Bignum) (others : List (Option Bignum))
    → getmp blob ≡ (bn, rest)
    → get_many n rest ≡ (others, end)
    → get_many (suc n) blob ≡ (bn ∷ others, end)
unfolding get_many
get_many-step n blob rest end bn others e f =
    ap (λ (r : Option Bignum × List ℕ). (r.0 ∷ (get_many n r.1).0, (get_many n r.1).1)) e
    ∙ ap (λ (r : List (Option Bignum) × List ℕ). (bn ∷ r.0, r.1)) f

get_many-put_all :
    (numbers : List Bignum) (rest : List ℕ)
    → All IsSent numbers
    → get_many (length numbers) (put_all numbers ++ rest)
      ≡ (map (λ bn. some (reread bn)) numbers, rest)
unfolding put_all
get_many-put_all [] rest h = unfold get_many in refl
get_many-put_all (bn ∷ numbers) rest ((w, b), h) =
    get_many-step (length numbers) _ (put_all numbers ++ rest) rest (some (reread bn)) _
      (ap getmp (append_assoc (put_mp bn) (put_all numbers) rest)
        ∙ getmp-put_mp bn (put_all numbers ++ rest) b)
      (get_many-put_all numbers rest h)

length-put_all : (numbers : List Bignum) → total_length numbers ≡ length (put_all numbers)
unfolding total_length put_all put_mp ssh2_bignum_length
length-put_all [] = refl
length-put_all (bn ∷ numbers) =
    let n = (bignum_bitcount bn + 8) / 8 in
    omega (
      arith,
      length-append (put_mp bn) (put_all numbers),
      length-append (put_32bit_msb_first n) (bytes_down bn n),
      msb-IsOrder.length-put n,
      length-bytes_down bn n,
      length-put_all numbers,
    )

reread_all :
    (numbers : List Bignum)
    → All IsSent numbers
    → All (λ bn. (value (reread bn) ≡ value bn) × IsBignum (reread bn)) numbers
reread_all [] h = tt
reread_all (bn ∷ numbers) ((w, b), h) = (reread-value bn w, reread_all numbers h)

-- The key read from the OpenSSH form.
openssh-format :
    (modulus exponent d iqmp p q : Bignum) (len : ℕ) (rest : List ℕ)
    → All IsSent (modulus ∷ exponent ∷ d ∷ iqmp ∷ p ∷ q ∷ [])
    → total_length (modulus ∷ exponent ∷ d ∷ iqmp ∷ p ∷ q ∷ []) ≤ len
    → (bytes : List ℕ) × (rsa2_openssh_fmtkey (complete modulus exponent d iqmp p q) len
        ≡ some (length bytes, bytes))
      × (read_openssh_key (bytes ++ rest) ≡ (
        some (
            complete
              (reread modulus)
              (reread exponent)
              (reread d)
              (reread iqmp)
              (reread p)
              (reread q)),
        rest,
      ))
unfolding rsa2_openssh_fmtkey numbers_of read_openssh_key key_of
openssh-format modulus exponent d iqmp p q len rest h fits =
    let numbers = modulus ∷ exponent ∷ d ∷ iqmp ∷ p ∷ q ∷ [] in
    let l : ltb len (total_length numbers) ≡ false = ground (arith, fits) in
    (
      put_all numbers,
      rw (l, length-put_all numbers) refl,
      ap (λ (r : List (Option Bignum) × List ℕ). (key_of r.0, r.1))
          (get_many-put_all numbers rest h),
    )

-- The key read from the two blobs of a key file.
blobs-format :
    (modulus exponent d iqmp p q : Bignum)
    → All IsSent (modulus ∷ exponent ∷ d ∷ iqmp ∷ p ∷ q ∷ [])
    → (bytes : List ℕ) × (rsa2_private_blob (complete modulus exponent d iqmp p q) ≡ some bytes)
      × (read_created_key (rsa2_public_blob (complete modulus exponent d iqmp p q)) bytes
          ≡ some (
              complete
                (reread modulus)
                (reread exponent)
                (reread d)
                (reread iqmp)
                (reread p)
                (reread q)))
unfolding rsa2_private_blob numbers_of read_created_key with_private reread_key
blobs-format modulus exponent d iqmp p q h =
    let (hm, (he, (hd, (hi, (hp, (hq, u)))))) = h in
    let rsa = complete modulus exponent d iqmp p q in
    let four = d ∷ p ∷ q ∷ iqmp ∷ [] in
    let r = get_many-put_all four [] (hd, (hp, (hq, (hi, tt)))) in
    (
      put_all four,
      refl,
      ap₂ fill (newkey-blob rsa he.1 hm.1) (
          ap (λ (blob : List ℕ). (get_many 4 blob).0) (sym (append-nil (put_all four)))
          ∙ ap (λ (r : List (Option Bignum) × List ℕ). r.0) r),
    )

-- For a private key whose six numbers have elements that fit their words and fewer than 2 ^ 31
-- bits: `rsa2_openssh_fmtkey` with a buffer that is long enough returns the number of bytes that
-- it writes, and the numbers that `rsa2_openssh_createkey` reads from them, whatever bytes
-- follow, are the ones written, with exactly those bytes consumed; the same numbers come out of
-- `rsa2_createkey` from what `rsa2_public_blob` and `rsa2_private_blob` write. Each number read
-- has the value of the one written and is well formed.
pub private_formats :
    (modulus exponent d iqmp p q : Bignum) (len : ℕ) (rest : List ℕ)
    → All IsSent (modulus ∷ exponent ∷ d ∷ iqmp ∷ p ∷ q ∷ [])
    → total_length (modulus ∷ exponent ∷ d ∷ iqmp ∷ p ∷ q ∷ []) ≤ len
    → ((bytes : List ℕ) × (rsa2_openssh_fmtkey (complete modulus exponent d iqmp p q) len
          ≡ some (length bytes, bytes))
        × (read_openssh_key (bytes ++ rest) ≡ (
          some (
              complete
                (reread modulus)
                (reread exponent)
                (reread d)
                (reread iqmp)
                (reread p)
                (reread q)),
          rest,
        )))
      × ((bytes : List ℕ) × (rsa2_private_blob (complete modulus exponent d iqmp p q) ≡ some bytes)
          × (read_created_key (rsa2_public_blob (complete modulus exponent d iqmp p q)) bytes
              ≡ some (
                  complete
                    (reread modulus)
                    (reread exponent)
                    (reread d)
                    (reread iqmp)
                    (reread p)
                    (reread q))))
      × All
          (λ bn. (value (reread bn) ≡ value bn) × IsBignum (reread bn))
          (modulus ∷ exponent ∷ d ∷ iqmp ∷ p ∷ q ∷ [])
private_formats modulus exponent d iqmp p q len rest h fits = (
  openssh-format modulus exponent d iqmp p q len rest h fits,
  blobs-format modulus exponent d iqmp p q h,
  reread_all (modulus ∷ exponent ∷ d ∷ iqmp ∷ p ∷ q ∷ []) h,
)
