-- ===== src/Agent/Keys.antt =====
-- ckey.cpp: keys, and their reading from a request. What an algorithm does with a key is an interface,
-- `struct ssh_signkey` of the source, that this code calls.
use pageant.Base.{
  ℕ, ◌+◌, ◌-◌, ◌^◌, Bool, true, false, ◌&&◌, ◌||◌, Option, none, some, List, [], ◌∷◌, ltb, leb,
  ◌==◌, if◌then◌else◌, length, take, drop,
}
use pageant.Word32.{get_32bit_msb_first}
use pageant.Agent.Action.{Result, ok, failed, fault, and_then}

pub data Alg : Type 0 where
  rsa dss nistp256 nistp384 nistp521 ed25519 : Alg

-- The comparison `alg != alg` of the source is one of pointers to the tables.
abbrev pub alg_code : Alg → ℕ
alg_code rsa = 0
alg_code dss = 1
alg_code nistp256 = 2
alg_code nistp384 = 3
alg_code nistp521 = 4
alg_code ed25519 = 5

-- The identifiers, as bytes.
abbrev pub alg_name : Alg → List ℕ
alg_name rsa = b's' ∷ b's' ∷ b'h' ∷ b'-' ∷ b'r' ∷ b's' ∷ b'a' ∷ []
alg_name dss = b's' ∷ b's' ∷ b'h' ∷ b'-' ∷ b'd' ∷ b's' ∷ b's' ∷ []
alg_name nistp256 =
    b'e' ∷ b'c' ∷ b'd' ∷ b's' ∷ b'a' ∷ b'-' ∷ b's' ∷ b'h' ∷ b'a' ∷ b'2' ∷ b'-' ∷ b'n' ∷ b'i' ∷ b's'
    ∷ b't' ∷ b'p' ∷ b'2' ∷ b'5' ∷ b'6' ∷ []
alg_name nistp384 =
    b'e' ∷ b'c' ∷ b'd' ∷ b's' ∷ b'a' ∷ b'-' ∷ b's' ∷ b'h' ∷ b'a' ∷ b'2' ∷ b'-' ∷ b'n' ∷ b'i' ∷ b's'
    ∷ b't' ∷ b'p' ∷ b'3' ∷ b'8' ∷ b'4' ∷ []
alg_name nistp521 =
    b'e' ∷ b'c' ∷ b'd' ∷ b's' ∷ b'a' ∷ b'-' ∷ b's' ∷ b'h' ∷ b'a' ∷ b'2' ∷ b'-' ∷ b'n' ∷ b'i' ∷ b's'
    ∷ b't' ∷ b'p' ∷ b'5' ∷ b'2' ∷ b'1' ∷ []
alg_name ed25519 = b's' ∷ b's' ∷ b'h' ∷ b'-' ∷ b'e' ∷ b'd' ∷ b'2' ∷ b'5' ∷ b'5' ∷ b'1' ∷ b'9' ∷ []

unfoldable pub same_list : List ℕ → List ℕ → Bool
same_list [] [] = true
same_list [] (y ∷ ys) = false
same_list (x ∷ xs) [] = false
same_list (x ∷ xs) (y ∷ ys) = (x == y) && same_list xs ys

-- match_ssh_id: the length, then the bytes. Only an identifier of the right length is compared, and
-- then the bytes are read: if the buffer ends before them that is a fault.
unfoldable pub find_among : List Alg → ℕ → List ℕ → Result Alg
unfolding same_list
find_among [] namelen name = failed
find_among (a ∷ algs) namelen name =
    let rest = find_among algs namelen name in
    if namelen == length (alg_name a)
    then if ltb (length name) namelen
      then fault
      else if same_list (take namelen name) (alg_name a)
      then ok a
      else rest
    else rest

unfoldable pub find_pubkey_alg_len : ℕ → List ℕ → Result Alg
unfolding find_among
find_pubkey_alg_len = find_among (rsa ∷ dss ∷ nistp256 ∷ nistp384 ∷ nistp521 ∷ ed25519 ∷ [])

-- `struct ssh_signkey`, for all algorithms at once, with the material of a key (`data` of
-- `struct ssh2_userkey`) abstract. `createkey` also gives the number of bytes that it consumed.
-- `has_private` is whether an elliptic curve key has its private number; `same_numbers` is the
-- comparison of exponent and modulus that ckey::compare makes for RSA.
pub record Algorithms : Type 1 where
  pub Material : Type 0
  pub newkey : Alg → List ℕ → Option Material
  pub openssh_createkey : Alg → List ℕ → Option (Material × ℕ)
  pub blob_of : Alg → Material → List ℕ
  pub has_private : Material → Bool
  pub same_numbers : Material → Material → Bool
  pub sign : Alg → Material → List ℕ → ℕ → List ℕ

-- ckey, with `struct ssh2_userkey` inlined; a null `key_` is `none` of an `Option`.
pub record Key (algs : Algorithms) : Type 0 where
  pub alg : Alg
  pub material : algs.Material
  pub comment : List ℕ
  pub expiration_date : ℕ
  pub confirmation_required : Bool

module _ {algs : Algorithms} where
  abbrev pub public_blob : Key algs → List ℕ
  public_blob key = algs.blob_of key.alg key.material

  -- ckey::compare.
  unfoldable pub same_key : Key algs → Key algs → Bool
  unfolding same_list
  same_key a b =
      if alg_code a.alg == alg_code b.alg
      then if alg_code a.alg == 0
        then algs.same_numbers a.material b.material
        else same_list (public_blob a) (public_blob b)
      else false

  -- Whether ckey::copy_ssh2_userkey can copy a key: it exits at an algorithm that is neither RSA nor
  -- ECDSA, and copybn reads through a null private number.
  unfoldable pub copyable : Key algs → Bool
  copyable key = elim key.alg [
    | rsa ↦ true
    | dss ↦ false
    | nistp256 ↦ algs.has_private key.material
    | nistp384 ↦ algs.has_private key.material
    | nistp521 ↦ algs.has_private key.material
    | ed25519 ↦ false
  ]

  unfoldable pub copy_key : Key algs → Result (Key algs)
  unfolding copyable
  copy_key key = if copyable key then ok key else fault

-- The comment is a C string: it is kept, copied and given out up to its first zero.
unfoldable pub c_string : List ℕ → List ℕ
c_string [] = []
c_string (b ∷ bs) = let rest = c_string bs in if b == 0 then [] else b ∷ rest

module _ (algs : Algorithms) where
  -- A fresh ckey around the material.
  abbrev pub fresh : Alg → algs.Material → List ℕ → Key algs
  fresh alg material comment = record {
    alg = alg;
    material = material;
    comment = comment;
    expiration_date = 0;
    confirmation_required = false;
  }

  -- parse_one_public_key. `p` is not advanced past the length, so the name may be claimed to run up to
  -- four bytes past the end.
  unfoldable pub parse_one_public_key : List ℕ → Result (Key algs)
  unfolding find_pubkey_alg_len
  parse_one_public_key msg =
      let alglen = get_32bit_msb_first msg in
      if ltb (length msg) 4
      then failed
      else if leb (2 ^ 31) alglen || ltb (length msg) alglen
      then failed
      else and_then (find_pubkey_alg_len alglen (drop 4 msg))
          λ alg. elim (algs.newkey alg msg) [ none ↦ failed | some m ↦ ok (fresh alg m []) ]

  -- The end of parse_one_private_key, behind what openssh_createkey has consumed: the comment and the
  -- length of the key.
  unfoldable pub parse_comment : Alg → algs.Material → ℕ → ℕ → List ℕ → Result (Key algs × ℕ)
  unfolding c_string
  parse_comment alg material alglen bloblen p =
      let commlen = get_32bit_msb_first p in
      if ltb (length p) 4
      then failed
      else if leb (2 ^ 31) commlen || ltb (length p - 4) commlen
      then failed
      else ok (
        fresh alg material (c_string (take commlen (drop 4 p))),
        4 + alglen + bloblen + 4 + commlen,
      )

  -- parse_one_private_key: the key and its length.
  unfoldable pub parse_one_private_key : List ℕ → Result (Key algs × ℕ)
  unfolding find_pubkey_alg_len parse_comment
  parse_one_private_key msg =
      let alglen = get_32bit_msb_first msg in
      if ltb (length msg) 4
      then failed
      else if leb (2 ^ 31) alglen || ltb (length msg - 4) alglen
      then failed
      else and_then (find_pubkey_alg_len alglen (drop 4 msg)) λ alg.
        let p = drop (4 + alglen) msg in
        elim (algs.openssh_createkey alg p) [
          | none ↦ failed
          | some (m, bloblen) ↦ parse_comment alg m alglen bloblen (drop bloblen p)
        ]

  -- ckey::parse_one_private_key: `debug_rsa_ = key_->data` reads through the null pointer that a
  -- failure leaves.
  unfoldable pub ckey_parse_private : List ℕ → Result (Key algs × ℕ)
  unfolding parse_one_private_key
  ckey_parse_private msg = elim (parse_one_private_key msg) [
    | ok r ↦ ok r
    | failed ↦ fault
    | fault ↦ fault
  ]
