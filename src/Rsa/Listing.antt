-- ===== src/Rsa/Listing.antt =====
-- RSA keys in the agent: the algorithm table that ckey.cpp calls for them, and the list that a client
-- gets of them.
use pageant.Base.{
  ℕ, ◌+◌, ◌/◌, ◌^◌, ◌<◌, ◌≤◌, Bool, true, false, ◌&&◌, ◌≡◌, refl, ap, ◌∙◌, Option, none, some, List,
  [], ◌∷◌, ◌++◌, map, arith, ltb, length, length-append, drop, All,
}
use pageant.Word32.{get_32bit_msb_first, put_32bit_msb_first}
use pageant.Word32.Bytes.{msb-IsOrder}
use pageant.Bignum.{Bignum}
use pageant.Bignum.Value.{value}
use pageant.Bignum.Compare.{
  Sign, negative, equal, positive, bignum_cmp, IsBignum, Compares, bignum_cmp-Compares,
}
use pageant.Bignum.Digits.{bignum_bitcount}
use pageant.Bignum.Ssh1.{bytes_down, length-bytes_down}
use pageant.Rsa.{RsaKey, ssh_rsa, rsa2_newkey, put_mp, rsa2_public_blob}
use pageant.Rsa.Blob.{reread, reread_key, reread-value, newkey-blob}
use pageant.Agent.Action.{Result, ok, failed}
use pageant.Agent.Keys.{
  Alg, rsa, dss, nistp256, nistp384, nistp521, ed25519, same_list, find_among, find_pubkey_alg_len,
  Algorithms, Key, same_key, copyable, fresh, parse_one_public_key,
}
use pageant.Agent.Store.{expire}
use pageant.Agent.Store.Distinct.{Copyable}
use pageant.Agent.Handler.{agent_max_msglen, Server, Surroundings, make_pubkey_blob}
use pageant.Agent.Client.{pageant_get_keylist}
use pageant.Agent.Client.Keylist.{IsListable}
use pageant.Agent.Client.Listing.{query_agent, pageant_get_keylist-agent}

-- `bignum_cmp(...) == 0`. Where the comparison fails an assertion this is false.
abbrev pub is_equal : Option Sign → Bool
is_equal none = false
is_equal (some negative) = false
is_equal (some equal) = true
is_equal (some positive) = false

unfoldable pub same_numbers_rsa : RsaKey → RsaKey → Bool
same_numbers_rsa a b =
    is_equal (bignum_cmp a.exponent b.exponent) && is_equal (bignum_cmp a.modulus b.modulus)

abbrev pub newkey_of : Alg → List ℕ → Option RsaKey
newkey_of rsa blob = rsa2_newkey blob
newkey_of dss blob = none
newkey_of nistp256 blob = none
newkey_of nistp384 blob = none
newkey_of nistp521 blob = none
newkey_of ed25519 blob = none

-- The table `ssh_rsa`, alone; the reading of private keys and the signing are any functions.
abbrev pub rsa_algorithms :
    (Alg → List ℕ → Option (RsaKey × ℕ)) → (RsaKey → List ℕ → ℕ → List ℕ) → Algorithms
rsa_algorithms createkey sign = record {
  Material = RsaKey;
  newkey = newkey_of;
  openssh_createkey = createkey;
  blob_of = λ alg m. rsa2_public_blob m;
  has_private = λ m. true;
  same_numbers = same_numbers_rsa;
  sign = λ alg m text flags. sign m text flags;
}

find-ssh_rsa : (rest : List ℕ) → find_pubkey_alg_len 7 (ssh_rsa ++ rest) ≡ ok rsa
unfolding find_pubkey_alg_len find_among same_list
find-ssh_rsa rest = let l : ltb (length (ssh_rsa ++ rest)) 7 ≡ false = ground arith in rw l refl

length-put_mp : (bn : Bignum) → length (put_mp bn) ≡ 4 + (bignum_bitcount bn + 8) / 8
unfolding put_mp
length-put_mp bn =
    let n = (bignum_bitcount bn + 8) / 8 in
    omega (
      arith,
      length-append (put_32bit_msb_first n) (bytes_down bn n),
      msb-IsOrder.length-put n,
      length-bytes_down bn n,
    )

equal_values :
    (a b : Bignum) → IsBignum a → IsBignum b → value a ≡ value b → is_equal (bignum_cmp a b) ≡ true
equal_values a b ha hb e = let (s, c, h) = bignum_cmp-Compares a b ha hb in ap is_equal c ∙ sign s h
  where
    sign : (s : Sign) → Compares s (value a) (value b) → is_equal (some s) ≡ true
    sign negative h = absurd (omega (arith, h, e))
    sign equal h = refl
    sign positive h = absurd (omega (arith, h, e))

pub length-public_blob :
    (m : RsaKey)
    → length (rsa2_public_blob m)
      ≡ 19 + (bignum_bitcount m.exponent + 8) / 8 + (bignum_bitcount m.modulus + 8) / 8
unfolding rsa2_public_blob put_32bit_msb_first
length-public_blob m = omega (
  arith,
  length-append (put_mp m.exponent) (put_mp m.modulus),
  length-put_mp m.exponent,
  length-put_mp m.modulus,
)

abbrev created :
    (createkey : Alg → List ℕ → Option (RsaKey × ℕ)) (sign : RsaKey → List ℕ → ℕ → List ℕ)
    → Option RsaKey
    → Result (Key (rsa_algorithms createkey sign))
created createkey sign none = failed
created createkey sign (some m) = ok (fresh (rsa_algorithms createkey sign) rsa m [])

parse-public_blob :
    (createkey : Alg → List ℕ → Option (RsaKey × ℕ)) (sign : RsaKey → List ℕ → ℕ → List ℕ)
    (m : RsaKey)
    → bignum_bitcount m.exponent < 2 ^ 31
    → bignum_bitcount m.modulus < 2 ^ 31
    → parse_one_public_key (rsa_algorithms createkey sign) (rsa2_public_blob m)
      ≡ ok (fresh (rsa_algorithms createkey sign) rsa (reread_key m) [])
unfolding parse_one_public_key
parse-public_blob createkey sign m h g =
    let blob = rsa2_public_blob m in
    let n = length-public_blob m in
    let l1 : ltb (length blob) 4 ≡ false = ground (arith, n) in
    let l2 : ltb (length blob) 7 ≡ false = ground (arith, n) in
    rw
      (
        parse_one_public_key,
        announced m,
        l1,
        l2,
        behind m,
        find-ssh_rsa (put_mp m.exponent ++ put_mp m.modulus),
      )
      (ap (created createkey sign) (newkey-blob m h g))
  where
    announced : (m : RsaKey) → get_32bit_msb_first (rsa2_public_blob m) ≡ 7
    announced m = unfold rsa2_public_blob in msb-IsOrder.get-put 7 _ (omega arith)

    behind :
        (m : RsaKey)
        → drop 4 (rsa2_public_blob m) ≡ ssh_rsa ++ (put_mp m.exponent ++ put_mp m.modulus)
    behind m = unfold rsa2_public_blob in unfold put_32bit_msb_first in refl

module _ (createkey : Alg → List ℕ → Option (RsaKey × ℕ))
    (sign : RsaKey → List ℕ → ℕ → List ℕ) where
  abbrev pub as_read_rsa : Key (rsa_algorithms createkey sign) → Key (rsa_algorithms createkey sign)
  as_read_rsa key = fresh (rsa_algorithms createkey sign) rsa (reread_key key.material) []

  -- An RSA key with numbers in order and of fewer than 2 ^ 30 bits.
  pub record IsRsa (key : Key (rsa_algorithms createkey sign)) : Type 0 where
    pub is_rsa : key.alg ≡ rsa
    pub exponent-IsBignum : IsBignum key.material.exponent
    pub modulus-IsBignum : IsBignum key.material.modulus
    pub exponent_bits : bignum_bitcount key.material.exponent < 2 ^ 30
    pub modulus_bits : bignum_bitcount key.material.modulus < 2 ^ 30
    pub comment_length : length key.comment < 2 ^ 31

  rsa-IsListable :
      (key : Key (rsa_algorithms createkey sign)) → IsRsa key → IsListable as_read_rsa key
  rsa-IsListable key h =
      let m = key.material in
      (
        parse-public_blob createkey sign m (omega (arith, h.exponent_bits))
            (omega (arith, h.modulus_bits)),
        (unfold copyable in refl),
        omega (arith, length-public_blob m, h.exponent_bits, h.modulus_bits),
        h.comment_length,
      )

  rsa-copyable : (key : Key (rsa_algorithms createkey sign)) → IsRsa key → copyable key ≡ true
  unfolding copyable
  rsa-copyable key h = rw h.is_rsa refl

  -- The key that is read compares equal to the one that was listed.
  rsa-same_key :
      (key : Key (rsa_algorithms createkey sign))
      → IsRsa key
      → same_key (as_read_rsa key) key ≡ true
  unfolding same_key same_numbers_rsa reread_key
  rsa-same_key key h =
      let m = key.material in
      let (ve, oe) = reread-value m.exponent h.exponent-IsBignum.0 in
      let (vm, om) = reread-value m.modulus h.modulus-IsBignum.0 in
      let e = equal_values (reread m.exponent) m.exponent oe h.exponent-IsBignum ve in
      let f = equal_values (reread m.modulus) m.modulus om h.modulus-IsBignum vm in
      rw (h.is_rsa, e, f) refl

  all-IsListable :
      (keys : List (Key (rsa_algorithms createkey sign)))
      → All IsRsa keys
      → All (IsListable as_read_rsa) keys
        × Copyable keys
        × All (λ key. same_key (as_read_rsa key) key ≡ true) keys
  all-IsListable [] h = (tt, tt, tt)
  all-IsListable (key ∷ keys) (g, h) =
      let (a, b, c) = all-IsListable keys h in
      ((rsa-IsListable key g, a), (rsa-copyable key g, b), (rsa-same_key key g, c))

  -- If the agent's keys that have not expired are RSA keys whose exponent and modulus are well
  -- formed and have fewer than 2 ^ 30 bits, with comments shorter than 2 ^ 31 bytes, and the
  -- answer fits the largest message, then `pageant_get_keylist` against the agent's handler gives
  -- what `rsa2_newkey` reads of these keys' blobs, in their order, and each key so read compares
  -- equal to the agent's own. The reading of private keys and the signing may be any functions.
  pub rsa_keylist :
      (env : Surroundings (rsa_algorithms createkey sign))
      (s : Server (rsa_algorithms createkey sign))
      (keys : List (Key (rsa_algorithms createkey sign)))
      → expire env.now s.keys ≡ keys
      → All IsRsa keys
      → 5 + length (make_pubkey_blob keys) ≤ agent_max_msglen
      → (pageant_get_keylist (rsa_algorithms createkey sign) (query_agent env s)
          ≡ (ok tt, map as_read_rsa keys))
        × All (λ key. same_key (as_read_rsa key) key ≡ true) keys
  rsa_keylist env s keys e h fits =
      let (listable, copies, same) = all-IsListable keys h in
      (pageant_get_keylist-agent env s as_read_rsa keys e copies listable fits, same)
