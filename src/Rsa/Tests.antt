-- ===== src/Rsa/Tests.antt =====
-- A small key, written and read.
use pageant.Base.{
  ℕ, ◌+◌, ◌≤◌, ◌≡◌, inl, refl, true, false, List, [], ◌∷◌, ◌++◌, Option, none, some, arith, length,
  length-append, All,
}
use pageant.Word32.{put_32bit_msb_first}
use pageant.Bignum.Value.{value}
use pageant.Bignum.Compare.{IsBignum}
use pageant.Bignum.Digits.{bignum_bitcount, ssh2_bignum_length}
use pageant.Rsa.{RsaKey, rsa2_newkey, rsa2_public_blob}
use pageant.Rsa.Blob.{rsa2_newkey-rsa2_public_blob}
use pageant.Rsa.Blob.{reread}
use pageant.Rsa.Private.{
  total_length, rsa2_openssh_fmtkey, read_openssh_key, rsa2_private_blob, read_created_key,
}
use pageant.Rsa.Private.Format.{IsSent, complete, private_formats}
use pageant.Rsa.Listing.{rsa_algorithms, length-public_blob, as_read_rsa, IsRsa, rsa_keylist}
use pageant.Agent.Action.{ok}
use pageant.Agent.Keys.{Alg, rsa, Key, same_key}
use pageant.Agent.Store.{expire}
use pageant.Agent.Handler.{agent_max_msglen, Server, Surroundings, make_pubkey_blob}
use pageant.Agent.Client.{pageant_get_keylist}
use pageant.Agent.Client.Listing.{query_agent}

abbrev small_key : RsaKey
small_key = record {
  modulus = 3233 ∷ [];
  exponent = 17 ∷ [];
  private_exponent = none;
  p = none;
  q = none;
  iqmp = none;
}

small_key_read :
    (r : RsaKey) × (rsa2_newkey (rsa2_public_blob small_key) ≡ some r)
    × (value r.exponent ≡ value small_key.exponent)
    × (value r.modulus ≡ value small_key.modulus)
    × IsBignum r.exponent
    × IsBignum r.modulus
small_key_read =
    rsa2_newkey-rsa2_public_blob small_key (omega arith) (omega arith)
      (unfold bignum_bitcount in omega arith) (unfold bignum_bitcount in omega arith)

-- An agent with this key: no private keys are read, and a signature is the data.
abbrev createkey : Alg → List ℕ → Option (RsaKey × ℕ)
createkey alg blob = none

abbrev sign : RsaKey → List ℕ → ℕ → List ℕ
sign m text flags = text

abbrev small_rsa : Key (rsa_algorithms createkey sign)
small_rsa = record {
  alg = rsa;
  material = small_key;
  comment = [];
  expiration_date = 0;
  confirmation_required = false;
}

abbrev agent : Server (rsa_algorithms createkey sign)
agent = record {
  keys = small_rsa ∷ [];
  settings = record { verdicts = []; confirm_any_request = false };
}

abbrev at_noon : Surroundings (rsa_algorithms createkey sign)
at_noon = record {
  desktop = record {
    fingerprint = λ blob. blob;
    dialog = λ kind print comment offer. record { cancelled = false; dont_ask_again = false };
  };
  devices = record {
    smartcard_sign = λ key text flags. [];
    bt_enabled = false;
    bt_connect = λ comment. false;
    bt_handle_msg = λ message. none;
    rdp_enabled = false;
    rdp_send_receive = λ message. none;
  };
  now = 1000;
}

small_rsa-IsRsa : IsRsa createkey sign small_rsa
small_rsa-IsRsa = record {
  is_rsa = refl;
  exponent-IsBignum = (omega arith, inl (omega arith));
  modulus-IsBignum = (omega arith, inl (omega arith));
  exponent_bits = unfold bignum_bitcount in omega arith;
  modulus_bits = unfold bignum_bitcount in omega arith;
  comment_length = omega arith;
}

small_list_fits : 5 + length (make_pubkey_blob (small_rsa ∷ [])) ≤ agent_max_msglen
unfolding make_pubkey_blob put_32bit_msb_first bignum_bitcount
small_list_fits = omega (
  arith,
  length-append (rsa2_public_blob small_key) (put_32bit_msb_first 0),
  length-public_blob small_key,
)

rsa_keylist_example :
    (pageant_get_keylist (rsa_algorithms createkey sign) (query_agent at_noon agent)
      ≡ (ok tt, as_read_rsa createkey sign small_rsa ∷ []))
    × All (λ key. same_key (as_read_rsa createkey sign key) key ≡ true) (small_rsa ∷ [])
rsa_keylist_example =
    rsa_keylist createkey sign at_noon agent (small_rsa ∷ []) (unfold expire in refl)
      (small_rsa-IsRsa, tt) small_list_fits

-- 61 * 53 with the exponents 17 and 2753.
small_numbers-IsSent :
    All IsSent ((3233 ∷ []) ∷ (17 ∷ []) ∷ (2753 ∷ []) ∷ (38 ∷ []) ∷ (61 ∷ []) ∷ (53 ∷ []) ∷ [])
unfolding bignum_bitcount
small_numbers-IsSent = omega arith

private_formats_example :
    ((bytes : List ℕ) × (rsa2_openssh_fmtkey
          (complete (3233 ∷ []) (17 ∷ []) (2753 ∷ []) (38 ∷ []) (61 ∷ []) (53 ∷ []))
          64
        ≡ some (length bytes, bytes))
      × (read_openssh_key (bytes ++ 7 ∷ []) ≡ (
        some (
            complete
              (reread (3233 ∷ []))
              (reread (17 ∷ []))
              (reread (2753 ∷ []))
              (reread (38 ∷ []))
              (reread (61 ∷ []))
              (reread (53 ∷ []))),
        7 ∷ [],
      )))
    × ((bytes : List ℕ) × (rsa2_private_blob
            (complete (3233 ∷ []) (17 ∷ []) (2753 ∷ []) (38 ∷ []) (61 ∷ []) (53 ∷ []))
          ≡ some bytes)
        × (read_created_key
              (rsa2_public_blob
                (complete (3233 ∷ []) (17 ∷ []) (2753 ∷ []) (38 ∷ []) (61 ∷ []) (53 ∷ [])))
              bytes
            ≡ some (
                complete
                  (reread (3233 ∷ []))
                  (reread (17 ∷ []))
                  (reread (2753 ∷ []))
                  (reread (38 ∷ []))
                  (reread (61 ∷ []))
                  (reread (53 ∷ [])))))
    × All
        (λ bn. (value (reread bn) ≡ value bn) × IsBignum (reread bn))
        ((3233 ∷ []) ∷ (17 ∷ []) ∷ (2753 ∷ []) ∷ (38 ∷ []) ∷ (61 ∷ []) ∷ (53 ∷ []) ∷ [])
private_formats_example =
    private_formats (3233 ∷ []) (17 ∷ []) (2753 ∷ []) (38 ∷ []) (61 ∷ []) (53 ∷ []) 64 (7 ∷ [])
      small_numbers-IsSent
      (unfold total_length in unfold ssh2_bignum_length in unfold bignum_bitcount in omega arith)
