-- ===== src/Agent/Signer.antt =====
-- signer of pageant.cpp: where a signature comes from, by the prefix of the key's comment. Smart cards,
-- the Bluetooth proxy and the RDP relay are the environment's.
use pageant.Base.{
  ℕ, ◌+◌, Bool, true, false, ◌&&◌, ◌||◌, Option, none, some, List, [], ◌∷◌, leb, ◌==◌,
  if◌then◌else◌,
}
use pageant.Agent.Action.{Result, ok, failed, fault, and_then}
use pageant.Agent.Wire.{create_agentc_sign_request, parse_sign_response}
use pageant.Agent.Keys.{Algorithms, Key, public_blob}
use pageant.Agent.Store.{keystore_get_from_blob}

pub record Devices (algs : Algorithms) : Type 0 where
  pub smartcard_sign : Key algs → List ℕ → ℕ → List ℕ
  pub bt_enabled : Bool
  pub bt_connect : List ℕ → Bool
  pub bt_handle_msg : List ℕ → Option (List ℕ)
  pub rdp_enabled : Bool
  pub rdp_send_receive : List ℕ → Option (List ℕ)

-- The letters of `strnicmp` without case.
abbrev pub lower : ℕ → ℕ
lower c = if leb b'A' c && leb c b'Z' then c + 32 else c

unfoldable pub starts_with : (ℕ → ℕ) → List ℕ → List ℕ → Bool
starts_with f [] text = true
starts_with f (p ∷ prefix) [] = false
starts_with f (p ∷ prefix) (c ∷ text) = (f p == f c) && starts_with f prefix text

unfoldable pub cert_is_certpath : List ℕ → Bool
unfolding starts_with
cert_is_certpath path =
    starts_with lower (b'C' ∷ b'A' ∷ b'P' ∷ b'I' ∷ b':' ∷ []) path
    || starts_with lower (b'P' ∷ b'K' ∷ b'C' ∷ b'S' ∷ b':' ∷ []) path

-- `_signature.empty()` is the result false.
abbrev pub if_any : List ℕ → Result (List ℕ)
if_any [] = failed
if_any (b ∷ bs) = ok (b ∷ bs)

-- A reply of a proxy.
abbrev pub proxied : Option (List ℕ) → Result (List ℕ)
proxied none = failed
proxied (some response) = if_any (parse_sign_response response)

module _ {algs : Algorithms} (dev : Devices algs) where
  -- `key_comment` of a `ckey` without a key is empty.
  abbrev pub key_comment : Option (Key algs) → List ℕ
  key_comment none = []
  key_comment (some key) = key.comment

  -- What reads through the pointer to the key: a fault when it is null.
  abbrev pub through : Option (Key algs) → (Key algs → Result (List ℕ)) → Result (List ℕ)
  through none use_key = fault
  through (some key) use_key = use_key key

  -- signer, after keystore_get.
  unfoldable pub sign_with : Option (Key algs) → List ℕ → ℕ → Result (List ℕ)
  unfolding cert_is_certpath
  sign_with private_key data' flags =
      let comment = key_comment private_key in
      if cert_is_certpath comment
      then through private_key (λ key. if_any (dev.smartcard_sign key data' flags))
      else if starts_with (λ c. c) (b'b' ∷ b't' ∷ b's' ∷ b'p' ∷ b'p' ∷ b':' ∷ b'/' ∷ b'/' ∷ [])
          comment
      then if dev.bt_enabled
        then through private_key (λ key.
          if dev.bt_connect key.comment
          then proxied (dev.bt_handle_msg (create_agentc_sign_request (public_blob key) data'))
          else failed)
        else failed
      else if starts_with (λ c. c) (b'r' ∷ b'd' ∷ b'p' ∷ b':' ∷ b'/' ∷ b'/' ∷ []) comment
      then if dev.rdp_enabled
        then through private_key (λ key.
          proxied (dev.rdp_send_receive (create_agentc_sign_request (public_blob key) data')))
        else failed
      else through private_key λ key. if_any (algs.sign key.alg key.material data' flags)

  -- The result of keystore_get is not looked at.
  unfoldable pub signer :
      ℕ → Key algs → List ℕ → ℕ → List (Key algs) → Result (List ℕ) × List (Key algs)
  signer now public_key data' flags keys =
      let (found, left) = keystore_get_from_blob now (public_blob public_key) keys in
      let signature : Result (List ℕ) =
        and_then found λ private_key. sign_with private_key data' flags in
      (signature, left)
