-- ===== src/Agent/Handler.antt =====
-- pageant_handle_msg and pageant_failure_msg of pageant.cpp: one request, one reply. `mem` is the memory
-- that can be read from the message on; a read past it is a fault.
pub mod Outcome
pub mod Cases
pub mod Replies
pub mod Invariant
pub mod Consent
pub mod Answers
pub mod Faults
pub mod Exchange
use pageant.Base.{
  ℕ, zero, suc, ◌+◌, ◌-◌, ◌^◌, Bool, true, false, not, ◌&&◌, ◌||◌, Option, none, some, List, [],
  ◌∷◌, ◌++◌, ltb, leb, ◌==◌, if◌then◌else◌, length, get_or, take, drop,
}
use pageant.Word32.{get_32bit_msb_first, put_32bit_msb_first}
use pageant.Agent.Action.{
  Result, ok, failed, fault, and_then, Action, pure, fail, lift, ◌>>=◌, ◌>>◌, fail_if, crash_if,
  or_fail,
}
use pageant.Agent.Wire.{rfc4251_string}
use pageant.Agent.Keys.{Algorithms, Key, public_blob, parse_one_public_key, ckey_parse_private}
use pageant.Agent.Store.{
  keystore_exist, keystore_add, keystore_remove, keystore_remove_all, keystore_get_keys,
}
use pageant.Agent.Accept.{
  Kind, request_identities, sign_request, add_identity, add_id_constrained, remove_identity,
  remove_all_identities, unknown, Settings, Desktop, accept_agent_request,
}
use pageant.Agent.Signer.{Devices, signer}
use pageant.Agent.Constraints.{parse_constraints}

abbrev pub agent_max_msglen : ℕ
agent_max_msglen = 8192

abbrev pub ssh_agent_failure : ℕ
ssh_agent_failure = 5

abbrev pub ssh_agent_success : ℕ
ssh_agent_success = 6

-- The switch on the type code.
unfoldable pub kind_of : ℕ → Kind
kind_of type =
    if type == 11
    then request_identities
    else if type == 13
    then sign_request
    else if type == 17
    then add_identity
    else if type == 25
    then add_id_constrained
    else if type == 18
    then remove_identity
    else if type == 19
    then remove_all_identities
    else unknown

-- The agent's state.
pub record Server (algs : Algorithms) : Type 0 where
  pub keys : List (Key algs)
  pub settings : Settings

-- What the agent runs in; `now` is the time of the request.
pub record Surroundings (algs : Algorithms) : Type 0 where
  pub desktop : Desktop
  pub devices : Devices algs
  pub now : ℕ

unfoldable pub pageant_failure_msg : List ℕ
pageant_failure_msg = put_32bit_msb_first 1 ++ ssh_agent_failure ∷ []

-- A reply of type `code` with nothing behind it.
unfoldable pub short_reply : ℕ → List ℕ
short_reply code = put_32bit_msb_first 1 ++ code ∷ []

-- `std::vector<uint8_t>(p, p + n)`.
unfoldable pub read_range : ℕ → List ℕ → Result (List ℕ)
read_range n mem = if ltb (length mem) n then fault else ok (take n mem)

-- The label `failure` of the static pageant_handle_msg.
unfoldable pub or_failure : Result (List ℕ) → Result (List ℕ)
or_failure (ok reply) = ok reply
or_failure failed = ok (short_reply ssh_agent_failure)
or_failure fault = fault

-- The end of the public pageant_handle_msg: a reply that is too long is not sent.
unfoldable pub check_length : Result (List ℕ) → Result (List ℕ)
check_length (ok reply) =
    if ltb agent_max_msglen (length reply) then ok pageant_failure_msg else ok reply
check_length failed = failed
check_length fault = fault

module _ {algs : Algorithms} where
  -- An action of the key store, and one of the settings, as actions of the agent.
  abbrev pub on_keys : {A : Type 0} → Action (List (Key algs)) A → Action (Server algs) A
  on_keys m s = let (r, keys) = m s.keys in (r, record s { keys = keys })

  abbrev pub on_settings : (Settings → Bool × Settings) → Action (Server algs) Bool
  on_settings f s = let (b, settings) = f s.settings in (ok b, record s { settings = settings })

  -- make_pubkey_blob.
  unfoldable pub blob_entries : List (Key algs) → List ℕ
  blob_entries [] = []
  blob_entries (key ∷ keys) =
      put_32bit_msb_first (length (public_blob key))
      ++ (public_blob key
          ++ (put_32bit_msb_first (length key.comment) ++ (key.comment ++ blob_entries keys)))

  unfoldable pub make_pubkey_blob : List (Key algs) → List ℕ
  unfolding blob_entries
  make_pubkey_blob keys = put_32bit_msb_first (length keys) ++ blob_entries keys

-- What SSH2_AGENTC_SIGN_REQUEST carries: the key, the data and the flags.
unfoldable pub read_sign_request : (algs : Algorithms) → List ℕ → Result (Key algs × List ℕ × ℕ)
unfolding rfc4251_string
read_sign_request algs src = elim (rfc4251_string src 0) [
  | none ↦ failed
  | some (pos1, key_blob) ↦ elim (rfc4251_string src pos1) [
    | none ↦ failed
    | some (pos2, data_v) ↦
        let flags = get_32bit_msb_first (drop pos2 src) in
        if ltb (length src) (pos2 + 4)
        then failed
        else and_then (parse_one_public_key algs key_blob)
            λ public_key. ok (public_key, data_v, flags)
  ]
]

unfoldable pub sign_reply : List ℕ → List ℕ
sign_reply signature =
    put_32bit_msb_first (5 + length signature)
    ++ 14 ∷ (put_32bit_msb_first (length signature) ++ signature)

module _ {algs : Algorithms} (env : Surroundings algs) where
  unfoldable pub handle_request_identities : Action (Server algs) (List ℕ)
  unfolding keystore_get_keys
  handle_request_identities = do
    keys ← on_keys (keystore_get_keys env.now)
    let blob = make_pubkey_blob keys
    fail_if (ltb agent_max_msglen (length blob + 5))
    pure (put_32bit_msb_first (length blob + 1) ++ 12 ∷ blob)

  -- `src` is the message behind its type code. The reply is written into a buffer of
  -- AGENT_MAX_MSGLEN bytes without a check.
  unfoldable pub handle_sign_request : List ℕ → Action (Server algs) (List ℕ)
  unfolding read_sign_request sign_reply
  handle_sign_request src = do
    (public_key, data_v, flags) ← lift (read_sign_request algs src)
    accepted ← on_settings (accept_agent_request env.desktop sign_request public_key)
    fail_if (not accepted)
    signature ← on_keys (signer env.devices env.now public_key data_v flags)
    crash_if (ltb agent_max_msglen (9 + length signature))
    pure (sign_reply signature)

  -- `blob` is the message behind its type code and the byte after the message.
  unfoldable pub read_new_key : Kind → List ℕ → Result (Key algs)
  unfolding ckey_parse_private parse_constraints
  read_new_key kind blob = elim (ckey_parse_private algs blob) [
    | failed ↦ failed
    | fault ↦ fault
    | ok (key, pos) ↦ elim kind [
      | add_id_constrained ↦ parse_constraints env.now (drop pos blob) key
      | _ ↦ ok key
    ]
  ]

  unfoldable pub handle_add_identity : Kind → List ℕ → Action (Server algs) (List ℕ)
  unfolding read_new_key keystore_exist keystore_add
  handle_add_identity kind blob = do
    key ← lift (read_new_key kind blob)
    accepted ← on_settings (accept_agent_request env.desktop kind key)
    fail_if (not accepted)
    exists ← on_keys (λ keys. (ok (keystore_exist key keys), keys))
    fail_if exists
    added ← on_keys (keystore_add key)
    fail_if (not added)
    pure (short_reply ssh_agent_success)

  unfoldable pub handle_remove_identity : List ℕ → Action (Server algs) (List ℕ)
  unfolding rfc4251_string keystore_remove
  handle_remove_identity src = do
    (pos, key_blob) ← or_fail (rfc4251_string src 0)
    public_key ← lift (parse_one_public_key algs key_blob)
    accepted ← on_settings (accept_agent_request env.desktop remove_identity public_key)
    fail_if (not accepted)
    removed ← on_keys (keystore_remove env.now public_key)
    pure (short_reply (if removed then ssh_agent_success else ssh_agent_failure))

  unfoldable pub handle_remove_all : Action (Server algs) (List ℕ)
  unfolding keystore_remove_all
  handle_remove_all = do
    on_keys (λ keys. (ok tt, keystore_remove_all keys))
    pure (short_reply ssh_agent_success)

  -- The cases of the switch; `mem` goes on behind the type code, `left` is `msgend - p`.
  unfoldable pub handle_kind : Kind → ℕ → List ℕ → Action (Server algs) (List ℕ)
  handle_kind request_identities left mem = handle_request_identities
  handle_kind sign_request left mem = do src ← lift (read_range left mem); handle_sign_request src
  handle_kind add_identity left mem = do
    blob ← lift (read_range (left + 1) mem)
    handle_add_identity add_identity blob
  handle_kind add_id_constrained left mem = do
    blob ← lift (read_range (left + 1) mem)
    handle_add_identity add_id_constrained blob
  handle_kind remove_identity left mem = do
    src ← lift (read_range left mem)
    handle_remove_identity src
  handle_kind remove_all_identities left mem = handle_remove_all
  handle_kind unknown left mem = fail

  -- The static pageant_handle_msg.
  unfoldable pub handle_msg : ℕ → List ℕ → Action (Server algs) (List ℕ)
  unfolding or_failure
  handle_msg msglen [] s =
      if msglen == 0 then (ok (short_reply ssh_agent_failure), s) else (fault, s)
  handle_msg msglen (type ∷ mem) s =
      if msglen == 0
      then (ok (short_reply ssh_agent_failure), s)
      else let (r, s') = handle_kind (kind_of type) (msglen - 1) mem s in (or_failure r, s')

  -- The public pageant_handle_msg.
  unfoldable pub pageant_handle_msg : ℕ → List ℕ → Action (Server algs) (List ℕ)
  unfolding handle_msg check_length
  pageant_handle_msg request_len mem s =
      let msglen = get_32bit_msb_first mem in
      let (r, s') = handle_msg msglen (drop 4 mem) s in
      if ltb agent_max_msglen request_len
      then (ok pageant_failure_msg, s)
      else if ltb (length mem) 4
      then (fault, s)
      else if ltb agent_max_msglen msglen
      then (ok pageant_failure_msg, s)
      else (check_length r, s')
