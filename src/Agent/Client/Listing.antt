-- ===== src/Agent/Client/Listing.antt =====
-- The client's list against the agent's keys: the request, the handler and the parsing in a row.
use pageant.Base.{
  ℕ, ◌+◌, ◌≤◌, Bool, false, ◌≡◌, refl, ap, ◌∙◌, Option, none, some, List, [], ◌∷◌, ◌++◌, map, arith,
  ltb, length, length-append, All,
}
use pageant.Word32.{get_32bit_msb_first, put_32bit_msb_first}
use pageant.Word32.Bytes.{msb-IsOrder}
use pageant.Agent.Action.{Result, ok, failed, fault, pure, ◌>>◌, fail_if, >>=-ok, fail_if-false}
use pageant.Agent.Keys.{Algorithms, Key, public_blob}
use pageant.Agent.Store.{expire, keystore_get_keys}
use pageant.Agent.Store.Distinct.{Copyable}
use pageant.Agent.Client.{pageant_get_keylist}
use pageant.Agent.Client.Keylist.{IsListable, pageant_get_keylist-reply}
use pageant.Agent.Handler.Answers.{get_keys-copied}
use pageant.Agent.Handler.{
  agent_max_msglen, Server, Surroundings, on_keys, blob_entries, make_pubkey_blob,
  handle_request_identities, handle_msg, or_failure, check_length, kind_of, handle_kind,
  pageant_handle_msg,
}

abbrev pub answer : Result (List ℕ) → Option (List ℕ)
answer (ok reply) = some reply
answer failed = none
answer fault = none

-- A query that an agent in this process answers; a fault is no answer.
unfoldable pub query_agent :
    {algs : Algorithms} → Surroundings algs → Server algs → List ℕ → Option (List ℕ)
query_agent env s request = answer (pageant_handle_msg env (length request) request s).0

module _ {algs : Algorithms} (env : Surroundings algs) (s : Server algs) where
  identities-reply :
      (keys : List (Key algs))
      → expire env.now s.keys ≡ keys
      → Copyable keys
      → 5 + length (make_pubkey_blob keys) ≤ agent_max_msglen
      → handle_request_identities env s ≡ (
        ok (put_32bit_msb_first (length (make_pubkey_blob keys) + 1) ++ 12 ∷ make_pubkey_blob keys),
        record s { keys = keys },
      )
  unfolding handle_request_identities
  identities-reply keys e c fits =
      let t : Server algs = record s { keys = keys } in
      let reply =
        put_32bit_msb_first (length (make_pubkey_blob keys) + 1) ++ 12 ∷ make_pubkey_blob keys in
      let b : ltb agent_max_msglen (length (make_pubkey_blob keys) + 5) ≡ false =
        ground (arith, fits) in
      >>=-ok (on_keys (keystore_get_keys env.now)) _ s t keys (get_keys-copied env s keys e c)
      ∙ ap (λ (b : Bool). (fail_if {S = Server algs} b >> pure reply) t) b
      ∙ fail_if-false (pure reply) t

  -- What the whole handler makes of the request of pageant_get_keylist.
  request-reply :
      (reply : List ℕ) (t : Server algs)
      → handle_request_identities env s ≡ (ok reply, t)
      → length reply ≤ agent_max_msglen
      → (pageant_handle_msg env 5 (put_32bit_msb_first 1 ++ 11 ∷ []) s).0 ≡ ok reply
  unfolding pageant_handle_msg handle_msg handle_kind kind_of put_32bit_msb_first
      get_32bit_msb_first or_failure check_length
  request-reply reply t e fits =
      let l : ltb agent_max_msglen (length reply) ≡ false = ground (arith, fits) in
      ap (λ (r : Result (List ℕ) × Server algs). check_length (or_failure r.0)) e ∙ rw l refl

  query-reply :
      (reply : List ℕ)
      → (pageant_handle_msg env 5 (put_32bit_msb_first 1 ++ 11 ∷ []) s).0 ≡ ok reply
      → query_agent env s (put_32bit_msb_first 1 ++ 11 ∷ []) ≡ some reply
  unfolding query_agent put_32bit_msb_first
  query-reply reply e = ap answer e

  entries_long : (keys : List (Key algs)) → length keys ≤ length (blob_entries keys)
  unfolding blob_entries put_32bit_msb_first
  entries_long [] = omega arith
  entries_long (key ∷ keys) =
      let word = put_32bit_msb_first (length key.comment) in
      let n1 = length-append (public_blob key) (word ++ (key.comment ++ blob_entries keys)) in
      let n2 = length-append key.comment (blob_entries keys) in
      omega (arith, n1, n2, entries_long keys)

  blob_long : (keys : List (Key algs)) → length keys ≤ length (make_pubkey_blob keys)
  unfolding make_pubkey_blob put_32bit_msb_first
  blob_long keys = omega (arith, entries_long keys)

  -- If the agent's keys that have not expired can be copied, each of them is read from its public
  -- blob as `as_read` says, into a key that can be copied, their blobs and comments are shorter
  -- than 2 ^ 31 bytes, and the answer fits the largest message, then `pageant_get_keylist`
  -- against the agent's handler gives what can be read of these keys, in their order.
  pub pageant_get_keylist-agent :
      (as_read : Key algs → Key algs) (keys : List (Key algs))
      → expire env.now s.keys ≡ keys
      → Copyable keys
      → All (IsListable as_read) keys
      → 5 + length (make_pubkey_blob keys) ≤ agent_max_msglen
      → pageant_get_keylist algs (query_agent env s) ≡ (ok tt, map as_read keys)
  pageant_get_keylist-agent as_read keys e c h fits =
      let blob = make_pubkey_blob keys in
      let reply = put_32bit_msb_first (length blob + 1) ++ 12 ∷ blob in
      let n1 = length-append (put_32bit_msb_first (length blob + 1)) (12 ∷ blob) in
      let n2 = msb-IsOrder.length-put (length blob + 1) in
      let r =
        request-reply reply _ (identities-reply keys e c fits) (omega (arith, n1, n2, fits)) in
      let q : query_agent env s (put_32bit_msb_first 1 ++ 11 ∷ []) ≡ some reply =
        query-reply reply r in
      pageant_get_keylist-reply as_read keys (length blob + 1) (query_agent env s) h
        (omega (arith, blob_long keys, fits)) q
