-- ===== src/Agent/Handler/Answers.antt =====
-- Which requests are sure of an answer.
use pageant.Base.{
  ℕ, ◌+◌, ◌-◌, ◌<◌, Bool, true, false, ◌≡◌, ◌≢◌, refl, sym, ap, ◌∙◌, List, [], ◌∷◌, arith, ltb,
  ◌==◌, length, get_or, Bool-cases, inl, inr, ◌⊎◌,
}
use pageant.Word32.{get_32bit_msb_first}
use pageant.Agent.Action.{Result, ok, failed, fault, pure, ◌>>=◌, ◌>>◌, fail_if, >>=-ok}
use pageant.Agent.Keys.{Algorithms, Key}
use pageant.Agent.Store.{expire, keystore_get_keys}
use pageant.Agent.Store.Distinct.{IsStore, Copyable, expire-IsStore, copy_all-Copyable}
use pageant.Agent.Accept.{
  Kind, request_identities, sign_request, add_identity, add_id_constrained, remove_identity,
  remove_all_identities, unknown,
}
use pageant.Agent.Handler.{
  agent_max_msglen, kind_of, Server, Surroundings, or_failure, check_length, on_keys,
  make_pubkey_blob, handle_request_identities, handle_remove_all, handle_kind, handle_msg,
  pageant_handle_msg,
}
use pageant.Agent.Handler.Outcome.{IsReply}
use pageant.Agent.Handler.Replies.{pageant_handle_msg-IsReply}
use pageant.Agent.Handler.Consent.{asks}

or_failure-faultless : (r : Result (List ℕ)) → r ≢ fault → or_failure r ≢ fault
unfolding or_failure
or_failure-faultless (ok reply) h e = cc
or_failure-faultless failed h e = cc
or_failure-faultless fault h e = h refl

check_length-faultless : (r : Result (List ℕ)) → r ≢ fault → check_length r ≢ fault
unfolding check_length
check_length-faultless (ok reply) h e = elim (Bool-cases (ltb agent_max_msglen (length reply))) [
  | inl l ↦ absurd (ground (arith, e, l))
  | inr l ↦ absurd (ground (arith, e, l))
]
check_length-faultless failed h e = cc
check_length-faultless fault h e = h refl

fail_if-faultless :
    {algs : Algorithms} (b : Bool) (reply : List ℕ) (t : Server algs)
    → ((fail_if b >> pure reply) t).0 ≢ fault
unfolding ◌>>◌ ◌>>=◌
fail_if-faultless true reply t e = cc
fail_if-faultless false reply t e = cc

module _ {algs : Algorithms} (env : Surroundings algs) (s : Server algs) where
  pub get_keys-copied :
      (keys : List (Key algs))
      → expire env.now s.keys ≡ keys
      → Copyable keys
      → on_keys (keystore_get_keys env.now) s ≡ (ok keys, record s { keys = keys })
  unfolding keystore_get_keys
  get_keys-copied keys e c = rw (e, copy_all-Copyable keys c) refl

  identities-faultless : IsStore s.keys → (handle_request_identities env s).0 ≢ fault
  unfolding handle_request_identities
  identities-faultless good e =
      let left = expire env.now s.keys in
      let t : Server algs = record s { keys = left } in
      let r = get_keys-copied left refl (expire-IsStore env.now s.keys good).1 in
      fail_if-faultless (ltb agent_max_msglen (length (make_pubkey_blob left) + 5)) _ t (
        ap (λ (r : Result (List ℕ) × Server algs). r.0)
          (sym (>>=-ok (on_keys (keystore_get_keys env.now)) _ s t left r))
        ∙ e)

  remove_all-faultless : (handle_remove_all env s).0 ≢ fault
  unfolding handle_remove_all ◌>>◌ ◌>>=◌
  remove_all-faultless e = cc

  kind-faultless :
      (kind : Kind) (left : ℕ) (mem : List ℕ)
      → asks kind ≡ false
      → IsStore s.keys
      → (handle_kind env kind left mem s).0 ≢ fault
  unfolding handle_kind asks
  kind-faultless request_identities left mem a good = identities-faultless good
  kind-faultless remove_all_identities left mem a good = remove_all-faultless
  kind-faultless unknown left mem a good = λ e. cc
  kind-faultless sign_request left mem a good = λ e. cc
  kind-faultless add_identity left mem a good = λ e. cc
  kind-faultless add_id_constrained left mem a good = λ e. cc
  kind-faultless remove_identity left mem a good = λ e. cc

  handle_msg-faultless :
      (msglen type : ℕ) (mem : List ℕ)
      → asks (kind_of type) ≡ false
      → IsStore s.keys
      → (handle_msg env msglen (type ∷ mem) s).0 ≢ fault
  unfolding handle_msg
  handle_msg-faultless msglen type mem a good = elim (Bool-cases (msglen == 0)) [
    | inl e ↦ rw e (λ f. cc)
    | inr e ↦ rw e (or_failure-faultless _ (kind-faultless (kind_of type) (msglen - 1) mem a good))
  ]

  whole-faultless :
      (request_len a b c d type : ℕ) (mem : List ℕ)
      → asks (kind_of type) ≡ false
      → IsStore s.keys
      → (pageant_handle_msg env request_len (a ∷ b ∷ c ∷ d ∷ type ∷ mem) s).0 ≢ fault
  unfolding pageant_handle_msg
  whole-faultless request_len a b c d type mem q good =
      let msglen = get_32bit_msb_first (a ∷ b ∷ c ∷ d ∷ type ∷ mem) in
      let l : ltb (length (a ∷ b ∷ c ∷ d ∷ type ∷ mem)) 4 ≡ false = ground arith in
      elim (Bool-cases (ltb agent_max_msglen request_len)) [
        | inl e ↦ rw e (λ f. cc)
        | inr e ↦ elim (Bool-cases (ltb agent_max_msglen msglen)) [
          | inl g ↦ rw (e, l, g) (λ f. cc)
          | inr g ↦
              rw (e, l, g) (check_length-faultless _ (handle_msg-faultless msglen type mem q good))
        ]
      ]

  answerable :
      (request_len : ℕ) (mem : List ℕ)
      → IsStore s.keys
      → (pageant_handle_msg env request_len mem s).0 ≡ fault
      → (length mem < 5) ⊎ (asks (kind_of (get_or mem 4 0)) ≡ true)
  answerable request_len [] good e = inl (omega arith)
  answerable request_len (a ∷ []) good e = inl (omega arith)
  answerable request_len (a ∷ b ∷ []) good e = inl (omega arith)
  answerable request_len (a ∷ b ∷ c ∷ []) good e = inl (omega arith)
  answerable request_len (a ∷ b ∷ c ∷ d ∷ []) good e = inl (omega arith)
  answerable request_len (a ∷ b ∷ c ∷ d ∷ type ∷ mem) good e =
      elim (Bool-cases (asks (kind_of type))) [
        | inl q ↦ inr q
        | inr q ↦ absurd (whole-faultless request_len a b c d type mem q good e)
      ]

  -- For a key store in order, a request of any bytes gets a reply, whose length word is the
  -- number of bytes behind it, which has a type code, and which is at most AGENT_MAX_MSGLEN bytes
  -- long; or it ends in a fault, and then the memory ends before the type code, or the request is
  -- one to sign with, to add or to remove a key.
  pub pageant_handle_msg_answers :
      (request_len : ℕ) (mem : List ℕ)
      → IsStore s.keys
      → ((reply : List ℕ) × ((pageant_handle_msg env request_len mem s).0 ≡ ok reply)
          × IsReply reply)
        ⊎ (((pageant_handle_msg env request_len mem s).0 ≡ fault)
            × ((length mem < 5) ⊎ (asks (kind_of (get_or mem 4 0)) ≡ true)))
  pageant_handle_msg_answers request_len mem good =
      elim (pageant_handle_msg-IsReply env s request_len mem) [
        | inl e ↦ inr (e, answerable request_len mem good e)
        | inr r ↦ inl r
      ]
