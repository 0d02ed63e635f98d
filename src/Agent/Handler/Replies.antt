-- ===== src/Agent/Handler/Replies.antt =====
-- The replies to requests.
use pageant.Base.{
  ℕ, ◌-◌, false, ◌≡◌, refl, ap, ◌∙◌, List, [], ◌∷◌, arith, ltb, ◌==◌, length, drop, Bool-cases, inl,
  inr, ◌⊎◌,
}
use pageant.Word32.{get_32bit_msb_first}
use pageant.Agent.Action.{Result, ok, failed, fault}
use pageant.Agent.Keys.{Algorithms}
use pageant.Agent.Store.{expire}
use pageant.Agent.Handler.{
  agent_max_msglen, ssh_agent_failure, kind_of, Server, Surroundings, pageant_failure_msg,
  short_reply, or_failure, check_length, handle_msg, pageant_handle_msg,
}
use pageant.Agent.Handler.Outcome.{
  IsReply, reply_type, Kept, Outcome, replied, refused, faulted, put-IsReply,
}
use pageant.Agent.Handler.Cases.{kind-Outcome}

-- What the whole handler may come to: a good reply or a fault, no longer a failure.
pub data Answered {algs : Algorithms} (now : ℕ) (s : Server algs)
    : Result (List ℕ) × Server algs → Type 0 where
  answered :
      {reply : List ℕ} {t : Server algs}
      → IsReply reply
      → (reply_type reply ≡ ssh_agent_failure → Kept now s t)
      → Answered now s (ok reply, t)
  crashed : {t : Server algs} → Answered now s (fault, t)

module _ {algs : Algorithms} (env : Surroundings algs) (s : Server algs) where
  failure-Answered :
      (t : Server algs)
      → Kept env.now s t
      → Answered env.now s (ok (short_reply ssh_agent_failure), t)
  unfolding short_reply
  failure-Answered t kept = answered (put-IsReply ssh_agent_failure [] (omega arith)) (λ c. kept)

  -- Whatever a case comes to, the handler makes an answer of it.
  answer :
      (r : Result (List ℕ) × Server algs)
      → Outcome env.now s r
      → Answered env.now s (or_failure r.0, r.1)
  unfolding or_failure
  answer (ok reply, t) (replied g h) = answered g h
  answer (failed, t) (refused kept) = failure-Answered t kept
  answer (fault, t) faulted = crashed

  handle_msg-Answered :
      (msglen : ℕ) (mem : List ℕ) → Answered env.now s (handle_msg env msglen mem s)
  unfolding handle_msg
  handle_msg-Answered msglen [] = elim (Bool-cases (msglen == 0)) [
    | inl e ↦ rw e (failure-Answered s (inl refl))
    | inr e ↦ rw e crashed
  ]
  handle_msg-Answered msglen (type ∷ mem) = elim (Bool-cases (msglen == 0)) [
    | inl e ↦ rw e (failure-Answered s (inl refl))
    | inr e ↦ rw e (answer _ (kind-Outcome env s (kind_of type) (msglen - 1) mem))
  ]

  -- The check of the length finds nothing: no reply is too long.
  check :
      (r : Result (List ℕ) × Server algs)
      → Answered env.now s r
      → Answered env.now s (check_length r.0, r.1)
  unfolding check_length
  check (ok reply, t) (answered g h) =
      let f = g.fits in
      let e : ltb agent_max_msglen (length reply) ≡ false = ground (arith, f) in rw e (answered g h)
  check (failed, t) x = elim x [ ]
  check (fault, t) crashed = crashed

  pageant_handle_msg-Answered :
      (request_len : ℕ) (mem : List ℕ)
      → Answered env.now s (pageant_handle_msg env request_len mem s)
  unfolding pageant_handle_msg pageant_failure_msg short_reply
  pageant_handle_msg-Answered request_len mem =
      let msglen = get_32bit_msb_first mem in
      elim (Bool-cases (ltb agent_max_msglen request_len)) [
        | inl e ↦ rw e (failure-Answered s (inl refl))
        | inr e ↦ elim (Bool-cases (ltb (length mem) 4)) [
          | inl f ↦ rw (e, f) crashed
          | inr f ↦ elim (Bool-cases (ltb agent_max_msglen msglen)) [
            | inl g ↦ rw (e, f, g) (failure-Answered s (inl refl))
            | inr g ↦ rw (e, f, g) (check _ (handle_msg-Answered msglen (drop 4 mem)))
          ]
        ]
      ]

  Answered-IsReply :
      (r : Result (List ℕ) × Server algs)
      → Answered env.now s r
      → (r.0 ≡ fault) ⊎ ((reply : List ℕ) × (r.0 ≡ ok reply) × IsReply reply)
  Answered-IsReply (ok reply, t) (answered g h) = inr (reply, refl, g)
  Answered-IsReply (failed, t) x = elim x [ ]
  Answered-IsReply (fault, t) crashed = inl refl

  Answered-Kept :
      (r : Result (List ℕ) × Server algs) (reply : List ℕ)
      → Answered env.now s r
      → r.0 ≡ ok reply
      → reply_type reply ≡ ssh_agent_failure
      → Kept env.now s r.1
  Answered-Kept (ok given, t) reply (answered g h) e c =
      let same : given ≡ reply = ground (arith, e) in h (ap reply_type same ∙ c)
  Answered-Kept (failed, t) reply x e c = elim x [ ]
  Answered-Kept (fault, t) reply crashed e c = cc

  -- A request of any bytes that does not end in a fault gets a reply, whose length word is the
  -- number of bytes behind it, which has a type code, and which is at most AGENT_MAX_MSGLEN bytes
  -- long.
  pub pageant_handle_msg-IsReply :
      (request_len : ℕ) (mem : List ℕ)
      → ((pageant_handle_msg env request_len mem s).0 ≡ fault)
        ⊎ ((reply : List ℕ) × ((pageant_handle_msg env request_len mem s).0 ≡ ok reply)
            × IsReply reply)
  pageant_handle_msg-IsReply request_len mem =
      Answered-IsReply _ (pageant_handle_msg-Answered request_len mem)

  -- A request that is answered with SSH_AGENT_FAILURE leaves the list of keys as it was, or less
  -- the keys that have expired.
  pub failure-Kept :
      (request_len : ℕ) (mem reply : List ℕ)
      → (pageant_handle_msg env request_len mem s).0 ≡ ok reply
      → reply_type reply ≡ ssh_agent_failure
      → ((pageant_handle_msg env request_len mem s).1.keys ≡ s.keys)
        ⊎ ((pageant_handle_msg env request_len mem s).1.keys ≡ expire env.now s.keys)
  failure-Kept request_len mem reply =
      Answered-Kept _ reply (pageant_handle_msg-Answered request_len mem)
