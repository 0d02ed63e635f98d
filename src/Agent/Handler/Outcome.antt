-- ===== src/Agent/Handler/Outcome.antt =====
-- What comes out of a request: rules for the sequencing, and one lemma for each case of the switch.
use pageant.Base.{
  ℕ, ◌+◌, ◌≤◌, Bool, true, false, ◌≡◌, refl, sym, ◌∙◌, Option, none, some, List, [], ◌∷◌, ◌++◌,
  arith, length, length-append, get_or, ◌⊎◌,
}
use pageant.Word32.{get_32bit_msb_first, put_32bit_msb_first}
use pageant.Word32.Bytes.{msb-IsOrder}
use pageant.Agent.Action.{
  Result, ok, failed, fault, Action, lift, ◌>>=◌, ◌>>◌, fail_if, crash_if, or_fail,
}
use pageant.Agent.Keys.{Algorithms}
use pageant.Agent.Store.{expire}
use pageant.Agent.Handler.{agent_max_msglen, ssh_agent_failure, Server, short_reply}

-- A reply: its length word is the number of bytes behind it, there is a type code, and it fits the
-- largest message.
pub record IsReply (reply : List ℕ) : Type 0 where
  pub counted : get_32bit_msb_first reply + 4 ≡ length reply
  pub typed : 5 ≤ length reply
  pub fits : length reply ≤ agent_max_msglen

-- The type code of a reply.
abbrev pub reply_type : List ℕ → ℕ
reply_type reply = get_or reply 4 0

pub put-IsReply :
    (code : ℕ) (body : List ℕ)
    → 5 + length body ≤ agent_max_msglen
    → IsReply (put_32bit_msb_first (1 + length body) ++ code ∷ body)
put-IsReply code body h =
    let n = length-append (put_32bit_msb_first (1 + length body)) (code ∷ body) in
    let l = msb-IsOrder.length-put (1 + length body) in
    record {
      counted =
          omega (arith, n, l, msb-IsOrder.get-put (1 + length body) (code ∷ body) (omega arith));
      typed = omega (arith, n, l);
      fits = omega (arith, n, l);
    }

reply_type_put :
    (n code : ℕ) (body : List ℕ) → reply_type (put_32bit_msb_first n ++ code ∷ body) ≡ code
unfolding put_32bit_msb_first
reply_type_put n code body = refl

-- The keys are those of before, less the expired ones at most.
abbrev pub Kept : {algs : Algorithms} → ℕ → Server algs → Server algs → Type 0
Kept now s s' = (s'.keys ≡ s.keys) ⊎ (s'.keys ≡ expire now s.keys)

-- What a case of the switch may come to from the server `s`: a good reply, which if it reports a
-- failure leaves the keys; a failure, which leaves them; or a fault.
pub data Outcome {algs : Algorithms} (now : ℕ) (s : Server algs)
    : Result (List ℕ) × Server algs → Type 0 where
  replied :
      {reply : List ℕ} {t : Server algs}
      → IsReply reply
      → (reply_type reply ≡ ssh_agent_failure → Kept now s t)
      → Outcome now s (ok reply, t)
  refused : {t : Server algs} → Kept now s t → Outcome now s (failed, t)
  faulted : {t : Server algs} → Outcome now s (fault, t)

module _ {algs : Algorithms} {now : ℕ} {s : Server algs} where
  after :
      {A : Type 0} (r : Result A × Server algs) (f : A → Action (Server algs) (List ℕ))
      (t : Server algs)
      → (r.0 ≡ failed → Kept now s r.1)
      → ((a : A) → r.0 ≡ ok a → Outcome now s (f a r.1))
      → Outcome now s ((◌>>=◌ {S = Server algs} (λ _. r) f) t)
  unfolding ◌>>=◌
  after (ok a, u) f t h k = k a refl
  after (failed, u) f t h k = refused (h refl)
  after (fault, u) f t h k = faulted

  -- Sequencing: what follows a step has to come to a good outcome from where the step leaves the
  -- server, and the step itself keeps the keys if it fails.
  pub >>=-Outcome :
      {A : Type 0} (m : Action (Server algs) A) (f : A → Action (Server algs) (List ℕ))
      (t : Server algs)
      → ((m t).0 ≡ failed → Kept now s (m t).1)
      → ((a : A) → (m t).0 ≡ ok a → Outcome now s (f a (m t).1))
      → Outcome now s ((m >>= f) t)
  unfolding ◌>>=◌
  >>=-Outcome m f t h k = after (m t) f t h k

  -- The steps that do not touch the keys.
  pub fail_if-Outcome :
      (b : Bool) (k : Action (Server algs) (List ℕ)) (t : Server algs)
      → (b ≡ true → Kept now s t)
      → (b ≡ false → Outcome now s (k t))
      → Outcome now s ((fail_if b >> k) t)
  unfolding ◌>>◌
  fail_if-Outcome true k t kept h = refused (kept refl)
  fail_if-Outcome false k t kept h = h refl

  pub crash_if-Outcome :
      (b : Bool) (k : Action (Server algs) (List ℕ)) (t : Server algs)
      → (b ≡ false → Outcome now s (k t))
      → Outcome now s ((crash_if b >> k) t)
  unfolding ◌>>◌
  crash_if-Outcome true k t h = faulted
  crash_if-Outcome false k t h = h refl

  pub lift-Outcome :
      {A : Type 0} (r : Result A) (f : A → Action (Server algs) (List ℕ)) (t : Server algs)
      → Kept now s t
      → ((a : A) → Outcome now s (f a t))
      → Outcome now s ((lift r >>= f) t)
  unfolding ◌>>=◌
  lift-Outcome (ok a) f t kept h = h a
  lift-Outcome failed f t kept h = refused kept
  lift-Outcome fault f t kept h = faulted

  pub or_fail-Outcome :
      {A : Type 0} (o : Option A) (f : A → Action (Server algs) (List ℕ)) (t : Server algs)
      → Kept now s t
      → ((a : A) → Outcome now s (f a t))
      → Outcome now s ((or_fail o >>= f) t)
  unfolding ◌>>=◌
  or_fail-Outcome none f t kept h = refused kept
  or_fail-Outcome (some a) f t kept h = h a

  -- The end of a case.
  pub put-Outcome :
      (n code : ℕ) (body : List ℕ) (t : Server algs)
      → n ≡ 1 + length body
      → 5 + length body ≤ agent_max_msglen
      → (code ≡ ssh_agent_failure → Kept now s t)
      → Outcome now s (ok (put_32bit_msb_first n ++ code ∷ body), t)
  put-Outcome n code body t e fits h =
      replied (rw e (put-IsReply code body fits)) λ c. h (sym (reply_type_put n code body) ∙ c)

  pub short_reply-Outcome :
      (code : ℕ) (t : Server algs)
      → (code ≡ ssh_agent_failure → Kept now s t)
      → Outcome now s (ok (short_reply code), t)
  unfolding short_reply
  short_reply-Outcome code t h = put-Outcome 1 code [] t (omega arith) (omega arith) h
