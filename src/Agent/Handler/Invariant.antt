-- ===== src/Agent/Handler/Invariant.antt =====
-- What the requests keep of the key store.
use pageant.Base.{
  ℕ, ◌-◌, Bool, true, false, Option, none, some, List, [], ◌∷◌, ltb, ◌==◌, length, drop, Bool-cases,
  inl, inr,
}
use pageant.Word32.{get_32bit_msb_first}
use pageant.Agent.Action.{
  Result, ok, failed, fault, Action, lift, ◌>>=◌, ◌>>◌, fail_if, crash_if, or_fail,
}
use pageant.Agent.Keys.{Algorithms, Key}
use pageant.Agent.Store.{
  keystore_add, keystore_remove, keystore_remove_all, keystore_get_keys, keystore_get_from_blob,
}
use pageant.Agent.Store.Distinct.{
  IsStore, expire-IsStore, keystore_add-IsStore, keystore_remove-IsStore,
}
use pageant.Agent.Accept.{
  Kind, request_identities, sign_request, add_identity, add_id_constrained, remove_identity,
  remove_all_identities, unknown, Settings,
}
use pageant.Agent.Signer.{signer}
use pageant.Agent.Handler.{
  agent_max_msglen, kind_of, Server, Surroundings, handle_request_identities, handle_sign_request,
  handle_add_identity, handle_remove_identity, handle_remove_all, handle_kind, handle_msg,
  pageant_handle_msg,
}

module _ {algs : Algorithms} where
  -- The action leaves a store that is in order in order, whatever it comes to.
  abbrev pub Keeps : {A : Type 0} → Action (Server algs) A → Type 0
  Keeps m = (t : Server algs) → IsStore t.keys → IsStore (m t).1.keys

  >>=-Keeps :
      {A : Type 0} (m : Action (Server algs) A) (f : A → Action (Server algs) (List ℕ))
      → Keeps m
      → ((a : A) → Keeps (f a))
      → Keeps (m >>= f)
  unfolding ◌>>=◌
  >>=-Keeps {A = A} m f h k t good = after (m t) (h t good)
    where
      after :
          (r : Result A × Server algs)
          → IsStore r.1.keys
          → IsStore ((◌>>=◌ {S = Server algs} (λ _. r) f) t).1.keys
      after (ok a, u) g = k a u g
      after (failed, u) g = g
      after (fault, u) g = g

  >>-Keeps :
      {A : Type 0} (m : Action (Server algs) A) (k : Action (Server algs) (List ℕ))
      → Keeps m
      → Keeps k
      → Keeps (m >> k)
  unfolding ◌>>◌
  >>-Keeps m k h g = >>=-Keeps m (λ _. k) h (λ _. g)

  fail_if-Keeps : (b : Bool) (k : Action (Server algs) (List ℕ)) → Keeps k → Keeps (fail_if b >> k)
  fail_if-Keeps true k = >>-Keeps (fail_if true) k (λ t g. g)
  fail_if-Keeps false k = >>-Keeps (fail_if false) k (λ t g. g)

  crash_if-Keeps :
      (b : Bool) (k : Action (Server algs) (List ℕ)) → Keeps k → Keeps (crash_if b >> k)
  crash_if-Keeps true k = >>-Keeps (crash_if true) k (λ t g. g)
  crash_if-Keeps false k = >>-Keeps (crash_if false) k (λ t g. g)

  lift-Keeps :
      {A : Type 0} (r : Result A) (f : A → Action (Server algs) (List ℕ))
      → ((a : A) → Keeps (f a))
      → Keeps (lift r >>= f)
  lift-Keeps r f = >>=-Keeps (lift r) f (λ t g. g)

  or_fail-Keeps :
      {A : Type 0} (o : Option A) (f : A → Action (Server algs) (List ℕ))
      → ((a : A) → Keeps (f a))
      → Keeps (or_fail o >>= f)
  or_fail-Keeps none f = >>=-Keeps (or_fail none) f (λ t g. g)
  or_fail-Keeps (some a) f = >>=-Keeps (or_fail (some a)) f (λ t g. g)

module _ {algs : Algorithms} (env : Surroundings algs) where
  identities-Keeps : Keeps (handle_request_identities env)
  unfolding handle_request_identities keystore_get_keys
  identities-Keeps =
      >>=-Keeps _ _ (λ t g. expire-IsStore env.now t.keys g) λ keys. fail_if-Keeps _ _ (λ t g. g)

  sign-Keeps : (src : List ℕ) → Keeps (handle_sign_request env src)
  unfolding handle_sign_request signer keystore_get_from_blob
  sign-Keeps src = lift-Keeps _ _ λ request.
      >>=-Keeps _ _ (λ t g. g)
        λ accepted. fail_if-Keeps _ _ (
          >>=-Keeps _ _ (λ t g. expire-IsStore env.now t.keys g)
            λ signature. crash_if-Keeps _ _ (λ t g. g))

  add-Keeps : (kind : Kind) (blob : List ℕ) → Keeps (handle_add_identity env kind blob)
  unfolding handle_add_identity
  add-Keeps kind blob = lift-Keeps _ _ λ key.
      >>=-Keeps _ _ (λ t g. g)
        λ accepted. fail_if-Keeps _ _ (
          >>=-Keeps _ _ (λ t g. g)
            λ exists. fail_if-Keeps _ _ (
              >>=-Keeps _ _ (λ t g. keystore_add-IsStore key t.keys g)
                λ added. fail_if-Keeps _ _ (λ t g. g)))

  remove-Keeps : (src : List ℕ) → Keeps (handle_remove_identity env src)
  unfolding handle_remove_identity
  remove-Keeps src = or_fail-Keeps _ _ λ first. lift-Keeps _ _ λ public_key.
      >>=-Keeps _ _ (λ t g. g)
        λ accepted. fail_if-Keeps _ _ (
          >>=-Keeps _ _ (λ t g. keystore_remove-IsStore env.now public_key t.keys g)
            λ removed t g. g)

  remove_all-Keeps : Keeps (handle_remove_all env)
  unfolding handle_remove_all keystore_remove_all
  remove_all-Keeps = >>-Keeps _ _ (λ t g. (tt, tt)) (λ t g. g)

  kind-Keeps : (kind : Kind) (left : ℕ) (mem : List ℕ) → Keeps (handle_kind env kind left mem)
  unfolding handle_kind
  kind-Keeps request_identities left mem = identities-Keeps
  kind-Keeps sign_request left mem = lift-Keeps _ _ sign-Keeps
  kind-Keeps add_identity left mem = lift-Keeps _ _ (add-Keeps add_identity)
  kind-Keeps add_id_constrained left mem = lift-Keeps _ _ (add-Keeps add_id_constrained)
  kind-Keeps remove_identity left mem = lift-Keeps _ _ remove-Keeps
  kind-Keeps remove_all_identities left mem = remove_all-Keeps
  kind-Keeps unknown left mem = λ t g. g

  handle_msg-Keeps : (msglen : ℕ) (mem : List ℕ) → Keeps (handle_msg env msglen mem)
  unfolding handle_msg
  handle_msg-Keeps msglen [] t good = elim (Bool-cases (msglen == 0)) [
    | inl e ↦ rw e good
    | inr e ↦ rw e good
  ]
  handle_msg-Keeps msglen (type ∷ mem) t good = elim (Bool-cases (msglen == 0)) [
    | inl e ↦ rw e good
    | inr e ↦ rw e (kind-Keeps (kind_of type) (msglen - 1) mem t good)
  ]

  pub pageant_handle_msg-IsStore :
      (request_len : ℕ) (mem : List ℕ) (s : Server algs)
      → IsStore s.keys
      → IsStore (pageant_handle_msg env request_len mem s).1.keys
  unfolding pageant_handle_msg
  pageant_handle_msg-IsStore request_len mem s good =
      let msglen = get_32bit_msb_first mem in
      elim (Bool-cases (ltb agent_max_msglen request_len)) [
        | inl e ↦ rw e good
        | inr e ↦ elim (Bool-cases (ltb (length mem) 4)) [
          | inl f ↦ rw (e, f) good
          | inr f ↦ elim (Bool-cases (ltb agent_max_msglen msglen)) [
            | inl g ↦ rw (e, f, g) good
            | inr g ↦ rw (e, f, g) (handle_msg-Keeps msglen (drop 4 mem) s good)
          ]
        ]
      ]

-- A step of the agent: a request in any surroundings, or the user's adding or removing of keys.
pub data Step {algs : Algorithms} (s : Server algs) : Server algs → Type 0 where
  request :
      (env : Surroundings algs) (request_len : ℕ) (mem : List ℕ)
      → Step s (pageant_handle_msg env request_len mem s).1
  user_adds : (key : Key algs) → Step s (record s { keys = (keystore_add key s.keys).1 })
  user_removes :
      (now : ℕ) (key : Key algs) → Step s (record s { keys = (keystore_remove now key s.keys).1 })
  user_removes_all : Step s (record s { keys = keystore_remove_all s.keys })

-- The servers that some steps lead to from one that has just started.
pub data Reachable {algs : Algorithms} : Server algs → Type 0 where
  started : (settings : Settings) → Reachable record { keys = []; settings = settings }
  stepped : {s t : Server algs} → Reachable s → Step s t → Reachable t

module _ {algs : Algorithms} where
  Step-IsStore : (s t : Server algs) → Step s t → IsStore s.keys → IsStore t.keys
  unfolding keystore_remove_all
  Step-IsStore s t (request env request_len mem) good =
      pageant_handle_msg-IsStore env request_len mem s good
  Step-IsStore s t (user_adds key) good = keystore_add-IsStore key s.keys good
  Step-IsStore s t (user_removes now key) good = keystore_remove-IsStore now key s.keys good
  Step-IsStore s t user_removes_all good = (tt, tt)

  -- In every state that the agent reaches from an empty key store, by requests of any bytes in
  -- any surroundings (settings, answers of the user, devices, times) and by the user's adding and
  -- removing of keys, no two stored keys compare equal and every stored key can be copied.
  pub Reachable-IsStore : (s : Server algs) → Reachable s → IsStore s.keys
  Reachable-IsStore s (started settings) = (tt, tt)
  Reachable-IsStore t (stepped {s = s} r x) = Step-IsStore s t x (Reachable-IsStore s r)
