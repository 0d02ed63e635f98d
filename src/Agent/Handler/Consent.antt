-- ===== src/Agent/Handler/Consent.antt =====
-- What the user's consent decides: requests that nobody accepts, and requests that are not asked about.
use pageant.Base.{
  ℕ, Bool, true, false, not, ◌≡◌, ◌≢◌, refl, Option, none, some, List, arith, Option-cases, inl,
  inr,
}
use pageant.Agent.Action.{Result, ok, failed, fault, Action, ◌>>=◌, ◌>>◌, fail_if, or_fail}
use pageant.Agent.Keys.{Algorithms, Key}
use pageant.Agent.Accept.{
  Kind, request_identities, sign_request, add_identity, add_id_constrained, remove_identity,
  remove_all_identities, unknown, Verdict, accepted, refused, Settings, Desktop,
  setting_get_confirm_info, make_confirm_key_str, ask, accept_agent_request,
}
use pageant.Agent.Handler.{
  Server, Surroundings, on_settings, handle_sign_request, handle_add_identity,
  handle_remove_identity, handle_kind,
}

-- The requests that are asked about.
unfoldable pub asks : Kind → Bool
asks sign_request = true
asks add_identity = true
asks add_id_constrained = true
asks remove_identity = true
asks request_identities = false
asks remove_all_identities = false
asks unknown = false

-- No success, and the keys are those of before.
pub data Denied {algs : Algorithms} (s : Server algs) : Result (List ℕ) × Server algs → Type 0 where
  denied : {t : Server algs} → t.keys ≡ s.keys → Denied s (failed, t)
  crashed : {t : Server algs} → t.keys ≡ s.keys → Denied s (fault, t)

-- A user who cancels every dialog, and has not had the acceptance of any request remembered.
pub record IsUnwilling (desk : Desktop) (settings : Settings) : Type 0 where
  pub cancels :
      (kind : Kind) (print comment : List ℕ) (offer : Bool)
      → (desk.dialog kind print comment offer).cancelled ≡ true
  pub not_remembered :
      (name : List ℕ) → setting_get_confirm_info name settings.verdicts ≢ some accepted

module _ {algs : Algorithms} (s : Server algs) where
  >>=-Denied :
      {A : Type 0} (m : Action (Server algs) A) (f : A → Action (Server algs) (List ℕ))
      (t : Server algs)
      → (m t).1.keys ≡ s.keys
      → ((a : A) → (m t).0 ≡ ok a → Denied s (f a (m t).1))
      → Denied s ((m >>= f) t)
  unfolding ◌>>=◌
  >>=-Denied {A = A} m f t h k = after (m t) h k
    where
      after :
          (r : Result A × Server algs)
          → r.1.keys ≡ s.keys
          → ((a : A) → r.0 ≡ ok a → Denied s (f a r.1))
          → Denied s ((◌>>=◌ {S = Server algs} (λ _. r) f) t)
      after (ok a, u) g n = n a refl
      after (failed, u) g n = denied g
      after (fault, u) g n = crashed g

  or_fail-Denied :
      {A : Type 0} (o : Option A) (f : A → Action (Server algs) (List ℕ))
      → ((a : A) → Denied s (f a s))
      → Denied s ((or_fail o >>= f) s)
  or_fail-Denied none f k = >>=-Denied (or_fail none) f s refl (λ a e. k a)
  or_fail-Denied (some a) f k = >>=-Denied (or_fail (some a)) f s refl (λ b e. k b)

  fail_if-Denied :
      (b : Bool) (k : Action (Server algs) (List ℕ)) (t : Server algs)
      → t.keys ≡ s.keys
      → (b ≡ false → Denied s (k t))
      → Denied s ((fail_if b >> k) t)
  unfolding ◌>>◌ ◌>>=◌
  fail_if-Denied true k t h n = denied h
  fail_if-Denied false k t h n = n refl

module _ {algs : Algorithms} (env : Surroundings algs) where
  accept-unwilling :
      (kind : Kind) (key : Key algs) (settings : Settings)
      → IsUnwilling env.desktop settings
      → (accept_agent_request env.desktop kind key settings).0 ≡ false
  unfolding accept_agent_request ask
  accept-unwilling kind key settings u =
      elim (Option-cases
        (setting_get_confirm_info (make_confirm_key_str env.desktop kind key) settings.verdicts)) [
          | inl e ↦ rw (accept_agent_request, e, u.cancels kind _ _ _) refl
          | inr (v, e) ↦ given v e
        ]
    where
      given :
          (v : Verdict)
          → setting_get_confirm_info (make_confirm_key_str env.desktop kind key) settings.verdicts
            ≡ some v
          → (accept_agent_request env.desktop kind key settings).0 ≡ false
      given accepted e = absurd (u.not_remembered _ e)
      given refused e = rw (accept_agent_request, e) refl

  asked-Denied :
      (kind : Kind) (key : Key algs) (k : Action (Server algs) (List ℕ)) (s : Server algs)
      → IsUnwilling env.desktop s.settings
      → Denied s (
          (on_settings (accept_agent_request env.desktop kind key) >>= λ yes.
          fail_if (not yes) >> k)
            s)
  asked-Denied kind key k s u =
      >>=-Denied s (on_settings (accept_agent_request env.desktop kind key)) _ s refl λ yes e.
        fail_if-Denied s (not yes) k _ refl λ agreed.
          let no = accept-unwilling kind key s.settings u in absurd (ground (arith, e, agreed, no))

  sign-Denied :
      (src : List ℕ) (s : Server algs)
      → IsUnwilling env.desktop s.settings
      → Denied s (handle_sign_request env src s)
  unfolding handle_sign_request
  sign-Denied src s u =
      >>=-Denied s _ _ _ refl λ request p. asked-Denied sign_request request.0 _ s u

  add-Denied :
      (kind : Kind) (blob : List ℕ) (s : Server algs)
      → IsUnwilling env.desktop s.settings
      → Denied s (handle_add_identity env kind blob s)
  unfolding handle_add_identity
  add-Denied kind blob s u = >>=-Denied s _ _ _ refl λ key p. asked-Denied kind key _ s u

  remove-Denied :
      (src : List ℕ) (s : Server algs)
      → IsUnwilling env.desktop s.settings
      → Denied s (handle_remove_identity env src s)
  unfolding handle_remove_identity
  remove-Denied src s u =
      or_fail-Denied s _ _ λ first.
        >>=-Denied s _ _ _ refl λ public_key p. asked-Denied remove_identity public_key _ s u

  -- For a user who cancels every dialog and has not had the acceptance of any request remembered,
  -- a request to sign, to add or to remove a key has no success, and the keys stay as they were.
  pub kind-Denied :
      (kind : Kind) (left : ℕ) (mem : List ℕ) (s : Server algs)
      → asks kind ≡ true
      → IsUnwilling env.desktop s.settings
      → Denied s (handle_kind env kind left mem s)
  unfolding handle_kind asks
  kind-Denied sign_request left mem s a u = >>=-Denied s _ _ s refl λ src e. sign-Denied src s u
  kind-Denied add_identity left mem s a u =
      >>=-Denied s _ _ s refl λ blob e. add-Denied add_identity blob s u
  kind-Denied add_id_constrained left mem s a u =
      >>=-Denied s _ _ s refl λ blob e. add-Denied add_id_constrained blob s u
  kind-Denied remove_identity left mem s a u =
      >>=-Denied s _ _ s refl λ src e. remove-Denied src s u
  kind-Denied request_identities left mem s a u = cc
  kind-Denied remove_all_identities left mem s a u = cc
  kind-Denied unknown left mem s a u = cc
