-- ===== src/Agent/Handler/Cases.antt =====
-- What each case of the switch comes to.
use pageant.Base.{ℕ, ◌+◌, refl, List, ◌++◌, arith, length, length-append, inl, inr}
use pageant.Word32.{put_32bit_msb_first}
use pageant.Word32.Bytes.{msb-IsOrder}
use pageant.Agent.Action.{◌>>=◌, ◌>>◌}
use pageant.Agent.Keys.{Algorithms}
use pageant.Agent.Store.Distinct.{keystore_add-kept, keystore_remove-kept}
use pageant.Agent.Handler.Outcome.{
  Outcome, refused, >>=-Outcome, fail_if-Outcome, crash_if-Outcome, lift-Outcome, or_fail-Outcome,
  put-Outcome, short_reply-Outcome,
}
use pageant.Agent.Store.{keystore_get_keys, keystore_get_from_blob}
use pageant.Agent.Accept.{
  Kind, request_identities, sign_request, add_identity, add_id_constrained, remove_identity,
  remove_all_identities, unknown,
}
use pageant.Agent.Signer.{signer}
use pageant.Agent.Handler.{
  Server, Surroundings, make_pubkey_blob, handle_request_identities, sign_reply,
  handle_sign_request, handle_add_identity, handle_remove_identity, handle_remove_all, handle_kind,
}

module _ {algs : Algorithms} (env : Surroundings algs) (s : Server algs) where
  pub identities-Outcome : Outcome env.now s (handle_request_identities env s)
  unfolding handle_request_identities keystore_get_keys
  identities-Outcome =
      >>=-Outcome _ _ _ (λ e. inr refl)
        λ keys e.
          fail_if-Outcome _ _ _ (λ _. inr refl)
            λ short.
              put-Outcome _ 12 (make_pubkey_blob keys) _ (omega arith) (ground arith)
                (λ c. absurd (omega arith))

  pub sign-Outcome : (src : List ℕ) → Outcome env.now s (handle_sign_request env src s)
  unfolding handle_sign_request sign_reply signer keystore_get_from_blob
  sign-Outcome src = lift-Outcome _ _ _ (inl refl) λ request.
      >>=-Outcome _ _ _ (λ e. inl refl)
        λ accepted e.
          fail_if-Outcome _ _ _ (λ _. inl refl)
            λ agreed.
              >>=-Outcome _ _ _ (λ f. inr refl)
                λ signature f. crash_if-Outcome _ _ _ λ fits.
                  let n = length-append (put_32bit_msb_first (length signature)) signature in
                  let l = msb-IsOrder.length-put (length signature) in
                  put-Outcome (5 + length signature) 14
                    (put_32bit_msb_first (length signature) ++ signature) _ (omega (arith, n, l))
                    (ground (arith, n, l, fits)) (λ c. absurd (omega arith))

  pub add-Outcome :
      (kind : Kind) (blob : List ℕ) → Outcome env.now s (handle_add_identity env kind blob s)
  unfolding handle_add_identity
  add-Outcome kind blob = lift-Outcome _ _ _ (inl refl) λ key.
      >>=-Outcome _ _ _ (λ e. inl refl)
        λ accepted e.
          fail_if-Outcome _ _ _ (λ _. inl refl)
            λ agreed.
              >>=-Outcome _ _ _ (λ f. inl refl)
                λ exists f.
                  fail_if-Outcome _ _ _ (λ _. inl refl)
                    λ new.
                      >>=-Outcome _ _ _
                        (λ f. elim (keystore_add-kept key s.keys) [
                          | inl g ↦ absurd (cc (f, g))
                          | inr g ↦ inl g
                        ])
                        λ added f.
                          fail_if-Outcome _ _ _
                            (λ e. elim (keystore_add-kept key s.keys) [
                              | inl g ↦ absurd (ground (arith, e, f, g))
                              | inr g ↦ inl g
                            ])
                            λ done. short_reply-Outcome 6 _ (λ c. absurd (omega arith))

  pub remove-Outcome : (src : List ℕ) → Outcome env.now s (handle_remove_identity env src s)
  unfolding handle_remove_identity
  remove-Outcome src = or_fail-Outcome _ _ _ (inl refl) λ first.
      lift-Outcome _ _ _ (inl refl) λ public_key.
        >>=-Outcome _ _ _ (λ e. inl refl)
          λ accepted e.
            fail_if-Outcome _ _ _ (λ _. inl refl)
              λ agreed.
                >>=-Outcome _ _ _
                  (λ f. elim (keystore_remove-kept env.now public_key s.keys) [
                    | inl g ↦ absurd (cc (f, g))
                    | inr g ↦ inr g
                  ])
                  λ removed f. short_reply-Outcome _ _ λ c.
                    elim (keystore_remove-kept env.now public_key s.keys) [
                      | inl g ↦ absurd (ground (arith, c, f, g))
                      | inr g ↦ inr g
                    ]

  remove_all-Outcome : Outcome env.now s (handle_remove_all env s)
  unfolding handle_remove_all ◌>>◌ ◌>>=◌
  remove_all-Outcome = short_reply-Outcome 6 _ (λ c. absurd (omega arith))

  pub kind-Outcome :
      (kind : Kind) (left : ℕ) (mem : List ℕ) → Outcome env.now s (handle_kind env kind left mem s)
  unfolding handle_kind
  kind-Outcome request_identities left mem = identities-Outcome
  kind-Outcome sign_request left mem = lift-Outcome _ _ _ (inl refl) λ src. sign-Outcome src
  kind-Outcome add_identity left mem =
      lift-Outcome _ _ _ (inl refl) λ blob. add-Outcome add_identity blob
  kind-Outcome add_id_constrained left mem =
      lift-Outcome _ _ _ (inl refl) λ blob. add-Outcome add_id_constrained blob
  kind-Outcome remove_identity left mem = lift-Outcome _ _ _ (inl refl) λ src. remove-Outcome src
  kind-Outcome remove_all_identities left mem = remove_all-Outcome
  kind-Outcome unknown left mem = refused (inl refl)
