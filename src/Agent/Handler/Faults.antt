-- ===== src/Agent/Handler/Faults.antt =====
-- Requests that are not asked about, and requests that end the process.
use pageant.Base.{
  ℕ, ◌+◌, ◌^◌, leb, Bool, true, false, ◌||◌, ◌≡◌, refl, sym, ap, ◌∙◌, Option, none, some, List, [],
  arith, ltb, length, drop, Bool-cases, Option-cases, inl, inr,
}
use pageant.Word32.{get_32bit_msb_first}
use pageant.Agent.Action.{
  Result, ok, failed, fault, and_then, pure, lift, ◌>>=◌, ◌>>◌, crash_if, >>=-ok, >>=-fault,
  fail_if-false,
}
use pageant.Agent.Wire.{rfc4251_string}
use pageant.Agent.Keys.{
  public_blob, Algorithms, Key, find_pubkey_alg_len, parse_one_public_key, fresh, Alg,
  parse_one_private_key, ckey_parse_private,
}
use pageant.Agent.Store.{expire}
use pageant.Agent.Store.Absent.{IsGone, get_from_blob-gone}
use pageant.Agent.Accept.{
  Kind, sign_request, accepted, Settings, Answer, Desktop, setting_get_confirm_info,
  make_confirm_key_str, accept_agent_request,
}
use pageant.Agent.Signer.{signer, sign_with, cert_is_certpath, starts_with}
use pageant.Agent.Handler.{
  Server, Surroundings, on_keys, on_settings, read_sign_request, sign_reply, handle_sign_request,
  read_new_key, handle_add_identity, agent_max_msglen,
}

module _ {algs : Algorithms} (env : Surroundings algs) where
  -- The key of a message asks for no confirmation.
  public_key-unconfirmed :
      (msg : List ℕ) (key : Key algs)
      → parse_one_public_key algs msg ≡ ok key
      → key.confirmation_required ≡ false
  unfolding parse_one_public_key
  public_key-unconfirmed msg key e = elim (Bool-cases (ltb (length msg) 4)) [
    | inl f ↦ absurd (refuted (rw f at e))
    | inr f ↦
        elim (Bool-cases
          (leb (2 ^ 31) (get_32bit_msb_first msg) || ltb (length msg) (get_32bit_msb_first msg))) [
            | inl g ↦ absurd (refuted (rw (f, g) at e))
            | inr g ↦
                found (find_pubkey_alg_len (get_32bit_msb_first msg) (drop 4 msg)) (rw (f, g) at e)
          ]
  ]
    where
      refuted : {A : Type 0} {a : A} → failed ≡ ok a → ⊥
      refuted e = cc

      created :
          (alg : Alg) (o : Option algs.Material)
          → elim o [ none ↦ failed | some m ↦ ok (fresh algs alg m []) ] ≡ ok key
          → key.confirmation_required ≡ false
      created alg none e = cc
      created alg (some m) e =
          let same : fresh algs alg m [] ≡ key = ground (arith, e) in
          ap (λ (k : Key algs). k.confirmation_required) (sym same)

      found :
          (r : Result Alg)
          → and_then r (λ alg. elim (algs.newkey alg msg) [
            | none ↦ failed
            | some m ↦ ok (fresh algs alg m [])
          ])
            ≡ ok key
          → key.confirmation_required ≡ false
      found (ok alg) e = created alg (algs.newkey alg msg) e
      found failed e = cc
      found fault e = cc

  -- A request to add a key that `parse_one_private_key` refuses is a fault, and changes nothing:
  -- the key that is not there is read.
  pub malformed-fault :
      (kind : Kind) (blob : List ℕ) (s : Server algs)
      → parse_one_private_key algs blob ≡ failed
      → handle_add_identity env kind blob s ≡ (fault, s)
  unfolding handle_add_identity
  malformed-fault kind blob s e =
      let r : read_new_key env kind blob ≡ fault = rw (read_new_key, ckey_parse_private, e) refl in
      >>=-fault (lift (read_new_key env kind blob)) _ s s (ap (λ (r : Result (Key algs)). (r, s)) r)

  -- What a request is, from the equation on its reading.
  request-unconfirmed :
      (src text : List ℕ) (flags : ℕ) (key : Key algs)
      → read_sign_request algs src ≡ ok (key, text, flags)
      → key.confirmation_required ≡ false
  unfolding read_sign_request
  request-unconfirmed src text flags key e = elim (Option-cases (rfc4251_string src 0)) [
    | inl f ↦ absurd (refuted (rw (read_sign_request, f) at e))
    | inr ((pos1, key_blob), f) ↦ elim (Option-cases (rfc4251_string src pos1)) [
      | inl g ↦ absurd (refuted (rw (read_sign_request, f, g) at e))
      | inr ((pos2, data_v), g) ↦ elim (Bool-cases (ltb (length src) (pos2 + 4))) [
        | inl h ↦ absurd (refuted (rw (read_sign_request, f, g, h) at e))
        | inr h ↦
            from key_blob data_v (get_32bit_msb_first (drop pos2 src))
              (parse_one_public_key algs key_blob) refl (rw (read_sign_request, f, g, h) at e)
      ]
    ]
  ]
    where
      refuted : {A : Type 0} {a : A} → failed ≡ ok a → ⊥
      refuted e = cc

      from :
          (blob data_v : List ℕ) (n : ℕ) (r : Result (Key algs))
          → parse_one_public_key algs blob ≡ r
          → and_then {B = Key algs × List ℕ × ℕ} r (λ k. ok (k, data_v, n)) ≡ ok (key, text, flags)
          → key.confirmation_required ≡ false
      from blob data_v n (ok k) f e =
          let same : k ≡ key = ground (arith, e) in public_key-unconfirmed blob key (f ∙ ap ok same)
      from blob data_v n failed f e = cc
      from blob data_v n fault f e = cc

  -- A request that goes on is what comes after the question.
  sign-after :
      (src text : List ℕ) (flags : ℕ) (key : Key algs) (s : Server algs) (settings : Settings)
      → read_sign_request algs src ≡ ok (key, text, flags)
      → accept_agent_request env.desktop sign_request key s.settings ≡ (true, settings)
      → handle_sign_request env src s
        ≡ (on_keys (signer env.devices env.now key text flags) >>= λ signature.
              crash_if (ltb agent_max_msglen (9 + length signature)) >> pure (sign_reply signature))
            (record s { settings = settings })
  unfolding handle_sign_request
  sign-after src text flags key s settings e a =
      let t : Server algs = record s { settings = settings } in
      >>=-ok (lift (read_sign_request algs src)) _ s s (key, text, flags)
        (ap (λ (r : Result (Key algs × List ℕ × ℕ)). (r, s)) e)
      ∙ >>=-ok (on_settings (accept_agent_request env.desktop sign_request key)) _ s t true
          (ap (λ (r : Bool × Settings). (ok r.0, record s { settings = r.1 })) a)
      ∙ fail_if-false _ t

  -- A request to sign that can be read and is accepted, with a blob that no unexpired key of the
  -- store has, is a fault: the signer goes on with a null key, whose empty comment leads to the
  -- branch that reads through it. The expired keys are dropped and the settings are those that
  -- the question leaves.
  pub unknown_key-fault :
      (src text : List ℕ) (flags : ℕ) (key : Key algs) (s : Server algs) (settings : Settings)
      → read_sign_request algs src ≡ ok (key, text, flags)
      → accept_agent_request env.desktop sign_request key s.settings ≡ (true, settings)
      → IsGone env.now (public_blob key) s.keys
      → handle_sign_request env src s
        ≡ (fault, record { keys = expire env.now s.keys; settings = settings })
  unfolding signer sign_with cert_is_certpath starts_with
  unknown_key-fault src text flags key s settings e a gone =
      let t : Server algs = record s { settings = settings } in
      let left : Server algs = record t { keys = expire env.now s.keys } in
      let f : on_keys (signer env.devices env.now key text flags) t ≡ (fault, left) =
        rw (get_from_blob-gone env.now (public_blob key) s.keys gone) refl in
      sign-after src text flags key s settings e a
      ∙ >>=-fault (on_keys (signer env.devices env.now key text flags)) _ t left f

accept-remembered :
    {algs : Algorithms} (desk : Desktop) (key : Key algs) (settings : Settings)
    → setting_get_confirm_info (make_confirm_key_str desk sign_request key) settings.verdicts
      ≡ some accepted
    → settings.confirm_any_request ≡ false
    → key.confirmation_required ≡ false
    → accept_agent_request desk sign_request key settings ≡ (true, settings)
unfolding accept_agent_request
accept-remembered desk key settings e c u = rw (accept_agent_request, e, c, u) refl

-- If the acceptance of a key's signing is remembered and `confirm_any_request` is off, a request
-- to sign with the key comes to the same with every dialog, whatever the stored key's own
-- confirmation flag is.
pub sign-unasked :
    {algs : Algorithms} (env : Surroundings algs) (src text : List ℕ) (flags : ℕ) (key : Key algs)
    (s : Server algs) (dialog : Kind → List ℕ → List ℕ → Bool → Answer)
    → read_sign_request algs src ≡ ok (key, text, flags)
    → setting_get_confirm_info
        (make_confirm_key_str env.desktop sign_request key)
        s.settings.verdicts
      ≡ some accepted
    → s.settings.confirm_any_request ≡ false
    → handle_sign_request env src s
      ≡ handle_sign_request (record env { desktop = record env.desktop { dialog = dialog } }) src s
unfolding make_confirm_key_str
sign-unasked env src text flags key s dialog e l c =
    let u = request-unconfirmed env src text flags key e in
    let desk = record env.desktop { dialog = dialog } in
    sign-after env src text flags key s s.settings e
      (accept-remembered env.desktop key s.settings l c u)
    ∙ sym (
        sign-after (record env { desktop = desk }) src text flags key s s.settings e
          (accept-remembered desk key s.settings l c u))
