-- ===== src/Agent/Accept.antt =====
-- make_confirm_key_str and accept_agent_request of pageant.cpp: whether a request may go on, by the
-- settings and the confirmation dialog. The settings file and the dialog are the environment's.
use pageant.Base.{
  ℕ, Bool, true, false, not, ◌||◌, Option, none, some, List, [], ◌∷◌, ◌++◌, if◌then◌else◌,
}
use pageant.Agent.Keys.{Algorithms, Key, public_blob, same_list}

-- The types of requests that the switch of the handler tells apart.
pub data Kind : Type 0 where
  request_identities sign_request add_identity add_id_constrained remove_identity : Kind
  remove_all_identities unknown : Kind

abbrev pub label : Kind → List ℕ
label sign_request = b'Q' ∷ b'U' ∷ b'E' ∷ b'R' ∷ b'Y' ∷ b':' ∷ []
label add_identity = b'A' ∷ b'D' ∷ b'D' ∷ b':' ∷ []
label add_id_constrained = b'A' ∷ b'D' ∷ b'D' ∷ b':' ∷ []
label remove_identity = b'R' ∷ b'E' ∷ b'M' ∷ b'O' ∷ b'V' ∷ b'E' ∷ b':' ∷ []
label remove_all_identities =
    b'S' ∷ b'S' ∷ b'H' ∷ b'2' ∷ b'_' ∷ b'R' ∷ b'E' ∷ b'M' ∷ b'O' ∷ b'V' ∷ b'E' ∷ b'_' ∷ b'A' ∷ b'L'
    ∷ b'L' ∷ []
label request_identities = []
label unknown = []

pub data Verdict : Type 0 where
  accepted refused : Verdict

-- What the settings hold for the agent: the verdicts that the user asked to be remembered, by key
-- string, and `confirm/confirm_any_request`.
pub record Settings : Type 0 where
  pub verdicts : List (List ℕ × Verdict)
  pub confirm_any_request : Bool

unfoldable pub setting_get_confirm_info : List ℕ → List (List ℕ × Verdict) → Option Verdict
setting_get_confirm_info name [] = none
setting_get_confirm_info name ((n, v) ∷ rest) =
    let later = setting_get_confirm_info name rest in if same_list n name then some v else later

-- What the dialog returns: whether it was cancelled, and `dont_ask_again`.
pub record Answer : Type 0 where
  pub cancelled : Bool
  pub dont_ask_again : Bool

-- The dialog is shown the kind of request, the key's fingerprint and comment, and whether the user may
-- ask for the verdict to be remembered. `fingerprint` is ssh2_fingerprint_blob.
pub record Desktop : Type 0 where
  pub fingerprint : List ℕ → List ℕ
  pub dialog : Kind → List ℕ → List ℕ → Bool → Answer

module _ {algs : Algorithms} (desk : Desktop) where
  unfoldable pub make_confirm_key_str : Kind → Key algs → List ℕ
  make_confirm_key_str remove_all_identities key = label remove_all_identities
  make_confirm_key_str kind key =
      label kind ++ (desk.fingerprint (public_blob key) ++ 32 ∷ key.comment)

  -- The part after the settings have been read: the dialog, and the verdict that it leaves behind.
  unfoldable pub ask : Kind → Key algs → Bool → Settings → Bool × Settings
  ask kind key required s =
      let a = desk.dialog kind (desk.fingerprint (public_blob key)) key.comment (not required) in
      let v = if a.cancelled then refused else accepted in
      let remembered = record s { verdicts = (make_confirm_key_str kind key, v) ∷ s.verdicts } in
      (not a.cancelled, if a.dont_ask_again then remembered else s)

  unfoldable pub accept_agent_request : Kind → Key algs → Settings → Bool × Settings
  unfolding ask make_confirm_key_str setting_get_confirm_info
  accept_agent_request kind key s =
      let required = s.confirm_any_request || key.confirmation_required in
      elim (setting_get_confirm_info (make_confirm_key_str kind key) s.verdicts) [
        | some refused ↦ (false, s)
        | some accepted ↦ if required then ask kind key required s else (true, s)
        | none ↦ ask kind key required s
      ]
