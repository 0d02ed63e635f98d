-- ===== src/Agent/Tests.antt =====
-- The agent with small keys: an algorithm whose key is a few bytes and whose signature is the key and
-- the data, and runs of the theorems with it.
mod Connection
use pageant.Base.{
  get_or, ◌<◌, ℕ, ◌+◌, true, false, ◌≡◌, ◌⊎◌, refl, Option, none, some, List, [], ◌∷◌, ◌++◌, arith,
  length, drop,
}
use pageant.Word32.{put_32bit_msb_first, get_32bit_msb_first}
use pageant.Agent.Action.{ok, failed, fault, ◌>>=◌, ◌>>◌}
use pageant.Agent.Keys.{
  rsa, alg_name, Algorithms, Key, public_blob, same_list, fresh, copyable, copy_key,
  parse_one_public_key, parse_one_private_key,
}
use pageant.Agent.Store.{expire, keystore_add, keystore_get_from_blob}
use pageant.Agent.Store.Distinct.{IsStore}
use pageant.Agent.Accept.{
  sign_request, add_identity, accepted, Settings, Desktop, setting_get_confirm_info,
  make_confirm_key_str, accept_agent_request,
}
use pageant.Agent.Signer.{Devices}
use pageant.Agent.Constraints.{constraints_loop, parse_constraints}
use pageant.Agent.Constraints.Parsing.{
  lifetime, encode, constrain, read_past, loop-enough, parse_constraints-encode,
}
use pageant.Agent.Handler.{
  Server, Surroundings, make_pubkey_blob, read_sign_request, handle_sign_request,
  handle_add_identity, kind_of, read_range, handle_remove_identity, short_reply, handle_kind,
  pageant_handle_msg,
}
use pageant.Agent.Handler.Outcome.{IsReply}
use pageant.Agent.Handler.Replies.{failure-Kept}
use pageant.Agent.Handler.Answers.{pageant_handle_msg_answers}
use pageant.Agent.Handler.Invariant.{request, user_adds, started, stepped, Reachable-IsStore}
use pageant.Agent.Handler.Consent.{asks, Denied, IsUnwilling, kind-Denied}
use pageant.Agent.Handler.Faults.{unknown_key-fault, malformed-fault, sign-unasked}
use pageant.Agent.Client.{pageant_get_keylist}
use pageant.Agent.Client.Keylist.{IsListable}
use pageant.Agent.Client.Listing.{query_agent, pageant_get_keylist-agent}

-- The private part of a message is one byte.
abbrev one_byte : List ℕ → Option (List ℕ × ℕ)
one_byte [] = none
one_byte (b ∷ bs) = some (b ∷ [], 1)

abbrev small : Algorithms
small = record {
  Material = List ℕ;
  newkey = λ alg blob. some (drop (4 + length (alg_name alg)) blob);
  openssh_createkey = λ alg bytes. one_byte bytes;
  blob_of = λ alg m. put_32bit_msb_first (length (alg_name alg)) ++ (alg_name alg ++ m);
  has_private = λ m. true;
  same_numbers = λ a b. same_list a b;
  sign = λ alg m text flags. m ++ text;
}

abbrev agreeing : Desktop
agreeing = record {
  fingerprint = λ blob. blob;
  dialog = λ kind print comment offer. record { cancelled = false; dont_ask_again = false };
}

abbrev cancelling : Desktop
cancelling = record {
  fingerprint = λ blob. blob;
  dialog = λ kind print comment offer. record { cancelled = true; dont_ask_again = false };
}

abbrev no_devices : Devices small
no_devices = record {
  smartcard_sign = λ key text flags. [];
  bt_enabled = false;
  bt_connect = λ comment. false;
  bt_handle_msg = λ message. none;
  rdp_enabled = false;
  rdp_send_receive = λ message. none;
}

abbrev at_noon : Surroundings small
at_noon = record { desktop = agreeing; devices = no_devices; now = 1000 }

abbrev unattended : Surroundings small
unattended = record { desktop = cancelling; devices = no_devices; now = 1000 }

abbrev no_settings : Settings
no_settings = record { verdicts = []; confirm_any_request = false }

abbrev work_key : Key small
work_key = record {
  alg = rsa;
  material = 3 ∷ [];
  comment = b'w' ∷ [];
  expiration_date = 0;
  confirmation_required = true;
}

abbrev old_key : Key small
old_key = record {
  alg = rsa;
  material = 4 ∷ [];
  comment = b'o' ∷ [];
  expiration_date = 10;
  confirmation_required = false;
}

abbrev with_key : Server small
with_key = record { keys = work_key ∷ []; settings = no_settings }

abbrev without_keys : Server small
without_keys = record { keys = []; settings = no_settings }

-- The key as it is read from its blob.
abbrev as_read : Key small → Key small
as_read key = fresh small rsa key.material []

abbrev work_blob : List ℕ
work_blob = 0 ∷ 0 ∷ 0 ∷ 7 ∷ (alg_name rsa ++ 3 ∷ [])

-- A request to add a key: the name, the private byte, an empty comment.
abbrev add_message : List ℕ
add_message = 0 ∷ 0 ∷ 0 ∷ 17 ∷ 17 ∷ 0 ∷ 0 ∷ 0 ∷ 7 ∷ (alg_name rsa ++ 5 ∷ 0 ∷ 0 ∷ 0 ∷ 0 ∷ 0 ∷ [])

Reachable-IsStore_example :
    IsStore
      (pageant_handle_msg at_noon 21 add_message
        record without_keys { keys = (keystore_add work_key []).1 }).1.keys
Reachable-IsStore_example =
    Reachable-IsStore _ (
      stepped (stepped (started no_settings) (user_adds work_key)) (request at_noon 21 add_message))

-- Removing a key that the store does not hold, which drops the expired one.
abbrev remove_message : List ℕ
remove_message = 0 ∷ 0 ∷ 0 ∷ 17 ∷ 18 ∷ 0 ∷ 0 ∷ 0 ∷ 12 ∷ work_blob

abbrev with_old : Server small
with_old = record { keys = old_key ∷ []; settings = no_settings }

with_old-IsStore : IsStore with_old.keys
with_old-IsStore = ((tt, tt), (unfold copyable in refl, tt))

pageant_handle_msg_answers_example :
    ((reply : List ℕ) × ((pageant_handle_msg at_noon 21 remove_message with_old).0 ≡ ok reply)
      × IsReply reply)
    ⊎ (((pageant_handle_msg at_noon 21 remove_message with_old).0 ≡ fault)
        × ((length remove_message < 5) ⊎ (asks (kind_of (get_or remove_message 4 0)) ≡ true)))
pageant_handle_msg_answers_example =
    pageant_handle_msg_answers at_noon with_old 21 remove_message with_old-IsStore

failed_to_remove :
    (pageant_handle_msg at_noon 21 remove_message with_old).0 ≡ ok (0 ∷ 0 ∷ 0 ∷ 1 ∷ 5 ∷ [])
unfolding pageant_handle_msg get_32bit_msb_first handle_kind kind_of ◌>>=◌ read_range
    handle_remove_identity parse_one_public_key ◌>>◌ accept_agent_request copy_key short_reply
    put_32bit_msb_first
failed_to_remove = refl

loop-enough_example :
    constraints_loop 9 1000 (1 ∷ 0 ∷ 0 ∷ 0 ∷ 60 ∷ 2 ∷ []) work_key
    ≡ some (parse_constraints 1000 (1 ∷ 0 ∷ 0 ∷ 0 ∷ 60 ∷ 2 ∷ []) work_key)
loop-enough_example = loop-enough 9 1000 (1 ∷ 0 ∷ 0 ∷ 0 ∷ 60 ∷ 2 ∷ []) work_key (omega arith)

parse_constraints-encode_example :
    parse_constraints 1000 (encode (lifetime 60 ∷ []) ++ 2 ∷ []) old_key
    ≡ ok (constrain 1000 ((lifetime 60 ∷ []) ++ read_past 2) old_key)
parse_constraints-encode_example =
    parse_constraints-encode 1000 (lifetime 60 ∷ []) 2 old_key (omega arith, tt)

malformed_add :
    handle_add_identity at_noon add_identity (0 ∷ 0 ∷ []) without_keys ≡ (fault, without_keys)
malformed_add = malformed-fault at_noon add_identity (0 ∷ 0 ∷ []) without_keys malformed
  where
    malformed : parse_one_private_key small (0 ∷ 0 ∷ []) ≡ failed
    malformed = unfold parse_one_private_key in refl

failure-Kept_example :
    ((pageant_handle_msg at_noon 21 remove_message with_old).1.keys ≡ with_old.keys)
    ⊎ ((pageant_handle_msg at_noon 21 remove_message with_old).1.keys ≡ expire 1000 with_old.keys)
failure-Kept_example = failure-Kept at_noon with_old 21 remove_message _ failed_to_remove refl

-- A user who only cancels.
cancelling-IsUnwilling : IsUnwilling cancelling no_settings
unfolding setting_get_confirm_info
cancelling-IsUnwilling = record {
  cancels = λ kind print comment offer. refl;
  not_remembered = λ name e. cc;
}

-- A request to sign two bytes with the key of `work_key`.
abbrev sign_source : List ℕ
sign_source = 0 ∷ 0 ∷ 0 ∷ 12 ∷ (work_blob ++ 0 ∷ 0 ∷ 0 ∷ 2 ∷ 8 ∷ 9 ∷ 0 ∷ 0 ∷ 0 ∷ 4 ∷ [])

kind-Denied_example : Denied with_key (handle_kind unattended sign_request 26 sign_source with_key)
kind-Denied_example =
    kind-Denied unattended sign_request 26 sign_source with_key (unfold asks in refl)
      cancelling-IsUnwilling

sign_source_read : read_sign_request small sign_source ≡ ok (as_read work_key, 8 ∷ 9 ∷ [], 4)
unfolding read_sign_request get_32bit_msb_first parse_one_public_key
sign_source_read = refl

agreed :
    accept_agent_request agreeing sign_request (as_read work_key) no_settings ≡ (true, no_settings)
unfolding accept_agent_request
agreed = refl

-- A store with `work_key` alone, which expired before noon.
abbrev late_server : Server small
late_server = record {
  keys = record work_key { expiration_date = 999 } ∷ [];
  settings = no_settings;
}

unknown_key-fault_example :
    handle_sign_request at_noon sign_source late_server
    ≡ (fault, record { keys = expire 1000 late_server.keys; settings = no_settings })
unknown_key-fault_example =
    unknown_key-fault at_noon sign_source (8 ∷ 9 ∷ []) 4 (as_read work_key) late_server no_settings
      sign_source_read agreed ((λ same. refl), tt)

-- Settings that remember the acceptance of `work_key`; the stored key asks for a confirmation of every use.
abbrev remembering : Settings
remembering = record {
  verdicts = (b'Q' ∷ b'U' ∷ b'E' ∷ b'R' ∷ b'Y' ∷ b':' ∷ (work_blob ++ 32 ∷ []), accepted) ∷ [];
  confirm_any_request = false;
}

abbrev remembered_server : Server small
remembered_server = record { keys = work_key ∷ []; settings = remembering }

is_remembered :
    setting_get_confirm_info
      (make_confirm_key_str agreeing sign_request (as_read work_key))
      remembering.verdicts
    ≡ some accepted
unfolding setting_get_confirm_info make_confirm_key_str same_list put_32bit_msb_first
is_remembered = refl

sign-unasked_example :
    handle_sign_request at_noon sign_source remembered_server
    ≡ handle_sign_request
        record at_noon { desktop = record agreeing { dialog = cancelling.dialog } }
        sign_source
        remembered_server
sign-unasked_example =
    sign-unasked at_noon sign_source (8 ∷ 9 ∷ []) 4 (as_read work_key) remembered_server
      cancelling.dialog sign_source_read is_remembered refl

work_blob_read : parse_one_public_key small work_blob ≡ ok (as_read work_key)
unfolding parse_one_public_key get_32bit_msb_first
work_blob_read = refl

work_key-IsListable : IsListable as_read work_key
unfolding put_32bit_msb_first
work_key-IsListable = (work_blob_read, unfold copyable in refl, omega arith, omega arith)

pageant_get_keylist-agent_example :
    pageant_get_keylist small (query_agent at_noon with_key) ≡ (ok tt, as_read work_key ∷ [])
pageant_get_keylist-agent_example =
    pageant_get_keylist-agent at_noon with_key as_read (work_key ∷ []) (unfold expire in refl)
      (unfold copyable in refl, tt) (work_key-IsListable, tt)
      (unfold make_pubkey_blob in unfold put_32bit_msb_first in omega arith)
