-- ===== src/Agent/Tests/Connection.antt =====
-- Runs of the theorems on one client's connection, with the small keys.
use pageant.Base.{
  ℕ, ◌<◌, true, false, ◌≡◌, ◌⊎◌, refl, none, some, List, [], ◌∷◌, arith, replicate,
  length-replicate,
}
use pageant.Word32.{get_32bit_msb_first, put_32bit_msb_first}
use pageant.Agent.Action.{Result, ok, failed, fault, ◌>>=◌, ◌>>◌}
use pageant.Agent.Handler.{
  handle_kind, kind_of, handle_request_identities, make_pubkey_blob, short_reply,
}
use pageant.Agent.Keys.{copy_key}
use pageant.Agent.Connection.{ClientData, no_window}
use pageant.Agent.Connection.Socket.{Entry, accept, receive, expired}
use pageant.Agent.Connection.Turns.{Turn, converse, respond_all}
use pageant.Agent.Connection.Conversation.{IsServed, converse-respond_all}
use pageant.Agent.Connection.Timeouts.{IsLate, expired_lem}
use pageant.Agent.Connection.Safety.{Event, arrival, lapse, happen_all, IsSound}
use pageant.Agent.Connection.Safety.Runs.{happen_all-IsSound}
use pageant.Agent.Tests.{small, at_noon, with_key}

abbrev free_entry : Entry
free_entry = record {
  available = false;
  shutdown_receive = false;
  reading = false;
  writing = false;
  send_window = no_window;
  recv_window = no_window;
  data' = none;
  deadline = 0;
}

-- SSH2_AGENTC_REQUEST_IDENTITIES, which comes in two pieces, and a message of an unknown type.
abbrev listing : Turn small
listing = record {
  env = at_noon;
  message = 0 ∷ 0 ∷ 0 ∷ 1 ∷ 11 ∷ [];
  arrivals = (1, 1) ∷ (2, 9) ∷ (3, 0) ∷ (4, 0) ∷ (5, 0) ∷ [];
  departures = replicate 8192 (6, 3);
}

abbrev stranger : Turn small
stranger = record {
  env = at_noon;
  message = 0 ∷ 0 ∷ 0 ∷ 2 ∷ 99 ∷ 7 ∷ [];
  arrivals = (7, 99) ∷ (7, 99) ∷ (7, 99) ∷ (7, 99) ∷ (7, 99) ∷ (7, 99) ∷ [];
  departures = replicate 8192 (8, 0);
}

listing-IsServed : IsServed listing
unfolding get_32bit_msb_first
listing-IsServed = record {
  whole = record { typed = omega arith; counted = refl; fits = omega arith };
  comes = omega arith;
  goes = omega (arith, length-replicate {A = ℕ × ℕ} 8192 (6, 3));
}

stranger-IsServed : IsServed stranger
unfolding get_32bit_msb_first
stranger-IsServed = record {
  whole = record { typed = omega arith; counted = refl; fits = omega arith };
  comes = omega arith;
  goes = omega (arith, length-replicate {A = ℕ × ℕ} 8192 (8, 0));
}

converse-respond_all_example :
    (accept at_noon 0 free_entry >>= converse (listing ∷ stranger ∷ [])) with_key
    ≡ respond_all (listing ∷ stranger ∷ []) with_key
converse-respond_all_example =
    converse-respond_all at_noon 0 free_entry (listing ∷ stranger ∷ []) with_key refl
      (listing-IsServed, (stranger-IsServed, tt))

-- The replies in that conversation.
replies :
    (respond_all (listing ∷ stranger ∷ []) with_key).0
    ≡ ok (
        (0 ∷ 0 ∷ 0 ∷ 26 ∷ 12 ∷ 0 ∷ 0 ∷ 0 ∷ 1 ∷ 0 ∷ 0 ∷ 0 ∷ 12 ∷ 0 ∷ 0 ∷ 0 ∷ 7 ∷ 115 ∷ 115 ∷ 104 ∷ 45
          ∷ 114 ∷ 115 ∷ 97 ∷ 3 ∷ 0 ∷ 0 ∷ 0 ∷ 1 ∷ 119 ∷ [])
        ∷ (0 ∷ 0 ∷ 0 ∷ 1 ∷ 5 ∷ [])
        ∷ [])
unfolding respond_all ◌>>=◌ get_32bit_msb_first handle_kind kind_of handle_request_identities
    copy_key ◌>>◌ make_pubkey_blob put_32bit_msb_first short_reply
replies = refl

abbrev partly : List Event
partly = arrival 1 1 (0 ∷ 0 ∷ 0 ∷ 1 ∷ 11 ∷ []) ∷ lapse 9000 ∷ lapse 99000 ∷ []

abbrev entry_of : Result Entry → Entry
entry_of (ok p) = p
entry_of failed = free_entry
entry_of fault = free_entry

abbrev last_entry : Entry
last_entry = entry_of ((accept at_noon 0 free_entry >>= happen_all at_noon partly) with_key).0

partly_happens :
    ((accept at_noon 0 free_entry >>= happen_all at_noon partly) with_key).0 ≡ ok last_entry
unfolding accept happen_all ◌>>=◌
partly_happens = refl

happen_all-IsSound_example : IsSound last_entry
happen_all-IsSound_example =
    happen_all-IsSound at_noon 0 partly free_entry last_entry with_key refl partly_happens

-- Three bytes of a message have come.
abbrev begun : ClientData
begun = record {
  recv_buf = 0 ∷ 0 ∷ 0 ∷ 0 ∷ 0 ∷ [];
  buf_size = 5;
  recv_size = 3;
  left_size = 2;
  reply = [];
}

abbrev begun_entry : Entry
begun_entry = record {
  available = true;
  shutdown_receive = false;
  reading = true;
  writing = false;
  send_window = no_window;
  recv_window = record { ptr = some 3; size = 2 };
  data' = some begun;
  deadline = 10000;
}

begun-IsLate : IsLate 10001 begun begun_entry
begun-IsLate = record {
  open' = refl;
  receiving = refl;
  client = refl;
  armed = omega arith;
  passed = omega arith;
}

expired_lem_example :
    ((begun.recv_size ≡ 0)
      × (q : Entry) × (expired at_noon 10001 begun_entry with_key ≡ (ok q, with_key))
      × (q.available ≡ false)
      × (q.data' ≡ none))
    ⊎ ((0 < begun.recv_size)
        × (q : Entry) × (expired at_noon 10001 begun_entry with_key ≡ (ok q, with_key))
        × (q.available ≡ true)
        × (receive at_noon 10002 7 (1 ∷ 11 ∷ []) q with_key ≡ (ok (1 ∷ 11 ∷ [], q), with_key))
        × (r : Entry) × (expired at_noon 20002 q with_key ≡ (ok r, with_key))
        × (r.available ≡ false))
expired_lem_example =
    expired_lem at_noon with_key 10001 begun begun_entry 10002 7 20002 (1 ∷ 11 ∷ []) with_key
      begun-IsLate (omega arith)
