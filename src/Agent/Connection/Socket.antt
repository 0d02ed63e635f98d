-- ===== src/Agent/Connection/Socket.antt =====
-- One entry of the server's list: call_server of sock_server.c, and what sock_server_main does with the
-- entry. `recv` and `send` are the system's: one call moves at least a byte and at most the window, and
-- `most` chooses how much.
use pageant.Base.{
  ℕ, suc, ◌+◌, ◌-◌, min, Bool, true, false, not, ◌&&◌, ◌||◌, Option, none, some, List, [], ◌∷◌,
  ◌++◌, ltb, ◌==◌, if◌then◌else◌, length, take, drop,
}
use pageant.Agent.Action.{Action, pure, ◌>>=◌}
use pageant.Agent.Keys.{Algorithms}
use pageant.Agent.Handler.{Server, Surroundings}
use pageant.Agent.Connection.{
  Window, ClientData, Notification, connect, disconnect, close, recv, send, timeout, NotifyParam,
  no_window, ssh_agent_server,
}

-- An entry of the server's list; `data` is `none` before `connect` and after the data's deletion.
pub record Entry : Type 0 where
  pub available : Bool
  pub shutdown_receive : Bool
  pub reading : Bool
  pub writing : Bool
  pub send_window : Window
  pub recv_window : Window
  pub data' : Option ClientData
  pub deadline : ℕ

abbrev pub same_ptr : Option ℕ → Option ℕ → Bool
same_ptr none none = true
same_ptr none (some b) = false
same_ptr (some a) none = false
same_ptr (some a) (some b) = a == b

unfoldable pub is_empty : Window → Bool
is_empty w = same_ptr w.ptr none || (w.size == 0)

unfoldable pub same_window : Window → Window → Bool
same_window v w = same_ptr v.ptr w.ptr && (v.size == w.size)

-- close_server.
unfoldable pub close_server : Entry → Entry
close_server p = record p { available = false; reading = false; writing = false; data' = none }

-- What call_server takes over from the callback's answer; an answer that differs in nothing from what
-- the entry has needs no assignment.
unfoldable pub take_over : ℕ → Entry → Option (ClientData × NotifyParam) → Entry
unfolding close_server same_window is_empty
take_over clock p none = close_server p
take_over clock p (some (me, notify)) = record p {
  data' = some me;
  deadline = if p.deadline == notify.wait then p.deadline else clock + notify.wait;
  recv_window = if p.shutdown_receive then p.recv_window else notify.recv_window;
  send_window = notify.send_window;
  writing =
      if same_window notify.send_window p.send_window
      then p.writing
      else not (is_empty notify.send_window);
}

-- The socket moves `most + 1` bytes, or as many as the window or the stream has.
unfoldable pub moved : ℕ → Window → List ℕ → List ℕ
moved most w stream = take (min (suc most) w.size) stream

unfoldable pub advance : ℕ → Window → Window
advance n w = record { ptr = elim w.ptr [ none ↦ none | some p ↦ some (p + n) ]; size = w.size - n }

-- `bytes` written from `offset` on.
unfoldable pub overwrite : List ℕ → ℕ → List ℕ → List ℕ
overwrite buf offset bytes = take offset buf ++ (bytes ++ drop (offset + length bytes) buf)

unfoldable pub store : Window → List ℕ → Option ClientData → Option ClientData
unfolding overwrite
store w bytes none = none
store w bytes (some me) = elim w.ptr [
  | none ↦ some me
  | some offset ↦ some (record me { recv_buf = overwrite me.recv_buf offset bytes })
]

abbrev pub unsent : Option ClientData → Window → List ℕ
unsent none w = []
unsent (some me) w = elim w.ptr [ none ↦ [] | some offset ↦ take w.size (drop offset me.reply) ]

-- The bytes that wait to be sent.
unfoldable pub pending : Entry → List ℕ
pending p = unsent p.data' p.send_window

module _ {algs : Algorithms} (env : Surroundings algs) where
  unfoldable pub call_server : ℕ → Notification → Entry → Action (Server algs) Entry
  unfolding ssh_agent_server take_over
  call_server clock type p =
      ssh_agent_server env type p.data'
        (record { recv_window = no_window; send_window = p.send_window; wait = p.deadline })
      >>= λ answer. pure (take_over clock p answer)

  -- A connection that was accepted into a free entry.
  unfoldable pub accept : ℕ → Entry → Action (Server algs) Entry
  unfolding call_server
  accept clock p =
      call_server clock connect (record p {
        available = true;
        send_window = no_window;
        deadline = 0;
        data' = none;
        shutdown_receive = false;
      })
      >>= λ p'. pure (record p' { reading = true })

  -- What `recv` returned: no byte is the client's disconnection.
  unfoldable pub received : ℕ → List ℕ → Entry → Action (Server algs) Entry
  unfolding call_server advance store
  received clock [] p =
      call_server clock disconnect (record p { reading = false; shutdown_receive = true })
  received clock (b ∷ bs) p = call_server clock (recv (length (b ∷ bs))) (record p {
    data' = store p.recv_window (b ∷ bs) p.data';
    recv_window = advance (length (b ∷ bs)) p.recv_window;
  })

  -- A socket that can be read, with what the client has sent; what is left of that.
  unfoldable pub receive : ℕ → ℕ → List ℕ → Entry → Action (Server algs) (List ℕ × Entry)
  unfolding moved received is_empty
  receive clock most stream p =
      if is_empty p.recv_window
      then pure (stream, p)
      else let chunk = moved most p.recv_window stream in
        received clock chunk p >>= λ p'. pure (drop (length chunk) stream, p')

  -- An error of `recv` or of `send`.
  unfoldable pub broken : ℕ → Entry → Action (Server algs) Entry
  unfolding call_server close_server
  broken clock p = call_server clock close p >>= λ p'. pure (close_server p')

  -- What is done after `send` has taken `n` bytes.
  unfoldable pub sent : ℕ → ℕ → Entry → Action (Server algs) Entry
  unfolding call_server advance
  sent clock n p =
      let rest = advance n p.send_window in
      let done = call_server clock send (record p { send_window = rest; writing = false }) in
      if rest.size == 0 then done else pure (record p { send_window = rest })

  -- A socket that can be written; the bytes that left.
  unfoldable pub transmit : ℕ → ℕ → Entry → Action (Server algs) (List ℕ × Entry)
  unfolding pending sent moved
  transmit clock most p =
      if p.writing
      then (let chunk = moved most p.send_window (pending p) in
          sent clock (length chunk) p >>= λ p'. pure (chunk, p'))
      else pure ([], p)

  -- An entry when `select` has timed out.
  unfoldable pub expired : ℕ → Entry → Action (Server algs) Entry
  unfolding call_server
  expired clock p =
      if not p.available || (p.deadline == 0)
      then pure p
      else if ltb p.deadline clock
      then call_server clock timeout (record p { deadline = 0 })
      else pure p
