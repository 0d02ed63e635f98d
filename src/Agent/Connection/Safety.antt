-- ===== src/Agent/Connection/Safety.antt =====
-- What holds of an entry between any two events: the windows lie in their buffers.
mod Reading
mod Events
mod Lapse
pub mod Runs
use pageant.Base.{
  ℕ, zero, suc, ◌+◌, ◌-◌, ◌≤◌, ◌<◌, min, Bool, true, false, not, ◌≡◌, ◌≢◌, refl, sym, ap, ◌∙◌, ◌⊎◌,
  inl, inr, Option, some, none, List, [], ◌∷◌, ◌++◌, arith, ltb, ◌==◌, ◌||◌, length, take, drop,
  replicate, length-append, length-take, length-drop, length-replicate, if◌then◌else◌, Bool-cases,
}
use pageant.Agent.Action.{Result, ok, failed, fault, Action, pure, ◌>>=◌}
use pageant.Agent.Keys.{Algorithms}
use pageant.Agent.Handler.{Server, Surroundings, pageant_handle_msg}
use pageant.Agent.Handler.Outcome.{IsReply}
use pageant.Agent.Handler.Replies.{pageant_handle_msg-IsReply}
use pageant.Agent.Connection.{
  recv_buf_size, Window, ClientData, NotifyParam, no_window, is_complete, grow, with_reply,
  await_more, smemclr, on_recv, ssh_agent_server, on_send, on_timeout, on_connect, recv, send,
}
use pageant.Agent.Connection.Socket.{
  Entry, close_server, take_over, moved, advance, overwrite, store, call_server, received, receive,
  is_empty, same_window, transmit, sent, expired, broken, accept, pending,
}
use pageant.Agent.Connection.Delivery.{carried}
use pageant.Agent.Connection.Timeouts.{same_window_self}

-- What can happen to the socket of an entry.
pub data Event : Type 0 where
  arrival : ℕ → ℕ → List ℕ → Event
  departure : ℕ → ℕ → Event
  lapse : ℕ → Event
  breakage : ℕ → Event

module _ {algs : Algorithms} (env : Surroundings algs) where
  -- The loop over the list skips an entry that is not in use.
  unfoldable pub happen : Event → Entry → Action (Server algs) Entry
  unfolding receive transmit expired broken
  happen (arrival clock most stream) p =
      if p.available then (receive env clock most stream p >>= λ (left, p'). pure p') else pure p
  happen (departure clock most) p =
      if p.available then (transmit env clock most p >>= λ (bytes, p'). pure p') else pure p
  happen (lapse clock) p = expired env clock p
  happen (breakage clock) p = if p.available then broken env clock p else pure p

  unfoldable pub happen_all : List Event → Entry → Action (Server algs) Entry
  unfolding happen
  happen_all [] p = pure p
  happen_all (e ∷ es) p = happen e p >>= happen_all es

-- What is sent lies in the reply, and nothing is received meanwhile.
pub record IsSending (reply : List ℕ) (send_window recv_window : Window) : Type 0 where
  pub offset : ℕ
  pub from_there : send_window.ptr ≡ some offset
  pub to_the_end : offset + send_window.size ≡ length reply
  pub something : 0 < send_window.size
  pub deaf : is_empty recv_window ≡ true

-- The buffer has its size and room for more, and what is received goes behind what has come.
pub record IsHeld (me : ClientData) (writing : Bool) (send_window recv_window : Window)
    : Type 0 where
  pub sized : length me.recv_buf ≡ me.buf_size
  pub shared_out : me.recv_size + me.left_size ≡ me.buf_size
  pub roomy : 0 < me.left_size
  pub window :
      (is_empty recv_window ≡ true)
      ⊎ (recv_window ≡ record { ptr = some me.recv_size; size = me.left_size })
  pub sending : writing ≡ true → IsSending me.reply send_window recv_window

abbrev pub IsSound : Entry → Type 0
IsSound p =
    (p.available ≡ false)
    ⊎ ((me : ClientData) × (p.data' ≡ some me)
        × (p.shutdown_receive ≡ false)
        × IsHeld me p.writing p.send_window p.recv_window)
