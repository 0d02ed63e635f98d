-- ===== src/Agent/Connection.antt =====
-- One client of the agent: ssh_agent_server of ssh-agent_emu.cpp. A pointer into a buffer is an offset
-- into it.
pub mod Socket
pub mod Turns
mod Locality
pub mod Assembly
mod Delivery
mod Pieces
mod Departure
pub mod Conversation
pub mod Timeouts
pub mod Safety
use pageant.Base.{
  ℕ, zero, suc, ◌+◌, ◌-◌, ◌*◌, ◌%◌, ◌^◌, min, Bool, true, false, not, ◌&&◌, ◌||◌, Option, none,
  some, List, [], ◌∷◌, ◌++◌, ltb, leb, ◌==◌, if◌then◌else◌, length, take, drop, replicate,
}
use pageant.Word32.{get_32bit_msb_first}
use pageant.Agent.Action.{Result, ok, failed, fault, Action, pure, lift, ◌>>=◌, ◌>>◌}
use pageant.Agent.Wire.{to_size}
use pageant.Agent.Keys.{Algorithms}
use pageant.Agent.Handler.{Server, Surroundings, pageant_handle_msg}

abbrev pub recv_buf_size : ℕ
recv_buf_size = 512

abbrev pub recv_timeout : ℕ
recv_timeout = 10 * 1000

abbrev pub connect_timeout : ℕ
connect_timeout = 10 * 1000

-- A pointer and a size; `none` is NULL.
pub record Window : Type 0 where
  pub ptr : Option ℕ
  pub size : ℕ

-- echo_server_data_t, without the fields that are written and never read.
pub record ClientData : Type 0 where
  pub recv_buf : List ℕ
  pub buf_size : ℕ
  pub recv_size : ℕ
  pub left_size : ℕ
  pub reply : List ℕ

pub data Notification : Type 0 where
  connect : Notification
  disconnect : Notification
  close : Notification
  recv : ℕ → Notification
  send : Notification
  timeout : Notification

-- The part of sock_server_notify_param_st that is read back.
pub record NotifyParam : Type 0 where
  pub recv_window : Window
  pub send_window : Window
  pub wait : ℕ

abbrev pub no_window : Window
no_window = record { ptr = none; size = 0 }

-- The first four bytes of a message, and the four; `int` wraps.
unfoldable pub msglen : List ℕ → ℕ
msglen p = (4 + get_32bit_msb_first p) % 2 ^ 32

-- `me->recv_size >= len`, with `len` converted to `size_t`.
unfoldable pub is_complete : ClientData → Bool
unfolding msglen
is_complete me = leb 5 me.recv_size && leb (to_size (msglen me.recv_buf)) me.recv_size

unfoldable pub on_connect : NotifyParam → ClientData × NotifyParam
on_connect notify = (
  record {
    recv_buf = replicate recv_buf_size 0;
    buf_size = recv_buf_size;
    recv_size = 0;
    left_size = recv_buf_size;
    reply = [];
  },
  record {
    recv_window = record { ptr = some 0; size = recv_buf_size };
    send_window = no_window;
    wait = connect_timeout;
  },
)

-- The sizes after `n` bytes have come, and the buffer with room for more.
unfoldable pub grow : ℕ → ClientData → ClientData
grow n me =
    let left = me.left_size - n in
    if left == 0
    then record me {
      recv_buf = me.recv_buf ++ replicate recv_buf_size 0;
      buf_size = me.buf_size + recv_buf_size;
      recv_size = me.recv_size + n;
      left_size = recv_buf_size;
    }
    else record me { recv_size = me.recv_size + n; left_size = left }

unfoldable pub await_more : ClientData → NotifyParam → NotifyParam
await_more me notify = record notify {
  recv_window = record { ptr = some me.recv_size; size = me.left_size };
  wait = recv_timeout;
}

-- smemclr of the first `n` bytes.
unfoldable pub smemclr : ℕ → List ℕ → List ℕ
smemclr n buf = replicate (min n (length buf)) 0 ++ drop n buf

unfoldable pub with_reply : ClientData → List ℕ → ClientData × NotifyParam
unfolding smemclr
with_reply me reply = (
  record me { recv_buf = smemclr me.recv_size me.recv_buf; reply = reply },
  record {
    recv_window = record { ptr = some me.recv_size; size = 0 };
    send_window = record { ptr = some 0; size = length reply };
    wait = connect_timeout;
  },
)

unfoldable pub on_send : ClientData → NotifyParam → ClientData × NotifyParam
on_send me notify = (
  record me { recv_size = 0; left_size = me.buf_size; reply = replicate (length me.reply) 0 },
  record notify {
    recv_window = record { ptr = some 0; size = me.buf_size };
    send_window = no_window;
  },
)

-- `none` is `return 1`, after the client's data has been deleted.
unfoldable pub on_timeout : ClientData → NotifyParam → Option (ClientData × NotifyParam)
on_timeout me notify =
    if me.recv_size == 0
    then none
    else some (
      record me { recv_size = 0; left_size = me.buf_size },
      record notify { wait = connect_timeout },
    )

module _ {algs : Algorithms} (env : Surroundings algs) where
  unfoldable pub on_recv :
      ℕ → ClientData → NotifyParam → Action (Server algs) (ClientData × NotifyParam)
  unfolding grow await_more is_complete with_reply
  on_recv n me notify =
      let now = grow n me in
      if is_complete now
      then (pageant_handle_msg env now.recv_size now.recv_buf >>= λ reply.
          pure (with_reply now reply))
      else pure (now, await_more now notify)

  unfoldable pub ssh_agent_server :
      Notification
      → Option ClientData
      → NotifyParam
      → Action (Server algs) (Option (ClientData × NotifyParam))
  unfolding on_connect on_recv on_send on_timeout
  ssh_agent_server connect me notify = pure (some (on_connect notify))
  ssh_agent_server disconnect me notify = pure none
  ssh_agent_server close me notify = pure none
  ssh_agent_server (recv n) (some me) notify = on_recv n me notify >>= λ answer. pure (some answer)
  ssh_agent_server send (some me) notify = pure (some (on_send me notify))
  ssh_agent_server timeout (some me) notify = pure (on_timeout me notify)
  ssh_agent_server (recv n) none notify = lift fault
  ssh_agent_server send none notify = lift fault
  ssh_agent_server timeout none notify = lift fault
