-- ===== src/Agent/Connection/Turns.antt =====
-- A client that sends a request, reads the whole reply and goes on: the events that sock_server_main sees
-- for its connection.
use pageant.Base.{ℕ, List, [], ◌∷◌, ◌++◌, length}
use pageant.Agent.Action.{Action, pure, ◌>>=◌}
use pageant.Agent.Keys.{Algorithms}
use pageant.Agent.Handler.{Server, Surroundings, pageant_handle_msg}
use pageant.Agent.Connection.Socket.{Entry, receive, transmit}

-- One request: what the agent runs in when it comes, its bytes, and for each `recv` and each `send`
-- the time and how many bytes more than one the system is ready to move.
pub record Turn (algs : Algorithms) : Type 0 where
  pub env : Surroundings algs
  pub message : List ℕ
  pub arrivals : List (ℕ × ℕ)
  pub departures : List (ℕ × ℕ)

module _ {algs : Algorithms} (env : Surroundings algs) where
  -- What the client has sent is read; what is left of it.
  unfoldable pub take_in : List (ℕ × ℕ) → List ℕ → Entry → Action (Server algs) (List ℕ × Entry)
  unfolding receive
  take_in [] stream p = pure (stream, p)
  take_in (a ∷ arrivals) [] p = pure ([], p)
  take_in ((clock, most) ∷ arrivals) (b ∷ bs) p =
      receive env clock most (b ∷ bs) p >>= λ (stream, p'). take_in arrivals stream p'

  -- The bytes that are sent.
  unfoldable pub send_out : List (ℕ × ℕ) → Entry → Action (Server algs) (List ℕ × Entry)
  unfolding transmit
  send_out [] p = pure ([], p)
  send_out ((clock, most) ∷ departures) p = transmit env clock most p >>= λ (bytes, p').
      send_out departures p' >>= λ (more, p''). pure (bytes ++ more, p'')

  -- The handler on a whole message. Behind it the buffer holds a zero.
  unfoldable pub respond : List ℕ → Action (Server algs) (List ℕ)
  unfolding pageant_handle_msg
  respond message = pageant_handle_msg env (length message) (message ++ 0 ∷ [])

module _ {algs : Algorithms} where
  -- What the client reads, turn by turn.
  unfoldable pub converse : List (Turn algs) → Entry → Action (Server algs) (List (List ℕ))
  unfolding take_in send_out
  converse [] p = pure []
  converse (t ∷ ts) p = take_in t.env t.arrivals t.message p >>= λ (left, p').
      send_out t.env t.departures p' >>= λ (bytes, p'').
      converse ts p'' >>= λ more. pure (bytes ∷ more)

  -- The handler's replies, one after the other.
  unfoldable pub respond_all : List (Turn algs) → Action (Server algs) (List (List ℕ))
  unfolding respond
  respond_all [] = pure []
  respond_all (t ∷ ts) =
      respond t.env t.message >>= λ reply. respond_all ts >>= λ more. pure (reply ∷ more)
