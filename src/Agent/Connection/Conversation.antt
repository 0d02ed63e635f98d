-- ===== src/Agent/Connection/Conversation.antt =====
-- A connection answers every request in turn.
use pageant.Base.{
  ℕ, suc, ◌+◌, ◌-◌, ◌≤◌, false, ◌≡◌, refl, sym, ap, ◌∙◌, List, [], ◌∷◌, ◌++◌, arith, length, All,
}
use pageant.Agent.Action.{Result, ok, failed, fault, Action, pure, ◌>>=◌, >>=-ok, >>=-first}
use pageant.Agent.Keys.{Algorithms}
use pageant.Agent.Handler.{agent_max_msglen, Server, Surroundings}
use pageant.Agent.Handler.Outcome.{IsReply}
use pageant.Agent.Handler.Replies.{pageant_handle_msg-IsReply}
use pageant.Agent.Connection.{on_connect, ssh_agent_server}
use pageant.Agent.Connection.Socket.{Entry, take_over, call_server, accept, same_window}
use pageant.Agent.Connection.Turns.{Turn, take_in, send_out, respond, converse, respond_all}
use pageant.Agent.Connection.Assembly.{IsMessage, listening, zeros}
use pageant.Agent.Connection.Delivery.{answering, Replies, reply-cong}
use pageant.Agent.Connection.Pieces.{replying, take_in-Answers}
use pageant.Agent.Connection.Departure.{send_out-reply}

-- A whole message, and a socket that goes on moving bytes until the message and the reply are over.
pub record IsServed {algs : Algorithms} (t : Turn algs) : Type 0 where
  pub whole : IsMessage t.message
  pub comes : length t.message ≤ length t.arrivals
  pub goes : agent_max_msglen ≤ length t.departures

-- A step after a result that is handed on.
handed_on :
    {S A B C : Type 0} (m : Action S A) (f : A → B) (h : B → Action S C) (s : S)
    → ((m >>= λ a. pure (f a)) >>= h) s ≡ (m >>= λ a. h (f a)) s
unfolding ◌>>=◌
handed_on {S = S} {A = A} m f h s = after (m s)
  where
    after :
        (r : Result A × S)
        → (◌>>=◌ {S = S} (◌>>=◌ {S = S} (λ _. r) λ a. pure (f a)) h) s
          ≡ (◌>>=◌ {S = S} (λ _. r) λ a. h (f a)) s
    after (ok a, t) = refl
    after (failed, t) = refl
    after (fault, t) = refl

module _ {algs : Algorithms} where
  -- What follows the reading of a message.
  abbrev answer_on :
      Turn algs → List (Turn algs) → List ℕ × Entry → Action (Server algs) (List (List ℕ))
  answer_on t ts (left, p') = send_out t.env t.departures p' >>= λ (bytes, p'').
      converse ts p'' >>= λ more. pure (bytes ∷ more)

  -- The turns that follow answer as the handler does.
  abbrev Follows : List (Turn algs) → Type 0
  Follows ts =
      (k : ℕ) (reply : List ℕ) (deadline : ℕ) (s : Server algs)
      → converse ts (listening [] (suc k) reply deadline) s ≡ respond_all ts s

  answer_on-reply :
      (t : Turn algs) (ts : List (Turn algs)) (n left deadline : ℕ) (reply : List ℕ)
      → (s : Server algs) → IsServed t
      → Follows ts
      → IsReply reply
      → answer_on t ts (replying t.env s n (suc left) deadline reply) s
        ≡ (respond_all ts >>= λ more. pure (reply ∷ more)) s
  answer_on-reply t ts n left deadline reply s served follows i =
      let l = length reply - 1 in
      let c : length reply ≡ suc l = omega (arith, i.typed) in
      let k : n + suc left ≡ suc (n + left) = omega arith in
      let p = listening [] (suc (n + left)) (zeros (length reply)) deadline in
      let next : List ℕ × Entry → Action (Server algs) (List (List ℕ)) =
        λ (bytes, p''). converse ts p'' >>= λ more. pure (bytes ∷ more) in
      let cons : List (List ℕ) → Action (Server algs) (List (List ℕ)) =
        λ more. pure (reply ∷ more) in
      let out =
        send_out-reply t.env s t.departures n (suc left) n reply 0 l deadline (omega (arith, c))
          (omega (arith, c, i.fits, served.goes)) in
      let gone : send_out t.env t.departures
            (answering n (suc left) n reply 0 (length reply) deadline) s
          ≡ (ok (reply, p), s) =
        ap (λ (j : ℕ). send_out t.env t.departures (answering n (suc left) n reply 0 j deadline) s)
          c
        ∙ (out
            ∙ ap
                (λ (j : ℕ).
                  let r : Result (List ℕ × Entry) × Server algs =
                    (ok (reply, listening [] j (zeros (length reply)) deadline), s) in
                  r)
                k) in
      >>=-ok
        (send_out t.env t.departures (answering n (suc left) n reply 0 (length reply) deadline))
        next s s (reply, p) gone
      ∙ >>=-first (converse ts p) (respond_all ts) cons s
          (follows (n + left) (zeros (length reply)) deadline s)

  respond-Replies : (t : Turn algs) (s : Server algs) → Replies (respond t.env t.message s)
  unfolding respond
  respond-Replies t s = pageant_handle_msg-IsReply t.env s (length t.message) (t.message ++ 0 ∷ [])

  turn-Follows :
      (t : Turn algs) (ts : List (Turn algs)) → IsServed t → Follows ts → Follows (t ∷ ts)
  unfolding converse respond_all
  turn-Follows t ts served follows k reply deadline s = go t.message refl
    where
      go :
          (message : List ℕ)
          → t.message ≡ message
          → converse (t ∷ ts) (listening [] (suc k) reply deadline) s ≡ respond_all (t ∷ ts) s
      go [] e = absurd (omega (arith, served.whole.typed, ap length e))
      go (b ∷ bs) e =
          let n = length t.message in
          let read =
            take_in-Answers t.env s t.arrivals t.message served.whole [] b bs k reply deadline
              (sym e) (omega (arith, served.comes, ap length e)) in
          let p = listening [] (suc k) reply deadline in
          let f = replying t.env s n (suc read.0) read.1 in
          let answered : Action (Server algs) (List ℕ × Entry) =
            respond t.env t.message >>= λ r. pure (f r) in
          let spec : List ℕ → Action (Server algs) (List (List ℕ)) =
            λ r. respond_all ts >>= λ more. pure (r ∷ more) in
          >>=-first (take_in t.env t.arrivals t.message p) answered (answer_on t ts) s
            (ap (λ (m : List ℕ). take_in t.env t.arrivals m p s) e ∙ read.2)
          ∙ (handed_on (respond t.env t.message) f (answer_on t ts) s
              ∙ reply-cong (respond t.env t.message) (λ r. answer_on t ts (f r)) spec s
                  (respond-Replies t s)
                  (λ r u i. answer_on-reply t ts n read.0 read.1 r u served follows i))

  pub converse-Follows : (ts : List (Turn algs)) → All IsServed ts → Follows ts
  unfolding converse respond_all
  converse-Follows [] all = λ k reply deadline s. refl
  converse-Follows (t ∷ ts) (served, all) = turn-Follows t ts served (converse-Follows ts all)

  pub accept-listening :
      (env : Surroundings algs) (clock : ℕ) (p : Entry) (s : Server algs)
      → p.writing ≡ false
      → accept env clock p s ≡ (ok (listening [] 512 [] (clock + 10000)), s)
  unfolding accept call_server ssh_agent_server on_connect take_over same_window ◌>>=◌
  accept-listening env clock p s e = rw e refl

  -- A connection is accepted into an entry that sends nothing, and its client sends messages in
  -- turn, each of 5 to 2 ^ 31 - 1 bytes with a length word that counts the bytes behind it, and
  -- reads each reply; the socket is ready for as many calls of `recv` as the message has bytes
  -- and for AGENT_MAX_MSGLEN calls of `send`. Then the client is sent the replies of the handler
  -- to those messages with a zero behind each, run one after the other, and no other byte,
  -- however many bytes each call moves. Where the handler ends in a fault, so does the
  -- connection.
  pub converse-respond_all :
      (env : Surroundings algs) (clock : ℕ) (p : Entry) (ts : List (Turn algs)) (s : Server algs)
      → p.writing ≡ false
      → All IsServed ts
      → (accept env clock p >>= converse ts) s ≡ respond_all ts s
  converse-respond_all env clock p ts s e all =
      >>=-ok (accept env clock p) (converse ts) s s _ (accept-listening env clock p s e)
      ∙ converse-Follows ts all 511 [] (clock + 10000) s
