-- ===== src/Agent/Connection/Delivery.antt =====
-- What sock_server_main does with a message that comes in any pieces.
use pageant.Base.{
  ℕ, ◌+◌, ◌≤◌, min, true, false, ◌≡◌, refl, ap, ◌∙◌, Option, some, List, ◌∷◌, ◌++◌, arith, ◌==◌,
  length, length-append, inl, inr, ◌⊎◌, if◌then◌else◌,
}
use pageant.Agent.Action.{Result, ok, failed, fault, Action, pure, ◌>>=◌, >>=-first}
use pageant.Agent.Keys.{Algorithms}
use pageant.Agent.Handler.{Server, Surroundings, pageant_handle_msg}
use pageant.Agent.Handler.Outcome.{IsReply}
use pageant.Agent.Handler.Replies.{pageant_handle_msg-IsReply}
use pageant.Agent.Connection.{
  recv_timeout, connect_timeout, Window, ClientData, with_reply, await_more, on_recv,
  ssh_agent_server, smemclr,
}
use pageant.Agent.Connection.Socket.{
  Entry, take_over, advance, store, call_server, received, is_empty, same_window,
}
use pageant.Agent.Connection.Turns.{respond}
use pageant.Agent.Connection.Locality.{respond-append}
use pageant.Agent.Connection.Assembly.{
  collecting, listening, room, zeros, written, overwrite-zeros, grow-written, incomplete, complete,
  IsMessage, room-suc, drop-message, zeros-append,
}

-- A reply that is only carried on.
pub carried :
    {S A B C D : Type 0} (m : Action S A) (f : A → B) (g : B → C) (h : C → D) (s : S)
    → (((m >>= λ a. pure (f a)) >>= λ b. pure (g b)) >>= λ c. pure (h c)) s
      ≡ (m >>= λ a. pure (h (g (f a)))) s
unfolding ◌>>=◌
carried {S = S} {A = A} m f g h s = after (m s)
  where
    after :
        (r : Result A × S)
        → (◌>>=◌ {S = S}
              ((◌>>=◌ {S = S} (λ _. r) λ a. pure (f a)) >>= λ b. pure (g b))
              λ c. pure (h c))
            s
          ≡ (◌>>=◌ {S = S} (λ _. r) λ a. pure (h (g (f a)))) s
    after (ok a, t) = refl
    after (failed, t) = refl
    after (fault, t) = refl

-- Two ways to go on from a reply, equal on replies.
abbrev pub Replies : {S : Type 0} → Result (List ℕ) × S → Type 0
Replies r = (r.0 ≡ fault) ⊎ ((reply : List ℕ) × (r.0 ≡ ok reply) × IsReply reply)

pub reply-cong :
    {S B : Type 0} (m : Action S (List ℕ)) (f g : List ℕ → Action S B) (s : S)
    → Replies (m s)
    → ((reply : List ℕ) (t : S) → IsReply reply → f reply t ≡ g reply t)
    → (m >>= f) s ≡ (m >>= g) s
unfolding ◌>>=◌
reply-cong {S = S} {B = B} m f g s answered h = after (m s) answered
  where
    ok_inj : {a b : List ℕ} → ◌≡◌ {A = Result (List ℕ)} (ok a) (ok b) → a ≡ b
    ok_inj e = cc

    after :
        (r : Result (List ℕ) × S)
        → Replies r
        → (◌>>=◌ {S = S} {B = B} (λ _. r) f) s ≡ (◌>>=◌ {S = S} {B = B} (λ _. r) g) s
    after (ok a, t) (inl e) = absurd cc
    after (ok a, t) (inr (reply, e, i)) = h a t (rw (ok_inj e) i)
    after (failed, t) answered = refl
    after (fault, t) answered = refl

-- An entry that sends what is left of a reply from `offset` on.
abbrev pub answering : ℕ → ℕ → ℕ → List ℕ → ℕ → ℕ → ℕ → Entry
answering n k here reply offset left deadline = record {
  available = true;
  shutdown_receive = false;
  reading = true;
  writing = true;
  send_window = record { ptr = some offset; size = left };
  recv_window = record { ptr = some here; size = 0 };
  data' = some (record {
    recv_buf = zeros (n + k);
    buf_size = n + k;
    recv_size = n;
    left_size = k;
    reply = reply;
  });
  deadline = deadline;
}

abbrev pub wait_until : ℕ → ℕ → ℕ → ℕ
wait_until clock deadline wait = if deadline == wait then deadline else clock + wait

-- What the server keeps of an answer to the last bytes of a message.
answer-kept :
    (clock : ℕ) (message before : List ℕ) (k j : ℕ) (old reply : List ℕ) (deadline : ℕ)
    → (stored : Option ClientData) (w : Window) → IsReply reply
    → take_over clock
        (record (listening before j old deadline) { data' = stored; recv_window = w })
        (some (with_reply (collecting message k old) reply))
      ≡ answering
          (length message)
          k
          (length message)
          reply
          0
          (length reply)
          (wait_until clock deadline connect_timeout)
unfolding take_over with_reply smemclr same_window is_empty
answer-kept clock message before k j old reply deadline stored w i =
    let e : (length reply == 0) ≡ false = ground (arith, i.typed) in
    let l : min (length message) (length (message ++ zeros k)) ≡ length message =
      omega (arith, length-append message (zeros k)) in
    rw (e, l, drop-message message k, zeros-append (length message) k) refl

module _ {algs : Algorithms} (env : Surroundings algs) (s : Server algs) where
  -- More bytes of a message that is not complete yet.
  pub received_incomplete :
      (clock : ℕ) (got : List ℕ) (c : ℕ) (cs : List ℕ) (b : ℕ) (rest : List ℕ) (k : ℕ)
      → (reply : List ℕ) (deadline : ℕ) → IsMessage ((got ++ c ∷ cs) ++ b ∷ rest)
      → length (c ∷ cs) ≤ k
      → received env clock (c ∷ cs) (listening got k reply deadline) s ≡ (
        ok (
            listening
              (got ++ c ∷ cs)
              (room k (length (c ∷ cs)))
              reply
              (wait_until clock deadline recv_timeout)),
        s,
      )
  unfolding received call_server ssh_agent_server on_recv store ◌>>=◌ await_more take_over
      same_window
  received_incomplete clock got c cs b rest k reply deadline m h =
      rw
        (
          overwrite-zeros got (c ∷ cs) k,
          grow-written got (c ∷ cs) k reply h,
          incomplete (got ++ c ∷ cs) b rest (room k (length (c ∷ cs))) reply m,
        )
        refl

  -- The last bytes of a message.
  pub received_complete :
      (clock : ℕ) (got : List ℕ) (c : ℕ) (cs : List ℕ) (k : ℕ) (reply : List ℕ) (deadline : ℕ)
      → IsMessage (got ++ c ∷ cs)
      → length (c ∷ cs) ≤ k
      → received env clock (c ∷ cs) (listening got k reply deadline) s
        ≡ (respond env (got ++ c ∷ cs) >>= λ reply. pure (
              answering
                (length (got ++ c ∷ cs))
                (room k (length (c ∷ cs)))
                (length (got ++ c ∷ cs))
                reply
                0
                (length reply)
                (wait_until clock deadline connect_timeout)))
            s
  unfolding received call_server ssh_agent_server on_recv store
  received_complete clock got c cs k reply deadline m h =
      let message = got ++ c ∷ cs in
      let k' = room k (length (c ∷ cs)) in
      let buf = message ++ zeros k' in
      let stored = some (written got (c ∷ cs) k reply) in
      let window = advance (length (c ∷ cs)) (listening got k reply deadline).recv_window in
      let p : Entry = record (listening got k reply deadline) {
        data' = stored;
        recv_window = window;
      } in
      let handled = pageant_handle_msg env (length message) buf in
      let wait = wait_until clock deadline connect_timeout in
      let next : List ℕ → Action (Server algs) Entry =
        λ r. pure (answering (length message) k' (length message) r 0 (length r) wait) in
      let same : handled s ≡ respond env message s =
        ap (λ (n : ℕ). pageant_handle_msg env (length message) (message ++ zeros n) s)
          (room-suc k (length (c ∷ cs)))
        ∙ respond-append env s message _ m.typed m.counted in
      rw
        (
          overwrite-zeros got (c ∷ cs) k,
          grow-written got (c ∷ cs) k reply h,
          complete message k' reply m,
        )
        (carried handled (with_reply (collecting message k' reply)) some (take_over clock p) s
          ∙ (reply-cong handled _ next s (pageant_handle_msg-IsReply env s (length message) buf)
                (λ r t i.
                  ap (λ (p : Entry). (ok p, t))
                    (answer-kept clock message got k' k reply r deadline stored window i))
              ∙ >>=-first handled (respond env message) next s same))
