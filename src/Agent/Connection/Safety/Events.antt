-- ===== src/Agent/Connection/Safety/Events.antt =====
-- An entry stays in order whatever happens to its socket.
use pageant.Base.{
  ℕ, suc, ◌+◌, ◌≤◌, ◌<◌, min, Bool, true, false, not, ◌≡◌, refl, ap, inl, inr, some, none, List, [],
  arith, ◌==◌, ◌||◌, length, drop, length-take, if◌then◌else◌, Bool-cases,
}
use pageant.Agent.Action.{Result, ok, failed, fault, Action, pure, ◌>>=◌}
use pageant.Agent.Keys.{Algorithms}
use pageant.Agent.Handler.{Server, Surroundings}
use pageant.Agent.Connection.{
  Window, ClientData, NotifyParam, no_window, ssh_agent_server, on_send, send,
}
use pageant.Agent.Connection.Socket.{
  Entry, close_server, take_over, moved, advance, call_server, received, receive, is_empty,
  same_window, transmit, sent, expired, broken, pending,
}
use pageant.Agent.Connection.Safety.{Event, arrival, departure, lapse, breakage, happen, IsHeld}
use pageant.Agent.Connection.Safety.Reading.{Keeps, pure-Keeps, received-Keeps}

if-Keeps :
    {S A : Type 0} (b : Bool) (m n : Action S A) (f : A → Action S Entry) (s : S)
    → (b ≡ true → Keeps ((m >>= f) s))
    → (b ≡ false → Keeps ((n >>= f) s))
    → Keeps (((if b then m else n) >>= f) s)
if-Keeps true m n f s h k = h refl
if-Keeps false m n f s h k = k refl

pub branch-Keeps :
    {S : Type 0} (b : Bool) (m n : Action S Entry) (s : S)
    → (b ≡ true → Keeps (m s))
    → (b ≡ false → Keeps (n s))
    → Keeps ((if b then m else n) s)
branch-Keeps true m n s h k = h refl
branch-Keeps false m n s h k = k refl

beside-Keeps :
    {S X : Type 0} (m : Action S Entry) (x : X) (s : S)
    → Keeps (m s)
    → Keeps (((m >>= λ p. pure (x, p)) >>= λ (y, p). pure p) s)
unfolding ◌>>=◌
beside-Keeps {S = S} m x s k = after (m s) k
  where
    after :
        (r : Result Entry × S)
        → Keeps r
        → Keeps ((◌>>=◌ {S = S} (◌>>=◌ {S = S} (λ _. r) λ p. pure (x, p)) λ (y, p). pure p) s)
    after (ok p, t) k = k
    after (failed, t) k = λ q f. absurd (cc)
    after (fault, t) k = λ q f. absurd (cc)

pub differ : {b : Bool} → b ≡ false → b ≡ true → ⊥
differ e f = cc

idle-writing :
    {me : ClientData} {w : Bool} {s r : Window} → IsHeld me w s r → is_empty r ≡ false → w ≡ false
idle-writing {w = w} held e = elim (Bool-cases w) [
  | inl t ↦ absurd (differ e (held.sending t).deaf)
  | inr f ↦ f
]

quiet : (b w : Bool) → w ≡ false → (if b then w else false) ≡ false
quiet true w e = e
quiet false w e = refl

module _ {algs : Algorithms} (env : Surroundings algs) (s : Server algs) where
  pub arrival-Keeps :
      (clock most : ℕ) (stream : List ℕ) (me : ClientData) (p : Entry)
      → p.data' ≡ some me
      → p.shutdown_receive ≡ false
      → IsHeld me p.writing p.send_window p.recv_window
      → Keeps ((receive env clock most stream p >>= λ (left, p'). pure p') s)
  unfolding receive moved ◌>>=◌
  arrival-Keeps clock most stream me p d h held =
      let chunk = moved most p.recv_window stream in
      let l = length-take (min (suc most) p.recv_window.size) stream in
      let n : Action (Server algs) (List ℕ × Entry) =
        received env clock chunk p >>= λ p'. pure (drop (length chunk) stream, p') in
      if-Keeps (is_empty p.recv_window) (pure (stream, p)) n (λ (left, p'). pure p') s
        (λ e. pure-Keeps p s (inr (me, d, h, held)))
        λ e. elim held.window [
          | inl f ↦ absurd (differ e f)
          | inr f ↦ beside-Keeps (received env clock chunk p) (drop (length chunk) stream) s (
              received-Keeps env clock chunk me p s d h (idle-writing held e) f
                (omega (arith, l, ap (λ (w : Window). w.size) f)) held)
        ]

  emptied-Keeps :
      (clock : ℕ) (me : ClientData) (p : Entry)
      → p.data' ≡ some me
      → p.shutdown_receive ≡ false
      → p.writing ≡ false
      → length me.recv_buf ≡ me.buf_size
      → 0 < me.buf_size
      → Keeps (call_server env clock send p s)
  unfolding call_server ssh_agent_server on_send take_over is_empty ◌>>=◌
  emptied-Keeps clock me p d h w sized roomy =
      let notify : NotifyParam = record {
        recv_window = no_window;
        send_window = p.send_window;
        wait = p.deadline;
      } in
      let answer = on_send me notify in
      rw d (
        pure-Keeps (take_over clock p (some answer)) s (
          rw h (
            inr (
              answer.0,
              refl,
              refl,
              record {
                sized = sized;
                shared_out = omega arith;
                roomy = roomy;
                window = inr refl;
                sending = λ f.
                    absurd (differ (quiet (same_window no_window p.send_window) p.writing w) f);
              },
            ))))

  sent-Keeps :
      (clock j : ℕ) (me : ClientData) (p : Entry)
      → p.data' ≡ some me
      → p.shutdown_receive ≡ false
      → p.writing ≡ true
      → IsHeld me p.writing p.send_window p.recv_window
      → j ≤ p.send_window.size
      → Keeps (sent env clock j p s)
  unfolding sent advance
  sent-Keeps clock j me p d h w held l =
      let rest = advance j p.send_window in
      let idle : Entry = record p { send_window = rest; writing = false } in
      let busy : Entry = record p { send_window = rest } in
      branch-Keeps (rest.size == 0) (call_server env clock send idle) (pure busy) s
        (λ e.
          emptied-Keeps clock me idle d h refl held.sized
            (omega (arith, held.shared_out, held.roomy)))
        (λ e.
          let i = held.sending w in
          pure-Keeps busy s (
            inr (
              me,
              d,
              h,
              record {
                sized = held.sized;
                shared_out = held.shared_out;
                roomy = held.roomy;
                window = held.window;
                sending = λ f. record {
                  offset = i.offset + j;
                  from_there = rw i.from_there refl;
                  to_the_end = omega (arith, i.to_the_end, l);
                  something = ground (arith, e);
                  deaf = i.deaf;
                };
              },
            )))

  pub departure-Keeps :
      (clock most : ℕ) (me : ClientData) (p : Entry)
      → p.data' ≡ some me
      → p.shutdown_receive ≡ false
      → IsHeld me p.writing p.send_window p.recv_window
      → Keeps ((transmit env clock most p >>= λ (bytes, p'). pure p') s)
  unfolding transmit moved ◌>>=◌
  departure-Keeps clock most me p d h held =
      if-Keeps p.writing _ (pure ([], p)) (λ (bytes, p'). pure p') s
        (λ e.
          let chunk = moved most p.send_window (pending p) in
          let l = length-take (min (suc most) p.send_window.size) (pending p) in
          beside-Keeps (sent env clock (length chunk) p) chunk s
            (sent-Keeps clock (length chunk) me p d h e held (omega (arith, l))))
        (λ e. pure-Keeps p s (inr (me, d, h, held)))

  pub breakage-Keeps : (clock : ℕ) (p : Entry) → Keeps (broken env clock p s)
  unfolding broken call_server ssh_agent_server take_over close_server ◌>>=◌
  breakage-Keeps clock p = pure-Keeps (close_server (take_over clock p none)) s (inl refl)

  pub unused-Keeps : (e : Event) (p : Entry) → p.available ≡ false → Keeps (happen env e p s)
  unfolding happen expired
  unused-Keeps (arrival clock most stream) p a =
      branch-Keeps p.available _ (pure p) s (λ e. absurd (differ a e)) (λ e. pure-Keeps p s (inl a))
  unused-Keeps (departure clock most) p a =
      branch-Keeps p.available _ (pure p) s (λ e. absurd (differ a e)) (λ e. pure-Keeps p s (inl a))
  unused-Keeps (lapse clock) p a =
      branch-Keeps (not p.available || (p.deadline == 0)) (pure p) _ s (λ e. pure-Keeps p s (inl a))
        (λ e. absurd (differ e (rw a refl)))
  unused-Keeps (breakage clock) p a =
      branch-Keeps p.available _ (pure p) s (λ e. absurd (differ a e)) (λ e. pure-Keeps p s (inl a))
