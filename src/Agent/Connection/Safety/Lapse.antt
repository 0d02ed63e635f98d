-- ===== src/Agent/Connection/Safety/Lapse.antt =====
-- An entry stays in order when it is late.
use pageant.Base.{ℕ, false, not, ◌≡◌, refl, inl, inr, some, arith, ltb, ◌==◌, ◌||◌, Bool-cases}
use pageant.Agent.Action.{pure, ◌>>=◌}
use pageant.Agent.Keys.{Algorithms}
use pageant.Agent.Handler.{Server, Surroundings}
use pageant.Agent.Connection.{
  ClientData, NotifyParam, no_window, ssh_agent_server, on_timeout, timeout,
}
use pageant.Agent.Connection.Socket.{Entry, close_server, take_over, call_server, is_empty, expired}
use pageant.Agent.Connection.Timeouts.{same_window_self}
use pageant.Agent.Connection.Safety.{IsHeld, IsSound}
use pageant.Agent.Connection.Safety.Reading.{Keeps, pure-Keeps}
use pageant.Agent.Connection.Safety.Events.{branch-Keeps}

module _ {algs : Algorithms} (env : Surroundings algs) (s : Server algs) where
  lapsed-IsSound :
      (clock : ℕ) (me : ClientData) (p : Entry)
      → p.shutdown_receive ≡ false
      → IsHeld me p.writing p.send_window p.recv_window
      → IsSound (
          take_over clock p (
            on_timeout me
              (record { recv_window = no_window; send_window = p.send_window; wait = p.deadline })))
  unfolding on_timeout take_over close_server is_empty
  lapsed-IsSound clock me p h held = elim (Bool-cases (me.recv_size == 0)) [
    | inl z ↦ rw z (inl refl)
    | inr z ↦
        rw (z, h, same_window_self p.send_window)
          (inr (
            record me { recv_size = 0; left_size = me.buf_size },
            refl,
            refl,
            record {
              sized = held.sized;
              shared_out = omega arith;
              roomy = omega (arith, held.shared_out, held.roomy);
              window = inl refl;
              sending = λ w.
                  let i = held.sending w in
                  record {
                    offset = i.offset;
                    from_there = i.from_there;
                    to_the_end = i.to_the_end;
                    something = i.something;
                    deaf = refl;
                  };
            },
          ))
  ]

  timeout-Keeps :
      (clock : ℕ) (me : ClientData) (p : Entry)
      → p.data' ≡ some me
      → p.shutdown_receive ≡ false
      → IsHeld me p.writing p.send_window p.recv_window
      → Keeps (call_server env clock timeout p s)
  unfolding call_server ssh_agent_server ◌>>=◌
  timeout-Keeps clock me p d h held =
      let notify : NotifyParam = record {
        recv_window = no_window;
        send_window = p.send_window;
        wait = p.deadline;
      } in
      rw d
        (pure-Keeps (take_over clock p (on_timeout me notify)) s (lapsed-IsSound clock me p h held))

  pub lapse-Keeps :
      (clock : ℕ) (me : ClientData) (p : Entry)
      → p.data' ≡ some me
      → p.shutdown_receive ≡ false
      → IsHeld me p.writing p.send_window p.recv_window
      → Keeps (expired env clock p s)
  unfolding expired
  lapse-Keeps clock me p d h held =
      let late : Entry = record p { deadline = 0 } in
      branch-Keeps (not p.available || (p.deadline == 0)) (pure p) _ s
        (λ e. pure-Keeps p s (inr (me, d, h, held)))
        (λ e.
          branch-Keeps (ltb p.deadline clock) (call_server env clock timeout late) (pure p) s
            (λ f. timeout-Keeps clock me late d h held)
            (λ f. pure-Keeps p s (inr (me, d, h, held))))
