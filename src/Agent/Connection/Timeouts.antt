-- ===== src/Agent/Connection/Timeouts.antt =====
-- SS_NOTIFY_TIMEOUT: a client that sends nothing, and one that sends part of a message.
use pageant.Base.{
  ℕ, ◌+◌, ◌<◌, true, false, ◌≡◌, refl, ◌∙◌, some, none, List, arith, ltb, ◌==◌, ◌&&◌, Option,
  Bool-cases, inl, inr, ◌⊎◌,
}
use pageant.Agent.Action.{ok, ◌>>=◌}
use pageant.Agent.Keys.{Algorithms}
use pageant.Agent.Handler.{Server, Surroundings}
use pageant.Agent.Connection.{
  connect_timeout, Window, ClientData, no_window, timeout, on_timeout, ssh_agent_server,
}
use pageant.Agent.Connection.Socket.{
  Entry, close_server, take_over, call_server, receive, expired, is_empty, same_ptr, same_window,
}

-- An entry whose deadline has passed.
pub record IsLate (clock : ℕ) (me : ClientData) (p : Entry) : Type 0 where
  pub open' : p.available ≡ true
  pub receiving : p.shutdown_receive ≡ false
  pub client : p.data' ≡ some me
  pub armed : 0 < p.deadline
  pub passed : p.deadline < clock

pub same_window_self : (w : Window) → same_window w w ≡ true
unfolding same_window
same_window_self w = go w.ptr w.size
  where
    go : (p : Option ℕ) (n : ℕ) → (same_ptr p p && (n == n)) ≡ true
    go none n = ground arith
    go (some i) n =
        let a : (i == i) ≡ true = ground arith in
        let b : (n == n) ≡ true = ground arith in rw (a, b) refl

module _ {algs : Algorithms} (env : Surroundings algs) (s : Server algs) where
  expired-open :
      (clock : ℕ) (me : ClientData) (p : Entry)
      → IsLate clock me p
      → expired env clock p s ≡ call_server env clock timeout (record p { deadline = 0 }) s
  unfolding expired
  expired-open clock me p late =
      let a : (p.deadline == 0) ≡ false = ground (arith, late.armed) in
      let b : ltb p.deadline clock ≡ true = ground (arith, late.passed) in
      rw (late.open', a, b) refl

  expired-close :
      (clock : ℕ) (me : ClientData) (p : Entry)
      → IsLate clock me p
      → me.recv_size ≡ 0
      → expired env clock p s ≡ (ok (close_server (record p { deadline = 0 })), s)
  unfolding call_server ssh_agent_server on_timeout take_over ◌>>=◌ close_server
  expired-close clock me p late e =
      let z : (me.recv_size == 0) ≡ true = ground (arith, e) in
      expired-open clock me p late ∙ rw (late.client, z) refl

  abbrev stalled : ℕ → ClientData → Entry → Entry
  stalled clock me p = record p {
    deadline = clock + 10000;
    recv_window = no_window;
    writing = p.writing;
    data' = some (record me { recv_size = 0; left_size = me.buf_size });
  }

  expired-stalled :
      (clock : ℕ) (me : ClientData) (p : Entry)
      → IsLate clock me p
      → (me.recv_size == 0) ≡ false
      → expired env clock p s ≡ (ok (stalled clock me p), s)
  unfolding call_server ssh_agent_server on_timeout take_over ◌>>=◌
  expired-stalled clock me p late z =
      expired-open clock me p late
      ∙ rw (late.client, late.receiving, z, same_window_self p.send_window) refl

  stalled-receive :
      (clock clock' most : ℕ) (me : ClientData) (p : Entry) (stream : List ℕ) (t : Server algs)
      → receive env clock' most stream (stalled clock me p) t ≡ (ok (stream, stalled clock me p), t)
  unfolding receive is_empty
  stalled-receive clock clock' most me p stream t = refl

  -- When the deadline of a connection has passed and nothing of a message has come, it is closed.
  -- When part of a message has come, that is dropped and the connection stays open, but a call to
  -- receive takes no byte of what the client sends; when the next deadline has passed, it is
  -- closed.
  pub expired_lem :
      (clock : ℕ) (me : ClientData) (p : Entry) (clock' most later : ℕ) (stream : List ℕ)
      → (t : Server algs) → IsLate clock me p
      → clock + connect_timeout < later
      → ((me.recv_size ≡ 0)
          × (q : Entry) × (expired env clock p s ≡ (ok q, s))
          × (q.available ≡ false)
          × (q.data' ≡ none))
        ⊎ ((0 < me.recv_size)
            × (q : Entry) × (expired env clock p s ≡ (ok q, s))
            × (q.available ≡ true)
            × (receive env clock' most stream q t ≡ (ok (stream, q), t))
            × (r : Entry) × (expired env later q s ≡ (ok r, s))
            × (r.available ≡ false))
  unfolding close_server
  expired_lem clock me p clock' most later stream t late h = elim (Bool-cases (me.recv_size == 0)) [
    | inl e ↦
        let z : me.recv_size ≡ 0 = ground (arith, e) in
        inl
          (z, close_server (record p { deadline = 0 }), expired-close clock me p late z, refl, refl)
    | inr e ↦
        let q = stalled clock me p in
        let again : IsLate later (record me { recv_size = 0; left_size = me.buf_size }) q = record {
          open' = late.open';
          receiving = late.receiving;
          client = refl;
          armed = omega arith;
          passed = omega (arith, h);
        } in
        inr (
          ground (arith, e),
          q,
          expired-stalled clock me p late e,
          late.open',
          stalled-receive clock clock' most me p stream t,
          close_server (record q { deadline = 0 }),
          expired-close later (record me { recv_size = 0; left_size = me.buf_size }) q again refl,
          refl,
        )
  ]
