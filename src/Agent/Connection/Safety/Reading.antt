-- ===== src/Agent/Connection/Safety/Reading.antt =====
-- An entry stays in order when bytes have come.
use pageant.Base.{
  ℕ, ◌+◌, ◌-◌, ◌≤◌, ◌<◌, min, true, false, ◌≡◌, ◌≢◌, refl, sym, ap, ◌∙◌, ◌⊎◌, inl, inr, some, List,
  [], ◌∷◌, ◌++◌, arith, ◌==◌, length, take, drop, replicate, length-append, length-take,
  length-drop, length-replicate, Bool-cases,
}
use pageant.Agent.Action.{Result, ok, failed, fault, Action, pure, ◌>>=◌}
use pageant.Agent.Keys.{Algorithms}
use pageant.Agent.Handler.{Server, Surroundings, pageant_handle_msg}
use pageant.Agent.Handler.Outcome.{IsReply}
use pageant.Agent.Handler.Replies.{pageant_handle_msg-IsReply}
use pageant.Agent.Connection.{
  recv_buf_size, ClientData, NotifyParam, no_window, is_complete, grow, with_reply, await_more,
  smemclr, on_recv, ssh_agent_server, recv,
}
use pageant.Agent.Connection.Socket.{
  Entry, close_server, take_over, overwrite, store, call_server, received, is_empty,
}
use pageant.Agent.Connection.Delivery.{carried}
use pageant.Agent.Connection.Timeouts.{same_window_self}
use pageant.Agent.Connection.Safety.{IsHeld, IsSound}

abbrev pub Keeps : {S : Type 0} → Result Entry × S → Type 0
Keeps r = (q : Entry) → r.0 ≡ ok q → IsSound q

pub bind-Keeps :
    {S A : Type 0} (m : Action S A) (f : A → Action S Entry) (s : S)
    → ((a : A) (t : S) → m s ≡ (ok a, t) → Keeps (f a t))
    → Keeps ((m >>= f) s)
unfolding ◌>>=◌
bind-Keeps {S = S} {A = A} m f s h = after (m s) refl
  where
    after : (r : Result A × S) → m s ≡ r → Keeps (◌>>=◌ {S = S} (λ _. r) f s)
    after (ok a, t) e = h a t e
    after (failed, t) e = λ q f. absurd (cc)
    after (fault, t) e = λ q f. absurd (cc)

pub pure-Keeps : {S : Type 0} (p : Entry) (s : S) → IsSound p → Keeps (pure {S = S} p s)
pure-Keeps p s sound q e = rw (inj e) sound
  where
    inj : ◌≡◌ {A = Result Entry} (ok p) (ok q) → q ≡ p
    inj e = cc

length-overwrite :
    (buf chunk : List ℕ) (offset : ℕ)
    → offset + length chunk ≤ length buf
    → length (overwrite buf offset chunk) ≡ length buf
unfolding overwrite
length-overwrite buf chunk offset h = omega (
  arith,
  h,
  length-append (take offset buf) (chunk ++ drop (offset + length chunk) buf),
  length-append chunk (drop (offset + length chunk) buf),
  length-take offset buf,
  length-drop (offset + length chunk) buf,
)

length-smemclr : (n : ℕ) (buf : List ℕ) → length (smemclr n buf) ≡ length buf
unfolding smemclr
length-smemclr n buf = omega (
  arith,
  length-append (replicate (min n (length buf)) 0) (drop n buf),
  length-replicate {A = ℕ} (min n (length buf)) 0,
  length-drop n buf,
)

-- The sizes, of which an entry's soundness needs no more.
record IsSized (me : ClientData) : Type 0 where
  sized : length me.recv_buf ≡ me.buf_size
  shared_out : me.recv_size + me.left_size ≡ me.buf_size
  roomy : 0 < me.left_size

grow-IsSized :
    (n : ℕ) (me : ClientData)
    → n ≤ me.left_size
    → length me.recv_buf ≡ me.buf_size
    → me.recv_size + me.left_size ≡ me.buf_size
    → IsSized (grow n me)
unfolding grow
grow-IsSized n me h l f = elim (Bool-cases (me.left_size - n == 0)) [
  | inl e ↦
      let z : me.left_size ≡ n = ground (arith, e, h) in
      let a = length-append me.recv_buf (replicate recv_buf_size 0) in
      rw e (record {
        sized = omega (arith, a, l);
        shared_out = omega (arith, f, z);
        roomy = omega arith;
      })
  | inr e ↦
      rw e (record { sized = l; shared_out = omega (arith, f, h); roomy = ground (arith, e, h) })
]

replied-IsSound :
    (clock : ℕ) (me : ClientData) (p : Entry) (reply : List ℕ)
    → IsSized me
    → p.shutdown_receive ≡ false
    → IsReply reply
    → IsSound (take_over clock p (some (with_reply me reply)))
unfolding take_over with_reply is_empty
replied-IsSound clock me p reply z h i =
    let c = length-smemclr me.recv_size me.recv_buf in
    rw h (
      inr (
        record me { recv_buf = smemclr me.recv_size me.recv_buf; reply = reply },
        refl,
        refl,
        record {
          sized = c ∙ z.sized;
          shared_out = z.shared_out;
          roomy = z.roomy;
          window = inl refl;
          sending = λ w. record {
            offset = 0;
            from_there = refl;
            to_the_end = omega arith;
            something = omega (arith, i.typed);
            deaf = refl;
          };
        },
      ))

waiting-IsSound :
    (clock : ℕ) (me : ClientData) (p : Entry) (notify : NotifyParam)
    → IsSized me
    → p.shutdown_receive ≡ false
    → p.writing ≡ false
    → notify.send_window ≡ p.send_window
    → IsSound (take_over clock p (some (me, await_more me notify)))
unfolding take_over await_more
waiting-IsSound clock me p notify z h w e =
    rw (h, e, same_window_self p.send_window, w)
      (inr (
        me,
        refl,
        refl,
        record {
          sized = z.sized;
          shared_out = z.shared_out;
          roomy = z.roomy;
          window = inr refl;
          sending = λ f. cc;
        },
      ))

ok-IsReply :
    (r : Result (List ℕ)) (reply : List ℕ)
    → r ≡ ok reply
    → (r ≡ fault) ⊎ ((x : List ℕ) × (r ≡ ok x) × IsReply x)
    → IsReply reply
ok-IsReply r reply e (inl f) = absurd (not_fault (sym e ∙ f))
  where
    not_fault : {a : List ℕ} → ◌≢◌ {A = Result (List ℕ)} (ok a) fault
    not_fault e = cc
ok-IsReply r reply e (inr (x, f, i)) = rw (same (sym e ∙ f)) i
  where
    same : {a b : List ℕ} → ◌≡◌ {A = Result (List ℕ)} (ok a) (ok b) → a ≡ b
    same e = cc

module _ {algs : Algorithms} (env : Surroundings algs) where
  handled-Keeps :
      (clock : ℕ) (me : ClientData) (p : Entry) (s : Server algs)
      → IsSized me
      → p.shutdown_receive ≡ false
      → Keeps (
          (pageant_handle_msg env me.recv_size me.recv_buf >>= λ r.
          pure (take_over clock p (some (with_reply me r))))
            s)
  handled-Keeps clock me p s z h =
      bind-Keeps (pageant_handle_msg env me.recv_size me.recv_buf) _ s λ r t e.
        pure-Keeps (take_over clock p (some (with_reply me r))) t (
          replied-IsSound clock me p r z h (
            ok-IsReply _ r (ap (λ (x : Result (List ℕ) × Server algs). x.0) e)
              (pageant_handle_msg-IsReply env s me.recv_size me.recv_buf)))

  on_recv-Keeps :
      (clock n : ℕ) (me : ClientData) (p : Entry) (s : Server algs)
      → IsSized (grow n me)
      → p.shutdown_receive ≡ false
      → p.writing ≡ false
      → p.data' ≡ some me
      → Keeps (call_server env clock (recv n) p s)
  unfolding call_server ssh_agent_server on_recv ◌>>=◌
  on_recv-Keeps clock n me p s z h w d = elim (Bool-cases (is_complete (grow n me))) [
    | inl e ↦
        let now = grow n me in
        let c =
          carried (pageant_handle_msg env now.recv_size now.recv_buf) (with_reply now) some
            (take_over clock p) s in
        rw (d, e)
          λ q f.
            handled-Keeps clock now p s z h q
              (ap (λ (r : Result Entry × Server algs). r.0) (sym c) ∙ f)
    | inr e ↦
        let now = grow n me in
        let notify : NotifyParam = record {
          recv_window = no_window;
          send_window = p.send_window;
          wait = p.deadline;
        } in
        rw (d, e)
          (pure-Keeps (take_over clock p (some (now, await_more now notify))) s
            (waiting-IsSound clock now p notify z h w refl))
  ]

  -- `recv` into a window that is in order.
  pub received-Keeps :
      (clock : ℕ) (chunk : List ℕ) (me : ClientData) (p : Entry) (s : Server algs)
      → p.data' ≡ some me
      → p.shutdown_receive ≡ false
      → p.writing ≡ false
      → p.recv_window ≡ record { ptr = some me.recv_size; size = me.left_size }
      → length chunk ≤ me.left_size
      → IsHeld me p.writing p.send_window p.recv_window
      → Keeps (received env clock chunk p s)
  unfolding received store call_server ssh_agent_server take_over close_server ◌>>=◌
  received-Keeps clock [] me p s d h w e l held =
      pure-Keeps (close_server (record p { reading = false; shutdown_receive = true })) s (inl refl)
  received-Keeps clock (c ∷ cs) me p s d h w e l held =
      let buf = overwrite me.recv_buf me.recv_size (c ∷ cs) in
      let me' : ClientData = record me { recv_buf = buf } in
      let b =
        length-overwrite me.recv_buf (c ∷ cs) me.recv_size
          (omega (arith, l, held.sized, held.shared_out)) in
      on_recv-Keeps clock (length (c ∷ cs)) me' _ s
        (grow-IsSized (length (c ∷ cs)) me' l (b ∙ held.sized) held.shared_out) h w (rw (d, e) refl)
