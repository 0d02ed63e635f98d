-- ===== src/Agent/Connection/Safety/Runs.antt =====
-- A connection from its acceptance on stays in order.
use pageant.Base.{
  ℕ, ◌+◌, false, ◌≡◌, refl, sym, ap, ◌∙◌, inl, inr, some, List, [], ◌∷◌, arith, length-replicate,
}
use pageant.Agent.Action.{Result, ok, pure, ◌>>=◌, >>=-ok}
use pageant.Agent.Keys.{Algorithms}
use pageant.Agent.Handler.{Server, Surroundings}
use pageant.Agent.Connection.{ClientData}
use pageant.Agent.Connection.Socket.{Entry, accept}
use pageant.Agent.Connection.Assembly.{listening}
use pageant.Agent.Connection.Conversation.{accept-listening}
use pageant.Agent.Connection.Safety.{
  Event, arrival, departure, lapse, breakage, happen, happen_all, IsHeld, IsSound,
}
use pageant.Agent.Connection.Safety.Reading.{Keeps, bind-Keeps, pure-Keeps}
use pageant.Agent.Connection.Safety.Lapse.{lapse-Keeps}
use pageant.Agent.Connection.Safety.Events.{
  arrival-Keeps, departure-Keeps, breakage-Keeps, unused-Keeps, branch-Keeps, differ,
}

module _ {algs : Algorithms} (env : Surroundings algs) where
  used-Keeps :
      (e : Event) (p : Entry) (s : Server algs) (me : ClientData)
      → p.data' ≡ some me
      → p.shutdown_receive ≡ false
      → IsHeld me p.writing p.send_window p.recv_window
      → Keeps (happen env e p s)
  unfolding happen
  used-Keeps (arrival clock most stream) p s me d h held =
      branch-Keeps p.available _ (pure p) s
        (λ a. arrival-Keeps env s clock most stream me p d h held) (λ a. pure-Keeps p s (inl a))
  used-Keeps (departure clock most) p s me d h held =
      branch-Keeps p.available _ (pure p) s (λ a. departure-Keeps env s clock most me p d h held)
        (λ a. pure-Keeps p s (inl a))
  used-Keeps (lapse clock) p s me d h held = lapse-Keeps env s clock me p d h held
  used-Keeps (breakage clock) p s me d h held =
      branch-Keeps p.available _ (pure p) s (λ a. breakage-Keeps env s clock p)
        (λ a. pure-Keeps p s (inl a))

  happen-Keeps : (e : Event) (p : Entry) (s : Server algs) → IsSound p → Keeps (happen env e p s)
  happen-Keeps e p s (inl a) = unused-Keeps env s e p a
  happen-Keeps e p s (inr (me, d, h, held)) = used-Keeps e p s me d h held

  runs-Keeps :
      (es : List Event) (p : Entry) (s : Server algs) → IsSound p → Keeps (happen_all env es p s)
  unfolding happen_all
  runs-Keeps [] p s sound = pure-Keeps p s sound
  runs-Keeps (e ∷ es) p s sound = bind-Keeps (happen env e p) (happen_all env es) s λ q t r.
      runs-Keeps es q t
        (happen-Keeps e p s sound q (ap (λ (x : Result Entry × Server algs). x.0) r))

  listening-IsSound : (deadline : ℕ) → IsSound (listening [] 512 [] deadline)
  listening-IsSound deadline = inr (
    _,
    refl,
    refl,
    record {
      sized = length-replicate {A = ℕ} 512 0;
      shared_out = omega arith;
      roomy = omega arith;
      window = inr refl;
      sending = λ f. absurd (differ refl f);
    },
  )

  -- From the acceptance of a connection on, into an entry that sends nothing, whatever comes, is
  -- sent, breaks off or is late, and however much each call moves, as long as nothing ends in a
  -- fault: an entry in use has a buffer of the size that is recorded, the bytes that have come
  -- and the room behind them fill it and the room is never empty; what is received goes to that
  -- room, or nothing is received; and what is being sent ends where the reply ends, and then
  -- nothing is received.
  pub happen_all-IsSound :
      (clock : ℕ) (es : List Event) (p q : Entry) (s : Server algs)
      → p.writing ≡ false
      → ((accept env clock p >>= happen_all env es) s).0 ≡ ok q
      → IsSound q
  happen_all-IsSound clock es p q s w e =
      runs-Keeps es (listening [] 512 [] (clock + 10000)) s (listening-IsSound (clock + 10000)) q (
        ap (λ (x : Result Entry × Server algs). x.0)
          (sym (
            >>=-ok (accept env clock p) (happen_all env es) s s _
              (accept-listening env clock p s w)))
        ∙ e)
