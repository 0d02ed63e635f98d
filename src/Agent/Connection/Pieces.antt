-- ===== src/Agent/Connection/Pieces.antt =====
-- A whole message is read, whatever its pieces.
use pageant.Base.{
  ℕ, zero, suc, ◌-◌, ◌≤◌, min, false, ◌≡◌, refl, sym, ap, ◌∙◌, some, List, [], ◌∷◌, ◌++◌, arith,
  ◌==◌, length, take, drop, append_assoc, append-nil, length-take, length-drop, take-append-drop,
}
use pageant.Agent.Action.{Result, ok, failed, fault, Action, pure, ◌>>=◌, >>=-ok, >>=-first}
use pageant.Agent.Keys.{Algorithms}
use pageant.Agent.Handler.{Server, Surroundings}
use pageant.Agent.Connection.{recv_timeout, connect_timeout}
use pageant.Agent.Connection.Socket.{Entry, moved, received, receive, is_empty}
use pageant.Agent.Connection.Turns.{take_in, respond}
use pageant.Agent.Connection.Assembly.{listening, room, room-suc, IsMessage}
use pageant.Agent.Connection.Delivery.{
  answering, wait_until, received_incomplete, received_complete,
}

-- A result that is carried on to a step that succeeds.
carried_on :
    {S A B C D : Type 0} (m : Action S A) (f : A → B) (g : B → C) (h : C → Action S D) (k : A → D)
    → (s : S) → ((a : A) (t : S) → h (g (f a)) t ≡ (ok (k a), t))
    → (((m >>= λ a. pure (f a)) >>= λ b. pure (g b)) >>= h) s ≡ (m >>= λ a. pure (k a)) s
unfolding ◌>>=◌
carried_on {S = S} {A = A} m f g h k s e = after (m s)
  where
    after :
        (r : Result A × S)
        → (◌>>=◌ {S = S} ((◌>>=◌ {S = S} (λ _. r) λ a. pure (f a)) >>= λ b. pure (g b)) h) s
          ≡ (◌>>=◌ {S = S} (λ _. r) λ a. pure (k a)) s
    after (ok a, t) = e a t
    after (failed, t) = refl
    after (fault, t) = refl

drop-length-take : (n : ℕ) (xs : List ℕ) → drop (length (take n xs)) xs ≡ drop n xs
drop-length-take zero xs = refl
drop-length-take (suc n) [] = refl
drop-length-take (suc n) (x ∷ xs) = drop-length-take n xs

module _ {algs : Algorithms} (env : Surroundings algs) (s : Server algs) where
  take_in-nil :
      (arrivals : List (ℕ × ℕ)) (p : Entry) (t : Server algs)
      → take_in env arrivals [] p t ≡ (ok ([], p), t)
  unfolding take_in
  take_in-nil [] p t = refl
  take_in-nil (a ∷ arrivals) p t = refl

  -- One `recv` that moves `c ∷ cs` and leaves `rest`.
  receive-chunk :
      (clock most : ℕ) (got : List ℕ) (c : ℕ) (bs cs rest : List ℕ) (k : ℕ) (reply : List ℕ)
      → (deadline : ℕ)
      → moved most (record { ptr = some (length got); size = suc k }) (c ∷ bs) ≡ c ∷ cs
      → drop (length cs) bs ≡ rest
      → receive env clock most (c ∷ bs) (listening got (suc k) reply deadline) s
        ≡ (received env clock (c ∷ cs) (listening got (suc k) reply deadline) >>= λ p'.
              pure (rest, p'))
            s
  unfolding receive is_empty
  receive-chunk clock most got c bs cs rest k reply deadline e d =
      let z : (suc k == 0) ≡ false = ground arith in rw (z, e, d) refl

  moved-cons :
      (most k here b : ℕ) (bs : List ℕ)
      → moved most (record { ptr = some here; size = suc k }) (b ∷ bs) ≡ b ∷ take (min most k) bs
  unfolding moved
  moved-cons most k here b bs =
      let e : min (suc most) (suc k) ≡ suc (min most k) = omega arith in rw e refl

  -- The entry that a message of `n` bytes leads to.
  abbrev pub replying : ℕ → ℕ → ℕ → List ℕ → List ℕ × Entry
  replying n k deadline r = ([], answering n k n r 0 (length r) deadline)

  -- Both ways on from a `recv`: the message is complete, or there is more of it.
  take_in-last :
      (clock most : ℕ) (arrivals : List (ℕ × ℕ)) (got : List ℕ) (c : ℕ) (bs cs : List ℕ) (k : ℕ)
      → (reply : List ℕ) (deadline : ℕ) → IsMessage (got ++ c ∷ cs)
      → length (c ∷ cs) ≤ suc k
      → receive env clock most (c ∷ bs) (listening got (suc k) reply deadline) s
        ≡ (received env clock (c ∷ cs) (listening got (suc k) reply deadline) >>= λ p'.
              pure ([], p'))
            s
      → take_in env ((clock, most) ∷ arrivals) (c ∷ bs) (listening got (suc k) reply deadline) s
        ≡ (respond env (got ++ c ∷ cs) >>= λ r. pure (
              replying
                (length (got ++ c ∷ cs))
                (room (suc k) (length (c ∷ cs)))
                (wait_until clock deadline connect_timeout)
                r))
            s
  unfolding take_in
  take_in-last clock most arrivals got c bs cs k reply deadline m h e =
      let n = length (got ++ c ∷ cs) in
      let k' = room (suc k) (length (c ∷ cs)) in
      let wait = wait_until clock deadline connect_timeout in
      let next : List ℕ × Entry → Action (Server algs) (List ℕ × Entry) =
        λ (stream, p'). take_in env arrivals stream p' in
      let answer = λ (r : List ℕ). answering n k' n r 0 (length r) wait in
      let p = listening got (suc k) reply deadline in
      let done : Entry → Action (Server algs) (List ℕ × Entry) = λ p'. pure ([], p') in
      let first = received env clock (c ∷ cs) p in
      let m' : Action (Server algs) Entry = respond env (got ++ c ∷ cs) >>= λ r. pure (answer r) in
      >>=-first (receive env clock most (c ∷ bs) p) (first >>= done) next s e
      ∙ (>>=-first (first >>= done) (m' >>= done) next s (
            >>=-first first m' done s
              (received_complete env s clock got c cs (suc k) reply deadline m h))
          ∙ carried_on (respond env (got ++ c ∷ cs)) answer (λ (p' : Entry). ([], p')) next
              (replying n k' wait) s (λ r t. take_in-nil arrivals (answer r) t))

  take_in-more :
      (clock most : ℕ) (arrivals : List (ℕ × ℕ)) (got : List ℕ) (c : ℕ) (bs cs : List ℕ) (b : ℕ)
      → (rest : List ℕ) (k : ℕ) (reply : List ℕ) (deadline : ℕ)
      → IsMessage ((got ++ c ∷ cs) ++ b ∷ rest)
      → length (c ∷ cs) ≤ suc k
      → receive env clock most (c ∷ bs) (listening got (suc k) reply deadline) s
        ≡ (received env clock (c ∷ cs) (listening got (suc k) reply deadline) >>= λ p'.
              pure (b ∷ rest, p'))
            s
      → take_in env ((clock, most) ∷ arrivals) (c ∷ bs) (listening got (suc k) reply deadline) s
        ≡ take_in env arrivals
            (b ∷ rest)
            (listening
              (got ++ c ∷ cs)
              (room (suc k) (length (c ∷ cs)))
              reply
              (wait_until clock deadline recv_timeout))
            s
  unfolding take_in
  take_in-more clock most arrivals got c bs cs b rest k reply deadline m h e =
      let p = listening got (suc k) reply deadline in
      let p' =
        listening (got ++ c ∷ cs) (room (suc k) (length (c ∷ cs))) reply
          (wait_until clock deadline recv_timeout) in
      let next : List ℕ × Entry → Action (Server algs) (List ℕ × Entry) =
        λ (stream, p'). take_in env arrivals stream p' in
      let more : Entry → Action (Server algs) (List ℕ × Entry) = λ q. pure (b ∷ rest, q) in
      >>=-ok (receive env clock most (c ∷ bs) p) next s s (b ∷ rest, p')
        (e
          ∙ >>=-ok (received env clock (c ∷ cs) p) more s s p'
              (received_incomplete env s clock got c cs b rest (suc k) reply deadline m h))

  -- The message is read, from any entry that has room, and the entry goes on with the reply to it.
  abbrev pub Answers : List (ℕ × ℕ) → List ℕ → Type 0
  Answers arrivals message =
      (got : List ℕ) (b : ℕ) (bs : List ℕ) (k : ℕ) (reply : List ℕ) (deadline : ℕ)
      → got ++ b ∷ bs ≡ message
      → length (b ∷ bs) ≤ length arrivals
      → (left wait : ℕ) × (take_in env arrivals (b ∷ bs) (listening got (suc k) reply deadline) s
          ≡ (respond env message >>= λ r. pure (replying (length message) (suc left) wait r)) s)

  read-Answers :
      (clock most : ℕ) (arrivals : List (ℕ × ℕ)) (message : List ℕ)
      → IsMessage message
      → Answers arrivals message
      → Answers ((clock, most) ∷ arrivals) message
  read-Answers clock most arrivals message m again got b bs k reply deadline e h =
      go (drop (min most k) bs) refl
    where
      cs : List ℕ
      cs = take (min most k) bs

      fits : length (b ∷ cs) ≤ suc k
      fits = omega (arith, length-take (min most k) bs)

      joined : (rest : List ℕ) → drop (min most k) bs ≡ rest → (got ++ b ∷ cs) ++ rest ≡ message
      joined rest d =
          append_assoc got (b ∷ cs) rest
          ∙ (ap (λ (l : List ℕ). got ++ b ∷ (cs ++ l)) (sym d)
              ∙ (ap (λ (l : List ℕ). got ++ b ∷ l) (take-append-drop (min most k) bs) ∙ e))

      came :
          (rest : List ℕ)
          → drop (min most k) bs ≡ rest
          → receive env clock most (b ∷ bs) (listening got (suc k) reply deadline) s
            ≡ (received env clock (b ∷ cs) (listening got (suc k) reply deadline) >>= λ p'.
                  pure (rest, p'))
                s
      came rest d =
          receive-chunk clock most got b bs cs rest k reply deadline
            (moved-cons most k (length got) b bs) (drop-length-take (min most k) bs ∙ d)

      go :
          (rest : List ℕ)
          → drop (min most k) bs ≡ rest
          → (left wait : ℕ) × (take_in env
                ((clock, most) ∷ arrivals)
                (b ∷ bs)
                (listening got (suc k) reply deadline)
                s
              ≡ (respond env message >>= λ r. pure (replying (length message) (suc left) wait r)) s)
      go [] d =
          let q = sym (append-nil (got ++ b ∷ cs)) ∙ joined [] d in
          let n = room (suc k) (length (b ∷ cs)) in
          rw (sym q) (
            n - 1,
            wait_until clock deadline connect_timeout,
            take_in-last clock most arrivals got b bs cs k reply deadline (rw q m) fits (came [] d)
                ∙ ap
                    (λ (j : ℕ).
                      (respond env (got ++ b ∷ cs) >>= λ r. pure (
                          replying (length (got ++ b ∷ cs)) j
                            (wait_until clock deadline connect_timeout) r))
                        s)
                    (room-suc (suc k) (length (b ∷ cs))),
          )
      go (r ∷ rest) d =
          let n = room (suc k) (length (b ∷ cs)) in
          let wait = wait_until clock deadline recv_timeout in
          let q = joined (r ∷ rest) d in
          let l = length-drop (min most k) bs in
          let l' = ap length d in
          let ih = again (got ++ b ∷ cs) r rest (n - 1) reply wait q (omega (arith, l, l', h)) in
          (
            ih.0,
            ih.1,
            take_in-more clock most arrivals got b bs cs r rest k reply deadline (rw q m) fits
                  (came (r ∷ rest) d)
                ∙ (ap
                      (λ (j : ℕ).
                        take_in env arrivals (r ∷ rest) (listening (got ++ b ∷ cs) j reply wait) s)
                      (room-suc (suc k) (length (b ∷ cs)))
                    ∙ ih.2),
          )

  pub take_in-Answers :
      (arrivals : List (ℕ × ℕ)) (message : List ℕ) → IsMessage message → Answers arrivals message
  take_in-Answers [] message m = λ got b bs k reply deadline e h. absurd (omega arith)
  take_in-Answers ((clock, most) ∷ arrivals) message m =
      read-Answers clock most arrivals message m (take_in-Answers arrivals message m)
