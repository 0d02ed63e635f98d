-- ===== src/Agent/Connection/Departure.antt =====
-- A reply is sent, whatever its pieces, and the entry listens again.
use pageant.Base.{
  ℕ, zero, suc, ◌+◌, ◌-◌, ◌≤◌, min, true, false, ◌≡◌, refl, sym, ap, ◌∙◌, some, List, [], ◌∷◌, ◌++◌,
  arith, ◌==◌, length, take, drop, append-nil, length-take, length-drop, take-append-drop,
  Bool-cases, inl, inr,
}
use pageant.Agent.Action.{ok, ◌>>=◌, >>=-ok}
use pageant.Agent.Keys.{Algorithms}
use pageant.Agent.Handler.{Server, Surroundings}
use pageant.Agent.Connection.{on_send, ssh_agent_server}
use pageant.Agent.Connection.Socket.{
  Entry, advance, pending, moved, take_over, call_server, sent, transmit, is_empty, same_window,
}
use pageant.Agent.Connection.Turns.{send_out}
use pageant.Agent.Connection.Assembly.{listening, zeros}
use pageant.Agent.Connection.Delivery.{answering}

take_long : (xs : List ℕ) (n : ℕ) → length xs ≤ n → take n xs ≡ xs
take_long [] zero h = refl
take_long [] (suc n) h = refl
take_long (x ∷ xs) zero h = absurd (omega arith)
take_long (x ∷ xs) (suc n) h = ap (λ (l : List ℕ). x ∷ l) (take_long xs n (omega arith))

drop-drop : (m n : ℕ) (xs : List ℕ) → drop n (drop m xs) ≡ drop (m + n) xs
drop-drop zero n xs = ap (λ (i : ℕ). drop i xs) (omega arith)
drop-drop (suc m) zero [] = let e : suc m + 0 ≡ suc m = omega arith in rw e refl
drop-drop (suc m) (suc n) [] = let e : suc m + suc n ≡ suc (suc m + n) = omega arith in rw e refl
drop-drop (suc m) n (x ∷ xs) =
    let e : suc m + n ≡ suc (m + n) = omega arith in rw e (drop-drop m n xs)

module _ {algs : Algorithms} (env : Surroundings algs) (s : Server algs) where
  -- The bytes of one `send`.
  moved-pending :
      (most n k here : ℕ) (reply : List ℕ) (offset left deadline : ℕ)
      → offset + suc left ≡ length reply
      → moved most
          (record { ptr = some offset; size = suc left })
          (pending (answering n k here reply offset (suc left) deadline))
        ≡ take (suc (min most left)) (drop offset reply)
  unfolding moved pending
  moved-pending most n k here reply offset left deadline h =
      let e : min (suc most) (suc left) ≡ suc (min most left) = omega arith in
      let l : length (drop offset reply) ≤ suc left = omega (arith, length-drop offset reply) in
      rw (take_long (drop offset reply) (suc left) l, e) refl

  length-moved :
      (most : ℕ) (reply : List ℕ) (offset left : ℕ)
      → offset + suc left ≡ length reply
      → length (take (suc (min most left)) (drop offset reply)) ≡ suc (min most left)
  length-moved most reply offset left h =
      omega
        (arith, h, length-take (suc (min most left)) (drop offset reply), length-drop offset reply)

  sent-more :
      (clock j n k here : ℕ) (reply : List ℕ) (offset left rest deadline : ℕ)
      → suc left - j ≡ suc rest
      → sent env clock j (answering n k here reply offset (suc left) deadline) s
        ≡ (ok (answering n k here reply (offset + j) (suc rest) deadline), s)
  unfolding sent advance
  sent-more clock j n k here reply offset left rest deadline e =
      let z : (suc rest == 0) ≡ false = ground arith in rw (e, z) refl

  sent-all :
      (clock j n k here : ℕ) (reply : List ℕ) (offset left deadline : ℕ)
      → suc left - j ≡ 0
      → sent env clock j (answering n k here reply offset (suc left) deadline) s
        ≡ (ok (listening [] (n + k) (zeros (length reply)) deadline), s)
  unfolding sent advance call_server ssh_agent_server on_send take_over same_window is_empty ◌>>=◌
  sent-all clock j n k here reply offset left deadline e =
      let d : (deadline == deadline) ≡ true = ground arith in
      let b : 0 + (n + k) ≡ n + k = omega arith in rw (e, d, b) refl

  send_out-step :
      (clock most : ℕ) (departures : List (ℕ × ℕ)) (p p' q : Entry) (bytes more : List ℕ)
      → transmit env clock most p s ≡ (ok (bytes, p'), s)
      → send_out env departures p' s ≡ (ok (more, q), s)
      → send_out env ((clock, most) ∷ departures) p s ≡ (ok (bytes ++ more, q), s)
  unfolding send_out
  send_out-step clock most departures p p' q bytes more e f =
      >>=-ok (transmit env clock most p) _ s s (bytes, p') e
      ∙ >>=-ok (send_out env departures p') _ s s (more, q) f

  send_out-idle :
      (departures : List (ℕ × ℕ)) (k : ℕ) (reply : List ℕ) (deadline : ℕ)
      → send_out env departures (listening [] k reply deadline) s
        ≡ (ok ([], listening [] k reply deadline), s)
  unfolding send_out transmit
  send_out-idle [] k reply deadline = refl
  send_out-idle ((clock, most) ∷ departures) k reply deadline =
      let p = listening [] k reply deadline in
      send_out-step clock most departures p p p [] [] refl
        (send_out-idle departures k reply deadline)

  transmit-sent :
      (clock most n k here : ℕ) (reply : List ℕ) (offset left deadline : ℕ) (p : Entry)
      → offset + suc left ≡ length reply
      → sent env clock (suc (min most left)) (answering n k here reply offset (suc left) deadline) s
        ≡ (ok p, s)
      → transmit env clock most (answering n k here reply offset (suc left) deadline) s
        ≡ (ok (take (suc (min most left)) (drop offset reply), p), s)
  unfolding transmit
  transmit-sent clock most n k here reply offset left deadline p h e =
      rw
        (
          moved-pending most n k here reply offset left deadline h,
          length-moved most reply offset left h,
        )
        (>>=-ok
          (sent env clock (suc (min most left))
            (answering n k here reply offset (suc left) deadline))
          _ s s p e)

  pub send_out-reply :
      (departures : List (ℕ × ℕ)) (n k here : ℕ) (reply : List ℕ) (offset left deadline : ℕ)
      → offset + suc left ≡ length reply
      → suc left ≤ length departures
      → send_out env departures (answering n k here reply offset (suc left) deadline) s
        ≡ (ok (drop offset reply, listening [] (n + k) (zeros (length reply)) deadline), s)
  send_out-reply [] n k here reply offset left deadline h l = absurd (omega arith)
  send_out-reply ((clock, most) ∷ departures) n k here reply offset left deadline h l =
      let j = suc (min most left) in
      let p = answering n k here reply offset (suc left) deadline in
      let q = listening [] (n + k) (zeros (length reply)) deadline in
      elim (Bool-cases (suc left - j == 0)) [
        | inl e ↦
            let z : suc left - j ≡ 0 = ground (arith, e) in
            let f : take j (drop offset reply) ≡ drop offset reply =
              take_long (drop offset reply) j (omega (arith, z, h, length-drop offset reply)) in
            let all = sent-all clock j n k here reply offset left deadline z in
            send_out-step clock most departures p q q (take j (drop offset reply)) []
              (transmit-sent clock most n k here reply offset left deadline q h all)
              (send_out-idle departures (n + k) (zeros (length reply)) deadline)
            ∙ rw (f, append-nil (drop offset reply)) refl
        | inr e ↦
            let rest = suc left - j - 1 in
            let z : suc left - j ≡ suc rest = ground (arith, e) in
            let p' = answering n k here reply (offset + j) (suc rest) deadline in
            let more = sent-more clock j n k here reply offset left rest deadline z in
            send_out-step clock most departures p p' q (take j (drop offset reply))
              (drop (offset + j) reply)
              (transmit-sent clock most n k here reply offset left deadline p' h more)
              (send_out-reply departures n k here reply (offset + j) rest deadline
                (omega (arith, z, h)) (omega (arith, z, l)))
            ∙ rw (sym (drop-drop offset j reply), take-append-drop j (drop offset reply)) refl
      ]
