-- ===== src/Agent/Connection/Assembly.antt =====
-- A message that comes in pieces is put together in the buffer, and handled when its last byte is there.
use pageant.Base.{
  ℕ, zero, suc, ◌+◌, ◌-◌, ◌%◌, ◌^◌, ◌≤◌, ◌<◌, true, false, ◌≡◌, refl, sym, ap, some, List, [], ◌∷◌,
  ◌++◌, arith, ltb, leb, ◌==◌, length, drop, replicate, append_assoc, append-nil, length-append,
  Bool-cases, inl, inr, if◌then◌else◌,
}
use pageant.Word32.{get_32bit_msb_first}
use pageant.Agent.Wire.{to_size}
use pageant.Agent.Wire.Strings.{take-append, drop-append}
use pageant.Agent.Connection.{recv_buf_size, ClientData, no_window, msglen, is_complete, grow}
use pageant.Agent.Connection.Socket.{Entry, overwrite}

abbrev pub zeros : ℕ → List ℕ
zeros n = replicate n 0

-- The client's data when `got` has come, with room for `k` bytes more.
abbrev pub collecting : List ℕ → ℕ → List ℕ → ClientData
collecting got k reply = record {
  recv_buf = got ++ zeros k;
  buf_size = length got + k;
  recv_size = length got;
  left_size = k;
  reply = reply;
}

-- An entry with that data, ready to receive.
abbrev pub listening : List ℕ → ℕ → List ℕ → ℕ → Entry
listening got k reply deadline = record {
  available = true;
  shutdown_receive = false;
  reading = true;
  writing = false;
  send_window = no_window;
  recv_window = record { ptr = some (length got); size = k };
  data' = some (collecting got k reply);
  deadline = deadline;
}

-- The room that is left after `n` of `k` bytes.
abbrev pub room : ℕ → ℕ → ℕ
room k n = if k - n == 0 then recv_buf_size else k - n

drop-zeros : (n k : ℕ) → drop n (zeros k) ≡ zeros (k - n)
drop-zeros zero k = ap zeros (omega arith)
drop-zeros (suc n) zero = let e : zero - suc n ≡ zero = omega arith in rw e refl
drop-zeros (suc n) (suc k) = let e : suc k - suc n ≡ k - n = omega arith in rw e (drop-zeros n k)

pub zeros-append : (m n : ℕ) → zeros m ++ zeros n ≡ zeros (m + n)
zeros-append zero n = ap zeros (omega arith)
zeros-append (suc m) n =
    let e : suc m + n ≡ suc (m + n) = omega arith in
    rw e (ap (λ (l : List ℕ). 0 ∷ l) (zeros-append m n))

pub drop_past : (xs ys : List ℕ) (n : ℕ) → drop (length xs + n) (xs ++ ys) ≡ drop n ys
drop_past [] ys n = ap (λ (i : ℕ). drop i ys) (omega arith)
drop_past (x ∷ xs) ys n =
    let e : suc (length xs) + n ≡ suc (length xs + n) = omega arith in rw e (drop_past xs ys n)

pub room-suc : (k n : ℕ) → room k n ≡ suc (room k n - 1)
room-suc k n = elim (Bool-cases (k - n == 0)) [
  | inl e ↦ rw e refl
  | inr e ↦ let p : k - n ≡ suc (k - n - 1) = ground (arith, e) in rw e p
]

pub drop-message : (xs : List ℕ) (k : ℕ) → drop (length xs) (xs ++ zeros k) ≡ zeros k
drop-message xs k = drop-append xs (zeros k)

pub overwrite-zeros :
    (got chunk : List ℕ) (k : ℕ)
    → overwrite (got ++ zeros k) (length got) chunk ≡ (got ++ chunk) ++ zeros (k - length chunk)
unfolding overwrite
overwrite-zeros got chunk k =
    rw
      (
        take-append got (zeros k),
        drop_past got (zeros k) (length chunk),
        drop-zeros (length chunk) k,
      )
      (sym (append_assoc got chunk _))

-- The data after `chunk` has been written into the window.
abbrev pub written : List ℕ → List ℕ → ℕ → List ℕ → ClientData
written got chunk k reply = record {
  recv_buf = (got ++ chunk) ++ zeros (k - length chunk);
  buf_size = length got + k;
  recv_size = length got;
  left_size = k;
  reply = reply;
}

pub grow-written :
    (got chunk : List ℕ) (k : ℕ) (reply : List ℕ)
    → length chunk ≤ k
    → grow (length chunk) (written got chunk k reply)
      ≡ collecting (got ++ chunk) (room k (length chunk)) reply
unfolding grow
grow-written got chunk k reply h =
    let n = length-append got chunk in
    elim (Bool-cases (k - length chunk == 0)) [
      | inl e ↦
          let z : k - length chunk ≡ 0 = ground (arith, e) in
          let b : length got + k ≡ length (got ++ chunk) = omega (arith, n, z) in
          rw (e, z, append-nil (got ++ chunk), b, sym n) refl
      | inr e ↦
          let b : length (got ++ chunk) + (k - length chunk) ≡ length got + k = omega (arith, n) in
          rw (e, b, n) refl
    ]

-- A message whose length word is right.
pub record IsMessage (message : List ℕ) : Type 0 where
  pub typed : 5 ≤ length message
  pub counted : get_32bit_msb_first message + 4 ≡ length message
  pub fits : length message < 2 ^ 31

first_word-append :
    (xs ys : List ℕ) → 4 ≤ length xs → get_32bit_msb_first (xs ++ ys) ≡ get_32bit_msb_first xs
unfolding get_32bit_msb_first
first_word-append [] ys h = absurd (omega arith)
first_word-append (a ∷ []) ys h = absurd (omega arith)
first_word-append (a ∷ b ∷ []) ys h = absurd (omega arith)
first_word-append (a ∷ b ∷ c ∷ []) ys h = absurd (omega arith)
first_word-append (a ∷ b ∷ c ∷ d ∷ xs) ys h = refl

-- With five bytes of the message there, its length is known.
msglen-prefix :
    (got rest behind : List ℕ)
    → IsMessage (got ++ rest)
    → 5 ≤ length got
    → to_size (msglen (got ++ behind)) ≡ length (got ++ rest)
unfolding msglen
msglen-prefix got rest behind m h =
    let a = first_word-append got rest (omega (arith, h)) in
    let b = first_word-append got behind (omega (arith, h)) in
    let c = m.counted in
    let d = m.fits in
    let n : (4 + get_32bit_msb_first (got ++ behind)) % 2 ^ 32 ≡ length (got ++ rest) =
      omega (arith, a, b, c, d) in
    let l : ltb (length (got ++ rest)) (2 ^ 31) ≡ true = ground (arith, d) in rw (n, l) refl

pub incomplete :
    (got : List ℕ) (b : ℕ) (rest : List ℕ) (k : ℕ) (reply : List ℕ)
    → IsMessage (got ++ b ∷ rest)
    → is_complete (collecting got k reply) ≡ false
unfolding is_complete
incomplete got b rest k reply m = elim (Bool-cases (leb 5 (length got))) [
  | inl e ↦
      let n = msglen-prefix got (b ∷ rest) (zeros k) m (ground (arith, e)) in
      let c : leb (length (got ++ b ∷ rest)) (length got) ≡ false =
        ground (arith, length-append got (b ∷ rest)) in
      rw (e, n, c) refl
  | inr e ↦ rw e refl
]

pub complete :
    (got : List ℕ) (k : ℕ) (reply : List ℕ)
    → IsMessage got
    → is_complete (collecting got k reply) ≡ true
unfolding is_complete
complete got k reply m =
    let m' : IsMessage (got ++ []) = rw (append-nil got) m in
    let n = msglen-prefix got [] (zeros k) m' m.typed in
    let e : leb 5 (length got) ≡ true = ground (arith, m.typed) in
    let c : leb (length got) (length got) ≡ true = ground arith in rw (e, n, append-nil got, c) refl
