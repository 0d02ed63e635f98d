-- ===== src/Agent/Connection/Locality.antt =====
-- The handler of a request reads nothing behind the byte that follows the message.
use pageant.Base.{
  ℕ, suc, ◌+◌, ◌-◌, ◌≤◌, false, ◌≡◌, refl, sym, ap, ◌∙◌, List, [], ◌∷◌, ◌++◌, arith, ltb, ◌==◌,
  length, append_assoc, length-append,
}
use pageant.Word32.{get_32bit_msb_first}
use pageant.Agent.Action.{ok}
use pageant.Agent.Wire.Strings.{take-append}
use pageant.Agent.Keys.{Algorithms}
use pageant.Agent.Accept.{
  Kind, request_identities, sign_request, add_identity, add_id_constrained, remove_identity,
  remove_all_identities, unknown,
}
use pageant.Agent.Handler.{
  kind_of, Server, Surroundings, read_range, handle_kind, handle_msg, pageant_handle_msg,
  pageant_failure_msg,
}
use pageant.Agent.Connection.Turns.{respond}

range-append : (xs ys : List ℕ) → read_range (length xs) (xs ++ ys) ≡ ok xs
unfolding read_range
range-append xs ys =
    let e : ltb (length (xs ++ ys)) (length xs) ≡ false = ground (arith, length-append xs ys) in
    rw (e, take-append xs ys) refl

range-next :
    (xs : List ℕ) (y : ℕ) (ys : List ℕ)
    → read_range (length xs + 1) (xs ++ y ∷ ys) ≡ ok (xs ++ y ∷ [])
range-next xs y ys =
    let e : length (xs ++ y ∷ []) ≡ length xs + 1 = length-append xs (y ∷ []) in
    ap (λ (n : ℕ). read_range n (xs ++ y ∷ ys)) (sym e)
    ∙ (ap (λ (l : List ℕ). read_range (length (xs ++ y ∷ [])) l) (sym (append_assoc xs (y ∷ []) ys))
        ∙ range-append (xs ++ y ∷ []) ys)

module _ {algs : Algorithms} (env : Surroundings algs) (s : Server algs) where
  kind-append :
      (kind : Kind) (mem rest : List ℕ)
      → handle_kind env kind (length mem) (mem ++ 0 ∷ rest) s
        ≡ handle_kind env kind (length mem) (mem ++ 0 ∷ []) s
  unfolding handle_kind
  kind-append request_identities mem rest = refl
  kind-append sign_request mem rest =
      rw (range-append mem (0 ∷ rest), range-append mem (0 ∷ [])) refl
  kind-append add_identity mem rest = rw (range-next mem 0 rest, range-next mem 0 []) refl
  kind-append add_id_constrained mem rest = rw (range-next mem 0 rest, range-next mem 0 []) refl
  kind-append remove_identity mem rest =
      rw (range-append mem (0 ∷ rest), range-append mem (0 ∷ [])) refl
  kind-append remove_all_identities mem rest = refl
  kind-append unknown mem rest = refl

  msg-append :
      (msglen type : ℕ) (mem rest : List ℕ)
      → msglen ≡ suc (length mem)
      → handle_msg env msglen (type ∷ (mem ++ 0 ∷ rest)) s
        ≡ handle_msg env msglen (type ∷ (mem ++ 0 ∷ [])) s
  unfolding handle_msg
  msg-append msglen type mem rest e =
      let z : (msglen == 0) ≡ false = ground (arith, e) in
      let n : msglen - 1 ≡ length mem = omega (arith, e) in
      rw (z, n, kind-append (kind_of type) mem rest) refl

  -- Any more memory behind the zero changes nothing.
  pub respond-append :
      (message rest : List ℕ)
      → 5 ≤ length message
      → get_32bit_msb_first message + 4 ≡ length message
      → pageant_handle_msg env (length message) (message ++ 0 ∷ rest) s ≡ respond env message s
  unfolding respond pageant_handle_msg pageant_failure_msg get_32bit_msb_first
  respond-append [] rest h e = absurd (omega arith)
  respond-append (a ∷ []) rest h e = absurd (omega arith)
  respond-append (a ∷ b ∷ []) rest h e = absurd (omega arith)
  respond-append (a ∷ b ∷ c ∷ []) rest h e = absurd (omega arith)
  respond-append (a ∷ b ∷ c ∷ d ∷ []) rest h e = absurd (omega arith)
  respond-append (a ∷ b ∷ c ∷ d ∷ type ∷ mem) rest h e =
      let message = a ∷ b ∷ c ∷ d ∷ type ∷ mem in
      let n : get_32bit_msb_first message ≡ suc (length mem) = omega (arith, e) in
      let long : (xs : List ℕ) → ltb (length (message ++ 0 ∷ xs)) 4 ≡ false = λ xs. ground arith in
      rw (long rest, long [], msg-append (get_32bit_msb_first message) type mem rest n) refl
