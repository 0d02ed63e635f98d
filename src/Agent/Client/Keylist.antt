-- ===== src/Agent/Client/Keylist.antt =====
-- The list that a client reads out of the agent's answer.
use pageant.Base.{
  ℕ, suc, ◌+◌, ◌^◌, ◌<◌, true, false, ◌≡◌, refl, sym, ap, ◌∙◌, Option, some, List, [], ◌∷◌, ◌++◌,
  map, append_assoc, append-nil, arith, ltb, leb, length, length-append, All,
}
use pageant.Word32.{put_32bit_msb_first}
use pageant.Word32.Bytes.{msb-IsOrder}
use pageant.Agent.Action.{ok}
use pageant.Agent.Wire.Strings.{drop-append, take-append}
use pageant.Agent.Keys.{Algorithms, Key, public_blob, parse_one_public_key, copyable, copy_key}
use pageant.Agent.Client.{parse_listed, parse_keys_loop, parse_public_keys, pageant_get_keylist}
use pageant.Agent.Handler.{blob_entries, make_pubkey_blob}

module _ {algs : Algorithms} (as_read : Key algs → Key algs) where
  -- A key whose public blob is read as `as_read` says, into a key that can be copied, and whose lengths are those of an `int`.
  abbrev pub IsListable : Key algs → Type 0
  IsListable key =
      (parse_one_public_key algs (public_blob key) ≡ ok (as_read key))
      × (copyable (as_read key) ≡ true)
      × (length (public_blob key) < 2 ^ 31)
      × (length key.comment < 2 ^ 31)

  parse_listed-entry :
      (key : Key algs) (rest : List ℕ)
      → IsListable key
      → parse_listed algs (
          put_32bit_msb_first (length (public_blob key))
          ++ (public_blob key
              ++ (put_32bit_msb_first (length key.comment) ++ (key.comment ++ rest))))
        ≡ ok (as_read key, rest)
  unfolding parse_listed put_32bit_msb_first
  parse_listed-entry key rest (p, c, h, g) =
      let blob = public_blob key in
      let word = put_32bit_msb_first (length key.comment) in
      let tail = word ++ (key.comment ++ rest) in
      let n1 = length-append blob tail in
      let n2 = length-append key.comment rest in
      let g1 = msb-IsOrder.get-put (length blob) (blob ++ tail) (omega (arith, h)) in
      let g2 = msb-IsOrder.get-put (length key.comment) (key.comment ++ rest) (omega (arith, g)) in
      let s1 : ltb (length blob) (2 ^ 31) ≡ true = ground (arith, h) in
      let s2 : ltb (length key.comment) (2 ^ 31) ≡ true = ground (arith, g) in
      let msg = put_32bit_msb_first (length blob) ++ (blob ++ tail) in
      let d1 = drop-append blob tail in
      let d2 = drop-append key.comment rest in
      let l1 : ltb (length msg) 4 ≡ false = ground (arith, n1) in
      let l2 : ltb (length msg) (length blob) ≡ false = ground (arith, n1) in
      let l3 : ltb (length msg) (4 + length blob) ≡ false = ground (arith, n1) in
      let l4 : ltb (length tail) 4 ≡ false = ground (arith, n2) in
      let l5 : ltb (length tail) (4 + length key.comment) ≡ false = ground (arith, n2) in
      rw (parse_listed, g1, s1, d1, take-append blob tail, g2, s2, d2, l1, l2, l3, l4, l5, p) refl

  parse_keys_loop-step :
      (i : ℕ) (msg rest : List ℕ) (key : Key algs) (given : List (Key algs))
      → parse_listed algs msg ≡ ok (key, rest)
      → copyable key ≡ true
      → parse_keys_loop algs (suc i) msg given ≡ parse_keys_loop algs i rest (given ++ key ∷ [])
  unfolding parse_keys_loop copy_key
  parse_keys_loop-step i msg rest key given e c = rw (parse_keys_loop, e, c) refl

  parse_keys_loop-entries :
      (keys given : List (Key algs))
      → All IsListable keys
      → parse_keys_loop algs (length keys) (blob_entries keys) given
        ≡ (ok tt, given ++ map as_read keys)
  unfolding parse_keys_loop blob_entries
  parse_keys_loop-entries [] given h =
      ap (λ (ks : List (Key algs)). (ok tt, ks)) (sym (append-nil given))
  parse_keys_loop-entries (key ∷ keys) given (p, h) =
      parse_keys_loop-step (length keys) (blob_entries (key ∷ keys)) (blob_entries keys)
        (as_read key) given (parse_listed-entry key (blob_entries keys) p) p.1
      ∙ parse_keys_loop-entries keys (given ++ as_read key ∷ []) h
      ∙ ap (λ (ks : List (Key algs)). (ok tt, ks))
          (append_assoc given (as_read key ∷ []) (map as_read keys))

  pub parse_public_keys-make :
      (keys : List (Key algs))
      → All IsListable keys
      → length keys < 2 ^ 31
      → parse_public_keys algs (make_pubkey_blob keys) ≡ (ok tt, map as_read keys)
  unfolding parse_public_keys make_pubkey_blob put_32bit_msb_first
  parse_public_keys-make keys h n =
      let g = msb-IsOrder.get-put (length keys) (blob_entries keys) (omega (arith, n)) in
      let l : leb (2 ^ 31) (length keys) ≡ false = ground (arith, n) in
      let s : ltb (length (make_pubkey_blob keys)) 4 ≡ false = ground arith in
      rw (g, l, s) (parse_keys_loop-entries keys [] h)

  -- The list that a client gets is what it can read of the agent's keys, in their order.
  pub pageant_get_keylist-reply :
      (keys : List (Key algs)) (n : ℕ) (query_func : List ℕ → Option (List ℕ))
      → All IsListable keys
      → length keys < 2 ^ 31
      → query_func (put_32bit_msb_first 1 ++ 11 ∷ [])
        ≡ some (put_32bit_msb_first n ++ 12 ∷ make_pubkey_blob keys)
      → pageant_get_keylist algs query_func ≡ (ok tt, map as_read keys)
  unfolding pageant_get_keylist put_32bit_msb_first
  pageant_get_keylist-reply keys n query_func h l q =
      let e : ltb (length (put_32bit_msb_first n ++ 12 ∷ make_pubkey_blob keys)) 5 ≡ false =
        ground arith in
      rw (pageant_get_keylist, q, e) (parse_public_keys-make keys h l)
