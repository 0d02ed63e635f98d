-- ===== src/Agent/Client.antt =====
-- The side that asks for the list of keys: parse_public_keys of ckey.cpp and pageant_get_keylist of
-- pageant.cpp.
use pageant.Base.{
  ℕ, zero, suc, ◌+◌, ◌-◌, ◌^◌, ◌<◌, ◌≤◌, Bool, true, false, ◌||◌, not, Option, none, some, List, [],
  ◌∷◌, ◌++◌, ltb, leb, ◌==◌, if◌then◌else◌, length, get_or, take, drop,
}
use pageant.Word32.{get_32bit_msb_first, put_32bit_msb_first}
use pageant.Agent.Action.{Result, ok, failed, fault, Action, and_then}
use pageant.Agent.Wire.{to_size}
use pageant.Agent.Keys.{Algorithms, Key, parse_one_public_key, copy_key}
pub mod Keylist
pub mod Listing

module _ (algs : Algorithms) where
  -- One key: its result, and where the next one begins. The length of the key is compared before the
  -- four bytes of the length word are taken off: a key of which up to four bytes are missing is read
  -- past the end, which is a fault.
  unfoldable pub parse_listed : List ℕ → Result (Key algs × List ℕ)
  parse_listed msg =
      let key_len = to_size (get_32bit_msb_first msg) in
      let after = drop key_len (drop 4 msg) in
      let comment_len = to_size (get_32bit_msb_first after) in
      if ltb (length msg) 4
      then failed
      else if ltb (length msg) key_len
      then failed
      else if ltb (length msg) (4 + key_len)
      then fault
      else and_then (parse_one_public_key algs (take key_len (drop 4 msg))) λ key.
        if ltb (length after) 4
        then failed
        else if ltb (length after) (4 + comment_len)
        then failed
        else ok (key, drop comment_len (drop 4 after))

  -- The loop. `push_back` puts a copy of the key into `keys`. On a failure the keys that were read so
  -- far stay there.
  unfoldable pub parse_keys_loop :
      ℕ → List ℕ → List (Key algs) → Result (Unit {0}) × List (Key algs)
  unfolding parse_listed copy_key
  parse_keys_loop zero msg keys = (ok tt, keys)
  parse_keys_loop (suc i) msg keys = elim (parse_listed msg) [
    | ok (key, rest) ↦ elim (copy_key key) [
      | ok c ↦ parse_keys_loop i rest (keys ++ c ∷ [])
      | failed ↦ (failed, keys)
      | fault ↦ (fault, keys)
    ]
    | failed ↦ (failed, keys)
    | fault ↦ (fault, keys)
  ]

  -- A count that is negative as an `int` makes no round.
  unfoldable pub parse_public_keys : List ℕ → Result (Unit {0}) × List (Key algs)
  unfolding parse_keys_loop
  parse_public_keys msg =
      let count = get_32bit_msb_first msg in
      if ltb (length msg) 4
      then (failed, [])
      else parse_keys_loop (if leb (2 ^ 31) count then 0 else count) (drop 4 msg) []

  -- `failed` is EINVAL, the value of `keys` comes with it.
  unfoldable pub pageant_get_keylist :
      (List ℕ → Option (List ℕ)) → Result (Unit {0}) × List (Key algs)
  unfolding parse_public_keys
  pageant_get_keylist query_func = elim (query_func (put_32bit_msb_first 1 ++ 11 ∷ [])) [
    | none ↦ (failed, [])
    | some response ↦
        if ltb (length response) 5 || not (get_or response 4 0 == 12)
        then (failed, [])
        else parse_public_keys (drop 5 response)
  ]
