-- ===== src/Agent/Constraints.antt =====
-- The loop over the constraints of SSH2_AGENTC_ADD_ID_CONSTRAINED, in pageant.cpp.
pub mod Parsing
use pageant.Base.{
  ℕ, zero, suc, ◌+◌, Bool, true, false, List, [], ◌∷◌, ltb, ◌==◌, if◌then◌else◌, length, drop,
  Option, none, some,
}
use pageant.Word32.{get_32bit_msb_first}
use pageant.Agent.Action.{Result, ok, failed, fault}
use pageant.Agent.Keys.{Algorithms, Key}

module _ {algs : Algorithms} where
  abbrev pub set_lifetime : ℕ → ℕ → Key algs → Key algs
  set_lifetime now seconds key = record key { expiration_date = now + seconds }

  -- `rest` is the blob from `pos` on, so `left` is its length. `blob[pos++]` at the end of the blob is a
  -- read past it; `left--` then wraps around, but the read comes first. Each round takes a byte: the
  -- length of the blob is fuel enough. `none` is the loop that is cut off, the fuel spent.
  unfoldable pub constraints_loop : ℕ → ℕ → List ℕ → Key algs → Option (Result (Key algs))
  constraints_loop zero now rest key = none
  constraints_loop (suc fuel) now [] key = some fault
  constraints_loop (suc fuel) now (constrain_type ∷ rest) key =
      let limited = set_lifetime now (get_32bit_msb_first rest) key in
      let confirmed = record key { confirmation_required = true } in
      let after_lifetime =
        if length (drop 4 rest) == 0
        then some (ok limited)
        else constraints_loop fuel now (drop 4 rest) limited in
      let after_confirm =
        if length rest == 0
        then some (ok confirmed)
        else constraints_loop fuel now rest confirmed in
      if constrain_type == 1
      then if ltb (length rest) 4 then some (ok key) else after_lifetime
      else if constrain_type == 2
      then after_confirm
      else some (ok key)

  -- A loop without end would be a fault; there is none.
  abbrev pub ended : Option (Result (Key algs)) → Result (Key algs)
  ended none = fault
  ended (some r) = r

  unfoldable pub parse_constraints : ℕ → List ℕ → Key algs → Result (Key algs)
  unfolding constraints_loop
  parse_constraints now rest key = ended (constraints_loop (suc (length rest)) now rest key)
