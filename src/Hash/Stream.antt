-- ===== src/Hash/Stream.antt =====
-- The outer algorithm of SHA-1, SHA-256 and MD5: `…_Init`, `…_Bytes`, `…_Final`, over a core that
-- processes one block of 64 bytes.
use pageant.Base.{
  ℕ, zero, suc, ◌+◌, ◌-◌, ◌*◌, ◌/◌, ◌%◌, ◌^◌, bit_or, Bool, ◌||◌, List, [], ◌∷◌, ◌++◌, ltb, leb,
  if◌then◌else◌, length, take, drop, replicate,
}

-- What is particular to one of the hashes: its core state, its block function on 64 bytes, the test
-- of `…_Bytes` for "just add to the block" on `blkused` and `len`, the test of its loop
-- `blkused + len >= 64`, each in the width and the sign of the source's sum, the order in which `…_Final`
-- stores the two words of the length, and how it stores the digest.
pub record Core : Type 1 where
  pub H : Type 0
  pub initial : H
  pub block : H → List ℕ → H
  pub just_add : ℕ → ℕ → Bool
  pub more : ℕ → ℕ → Bool
  pub store_length : ℕ → ℕ → List ℕ
  pub digest : H → List ℕ

-- `blkused + len` as an `int`, in two's complement: a sum from 2 ^ 31 on is negative.
abbrev pub int_below : ℕ → ℕ → Bool
int_below sum bound = ltb (sum % 2 ^ 32) bound || leb (2 ^ 31) (sum % 2 ^ 32)

-- The same sum as a `uint32`.
abbrev pub uint_below : ℕ → ℕ → Bool
uint_below sum bound = ltb (sum % 2 ^ 32) bound

-- The state. `block` holds the bytes of the source's array that are in use, so `blkused` is its
-- length. A block of more than 64 bytes is an array that was written past its end, what a sum that
-- wraps around leads to.
pub record State (core : Core) : Type 0 where
  pub h : core.H
  pub block : List ℕ
  pub lenhi : ℕ
  pub lenlo : ℕ

module _ (core : Core) where
  unfoldable pub init : State core
  init = record { h = core.initial; block = []; lenhi = 0; lenlo = 0 }

  -- `while (blkused + len >= 64)`, the sum as wide as the core's: the block is filled up and processed. The result is the core
  -- state and the data that is left. Each round but the first takes 64 bytes.
  unfoldable pub complete_blocks : ℕ → core.H → List ℕ → List ℕ → core.H × List ℕ
  complete_blocks zero h block q = (h, q)
  complete_blocks (suc fuel) h block q =
      let room = 64 - length block in
      let later = complete_blocks fuel (core.block h (block ++ take room q)) [] (drop room q) in
      if core.more (length block) (length q) then later else (h, q)

  unfoldable pub bytes : State core → List ℕ → State core
  unfolding complete_blocks
  bytes s q =
      let len = length q in
      let lenlo = (s.lenlo + len) % 2 ^ 32 in
      let lenhi = (s.lenhi + (if ltb lenlo (len % 2 ^ 32) then 1 else 0)) % 2 ^ 32 in
      let rounds = complete_blocks (length s.block + len) s.h s.block q in
      if core.just_add (length s.block) len
      then record { h = s.h; block = s.block ++ q; lenhi = lenhi; lenlo = lenlo }
      else record { h = rounds.0; block = rounds.1; lenhi = lenhi; lenlo = lenlo }

  -- The number of padding bytes.
  unfoldable pub pad_length : ℕ → ℕ
  pad_length blkused = if leb 56 blkused then 56 + 64 - blkused else 56 - blkused

  unfoldable pub final : State core → List ℕ
  unfolding bytes pad_length
  final s =
      let lenhi = bit_or (s.lenhi * 2 ^ 3 % 2 ^ 32) (s.lenlo / 2 ^ (32 - 3)) in
      let lenlo = s.lenlo * 2 ^ 3 % 2 ^ 32 in
      let padded = bytes s (0x80 ∷ replicate (pad_length (length s.block) - 1) 0) in
      core.digest (bytes padded (core.store_length lenhi lenlo)).h

  unfoldable pub simple : List ℕ → List ℕ
  unfolding init bytes final
  simple p = final (bytes init p)
