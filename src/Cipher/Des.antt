-- ===== src/Cipher/Des.antt =====
-- sshdes.c: DES and triple DES. A context holds, for each round, the two words of
-- `k0246` and `k1357`, and the chaining value.
pub mod Boxes
pub mod Schedule
pub mod Block
mod Swaps
pub mod Feistel
pub mod Modes
pub mod Keys
mod Chain
mod Counter
pub mod Undo
pub mod Ssh1
use pageant.Base.{ℕ, List}

pub record DesContext : Type 0 where
  pub k : List (ℕ × ℕ)
  pub iv0 : ℕ
  pub iv1 : ℕ

-- The variables `L` and `R`, and the two words of `output`.
pub record Pair : Type 0 where
  pub l : ℕ
  pub r : ℕ
