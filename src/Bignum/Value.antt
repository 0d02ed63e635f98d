-- ===== src/Bignum/Value.antt =====
-- The number that a Bignum stands for, and what makes one well formed.
use pageant.Base.{ℕ, ◌+◌, ◌*◌, ◌^◌, ◌<◌, ◌≢◌, List, [], ◌∷◌, arith, length, All}
use pageant.Bignum.{word_base}
use native.Mathlib.Nat.{pow-suc}

unfoldable pub value : List ℕ → ℕ
value [] = 0
value (w ∷ ws) = w + word_base * value ws

-- Every element fits a word.
abbrev pub Words : List ℕ → Type 0
Words = All (λ w. w < word_base)

-- The most significant word is not zero.
abbrev pub TopNonzero : List ℕ → Type 0
TopNonzero [] = Unit
TopNonzero (w ∷ []) = w ≢ 0
TopNonzero (w ∷ x ∷ xs) = TopNonzero (x ∷ xs)

pub value-lt : (b : List ℕ) → Words b → value b < word_base ^ length b
unfolding value
value-lt [] h = omega arith
value-lt (w ∷ ws) (p, h) = omega (arith, value-lt ws h, pow-suc word_base (length ws))
