-- ===== src/Bignum/Restore.antt =====
-- `bn_restore_invariant` of sshbn.c: the count drops past zero words at the top, down to 1.
use pageant.Base.{
  ℕ, zero, suc, ◌*◌, ◌^◌, ◌<◌, ◌≡◌, ◌≢◌, ◌⊎◌, inl, inr, refl, sym, ap, ◌∙◌, List, [], ◌∷◌, arith,
  ◌==◌, length, get_or, take, All-take, Bool-cases,
}
use pageant.Bignum.{word_base, Bignum, restored_length, bn_restore_invariant}
use pageant.Bignum.Value.{value, Words, TopNonzero}
use pageant.Bignum.Compare.{value-take-suc, value-take_all, IsBignum}

-- The top word of a prefix.
take-TopNonzero : (n : ℕ) (ws : List ℕ) → get_or ws n 0 ≢ 0 → TopNonzero (take (suc n) ws)
take-TopNonzero n [] h = tt
take-TopNonzero zero (w ∷ ws) h = h
take-TopNonzero (suc n) (w ∷ []) h = absurd (h refl)
take-TopNonzero (suc n) (w ∷ x ∷ xs) h = take-TopNonzero n (x ∷ xs) h

restored_length-lem_value :
    (ws : List ℕ) (n : ℕ) → value (take (restored_length ws n) ws) ≡ value (take n ws)
unfolding restored_length
restored_length-lem_value ws zero = refl
restored_length-lem_value ws (suc zero) = refl
restored_length-lem_value ws (suc (suc n)) = elim (Bool-cases (get_or ws (suc n) 0 == 0)) [
  | inl e ↦
      let z : get_or ws (suc n) 0 ≡ 0 = ground arith in
      rw e (
        restored_length-lem_value ws (suc n)
        ∙ sym (value-take-suc (suc n) ws ∙ omega (arith, ap (λ (t : ℕ). word_base ^ suc n * t) z)))
  | inr e ↦ rw e refl
]

single-IsTop : (ws : List ℕ) → TopNonzero (take 1 ws) ⊎ (take 1 ws ≡ 0 ∷ [])
single-IsTop [] = inl tt
single-IsTop (zero ∷ ws) = inr refl
single-IsTop (suc w ∷ ws) = inl (λ e. omega arith)

restored_length-IsTop :
    (ws : List ℕ) (n : ℕ)
    → TopNonzero (take (restored_length ws n) ws) ⊎ (take (restored_length ws n) ws ≡ 0 ∷ [])
unfolding restored_length
restored_length-IsTop ws zero = inl tt
restored_length-IsTop ws (suc zero) = single-IsTop ws
restored_length-IsTop ws (suc (suc n)) = elim (Bool-cases (get_or ws (suc n) 0 == 0)) [
  | inl e ↦ rw e (restored_length-IsTop ws (suc n))
  | inr e ↦ rw e (inl (take-TopNonzero (suc n) ws (λ z. ground arith)))
]

-- For a number whose elements fit their words, `bn_restore_invariant` keeps the value and gives a
-- well-formed number: its top word is not zero, or it is the single word zero.
pub bn_restore_invariant-IsBignum :
    (b : Bignum)
    → Words b
    → (value (bn_restore_invariant b) ≡ value b) × IsBignum (bn_restore_invariant b)
unfolding bn_restore_invariant
bn_restore_invariant-IsBignum b h = (
  restored_length-lem_value b (length b) ∙ value-take_all (length b) b (omega arith),
  (
    All-take (λ w. w < word_base) (restored_length b (length b)) b h,
    restored_length-IsTop b (length b),
  ),
)
