-- ===== src/Word32/Blocks.antt =====
-- Buffers that are read and written two words at a time.
use pageant.Base.{
  ℕ, ◌+◌, ◌%◌, ◌^◌, ◌<◌, ◌≤◌, ◌≡◌, refl, ap, ◌∙◌, List, [], ◌∷◌, ◌++◌, arith, drop, length,
  length-drop, length-append, All, All-drop,
}
use pageant.Word32.Bytes.{IsByte, IsOrder}

abbrev pub IsWord : ℕ → Type 0
IsWord x = x < 2 ^ 32

-- A buffer that a cipher's modes accept: bytes, in whole blocks.
abbrev pub IsBlocks : List ℕ → Type 0
IsBlocks blk = All IsByte blk × (length blk % 8 ≡ 0)

drop_twice : (xs : List ℕ) → drop 8 xs ≡ drop 4 (drop 4 xs)
drop_twice [] = refl
drop_twice (a ∷ []) = refl
drop_twice (a ∷ b ∷ []) = refl
drop_twice (a ∷ b ∷ c ∷ []) = refl
drop_twice (a ∷ b ∷ c ∷ d ∷ xs) = refl

module _ {get : List ℕ → ℕ} {put : ℕ → List ℕ} (law : IsOrder get put) where
  -- The words of one block that the loops store are those they read, and the rest stays.
  pub get-block :
      (l r : ℕ) (rest : List ℕ)
      → IsWord l
      → IsWord r
      → let c = put l ++ (put r ++ rest) in (get c ≡ l) × ((get (drop 4 c) ≡ r) × (drop 8 c ≡ rest))
  get-block l r rest hl hr =
      let c = put l ++ (put r ++ rest) in
      let e = law.drop-put l (put r ++ rest) in
      (
        law.get-put l (put r ++ rest) hl,
        (ap get e ∙ law.get-put r rest hr, drop_twice c ∙ ap (drop 4) e ∙ law.drop-put r rest),
      )

  pub put-block :
      (blk : List ℕ)
      → All IsByte blk
      → 8 ≤ length blk
      → put (get blk) ++ (put (get (drop 4 blk)) ++ drop 8 blk) ≡ blk
  put-block blk h k =
      ap (λ (t : List ℕ). put (get blk) ++ t)
        (rw (drop_twice blk)
          (law.put-get (drop 4 blk) (All-drop IsByte 4 blk h) (omega (arith, length-drop 4 blk))))
      ∙ law.put-get blk h (omega arith)

  pub length-block : (l r : ℕ) (rest : List ℕ) → length (put l ++ (put r ++ rest)) ≡ 8 + length rest
  length-block l r rest = omega (
    arith,
    length-append (put l) (put r ++ rest),
    length-append (put r) rest,
    law.length-put l,
    law.length-put r,
  )
