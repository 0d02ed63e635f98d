-- ===== src/Agent/Wire/Strings.antt =====
-- Strings, requests and replies are read back as they were written.
use pageant.Base.{
  ℕ, zero, suc, ◌+◌, ◌-◌, ◌^◌, ◌<◌, true, false, ◌≡◌, refl, sym, ap, ◌∙◌, some, List, [], ◌∷◌, ◌++◌,
  arith, ltb, length, length-append, take, drop,
}
use pageant.Word32.{get_32bit_msb_first, put_32bit_msb_first}
use pageant.Word32.Bytes.{msb-IsOrder}
use pageant.Agent.Wire.{rfc4251_string}

pub drop-append : (xs ys : List ℕ) → drop (length xs) (xs ++ ys) ≡ ys
drop-append [] ys = refl
drop-append (x ∷ xs) ys = drop-append xs ys

pub take-append : (xs ys : List ℕ) → take (length xs) (xs ++ ys) ≡ xs
take-append [] ys = refl
take-append (x ∷ xs) ys = ap (◌∷◌ x) (take-append xs ys)

drop-nil : (n : ℕ) → drop {A = ℕ} n [] ≡ []
drop-nil zero = refl
drop-nil (suc n) = refl

drop_add : (m n : ℕ) (xs : List ℕ) → drop (m + n) xs ≡ drop n (drop m xs)
drop_add zero n xs = let e : zero + n ≡ n = omega arith in ap (λ (k : ℕ). drop k xs) e
drop_add (suc m) n [] = drop-nil (suc m + n) ∙ sym (drop-nil n)
drop_add (suc m) n (x ∷ xs) =
    let e : suc m + n ≡ suc (m + n) = omega arith in
    ap (λ (k : ℕ). drop k (x ∷ xs)) e ∙ drop_add m n xs

-- A string behind anything is read back, and the position is behind it.
pub rfc4251_string-put :
    (pre string rest : List ℕ)
    → length string < 2 ^ 31
    → rfc4251_string (pre ++ (put_32bit_msb_first (length string) ++ (string ++ rest))) (length pre)
      ≡ some (length pre + 4 + length string, string)
unfolding rfc4251_string
rfc4251_string-put pre string rest h =
    let word = put_32bit_msb_first (length string) in
    let src = pre ++ (word ++ (string ++ rest)) in
    let w = msb-IsOrder.length-put (length string) in
    let d1 = drop-append pre (word ++ (string ++ rest)) in
    let l : length src ≡ length pre + 4 + length string + length rest = omega (
      arith,
      w,
      length-append pre (word ++ (string ++ rest)),
      length-append word (string ++ rest),
      length-append string rest,
    ) in
    let d2 : drop (length pre + 4) src ≡ string ++ rest =
      drop_add (length pre) 4 src
      ∙ ap (drop 4) d1
      ∙ ap (λ (k : ℕ). drop k (word ++ (string ++ rest))) (sym w)
      ∙ drop-append word (string ++ rest) in
    let g : get_32bit_msb_first (drop (length pre) src) ≡ length string =
      ap get_32bit_msb_first d1
      ∙ msb-IsOrder.get-put (length string) (string ++ rest) (omega arith) in
    let s : ltb (length string) (2 ^ 31) ≡ true = ground arith in
    let e : ltb (length src) (length pre + 4) ≡ false = ground (arith, l) in
    let f : ltb (length src - length pre - 4) (length string) ≡ false = ground (arith, l) in
    rw (g, s, e, f, d2, take-append string rest) refl

-- The same, for a source and a position given by equations.
pub rfc4251_string-at :
    (src pre string rest : List ℕ) (pos : ℕ)
    → src ≡ pre ++ (put_32bit_msb_first (length string) ++ (string ++ rest))
    → pos ≡ length pre
    → length string < 2 ^ 31
    → rfc4251_string src pos ≡ some (pos + 4 + length string, string)
rfc4251_string-at src pre string rest pos e f h = rw (e, f) (rfc4251_string-put pre string rest h)

pub drop-at :
    (src pre rest : List ℕ) (pos : ℕ) → src ≡ pre ++ rest → pos ≡ length pre → drop pos src ≡ rest
drop-at src pre rest pos e f = rw (e, f) (drop-append pre rest)
