-- ===== src/Cipher/Des/Feistel.antt =====
-- The rounds of DES in one order undo the rounds in the other.
use pageant.Base.{
  ℕ, ◌+◌, ◌-◌, ◌*◌, ◌/◌, ◌%◌, ◌^◌, Bool, true, false, ltb, ◌&&◌, bit_or, bit_xor, ◌≡◌, refl, ap,
  ap₂, ◌∙◌, List, [], ◌∷◌, ◌++◌, arith, get_or, All, All-get_or,
}
use pageant.Base.Bits.{bit_xor-lt, bit_or-lt, xor_cancel, bit_or_fields}
use pageant.Word32.{shl, shr, rol}
use pageant.Word32.Blocks.{IsWord}
use pageant.Cipher.Des.{DesContext, Pair}
use pageant.Cipher.Des.Boxes.{
  sp_box0, sp_box1, sp_box2, sp_box3, sp_box4, sp_box5, sp_box6, sp_box7,
}
use pageant.Cipher.Des.Block.{
  in_box, f, exchange, two_rounds, rounds, rotl_both, crypt, initial_permutation, final_permutation,
  forwards, backwards, des_encipher, des_decipher,
}
use pageant.Cipher.Des.Swaps.{
  IsPair, pair, initial-final, final-initial, initial-IsPair, final-IsPair,
}

-- A rotation and the rotation by what it leaves to 32.
rol-rol1 : (x : ℕ) → IsWord x → rol (rol x 1) 31 ≡ x
unfolding rol
rol-rol1 x h =
    let high = x / 2 ^ 31 in
    let low = x % 2 ^ 31 in
    let a : shl x 1 ≡ low * 2 ^ 1 = omega arith in
    let b : bit_or (low * 2 ^ 1) high ≡ low * 2 ^ 1 + high =
      bit_or_fields 1 low high (omega arith) in
    let c : shl (low * 2 ^ 1 + high) 31 ≡ high * 2 ^ 31 = omega arith in
    let d : shr (low * 2 ^ 1 + high) 1 ≡ low = omega arith in
    let e : bit_or (high * 2 ^ 31) low ≡ high * 2 ^ 31 + low =
      bit_or_fields 31 high low (omega arith) in
    rw (a, b, c, d, e) (omega arith)

rol-rol31 : (x : ℕ) → IsWord x → rol (rol x 31) 1 ≡ x
unfolding rol
rol-rol31 x h =
    let high = x / 2 ^ 1 in
    let low = x % 2 ^ 1 in
    let a : shl x 31 ≡ low * 2 ^ 31 = omega arith in
    let b : bit_or (low * 2 ^ 31) high ≡ low * 2 ^ 31 + high =
      bit_or_fields 31 low high (omega arith) in
    let c : shl (low * 2 ^ 31 + high) 1 ≡ high * 2 ^ 1 = omega arith in
    let d : shr (low * 2 ^ 31 + high) 31 ≡ low = omega arith in
    let e : bit_or (high * 2 ^ 1) low ≡ high * 2 ^ 1 + low =
      bit_or_fields 1 high low (omega arith) in
    rw (a, b, c, d, e) (omega arith)

rol-IsWord : (x n : ℕ) → IsWord (shr x (32 - n)) → IsWord (rol x n)
unfolding rol
rol-IsWord x n h = bit_or-lt 32 (shl x n) (shr x (32 - n)) (omega arith) h

-- Every entry of a table is 32 bits wide, by test.
words : List ℕ → Bool
words [] = true
words (x ∷ xs) = ltb x 4294967296 && words xs

both_true : (a b : Bool) → (a && b) ≡ true → (a ≡ true) × (b ≡ true)
both_true true b e = (refl, e)
both_true false b e = absurd cc

words-All : (xs : List ℕ) → words xs ≡ true → All IsWord xs
unfolding words
words-All [] e = tt
words-All (x ∷ xs) e =
    let (l, k) = both_true (ltb x 4294967296) (words xs) e in (ground (arith, l), words-All xs k)

in_box-IsWord : (box : List ℕ) (s n : ℕ) → words box ≡ true → IsWord (in_box box s n)
unfolding in_box
in_box-IsWord box s n e = All-get_or IsWord box _ 0 (words-All box e) (omega arith)

f-IsWord : (r : ℕ) (k : ℕ × ℕ) → IsWord (f r k)
unfolding f words sp_box0 sp_box1 sp_box2 sp_box3 sp_box4 sp_box5 sp_box6 sp_box7
f-IsWord r (k0246, k1357) =
    let s = rol (bit_xor r k0246) 28 in
    let t = bit_xor r k1357 in
    both
      (both
        (both
          (both
            (both
              (both (both (in_box-IsWord sp_box0 s 24 refl) (in_box-IsWord sp_box1 t 24 refl))
                (in_box-IsWord sp_box2 s 16 refl))
              (in_box-IsWord sp_box3 t 16 refl))
            (in_box-IsWord sp_box4 s 8 refl))
          (in_box-IsWord sp_box5 t 8 refl))
        (in_box-IsWord sp_box6 s 0 refl))
      (in_box-IsWord sp_box7 t 0 refl)
  where
    both : {a b : ℕ} → IsWord a → IsWord b → IsWord (bit_or a b)
    both {a = a} {b = b} h k = bit_or-lt 32 a b h k

rounds-IsPair :
    (sched : DesContext) (is : List (ℕ × ℕ)) (x : Pair) → IsPair x → IsPair (rounds sched is x)
unfolding rounds two_rounds
rounds-IsPair sched [] x h = h
rounds-IsPair sched ((i, j) ∷ is) x (hl, hr) =
    let l = bit_xor x.l (f x.r (get_or sched.k i (0, 0))) in
    rounds-IsPair sched is (two_rounds sched i j x) (
      bit_xor-lt 32 x.l _ hl (f-IsWord x.r (get_or sched.k i (0, 0))),
      bit_xor-lt 32 x.r _ hr (f-IsWord l (get_or sched.k j (0, 0))),
    )

-- The order that undoes an order.
pub undo : List (ℕ × ℕ) → List (ℕ × ℕ)
undo [] = []
undo ((i, j) ∷ is) = undo is ++ (j, i) ∷ []

rounds-append :
    (sched : DesContext) (is : List (ℕ × ℕ)) (i j : ℕ) (x : Pair)
    → rounds sched (is ++ (i, j) ∷ []) x ≡ two_rounds sched i j (rounds sched is x)
unfolding rounds
rounds-append sched [] i j x = refl
rounds-append sched ((a, b) ∷ is) i j x = rounds-append sched is i j (two_rounds sched a b x)

two_rounds-undo :
    (sched : DesContext) (i j : ℕ) (x : Pair)
    → two_rounds sched j i (exchange (two_rounds sched i j x)) ≡ exchange x
unfolding two_rounds
two_rounds-undo sched i j x =
    let l = bit_xor x.l (f x.r (get_or sched.k i (0, 0))) in
    let b : bit_xor (bit_xor x.r (f l (get_or sched.k j (0, 0)))) (f l (get_or sched.k j (0, 0)))
        ≡ x.r =
      xor_cancel x.r (f l (get_or sched.k j (0, 0))) in
    ap₂ pair b (
      ap (λ (t : ℕ). bit_xor l (f t (get_or sched.k i (0, 0)))) b
      ∙ xor_cancel x.l (f x.r (get_or sched.k i (0, 0))))

rounds-undo :
    (sched : DesContext) (is : List (ℕ × ℕ)) (x : Pair)
    → rounds sched (undo is) (exchange (rounds sched is x)) ≡ exchange x
unfolding undo rounds
rounds-undo sched [] x = refl
rounds-undo sched ((i, j) ∷ is) x =
    let y = two_rounds sched i j x in
    rounds-append sched (undo is) j i (exchange (rounds sched is y))
    ∙ (ap (two_rounds sched j i) (rounds-undo sched is y) ∙ two_rounds-undo sched i j x)

rotl_both-undo1 : (x : Pair) → IsPair x → rotl_both 31 (rotl_both 1 x) ≡ x
unfolding rotl_both
rotl_both-undo1 x (hl, hr) = ap₂ pair (rol-rol1 x.l hl) (rol-rol1 x.r hr)

rotl_both-undo31 : (x : Pair) → IsPair x → rotl_both 1 (rotl_both 31 x) ≡ x
unfolding rotl_both
rotl_both-undo31 x (hl, hr) = ap₂ pair (rol-rol31 x.l hl) (rol-rol31 x.r hr)

rotl_both-exchange : (n : ℕ) (x : Pair) → rotl_both n (exchange x) ≡ exchange (rotl_both n x)
unfolding rotl_both
rotl_both-exchange n x = refl

rotl_both1-IsPair : (x : Pair) → IsPair x → IsPair (rotl_both 1 x)
unfolding rotl_both
rotl_both1-IsPair x (hl, hr) = (rol-IsWord x.l 1 (omega arith), rol-IsWord x.r 1 (omega arith))

rotl_both31-IsPair : (x : Pair) → IsPair x → IsPair (rotl_both 31 x)
unfolding rotl_both
rotl_both31-IsPair x (hl, hr) = (rol-IsWord x.l 31 (omega arith), rol-IsWord x.r 31 (omega arith))

pub crypt-IsPair :
    (is : List (ℕ × ℕ)) (sched : DesContext) (l r : ℕ)
    → IsWord l
    → IsWord r
    → IsPair (crypt is sched l r)
unfolding crypt
crypt-IsPair is sched l r hl hr =
    let x = rotl_both 1 (initial_permutation (pair l r)) in
    let hx = rotl_both1-IsPair _ (initial-IsPair (pair l r) (hl, hr)) in
    let hy = rotl_both31-IsPair _ (rounds-IsPair sched is x hx) in
    final-IsPair (exchange (rotl_both 31 (rounds sched is x))) (hy.1, hy.0)

pub crypt-undo :
    (is : List (ℕ × ℕ)) (sched : DesContext) (l r : ℕ)
    → IsWord l
    → IsWord r
    → let c = crypt is sched l r in crypt (undo is) sched c.l c.r ≡ pair l r
unfolding crypt
crypt-undo is sched l r hl hr =
    let p = initial_permutation (pair l r) in
    let x = rotl_both 1 p in
    let y = rounds sched is x in
    let z = rotl_both 31 y in
    let hp = initial-IsPair (pair l r) (hl, hr) in
    let hy = rounds-IsPair sched is x (rotl_both1-IsPair p hp) in
    let after : Pair → Pair = λ v. final_permutation (exchange (rotl_both 31 v)) in
    ap (λ (v : Pair). after (rounds sched (undo is) (rotl_both 1 v))) (initial-final (exchange z))
    ∙ (ap (λ (v : Pair). after (rounds sched (undo is) v))
          (rotl_both-exchange 1 z ∙ ap exchange (rotl_both-undo31 y hy))
        ∙ (ap after (rounds-undo sched is x)
            ∙ (ap (λ (v : Pair). final_permutation (exchange v))
                  (rotl_both-exchange 31 x ∙ ap exchange (rotl_both-undo1 p hp))
                ∙ final-initial (pair l r))))

-- For any key schedule and two words below 2 ^ 32, `des_decipher` undoes `des_encipher`, and
-- `des_encipher` undoes `des_decipher`.
pub decipher-encipher :
    (sched : DesContext) (l r : ℕ)
    → IsWord l
    → IsWord r
    → ((let c = des_encipher sched l r in des_decipher sched c.l c.r) ≡ record { l = l; r = r })
      × ((let c = des_decipher sched l r in des_encipher sched c.l c.r) ≡ record { l = l; r = r })
unfolding des_encipher des_decipher undo
decipher-encipher sched l r hl hr =
    (crypt-undo forwards sched l r hl hr, crypt-undo backwards sched l r hl hr)
