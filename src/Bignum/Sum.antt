-- ===== src/Bignum/Sum.antt =====
-- What `bigadd` and `bigsub` compute, from one lemma on their common loop.
use pageant.Base.{
  ℕ, zero, suc, ◌+◌, ◌*◌, ◌^◌, ◌≤◌, ◌<◌, max, ◌≡◌, ◌≢◌, ◌⊎◌, inl, inr, refl, sym, ap, ◌∙◌, false,
  not, ◌&&◌, none, some, List, [], ◌∷◌, arith, ltb, ◌==◌, if◌then◌else◌, length, take, All-take,
}
use pageant.Bignum.{word_base, complement, first, rest, adc, adc_loop, Bignum, bigadd, bigsub}
use pageant.Bignum.Value.{value, Words, TopNonzero, value-lt}
use mathlib.Core.Path.{subst}
use native.Mathlib.Nat.{pow-suc, mul_comm}
use native.Mathlib.Numerals.{add-one}

adc_lem :
    (a b c : ℕ)
    → a < word_base
    → b < word_base
    → c ≤ 1
    → ((adc a b c).word + word_base * (adc a b c).carry ≡ a + b + c)
      × ((adc a b c).word < word_base)
      × ((adc a b c).carry ≤ 1)
unfolding adc
adc_lem a b c ha hb hc = omega arith

-- The first `n` words of a Bignum padded with zeros, each changed by `f`, as a number.
padded : (ℕ → ℕ) → ℕ → List ℕ → ℕ
padded f zero b = 0
padded f (suc n) b = f (first b) + word_base * padded f n (rest b)

first-lt : (b : List ℕ) → Words b → first b < word_base
first-lt [] h = omega arith
first-lt (w ∷ ws) h = h.0

rest-Words : (b : List ℕ) → Words b → Words (rest b)
rest-Words [] h = tt
rest-Words (w ∷ ws) h = h.1

padded-eq-value : (n : ℕ) (b : List ℕ) → length b ≤ n → padded (λ x. x) n b ≡ value b
unfolding padded value
padded-eq-value zero [] h = refl
padded-eq-value zero (w ∷ ws) h = absurd (omega arith)
padded-eq-value (suc n) [] h = omega (arith, padded-eq-value n [] (omega arith))
padded-eq-value (suc n) (w ∷ ws) h = omega (arith, padded-eq-value n ws (omega arith))

padded-complement :
    (n : ℕ) (b : List ℕ) → Words b → padded complement n b + padded (λ x. x) n b + 1 ≡ word_base ^ n
unfolding padded
padded-complement zero b h = omega arith
padded-complement (suc n) b h =
    omega (arith, first-lt b h, padded-complement n (rest b) (rest-Words b h), pow-suc word_base n)

-- The loop adds: no carry is lost.
module _ (of_b : ℕ → ℕ) (of_b-lt : (w : ℕ) → w < word_base → of_b w < word_base) where
  adc_loop-value :
      (n i : ℕ) (a b : List ℕ) (c m : ℕ)
      → Words a
      → Words b
      → c ≤ 1
      → (value (adc_loop of_b n i a b c m).words + word_base ^ n * (adc_loop of_b n i a b c m).carry
          ≡ padded (λ x. x) n a + padded of_b n b + c)
        × Words (adc_loop of_b n i a b c m).words
        × ((adc_loop of_b n i a b c m).carry ≤ 1)
  unfolding adc_loop padded value
  adc_loop-value zero i a b c m ha hb hc = (omega arith, tt, hc)
  adc_loop-value (suc n) i a b c m ha hb hc =
      let s =
        adc_lem (first a) (of_b (first b)) c (first-lt a ha) (of_b-lt (first b) (first-lt b hb))
          hc in
      let spot : ℕ =
        if not ((adc (first a) (of_b (first b)) c).word == 0) && ltb m i then i else m in
      let later =
        adc_loop of_b n (i + 1) (rest a) (rest b) (adc (first a) (of_b (first b)) c).carry spot in
      let (e, w, k) =
        adc_loop-value n (i + 1) (rest a) (rest b) (adc (first a) (of_b (first b)) c).carry spot
          (rest-Words a ha) (rest-Words b hb) s.2 in
      (ground (arith, ap (λ (t : ℕ). t * later.carry) (pow-suc word_base n), e, s.0), (s.1, w), k)

-- The number of words up to the last that is not zero.
top : List ℕ → ℕ
top [] = 0
top (w ∷ ws) = let t = top ws in if t == 0 then if w == 0 then 0 else 1 else suc t

adc_loop-maxspot :
    (of_b : ℕ → ℕ) (n i : ℕ) (a b : List ℕ) (c m : ℕ)
    → m < i
    → let w = adc_loop of_b n i a b c m in
      suc w.maxspot ≡ (if top w.words == 0 then suc m else i + top w.words)
unfolding adc_loop top
adc_loop-maxspot of_b zero i a b c m h = refl
adc_loop-maxspot of_b (suc n) i a b c m h =
    let s = adc (first a) (of_b (first b)) c in
    ground (
      arith,
      adc_loop-maxspot of_b n (i + 1) (rest a) (rest b) s.carry
          (if not (s.word == 0) && ltb m i then i else m),
    )

nonzero_test : (v : ℕ) → (suc v == 0) ≡ false
nonzero_test v = ground arith

ℕ-cases : (n : ℕ) → (n ≡ 0) ⊎ ((m : ℕ) × (n ≡ suc m))
ℕ-cases zero = inl refl
ℕ-cases (suc m) = inr (m, refl)

take-nonempty : (n : ℕ) (ws : List ℕ) → top ws ≡ suc n → take (suc n) ws ≢ []
unfolding top
take-nonempty n [] e k = absurd (omega arith)
take-nonempty n (w ∷ ws) e k = cc

TopNonzero-cons : (w : ℕ) (l : List ℕ) → l ≢ [] → TopNonzero l → TopNonzero (w ∷ l)
TopNonzero-cons w [] h t = absurd (h refl)
TopNonzero-cons w (x ∷ xs) h t = t

take-top-value : (ws : List ℕ) → value (take (top ws) ws) ≡ value ws
unfolding top value
take-top-value [] = refl
take-top-value (w ∷ ws) = elim (ℕ-cases (top ws)) [
  | inl e ↦
      let h : value ws ≡ 0 = sym (rw e at (take-top-value ws)) in
      elim (ℕ-cases w) [ inl z ↦ rw (e, z) (omega arith) | inr (v, z) ↦ rw (e, z) (ground arith) ]
  | inr (t, e) ↦
      let h : value (take (suc t) ws) ≡ value ws = rw e at (take-top-value ws) in
      rw (e, nonzero_test t) (omega arith)
]

take-top-TopNonzero : (ws : List ℕ) → TopNonzero (take (top ws) ws)
unfolding top
take-top-TopNonzero [] = tt
take-top-TopNonzero (w ∷ ws) = elim (ℕ-cases (top ws)) [
  | inl e ↦ elim (ℕ-cases w) [
    | inl z ↦ rw (e, z) tt
    | inr (v, z) ↦ rw (e, z, nonzero_test v) (λ k. omega arith)
  ]
  | inr (t, e) ↦
      let h : TopNonzero (take (suc t) ws) = rw e at (take-top-TopNonzero ws) in
      rw (e, nonzero_test t) (TopNonzero-cons w (take (suc t) ws) (take-nonempty t ws e) h)
]

adc_loop-length :
    (of_b : ℕ → ℕ) (n i : ℕ) (a b : List ℕ) (c m : ℕ) → length (adc_loop of_b n i a b c m).words ≡ n
unfolding adc_loop
adc_loop-length of_b zero i a b c m = refl
adc_loop-length of_b (suc n) i a b c m =
    let s = adc (first a) (of_b (first b)) c in
    ap suc (
      adc_loop-length of_b n (i + 1) (rest a) (rest b) s.carry
        (if not (s.word == 0) && ltb m i then i else m))

-- `take` of the words up to `maxspot`: nothing is lost, and the top word is not zero.
module _ (of_b : ℕ → ℕ) (of_b-lt : (w : ℕ) → w < word_base → of_b w < word_base) where
  trimmed :
      (n : ℕ) (a b : List ℕ) (c : ℕ)
      → Words a
      → Words b
      → c ≤ 1
      → let w = adc_loop of_b n 1 a b c 0 in
        (value (take w.maxspot w.words) + word_base ^ n * w.carry
          ≡ padded (λ x. x) n a + padded of_b n b + c)
        × Words (take w.maxspot w.words)
        × TopNonzero (take w.maxspot w.words)
        × (w.carry ≤ 1)
        × (value (take w.maxspot w.words) < word_base ^ n)
  trimmed n a b c ha hb hc =
      let w = adc_loop of_b n 1 a b c 0 in
      let spot : w.maxspot ≡ top w.words = ground (arith, adc_loop-maxspot of_b n 1 a b c 0) in
      let (e, ws, k) = adc_loop-value of_b of_b-lt n 1 a b c 0 ha hb hc in
      (
        rw (spot, take-top-value w.words) e,
        All-take (λ x. x < word_base) w.maxspot w.words ws,
        rw spot (take-top-TopNonzero w.words),
        k,
        rw (spot, take-top-value w.words)
            (subst (λ (l : ℕ). value w.words < word_base ^ l) (adc_loop-length of_b n 1 a b c 0)
              (value-lt w.words ws)),
      )

complement-lt : (w : ℕ) → w < word_base → complement w < word_base
complement-lt w h = omega arith

padded-lt : (n : ℕ) (a : List ℕ) → Words a → padded (λ x. x) n a < word_base ^ n
unfolding padded
padded-lt zero a h = omega arith
padded-lt (suc n) a h =
    omega (arith, first-lt a h, padded-lt n (rest a) (rest-Words a h), pow-suc word_base n)

pow_add_one : (m : ℕ) → word_base ^ (m + 1) ≡ word_base * word_base ^ m
pow_add_one m = ap (λ (t : ℕ). word_base ^ t) (add-one m) ∙ pow-suc word_base m ∙ mul_comm _ _

-- A sum of two numbers below `p` leaves no carry at the base above.
no_overflow : (x y z p c : ℕ) → x < p → y < p → c ≤ 1 → z + (word_base * p) * c ≡ x + y → z ≡ x + y
no_overflow x y z p zero hx hy hc e = omega arith
no_overflow x y z p (suc zero) hx hy hc e = absurd (omega arith)
no_overflow x y z p (suc (suc c)) hx hy hc e = absurd (omega arith)

-- For numbers whose elements fit their words, the value of `bigadd` is the sum of the two values,
-- its elements fit their words, and its top word is not zero.
pub bigadd-value :
    (a b : Bignum)
    → Words a
    → Words b
    → (value (bigadd a b) ≡ value a + value b) × Words (bigadd a b) × TopNonzero (bigadd a b)
unfolding bigadd
bigadd-value a b ha hb =
    let m = max (length a) (length b) in
    let carry : ℕ = (adc_loop (λ x. x) (m + 1) 1 a b 0 0).carry in
    let (e, w, t, k, _) = trimmed (λ x. x) (λ x h. h) (m + 1) a b 0 ha hb (omega arith) in
    let ea = padded-eq-value m a (omega arith) in
    let eb = padded-eq-value m b (omega arith) in
    let ea' = padded-eq-value (m + 1) a (omega arith) in
    let eb' = padded-eq-value (m + 1) b (omega arith) in
    (
      no_overflow (value a) (value b) _ (word_base ^ m) _ (omega (arith, padded-lt m a ha, ea))
          (omega (arith, padded-lt m b hb, eb)) k
          (omega (arith, e, ea', eb', ea, eb, ap (λ (t : ℕ). t * carry) (pow_add_one m))),
      w,
      t,
    )

-- For numbers whose elements fit their words, `bigsub` answers null exactly when the difference
-- would be negative; otherwise the value of its result is the difference, its elements fit their
-- words, and its top word is not zero.
pub bigsub-value :
    (a b : Bignum)
    → Words a
    → Words b
    → ((bigsub a b ≡ none) × (value a < value b))
      ⊎ ((d : Bignum) × (bigsub a b ≡ some d)
          × (value d + value b ≡ value a)
          × Words d
          × TopNonzero d)
unfolding bigsub
bigsub-value a b ha hb =
    let m = max (length a) (length b) in
    let w = adc_loop complement m 1 a b 1 0 in
    let (e, ws, t, k, small) = trimmed complement complement-lt m a b 1 ha hb (omega arith) in
    let ea = padded-eq-value m a (omega arith) in
    let eb = padded-eq-value m b (omega arith) in
    let ec = padded-complement m b hb in
    elim (ℕ-cases w.carry) [
      | inl z ↦ inl (rw z refl, omega (arith, ap (λ (t : ℕ). word_base ^ m * t) z))
      | inr (c, z) ↦
          let one : w.carry ≡ 1 = omega arith in
          inr (
            take w.maxspot w.words,
            rw (z, nonzero_test c) refl,
            omega (arith, ap (λ (t : ℕ). word_base ^ m * t) one),
            ws,
            t,
          )
    ]
