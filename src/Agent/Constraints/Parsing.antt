-- ===== src/Agent/Constraints/Parsing.antt =====
-- That the loop over the constraints ends by itself, and what it reads.
use pageant.Base.{
  Bool, Option, some, ap, sym, ◌∙◌, ℕ, zero, suc, ◌^◌, ◌<◌, true, false, ◌≡◌, refl, List, [], ◌∷◌,
  ◌++◌, arith, ltb, ◌==◌, if◌then◌else◌, length, length-append, length-drop, drop, All, Bool-cases,
  inl, inr,
}
use pageant.Word32.{get_32bit_msb_first, put_32bit_msb_first}
use pageant.Word32.Bytes.{get-put_msb}
use pageant.Agent.Action.{Result, ok, fault}
use pageant.Agent.Keys.{Algorithms, Key}
use pageant.Agent.Constraints.{set_lifetime, constraints_loop, ended, parse_constraints}

-- The constraints as a request holds them.
pub data Constraint : Type 0 where
  lifetime : ℕ → Constraint
  confirm : Constraint

abbrev pub IsConstraint : Constraint → Type 0
IsConstraint (lifetime seconds) = seconds < 2 ^ 32
IsConstraint confirm = Unit

unfoldable pub encode : List Constraint → List ℕ
encode [] = []
encode (lifetime seconds ∷ cs) = 1 ∷ (put_32bit_msb_first seconds ++ encode cs)
encode (confirm ∷ cs) = 2 ∷ encode cs

-- What the byte behind the message counts as.
unfoldable pub read_past : ℕ → List Constraint
read_past stray = if stray == 2 then confirm ∷ [] else []

module _ {algs : Algorithms} where
  -- What the constraints make of a key, in their order.
  unfoldable pub constrain : ℕ → List Constraint → Key algs → Key algs
  constrain now [] key = key
  constrain now (lifetime seconds ∷ cs) key = constrain now cs (set_lifetime now seconds key)
  constrain now (confirm ∷ cs) key = constrain now cs (record key { confirmation_required = true })

  -- With more fuel than bytes the loop ends.
  loop-ends :
      (fuel now : ℕ) (rest : List ℕ) (key : Key algs)
      → length rest < fuel
      → (r : Result (Key algs)) × (constraints_loop fuel now rest key ≡ some r)
  unfolding constraints_loop
  loop-ends zero now rest key h = absurd (omega (arith, h))
  loop-ends (suc fuel) now [] key h = (fault, refl)
  loop-ends (suc fuel) now (c ∷ rest) key h =
      let d = length-drop 4 rest in
      let limited = set_lifetime now (get_32bit_msb_first rest) key in
      let confirmed = record key { confirmation_required = true } in
      let (r, e) = loop-ends fuel now (drop 4 rest) limited (omega (arith, h, d)) in
      let (q, f) = loop-ends fuel now rest confirmed (omega (arith, h)) in
      rw (e, f)
        (either (c == 1)
          (either (ltb (length rest) 4) (key_as_is key)
            (either (length (drop 4 rest) == 0) (ok limited, refl) (r, refl)))
          (either (c == 2) (either (length rest == 0) (ok confirmed, refl) (q, refl))
            (key_as_is key)))
    where
      key_as_is : (key : Key algs) → (r : Result (Key algs)) × (some (ok key) ≡ some r)
      key_as_is key = (ok key, refl)

      either :
          {o p : Option (Result (Key algs))} (b : Bool)
          → (r : Result (Key algs)) × (o ≡ some r)
          → (r : Result (Key algs)) × (p ≡ some r)
          → (r : Result (Key algs)) × ((if b then o else p) ≡ some r)
      either true x y = x
      either false x y = y

  -- Any two amounts of fuel that are larger than the number of bytes give the same.
  loop-same :
      (m n now : ℕ) (rest : List ℕ) (key : Key algs)
      → length rest < m
      → length rest < n
      → constraints_loop m now rest key ≡ constraints_loop n now rest key
  unfolding constraints_loop
  loop-same zero n now rest key hm hn = absurd (omega (arith, hm))
  loop-same (suc m) zero now rest key hm hn = absurd (omega (arith, hn))
  loop-same (suc m) (suc n) now [] key hm hn = refl
  loop-same (suc m) (suc n) now (c ∷ rest) key hm hn =
      let d = length-drop 4 rest in
      rw
        (
          loop-same m n now (drop 4 rest) (set_lifetime now (get_32bit_msb_first rest) key)
              (omega (arith, hm, d)) (omega (arith, hn, d)),
          loop-same m n now rest (record key { confirmation_required = true }) (omega (arith, hm))
              (omega (arith, hn)),
        )
        refl

  -- The loop over the constraints ends by itself: with any fuel above the number of bytes that
  -- are left it is not cut off, and its result is that of `parse_constraints`.
  pub loop-enough :
      (fuel now : ℕ) (rest : List ℕ) (key : Key algs)
      → length rest < fuel
      → constraints_loop fuel now rest key ≡ some (parse_constraints now rest key)
  unfolding parse_constraints
  loop-enough fuel now rest key h =
      let (r, e) = loop-ends (suc (length rest)) now rest key (omega arith) in
      loop-same fuel (suc (length rest)) now rest key h (omega arith)
      ∙ e
      ∙ ap (λ o. some (ended o)) (sym e)

  loop-encode :
      (fuel now : ℕ) (cs : List Constraint) (stray : ℕ) (key : Key algs)
      → All IsConstraint cs
      → length (encode cs ++ stray ∷ []) < fuel
      → constraints_loop fuel now (encode cs ++ stray ∷ []) key
        ≡ some (ok (constrain now (cs ++ read_past stray) key))
  unfolding constraints_loop encode constrain read_past put_32bit_msb_first
  loop-encode zero now cs stray key good h = absurd (omega (arith, h))
  loop-encode (suc fuel) now [] stray key good h = elim (Bool-cases (stray == 1)) [
    | inl e ↦ let f : (stray == 2) ≡ false = ground (arith, e) in rw (e, f) refl
    | inr e ↦ elim (Bool-cases (stray == 2)) [ inl f ↦ rw (e, f) refl | inr f ↦ rw (e, f) refl ]
  ]
  loop-encode (suc fuel) now (lifetime seconds ∷ cs) stray key (g, good) h =
      let rest = encode cs ++ stray ∷ [] in
      let n = length-append (encode cs) (stray ∷ []) in
      let limited = set_lifetime now seconds key in
      let ih = loop-encode fuel now cs stray limited good (omega (arith, h)) in
      let e : ltb (suc (suc (suc (suc (length rest))))) 4 ≡ false = ground arith in
      let f : (length rest == 0) ≡ false = ground (arith, n) in
      rw (get-put_msb seconds rest g, e, f) ih
  loop-encode (suc fuel) now (confirm ∷ cs) stray key (g, good) h =
      let n = length-append (encode cs) (stray ∷ []) in
      let f : (length (encode cs ++ stray ∷ []) == 0) ≡ false = ground (arith, n) in
      rw f (
        loop-encode fuel now cs stray (record key { confirmation_required = true }) good
          (omega (arith, h)))

  -- For constraints whose lifetimes are below 2 ^ 32, followed by one stray byte, the loop over
  -- the constraints applies them to the key in their order, and a stray byte of 2 counts as a
  -- further constraint, a confirmation.
  pub parse_constraints-encode :
      (now : ℕ) (cs : List Constraint) (stray : ℕ) (key : Key algs)
      → All IsConstraint cs
      → parse_constraints now (encode cs ++ stray ∷ []) key
        ≡ ok (constrain now (cs ++ read_past stray) key)
  unfolding parse_constraints
  parse_constraints-encode now cs stray key good =
      ap ended
        (loop-encode (suc (length (encode cs ++ stray ∷ []))) now cs stray key good (omega arith))
