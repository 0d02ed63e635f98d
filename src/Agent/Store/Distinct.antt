-- ===== src/Agent/Store/Distinct.antt =====
-- What the key store keeps: no two keys that compare equal, and only keys that can be copied.
use pageant.Base.{
  ℕ, Bool, true, false, ◌≡◌, refl, some, List, [], ◌∷◌, ◌++◌, arith, All, All-append, Bool-cases,
  Option-cases, inl, inr, ◌⊎◌,
}
use mathlib.Core.Path.{subst}
use pageant.Agent.Action.{ok, fault}
use pageant.Agent.Keys.{Algorithms, Key, same_key, copy_key, copyable}
use pageant.Agent.Store.{
  expired, expire, find_first, erase_first, keystore_exist, keystore_add, keystore_remove, copy_all,
}

module _ {algs : Algorithms} where
  -- No later key is the same as `k`.
  abbrev pub Apart : Key algs → List (Key algs) → Type 0
  Apart k = All (λ j. same_key k j ≡ false)

  abbrev pub Distinct : List (Key algs) → Type 0
  Distinct [] = Unit
  Distinct (k ∷ keys) = Apart k keys × Distinct keys

  abbrev pub Copyable : List (Key algs) → Type 0
  Copyable = All (λ k. copyable k ≡ true)

  abbrev pub IsStore : List (Key algs) → Type 0
  IsStore keys = Distinct keys × Copyable keys

  expire-All :
      (P : Key algs → Type 0) (now : ℕ) (keys : List (Key algs))
      → All P keys
      → All P (expire now keys)
  unfolding expire
  expire-All P now [] h = tt
  expire-All P now (k ∷ keys) (p, h) = elim (Bool-cases (expired now k)) [
    | inl e ↦ rw e (expire-All P now keys h)
    | inr e ↦ rw e (p, expire-All P now keys h)
  ]

  expire-Distinct : (now : ℕ) (keys : List (Key algs)) → Distinct keys → Distinct (expire now keys)
  unfolding expire
  expire-Distinct now [] h = tt
  expire-Distinct now (k ∷ keys) (p, h) = elim (Bool-cases (expired now k)) [
    | inl e ↦ rw e (expire-Distinct now keys h)
    | inr e ↦ rw e (expire-All (λ j. same_key k j ≡ false) now keys p, expire-Distinct now keys h)
  ]

  pub expire-IsStore : (now : ℕ) (keys : List (Key algs)) → IsStore keys → IsStore (expire now keys)
  expire-IsStore now keys (d, c) =
      (expire-Distinct now keys d, expire-All (λ k. copyable k ≡ true) now keys c)

  erase_first-All :
      (P : Key algs → Type 0) (test : Key algs → Bool) (keys : List (Key algs))
      → All P keys
      → All P (erase_first test keys)
  unfolding erase_first
  erase_first-All P test [] h = tt
  erase_first-All P test (k ∷ keys) (p, h) = elim (Bool-cases (test k)) [
    | inl e ↦ rw e h
    | inr e ↦ rw e (p, erase_first-All P test keys h)
  ]

  erase_first-Distinct :
      (test : Key algs → Bool) (keys : List (Key algs))
      → Distinct keys
      → Distinct (erase_first test keys)
  unfolding erase_first
  erase_first-Distinct test [] h = tt
  erase_first-Distinct test (k ∷ keys) (p, h) = elim (Bool-cases (test k)) [
    | inl e ↦ rw e h
    | inr e ↦
        rw e (
          erase_first-All (λ j. same_key k j ≡ false) test keys p,
          erase_first-Distinct test keys h,
        )
  ]

  append-Distinct :
      (keys : List (Key algs)) (key : Key algs)
      → Distinct keys
      → keystore_exist key keys ≡ false
      → Distinct (keys ++ key ∷ [])
  unfolding keystore_exist
  append-Distinct [] key h e = (tt, tt)
  append-Distinct (k ∷ keys) key (p, h) e = elim (Bool-cases (same_key k key)) [
    | inl s ↦ absurd (ground (arith, e, s))
    | inr s ↦ (
      All-append (λ j. same_key k j ≡ false) keys (key ∷ []) p (s, tt),
      append-Distinct keys key h (ground (arith, e, s)),
    )
  ]

  -- A copy is the key itself, and there is one only of a copyable key.
  pub copy_key-cases :
      (key : Key algs) → ((copy_key key ≡ ok key) × (copyable key ≡ true)) ⊎ (copy_key key ≡ fault)
  unfolding copy_key
  copy_key-cases key = elim (Bool-cases (copyable key)) [
    | inl e ↦ inl (rw e refl, e)
    | inr e ↦ inr (rw e refl)
  ]

  pub keystore_add-IsStore :
      (key : Key algs) (keys : List (Key algs)) → IsStore keys → IsStore (keystore_add key keys).1
  unfolding keystore_add
  keystore_add-IsStore key keys (d, c) = elim (Bool-cases (keystore_exist key keys)) [
    | inl e ↦ rw e (d, c)
    | inr e ↦ elim (copy_key-cases key) [
      | inl (f, g) ↦
          rw (e, f)
            (
              append-Distinct keys key d e,
              All-append (λ k. copyable k ≡ true) keys (key ∷ []) c (g, tt),
            )
      | inr f ↦ rw (e, f) (d, c)
    ]
  ]

  pub keystore_remove-IsStore :
      (now : ℕ) (key : Key algs) (keys : List (Key algs))
      → IsStore keys
      → IsStore (keystore_remove now key keys).1
  unfolding keystore_remove
  keystore_remove-IsStore now key keys h =
      let left = expire now keys in
      let kept : IsStore left = expire-IsStore now keys h in
      elim (copy_key-cases key) [
        | inl (f, g) ↦ elim (Option-cases (find_first (same_key key) left)) [
          | inl e ↦ rw (f, e) kept
          | inr (k, e) ↦
              rw (f, e)
                (
                  erase_first-Distinct (same_key key) left kept.0,
                  erase_first-All (λ k. copyable k ≡ true) (same_key key) left kept.1,
                )
        ]
        | inr f ↦ rw f kept
      ]

  -- The stored keys can all be copied.
  pub copy_all-Copyable : (keys : List (Key algs)) → Copyable keys → copy_all keys ≡ ok keys
  unfolding copy_all copy_key
  copy_all-Copyable [] h = refl
  copy_all-Copyable (k ∷ keys) (e, h) = rw (e, copy_all-Copyable keys h) refl

  pub find_first-All :
      (P : Key algs → Type 0) (test : Key algs → Bool) (keys : List (Key algs)) (k : Key algs)
      → All P keys
      → find_first test keys ≡ some k
      → P k
  unfolding find_first
  find_first-All P test [] k h e = cc
  find_first-All P test (j ∷ keys) k (p, h) e = elim (Bool-cases (test j)) [
    | inl t ↦ let g : j ≡ k = ground (arith, e, t) in subst P g p
    | inr t ↦ find_first-All P test keys k h (ground (arith, e, t))
  ]

  -- An operation that does not say that it did something leaves the keys.
  pub keystore_add-kept :
      (key : Key algs) (keys : List (Key algs))
      → ((keystore_add key keys).0 ≡ ok true) ⊎ ((keystore_add key keys).1 ≡ keys)
  unfolding keystore_add
  keystore_add-kept key keys = elim (Bool-cases (keystore_exist key keys)) [
    | inl e ↦ rw e (inr refl)
    | inr e ↦ elim (copy_key-cases key) [
      | inl (f, g) ↦ rw (e, f) (inl refl)
      | inr f ↦ rw (e, f) (inr refl)
    ]
  ]

  pub keystore_remove-kept :
      (now : ℕ) (key : Key algs) (keys : List (Key algs))
      → ((keystore_remove now key keys).0 ≡ ok true)
        ⊎ ((keystore_remove now key keys).1 ≡ expire now keys)
  unfolding keystore_remove
  keystore_remove-kept now key keys = elim (copy_key-cases key) [
    | inl (f, g) ↦ elim (Option-cases (find_first (same_key key) (expire now keys))) [
      | inl e ↦ rw (f, e) (inr refl)
      | inr (k, e) ↦ rw (f, e) (inl refl)
    ]
    | inr f ↦ rw f (inr refl)
  ]
