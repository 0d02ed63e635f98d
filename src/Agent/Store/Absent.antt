-- ===== src/Agent/Store/Absent.antt =====
-- keystore_get_from_blob of keystore.cpp when no key that is still good has the blob.
use pageant.Base.{
  ℕ, true, ◌≡◌, refl, sym, ap₂, none, List, [], ◌∷◌, arith, All, Bool-cases, inl, inr,
}
use pageant.Agent.Action.{ok}
use pageant.Agent.Keys.{Algorithms, Key, public_blob, same_list}
use pageant.Agent.Store.{expired, expire, find_first, copy_found, keystore_get_from_blob}

same_list-eq : (xs ys : List ℕ) → same_list xs ys ≡ true → xs ≡ ys
unfolding same_list
same_list-eq [] [] e = refl
same_list-eq [] (y ∷ ys) e = cc
same_list-eq (x ∷ xs) [] e = cc
same_list-eq (x ∷ xs) (y ∷ ys) e =
    let h : x ≡ y = ground (arith, e) in
    let t : same_list xs ys ≡ true = ground (arith, e) in ap₂ ◌∷◌ h (same_list-eq xs ys t)

module _ {algs : Algorithms} (now : ℕ) (blob : List ℕ) where
  -- Every key with the blob has expired.
  abbrev pub IsGone : List (Key algs) → Type 0
  IsGone = All (λ k. public_blob k ≡ blob → expired now k ≡ true)

  find_first-gone :
      (keys : List (Key algs))
      → IsGone keys
      → find_first (λ k. same_list blob (public_blob k)) (expire now keys) ≡ none
  unfolding find_first expire
  find_first-gone [] h = refl
  find_first-gone (k ∷ keys) (g, h) = elim (Bool-cases (expired now k)) [
    | inl e ↦ rw e (find_first-gone keys h)
    | inr e ↦ elim (Bool-cases (same_list blob (public_blob k))) [
      | inl s ↦
          let gone : expired now k ≡ true = g (sym (same_list-eq blob (public_blob k) s)) in cc
      | inr s ↦ rw (e, s) (find_first-gone keys h)
    ]
  ]

  pub get_from_blob-gone :
      (keys : List (Key algs))
      → IsGone keys
      → keystore_get_from_blob now blob keys ≡ (ok none, expire now keys)
  unfolding keystore_get_from_blob copy_found
  get_from_blob-gone keys h = rw (find_first-gone keys h) refl
