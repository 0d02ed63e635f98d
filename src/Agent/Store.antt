-- ===== src/Agent/Store.antt =====
-- keystore.cpp: the list of keys. The listeners are told of a change and hold no state of the store.
-- `now` is the result of `time(NULL)`.
pub mod Distinct
pub mod Absent
use pageant.Base.{
  ℕ, zero, suc, Bool, true, false, not, ◌&&◌, ◌||◌, Option, none, some, List, [], ◌∷◌, ◌++◌, ltb,
  ◌==◌, if◌then◌else◌,
}
use pageant.Agent.Action.{Result, ok, failed, fault, and_then, Action, pure, lift, ◌>>=◌, ◌>>◌}
use pageant.Agent.Keys.{Algorithms, Key, public_blob, same_list, same_key, copy_key, copyable}

module _ {algs : Algorithms} where
  abbrev pub expired : ℕ → Key algs → Bool
  expired now key = not (key.expiration_date == 0) && ltb key.expiration_date now

  unfoldable pub expire : ℕ → List (Key algs) → List (Key algs)
  expire now [] = []
  expire now (k ∷ keys) = let rest = expire now keys in if expired now k then rest else k ∷ rest

  -- The first key that the test accepts, and the list without it: the index of a search and the
  -- `erase` at it.
  unfoldable pub find_first : (Key algs → Bool) → List (Key algs) → Option (Key algs)
  find_first test [] = none
  find_first test (k ∷ keys) = let rest = find_first test keys in if test k then some k else rest

  unfoldable pub erase_first : (Key algs → Bool) → List (Key algs) → List (Key algs)
  erase_first test [] = []
  erase_first test (k ∷ keys) =
      let rest = erase_first test keys in if test k then keys else k ∷ rest

  -- search_public_blob, after its `expire`, and keystore_get_from_blob. The key handed out is a copy.
  unfoldable pub copy_found : Option (Key algs) → Result (Option (Key algs))
  copy_found none = ok none
  copy_found (some k) = and_then (copy_key k) (λ c. ok (some c))

  unfoldable pub keystore_get_from_blob :
      ℕ → List ℕ → List (Key algs) → Result (Option (Key algs)) × List (Key algs)
  unfolding expire find_first copy_found
  keystore_get_from_blob now blob keys =
      let left = expire now keys in
      (copy_found (find_first (λ k. same_list blob (public_blob k)) left), left)

  -- keystore_exist does not expire.
  unfoldable pub keystore_exist : Key algs → List (Key algs) → Bool
  keystore_exist key [] = false
  keystore_exist key (k ∷ keys) = same_key k key || keystore_exist key keys

  unfoldable pub add_copied : Result (Key algs) → List (Key algs) → Result Bool × List (Key algs)
  add_copied (ok c) keys = (ok true, keys ++ c ∷ [])
  add_copied failed keys = (failed, keys)
  add_copied fault keys = (fault, keys)

  unfoldable pub keystore_add : Key algs → List (Key algs) → Result Bool × List (Key algs)
  unfolding keystore_exist add_copied
  keystore_add key keys =
      if keystore_exist key keys then (ok false, keys) else add_copied (copy_key key) keys

  unfoldable pub keystore_remove_all : List (Key algs) → List (Key algs)
  keystore_remove_all keys = []

  -- `erase` at the index that the search has found.
  unfoldable pub erase_found :
      (Key algs → Bool) → Option (Key algs) → List (Key algs) → Result Bool × List (Key algs)
  erase_found test none keys = (ok false, keys)
  erase_found test (some k) keys = (ok true, erase_first test keys)

  -- search_key compares with a copy of the key.
  unfoldable pub remove_copied : Result (Key algs) → List (Key algs) → Result Bool × List (Key algs)
  unfolding find_first erase_first erase_found
  remove_copied (ok c) keys = erase_found (same_key c) (find_first (same_key c) keys) keys
  remove_copied failed keys = (failed, keys)
  remove_copied fault keys = (fault, keys)

  unfoldable pub keystore_remove : ℕ → Key algs → List (Key algs) → Result Bool × List (Key algs)
  unfolding expire remove_copied
  keystore_remove now key keys = remove_copied (copy_key key) (expire now keys)

  unfoldable pub copy_all : List (Key algs) → Result (List (Key algs))
  copy_all [] = ok []
  copy_all (k ∷ keys) = and_then (copy_key k) λ c. and_then (copy_all keys) λ cs. ok (c ∷ cs)

  unfoldable pub keystore_get_keys :
      ℕ → List (Key algs) → Result (List (Key algs)) × List (Key algs)
  unfolding expire copy_all
  keystore_get_keys now keys = let left = expire now keys in (copy_all left, left)
