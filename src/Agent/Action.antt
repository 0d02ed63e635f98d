-- ===== src/Agent/Action.antt =====
-- How the agent's code is sequenced. A step succeeds, fails the way the code handles, or is a fault: a
-- null pointer, a read past the end of a buffer, an `assert`. State that was written stays written.
use pageant.Base.{◌≡◌, refl, ap, Bool, true, false, Option, none, some}

pub data Result {ℓ} (A : Type ℓ) : Type ℓ where
  ok : A → Result A
  failed : Result A
  fault : Result A

abbrev pub Action : Type 0 → Type 0 → Type 0
Action S A = S → Result A × S

abbrev pub pure : {S A : Type 0} → A → Action S A
pure a s = (ok a, s)

abbrev pub fail : {S A : Type 0} → Action S A
fail s = (failed, s)

abbrev pub lift : {S A : Type 0} → Result A → Action S A
lift r s = (r, s)

infixl 5 ◌>>=◌ ◌>>◌
unfoldable pub ◌>>=◌ : {S A B : Type 0} → Action S A → (A → Action S B) → Action S B
◌>>=◌ m f s =
    let (r, s') = m s in elim r [ ok a ↦ f a s' | failed ↦ (failed, s') | fault ↦ (fault, s') ]

unfoldable pub ◌>>◌ : {S A B : Type 0} → Action S A → Action S B → Action S B
unfolding ◌>>=◌
m >> k = m >>= λ _. k

abbrev pub fail_if : {S : Type 0} → Bool → Action S (Unit {0})
fail_if true s = (failed, s)
fail_if false s = (ok tt, s)

abbrev pub crash_if : {S : Type 0} → Bool → Action S (Unit {0})
crash_if true s = (fault, s)
crash_if false s = (ok tt, s)

abbrev pub or_fail : {S A : Type 0} → Option A → Action S A
or_fail none s = (failed, s)
or_fail (some a) s = (ok a, s)

pub >>=-ok :
    {S A B : Type 0} (m : Action S A) (f : A → Action S B) (s t : S) (a : A)
    → m s ≡ (ok a, t)
    → (m >>= f) s ≡ f a t
unfolding ◌>>=◌
>>=-ok {S = S} {A = A} m f s t a e = ap (λ (r : Result A × S). (◌>>=◌ {S = S} (λ _. r) f) s) e

pub >>=-first :
    {S A B : Type 0} (m n : Action S A) (f : A → Action S B) (s : S)
    → m s ≡ n s
    → (m >>= f) s ≡ (n >>= f) s
unfolding ◌>>=◌
>>=-first {S = S} {A = A} m n f s e = ap (λ (r : Result A × S). (◌>>=◌ {S = S} (λ _. r) f) s) e

pub >>=-fault :
    {S A B : Type 0} (m : Action S A) (f : A → Action S B) (s t : S)
    → m s ≡ (fault, t)
    → (m >>= f) s ≡ (fault, t)
unfolding ◌>>=◌
>>=-fault {S = S} {A = A} m f s t e = ap (λ (r : Result A × S). (◌>>=◌ {S = S} (λ _. r) f) s) e

pub fail_if-false : {S B : Type 0} (k : Action S B) (s : S) → (fail_if false >> k) s ≡ k s
unfolding ◌>>◌ ◌>>=◌
fail_if-false k s = refl

-- Sequencing without a state.
abbrev pub and_then {ℓ κ} : {A : Type ℓ} {B : Type κ} → Result A → (A → Result B) → Result B
and_then (ok a) f = f a
and_then failed f = failed
and_then fault f = fault
