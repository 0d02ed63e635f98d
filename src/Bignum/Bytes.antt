-- ===== src/Bignum/Bytes.antt =====
-- `bignum_from_bytes` of sshbn.c: a big-endian byte string as a Bignum.
use pageant.Base.{
  ℕ, zero, suc, ◌+◌, ◌-◌, ◌*◌, ◌/◌, ◌%◌, ◌^◌, ◌≤◌, ◌<◌, min, bit_or, ◌≡◌, refl, ap, ◌∙◌, ◌⊎◌, inl,
  inr, Bool-cases, Option, none, some, ltb, if◌then◌else◌, List, [], ◌∷◌, arith, length, get_or,
  set, replicate, All, length-replicate,
}
use pageant.Base.Bits.{bit_or_fields}
use pageant.Base.Powers.{pow_suc, pow_add, below_eight}
use pageant.Bignum.{word_base, Bignum, bn_restore_invariant}
use pageant.Bignum.Value.{value, Words}
use pageant.Bignum.Compare.{IsBignum}
use pageant.Bignum.Restore.{bn_restore_invariant-IsBignum}
use mathlib.Core.Path.{subst}
use native.Mathlib.Decide.{dec_lt}

-- One round: byte number `i`, counted from the least significant, is or-ed into its word.
unfoldable pub or_byte : List ℕ → ℕ → ℕ → List ℕ
or_byte result i byte =
    set result (i / 8) (bit_or (get_or result (i / 8) 0) (byte * 2 ^ (8 * i % 64) % word_base))

-- The loop over what is left of the data; its length is the source's `i`.
from_bytes_loop : List ℕ → List ℕ → List ℕ
from_bytes_loop [] result = result
from_bytes_loop (byte ∷ data') result = from_bytes_loop data' (or_byte result (length data') byte)

-- bignum_from_bytes, after its assertion.
pub from_bytes : List ℕ → Bignum
unfolding from_bytes_loop
from_bytes data' =
    bn_restore_invariant (from_bytes_loop data' (replicate ((length data' + 8 - 1) / 8) 0))

-- `none` is the assertion `nbytes < INT_MAX/8` that fails.
unfoldable pub bignum_from_bytes : List ℕ → Option Bignum
unfolding from_bytes
bignum_from_bytes data' =
    if ltb (length data') ((2 ^ 31 - 1) / 8) then some (from_bytes data') else none

-- The number that a big-endian byte string stands for.
unfoldable pub be_value : List ℕ → ℕ
be_value [] = 0
be_value (b ∷ bs) = b * 256 ^ length bs + be_value bs

abbrev pub IsBytes : List ℕ → Type 0
IsBytes = All (λ b. b < 256)

-- The lowest `k` bytes are zero.
abbrev Clear : ℕ → List ℕ → Type 0
Clear k [] = Unit
Clear k (w ∷ ws) = ((q : ℕ) × (w ≡ q * 256 ^ min k 8)) × Clear (k - 8) ws

-- A byte or-ed below the bytes that are set is added.
abbrev OrByte : ℕ → Type 0
OrByte m =
    (q byte : ℕ)
    → byte < 256
    → q * 256 ^ suc m < word_base
    → bit_or (q * 256 ^ suc m) (byte * 2 ^ (8 * m) % word_base) ≡ (q * 256 + byte) * 256 ^ m

OrByte-word : (m : ℕ) → m < 8 → OrByte m
OrByte-word =
    below_eight OrByte
      (λ q b h k. bit_or_fields 8 q (b * 1 % word_base) (omega arith) ∙ omega arith)
      (λ q b h k. bit_or_fields 16 q (b * 2 ^ 8 % word_base) (omega arith) ∙ omega arith)
      (λ q b h k. bit_or_fields 24 q (b * 2 ^ 16 % word_base) (omega arith) ∙ omega arith)
      (λ q b h k. bit_or_fields 32 q (b * 2 ^ 24 % word_base) (omega arith) ∙ omega arith)
      (λ q b h k. bit_or_fields 40 q (b * 2 ^ 32 % word_base) (omega arith) ∙ omega arith)
      (λ q b h k. bit_or_fields 48 q (b * 2 ^ 40 % word_base) (omega arith) ∙ omega arith)
      (λ q b h k. bit_or_fields 56 q (b * 2 ^ 48 % word_base) (omega arith) ∙ omega arith)
      (λ q b h k. bit_or_fields 64 q (b * 2 ^ 56 % word_base) (omega arith) ∙ omega arith)

Clear-word :
    (i w : ℕ) (ws : List ℕ) → i < 8 → Clear (suc i) (w ∷ ws) → (q : ℕ) × (w ≡ q * 256 ^ suc i)
Clear-word i w ws h ((q, e), c) =
    let m : min (suc i) 8 ≡ suc i = omega arith in (q, e ∙ ap (λ (t : ℕ). q * 256 ^ t) m)

Clear-less : (q i w : ℕ) → i < 8 → w ≡ q * 256 ^ i → (p : ℕ) × (w ≡ p * 256 ^ min i 8)
Clear-less q i w h e = let m : i ≡ min i 8 = omega arith in (q, e ∙ ap (λ (t : ℕ). q * 256 ^ t) m)

-- What one round of the loop does to the value, to the bytes still clear and to the words.
abbrev OrByteStep : List ℕ → ℕ → ℕ → Type 0
OrByteStep r i byte =
    (value (or_byte r i byte) ≡ value r + byte * 256 ^ i)
    × Clear i (or_byte r i byte)
    × Words (or_byte r i byte)
    × (length (or_byte r i byte) ≡ length r)

or_byte_low :
    (q i byte w : ℕ) (ws : List ℕ)
    → i < 8
    → byte < 256
    → w < word_base
    → w ≡ q * 256 ^ suc i
    → or_byte (w ∷ ws) i byte ≡ (q * 256 + byte) * 256 ^ i ∷ ws
unfolding or_byte
or_byte_low q i byte w ws h small lt e =
    let at_zero : i / 8 ≡ 0 = omega arith in
    let shift : 8 * i % 64 ≡ 8 * i = omega arith in
    rw (at_zero, shift) (ap (λ (t : ℕ). t ∷ ws) (rw e (OrByte-word i h q byte small (rw e at lt))))

or_byte_high :
    (i byte w : ℕ) (ws : List ℕ) → ¬ (i < 8) → or_byte (w ∷ ws) i byte ≡ w ∷ or_byte ws (i - 8) byte
unfolding or_byte
or_byte_high i byte w ws h =
    let at_suc : i / 8 ≡ suc ((i - 8) / 8) = omega arith in
    let shift : 8 * i % 64 ≡ 8 * (i - 8) % 64 = omega arith in rw (at_suc, shift) refl

pub pow_high : (i : ℕ) → ¬ (i < 8) → 256 ^ i ≡ word_base * 256 ^ (i - 8)
pow_high i h =
    let e : i ≡ 8 + (i - 8) = omega arith in ap (λ (t : ℕ). 256 ^ t) e ∙ pow_add 256 8 (i - 8)

byte_fits :
    (q i byte : ℕ)
    → i < 8
    → byte < 256
    → q * 256 ^ suc i < word_base
    → (q * 256 + byte) * 256 ^ i < word_base
byte_fits q i byte =
    below_eight
      (λ i. byte < 256 → q * 256 ^ suc i < word_base → (q * 256 + byte) * 256 ^ i < word_base)
      (λ a b. omega arith) (λ a b. omega arith) (λ a b. omega arith) (λ a b. omega arith)
      (λ a b. omega arith) (λ a b. omega arith) (λ a b. omega arith) (λ a b. omega arith) i

or_byte_step :
    (r : List ℕ) (i byte : ℕ)
    → i < 8 * length r
    → byte < 256
    → Words r
    → Clear (suc i) r
    → OrByteStep r i byte
unfolding value
or_byte_step [] i byte fits small words clear = absurd (omega arith)
or_byte_step (w ∷ ws) i byte fits small words clear = elim (dec_lt i 8) [
  | yes h ↦
      let (q, e) = Clear-word i w ws h clear in
      let less : suc i - 8 ≡ i - 8 = omega arith in
      rw (or_byte_low q i byte w ws h small words.0 e) (
        omega (arith, e, ap (λ (t : ℕ). q * t) (pow_suc 256 i)),
        (Clear-less (q * 256 + byte) i _ h refl, subst (λ (k : ℕ). Clear k ws) less clear.1),
        (byte_fits q i byte h small (rw e at words.0), words.1),
        refl,
      )
  | no h ↦
      let next : suc i - 8 ≡ suc (i - 8) = omega arith in
      let same : min (suc i) 8 ≡ min i 8 = omega arith in
      let (v, c, l, n) =
        or_byte_step ws (i - 8) byte (omega arith) small words.1
          (subst (λ (k : ℕ). Clear k ws) next clear.1) in
      let p : 256 ^ i ≡ word_base * 256 ^ (i - 8) = pow_high i h in
      rw (or_byte_high i byte w ws h) (
        omega (arith, v, ap (λ (t : ℕ). byte * t) p),
        (subst (λ (k : ℕ). (q : ℕ) × (w ≡ q * 256 ^ k)) same clear.0, c),
        (words.0, l),
        ap suc n,
      )
]

from_bytes_loop-value :
    (data' r : List ℕ)
    → length data' ≤ 8 * length r
    → IsBytes data'
    → Words r
    → Clear (length data') r
    → (value (from_bytes_loop data' r) ≡ value r + be_value data') × Words (from_bytes_loop data' r)
unfolding from_bytes_loop be_value
from_bytes_loop-value [] r fits bytes words clear = (omega arith, words)
from_bytes_loop-value (b ∷ bs) r fits (small, bytes) words clear =
    let (v, c, w, n) = or_byte_step r (length bs) b fits small words clear in
    let (v', w') =
      from_bytes_loop-value bs (or_byte r (length bs) b) (omega (arith, n)) bytes w c in
    (omega (arith, v, v'), w')

zeros-value : (n : ℕ) → value (replicate n 0) ≡ 0
unfolding value
zeros-value zero = refl
zeros-value (suc n) = omega (arith, zeros-value n)

zeros-Words : (n : ℕ) → Words (replicate n 0)
zeros-Words zero = tt
zeros-Words (suc n) = (omega arith, zeros-Words n)

zeros-Clear : (n k : ℕ) → Clear k (replicate n 0)
zeros-Clear zero k = tt
zeros-Clear (suc n) k = ((0, omega arith), zeros-Clear n (k - 8))

pub from_bytes-value :
    (bytes : List ℕ)
    → IsBytes bytes
    → (value (from_bytes bytes) ≡ be_value bytes) × IsBignum (from_bytes bytes)
unfolding from_bytes
from_bytes-value bytes h =
    let n = (length bytes + 8 - 1) / 8 in
    let (v, w) =
      from_bytes_loop-value bytes (replicate n 0) (omega (arith, length-replicate n zero)) h
        (zeros-Words n) (zeros-Clear n (length bytes)) in
    let (v', ok) = bn_restore_invariant-IsBignum (from_bytes_loop bytes (replicate n 0)) w in
    (omega (arith, v, v', zeros-value n), ok)

-- For bytes, fewer than `INT_MAX / 8` of them, `bignum_from_bytes` gives a well-formed number
-- whose value is the big-endian number that they spell, and for more its assertion fails.
pub bignum_from_bytes-value :
    (bytes : List ℕ)
    → IsBytes bytes
    → ((bn : Bignum) × (length bytes < (2 ^ 31 - 1) / 8)
        × (bignum_from_bytes bytes ≡ some bn)
        × (value bn ≡ be_value bytes)
        × IsBignum bn)
      ⊎ (((2 ^ 31 - 1) / 8 ≤ length bytes) × (bignum_from_bytes bytes ≡ none))
unfolding bignum_from_bytes
bignum_from_bytes-value bytes h =
    let (v, good) = from_bytes-value bytes h in
    elim (Bool-cases (ltb (length bytes) ((2 ^ 31 - 1) / 8))) [
      | inl short ↦ inl (from_bytes bytes, ground (arith, short), rw short refl, v, good)
      | inr long ↦ inr (ground (arith, long), rw long refl)
    ]
