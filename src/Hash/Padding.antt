-- ===== src/Hash/Padding.antt =====
-- What the outer algorithm computes: the core folded over the 64-byte blocks of the padded message.
use pageant.Base.{
  ℕ, zero, suc, ◌+◌, ◌-◌, ◌*◌, ◌/◌, ◌%◌, ◌^◌, ◌<◌, bit_or, ◌≡◌, refl, sym, ap, ap₂, ◌∙◌, List, [],
  ◌∷◌, ◌++◌, append_assoc, append-nil, arith, length, length-append, length-replicate, replicate,
  All,
}
use pageant.Base.Bits.{bit_or_fields}
use pageant.Hash.Stream.{Core, State, init, bytes, pad_length, final}
use mathlib.Core.Path.{subst}
use pageant.Hash.Blocks.{
  IsShortCut, process, joined, IsBlocks, Represents, nil_of_length, init-Represents,
  bytes-Represents,
}

-- The lowest `k` bytes of a number, the highest of them first, and the lowest first.
unfoldable pub big_endian : ℕ → ℕ → List ℕ
big_endian zero x = []
big_endian (suc k) x = x / 256 ^ k % 256 ∷ big_endian k x

unfoldable pub little_endian : ℕ → ℕ → List ℕ
little_endian zero x = []
little_endian (suc k) x = x % 256 ∷ little_endian k (x / 256)

-- What is appended to a message of `n` bytes: a byte 0x80, zeros up to 8 bytes before the end of a
-- block, and the number of bits in the 8 bytes that `count` makes of it.
abbrev pub padding : (ℕ → ℕ → List ℕ) → ℕ → List ℕ
padding count n = (0x80 ∷ replicate ((119 - n % 64) % 64) 0) ++ count 8 (8 * n)

length-joined : (bs : List (List ℕ)) → IsBlocks bs → length (joined bs) % 64 ≡ 0
length-joined [] h = refl
length-joined (b ∷ bs) (p, h) = rw (length-append b (joined bs)) (omega (arith, length-joined bs h))

-- The two words of the number of bits.
bits_high :
    (hi lo n : ℕ)
    → lo < 2 ^ 32
    → hi * 2 ^ 32 + lo ≡ n % 2 ^ 64
    → bit_or (hi * 2 ^ 3 % 2 ^ 32) (lo / 2 ^ (32 - 3)) ≡ 8 * n / 2 ^ 32 % 2 ^ 32
bits_high hi lo n p e =
    let q : hi * 2 ^ 3 % 2 ^ 32 ≡ hi % 2 ^ 29 * 2 ^ 3 = omega arith in
    rw q (bit_or_fields 3 (hi % 2 ^ 29) (lo / 2 ^ 29) (omega arith) ∙ omega arith)

bits_low :
    (hi lo n : ℕ)
    → lo < 2 ^ 32
    → hi * 2 ^ 32 + lo ≡ n % 2 ^ 64
    → lo * 2 ^ 3 % 2 ^ 32 ≡ 8 * n % 2 ^ 32
bits_low hi lo n p e = omega arith

-- `d` is the digest of the message `m`: the core run over the blocks of the padded message.
abbrev pub IsDigest : Core → (ℕ → ℕ → List ℕ) → List ℕ → List ℕ → Type 0
IsDigest core count m d =
    (full : List (List ℕ)) × IsBlocks full
    × (joined full ≡ m ++ padding count (length m))
    × (d ≡ core.digest (process core core.initial full))

-- Calls of `…_Bytes` one after another.
abbrev pub feed : (core : Core) → State core → List (List ℕ) → State core
feed core s [] = s
feed core s (p ∷ ps) = feed core (bytes core s p) ps

feed-Represents :
    (core : Core) (cut : IsShortCut core) (pieces : List (List ℕ)) {s : State core} {m : List ℕ}
    → All (λ p. length p < 2 ^ 31 - 64) pieces
    → Represents core s m
    → Represents core (feed core s pieces) (m ++ joined pieces)
feed-Represents core cut [] {s} {m} h r = subst (Represents core s) (sym (append-nil m)) r
feed-Represents core cut (p ∷ ps) {s} {m} (small, h) r =
    subst (Represents core (feed core s (p ∷ ps))) (append_assoc m p (joined ps))
      (feed-Represents core cut ps h (bytes-Represents core cut p small r))

block_empty :
    (core : Core) {s : State core} {m : List ℕ}
    → Represents core s m
    → length m % 64 ≡ 0
    → s.block ≡ []
block_empty core {s} {m} r e = nil_of_length s.block (
    omega (
      arith,
      length-append (joined r.full) s.block,
      length-joined r.full r.sized,
      ap length r.text,
      r.short,
    ))

-- The two words of a number are stored as the bytes that `count` makes of it.
abbrev pub Stores : Core → (ℕ → ℕ → List ℕ) → Type 0
Stores core count = (n : ℕ) → core.store_length (n / 2 ^ 32 % 2 ^ 32) (n % 2 ^ 32) ≡ count 8 n

module _ (core : Core) (cut : IsShortCut core)
    (eight : (hi lo : ℕ) → length (core.store_length hi lo) ≡ 8) (count : ℕ → ℕ → List ℕ)
    (stored : Stores core count) where
  final-value :
      {s : State core} {m : List ℕ} → Represents core s m → IsDigest core count m (final core s)
  unfolding final
  final-value {s} {m} r =
      let n = length m in
      let rest_length : length s.block ≡ n % 64 = omega (
        arith,
        length-append (joined r.full) s.block,
        length-joined r.full r.sized,
        ap length r.text,
      ) in
      let zeros : pad_length core (length s.block) - 1 ≡ (119 - n % 64) % 64 =
        unfold pad_length in ground arith in
      let p1 : List ℕ = 0x80 ∷ replicate (pad_length core (length s.block) - 1) 0 in
      let r1 = bytes-Represents core cut p1 (omega (arith, zeros, length-replicate {0})) r in
      let hi = bits_high s.lenhi s.lenlo n r.low r.counted in
      let lo = bits_low s.lenhi s.lenlo n r.low r.counted in
      let l : List ℕ = core.store_length (8 * n / 2 ^ 32 % 2 ^ 32) (8 * n % 2 ^ 32) in
      let r2 = bytes-Represents core cut l (omega (arith, eight)) r1 in
      let empty : (bytes core (bytes core s p1) l).block ≡ [] = block_empty core r2 (
        omega (
          arith,
          length-append (m ++ p1) l,
          length-append m p1,
          length-replicate (pad_length core (length s.block) - 1) zero,
          eight (8 * n / 2 ^ 32 % 2 ^ 32) (8 * n % 2 ^ 32),
          zeros,
        )) in
      (
        r2.full,
        r2.sized,
        sym (append-nil (joined r2.full))
            ∙ ap (λ t. joined r2.full ++ t) (sym empty)
            ∙ r2.text
            ∙ append_assoc m p1 l
            ∙ ap₂ (λ k t. m ++ ((0x80 ∷ replicate k 0) ++ t)) zeros (stored (8 * n)),
        ap₂ (λ x y. core.digest (bytes core (bytes core s p1) (core.store_length x y)).h) hi lo
            ∙ ap core.digest r2.core_state,
      )

  -- The digest of a message taken in by any calls of `…_Bytes`, each of fewer than 2 ^ 31 - 64 bytes: the
  -- core over the 64-byte blocks of the padded message, in order.
  pub final-feed :
      (pieces : List (List ℕ))
      → All (λ p. length p < 2 ^ 31 - 64) pieces
      → IsDigest core count (joined pieces) (final core (feed core (init core) pieces))
  final-feed pieces h = final-value (feed-Represents core cut pieces h (init-Represents core))
