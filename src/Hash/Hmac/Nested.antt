-- ===== src/Hash/Hmac/Nested.antt =====
-- HMAC as RFC 2104 defines it: the hash of the outer key block and the hash of the inner key block
-- and the text.
use pageant.Base.{
  ℕ, zero, suc, ◌-◌, ◌^◌, ◌≤◌, ◌<◌, bit_xor, ◌≡◌, refl, sym, ap, ap₂, List, [], ◌∷◌, ◌++◌,
  append-nil, arith, length, drop, replicate, map, All,
}
use pageant.Base.Bits.{bit_xor_zero, below_pow}
use mathlib.Core.Path.{subst}
use pageant.Hash.Stream.{Core, State, init, bytes, final}
use pageant.Hash.Blocks.{IsShortCut, joined}
use pageant.Hash.Padding.{Stores, IsDigest, feed, final-feed}
use pageant.Hash.Hmac.{Keys, xor_key, key_internal, hmac_start, hmac_bytes, hmac_genresult}

-- The key filled up with zeros to a block, each byte mixed with `pad`.
abbrev pub key_block : ℕ → List ℕ → List ℕ
key_block pad key = map (bit_xor pad) (key ++ replicate (64 - length key) 0)

xor_key_zeros : (pad n : ℕ) → replicate n pad ≡ map (bit_xor pad) (replicate n 0)
xor_key_zeros pad zero = refl
xor_key_zeros pad (suc n) =
    ap₂ ◌∷◌ (sym (bit_xor_zero pad pad (below_pow pad))) (xor_key_zeros pad n)

xor_key-pads :
    (pad n : ℕ) (key : List ℕ)
    → length key ≤ n
    → xor_key (replicate n pad) key (length key)
      ≡ map (bit_xor pad) (key ++ replicate (n - length key) 0)
unfolding xor_key
xor_key-pads pad zero [] h = refl
xor_key-pads pad zero (k ∷ key) h = absurd (omega arith)
xor_key-pads pad (suc n) [] h =
    let e : suc n - 0 ≡ suc n = omega arith in rw e (xor_key_zeros pad (suc n))
xor_key-pads pad (suc n) (k ∷ key) h =
    let e : suc n - suc (length key) ≡ n - length key = omega arith in
    rw e (ap (λ (t : List ℕ). bit_xor pad k ∷ t) (xor_key-pads pad n key (omega arith)))

-- `d` is the HMAC of the text `m` under `key`; `count` makes the bytes of a message's length.
abbrev pub IsHmac : Core → (ℕ → ℕ → List ℕ) → List ℕ → List ℕ → List ℕ → Type 0
IsHmac core count key m d =
    (i : List ℕ) × IsDigest core count (key_block 0x36 key ++ m) i
    × IsDigest core count (key_block 0x5c key ++ i) d

-- The calls of `…_bytes` between `…_start` and `…_genresult`.
abbrev pub hmac_feed : (core : Core) → Keys core → List (List ℕ) → Keys core
hmac_feed core keys [] = keys
hmac_feed core keys (p ∷ ps) = hmac_feed core (hmac_bytes core keys p) ps

hmac_feed-outer :
    (core : Core) (keys : Keys core) (ps : List (List ℕ))
    → (hmac_feed core keys ps).outer ≡ keys.outer
unfolding hmac_bytes
hmac_feed-outer core keys [] = refl
hmac_feed-outer core keys (p ∷ ps) = hmac_feed-outer core (hmac_bytes core keys p) ps

hmac_feed-running :
    (core : Core) (keys : Keys core) (ps : List (List ℕ))
    → (hmac_feed core keys ps).running ≡ feed core keys.running ps
unfolding hmac_bytes
hmac_feed-running core keys [] = refl
hmac_feed-running core keys (p ∷ ps) = hmac_feed-running core (hmac_bytes core keys p) ps

length-xor_key : (foo key : List ℕ) (len : ℕ) → length (xor_key foo key len) ≡ length foo
unfolding xor_key
length-xor_key [] key len = refl
length-xor_key (f ∷ foo) key zero = refl
length-xor_key (f ∷ foo) key (suc len) = ap suc (length-xor_key foo (drop 1 key) len)

final_short :
    (core : Core) (s : State core)
    → ((h : core.H) → length (core.digest h) < 2 ^ 31 - 64)
    → length (final core s) < 2 ^ 31 - 64
unfolding final
final_short core s short = short _

module _ (core : Core) (cut : IsShortCut core)
    (eight : (hi lo : ℕ) → length (core.store_length hi lo) ≡ 8) (count : ℕ → ℕ → List ℕ)
    (stored : Stores core count) (short : (h : core.H) → length (core.digest h) < 2 ^ 31 - 64) where
  -- The key set-up, the start, any calls of `…_bytes` and `…_genresult`.
  pub genresult-IsHmac :
      (keys : Keys core) (key : List ℕ) (pieces : List (List ℕ))
      → length key ≤ 64
      → All (λ p. length p < 2 ^ 31 - 64) pieces
      → IsHmac core count key (joined pieces) (
          hmac_genresult core
            (hmac_feed core (hmac_start core (key_internal core keys key (length key))) pieces))
  unfolding hmac_genresult hmac_start key_internal
  genresult-IsHmac keys key pieces h hs =
      let ready = key_internal core keys key (length key) in
      let foo36 = xor_key (replicate 64 0x36) key (length key) in
      let foo5c = xor_key (replicate 64 0x5c) key (length key) in
      let started = hmac_start core ready in
      let inner = final core (feed core (init core) (foo36 ∷ pieces)) in
      let running : final core (hmac_feed core started pieces).running ≡ inner =
        ap (final core) (hmac_feed-running core started pieces) in
      let finished = final core (bytes core (bytes core (init core) foo5c) inner) in
      let result : hmac_genresult core (hmac_feed core started pieces) ≡ finished =
        ap₂ (λ o i. final core (bytes core o i)) (hmac_feed-outer core started pieces) running in
      let block_length : (foo : List ℕ)
          → length foo ≡ 64
          → length (xor_key foo key (length key)) < 2 ^ 31 - 64 =
        λ foo e. omega (arith, e, length-xor_key foo key (length key)) in
      (
        inner,
        subst (λ (b : List ℕ). IsDigest core count (b ++ joined pieces) inner)
            (xor_key-pads 0x36 64 key h)
            (final-feed core cut eight count stored (foo36 ∷ pieces)
              (block_length (replicate 64 0x36) refl, hs)),
        subst (IsDigest core count (key_block 0x5c key ++ inner)) (sym result) (
            subst (λ (b : List ℕ). IsDigest core count (b ++ inner) finished)
              (xor_key-pads 0x5c 64 key h)
              (subst (λ (t : List ℕ). IsDigest core count (foo5c ++ t) finished) (append-nil inner)
                (final-feed core cut eight count stored (foo5c ∷ inner ∷ [])
                  (block_length (replicate 64 0x5c) refl, (final_short core _ short, tt))))),
      )
