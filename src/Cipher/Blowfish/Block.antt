-- ===== src/Cipher/Blowfish/Block.antt =====
-- Theorems on the block function of Blowfish and its inverse, in sshblowf.c.
use pageant.Base.{ℕ, zero, suc, bit_xor, ◌≡◌, refl, ap, ap₂, ◌∙◌, get_or}
use pageant.Base.Bits.{xor_assoc, xor_cancel, xor_cancel_left}
use pageant.Cipher.Blowfish.{
  BlowfishContext, Pair, mix, round, rounds_up, rounds_down, blowfish_encrypt, blowfish_decrypt,
}

abbrev key : BlowfishContext → ℕ → ℕ
key ctx n = get_or ctx.p n 0

-- The state from which the rounds downwards go on when `x` is the state after `n` rounds upwards:
-- the halves exchanged, each with the key that the next round will take off it.
abbrev crossed : BlowfishContext → ℕ → Pair → Pair
crossed ctx n x = record { l = bit_xor x.r (key ctx (suc n)); r = bit_xor x.l (key ctx n) }

abbrev pair : ℕ → ℕ → Pair
pair a b = record { l = a; r = b }

-- One round down undoes one round up.
round-crossed :
    (ctx : BlowfishContext) (n : ℕ) (x : Pair)
    → round ctx (suc (suc n)) (crossed ctx (suc n) (round ctx n x)) ≡ crossed ctx n x
unfolding round
round-crossed ctx n x =
    let t = bit_xor x.l (key ctx n) in
    let e : bit_xor (bit_xor t (key ctx (suc (suc n)))) (key ctx (suc (suc n))) ≡ t =
      xor_cancel t (key ctx (suc (suc n))) in
    let k1 = key ctx (suc n) in
    ap₂ pair
      (ap (λ (y : ℕ). bit_xor (mix ctx y) (bit_xor (bit_xor (mix ctx t) x.r) k1)) e
        ∙ ap (bit_xor (mix ctx t)) (xor_assoc (mix ctx t) x.r k1)
        ∙ xor_cancel_left (bit_xor x.r k1) (mix ctx t))
      e

rounds_down-crossed :
    (ctx : BlowfishContext) (n : ℕ) (x : Pair)
    → rounds_down ctx n (crossed ctx n (rounds_up ctx n x)) ≡ crossed ctx 0 x
unfolding rounds_up rounds_down
rounds_down-crossed ctx zero x = refl
rounds_down-crossed ctx (suc n) x =
    ap (rounds_down ctx n) (round-crossed ctx n (rounds_up ctx n x)) ∙ rounds_down-crossed ctx n x

-- For every context and every block, `blowfish_decrypt` of the two words that `blowfish_encrypt`
-- gives is the block again.
pub blowfish_decrypt-encrypt :
    (ctx : BlowfishContext) (xl xr : ℕ)
    → let c = blowfish_encrypt ctx xl xr in blowfish_decrypt ctx c.l c.r ≡ record { l = xl; r = xr }
unfolding blowfish_encrypt blowfish_decrypt
blowfish_decrypt-encrypt ctx xl xr =
    rw (rounds_down-crossed ctx 16 (record { l = xl; r = xr }))
      (ap₂ pair (xor_cancel xl (key ctx 0)) (xor_cancel xr (key ctx 1)))
