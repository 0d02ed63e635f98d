-- ===== src/Cipher/Des/Block.antt =====
-- des_encipher and des_decipher of sshdes.c.
use pageant.Base.{ℕ, bit_and, bit_or, bit_xor, List, [], ◌∷◌, get_or}
use pageant.Word32.{shl, shr, rol}
use pageant.Cipher.Des.{DesContext, Pair}
use pageant.Cipher.Des.Boxes.{
  sp_box0, sp_box1, sp_box2, sp_box3, sp_box4, sp_box5, sp_box6, sp_box7,
}

-- The index `(s >> n) & 0x3F` into a box.
unfoldable pub in_box : List ℕ → ℕ → ℕ → ℕ
in_box box s n = get_or box (bit_and (shr s n) 0x3f) 0

-- The macro f.
unfoldable pub f : ℕ → ℕ × ℕ → ℕ
unfolding in_box rol sp_box0 sp_box1 sp_box2 sp_box3 sp_box4 sp_box5 sp_box6 sp_box7
f r (k0246, k1357) =
    let s0246 = rol (bit_xor r k0246) 28 in
    let s1357 = bit_xor r k1357 in
    bit_or
      (bit_or
        (bit_or
          (bit_or
            (bit_or
              (bit_or (bit_or (in_box sp_box0 s0246 24) (in_box sp_box1 s1357 24))
                (in_box sp_box2 s0246 16))
              (in_box sp_box3 s1357 16))
            (in_box sp_box4 s0246 8))
          (in_box sp_box5 s1357 8))
        (in_box sp_box6 s0246 0))
      (in_box sp_box7 s1357 0)

-- bitswap(L, R, n, mask), and bitswap(R, L, n, mask).
unfoldable pub bitswap : ℕ → ℕ → Pair → Pair
bitswap n mask x =
    let swap = bit_and mask (bit_xor (shr x.r n) x.l) in
    record { l = bit_xor x.l swap; r = bit_xor x.r (shl swap n) }

abbrev pub exchange : Pair → Pair
exchange x = record { l = x.r; r = x.l }

unfoldable pub bitswap' : ℕ → ℕ → Pair → Pair
unfolding bitswap
bitswap' n mask x = exchange (bitswap n mask (exchange x))

-- The macro IP.
unfoldable pub initial_permutation : Pair → Pair
unfolding bitswap bitswap'
initial_permutation x =
    bitswap' 1 0x55555555 (
      bitswap 8 0x00ff00ff
        (bitswap 2 0x33333333 (bitswap' 16 0x0000ffff (bitswap' 4 0x0f0f0f0f x))))

-- The macro FP.
unfoldable pub final_permutation : Pair → Pair
unfolding bitswap bitswap'
final_permutation x =
    bitswap' 4 0x0f0f0f0f (
      bitswap' 16 0x0000ffff
        (bitswap 2 0x33333333 (bitswap 8 0x00ff00ff (bitswap' 1 0x55555555 x))))

-- `L ^= f(R, k[i]); R ^= f(L, k[j])`.
unfoldable pub two_rounds : DesContext → ℕ → ℕ → Pair → Pair
unfolding f
two_rounds sched i j x =
    let l = bit_xor x.l (f x.r (get_or sched.k i (0, 0))) in
    record { l = l; r = bit_xor x.r (f l (get_or sched.k j (0, 0))) }

unfoldable pub rounds : DesContext → List (ℕ × ℕ) → Pair → Pair
unfolding two_rounds
rounds sched [] x = x
rounds sched ((i, j) ∷ is) x = rounds sched is (two_rounds sched i j x)

unfoldable pub rotl_both : ℕ → Pair → Pair
unfolding rol
rotl_both n x = record { l = rol x.l n; r = rol x.r n }

-- The body of both functions, with the rounds in the order `is`.
unfoldable pub crypt : List (ℕ × ℕ) → DesContext → ℕ → ℕ → Pair
unfolding initial_permutation final_permutation rounds rotl_both
crypt is sched l r =
    let x = rotl_both 1 (initial_permutation (record { l = l; r = r })) in
    final_permutation (exchange (rotl_both 31 (rounds sched is x)))

abbrev pub forwards : List (ℕ × ℕ)
forwards = (0, 1) ∷ (2, 3) ∷ (4, 5) ∷ (6, 7) ∷ (8, 9) ∷ (10, 11) ∷ (12, 13) ∷ (14, 15) ∷ []

abbrev pub backwards : List (ℕ × ℕ)
backwards = (15, 14) ∷ (13, 12) ∷ (11, 10) ∷ (9, 8) ∷ (7, 6) ∷ (5, 4) ∷ (3, 2) ∷ (1, 0) ∷ []

unfoldable pub des_encipher : DesContext → ℕ → ℕ → Pair
unfolding crypt
des_encipher = crypt forwards

unfoldable pub des_decipher : DesContext → ℕ → ℕ → Pair
unfolding crypt
des_decipher = crypt backwards
