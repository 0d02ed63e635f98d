-- ===== src/Hash/Gather.antt =====
-- The gathering of the bytes of a block into 32-bit words, in both byte orders.
use pageant.Base.{ℕ, zero, suc, List, [], ◌∷◌, drop}
use pageant.Word32.{get_32bit_msb_first, get_32bit_lsb_first}

-- `n` words, big-endian.
unfoldable pub gather_msb : ℕ → List ℕ → List ℕ
unfolding get_32bit_msb_first
gather_msb zero bs = []
gather_msb (suc n) bs = get_32bit_msb_first bs ∷ gather_msb n (drop 4 bs)

-- `n` words, little-endian.
unfoldable pub gather_lsb : ℕ → List ℕ → List ℕ
unfolding get_32bit_lsb_first
gather_lsb zero bs = []
gather_lsb (suc n) bs = get_32bit_lsb_first bs ∷ gather_lsb n (drop 4 bs)

-- The first list, turned round, in front of the second.
unfoldable pub reverse_onto : List ℕ → List ℕ → List ℕ
reverse_onto [] acc = acc
reverse_onto (x ∷ xs) acc = reverse_onto xs (x ∷ acc)
