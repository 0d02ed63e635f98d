-- ===== src/Word32.antt =====
-- The arithmetic of `uint32` that the hashes and ciphers share, with the macros `rol`, `ror`, `shr`
-- of sshsha.c, sshsh256.c and sshmd5.c and the byte order macros of misc.h.
pub mod Bytes
pub mod Blocks
use pageant.Base.{ℕ, ◌+◌, ◌-◌, ◌*◌, ◌/◌, ◌%◌, ◌^◌, bit_and, bit_or, bit_xor, List, [], ◌∷◌, get_or}

abbrev pub u32 : ℕ → ℕ
u32 x = x % 2 ^ 32

abbrev pub shl : ℕ → ℕ → ℕ
shl x k = x * 2 ^ k % 2 ^ 32

abbrev pub shr : ℕ → ℕ → ℕ
shr x k = x / 2 ^ k

-- `~x`
abbrev pub invert : ℕ → ℕ
invert x = 2 ^ 32 - 1 - x

unfoldable pub rol : ℕ → ℕ → ℕ
rol x y = bit_or (shl x y) (shr x (32 - y))

unfoldable pub ror : ℕ → ℕ → ℕ
ror x y = bit_or (shl x (32 - y)) (shr x y)

-- Reads at `cp[0]` to `cp[3]`.
unfoldable pub get_32bit_msb_first : List ℕ → ℕ
get_32bit_msb_first cp =
    bit_or
      (bit_or (bit_or (shl (get_or cp 0 0) 24) (shl (get_or cp 1 0) 16)) (shl (get_or cp 2 0) 8))
      (get_or cp 3 0)

unfoldable pub get_32bit_lsb_first : List ℕ → ℕ
get_32bit_lsb_first cp =
    bit_or (bit_or (bit_or (get_or cp 0 0) (shl (get_or cp 1 0) 8)) (shl (get_or cp 2 0) 16))
      (shl (get_or cp 3 0) 24)

-- The four bytes stored.
unfoldable pub put_32bit_msb_first : ℕ → List ℕ
put_32bit_msb_first v =
    bit_and (shr v 24) 0xff ∷ bit_and (shr v 16) 0xff ∷ bit_and (shr v 8) 0xff ∷ bit_and v 0xff ∷ []

unfoldable pub put_32bit_lsb_first : ℕ → List ℕ
put_32bit_lsb_first v = v % 2 ^ 8 ∷ shr v 8 % 2 ^ 8 ∷ shr v 16 % 2 ^ 8 ∷ shr v 24 % 2 ^ 8 ∷ []
