-- ===== src/Crc/Serial.antt =====
-- The CRC of sshcrc.c without a table: a shift register that takes one bit at a time.
use pageant.Base.{
  ℕ, zero, suc, ◌+◌, ◌*◌, ◌/◌, ◌%◌, ◌^◌, ◌<◌, bit_and, bit_xor, ◌≡◌, refl, sym, ap, ap₂, ◌∙◌, List,
  [], ◌∷◌, arith, get_or, All,
}
use pageant.Base.Bits.{
  xor_assoc, bit_xor_half, bit_xor_low, bit_xor_comm, bit_xor-lt, bit_and_mask, bit_xor_fields,
  bit_xor_zero, zero_bit_xor, below_pow, shift_suc,
}
use pageant.Base.Powers.{pow_suc}
use pageant.Word32.Bytes.{IsByte}
use pageant.Crc.{
  poly, crc32_init_loop, crc32_init_entry, crc32_init_from, crc32_table, crc32_update,
}

-- One bit through the shift register: shift right, and mix in the polynomial for the bit shifted out.
pub serial_step : ℕ → ℕ
serial_step x = bit_xor (x / 2) (x % 2 * poly)

pub serial_steps : ℕ → ℕ → ℕ
serial_steps zero x = x
serial_steps (suc n) x = serial_steps n (serial_step x)

-- The message, byte by byte, lowest bit first: a byte is mixed into the low end of the register.
unfoldable pub serial_crc : ℕ → List ℕ → ℕ
serial_crc crcword [] = crcword
serial_crc crcword (b ∷ buf) = serial_crc (serial_steps 8 (bit_xor crcword b)) buf

-- The table, once compared with the table that the loop computes.
table_eq : crc32_table ≡ crc32_init_from 0 256
unfolding crc32_table crc32_init_from crc32_init_entry crc32_init_loop
table_eq = refl

get_or-crc32_init_from :
    (i n k : ℕ) → k < n → get_or (crc32_init_from i n) k 0 ≡ crc32_init_entry (i + k)
unfolding crc32_init_from
get_or-crc32_init_from i zero k h = absurd (omega arith)
get_or-crc32_init_from i (suc n) zero h = ap crc32_init_entry (omega arith)
get_or-crc32_init_from i (suc n) (suc k) h =
    get_or-crc32_init_from (suc i) n k (omega arith) ∙ ap crc32_init_entry (omega arith)

xor_exchange :
    (a b c d : ℕ) → bit_xor (bit_xor a b) (bit_xor c d) ≡ bit_xor (bit_xor a c) (bit_xor b d)
xor_exchange a b c d =
    xor_assoc a b (bit_xor c d)
    ∙ ap (bit_xor a)
        (sym (xor_assoc b c d) ∙ ap (λ (t : ℕ). bit_xor t d) (bit_xor_comm b c) ∙ xor_assoc c b d)
    ∙ sym (xor_assoc a c (bit_xor b d))

-- Both polynomials or none cancel.
poly_xor : (x y : ℕ) → x < 2 → y < 2 → (x + y) % 2 * poly ≡ bit_xor (x * poly) (y * poly)
poly_xor zero zero hx hy = refl
poly_xor zero (suc zero) hx hy = refl
poly_xor zero (suc (suc y)) hx hy = absurd (omega arith)
poly_xor (suc zero) zero hx hy = refl
poly_xor (suc zero) (suc zero) hx hy = refl
poly_xor (suc zero) (suc (suc y)) hx hy = absurd (omega arith)
poly_xor (suc (suc x)) y hx hy = absurd (omega arith)

serial_step-xor : (a b : ℕ) → serial_step (bit_xor a b) ≡ bit_xor (serial_step a) (serial_step b)
unfolding serial_step
serial_step-xor a b =
    let e : bit_xor a b % 2 * poly ≡ bit_xor (a % 2 * poly) (b % 2 * poly) =
      ap (λ (t : ℕ). t * poly) (bit_xor_low a b ∙ omega arith)
      ∙ poly_xor (a % 2) (b % 2) (omega arith) (omega arith) in
    ap₂ bit_xor (bit_xor_half a b) e ∙ xor_exchange (a / 2) (b / 2) (a % 2 * poly) (b % 2 * poly)

-- The register is linear.
serial_steps-xor :
    (n a b : ℕ) → serial_steps n (bit_xor a b) ≡ bit_xor (serial_steps n a) (serial_steps n b)
unfolding serial_steps
serial_steps-xor zero a b = refl
serial_steps-xor (suc n) a b =
    ap (serial_steps n) (serial_step-xor a b) ∙ serial_steps-xor n (serial_step a) (serial_step b)

-- Bits above the steps taken only move down.
serial_steps_above : (n h : ℕ) → serial_steps n (h * 2 ^ n) ≡ h
unfolding serial_steps serial_step
serial_steps_above zero h = omega arith
serial_steps_above (suc n) h =
    let even : h * 2 ^ suc n ≡ 2 * (h * 2 ^ n) = shift_suc n h in
    let half : h * 2 ^ suc n / 2 ≡ h * 2 ^ n = omega (arith, even) in
    let low : h * 2 ^ suc n % 2 * poly ≡ 0 = omega (arith, even) in
    ap (serial_steps n) (ap₂ bit_xor half low ∙ bit_xor_zero _ _ (below_pow (h * 2 ^ n)))
    ∙ serial_steps_above n h

crc32_init_loop-serial :
    (n crcword newbyte : ℕ)
    → newbyte < 2 ^ n
    → crc32_init_loop n crcword newbyte ≡ serial_steps n (bit_xor crcword newbyte)
unfolding crc32_init_loop serial_steps serial_step
crc32_init_loop-serial zero crcword zero h = sym (bit_xor_zero _ _ (below_pow crcword))
crc32_init_loop-serial zero crcword (suc newbyte) h = absurd (omega arith)
crc32_init_loop-serial (suc n) crcword newbyte h =
    let x = bit_xor crcword newbyte in
    let t = x % 2 * poly in
    let e : bit_and x 1 ≡ x % 2 = bit_and_mask 1 x in
    rw e (
      crc32_init_loop-serial n (bit_xor (crcword / 2) t) (newbyte / 2) (omega (arith, pow_suc 2 n))
      ∙ ap (serial_steps n) (
          xor_assoc (crcword / 2) t (newbyte / 2)
          ∙ ap (bit_xor (crcword / 2)) (bit_xor_comm t (newbyte / 2))
          ∙ sym (xor_assoc (crcword / 2) (newbyte / 2) t)
          ∙ ap (λ (y : ℕ). bit_xor y t) (sym (bit_xor_half crcword newbyte))))

init_entry-serial : (i : ℕ) → i < 256 → crc32_init_entry i ≡ serial_steps 8 i
unfolding crc32_init_entry
init_entry-serial i h =
    crc32_init_loop-serial 8 0 i h ∙ ap (serial_steps 8) (zero_bit_xor _ i (below_pow i))

-- For an index below 256, the entry of the table that is compiled in is what the loop of
-- `crc32_init` computes for it, and is eight serial steps of the index.
pub crc32_table-init :
    (i : ℕ)
    → i < 256
    → (get_or crc32_table i 0 ≡ crc32_init_entry i) × (get_or crc32_table i 0 ≡ serial_steps 8 i)
crc32_table-init i h =
    let e : get_or crc32_table i 0 ≡ crc32_init_entry i =
      ap (λ (t : List ℕ). get_or t i 0) table_eq
      ∙ get_or-crc32_init_from 0 256 i h
      ∙ ap crc32_init_entry (omega arith) in
    (e, e ∙ init_entry-serial i h)

update_byte :
    (crcword b : ℕ)
    → b < 256
    → bit_xor (crcword / 2 ^ 8) (get_or crc32_table (bit_xor b (bit_and crcword 0xff)) 0)
      ≡ serial_steps 8 (bit_xor crcword b)
update_byte crcword b h =
    let hi = crcword / 256 in
    let lo = crcword % 256 in
    let hlt : bit_xor b lo < 256 = bit_xor-lt 8 b lo h (omega arith) in
    let split : bit_xor (hi * 2 ^ 8) lo ≡ crcword =
      bit_xor_fields 8 hi lo (omega arith) ∙ omega arith in
    let e : bit_xor crcword b ≡ bit_xor (hi * 2 ^ 8) (bit_xor b lo) =
      ap (λ (t : ℕ). bit_xor t b) (sym split)
      ∙ xor_assoc (hi * 2 ^ 8) lo b
      ∙ ap (bit_xor (hi * 2 ^ 8)) (bit_xor_comm lo b) in
    ap (λ (t : ℕ). bit_xor hi (get_or crc32_table (bit_xor b t) 0)) (bit_and_mask 8 crcword)
    ∙ ap₂ bit_xor (sym (serial_steps_above 8 hi)) (crc32_table-init (bit_xor b lo) hlt).1
    ∙ sym (serial_steps-xor 8 (hi * 2 ^ 8) (bit_xor b lo))
    ∙ ap (serial_steps 8) (sym e)

-- For bytes, and from every register, `crc32_update`, with its table and its shifts by eight,
-- equals the CRC computed one bit at a time, with a shift register and the polynomial.
pub crc32_update-serial :
    (crcword : ℕ) (buf : List ℕ)
    → All IsByte buf
    → crc32_update crcword buf ≡ serial_crc crcword buf
unfolding crc32_update serial_crc
crc32_update-serial crcword [] h = refl
crc32_update-serial crcword (b ∷ buf) (hb, h) =
    rw (update_byte crcword b hb) (crc32_update-serial (serial_steps 8 (bit_xor crcword b)) buf h)
