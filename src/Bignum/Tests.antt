-- ===== src/Bignum/Tests.antt =====
-- Runs of the Bignum routines, and their theorems at concrete numbers.
use pageant.Base.{
  ℕ, ◌+◌, ◌-◌, ◌≤◌, ◌/◌, ◌%◌, ◌^◌, ◌<◌, ◌≡◌, ◌⊎◌, inl, refl, List, [], ◌∷◌, ◌++◌, none, some, arith,
  length,
}
use pageant.Bignum.{Bignum, bigadd, bigsub, bn_restore_invariant}
use pageant.Bignum.Value.{value, Words, TopNonzero}
use pageant.Bignum.Sum.{bigadd-value, bigsub-value}
use pageant.Bignum.Compare.{
  Sign, bignum_cmp, decbn, bignum_mod_short, IsBignum, Compares, bignum_cmp-Compares, decbn-value,
  bignum_mod_short-value,
}
use pageant.Bignum.Restore.{bn_restore_invariant-IsBignum}
use pageant.Bignum.Bytes.{bignum_from_bytes, be_value, bignum_from_bytes-value}
use pageant.Bignum.Digits.{
  bignum_byte, bignum_bitcount, ssh1_bignum_length, IsBitLength, digits-value,
}
use pageant.Bignum.Ssh1.{ssh1_write_bignum, ssh1_read_bignum, ssh1_read_bignum-write}

-- 2 ^ 64 + 5 and 2 ^ 64 - 1.
abbrev five_up : Bignum
five_up = 5 ∷ 1 ∷ []

abbrev all_ones : Bignum
all_ones = 0xffffffffffffffff ∷ []

abbrev sent : List ℕ
sent = 0x12 ∷ 0x34 ∷ []

bigadd_carries : bigadd five_up all_ones ≡ 4 ∷ 2 ∷ []
unfolding bigadd pageant.Bignum.adc_loop pageant.Bignum.adc
bigadd_carries = refl

bigsub_borrows : bigsub five_up all_ones ≡ some (6 ∷ [])
unfolding bigsub pageant.Bignum.adc_loop pageant.Bignum.adc
bigsub_borrows = refl

bigsub_negative : bigsub all_ones five_up ≡ none
unfolding bigsub pageant.Bignum.adc_loop pageant.Bignum.adc
bigsub_negative = refl

five_up-IsBignum : IsBignum five_up
five_up-IsBignum = (omega arith, inl (omega arith))

all_ones-IsBignum : IsBignum all_ones
all_ones-IsBignum = (omega arith, inl (omega arith))

ssh1_read_bignum-write_example :
    (r : Bignum) × (ssh1_read_bignum (ssh1_write_bignum five_up ++ sent)
      ≡ some (length (ssh1_write_bignum five_up), r))
    × (value r ≡ value five_up)
    × IsBignum r
    × (length (ssh1_write_bignum five_up) ≡ ssh1_bignum_length five_up)
ssh1_read_bignum-write_example =
    ssh1_read_bignum-write five_up sent (omega arith) (unfold bignum_bitcount in omega arith)

bigadd-value_example :
    (value (bigadd five_up all_ones) ≡ value five_up + value all_ones)
    × Words (bigadd five_up all_ones)
    × TopNonzero (bigadd five_up all_ones)
bigadd-value_example = bigadd-value five_up all_ones (omega arith) (omega arith)

bigsub-value_example :
    ((bigsub five_up all_ones ≡ none) × (value five_up < value all_ones))
    ⊎ ((d : Bignum) × (bigsub five_up all_ones ≡ some d)
        × (value d + value all_ones ≡ value five_up)
        × Words d
        × TopNonzero d)
bigsub-value_example = bigsub-value five_up all_ones (omega arith) (omega arith)

bignum_cmp-Compares_example :
    (s : Sign) × (bignum_cmp all_ones five_up ≡ some s)
    × Compares s (value all_ones) (value five_up)
bignum_cmp-Compares_example =
    bignum_cmp-Compares all_ones five_up all_ones-IsBignum five_up-IsBignum

decbn-value_example :
    (d : Bignum) × (decbn five_up ≡ some d)
    × (value d + 1 ≡ value five_up)
    × Words d
    × (length d ≡ length five_up)
decbn-value_example = decbn-value five_up (omega arith) (unfold value in omega arith)

bignum_mod_short-value_example : bignum_mod_short five_up 65521 ≡ value five_up % 65521
bignum_mod_short-value_example = bignum_mod_short-value five_up 65521 (omega arith) (omega arith)

bignum_from_bytes-value_example :
    ((bn : Bignum) × (length sent < (2 ^ 31 - 1) / 8)
      × (bignum_from_bytes sent ≡ some bn)
      × (value bn ≡ be_value sent)
      × IsBignum bn)
    ⊎ (((2 ^ 31 - 1) / 8 ≤ length sent) × (bignum_from_bytes sent ≡ none))
bignum_from_bytes-value_example = bignum_from_bytes-value sent (omega arith)

bn_restore_invariant-IsBignum_example :
    (value (bn_restore_invariant (5 ∷ 0 ∷ [])) ≡ value (5 ∷ 0 ∷ []))
    × IsBignum (bn_restore_invariant (5 ∷ 0 ∷ []))
bn_restore_invariant-IsBignum_example = bn_restore_invariant-IsBignum (5 ∷ 0 ∷ []) (omega arith)

digits-value_example :
    (bignum_byte five_up 8 ≡ value five_up / 256 ^ 8 % 256)
    × IsBitLength (value five_up) (bignum_bitcount five_up)
digits-value_example = digits-value five_up 8 (omega arith)
