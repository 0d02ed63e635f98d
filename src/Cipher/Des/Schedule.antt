-- ===== src/Cipher/Des/Schedule.antt =====
-- des_key_setup of sshdes.c: the sixteen pairs of words that the rounds take, from the 64 bits of a key.
use pageant.Base.{ℕ, ◌-◌, ◌/◌, ◌%◌, bit_and, bit_or, Option, none, some, List, [], ◌∷◌, get_or}
use pageant.Word32.{shl, shr}
use pageant.Cipher.Des.{DesContext}

-- The bits to select; `none` is -1.
abbrev pub pc1_cbits : List (Option ℕ)
pc1_cbits =
    some 7
    ∷ some 15
    ∷ some 23
    ∷ some 31
    ∷ some 39
    ∷ some 47
    ∷ some 55
    ∷ some 63
    ∷ some 6
    ∷ some 14
    ∷ some 22
    ∷ some 30
    ∷ some 38
    ∷ some 46
    ∷ some 54
    ∷ some 62
    ∷ some 5
    ∷ some 13
    ∷ some 21
    ∷ some 29
    ∷ some 37
    ∷ some 45
    ∷ some 53
    ∷ some 61
    ∷ some 4
    ∷ some 12
    ∷ some 20
    ∷ some 28
    ∷ []

abbrev pub pc1_dbits : List (Option ℕ)
pc1_dbits =
    some 1
    ∷ some 9
    ∷ some 17
    ∷ some 25
    ∷ some 33
    ∷ some 41
    ∷ some 49
    ∷ some 57
    ∷ some 2
    ∷ some 10
    ∷ some 18
    ∷ some 26
    ∷ some 34
    ∷ some 42
    ∷ some 50
    ∷ some 58
    ∷ some 3
    ∷ some 11
    ∷ some 19
    ∷ some 27
    ∷ some 35
    ∷ some 43
    ∷ some 51
    ∷ some 59
    ∷ some 36
    ∷ some 44
    ∷ some 52
    ∷ some 60
    ∷ []

abbrev pub pc2_0246 : List (Option ℕ)
pc2_0246 =
    some 49
    ∷ some 36
    ∷ some 59
    ∷ some 55
    ∷ none
    ∷ none
    ∷ some 37
    ∷ some 41
    ∷ some 48
    ∷ some 56
    ∷ some 34
    ∷ some 52
    ∷ none
    ∷ none
    ∷ some 15
    ∷ some 4
    ∷ some 25
    ∷ some 19
    ∷ some 9
    ∷ some 1
    ∷ none
    ∷ none
    ∷ some 12
    ∷ some 7
    ∷ some 17
    ∷ some 0
    ∷ some 22
    ∷ some 3
    ∷ none
    ∷ none
    ∷ some 46
    ∷ some 43
    ∷ []

abbrev pub pc2_1357 : List (Option ℕ)
pc2_1357 =
    none
    ∷ none
    ∷ some 57
    ∷ some 32
    ∷ some 45
    ∷ some 54
    ∷ some 39
    ∷ some 50
    ∷ none
    ∷ none
    ∷ some 44
    ∷ some 53
    ∷ some 33
    ∷ some 40
    ∷ some 47
    ∷ some 58
    ∷ none
    ∷ none
    ∷ some 26
    ∷ some 16
    ∷ some 5
    ∷ some 11
    ∷ some 23
    ∷ some 8
    ∷ none
    ∷ none
    ∷ some 10
    ∷ some 14
    ∷ some 6
    ∷ some 20
    ∷ some 27
    ∷ some 24
    ∷ []

abbrev pub leftshifts : List ℕ
leftshifts = 1 ∷ 1 ∷ 2 ∷ 2 ∷ 2 ∷ 2 ∷ 2 ∷ 2 ∷ 1 ∷ 2 ∷ 2 ∷ 2 ∷ 2 ∷ 2 ∷ 2 ∷ 1 ∷ []

abbrev rotl28 : ℕ → ℕ → ℕ
rotl28 x c = bit_and (bit_or (shl x c) (shr x (28 - c))) 0x0fffffff

abbrev select : List ℕ → Option ℕ → ℕ → ℕ
select input none ret = ret
select input (some bitpos) ret =
    bit_or ret (bit_and 1 (shr (get_or input (bitpos / 32) 0) (bitpos % 32)))

abbrev bitsel_loop : List ℕ → List (Option ℕ) → ℕ → ℕ
bitsel_loop input [] ret = ret
bitsel_loop input (b ∷ bitnums) ret = bitsel_loop input bitnums (select input b (shl ret 1))

unfoldable pub bitsel : List ℕ → List (Option ℕ) → ℕ
bitsel input bitnums = bitsel_loop input bitnums 0

-- The two words of each round, from `C` and `D` on.
unfoldable pub setup_loop : List ℕ → ℕ → ℕ → List (ℕ × ℕ)
unfolding bitsel
setup_loop [] c d = []
setup_loop (s ∷ shifts) c d =
    let c' = rotl28 c s in
    let d' = rotl28 d s in
    let buf = d' ∷ c' ∷ [] in (bitsel buf pc2_0246, bitsel buf pc2_1357) ∷ setup_loop shifts c' d'

unfoldable pub des_key_setup : ℕ → ℕ → DesContext
unfolding setup_loop bitsel
des_key_setup key_msw key_lsw =
    let buf = key_lsw ∷ key_msw ∷ [] in
    record {
      k = setup_loop leftshifts (bitsel buf pc1_cbits) (bitsel buf pc1_dbits);
      iv0 = 0;
      iv1 = 0;
    }
