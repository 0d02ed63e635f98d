-- ===== src/Word32/Bytes.antt =====
-- The byte order macros of misc.h as arithmetic, and what a client of a byte order relies on.
use pageant.Base.{
  ℕ, ◌+◌, ◌*◌, ◌/◌, ◌%◌, ◌^◌, ◌<◌, bit_or, ◌≡◌, refl, ap, ap₂, ◌∙◌, List, [], ◌∷◌, ◌++◌, arith,
  drop, All, length, ◌≤◌,
}
use pageant.Base.Bits.{bit_or_fields, bit_or_comm, bit_and_mask}
use pageant.Word32.{
  shl, get_32bit_msb_first, get_32bit_lsb_first, put_32bit_msb_first, put_32bit_lsb_first,
}

abbrev pub IsByte : ℕ → Type 0
IsByte b = b < 256

-- Four fields of eight bits, joined by `|` from the top.
join_fields :
    (a b c d : ℕ)
    → a < 256
    → b < 256
    → c < 256
    → d < 256
    → bit_or (bit_or (bit_or (shl a 24) (shl b 16)) (shl c 8)) d
      ≡ a * 2 ^ 24 + b * 2 ^ 16 + c * 2 ^ 8 + d
join_fields a b c d ha hb hc hd =
    let e1 : bit_or (shl a 24) (shl b 16) ≡ (a * 256 + b) * 2 ^ 16 =
      ap₂ bit_or (no_wrap a 24 (omega arith)) (no_wrap b 16 (omega arith))
      ∙ bit_or_fields 24 a (b * 2 ^ 16) (omega arith)
      ∙ omega arith in
    let e2 : bit_or ((a * 256 + b) * 2 ^ 16) (shl c 8) ≡ (a * 65536 + b * 256 + c) * 2 ^ 8 =
      ap (bit_or ((a * 256 + b) * 2 ^ 16)) (no_wrap c 8 (omega arith))
      ∙ bit_or_fields 16 (a * 256 + b) (c * 2 ^ 8) (omega arith)
      ∙ omega arith in
    ap (λ (t : ℕ). bit_or (bit_or t (shl c 8)) d) e1
    ∙ ap (λ (t : ℕ). bit_or t d) e2
    ∙ bit_or_fields 8 (a * 65536 + b * 256 + c) d hd
    ∙ omega arith
  where
    no_wrap : (x k : ℕ) → x * 2 ^ k < 2 ^ 32 → shl x k ≡ x * 2 ^ k
    no_wrap x k h = omega arith

pub get_msb_value :
    (a b c d : ℕ) (r : List ℕ)
    → a < 256
    → b < 256
    → c < 256
    → d < 256
    → get_32bit_msb_first (a ∷ b ∷ c ∷ d ∷ r) ≡ a * 2 ^ 24 + b * 2 ^ 16 + c * 2 ^ 8 + d
unfolding get_32bit_msb_first
get_msb_value a b c d r = join_fields a b c d

pub put_msb_value :
    (v : ℕ)
    → put_32bit_msb_first v ≡ v / 2 ^ 24 % 256 ∷ v / 2 ^ 16 % 256 ∷ v / 2 ^ 8 % 256 ∷ v % 256 ∷ []
unfolding put_32bit_msb_first
put_msb_value v =
    rw
      (
        bit_and_mask 8 (v / 2 ^ 24),
        bit_and_mask 8 (v / 2 ^ 16),
        bit_and_mask 8 (v / 2 ^ 8),
        bit_and_mask 8 v,
      )
      refl

-- Reading back a stored word.
pub get-put_msb :
    (v : ℕ) (r : List ℕ) → v < 2 ^ 32 → get_32bit_msb_first (put_32bit_msb_first v ++ r) ≡ v
get-put_msb v r h =
    rw (put_msb_value v) (
      get_msb_value _ _ _ _ r (omega arith) (omega arith) (omega arith) (omega arith) ∙ omega arith)

-- Storing a word that was read gives its bytes.
pub put-get_msb :
    (a b c d : ℕ) (r : List ℕ)
    → a < 256
    → b < 256
    → c < 256
    → d < 256
    → put_32bit_msb_first (get_32bit_msb_first (a ∷ b ∷ c ∷ d ∷ r)) ≡ a ∷ b ∷ c ∷ d ∷ []
put-get_msb a b c d r ha hb hc hd =
    rw (get_msb_value a b c d r ha hb hc hd, put_msb_value)
      (ap₂ ◌∷◌ (omega arith)
        (ap₂ ◌∷◌ (omega arith) (ap₂ ◌∷◌ (omega arith) (ap (λ (t : ℕ). t ∷ []) (omega arith)))))

-- Four fields of eight bits, joined by `|` from the bottom.
join_up :
    (a b c d : ℕ)
    → a < 256
    → b < 256
    → c < 256
    → d < 256
    → bit_or (bit_or (bit_or a (shl b 8)) (shl c 16)) (shl d 24)
      ≡ d * 2 ^ 24 + c * 2 ^ 16 + b * 2 ^ 8 + a
join_up a b c d ha hb hc hd =
    let e1 : bit_or a (shl b 8) ≡ b * 2 ^ 8 + a = above 8 b a (omega arith) (omega arith) in
    let e2 : bit_or (b * 2 ^ 8 + a) (shl c 16) ≡ c * 2 ^ 16 + (b * 2 ^ 8 + a) =
      above 16 c (b * 2 ^ 8 + a) (omega arith) (omega arith) in
    ap (λ (t : ℕ). bit_or (bit_or t (shl c 16)) (shl d 24)) e1
    ∙ ap (λ (t : ℕ). bit_or t (shl d 24)) e2
    ∙ above 24 d (c * 2 ^ 16 + (b * 2 ^ 8 + a)) (omega arith) (omega arith)
    ∙ omega arith
  where
    above :
        (k x low : ℕ) → low < 2 ^ k → x * 2 ^ k < 2 ^ 32 → bit_or low (shl x k) ≡ x * 2 ^ k + low
    above k x low hl h =
        let e : shl x k ≡ x * 2 ^ k = omega arith in
        rw e (bit_or_comm low (x * 2 ^ k) ∙ bit_or_fields k x low hl)

get_lsb_value :
    (a b c d : ℕ) (r : List ℕ)
    → a < 256
    → b < 256
    → c < 256
    → d < 256
    → get_32bit_lsb_first (a ∷ b ∷ c ∷ d ∷ r) ≡ d * 2 ^ 24 + c * 2 ^ 16 + b * 2 ^ 8 + a
unfolding get_32bit_lsb_first
get_lsb_value a b c d r = join_up a b c d

get-put_lsb :
    (v : ℕ) (r : List ℕ) → v < 2 ^ 32 → get_32bit_lsb_first (put_32bit_lsb_first v ++ r) ≡ v
unfolding put_32bit_lsb_first
get-put_lsb v r h =
    get_lsb_value _ _ _ _ r (omega arith) (omega arith) (omega arith) (omega arith) ∙ omega arith

put-get_lsb :
    (a b c d : ℕ) (r : List ℕ)
    → a < 256
    → b < 256
    → c < 256
    → d < 256
    → put_32bit_lsb_first (get_32bit_lsb_first (a ∷ b ∷ c ∷ d ∷ r)) ≡ a ∷ b ∷ c ∷ d ∷ []
unfolding put_32bit_lsb_first
put-get_lsb a b c d r ha hb hc hd = rw (get_lsb_value a b c d r ha hb hc hd) (
    ap₂ ◌∷◌ (omega arith)
      (ap₂ ◌∷◌ (omega arith) (ap₂ ◌∷◌ (omega arith) (ap (λ (t : ℕ). t ∷ []) (omega arith)))))

-- What a client of a byte order relies on: reading back what was stored, storing what was read, four
-- bytes stored, and a word read from bytes.
pub record IsOrder (get : List ℕ → ℕ) (put : ℕ → List ℕ) : Type 0 where
  pub get-put : (v : ℕ) (r : List ℕ) → v < 2 ^ 32 → get (put v ++ r) ≡ v
  pub length-put : (v : ℕ) → length (put v) ≡ 4
  pub drop-put : (v : ℕ) (r : List ℕ) → drop 4 (put v ++ r) ≡ r
  pub put-get : (bs : List ℕ) → All IsByte bs → 4 ≤ length bs → put (get bs) ++ drop 4 bs ≡ bs
  pub get-lt : (bs : List ℕ) → All IsByte bs → 4 ≤ length bs → get bs < 2 ^ 32

length-put_msb : (v : ℕ) → length (put_32bit_msb_first v) ≡ 4
unfolding put_32bit_msb_first
length-put_msb v = refl

drop-put_msb : (v : ℕ) (r : List ℕ) → drop 4 (put_32bit_msb_first v ++ r) ≡ r
unfolding put_32bit_msb_first
drop-put_msb v r = refl

pub msb-IsOrder : IsOrder get_32bit_msb_first put_32bit_msb_first
msb-IsOrder = record {
  get-put = get-put_msb;
  length-put = length-put_msb;
  drop-put = drop-put_msb;
  put-get = stored;
  get-lt = read;
}
  where
    stored :
        (bs : List ℕ)
        → All IsByte bs
        → 4 ≤ length bs
        → put_32bit_msb_first (get_32bit_msb_first bs) ++ drop 4 bs ≡ bs
    stored [] _ k = absurd (omega arith)
    stored (a ∷ []) _ k = absurd (omega arith)
    stored (a ∷ b ∷ []) _ k = absurd (omega arith)
    stored (a ∷ b ∷ c ∷ []) _ k = absurd (omega arith)
    stored (a ∷ b ∷ c ∷ d ∷ r) (ha, (hb, (hc, (hd, h)))) k =
        ap (λ (t : List ℕ). t ++ r) (put-get_msb a b c d r ha hb hc hd)

    read : (bs : List ℕ) → All IsByte bs → 4 ≤ length bs → get_32bit_msb_first bs < 2 ^ 32
    read [] _ k = absurd (omega arith)
    read (a ∷ []) _ k = absurd (omega arith)
    read (a ∷ b ∷ []) _ k = absurd (omega arith)
    read (a ∷ b ∷ c ∷ []) _ k = absurd (omega arith)
    read (a ∷ b ∷ c ∷ d ∷ r) (ha, (hb, (hc, (hd, h)))) k =
        omega (arith, get_msb_value a b c d r ha hb hc hd)

length-put_lsb : (v : ℕ) → length (put_32bit_lsb_first v) ≡ 4
unfolding put_32bit_lsb_first
length-put_lsb v = refl

drop-put_lsb : (v : ℕ) (r : List ℕ) → drop 4 (put_32bit_lsb_first v ++ r) ≡ r
unfolding put_32bit_lsb_first
drop-put_lsb v r = refl

pub lsb-IsOrder : IsOrder get_32bit_lsb_first put_32bit_lsb_first
lsb-IsOrder = record {
  get-put = get-put_lsb;
  length-put = length-put_lsb;
  drop-put = drop-put_lsb;
  put-get = stored;
  get-lt = read;
}
  where
    stored :
        (bs : List ℕ)
        → All IsByte bs
        → 4 ≤ length bs
        → put_32bit_lsb_first (get_32bit_lsb_first bs) ++ drop 4 bs ≡ bs
    stored [] _ k = absurd (omega arith)
    stored (a ∷ []) _ k = absurd (omega arith)
    stored (a ∷ b ∷ []) _ k = absurd (omega arith)
    stored (a ∷ b ∷ c ∷ []) _ k = absurd (omega arith)
    stored (a ∷ b ∷ c ∷ d ∷ r) (ha, (hb, (hc, (hd, h)))) k =
        ap (λ (t : List ℕ). t ++ r) (put-get_lsb a b c d r ha hb hc hd)

    read : (bs : List ℕ) → All IsByte bs → 4 ≤ length bs → get_32bit_lsb_first bs < 2 ^ 32
    read [] _ k = absurd (omega arith)
    read (a ∷ []) _ k = absurd (omega arith)
    read (a ∷ b ∷ []) _ k = absurd (omega arith)
    read (a ∷ b ∷ c ∷ []) _ k = absurd (omega arith)
    read (a ∷ b ∷ c ∷ d ∷ r) (ha, (hb, (hc, (hd, h)))) k =
        omega (arith, get_lsb_value a b c d r ha hb hc hd)
