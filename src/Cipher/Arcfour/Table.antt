-- ===== src/Cipher/Arcfour/Table.antt =====
-- The state of Arcfour, from the key set-up through every byte of key stream.
use pageant.Base.{
  ℕ, zero, suc, ◌+◌, ◌<◌, ◌≤◌, bit_and, ◌≡◌, refl, sym, ap, ◌∙◌, List, [], ◌∷◌, arith, get_or,
  get_or-set_self, get_or-set_ne, set, length, length-set, All, All-set, All-get_or, if◌then◌else◌,
  ◌==◌,
}
use pageant.Base.Bits.{bit_and_mask}
use pageant.Word32.Bytes.{IsByte}
use pageant.Cipher.Arcfour.{
  ArcfourContext, swap, step, arcfour_block, identity_from, schedule, arcfour_setkey, arcfour_stir,
  arcfour128_key, arcfour256_key, repeat_from,
}

-- 256 bytes, all different.
pub record IsTable (s : List ℕ) : Type 0 where
  pub size : length s ≡ 256
  pub bytes : All IsByte s
  pub distinct : (a b : ℕ) → a < 256 → b < 256 → get_or s a 0 ≡ get_or s b 0 → a ≡ b

abbrev exchanged : ℕ → ℕ → ℕ → ℕ
exchanged i j k = if k == j then i else if k == i then j else k

get_or-swap :
    (s : List ℕ) (i j k : ℕ)
    → i < length s
    → j < length s
    → get_or (swap s i j) k 0 ≡ get_or s (exchanged i j k) 0
unfolding swap
get_or-swap s i j k hi hj =
    let v = get_or s j 0 in
    ground (
      arith,
      get_or-set_self (set s i v) j (get_or s i 0) 0 (omega (arith, length-set s i v)),
      get_or-set_ne (set s i v) j k (get_or s i 0) 0,
      get_or-set_self s i v 0 hi,
      get_or-set_ne s i k v 0,
    )

exchanged_injective : (i j a b : ℕ) → exchanged i j a ≡ exchanged i j b → a ≡ b
exchanged_injective i j a b h = ground arith

exchanged-lt : (i j k n : ℕ) → i < n → j < n → k < n → exchanged i j k < n
exchanged-lt i j k n hi hj hk = ground arith

pub swap-IsTable : (s : List ℕ) (i j : ℕ) → IsTable s → i < 256 → j < 256 → IsTable (swap s i j)
unfolding swap
swap-IsTable s i j t hi hj = record {
  size = length-set _ j _ ∙ length-set s i _ ∙ t.size;
  bytes =
      All-set IsByte _ j _
        (All-set IsByte s i _ t.bytes (All-get_or IsByte s j 0 t.bytes (omega arith)))
        (All-get_or IsByte s i 0 t.bytes (omega arith));
  distinct = λ a b ha hb e. exchanged_injective i j a b (
      t.distinct (exchanged i j a) (exchanged i j b) (exchanged-lt i j a 256 hi hj ha)
        (exchanged-lt i j b 256 hi hj hb)
        (sym (get_or-swap s i j a (omega (arith, t.size)) (omega (arith, t.size)))
          ∙ e
          ∙ get_or-swap s i j b (omega (arith, t.size)) (omega (arith, t.size))));
}

-- What the algorithm keeps of a context, and what `arcfour_setkey` establishes: `i` and `j` are bytes
-- and `s` is a table.
pub record IsReady (ctx : ArcfourContext) : Type 0 where
  pub low_i : ctx.i < 256
  pub low_j : ctx.j < 256
  pub table : IsTable ctx.s

masked : (x : ℕ) → bit_and x 0xff < 256
masked x = omega (arith, bit_and_mask 8 x)

pub step-IsReady : (ctx : ArcfourContext) → IsReady ctx → IsReady (step ctx)
unfolding step
step-IsReady ctx r = record {
  low_i = masked _;
  low_j = masked _;
  table = swap-IsTable ctx.s _ _ r.table (masked _) (masked _);
}

-- `arcfour_block` keeps a ready context ready, for all data.
pub arcfour_block-IsReady :
    (ctx : ArcfourContext) (blk : List ℕ) → IsReady ctx → IsReady (arcfour_block ctx blk).1
unfolding arcfour_block
arcfour_block-IsReady ctx [] r = r
arcfour_block-IsReady ctx (b ∷ blk) r = arcfour_block-IsReady (step ctx) blk (step-IsReady ctx r)

schedule-IsTable :
    (s : List ℕ) (i j : ℕ) (ks : List ℕ)
    → IsTable s
    → i + length ks ≤ 256
    → IsTable (schedule s i j ks)
unfolding schedule
schedule-IsTable s i j [] t h = t
schedule-IsTable s i j (k ∷ ks) t h =
    let j1 = bit_and (j + get_or s i 0 + k) 0xff in
    schedule-IsTable (swap s i j1) (i + 1) j1 ks
      (swap-IsTable s i j1 t (omega arith) (masked (j + get_or s i 0 + k))) (omega arith)

length-identity_from : (i n : ℕ) → length (identity_from i n) ≡ n
unfolding identity_from
length-identity_from i zero = refl
length-identity_from i (suc n) = ap suc (length-identity_from (i + 1) n)

get_or-identity_from : (i n k : ℕ) → k < n → get_or (identity_from i n) k 0 ≡ i + k
unfolding identity_from
get_or-identity_from i zero k h = absurd (omega arith)
get_or-identity_from i (suc n) zero h = omega arith
get_or-identity_from i (suc n) (suc k) h =
    get_or-identity_from (i + 1) n k (omega arith) ∙ omega arith

identity_from-bytes : (i n : ℕ) → i + n ≤ 256 → All IsByte (identity_from i n)
unfolding identity_from
identity_from-bytes i zero h = tt
identity_from-bytes i (suc n) h = (omega arith, identity_from-bytes (i + 1) n (omega arith))

length-repeat_from : (key : List ℕ) (keybytes i n : ℕ) → length (repeat_from key keybytes i n) ≡ n
unfolding repeat_from
length-repeat_from key keybytes i zero = refl
length-repeat_from key keybytes i (suc n) = ap suc (length-repeat_from key keybytes (i + 1) n)

identity-IsTable : IsTable (identity_from 0 256)
identity-IsTable = record {
  size = length-identity_from 0 256;
  bytes = identity_from-bytes 0 256 (omega arith);
  distinct = λ a b ha hb e.
      omega (arith, e, get_or-identity_from 0 256 a ha, get_or-identity_from 0 256 b hb);
}

-- `arcfour_setkey` leaves a ready context, whatever the key and its length.
pub arcfour_setkey-IsReady : (key : List ℕ) (keybytes : ℕ) → IsReady (arcfour_setkey key keybytes)
unfolding arcfour_setkey
arcfour_setkey-IsReady key keybytes = record {
  low_i = omega arith;
  low_j = omega arith;
  table =
      schedule-IsTable (identity_from 0 256) 0 0 (repeat_from key keybytes 0 256) identity-IsTable
        (omega (arith, length-repeat_from key keybytes 0 256));
}

-- For every key and all data, the context after `arcfour128_key` or `arcfour256_key` and a
-- further call of `arcfour_block` has `i` and `j` below 256 and, in `s`, 256 bytes in which no
-- value stands twice.
pub key-IsReady :
    (key blk : List ℕ)
    → IsReady (arcfour_block (arcfour128_key key) blk).1
      × IsReady (arcfour_block (arcfour256_key key) blk).1
unfolding arcfour128_key arcfour256_key arcfour_stir
key-IsReady key blk = (
  arcfour_block-IsReady _ blk (arcfour_block-IsReady _ _ (arcfour_setkey-IsReady key 16)),
  arcfour_block-IsReady _ blk (arcfour_block-IsReady _ _ (arcfour_setkey-IsReady key 32)),
)
