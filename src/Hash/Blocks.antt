-- ===== src/Hash/Blocks.antt =====
-- What the state of a hash stands for: a message, however it was cut into calls of `bytes`.
use pageant.Base.{
  ℕ, zero, suc, ◌+◌, ◌-◌, ◌*◌, ◌%◌, ◌^◌, ◌≤◌, ◌<◌, ◌≡◌, ◌⊎◌, inl, inr, refl, sym, ap, ◌∙◌, true,
  false, List, [], ◌∷◌, ◌++◌, append_assoc, arith, ltb, leb, if◌then◌else◌, length, length-append,
  length-take, length-drop, take, drop, take-append-drop, All, Bool-cases,
}
use pageant.Hash.Stream.{Core, State, init, complete_blocks, bytes}

-- The tests of `…_Bytes` are sound for a block that is not full and data short enough for the sum of
-- the lengths to be an `int`: the short cut leaves a block that is not full, without it nothing is in
-- the block or the block is filled, and the loop goes on as long as there is a full block.
pub record IsShortCut (core : Core) : Type 0 where
  pub fits :
      (used len : ℕ)
      → used < 64
      → len < 2 ^ 31 - 64
      → core.just_add used len ≡ true
      → used + len < 64
  pub passes :
      (used len : ℕ)
      → used < 64
      → len < 2 ^ 31 - 64
      → core.just_add used len ≡ false
      → (used ≡ 0) ⊎ (64 ≤ used + len)
  pub goes_on :
      (used len : ℕ) → used < 64 → len < 2 ^ 31 - 64 → core.more used len ≡ leb 64 (used + len)

-- A list of blocks, run through the core; and the bytes that they are.
abbrev pub process : (core : Core) → core.H → List (List ℕ) → core.H
process core h [] = h
process core h (b ∷ bs) = process core (core.block h b) bs

abbrev pub joined : List (List ℕ) → List ℕ
joined [] = []
joined (b ∷ bs) = b ++ joined bs

abbrev pub IsBlocks : List (List ℕ) → Type 0
IsBlocks = All (λ b. length b ≡ 64)

-- The state has taken in the message `m`: full blocks are processed, the rest is in the block, and
-- the length is that of `m` modulo 2^64.
pub record Represents (core : Core) (s : State core) (m : List ℕ) : Type 0 where
  pub full : List (List ℕ)
  pub sized : IsBlocks full
  pub core_state : s.h ≡ process core core.initial full
  pub text : joined full ++ s.block ≡ m
  pub short : length s.block < 64
  pub counted : s.lenhi * 2 ^ 32 + s.lenlo ≡ length m % 2 ^ 64
  pub low : s.lenlo < 2 ^ 32

joined-append : (bs cs : List (List ℕ)) → joined (bs ++ cs) ≡ joined bs ++ joined cs
joined-append [] cs = refl
joined-append (b ∷ bs) cs =
    ap (λ t. b ++ t) (joined-append bs cs) ∙ sym (append_assoc b (joined bs) (joined cs))

IsBlocks-append : (bs cs : List (List ℕ)) → IsBlocks bs → IsBlocks cs → IsBlocks (bs ++ cs)
IsBlocks-append [] cs h k = k
IsBlocks-append (b ∷ bs) cs (p, h) k = (p, IsBlocks-append bs cs h k)

pub nil_of_length : (xs : List ℕ) → length xs ≡ 0 → xs ≡ []
nil_of_length [] e = refl
nil_of_length (x ∷ xs) e = absurd (omega arith)

module _ (core : Core) where
  process-append :
      (h : core.H) (bs cs : List (List ℕ))
      → process core h (bs ++ cs) ≡ process core (process core h bs) cs
  process-append h [] cs = refl
  process-append h (b ∷ bs) cs = process-append (core.block h b) bs cs

  pub init-Represents : Represents core (init core) []
  unfolding init
  init-Represents = record {
    full = [];
    sized = tt;
    core_state = refl;
    text = refl;
    short = omega arith;
    counted = refl;
    low = omega arith;
  }

module _ (core : Core) (cut : IsShortCut core) where
  -- The loop takes full blocks off the front of what is in the block and the data.
  complete_blocks_lem :
      (fuel : ℕ) (h : core.H) (block q : List ℕ)
      → length block < 64
      → length q < 2 ^ 31 - 64
      → length block + length q < 64 * suc fuel
      → (length block ≡ 0) ⊎ (64 ≤ length block + length q)
      → (bs : List (List ℕ)) × IsBlocks bs
        × ((complete_blocks core fuel h block q).0 ≡ process core h bs)
        × (joined bs ++ (complete_blocks core fuel h block q).1 ≡ block ++ q)
        × (length (complete_blocks core fuel h block q).1 < 64)
  unfolding complete_blocks
  complete_blocks_lem zero h [] q short small enough cond = ([], tt, refl, refl, omega arith)
  complete_blocks_lem zero h (x ∷ block) q short small enough (inl e) = absurd (omega arith)
  complete_blocks_lem zero h (x ∷ block) q short small enough (inr e) = absurd (omega arith)
  complete_blocks_lem (suc fuel) h block q short small enough cond =
      let loop = cut.goes_on (length block) (length q) short small in
      elim (Bool-cases (leb 64 (length block + length q))) [
        | inl more ↦
            let room = 64 - length block in
            let b = block ++ take room q in
            let filled : length b ≡ 64 =
              ground (arith, length-append block (take room q), length-take room q) in
            let (bs, sized, e, j, l) =
              complete_blocks_lem fuel (core.block h b) [] (drop room q) (omega arith)
                (ground (arith, length-drop room q)) (ground (arith, length-drop room q))
                (inl refl) in
            rw (loop, more)
              (
                b ∷ bs,
                (filled, sized),
                e,
                append_assoc b _ _
                    ∙ ap (λ t. b ++ t) j
                    ∙ append_assoc block _ _
                    ∙ ap (λ t. block ++ t) (take-append-drop room q),
                l,
              )
        | inr done ↦
            let empty : block ≡ [] = nil_of_length block (ground arith) in
            rw (loop, done, empty) ([], tt, refl, refl, ground arith)
      ]

-- The number of bytes taken in so far, carried from `lenlo` to `lenhi`.
carry_length :
    (hi lo len n : ℕ)
    → lo < 2 ^ 32
    → len < 2 ^ 32
    → hi * 2 ^ 32 + lo ≡ n % 2 ^ 64
    → let lo' = (lo + len) % 2 ^ 32 in
      let hi' = (hi + (if ltb lo' (len % 2 ^ 32) then 1 else 0)) % 2 ^ 32 in
      hi' * 2 ^ 32 + lo' ≡ (n + len) % 2 ^ 64
carry_length hi lo len n p q e = ground arith

module _ (core : Core) (cut : IsShortCut core) where
  -- One call of `…_Bytes` takes the data in, behind what was taken in before.
  pub bytes-Represents :
      {s : State core} {m : List ℕ} (q : List ℕ)
      → length q < 2 ^ 31 - 64
      → Represents core s m
      → Represents core (bytes core s q) (m ++ q)
  unfolding bytes
  bytes-Represents {s} {m} q small r =
      let total : _ =
        carry_length s.lenhi s.lenlo (length q) (length m) r.low (omega (arith, small)) r.counted in
      elim (Bool-cases (core.just_add (length s.block) (length q))) [
        | inl add ↦ rw add (record {
          full = r.full;
          sized = r.sized;
          core_state = r.core_state;
          text = sym (append_assoc (joined r.full) s.block q) ∙ ap (λ t. t ++ q) r.text;
          short = rw length-append (cut.fits (length s.block) (length q) r.short small add);
          counted = rw (length-append m q) total;
          low = omega arith;
        })
        | inr go ↦
            let (bs, sized, e, j, l) =
              complete_blocks_lem core cut (length s.block + length q) s.h s.block q r.short small
                (omega arith) (cut.passes (length s.block) (length q) r.short small go) in
            let left : List ℕ =
              (complete_blocks core (length s.block + length q) s.h s.block q).1 in
            rw go (record {
              full = r.full ++ bs;
              sized = IsBlocks-append r.full bs r.sized sized;
              core_state =
                  e
                  ∙ ap (λ t. process core t bs) r.core_state
                  ∙ sym (process-append core core.initial r.full bs);
              text =
                  ap (λ t. t ++ left) (joined-append r.full bs)
                  ∙ append_assoc (joined r.full) (joined bs) left
                  ∙ ap (λ t. joined r.full ++ t) j
                  ∙ sym (append_assoc (joined r.full) s.block q)
                  ∙ ap (λ t. t ++ q) r.text;
              short = l;
              counted = rw (length-append m q) total;
              low = omega arith;
            })
      ]
