-- ===== src/Hash/Hmac.antt =====
-- The HMAC wrappers of sshsh256.c, sshsha.c and sshmd5.c, over a core of the hashes. The array `keys`
-- of three hash states is a record.
use pageant.Base.{
  ℕ, zero, suc, ◌+◌, bit_xor, Bool, List, [], ◌∷◌, ◌++◌, ◌==◌, ◌&&◌, true, false, length, get_or,
  take, drop, replicate,
}
pub mod Nested
pub mod Instances
pub mod Macs
use pageant.Word32.{put_32bit_msb_first}
use pageant.Hash.Stream.{Core, State, init, bytes, final}
use pageant.Hash.Sha1.{sha1}
use pageant.Hash.Sha256.{sha256}
use pageant.Hash.Md5.{md5}

-- `keys[0]`, `keys[1]`, `keys[2]`.
pub record Keys (core : Core) : Type 0 where
  pub inner : State core
  pub outer : State core
  pub running : State core

-- `for (i = 0; i < len && i < 64; i++) foo[i] ^= key[i];`, where `foo` is what is left of the array.
unfoldable pub xor_key : List ℕ → List ℕ → ℕ → List ℕ
xor_key [] key len = []
xor_key (f ∷ foo) key zero = f ∷ foo
xor_key (f ∷ foo) key (suc len) = bit_xor f (get_or key 0 0) ∷ xor_key foo (drop 1 key) len

-- `smemeq` on the first `n` bytes.
unfoldable pub same_bytes : List ℕ → List ℕ → ℕ → Bool
same_bytes xs ys zero = true
same_bytes xs ys (suc n) = (get_or xs 0 0 == get_or ys 0 0) && same_bytes (drop 1 xs) (drop 1 ys) n

module _ (core : Core) where
  unfoldable pub key_internal : Keys core → List ℕ → ℕ → Keys core
  unfolding xor_key
  key_internal keys key len = record keys {
    inner = bytes core (init core) (xor_key (replicate 64 0x36) key len);
    outer = bytes core (init core) (xor_key (replicate 64 0x5c) key len);
  }

  unfoldable pub hmac_start : Keys core → Keys core
  hmac_start keys = record keys { running = keys.inner }

  unfoldable pub hmac_bytes : Keys core → List ℕ → Keys core
  hmac_bytes keys blk = record keys { running = bytes core keys.running blk }

  -- The states that are finished are copies: the keys stay as they are.
  unfoldable pub hmac_genresult : Keys core → List ℕ
  hmac_genresult keys =
      let intermediate = final core keys.running in final core (bytes core keys.outer intermediate)

  unfoldable pub do_hmac : Keys core → List ℕ → ℕ → List ℕ
  unfolding hmac_start hmac_bytes hmac_genresult
  do_hmac keys blk seq =
      let seqbuf = put_32bit_msb_first seq in
      hmac_genresult (hmac_bytes (hmac_bytes (hmac_start keys) seqbuf) blk)

  -- The buffer with the first `n` bytes of the MAC stored behind the `len` bytes of data.
  unfoldable pub hmac_generate : ℕ → Keys core → List ℕ → ℕ → ℕ → List ℕ
  hmac_generate n keys buf len seq =
      take len buf ++ (take n (do_hmac keys (take len buf) seq) ++ drop (n + len) buf)

  unfoldable pub hmac_verresult : ℕ → Keys core → List ℕ → Bool
  hmac_verresult n keys hmac = same_bytes (hmac_genresult keys) hmac n

  unfoldable pub hmac_verify : ℕ → Keys core → List ℕ → ℕ → ℕ → Bool
  unfolding same_bytes
  hmac_verify n keys buf len seq = same_bytes (do_hmac keys (take len buf) seq) (drop len buf) n

-- `hmac_sha1_simple`; it uses no third state.
unfoldable pub hmac_sha1_simple : List ℕ → ℕ → List ℕ → List ℕ
unfolding key_internal hmac_genresult
hmac_sha1_simple key keylen data' =
    let blank : Keys sha1 = record { inner = init sha1; outer = init sha1; running = init sha1 } in
    let states = key_internal sha1 blank key keylen in
    let fed : Keys sha1 = record states { running = bytes sha1 states.inner data' } in
    hmac_genresult sha1 fed
