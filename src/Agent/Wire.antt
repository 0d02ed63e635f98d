-- ===== src/Agent/Wire.antt =====
-- The strings of RFC 4251 in requests and replies, and the message that a proxied signature is asked
-- for with: rfc4251_string, rfc4251_add_string, create_agentc_sign_request and parse_sign_response of
-- pageant.cpp.
use pageant.Base.{
  ℕ, ◌+◌, ◌-◌, ◌^◌, Bool, Option, none, some, List, [], ◌∷◌, ◌++◌, ltb, ◌==◌, if◌then◌else◌, length,
  get_or, take, drop,
}
use pageant.Word32.{get_32bit_msb_first, put_32bit_msb_first}
pub mod Strings

-- `size_t n = toint(u)`: an unsigned 32-bit number through `int`, with its sign extended to 64 bits.
abbrev pub to_size : ℕ → ℕ
to_size u = if ltb u (2 ^ 31) then u else u + (2 ^ 64 - 2 ^ 32)

-- The new `pos` and the string; `none` is the result false, which leaves `pos`.
unfoldable pub rfc4251_string : List ℕ → ℕ → Option (ℕ × List ℕ)
rfc4251_string src pos =
    let data_len = to_size (get_32bit_msb_first (drop pos src)) in
    let left = length src - pos - 4 in
    if ltb (length src) (pos + 4)
    then none
    else if ltb left data_len
    then none
    else some (pos + 4 + data_len, take data_len (drop (pos + 4) src))

unfoldable pub rfc4251_add_string : List ℕ → List ℕ → List ℕ
rfc4251_add_string string blob = blob ++ (put_32bit_msb_first (length string) ++ string)

abbrev pub ssh2_agentc_sign_request : ℕ
ssh2_agentc_sign_request = 13

abbrev pub ssh2_agent_sign_response : ℕ
ssh2_agent_sign_response = 14

abbrev pub ssh_agent_rsa_sha2_512 : ℕ
ssh_agent_rsa_sha2_512 = 4

unfoldable pub create_agentc_sign_request : List ℕ → List ℕ → List ℕ
unfolding rfc4251_add_string
create_agentc_sign_request public_key_blob data' =
    let blob0 =
      put_32bit_msb_first (1 + 4 + length public_key_blob + 4 + length data' + 4)
      ++ ssh2_agentc_sign_request ∷ [] in
    let blob1 = rfc4251_add_string public_key_blob blob0 in
    let blob2 = rfc4251_add_string data' blob1 in
    blob2 ++ put_32bit_msb_first ssh_agent_rsa_sha2_512

-- The empty list is the empty vector that stands for an error.
unfoldable pub parse_sign_response : List ℕ → List ℕ
parse_sign_response response =
    let len_s = get_32bit_msb_first response in
    if ltb (length response) 5
    then []
    else if get_or response 4 0 == ssh2_agent_sign_response
    then elim (rfc4251_string response 5) [
      | none ↦ []
      | some (pos, signature) ↦ if length signature + 4 + 1 == len_s then signature else []
    ]
    else []
