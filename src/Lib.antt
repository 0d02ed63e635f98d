-- ===== src/Lib.antt =====
-- Pageant+: an SSH agent. It keeps private keys, lists them and signs with them on request; this library
-- is about the code under it that every signature, key file and connection goes through.
--
-- Parts and files:
-- - Agent (pageant.cpp, keystore.cpp, ckey.cpp): the state is the list of keys and the settings, a record
--   Server; an operation is an Action, a function from the state to a result and the state, where a result
--   is a success, a failure that the code handles, or a fault: a null pointer, a read past the end of a
--   buffer, an exit. Keys has the parsing, comparison and copying of keys; Store the key store, and
--   Store/Distinct what it keeps, Store/Absent what it does not find; Wire the strings of RFC 4251 and the
--   proxied request; Accept the confirmation of requests; Constraints the loop over a new key's
--   constraints; Signer the choice of who signs, for a key that may be null; Handler one function for each
--   case of the switch of pageant_handle_msg, and pageant_handle_msg itself over the memory from the
--   request on. Below Handler: Outcome and Cases give what each case comes to, Replies and Answers the
--   whole handler, Invariant the steps of the agent and what they keep, Consent and Faults the requests
--   that are refused, unasked or fatal, Exchange a request and its answer. Client has pageant_get_keylist
--   and parse_public_keys.
-- - Agent/Connection (ssh-agent_emu.cpp, sock_server.c): one client. Connection has ssh_agent_server, one
--   function for each notification, over the client's data; Socket an entry of the server's list,
--   call_server, and what sock_server_main does when the socket can be read or written, breaks or is late.
--   A pointer is an offset. Turns has a client that sends a request and reads the reply; Assembly,
--   Delivery and Pieces follow a request into the buffer, Departure a reply out of it, Conversation both;
--   Timeouts and Safety take any event.
-- - Rsa (sshrsa.c): getstring, getmp, rsa2_public_blob and rsa2_newkey, over Bignum, without the assertion
--   of bignum_from_bytes on the length; Rsa/Listing makes the agent's table of algorithms of them, and
--   Rsa/Private has the forms of private keys: the readers stop where the source calls rsa_verify.
-- - Bignum (sshbn.c, sshbn.h): integers as arrays of 64-bit words, least significant first; element 0 of
--   the source's array, the number of words, is the length of a list here. Sum has bigadd and bigsub,
--   Compare has bignum_cmp, decbn and bignum_mod_short, Restore has bn_restore_invariant, Bytes has
--   bignum_from_bytes, Digits has bignum_byte, bignum_bit and bignum_bitcount, Ssh1 has the SSH-1 format.
--   Value gives the number that an array stands for.
-- - Word32 (misc.h and the rotation macros): 32-bit arithmetic, `% 2 ^ 32` written out, and the byte order
--   macros. Word32/Bytes is the interface that the cipher modes take a byte order through, Word32/Blocks a
--   buffer of two words at a time.
-- - Hash (sshsh256.c, sshsha.c, sshmd5.c): the outer algorithm of the three files is the same text, so
--   Stream models it once over a record Core; Sha256, Sha1 and Md5 are the cores. `block` of a state is
--   the part of the source's array in use, so `blkused` is its length; the tests of `blkused + len` are
--   part of the core, as wide and signed as in its file. Blocks and Padding say what a state stands for
--   and what a digest is; Digests has the three hashes. Hash/Hmac has the HMAC wrappers: the three states
--   of `keys` as a record, the functions by their names in Instances.
-- - Cipher (sshblowf.c, ssharcf.c, sshdes.c): Blowfish with its tables, key set-up and modes; the loops
--   over a buffer take a byte order, and the functions of the source are its two instances. Arcfour with
--   its key set-up and stream. Des has DES and triple DES: Schedule the key set-up, Boxes the tables,
--   Block the block function, Modes its loops and Keys the functions that take keys; Swaps and Feistel are
--   about the block function, Chain and Counter about the loops, Undo and Ssh1 about buffers and keys.
-- - Crc (sshcrc.c): the table, the loop that generates it and the update.
-- - Base: the names, list lemmas and laws of bits that the parts share.
-- Parameters of the agent: the record Algorithms is `struct ssh_signkey` for all algorithms at once, with
-- the material of a key abstract; Desktop has the fingerprint and the dialog; Devices has the smart cards
-- and the Bluetooth and RDP relays; the settings file is the list of remembered verdicts and one flag.
-- The agent rests on Word32; Rsa on Bignum. The hashes serve the MACs; the ciphers and the CRC stand
-- alone; the SSH-1 number format rests on the bytes and the bit count of the Bignum part.
--
-- Bounds and fuel: a length of the source is an `int`; the model's lists have any length, and the theorems
-- state the lengths that they need. Loops over arrays are recursion on the list or on the number of
-- passes, which is the source's own. The loop over the constraints of Agent/Constraints runs on fuel, one
-- more than the bytes that are left: each pass takes one, and running out is a result of its own. The
-- other fuel is that of `complete_blocks` of Hash/Stream, the number of bytes at hand: each pass after the
-- first takes 64 bytes and the first at least one, so it never runs out, and the theorems on digests hold
-- for the code so run. A read past the end of a list is 0; the theorems on arrays bound their indices or
-- hold for any such read. A write past the end of an array of Blowfish's key set-up lengthens it. A sum of
-- lengths of a hash that wraps around leaves a block of more than 64 bytes. The word size is that of the
-- first branch of sshbn.h. A client's turn has a list of calls of `recv` and of `send`, each with its time
-- and size; one call for each byte is enough. The buffer of a connection is all the memory behind a
-- request that the handler can read.
--
-- Not modelled: the listeners of the key store, its searches by fingerprint, logging and dump_msg; the
-- public key algorithms but for the RSA blob, key files, the remaining ciphers and hashes; allocation and
-- wiping of memory; the search for a free entry, `select` and the opening of sockets; windows, the
-- registry and smart cards. A key that a list of keys announces past the end of the answer is a fault as
-- soon as it is met.
pub mod Agent
pub mod Base
pub mod Bignum
pub mod Cipher
pub mod Crc
pub mod Hash
pub mod Rsa
pub mod Word32
