-- ===== src/Hash.antt =====
-- The hash functions: sshsha.c, sshsh256.c and sshmd5.c. The outer algorithm, which cuts a message
-- into blocks of 64 bytes and pads it, is the same text in the three files; `Stream` is its model.
pub mod Stream
pub mod Blocks
pub mod Padding
mod Gather
pub mod Sha256
pub mod Sha1
pub mod Md5
pub mod Hmac
pub mod Digests
mod Tests
