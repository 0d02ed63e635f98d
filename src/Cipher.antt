-- ===== src/Cipher.antt =====
-- The ciphers: ssharcf.c, sshblowf.c and sshdes.c.
pub mod Blowfish
pub mod Arcfour
pub mod Des
mod Tests
