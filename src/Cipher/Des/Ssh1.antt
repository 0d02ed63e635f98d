-- ===== src/Cipher/Des/Ssh1.antt =====
-- Theorems on triple DES as SSH-1 uses it: three CBC passes, each with a chaining value of its own.
use pageant.Base.{ℕ, List, arith}
use pageant.Cipher.Des.Schedule.{des_key_setup}
use pageant.Cipher.Des.Keys.{key_setup, des3_key}
use pageant.Cipher.Des.Undo.{IsChained}

pub setup-IsChained : (key : List ℕ) → IsChained (key_setup key)
unfolding key_setup des_key_setup
setup-IsChained key = (omega arith, omega arith)

pub key3-IsChained : (key : List ℕ) → IsChained (des3_key key).first
unfolding des3_key
key3-IsChained key = setup-IsChained key
