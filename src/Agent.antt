-- ===== src/Agent.antt =====
-- The agent: pageant.cpp, keystore.cpp and ckey.cpp.
mod Tests
pub mod Action
pub mod Wire
pub mod Keys
pub mod Store
pub mod Accept
pub mod Signer
pub mod Constraints
pub mod Handler
pub mod Client
pub mod Connection
