-- ===== src/Crypto.antt =====
-- The signed tokens of src/mediaman/crypto/tokens.py.
pub mod Tokens
pub mod Subkeys
pub mod Base64
pub mod TokenLaws
pub mod Kinds
pub mod KindLaws
mod Tests
