-- ===== src/Vault.antt =====
-- app/core/vault.py and app/core/agent_key.py: the vault, its data and its file.
pub mod Data
pub mod Codec
pub mod Crypto
pub mod Store
