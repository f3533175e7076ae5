-- ===== src/Crypto.antt =====
-- app/crypto: the encryption of credentials at rest. The passwords of app/crypto/passwords.py are in
-- Auth/Passwords, the derivation of keys in Auth/KeyMaterial.
pub mod Aead
