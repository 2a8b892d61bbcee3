-- ===== src/Hts/Crypto.antt =====
-- api/hts/crypto.py: the length checks around AES-128-CBC. The cipher of the `cryptography` package
-- is a parameter.
use aegis_hass.Base.{ℕ, ◌%◌, ◌≡◌, ◌==◌, Bytes, length, Result, ok, ◌>>◌, require}

-- `Cipher(AES(_KEY), CBC(_IV))`, as the two functions that an encryptor and a decryptor compute.
pub record Cipher : Type 0 where
  pub encryptor : Bytes → Bytes
  pub decryptor : Bytes → Bytes

-- The documented behaviour of CBC on whole blocks: it keeps the length, and decryption inverts it.
pub record IsBlockCipher (c : Cipher) : Type 0 where
  pub length_kept : (b : Bytes) → length b % 16 ≡ 0 → length (c.encryptor b) ≡ length b
  pub inverted : (b : Bytes) → length b % 16 ≡ 0 → c.decryptor (c.encryptor b) ≡ b

pub data CryptoError : Type 0 where
  not_aligned : ℕ → CryptoError

unfoldable pub encrypt : Cipher → Bytes → Result CryptoError Bytes
encrypt c bytes = do
  require (length bytes % 16 == 0) (not_aligned (length bytes))
  ok (c.encryptor bytes)

unfoldable pub decrypt : Cipher → Bytes → Result CryptoError Bytes
decrypt c bytes = do
  require (length bytes % 16 == 0) (not_aligned (length bytes))
  ok (c.decryptor bytes)
