-- ===== src/Crypto.antt =====
-- What the program calls of OpenSSL, as a parameter, and the helpers over it: `sha256_hex`,
-- `hmac_sha256_hex`, `KeyPair::sign`, `KeyPair::verify` (shared/src/crypto/crypto.cpp).
use audit_forwarder.Prelude.{◌<◌, ◌≡◌, Bool, true, length, All, Text}
use audit_forwarder.Hex.{to_hex}

-- The digest has 32 bytes, signatures are byte buffers, and a signature that a key makes of a
-- message is accepted by that key for that message. A key is the text of its PEM form.
pub record OpenSsl : Type 0 where
  pub sha256 : Text → Text
  pub sha256_size : (s : Text) → length (sha256 s) ≡ 32
  pub hmac_sha256 : Text → Text → Text
  pub digest_sign : Text → Text → Text
  pub digest_verify : Text → Text → Text → Bool
  pub sign_bytes : (key msg : Text) → All (λ b. b < 256) (digest_sign key msg)
  pub verify-sign : (key msg : Text) → digest_verify key msg (digest_sign key msg) ≡ true

module _ (ssl : OpenSsl) where
  unfoldable pub sha256_hex : Text → Text
  sha256_hex s = to_hex (ssl.sha256 s)

  unfoldable pub hmac_sha256_hex : Text → Text → Text
  hmac_sha256_hex key msg = to_hex (ssl.hmac_sha256 key msg)
