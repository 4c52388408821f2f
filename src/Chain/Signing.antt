-- ===== src/Chain/Signing.antt =====
-- What is signed is accepted by the matching check.
use audit_forwarder.Prelude.{
  ℕ, ◌≡◌, refl, subst, arith, true, none, some, List, is_empty, Text, text_eq_refl, Bool-cases,
  Option-cases, [], if◌then◌else◌, inl, inr,
}
use audit_forwarder.Hex.RoundTrip.{from_hex-to_hex}
use audit_forwarder.Hex.{to_hex, from_hex}
use audit_forwarder.Crypto.{OpenSsl}
use audit_forwarder.Audit.{AuditEvent, EventBatch}
use audit_forwarder.Chain.{
  SuperBatch, Chain, sign_payload, build_batch, build_super_batch, flush, verify_batch,
  verify_batch_with_key, verify_super_batch, verify_super_batch_with_key,
}

module _ (ssl : OpenSsl) where
  key_accepts :
      (key payload : Text)
      → ssl.digest_verify key payload (from_hex (to_hex (ssl.digest_sign key payload))) ≡ true
  key_accepts key payload =
      rw (from_hex-to_hex (ssl.digest_sign key payload) (ssl.sign_bytes key payload))
        (ssl.verify-sign key payload)

  -- What a batch carries, by the keys of the chain: a signature that the check with the signer's key
  -- accepts; without a signer, one that the check with the HMAC key accepts; without keys, none.
  abbrev pub BatchAccepted : Chain → EventBatch → Type 0
  BatchAccepted c b = elim c.signer [
    | some key ↦ verify_batch_with_key ssl b (some key) ≡ true
    | none ↦ if is_empty c.hmac_key then b.signature ≡ [] else verify_batch ssl b c.hmac_key ≡ true
  ]

  abbrev pub SuperAccepted : Chain → SuperBatch → Type 0
  SuperAccepted c sb = elim c.signer [
    | some key ↦ verify_super_batch_with_key ssl sb (some key) ≡ true
    | none ↦
        if is_empty c.hmac_key
        then sb.signature ≡ []
        else verify_super_batch ssl sb c.hmac_key ≡ true
  ]

  build_batch-BatchAccepted :
      (now : ℕ) (c : Chain) (events : List AuditEvent)
      → BatchAccepted c (build_batch ssl now c events)
  unfolding build_batch verify_batch verify_batch_with_key sign_payload
  build_batch-BatchAccepted now c events = elim (Option-cases c.signer) [
    | inr (key, e) ↦ rw e (key_accepts key _)
    | inl e ↦ elim (Bool-cases (is_empty c.hmac_key)) [
      | inl k ↦ rw (e, k) refl
      | inr k ↦ rw (e, k) (text_eq_refl _)
    ]
  ]

  -- A batch that `flush` returns is accepted: with a signer by `verify_batch_with_key` under its key,
  -- without one and with an HMAC key by `verify_batch` under that key; without either it carries no
  -- signature.
  pub flush-verify :
      (now now_super : ℕ) (c d : Chain) (b : EventBatch)
      → flush ssl now now_super c ≡ (d, some b)
      → BatchAccepted c b
  unfolding flush
  flush-verify now now_super c d b e = elim (Bool-cases (is_empty c.pending)) [
    | inl nothing ↦ absurd (ground arith)
    | inr something ↦
        subst (BatchAccepted c) (ground arith) (build_batch-BatchAccepted now c c.pending)
  ]

  -- A super batch that is built is accepted in the same way: by the check with the signer's key, else
  -- with the HMAC key; without either it carries no signature.
  pub build_super_batch-verify :
      (now : ℕ) (c : Chain) (ids roots : List Text)
      → SuperAccepted c (build_super_batch ssl now c ids roots)
  unfolding build_super_batch verify_super_batch verify_super_batch_with_key sign_payload
  build_super_batch-verify now c ids roots = elim (Option-cases c.signer) [
    | inr (key, e) ↦ rw e (key_accepts key _)
    | inl e ↦ elim (Bool-cases (is_empty c.hmac_key)) [
      | inl k ↦ rw (e, k) refl
      | inr k ↦ rw (e, k) (text_eq_refl _)
    ]
  ]
