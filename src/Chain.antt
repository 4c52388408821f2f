-- ===== src/Chain.antt =====
-- The evidence chain: `Chain` (include/auditforwarder/chain.h, shared/src/crypto/chain.cpp).
-- Each call takes the times that it reads from the clock. The files that `persist_batch` and
-- `persist_super_batch` write and the batches that the callback gets are lists in the state.
pub mod Batches
pub mod Links
pub mod Bounds
pub mod Signing
pub mod Supers
use audit_forwarder.Prelude.{
  ℕ, suc, ◌+◌, ◌%◌, ◌^◌, Bool, true, false, ◌&&◌, not, Option, none, some, List, [], ◌∷◌, ◌++◌, map,
  length, take, ltb, leb, if◌then◌else◌, is_empty, Text, codes, text_eq,
}
use audit_forwarder.Decimal.{decimal}
use audit_forwarder.Hex.{to_hex, from_hex}
use audit_forwarder.Crypto.{OpenSsl, sha256_hex, hmac_sha256_hex}
use audit_forwarder.Merkle.{root_text}
use audit_forwarder.Audit.{AuditEvent, EventBatch, canonical, compute_hash}

abbrev pub u64_mod : ℕ
u64_mod = 2 ^ 64

-- `ChainConfig`; `super_batch_k` is a field of the chain, which `set_super_batch_size` may change.
pub record ChainConfig : Type 0 where
  pub data_dir : Text
  pub batch_size : ℕ
  pub auto_persist : Bool

pub record SuperBatch : Type 0 where
  pub id : Text
  pub batch_ids : List Text
  pub batch_roots : List Text
  pub super_root : Text
  pub prev_super_root : Text
  pub created_at_us : ℕ
  pub signature : Text

-- `signer` is `none` while `has_signer_` is false; `has_hmac_` is that the key is not empty.
pub record Chain : Type 0 where
  pub cfg : ChainConfig
  pub signer : Option Text
  pub hmac_key : Text
  pub super_batch_k : ℕ
  pub pending : List AuditEvent
  pub total_events : ℕ
  pub total_batches : ℕ
  pub last_seq : ℕ
  pub last_batch_id : Text
  pub last_merkle : Text
  pub last_event_hash : Text
  pub pending_batch_ids : List Text
  pub pending_batch_roots : List Text
  pub last_super_root : Text
  pub batch_files : List EventBatch
  pub super_files : List SuperBatch
  pub delivered : List EventBatch

-- The `Chain` constructor: no keys yet, nothing pending.
unfoldable pub init : ChainConfig → ℕ → Chain
init cfg k = record {
  cfg = cfg;
  signer = none;
  hmac_key = [];
  super_batch_k = k;
  pending = [];
  total_events = 0;
  total_batches = 0;
  last_seq = 0;
  last_batch_id = [];
  last_merkle = [];
  last_event_hash = [];
  pending_batch_ids = [];
  pending_batch_roots = [];
  last_super_root = [];
  batch_files = [];
  super_files = [];
  delivered = [];
}

unfoldable pub set_hmac_key : Text → Chain → Chain
set_hmac_key key c = record c { hmac_key = key }

-- `none` is a key pair that is not valid.
unfoldable pub set_signer : Option Text → Chain → Chain
set_signer kp c = record c { signer = kp }

unfoldable pub set_super_batch_size : ℕ → Chain → Chain
set_super_batch_size k c = record c { super_batch_k = k }

-- The text that a batch signature covers.
unfoldable pub batch_payload : EventBatch → Text
batch_payload b = b.id ++ (codes "|" ++ (decimal b.created_at ++ (codes "|" ++ b.merkle_root)))

unfoldable pub super_batch_payload : SuperBatch → Text
super_batch_payload sb =
    sb.id
    ++ (codes "|"
        ++ (decimal sb.created_at_us
            ++ (codes "|" ++ (sb.super_root ++ (codes "|" ++ sb.prev_super_root)))))

-- `persist_batch` and `persist_super_batch` return at once where there is no directory.
unfoldable pub writes_files : Chain → Bool
writes_files c = c.cfg.auto_persist && not (is_empty c.cfg.data_dir)

-- The counters after a batch is built, and the batch noted for the next super batch.
unfoldable pub note_batch : Chain → EventBatch → Chain
unfolding writes_files
note_batch c b =
    let keep = not (leb c.super_batch_k 0) in
    record c {
      pending = [];
      batch_files = if writes_files c then c.batch_files ++ b ∷ [] else c.batch_files;
      last_batch_id = b.id;
      last_merkle = b.merkle_root;
      total_batches = (c.total_batches + 1) % u64_mod;
      pending_batch_ids = if keep then c.pending_batch_ids ++ b.id ∷ [] else c.pending_batch_ids;
      pending_batch_roots =
          if keep then c.pending_batch_roots ++ b.merkle_root ∷ [] else c.pending_batch_roots;
    }

unfoldable pub needs_super : Chain → Bool
needs_super c = not (leb c.super_batch_k 0) && leb c.super_batch_k (length c.pending_batch_roots)

module _ (ssl : OpenSsl) where
  -- The first 16 digits of the hash of the time and of the number of entries.
  unfoldable pub batch_id : ℕ → ℕ → Text
  batch_id now n = take 16 (to_hex (ssl.sha256 (decimal now ++ (codes "-" ++ decimal n))))

  -- Ed25519 or RSA where there is a signer, else HMAC where there is a key, else nothing.
  unfoldable pub sign_payload : Chain → Text → Text
  sign_payload c payload = elim c.signer [
    | some key ↦ to_hex (ssl.digest_sign key payload)
    | none ↦ if is_empty c.hmac_key then [] else hmac_sha256_hex ssl c.hmac_key payload
  ]

  unfoldable pub build_batch : ℕ → Chain → List AuditEvent → EventBatch
  unfolding batch_id sign_payload batch_payload
  build_batch now c events =
      let b : EventBatch = record {
        id = batch_id now (length events);
        created_at = now;
        events = events;
        merkle_root = root_text ssl (map (λ e. e.hash) events);
        signature = [];
      } in
      record b { signature = sign_payload c (batch_payload b) }

  unfoldable pub build_super_batch : ℕ → Chain → List Text → List Text → SuperBatch
  unfolding batch_id sign_payload super_batch_payload
  build_super_batch now c ids roots =
      let sb : SuperBatch = record {
        id = batch_id now (length ids);
        batch_ids = ids;
        batch_roots = roots;
        super_root = root_text ssl roots;
        prev_super_root = c.last_super_root;
        created_at_us = now;
        signature = [];
      } in
      record sb { signature = sign_payload c (super_batch_payload sb) }

  -- The block on `need_super`: the waiting batches become one super batch.
  unfoldable pub flush_super : ℕ → Chain → Chain
  unfolding build_super_batch writes_files
  flush_super now c =
      let sb = build_super_batch now c c.pending_batch_ids c.pending_batch_roots in
      record c {
        pending_batch_ids = [];
        pending_batch_roots = [];
        last_super_root = sb.super_root;
        super_files = if writes_files c then c.super_files ++ sb ∷ [] else c.super_files;
      }

  -- The rest of `flush`, from the batch that was built: `now` is the time of a super batch.
  unfoldable pub finish_flush : ℕ → Chain → EventBatch → Chain
  unfolding flush_super note_batch needs_super
  finish_flush now c b =
      let noted = note_batch c b in
      let done = if needs_super noted then flush_super now noted else noted in
      record done { delivered = done.delivered ++ b ∷ [] }

  -- `flush`; `none` is the error "no events". The times are those that `build_batch` and
  -- `build_super_batch` read.
  unfoldable pub flush : ℕ → ℕ → Chain → Chain × Option EventBatch
  unfolding build_batch finish_flush
  flush now now_super c =
      if is_empty c.pending
      then (c, none)
      else let b = build_batch now c c.pending in (finish_flush now_super c b, some b)

  -- The event as `submit` leaves it.
  unfoldable pub stamp : ℕ → Chain → AuditEvent → AuditEvent
  unfolding compute_hash
  stamp now c ev =
      let numbered = record ev {
        seq = (c.last_seq + 1) % u64_mod;
        timestamp = now;
        ts_micros = now % u64_mod;
      } in
      let hashed = compute_hash numbered in
      record hashed { hash = sha256_hex ssl hashed.hash; prev_hash = c.last_event_hash }

  unfoldable pub enqueue : ℕ → Chain → AuditEvent → Chain
  unfolding stamp
  enqueue now c ev =
      let e = stamp now c ev in
      record c {
        last_seq = (c.last_seq + 1) % u64_mod;
        last_event_hash = e.hash;
        pending = c.pending ++ e ∷ [];
        total_events = (c.total_events + 1) % u64_mod;
      }

  -- `submit`, on one thread: the event is stamped and queued, and a full queue is flushed.
  unfoldable pub submit : ℕ → ℕ → ℕ → Chain → AuditEvent → Chain
  unfolding enqueue flush
  submit now now_batch now_super c ev =
      let c' = enqueue now c ev in
      if leb c'.cfg.batch_size (length c'.pending) then (flush now_batch now_super c').0 else c'

  unfoldable pub verify_batch : EventBatch → Text → Bool
  unfolding batch_payload
  verify_batch b key =
      if is_empty key
      then false
      else text_eq b.signature (hmac_sha256_hex ssl key (batch_payload b))

  unfoldable pub verify_batch_with_key : EventBatch → Option Text → Bool
  unfolding batch_payload
  verify_batch_with_key b kp = elim kp [
    | none ↦ false
    | some key ↦ ssl.digest_verify key (batch_payload b) (from_hex b.signature)
  ]

  unfoldable pub verify_super_batch : SuperBatch → Text → Bool
  unfolding super_batch_payload
  verify_super_batch sb key =
      if is_empty key
      then false
      else text_eq sb.signature (hmac_sha256_hex ssl key (super_batch_payload sb))

  unfoldable pub verify_super_batch_with_key : SuperBatch → Option Text → Bool
  unfolding super_batch_payload
  verify_super_batch_with_key sb kp = elim kp [
    | none ↦ false
    | some key ↦ ssl.digest_verify key (super_batch_payload sb) (from_hex sb.signature)
  ]
