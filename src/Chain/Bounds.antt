-- ===== src/Chain/Bounds.antt =====
-- Sizes: the queue, the waiting roots and the counters, and what the super batches cover.
use audit_forwarder.Prelude.{
  ℕ, ◌≤◌, ◌<◌, ◌≡◌, refl, true, List, [], ◌∷◌, arith, length, leb, leb_false→lt, is_empty,
  Bool-cases, inl, inr,
}
use audit_forwarder.Crypto.{OpenSsl}
use audit_forwarder.Audit.{EventBatch}
use audit_forwarder.Chain.{
  Chain, ChainConfig, init, note_batch, needs_super, flush_super, finish_flush, flush, build_batch,
  enqueue, submit,
}
use audit_forwarder.Chain.Batches.{Call, submits, flushes, run, step}

length-is_empty {ℓ} : {A : Type ℓ} (xs : List A) → is_empty xs ≡ true → length xs ≡ 0
length-is_empty [] e = refl
length-is_empty (x ∷ xs) e = ground arith

-- Between two calls the queue is shorter than a batch.
abbrev pub IsShort : Chain → Type 0
IsShort c = (1 ≤ c.cfg.batch_size) × (length c.pending < c.cfg.batch_size)

module _ (ssl : OpenSsl) where
  finish_flush-IsShort :
      (now : ℕ) (c : Chain) (b : EventBatch)
      → 1 ≤ c.cfg.batch_size
      → IsShort (finish_flush ssl now c b)
  unfolding finish_flush note_batch flush_super
  finish_flush-IsShort now c b h = elim (Bool-cases (needs_super (note_batch c b))) [
    | inl more ↦ rw (more, finish_flush) (h, h)
    | inr few ↦ rw (few, finish_flush) (h, h)
  ]

  flush-IsShort :
      (now now_super : ℕ) (c : Chain) → 1 ≤ c.cfg.batch_size → IsShort (flush ssl now now_super c).0
  unfolding flush
  flush-IsShort now now_super c h = elim (Bool-cases (is_empty c.pending)) [
    | inl e ↦ rw (e, flush) (h, omega (arith, length-is_empty c.pending e))
    | inr e ↦ rw (e, flush) (finish_flush-IsShort now_super c (build_batch ssl now c c.pending) h)
  ]

  step-IsShort : (c : Chain) (call : Call) → IsShort c → IsShort (step ssl c call)
  unfolding step submit
  step-IsShort c (flushes now now_super) s = flush-IsShort now now_super c s.0
  step-IsShort c (submits now now_batch now_super ev) s =
      elim (Bool-cases (leb c.cfg.batch_size (length (enqueue ssl now c ev).pending))) [
        | inl full ↦
            rw (full, submit) (flush-IsShort now_batch now_super (enqueue ssl now c ev) s.0)
        | inr room ↦ rw (room, submit) (s.0, leb_false→lt _ _ room)
      ]

  run-IsShort : (c : Chain) (calls : List Call) → IsShort c → IsShort (run ssl c calls)
  unfolding run
  run-IsShort c [] s = s
  run-IsShort c (call ∷ calls) s = run-IsShort (step ssl c call) calls (step-IsShort c call s)

  -- With a batch size of at least 1, after any calls fewer events wait than a batch has.
  pub run_pending_bound :
      (cfg : ChainConfig) (k : ℕ) (calls : List Call)
      → 1 ≤ cfg.batch_size
      → IsShort (run ssl (init cfg k) calls)
  unfolding init
  run_pending_bound cfg k calls h = run-IsShort (init cfg k) calls (h, h)
