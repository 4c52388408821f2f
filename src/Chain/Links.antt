-- ===== src/Chain/Links.antt =====
-- The hash chain over all events that were ever submitted.
use audit_forwarder.Prelude.{ℕ, ◌+◌, ◌%◌, ◌≡◌, refl, List, [], ◌∷◌, ◌++◌, Text}
use audit_forwarder.Crypto.{OpenSsl, sha256_hex}
use audit_forwarder.Audit.{AuditEvent, canonical}
use audit_forwarder.Chain.{Chain, ChainConfig, u64_mod, init, enqueue, stamp}
use audit_forwarder.Chain.Batches.{
  Call, history, run, step, step_cases, history-enqueue, history-Flushed, Flushed,
  finish_flush-Flushed,
}

-- From number `n` and hash `h` the events lead to number `m` and hash `k`: each takes the next
-- number, names the hash of the event before it, and carries the hash of its own text.
abbrev pub Linked : OpenSsl → ℕ → Text → List AuditEvent → ℕ → Text → Type 0
Linked ssl n h [] m k = (m ≡ n) × (k ≡ h)
Linked ssl n h (e ∷ es) m k =
    (e.seq ≡ (n + 1) % u64_mod)
    × (e.prev_hash ≡ h)
    × (e.hash ≡ sha256_hex ssl (canonical e))
    × Linked ssl e.seq e.hash es m k

module _ (ssl : OpenSsl) where
  Linked-snoc :
      (n : ℕ) (h : Text) (es : List AuditEvent) (m : ℕ) (k : Text) (e : AuditEvent)
      → Linked ssl n h es m k
      → e.seq ≡ (m + 1) % u64_mod
      → e.prev_hash ≡ k
      → e.hash ≡ sha256_hex ssl (canonical e)
      → Linked ssl n h (es ++ e ∷ []) e.seq e.hash
  Linked-snoc n h [] m k e l p q r = (rw (← l.0) p, rw (← l.1) q, r, (refl, refl))
  Linked-snoc n h (x ∷ es) m k e l p q r =
      (l.0, l.1, l.2, Linked-snoc x.seq x.hash es m k e l.3 p q r)

  abbrev pub Follows : Chain → Type 0
  Follows c = Linked ssl 0 [] (history c) c.last_seq c.last_event_hash

  enqueue-Follows :
      (now : ℕ) (c : Chain) (ev : AuditEvent) → Follows c → Follows (enqueue ssl now c ev)
  unfolding enqueue stamp canonical
  enqueue-Follows now c ev f = rw (history-enqueue ssl now c ev) (
      Linked-snoc 0 [] (history c) c.last_seq c.last_event_hash (stamp ssl now c ev) f refl refl
        refl)

  Flushed-Follows : (c d : Chain) → Flushed ssl c d → Follows c → Follows d
  Flushed-Follows c d f h = rw (history-Flushed ssl c d f, f.same_seq, f.same_hash) h

  step-Follows : (c : Chain) (call : Call) → Follows c → Follows (step ssl c call)
  step-Follows c call f =
      step_cases ssl Follows c call (λ now ev h. enqueue-Follows now c ev h)
        (λ now c' b e h. Flushed-Follows c' _ (finish_flush-Flushed ssl now c' b e) h) f

  run-Follows : (c : Chain) (calls : List Call) → Follows c → Follows (run ssl c calls)
  unfolding run
  run-Follows c [] f = f
  run-Follows c (call ∷ calls) f = run-Follows (step ssl c call) calls (step-Follows c call f)

  -- After any calls of `submit` and `flush` on a new chain, whatever their times, all events in the
  -- delivered batches and then those that wait form one unbroken hash chain from the empty hash to
  -- `last_event_hash`, numbered from 1 on (modulo 2^64) to `last_seq`.
  pub run-Linked :
      (cfg : ChainConfig) (k : ℕ) (calls : List Call)
      → let c = run ssl (init cfg k) calls in
        Linked ssl 0 [] (history c) c.last_seq c.last_event_hash
  unfolding init history
  run-Linked cfg k calls = run-Follows (init cfg k) calls (refl, refl)
