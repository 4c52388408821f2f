-- ===== src/Chain/Batches.antt =====
-- Histories of the evidence chain: calls of `submit` and `flush` one after another.
use audit_forwarder.Prelude.{
  ℕ, ◌≡◌, refl, sym, ap, ◌∙◌, List, [], ◌∷◌, ◌++◌, append-nil, append_assoc, length, leb, is_empty,
  Bool-cases, inl, inr,
}
use audit_forwarder.Crypto.{OpenSsl}
use audit_forwarder.Audit.{AuditEvent, EventBatch}
use audit_forwarder.Chain.{
  Chain, note_batch, needs_super, flush_super, finish_flush, flush, build_batch, enqueue, submit,
  stamp,
}

-- The events of a list of batches, in order.
unfoldable pub events_of : List EventBatch → List AuditEvent
events_of [] = []
events_of (b ∷ bs) = b.events ++ events_of bs

-- All events that were submitted: those in the delivered batches, then those that wait.
unfoldable pub history : Chain → List AuditEvent
unfolding events_of
history c = events_of c.delivered ++ c.pending

-- A call, with the times that it reads.
pub data Call : Type 0 where
  submits : ℕ → ℕ → ℕ → AuditEvent → Call
  flushes : ℕ → ℕ → Call

events_of-append :
    (bs : List EventBatch) (b : EventBatch) → events_of (bs ++ b ∷ []) ≡ events_of bs ++ b.events
unfolding events_of
events_of-append [] b = append-nil b.events
events_of-append (a ∷ bs) b =
    ap (◌++◌ a.events) (events_of-append bs b) ∙ sym (append_assoc a.events (events_of bs) b.events)

module _ (ssl : OpenSsl) where
  unfoldable pub step : Chain → Call → Chain
  unfolding submit flush
  step c (submits now now_batch now_super ev) = submit ssl now now_batch now_super c ev
  step c (flushes now now_super) = (flush ssl now now_super c).0

  unfoldable pub run : Chain → List Call → Chain
  unfolding step
  run c [] = c
  run c (call ∷ calls) = run (step c call) calls

  -- What a flush that finds something leaves, whether or not a super batch is made.
  pub record Flushed (c d : Chain) : Type 0 where
    pub emptied : d.pending ≡ []
    pub handed : (b : EventBatch) × (b.events ≡ c.pending) × (d.delivered ≡ c.delivered ++ b ∷ [])
    pub same_seq : d.last_seq ≡ c.last_seq
    pub same_hash : d.last_event_hash ≡ c.last_event_hash
    pub same_total : d.total_events ≡ c.total_events

  pub finish_flush-Flushed :
      (now : ℕ) (c : Chain) (b : EventBatch)
      → b.events ≡ c.pending
      → Flushed c (finish_flush ssl now c b)
  unfolding finish_flush note_batch flush_super
  finish_flush-Flushed now c b e = elim (Bool-cases (needs_super (note_batch c b))) [
    | inl more ↦
        rw (more, finish_flush)
          (record {
            emptied = refl;
            handed = (b, e, refl);
            same_seq = refl;
            same_hash = refl;
            same_total = refl;
          })
    | inr few ↦
        rw (few, finish_flush)
          (record {
            emptied = refl;
            handed = (b, e, refl);
            same_seq = refl;
            same_hash = refl;
            same_total = refl;
          })
  ]

  -- What the rest of a flush gives holds after every call of `flush`.
  flush_cases :
      (P : Chain → Type 0) (now now_super : ℕ) (c : Chain)
      → ((b : EventBatch) → b.events ≡ c.pending → P (finish_flush ssl now_super c b))
      → P c
      → P (flush ssl now now_super c).0
  unfolding flush build_batch
  flush_cases P now now_super c done same = elim (Bool-cases (is_empty c.pending)) [
    | inl e ↦ rw (e, flush) same
    | inr e ↦ rw (e, flush) (done (build_batch ssl now c c.pending) refl)
  ]

  -- A property that queueing one event and the rest of a flush keep is kept by every call.
  pub step_cases :
      (P : Chain → Type 0) (c : Chain) (call : Call)
      → ((now : ℕ) (ev : AuditEvent) → P c → P (enqueue ssl now c ev))
      → ((now : ℕ) (c' : Chain) (b : EventBatch)
          → b.events ≡ c'.pending
          → P c'
          → P (finish_flush ssl now c' b))
      → P c
      → P (step c call)
  unfolding step submit
  step_cases P c (flushes now now_super) queue finish h =
      flush_cases P now now_super c (λ b e. finish now_super c b e h) h
  step_cases P c (submits now now_batch now_super ev) queue finish h =
      elim (Bool-cases (leb c.cfg.batch_size (length (enqueue ssl now c ev).pending))) [
        | inl full ↦
            rw (full, submit)
              (flush_cases P now_batch now_super (enqueue ssl now c ev)
                (λ b e. finish now_super (enqueue ssl now c ev) b e (queue now ev h))
                (queue now ev h))
        | inr room ↦ rw (room, submit) (queue now ev h)
      ]

  pub history-enqueue :
      (now : ℕ) (c : Chain) (ev : AuditEvent)
      → history (enqueue ssl now c ev) ≡ history c ++ stamp ssl now c ev ∷ []
  unfolding history enqueue
  history-enqueue now c ev = sym (append_assoc (events_of c.delivered) c.pending _)

  pub history-Flushed : (c d : Chain) → Flushed c d → history d ≡ history c
  unfolding history
  history-Flushed c d f =
      let (b, eb, ed) = f.handed in
      rw (f.emptied, ed, append-nil, events_of-append c.delivered b, eb)
