-- ===== src/Processor/Complete.antt =====
-- What an event has after `Normalizer::process`.
use audit_forwarder.Prelude.{
  ℕ, ◌<◌, ◌≡◌, refl, sym, ap, ◌∙◌, arith, Bool, true, false, ◌==◌, is_empty, if◌then◌else◌, codes,
  Bool-cases, inl, inr,
}
use audit_forwarder.Event.{EventOutcome}
use audit_forwarder.Audit.{AuditEvent}
use audit_forwarder.Processor.{source_key, get_attr, set_attr, or_empty}
use audit_forwarder.Maps.{find_key}
use audit_forwarder.Processor.Kept.{get_attr-set_attr}
use audit_forwarder.Processor.Normalizer.{
  fill_time, fill_source, fill_texts, fill_action, fill_outcome, fill_severity, guess_outcome,
  is_unknown_action, is_unknown_outcome, normalize,
}

-- The time is set, there is a source, the outcome is known, and command and message are there both or
-- neither.
pub record IsComplete (ev : AuditEvent) : Type 0 where
  pub timed : 0 < ev.ts_micros
  pub sourced : is_empty (get_attr ev source_key) ≡ false
  pub paired : is_empty ev.command ≡ is_empty ev.message
  pub judged : is_unknown_outcome ev.outcome ≡ false

fill_time-timed : (now : ℕ) (ev : AuditEvent) → 0 < now → 0 < (fill_time now ev).ts_micros
unfolding fill_time
fill_time-timed now ev h = elim (Bool-cases (ev.ts_micros == 0)) [
  | inr n ↦ rw n (ground arith)
  | inl y ↦ elim (Bool-cases (ev.timestamp == 0)) [
    | inr n ↦ rw (y, n) (ground arith)
    | inl z ↦ rw (y, z) h
  ]
]

fill_source-sourced : (ev : AuditEvent) → is_empty (get_attr (fill_source ev) source_key) ≡ false
unfolding fill_source
fill_source-sourced ev = elim (Bool-cases (is_empty (get_attr ev source_key))) [
  | inl y ↦ rw y (ap is_empty (get_attr-set_attr ev source_key (codes "agent")))
  | inr n ↦ rw n n
]

fill_source-time : (ev : AuditEvent) → (fill_source ev).ts_micros ≡ ev.ts_micros
unfolding fill_source set_attr
fill_source-time ev = elim (Bool-cases (is_empty (get_attr ev source_key))) [
  | inl y ↦ rw y refl
  | inr n ↦ rw n refl
]

-- The text, action and outcome steps leave time and attributes alone, the last two the texts as well.
fill_texts-kept :
    (ev : AuditEvent)
    → ((fill_texts ev).ts_micros ≡ ev.ts_micros)
      × (((fill_texts ev).attrs ≡ ev.attrs)
          × (is_empty (fill_texts ev).command ≡ is_empty (fill_texts ev).message))
unfolding fill_texts
fill_texts-kept ev = elim (Bool-cases (is_empty ev.command)) [
  | inl c ↦ elim (Bool-cases (is_empty ev.message)) [
    | inl m ↦ rw (c, m) (refl, (refl, rw (c, m) refl))
    | inr m ↦ rw (c, m) (refl, (refl, refl))
  ]
  | inr c ↦ elim (Bool-cases (is_empty ev.message)) [
    | inl m ↦ rw (c, m) (refl, (refl, refl))
    | inr m ↦ rw (c, m) (refl, (refl, rw (c, m) refl))
  ]
]

abbrev SameRest : AuditEvent → AuditEvent → Type 0
SameRest d ev =
    (d.ts_micros ≡ ev.ts_micros)
    × ((d.attrs ≡ ev.attrs) × ((d.command ≡ ev.command) × (d.message ≡ ev.message)))

fill_action-kept : (ev : AuditEvent) → SameRest (fill_action ev) ev
unfolding fill_action
fill_action-kept ev = elim (Bool-cases (is_unknown_action ev.action)) [
  | inl y ↦ rw y (refl, (refl, (refl, refl)))
  | inr n ↦ rw n (refl, (refl, (refl, refl)))
]

fill_outcome-kept :
    (ev : AuditEvent)
    → SameRest (fill_outcome ev) ev × (is_unknown_outcome (fill_outcome ev).outcome ≡ false)
unfolding fill_outcome guess_outcome
fill_outcome-kept ev = elim (Bool-cases (is_unknown_outcome ev.outcome)) [
  | inl y ↦ rw y ((refl, (refl, (refl, refl))), guessed _)
  | inr n ↦ rw n ((refl, (refl, (refl, refl))), n)
]
  where
    guessed :
        (b : Bool)
        → is_unknown_outcome (if b then EventOutcome.failure else EventOutcome.success) ≡ false
    guessed true = refl
    guessed false = refl

-- Where the clock is past 0, the normalizer leaves every event with a time, a source, an outcome that
-- is known, and command and message both there or both missing.
pub normalize-IsComplete : (now : ℕ) (ev : AuditEvent) → 0 < now → IsComplete (normalize now ev)
unfolding normalize fill_severity get_attr
normalize-IsComplete now ev h =
    let a = fill_time now ev in
    let b = fill_source a in
    let c = fill_texts b in
    let d = fill_action c in
    let texts = fill_texts-kept b in
    let action = fill_action-kept c in
    let outcome = fill_outcome-kept d in
    record {
      timed = rw (outcome.0.0, action.0, texts.0, fill_source-time a) (fill_time-timed now ev h);
      sourced =
          ap (λ l. is_empty (or_empty (find_key l source_key)))
            (outcome.0.1.0 ∙ action.1.0 ∙ texts.1.0)
          ∙ fill_source-sourced a;
      paired =
          ap is_empty (outcome.0.1.1.0 ∙ action.1.1.0)
          ∙ texts.1.1
          ∙ sym (ap is_empty (outcome.0.1.1.1 ∙ action.1.1.1));
      judged = outcome.1;
    }
