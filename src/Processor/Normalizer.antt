-- ===== src/Processor/Normalizer.antt =====
-- `Normalizer::process` (client/src/processor/processor.cpp), its six steps.
use audit_forwarder.Prelude.{
  ℕ, Bool, true, false, ◌&&◌, not, [], ◌∷◌, ◌==◌, is_empty, if◌then◌else◌, Text, codes,
}
use audit_forwarder.Event.{EventAction, EventOutcome, Severity}
use audit_forwarder.Audit.{AuditEvent}
use audit_forwarder.Processor.{source_key, get_attr, set_attr, norm_contains_any}

-- 1. The time in microseconds, from `timestamp`, and from the clock where that is 0 too.
unfoldable pub fill_time : ℕ → AuditEvent → AuditEvent
fill_time now ev =
    if not (ev.ts_micros == 0)
    then ev
    else if not (ev.timestamp == 0)
    then record ev { ts_micros = ev.timestamp }
    else record ev { timestamp = now; ts_micros = now }

-- 2. The source.
unfoldable pub fill_source : AuditEvent → AuditEvent
unfolding get_attr set_attr
fill_source ev =
    if is_empty (get_attr ev source_key) then set_attr ev source_key (codes "agent") else ev

-- 3. Command and message stand in for each other.
unfoldable pub fill_texts : AuditEvent → AuditEvent
fill_texts ev =
    if is_empty ev.command && not (is_empty ev.message)
    then record ev { command = ev.message }
    else if is_empty ev.message && not (is_empty ev.command)
    then record ev { message = ev.command }
    else ev

-- 4. The action by its keywords, in their order.
unfoldable pub guess_action : Text → EventAction
unfolding norm_contains_any
guess_action text =
    if norm_contains_any text (codes "logoff" ∷ codes "logout" ∷ [])
    then EventAction.logout
    else if norm_contains_any text (codes "login" ∷ codes "logon" ∷ codes "session open" ∷ [])
    then EventAction.login
    else if norm_contains_any text
        (codes "auth" ∷ codes "denied" ∷ codes "reject" ∷ codes "refus" ∷ codes "password" ∷ [])
    then EventAction.auth_fail
    else if norm_contains_any text (codes "delete" ∷ codes "remove" ∷ codes "rm " ∷ [])
    then EventAction.delete
    else if norm_contains_any text (codes "exec" ∷ codes "cmd" ∷ codes "command" ∷ [])
    then EventAction.execute
    else if norm_contains_any text (codes "connect" ∷ [])
    then EventAction.connect
    else if norm_contains_any text
        (codes "write" ∷ codes "modify" ∷ codes "insert" ∷ codes "update" ∷ [])
    then EventAction.write
    else if norm_contains_any text (codes "read" ∷ [])
    then EventAction.read
    else EventAction.unknown

abbrev pub either_text : Text → Text → Text
either_text a b = if is_empty a then b else a

abbrev pub is_unknown_action : EventAction → Bool
is_unknown_action EventAction.unknown = true
is_unknown_action _ = false

unfoldable pub fill_action : AuditEvent → AuditEvent
unfolding guess_action
fill_action ev =
    if is_unknown_action ev.action
    then record ev { action = guess_action (either_text ev.command ev.message) }
    else ev

-- 5. The outcome.
unfoldable pub guess_outcome : Text → EventOutcome
unfolding norm_contains_any
guess_outcome text =
    if norm_contains_any text
      (codes "fail" ∷ codes "denied" ∷ codes "error" ∷ codes "refus" ∷ codes "reject" ∷ [])
    then EventOutcome.failure
    else EventOutcome.success

abbrev pub is_unknown_outcome : EventOutcome → Bool
is_unknown_outcome EventOutcome.unknown = true
is_unknown_outcome _ = false

unfoldable pub fill_outcome : AuditEvent → AuditEvent
unfolding guess_outcome
fill_outcome ev =
    if is_unknown_outcome ev.outcome
    then record ev { outcome = guess_outcome (either_text ev.message ev.command) }
    else ev

-- 6. The severity, where it is the default.
abbrev pub has_failed : EventOutcome → EventAction → Bool
has_failed EventOutcome.failure a = true
has_failed EventOutcome.denied a = true
has_failed o EventAction.auth_fail = true
has_failed o EventAction.privilege_esc = true
has_failed o a = false

abbrev pub is_destructive : EventAction → Bool
is_destructive EventAction.delete = true
is_destructive EventAction.block = true
is_destructive EventAction.quarantine = true
is_destructive EventAction.kill = true
is_destructive _ = false

unfoldable pub raise_severity : EventOutcome → EventAction → Severity → Severity
raise_severity o a Severity.info =
    if has_failed o a
    then Severity.warning
    else if is_destructive a
    then Severity.notice
    else Severity.info
raise_severity o a s = s

unfoldable pub fill_severity : AuditEvent → AuditEvent
unfolding raise_severity
fill_severity ev = record ev { severity = raise_severity ev.outcome ev.action ev.severity }

unfoldable pub normalize : ℕ → AuditEvent → AuditEvent
unfolding fill_time fill_source fill_texts fill_action fill_outcome fill_severity
normalize now ev =
    fill_severity (fill_outcome (fill_action (fill_texts (fill_source (fill_time now ev)))))
