-- ===== src/Rules/Inspect.antt =====
-- `RuleEngine::inspect` with `ResponseDispatcher::dispatch`, and what starts and stops the engine.
use audit_forwarder.Prelude.{
  ℕ, suc, ◌-◌, ◌/◌, ◌%◌, ◌^◌, ℤ, pos, negsuc, ltb_ℤ, Bool, true, false, ◌||◌, not, Option, none,
  some, List, [], ◌∷◌, ◌++◌, length, ltb, ◌==◌, Text, codes, text_eq, if◌then◌else◌,
}
use audit_forwarder.Maps.{find_key, insert_key}
use audit_forwarder.Event.{EventAction, Severity, severity_rank}
use audit_forwarder.Audit.{AuditEvent}
use audit_forwarder.Processor.{set_attr}
use audit_forwarder.Rules.{DetectorRule, BehaviorKey, Effect, submit_event, terminate, RuleEngine}
use audit_forwarder.Rules.Behavior.{Doubles, u64_sub, observe, is_anomalous}
use audit_forwarder.Rules.Match.{in_list, matches_rule}

-- The alert that goes into the pipeline.
unfoldable pub alert_of : AuditEvent → AuditEvent
unfolding set_attr
alert_of ev =
    set_attr
      (record ev { action = EventAction.alert; message = codes "DETECTION ALERT: " ++ ev.message })
      (codes "response") (codes "alert")

-- One response; `block` and `quarantine` are only logged.
unfoldable pub respond : Text → AuditEvent → List Effect
unfolding alert_of
respond r ev =
    if text_eq r (codes "alert")
    then submit_event (alert_of ev) ∷ []
    else if text_eq r (codes "kill")
    then (if ev.actor.pid == 0 then [] else terminate ev.actor.pid ∷ [])
    else []

unfoldable pub dispatch : List Text → AuditEvent → List Effect
unfolding respond
dispatch [] ev = []
dispatch (r ∷ rs) ev = respond r ev ++ dispatch rs ev

-- A `long` as the unsigned number that it is compared as.
abbrev pub to_u64 : ℤ → ℕ
to_u64 (pos n) = n % 2 ^ 64
to_u64 (negsuc n) = (2 ^ 64 - suc n % 2 ^ 64) % 2 ^ 64

-- The low 32 bits as a signed number.
abbrev pub cast_int : ℕ → ℤ
cast_int n =
    if ltb (n % 2 ^ 32) (2 ^ 31) then pos (n % 2 ^ 32) else negsuc (2 ^ 32 - n % 2 ^ 32 - 1)

-- The loop that takes the times away that are out of the window.
unfoldable pub drop_old : ℕ → ℕ → List ℕ → List ℕ
drop_old window now [] = []
drop_old window now (t ∷ h) =
    let rest = drop_old window now h in if ltb window (u64_sub now t) then rest else t ∷ h

abbrev or_no_hits : Option (List ℕ) → List ℕ
or_no_hits none = []
or_no_hits (some h) = h

-- The times of a rule after one more hit.
unfoldable pub track : ℕ → ℕ → List ℕ → List ℕ
unfolding drop_old
track window now h = drop_old window now (h ++ now ∷ [])

unfoldable pub hits_after : DetectorRule → ℕ → List (Text × List ℕ) → List ℕ
unfolding find_key track
hits_after r now hits = track (to_u64 r.window) now (or_no_hits (find_key hits r.id))

-- Whether the threshold is met, and the times that are kept.
unfoldable pub over_threshold :
    DetectorRule → ℕ → List (Text × List ℕ) → Bool × List (Text × List ℕ)
unfolding hits_after insert_key
over_threshold r now hits =
    let h = hits_after r now hits in
    if ltb_ℤ (pos 1) r.threshold
    then (not (ltb_ℤ (cast_int (length h)) r.threshold), insert_key hits r.id h)
    else (true, hits)

-- What the loop carries.
pub record Inspection : Type 0 where
  pub event : AuditEvent
  pub keep : Bool
  pub hits : List (Text × List ℕ)
  pub effects : List Effect

unfoldable pub drops_event : DetectorRule → Bool
unfolding in_list
drops_event r = in_list r.responses (codes "block") || in_list r.responses (codes "kill")

abbrev pub marked : DetectorRule → AuditEvent → AuditEvent
marked r ev = record ev { severity = r.severity; rule_id = r.id }

-- A rule that fires.
unfoldable pub fire : Bool → DetectorRule → Inspection → Inspection
unfolding dispatch drops_event
fire started r i = record i {
  event = marked r i.event;
  keep = if drops_event r then false else i.keep;
  effects = i.effects ++ (if started then dispatch r.responses (marked r i.event) else []);
}

-- One rule of the loop.
unfoldable pub apply_rule : (Text → Text → Bool) → Bool → ℕ → DetectorRule → Inspection → Inspection
unfolding matches_rule over_threshold fire
apply_rule found started now r i =
    let tested = over_threshold r now i.hits in
    let counted : Inspection = record i { hits = tested.1 } in
    if matches_rule found r i.event
    then (if tested.0 then fire started r counted else counted)
    else i

unfoldable pub rules_loop :
    (Text → Text → Bool) → Bool → ℕ → List DetectorRule → Inspection → Inspection
unfolding apply_rule
rules_loop found started now [] i = i
rules_loop found started now (r ∷ rs) i =
    rules_loop found started now rs (apply_rule found started now r i)

-- Whole seconds of a time in microseconds.
abbrev pub unix_of : AuditEvent → ℕ
unix_of ev = ev.timestamp / 1000000

abbrev pub behavior_key : AuditEvent → BehaviorKey
behavior_key ev = record { actor = ev.actor.name; path = ev.target.path; cmd = ev.command }

-- The mark of an unusual interval.
unfoldable pub flag_anomaly : AuditEvent → AuditEvent
unfolding set_attr severity_rank
flag_anomaly ev =
    let marked_ev = set_attr ev (codes "behavior_anomaly") (codes "true") in
    if ltb (severity_rank ev.severity) (severity_rank Severity.warning)
    then record marked_ev { severity = Severity.warning }
    else marked_ev

abbrev pub begin : RuleEngine → AuditEvent → Inspection
begin e ev = record { event = ev; keep = true; hits = e.hits; effects = [] }

-- Behind the loop.
unfoldable pub baseline : Doubles → RuleEngine → ℕ → Inspection → Inspection × RuleEngine
unfolding observe is_anomalous flag_anomaly
baseline fl e now i =
    let samples = observe e.samples (behavior_key i.event) now in
    (
      record i {
        event =
            if is_anomalous fl samples (behavior_key i.event) now
            then flag_anomaly i.event
            else i.event;
      },
      record e { hits = i.hits; samples = samples },
    )

-- The event as it is left, whether it goes on, and the effects, with the new state.
unfoldable pub inspect :
    (Text → Text → Bool) → Doubles → RuleEngine → AuditEvent → Inspection × RuleEngine
unfolding rules_loop baseline
inspect found fl e ev =
    if e.running
    then baseline fl e (unix_of ev) (rules_loop found e.started (unix_of ev) e.rules (begin e ev))
    else (begin e ev, e)

unfoldable pub start_engine : RuleEngine → RuleEngine
start_engine e = record e { running = true; started = true }

unfoldable pub stop_engine : RuleEngine → RuleEngine
stop_engine e = record e { running = false }

unfoldable pub clear_rules : RuleEngine → RuleEngine
clear_rules e = record e { rules = []; hits = [] }

unfoldable pub add_rule : RuleEngine → DetectorRule → RuleEngine
add_rule e r = record e { rules = e.rules ++ r ∷ [] }
