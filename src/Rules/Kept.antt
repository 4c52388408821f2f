-- ===== src/Rules/Kept.antt =====
-- What `RuleEngine::inspect` leaves as it was, and the bound on the samples.
use audit_forwarder.Prelude.{
  ℕ, ◌≤◌, ◌≡◌, ◌≢◌, refl, ◌∙◌, ap, arith, Bool, true, false, List, [], ◌∷◌, ◌++◌, length,
  length-drop, length-append, All, inl, inr, Bool-cases, ltb, ltb_false→le, Text, codes,
  if◌then◌else◌,
}
use audit_forwarder.Maps.{find_key, find_key-insert_other}
use audit_forwarder.Event.{Severity, severity_rank}
use audit_forwarder.Audit.{AuditEvent}
use audit_forwarder.Processor.{set_attr}
use audit_forwarder.Rules.{DetectorRule, BehaviorKey, RuleEngine}
use audit_forwarder.Rules.Behavior.{Doubles, same_key, push_sample, max_samples, observe}
use audit_forwarder.Rules.Match.{matches_rule}
use audit_forwarder.Rules.Inspect.{
  Inspection, fire, apply_rule, over_threshold, rules_loop, flag_anomaly, baseline, inspect,
  unix_of, begin,
}

-- The event without what a rule or the baseline may change.
abbrev pub core : AuditEvent → AuditEvent
core ev = record ev { severity = Severity.debug; rule_id = []; attrs = [] }

-- The same attributes, the mark of the baseline apart.
pub SameAttrs : AuditEvent → AuditEvent → Type 0
unfolding find_key
SameAttrs a b = (k : Text) → codes "behavior_anomaly" ≢ k → find_key a.attrs k ≡ find_key b.attrs k

pub Unchanged : AuditEvent → AuditEvent → Type 0
Unchanged a b = (core a ≡ core b) × SameAttrs a b

apply_rule-core :
    (found : Text → Text → Bool) (started : Bool) (now : ℕ) (r : DetectorRule) (i : Inspection)
    → (core (apply_rule found started now r i).event ≡ core i.event)
      × ((apply_rule found started now r i).event.attrs ≡ i.event.attrs)
unfolding apply_rule fire
apply_rule-core found started now r i = elim (Bool-cases (matches_rule found r i.event)) [
  | inr n ↦ rw n (refl, refl)
  | inl y ↦ elim (Bool-cases (over_threshold r now i.hits).0) [
    | inl z ↦ rw (y, z) (refl, refl)
    | inr z ↦ rw (y, z) (refl, refl)
  ]
]

rules_loop-core :
    (found : Text → Text → Bool) (started : Bool) (now : ℕ) (rs : List DetectorRule)
    (i : Inspection)
    → (core (rules_loop found started now rs i).event ≡ core i.event)
      × ((rules_loop found started now rs i).event.attrs ≡ i.event.attrs)
unfolding rules_loop
rules_loop-core found started now [] i = (refl, refl)
rules_loop-core found started now (r ∷ rs) i =
    let first = apply_rule-core found started now r i in
    let rest = rules_loop-core found started now rs (apply_rule found started now r i) in
    (rest.0 ∙ first.0, rest.1 ∙ first.1)

flag_anomaly-Unchanged : (ev : AuditEvent) → Unchanged (flag_anomaly ev) ev
unfolding flag_anomaly set_attr Unchanged SameAttrs
flag_anomaly-Unchanged ev =
    elim (Bool-cases (ltb (severity_rank ev.severity) (severity_rank Severity.warning))) [
      | inl y ↦ rw y (
        refl,
        λ k n. find_key-insert_other ev.attrs (codes "behavior_anomaly") k (codes "true") n,
      )
      | inr y ↦ rw y (
        refl,
        λ k n. find_key-insert_other ev.attrs (codes "behavior_anomaly") k (codes "true") n,
      )
    ]

if-Unchanged :
    (b : Bool) (x y z : AuditEvent)
    → Unchanged x z
    → Unchanged y z
    → Unchanged (if b then x else y) z
if-Unchanged true x y z hx hy = hx
if-Unchanged false x y z hx hy = hy

baseline-Unchanged :
    (fl : Doubles) (e : RuleEngine) (now : ℕ) (i : Inspection)
    → Unchanged (baseline fl e now i).0.event i.event
unfolding baseline Unchanged SameAttrs
baseline-Unchanged fl e now i =
    if-Unchanged _ (flag_anomaly i.event) i.event i.event (flag_anomaly-Unchanged i.event)
      (refl, λ k n. refl)

onward : (a b c : AuditEvent) → Unchanged a b → core b ≡ core c → b.attrs ≡ c.attrs → Unchanged a c
unfolding Unchanged SameAttrs find_key
onward a b c h same attrs = (h.0 ∙ same, λ k n. h.1 k n ∙ ap (λ l. find_key l k) attrs)

-- Whatever the rules, the patterns and the baseline say, the inspection changes nothing of an event
-- but its severity, its rule and the attribute `behavior_anomaly`.
pub inspect-Unchanged :
    (found : Text → Text → Bool) (fl : Doubles) (e : RuleEngine) (ev : AuditEvent)
    → Unchanged (inspect found fl e ev).0.event ev
unfolding inspect Unchanged SameAttrs
inspect-Unchanged found fl e ev = elim (Bool-cases e.running) [
  | inr n ↦ rw n (refl, λ k ne. refl)
  | inl y ↦
      let looped = rules_loop found e.started (unix_of ev) e.rules (begin e ev) in
      let same = rules_loop-core found e.started (unix_of ev) e.rules (begin e ev) in
      rw y (
        onward (baseline fl e (unix_of ev) looped).0.event looped.event ev
          (baseline-Unchanged fl e (unix_of ev) looped) same.0 same.1)
]

-- No key of the baseline has more samples than the bound.
unfoldable pub Bounded : List (BehaviorKey × List ℕ) → Type 0
Bounded samples = All (λ s. length s.1 ≤ max_samples) samples

push_sample_bound : (v : List ℕ) (ts : ℕ) → length v ≤ 1024 → length (push_sample v ts) ≤ 1024
unfolding push_sample
push_sample_bound v ts le = elim (Bool-cases (ltb max_samples (length (v ++ ts ∷ [])))) [
  | inl y ↦ rw y (omega (arith, le, length-append v (ts ∷ []), length-drop 1 (v ++ ts ∷ [])))
  | inr n ↦ rw n (ltb_false→le 1024 (length (v ++ ts ∷ [])) n)
]

observe-Bounded :
    (samples : List (BehaviorKey × List ℕ)) (k : BehaviorKey) (ts : ℕ)
    → Bounded samples
    → Bounded (observe samples k ts)
unfolding observe Bounded
observe-Bounded [] k ts h = (push_sample_bound [] ts (omega arith), tt)
observe-Bounded ((j, v) ∷ l) k ts h = elim (Bool-cases (same_key j k)) [
  | inl y ↦ rw y (push_sample_bound v ts h.0, h.1)
  | inr n ↦ rw n (h.0, observe-Bounded l k ts h.1)
]

-- An inspection keeps the bound of 1024 samples for each key of the baseline.
pub inspect-Bounded :
    (found : Text → Text → Bool) (fl : Doubles) (e : RuleEngine) (ev : AuditEvent)
    → Bounded e.samples
    → Bounded (inspect found fl e ev).1.samples
unfolding inspect baseline
inspect-Bounded found fl e ev h = elim (Bool-cases e.running) [
  | inr n ↦ rw n h
  | inl y ↦ rw y (observe-Bounded e.samples _ (unix_of ev) h)
]
