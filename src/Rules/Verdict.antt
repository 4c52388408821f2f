-- ===== src/Rules/Verdict.antt =====
-- Which events go on, and what is done for them, where no rule has a threshold.
use audit_forwarder.Prelude.{
  ℕ, pos, ◌≡◌, refl, sym, ◌∙◌, ap, ltb_ℤ, Bool, true, false, ◌&&◌, ◌||◌, not, List, [], ◌∷◌, ◌++◌,
  append_assoc, append-nil, All, any, inl, inr, Bool-cases, Text, if◌then◌else◌,
}
use audit_forwarder.Audit.{AuditEvent}
use audit_forwarder.Rules.{DetectorRule, Effect, RuleEngine}
use audit_forwarder.Rules.Behavior.{Doubles}
use audit_forwarder.Rules.Match.{matches_rule}
use audit_forwarder.Rules.Inspect.{
  Inspection, marked, drops_event, dispatch, fire, apply_rule, over_threshold, rules_loop, baseline,
  inspect, unix_of, begin,
}

abbrev pub Immediate : DetectorRule → Type 0
Immediate r = ltb_ℤ (pos 1) r.threshold ≡ false

-- The rules that an event matches, in order.
pub matching : (Text → Text → Bool) → AuditEvent → List DetectorRule → List DetectorRule
matching found ev [] = []
matching found ev (r ∷ rs) =
    let rest = matching found ev rs in if matches_rule found r ev then r ∷ rest else rest

-- What all of the matching rules answer.
pub responses_to : AuditEvent → List DetectorRule → List Effect
responses_to ev [] = []
responses_to ev (r ∷ rs) = dispatch r.responses (marked r ev) ++ responses_to ev rs

-- A rule does not look at what the rules before it have set.
matches_rule-marked :
    (found : Text → Text → Bool) (r q : DetectorRule) (ev : AuditEvent)
    → matches_rule found r (marked q ev) ≡ matches_rule found r ev
unfolding matches_rule
matches_rule-marked found r q ev = refl

matching-marked :
    (found : Text → Text → Bool) (q : DetectorRule) (ev : AuditEvent) (rs : List DetectorRule)
    → matching found (marked q ev) rs ≡ matching found ev rs
unfolding matching matches_rule
matching-marked found q ev [] = refl
matching-marked found q ev (r ∷ rs) =
    ap (λ l. if matches_rule found r ev then r ∷ l else l) (matching-marked found q ev rs)

responses_to-marked :
    (q : DetectorRule) (ev : AuditEvent) (rs : List DetectorRule)
    → responses_to (marked q ev) rs ≡ responses_to ev rs
unfolding responses_to
responses_to-marked q ev [] = refl
responses_to-marked q ev (r ∷ rs) =
    ap (λ l. dispatch r.responses (marked r ev) ++ l) (responses_to-marked q ev rs)

abbrev pub Answers : (Text → Text → Bool) → List DetectorRule → Inspection → Inspection → Type 0
Answers found rs i out =
    (out.keep ≡ (i.keep && not (any drops_event (matching found i.event rs))))
    × (out.effects ≡ i.effects ++ responses_to i.event (matching found i.event rs))

apply_rule-match :
    (found : Text → Text → Bool) (now : ℕ) (r : DetectorRule) (i : Inspection)
    → Immediate r
    → matches_rule found r i.event ≡ true
    → apply_rule found true now r i ≡ fire true r i
unfolding apply_rule over_threshold
apply_rule-match found now r i once hit = rw (hit, once) refl

apply_rule-none :
    (found : Text → Text → Bool) (now : ℕ) (r : DetectorRule) (i : Inspection)
    → matches_rule found r i.event ≡ false
    → apply_rule found true now r i ≡ i
unfolding apply_rule
apply_rule-none found now r i miss = rw miss refl

keep_step : (d k x : Bool) → ((if d then false else k) && not x) ≡ (k && not (d || x))
keep_step true true x = refl
keep_step true false x = refl
keep_step false k x = refl

rules_loop-Answers :
    (found : Text → Text → Bool) (now : ℕ) (rs : List DetectorRule) (i : Inspection)
    → All Immediate rs
    → Answers found rs i (rules_loop found true now rs i)
unfolding rules_loop matching responses_to any fire
rules_loop-Answers found now [] i h = (keep_all i.keep, sym (append-nil i.effects))
  where
    keep_all : (k : Bool) → k ≡ (k && true)
    keep_all true = refl
    keep_all false = refl
rules_loop-Answers found now (r ∷ rs) i h = elim (Bool-cases (matches_rule found r i.event)) [
  | inr miss ↦
      rw (rules_loop, apply_rule-none found now r i miss, miss)
        (rules_loop-Answers found now rs i h.1)
  | inl hit ↦
      let ih = rules_loop-Answers found now rs (fire true r i) h.1 in
      rw (rules_loop, apply_rule-match found now r i h.0 hit, hit)
        (
          ih.0
              ∙ ap (λ ms. (fire true r i).keep && not (any drops_event ms))
                  (matching-marked found r i.event rs)
              ∙ keep_step (drops_event r) i.keep (any drops_event (matching found i.event rs)),
          ih.1
              ∙ ap (λ ms. (fire true r i).effects ++ responses_to (marked r i.event) ms)
                  (matching-marked found r i.event rs)
              ∙ ap (λ l. (fire true r i).effects ++ l)
                  (responses_to-marked r i.event (matching found i.event rs))
              ∙ append_assoc i.effects _ _,
        )
]

-- In a started engine whose rules have no threshold above one, the event goes on exactly when no
-- rule that it matches has `block` or `kill` among its responses, and what is done are the responses
-- of all of the rules that it matches, in their order, each with the event under that rule's
-- severity and id.
pub inspect-verdict :
    (found : Text → Text → Bool) (fl : Doubles) (e : RuleEngine) (ev : AuditEvent)
    → e.running ≡ true
    → e.started ≡ true
    → All Immediate e.rules
    → ((inspect found fl e ev).0.keep ≡ not (any drops_event (matching found ev e.rules)))
      × ((inspect found fl e ev).0.effects ≡ responses_to ev (matching found ev e.rules))
unfolding inspect baseline
inspect-verdict found fl e ev on ready h =
    rw (on, ready) (rules_loop-Answers found (unix_of ev) e.rules (begin e ev) h)
