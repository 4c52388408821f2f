-- ===== src/Collusion/Detect/Verdict.antt =====
-- What the verdict of `detect` promises whatever the engines come to.
use audit_forwarder.Prelude.{
  ℕ, ℤ, pos, ◌≡◌, ◌≢◌, ◌≤ℤ◌, ◌-ℤ◌, min_ℤ, refl, arith, Bool, true, List, any, Any, if◌then◌else◌,
  Bool-cases, inl, inr,
}
use audit_forwarder.Collusion.{Rule, WorkOrder, AggSet}
use audit_forwarder.Collusion.Guards.{in_whitelist}
use audit_forwarder.Collusion.Guards.Spec.{any_iff}
use audit_forwarder.Collusion.Detect.{EngineConfig, ProfileSnapshot, high, low, MlOutcome}
use audit_forwarder.Collusion.Detect.Rules.{rule_hit, rule_engine}
use audit_forwarder.Collusion.Detect.Tickets.{tickets}
use audit_forwarder.Collusion.Detect.Profile.{profile_engine}
use audit_forwarder.Collusion.Detect.Hits.{Fires, rule_hit_iff, rule_engine-none}
use audit_forwarder.Collusion.Detect.Score.{
  GraphAnalysis, ml_factor_of, level_of, must_clamp, clamp_score, raw_total, scored,
  whitelisted_result, detect,
}

raw_total-bounds :
    (cfg : EngineConfig) (r p m g : ℤ) (t : Bool)
    → (pos 0 ≤ℤ raw_total cfg r p m g t) × (raw_total cfg r p m g t ≤ℤ pos 100)
unfolding raw_total
raw_total-bounds cfg r p m g t = ground arith

clamp_score-bounds :
    (cfg : EngineConfig) (r total : ℤ)
    → pos 1 ≤ℤ cfg.score_high
    → pos 0 ≤ℤ total
    → total ≤ℤ pos 100
    → (pos 0 ≤ℤ clamp_score cfg r total) × (clamp_score cfg r total ≤ℤ pos 100)
unfolding clamp_score must_clamp ◌-ℤ◌
clamp_score-bounds cfg r total one lo hi = ground arith

clamp_score-high :
    (cfg : EngineConfig) (total : ℤ) → level_of cfg (clamp_score cfg (pos 0) total) ≢ high
unfolding clamp_score must_clamp level_of ◌-ℤ◌
clamp_score-high cfg total h = ground arith

total-bounds :
    (cfg : EngineConfig) (x r p m g : ℤ) (t : Bool)
    → pos 1 ≤ℤ cfg.score_high
    → x ≡ clamp_score cfg r (raw_total cfg r p m g t)
    → (pos 0 ≤ℤ x) × (x ≤ℤ pos 100)
total-bounds cfg x r p m g t one e =
    let b = raw_total-bounds cfg r p m g t in
    rw e (clamp_score-bounds cfg r (raw_total cfg r p m g t) one b.0 b.1)

low_high : low ≢ high
low_high h = absurd (ground arith)

module _ (set : AggSet) (cfg : EngineConfig) (rules : List Rule) (profile : ProfileSnapshot)
    (workorders : List WorkOrder) (now_epoch : ℕ) (ml : MlOutcome) (graph : GraphAnalysis) where
  scored-bounds :
      pos 1 ≤ℤ cfg.score_high
      → let res = scored cfg set rules profile workorders now_epoch ml graph in
        (pos 0 ≤ℤ res.total_score) × (res.total_score ≤ℤ pos 100)
  unfolding scored
  scored-bounds one =
      let t = tickets workorders set now_epoch in
      total-bounds cfg (scored cfg set rules profile workorders now_epoch ml graph).total_score
        (rule_engine cfg set rules).rule_factor
        (profile_engine cfg set profile t.forged_ticket).profile_factor
        (if cfg.ml_enabled then ml_factor_of cfg ml else pos 0)
        (if cfg.graph_enabled then min_ℤ graph.graph_factor cfg.graph_max_factor else pos 0)
        t.ticket_valid one refl

  -- With a threshold for HIGH of at least 1 the score is between 0 and 100.
  pub detect-bounds :
      pos 1 ≤ℤ cfg.score_high
      → let res = detect set cfg rules profile workorders now_epoch ml graph in
        (pos 0 ≤ℤ res.total_score) × (res.total_score ≤ℤ pos 100)
  unfolding detect whitelisted_result
  detect-bounds one = elim (Bool-cases (in_whitelist cfg.whitelist_groups set now_epoch)) [
    | inl y ↦ rw y (omega arith, omega arith)
    | inr n ↦ rw n (scored-bounds one)
  ]

  scored-high :
      (scored cfg set rules profile workorders now_epoch ml graph).level ≡ high
      → any (rule_hit set) rules ≡ true
  unfolding scored
  scored-high h = elim (Bool-cases (any (rule_hit set) rules)) [
    | inl y ↦ y
    | inr n ↦ absurd (clamp_score-high cfg _ (rw (rule_engine-none cfg set rules n) at h))
  ]

  -- A result is HIGH only where one of the rules fires on the set: profile, model and graph alone do
  -- not reach it, whatever they come to and whatever the thresholds are.
  pub detect-Fires :
      (detect set cfg rules profile workorders now_epoch ml graph).level ≡ high
      → Any (Fires set) rules
  unfolding detect whitelisted_result
  detect-Fires h = elim (Bool-cases (in_whitelist cfg.whitelist_groups set now_epoch)) [
    | inl y ↦ absurd (low_high (rw y at h))
    | inr n ↦
        (any_iff (rule_hit set) (Fires set) (rule_hit_iff set) rules).0 (scored-high (rw n at h))
  ]
