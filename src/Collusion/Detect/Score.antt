-- ===== src/Collusion/Detect/Score.antt =====
-- `detect` (server/src/collusion/collusion.cpp): the four engines, the score and its level. What the
-- model and the graph analysis come to is an argument.
use audit_forwarder.Prelude.{
  ℤ, ℕ, pos, ◌+ℤ◌, ◌-ℤ◌, min_ℤ, max_ℤ, ltb_ℤ, leb_ℤ, Bool, true, false, ◌&&◌, List, [], ◌∷◌, ◌++◌,
  if◌then◌else◌, Text,
}
use audit_forwarder.Collusion.{Rule, WorkOrder, AggSet}
use audit_forwarder.Collusion.Guards.{in_whitelist}
use audit_forwarder.Collusion.Detect.{
  EngineConfig, ProfileSnapshot, DetectionResult, whitelist_note, clamped, Level, high, mid, low,
  no_level, MlOutcome, not_loaded, no_scores, below, above,
}
use audit_forwarder.Collusion.Detect.Tickets.{tickets}
use audit_forwarder.Collusion.Detect.Rules.{rule_engine}
use audit_forwarder.Collusion.Detect.Profile.{profile_engine}

-- What `analyze_operator_graph` returns, of it what `detect` reads.
pub record GraphAnalysis : Type 0 where
  pub graph_factor : ℤ
  pub notes : List Text

unfoldable pub ml_factor_of : EngineConfig → MlOutcome → ℤ
ml_factor_of cfg (above add) = min_ℤ (min_ℤ add cfg.ml_max_factor) cfg.ml_max_factor
ml_factor_of cfg not_loaded = min_ℤ (pos 0) cfg.ml_max_factor
ml_factor_of cfg no_scores = min_ℤ (pos 0) cfg.ml_max_factor
ml_factor_of cfg below = min_ℤ (pos 0) cfg.ml_max_factor

-- The last lines, the level by its thresholds.
unfoldable pub level_of : EngineConfig → ℤ → Level
level_of cfg total =
    if leb_ℤ cfg.score_high total
    then high
    else if leb_ℤ cfg.score_mid total
    then mid
    else if ltb_ℤ (pos 0) total
    then low
    else no_level

-- No rule hit, and still a score for the high level.
unfoldable pub must_clamp : EngineConfig → ℤ → ℤ → Bool
must_clamp cfg rule_factor total =
    leb_ℤ rule_factor (pos 0) && (leb_ℤ (pos 0) rule_factor && leb_ℤ cfg.score_high total)

unfoldable pub clamp_score : EngineConfig → ℤ → ℤ → ℤ
unfolding must_clamp
clamp_score cfg rule_factor total =
    if must_clamp cfg rule_factor total then cfg.score_high -ℤ pos 1 else total

-- The sum of the factors less the work order, brought between 0 and 100.
unfoldable pub raw_total : EngineConfig → ℤ → ℤ → ℤ → ℤ → Bool → ℤ
raw_total cfg rule_factor profile_factor ml_factor graph_factor ticket_valid =
    let total =
      rule_factor
      +ℤ profile_factor
      +ℤ ml_factor
      +ℤ graph_factor
      -ℤ (if ticket_valid then cfg.work_order_deduct else pos 0) in
    max_ℤ (pos 0) (min_ℤ total (pos 100))

unfoldable pub whitelisted_result : DetectionResult
whitelisted_result = record {
  rule_factor = pos 0;
  profile_factor = pos 0;
  ml_factor = pos 0;
  graph_factor = pos 0;
  total_score = pos 0;
  hit_rules = [];
  profile_notes = [];
  ml_notes = [];
  graph_notes = [];
  score_notes = whitelist_note ∷ [];
  ticket_valid = false;
  whitelisted = true;
  forged_ticket = false;
  level = low;
}

unfoldable pub scored :
    EngineConfig
    → AggSet
    → List Rule
    → ProfileSnapshot
    → List WorkOrder
    → ℕ
    → MlOutcome
    → GraphAnalysis
    → DetectionResult
unfolding ml_factor_of level_of clamp_score must_clamp raw_total
scored cfg set rules profile workorders now_epoch ml graph =
    let t = tickets workorders set now_epoch in
    let r = rule_engine cfg set rules in
    let p = profile_engine cfg set profile t.forged_ticket in
    let ml_factor = if cfg.ml_enabled then ml_factor_of cfg ml else pos 0 in
    let graph_factor =
      if cfg.graph_enabled then min_ℤ graph.graph_factor cfg.graph_max_factor else pos 0 in
    let total =
      raw_total cfg r.rule_factor p.profile_factor ml_factor graph_factor t.ticket_valid in
    record {
      rule_factor = r.rule_factor;
      profile_factor = p.profile_factor;
      ml_factor = ml_factor;
      graph_factor = graph_factor;
      total_score = clamp_score cfg r.rule_factor total;
      hit_rules = r.hit_rules;
      profile_notes = p.profile_notes;
      ml_notes = if cfg.ml_enabled then ml ∷ [] else [];
      graph_notes = if cfg.graph_enabled then graph.notes else [];
      score_notes =
          t.score_notes
          ++ (r.score_notes ++ (if must_clamp cfg r.rule_factor total then clamped ∷ [] else []));
      ticket_valid = t.ticket_valid;
      whitelisted = false;
      forged_ticket = t.forged_ticket;
      level = level_of cfg (clamp_score cfg r.rule_factor total);
    }

unfoldable pub detect :
    AggSet
    → EngineConfig
    → List Rule
    → ProfileSnapshot
    → List WorkOrder
    → ℕ
    → MlOutcome
    → GraphAnalysis
    → DetectionResult
unfolding scored whitelisted_result
detect set cfg rules profile workorders now_epoch ml graph =
    if in_whitelist cfg.whitelist_groups set now_epoch
    then whitelisted_result
    else scored cfg set rules profile workorders now_epoch ml graph
