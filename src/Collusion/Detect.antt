-- ===== src/Collusion/Detect.antt =====
-- The configuration, the profile and the result of `detect`: `EngineConfig`, `ProfileSnapshot`,
-- `DetectionResult` (include/auditforwarder/collusion.h). Of the configuration the fields that
-- the modelled code reads are here. A note is the value that its message is made from, and the four texts of
-- a level are a data type.
pub mod Rules
pub mod Tickets
pub mod Profile
pub mod Score
pub mod Hits
pub mod Orders
pub mod Verdict
use audit_forwarder.Prelude.{ℕ, ℤ, Bool, List, Text}
use audit_forwarder.Collusion.{AssetGroup, WhitelistGroup}

pub record EngineConfig : Type 0 where
  pub enabled : Bool
  pub short_window_ms : ℕ
  pub long_window_ms : ℕ
  pub flush_grace_ms : ℕ
  pub rule_max_factor : ℤ
  pub profile_max_factor : ℤ
  pub work_order_deduct : ℤ
  pub forged_ticket_bonus : ℤ
  pub score_high : ℤ
  pub score_mid : ℤ
  pub alert_dedup_seconds : ℕ
  pub chain_mode : Bool
  pub chain_span_ms : ℕ
  pub chain_max_events : ℕ
  pub span_decay_start_ms : ℕ
  pub span_decay_per_hour : ℤ
  pub span_decay_max : ℤ
  pub eager_eval : Bool
  pub emergency_mode : Bool
  pub emergency_until_epoch : ℕ
  pub profile_enabled : Bool
  pub ml_enabled : Bool
  pub ml_max_factor : ℤ
  pub graph_enabled : Bool
  pub graph_max_factor : ℤ
  pub asset_groups : List AssetGroup
  pub whitelist_groups : List WhitelistGroup

-- The maps as association lists.
pub record ProfileSnapshot : Type 0 where
  pub pair_counts : List (Text × ℕ)
  pub operator_assets : List (Text × List (Text × ℕ))

pub data ScoreNote : Type 0 where
  whitelist_note : ScoreNote
  valid_order : Text → ScoreNote
  forged_order : Text → ScoreNote
  no_order : ScoreNote
  long_span : ℕ → ℤ → ScoreNote
  clamped : ScoreNote
  long_window : ScoreNote
  emergency : ScoreNote
  correlation_hit : Text → Text → ScoreNote
  correlation_span : ℕ → ℕ → ScoreNote
  correlation_steps : ℕ → ℕ → ScoreNote

pub data ProfileNote : Type 0 where
  strangers : ProfileNote
  cross_domain : ℤ → ℤ → ProfileNote

-- What the inference of the model comes to, with the whole part of score times maximum where the
-- score is above the threshold.
pub data MlOutcome : Type 0 where
  not_loaded : MlOutcome
  no_scores : MlOutcome
  below : MlOutcome
  above : ℤ → MlOutcome

pub data Level : Type 0 where
  high : Level
  mid : Level
  low : Level
  no_level : Level

pub record DetectionResult : Type 0 where
  pub rule_factor : ℤ
  pub profile_factor : ℤ
  pub ml_factor : ℤ
  pub graph_factor : ℤ
  pub total_score : ℤ
  pub hit_rules : List Text
  pub profile_notes : List ProfileNote
  pub ml_notes : List MlOutcome
  pub graph_notes : List Text
  pub score_notes : List ScoreNote
  pub ticket_valid : Bool
  pub whitelisted : Bool
  pub forged_ticket : Bool
  pub level : Level
