-- ===== src/Collusion/Engine.antt =====
-- The state of `Engine` (include/auditforwarder/collusion.h, server/src/collusion/collusion.cpp)
-- behind its mutex. The files that it writes are fields: the stored risk events, the alerts and the
-- saved profile. Every call of the engine is one step, and reads the clock once.
pub mod Windows
pub mod Evaluate
pub mod Chain
pub mod Correlate
pub mod Reload
pub mod Ingest
pub mod Levels
pub mod Retention
pub mod Flush
pub mod Closing
pub mod Invariant
pub mod Alerts
use audit_forwarder.Prelude.{ℕ, ℤ, ◌+◌, ◌*◌, ◌%◌, ◌^◌, Bool, List, Text}
use audit_forwarder.Collusion.{Rule, WorkOrder, CleanEvent, AggSet}
use audit_forwarder.Collusion.Detect.{
  EngineConfig, ProfileSnapshot, ProfileNote, ScoreNote, MlOutcome, Level,
}
use audit_forwarder.Collusion.Detect.Score.{GraphAnalysis}

-- `now_ms()` and `now_epoch()`.
pub record Clock : Type 0 where
  pub ms : ℕ
  pub epoch : ℕ

-- What the model and the graph analysis come to for a set.
pub record Oracles : Type 0 where
  pub ml : AggSet → MlOutcome
  pub graph : AggSet → GraphAnalysis

-- One line of the file of risk events, without the random identifiers.
pub record RiskEvent : Type 0 where
  pub created_epoch : ℕ
  pub window_kind : Text
  pub asset_group : Text
  pub aggregate_key : Text
  pub window_start_ms : ℕ
  pub window_end_ms : ℕ
  pub risk_level : Level
  pub risk_score : ℤ
  pub rule_factor : ℤ
  pub profile_factor : ℤ
  pub ml_factor : ℤ
  pub graph_factor : ℤ
  pub matched_rules : List Text
  pub operators : List Text
  pub work_order_ids : List Text
  pub profile_notes : List ProfileNote
  pub ml_notes : List MlOutcome
  pub graph_notes : List Text
  pub score_notes : List ScoreNote
  pub evidence_timeline : List CleanEvent

-- One line of the files of alerts.
pub record Alert : Type 0 where
  pub host_id : Text
  pub severity : Text
  pub rule_id : Text

pub record Engine : Type 0 where
  pub started : Bool
  pub cfg : EngineConfig
  pub rules : List Rule
  pub workorders : List WorkOrder
  pub profile : ProfileSnapshot
  pub profile_dirty : Bool
  pub profile_save_ms : ℕ
  pub cfg_mtime_check_ms : ℕ
  pub short_sets : List (Text × AggSet)
  pub long_sets : List (Text × AggSet)
  pub chain_events : List CleanEvent
  pub last_chain_alert_ms : List (Text × ℕ)
  pub last_alert_epoch : List (Text × ℕ)
  pub eager_last_count : List (Text × ℕ)
  pub corr_events : List CleanEvent
  pub last_corr_alert_ms : List (Text × ℕ)
  pub risk_events : List RiskEvent
  pub alerts : List Alert
  pub saved_profile : ProfileSnapshot

-- `u64` sums and products wrap.
unfoldable pub add64 : ℕ → ℕ → ℕ
add64 a b = (a + b) % 2 ^ 64

unfoldable pub mul64 : ℕ → ℕ → ℕ
mul64 a b = a * b % 2 ^ 64
