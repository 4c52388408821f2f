-- ===== src/Collusion.antt =====
-- The data of the collusion engine: include/auditforwarder/collusion.h. Times are numbers, texts
-- are bytes, and `int` is an unbounded integer.
pub mod Keywords
pub mod Sequence
pub mod Window
pub mod Guards
pub mod Detect
pub mod Correlation
pub mod Engine
use audit_forwarder.Prelude.{ℕ, ℤ, Bool, List, Text}

pub record AssetGroup : Type 0 where
  pub name : Text
  pub patterns : List Text

pub record WhitelistGroup : Type 0 where
  pub name : Text
  pub operators : List Text
  pub valid_until_epoch : ℕ

pub record RuleStep : Type 0 where
  pub any_of : List Text

pub record Rule : Type 0 where
  pub rule_id : Text
  pub name : Text
  pub enabled : Bool
  pub asset_group : Text
  pub min_operator_cnt : ℤ
  pub base_score : ℤ
  pub sequence : List RuleStep
  pub group_by : Text
  pub timespan_us : ℕ

pub record WorkOrder : Type 0 where
  pub work_order_id : Text
  pub status : Text
  pub allowed_operators : List Text
  pub valid_from_epoch : ℕ
  pub valid_until_epoch : ℕ

pub record CleanEvent : Type 0 where
  pub oper_id : Text
  pub ts_ms : ℕ
  pub server_id : Text
  pub op_type : Text
  pub action_norm : Text
  pub res_key : Text
  pub op_param : Text
  pub work_order_id : Text
  pub raw : Text
  pub ts_us : ℕ

pub record AggSet : Type 0 where
  pub aggregate_key : Text
  pub asset_group : Text
  pub window_kind : Text
  pub window_start_ms : ℕ
  pub window_end_ms : ℕ
  pub operator_ids : List Text
  pub work_order_ids : List Text
  pub events : List CleanEvent
