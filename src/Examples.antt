-- ===== src/Examples.antt =====
-- Concrete inputs for the other modules: a stand-in for OpenSSL whose hash is a sum, events, rules
-- and configurations.
mod Texts
mod Evidence
mod Verdicts
mod Engines
mod Filters
mod Processors
mod Configs
mod Rulesets
use audit_forwarder.Prelude.{
  ℕ, zero, suc, ◌+◌, ◌%◌, ◌<◌, ◌≡◌, refl, arith, Bool, true, false, none, List, [], ◌∷◌, ◌++◌,
  length, All, ℤ, pos, Text, codes, text_eq, text_eq_refl,
}
use audit_forwarder.Crypto.{OpenSsl}
use audit_forwarder.Event.{EventCategory, EventAction, EventOutcome, Severity}
use audit_forwarder.Audit.{Actor, Target, AuditEvent, EventBatch}
use audit_forwarder.Chain.{ChainConfig}
use audit_forwarder.Collusion.{CleanEvent, Rule, RuleStep, WorkOrder, WhitelistGroup, AggSet}
use audit_forwarder.Collusion.Detect.{EngineConfig, ProfileSnapshot}
use audit_forwarder.Collusion.Detect.Score.{GraphAnalysis}

abbrev sum : Text → ℕ
sum [] = 0
sum (c ∷ s) = c + sum s

abbrev zeros : ℕ → Text
zeros zero = []
zeros (suc n) = 0 ∷ zeros n

abbrev pub sum_ssl : OpenSsl
sum_ssl = record {
  sha256 = λ s. (sum s % 256) ∷ zeros 31;
  sha256_size = λ s. refl;
  hmac_sha256 = λ key msg. (sum (key ++ msg) % 256) ∷ zeros 31;
  digest_sign = λ key msg. (sum (key ++ msg) % 256) ∷ [];
  digest_verify = λ key msg sig. text_eq sig ((sum (key ++ msg) % 256) ∷ []);
  sign_bytes = λ key msg. (omega arith, tt);
  verify-sign = λ key msg. text_eq_refl ((sum (key ++ msg) % 256) ∷ []);
}

abbrev pub delete_event : AuditEvent
delete_event = record {
  id = 1;
  seq = 0;
  timestamp = 0;
  ts_micros = 7;
  category = EventCategory.file;
  action = EventAction.delete;
  outcome = EventOutcome.success;
  severity = Severity.info;
  host = [];
  agent_id = [];
  rule_id = [];
  actor = record {
    pid = 1;
    tid = 0;
    name = codes "rm";
    path = [];
    user = codes "op";
    sid = [];
    session = [];
    remote = [];
  };
  target = record { kind = []; path = codes "/b"; address = []; port = 0; protocol = [] };
  command = codes "rm b";
  message = [];
  attrs = [];
  raw_payload = [];
  hash = [];
  prev_hash = [];
  signature = [];
  batch_id = [];
  schema_ver = 1;
}

abbrev pub two_a_batch : ChainConfig
two_a_batch = record { data_dir = codes "d"; batch_size = 2; auto_persist = true }

abbrev pub op_event : Text → ℕ → Text → CleanEvent
op_event oper ts op = record {
  oper_id = oper;
  ts_ms = ts;
  server_id = [];
  op_type = op;
  action_norm = [];
  res_key = codes "db";
  op_param = [];
  work_order_id = [];
  raw = [];
  ts_us = 0;
}

abbrev pub stop_then_delete : Rule
stop_then_delete = record {
  rule_id = codes "R-1";
  name = codes "backup";
  enabled = true;
  asset_group = codes "*";
  min_operator_cnt = pos 2;
  base_score = pos 85;
  sequence = record { any_of = codes "stop" ∷ [] } ∷ record { any_of = codes "delete" ∷ [] } ∷ [];
  group_by = codes "asset_group";
  timespan_us = 0;
}

abbrev pub two_operators : AggSet
two_operators = record {
  aggregate_key = [];
  asset_group = codes "g";
  window_kind = codes "short";
  window_start_ms = 0;
  window_end_ms = 100;
  operator_ids = codes "a" ∷ codes "b" ∷ [];
  work_order_ids = codes "W" ∷ [];
  events = op_event (codes "a") 1 (codes "stop") ∷ op_event (codes "b") 2 (codes "delete") ∷ [];
}

-- An order that covers both operators and has not ended.
abbrev pub open_order : WorkOrder
open_order = record {
  work_order_id = codes "W";
  status = codes "done";
  allowed_operators = codes "*" ∷ [];
  valid_from_epoch = 0;
  valid_until_epoch = 50;
}

abbrev pub standard : EngineConfig
standard = record {
  enabled = true;
  short_window_ms = 900000;
  long_window_ms = 14400000;
  flush_grace_ms = 10000;
  alert_dedup_seconds = 300;
  chain_mode = true;
  chain_span_ms = 604800000;
  chain_max_events = 200;
  eager_eval = false;
  emergency_mode = false;
  emergency_until_epoch = 0;
  asset_groups = [];
  rule_max_factor = pos 40;
  profile_max_factor = pos 25;
  work_order_deduct = pos 40;
  forged_ticket_bonus = pos 10;
  score_high = pos 80;
  score_mid = pos 40;
  span_decay_start_ms = 3600000;
  span_decay_per_hour = pos 1;
  span_decay_max = pos 15;
  profile_enabled = true;
  ml_enabled = false;
  ml_max_factor = pos 30;
  graph_enabled = false;
  graph_max_factor = pos 25;
  whitelist_groups = [];
}

abbrev pub no_profile : ProfileSnapshot
no_profile = record { pair_counts = []; operator_assets = [] }

abbrev pub no_graph : GraphAnalysis
no_graph = record { graph_factor = pos 0; notes = [] }
