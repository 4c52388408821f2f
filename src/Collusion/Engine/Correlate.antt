-- ===== src/Collusion/Engine/Correlate.antt =====
-- The correlation rules over the buffer of the last events: `prune_correlation_locked` and
-- `evaluate_correlation_locked` (server/src/collusion/collusion.cpp).
use audit_forwarder.Prelude.{
  ℕ, ◌+◌, ◌-◌, ◌/◌, ◌%◌, ◌^◌, ℤ, pos, leb_ℤ, Bool, false, not, ◌&&◌, Option, none, some, List, [],
  ◌∷◌, ◌++◌, length, ltb, leb, ◌==◌, if◌then◌else◌, Text, codes, text_eq,
}
use audit_forwarder.Maps.{find_key, insert_key}
use audit_forwarder.Collusion.{Rule, CleanEvent}
use audit_forwarder.Collusion.Keywords.{match_asset_group}
use audit_forwarder.Collusion.Sequence.{append_event_ordered}
use audit_forwarder.Collusion.Correlation.{CorrelationMatch, event_us, match_correlation_rule}
use audit_forwarder.Collusion.Detect.{
  EngineConfig, ScoreNote, Level, high, mid, low, emergency, correlation_hit, correlation_span,
  correlation_steps,
}
use audit_forwarder.Collusion.Engine.{Clock, RiskEvent, Alert, Engine, add64, mul64}
use audit_forwarder.Collusion.Engine.Evaluate.{
  is_low, one_down, emergency_active, keep_last, persist_risk, pushed, severity_word,
}
use audit_forwarder.Collusion.Engine.Chain.{clean_map, orders_in}

-- `r.enabled && r.group_by != "asset_group"`.
unfoldable pub is_active : Rule → Bool
is_active r = r.enabled && not (text_eq r.group_by (codes "asset_group"))

unfoldable pub max_span_of : ℕ → List Rule → ℕ
unfolding is_active
max_span_of m [] = m
max_span_of m (r ∷ rules) =
    max_span_of (if is_active r && ltb m r.timespan_us then r.timespan_us else m) rules

unfoldable pub newest_us : ℕ → List CleanEvent → ℕ
unfolding event_us
newest_us n [] = n
newest_us n (e ∷ events) = newest_us (if ltb n (event_us e) then event_us e else n) events

-- `pop_front` until the front is near enough to the newest event.
unfoldable pub drop_late : ℕ → ℕ → List CleanEvent → List CleanEvent
unfolding add64 event_us
drop_late newest span [] = []
drop_late newest span (e ∷ events) =
    if leb newest (add64 (event_us e) span) then e ∷ events else drop_late newest span events

abbrev pub max_corr_events : ℕ
max_corr_events = 4096

unfoldable pub in_timespan : ℕ → List CleanEvent → List CleanEvent
unfolding newest_us drop_late
in_timespan span events = if (span == 0) then events else drop_late (newest_us 0 events) span events

unfoldable pub prune_correlation : ℕ → Engine → Engine
unfolding keep_last max_span_of in_timespan clean_map mul64
prune_correlation now_ms st = record st {
  corr_events = in_timespan (max_span_of 0 st.rules) (keep_last max_corr_events st.corr_events);
  last_corr_alert_ms =
      clean_map now_ms (mul64 st.cfg.alert_dedup_seconds 1000) st.last_corr_alert_ms;
}

unfoldable pub dedup_key : Rule → CorrelationMatch → Text
dedup_key rule m =
    codes "corr|" ++ (rule.rule_id ++ (codes "|" ++ (m.group_by ++ (codes "|" ++ m.group_key))))

-- `last != end() && now < last + alert_dedup_seconds * 1000`.
unfoldable pub recently : EngineConfig → ℕ → Option ℕ → Bool
unfolding add64 mul64
recently cfg now_ms none = false
recently cfg now_ms (some last) = ltb now_ms (add64 last (mul64 cfg.alert_dedup_seconds 1000))

-- The level that the base score stands for.
unfoldable pub base_level : EngineConfig → ℤ → Level
base_level cfg score =
    if leb_ℤ cfg.score_high score then high else if leb_ℤ cfg.score_mid score then mid else low

unfoldable pub rule_level : EngineConfig → ℕ → Rule → Level
unfolding base_level emergency_active one_down
rule_level cfg now_epoch rule =
    let level = base_level cfg rule.base_score in
    if emergency_active cfg now_epoch && not (is_low level) then one_down level else level

-- `m.window_end_us - m.window_start_us`.
unfoldable pub span_us : CorrelationMatch → ℕ
span_us m = (m.window_end_us + 2 ^ 64 - m.window_start_us) % 2 ^ 64

unfoldable pub notes_of : EngineConfig → ℕ → Rule → CorrelationMatch → List ScoreNote
unfolding span_us emergency_active base_level
notes_of cfg now_epoch rule m =
    correlation_hit m.group_by m.group_key
    ∷ correlation_span rule.timespan_us (span_us m)
    ∷ correlation_steps (length rule.sequence) (length m.operator_ids)
    ∷ (if emergency_active cfg now_epoch && not (is_low (base_level cfg rule.base_score))
        then emergency ∷ []
        else [])

abbrev first_res : List CleanEvent → Text
first_res [] = []
first_res (e ∷ events) = e.res_key

abbrev first_server : List CleanEvent → Text
first_server [] = codes "collusion"
first_server (e ∷ events) = e.server_id

abbrev rule_name : Rule → Text
rule_name rule = rule.rule_id ++ (codes " " ++ rule.name)

unfoldable pub corr_event : EngineConfig → ℕ → Rule → CorrelationMatch → RiskEvent
unfolding match_asset_group dedup_key rule_level notes_of orders_in
corr_event cfg now_epoch rule m = record {
  created_epoch = now_epoch;
  window_kind = codes "correlation";
  asset_group = match_asset_group cfg.asset_groups (first_res m.events);
  aggregate_key = dedup_key rule m;
  window_start_ms = m.window_start_us / 1000;
  window_end_ms = m.window_end_us / 1000;
  risk_level = rule_level cfg now_epoch rule;
  risk_score = rule.base_score;
  rule_factor = rule.base_score;
  profile_factor = pos 0;
  ml_factor = pos 0;
  graph_factor = pos 0;
  matched_rules = rule_name rule ∷ [];
  operators = m.operator_ids;
  work_order_ids = orders_in [] m.events;
  profile_notes = [];
  ml_notes = [];
  graph_notes = [];
  score_notes = notes_of cfg now_epoch rule m;
  evidence_timeline = m.events;
}

-- A match that is not suppressed is noted, stored and pushed.
unfoldable pub corr_store : Clock → Engine → Rule → CorrelationMatch → Engine
unfolding corr_event dedup_key insert_key persist_risk pushed
corr_store now st rule m =
    let risk = corr_event st.cfg now.epoch rule m in
    let alert : Alert = record {
      host_id = first_server m.events;
      severity = severity_word risk.risk_level;
      rule_id = rule_name rule;
    } in
    record st {
      last_corr_alert_ms = insert_key st.last_corr_alert_ms (dedup_key rule m) now.ms;
      risk_events = persist_risk st.risk_events risk now.epoch;
      alerts = pushed risk.risk_level alert st.alerts;
    }

unfoldable pub corr_report : Clock → Engine → Rule → Option CorrelationMatch → Engine
unfolding recently find_key dedup_key corr_store
corr_report now st rule none = st
corr_report now st rule (some m) =
    if recently st.cfg now.ms (find_key st.last_corr_alert_ms (dedup_key rule m))
    then st
    else corr_store now st rule m

-- The loop over the active rules, on the events of the buffer.
unfoldable pub corr_rules : Clock → List CleanEvent → Engine → List Rule → Engine
unfolding is_active corr_report match_correlation_rule
corr_rules now events st [] = st
corr_rules now events st (r ∷ rules) =
    corr_rules now events
      (if is_active r
        then corr_report now st r (match_correlation_rule r events st.cfg.asset_groups)
        else st)
      rules

unfoldable pub evaluate_correlation : Clock → Engine → CleanEvent → Engine
unfolding append_event_ordered prune_correlation corr_rules
evaluate_correlation now st e =
    let entered = record st { corr_events = append_event_ordered st.corr_events e } in
    let pruned = prune_correlation now.ms entered in
    corr_rules now pruned.corr_events pruned pruned.rules
