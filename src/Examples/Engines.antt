-- ===== src/Examples/Engines.antt =====
-- The theorems on the engine at concrete inputs.
use audit_forwarder.Prelude.{
  ◌≡◌, ◌⊎◌, ◌<◌, inr, any, refl, arith, true, false, none, some, [], ◌∷◌, ◌++◌, All, length,
  is_empty, codes, text_eq, Text, if◌then◌else◌,
}
use mathlib.Core.List.{Perm}
use audit_forwarder.Collusion.{AssetGroup, CleanEvent, AggSet}
use audit_forwarder.Collusion.Detect.{EngineConfig, DetectionResult, high, low, not_loaded}
use audit_forwarder.Collusion.Detect.Score.{whitelisted_result}
use audit_forwarder.Collusion.Guards.{listed}
use audit_forwarder.Collusion.Keywords.{match_asset_group, first_group}
use audit_forwarder.Glob.{wildcard_match, wildcard_run, match_folded, glob_loop}
use audit_forwarder.Text.{lower}
use audit_forwarder.Collusion.Engine.{Clock, Oracles, RiskEvent, Engine, add64, mul64}
use audit_forwarder.Collusion.Engine.Windows.{window_start, window_key}
use audit_forwarder.Collusion.Engine.Windows.Sound.{IsPlaced}
use audit_forwarder.Collusion.Engine.Windows.Groups.{enter_all, events_at, pick, enter_all-perm}
use audit_forwarder.Collusion.Engine.Evaluate.{
  is_high, evaluate, settle, long_capped, emergency_lowered, risk_event, emergency_active,
  persist_risk, dedup_seconds, max_stored,
}
use audit_forwarder.Collusion.Engine.Ingest.{start, ingest_json, flush_due, take_event}
use audit_forwarder.Collusion.Engine.Alerts.{evaluate_twice}
use audit_forwarder.Collusion.Engine.Levels.{settle-not_high}
use audit_forwarder.Collusion.Engine.Retention.{Young, young_ones, persist_risk-purges}
use audit_forwarder.Collusion.Engine.Flush.{take_event-profile}
use audit_forwarder.Collusion.Engine.Closing.{
  past_sets, open_sets, emptied, finish_all, written, flush_due-closes,
}
use audit_forwarder.Collusion.Engine.Reload.{ReloadFiles}
use audit_forwarder.Collusion.Engine.Chain.{hard_cap}
use audit_forwarder.Collusion.Engine.Invariant.{IsSound}
use audit_forwarder.Collusion.Engine.Invariant.Kept.{ingest_json-IsSound, start-IsSound}
use audit_forwarder.Examples.{
  op_event, stop_then_delete, two_operators, standard, no_profile, no_graph,
}

abbrev databases : AssetGroup
databases = record { name = codes "dbs"; patterns = codes "db" ∷ [] }

abbrev grouped : EngineConfig
grouped = record standard { asset_groups = databases ∷ []; chain_mode = false }

abbrev blank : Engine
blank = record {
  started = false;
  cfg = standard;
  rules = [];
  workorders = [];
  profile = no_profile;
  profile_dirty = false;
  profile_save_ms = 0;
  cfg_mtime_check_ms = 0;
  short_sets = [];
  long_sets = [];
  chain_events = [];
  last_chain_alert_ms = [];
  last_alert_epoch = [];
  eager_last_count = [];
  corr_events = [];
  last_corr_alert_ms = [];
  risk_events = [];
  alerts = [];
  saved_profile = no_profile;
}

abbrev running : Engine
running = record blank { started = true; cfg = grouped; rules = stop_then_delete ∷ [] }

abbrev oracles : Oracles
oracles = record { ml = λ s. not_loaded; graph = λ s. no_graph }

abbrev noon : Clock
noon = record { ms = 1000; epoch = 1 }

abbrev later : Clock
later = record { ms = 2000; epoch = 2 }

abbrev first_event : CleanEvent
first_event = op_event (codes "a") 100 (codes "stop")

abbrev second_event : CleanEvent
second_event = op_event (codes "b") 200 (codes "delete")

abbrev begun : Engine
begun = start grouped (stop_then_delete ∷ []) [] no_profile blank

-- The engine is turned off in the file, and the rules are gone.
abbrev edited : ReloadFiles
edited = record {
  config = some (record grouped { enabled = false });
  rules = some [];
  workorders = none;
  config_to_json = λ c. if c.enabled then codes "on" else codes "off";
  rules_to_json = λ rs. if is_empty rs then codes "none" else codes "some";
  workorders_to_json = λ ws. [];
}

abbrev afternoon : Clock
afternoon = record { ms = 5000; epoch = 5 }

ingest_json-IsSound_example :
    IsSound (ingest_json oracles edited afternoon begun (some first_event))
unfolding hard_cap mul64 start
ingest_json-IsSound_example =
    ingest_json-IsSound oracles edited afternoon begun (some first_event)
      (refl, refl, refl, omega arith)
      (start-IsSound grouped (stop_then_delete ∷ []) [] no_profile blank (omega arith) tt)

enter_all-perm_example :
    Perm
      (events_at
        (enter_all (databases ∷ []) (codes "short") 60000 [] (first_event ∷ second_event ∷ []))
        (window_key (codes "dbs") (codes "short") 60000 0))
      (pick
        (databases ∷ [])
        (codes "short")
        60000
        (codes "dbs")
        0
        (first_event ∷ second_event ∷ []))
enter_all-perm_example =
    enter_all-perm (databases ∷ []) (codes "short") 60000 (codes "dbs") 0
      (first_event ∷ second_event ∷ []) refl

evaluate_twice_example :
    ((evaluate oracles noon running two_operators true false).alerts ≡ running.alerts)
    ⊎ ((evaluate oracles later
          (evaluate oracles noon running two_operators true false)
          two_operators
          true
          false).alerts
        ≡ (evaluate oracles noon running two_operators true false).alerts)
unfolding add64 mul64 dedup_seconds text_eq
evaluate_twice_example =
    evaluate_twice oracles noon later running two_operators two_operators true true false false refl
      (λ e. absurd (omega (arith, e))) (omega arith)

abbrev alarming : DetectionResult
alarming = record whitelisted_result { level = high }

abbrev in_emergency : EngineConfig
in_emergency = record standard { emergency_mode = true }

settle-not_high_example :
    is_high (emergency_lowered true (long_capped two_operators alarming)).level ≡ false
unfolding settle emergency_active text_eq whitelisted_result
settle-not_high_example =
    settle-not_high in_emergency 5 two_operators false alarming
      (emergency_lowered true (long_capped two_operators alarming)) refl (inr refl)

abbrev old_risk : RiskEvent
old_risk = risk_event two_operators alarming 3

abbrev low_risk : RiskEvent
low_risk = record old_risk { created_epoch = 8000000; risk_level = low }

persist_risk-purges_example :
    All (Young 8000000) (persist_risk (old_risk ∷ []) low_risk 8000000)
    × (length (old_risk ∷ []) < max_stored
        → persist_risk (old_risk ∷ []) low_risk 8000000
          ≡ young_ones 8000000 (old_risk ∷ []) ++ low_risk ∷ [])
unfolding risk_event
persist_risk-purges_example =
    persist_risk-purges (old_risk ∷ []) low_risk 8000000 (omega arith) refl refl

take_event-profile_example : (take_event oracles noon running first_event).profile ≡ no_profile
take_event-profile_example = take_event-profile oracles noon running first_event

flush_due-closes_example :
    ((flush_due oracles noon running).short_sets ≡ open_sets running.cfg noon.ms running.short_sets)
    × ((flush_due oracles noon running).long_sets ≡ open_sets running.cfg noon.ms running.long_sets)
    × (emptied (flush_due oracles noon running)
        ≡ written noon.ms (
            finish_all oracles noon (emptied running) (
              past_sets running.cfg noon.ms running.short_sets
              ++ past_sets running.cfg noon.ms running.long_sets)))
flush_due-closes_example = flush_due-closes oracles noon running

abbrev placed_set : AggSet
placed_set = record {
  aggregate_key = window_key (codes "dbs") (codes "short") 60000 0;
  asset_group = codes "dbs";
  window_kind = codes "short";
  window_start_ms = 0;
  window_end_ms = 60000;
  operator_ids = codes "a" ∷ [];
  work_order_ids = [];
  events = first_event ∷ [];
}

abbrev placed : Text × AggSet
placed = (window_key (codes "dbs") (codes "short") 60000 0, placed_set)

placed-IsPlaced : IsPlaced (databases ∷ []) (codes "short") 60000 placed
unfolding listed any text_eq window_start add64 match_asset_group first_group wildcard_match
    wildcard_run match_folded glob_loop lower
placed-IsPlaced = record {
  framed = record {
    keyed = refl;
    named = refl;
    of_kind = refl;
    ends = refl;
    inside = (refl, tt);
    grouped = (refl, tt);
    known = (refl, tt);
    ascending = (tt, tt);
  };
  joined = refl;
}
