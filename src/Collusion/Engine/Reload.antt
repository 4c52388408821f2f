-- ===== src/Collusion/Engine/Reload.antt =====
-- `Engine::maybe_reload_locked` (server/src/collusion/collusion.cpp), with which a call that takes
-- events begins. A file comes as what its text reads as, none where the text is empty or cannot be
-- read, and the writers of the three formats, by which the old and the new are compared, are fields.
use audit_forwarder.Prelude.{
  ℕ, not, ◌||◌, Option, none, some, List, ltb, Text, text_eq, if◌then◌else◌,
}
use audit_forwarder.Collusion.{Rule, WorkOrder}
use audit_forwarder.Collusion.Detect.{EngineConfig}
use audit_forwarder.Collusion.Engine.{Engine, add64}

pub record ReloadFiles : Type 0 where
  pub config : Option EngineConfig
  pub rules : Option (List Rule)
  pub workorders : Option (List WorkOrder)
  pub config_to_json : EngineConfig → Text
  pub rules_to_json : List Rule → Text
  pub workorders_to_json : List WorkOrder → Text

-- The state of the emergency outlives the change of the configuration.
unfoldable pub keep_emergency : EngineConfig → EngineConfig → EngineConfig
keep_emergency old cand = record cand {
  emergency_mode = cand.emergency_mode || old.emergency_mode;
  emergency_until_epoch =
      if ltb cand.emergency_until_epoch old.emergency_until_epoch
      then old.emergency_until_epoch
      else cand.emergency_until_epoch;
}

unfoldable pub reload_config : ReloadFiles → Option EngineConfig → Engine → Engine
unfolding keep_emergency
reload_config files none st = st
reload_config files (some cand) st =
    if not (text_eq (files.config_to_json cand) (files.config_to_json st.cfg))
    then record st { cfg = keep_emergency st.cfg cand }
    else st

unfoldable pub reload_rules : ReloadFiles → Option (List Rule) → Engine → Engine
reload_rules files none st = st
reload_rules files (some cand) st =
    if not (text_eq (files.rules_to_json cand) (files.rules_to_json st.rules))
    then record st { rules = cand }
    else st

unfoldable pub reload_workorders : ReloadFiles → Option (List WorkOrder) → Engine → Engine
reload_workorders files none st = st
reload_workorders files (some cand) st =
    if not (text_eq (files.workorders_to_json cand) (files.workorders_to_json st.workorders))
    then record st { workorders = cand }
    else st

-- The files are looked at every two seconds at most.
unfoldable pub maybe_reload : ReloadFiles → ℕ → Engine → Engine
unfolding add64 reload_config reload_rules reload_workorders
maybe_reload files now_ms st =
    if ltb now_ms (add64 st.cfg_mtime_check_ms 2000)
    then st
    else reload_workorders files files.workorders (
        reload_rules files files.rules
          (reload_config files files.config (record st { cfg_mtime_check_ms = now_ms })))
