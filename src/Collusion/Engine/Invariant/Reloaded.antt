-- ===== src/Collusion/Engine/Invariant/Reloaded.antt =====
-- The invariant under a change of the files of the engine.
use audit_forwarder.Prelude.{
  ℕ, ◌≤◌, ◌≡◌, refl, arith, not, Option, none, some, List, ltb, text_eq, if_both,
}
use native.Mathlib.Nat.{le_trans}
use audit_forwarder.Collusion.{Rule, WorkOrder}
use audit_forwarder.Collusion.Detect.{EngineConfig}
use audit_forwarder.Collusion.Engine.{Engine, add64}
use audit_forwarder.Collusion.Engine.Chain.{hard_cap}
use audit_forwarder.Collusion.Engine.Reload.{
  ReloadFiles, keep_emergency, reload_config, reload_rules, reload_workorders, maybe_reload,
}
use audit_forwarder.Collusion.Engine.Invariant.{IsSound}

-- The configuration that is read leaves the asset groups and the lengths of the windows as they are,
-- and does not shrink the buffer of the chain.
abbrev pub Keeps : EngineConfig → Option EngineConfig → Type 0
Keeps cfg none = Unit
Keeps cfg (some cand) =
    (cand.asset_groups ≡ cfg.asset_groups)
    × (cand.short_window_ms ≡ cfg.short_window_ms)
    × (cand.long_window_ms ≡ cfg.long_window_ms)
    × (hard_cap cfg ≤ hard_cap cand)

changed-IsSound :
    (st : Engine) (cand : EngineConfig) (rs : List Rule) (ws : List WorkOrder) (n : ℕ)
    → Keeps st.cfg (some cand)
    → IsSound st
    → IsSound (record st { cfg = cand; rules = rs; workorders = ws; cfg_mtime_check_ms = n })
changed-IsSound st cand rs ws n k s = record {
  short = rw (k.0, k.1) s.short;
  long = rw (k.0, k.2) s.long;
  chain_order = s.chain_order;
  chain_size = le_trans s.chain_size k.3;
  corr_order = s.corr_order;
  corr_size = s.corr_size;
  stored_size = s.stored_size;
  capped = s.capped;
}

kept : (cfg : EngineConfig) → Keeps cfg (some cfg)
kept cfg = (refl, refl, refl, omega arith)

reload_config-IsSound :
    (files : ReloadFiles) (o : Option EngineConfig) (st : Engine)
    → Keeps st.cfg o
    → IsSound st
    → IsSound (reload_config files o st)
unfolding reload_config keep_emergency hard_cap
reload_config-IsSound files none st k s = s
reload_config-IsSound files (some cand) st k s =
    if_both IsSound (not (text_eq (files.config_to_json cand) (files.config_to_json st.cfg)))
      (changed-IsSound st (keep_emergency st.cfg cand) st.rules st.workorders st.cfg_mtime_check_ms
        k s)
      s

reload_rules-IsSound :
    (files : ReloadFiles) (o : Option (List Rule)) (st : Engine)
    → IsSound st
    → IsSound (reload_rules files o st)
unfolding reload_rules
reload_rules-IsSound files none st s = s
reload_rules-IsSound files (some cand) st s =
    if_both IsSound (not (text_eq (files.rules_to_json cand) (files.rules_to_json st.rules)))
      (changed-IsSound st st.cfg cand st.workorders st.cfg_mtime_check_ms (kept st.cfg) s) s

reload_workorders-IsSound :
    (files : ReloadFiles) (o : Option (List WorkOrder)) (st : Engine)
    → IsSound st
    → IsSound (reload_workorders files o st)
unfolding reload_workorders
reload_workorders-IsSound files none st s = s
reload_workorders-IsSound files (some cand) st s =
    if_both IsSound
      (not (text_eq (files.workorders_to_json cand) (files.workorders_to_json st.workorders)))
      (changed-IsSound st st.cfg st.rules cand st.cfg_mtime_check_ms (kept st.cfg) s) s

pub maybe_reload-IsSound :
    (files : ReloadFiles) (now_ms : ℕ) (st : Engine)
    → Keeps st.cfg files.config
    → IsSound st
    → IsSound (maybe_reload files now_ms st)
unfolding maybe_reload
maybe_reload-IsSound files now_ms st k s =
    let looked = record st { cfg_mtime_check_ms = now_ms } in
    let l : IsSound looked =
      changed-IsSound st st.cfg st.rules st.workorders now_ms (kept st.cfg) s in
    let c = reload_config-IsSound files files.config looked k l in
    let r = reload_rules-IsSound files files.rules (reload_config files files.config looked) c in
    if_both IsSound (ltb now_ms (add64 st.cfg_mtime_check_ms 2000)) s (
      reload_workorders-IsSound files files.workorders
        (reload_rules files files.rules (reload_config files files.config looked)) r)
