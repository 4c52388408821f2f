-- ===== src/Collusion/Engine/Invariant.antt =====
-- What holds of the engine between its calls.
pub mod Stored
pub mod Reloaded
pub mod Kept
use audit_forwarder.Prelude.{ℕ, ◌≤◌, ◌≡◌, true, false, All, length, Text, codes, text_eq}
use audit_forwarder.Collusion.Sequence.Order.{Ascending}
use audit_forwarder.Collusion.Engine.{RiskEvent, Engine}
use audit_forwarder.Collusion.Engine.Windows.Sound.{IsPlaced}
use audit_forwarder.Collusion.Engine.Evaluate.{is_high, max_stored}
use audit_forwarder.Collusion.Engine.Chain.{hard_cap}
use audit_forwarder.Collusion.Engine.Correlate.{max_corr_events}

-- No high risk comes from a long window.
abbrev pub IsCapped : RiskEvent → Type 0
IsCapped r = text_eq r.window_kind (codes "long") ≡ true → is_high r.risk_level ≡ false

-- Every set lies in its window and group, the two buffers are in time order, and the buffers and the
-- file of risk events are bounded.
pub record IsSound (st : Engine) : Type 0 where
  pub short :
      All (IsPlaced st.cfg.asset_groups (codes "short") st.cfg.short_window_ms) st.short_sets
  pub long : All (IsPlaced st.cfg.asset_groups (codes "long") st.cfg.long_window_ms) st.long_sets
  pub chain_order : Ascending st.chain_events
  pub chain_size : length st.chain_events ≤ hard_cap st.cfg
  pub corr_order : Ascending st.corr_events
  pub corr_size : length st.corr_events ≤ max_corr_events
  pub stored_size : length st.risk_events ≤ max_stored
  pub capped : All IsCapped st.risk_events
