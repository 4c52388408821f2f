-- ===== src/Collusion/Engine/Ingest.antt =====
-- The calls of the engine: `start`, `stop`, `ingest_json`, `ingest_native_json` and
-- `flush_due_locked` (server/src/collusion/collusion.cpp). An event comes as what
-- `clean_event_json` makes of its text.
use audit_forwarder.Prelude.{
  ℕ, ◌+◌, Bool, true, false, not, ◌&&◌, ◌||◌, Option, none, some, List, [], ◌∷◌, leb, is_empty,
  if◌then◌else◌, Text, codes, text_eq,
}
use audit_forwarder.Collusion.{Rule, WorkOrder, CleanEvent, AggSet}
use audit_forwarder.Collusion.Keywords.{match_asset_group}
use audit_forwarder.Collusion.Guards.{listed}
use audit_forwarder.Collusion.Detect.{EngineConfig, ProfileSnapshot}
use audit_forwarder.Collusion.Engine.{Clock, Oracles, Engine, add64}
use audit_forwarder.Collusion.Engine.Reload.{ReloadFiles, maybe_reload}
use audit_forwarder.Collusion.Engine.Windows.{add_event}
use audit_forwarder.Collusion.Engine.Evaluate.{update_profile, evaluate, eager_evaluate}
use audit_forwarder.Collusion.Engine.Chain.{chain_eval}
use audit_forwarder.Collusion.Engine.Correlate.{evaluate_correlation}

-- What `start` leaves, with what it has read from the files.
unfoldable pub start : EngineConfig → List Rule → List WorkOrder → ProfileSnapshot → Engine → Engine
start cfg rules workorders profile st = record st {
  started = true;
  cfg = cfg;
  rules = rules;
  workorders = workorders;
  profile = profile;
  short_sets = [];
  long_sets = [];
  corr_events = [];
  chain_events = [];
  last_alert_epoch = [];
  last_corr_alert_ms = [];
  last_chain_alert_ms = [];
  eager_last_count = [];
}

unfoldable pub stop : Engine → Engine
stop st =
    if st.started
    then record st { saved_profile = st.profile; profile_dirty = false; started = false }
    else st

-- The grace after the end of the window is over.
unfoldable pub is_due : EngineConfig → ℕ → AggSet → Bool
unfolding add64
is_due cfg now_ms set = leb (add64 set.window_end_ms cfg.flush_grace_ms) now_ms

-- What becomes of a set that is due.
unfoldable pub close_set : Oracles → Clock → Engine → AggSet → Engine
unfolding update_profile evaluate
close_set o now st set =
    if st.cfg.chain_mode then update_profile st set else evaluate o now st set true false

-- `flush_map`: the sets that stay.
unfoldable pub not_due : EngineConfig → ℕ → List (Text × AggSet) → List (Text × AggSet)
unfolding is_due
not_due cfg now_ms [] = []
not_due cfg now_ms ((k, set) ∷ m) =
    let rest = not_due cfg now_ms m in if is_due cfg now_ms set then rest else (k, set) ∷ rest

-- `flush_map`: the sets that are due, closed one after the other.
unfoldable pub close_due : Oracles → Clock → Engine → List (Text × AggSet) → Engine
unfolding is_due close_set
close_due o now st [] = st
close_due o now st ((k, set) ∷ m) =
    close_due o now (if is_due st.cfg now.ms set then close_set o now st set else st) m

unfoldable pub save_due : ℕ → Engine → Engine
unfolding add64
save_due now_ms st =
    if st.profile_dirty && leb (add64 st.profile_save_ms 60000) now_ms
    then record st { saved_profile = st.profile; profile_dirty = false; profile_save_ms = now_ms }
    else st

unfoldable pub flush_due : Oracles → Clock → Engine → Engine
unfolding not_due close_due save_due
flush_due o now st =
    let closed = close_due o now st st.short_sets in
    let short = record closed { short_sets = not_due closed.cfg now.ms closed.short_sets } in
    let closed_long = close_due o now short short.long_sets in
    save_due now.ms
      (record closed_long { long_sets = not_due closed_long.cfg now.ms closed_long.long_sets })

-- The loop of the eager mode over the sets of the short window.
unfoldable pub eager_loop : Oracles → Clock → Text → Text → Engine → List (Text × AggSet) → Engine
unfolding listed eager_evaluate
eager_loop o now ag op st [] = st
eager_loop o now ag op st ((k, set) ∷ m) =
    eager_loop o now ag op
      (if text_eq set.asset_group ag && listed set.operator_ids op
        then eager_evaluate o now st set
        else st)
      m

-- The event in the two windows of its asset group.
unfoldable pub enter_windows : Text → Engine → CleanEvent → Engine
unfolding add_event
enter_windows ag st e = record st {
  short_sets = add_event ag (codes "short") st.cfg.short_window_ms st.short_sets e;
  long_sets = add_event ag (codes "long") st.cfg.long_window_ms st.long_sets e;
}

unfoldable pub aggregate_event : Oracles → Clock → Text → Engine → CleanEvent → Engine
unfolding enter_windows chain_eval eager_loop
aggregate_event o now ag st e =
    let entered = enter_windows ag st e in
    if st.cfg.chain_mode
    then chain_eval o now entered e
    else if st.cfg.eager_eval
    then eager_loop o now ag e.oper_id entered entered.short_sets
    else entered

-- One cleaned event.
unfoldable pub take_event : Oracles → Clock → Engine → CleanEvent → Engine
unfolding match_asset_group aggregate_event evaluate_correlation
take_event o now st e =
    let ag = match_asset_group st.cfg.asset_groups e.res_key in
    evaluate_correlation now (if is_empty ag then st else aggregate_event o now ag st e) e

unfoldable pub ingest_cleaned : Oracles → Clock → Engine → Option CleanEvent → Engine
unfolding take_event flush_due
ingest_cleaned o now st none = st
ingest_cleaned o now st (some e) = flush_due o now (take_event o now st e)

unfoldable pub ingest_json : Oracles → ReloadFiles → Clock → Engine → Option CleanEvent → Engine
unfolding maybe_reload ingest_cleaned
ingest_json o files now st e =
    if not st.started || not st.cfg.enabled
    then st
    else ingest_cleaned o now (maybe_reload files now.ms st) e

-- The loop over the objects of a body, and the number of those that could be cleaned.
unfoldable pub native_loop : Oracles → Clock → ℕ → Engine → List (Option CleanEvent) → ℕ × Engine
unfolding take_event
native_loop o now n st [] = (n, st)
native_loop o now n st (none ∷ objects) = native_loop o now n st objects
native_loop o now n st (some e ∷ objects) =
    native_loop o now (n + 1) (take_event o now st e) objects

unfoldable pub ingest_native_json :
    Oracles → ReloadFiles → Clock → Engine → List (Option CleanEvent) → ℕ × Engine
unfolding maybe_reload native_loop flush_due
ingest_native_json o files now st objects =
    let taken = native_loop o now 0 (maybe_reload files now.ms st) objects in
    if not st.started || not st.cfg.enabled then (0, st) else (taken.0, flush_due o now taken.1)
