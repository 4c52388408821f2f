-- ===== src/Collusion/Engine/Invariant/Kept.antt =====
-- The invariant under every call of the engine.
use audit_forwarder.Prelude.{
  ℕ, ◌+◌, ◌≤◌, ◌≡◌, refl, arith, true, false, not, ◌&&◌, ◌||◌, Option, none, some, List, [], ◌∷◌,
  All, length, ltb, leb, ◌==◌, is_empty, rev_onto, Text, codes, text_eq, if_both, if◌then◌else◌,
}
use native.Mathlib.Nat.{le_trans}
use audit_forwarder.Collusion.{Rule, WorkOrder, CleanEvent, AggSet}
use audit_forwarder.Collusion.Keywords.{match_asset_group}
use audit_forwarder.Collusion.Guards.{listed}
use audit_forwarder.Collusion.Correlation.{CorrelationMatch, match_correlation_rule}
use audit_forwarder.Collusion.Sequence.{append_event_ordered}
use audit_forwarder.Collusion.Sequence.Order.{append_event_ordered-Ascending}
use audit_forwarder.Maps.{find_key}
use audit_forwarder.Collusion.Detect.{EngineConfig, ProfileSnapshot}
use audit_forwarder.Collusion.Engine.{Clock, Oracles, Engine, add64}
use audit_forwarder.Collusion.Engine.Windows.Sound.{IsPlaced, add_event-IsPlaced}
use audit_forwarder.Collusion.Engine.Evaluate.{keep_last, max_stored, eager_evaluate}
use audit_forwarder.Collusion.Engine.Chain.{
  Best, hard_cap, prune_chain, seen, candidates, best_of, chain_set, chain_report, chain_match,
  chain_eval,
}
use audit_forwarder.Collusion.Engine.Correlate.{
  is_active, max_corr_events, max_span_of, prune_correlation, dedup_key, recently, corr_event,
  corr_store, corr_report, corr_rules, evaluate_correlation,
}
use audit_forwarder.Collusion.Engine.Ingest.{
  start, is_due, close_set, not_due, close_due, save_due, flush_due, eager_loop, enter_windows,
  aggregate_event, take_event, ingest_cleaned, ingest_json, native_loop, ingest_native_json,
}
use audit_forwarder.Collusion.Engine.Reload.{ReloadFiles, maybe_reload}
use audit_forwarder.Collusion.Engine.Invariant.{IsCapped, IsSound}
use audit_forwarder.Collusion.Engine.Invariant.Reloaded.{Keeps, maybe_reload-IsSound}
use audit_forwarder.Collusion.Engine.Invariant.Stored.{
  length-keep_last, keep_last-Ascending, within_span-Shortened, in_timespan-Shortened,
  persist_risk-All, length-persist_risk, update_profile-IsSound, evaluate-IsSound,
  eager_evaluate-IsSound,
}

prune_chain-IsSound :
    (now_ms : ℕ) (st : Engine) (e : CleanEvent)
    → IsSound st
    → IsSound
        (prune_chain now_ms (record st { chain_events = append_event_ordered st.chain_events e }))
unfolding prune_chain
prune_chain-IsSound now_ms st e s =
    let entered = append_event_ordered st.chain_events e in
    let cut = within_span-Shortened st.cfg.chain_span_ms (keep_last (hard_cap st.cfg) entered) in
    record {
      short = s.short;
      long = s.long;
      chain_order = cut.1 (
          keep_last-Ascending (hard_cap st.cfg) entered
            (append_event_ordered-Ascending st.chain_events e s.chain_order));
      chain_size = le_trans cut.0 (length-keep_last (hard_cap st.cfg) entered);
      corr_order = s.corr_order;
      corr_size = s.corr_size;
      stored_size = s.stored_size;
      capped = s.capped;
    }

chain_report-IsSound :
    (o : Oracles) (now : Clock) (st : Engine) (ag : Text) (cand : List CleanEvent) (b : Option Best)
    → IsSound st
    → IsSound (chain_report o now st ag cand b)
unfolding chain_report
chain_report-IsSound o now st ag cand none s = s
chain_report-IsSound o now st ag cand (some best) s =
    if_both IsSound (ltb (length (chain_set ag cand best).operator_ids) 2) s
      (evaluate-IsSound o now st (chain_set ag cand best) false true s)

chain_match-IsSound :
    (o : Oracles) (now : Clock) (st : Engine) (e : CleanEvent)
    → IsSound st
    → IsSound (chain_match o now st e)
unfolding chain_match
chain_match-IsSound o now st e s =
    let ag = match_asset_group st.cfg.asset_groups e.res_key in
    let cand = candidates st.cfg ag e.ts_ms st.chain_events in
    if_both IsSound (is_empty ag || ltb (length cand) 2) s
      (chain_report-IsSound o now st ag cand (best_of ag cand none st.rules) s)

chain_eval-IsSound :
    (o : Oracles) (now : Clock) (st : Engine) (e : CleanEvent)
    → IsSound st
    → IsSound (chain_eval o now st e)
unfolding chain_eval
chain_eval-IsSound o now st e s =
    let entered = record st { chain_events = append_event_ordered st.chain_events e } in
    if_both IsSound (not st.cfg.chain_mode || (e.ts_ms == 0)) s (
      if_both IsSound (seen (rev_onto st.chain_events []) e) s (
        chain_match-IsSound o now (prune_chain now.ms entered) e
          (prune_chain-IsSound now.ms st e s)))

corr_store-IsSound :
    (now : Clock) (st : Engine) (rule : Rule) (m : CorrelationMatch)
    → IsSound st
    → IsSound (corr_store now st rule m)
unfolding corr_store corr_event text_eq
corr_store-IsSound now st rule m s =
    let risk = corr_event st.cfg now.epoch rule m in
    record {
      short = s.short;
      long = s.long;
      chain_order = s.chain_order;
      chain_size = s.chain_size;
      corr_order = s.corr_order;
      corr_size = s.corr_size;
      stored_size = length-persist_risk st.risk_events risk now.epoch;
      capped = persist_risk-All IsCapped st.risk_events risk now.epoch (λ h. absurd (cc)) s.capped;
    }

corr_report-IsSound :
    (now : Clock) (st : Engine) (rule : Rule) (m : Option CorrelationMatch)
    → IsSound st
    → IsSound (corr_report now st rule m)
unfolding corr_report
corr_report-IsSound now st rule none s = s
corr_report-IsSound now st rule (some m) s =
    if_both IsSound (recently st.cfg now.ms (find_key st.last_corr_alert_ms (dedup_key rule m))) s
      (corr_store-IsSound now st rule m s)

corr_rules-IsSound :
    (now : Clock) (events : List CleanEvent) (st : Engine) (rules : List Rule)
    → IsSound st
    → IsSound (corr_rules now events st rules)
unfolding corr_rules
corr_rules-IsSound now events st [] s = s
corr_rules-IsSound now events st (r ∷ rules) s =
    corr_rules-IsSound now events
      (if is_active r
        then corr_report now st r (match_correlation_rule r events st.cfg.asset_groups)
        else st)
      rules
      (if_both IsSound (is_active r)
        (corr_report-IsSound now st r (match_correlation_rule r events st.cfg.asset_groups) s) s)

prune_correlation-IsSound :
    (now_ms : ℕ) (st : Engine) (e : CleanEvent)
    → IsSound st
    → IsSound (
        prune_correlation now_ms
          (record st { corr_events = append_event_ordered st.corr_events e }))
unfolding prune_correlation
prune_correlation-IsSound now_ms st e s =
    let entered = append_event_ordered st.corr_events e in
    let cut = in_timespan-Shortened (max_span_of 0 st.rules) (keep_last max_corr_events entered) in
    record {
      short = s.short;
      long = s.long;
      chain_order = s.chain_order;
      chain_size = s.chain_size;
      corr_order = cut.1 (
          keep_last-Ascending max_corr_events entered
            (append_event_ordered-Ascending st.corr_events e s.corr_order));
      corr_size = le_trans cut.0 (length-keep_last max_corr_events entered);
      stored_size = s.stored_size;
      capped = s.capped;
    }

evaluate_correlation-IsSound :
    (now : Clock) (st : Engine) (e : CleanEvent)
    → IsSound st
    → IsSound (evaluate_correlation now st e)
unfolding evaluate_correlation
evaluate_correlation-IsSound now st e s =
    let entered = record st { corr_events = append_event_ordered st.corr_events e } in
    let pruned = prune_correlation now.ms entered in
    corr_rules-IsSound now pruned.corr_events pruned pruned.rules
      (prune_correlation-IsSound now.ms st e s)

close_set-IsSound :
    (o : Oracles) (now : Clock) (st : Engine) (set : AggSet)
    → IsSound st
    → IsSound (close_set o now st set)
unfolding close_set
close_set-IsSound o now st set s =
    if_both IsSound st.cfg.chain_mode (update_profile-IsSound st set s)
      (evaluate-IsSound o now st set true false s)

close_due-IsSound :
    (o : Oracles) (now : Clock) (st : Engine) (m : List (Text × AggSet))
    → IsSound st
    → IsSound (close_due o now st m)
unfolding close_due
close_due-IsSound o now st [] s = s
close_due-IsSound o now st ((k, set) ∷ m) s =
    close_due-IsSound o now (if is_due st.cfg now.ms set then close_set o now st set else st) m
      (if_both IsSound (is_due st.cfg now.ms set) (close_set-IsSound o now st set s) s)

not_due-All :
    (P : Text × AggSet → Type 0) (cfg : EngineConfig) (now_ms : ℕ) (m : List (Text × AggSet))
    → All P m
    → All P (not_due cfg now_ms m)
unfolding not_due
not_due-All P cfg now_ms [] h = tt
not_due-All P cfg now_ms ((k, set) ∷ m) h =
    if_both (All P) (is_due cfg now_ms set) (not_due-All P cfg now_ms m h.1)
      (h.0, not_due-All P cfg now_ms m h.1)

save_due-IsSound : (now_ms : ℕ) (st : Engine) → IsSound st → IsSound (save_due now_ms st)
unfolding save_due
save_due-IsSound now_ms st s =
    if_both IsSound (st.profile_dirty && leb (add64 st.profile_save_ms 60000) now_ms)
      (record {
        short = s.short;
        long = s.long;
        chain_order = s.chain_order;
        chain_size = s.chain_size;
        corr_order = s.corr_order;
        corr_size = s.corr_size;
        stored_size = s.stored_size;
        capped = s.capped;
      })
      s

flush_due-IsSound :
    (o : Oracles) (now : Clock) (st : Engine) → IsSound st → IsSound (flush_due o now st)
unfolding flush_due
flush_due-IsSound o now st s =
    let closed = close_due o now st st.short_sets in
    let c : IsSound closed = close_due-IsSound o now st st.short_sets s in
    let short = record closed { short_sets = not_due closed.cfg now.ms closed.short_sets } in
    let closed_long = close_due o now short short.long_sets in
    let l : IsSound closed_long = close_due-IsSound o now short short.long_sets (record {
      short =
          not_due-All (IsPlaced closed.cfg.asset_groups (codes "short") closed.cfg.short_window_ms)
            closed.cfg now.ms closed.short_sets c.short;
      long = c.long;
      chain_order = c.chain_order;
      chain_size = c.chain_size;
      corr_order = c.corr_order;
      corr_size = c.corr_size;
      stored_size = c.stored_size;
      capped = c.capped;
    }) in
    save_due-IsSound now.ms
      (record closed_long { long_sets = not_due closed_long.cfg now.ms closed_long.long_sets })
      (record {
        short = l.short;
        long =
            not_due-All
              (IsPlaced closed_long.cfg.asset_groups (codes "long") closed_long.cfg.long_window_ms)
              closed_long.cfg now.ms closed_long.long_sets l.long;
        chain_order = l.chain_order;
        chain_size = l.chain_size;
        corr_order = l.corr_order;
        corr_size = l.corr_size;
        stored_size = l.stored_size;
        capped = l.capped;
      })

eager_loop-IsSound :
    (o : Oracles) (now : Clock) (ag op : Text) (st : Engine) (m : List (Text × AggSet))
    → IsSound st
    → IsSound (eager_loop o now ag op st m)
unfolding eager_loop
eager_loop-IsSound o now ag op st [] s = s
eager_loop-IsSound o now ag op st ((k, set) ∷ m) s =
    let here = text_eq set.asset_group ag && listed set.operator_ids op in
    eager_loop-IsSound o now ag op (if here then eager_evaluate o now st set else st) m
      (if_both IsSound here (eager_evaluate-IsSound o now st set s) s)

enter_windows-IsSound :
    (ag : Text) (st : Engine) (e : CleanEvent)
    → match_asset_group st.cfg.asset_groups e.res_key ≡ ag
    → IsSound st
    → IsSound (enter_windows ag st e)
unfolding enter_windows
enter_windows-IsSound ag st e g s = record {
  short =
      add_event-IsPlaced st.cfg.asset_groups (codes "short") st.cfg.short_window_ms ag st.short_sets
        e g s.short;
  long =
      add_event-IsPlaced st.cfg.asset_groups (codes "long") st.cfg.long_window_ms ag st.long_sets e
        g s.long;
  chain_order = s.chain_order;
  chain_size = s.chain_size;
  corr_order = s.corr_order;
  corr_size = s.corr_size;
  stored_size = s.stored_size;
  capped = s.capped;
}

aggregate_event-IsSound :
    (o : Oracles) (now : Clock) (ag : Text) (st : Engine) (e : CleanEvent)
    → match_asset_group st.cfg.asset_groups e.res_key ≡ ag
    → IsSound st
    → IsSound (aggregate_event o now ag st e)
unfolding aggregate_event
aggregate_event-IsSound o now ag st e g s =
    let entered = enter_windows ag st e in
    let p : IsSound entered = enter_windows-IsSound ag st e g s in
    if_both IsSound st.cfg.chain_mode (chain_eval-IsSound o now entered e p) (
      if_both IsSound st.cfg.eager_eval
        (eager_loop-IsSound o now ag e.oper_id entered entered.short_sets p) p)

take_event-IsSound :
    (o : Oracles) (now : Clock) (st : Engine) (e : CleanEvent)
    → IsSound st
    → IsSound (take_event o now st e)
unfolding take_event
take_event-IsSound o now st e s =
    let ag = match_asset_group st.cfg.asset_groups e.res_key in
    evaluate_correlation-IsSound now (if is_empty ag then st else aggregate_event o now ag st e) e
      (if_both IsSound (is_empty ag) s (aggregate_event-IsSound o now ag st e refl s))

ingest_cleaned-IsSound :
    (o : Oracles) (now : Clock) (st : Engine) (e : Option CleanEvent)
    → IsSound st
    → IsSound (ingest_cleaned o now st e)
unfolding ingest_cleaned
ingest_cleaned-IsSound o now st none s = s
ingest_cleaned-IsSound o now st (some e) s =
    flush_due-IsSound o now (take_event o now st e) (take_event-IsSound o now st e s)

-- Whatever event comes at whatever time, a sound engine is sound afterwards, where the configuration
-- file, if it can be read, names the same asset groups and lengths of the windows and no smaller
-- buffer of the chain; the rest of it, the rules and the work orders may have changed. Sound means:
-- each set of a window stands under its key and holds events of its window, asset group and operators
-- in time order, the buffers of the chain and of the correlation are in time order and bounded, at
-- most 5000 risk events are stored, and none of them is a high risk from a long window.
pub ingest_json-IsSound :
    (o : Oracles) (files : ReloadFiles) (now : Clock) (st : Engine) (e : Option CleanEvent)
    → Keeps st.cfg files.config
    → IsSound st
    → IsSound (ingest_json o files now st e)
unfolding ingest_json
ingest_json-IsSound o files now st e k s =
    if_both IsSound (not st.started || not st.cfg.enabled) s (
      ingest_cleaned-IsSound o now (maybe_reload files now.ms st) e
        (maybe_reload-IsSound files now.ms st k s))

native_loop-IsSound :
    (o : Oracles) (now : Clock) (n : ℕ) (st : Engine) (objects : List (Option CleanEvent))
    → IsSound st
    → IsSound (native_loop o now n st objects).1
unfolding native_loop
native_loop-IsSound o now n st [] s = s
native_loop-IsSound o now n st (none ∷ objects) s = native_loop-IsSound o now n st objects s
native_loop-IsSound o now n st (some e ∷ objects) s =
    native_loop-IsSound o now (n + 1) (take_event o now st e) objects
      (take_event-IsSound o now st e s)

-- A body of any number of events leaves a sound engine sound, on the same condition.
pub ingest_native_json-IsSound :
    (o : Oracles) (files : ReloadFiles) (now : Clock) (st : Engine)
    (objects : List (Option CleanEvent))
    → Keeps st.cfg files.config
    → IsSound st
    → IsSound (ingest_native_json o files now st objects).1
unfolding ingest_native_json
ingest_native_json-IsSound o files now st objects k s =
    let reloaded = maybe_reload files now.ms st in
    let taken = native_loop o now 0 reloaded objects in
    if_both {A = ℕ × Engine} (λ r. IsSound r.1) (not st.started || not st.cfg.enabled) {x = (0, st)}
      s
      (flush_due-IsSound o now taken.1
        (native_loop-IsSound o now 0 reloaded objects (maybe_reload-IsSound files now.ms st k s)))

-- What `start` leaves is sound where the risk events that are stored are.
pub start-IsSound :
    (cfg : EngineConfig) (rules : List Rule) (workorders : List WorkOrder)
    (profile : ProfileSnapshot) (st : Engine)
    → length st.risk_events ≤ max_stored
    → All IsCapped st.risk_events
    → IsSound (start cfg rules workorders profile st)
unfolding start
start-IsSound cfg rules workorders profile st size capped = record {
  short = tt;
  long = tt;
  chain_order = tt;
  chain_size = omega arith;
  corr_order = tt;
  corr_size = omega arith;
  stored_size = size;
  capped = capped;
}
