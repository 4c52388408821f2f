-- ===== src/Collusion/Engine/Flush.antt =====
-- What the closing of windows does, and what only it does (server/src/collusion/collusion.cpp).
use audit_forwarder.Prelude.{
  ℕ, ◌≡◌, refl, ap, ◌∙◌, Bool, true, false, not, ◌&&◌, ◌||◌, Option, none, some, List, [], ◌∷◌,
  length, ltb, leb, ◌==◌, is_empty, rev_onto, Text, text_eq, if_both, if◌then◌else◌,
}
use audit_forwarder.Maps.{find_key, insert_key}
use audit_forwarder.Collusion.{Rule, CleanEvent, AggSet}
use audit_forwarder.Collusion.Keywords.{match_asset_group}
use audit_forwarder.Collusion.Guards.{listed}
use audit_forwarder.Collusion.Sequence.{append_event_ordered}
use audit_forwarder.Collusion.Correlation.{CorrelationMatch, match_correlation_rule}
use audit_forwarder.Collusion.Detect.{EngineConfig, DetectionResult, ProfileSnapshot}
use audit_forwarder.Collusion.Engine.{Clock, Oracles, Engine, add64}
use audit_forwarder.Collusion.Engine.Evaluate.{
  is_low, update_profile, suppressed, same_count, store, report, learned, verdict, evaluate,
  eager_evaluate,
}
use audit_forwarder.Collusion.Engine.Chain.{
  Best, prune_chain, seen, candidates, best_of, chain_set, chain_report, chain_match, chain_eval,
}
use audit_forwarder.Collusion.Engine.Correlate.{
  is_active, prune_correlation, dedup_key, recently, corr_store, corr_report, corr_rules,
  evaluate_correlation,
}
use audit_forwarder.Collusion.Engine.Ingest.{
  is_due, close_set, not_due, close_due, save_due, flush_due, eager_loop, enter_windows,
  aggregate_event, take_event,
}

-- What an evaluation does not touch.
abbrev windows : Engine → EngineConfig × List (Text × AggSet) × List (Text × AggSet)
windows st = (st.cfg, st.short_sets, st.long_sets)

-- The same, with what is known of the operators.
abbrev view : Engine → ProfileSnapshot × EngineConfig × List (Text × AggSet) × List (Text × AggSet)
view st = (st.profile, st.cfg, st.short_sets, st.long_sets)

report-view :
    (st : Engine) (now : Clock) (set : AggSet) (o : Option DetectionResult)
    → view (report st now set o) ≡ view st
unfolding report store
report-view st now set none = refl
report-view st now set (some r) =
    if_both {A = Engine} (λ x. view x ≡ view st) (not (is_low r.level) && suppressed st now.ms set)
      refl refl

learned-windows : (b : Bool) (st : Engine) (set : AggSet) → windows (learned b st set) ≡ windows st
unfolding learned update_profile
learned-windows b st set =
    if_both {A = Engine} (λ x. windows x ≡ windows st) b
      (if_both {A = Engine} (λ x. windows x ≡ windows st) st.cfg.profile_enabled refl refl) refl

evaluate-windows :
    (o : Oracles) (now : Clock) (st : Engine) (set : AggSet) (b eager : Bool)
    → windows (evaluate o now st set b eager) ≡ windows st
unfolding evaluate
evaluate-windows o now st set b eager =
    if_both {A = Engine} (λ x. windows x ≡ windows st) (ltb (length set.operator_ids) 2) refl
      (ap (λ v. (v.1, v.2, v.3))
          (report-view (learned b st set) now set (verdict o now st set eager))
        ∙ learned-windows b st set)

evaluate-view :
    (o : Oracles) (now : Clock) (st : Engine) (set : AggSet) (eager : Bool)
    → view (evaluate o now st set false eager) ≡ view st
unfolding evaluate learned
evaluate-view o now st set eager =
    if_both {A = Engine} (λ x. view x ≡ view st) (ltb (length set.operator_ids) 2) refl
      (report-view st now set (verdict o now st set eager))

pub close_set-windows :
    (o : Oracles) (now : Clock) (st : Engine) (set : AggSet)
    → windows (close_set o now st set) ≡ windows st
unfolding close_set learned
close_set-windows o now st set =
    if_both {A = Engine} (λ x. windows x ≡ windows st) st.cfg.chain_mode
      (learned-windows true st set) (evaluate-windows o now st set true false)

pub close_due-windows :
    (o : Oracles) (now : Clock) (st : Engine) (m : List (Text × AggSet))
    → windows (close_due o now st m) ≡ windows st
unfolding close_due
close_due-windows o now st [] = refl
close_due-windows o now st ((k, set) ∷ m) =
    close_due-windows o now (if is_due st.cfg now.ms set then close_set o now st set else st) m
    ∙ if_both {A = Engine} (λ x. windows x ≡ windows st) (is_due st.cfg now.ms set)
        (close_set-windows o now st set) refl

save_due-windows : (now_ms : ℕ) (st : Engine) → windows (save_due now_ms st) ≡ windows st
unfolding save_due
save_due-windows now_ms st =
    if_both {A = Engine} (λ x. windows x ≡ windows st)
      (st.profile_dirty && leb (add64 st.profile_save_ms 60000) now_ms) refl refl

-- The sets that are left are those that were not due, in their order.
pub flush_due-windows :
    (o : Oracles) (now : Clock) (st : Engine)
    → windows (flush_due o now st)
      ≡ (st.cfg, not_due st.cfg now.ms st.short_sets, not_due st.cfg now.ms st.long_sets)
unfolding flush_due
flush_due-windows o now st =
    let closed = close_due o now st st.short_sets in
    let one = close_due-windows o now st st.short_sets in
    let short = record closed { short_sets = not_due closed.cfg now.ms closed.short_sets } in
    let closed_long = close_due o now short short.long_sets in
    let two = close_due-windows o now short short.long_sets in
    save_due-windows now.ms
      (record closed_long { long_sets = not_due closed_long.cfg now.ms closed_long.long_sets })
    ∙ ap (λ w. (w.0, w.1, not_due w.0 now.ms w.2)) two
    ∙ ap (λ w. (w.0, not_due w.0 now.ms w.1, not_due w.0 now.ms w.2)) one

eager_evaluate-view :
    (o : Oracles) (now : Clock) (st : Engine) (set : AggSet)
    → view (eager_evaluate o now st set) ≡ view st
unfolding eager_evaluate
eager_evaluate-view o now st set =
    if_both {A = Engine} (λ x. view x ≡ view st)
      (not st.cfg.eager_eval
        || ltb (length set.operator_ids) 2
        || same_count st.eager_last_count set)
      refl
      (evaluate-view o now
        (record st {
          eager_last_count = insert_key st.eager_last_count set.aggregate_key (length set.events);
        })
        set true)

eager_loop-view :
    (o : Oracles) (now : Clock) (ag op : Text) (st : Engine) (m : List (Text × AggSet))
    → view (eager_loop o now ag op st m) ≡ view st
unfolding eager_loop
eager_loop-view o now ag op st [] = refl
eager_loop-view o now ag op st ((k, set) ∷ m) =
    let here = text_eq set.asset_group ag && listed set.operator_ids op in
    eager_loop-view o now ag op (if here then eager_evaluate o now st set else st) m
    ∙ if_both {A = Engine} (λ x. view x ≡ view st) here (eager_evaluate-view o now st set) refl

chain_report-view :
    (o : Oracles) (now : Clock) (st : Engine) (ag : Text) (cand : List CleanEvent) (b : Option Best)
    → view (chain_report o now st ag cand b) ≡ view st
unfolding chain_report
chain_report-view o now st ag cand none = refl
chain_report-view o now st ag cand (some best) =
    if_both {A = Engine} (λ x. view x ≡ view st)
      (ltb (length (chain_set ag cand best).operator_ids) 2) refl
      (evaluate-view o now st (chain_set ag cand best) true)

chain_match-view :
    (o : Oracles) (now : Clock) (st : Engine) (e : CleanEvent)
    → view (chain_match o now st e) ≡ view st
unfolding chain_match
chain_match-view o now st e =
    let ag = match_asset_group st.cfg.asset_groups e.res_key in
    let cand = candidates st.cfg ag e.ts_ms st.chain_events in
    if_both {A = Engine} (λ x. view x ≡ view st) (is_empty ag || ltb (length cand) 2) refl
      (chain_report-view o now st ag cand (best_of ag cand none st.rules))

chain_eval-view :
    (o : Oracles) (now : Clock) (st : Engine) (e : CleanEvent)
    → view (chain_eval o now st e) ≡ view st
unfolding chain_eval prune_chain
chain_eval-view o now st e =
    let entered = record st { chain_events = append_event_ordered st.chain_events e } in
    if_both {A = Engine} (λ x. view x ≡ view st) (not st.cfg.chain_mode || (e.ts_ms == 0)) refl
      (if_both {A = Engine} (λ x. view x ≡ view st) (seen (rev_onto st.chain_events []) e) refl
        (chain_match-view o now (prune_chain now.ms entered) e))

corr_report-view :
    (now : Clock) (st : Engine) (r : Rule) (m : Option CorrelationMatch)
    → view (corr_report now st r m) ≡ view st
unfolding corr_report corr_store
corr_report-view now st r none = refl
corr_report-view now st r (some m) =
    if_both {A = Engine} (λ x. view x ≡ view st)
      (recently st.cfg now.ms (find_key st.last_corr_alert_ms (dedup_key r m))) refl refl

corr_rules-view :
    (now : Clock) (events : List CleanEvent) (st : Engine) (rules : List Rule)
    → view (corr_rules now events st rules) ≡ view st
unfolding corr_rules
corr_rules-view now events st [] = refl
corr_rules-view now events st (r ∷ rules) =
    let m = match_correlation_rule r events st.cfg.asset_groups in
    corr_rules-view now events (if is_active r then corr_report now st r m else st) rules
    ∙ if_both {A = Engine} (λ x. view x ≡ view st) (is_active r) (corr_report-view now st r m) refl

evaluate_correlation-view :
    (now : Clock) (st : Engine) (e : CleanEvent) → view (evaluate_correlation now st e) ≡ view st
unfolding evaluate_correlation prune_correlation
evaluate_correlation-view now st e =
    let entered = record st { corr_events = append_event_ordered st.corr_events e } in
    let pruned = prune_correlation now.ms entered in
    corr_rules-view now pruned.corr_events pruned pruned.rules

aggregate_event-profile :
    (o : Oracles) (now : Clock) (ag : Text) (st : Engine) (e : CleanEvent)
    → (aggregate_event o now ag st e).profile ≡ st.profile
unfolding aggregate_event enter_windows
aggregate_event-profile o now ag st e =
    let entered = enter_windows ag st e in
    if_both {A = Engine} (λ x. x.profile ≡ st.profile) st.cfg.chain_mode
      (ap (λ v. v.0) (chain_eval-view o now entered e))
      (if_both {A = Engine} (λ x. x.profile ≡ st.profile) st.cfg.eager_eval
        (ap (λ v. v.0) (eager_loop-view o now ag e.oper_id entered entered.short_sets)) refl)

-- What is known of the operators changes only where windows close: the taking of an event, with the
-- evaluations of the chain, of the eager mode and of the correlation rules, leaves it.
pub take_event-profile :
    (o : Oracles) (now : Clock) (st : Engine) (e : CleanEvent)
    → (take_event o now st e).profile ≡ st.profile
unfolding take_event
take_event-profile o now st e =
    let ag = match_asset_group st.cfg.asset_groups e.res_key in
    ap (λ v. v.0)
      (evaluate_correlation-view now (if is_empty ag then st else aggregate_event o now ag st e) e)
    ∙ if_both {A = Engine} (λ x. x.profile ≡ st.profile) (is_empty ag) refl
        (aggregate_event-profile o now ag st e)
