-- ===== src/Collusion/Correlation.antt =====
-- Correlation rules over single operators or objects: `correlation_group_key` and
-- `match_correlation_rule` (server/src/collusion/collusion.cpp).
pub mod Match
pub mod Sorted
use audit_forwarder.Prelude.{
  ℕ, ◌+◌, ◌*◌, ◌%◌, ◌^◌, ℤ, pos, ltb_ℤ, Bool, true, false, not, ◌&&◌, Option, none, some, List, [],
  ◌∷◌, ◌++◌, any, length, last_or, ltb, ◌==◌, is_empty, if◌then◌else◌, Text, codes, text_eq,
}
use audit_forwarder.Collusion.{AssetGroup, Rule, RuleStep, CleanEvent}
use audit_forwarder.Collusion.Keywords.{step_hit, match_asset_group}

pub record CorrelationMatch : Type 0 where
  pub rule_id : Text
  pub name : Text
  pub group_by : Text
  pub group_key : Text
  pub window_start_us : ℕ
  pub window_end_us : ℕ
  pub operator_ids : List Text
  pub events : List CleanEvent

-- `e.ts_us ? e.ts_us : e.ts_ms * 1000`.
unfoldable pub event_us : CleanEvent → ℕ
event_us e = if e.ts_us == 0 then e.ts_ms * 1000 % 2 ^ 64 else e.ts_us

unfoldable pub insert_stable : CleanEvent → List CleanEvent → List CleanEvent
unfolding event_us
insert_stable e [] = e ∷ []
insert_stable e (x ∷ l) =
    let rest = insert_stable e l in if ltb (event_us x) (event_us e) then x ∷ rest else e ∷ x ∷ l

-- `std::stable_sort` by the time in microseconds.
unfoldable pub stable_sort : List CleanEvent → List CleanEvent
unfolding insert_stable
stable_sort [] = []
stable_sort (e ∷ events) = insert_stable e (stable_sort events)

unfoldable pub correlation_group_key : Text → CleanEvent → List AssetGroup → Text
unfolding match_asset_group
correlation_group_key group_by e groups =
    if text_eq group_by (codes "operator")
    then e.oper_id
    else if text_eq group_by (codes "object")
    then e.res_key
    else match_asset_group groups e.res_key

-- `rule.timespan_us > 0 && ts_us > start_us + rule.timespan_us`.
unfoldable pub out_of_span : ℕ → ℕ → CleanEvent → Bool
unfolding event_us
out_of_span timespan_us start_us e =
    not (timespan_us == 0) && ltb ((start_us + timespan_us) % 2 ^ 64) (event_us e)

abbrev and_then : CleanEvent → Option (List CleanEvent) → Option (List CleanEvent)
and_then e none = none
and_then e (some l) = some (e ∷ l)

-- The inner loop, for the steps that are left: the matched events, `none` where a step stays open.
unfoldable pub collect :
    (CleanEvent → Bool)
    → (CleanEvent → Bool)
    → List RuleStep
    → List CleanEvent
    → Option (List CleanEvent)
collect in_group late [] events = some []
collect in_group late (s ∷ seq) [] = none
collect in_group late (s ∷ seq) (e ∷ events) =
    let skip = collect in_group late (s ∷ seq) events in
    let take_it = and_then e (collect in_group late seq events) in
    if not (in_group e)
    then skip
    else if late e
    then none
    else if step_hit s.any_of e
    then take_it
    else skip

-- The operators of the matched events, each once, in order of appearance.
unfoldable pub operators_of : List CleanEvent → List Text → List Text
unfolding any
operators_of [] ops = ops
operators_of (e ∷ events) ops =
    operators_of events (if any (λ o. text_eq o e.oper_id) ops then ops else ops ++ e.oper_id ∷ [])

unfoldable pub in_group_of : Text → List AssetGroup → Text → CleanEvent → Bool
unfolding correlation_group_key
in_group_of group_by groups gk e = text_eq (correlation_group_key group_by e groups) gk

unfoldable pub first_us : List CleanEvent → ℕ
unfolding event_us
first_us [] = 0
first_us (e ∷ events) = event_us e

unfoldable pub last_us : List CleanEvent → ℕ
unfolding event_us
last_us [] = 0
last_us (e ∷ events) = event_us (last_or e events)

unfoldable pub match_of : Rule → Text → Text → List CleanEvent → CorrelationMatch
unfolding operators_of first_us last_us
match_of rule group_by gk matched = record {
  rule_id = rule.rule_id;
  name = rule.name;
  group_by = group_by;
  group_key = gk;
  window_start_us = first_us matched;
  window_end_us = last_us matched;
  operator_ids = operators_of matched [];
  events = matched;
}

-- The test on the number of operators behind the inner loop.
unfoldable pub enough : Rule → Text → Text → Option (List CleanEvent) → Option CorrelationMatch
unfolding match_of operators_of
enough rule group_by gk none = none
enough rule group_by gk (some matched) =
    if ltb_ℤ (pos (length (operators_of matched []))) rule.min_operator_cnt
    then none
    else some (match_of rule group_by gk matched)

abbrev or_next : Option CorrelationMatch → Option CorrelationMatch → Option CorrelationMatch
or_next none next = next
or_next (some m) next = some m

-- The outer loop over the sorted events.
unfoldable pub match_from :
    Rule → Text → List AssetGroup → List CleanEvent → Option CorrelationMatch
unfolding collect enough in_group_of out_of_span correlation_group_key
match_from rule group_by groups [] = none
match_from rule group_by groups (e ∷ events) =
    let gk = correlation_group_key group_by e groups in
    let next = match_from rule group_by groups events in
    let matched =
      collect (in_group_of group_by groups gk) (out_of_span rule.timespan_us (event_us e))
        rule.sequence (e ∷ events) in
    if is_empty gk then next else or_next (enough rule group_by gk matched) next

-- The group kind of a rule; the asset group where it names none.
unfoldable pub group_kind : Rule → Text
group_kind rule = if is_empty rule.group_by then codes "asset_group" else rule.group_by

unfoldable pub match_correlation_rule :
    Rule → List CleanEvent → List AssetGroup → Option CorrelationMatch
unfolding match_from stable_sort group_kind
match_correlation_rule rule events groups =
    if is_empty rule.sequence
    then none
    else match_from rule (group_kind rule) groups (stable_sort events)
