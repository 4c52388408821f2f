-- ===== src/Collusion/Engine/Chain.antt =====
-- The sliding chain: `prune_chain_locked` and `chain_eval_locked`
-- (server/src/collusion/collusion.cpp).
use audit_forwarder.Prelude.{
  ℕ, ◌+◌, ◌-◌, ◌%◌, ◌^◌, Bool, true, false, not, ◌&&◌, ◌||◌, Option, none, some, List, [], ◌∷◌,
  ◌++◌, length, take, drop, last_or, rev_onto, get_elem?, ltb, leb, ◌==◌, is_empty, if◌then◌else◌,
  Text, codes, text_eq,
}
use audit_forwarder.Decimal.{decimal}
use audit_forwarder.Collusion.{AssetGroup, Rule, CleanEvent, AggSet}
use audit_forwarder.Collusion.Keywords.{match_asset_group}
use audit_forwarder.Collusion.Sequence.{append_event_ordered}
use audit_forwarder.Collusion.Window.{minimal_match_window}
use audit_forwarder.Collusion.Detect.{EngineConfig}
use audit_forwarder.Collusion.Engine.{Clock, Oracles, Engine, add64, mul64}
use audit_forwarder.Collusion.Engine.Windows.{push_unique, add_order}
use audit_forwarder.Collusion.Engine.Evaluate.{keep_last, evaluate}

-- `std::max<std::size_t>(chain_max_events * 8, 512)`.
unfoldable pub hard_cap : EngineConfig → ℕ
unfolding mul64
hard_cap cfg = let n = mul64 cfg.chain_max_events 8 in if ltb n 512 then 512 else n

-- `pop_front` while the front is before the cutoff.
unfoldable pub drop_before : ℕ → List CleanEvent → List CleanEvent
drop_before cutoff [] = []
drop_before cutoff (e ∷ events) =
    if ltb e.ts_ms cutoff then drop_before cutoff events else e ∷ events

abbrev newest_ms : List CleanEvent → ℕ
newest_ms [] = 0
newest_ms (e ∷ events) = (last_or e events).ts_ms

-- The newest event is the last one.
unfoldable pub within_span : ℕ → List CleanEvent → List CleanEvent
unfolding drop_before
within_span span events =
    let newest = newest_ms events in
    if not (span == 0) && ltb span newest then drop_before (newest - span) events else events

-- The entries of a map of times that are less than `keep` ago.
unfoldable pub keep_fresh : ℕ → ℕ → List (Text × ℕ) → List (Text × ℕ)
unfolding add64
keep_fresh now keep [] = []
keep_fresh now keep ((k, t) ∷ m) =
    let rest = keep_fresh now keep m in if leb (add64 t keep) now then rest else (k, t) ∷ rest

-- A map of more than 4096 entries is cleaned.
unfoldable pub clean_map : ℕ → ℕ → List (Text × ℕ) → List (Text × ℕ)
unfolding keep_fresh
clean_map now keep m = if ltb 4096 (length m) then keep_fresh now keep m else m

unfoldable pub prune_chain : ℕ → Engine → Engine
unfolding hard_cap keep_last within_span clean_map
prune_chain now_ms st = record st {
  chain_events = within_span st.cfg.chain_span_ms (keep_last (hard_cap st.cfg) st.chain_events);
  last_chain_alert_ms = clean_map now_ms 3600000 st.last_chain_alert_ms;
}

abbrev same_event : CleanEvent → CleanEvent → Bool
same_event a b =
    (a.ts_ms == b.ts_ms)
    && (text_eq a.oper_id b.oper_id
        && (text_eq a.res_key b.res_key && text_eq a.action_norm b.action_norm))

-- The walk back over the last two seconds; the list is the walk, last event first.
unfoldable pub seen : List CleanEvent → CleanEvent → Bool
unfolding add64
seen [] e = false
seen (x ∷ before) e =
    let rest = seen before e in
    if ltb (add64 x.ts_ms 2000) e.ts_ms then false else if same_event x e then true else rest

-- The left end of the span that ends at the event.
unfoldable pub span_start : ℕ → ℕ → ℕ
span_start span ts_ms = if not (span == 0) && ltb span ts_ms then ts_ms - span else 0

unfoldable pub candidates_in : List AssetGroup → Text → ℕ → ℕ → List CleanEvent → List CleanEvent
unfolding match_asset_group
candidates_in groups ag lo hi [] = []
candidates_in groups ag lo hi (x ∷ events) =
    let rest = candidates_in groups ag lo hi events in
    if ltb x.ts_ms lo || ltb hi x.ts_ms
    then rest
    else if not (text_eq (match_asset_group groups x.res_key) ag)
    then rest
    else x ∷ rest

-- The candidates of an event: the last `chain_max_events` of its asset group and span.
unfoldable pub candidates : EngineConfig → Text → ℕ → List CleanEvent → List CleanEvent
unfolding candidates_in keep_last span_start
candidates cfg ag ts_ms events =
    keep_last cfg.chain_max_events
      (candidates_in cfg.asset_groups ag (span_start cfg.chain_span_ms ts_ms) ts_ms events)

abbrev ts_of : Option CleanEvent → ℕ
ts_of none = 0
ts_of (some e) = e.ts_ms

-- `cand[en].ts_ms - cand[b].ts_ms`.
unfoldable pub span_of : List CleanEvent → ℕ → ℕ → ℕ
span_of cand b en = (ts_of (get_elem? cand en) + 2 ^ 64 - ts_of (get_elem? cand b)) % 2 ^ 64

-- `best_rule`, `best_b`, `best_e` and `best_span`.
pub record Best : Type 0 where
  pub rule : Rule
  pub first : ℕ
  pub last : ℕ
  pub span : ℕ

unfoldable pub better : Option Best → Best → Option Best
better none b = some b
better (some old) b = if ltb b.span old.span then some b else some old

-- A rule that the chain looks at.
unfoldable pub applies : Text → Rule → Bool
applies ag r =
    (r.enabled && text_eq r.group_by (codes "asset_group"))
    && (text_eq r.asset_group (codes "*") || text_eq r.asset_group ag)

unfoldable pub tried : Rule → List CleanEvent → Option Best → Option (ℕ × ℕ) → Option Best
unfolding better span_of
tried r cand best none = best
tried r cand best (some (b, en)) =
    better best (record { rule = r; first = b; last = en; span = span_of cand b en })

-- The loop over the rules: the shortest span wins, the first of equal ones.
unfoldable pub best_of : Text → List CleanEvent → Option Best → List Rule → Option Best
unfolding applies tried minimal_match_window
best_of ag cand best [] = best
best_of ag cand best (r ∷ rules) =
    best_of ag cand (if applies ag r then tried r cand best (minimal_match_window r cand) else best)
      rules

unfoldable pub operators_in : List Text → List CleanEvent → List Text
unfolding push_unique
operators_in ops [] = ops
operators_in ops (e ∷ events) = operators_in (push_unique ops e.oper_id) events

unfoldable pub orders_in : List Text → List CleanEvent → List Text
unfolding add_order
orders_in orders [] = orders
orders_in orders (e ∷ events) = orders_in (add_order orders e.work_order_id) events

abbrev joined : List Text → Text
joined [] = []
joined (op ∷ ops) = op ++ (codes "," ++ joined ops)

unfoldable pub chain_key : Text → Text → List Text → ℕ → Text
chain_key rule_id ag ops start =
    codes "chain|"
    ++ (rule_id
        ++ (codes "|" ++ (ag ++ (codes "|" ++ (joined ops ++ (codes "|" ++ decimal start))))))

abbrev first_ms : List CleanEvent → ℕ
first_ms [] = 0
first_ms (e ∷ events) = e.ts_ms

-- The set of the events from `first` to `last`.
unfoldable pub chain_set : Text → List CleanEvent → Best → AggSet
unfolding operators_in orders_in chain_key
chain_set ag cand best =
    let events = drop best.first (take (best.last + 1) cand) in
    let ops = operators_in [] events in
    record {
      aggregate_key = chain_key best.rule.rule_id ag ops (first_ms events);
      asset_group = ag;
      window_kind = codes "chain";
      window_start_ms = first_ms events;
      window_end_ms = newest_ms events;
      operator_ids = ops;
      work_order_ids = orders_in [] events;
      events = events;
    }

unfoldable pub chain_report :
    Oracles → Clock → Engine → Text → List CleanEvent → Option Best → Engine
unfolding chain_set evaluate
chain_report o now st ag cand none = st
chain_report o now st ag cand (some best) =
    let set = chain_set ag cand best in
    if ltb (length set.operator_ids) 2 then st else evaluate o now st set false true

-- What follows the insertion of the event.
unfoldable pub chain_match : Oracles → Clock → Engine → CleanEvent → Engine
unfolding candidates best_of chain_report match_asset_group
chain_match o now st e =
    let ag = match_asset_group st.cfg.asset_groups e.res_key in
    let cand = candidates st.cfg ag e.ts_ms st.chain_events in
    if is_empty ag || ltb (length cand) 2
    then st
    else chain_report o now st ag cand (best_of ag cand none st.rules)

unfoldable pub chain_eval : Oracles → Clock → Engine → CleanEvent → Engine
unfolding seen append_event_ordered prune_chain chain_match rev_onto
chain_eval o now st e =
    let entered = record st { chain_events = append_event_ordered st.chain_events e } in
    if not st.cfg.chain_mode || (e.ts_ms == 0)
    then st
    else if seen (rev_onto st.chain_events []) e
    then st
    else chain_match o now (prune_chain now.ms entered) e
