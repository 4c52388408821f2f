-- ===== src/Collusion/Engine/Evaluate.antt =====
-- What becomes of a set of events: `evaluate_locked`, `update_profile_locked`,
-- `persist_risk_locked`, `eager_evaluate_locked` (server/src/collusion/collusion.cpp).
use audit_forwarder.Prelude.{
  ℕ, ◌-◌, ◌*◌, Bool, true, false, not, ◌&&◌, ◌||◌, Option, none, some, List, [], ◌∷◌, ◌++◌, length,
  drop, ltb, leb, ◌==◌, if◌then◌else◌, Text, codes, text_eq,
}
use audit_forwarder.Maps.{find_key, insert_key}
use audit_forwarder.Collusion.{CleanEvent, AggSet}
use audit_forwarder.Collusion.Sequence.{append_event_ordered}
use audit_forwarder.Collusion.Detect.{
  EngineConfig, ProfileSnapshot, ScoreNote, DetectionResult, Level, high, mid, low, no_level,
  long_window, emergency,
}
use audit_forwarder.Collusion.Detect.Profile.{pair_key}
use audit_forwarder.Collusion.Detect.Score.{detect}
use audit_forwarder.Collusion.Engine.{Clock, Oracles, RiskEvent, Alert, Engine, add64, mul64}

abbrev pub is_high : Level → Bool
is_high high = true
is_high mid = false
is_high low = false
is_high no_level = false

abbrev pub is_low : Level → Bool
is_low high = false
is_low mid = false
is_low low = true
is_low no_level = false

abbrev pub is_none : Level → Bool
is_none high = false
is_none mid = false
is_none low = false
is_none no_level = true

unfoldable pub count_of : List (Text × ℕ) → Text → ℕ
unfolding find_key
count_of m k = elim (find_key m k) [ none ↦ 0 | some n ↦ n ]

-- `m[k] += 1`.
unfoldable pub bump : List (Text × ℕ) → Text → List (Text × ℕ)
unfolding count_of insert_key
bump m k = insert_key m k (add64 (count_of m k) 1)

-- The inner loop: the operator with every later one.
unfoldable pub bump_pairs : List (Text × ℕ) → Text → List Text → List (Text × ℕ)
unfolding bump pair_key
bump_pairs m a [] = m
bump_pairs m a (b ∷ ops) = bump_pairs (bump m (pair_key a b)) a ops

unfoldable pub bump_asset :
    List (Text × List (Text × ℕ)) → Text → Text → List (Text × List (Text × ℕ))
unfolding find_key insert_key bump
bump_asset m op group =
    insert_key m op (bump (elim (find_key m op) [ none ↦ [] | some counts ↦ counts ]) group)

unfoldable pub profile_loop : ProfileSnapshot → Text → List Text → ProfileSnapshot
unfolding bump_pairs bump_asset
profile_loop p group [] = p
profile_loop p group (op ∷ ops) =
    profile_loop
      (record {
        pair_counts = bump_pairs p.pair_counts op ops;
        operator_assets = bump_asset p.operator_assets op group;
      })
      group ops

unfoldable pub update_profile : Engine → AggSet → Engine
unfolding profile_loop
update_profile st set =
    if st.cfg.profile_enabled
    then record st {
      profile = profile_loop st.profile set.asset_group set.operator_ids;
      profile_dirty = true;
    }
    else st

-- The events of the file that are not older than the cutoff.
unfoldable pub keep_recent : ℕ → List RiskEvent → List RiskEvent
keep_recent cutoff [] = []
keep_recent cutoff (r ∷ l) =
    let rest = keep_recent cutoff l in if ltb r.created_epoch cutoff then rest else r ∷ rest

abbrev pub max_stored : ℕ
max_stored = 5000

-- `erase(begin, begin + (size - limit))` where the size is above the limit.
unfoldable pub keep_last {ℓ} : {A : Type ℓ} → ℕ → List A → List A
keep_last limit l = if ltb limit (length l) then drop (length l - limit) l else l

unfoldable pub cutoff_epoch : Level → ℕ → ℕ
cutoff_epoch level now =
    let keep_sec : ℕ = if is_low level then 90 * 86400 else 180 * 86400 in
    if leb keep_sec now then now - keep_sec else 0

unfoldable pub persist_risk : List RiskEvent → RiskEvent → ℕ → List RiskEvent
unfolding keep_recent keep_last cutoff_epoch
persist_risk stored r now =
    keep_last max_stored (keep_recent (cutoff_epoch r.risk_level now) stored ++ r ∷ [])

unfoldable pub emergency_active : EngineConfig → ℕ → Bool
emergency_active cfg now_epoch =
    cfg.emergency_mode
    && ((cfg.emergency_until_epoch == 0) || leb now_epoch cfg.emergency_until_epoch)

-- `(level == "HIGH") ? "MID" : "LOW"`.
unfoldable pub one_down : Level → Level
one_down level = if is_high level then mid else low

abbrev pub with_note : DetectionResult → Level → ScoreNote → DetectionResult
with_note r level note = record r { level = level; score_notes = r.score_notes ++ note ∷ [] }

-- A long window is a weak lead: no more than a middle risk.
unfoldable pub long_capped : AggSet → DetectionResult → DetectionResult
long_capped set r =
    if text_eq set.window_kind (codes "long") && is_high r.level
    then with_note r mid long_window
    else r

unfoldable pub emergency_lowered : Bool → DetectionResult → DetectionResult
unfolding one_down
emergency_lowered active r =
    if active && not (is_low r.level) then with_note r (one_down r.level) emergency else r

-- The result with its level settled; `none` where it is dropped.
unfoldable pub settle : EngineConfig → ℕ → AggSet → Bool → DetectionResult → Option DetectionResult
unfolding emergency_active long_capped emergency_lowered
settle cfg now_epoch set eager r =
    if is_none r.level
    then none
    else if eager && is_low r.level
    then none
    else some (emergency_lowered (emergency_active cfg now_epoch) (long_capped set r))

unfoldable pub dedup_seconds : EngineConfig → AggSet → ℕ
dedup_seconds cfg set =
    if text_eq set.window_kind (codes "chain") && ltb cfg.alert_dedup_seconds 3600
    then 3600
    else cfg.alert_dedup_seconds

-- The last alert of the key is not long enough ago.
unfoldable pub suppressed : Engine → ℕ → AggSet → Bool
unfolding count_of dedup_seconds add64 mul64
suppressed st now_ms set =
    let last = count_of st.last_alert_epoch set.aggregate_key in
    not (last == 0) && ltb now_ms (add64 last (mul64 (dedup_seconds st.cfg set) 1000))

-- The events in time order. `std::sort` leaves the order of events of one time open; here they stay
-- in the order of the list.
unfoldable pub sort_by_time : List CleanEvent → List CleanEvent → List CleanEvent
unfolding append_event_ordered
sort_by_time acc [] = acc
sort_by_time acc (e ∷ events) = sort_by_time (append_event_ordered acc e) events

unfoldable pub risk_event : AggSet → DetectionResult → ℕ → RiskEvent
unfolding sort_by_time
risk_event set r now_epoch = record {
  created_epoch = now_epoch;
  window_kind = set.window_kind;
  asset_group = set.asset_group;
  aggregate_key = set.aggregate_key;
  window_start_ms = set.window_start_ms;
  window_end_ms = set.window_end_ms;
  risk_level = r.level;
  risk_score = r.total_score;
  rule_factor = r.rule_factor;
  profile_factor = r.profile_factor;
  ml_factor = r.ml_factor;
  graph_factor = r.graph_factor;
  matched_rules = r.hit_rules;
  operators = set.operator_ids;
  work_order_ids = set.work_order_ids;
  profile_notes = r.profile_notes;
  ml_notes = r.ml_notes;
  graph_notes = r.graph_notes;
  score_notes = r.score_notes;
  evidence_timeline = sort_by_time [] set.events;
}

unfoldable pub host_of : List CleanEvent → Text
host_of [] = codes "collusion"
host_of (e ∷ events) = e.server_id

abbrev first_or : Text → List Text → Text
first_or d [] = d
first_or d (x ∷ l) = x

abbrev pub severity_word : Level → Text
severity_word level = if is_high level then codes "critical" else codes "warning"

-- High and middle risks are pushed, a low one is only kept.
unfoldable pub pushed : Level → Alert → List Alert → List Alert
pushed level a alerts = if is_low level || is_none level then alerts else alerts ++ a ∷ []

unfoldable pub store : Engine → Clock → AggSet → DetectionResult → Engine
unfolding risk_event persist_risk host_of pushed insert_key
store st now set r =
    let risk = risk_event set r now.epoch in
    let alert : Alert = record {
      host_id = host_of risk.evidence_timeline;
      severity = severity_word r.level;
      rule_id = first_or (codes "profile_anomaly") r.hit_rules;
    } in
    record st {
      last_alert_epoch =
          if is_low r.level
          then st.last_alert_epoch
          else insert_key st.last_alert_epoch set.aggregate_key now.ms;
      risk_events = persist_risk st.risk_events risk now.epoch;
      alerts = pushed r.level alert st.alerts;
    }

unfoldable pub report : Engine → Clock → AggSet → Option DetectionResult → Engine
unfolding suppressed store
report st now set none = st
report st now set (some r) =
    if not (is_low r.level) && suppressed st now.ms set then st else store st now set r

-- The engine with its profile brought up to date, where that is asked for.
unfoldable pub learned : Bool → Engine → AggSet → Engine
unfolding update_profile
learned with_profile st set = if with_profile then update_profile st set else st

-- What the detection comes to for a set.
unfoldable pub verdict : Oracles → Clock → Engine → AggSet → Bool → Option DetectionResult
unfolding settle detect
verdict o now st set eager =
    settle st.cfg now.epoch set eager
      (detect set st.cfg st.rules st.profile st.workorders now.epoch (o.ml set) (o.graph set))

unfoldable pub evaluate : Oracles → Clock → Engine → AggSet → Bool → Bool → Engine
unfolding learned verdict report
evaluate o now st set with_profile eager =
    if ltb (length set.operator_ids) 2
    then st
    else report (learned with_profile st set) now set (verdict o now st set eager)

-- The number of events at which the set was evaluated last.
unfoldable pub same_count : List (Text × ℕ) → AggSet → Bool
unfolding find_key
same_count counts set = elim (find_key counts set.aggregate_key) [
  | none ↦ false
  | some n ↦ n == length set.events
]

unfoldable pub eager_evaluate : Oracles → Clock → Engine → AggSet → Engine
unfolding same_count insert_key evaluate
eager_evaluate o now st set =
    let counted = record st {
      eager_last_count = insert_key st.eager_last_count set.aggregate_key (length set.events);
    } in
    if not st.cfg.eager_eval
      || ltb (length set.operator_ids) 2
      || same_count st.eager_last_count set
    then st
    else evaluate o now counted set false true
