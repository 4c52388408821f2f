-- ===== src/Collusion/Detect/Rules.antt =====
-- The rule engine in `detect` (server/src/collusion/collusion.cpp).
use audit_forwarder.Prelude.{
  ℕ, ◌-◌, ◌/◌, ◌*◌, ◌%◌, ◌^◌, ℤ, pos, negsuc, ◌+ℤ◌, ◌-ℤ◌, ◌*ℤ◌, ltb_ℤ, min_ℤ, max_ℤ, Bool, true,
  false, not, ◌&&◌, List, [], ◌∷◌, ◌++◌, length, last_or, ltb, if◌then◌else◌, Text, codes, text_eq,
}
use audit_forwarder.Collusion.{Rule, AggSet, CleanEvent}
use audit_forwarder.Collusion.Sequence.{is_subsequence}
use audit_forwarder.Collusion.Detect.{EngineConfig, ScoreNote, long_span}

-- `distinct_op_count()`; a size is below 2^31.
unfoldable pub distinct_op_count : AggSet → ℕ
distinct_op_count set = length set.operator_ids

-- The guards of the loop: every `continue` is a `false`.
unfoldable pub rule_hit : AggSet → Rule → Bool
unfolding distinct_op_count
rule_hit set r =
    if not r.enabled
    then false
    else if not (text_eq r.group_by (codes "asset_group"))
    then false
    else if not (text_eq r.asset_group (codes "*")) && not (text_eq r.asset_group set.asset_group)
    then false
    else if ltb_ℤ (pos (distinct_op_count set)) r.min_operator_cnt
    then false
    else is_subsequence r.sequence set.events

-- `first_hit != nullptr`, the base score of the first hit, the sum of the others and the names.
pub record Hits : Type 0 where
  pub first_hit : Bool
  pub rule_factor : ℤ
  pub extra : ℤ
  pub hit_rules : List Text

unfoldable pub add_hit : Hits → Rule → Hits
add_hit h r =
    let names = h.hit_rules ++ ((r.rule_id ++ (codes " " ++ r.name)) ∷ []) in
    if h.first_hit
    then record h { extra = h.extra +ℤ r.base_score; hit_rules = names }
    else record h {
      first_hit = true;
      rule_factor = h.rule_factor +ℤ r.base_score;
      hit_rules = names;
    }

unfoldable pub rule_loop : AggSet → List Rule → Hits → Hits
unfolding rule_hit add_hit
rule_loop set [] h = h
rule_loop set (r ∷ rules) h = rule_loop set rules (if rule_hit set r then add_hit h r else h)

-- `static_cast<int>` of an unsigned number: the low 32 bits, with a sign.
unfoldable pub to_int : ℕ → ℤ
to_int n = let k = n % 2 ^ 32 in if ltb k (2 ^ 31) then pos k else negsuc (2 ^ 32 - k - 1)

-- The milliseconds from the first event to the last, 0 where the last is not later.
unfoldable pub span_ms : List CleanEvent → ℕ
span_ms [] = 0
span_ms (e ∷ events) = (last_or e events).ts_ms - e.ts_ms

-- The points that a long span takes off, 0 where it takes none.
unfoldable pub span_minus : EngineConfig → List CleanEvent → ℤ
unfolding span_ms to_int
span_minus cfg events =
    let span = span_ms events in
    if ltb 0 span
      && (ltb 0 cfg.span_decay_start_ms
          && (ltb cfg.span_decay_start_ms span && ltb_ℤ (pos 0) cfg.span_decay_per_hour))
    then min_ℤ (to_int ((span - cfg.span_decay_start_ms) / 3600000) *ℤ cfg.span_decay_per_hour)
        cfg.span_decay_max
    else pos 0

pub record RuleOutcome : Type 0 where
  pub rule_factor : ℤ
  pub hit_rules : List Text
  pub score_notes : List ScoreNote

-- The points for the first rule, the others up to a limit, and the operators beyond the second.
unfoldable pub base_factor : EngineConfig → AggSet → Hits → ℤ
unfolding distinct_op_count
base_factor cfg set h =
    let with_extra = h.rule_factor +ℤ min_ℤ h.extra cfg.rule_max_factor in
    if ltb 2 (distinct_op_count set)
    then with_extra +ℤ min_ℤ (pos ((distinct_op_count set - 2) * 5)) (pos 20)
    else with_extra

unfoldable pub rule_engine : EngineConfig → AggSet → List Rule → RuleOutcome
unfolding rule_loop base_factor span_minus span_ms
rule_engine cfg set rules =
    let h =
      rule_loop set rules
        (record { first_hit = false; rule_factor = pos 0; extra = pos 0; hit_rules = [] }) in
    let factor = base_factor cfg set h in
    let minus = span_minus cfg set.events in
    let decayed = ltb_ℤ (pos 0) minus in
    record {
      rule_factor =
          if not h.first_hit
          then h.rule_factor
          else if decayed
          then max_ℤ (factor -ℤ minus) (pos 0)
          else factor;
      hit_rules = h.hit_rules;
      score_notes =
          if h.first_hit && decayed then long_span (span_ms set.events / 60000) minus ∷ [] else [];
    }
