-- ===== src/Examples/Rulesets.antt =====
-- The theorems on the client's rule engine at concrete inputs.
use audit_forwarder.Prelude.{
  ◌≡◌, refl, arith, ℕ, pos, ◌+◌, ◌-◌, ◌*◌, ◌/◌, Bool, true, false, not, any, some, [], ◌∷◌, leb,
  ltb, Text, codes, text_eq,
}
use audit_forwarder.Text.{contains}
use audit_forwarder.Decimal.{decimal}
use audit_forwarder.Event.{Severity, severity_from_string}
use audit_forwarder.Config.{ConfigValue, string, map, end, field}
use audit_forwarder.Rules.{DetectorRule, RuleEngine}
use audit_forwarder.Rules.Behavior.{Doubles}
use audit_forwarder.Rules.Match.{matches_rule}
use audit_forwarder.Rules.Inspect.{inspect, drops_event}
use audit_forwarder.Rules.Load.{regex_escape_literal, remote_rule}
use audit_forwarder.Rules.Window.{AscendingWithin, in_window, track_all, track_all_lem}
use audit_forwarder.Rules.Kept.{Unchanged, inspect-Unchanged}
use audit_forwarder.Rules.Verdict.{matching, responses_to, inspect-verdict}
use audit_forwarder.Rules.Escaped.{literal_text, literal_text-regex_escape}
use audit_forwarder.Rules.Renamed.{remote_rule-renamed}
use audit_forwarder.Examples.{delete_event}
use audit_forwarder.Examples.Configs.{text_floats}

-- A pattern is found where it stands in the text.
abbrev plain_search : Text → Text → Bool
plain_search p s = contains s p

-- Whole numbers in place of doubles.
abbrev whole_doubles : Doubles
whole_doubles = record {
  Double = ℕ;
  of_nat = λ n. n;
  add = λ a b. a + b;
  sub = λ a b. a - b;
  mul = λ a b. a * b;
  div = λ a b. a / b;
  sqrt = λ a. a;
  abs = λ a. a;
  le = λ a b. leb a b;
  lt = λ a b. ltb a b;
}

-- Ends every process whose name has `rm` in it and deletes.
abbrev kill_rule : DetectorRule
kill_rule = record {
  id = codes "r1";
  name = [];
  description = [];
  severity = Severity.critical;
  enabled = true;
  categories = codes "file" ∷ [];
  actions = codes "delete" ∷ [];
  exact = (codes "actor.user", codes "op") ∷ [];
  actor_match = codes "rm" ∷ [];
  path_match = [];
  cmd_match = [];
  threshold = pos 1;
  window = pos 10;
  responses = codes "alert" ∷ codes "kill" ∷ [];
}

abbrev engine : RuleEngine
engine = record { rules = kill_rule ∷ []; running = true; started = true; hits = []; samples = [] }

inspect-verdict_example :
    ((inspect plain_search whole_doubles engine delete_event).0.keep
      ≡ not (any drops_event (matching plain_search delete_event (kill_rule ∷ []))))
    × ((inspect plain_search whole_doubles engine delete_event).0.effects
        ≡ responses_to delete_event (matching plain_search delete_event (kill_rule ∷ [])))
inspect-verdict_example =
    inspect-verdict plain_search whole_doubles engine delete_event refl refl (refl, tt)

inspect-Unchanged_example :
    Unchanged (inspect plain_search whole_doubles engine delete_event).0.event delete_event
inspect-Unchanged_example = inspect-Unchanged plain_search whole_doubles engine delete_event

track_all_lem_example :
    track_all 10 [] (100 ∷ 105 ∷ 112 ∷ []) ≡ in_window 10 112 (100 ∷ 105 ∷ 112 ∷ [])
unfolding AscendingWithin
track_all_lem_example =
    track_all_lem 10 112 (100 ∷ 105 ∷ 112 ∷ []) (omega arith)
      (omega arith, (omega arith, (omega arith, omega arith)))

literal_text-regex_escape_example :
    literal_text (regex_escape_literal (codes "a.b*")) ≡ some (codes "a.b*")
literal_text-regex_escape_example = literal_text-regex_escape (codes "a.b*")

abbrev sent : Text
sent = codes "{\"rules\": [{\"operation_type\": \"file\", \"keyword\": \"rm\"}]}"

-- Its rule for logins.
abbrev login_value : ConfigValue
login_value = map (field (codes "operation_type") (string (codes "login")) end)

abbrev login_rule : DetectorRule
login_rule = record {
  id = codes "remote-rule-0";
  name = [];
  description = [];
  severity = Severity.warning;
  enabled = true;
  categories = codes "login" ∷ [];
  actions = [];
  exact = [];
  actor_match = [];
  path_match = [];
  cmd_match = [];
  threshold = pos 1;
  window = pos 10;
  responses = codes "alert" ∷ [];
}

remote_rule-renamed_example : matches_rule plain_search login_rule delete_event ≡ false
unfolding remote_rule text_eq decimal severity_from_string
remote_rule-renamed_example =
    remote_rule-renamed plain_search text_floats 0 login_value login_rule delete_event refl refl
      refl
