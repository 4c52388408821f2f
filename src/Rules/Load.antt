-- ===== src/Rules/Load.antt =====
-- `RuleEngine::load_rules_string` and `RuleEngine::load_rules` (shared/src/detector/rule_engine.cpp).
-- The reader of YAML is an argument.
use audit_forwarder.Prelude.{
  ℕ, ◌+◌, pos, Bool, true, ◌||◌, any, not, Option, none, some, List, [], ◌∷◌, ◌++◌, is_empty, ◌==◌,
  Text, codes, if◌then◌else◌,
}
use audit_forwarder.Maps.{insert_key}
use audit_forwarder.Decimal.{decimal}
use audit_forwarder.Event.{severity_from_string}
use audit_forwarder.Config.{
  is_map, ConfigValue, Values, Fields, Floats, nil, cons, end, field, has, at, as_bool, as_string,
  as_list, as_map,
}
use audit_forwarder.Config.Numbers.{as_int}
use audit_forwarder.Config.Json.{ParseError, Parsed, ok, err, stuck}
use audit_forwarder.Config.Format.{Yaml, parse_minimal}
use audit_forwarder.Rules.{DetectorRule, RuleEngine}
use audit_forwarder.Rules.Match.{in_list}
use audit_forwarder.Rules.Inspect.{to_u64, cast_int}

-- The keys of `kMap`.
abbrev pub server_ops : List Text
server_ops =
    codes "execute"
    ∷ codes "process"
    ∷ codes "file"
    ∷ codes "network"
    ∷ codes "registry"
    ∷ codes "command_line"
    ∷ codes "auth"
    ∷ codes "login"
    ∷ codes "permission"
    ∷ codes "driver"
    ∷ codes "config"
    ∷ codes "update"
    ∷ []

-- The test of the iterator is the wrong way round: `none` is the read through the end iterator, and
-- an operation that is in the table stays as it is.
unfoldable pub server_op_to_category : Text → Option Text
unfolding in_list
server_op_to_category op = if in_list server_ops op then some op else none

-- `strchr(kSpecial, c)`, which also finds the zero at the end of its text.
unfoldable pub is_special : ℕ → Bool
unfolding any
is_special c = any (λ s. s == c) (codes "\\.^$|()[]{}*+?") || (c == 0)

unfoldable pub regex_escape_literal : Text → Text
unfolding is_special
regex_escape_literal [] = []
regex_escape_literal (c ∷ s) =
    let rest = regex_escape_literal s in if is_special c then b'\\' ∷ c ∷ rest else c ∷ rest

-- `for (const auto& c : ...) r.categories.push_back(c.as_string())`.
unfoldable pub texts_of : Floats → Values → List Text
unfolding as_string
texts_of fl nil = []
texts_of fl (cons v vs) = as_string fl v [] ∷ texts_of fl vs

-- `r.match[k] = val.as_string()` for every entry.
unfoldable pub exact_of : Floats → List (Text × Text) → Fields → List (Text × Text)
unfolding as_string insert_key
exact_of fl m end = m
exact_of fl m (field k v fs) = exact_of fl (insert_key m k (as_string fl v [])) fs

abbrev pub text_at : Floats → ConfigValue → Text → Text
text_at fl rv k = as_string fl (at rv k) []

abbrev pub list_at : Floats → ConfigValue → Text → List Text
list_at fl rv k = texts_of fl (as_list (at rv k))

-- The fields that both loaders read.
unfoldable pub native_rule : Floats → ConfigValue → DetectorRule
unfolding texts_of exact_of as_string as_bool as_int as_list as_map at
native_rule fl rv = record {
  id = text_at fl rv (codes "id");
  name = text_at fl rv (codes "name");
  description = text_at fl rv (codes "description");
  severity = severity_from_string (as_string fl (at rv (codes "severity")) (codes "warning"));
  enabled = as_bool (at rv (codes "enabled")) true;
  categories = list_at fl rv (codes "categories");
  actions = list_at fl rv (codes "actions");
  exact = exact_of fl [] (as_map (at rv (codes "match")));
  actor_match = list_at fl rv (codes "actor_match");
  path_match = list_at fl rv (codes "path_match");
  cmd_match = list_at fl rv (codes "cmd_match");
  threshold = cast_int (to_u64 (as_int fl (at rv (codes "threshold")) (pos 1)));
  window = as_int fl (at rv (codes "window_sec")) (pos 10);
  responses = list_at fl rv (codes "responses");
}

-- `.*` on both sides of the keyword.
unfoldable pub keyword_pattern : Text → Text
unfolding regex_escape_literal
keyword_pattern keyword = codes ".*" ++ (regex_escape_literal keyword ++ codes ".*")

unfoldable pub add_category : Text → DetectorRule → DetectorRule
unfolding in_list
add_category cat r =
    if is_empty cat || in_list r.categories cat
    then r
    else record r { categories = r.categories ++ cat ∷ [] }

abbrev pub with_category : Option Text → DetectorRule → Option DetectorRule
with_category none r = none
with_category (some cat) r = some (add_category cat r)

unfoldable pub add_operation : Text → DetectorRule → Option DetectorRule
unfolding server_op_to_category add_category
add_operation op r = if is_empty op then some r else with_category (server_op_to_category op) r

unfoldable pub add_keyword : Text → DetectorRule → DetectorRule
unfolding keyword_pattern
add_keyword keyword r = if is_empty keyword then r else record r {
  cmd_match = r.cmd_match ++ keyword_pattern keyword ∷ [];
  path_match = r.path_match ++ keyword_pattern keyword ∷ [];
}

-- `r.id`, made from the number of rules before it where there is none.
abbrev pub with_id : Text → ℕ → DetectorRule → DetectorRule
with_id prefix n r = if is_empty r.id then record r { id = prefix ++ decimal n } else r

abbrev pub with_alert : DetectorRule → DetectorRule
with_alert r = if is_empty r.responses then record r { responses = codes "alert" ∷ [] } else r

unfoldable pub finish_remote : ℕ → Text → DetectorRule → DetectorRule
unfolding add_keyword
finish_remote n keyword r = with_id (codes "remote-rule-") n (with_alert (add_keyword keyword r))

-- One rule of the server; `none` where the behaviour is undefined.
unfoldable pub remote_rule : Floats → ℕ → ConfigValue → Option DetectorRule
unfolding native_rule add_operation finish_remote as_string at
remote_rule fl n rv =
    elim (add_operation (text_at fl rv (codes "operation_type")) (native_rule fl rv)) [
      | none ↦ none
      | some r ↦ some (finish_remote n (text_at fl rv (codes "keyword")) r)
    ]

abbrev pub onto_rules :
    Option DetectorRule → Option (List DetectorRule) → Option (List DetectorRule)
onto_rules none rs = none
onto_rules (some r) none = none
onto_rules (some r) (some rs) = some (r ∷ rs)

unfoldable pub remote_rules : Floats → ℕ → Values → Option (List DetectorRule)
unfolding remote_rule
remote_rules fl n nil = some []
remote_rules fl n (cons rv vs) = onto_rules (remote_rule fl n rv) (remote_rules fl (n + 1) vs)

-- One rule of a file.
unfoldable pub file_rules : Floats → ℕ → Values → List DetectorRule
unfolding native_rule
file_rules fl n nil = []
file_rules fl n (cons rv vs) =
    with_id (codes "rule-") n (native_rule fl rv) ∷ file_rules fl (n + 1) vs

-- How a load ends.
pub data LoadResult : Type 0 where
  loaded no_file not_map no_rules out_of_fuel : LoadResult
  unreadable : ParseError → LoadResult

-- What a load comes to: a result and the engine, or undefined behaviour, of which nothing is known.
pub data Outcome : Type 0 where
  ended : LoadResult → RuleEngine → Outcome
  undefined : Outcome

-- The swap of the rules.
abbrev swapped : RuleEngine → List DetectorRule → RuleEngine
swapped e rs = record e { rules = rs; hits = [] }

abbrev pub swap_in : RuleEngine → Option (List DetectorRule) → Outcome
swap_in e none = undefined
swap_in e (some rs) = ended loaded (swapped e rs)

-- Behind the reader, for a text of the server.
unfoldable pub load_remote : Floats → RuleEngine → ConfigValue → Outcome
unfolding remote_rules as_list at has
load_remote fl e v =
    if not (is_map v)
    then ended not_map e
    else if not (has v (codes "rules"))
    then ended no_rules e
    else swap_in e (remote_rules fl 0 (as_list (at v (codes "rules"))))

-- Behind the reader, for a file.
unfoldable pub load_file : Floats → RuleEngine → ConfigValue → LoadResult × RuleEngine
unfolding file_rules as_list at has
load_file fl e v =
    if not (is_map v)
    then (not_map, e)
    else if not (has v (codes "rules"))
    then (no_rules, e)
    else (loaded, swapped e (file_rules fl 0 (as_list (at v (codes "rules")))))

abbrev pub load_parsed : Floats → RuleEngine → Parsed ConfigValue → Outcome
load_parsed fl e (err x) = ended (unreadable x) e
load_parsed fl e stuck = ended out_of_fuel e
load_parsed fl e (ok v rest) = load_remote fl e v

unfoldable pub load_rules_string : Floats → Yaml → RuleEngine → Text → Outcome
unfolding parse_minimal load_remote
load_rules_string fl yaml e content = load_parsed fl e (parse_minimal fl yaml content [])

abbrev load_parsed_file : Floats → RuleEngine → Parsed ConfigValue → LoadResult × RuleEngine
load_parsed_file fl e (err x) = (unreadable x, e)
load_parsed_file fl e stuck = (out_of_fuel, e)
load_parsed_file fl e (ok v rest) = load_file fl e v

-- `none` is a file that does not open.
unfoldable pub load_rules :
    Floats → Yaml → RuleEngine → Text → Option Text → LoadResult × RuleEngine
unfolding parse_minimal load_file
load_rules fl yaml e path none = (no_file, e)
load_rules fl yaml e path (some content) =
    load_parsed_file fl e (parse_minimal fl yaml content path)
