-- ===== src/Examples/Configs.antt =====
-- The theorems on configurations at concrete inputs.
use audit_forwarder.Prelude.{
  ◌≡◌, refl, inl, pos, true, some, [], ◌∷◌, ◌++◌, length, Text, codes, text_eq,
}
use audit_forwarder.Config.{
  ConfigValue, Fields, Floats, null, bool, string, map, end, field, find_field, as_string,
}
use audit_forwarder.Config.Dump.{dump_json}
use audit_forwarder.Config.Json.{bad_literal, ok, parse_json_string, parse_minimal_json}
use audit_forwarder.Config.Strings.{parse_json_string-dump_json}
use audit_forwarder.Config.Ends.{Ends}
use audit_forwarder.Config.Total.{parse_minimal_json-Ends}
use audit_forwarder.Config.Format.{Yaml}
use audit_forwarder.Config.Paths.{pieces, set_path, get_string, merge}
use audit_forwarder.Config.Paths.Stored.{CanSet, get_string-set_path}
use audit_forwarder.Config.Paths.Overlay.{NoRepeat, Distinct, Overlaid, merge-Overlaid}

-- Doubles that stand for their text.
abbrev pub text_floats : Floats
text_floats = record { reads = λ t. true; truncate = λ t. pos 0; print = λ t. t }

-- Takes no text.
abbrev pub no_yaml : Yaml
no_yaml = λ t. inl bad_literal

-- A quote, a backslash, a line feed and a control byte.
abbrev odd_text : Text
odd_text = b'"' ∷ b'\\' ∷ 10 ∷ 1 ∷ b'a' ∷ []

parse_json_string-dump_json_example :
    parse_json_string (dump_json text_floats 0 (string odd_text) ++ codes ", 1")
    ≡ ok odd_text (codes ", 1")
parse_json_string-dump_json_example =
    parse_json_string-dump_json text_floats 0 odd_text (codes ", 1")

parse_minimal_json-Ends_example :
    Ends
      (length (codes "{\"a\": [1, true]}"))
      (parse_minimal_json text_floats (codes "{\"a\": [1, true]}"))
parse_minimal_json-Ends_example = parse_minimal_json-Ends text_floats (codes "{\"a\": [1, true]}")

abbrev tree : ConfigValue
tree = map (field (codes "log") (map (field (codes "on") (bool true) end)) end)

get_string-set_path_example :
    get_string text_floats
      (set_path tree (codes "log.level") (string (codes "info")))
      (codes "log.level")
      []
    ≡ as_string text_floats (string (codes "info")) []
unfolding pieces CanSet find_field text_eq
get_string-set_path_example =
    get_string-set_path text_floats tree (string (codes "info")) (codes "log.level") [] tt
      (refl, (refl, tt))

abbrev older : Fields
older = field (codes "a") null (field (codes "b") (map (field (codes "x") null end)) end)

abbrev newer : Fields
newer = field (codes "b") (map (field (codes "y") (bool true) end)) (field (codes "c") null end)

merge-Overlaid_example :
    Overlaid (some (map older)) (some (map newer)) (some (merge (map older) (map newer)))
unfolding Distinct NoRepeat find_field text_eq
merge-Overlaid_example =
    merge-Overlaid older newer ((refl, (refl, tt)), (((refl, tt), (tt, tt)), (tt, tt)))
