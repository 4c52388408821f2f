-- ===== src/Config/Format.antt =====
-- The choice of the format and the loaders of `Config` (shared/src/common/config.cpp). The reader of
-- YAML is an argument.
use audit_forwarder.Prelude.{
  ℕ, Bool, false, ◌||◌, ◌⊎◌, inl, inr, Option, none, some, [], ◌∷◌, ◌==◌, is_empty, Text, codes,
  text_eq, if◌then◌else◌,
}
use audit_forwarder.Text.{lower}
use audit_forwarder.Config.{ConfigValue, Floats, null}
use audit_forwarder.Config.Json.{
  ParseError, Parsed, ok, err, stuck, unsupported_format, parse_minimal_json,
}

abbrev later_first : ℕ → Text → (ℕ → Bool) → Option Text → Option Text
later_first c s test (some t) = some t
later_first c s test none = if test c then some s else none

-- What stands behind the last byte that passes a test: `find_last_of` and `substr`.
unfoldable pub behind_last : (ℕ → Bool) → Text → Option Text
behind_last test [] = none
behind_last test (c ∷ s) = later_first c s test (behind_last test s)

abbrev pub or_whole : Text → Option Text → Text
or_whole s none = s
or_whole s (some t) = t

abbrev is_slash : ℕ → Bool
is_slash c = (c == b'/') || (c == b'\\')

abbrev is_dot : ℕ → Bool
is_dot c = c == b'.'

-- `fmt` before the look at the content: the extension of a path, or the word itself.
unfoldable pub extension_of : Text → Text
unfolding behind_last lower
extension_of format =
    let name = or_whole (lower format) (behind_last is_slash (lower format)) in
    or_whole name (behind_last is_dot name)

unfoldable pub begins_json : Text → Bool
begins_json [] = false
begins_json (c ∷ s) = (c == b'{') || (c == b'[')

-- `fmt`.
unfoldable pub format_of : Text → Text → Text
unfolding extension_of begins_json
format_of content format =
    if is_empty (extension_of format)
    then (if begins_json content then codes "json" else codes "yaml")
    else extension_of format

abbrev pub Yaml : Type 0
Yaml = Text → ParseError ⊎ ConfigValue

abbrev pub from_yaml : ParseError ⊎ ConfigValue → Parsed ConfigValue
from_yaml (inl x) = err x
from_yaml (inr v) = ok v []

unfoldable pub parse_minimal : Floats → Yaml → Text → Text → Parsed ConfigValue
unfolding format_of parse_minimal_json
parse_minimal fl yaml content format =
    if text_eq (format_of content format) (codes "json")
    then parse_minimal_json fl content
    else if text_eq (format_of content format) (codes "yaml")
        || text_eq (format_of content format) (codes "yml")
    then from_yaml (yaml content)
    else err unsupported_format

-- The members of `Config`.
pub record Config : Type 0 where
  pub root : ConfigValue
  pub last_path : Text

-- How a load ends.
pub data LoadError : Type 0 where
  not_found : LoadError
  unreadable : ParseError → LoadError
  no_end : LoadError

abbrev pub keep_parsed : Config → Parsed ConfigValue → Option LoadError × Config
keep_parsed c (err x) = (some (unreadable x), c)
keep_parsed c stuck = (some no_end, c)
keep_parsed c (ok v rest) = (none, record c { root = v })

unfoldable pub load_from_string : Floats → Yaml → Config → Text → Text → Option LoadError × Config
unfolding parse_minimal
load_from_string fl yaml c content format = keep_parsed c (parse_minimal fl yaml content format)

abbrev pub or_empty_text : Option Text → Text
or_empty_text none = []
or_empty_text (some t) = t

-- `ext` of a path.
unfoldable pub path_extension : Text → Text
unfolding behind_last
path_extension path = or_empty_text (behind_last is_dot path)

-- `none` is a file that does not open.
unfoldable pub load_from_file :
    Floats → Yaml → Config → Text → Option Text → Option LoadError × Config
unfolding load_from_string path_extension
load_from_file fl yaml c path none = (some not_found, c)
load_from_file fl yaml c path (some content) =
    load_from_string fl yaml (record c { last_path = path }) content (path_extension path)

unfoldable pub clear_config : Config → Config
clear_config c = record { root = null; last_path = [] }
