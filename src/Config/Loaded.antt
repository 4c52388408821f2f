-- ===== src/Config/Loaded.antt =====
-- A load that fails.
use audit_forwarder.Prelude.{
  ◌≡◌, refl, ◌||◌, ◌⊎◌, inl, inr, Option, none, some, Bool-cases, length, Text, codes, text_eq,
}
use audit_forwarder.Config.{ConfigValue, Floats}
use audit_forwarder.Config.Json.{ParseError, Parsed, ok, err, stuck}
use audit_forwarder.Config.Ends.{Ends}
use audit_forwarder.Config.Total.{parse_minimal_json-Ends}
use audit_forwarder.Config.Format.{
  Yaml, from_yaml, format_of, parse_minimal, Config, LoadError, not_found, unreadable, no_end,
  keep_parsed, load_from_string, load_from_file, path_extension,
}

-- Some text is left, or there is an error; the fuel is not used up.
abbrev pub Over : Parsed ConfigValue → Type 0
Over (ok v rest) = Unit
Over (err x) = Unit
Over stuck = ⊥

Ends-Over : (content : Text) (p : Parsed ConfigValue) → Ends (length content) p → Over p
unfolding Ends
Ends-Over content (ok v rest) h = tt
Ends-Over content (err x) h = tt
Ends-Over content stuck h = h

from_yaml-Over : (o : ParseError ⊎ ConfigValue) → Over (from_yaml o)
from_yaml-Over (inl x) = tt
from_yaml-Over (inr v) = tt

pub parse_minimal-Over :
    (fl : Floats) (yaml : Yaml) (content format : Text)
    → Over (parse_minimal fl yaml content format)
unfolding parse_minimal
parse_minimal-Over fl yaml content format =
    elim (Bool-cases (text_eq (format_of content format) (codes "json"))) [
      | inl y ↦ rw y (Ends-Over content _ (parse_minimal_json-Ends fl content))
      | inr k ↦
          elim (Bool-cases (
            text_eq (format_of content format) (codes "yaml")
            || text_eq (format_of content format) (codes "yml"))) [
              | inl z ↦ rw (k, z) (from_yaml-Over (yaml content))
              | inr z ↦ rw (k, z) tt
            ]
    ]

-- How a load leaves the configuration: with an error, at its old root; it does not go on for ever.
pub Ended : Config → Option LoadError × Config → Type 0
Ended c (none, c') = Unit
Ended c (some not_found, c') = c' ≡ c
Ended c (some (unreadable x), c') = c'.root ≡ c.root
Ended c (some no_end, c') = ⊥

-- Whatever a file holds and whatever its path is, loading it comes to an end, and a load that fails
-- leaves the root of the configuration as it was; a file that does not open leaves the path too.
pub load_from_file-Ended :
    (fl : Floats) (yaml : Yaml) (c : Config) (path : Text) (file : Option Text)
    → Ended c (load_from_file fl yaml c path file)
unfolding load_from_file load_from_string Ended
load_from_file-Ended fl yaml c path none = refl
load_from_file-Ended fl yaml c path (some content) =
    go (parse_minimal fl yaml content (path_extension path))
      (parse_minimal-Over fl yaml content (path_extension path))
  where
    go : (p : Parsed ConfigValue) → Over p → Ended c (keep_parsed (record c { last_path = path }) p)
    go (ok v rest) h = tt
    go (err x) h = refl
    go stuck h = absurd h
