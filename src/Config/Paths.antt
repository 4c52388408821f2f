-- ===== src/Config/Paths.antt =====
-- Paths with dots and overlays: `ConfigValue::set_path`, `ConfigValue::merge` and the getters of
-- `Config` (shared/src/common/config.cpp).
pub mod Lookup
pub mod Stored
pub mod Overlay
use audit_forwarder.Prelude.{
  ℕ, ℤ, Bool, true, false, Option, none, some, List, [], ◌∷◌, ◌==◌, if◌then◌else◌, Text,
}
use audit_forwarder.Config.{
  ConfigValue, Values, Fields, Floats, null, bool, int, double, string, list, map, end, field,
  find_field, put_field, emplace_field, is_map, or_null, has, at, as_bool, as_string, as_map,
}
use audit_forwarder.Config.Numbers.{as_int}

-- A byte in front of the first piece.
abbrev onto_first : ℕ → List Text → List Text
onto_first c [] = (c ∷ []) ∷ []
onto_first c (p ∷ ps) = (c ∷ p) ∷ ps

-- The pieces between the dots that `path.find('.')` finds one after the other.
unfoldable pub pieces : Text → List Text
pieces [] = [] ∷ []
pieces (c ∷ s) = let rest = pieces s in if c == b'.' then [] ∷ rest else onto_first c rest

-- A null becomes an empty map; what is no map stays as it is.
unfoldable pub set_pieces : ConfigValue → List Text → ConfigValue → ConfigValue
unfolding find_field put_field
set_pieces cur [] v = cur
set_pieces null (k ∷ []) v = map (put_field end k v)
set_pieces null (k ∷ j ∷ ks) v = map (put_field end k (set_pieces null (j ∷ ks) v))
set_pieces (map fs) (k ∷ []) v = map (put_field fs k v)
set_pieces (map fs) (k ∷ j ∷ ks) v =
    map (put_field fs k (set_pieces (or_null (find_field fs k)) (j ∷ ks) v))
set_pieces (bool b) (k ∷ ks) v = bool b
set_pieces (int n) (k ∷ ks) v = int n
set_pieces (double d) (k ∷ ks) v = double d
set_pieces (string s) (k ∷ ks) v = string s
set_pieces (list vs) (k ∷ ks) v = list vs

unfoldable pub set_path : ConfigValue → Text → ConfigValue → ConfigValue
unfolding set_pieces pieces
set_path cur path v = set_pieces cur (pieces path) v

-- The loop of the getters, which steps over an empty piece; `none` where a key is missing.
unfoldable pub walk : ConfigValue → List Text → Option ConfigValue
unfolding has at
walk cur [] = some cur
walk cur ([] ∷ ks) = walk cur ks
walk cur ((c ∷ k) ∷ ks) =
    let onward = walk (at cur (c ∷ k)) ks in if has cur (c ∷ k) then onward else none

unfoldable pub get_bool : ConfigValue → Text → Bool → Bool
unfolding walk pieces as_bool
get_bool root path def = elim (walk root (pieces path)) [ none ↦ def | some v ↦ as_bool v def ]

unfoldable pub get_int : Floats → ConfigValue → Text → ℤ → ℤ
unfolding walk pieces as_int
get_int fl root path def = elim (walk root (pieces path)) [ none ↦ def | some v ↦ as_int fl v def ]

unfoldable pub get_string : Floats → ConfigValue → Text → Text → Text
unfolding walk pieces as_string
get_string fl root path def = elim (walk root (pieces path)) [
  | none ↦ def
  | some v ↦ as_string fl v def
]

-- One entry of the other map, with what two values make that are both there.
unfoldable pub merge_entry :
    Fields → Option ConfigValue → Text → ConfigValue → (ConfigValue → ConfigValue) → Fields
unfolding emplace_field put_field
merge_entry dst none k v over = emplace_field dst k v
merge_entry dst (some w) k v over = put_field dst k (over w)

unfoldable mutual
  unfolding find_field as_map merge_entry

  -- What an entry becomes under a newer value: two maps are merged.
  pub merged : ConfigValue → ConfigValue → ConfigValue
  merged w (map fs) = if is_map w then map (merge_fields (as_map w) fs) else map fs
  merged w null = null
  merged w (bool b) = bool b
  merged w (int n) = int n
  merged w (double d) = double d
  merged w (string s) = string s
  merged w (list vs) = list vs

  -- The loop over the entries of the other map.
  pub merge_fields : Fields → Fields → Fields
  merge_fields dst end = dst
  merge_fields dst (field k v fs) =
      merge_fields (merge_entry dst (find_field dst k) k v (λ w. merged w v)) fs

unfoldable pub merge : ConfigValue → ConfigValue → ConfigValue
unfolding merge_fields
merge null (map fs) = map fs
merge (map ws) (map fs) = map (merge_fields ws fs)
merge dst other = dst
