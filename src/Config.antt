-- ===== src/Config.antt =====
-- `ConfigValue` (include/auditforwarder/config.h, shared/src/common/config.cpp): a value read from a
-- configuration. A double is held as the text that it is read from, and what is made of it is a
-- parameter. The entries of a map stand in the order of their keys.
pub mod Numbers
pub mod Json
pub mod Dump
pub mod Strings
pub mod Ends
pub mod Total
pub mod Paths
pub mod Format
pub mod Loaded
use audit_forwarder.Prelude.{
  ℕ, ℤ, pos, negsuc, suc, Bool, true, false, not, ◌||◌, Option, none, some, List, [], ◌∷◌, ◌++◌,
  ◌==◌, if◌then◌else◌, Text, codes, text_eq,
}
use audit_forwarder.Text.{lower, text_lt}
use audit_forwarder.Decimal.{decimal}

mutual
  pub data ConfigValue : Type 0 where
    null : ConfigValue
    bool : Bool → ConfigValue
    int : ℤ → ConfigValue
    double : Text → ConfigValue
    string : Text → ConfigValue
    list : Values → ConfigValue
    map : Fields → ConfigValue

  pub data Values : Type 0 where
    nil : Values
    cons : ConfigValue → Values → Values

  pub data Fields : Type 0 where
    end : Fields
    field : Text → ConfigValue → Fields → Fields

-- `std::to_string(long long)`.
unfoldable pub int_text : ℤ → Text
int_text (pos n) = decimal n
int_text (negsuc n) = b'-' ∷ decimal (suc n)

-- `std::map::find`.
unfoldable pub find_field : Fields → Text → Option ConfigValue
find_field end k = none
find_field (field k' v fs) k = let rest = find_field fs k in if text_eq k' k then some v else rest

-- `m[k] = v`.
unfoldable pub put_field : Fields → Text → ConfigValue → Fields
put_field end k v = field k v end
put_field (field k' w fs) k v =
    let rest = put_field fs k v in
    if text_eq k' k
    then field k v fs
    else if text_lt k k'
    then field k v (field k' w fs)
    else field k' w rest

-- `m.emplace(k, v)`: a key that is there keeps its value.
unfoldable pub emplace_field : Fields → Text → ConfigValue → Fields
emplace_field end k v = field k v end
emplace_field (field k' w fs) k v =
    let rest = emplace_field fs k v in
    if text_eq k' k
    then field k' w fs
    else if text_lt k k'
    then field k v (field k' w fs)
    else field k' w rest

abbrev pub or_null : Option ConfigValue → ConfigValue
or_null none = null
or_null (some v) = v

abbrev pub is_some {ℓ} : {A : Type ℓ} → Option A → Bool
is_some none = false
is_some (some a) = true

unfoldable pub has : ConfigValue → Text → Bool
unfolding find_field
has (map fs) k = is_some (find_field fs k)
has null k = false
has (bool b) k = false
has (int n) k = false
has (double d) k = false
has (string s) k = false
has (list vs) k = false

unfoldable pub at : ConfigValue → Text → ConfigValue
unfolding find_field
at (map fs) k = or_null (find_field fs k)
at null k = null
at (bool b) k = null
at (int n) k = null
at (double d) k = null
at (string s) k = null
at (list vs) k = null

unfoldable pub one_of : Text → List Text → Bool
one_of s [] = false
one_of s (w ∷ ws) = text_eq s w || one_of s ws

abbrev yes_words : List Text
yes_words = codes "true" ∷ codes "yes" ∷ codes "on" ∷ codes "1" ∷ []

abbrev no_words : List Text
no_words = codes "false" ∷ codes "no" ∷ codes "off" ∷ codes "0" ∷ []

abbrev is_zero : ℤ → Bool
is_zero (pos n) = n == 0
is_zero (negsuc n) = false

unfoldable pub as_bool : ConfigValue → Bool → Bool
unfolding lower one_of
as_bool (bool b) def = b
as_bool (int n) def = not (is_zero n)
as_bool (string s) def =
    if one_of (lower s) yes_words then true else if one_of (lower s) no_words then false else def
as_bool null def = def
as_bool (double d) def = def
as_bool (list vs) def = def
as_bool (map fs) def = def

-- What the standard library makes of a double.
pub record Floats : Type 0 where
  pub reads : Text → Bool
  pub truncate : Text → ℤ
  pub print : Text → Text

unfoldable pub as_string : Floats → ConfigValue → Text → Text
unfolding int_text
as_string fl (string s) def = s
as_string fl (int n) def = int_text n
as_string fl (double d) def = fl.print d
as_string fl (bool b) def = if b then codes "true" else codes "false"
as_string fl null def = def
as_string fl (list vs) def = def
as_string fl (map fs) def = def

unfoldable pub as_list : ConfigValue → Values
as_list (list vs) = vs
as_list null = nil
as_list (bool b) = nil
as_list (int n) = nil
as_list (double d) = nil
as_list (string s) = nil
as_list (map fs) = nil

unfoldable pub as_map : ConfigValue → Fields
as_map (map fs) = fs
as_map null = end
as_map (bool b) = end
as_map (int n) = end
as_map (double d) = end
as_map (string s) = end
as_map (list vs) = end

abbrev pub is_map : ConfigValue → Bool
is_map (map fs) = true
is_map null = false
is_map (bool b) = false
is_map (int n) = false
is_map (double d) = false
is_map (string s) = false
is_map (list vs) = false
