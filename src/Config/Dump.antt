-- ===== src/Config/Dump.antt =====
-- `ConfigValue::dump_json` (shared/src/common/config.cpp).
use audit_forwarder.Prelude.{
  ℕ, zero, suc, ◌+◌, ◌/◌, ◌%◌, [], ◌∷◌, ◌++◌, ltb, ◌==◌, if◌then◌else◌, Text, codes,
}
use audit_forwarder.Hex.{hex_char}
use audit_forwarder.Config.{
  ConfigValue, Values, Fields, Floats, null, bool, int, double, string, list, map, nil, cons, end,
  field, int_text,
}

-- One byte inside of quotes. `%04x` of a byte below 32 has two zeros in front.
unfoldable pub dump_byte : ℕ → Text
unfolding hex_char
dump_byte c =
    if c == b'"'
    then b'\\' ∷ b'"' ∷ []
    else if c == b'\\'
    then b'\\' ∷ b'\\' ∷ []
    else if c == 8
    then b'\\' ∷ b'b' ∷ []
    else if c == 12
    then b'\\' ∷ b'f' ∷ []
    else if c == 10
    then b'\\' ∷ b'n' ∷ []
    else if c == 13
    then b'\\' ∷ b'r' ∷ []
    else if c == 9
    then b'\\' ∷ b't' ∷ []
    else if ltb c 32
    then b'\\' ∷ b'u' ∷ b'0' ∷ b'0' ∷ hex_char (c / 16) ∷ hex_char (c % 16) ∷ []
    else c ∷ []

unfoldable pub dump_bytes : Text → Text
unfolding dump_byte
dump_bytes [] = []
dump_bytes (c ∷ s) = dump_byte c ++ dump_bytes s

-- `std::string(indent * 2, ' ')`.
unfoldable pub spaces : ℕ → Text
spaces zero = []
spaces (suc n) = b' ' ∷ b' ' ∷ spaces n

abbrev newline : Text
newline = 10 ∷ []

-- The brackets round the items.
abbrev list_text : ℕ → Values → Text → Text
list_text indent nil items = codes "[]"
list_text indent (cons v vs) items = b'[' ∷ 10 ∷ (items ++ (spaces indent ++ b']' ∷ []))

abbrev map_text : ℕ → Fields → Text → Text
map_text indent end entries = codes "{}"
map_text indent (field k v fs) entries =
    b'{' ∷ 10 ∷ (entries ++ (newline ++ (spaces indent ++ b'}' ∷ [])))

-- `if (i < v.size() - 1) o << ','`.
unfoldable pub comma : Values → Text
comma nil = []
comma (cons v vs) = codes ","

unfoldable mutual
  unfolding dump_bytes spaces int_text comma

  pub dump_json : Floats → ℕ → ConfigValue → Text
  dump_json fl indent null = codes "null"
  dump_json fl indent (bool b) = if b then codes "true" else codes "false"
  dump_json fl indent (int n) = int_text n
  dump_json fl indent (double d) = fl.print d
  dump_json fl indent (string s) = b'"' ∷ (dump_bytes s ++ b'"' ∷ [])
  dump_json fl indent (list vs) = list_text indent vs (dump_items fl indent vs)
  dump_json fl indent (map fs) = map_text indent fs (dump_entries fl indent [] fs)

  -- The items, a line each.
  pub dump_items : Floats → ℕ → Values → Text
  dump_items fl indent nil = []
  dump_items fl indent (cons v vs) =
      spaces indent
      ++ (codes "  "
          ++ (dump_json fl (indent + 1) v ++ (comma vs ++ (newline ++ dump_items fl indent vs))))

  -- The entries with the separator in front of each; a key stands as it is.
  pub dump_entries : Floats → ℕ → Text → Fields → Text
  dump_entries fl indent sep end = []
  dump_entries fl indent sep (field k v fs) =
      sep
      ++ (spaces indent
          ++ (codes "  \""
              ++ (k
                  ++ (codes "\": "
                      ++ (dump_json fl (indent + 1) v
                          ++ dump_entries fl indent (b',' ∷ 10 ∷ []) fs)))))
