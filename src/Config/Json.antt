-- ===== src/Config/Json.antt =====
-- The JSON reader (shared/src/common/config_parser.cpp). The cursor is the text that is left.
use audit_forwarder.Prelude.{
  ℕ, zero, suc, ◌+◌, ◌-◌, ◌*◌, ◌/◌, ◌%◌, Bool, true, false, ◌&&◌, ◌||◌, Option, none, some, [], ◌∷◌,
  ◌++◌, ℤ, any, drop, length, leb, ltb, ◌==◌, is_empty, if◌then◌else◌, Text, codes,
}
use audit_forwarder.Text.{starts_with}
use audit_forwarder.Config.{
  ConfigValue, Values, Fields, Floats, null, bool, int, double, string, list, map, nil, cons, end,
  emplace_field,
}
use audit_forwarder.Config.Numbers.{is_digit, stoll}

-- The messages of the errors.
pub data ParseError : Type 0 where
  expected_string bad_unicode unterminated_string bad_number bad_literal expected_bracket
        expected_key expected_colon expected_brace unexpected_eof unsupported_format :
      ParseError

-- A value and the text behind it, or an error; `stuck` is the end of the fuel.
pub data Parsed (A : Type 0) : Type 0 where
  ok : A → Text → Parsed A
  err : ParseError → Parsed A
  stuck : Parsed A

unfoldable pub is_blank : ℕ → Bool
is_blank c = (c == b' ') || ((c == 9) || ((c == 10) || (c == 13)))

unfoldable pub skip_ws : Text → Text
unfolding is_blank
skip_ws [] = []
skip_ws (c ∷ s) = let rest = skip_ws s in if is_blank c then rest else c ∷ s

-- The value of a hexadecimal digit.
unfoldable pub hex_value : ℕ → Option ℕ
hex_value h =
    if leb b'0' h && leb h b'9'
    then some (h - b'0')
    else if leb b'a' h && leb h b'f'
    then some (h - b'a' + 10)
    else if leb b'A' h && leb h b'F'
    then some (h - b'A' + 10)
    else none

-- The bytes of a code point below 65536.
unfoldable pub utf8 : ℕ → Text
utf8 cp =
    if ltb cp 0x80
    then cp ∷ []
    else if ltb cp 0x800
    then (0xC0 + cp / 64) ∷ (0x80 + cp % 64) ∷ []
    else (0xE0 + cp / 4096) ∷ (0x80 + cp / 64 % 64) ∷ (0x80 + cp % 64) ∷ []

-- What the byte behind a backslash stands for, `u` apart.
unfoldable pub simple_escape : ℕ → ℕ
simple_escape c =
    if c == b'b'
    then 8
    else if c == b'f'
    then 12
    else if c == b'n'
    then 10
    else if c == b'r'
    then 13
    else if c == b't'
    then 9
    else c

-- Where the loop of `parse_json_string` stands: between bytes, behind a backslash, or behind the
-- letter u with some digits to come and the number that was read.
pub data Mode : Type 0 where
  plain : Mode
  escaped : Mode
  unicode : ℕ → ℕ → Mode

-- Behind one more digit.
unfoldable pub after_digit : Text → ℕ → ℕ → Text × Mode
unfolding utf8
after_digit out zero cp = (out ++ utf8 cp, plain)
after_digit out (suc n) cp = (out, unicode n cp)

-- The loop, a byte at a time: `none` as digit is an error.
unfoldable pub scan_string : Mode → Text → Text → Parsed Text
unfolding hex_value simple_escape after_digit
scan_string plain out [] = err unterminated_string
scan_string escaped out [] = err unterminated_string
scan_string (unicode n cp) out [] = err bad_unicode
scan_string plain out (c ∷ s) =
    let go = scan_string plain (out ++ c ∷ []) s in
    let esc = scan_string escaped out s in
    if c == b'"' then ok out s else if c == b'\\' then esc else go
scan_string escaped out (c ∷ s) =
    let digits = scan_string (unicode 3 0) out s in
    let go = scan_string plain (out ++ simple_escape c ∷ []) s in if c == b'u' then digits else go
scan_string (unicode n cp) out (c ∷ s) = elim (hex_value c) [
  | none ↦ err bad_unicode
  | some h ↦ scan_string (after_digit out n (cp * 16 + h)).1 (after_digit out n (cp * 16 + h)).0 s
]

unfoldable pub string_at : Text → Parsed Text
unfolding scan_string
string_at [] = err expected_string
string_at (c ∷ s) = if c == b'"' then scan_string plain [] s else err expected_string

unfoldable pub parse_json_string : Text → Parsed Text
unfolding skip_ws string_at
parse_json_string s = string_at (skip_ws s)

unfoldable pub number_char : ℕ → Bool
unfolding is_digit
number_char c =
    is_digit c || ((c == b'.') || ((c == b'e') || ((c == b'E') || ((c == b'-') || (c == b'+')))))

-- The bytes of a number, with the sign in front, and what follows them.
unfoldable pub number_span : Text → Text × Text
unfolding number_char
number_span [] = ([], [])
number_span (c ∷ s) =
    let rest = number_span s in if number_char c then (c ∷ rest.0, rest.1) else ([], c ∷ s)

unfoldable pub fraction_char : ℕ → Bool
fraction_char c = (c == b'.') || ((c == b'e') || (c == b'E'))

abbrev pub int_or_error : Option ℤ → Text → Parsed ConfigValue
int_or_error none rest = err bad_number
int_or_error (some n) rest = ok (int n) rest

unfoldable pub number_of : Floats → Text → Text → Parsed ConfigValue
unfolding fraction_char stoll any
number_of fl num rest =
    if is_empty num
    then err bad_number
    else if any fraction_char num
    then (if fl.reads num then ok (double num) rest else err bad_number)
    else int_or_error (stoll num) rest

unfoldable pub parse_json_number : Floats → Text → Parsed ConfigValue
unfolding number_span number_of skip_ws
parse_json_number fl s = number_of fl (number_span (skip_ws s)).0 (number_span (skip_ws s)).1

unfoldable pub parse_json_literal : Text → Text → ConfigValue → Parsed ConfigValue
unfolding skip_ws starts_with
parse_json_literal s lit v =
    if starts_with lit (skip_ws s) then ok v (drop (length lit) (skip_ws s)) else err bad_literal

-- `consume`: the text behind the byte, where it comes next.
abbrev pub behind : ℕ → Text → Option Text
behind ch [] = none
behind ch (c ∷ s) = if c == ch then some s else none

unfoldable pub consume : ℕ → Text → Option Text
unfolding skip_ws
consume ch s = behind ch (skip_ws s)

abbrev pub as_value : Parsed Text → Parsed ConfigValue
as_value (ok t rest) = ok (string t) rest
as_value (err e) = err e
as_value stuck = stuck

-- What the first byte of a value says.
pub data Lead : Type 0 where
  quote brace bracket letter_t letter_f letter_n other : Lead

unfoldable pub lead_of : ℕ → Lead
lead_of c =
    if c == b'"'
    then quote
    else if c == b'{'
    then brace
    else if c == b'['
    then bracket
    else if c == b't'
    then letter_t
    else if c == b'f'
    then letter_f
    else if c == b'n'
    then letter_n
    else other

-- A list with one value more at its end.
unfoldable pub snoc : Values → ConfigValue → Values
snoc nil v = cons v nil
snoc (cons x vs) v = cons x (snoc vs v)

abbrev pub closed : ℕ → ParseError → ConfigValue → Text → Parsed ConfigValue
closed ch e v s = elim (consume ch s) [ none ↦ err e | some rest ↦ ok v rest ]

-- The loop of `parse_json_array`, with the reader of a value and fuel.
unfoldable pub array_items : (Text → Parsed ConfigValue) → ℕ → Values → Text → Parsed ConfigValue
unfolding consume snoc
array_items value zero arr s = stuck
array_items value (suc n) arr s = elim (value s) [
  | err e ↦ err e
  | stuck ↦ stuck
  | ok v rest ↦ elim (consume b',' rest) [
    | some more ↦ array_items value n (snoc arr v) more
    | none ↦ closed b']' expected_bracket (list (snoc arr v)) rest
  ]
]

-- Behind the bracket. A round takes a byte at least, so the length of the text is enough.
unfoldable pub parse_json_array : (Text → Parsed ConfigValue) → Text → Parsed ConfigValue
unfolding array_items consume
parse_json_array value s = elim (consume b']' s) [
  | some rest ↦ ok (list nil) rest
  | none ↦ array_items value (length s + 1) nil s
]

-- The loop of `parse_json_object`.
unfoldable pub object_items : (Text → Parsed ConfigValue) → ℕ → Fields → Text → Parsed ConfigValue
unfolding consume parse_json_string emplace_field
object_items value zero obj s = stuck
object_items value (suc n) obj s = elim (parse_json_string s) [
  | err e ↦ err expected_key
  | stuck ↦ stuck
  | ok k rest ↦ elim (consume b':' rest) [
    | none ↦ err expected_colon
    | some after ↦ elim (value after) [
      | err e ↦ err e
      | stuck ↦ stuck
      | ok v last ↦ elim (consume b',' last) [
        | some more ↦ object_items value n (emplace_field obj k v) more
        | none ↦ closed b'}' expected_brace (map (emplace_field obj k v)) last
      ]
    ]
  ]
]

-- Behind the brace.
unfoldable pub parse_json_object : (Text → Parsed ConfigValue) → Text → Parsed ConfigValue
unfolding object_items consume
parse_json_object value s = elim (consume b'}' s) [
  | some rest ↦ ok (map end) rest
  | none ↦ object_items value (length s + 1) end s
]

-- The dispatch on the first byte, with the reader of the values inside.
unfoldable pub value_at : Floats → (Text → Parsed ConfigValue) → Text → Parsed ConfigValue
unfolding lead_of parse_json_string parse_json_object parse_json_array parse_json_literal
    parse_json_number
value_at fl value [] = err unexpected_eof
value_at fl value (c ∷ s) = elim (lead_of c) [
  | quote ↦ as_value (parse_json_string (c ∷ s))
  | brace ↦ parse_json_object value s
  | bracket ↦ parse_json_array value s
  | letter_t ↦ parse_json_literal (c ∷ s) (codes "true") (bool true)
  | letter_f ↦ parse_json_literal (c ∷ s) (codes "false") (bool false)
  | letter_n ↦ parse_json_literal (c ∷ s) (codes "null") null
  | other ↦ parse_json_number fl (c ∷ s)
]

-- The fuel is the depth of the values.
unfoldable pub parse_json_value : Floats → ℕ → Text → Parsed ConfigValue
unfolding value_at skip_ws
parse_json_value fl zero s = stuck
parse_json_value fl (suc f) s = value_at fl (λ t. parse_json_value fl f t) (skip_ws s)

-- A value inside of another one begins behind its bracket, so the length of the text is enough.
unfoldable pub parse_minimal_json : Floats → Text → Parsed ConfigValue
unfolding parse_json_value
parse_minimal_json fl content = parse_json_value fl (length content + 1) content
