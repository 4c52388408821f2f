-- ===== src/Config/Numbers.antt =====
-- `std::stoll`, as shared/src/common/config_parser.cpp and config.cpp call it.
use audit_forwarder.Prelude.{
  ℕ, ◌+◌, ◌-◌, ◌*◌, ◌^◌, ℤ, pos, negsuc, Bool, ◌&&◌, ◌||◌, Option, none, some, [], ◌∷◌, leb, ltb,
  ◌==◌, if◌then◌else◌, Text,
}
use audit_forwarder.Config.{ConfigValue, Floats, null, bool, int, double, string, list, map}

unfoldable pub is_digit : ℕ → Bool
is_digit c = leb b'0' c && leb c b'9'

-- The digits in front, on top of a number that was read before.
unfoldable pub digits_from : ℕ → Text → ℕ
unfolding is_digit
digits_from acc [] = acc
digits_from acc (c ∷ s) =
    let rest = digits_from (acc * 10 + (c - b'0')) s in if is_digit c then rest else acc

-- At least one digit.
unfoldable pub unsigned : Text → Option ℕ
unfolding digits_from is_digit
unsigned [] = none
unsigned (c ∷ s) = if is_digit c then some (digits_from 0 (c ∷ s)) else none

-- `none` where the number does not fit into a `long long`.
abbrev fit_pos : Option ℕ → Option ℤ
fit_pos none = none
fit_pos (some n) = if ltb n (2 ^ 63) then some (pos n) else none

abbrev negated : ℕ → ℤ
negated n = if n == 0 then pos 0 else negsuc (n - 1)

abbrev fit_neg : Option ℕ → Option ℤ
fit_neg none = none
fit_neg (some n) = if leb n (2 ^ 63) then some (negated n) else none

unfoldable pub signed : Text → Option ℤ
unfolding unsigned
signed [] = none
signed (c ∷ s) =
    if c == b'-'
    then fit_neg (unsigned s)
    else if c == b'+'
    then fit_pos (unsigned s)
    else fit_pos (unsigned (c ∷ s))

-- `std::isspace`, in the C locale.
unfoldable pub skip_space : Text → Text
skip_space [] = []
skip_space (c ∷ s) =
    let rest = skip_space s in if (c == b' ') || (leb 9 c && leb c 13) then rest else c ∷ s

-- `none` where it throws.
unfoldable pub stoll : Text → Option ℤ
unfolding signed skip_space
stoll s = signed (skip_space s)

abbrev or_default : ℤ → Option ℤ → ℤ
or_default d none = d
or_default d (some n) = n

unfoldable pub as_int : Floats → ConfigValue → ℤ → ℤ
unfolding stoll
as_int fl (int n) def = n
as_int fl (double d) def = fl.truncate d
as_int fl (bool b) def = if b then pos 1 else pos 0
as_int fl (string s) def = or_default def (stoll s)
as_int fl null def = def
as_int fl (list vs) def = def
as_int fl (map fs) def = def
