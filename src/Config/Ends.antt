-- ===== src/Config/Ends.antt =====
-- Where a reader of the JSON text stops, for the readers without values inside.
use audit_forwarder.Prelude.{
  ℕ, suc, ◌+◌, ◌*◌, ◌≤◌, ◌<◌, ◌≡◌, refl, arith, Bool, true, false, inl, inr, Option, none, some, [],
  ◌∷◌, ◌++◌, drop, length, length-drop, ◌==◌, if◌then◌else◌, Text, Bool-cases, any, is_empty, ℤ,
}
use audit_forwarder.Text.{starts_with}
use audit_forwarder.Config.{ConfigValue, Floats, double}
use audit_forwarder.Config.Json.{
  Parsed, ParseError, ok, err, stuck, Mode, plain, escaped, unicode, skip_ws, is_blank, scan_string,
  string_at, parse_json_string, after_digit, hex_value, number_span, number_char, number_of,
  int_or_error, parse_json_number, parse_json_literal, consume, behind, as_value, bad_number,
  fraction_char, simple_escape, closed,
}
use audit_forwarder.Config.Numbers.{stoll}

-- A reader has come to an end on a text of `n` bytes, with no more text left than that.
unfoldable pub Ends : {A : Type 0} → ℕ → Parsed A → Type 0
Ends n (ok a rest) = length rest ≤ n
Ends n (err e) = Unit
Ends n stuck = ⊥

pub wider : {A : Type 0} (m n : ℕ) (p : Parsed A) → m ≤ n → Ends m p → Ends n p
unfolding Ends
wider m n (ok a rest) le h = omega arith
wider m n (err e) le h = tt
wider m n stuck le h = h

pub later : {A : Type 0} (s : Text) (p : Parsed A) → Ends (length s) p → Ends (suc (length s)) p
later s p h = wider (length s) (suc (length s)) p (omega arith) h

if-Ends :
    {A : Type 0} (n : ℕ) (b : Bool) (p q : Parsed A)
    → Ends n p
    → Ends n q
    → Ends n (if b then p else q)
if-Ends n true p q hp hq = hp
if-Ends n false p q hp hq = hq

pub length-skip_ws : (s : Text) → length (skip_ws s) ≤ length s
unfolding skip_ws
length-skip_ws [] = omega arith
length-skip_ws (c ∷ s) = elim (Bool-cases (is_blank c)) [
  | inl e ↦ rw e (omega (arith, length-skip_ws s))
  | inr e ↦ rw e (omega arith)
]

pub length-behind : (ch : ℕ) (s t : Text) → behind ch s ≡ some t → length t < length s
length-behind ch [] t h = ground arith
length-behind ch (c ∷ s) t h = ground arith

pub length-consume : (ch : ℕ) (s t : Text) → consume ch s ≡ some t → length t < length s
unfolding consume
length-consume ch s t h = omega (arith, length-behind ch (skip_ws s) t h, length-skip_ws s)

pub scan_string-Ends : (m : Mode) (out s : Text) → Ends (length s) (scan_string m out s)
unfolding scan_string Ends
scan_string-Ends plain out [] = tt
scan_string-Ends escaped out [] = tt
scan_string-Ends (unicode n cp) out [] = tt
scan_string-Ends plain out (c ∷ s) =
    if-Ends (length (c ∷ s)) (c == b'"') (ok out s) _ (omega arith) (
      if-Ends (length (c ∷ s)) (c == b'\\') (scan_string escaped out s) _
        (later s _ (scan_string-Ends escaped out s))
        (later s _ (scan_string-Ends plain (out ++ c ∷ []) s)))
scan_string-Ends escaped out (c ∷ s) =
    if-Ends (length (c ∷ s)) (c == b'u') (scan_string (unicode 3 0) out s) _
      (later s _ (scan_string-Ends (unicode 3 0) out s))
      (later s _ (scan_string-Ends plain (out ++ simple_escape c ∷ []) s))
scan_string-Ends (unicode n cp) out (c ∷ s) =
    go (λ m out'. scan_string-Ends m out' s) (hex_value c) refl
  where
    go :
        ((m : Mode) (out' : Text) → Ends (length s) (scan_string m out' s))
        → (o : Option ℕ) → hex_value c ≡ o
        → Ends (length (c ∷ s)) (scan_string (unicode n cp) out (c ∷ s))
    go ih none e = rw (Ends, e) tt
    go ih (some h) e =
        let after : Text × Mode = after_digit out n (cp * 16 + h) in
        rw (Ends, scan_string, e) (later s _ (ih after.1 after.0))

pub string_at-Ends : (s : Text) → Ends (length s) (string_at s)
unfolding string_at Ends
string_at-Ends [] = tt
string_at-Ends (c ∷ s) =
    if-Ends _ (c == b'"') _ _ (wider _ _ _ (omega arith) (scan_string-Ends plain [] s)) tt

pub parse_json_string-Ends : (s : Text) → Ends (length s) (parse_json_string s)
unfolding parse_json_string
parse_json_string-Ends s =
    wider (length (skip_ws s)) (length s) (string_at (skip_ws s)) (length-skip_ws s)
      (string_at-Ends (skip_ws s))

length-number_span : (s : Text) → length (number_span s).1 ≤ length s
unfolding number_span
length-number_span [] = omega arith
length-number_span (c ∷ s) = elim (Bool-cases (number_char c)) [
  | inl e ↦ rw e (omega (arith, length-number_span s))
  | inr e ↦ rw e (omega arith)
]

int_or_error-Ends : (o : Option ℤ) (rest : Text) → Ends (length rest) (int_or_error o rest)
unfolding Ends
int_or_error-Ends none rest = tt
int_or_error-Ends (some n) rest = omega arith

number_of-Ends : (fl : Floats) (num rest : Text) → Ends (length rest) (number_of fl num rest)
unfolding number_of Ends
number_of-Ends fl num rest = if-Ends _ (is_empty num) (err bad_number) _ tt (
    if-Ends _ (any fraction_char num) _ _
      (if-Ends _ (fl.reads num) (ok (double num) rest) (err bad_number) (omega arith) tt)
      (int_or_error-Ends (stoll num) rest))

pub parse_json_number-Ends : (fl : Floats) (s : Text) → Ends (length s) (parse_json_number fl s)
unfolding parse_json_number
parse_json_number-Ends fl s =
    wider _ _ _ (omega (arith, length-number_span (skip_ws s), length-skip_ws s))
      (number_of-Ends fl (number_span (skip_ws s)).0 (number_span (skip_ws s)).1)

pub parse_json_literal-Ends :
    (s lit : Text) (v : ConfigValue) → Ends (length s) (parse_json_literal s lit v)
unfolding parse_json_literal Ends
parse_json_literal-Ends s lit v =
    if-Ends _ (starts_with lit (skip_ws s)) (ok v (drop (length lit) (skip_ws s))) _
      (omega (arith, length-drop (length lit) (skip_ws s), length-skip_ws s)) tt

pub as_value-Ends : (n : ℕ) (p : Parsed Text) → Ends n p → Ends n (as_value p)
unfolding Ends
as_value-Ends n (ok t rest) h = h
as_value-Ends n (err e) h = h
as_value-Ends n stuck h = h

pub closed-Ends :
    (ch : ℕ) (e : ParseError) (v : ConfigValue) (s : Text) → Ends (length s) (closed ch e v s)
unfolding Ends
closed-Ends ch e v s = go (consume ch s) refl
  where
    go : (o : Option Text) → consume ch s ≡ o → Ends (length s) (closed ch e v s)
    go none eq = rw (Ends, eq) tt
    go (some rest) eq = rw (Ends, eq) (omega (arith, length-consume ch s rest eq))
