-- ===== src/Rules/Escaped.antt =====
-- A keyword of the server as a pattern.
use audit_forwarder.Prelude.{
  Bool, true, arith, ◌<◌, leb, not, ◌&&◌, ◌||◌, any, ℕ, ◌≡◌, refl, sym, subst, ◌∙◌, ap, false,
  false≢true, Option, none, some, [], ◌∷◌, inl, inr, Bool-cases, ==_iff, ◌==◌, Text, if◌then◌else◌,
}
use audit_forwarder.Hex.RoundTrip.{scan, scan_lem}
use audit_forwarder.Rules.Load.{is_special, regex_escape_literal}

abbrev cons_if : ℕ → Option Text → Option Text
cons_if c none = none
cons_if c (some s) = some (c ∷ s)

-- The bytes with a meaning of their own in the patterns of `std::regex`: those of its grammar.
pub is_syntax : ℕ → Bool
is_syntax c =
    (c == b'^')
    || ((c == b'$')
        || ((c == b'.')
            || ((c == b'*')
                || ((c == b'+')
                    || ((c == b'?')
                        || ((c == b'(')
                            || ((c == b')')
                                || ((c == b'[')
                                    || ((c == b']')
                                        || ((c == b'{')
                                            || ((c == b'}')
                                                || ((c == b'|') || (c == b'\\')))))))))))))

-- Letters, digits and the underscore: behind a backslash they do not stand for themselves.
pub is_word : ℕ → Bool
is_word c =
    (leb b'0' c && leb c b'9')
    || ((leb b'A' c && leb c b'Z') || ((leb b'a' c && leb c b'z') || (c == b'_')))

-- Reads a pattern that stands for one text: `none` says that some byte of the pattern is not meant
-- as itself.
pub literal_text : Text → Option Text
literal_text [] = some []
literal_text (b ∷ []) = if is_syntax b then none else some (b ∷ [])
literal_text (b ∷ c ∷ s) =
    let two = literal_text s in
    let one = literal_text (c ∷ s) in
    if b == b'\\'
    then (if is_word c then none else cons_if c two)
    else if is_syntax b
    then none
    else cons_if b one

syntax_table :
    scan 128 0 (λ c. (not (is_syntax c) || is_special c) && (not (is_special c) || not (is_word c)))
    ≡ true
unfolding scan is_syntax is_special is_word
syntax_table = refl

special_bound : (c : ℕ) → is_special c ≡ true → c < 128
unfolding is_special any
special_bound c h = ground arith

syntax_bound : (c : ℕ) → is_syntax c ≡ true → c < 128
unfolding is_syntax
syntax_bound c h = ground arith

-- What the table says, for one byte.
at_most :
    (s p w : Bool)
    → ((not s || p) && (not p || not w)) ≡ true
    → (p ≡ true → w ≡ false) × (s ≡ true → p ≡ true)
at_most true true true h = absurd (false≢true h)
at_most true true false h = (λ e. refl, λ e. refl)
at_most true false w h = absurd (false≢true h)
at_most false true true h = absurd (false≢true h)
at_most false true false h = (λ e. refl, λ e. refl)
at_most false false w h = (λ e. absurd (false≢true e), λ e. absurd (false≢true e))

in_table :
    (c : ℕ)
    → c < 128
    → (is_special c ≡ true → is_word c ≡ false) × (is_syntax c ≡ true → is_special c ≡ true)
in_table c low =
    at_most (is_syntax c) (is_special c) (is_word c)
      (scan_lem 128 0 _ syntax_table c (omega arith) (omega (arith, low)))

special_word : (c : ℕ) → is_special c ≡ true → is_word c ≡ false
special_word c h = (in_table c (special_bound c h)).0 h

plain_syntax : (c : ℕ) → is_special c ≡ false → is_syntax c ≡ false
plain_syntax c h = elim (Bool-cases (is_syntax c)) [
  | inr n ↦ n
  | inl y ↦ absurd (false≢true (sym h ∙ (in_table c (syntax_bound c y)).1 y))
]

plain_backslash : (c : ℕ) → is_special c ≡ false → (c == b'\\') ≡ false
unfolding is_special
plain_backslash c h = elim (Bool-cases (c == b'\\')) [
  | inr n ↦ n
  | inl y ↦ absurd (false≢true (sym (subst (λ x. is_special x ≡ false) ((==_iff c b'\\').0 y) h)))
]

literal_text-plain :
    (c : ℕ) (s : Text) → is_special c ≡ false → literal_text (c ∷ s) ≡ cons_if c (literal_text s)
unfolding literal_text
literal_text-plain c [] h = rw (plain_syntax c h) refl
literal_text-plain c (d ∷ s) h = rw (plain_backslash c h, plain_syntax c h) refl

-- The escaped form of a text is a pattern in which every byte of the grammar of patterns stands
-- behind a backslash and no other letter or digit does, and the text that it stands for is that text.
pub literal_text-regex_escape : (s : Text) → literal_text (regex_escape_literal s) ≡ some s
unfolding literal_text regex_escape_literal
literal_text-regex_escape [] = refl
literal_text-regex_escape (c ∷ s) = elim (Bool-cases (is_special c)) [
  | inl y ↦ rw y (rw (special_word c y) (rw (literal_text-regex_escape s) refl))
  | inr n ↦ rw n (
      literal_text-plain c (regex_escape_literal s) n
      ∙ ap (cons_if c) (literal_text-regex_escape s))
]
