-- ===== src/Config/Strings.antt =====
-- A quoted text is read back as it was.
use audit_forwarder.Prelude.{
  ℕ, ◌+◌, ◌*◌, ◌/◌, ◌%◌, ◌<◌, ◌≡◌, refl, sym, ap, subst, ◌∙◌, arith, true, false, some, [], ◌∷◌,
  ◌++◌, append-nil, append_assoc, ltb, ltb→lt, ◌==◌, ==_iff, Text, Bool-cases, inl, inr,
}
use audit_forwarder.Hex.{hex_char}
use audit_forwarder.Hex.RoundTrip.{scan, scan_lem, is_value, is_value→≡}
use audit_forwarder.Config.{string, Floats}
use audit_forwarder.Config.Dump.{dump_byte, dump_bytes, dump_json}
use audit_forwarder.Config.Json.{
  ok, plain, is_blank, skip_ws, hex_value, utf8, simple_escape, after_digit, scan_string, string_at,
  parse_json_string,
}

digits_table : scan 16 0 (λ n. is_value n (hex_value (hex_char n))) ≡ true
unfolding scan hex_value hex_char
digits_table = refl

hex_value-hex_char : (n : ℕ) → n < 16 → hex_value (hex_char n) ≡ some n
hex_value-hex_char n h =
    is_value→≡ n _ (scan_lem 16 0 _ digits_table n (omega arith) (omega (arith, h)))

utf8_low : (c : ℕ) → c < 128 → utf8 c ≡ c ∷ []
unfolding utf8
utf8_low c h = ground arith

-- Four digits behind the letter u.
scan-digits :
    (c : ℕ) (out rest : Text)
    → c < 128
    → scan_string plain out
        (b'\\' ∷ b'u' ∷ b'0' ∷ b'0' ∷ hex_char (c / 16) ∷ hex_char (c % 16) ∷ rest)
      ≡ scan_string plain (out ++ c ∷ []) rest
unfolding scan_string after_digit hex_value
scan-digits c out rest h =
    rw (hex_value-hex_char (c / 16) (omega (arith, h)), hex_value-hex_char (c % 16) (omega arith))
      (ap (λ z. scan_string plain (out ++ z) rest) (ap utf8 whole ∙ utf8_low c h))
  where
    whole : ((0 * 16 + 0) * 16 + c / 16) * 16 + c % 16 ≡ c
    whole = omega arith

Reads : Text → Text → ℕ → Type 0
Reads out rest c =
    scan_string plain out (dump_byte c ++ rest) ≡ scan_string plain (out ++ c ∷ []) rest

-- What holds of one byte, where the test for it says yes.
there : (P : ℕ → Type 0) (n c : ℕ) → (c == n) ≡ true → P n → P c
there P n c e p = subst P (sym ((==_iff c n).0 e)) p

scan-plain_byte :
    (c : ℕ) (out rest : Text)
    → (c == b'"') ≡ false
    → (c == b'\\') ≡ false
    → scan_string plain out (c ∷ rest) ≡ scan_string plain (out ++ c ∷ []) rest
unfolding scan_string
scan-plain_byte c out rest e1 e2 = rw (e1, e2)

-- A byte that no short escape stands for.
scan-other_byte :
    (c : ℕ) (out rest : Text)
    → (c == b'"') ≡ false
    → (c == b'\\') ≡ false
    → (c == 8) ≡ false
    → (c == 12) ≡ false
    → (c == 10) ≡ false
    → (c == 13) ≡ false
    → (c == 9) ≡ false
    → Reads out rest c
unfolding Reads scan_string dump_byte
scan-other_byte c out rest e1 e2 e3 e4 e5 e6 e7 = elim (Bool-cases (ltb c 32)) [
  | inl low ↦
      rw (e1, e2, e3, e4, e5, e6, e7, low) (scan-digits c out rest (omega (arith, ltb→lt c 32 low)))
  | inr high ↦ rw (e1, e2, e3, e4, e5, e6, e7, high) (scan-plain_byte c out rest e1 e2)
]

-- One byte as it is written takes the loop on by that byte.
scan-dump_byte : (c : ℕ) (out rest : Text) → Reads out rest c
unfolding Reads scan_string dump_byte simple_escape
scan-dump_byte c out rest = elim (Bool-cases (c == b'"')) [
  | inl e ↦ there (Reads out rest) b'"' c e refl
  | inr e1 ↦ elim (Bool-cases (c == b'\\')) [
    | inl e ↦ there (Reads out rest) b'\\' c e refl
    | inr e2 ↦ elim (Bool-cases (c == 8)) [
      | inl e ↦ there (Reads out rest) 8 c e refl
      | inr e3 ↦ elim (Bool-cases (c == 12)) [
        | inl e ↦ there (Reads out rest) 12 c e refl
        | inr e4 ↦ elim (Bool-cases (c == 10)) [
          | inl e ↦ there (Reads out rest) 10 c e refl
          | inr e5 ↦ elim (Bool-cases (c == 13)) [
            | inl e ↦ there (Reads out rest) 13 c e refl
            | inr e6 ↦ elim (Bool-cases (c == 9)) [
              | inl e ↦ there (Reads out rest) 9 c e refl
              | inr e7 ↦ scan-other_byte c out rest e1 e2 e3 e4 e5 e6 e7
            ]
          ]
        ]
      ]
    ]
  ]
]

scan-dump_bytes :
    (s out rest : Text) → scan_string plain out (dump_bytes s ++ b'"' ∷ rest) ≡ ok (out ++ s) rest
unfolding Reads dump_bytes scan_string
scan-dump_bytes [] out rest = ap (λ t. ok t rest) (sym (append-nil out))
scan-dump_bytes (c ∷ s) out rest =
    ap (scan_string plain out) (append_assoc (dump_byte c) (dump_bytes s) (b'"' ∷ rest))
    ∙ scan-dump_byte c out (dump_bytes s ++ b'"' ∷ rest)
    ∙ scan-dump_bytes s (out ++ c ∷ []) rest
    ∙ ap (λ t. ok t rest) (append_assoc out (c ∷ []) s)

-- Whatever bytes a text has and whatever follows it, its quoted form is read back as the text, and
-- what follows is left.
pub parse_json_string-dump_json :
    (fl : Floats) (indent : ℕ) (s rest : Text)
    → parse_json_string (dump_json fl indent (string s) ++ rest) ≡ ok s rest
unfolding parse_json_string dump_json skip_ws is_blank string_at
parse_json_string-dump_json fl indent s rest =
    ap (scan_string plain []) (append_assoc (dump_bytes s) (b'"' ∷ []) rest)
    ∙ scan-dump_bytes s [] rest
