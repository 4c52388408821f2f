-- ===== src/Audit/Escapes.antt =====
-- Escaped texts can stand in quotation marks.
use audit_forwarder.Prelude.{
  ℕ, zero, suc, get_or, append_assoc, ap, ◌∙◌, ◌/◌, ◌%◌, ◌≡◌, refl, Bool, true, false, [], ◌∷◌,
  ◌++◌, All, ltb, ◌==◌, if◌then◌else◌, Text, Bool-cases, inl, inr,
}
use audit_forwarder.Hex.{hex_char, hex_chars}
use audit_forwarder.Audit.Json.{with_backslash, unicode_escape, json_escape_byte, json_escape}

-- How a JSON reader goes through the inside of a string: at the first quotation mark that no
-- backslash stands before, it stops; after a backslash it takes the next byte as it is.
unfoldable pub unquoted : Text → Bool
unquoted [] = true
unquoted (c ∷ []) = if (c == b'"') then false else if c == b'\\' then false else true
unquoted (c ∷ d ∷ s) =
    let skipped = unquoted s in
    let on = unquoted (d ∷ s) in if c == b'"' then false else if c == b'\\' then skipped else on

-- Two pieces read one after the other.
unquoted-plain :
    (c : ℕ) (s : Text) → (c == b'"') ≡ false → (c == b'\\') ≡ false → unquoted (c ∷ s) ≡ unquoted s
unfolding unquoted
unquoted-plain c [] q b = rw (q, b) refl
unquoted-plain c (d ∷ s) q b = rw (q, b) refl

unquoted-escaped : (c : ℕ) (s : Text) → unquoted (b'\\' ∷ c ∷ s) ≡ unquoted s
unfolding unquoted
unquoted-escaped c s = refl

All-get_or : (P : ℕ → Type 0) (l : Text) (i d : ℕ) → All P l → P d → P (get_or l i d)
All-get_or P [] i d a p = p
All-get_or P (x ∷ l) zero d a p = a.0
All-get_or P (x ∷ l) (suc i) d a p = All-get_or P l i d a.1 p

-- Neither a quotation mark nor a backslash.
abbrev IsPlain : ℕ → Type 0
IsPlain c = ((c == b'"') ≡ false) × ((c == b'\\') ≡ false)

hex_char-IsPlain : (n : ℕ) → IsPlain (hex_char n)
unfolding hex_char
hex_char-IsPlain n = All-get_or IsPlain hex_chars n 0 all_plain (refl, refl)
  where
    all_plain : All IsPlain hex_chars
    all_plain = (
      (refl, refl),
      (
        (refl, refl),
        (
          (refl, refl),
          (
            (refl, refl),
            (
              (refl, refl),
              (
                (refl, refl),
                (
                  (refl, refl),
                  (
                    (refl, refl),
                    (
                      (refl, refl),
                      (
                        (refl, refl),
                        (
                          (refl, refl),
                          (
                            (refl, refl),
                            ((refl, refl), ((refl, refl), ((refl, refl), ((refl, refl), tt)))),
                          ),
                        ),
                      ),
                    ),
                  ),
                ),
              ),
            ),
          ),
        ),
      ),
    )

unquoted-unicode_escape : (c : ℕ) (s : Text) → unquoted (unicode_escape c ++ s) ≡ unquoted s
unfolding unicode_escape
unquoted-unicode_escape c s =
    unquoted-escaped b'u' _
    ∙ digit (c / 4096 % 16) _
    ∙ digit (c / 256 % 16) _
    ∙ digit (c / 16 % 16) _
    ∙ digit (c % 16) s
  where
    digit : (n : ℕ) (t : Text) → unquoted (hex_char n ∷ t) ≡ unquoted t
    digit n t = unquoted-plain (hex_char n) t (hex_char-IsPlain n).0 (hex_char-IsPlain n).1

unquoted-json_escape_byte : (c : ℕ) (s : Text) → unquoted (json_escape_byte c ++ s) ≡ unquoted s
unfolding json_escape_byte
unquoted-json_escape_byte c s = elim (Bool-cases (c == b'"')) [
  | inl y ↦ rw y (unquoted-escaped b'"' s)
  | inr quote ↦ elim (Bool-cases (c == b'\\')) [
    | inl y ↦ rw (quote, y) (unquoted-escaped b'\\' s)
    | inr slash ↦
        rw (quote, slash)
          (rest (c == 8) (c == 12) (c == b'\n') (c == b'\r') (c == b'\t') (ltb c 32) quote slash)
  ]
]
  where
    rest :
        (b f n r t l : Bool)
        → (c == b'"') ≡ false
        → (c == b'\\') ≡ false
        → unquoted (
            (if b
              then with_backslash b'b'
              else if f
              then with_backslash b'f'
              else if n
              then with_backslash b'n'
              else if r
              then with_backslash b'r'
              else if t
              then with_backslash b't'
              else if l
              then unicode_escape c
              else c ∷ [])
            ++ s)
          ≡ unquoted s
    rest true f n r t l quote slash = unquoted-escaped b'b' s
    rest false true n r t l quote slash = unquoted-escaped b'f' s
    rest false false true r t l quote slash = unquoted-escaped b'n' s
    rest false false false true t l quote slash = unquoted-escaped b'r' s
    rest false false false false true l quote slash = unquoted-escaped b't' s
    rest false false false false false true quote slash = unquoted-unicode_escape c s
    rest false false false false false false quote slash = unquoted-plain c s quote slash

-- A reader inside a string goes through an escaped text and stands behind it as it stood before: no
-- byte of it ends the string, and its last byte escapes nothing of what follows.
pub unquoted-json_escape : (s t : Text) → unquoted (json_escape s ++ t) ≡ unquoted t
unfolding json_escape
unquoted-json_escape [] t = refl
unquoted-json_escape (c ∷ s) t =
    ap unquoted (append_assoc (json_escape_byte c) (json_escape s) t)
    ∙ unquoted-json_escape_byte c (json_escape s ++ t)
    ∙ unquoted-json_escape s t
