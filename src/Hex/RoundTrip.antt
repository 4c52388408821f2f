-- ===== src/Hex/RoundTrip.antt =====
-- Both directions of the hexadecimal coding.
use audit_forwarder.Prelude.{
  ℕ, zero, suc, ◌+◌, ◌*◌, ◌/◌, ◌%◌, ◌<◌, ◌≤◌, ◌≡◌, refl, false, false≢true, if◌then◌else◌,
  Bool-cases, inl, inr, ap₂, subst, Bool, true, ◌&&◌, Option, none, some, [], ◌∷◌, arith, length,
  All, ◌==◌, ==_iff, ltb, Text,
}
use audit_forwarder.Text.{lower, to_lower}
use audit_forwarder.Hex.{hex_char, to_hex, hexval, join_nibbles, cons_byte, decode_pairs, from_hex}

-- Whether the test fails for none of the `rounds` values from `first` on.
unfoldable pub scan : (rounds first : ℕ) → (ℕ → Bool) → Bool
scan zero first test = true
scan (suc rounds) first test =
    let rest = scan rounds (first + 1) test in if test first then rest else false

pub scan_lem :
    (rounds first : ℕ) (test : ℕ → Bool)
    → scan rounds first test ≡ true
    → (v : ℕ) → first ≤ v
    → v < first + rounds
    → test v ≡ true
unfolding scan
scan_lem zero first test ok v low high = absurd (omega arith)
scan_lem (suc rounds) first test ok v low high = elim (Bool-cases (test first)) [
  | inr fails ↦ absurd (false≢true (rw fails at ok))
  | inl passes ↦ elim (Bool-cases (first == v)) [
    | inl here ↦ let same : first ≡ v = ground arith in rw (← same) passes
    | inr later ↦
        let onward : scan rounds (first + 1) test ≡ true = rw passes at ok in
        scan_lem rounds (first + 1) test onward v (ground arith) (omega arith)
  ]
]

abbrev pub is_value : ℕ → Option ℕ → Bool
is_value n none = n == n + 1
is_value n (some m) = m == n

pub is_value→≡ : (n : ℕ) (o : Option ℕ) → is_value n o ≡ true → o ≡ some n
is_value→≡ n none h = ground arith
is_value→≡ n (some m) h = ground arith

digits_table : scan 16 0 (λ n. is_value n (hexval (hex_char n))) ≡ true
unfolding scan hexval hex_char
digits_table = refl

hexval-hex_char : (n : ℕ) → n < 16 → hexval (hex_char n) ≡ some n
hexval-hex_char n h =
    is_value→≡ n _ (scan_lem 16 0 _ digits_table n (omega arith) (omega (arith, h)))

decode_pairs-to_hex : (bs : Text) → All (λ b. b < 256) bs → decode_pairs (to_hex bs) ≡ some bs
unfolding decode_pairs to_hex
decode_pairs-to_hex [] h = refl
decode_pairs-to_hex (b ∷ bs) h =
    rw
      (
        hexval-hex_char (b / 16 % 16) (omega arith),
        hexval-hex_char (b % 16) (omega arith),
        decode_pairs-to_hex bs h.1,
      )
      (ap₂ (λ x y. some (x ∷ y)) (omega arith) refl)

pub length-to_hex : (bs : Text) → length (to_hex bs) ≡ 2 * length bs
unfolding to_hex
length-to_hex [] = omega arith
length-to_hex (b ∷ bs) = omega (arith, length-to_hex bs)

-- Every buffer of bytes is read back from its hexadecimal text.
pub from_hex-to_hex : (bs : Text) → All (λ b. b < 256) bs → from_hex (to_hex bs) ≡ bs
unfolding from_hex
from_hex-to_hex bs h =
    let even : (length (to_hex bs) % 2 == 0) ≡ true =
      (==_iff (length (to_hex bs) % 2) 0).1 (omega (arith, length-to_hex bs)) in
    rw (even, decode_pairs-to_hex bs h)

-- A digit that is read stands for a number below 16, whose character is the folded digit.
abbrev is_digit_of : ℕ → Option ℕ → Bool
is_digit_of c none = true
is_digit_of c (some n) = hex_char n == to_lower c && ltb n 16

letters_table : scan 128 0 (λ c. is_digit_of c (hexval c)) ≡ true
unfolding scan hexval hex_char to_lower
letters_table = refl

hexval_bound : (c n : ℕ) → hexval c ≡ some n → c < 128
unfolding hexval
hexval_bound c n h = ground arith

hexval_digit : (c n : ℕ) → hexval c ≡ some n → (hex_char n ≡ to_lower c) × (n < 16)
hexval_digit c n h = split (
    rw h at (
      scan_lem 128 0 (λ x. is_digit_of x (hexval x)) letters_table c (omega arith)
        (omega (arith, hexval_bound c n h))))
  where
    split : (hex_char n == to_lower c && ltb n 16) ≡ true → (hex_char n ≡ to_lower c) × (n < 16)
    split e = ground arith

decode_pairs_lem :
    (s bs : Text) → decode_pairs s ≡ some bs → (to_hex bs ≡ lower s) × All (λ b. b < 256) bs
unfolding decode_pairs to_hex lower
decode_pairs_lem [] [] h = (refl, tt)
decode_pairs_lem [] (b ∷ bs) h = ground arith
decode_pairs_lem (c ∷ []) bs h = ground arith
decode_pairs_lem (c ∷ d ∷ s) bs h =
    go (decode_pairs_lem s) (hexval c) (hexval d) (decode_pairs s) refl refl refl h
  where
    folded : Text → Text → Type 0
    folded t z = (to_hex z ≡ lower t) × All (λ b. b < 256) z

    go :
        ((more : Text) → decode_pairs s ≡ some more → folded s more)
        → (hi lo : Option ℕ) (rest : Option Text) → hexval c ≡ hi
        → hexval d ≡ lo
        → decode_pairs s ≡ rest
        → cons_byte (join_nibbles hi lo) rest ≡ some bs
        → folded (c ∷ d ∷ s) bs
    go ih none lo rest eh el er e = ground arith
    go ih (some hi) none rest eh el er e = ground arith
    go ih (some hi) (some lo) none eh el er e = ground arith
    go ih (some hi) (some lo) (some more) eh el er e =
        let h16 = hexval_digit c hi eh in
        let l16 = hexval_digit d lo el in
        let high : (hi * 16 + lo) % 256 / 16 % 16 ≡ hi = omega arith in
        let low : (hi * 16 + lo) % 256 % 16 ≡ lo = omega arith in
        let same : (hi * 16 + lo) % 256 ∷ more ≡ bs = cc in
        subst (folded (c ∷ d ∷ s)) same
          (rw (high, low, h16.0, l16.0, (ih more er).0) refl, (omega arith, (ih more er).1))

-- A text of even length whose characters are all digits is folded to lower case by reading it and
-- writing it again, and what is read are bytes.
pub to_hex-from_hex :
    (s bs : Text)
    → decode_pairs s ≡ some bs
    → length s % 2 ≡ 0
    → (to_hex (from_hex s) ≡ lower s) × All (λ b. b < 256) (from_hex s)
unfolding from_hex
to_hex-from_hex s bs h even = rw ((==_iff (length s % 2) 0).1 even, h) (decode_pairs_lem s bs h)
