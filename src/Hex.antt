-- ===== src/Hex.antt =====
-- Hexadecimal coding of byte buffers: `to_hex`, `hexval`, `from_hex` (shared/src/crypto/crypto.cpp).
-- A `u8` is a number below 256.
pub mod RoundTrip
use audit_forwarder.Prelude.{
  ℕ, ◌+◌, ◌-◌, ◌*◌, ◌/◌, ◌%◌, Bool, true, false, ◌&&◌, Option, none, some, [], ◌∷◌, length, leb,
  ◌==◌, if◌then◌else◌, Text, codes, get_or,
}

-- The table `HEX_CHARS`.
abbrev pub hex_chars : Text
hex_chars = codes "0123456789abcdef"

-- `HEX_CHARS[n]`; every index of the source is masked to four bits.
unfoldable pub hex_char : ℕ → ℕ
hex_char n = get_or hex_chars n 0

-- `b >> 4 & 0xF` and `b & 0xF` of each byte, as characters.
unfoldable pub to_hex : Text → Text
unfolding hex_char
to_hex [] = []
to_hex (b ∷ bs) = hex_char (b / 16 % 16) ∷ hex_char (b % 16) ∷ to_hex bs

-- `none` is the source's -1.
unfoldable pub hexval : ℕ → Option ℕ
hexval c =
    if leb b'0' c && leb c b'9'
    then some (c - b'0')
    else if leb b'a' c && leb c b'f'
    then some (c - b'a' + 10)
    else if leb b'A' c && leb c b'F'
    then some (c - b'A' + 10)
    else none

-- One round of the loop: `hi << 4 | lo`, cast to `u8`; a digit that is none ends the loop.
unfoldable pub join_nibbles : Option ℕ → Option ℕ → Option ℕ
join_nibbles none lo = none
join_nibbles (some hi) none = none
join_nibbles (some hi) (some lo) = some ((hi * 16 + lo) % 256)

unfoldable pub cons_byte : Option ℕ → Option Text → Option Text
cons_byte none rest = none
cons_byte (some b) none = none
cons_byte (some b) (some bs) = some (b ∷ bs)

-- The loop; `none` is an early `return {}`.
unfoldable pub decode_pairs : Text → Option Text
unfolding hexval join_nibbles cons_byte
decode_pairs [] = some []
decode_pairs (h ∷ []) = none
decode_pairs (h ∷ l ∷ s) = cons_byte (join_nibbles (hexval h) (hexval l)) (decode_pairs s)

abbrev or_nothing : Option Text → Text
or_nothing none = []
or_nothing (some bs) = bs

unfoldable pub from_hex : Text → Text
unfolding decode_pairs
from_hex s = if length s % 2 == 0 then or_nothing (decode_pairs s) else []
