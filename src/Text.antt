-- ===== src/Text.antt =====
-- The byte texts that the sources fold, search and cut: `to_lower_copy`, `lower`, `ci_contains`
-- (server/src/collusion/collusion.cpp, client/src/collector/collector_filter.cpp,
-- client/src/processor/processor.cpp) and the members of `std::string` that they call.
use audit_forwarder.Prelude.{
  ℕ, ◌+◌, ◌-◌, ◌≡◌, refl, Bool, true, false, ◌&&◌, ◌||◌, [], ◌∷◌, map, arith, leb, ◌==◌, ltb,
  if◌then◌else◌, Text, is_empty,
}

-- `std::tolower` on one byte, in the C locale.
unfoldable pub to_lower : ℕ → ℕ
to_lower c = if leb b'A' c && leb c b'Z' then c + 32 else c

-- `std::toupper` on one byte, in the C locale.
unfoldable pub to_upper : ℕ → ℕ
to_upper c = if leb b'a' c && leb c b'z' then c - 32 else c

-- `to_lower_copy`, `lower`, `lower_copy`, `norm_lower`: every byte folded.
unfoldable pub lower : Text → Text
unfolding to_lower
lower = map to_lower

-- `s.rfind(p, 0) == 0`: `p` is a prefix of `s`.
unfoldable pub starts_with : Text → Text → Bool
starts_with [] s = true
starts_with (x ∷ p) [] = false
starts_with (x ∷ p) (c ∷ s) = (x == c) && starts_with p s

-- `s.find(p) != npos`: `p` occurs in `s`.
unfoldable pub contains : Text → Text → Bool
unfolding starts_with
contains [] p = is_empty p
contains (c ∷ s) p = starts_with p (c ∷ s) || contains s p

pub to_lower_idem : (c : ℕ) → to_lower (to_lower c) ≡ to_lower c
unfolding to_lower
to_lower_idem c = ground arith

pub lower_idem : (s : Text) → lower (lower s) ≡ lower s
unfolding lower
lower_idem [] = refl
lower_idem (c ∷ s) = cc (to_lower_idem c, lower_idem s)

-- `operator<` of `std::string`.
unfoldable pub text_lt : Text → Text → Bool
text_lt s [] = false
text_lt [] (d ∷ t) = true
text_lt (c ∷ s) (d ∷ t) = ltb c d || ((c == d) && text_lt s t)
