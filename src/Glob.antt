-- ===== src/Glob.antt =====
-- Wildcard matching with `*` and `?`: `wildcard_match` (server/src/collusion/collusion.cpp) and
-- `filter_glob_match` (client/src/collector/collector_filter.cpp), one loop in two places.
pub mod Spec
pub mod Total
pub mod Sound
pub mod Complete
pub mod Literal
use audit_forwarder.Prelude.{
  ℕ, zero, suc, ◌+◌, ◌*◌, Bool, true, false, ◌||◌, Option, none, some, [], ◌∷◌, length, ◌==◌,
  if◌then◌else◌, Text,
}
use audit_forwarder.Text.{lower}

-- `star` and `mark`: the pattern after the last `*` passed, and the text where it was passed.
abbrev pub Mark : Type 0
Mark = Option (Text × Text)

-- The loop `while (pi < p.size() && p[pi] == '*') ++pi;` and the test behind it.
unfoldable pub only_stars : Text → Bool
only_stars [] = true
only_stars (x ∷ p) = let rest = only_stars p in if x == b'*' then rest else false

-- The last two branches of the loop. `go` is the next round; after a mark the text is not empty,
-- since a mark never lies behind the position of the loop.
unfoldable pub fall_back : Mark → (Text → Text → Mark → Option Bool) → Option Bool
fall_back none go = some false
fall_back (some (p, [])) go = none
fall_back (some (p, c ∷ t)) go = go p t (some (p, t))

-- The loop on the pattern and the text that are left. `none` says that the fuel ran out.
unfoldable pub glob_loop : ℕ → Text → Text → Mark → Option Bool
unfolding only_stars fall_back
glob_loop zero p t mark = none
glob_loop (suc f) p [] mark = some (only_stars p)
glob_loop (suc f) [] (c ∷ t) mark = fall_back mark (glob_loop f)
glob_loop (suc f) (x ∷ p) (c ∷ t) mark =
    let onward = glob_loop f p t mark in
    let marked = glob_loop f p (c ∷ t) (some (p, c ∷ t)) in
    let back = fall_back mark (glob_loop f) in
    if x == b'?' || x == c then onward else if x == b'*' then marked else back

-- Rounds that are enough: each mark is left behind at most once for each byte of the text.
abbrev pub fuel_for : Text → Text → ℕ
fuel_for p t = (length t + 1) * (length p + 1)

-- The body on the folded texts.
unfoldable pub match_folded : Text → Text → Option Bool
match_folded p t = glob_loop (fuel_for p t) p t none

-- `wildcard_match(pattern, text)`, with the round counter made visible.
unfoldable pub wildcard_run : Text → Text → Option Bool
unfolding match_folded
wildcard_run pattern text = match_folded (lower pattern) (lower text)

abbrev some_true : Option Bool → Bool
some_true none = false
some_true (some b) = b

unfoldable pub wildcard_match : Text → Text → Bool
unfolding wildcard_run
wildcard_match pattern text = some_true (wildcard_run pattern text)

-- `filter_glob_match(pattern, text)`: the same loop, written out once more in the collector.
unfoldable pub filter_glob_match : Text → Text → Bool
unfolding match_folded
filter_glob_match pattern text = some_true (match_folded (lower pattern) (lower text))
