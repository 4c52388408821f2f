-- ===== src/Glob/Total.antt =====
-- Termination of the wildcard loop: the rounds of `fuel_for` are enough for every input.
use audit_forwarder.Prelude.{
  ℕ, zero, suc, ◌+◌, ◌*◌, ◌≤◌, ◌<◌, ◌≡◌, refl, Bool, true, false, ◌||◌, Option, none, some, [], ◌∷◌,
  arith, length, ◌==◌, if◌then◌else◌, Text,
}
use audit_forwarder.Text.{lower}
use audit_forwarder.Glob.{
  Mark, only_stars, fall_back, glob_loop, fuel_for, match_folded, wildcard_run,
}

-- The run ended with an answer.
abbrev Answers : Option Bool → Type 0
Answers r = (b : Bool) × (r ≡ some b)

-- The mark lies at or behind the position, within the bounds `m` on texts and `k` on patterns.
abbrev MarkFits : ℕ → ℕ → Text → Mark → Type 0
MarkFits m k t none = Unit
MarkFits m k t (some (bp, bt)) = (length t ≤ length bt) × (length bt ≤ m) × (length bp < k)

if_Answers : (b : Bool) (x y : Option Bool) → Answers x → Answers y → Answers (if b then x else y)
if_Answers true x y hx hy = hx
if_Answers false x y hx hy = hy

module _ (k f : ℕ)
    (rounds : (m : ℕ) (p t : Text) (mark : Mark)
      → MarkFits m k t mark
      → length t ≤ m
      → length p < k
      → m * k + length p < f
      → Answers (glob_loop f p t mark)) where
  fall_back-Answers :
      (m n : ℕ) (c : ℕ) (t : Text) (mark : Mark)
      → MarkFits m k (c ∷ t) mark
      → m * k + n < suc f
      → Answers (fall_back mark (glob_loop f))
  unfolding fall_back
  fall_back-Answers m n c t none fits h = (false, refl)
  fall_back-Answers m n c t (some (bp, [])) fits h = absurd (omega arith)
  fall_back-Answers zero n c t (some (bp, d ∷ bt)) fits h = absurd (omega arith)
  fall_back-Answers (suc m) n c t (some (bp, d ∷ bt)) fits h =
      rounds m bp bt (some (bp, bt)) (omega arith, omega arith, fits.2) (omega arith) fits.2
        (omega arith)

glob_loop-Answers :
    (k f m : ℕ) (p t : Text) (mark : Mark)
    → MarkFits m k t mark
    → length t ≤ m
    → length p < k
    → m * k + length p < f
    → Answers (glob_loop f p t mark)
unfolding glob_loop
glob_loop-Answers k zero m p t mark fits ht hp hf = absurd (omega arith)
glob_loop-Answers k (suc f) m p [] mark fits ht hp hf = (only_stars p, refl)
glob_loop-Answers k (suc f) m [] (c ∷ t) mark fits ht hp hf =
    fall_back-Answers k f (glob_loop-Answers k f) m 0 c t mark fits (omega arith)
glob_loop-Answers k (suc f) m (x ∷ p) (c ∷ t) mark fits ht hp hf =
    if_Answers (x == b'?' || x == c) _ _
      (glob_loop-Answers k f m p t mark (shorter mark fits) (omega arith) (omega arith)
        (omega arith))
      (if_Answers (x == b'*') _ _
        (glob_loop-Answers k f m p (c ∷ t) (some (p, c ∷ t)) (omega arith, ht, omega arith) ht
          (omega arith) (omega arith))
        (fall_back-Answers k f (glob_loop-Answers k f) m (suc (length p)) c t mark fits
          (omega arith)))
  where
    shorter : (mk : Mark) → MarkFits m k (c ∷ t) mk → MarkFits m k t mk
    shorter none h = tt
    shorter (some (bp, bt)) h = (omega arith, h.1, h.2)

pub match_folded-Answers : (p t : Text) → (b : Bool) × (match_folded p t ≡ some b)
unfolding match_folded
match_folded-Answers p t =
    glob_loop-Answers (length p + 1) (fuel_for p t) (length t) p t none tt (omega arith)
      (omega arith) (omega arith)

-- For every pattern and every text the loop ends within its rounds and gives an answer.
pub wildcard_run-total : (pattern text : Text) → (b : Bool) × (wildcard_run pattern text ≡ some b)
unfolding wildcard_run
wildcard_run-total pattern text = match_folded-Answers (lower pattern) (lower text)
