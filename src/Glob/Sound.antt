-- ===== src/Glob/Sound.antt =====
-- Soundness of the wildcard loop: an answer `true` is always right.
use audit_forwarder.Prelude.{
  ℕ, zero, suc, ◌≡◌, refl, sym, subst, ◌⊎◌, inl, inr, Bool, true, false, ◌||◌, Option, none, some,
  [], ◌∷◌, arith, ◌==◌, if◌then◌else◌, Bool-cases, Text, ==_iff,
}
use audit_forwarder.Text.{lower}
use audit_forwarder.Glob.{
  Mark, fuel_for, only_stars, fall_back, glob_loop, match_folded, wildcard_run, wildcard_match,
}
use audit_forwarder.Glob.Spec.{Glob, done, byte, skip, eat, Glob-eat_one}

only_stars→Glob : (p : Text) → only_stars p ≡ true → Glob p []
unfolding only_stars
only_stars→Glob [] h = done
only_stars→Glob (x ∷ p) h = elim (Bool-cases (x == b'*')) [
  | inl e ↦ skip ((==_iff x b'*').0 e) (only_stars→Glob p (ground arith))
  | inr e ↦ absurd (ground arith)
]

-- The test of the first branch, read as the rule that it stands for.
byte_step : (x c : ℕ) (p t : Text) → (x == b'?' || x == c) ≡ true → Glob p t → Glob (x ∷ p) (c ∷ t)
byte_step x c p t h g = elim (Bool-cases (x == b'*')) [
  | inl e ↦ Glob-eat_one ((==_iff x b'*').0 e) g
  | inr e ↦ byte (ground arith) (either x c h) g
]
  where
    either : (x c : ℕ) → (x == b'?' || x == c) ≡ true → (x ≡ b'?') ⊎ (x ≡ c)
    either x c h = ground arith

-- `G` is what an answer `true` is to prove.
module _ (G : Type 0) where
  abbrev MarkSound : Mark → Type 0
  MarkSound none = Unit
  MarkSound (some (bp, bt)) = Glob (b'*' ∷ bp) bt → G

  abbrev Proves : Option Bool → Type 0
  Proves r = r ≡ some true → G

  if_Proves :
      (b : Bool) (x y : Option Bool)
      → (b ≡ true → Proves x)
      → (b ≡ false → Proves y)
      → Proves (if b then x else y)
  if_Proves true x y hx hy = hx refl
  if_Proves false x y hx hy = hy refl

  fall_back-Proves :
      (f : ℕ) (mark : Mark)
      → ((p t : Text) (mark' : Mark)
          → (Glob p t → G)
          → MarkSound mark'
          → Proves (glob_loop f p t mark'))
      → MarkSound mark
      → Proves (fall_back mark (glob_loop f))
  unfolding fall_back
  fall_back-Proves f none next h = λ e. absurd (ground arith)
  fall_back-Proves f (some (bp, [])) next h = λ e. absurd (ground arith)
  fall_back-Proves f (some (bp, c ∷ bt)) next h =
      next bp bt (some (bp, bt)) (λ g. h (Glob-eat_one refl g)) (λ g. h (eat refl g))

  glob_loop-Proves :
      (f : ℕ) (p t : Text) (mark : Mark)
      → (Glob p t → G)
      → MarkSound mark
      → Proves (glob_loop f p t mark)
  unfolding glob_loop
  glob_loop-Proves zero p t mark now h = λ e. absurd (ground arith)
  glob_loop-Proves (suc f) p [] mark now h = λ e. now (only_stars→Glob p (ground arith))
  glob_loop-Proves (suc f) [] (c ∷ t) mark now h = fall_back-Proves f mark (glob_loop-Proves f) h
  glob_loop-Proves (suc f) (x ∷ p) (c ∷ t) mark now h =
      if_Proves (x == b'?' || x == c) _ _
        (λ e. glob_loop-Proves f p t mark (λ g. now (byte_step x c p t e g)) h)
        (λ _.
          if_Proves (x == b'*') _ _
            (λ e.
              let star = (==_iff x b'*').0 e in
              glob_loop-Proves f p (c ∷ t) (some (p, c ∷ t)) (λ g. now (skip star g))
                (λ g. now (subst (λ y. Glob (y ∷ p) (c ∷ t)) (sym star) g)))
            (λ _. fall_back-Proves f mark (glob_loop-Proves f) h))

-- Whenever the loop answers `true`, the folded text is described by the folded pattern.
pub wildcard_match_sound :
    (pattern text : Text) → wildcard_match pattern text ≡ true → Glob (lower pattern) (lower text)
unfolding wildcard_match wildcard_run match_folded
wildcard_match_sound pattern text h =
    glob_loop-Proves (Glob (lower pattern) (lower text)) (fuel_for (lower pattern) (lower text))
      (lower pattern) (lower text) none (λ g. g) tt (ground arith)
