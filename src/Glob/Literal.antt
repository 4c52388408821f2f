-- ===== src/Glob/Literal.antt =====
-- A literal `*` in the text: the first branch of the loop compares it with the pattern's `*`.
use audit_forwarder.Prelude.{ℕ, zero, suc, ◌≤◌, ◌≡◌, refl, none, some, false, [], ◌∷◌, Text, arith}
use audit_forwarder.Text.{lower}
use audit_forwarder.Glob.{some_true, glob_loop, match_folded, wildcard_run, wildcard_match}
use audit_forwarder.Glob.Spec.{Glob, done, skip, eat}

any_text : (t : Text) → Glob (b'*' ∷ []) t
any_text [] = skip refl done
any_text (c ∷ t) = eat refl (any_text t)

literal_run :
    (f c : ℕ) (t : Text) → 2 ≤ f → glob_loop f (b'*' ∷ []) (b'*' ∷ c ∷ t) none ≡ some false
unfolding glob_loop
literal_run zero c t h = absurd (omega arith)
literal_run (suc zero) c t h = absurd (omega arith)
literal_run (suc (suc f)) c t h = refl

literal_answer :
    (f c : ℕ) (t : Text) → 2 ≤ f → some_true (glob_loop f (b'*' ∷ []) (b'*' ∷ c ∷ t) none) ≡ false
literal_answer f c t h = rw (literal_run f c t h)

-- The pattern `*` describes every text, and yet it is answered `false` on each text that begins
-- with a literal `*` and holds at least one byte more.
pub wildcard_match-literal_star :
    (c : ℕ) (t : Text)
    → (wildcard_match (b'*' ∷ []) (b'*' ∷ c ∷ t) ≡ false)
      × Glob (lower (b'*' ∷ [])) (lower (b'*' ∷ c ∷ t))
unfolding wildcard_match wildcard_run match_folded glob_loop lower
wildcard_match-literal_star c t = (literal_answer _ _ _ (omega arith), any_text _)
