-- ===== src/Glob/Spec.antt =====
-- What a `*` and `?` pattern means, with no search order in it.
use audit_forwarder.Prelude.{ℕ, ◌≡◌, ◌≢◌, ◌⊎◌, [], ◌∷◌, Text}

-- `Glob p t`: the whole text `t` is described by the pattern `p`, byte for byte.
pub data Glob : Text → Text → Type 0 where
  done : Glob [] []
  byte : {x c : ℕ} {p t : Text} → x ≢ b'*' → (x ≡ b'?') ⊎ (x ≡ c) → Glob p t → Glob (x ∷ p) (c ∷ t)
  skip : {x : ℕ} {p t : Text} → x ≡ b'*' → Glob p t → Glob (x ∷ p) t
  eat : {x c : ℕ} {p t : Text} → x ≡ b'*' → Glob (x ∷ p) t → Glob (x ∷ p) (c ∷ t)

-- No byte of the text is a literal `*`.
abbrev pub StarFree : Text → Type 0
StarFree [] = Unit
StarFree (c ∷ t) = (c ≢ b'*') × StarFree t

-- A star in the pattern takes one byte more.
pub Glob-eat_one : {x c : ℕ} {p t : Text} → x ≡ b'*' → Glob p t → Glob (x ∷ p) (c ∷ t)
Glob-eat_one e g = eat e (skip e g)
