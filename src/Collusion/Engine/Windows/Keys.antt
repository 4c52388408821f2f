-- ===== src/Collusion/Engine/Windows/Keys.antt =====
-- The key of a window names one asset group and one start.
use audit_forwarder.Prelude.{
  ℕ, zero, suc, ◌+◌, ◌/◌, ◌%◌, ◌≡◌, ◌≢◌, refl, sym, ap, ◌∙◌, arith, [], ◌∷◌, ◌++◌, append_assoc,
  All, ltb, ltb→lt, Text, Bool-cases, inl, inr,
}
use mathlib.Core.List.{append_cancel_right}
use audit_forwarder.Decimal.{digits, decimal, number_from, number_from-decimal}
use audit_forwarder.Collusion.Engine.{add64}
use audit_forwarder.Collusion.Engine.Windows.{window_key}

abbrev NoBar : Text → Type 0
NoBar = All (λ c. c ≢ b'|')

digits-NoBar : (f n : ℕ) (out : Text) → NoBar out → NoBar (digits f n out)
unfolding digits
digits-NoBar zero n out h = h
digits-NoBar (suc f) n out h = elim (Bool-cases (ltb n 10)) [
  | inl y ↦ rw y (omega (arith, ltb→lt n 10 y), h)
  | inr z ↦ rw z (digits-NoBar f (n / 10) ((b'0' + n % 10) ∷ out) (omega arith, h))
]

decimal-NoBar : (n : ℕ) → NoBar (decimal n)
unfolding decimal
decimal-NoBar n = digits-NoBar (suc n) n [] tt

NoBar-append : (xs d : Text) → NoBar (xs ++ b'|' ∷ d) → ⊥
NoBar-append [] d h = h.0 refl
NoBar-append (x ∷ xs) d h = NoBar-append xs d h.1

-- The last bar splits a text in one way.
last_bar :
    (xs ys d d' : Text)
    → NoBar d
    → NoBar d'
    → xs ++ b'|' ∷ d ≡ ys ++ b'|' ∷ d'
    → (xs ≡ ys) × (d ≡ d')
last_bar [] [] d d' h h' e = (refl, cc)
last_bar [] (y ∷ ys) d d' h h' e =
    let tail : d ≡ ys ++ b'|' ∷ d' = cc in absurd (NoBar-append ys d' (rw tail at h))
last_bar (x ∷ xs) [] d d' h h' e =
    let tail : d' ≡ xs ++ b'|' ∷ d = cc in absurd (NoBar-append xs d (rw tail at h'))
last_bar (x ∷ xs) (y ∷ ys) d d' h h' e =
    let same : x ≡ y = cc in
    let tails : xs ++ b'|' ∷ d ≡ ys ++ b'|' ∷ d' = cc in
    let ih = last_bar xs ys d d' h h' tails in (cc (same, ih.0), ih.1)

decimal_inj : (m n : ℕ) → decimal m ≡ decimal n → m ≡ n
decimal_inj m n e = sym (number_from-decimal m) ∙ ap (number_from 0) e ∙ number_from-decimal n

window_key_parts :
    (ag kind : Text) (win ws : ℕ)
    → window_key ag kind win ws
      ≡ ((ag ++ b'|' ∷ decimal ws) ++ b'|' ∷ decimal (add64 ws win)) ++ b'|' ∷ kind
unfolding window_key
window_key_parts ag kind win ws = simp (append_assoc)

-- Two windows of one kind and length with one key have one asset group and one start.
pub window_key_inj :
    (ag ag' kind : Text) (win ws ws' : ℕ)
    → window_key ag kind win ws ≡ window_key ag' kind win ws'
    → (ag ≡ ag') × (ws ≡ ws')
window_key_inj ag ag' kind win ws ws' e =
    let whole =
      append_cancel_right ((ag ++ b'|' ∷ decimal ws) ++ b'|' ∷ decimal (add64 ws win))
        ((ag' ++ b'|' ∷ decimal ws') ++ b'|' ∷ decimal (add64 ws' win)) (b'|' ∷ kind)
        (sym (window_key_parts ag kind win ws) ∙ e ∙ window_key_parts ag' kind win ws') in
    let front =
      last_bar (ag ++ b'|' ∷ decimal ws) (ag' ++ b'|' ∷ decimal ws') (decimal (add64 ws win))
        (decimal (add64 ws' win)) (decimal-NoBar (add64 ws win)) (decimal-NoBar (add64 ws' win))
        whole in
    let parts =
      last_bar ag ag' (decimal ws) (decimal ws') (decimal-NoBar ws) (decimal-NoBar ws') front.0 in
    (parts.0, decimal_inj ws ws' parts.1)
