-- ===== src/Glob/Complete.antt =====
-- Completeness of the wildcard loop on texts that hold no literal `*`.
use audit_forwarder.Prelude.{
  ℕ, zero, suc, ◌≡◌, ◌≢◌, ◌↔◌, refl, subst, ◌⊎◌, Bool, true, false, ◌||◌, Option, none, some, [],
  ◌∷◌, arith, ◌==◌, if◌then◌else◌, Text, ==_iff,
}
use audit_forwarder.Text.{lower, to_lower}
use audit_forwarder.Glob.{
  Mark, fuel_for, only_stars, fall_back, glob_loop, match_folded, wildcard_run, wildcard_match,
}
use audit_forwarder.Glob.Spec.{Glob, done, byte, skip, eat, StarFree}
use audit_forwarder.Glob.Total.{wildcard_run-total}
use audit_forwarder.Glob.Sound.{wildcard_match_sound}

module _ {p : Text} where
  -- A star at the end of the text takes nothing.
  star_at_end : {x : ℕ} → x ≡ b'*' → Glob (x ∷ p) [] → Glob p []
  star_at_end e (skip _ g) = g

  -- Where the rest of the pattern does not fit at once, the star takes the next byte.
  star_must_eat :
      {x c : ℕ} {t : Text} → x ≡ b'*' → ¬ Glob p (c ∷ t) → Glob (x ∷ p) (c ∷ t) → Glob (x ∷ p) t
  star_must_eat e n (byte ne _ _) = absurd (ne e)
  star_must_eat e n (skip _ g) = absurd (n g)
  star_must_eat e n (eat _ g) = g

  two_stars : {x y : ℕ} {t : Text} → x ≡ b'*' → y ≡ b'*' → Glob (x ∷ y ∷ p) t → Glob (y ∷ p) t
  two_stars ex ey (byte ne _ _) = absurd (ne ex)
  two_stars ex ey (skip _ g) = g
  two_stars ex ey (eat e g) = eat ey (two_stars ex ey g)

  -- A byte that is no star begins the rest of the pattern: the star before it loses nothing when
  -- that byte is passed at the first place.
  pass_byte :
      {x y : ℕ} {c : ℕ} (t : Text) → x ≡ b'*' → y ≢ b'*' → Glob (x ∷ y ∷ p) (c ∷ t) → Glob (x ∷ p) t
  pass_byte t ex ny (byte ne _ _) = absurd (ne ex)
  pass_byte t ex ny (skip _ (byte _ _ g)) = skip ex g
  pass_byte t ex ny (skip _ (skip e g)) = absurd (ny e)
  pass_byte t ex ny (skip _ (eat e g)) = absurd (ny e)
  pass_byte [] ex ny (eat _ (skip _ (skip e g))) = absurd (ny e)
  pass_byte (c ∷ t) ex ny (eat _ g) = eat ex (pass_byte t ex ny g)

byte_inv :
    {x c : ℕ} {p t : Text} → x ≢ b'*' → Glob (x ∷ p) (c ∷ t) → ((x ≡ b'?') ⊎ (x ≡ c)) × Glob p t
byte_inv n (byte _ e g) = (e, g)
byte_inv n (skip e g) = absurd (n e)
byte_inv n (eat e g) = absurd (n e)

Glob→only_stars : {p : Text} → Glob p [] → only_stars p ≡ true
unfolding only_stars
Glob→only_stars done = refl
Glob→only_stars (skip e g) = ground (arith, Glob→only_stars g)

-- `G` is the question: does the whole text fit the whole pattern.
module _ (G : Type 0) where
  abbrev Kept : Text → Text → Mark → Type 0
  Kept p t none = G → Glob p t
  Kept p t (some (bp, bt)) = StarFree bt × (G → Glob (b'*' ∷ bp) bt) × (Glob bp bt → Glob p t)

  -- The state of the loop still answers `G`.
  record Inv (p t : Text) (mark : Mark) : Type 0 where
    free : StarFree t
    ahead : G → Glob (b'*' ∷ p) t
    kept : Kept p t mark

  -- An answer `false` refutes `G`.
  abbrev Refutes : Option Bool → Type 0
  Refutes r = r ≡ some false → ¬ G

  if_Refutes :
      (b : Bool) (x y : Option Bool)
      → (b ≡ true → Refutes x)
      → (b ≡ false → Refutes y)
      → Refutes (if b then x else y)
  if_Refutes true x y hx hy = hx refl
  if_Refutes false x y hx hy = hy refl

  fall_back-Refutes :
      (f c : ℕ) (p t : Text) (mark : Mark)
      → ((p' t' : Text) (mark' : Mark) → Inv p' t' mark' → Refutes (glob_loop f p' t' mark'))
      → ¬ Glob p (c ∷ t)
      → Inv p (c ∷ t) mark
      → Refutes (fall_back mark (glob_loop f))
  unfolding fall_back
  fall_back-Refutes f c p t none next miss i = λ _ g. miss (i.kept g)
  fall_back-Refutes f c p t (some (bp, [])) next miss i = λ e. absurd (ground arith)
  fall_back-Refutes f c p t (some (bp, d ∷ bt)) next miss i = next bp bt (some (bp, bt)) (record {
    free = i.kept.0.1;
    ahead = λ g. star_must_eat refl (λ k. miss (i.kept.2 k)) (i.kept.1 g);
    kept = (i.kept.0.1, λ g. star_must_eat refl (λ k. miss (i.kept.2 k)) (i.kept.1 g), λ k. k);
  })

  Kept-byte :
      (x c : ℕ) (p t : Text) (mark : Mark) → x ≢ b'*' → Kept (x ∷ p) (c ∷ t) mark → Kept p t mark
  Kept-byte x c p t none n k = λ g. (byte_inv n (k g)).1
  Kept-byte x c p t (some (bp, bt)) n k = (k.0, k.1, λ h. (byte_inv n (k.2 h)).1)

  Inv-byte :
      (x c : ℕ) (p t : Text) (mark : Mark)
      → (x == b'?' || x == c) ≡ true
      → Inv (x ∷ p) (c ∷ t) mark
      → Inv p t mark
  Inv-byte x c p t mark e i =
      let n : x ≢ b'*' = no_star x c e i.free.0 in
      record {
        free = i.free.1;
        ahead = λ g. pass_byte t refl n (i.ahead g);
        kept = Kept-byte x c p t mark n i.kept;
      }
    where
      no_star : (x c : ℕ) → (x == b'?' || x == c) ≡ true → c ≢ b'*' → x ≢ b'*'
      no_star x c e n = ground arith

  glob_loop-Refutes :
      (f : ℕ) (p t : Text) (mark : Mark) → Inv p t mark → Refutes (glob_loop f p t mark)
  unfolding glob_loop
  glob_loop-Refutes zero p t mark i = λ e. absurd (ground arith)
  glob_loop-Refutes (suc f) p [] mark i =
      λ e g. absurd (ground (arith, Glob→only_stars (star_at_end refl (i.ahead g))))
  glob_loop-Refutes (suc f) [] (c ∷ t) mark i =
      fall_back-Refutes f c [] t mark (glob_loop-Refutes f) (λ g. elim g [ ]) i
  glob_loop-Refutes (suc f) (x ∷ p) (c ∷ t) mark i =
      if_Refutes (x == b'?' || x == c) _ _
        (λ e. glob_loop-Refutes f p t mark (Inv-byte x c p t mark e i))
        (λ ne.
          if_Refutes (x == b'*') _ _
            (λ e.
              let star = (==_iff x b'*').0 e in
              let again = λ (g : G).
                subst (λ y. Glob (y ∷ p) (c ∷ t)) star (two_stars refl star (i.ahead g)) in
              glob_loop-Refutes f p (c ∷ t) (some (p, c ∷ t))
                (record { free = i.free; ahead = again; kept = (i.free, again, λ k. k) }))
            (λ ns.
              fall_back-Refutes f c (x ∷ p) t mark (glob_loop-Refutes f) (misses x c p t ne ns) i))
    where
      misses :
          (x c : ℕ) (p t : Text)
          → (x == b'?' || x == c) ≡ false
          → (x == b'*') ≡ false
          → ¬ Glob (x ∷ p) (c ∷ t)
      misses x c p t ne ns g = let n : x ≢ b'*' = ground arith in ground (arith, (byte_inv n g).0)

StarFree-lower : (t : Text) → StarFree t → StarFree (lower t)
unfolding lower
StarFree-lower [] h = tt
StarFree-lower (c ∷ t) h = (keeps c h.0, StarFree-lower t h.1)
  where
    keeps : (c : ℕ) → c ≢ b'*' → to_lower c ≢ b'*'
    keeps c n = ground arith

wildcard_match_complete :
    (pattern text : Text)
    → StarFree text
    → Glob (lower pattern) (lower text)
    → wildcard_match pattern text ≡ true
unfolding wildcard_match wildcard_run match_folded
wildcard_match_complete pattern text free g =
    let (b, e) = wildcard_run-total pattern text in answer b e
  where
    refuted :
        (b : Bool)
        → wildcard_run pattern text ≡ some b
        → b ≡ false
        → ¬ Glob (lower pattern) (lower text)
    refuted b e eb =
        glob_loop-Refutes (Glob (lower pattern) (lower text))
          (fuel_for (lower pattern) (lower text)) (lower pattern) (lower text) none
          (record { free = StarFree-lower text free; ahead = λ k. skip refl k; kept = λ k. k })
          (ground arith)

    answer : (b : Bool) → wildcard_run pattern text ≡ some b → wildcard_match pattern text ≡ true
    answer true e = ground arith
    answer false e = absurd (refuted false e refl g)

-- On a text that holds no literal `*`, the answer is `true` exactly when the folded text is
-- described by the folded pattern.
pub wildcard_match_iff :
    (pattern text : Text)
    → StarFree text
    → (wildcard_match pattern text ≡ true) ↔ Glob (lower pattern) (lower text)
wildcard_match_iff pattern text free =
    (wildcard_match_sound pattern text, wildcard_match_complete pattern text free)
