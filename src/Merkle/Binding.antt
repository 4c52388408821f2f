-- ===== src/Merkle/Binding.antt =====
-- A root binds its leaves, up to a collision of the hash.
use audit_forwarder.Prelude.{
  ℕ, ◌/◌, ◌%◌, ◌≡◌, ◌≢◌, refl, sym, ◌⊎◌, inl, inr, true, false, List, [], ◌∷◌, ◌++◌, arith, length,
  Text, ap, ◌∙◌, length-append, ◌==◌, Any, Bool-cases, text_eq, text_eq→≡, text_eq_refl,
}
use audit_forwarder.Hex.RoundTrip.{length-to_hex}
use audit_forwarder.Crypto.{OpenSsl, sha256_hex}
use audit_forwarder.Merkle.{join, fold_proof, verify}

-- A text of the first list and a different one of the second with one hash.
abbrev pub Collision : OpenSsl → List Text → List Text → Type 0
Collision ssl xs ys = Any (λ s. Any (λ t. (s ≢ t) × (sha256_hex ssl s ≡ sha256_hex ssl t)) ys) xs

append_left_cancel : (a b s t : Text) → length a ≡ length b → a ++ s ≡ b ++ t → (a ≡ b) × (s ≡ t)
append_left_cancel [] [] s t h e = (refl, e)
append_left_cancel [] (y ∷ b) s t h e = absurd (omega arith)
append_left_cancel (x ∷ a) [] s t h e = absurd (omega arith)
append_left_cancel (x ∷ a) (y ∷ b) s t h e = ground (arith, append_left_cancel a b s t)

append_right_cancel : (s t a b : Text) → length a ≡ length b → s ++ a ≡ t ++ b → a ≡ b
append_right_cancel [] [] a b h e = e
append_right_cancel [] (y ∷ t) a b h e = absurd (omega (arith, ap length e, length-append t b))
append_right_cancel (x ∷ s) [] a b h e = absurd (omega (arith, ap length e, length-append s a))
append_right_cancel (x ∷ s) (y ∷ t) a b h e = append_right_cancel s t a b h (ground arith)

module _ (ssl : OpenSsl) where
  pub length-sha256_hex : (s : Text) → length (sha256_hex ssl s) ≡ 64
  unfolding sha256_hex
  length-sha256_hex s = omega (arith, length-to_hex (ssl.sha256 s), ssl.sha256_size s)

  Differ : Text → Text → Type 0
  Differ s t = (s ≢ t) × (sha256_hex ssl s ≡ sha256_hex ssl t)

  same_input : (s t : Text) → sha256_hex ssl s ≡ sha256_hex ssl t → (s ≡ t) ⊎ Differ s t
  unfolding Differ
  same_input s t e = elim (Bool-cases (text_eq s t)) [
    | inl same ↦ inl (text_eq→≡ s t same)
    | inr differ ↦ inr (apart differ, e)
  ]
    where
      apart : text_eq s t ≡ false → s ≢ t
      apart differ same = ground (arith, text_eq_refl t)

  -- The texts that a check hashes above the leaf, and all that it hashes.
  joins : Text → ℕ → List Text → List Text
  joins h i [] = []
  joins h i (s ∷ path) = join ssl i h s ∷ joins (sha256_hex ssl (join ssl i h s)) (i / 2) path

  pub hashed : Text → ℕ → List Text → List Text
  hashed leaf i path = leaf ∷ joins (sha256_hex ssl leaf) i path

  Collision-cons :
      (x y : Text) (xs ys : List Text) → Collision ssl xs ys → Collision ssl (x ∷ xs) (y ∷ ys)
  Collision-cons x y xs ys c = inr (wider xs c)
    where
      wider :
          (l : List Text)
          → Any (λ s. Any (λ t. (s ≢ t) × (sha256_hex ssl s ≡ sha256_hex ssl t)) ys) l
          → Any (λ s. Any (λ t. (s ≢ t) × (sha256_hex ssl s ≡ sha256_hex ssl t)) (y ∷ ys)) l
      wider [] c = c
      wider (a ∷ l) (inl c) = inl (inr c)
      wider (a ∷ l) (inr c) = inr (wider l c)

  join_injective :
      (i : ℕ) (h k s t : Text) → length h ≡ length k → join ssl i h s ≡ join ssl i k t → h ≡ k
  unfolding join
  join_injective i h k s t same e = elim (Bool-cases (i % 2 == 0)) [
    | inl even ↦ (append_left_cancel h k s t same (rw even at e)).0
    | inr odd ↦ append_right_cancel s t h k same (rw odd at e)
  ]

  fold_proof_injective :
      (h k : Text) (i : ℕ) (path path' : List Text)
      → length path ≡ length path'
      → length h ≡ length k
      → fold_proof ssl h i path ≡ fold_proof ssl k i path'
      → (h ≡ k) ⊎ Collision ssl (joins h i path) (joins k i path')
  unfolding fold_proof joins Differ
  fold_proof_injective h k i [] [] hp same e = inl e
  fold_proof_injective h k i [] (t ∷ path') hp same e = absurd (omega arith)
  fold_proof_injective h k i (s ∷ path) [] hp same e = absurd (omega arith)
  fold_proof_injective h k i (s ∷ path) (t ∷ path') hp same e =
      elim (fold_proof_injective (sha256_hex ssl (join ssl i h s)) (sha256_hex ssl (join ssl i k t))
        (i / 2) path path' (omega arith)
        (length-sha256_hex (join ssl i h s) ∙ sym (length-sha256_hex (join ssl i k t))) e) [
          | inr above ↦ inr (Collision-cons (join ssl i h s) (join ssl i k t) _ _ above)
          | inl eq ↦ elim (same_input (join ssl i h s) (join ssl i k t) eq) [
            | inl one ↦ inl (join_injective i h k s t same one)
            | inr two ↦ inr (inl (inl two))
          ]
        ]

  -- If two leaves are accepted at one index against one root, by paths of one length, they are the
  -- same leaf, or one of the texts that the first check hashed and a different one of those that the
  -- second check hashed have the same SHA-256 hash.
  pub verify-binding :
      (root leaf leaf' : Text) (i : ℕ) (path path' : List Text)
      → length path ≡ length path'
      → verify ssl root leaf i path ≡ true
      → verify ssl root leaf' i path' ≡ true
      → (leaf ≡ leaf') ⊎ Collision ssl (hashed leaf i path) (hashed leaf' i path')
  unfolding verify hashed Differ
  verify-binding root leaf leaf' i path path' hp v v' =
      elim (fold_proof_injective (sha256_hex ssl leaf) (sha256_hex ssl leaf') i path path' hp
        (length-sha256_hex leaf ∙ sym (length-sha256_hex leaf'))
        (text_eq→≡ _ root v ∙ sym (text_eq→≡ _ root v'))) [
          | inr above ↦ inr (Collision-cons leaf leaf' _ _ above)
          | inl eq ↦ elim (same_input leaf leaf' eq) [
            | inl one ↦ inl one
            | inr two ↦ inr (inl (inl two))
          ]
        ]
