-- ===== src/Merkle/Padding.antt =====
-- An odd level is padded by its last entry, so a repeated last leaf leaves the root as it is.
use audit_forwarder.Prelude.{
  ℕ, zero, suc, ◌+◌, ◌/◌, ◌%◌, ◌≤◌, ◌≡◌, refl, sym, Option, none, some, List, [], ◌∷◌, ◌++◌, arith,
  length, last_or, Text, ap, ap₂, ◌∙◌, length-append,
}
use audit_forwarder.Crypto.{OpenSsl, sha256_hex}
use audit_forwarder.Merkle.{leaf_hashes, next_level, upper_layers, build, root_of, root_hex, cons?}
use audit_forwarder.Merkle.Build.{length-next_level, length-leaf_hashes}

module _ (ssl : OpenSsl) where
  -- The levels above are the same lists.
  next_level_repeat :
      (cur : List Text) (h : Text)
      → length cur % 2 ≡ 0
      → next_level ssl (cur ++ h ∷ h ∷ []) ≡ next_level ssl (cur ++ h ∷ [])
  unfolding next_level
  next_level_repeat [] h even = refl
  next_level_repeat (l ∷ []) h even = absurd (omega arith)
  next_level_repeat (l ∷ r ∷ cur) h even = rw (next_level_repeat cur h (omega arith))

  -- More fuel than the loop uses changes nothing.
  upper_layers_fuel :
      (f g : ℕ) (cur : List Text)
      → length cur ≤ f
      → length cur ≤ g
      → 1 ≤ length cur
      → upper_layers ssl f cur ≡ upper_layers ssl g cur
  unfolding upper_layers
  upper_layers_fuel zero g cur hf hg hc = absurd (omega arith)
  upper_layers_fuel (suc f) zero cur hf hg hc = absurd (omega arith)
  upper_layers_fuel (suc f) (suc g) [] hf hg hc = refl
  upper_layers_fuel (suc f) (suc g) (x ∷ []) hf hg hc = refl
  upper_layers_fuel (suc f) (suc g) (x ∷ y ∷ rest) hf hg hc =
      let n = length-next_level ssl (x ∷ y ∷ rest) in
      ap (cons? (last_or [] (next_level ssl (x ∷ y ∷ rest)))) (
        upper_layers_fuel f g (next_level ssl (x ∷ y ∷ rest)) (omega (arith, n)) (omega (arith, n))
          (omega (arith, n)))

  -- The lowest layer does not show in the root, once there is one above it.
  root_of_above :
      (a b : Text) (o : Option (List Text))
      → root_of ssl (cons? a (cons? b o)) ≡ root_of ssl (cons? b o)
  root_of_above a b none = refl
  root_of_above a b (some layers) = refl

  abbrev root_from : ℕ → List Text → Option Text
  root_from f cur = root_of ssl (cons? (last_or [] cur) (upper_layers ssl f cur))

  root_from_step :
      (f : ℕ) (cur : List Text)
      → 2 ≤ length cur
      → root_from (suc f) cur ≡ root_from f (next_level ssl cur)
  unfolding upper_layers
  root_from_step f [] h = absurd (omega arith)
  root_from_step f (x ∷ []) h = absurd (omega arith)
  root_from_step f (x ∷ y ∷ rest) h =
      root_of_above (last_or [] (x ∷ y ∷ rest)) (last_or [] (next_level ssl (x ∷ y ∷ rest)))
        (upper_layers ssl f (next_level ssl (x ∷ y ∷ rest)))

  root_from_repeat :
      (f g : ℕ) (cur : List Text) (h : Text)
      → length cur % 2 ≡ 0
      → 2 ≤ length cur
      → length cur ≤ f
      → length cur ≤ g
      → root_from (suc f) (cur ++ h ∷ h ∷ []) ≡ root_from (suc g) (cur ++ h ∷ [])
  root_from_repeat f g cur h even two hf hg =
      root_from_step f (cur ++ h ∷ h ∷ []) (omega (arith, long))
      ∙ ap (root_from f) (next_level_repeat cur h even)
      ∙ ap (λ o. root_of ssl (cons? (last_or [] nxt) o))
          (upper_layers_fuel f g nxt (omega (arith, up, short)) (omega (arith, up, short))
            (omega (arith, up, short)))
      ∙ sym (root_from_step g (cur ++ h ∷ []) (omega (arith, short)))
    where
      nxt : List Text
      nxt = next_level ssl (cur ++ h ∷ [])

      long : length (cur ++ h ∷ h ∷ []) ≡ length cur + 2
      long = length-append cur (h ∷ h ∷ [])

      short : length (cur ++ h ∷ []) ≡ length cur + 1
      short = length-append cur (h ∷ [])

      up : length nxt ≡ (length (cur ++ h ∷ []) + 1) / 2
      up = length-next_level ssl (cur ++ h ∷ [])

  leaf_hashes-append :
      (xs ys : List Text) → leaf_hashes ssl (xs ++ ys) ≡ leaf_hashes ssl xs ++ leaf_hashes ssl ys
  unfolding leaf_hashes
  leaf_hashes-append [] ys = refl
  leaf_hashes-append (x ∷ xs) ys = ap (◌∷◌ (sha256_hex ssl x)) (leaf_hashes-append xs ys)

  root_hex-root_from :
      (xs : List Text)
      → 1 ≤ length xs
      → root_hex ssl xs ≡ root_from (length xs) (leaf_hashes ssl xs)
  unfolding root_hex build
  root_hex-root_from [] h = absurd (omega arith)
  root_hex-root_from (x ∷ xs) h =
      ap (λ n. root_from n (leaf_hashes ssl (x ∷ xs))) (length-leaf_hashes ssl (x ∷ xs))

  -- Adding the last of an odd number of leaves (three at least) once more leaves the root as it is:
  -- one root, and so one signature, stands for two different lists of events.
  pub root_hex-repeat :
      (xs : List Text) (l : Text)
      → length xs % 2 ≡ 0
      → 2 ≤ length xs
      → root_hex ssl (xs ++ l ∷ l ∷ []) ≡ root_hex ssl (xs ++ l ∷ [])
  unfolding leaf_hashes root_hex
  root_hex-repeat xs l even two =
      root_hex-root_from (xs ++ l ∷ l ∷ []) (omega (arith, long))
      ∙ ap₂ root_from n2 (leaf_hashes-append xs (l ∷ l ∷ []))
      ∙ root_from_repeat (suc (length xs)) (length xs) (leaf_hashes ssl xs) (sha256_hex ssl l)
          (omega (arith, hashes)) (omega (arith, hashes)) (omega (arith, hashes))
          (omega (arith, hashes))
      ∙ sym (ap₂ root_from n1 (leaf_hashes-append xs (l ∷ [])))
      ∙ sym (root_hex-root_from (xs ++ l ∷ []) (omega (arith, short)))
    where
      hashes : length (leaf_hashes ssl xs) ≡ length xs
      hashes = length-leaf_hashes ssl xs

      long : length (xs ++ l ∷ l ∷ []) ≡ length xs + 2
      long = length-append xs (l ∷ l ∷ [])

      short : length (xs ++ l ∷ []) ≡ length xs + 1
      short = length-append xs (l ∷ [])

      n2 : length (xs ++ l ∷ l ∷ []) ≡ suc (suc (length xs))
      n2 = omega (arith, long)

      n1 : length (xs ++ l ∷ []) ≡ suc (length xs)
      n1 = omega (arith, short)
