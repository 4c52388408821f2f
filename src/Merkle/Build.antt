-- ===== src/Merkle/Build.antt =====
-- The tree is built for every list of leaves: the fuel of the loops is enough.
use audit_forwarder.Prelude.{
  suc, ◌+◌, ◌/◌, ◌≡◌, refl, Option, some, List, [], ◌∷◌, arith, length, Text, ap,
}
use audit_forwarder.Crypto.{OpenSsl}
use audit_forwarder.Merkle.{leaf_hashes, next_level, cons?}

module _ (ssl : OpenSsl) where
  pub length-next_level : (cur : List Text) → length (next_level ssl cur) ≡ (length cur + 1) / 2
  unfolding next_level
  length-next_level [] = omega arith
  length-next_level (l ∷ []) = omega arith
  length-next_level (l ∷ r ∷ rest) = omega (arith, length-next_level rest)

  pub length-leaf_hashes : (leaves : List Text) → length (leaf_hashes ssl leaves) ≡ length leaves
  unfolding leaf_hashes
  length-leaf_hashes [] = refl
  length-leaf_hashes (l ∷ leaves) = ap suc (length-leaf_hashes leaves)

  cons?-some {ℓ} :
      {A : Type ℓ} (x : A) (o : Option (List A))
      → ((xs : List A) × (o ≡ some xs))
      → (xs : List A) × (cons? x o ≡ some (x ∷ xs))
  cons?-some x o (xs, e) = (xs, rw e)
