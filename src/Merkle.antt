-- ===== src/Merkle.antt =====
-- The Merkle tree over event hashes: `MerkleTree` (shared/src/crypto/crypto.cpp).
pub mod Build
pub mod Proof
pub mod Binding
pub mod Padding
use audit_forwarder.Prelude.{
  ℕ, zero, suc, ◌+◌, ◌-◌, ◌/◌, ◌%◌, Bool, true, false, Option, none, some, List, [], ◌∷◌, ◌++◌, map,
  length, get_or, last_or, ltb, leb, ◌==◌, if◌then◌else◌, Text, text_eq,
}
use audit_forwarder.Crypto.{OpenSsl, sha256_hex}

-- Put in front of a list that may be missing.
abbrev pub cons? {ℓ} : {A : Type ℓ} → A → Option (List A) → Option (List A)
cons? x none = none
cons? x (some xs) = some (x ∷ xs)

module _ (ssl : OpenSsl) where
  -- `to_hex(sha256(l))` of each leaf.
  unfoldable pub leaf_hashes : List Text → List Text
  leaf_hashes = map (sha256_hex ssl)

  -- The `for` loop that makes the next level; an odd last entry is paired with itself.
  unfoldable pub next_level : List Text → List Text
  next_level [] = []
  next_level (l ∷ []) = sha256_hex ssl (l ++ l) ∷ []
  next_level (l ∷ r ∷ rest) = sha256_hex ssl (l ++ r) ∷ next_level rest

  -- The `while (cur.size() > 1)` loop: the last entry of each new level. `none` says that the
  -- fuel ran out.
  unfoldable pub upper_layers : ℕ → List Text → Option (List Text)
  unfolding next_level
  upper_layers zero cur = none
  upper_layers (suc f) [] = some []
  upper_layers (suc f) (h ∷ []) = some []
  upper_layers (suc f) (h ∷ h' ∷ rest) =
      let nxt = next_level (h ∷ h' ∷ rest) in cons? (last_or [] nxt) (upper_layers f nxt)

  -- `build`: the field `layers_hex_`.
  unfoldable pub build : List Text → Option (List Text)
  unfolding upper_layers leaf_hashes
  build [] = some (sha256_hex ssl [] ∷ [])
  build (l ∷ leaves) =
      let cur = leaf_hashes (l ∷ leaves) in cons? (last_or [] cur) (upper_layers (length cur) cur)

  abbrev root_of : Option (List Text) → Option Text
  root_of none = none
  root_of (some []) = some (sha256_hex ssl [])
  root_of (some (h ∷ layers)) = some (last_or h layers)

  -- `root_hex` of the tree over the leaves.
  unfoldable pub root_hex : List Text → Option Text
  unfolding build
  root_hex leaves = root_of (build leaves)

  -- `pair < cur.size() ? cur[pair] : cur[idx]`.
  unfoldable pub sibling : List Text → ℕ → Text
  sibling cur idx =
      let pair = if idx % 2 == 0 then idx + 1 else idx - 1 in
      if ltb pair (length cur) then get_or cur pair [] else get_or cur idx []

  -- The loop of `proof`.
  unfoldable pub proof_loop : ℕ → List Text → ℕ → Option (List Text)
  unfolding next_level sibling
  proof_loop zero cur idx = none
  proof_loop (suc f) [] idx = some []
  proof_loop (suc f) (h ∷ []) idx = some []
  proof_loop (suc f) (h ∷ h' ∷ rest) idx =
      cons? (sibling (h ∷ h' ∷ rest) idx) (proof_loop f (next_level (h ∷ h' ∷ rest)) (idx / 2))

  unfoldable pub proof : List Text → ℕ → Option (List Text)
  unfolding proof_loop leaf_hashes
  proof leaves index =
      if leb (length leaves) index
      then some []
      else proof_loop (length leaves) (leaf_hashes leaves) index

  -- One round of `verify`: the two hashes joined in the order that the index gives.
  unfoldable pub join : ℕ → Text → Text → Text
  join idx h sib = if idx % 2 == 0 then h ++ sib else sib ++ h

  -- The loop of `verify`.
  unfoldable pub fold_proof : Text → ℕ → List Text → Text
  unfolding join
  fold_proof h idx [] = h
  fold_proof h idx (sib ∷ proof) = fold_proof (sha256_hex ssl (join idx h sib)) (idx / 2) proof

  unfoldable pub verify : Text → Text → ℕ → List Text → Bool
  unfolding fold_proof
  verify root leaf index proof = text_eq (fold_proof (sha256_hex ssl leaf) index proof) root

  -- `root_hex()` as a plain text; that the tree is always built is a theorem.
  unfoldable pub root_text : List Text → Text
  root_text leaves = elim (root_hex leaves) [ none ↦ [] | some root ↦ root ]
