-- ===== src/Merkle/Proof.antt =====
-- Every leaf has a proof, and its proof is accepted against the root of the tree.
use audit_forwarder.Prelude.{
  ℕ, zero, suc, ◌+◌, ◌-◌, ◌/◌, ◌%◌, ◌≤◌, ◌<◌, ◌≡◌, refl, sym, true, false, some, List, [], ◌∷◌,
  ◌++◌, arith, length, get_or, last_or, Text, ap, ◌∙◌, ltb, leb, ◌==◌, if◌then◌else◌, inl, inr,
  Bool-cases, text_eq_refl,
}
use audit_forwarder.Crypto.{OpenSsl, sha256_hex}
use audit_forwarder.Merkle.{
  leaf_hashes, next_level, upper_layers, build, root_hex, sibling, proof_loop, proof, join,
  fold_proof, verify,
}
use audit_forwarder.Merkle.Build.{length-next_level, length-leaf_hashes}

module _ (ssl : OpenSsl) where
  even_step : (i : ℕ) → (suc (suc i) % 2 == 0) ≡ (i % 2 == 0)
  even_step i = ap (λ n. n == 0) (let e : suc (suc i) % 2 ≡ i % 2 = omega arith in e)

  abbrev get_within : List Text → ℕ → ℕ → Text
  get_within cur pair idx = if ltb pair (length cur) then get_or cur pair [] else get_or cur idx []

  sibling_even :
      (cur : List Text) (i : ℕ) → (i % 2 == 0) ≡ true → sibling ssl cur i ≡ get_within cur (i + 1) i
  unfolding sibling
  sibling_even cur i e = rw e

  sibling_odd :
      (cur : List Text) (j : ℕ)
      → (suc j % 2 == 0) ≡ false
      → sibling ssl cur (suc j) ≡ get_within cur j (suc j)
  unfolding sibling
  sibling_odd cur j e = let p : suc j - 1 ≡ j = omega arith in rw (e, p)

  get_within_step :
      (l r : Text) (rest : List Text) (j i : ℕ)
      → get_within (l ∷ r ∷ rest) (suc (suc j)) (suc (suc i)) ≡ get_within rest j i
  get_within_step l r rest j i = ap (λ b. if b then get_or rest j [] else get_or rest i []) shift
    where
      shift : ltb (suc (suc j)) (suc (suc (length rest))) ≡ ltb j (length rest)
      shift = ground arith

  sibling_step :
      (l r : Text) (rest : List Text) (i : ℕ)
      → sibling ssl (l ∷ r ∷ rest) (suc (suc i)) ≡ sibling ssl rest i
  sibling_step l r rest i = elim (Bool-cases (i % 2 == 0)) [
    | inl e ↦
        let next : suc (suc i) + 1 ≡ suc (suc (i + 1)) = omega arith in
        rw
          (sibling_even (l ∷ r ∷ rest) (suc (suc i)) (even_step i ∙ e), sibling_even rest i e, next)
          (get_within_step l r rest (i + 1) i)
    | inr e ↦ odd i e
  ]
    where
      odd :
          (i : ℕ)
          → (i % 2 == 0) ≡ false
          → sibling ssl (l ∷ r ∷ rest) (suc (suc i)) ≡ sibling ssl rest i
      odd zero e = cc
      odd (suc j) e =
          rw
            (sibling_odd (l ∷ r ∷ rest) (suc (suc j)) (even_step (suc j) ∙ e), sibling_odd rest j e)
            (get_within_step l r rest j (suc j))

  join_step : (i : ℕ) (h s : Text) → join ssl (suc (suc i)) h s ≡ join ssl i h s
  unfolding join
  join_step i h s = rw (even_step i)

  first_pair :
      (l r : Text) (rest : List Text)
      → (sibling ssl (l ∷ r ∷ rest) 0 ≡ r) × (sibling ssl (l ∷ r ∷ rest) 1 ≡ l)
  unfolding sibling
  first_pair l r rest = (ground arith, ground arith)

  -- One level up: the hash of a node joined with its sibling is its parent.
  level_step :
      (cur : List Text) (i : ℕ)
      → i < length cur
      → sha256_hex ssl (join ssl i (get_or cur i []) (sibling ssl cur i))
        ≡ get_or (next_level ssl cur) (i / 2) []
  unfolding next_level join
  level_step [] i h = absurd (omega arith)
  level_step (l ∷ []) zero h = ap (λ s. sha256_hex ssl (l ++ s)) (sibling_even (l ∷ []) 0 refl)
  level_step (l ∷ []) (suc i) h = absurd (omega arith)
  level_step (l ∷ r ∷ rest) zero h = ap (λ s. sha256_hex ssl (l ++ s)) (first_pair l r rest).0
  level_step (l ∷ r ∷ rest) (suc zero) h = ap (λ s. sha256_hex ssl (s ++ r)) (first_pair l r rest).1
  level_step (l ∷ r ∷ rest) (suc (suc i)) h =
      let half : suc (suc i) / 2 ≡ suc (i / 2) = omega arith in
      rw (half, sibling_step l r rest i, even_step i) (level_step rest i (omega arith))

  -- The path that a climb from `cur` proves.
  abbrev Climbs : ℕ → List Text → ℕ → Type 0
  Climbs f cur i =
      (layers : List Text) × (path : List Text) × (upper_layers ssl f cur ≡ some layers)
      × (proof_loop ssl f cur i ≡ some path)
      × (fold_proof ssl (get_or cur i []) i path ≡ last_or (last_or [] cur) layers)

  climb : (f : ℕ) (cur : List Text) (i : ℕ) → i < length cur → length cur ≤ f → Climbs f cur i
  unfolding upper_layers proof_loop fold_proof
  climb zero cur i h hf = absurd (omega arith)
  climb (suc f) [] i h hf = absurd (omega arith)
  climb (suc f) (x ∷ []) zero h hf = ([], [], refl, refl, refl)
  climb (suc f) (x ∷ []) (suc i) h hf = absurd (omega arith)
  climb (suc f) (x ∷ y ∷ rest) i h hf =
      let nxt = next_level ssl (x ∷ y ∷ rest) in
      let (layers, path, up, pf, eq) =
        climb f nxt (i / 2) (omega (arith, length-next_level ssl (x ∷ y ∷ rest)))
          (omega (arith, length-next_level ssl (x ∷ y ∷ rest))) in
      (
        last_or [] nxt ∷ layers,
        sibling ssl (x ∷ y ∷ rest) i ∷ path,
        rw up,
        rw pf,
        rw (level_step (x ∷ y ∷ rest) i h) eq,
      )

  get_leaf :
      (leaves : List Text) (i : ℕ)
      → i < length leaves
      → get_or (leaf_hashes ssl leaves) i [] ≡ sha256_hex ssl (get_or leaves i [])
  unfolding leaf_hashes
  get_leaf [] i h = absurd (omega arith)
  get_leaf (l ∷ leaves) zero h = refl
  get_leaf (l ∷ leaves) (suc i) h = get_leaf leaves i (omega arith)

  abbrev Accepted : List Text → ℕ → Type 0
  Accepted leaves i =
      (root : Text) × (path : List Text) × (root_hex ssl leaves ≡ some root)
      × (proof ssl leaves i ≡ some path)
      × (verify ssl root (get_or leaves i []) i path ≡ true)

  climbed :
      (l : Text) (leaves : List Text) (i : ℕ)
      → i < length (l ∷ leaves)
      → Climbs (length (leaf_hashes ssl (l ∷ leaves))) (leaf_hashes ssl (l ∷ leaves)) i
      → Accepted (l ∷ leaves) i
  unfolding root_hex build proof verify
  climbed l leaves i h (layers, path, up, pf, eq) =
      let inside : leb (length (l ∷ leaves)) i ≡ false = ground arith in
      let same = sym (length-leaf_hashes ssl (l ∷ leaves)) in
      (
        last_or (last_or [] (leaf_hashes ssl (l ∷ leaves))) layers,
        path,
        rw up,
        rw inside (ap (λ n. proof_loop ssl n (leaf_hashes ssl (l ∷ leaves)) i) same ∙ pf),
        rw (← get_leaf (l ∷ leaves) i h, eq) (text_eq_refl _),
      )

  -- For each leaf of a list the tree is built, `proof` gives a path, and `verify` accepts the leaf
  -- at its index with that path against the root.
  pub verify-proof :
      (leaves : List Text) (i : ℕ)
      → i < length leaves
      → (root : Text) × (path : List Text) × (root_hex ssl leaves ≡ some root)
        × (proof ssl leaves i ≡ some path)
        × (verify ssl root (get_or leaves i []) i path ≡ true)
  verify-proof [] i h = absurd (omega arith)
  verify-proof (l ∷ leaves) i h = climbed l leaves i h (
      climb (length (leaf_hashes ssl (l ∷ leaves))) (leaf_hashes ssl (l ∷ leaves)) i
        (omega (arith, length-leaf_hashes ssl (l ∷ leaves))) (omega arith))
