-- ===== src/Maps.antt =====
-- A `std::map` from texts as an association list: `find`, `m[k] = v`, `erase`.
use audit_forwarder.Prelude.{
  ◌≡◌, ◌≢◌, refl, subst, false, Option, none, some, List, [], ◌∷◌, All, if◌then◌else◌, Text,
  text_eq, text_eq→≡, text_eq_refl, Bool-cases, inl, inr,
}
use audit_forwarder.Text.{text_lt}

pub text_eq_other : (k k' : Text) → k ≢ k' → text_eq k k' ≡ false
text_eq_other k k' n = elim (Bool-cases (text_eq k k')) [
  | inl y ↦ absurd (n (text_eq→≡ k k' y))
  | inr e ↦ e
]

pub none-some {ℓ} : {A : Type ℓ} (v : A) → ◌≡◌ {A = Option A} none (some v) → ⊥
none-some v h = absurd (cc)

pub some_same {ℓ} : {A : Type ℓ} (v w : A) → some v ≡ some w → v ≡ w
some_same v w h = cc

module _ {ℓ} {A : Type ℓ} where
  unfoldable pub find_key : List (Text × A) → Text → Option A
  find_key [] k = none
  find_key ((k', v) ∷ l) k = let rest = find_key l k in if text_eq k' k then some v else rest

  unfoldable pub erase_key : List (Text × A) → Text → List (Text × A)
  erase_key [] k = []
  erase_key ((k', v) ∷ l) k =
      let rest = erase_key l k in if text_eq k' k then rest else (k', v) ∷ rest

  unfoldable pub put_key : List (Text × A) → Text → A → List (Text × A)
  unfolding erase_key
  put_key l k v = (k, v) ∷ erase_key l k

  -- `m[k] = v` where the order of the map is kept.
  unfoldable pub insert_key : List (Text × A) → Text → A → List (Text × A)
  insert_key [] k v = (k, v) ∷ []
  insert_key ((k', w) ∷ l) k v =
      let rest = insert_key l k v in
      if text_eq k' k
      then (k, v) ∷ l
      else if text_lt k k'
      then (k, v) ∷ (k', w) ∷ l
      else (k', w) ∷ rest

  pub find_key-insert_same :
      (l : List (Text × A)) (k : Text) (v : A) → find_key (insert_key l k v) k ≡ some v
  unfolding find_key insert_key
  find_key-insert_same [] k v = rw (text_eq_refl k) refl
  find_key-insert_same ((k', w) ∷ l) k v = elim (Bool-cases (text_eq k' k)) [
    | inl y ↦ rw y (rw (text_eq_refl k) refl)
    | inr n ↦ elim (Bool-cases (text_lt k k')) [
      | inl z ↦ rw (n, z) (rw (text_eq_refl k) refl)
      | inr z ↦ rw (n, z) (rw n (find_key-insert_same l k v))
    ]
  ]

  pub find_key-insert_other :
      (l : List (Text × A)) (k x : Text) (v : A)
      → k ≢ x
      → find_key (insert_key l k v) x ≡ find_key l x
  unfolding find_key insert_key
  find_key-insert_other [] k x v n = rw (text_eq_other k x n) refl
  find_key-insert_other ((k', w) ∷ l) k x v n = elim (Bool-cases (text_eq k' k)) [
    | inl y ↦ rw y (rw (text_eq_other k x n, text_eq→≡ k' k y) (rw (text_eq_other k x n) refl))
    | inr d ↦ elim (Bool-cases (text_lt k k')) [
      | inl z ↦ rw (d, z) (rw (text_eq_other k x n) refl)
      | inr z ↦ rw (d, z) (rw (find_key-insert_other l k x v n) refl)
    ]
  ]

  pub find_key-erase_same : (l : List (Text × A)) (k : Text) → find_key (erase_key l k) k ≡ none
  unfolding find_key erase_key
  find_key-erase_same [] k = refl
  find_key-erase_same ((k', v) ∷ l) k = elim (Bool-cases (text_eq k' k)) [
    | inl y ↦ rw y (find_key-erase_same l k)
    | inr n ↦ rw n (rw n (find_key-erase_same l k))
  ]

  pub find_key-erase_other :
      (l : List (Text × A)) (k k' : Text) → k ≢ k' → find_key (erase_key l k) k' ≡ find_key l k'
  unfolding find_key erase_key
  find_key-erase_other [] k k' n = refl
  find_key-erase_other ((x, v) ∷ l) k k' n = elim (Bool-cases (text_eq x k)) [
    | inl y ↦ rw y (
        rw (text_eq_other x k' (λ e. n (rw (text_eq→≡ x k y) at e)))
          (find_key-erase_other l k k' n))
    | inr z ↦ rw z (rw (find_key-erase_other l k k' n) refl)
  ]

  pub find_key-put_same :
      (l : List (Text × A)) (k : Text) (v : A) → find_key (put_key l k v) k ≡ some v
  unfolding find_key put_key
  find_key-put_same l k v = rw (text_eq_refl k) refl

  pub find_key-put_other :
      (l : List (Text × A)) (k k' : Text) (v : A)
      → k ≢ k'
      → find_key (put_key l k v) k' ≡ find_key l k'
  unfolding find_key put_key
  find_key-put_other l k k' v n = rw (text_eq_other k k' n) (find_key-erase_other l k k' n)

module _ {ℓ} {A : Type ℓ} (P : Text × A → Type 0) where
  -- What holds of every entry and of a new one holds of every entry behind the insertion.
  pub insert_key-All :
      (l : List (Text × A)) (k : Text) (v : A) → All P l → P (k, v) → All P (insert_key l k v)
  unfolding insert_key
  insert_key-All [] k v h p = (p, tt)
  insert_key-All ((k', w) ∷ l) k v h p = elim (Bool-cases (text_eq k' k)) [
    | inl y ↦ rw y (p, h.1)
    | inr n ↦ elim (Bool-cases (text_lt k k')) [
      | inl z ↦ rw (n, z) (p, h)
      | inr z ↦ rw (n, z) (h.0, insert_key-All l k v h.1 p)
    ]
  ]

  pub erase_key-All : (l : List (Text × A)) (k : Text) → All P l → All P (erase_key l k)
  unfolding erase_key
  erase_key-All [] k h = tt
  erase_key-All ((k', w) ∷ l) k h = elim (Bool-cases (text_eq k' k)) [
    | inl y ↦ rw y (erase_key-All l k h.1)
    | inr n ↦ rw n (h.0, erase_key-All l k h.1)
  ]

  pub find_key-All :
      (l : List (Text × A)) (k : Text) (v : A) → All P l → find_key l k ≡ some v → P (k, v)
  unfolding find_key
  find_key-All [] k v h e = absurd (none-some v e)
  find_key-All ((k', w) ∷ l) k v h e = elim (Bool-cases (text_eq k' k)) [
    | inl y ↦
        let value : w ≡ v = some_same w v (rw y at e) in
        subst (λ x. P (x, v)) (text_eq→≡ k' k y) (subst (λ x. P (k', x)) value h.0)
    | inr n ↦ find_key-All l k v h.1 (rw n at e)
  ]
