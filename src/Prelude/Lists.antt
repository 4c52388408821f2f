-- ===== src/Prelude/Lists.antt =====
-- Lists measured and indexed by native numbers, under the library's names.
use Prim.Native.Nat.{ℕ, zero, suc, ◌+◌, ◌-◌, ◌≤◌}
use mathlib.Core.Path.{◌≡◌, refl, sym, ap, ◌∙◌}
use mathlib.Core.Logic.{◌⊎◌}
use mathlib.Core.Bool.{Bool, false, ◌||◌}
use mathlib.Core.List.{List, [], ◌∷◌, ◌++◌, append_assoc, Perm, perm_middle}
use mathlib.Core.List.Perm
use mathlib.Core.Option.{Option, none, some}
use native.Mathlib.Omega.{arith}

module _ {ℓ} {A : Type ℓ} where
  abbrev pub length : List A → ℕ
  length [] = 0
  length (x ∷ xs) = suc (length xs)

  abbrev pub get_elem? : List A → ℕ → Option A
  get_elem? [] i = none
  get_elem? (x ∷ xs) zero = some x
  get_elem? (x ∷ xs) (suc i) = get_elem? xs i

  abbrev pub get_or : List A → ℕ → A → A
  get_or [] i d = d
  get_or (x ∷ xs) zero d = x
  get_or (x ∷ xs) (suc i) d = get_or xs i d

  abbrev pub take : ℕ → List A → List A
  take zero xs = []
  take (suc n) [] = []
  take (suc n) (x ∷ xs) = x ∷ take n xs

  abbrev pub drop : ℕ → List A → List A
  drop zero xs = xs
  drop (suc n) [] = []
  drop (suc n) (x ∷ xs) = drop n xs

  pub length-append : (xs ys : List A) → length (xs ++ ys) ≡ length xs + length ys
  length-append [] ys = omega arith
  length-append (x ∷ xs) ys = omega (arith, length-append xs ys)

  -- The last element, with a default for the empty list.
  abbrev pub last_or : A → List A → A
  last_or d [] = d
  last_or d (x ∷ xs) = last_or x xs

module _ {ℓ} {A : Type ℓ} where
  -- `P` holds of every element.
  abbrev pub All : (A → Type 0) → List A → Type 0
  All P [] = Unit
  All P (x ∷ xs) = P x × All P xs

  -- `P` holds of some element.
  abbrev pub Any : (A → Type 0) → List A → Type 0
  Any P [] = ⊥
  Any P (x ∷ xs) = P x ⊎ Any P xs

  pub All-append : (P : A → Type 0) (xs ys : List A) → All P xs → All P ys → All P (xs ++ ys)
  All-append P [] ys h k = k
  All-append P (x ∷ xs) ys h k = (h.0, All-append P xs ys h.1 k)

  pub All-map : (P Q : A → Type 0) (xs : List A) → ((x : A) → P x → Q x) → All P xs → All Q xs
  All-map P Q [] f h = tt
  All-map P Q (x ∷ xs) f h = (f x h.0, All-map P Q xs f h.1)

module _ {ℓ} {A : Type ℓ} where
  -- A test that some element passes, `std::any_of`.
  unfoldable pub any : (A → Bool) → List A → Bool
  any p [] = false
  any p (x ∷ xs) = p x || any p xs

module _ {ℓ} {A : Type ℓ} where
  pub take-append-drop : (n : ℕ) (xs : List A) → take n xs ++ drop n xs ≡ xs
  take-append-drop zero xs = refl
  take-append-drop (suc n) [] = refl
  take-append-drop (suc n) (x ∷ xs) = ap (◌∷◌ x) (take-append-drop n xs)

  pub length-take-le : (n : ℕ) (xs : List A) → length (take n xs) ≤ n
  length-take-le zero xs = omega arith
  length-take-le (suc n) [] = omega arith
  length-take-le (suc n) (x ∷ xs) = omega (arith, length-take-le n xs)

  pub length-take : (n : ℕ) (xs : List A) → n ≤ length xs → length (take n xs) ≡ n
  length-take zero xs h = refl
  length-take (suc n) [] h = absurd (omega arith)
  length-take (suc n) (x ∷ xs) h = omega (arith, length-take n xs)

  pub length-drop : (n : ℕ) (xs : List A) → length (drop n xs) ≡ length xs - n
  length-drop zero xs = omega arith
  length-drop (suc n) [] = omega arith
  length-drop (suc n) (x ∷ xs) = omega (arith, length-drop n xs)

  -- What stands before a given place.
  pub take-append : (xs ys : List A) → take (length xs) (xs ++ ys) ≡ xs
  take-append [] ys = refl
  take-append (x ∷ xs) ys = ap (◌∷◌ x) (take-append xs ys)

  -- What stands from a given place on.
  pub drop-append : (xs ys : List A) → drop (length xs) (xs ++ ys) ≡ ys
  drop-append [] ys = refl
  drop-append (x ∷ xs) ys = drop-append xs ys

  -- The list turned over onto another one.
  unfoldable pub rev_onto : List A → List A → List A
  rev_onto [] acc = acc
  rev_onto (x ∷ xs) acc = rev_onto xs (x ∷ acc)

  pub rev_onto-rev_onto : (xs acc : List A) → rev_onto (rev_onto xs acc) [] ≡ rev_onto acc xs
  unfolding rev_onto
  rev_onto-rev_onto [] acc = refl
  rev_onto-rev_onto (x ∷ xs) acc = rev_onto-rev_onto xs (x ∷ acc)

  pub rev_twice : (xs : List A) → rev_onto (rev_onto xs []) [] ≡ xs
  unfolding rev_onto
  rev_twice xs = rev_onto-rev_onto xs []

  pub rev_onto-All :
      (P : A → Type 0) (xs acc : List A) → All P xs → All P acc → All P (rev_onto xs acc)
  unfolding rev_onto
  rev_onto-All P [] acc h k = k
  rev_onto-All P (x ∷ xs) acc h k = rev_onto-All P xs (x ∷ acc) h.1 (h.0, k)

  pub rev_onto-perm : (xs acc : List A) → Perm (rev_onto xs acc) (xs ++ acc)
  unfolding rev_onto
  rev_onto-perm [] acc = Perm.refl acc
  rev_onto-perm (x ∷ xs) acc = Perm.trans (rev_onto-perm xs (x ∷ acc)) (perm_middle xs acc)

  pub rev_onto-append :
      (xs ys acc : List A) → rev_onto (xs ++ ys) acc ≡ rev_onto ys (rev_onto xs acc)
  unfolding rev_onto
  rev_onto-append [] ys acc = refl
  rev_onto-append (x ∷ xs) ys acc = rev_onto-append xs ys (x ∷ acc)

  pub rev_onto_lem : (xs acc : List A) → rev_onto xs acc ≡ rev_onto xs [] ++ acc
  unfolding rev_onto
  rev_onto_lem [] acc = refl
  rev_onto_lem (x ∷ xs) acc =
      rev_onto_lem xs (x ∷ acc)
      ∙ sym (append_assoc (rev_onto xs []) (x ∷ []) acc)
      ∙ ap (λ l. l ++ acc) (sym (rev_onto_lem xs (x ∷ [])))

  pub length-rev_onto : (xs acc : List A) → length (rev_onto xs acc) ≡ length xs + length acc
  unfolding rev_onto
  length-rev_onto [] acc = omega arith
  length-rev_onto (x ∷ xs) acc = omega (arith, length-rev_onto xs (x ∷ acc))
