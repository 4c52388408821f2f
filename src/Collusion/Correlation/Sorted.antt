-- ===== src/Collusion/Correlation/Sorted.antt =====
-- The order of the events behind `match_correlation_rule` (server/src/collusion/collusion.cpp).
use audit_forwarder.Prelude.{
  ℕ, ◌≤◌, arith, List, [], ◌∷◌, All, ltb, ltb→lt, ltb_false→le, Bool-cases, inl, inr,
}
use mathlib.Core.List.{Perm}
use mathlib.Core.List.Perm
use audit_forwarder.Collusion.{CleanEvent}
use audit_forwarder.Collusion.Correlation.{event_us, insert_stable, stable_sort}

-- No event is before the one in front of it, nor before `first`.
unfoldable pub SortedFrom : ℕ → List CleanEvent → Type 0
unfolding event_us
SortedFrom first [] = Unit
SortedFrom first (e ∷ l) = (first ≤ event_us e) × SortedFrom (event_us e) l

pub SortedFrom-later : (a b : ℕ) (l : List CleanEvent) → a ≤ b → SortedFrom b l → SortedFrom a l
unfolding SortedFrom
SortedFrom-later a b [] le h = tt
SortedFrom-later a b (e ∷ l) le h = (omega (arith, h.0), h.1)

insert_stable-SortedFrom :
    (a : ℕ) (e : CleanEvent) (l : List CleanEvent)
    → a ≤ event_us e
    → SortedFrom a l
    → SortedFrom a (insert_stable e l)
unfolding insert_stable SortedFrom
insert_stable-SortedFrom a e [] le h = (le, tt)
insert_stable-SortedFrom a e (x ∷ l) le h = elim (Bool-cases (ltb (event_us x) (event_us e))) [
  | inl y ↦
      let lt = ltb→lt (event_us x) (event_us e) y in
      rw y (h.0, insert_stable-SortedFrom (event_us x) e l (omega (arith, lt)) h.1)
  | inr n ↦ rw n (le, (ltb_false→le (event_us x) (event_us e) n, h.1))
]

pub stable_sort-SortedFrom : (l : List CleanEvent) → SortedFrom 0 (stable_sort l)
unfolding stable_sort SortedFrom
stable_sort-SortedFrom [] = tt
stable_sort-SortedFrom (e ∷ l) =
    insert_stable-SortedFrom 0 e (stable_sort l) (omega arith) (stable_sort-SortedFrom l)

insert_stable-perm : (e : CleanEvent) (l : List CleanEvent) → Perm (insert_stable e l) (e ∷ l)
unfolding insert_stable
insert_stable-perm e [] = Perm.refl (e ∷ [])
insert_stable-perm e (x ∷ l) = elim (Bool-cases (ltb (event_us x) (event_us e))) [
  | inl y ↦
      rw (y, insert_stable) (Perm.trans (Perm.cons x (insert_stable-perm e l)) (Perm.swap e x l))
  | inr n ↦ rw (n, insert_stable) (Perm.refl (e ∷ x ∷ l))
]

pub stable_sort-perm : (l : List CleanEvent) → Perm (stable_sort l) l
unfolding stable_sort
stable_sort-perm [] = Perm.refl []
stable_sort-perm (e ∷ l) =
    Perm.trans (insert_stable-perm e (stable_sort l)) (Perm.cons e (stable_sort-perm l))

-- Some of the events, in their order.
pub data Picked : List CleanEvent → List CleanEvent → Type 0 where
  end : Picked [] []
  skip : {e : CleanEvent} {l m : List CleanEvent} → Picked l m → Picked l (e ∷ m)
  take : {e : CleanEvent} {l m : List CleanEvent} → Picked l m → Picked (e ∷ l) (e ∷ m)

pub Picked-nil : (m : List CleanEvent) → Picked [] m
Picked-nil [] = end
Picked-nil (e ∷ m) = skip (Picked-nil m)

pub Picked-SortedFrom :
    (a : ℕ) {l m : List CleanEvent} → Picked l m → SortedFrom a m → SortedFrom a l
unfolding SortedFrom
Picked-SortedFrom a end h = tt
Picked-SortedFrom a (skip {e} {l} {m} p) h =
    SortedFrom-later a (event_us e) l h.0 (Picked-SortedFrom (event_us e) p h.1)
Picked-SortedFrom a (take {e} {l} {m} p) h = (h.0, Picked-SortedFrom (event_us e) p h.1)

-- All of them are at `first` or later.
pub SortedFrom-All :
    (first : ℕ) (l : List CleanEvent) → SortedFrom first l → All (λ e. first ≤ event_us e) l
unfolding SortedFrom
SortedFrom-All first [] h = tt
SortedFrom-All first (e ∷ l) h =
    (h.0, SortedFrom-All first l (SortedFrom-later first (event_us e) l h.0 h.1))
