-- ===== src/Collusion/Sequence/Order.antt =====
-- The order of events in a set: by time, whatever the order of arrival.
use audit_forwarder.Prelude.{
  ◌≤◌, ◌≡◌, ◌≢◌, List, [], ◌∷◌, arith, append-nil, rev_onto, rev_twice, rev_onto-perm, rev_onto-All,
  All, ltb, ltb_false→le, Bool-cases, inl, inr,
}
use mathlib.Core.List.{Perm}
use mathlib.Core.List.Perm
use native.Mathlib.Nat.{le_trans}
use audit_forwarder.Collusion.{CleanEvent}
use audit_forwarder.Collusion.Sequence.{insert_back, append_event_ordered}

module _ {ℓ} {A : Type ℓ} where
  -- Every element is related to all that come after it.
  abbrev Ordered : (A → A → Type 0) → List A → Type 0
  Ordered R [] = Unit
  Ordered R (x ∷ xs) = All (R x) xs × Ordered R xs

  All-both :
      (P Q S : A → Type 0) (xs : List A)
      → ((x : A) → P x → Q x → S x)
      → All P xs
      → All Q xs
      → All S xs
  All-both P Q S [] f p q = tt
  All-both P Q S (x ∷ xs) f p q = (f x p.0 q.0, All-both P Q S xs f p.1 q.1)

  Ordered-rev_onto :
      (R : A → A → Type 0) (xs acc : List A)
      → Ordered (λ a b. R b a) xs
      → Ordered R acc
      → All (λ x. All (R x) acc) xs
      → Ordered R (rev_onto xs acc)
  unfolding rev_onto
  Ordered-rev_onto R [] acc o p h = p
  Ordered-rev_onto R (x ∷ xs) acc o p h =
      Ordered-rev_onto R xs (x ∷ acc) o.1 (h.0, p)
        (All-both (λ y. R y x) (λ y. All (R y) acc) (λ y. All (R y) (x ∷ acc)) xs (λ y r a. (r, a))
          o.0 h.1)

  none_after : (R : A → A → Type 0) (xs : List A) → All (λ x. All (R x) []) xs
  none_after R [] = tt
  none_after R (x ∷ xs) = (tt, none_after R xs)

abbrev Later : CleanEvent → CleanEvent → Type 0
Later a b = b.ts_ms ≤ a.ts_ms

-- Each event is no later than those after it.
abbrev pub Ascending : List CleanEvent → Type 0
Ascending = Ordered (λ a b. a.ts_ms ≤ b.ts_ms)

insert_back-All :
    (P : CleanEvent → Type 0) (l : List CleanEvent) (e : CleanEvent)
    → P e
    → All P l
    → All P (insert_back l e)
unfolding insert_back
insert_back-All P [] e p h = (p, tt)
insert_back-All P (x ∷ l) e p h = elim (Bool-cases (ltb e.ts_ms x.ts_ms)) [
  | inl y ↦ rw (y, insert_back) (h.0, insert_back-All P l e p h.1)
  | inr n ↦ rw (n, insert_back) (p, h)
]

insert_back-Ordered :
    (l : List CleanEvent) (e : CleanEvent) → Ordered Later l → Ordered Later (insert_back l e)
unfolding insert_back
insert_back-Ordered [] e o = (tt, tt)
insert_back-Ordered (x ∷ l) e o = elim (Bool-cases (ltb e.ts_ms x.ts_ms)) [
  | inl y ↦
      rw (y, insert_back)
        (insert_back-All (Later x) l e (ground arith) o.0, insert_back-Ordered l e o.1)
  | inr n ↦
      let le : x.ts_ms ≤ e.ts_ms = ltb_false→le e.ts_ms x.ts_ms n in
      rw (n, insert_back)
        ((le, All-both (Later x) (Later x) (Later e) l (λ z p _. le_trans p le) o.0 o.0), o)
]

-- What holds of the event and of every event of the set holds of every event behind the insertion.
pub append_event_ordered-All :
    (P : CleanEvent → Type 0) (events : List CleanEvent) (e : CleanEvent)
    → P e
    → All P events
    → All P (append_event_ordered events e)
unfolding append_event_ordered
append_event_ordered-All P events e p h =
    rev_onto-All P (insert_back (rev_onto events []) e) []
      (insert_back-All P (rev_onto events []) e p (rev_onto-All P events [] h tt)) tt

-- Into a set in time order an event is put in time order, whenever it arrives.
pub append_event_ordered-Ascending :
    (events : List CleanEvent) (e : CleanEvent)
    → Ascending events
    → Ascending (append_event_ordered events e)
unfolding append_event_ordered
append_event_ordered-Ascending events e o =
    Ordered-rev_onto (λ a b. Later b a) _ []
      (insert_back-Ordered _ e (Ordered-rev_onto Later events [] o tt (none_after Later events))) tt
      (none_after (λ a b. Later b a) _)

insert_back-perm : (l : List CleanEvent) (e : CleanEvent) → Perm (insert_back l e) (e ∷ l)
unfolding insert_back
insert_back-perm [] e = Perm.refl (e ∷ [])
insert_back-perm (x ∷ l) e = elim (Bool-cases (ltb e.ts_ms x.ts_ms)) [
  | inl y ↦ rw (y, insert_back) (Perm.trans (Perm.cons x (insert_back-perm l e)) (Perm.swap e x l))
  | inr n ↦ rw (n, insert_back) (Perm.refl (e ∷ x ∷ l))
]

-- Nothing is lost and nothing else is added.
pub append_event_ordered-perm :
    (events : List CleanEvent) (e : CleanEvent) → Perm (append_event_ordered events e) (e ∷ events)
unfolding append_event_ordered
append_event_ordered-perm events e =
    Perm.trans (rev_onto-perm (insert_back (rev_onto events []) e) []) (
      rw append-nil (
        Perm.trans (insert_back-perm (rev_onto events []) e)
          (Perm.cons e (rw append-nil at (rev_onto-perm events [])))))

insert_back-swap :
    (l : List CleanEvent) (a b : CleanEvent)
    → a.ts_ms ≢ b.ts_ms
    → insert_back (insert_back l a) b ≡ insert_back (insert_back l b) a
unfolding insert_back
insert_back-swap [] a b n = ground arith
insert_back-swap (x ∷ l) a b n = ground (arith, insert_back-swap l a b)

-- Two events of different times may arrive in either order: the set that comes out is the same.
pub append_event_ordered-swap :
    (events : List CleanEvent) (a b : CleanEvent)
    → a.ts_ms ≢ b.ts_ms
    → append_event_ordered (append_event_ordered events a) b
      ≡ append_event_ordered (append_event_ordered events b) a
unfolding append_event_ordered
append_event_ordered-swap events a b n = rw (
  rev_twice (insert_back (rev_onto events []) a),
  rev_twice (insert_back (rev_onto events []) b),
  insert_back-swap (rev_onto events []) a b n,
)
