-- ===== src/Collusion/Guards/Spec.antt =====
-- What the guards promise, written without the loops.
use audit_forwarder.Prelude.{
  ℕ, ◌≡◌, ◌≢◌, ◌≤◌, sym, ◌↔◌, ◌⊎◌, inl, inr, refl, arith, Bool, true, false, List, [], ◌∷◌, any,
  All, Any, is_empty, Text, codes, text_eq_iff, false≢true, ltb, Bool-cases, ◌==◌, if◌then◌else◌,
  ◌||◌, ◌&&◌, not,
}
use audit_forwarder.Collusion.{WhitelistGroup, WorkOrder, AggSet}
use audit_forwarder.Collusion.Guards.{
  executing, completed, status_ok, all_pass, allows, expired, verify_work_order, listed, some_group,
  in_whitelist,
}

-- A bound of 0 is no bound.
abbrev pub From : ℕ → ℕ → Type 0
From start now = (start ≡ 0) ⊎ (start ≤ now)

abbrev pub Until : ℕ → ℕ → Type 0
Until end now = (end ≡ 0) ⊎ (now ≤ end)

module _ {ℓ} {A : Type ℓ} (p : A → Bool) (P : A → Type 0)
    (decides : (x : A) → (p x ≡ true) ↔ P x) where
  any-Any : (l : List A) → any p l ≡ true → Any P l
  unfolding any
  any-Any [] h = absurd (ground arith)
  any-Any (x ∷ l) h = elim (Bool-cases (p x)) [
    | inl y ↦ inl ((decides x).0 y)
    | inr n ↦ inr (any-Any l (rw n at h))
  ]

  Any-any : (l : List A) → Any P l → any p l ≡ true
  unfolding any
  Any-any [] h = elim h [ ]
  Any-any (x ∷ l) (inl h) = rw ((decides x).1 h) refl
  Any-any (x ∷ l) (inr h) = rw (Any-any l h) (or_true (p x))
    where
      or_true : (b : Bool) → b || true ≡ true
      or_true true = refl
      or_true false = refl

  pub any_iff : (l : List A) → (any p l ≡ true) ↔ Any P l
  any_iff l = (any-Any l, Any-any l)

  all_pass-All : (l : List A) → all_pass p l ≡ true → All P l
  unfolding all_pass
  all_pass-All [] h = tt
  all_pass-All (x ∷ l) h = elim (Bool-cases (p x)) [
    | inl y ↦ ((decides x).0 y, all_pass-All l (rw y at h))
    | inr n ↦ absurd (false≢true (rw n at h))
  ]

  All-all_pass : (l : List A) → All P l → all_pass p l ≡ true
  unfolding all_pass
  All-all_pass [] h = refl
  All-all_pass (x ∷ l) h = rw ((decides x).1 h.0) (All-all_pass l h.1)

  pub all_pass_iff : (l : List A) → (all_pass p l ≡ true) ↔ All P l
  all_pass_iff l = (all_pass-All l, All-all_pass l)

pub or_iff :
    {a b : Bool} {P Q : Type 0} → (a ≡ true) ↔ P → (b ≡ true) ↔ Q → ((a || b) ≡ true) ↔ (P ⊎ Q)
or_iff {a = true} f g = (λ _. inl (f.0 refl), λ _. refl)
or_iff {a = false} f g =
    (λ h. inr (g.0 h), λ s. elim s [ inl x ↦ absurd (false≢true (f.1 x)) | inr y ↦ g.1 y ])

-- A guard that returns false.
pub guard_iff :
    {a b : Bool} {P Q : Type 0}
    → (a ≡ false) ↔ P
    → (b ≡ true) ↔ Q
    → ((if a then false else b) ≡ true) ↔ (P × Q)
guard_iff {a = true} f g = (λ h. absurd (false≢true h), λ h. absurd (false≢true (sym (f.1 h.0))))
guard_iff {a = false} f g = (λ h. (f.0 refl, g.0 h), λ h. g.1 h.1)

pub not_iff : {a : Bool} {P : Type 0} → (a ≡ true) ↔ P → (not a ≡ false) ↔ P
not_iff {a = true} f = (λ _. f.0 refl, λ _. refl)
not_iff {a = false} f = (λ h. absurd (false≢true (sym h)), λ x. absurd (false≢true (f.1 x)))

is_empty_iff : (s : Text) → (is_empty s ≡ false) ↔ (s ≢ [])
is_empty_iff [] = (λ h. absurd (false≢true (sym h)), λ n. absurd (n refl))
is_empty_iff (c ∷ s) = (λ _. λ e. absurd (ground arith), λ _. refl)

-- The words of a work order that is being carried out, or has been.
abbrev pub Accepted : Text → Type 0
Accepted s =
    (s ≡ executing)
    ⊎ ((s ≡ completed) ⊎ ((s ≡ codes "in_progress") ⊎ ((s ≡ codes "done") ⊎ (s ≡ codes "closed"))))

status_ok_iff : (s : Text) → (status_ok s ≡ true) ↔ Accepted s
unfolding status_ok
status_ok_iff s = or_iff (text_eq_iff s executing) (
    or_iff (text_eq_iff s completed) (
      or_iff (text_eq_iff s (codes "in_progress"))
        (or_iff (text_eq_iff s (codes "done")) (text_eq_iff s (codes "closed")))))

expired_iff : (end now : ℕ) → (expired end now ≡ false) ↔ Until end now
unfolding expired
expired_iff end now = ground arith

early_iff : (start now : ℕ) → ((not (start == 0) && ltb now start) ≡ false) ↔ From start now
early_iff start now = ground arith

-- The operator is named in the order, or the order names everyone.
abbrev pub Allowed : WorkOrder → Text → Type 0
Allowed wo op = Any (λ allow. (allow ≡ codes "*") ⊎ (allow ≡ op)) wo.allowed_operators

-- The four elements of the external check: the order exists, its status counts, the time is within
-- its bounds, and it covers every operator.
abbrev pub ValidOrder : WorkOrder → List Text → ℕ → Type 0
ValidOrder wo operators now =
    (wo.work_order_id ≢ [])
    × (Accepted wo.status
        × (From wo.valid_from_epoch now
            × (Until wo.valid_until_epoch now × All (Allowed wo) operators)))

-- A work order is accepted for a set of operators at a time exactly when it has an id and one of the
-- five accepted statuses, the time is not before its start nor after its end (0: no bound), and each
-- of the operators is among those it allows, or it allows `*`.
pub verify_work_order_iff :
    (wo : WorkOrder) (operators : List Text) (now_epoch : ℕ)
    → (verify_work_order wo operators now_epoch ≡ true) ↔ ValidOrder wo operators now_epoch
unfolding verify_work_order allows
verify_work_order_iff wo operators now_epoch = guard_iff (is_empty_iff wo.work_order_id) (
    guard_iff (not_iff (status_ok_iff wo.status)) (
      guard_iff (early_iff wo.valid_from_epoch now_epoch) (
        guard_iff (expired_iff wo.valid_until_epoch now_epoch) (
          all_pass_iff (allows wo) (Allowed wo)
            (λ op.
              any_iff _ _ (λ allow. or_iff (text_eq_iff allow (codes "*")) (text_eq_iff allow op))
                wo.allowed_operators)
            operators))))

-- A group that is still valid and lists every operator of the set.
abbrev pub Vouches : List Text → ℕ → WhitelistGroup → Type 0
Vouches operators now g =
    Until g.valid_until_epoch now × All (λ op. Any (λ y. y ≡ op) g.operators) operators

group_iff :
    {e v r : Bool} {P Q R : Type 0}
    → (e ≡ false) ↔ P
    → (v ≡ true) ↔ Q
    → (r ≡ true) ↔ R
    → ((if e then r else if v then true else r) ≡ true) ↔ ((P × Q) ⊎ R)
group_iff {e = true} f g h =
    (λ t. inr (h.0 t), λ s. elim s [ inl x ↦ absurd (false≢true (sym (f.1 x.0))) | inr y ↦ h.1 y ])
group_iff {e = false} {v = true} f g h = (λ _. inl (f.0 refl, g.0 refl), λ _. refl)
group_iff {e = false} {v = false} f g h =
    (λ t. inr (h.0 t), λ s. elim s [ inl x ↦ absurd (false≢true (g.1 x.1)) | inr y ↦ h.1 y ])

some_group_iff :
    (groups : List WhitelistGroup) (operators : List Text) (now : ℕ)
    → (some_group groups operators now ≡ true) ↔ Any (Vouches operators now) groups
unfolding some_group listed
some_group_iff [] operators now = (λ h. absurd (false≢true h), λ a. elim a [ ])
some_group_iff (g ∷ groups) operators now =
    group_iff (expired_iff g.valid_until_epoch now)
      (all_pass_iff (listed g.operators) (λ op. Any (λ y. y ≡ op) g.operators)
        (λ op. any_iff _ _ (λ y. text_eq_iff y op) g.operators) operators)
      (some_group_iff groups operators now)

-- A set is whitelisted exactly when it has an operator and one group that has not expired lists every
-- operator of the set.
pub in_whitelist_iff :
    (groups : List WhitelistGroup) (set : AggSet) (now_epoch : ℕ)
    → (in_whitelist groups set now_epoch ≡ true)
      ↔ ((is_empty set.operator_ids ≡ false) × Any (Vouches set.operator_ids now_epoch) groups)
unfolding in_whitelist
in_whitelist_iff groups set now_epoch =
    guard_iff (λ h. h, λ h. h) (some_group_iff groups set.operator_ids now_epoch)
