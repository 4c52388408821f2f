-- ===== src/Collusion/Detect/Orders.antt =====
-- What `detect` makes of the work orders that a set refers to.
use audit_forwarder.Prelude.{
  ℕ, ◌≡◌, ◌≢◌, ◌↔◌, refl, true, false, none, some, List, [], ◌∷◌, Any, All, is_empty, Text,
  Bool-cases, Option-cases, inl, inr, ◌⊎◌, false≢true,
}
use audit_forwarder.Collusion.{WorkOrder, AggSet}
use audit_forwarder.Collusion.Guards.{verify_work_order}
use audit_forwarder.Collusion.Guards.Spec.{ValidOrder, verify_work_order_iff}
use audit_forwarder.Collusion.Detect.Tickets.{Tickets, registered, ticket_loop, tickets}

-- The id stands for a registered order that the check accepts.
abbrev pub Vouched : List WorkOrder → List Text → ℕ → Text → Type 0
Vouched workorders operators now wo_id =
    (wo : WorkOrder) × ((registered workorders wo_id ≡ some wo) × ValidOrder wo operators now)

module _ (workorders : List WorkOrder) (operators : List Text) (now_epoch : ℕ) where
  loop_valid :
      (ids : List Text) (t : Tickets)
      → (ticket_loop workorders operators now_epoch ids t).ticket_valid ≡ true
      → (t.ticket_valid ≡ true) ⊎ Any (Vouched workorders operators now_epoch) ids
  unfolding ticket_loop
  loop_valid [] t h = inl h
  loop_valid (i ∷ ids) t h = elim (Option-cases (registered workorders i)) [
    | inl missing ↦ widen (loop_valid ids _ (rw (missing, ticket_loop) at h))
    | inr (wo, found) ↦ elim (Bool-cases (verify_work_order wo operators now_epoch)) [
      | inl y ↦ inr (inl (wo, (found, (verify_work_order_iff wo operators now_epoch).0 y)))
      | inr n ↦ widen (loop_valid ids t (rw (n, ticket_loop) at (rw (found, ticket_loop) at h)))
    ]
  ]
    where
      widen :
          {P : Type 0}
          → P ⊎ Any (Vouched workorders operators now_epoch) ids
          → P ⊎ Any (Vouched workorders operators now_epoch) (i ∷ ids)
      widen (inl p) = inl p
      widen (inr a) = inr (inr a)

  loop-Vouched :
      (ids : List Text) (t : Tickets)
      → Any (Vouched workorders operators now_epoch) ids
      → (ticket_loop workorders operators now_epoch ids t).ticket_valid ≡ true
  unfolding ticket_loop
  loop-Vouched [] t a = elim a [ ]
  loop-Vouched (i ∷ ids) t (inl (wo, (found, v))) =
      rw (found, ticket_loop) (rw ((verify_work_order_iff wo operators now_epoch).1 v) refl)
  loop-Vouched (i ∷ ids) t (inr a) = elim (Option-cases (registered workorders i)) [
    | inl missing ↦ rw (missing, ticket_loop) (loop-Vouched ids _ a)
    | inr (wo, found) ↦ elim (Bool-cases (verify_work_order wo operators now_epoch)) [
      | inl y ↦ rw (found, ticket_loop) (rw y refl)
      | inr n ↦ rw (found, ticket_loop) (rw (n, ticket_loop) (loop-Vouched ids t a))
    ]
  ]

  loop_registered :
      (ids : List Text) (t : Tickets)
      → All (λ i. registered workorders i ≢ none) ids
      → (ticket_loop workorders operators now_epoch ids t).forged_ticket ≡ t.forged_ticket
  unfolding ticket_loop
  loop_registered [] t a = refl
  loop_registered (i ∷ ids) t a = elim (Option-cases (registered workorders i)) [
    | inl missing ↦ absurd (a.0 missing)
    | inr (wo, found) ↦ elim (Bool-cases (verify_work_order wo operators now_epoch)) [
      | inl y ↦ rw (found, ticket_loop) (rw y refl)
      | inr n ↦ rw (found, ticket_loop) (rw (n, ticket_loop) (loop_registered ids t a.1))
    ]
  ]

-- Registered orders are never taken for forged ones: where every id of the set is registered, no
-- result is marked forged, also where the check accepts none of the orders.
pub tickets-registered :
    (workorders : List WorkOrder) (set : AggSet) (now_epoch : ℕ)
    → All (λ i. registered workorders i ≢ none) set.work_order_ids
    → (tickets workorders set now_epoch).forged_ticket ≡ false
unfolding tickets
tickets-registered workorders set now_epoch a = elim (Bool-cases (is_empty set.work_order_ids)) [
  | inl y ↦ rw y (loop_registered workorders set.operator_ids now_epoch set.work_order_ids _ a)
  | inr n ↦ rw n (loop_registered workorders set.operator_ids now_epoch set.work_order_ids _ a)
]

abbrev nothing_seen : Tickets
nothing_seen = record { ticket_valid = false; forged_ticket = false; score_notes = [] }

tickets_lem :
    (workorders : List WorkOrder) (set : AggSet) (now_epoch : ℕ)
    → (tickets workorders set now_epoch).ticket_valid
      ≡ (ticket_loop workorders set.operator_ids now_epoch set.work_order_ids
          nothing_seen).ticket_valid
unfolding tickets
tickets_lem workorders set now_epoch = elim (Bool-cases (is_empty set.work_order_ids)) [
  | inl y ↦ rw y refl
  | inr n ↦ rw n refl
]

-- The deduction for a work order is granted exactly where one of the ids of the set is registered,
-- and the first order registered under it has all four elements of the external check.
pub tickets_valid_iff :
    (workorders : List WorkOrder) (set : AggSet) (now_epoch : ℕ)
    → ((tickets workorders set now_epoch).ticket_valid ≡ true)
      ↔ Any (Vouched workorders set.operator_ids now_epoch) set.work_order_ids
tickets_valid_iff workorders set now_epoch = rw (tickets_lem workorders set now_epoch) (
  λ h. or_else (loop_valid workorders set.operator_ids now_epoch set.work_order_ids nothing_seen h),
  loop-Vouched workorders set.operator_ids now_epoch set.work_order_ids nothing_seen,
)
  where
    or_else : {P : Type 0} → (false ≡ true) ⊎ P → P
    or_else (inl f) = absurd (false≢true f)
    or_else (inr p) = p
