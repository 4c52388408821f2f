-- ===== src/Collusion/Detect/Tickets.antt =====
-- The work orders in `detect` (server/src/collusion/collusion.cpp): only those that are registered
-- are looked at, and the loop ends at the first that is accepted.
use audit_forwarder.Prelude.{
  ℕ, Bool, true, false, Option, none, some, List, [], ◌∷◌, ◌++◌, is_empty, if◌then◌else◌, Text,
  text_eq,
}
use audit_forwarder.Collusion.{WorkOrder, AggSet}
use audit_forwarder.Collusion.Guards.{verify_work_order}
use audit_forwarder.Collusion.Detect.{ScoreNote, valid_order, forged_order, no_order}

pub record Tickets : Type 0 where
  pub ticket_valid : Bool
  pub forged_ticket : Bool
  pub score_notes : List ScoreNote

-- The inner loop: the first order with this id.
unfoldable pub registered : List WorkOrder → Text → Option WorkOrder
registered [] wo_id = none
registered (wo ∷ workorders) wo_id =
    let rest = registered workorders wo_id in
    if text_eq wo.work_order_id wo_id then some wo else rest

-- The outer loop over the ids that the set refers to.
unfoldable pub ticket_loop : List WorkOrder → List Text → ℕ → List Text → Tickets → Tickets
unfolding registered
ticket_loop workorders operators now_epoch [] t = t
ticket_loop workorders operators now_epoch (wo_id ∷ ids) t = elim (registered workorders wo_id) [
  | none ↦
      ticket_loop workorders operators now_epoch ids (record t {
        forged_ticket = true;
        score_notes = t.score_notes ++ (forged_order wo_id ∷ []);
      })
  | some wo ↦
      let rest = ticket_loop workorders operators now_epoch ids t in
      if verify_work_order wo operators now_epoch
      then record t { ticket_valid = true; score_notes = t.score_notes ++ (valid_order wo_id ∷ []) }
      else rest
]

unfoldable pub tickets : List WorkOrder → AggSet → ℕ → Tickets
unfolding ticket_loop
tickets workorders set now_epoch =
    let t =
      ticket_loop workorders set.operator_ids now_epoch set.work_order_ids
        (record { ticket_valid = false; forged_ticket = false; score_notes = [] }) in
    if is_empty set.work_order_ids
    then record t { score_notes = t.score_notes ++ (no_order ∷ []) }
    else t
