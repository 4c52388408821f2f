-- ===== src/Examples/Verdicts.antt =====
-- The theorems on collusion at concrete inputs.
use audit_forwarder.Prelude.{
  ℕ, pos, ◌+ℤ◌, ◌-ℤ◌, ◌*ℤ◌, ◌≤ℤ◌, text_eq, ◌≡◌, ◌↔◌, refl, arith, true, false, some, [], ◌∷◌, Any,
  codes,
}
use audit_forwarder.Collusion.{Rule, CleanEvent}
use audit_forwarder.Text.{contains, lower}
use audit_forwarder.Collusion.Keywords.{step_hit}
use audit_forwarder.Collusion.Sequence.{is_subsequence}
use audit_forwarder.Collusion.Sequence.Covers.{Covers, is_subsequence_iff}
use audit_forwarder.Collusion.Window.{minimal_match_window}
use audit_forwarder.Collusion.Window.Shortest.{
  IsWindow, minimal_match_window-IsWindow, minimal_match_window-is_subsequence,
}
use audit_forwarder.Collusion.Correlation.{correlation_group_key, match_of, match_correlation_rule}
use audit_forwarder.Collusion.Correlation.Match.{IsMatch, match_correlation_rule-IsMatch}
use audit_forwarder.Collusion.Guards.{verify_work_order, in_whitelist}
use audit_forwarder.Collusion.Guards.Spec.{ValidOrder, verify_work_order_iff}
use audit_forwarder.Collusion.Detect.{not_loaded}
use audit_forwarder.Collusion.Detect.Rules.{rule_engine}
use audit_forwarder.Collusion.Detect.Hits.{Fires}
use audit_forwarder.Collusion.Detect.Tickets.{registered, tickets}
use audit_forwarder.Collusion.Detect.Orders.{Vouched, tickets-registered, tickets_valid_iff}
use audit_forwarder.Collusion.Detect.Profile.{profile_engine}
use audit_forwarder.Collusion.Detect.Score.{detect}
use audit_forwarder.Collusion.Detect.Verdict.{detect-bounds, detect-Fires}
use audit_forwarder.Examples.{
  op_event, stop_then_delete, two_operators, open_order, standard, no_profile, no_graph,
}

abbrev stop_event : CleanEvent
stop_event = op_event (codes "a") 1 (codes "stop_event")

abbrev delete : CleanEvent
delete = op_event (codes "b") 2 (codes "delete")

is_subsequence_iff_example :
    (is_subsequence stop_then_delete.sequence (stop_event ∷ delete ∷ []) ≡ true)
    ↔ Covers stop_then_delete.sequence (stop_event ∷ delete ∷ [])
is_subsequence_iff_example =
    is_subsequence_iff stop_then_delete.sequence (stop_event ∷ delete ∷ []) refl

minimal_match_window-IsWindow_example :
    IsWindow stop_then_delete.sequence (stop_event ∷ stop_event ∷ delete ∷ []) 1 2
unfolding minimal_match_window step_hit contains lower
minimal_match_window-IsWindow_example =
    minimal_match_window-IsWindow stop_then_delete (stop_event ∷ stop_event ∷ delete ∷ []) 1 2 refl

minimal_match_window-is_subsequence_example :
    (b : ℕ) × (e : ℕ) × (minimal_match_window stop_then_delete (stop_event ∷ delete ∷ [])
      ≡ some (b, e))
unfolding is_subsequence step_hit contains lower
minimal_match_window-is_subsequence_example =
    minimal_match_window-is_subsequence stop_then_delete (stop_event ∷ delete ∷ []) refl

verify_work_order_iff_example :
    (verify_work_order open_order (codes "a" ∷ []) 9 ≡ true)
    ↔ ValidOrder open_order (codes "a" ∷ []) 9
verify_work_order_iff_example = verify_work_order_iff open_order (codes "a" ∷ []) 9

-- An order that has ended, and is registered.
tickets-registered_example : (tickets (open_order ∷ []) two_operators 99).forged_ticket ≡ false
unfolding registered text_eq
tickets-registered_example =
    tickets-registered (open_order ∷ []) two_operators 99 ((λ e. absurd (ground arith)), tt)

tickets_valid_iff_example :
    ((tickets (open_order ∷ []) two_operators 9).ticket_valid ≡ true)
    ↔ Any (Vouched (open_order ∷ []) two_operators.operator_ids 9) two_operators.work_order_ids
tickets_valid_iff_example = tickets_valid_iff (open_order ∷ []) two_operators 9

detect-bounds_example :
    let res =
      detect two_operators standard (stop_then_delete ∷ []) no_profile [] 9 not_loaded no_graph in
    (pos 0 ≤ℤ res.total_score) × (res.total_score ≤ℤ pos 100)
detect-bounds_example =
    detect-bounds two_operators standard (stop_then_delete ∷ []) no_profile [] 9 not_loaded no_graph
      (omega arith)

-- Without an accepted order the rule and the profile reach HIGH.
detect-Fires_example : Any (Fires two_operators) (stop_then_delete ∷ [])
unfolding detect in_whitelist rule_engine text_eq is_subsequence step_hit contains lower ◌+ℤ◌ ◌-ℤ◌
    profile_engine tickets ◌*ℤ◌
detect-Fires_example =
    detect-Fires two_operators standard (stop_then_delete ∷ []) no_profile [] 9 not_loaded no_graph
      refl

-- The rule, for objects.
abbrev by_object : Rule
by_object = record stop_then_delete { group_by = codes "object" }

match_correlation_rule-IsMatch_example :
    IsMatch by_object []
      (delete ∷ stop_event ∷ [])
      (match_of by_object (codes "object") (codes "db") (stop_event ∷ delete ∷ []))
unfolding match_correlation_rule correlation_group_key step_hit contains lower text_eq
match_correlation_rule-IsMatch_example =
    match_correlation_rule-IsMatch by_object (delete ∷ stop_event ∷ []) []
      (match_of by_object (codes "object") (codes "db") (stop_event ∷ delete ∷ [])) refl
