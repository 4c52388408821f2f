-- ===== src/Collusion/Sequence.antt =====
-- Ordered sequences of rule steps over events: `append_event_ordered` and `is_subsequence`
-- (server/src/collusion/collusion.cpp).
pub mod Order
pub mod Covers
use audit_forwarder.Prelude.{
  Bool, true, false, List, [], ◌∷◌, ltb, is_empty, rev_onto, if◌then◌else◌,
}
use audit_forwarder.Collusion.{RuleStep, CleanEvent}
use audit_forwarder.Collusion.Keywords.{step_hit}

-- The loop that walks back from the end over later events; the list is the walk, last event first.
unfoldable pub insert_back : List CleanEvent → CleanEvent → List CleanEvent
insert_back [] e = e ∷ []
insert_back (x ∷ before) e =
    if ltb e.ts_ms x.ts_ms then x ∷ insert_back before e else e ∷ x ∷ before

unfoldable pub append_event_ordered : List CleanEvent → CleanEvent → List CleanEvent
unfolding insert_back rev_onto
append_event_ordered events e = rev_onto (insert_back (rev_onto events []) e) []

-- The loop of `is_subsequence`: the steps that are left.
unfoldable pub steps_hit : List RuleStep → List CleanEvent → Bool
steps_hit [] events = true
steps_hit (s ∷ sequence) [] = false
steps_hit (s ∷ sequence) (e ∷ events) =
    steps_hit (if step_hit s.any_of e then sequence else s ∷ sequence) events

unfoldable pub is_subsequence : List RuleStep → List CleanEvent → Bool
unfolding steps_hit
is_subsequence sequence events = if is_empty sequence then false else steps_hit sequence events
