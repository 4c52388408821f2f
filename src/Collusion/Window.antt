-- ===== src/Collusion/Window.antt =====
-- The evidence window of a rule: `minimal_match_window` (server/src/collusion/collusion.cpp).
pub mod Greedy
pub mod Passes
pub mod Shortest
use audit_forwarder.Prelude.{
  ℕ, ◌+◌, Bool, true, false, ◌||◌, Option, none, some, List, [], ◌∷◌, length, take, is_empty,
  rev_onto, if◌then◌else◌,
}
use audit_forwarder.Collusion.{Rule, RuleStep, CleanEvent}
use audit_forwarder.Collusion.Keywords.{step_hit}

-- The forward pass, at index `i` with the steps that are left: the index that completes them.
unfoldable pub forward : List RuleStep → List CleanEvent → ℕ → Option ℕ
forward seq [] i = none
forward [] (e ∷ events) i = none
forward (s ∷ []) (e ∷ events) i =
    let rest = forward (s ∷ []) events (i + 1) in if step_hit s.any_of e then some i else rest
forward (s ∷ s' ∷ seq) (e ∷ events) i =
    forward (if step_hit s.any_of e then s' ∷ seq else s ∷ s' ∷ seq) events (i + 1)

-- The inner loop of the backward pass: from the anchor down to the latest event that hits the
-- step. An index is the number of events before it, so what is left in front stands for it.
unfoldable pub latest_hit : RuleStep → List CleanEvent → Option (List CleanEvent)
latest_hit s [] = none
latest_hit s (e ∷ before) =
    let rest = latest_hit s before in if step_hit s.any_of e then some before else rest

-- The outer loop, the last step first.
unfoldable pub backward : List RuleStep → List CleanEvent → Option ℕ
unfolding latest_hit
backward [] before = none
backward (s ∷ []) before = elim (latest_hit s before) [
  | none ↦ none
  | some rest ↦ some (length rest)
]
backward (s ∷ s' ∷ seq) before = elim (latest_hit s before) [
  | none ↦ none
  | some rest ↦ if is_empty rest then none else backward (s' ∷ seq) rest
]

abbrev with_end : ℕ → Option ℕ → Option (ℕ × ℕ)
with_end e none = none
with_end e (some b) = some (b, e)

-- The pair of `out_begin` and `out_end` for the rule's sequence, or `none` for `false`.
unfoldable pub window_of : List RuleStep → List CleanEvent → Option (ℕ × ℕ)
unfolding forward backward rev_onto
window_of sequence events =
    if is_empty sequence || is_empty events then none else elim (forward sequence events 0) [
      | none ↦ none
      | some end_idx ↦
          with_end end_idx
            (backward (rev_onto sequence []) (rev_onto (take (end_idx + 1) events) []))
    ]

unfoldable pub minimal_match_window : Rule → List CleanEvent → Option (ℕ × ℕ)
unfolding window_of
minimal_match_window rule events = window_of rule.sequence events
