-- ===== src/Collusion/Sequence/Covers.antt =====
-- What it means that events carry out a sequence of steps, and that the greedy loop decides it.
use audit_forwarder.Prelude.{
  ◌≡◌, ◌↔◌, refl, true, false, List, [], ◌∷◌, arith, is_empty, Bool-cases, inl, inr,
}
use audit_forwarder.Collusion.{RuleStep, CleanEvent}
use audit_forwarder.Collusion.Keywords.{step_hit}
use audit_forwarder.Collusion.Sequence.{steps_hit, is_subsequence}

-- The steps are hit by some of the events, in order, other events in between.
pub data Covers : List RuleStep → List CleanEvent → Type 0 where
  done : {events : List CleanEvent} → Covers [] events
  hit :
      {s : RuleStep} {e : CleanEvent} {seq : List RuleStep} {events : List CleanEvent}
      → step_hit s.any_of e ≡ true
      → Covers seq events
      → Covers (s ∷ seq) (e ∷ events)
  pass :
      {e : CleanEvent} {seq : List RuleStep} {events : List CleanEvent}
      → Covers seq events
      → Covers seq (e ∷ events)

-- Fewer steps are carried out too.
pub Covers-tail :
    {s : RuleStep} {seq : List RuleStep} {events : List CleanEvent}
    → Covers (s ∷ seq) events
    → Covers seq events
Covers-tail (hit h c) = pass c
Covers-tail (pass c) = pass (Covers-tail c)

-- The first event may be used for the first step wherever it hits it.
pub Covers-hit :
    {s : RuleStep} {e : CleanEvent} {seq : List RuleStep} {events : List CleanEvent}
    → Covers (s ∷ seq) (e ∷ events)
    → Covers seq events
Covers-hit (hit h c) = c
Covers-hit (pass c) = Covers-tail c

-- Where it does not hit it, it is passed.
pub Covers-miss :
    {s : RuleStep} {e : CleanEvent} {seq : List RuleStep} {events : List CleanEvent}
    → step_hit s.any_of e ≡ false
    → Covers (s ∷ seq) (e ∷ events)
    → Covers (s ∷ seq) events
Covers-miss m (hit h c) = absurd (ground arith)
Covers-miss m (pass c) = c

steps_hit_sound :
    (seq : List RuleStep) (events : List CleanEvent)
    → steps_hit seq events ≡ true
    → Covers seq events
unfolding steps_hit
steps_hit_sound [] events h = done
steps_hit_sound (s ∷ seq) [] h = absurd (ground arith)
steps_hit_sound (s ∷ seq) (e ∷ events) h = elim (Bool-cases (step_hit s.any_of e)) [
  | inl y ↦ hit y (steps_hit_sound seq events (rw (y, steps_hit) at h))
  | inr n ↦ pass (steps_hit_sound (s ∷ seq) events (rw (n, steps_hit) at h))
]

steps_hit_complete :
    (seq : List RuleStep) (events : List CleanEvent)
    → Covers seq events
    → steps_hit seq events ≡ true
unfolding steps_hit
steps_hit_complete [] events c = refl
steps_hit_complete (s ∷ seq) [] c = elim c [ ]
steps_hit_complete (s ∷ seq) (e ∷ events) c = elim (Bool-cases (step_hit s.any_of e)) [
  | inl y ↦ rw (y, steps_hit) (steps_hit_complete seq events (Covers-hit c))
  | inr n ↦ rw (n, steps_hit) (steps_hit_complete (s ∷ seq) events (Covers-miss n c))
]

-- For a sequence with at least one step, the answer is `true` exactly when the events carry out the
-- steps in order.
pub is_subsequence_iff :
    (seq : List RuleStep) (events : List CleanEvent)
    → is_empty seq ≡ false
    → (is_subsequence seq events ≡ true) ↔ Covers seq events
unfolding is_subsequence
is_subsequence_iff seq events n = rw n (steps_hit_sound seq events, steps_hit_complete seq events)
