-- ===== src/Collusion/Window/Passes.antt =====
-- Both loops of `minimal_match_window` are the greedy pass: the forward one counts how far it comes, the
-- backward one what it leaves in front.
use audit_forwarder.Prelude.{
  ℕ, suc, ◌+◌, ◌-◌, ◌≡◌, refl, ap, ◌∙◌, Option, none, some, List, [], ◌∷◌, arith, length, is_empty,
  if◌then◌else◌, Bool-cases, inl, inr,
}
use audit_forwarder.Collusion.{RuleStep, CleanEvent}
use audit_forwarder.Collusion.Keywords.{step_hit}
use audit_forwarder.Collusion.Window.{forward, latest_hit, backward}
use audit_forwarder.Collusion.Window.Greedy.{rest_after}

-- The index of the last event used, where the pass starts at index `i` of `n` events.
abbrev pub last_index : ℕ → ℕ → Option (List CleanEvent) → Option ℕ
last_index i n none = none
last_index i n (some r) = some (i + n - length r - 1)

last_index-suc :
    (i n : ℕ) (o : Option (List CleanEvent)) → last_index (i + 1) n o ≡ last_index i (suc n) o
last_index-suc i n none = refl
last_index-suc i n (some r) = ap some (omega arith)

pub forward_lem :
    (s : RuleStep) (seq : List RuleStep) (es : List CleanEvent) (i : ℕ)
    → forward (s ∷ seq) es i ≡ last_index i (length es) (rest_after (s ∷ seq) es)
unfolding forward rest_after
forward_lem s [] [] i = refl
forward_lem s (s' ∷ seq) [] i = refl
forward_lem s [] (e ∷ es) i = elim (Bool-cases (step_hit s.any_of e)) [
  | inl y ↦ rw (y, rest_after) (ap some (omega arith))
  | inr n ↦ rw (n, rest_after) (forward_lem s [] es (i + 1) ∙ last_index-suc i (length es) _)
]
forward_lem s (s' ∷ seq) (e ∷ es) i = elim (Bool-cases (step_hit s.any_of e)) [
  | inl y ↦
      rw (y, forward)
        (rw (y, rest_after) (forward_lem s' seq es (i + 1) ∙ last_index-suc i (length es) _))
  | inr n ↦
      rw (n, forward)
        (rw (n, rest_after) (forward_lem s (s' ∷ seq) es (i + 1) ∙ last_index-suc i (length es) _))
]

abbrev pub count_left : Option (List CleanEvent) → Option ℕ
count_left none = none
count_left (some r) = some (length r)

abbrev then_rest : List RuleStep → Option (List CleanEvent) → Option (List CleanEvent)
then_rest seq none = none
then_rest seq (some r) = rest_after seq r

rest_after-cons :
    (s : RuleStep) (seq : List RuleStep) (es : List CleanEvent)
    → rest_after (s ∷ seq) es ≡ then_rest seq (latest_hit s es)
unfolding rest_after latest_hit
rest_after-cons s seq [] = refl
rest_after-cons s seq (e ∷ es) = elim (Bool-cases (step_hit s.any_of e)) [
  | inl y ↦ rw (y, rest_after) refl
  | inr n ↦ rw (n, rest_after) (rest_after-cons s seq es)
]

pub backward_lem :
    (s : RuleStep) (seq : List RuleStep) (es : List CleanEvent)
    → backward (s ∷ seq) es ≡ count_left (rest_after (s ∷ seq) es)
unfolding backward rest_after
backward_lem s [] es = rw (rest_after-cons s [] es) (one (latest_hit s es))
  where
    one :
        (o : Option (List CleanEvent))
        → elim o [ none ↦ none | some rest ↦ some (length rest) ] ≡ count_left (then_rest [] o)
    one none = refl
    one (some r) = refl
backward_lem s (s' ∷ seq) es =
    rw (rest_after-cons s (s' ∷ seq) es) (more (λ r. backward_lem s' seq r) (latest_hit s es))
  where
    more :
        ((r : List CleanEvent) → backward (s' ∷ seq) r ≡ count_left (rest_after (s' ∷ seq) r))
        → (o : Option (List CleanEvent))
        → elim o [
          | none ↦ none
          | some rest ↦ if is_empty rest then none else backward (s' ∷ seq) rest
        ]
          ≡ count_left (then_rest (s' ∷ seq) o)
    more ih none = refl
    more ih (some []) = refl
    more ih (some (e ∷ r)) = ih (e ∷ r)
