-- ===== src/Collusion/Window/Greedy.antt =====
-- One greedy pass over events: it uses the shortest beginning that carries out the steps. Both passes
-- of `minimal_match_window` are such a pass, the second over the reversed list.
use audit_forwarder.Prelude.{
  suc, ◌≤◌, ◌≡◌, refl, ap, Option, none, some, List, [], ◌∷◌, ◌++◌, arith, length, rev_onto,
  if◌then◌else◌, Bool-cases, inl, inr,
}
use audit_forwarder.Collusion.{RuleStep, CleanEvent}
use audit_forwarder.Collusion.Keywords.{step_hit}
use audit_forwarder.Collusion.Sequence.Covers.{Covers, done, hit, pass, Covers-hit, Covers-miss}

-- What is left behind the greedy match.
unfoldable pub rest_after : List RuleStep → List CleanEvent → Option (List CleanEvent)
rest_after [] es = some es
rest_after (s ∷ seq) [] = none
rest_after (s ∷ seq) (e ∷ es) = rest_after (if step_hit s.any_of e then seq else s ∷ seq) es

-- `pre` is the shortest beginning that carries out the steps, and `r` is what is left.
pub record Shortest (seq : List RuleStep) (es r : List CleanEvent) : Type 0 where
  pub pre : List CleanEvent
  pub split : es ≡ pre ++ r
  pub covers : Covers seq pre
  pub least :
      (pre' r' : List CleanEvent) → es ≡ pre' ++ r' → Covers seq pre' → length pre ≤ length pre'

Shortest-cons :
    (seq seq' : List RuleStep) (e : CleanEvent) (es r : List CleanEvent)
    → ((pre : List CleanEvent) → Covers seq' pre → Covers seq (e ∷ pre))
    → ((pre : List CleanEvent) → Covers seq (e ∷ pre) → Covers seq' pre)
    → ¬ Covers seq []
    → Shortest seq' es r
    → Shortest seq (e ∷ es) r
Shortest-cons seq seq' e es r up down start s = record {
  pre = e ∷ s.pre;
  split = ap (◌∷◌ e) s.split;
  covers = up s.pre s.covers;
  least = bound;
}
  where
    bound :
        (pre' r' : List CleanEvent)
        → e ∷ es ≡ pre' ++ r'
        → Covers seq pre'
        → suc (length s.pre) ≤ length pre'
    bound [] r' eq c = absurd (start c)
    bound (x ∷ pre') r' eq c =
        let same : es ≡ pre' ++ r' = ground arith in
        let first : x ≡ e = ground arith in
        omega (arith, s.least pre' r' same (down pre' (rw first at c)))

pub rest_after-Shortest :
    (seq : List RuleStep) (es r : List CleanEvent) → rest_after seq es ≡ some r → Shortest seq es r
unfolding rest_after
rest_after-Shortest [] es r h = record {
  pre = [];
  split = ground arith;
  covers = done;
  least = λ pre' r' _ _. omega arith;
}
rest_after-Shortest (s ∷ seq) [] r h = absurd (ground arith)
rest_after-Shortest (s ∷ seq) (e ∷ es) r h = elim (Bool-cases (step_hit s.any_of e)) [
  | inl y ↦
      Shortest-cons (s ∷ seq) seq e es r (λ pre c. hit y c) (λ pre c. Covers-hit c)
        (λ c. elim c [ ]) (rest_after-Shortest seq es r (rw (y, rest_after) at h))
  | inr n ↦
      Shortest-cons (s ∷ seq) (s ∷ seq) e es r (λ pre c. pass c) (λ pre c. Covers-miss n c)
        (λ c. elim c [ ]) (rest_after-Shortest (s ∷ seq) es r (rw (n, rest_after) at h))
]

-- Where the steps are carried out at all, the pass succeeds.
pub rest_after_complete :
    (seq : List RuleStep) (es : List CleanEvent)
    → Covers seq es
    → (r : List CleanEvent) × (rest_after seq es ≡ some r)
unfolding rest_after
rest_after_complete [] es c = (es, refl)
rest_after_complete (s ∷ seq) [] c = elim c [ ]
rest_after_complete (s ∷ seq) (e ∷ es) c = elim (Bool-cases (step_hit s.any_of e)) [
  | inl y ↦ rw (y, rest_after) (rest_after_complete seq es (Covers-hit c))
  | inr n ↦ rw (n, rest_after) (rest_after_complete (s ∷ seq) es (Covers-miss n c))
]

-- Turned over, the events carry out the steps turned over.
pub Covers-rev_onto :
    {seq : List RuleStep} {es : List CleanEvent} (steps : List RuleStep) (events : List CleanEvent)
    → Covers seq es
    → Covers steps events
    → Covers (rev_onto seq steps) (rev_onto es events)
unfolding rev_onto
Covers-rev_onto steps events (done {events = es}) c = onto es events c
  where
    onto : (es events : List CleanEvent) → Covers steps events → Covers steps (rev_onto es events)
    onto [] events c = c
    onto (e ∷ es) events c = onto es (e ∷ events) (pass c)
Covers-rev_onto steps events (hit {s = s} {e = e} h d) c =
    Covers-rev_onto (s ∷ steps) (e ∷ events) d (hit h c)
Covers-rev_onto steps events (pass {e = e} d) c = Covers-rev_onto steps (e ∷ events) d (pass c)
