-- ===== src/Collusion/Detect/Hits.antt =====
-- Where points for rules come from: no rule hit, no points.
use audit_forwarder.Prelude.{
  ℤ, pos, ◌≡◌, ◌↔◌, refl, sym, ap, ◌∙◌, arith, Bool, true, false, not, ◌&&◌, List, [], ◌∷◌, ◌++◌,
  append-nil, append_assoc, any, is_empty, if◌then◌else◌, Text, codes, Bool-cases, inl, inr, ◌⊎◌,
  text_eq, text_eq_iff, ltb_ℤ, ◌≤ℤ◌, false≢true,
}
use audit_forwarder.Collusion.{Rule, RuleStep, CleanEvent, AggSet}
use audit_forwarder.Collusion.Sequence.{is_subsequence}
use audit_forwarder.Collusion.Sequence.Covers.{Covers, is_subsequence_iff}
use audit_forwarder.Collusion.Guards.Spec.{guard_iff, not_iff}
use audit_forwarder.Collusion.Detect.{EngineConfig}
use audit_forwarder.Collusion.Detect.Rules.{
  distinct_op_count, rule_hit, Hits, add_hit, rule_loop, rule_engine,
}

rule_loop-none :
    (set : AggSet) (rules : List Rule) (h : Hits)
    → any (rule_hit set) rules ≡ false
    → rule_loop set rules h ≡ h
unfolding rule_loop any
rule_loop-none set [] h e = refl
rule_loop-none set (r ∷ rules) h e = elim (Bool-cases (rule_hit set r)) [
  | inl y ↦ absurd (false≢true (sym (rw y at e)))
  | inr n ↦ rw (n, rule_loop) (rule_loop-none set rules h (rw n at e))
]

pub rule_engine-none :
    (cfg : EngineConfig) (set : AggSet) (rules : List Rule)
    → any (rule_hit set) rules ≡ false
    → (rule_engine cfg set rules).rule_factor ≡ pos 0
unfolding rule_engine
rule_engine-none cfg set rules e = rw (rule_loop-none set rules _ e) refl

-- The names of the rules that hit, in their order.
pub hit_names : AggSet → List Rule → List Text
hit_names set [] = []
hit_names set (r ∷ rules) =
    let rest = hit_names set rules in
    if rule_hit set r then (r.rule_id ++ (codes " " ++ r.name)) ∷ rest else rest

add_hit-names :
    (h : Hits) (r : Rule)
    → (add_hit h r).hit_rules ≡ h.hit_rules ++ ((r.rule_id ++ (codes " " ++ r.name)) ∷ [])
unfolding add_hit
add_hit-names h r = elim (Bool-cases h.first_hit) [ inl y ↦ rw y refl | inr n ↦ rw n refl ]

rule_loop-names :
    (set : AggSet) (rules : List Rule) (h : Hits)
    → (rule_loop set rules h).hit_rules ≡ h.hit_rules ++ hit_names set rules
unfolding rule_loop hit_names
rule_loop-names set [] h = sym (append-nil h.hit_rules)
rule_loop-names set (r ∷ rules) h = elim (Bool-cases (rule_hit set r)) [
  | inl y ↦
      rw (y, rule_loop)
        (rule_loop-names set rules (add_hit h r)
          ∙ ap (λ l. l ++ hit_names set rules) (add_hit-names h r)
          ∙ append_assoc h.hit_rules _ (hit_names set rules))
  | inr n ↦ rw (n, rule_loop) (rule_loop-names set rules h)
]

-- The names that a result lists are those of the rules that hit, in the order of the rules.
pub rule_engine-names :
    (cfg : EngineConfig) (set : AggSet) (rules : List Rule)
    → (rule_engine cfg set rules).hit_rules ≡ hit_names set rules
unfolding rule_engine
rule_engine-names cfg set rules = rule_loop-names set rules _

-- The rule is on, is for asset groups and for this one, asks for no more operators than there are,
-- and its steps, of which there is at least one, are carried out by the events in order.
abbrev pub Fires : AggSet → Rule → Type 0
Fires set r =
    (r.enabled ≡ true)
    × ((r.group_by ≡ codes "asset_group")
        × (((r.asset_group ≡ codes "*") ⊎ (r.asset_group ≡ set.asset_group))
            × ((r.min_operator_cnt ≤ℤ pos (distinct_op_count set))
                × ((is_empty r.sequence ≡ false) × Covers r.sequence set.events))))

steps_iff :
    (seq : List RuleStep) (events : List CleanEvent)
    → (is_subsequence seq events ≡ true) ↔ ((is_empty seq ≡ false) × Covers seq events)
unfolding is_subsequence
steps_iff [] events = (λ h. absurd (false≢true h), λ h. absurd (false≢true (sym h.0)))
steps_iff (s ∷ seq) events =
    let decides = is_subsequence_iff (s ∷ seq) events refl in
    (λ h. (refl, decides.0 h), λ h. decides.1 h.1)

group_iff :
    (a b : Text)
    → ((not (text_eq a (codes "*")) && not (text_eq a b)) ≡ false) ↔ ((a ≡ codes "*") ⊎ (a ≡ b))
group_iff a b = either (text_eq_iff a (codes "*")) (text_eq_iff a b)
  where
    either :
        {x y : Bool} {P Q : Type 0}
        → (x ≡ true) ↔ P
        → (y ≡ true) ↔ Q
        → ((not x && not y) ≡ false) ↔ (P ⊎ Q)
    either {x = true} f g = (λ _. inl (f.0 refl), λ _. refl)
    either {x = false} f g =
        let rest = not_iff g in
        (
          λ h. inr (rest.0 h),
          λ s. elim s [ inl p ↦ absurd (false≢true (f.1 p)) | inr q ↦ rest.1 q ],
        )

few_iff : (a b : ℤ) → (ltb_ℤ a b ≡ false) ↔ (b ≤ℤ a)
few_iff a b = ground arith

-- The guards of the loop let a rule through exactly when it fires.
pub rule_hit_iff : (set : AggSet) (r : Rule) → (rule_hit set r ≡ true) ↔ Fires set r
unfolding rule_hit
rule_hit_iff set r = guard_iff (not_iff (λ h. h, λ h. h)) (
    guard_iff (not_iff (text_eq_iff r.group_by (codes "asset_group"))) (
      guard_iff (group_iff r.asset_group set.asset_group) (
        guard_iff (few_iff (pos (distinct_op_count set)) r.min_operator_cnt)
          (steps_iff r.sequence set.events))))
