-- ===== src/Collusion/Correlation/Match.antt =====
-- What a match of a correlation rule shows.
use audit_forwarder.Prelude.{
  ◌+◌, ◌≤◌, ◌%◌, ◌^◌, ◌==◌, ◌&&◌, not, ltb, All-map, ℕ, ◌≡◌, ◌≢◌, refl, ◌∙◌, arith, ℤ, pos, ltb_ℤ,
  ◌≤ℤ◌, Bool, true, false, Option, none, some, List, [], ◌∷◌, All, length, is_empty, Text,
  text_eq→≡, Bool-cases, Option-cases, inl, inr,
}
use audit_forwarder.Collusion.{AssetGroup, Rule, RuleStep, CleanEvent}
use audit_forwarder.Collusion.Keywords.{step_hit}
use audit_forwarder.Collusion.Sequence.Covers.{Covers, done, hit}
use audit_forwarder.Collusion.Correlation.Sorted.{
  SortedFrom, SortedFrom-All, Picked, skip, take, Picked-nil, Picked-SortedFrom,
  stable_sort-SortedFrom, stable_sort-perm,
}
use mathlib.Core.List.{Perm}
use audit_forwarder.Collusion.Correlation.{
  stable_sort, CorrelationMatch, correlation_group_key, group_kind, out_of_span, event_us, collect,
  in_group_of, operators_of, enough, match_of, match_from, match_correlation_rule,
}

-- The matched events carry out the steps, one event for each, within the group and in time.
record Collected (in_group late : CleanEvent → Bool) (seq : List RuleStep)
    (events l : List CleanEvent) : Type 0 where
  covers : Covers seq l
  size : length l ≡ length seq
  grouped : All (λ e. (in_group e ≡ true) × (late e ≡ false)) l
  picked : Picked l events

passed :
    {in_group late : CleanEvent → Bool} {seq : List RuleStep} {events l : List CleanEvent}
    {e : CleanEvent}
    → Collected in_group late seq events l
    → Collected in_group late seq (e ∷ events) l
passed c = record { covers = c.covers; size = c.size; grouped = c.grouped; picked = skip c.picked }

collect-Collected :
    (in_group late : CleanEvent → Bool) (seq : List RuleStep) (events l : List CleanEvent)
    → collect in_group late seq events ≡ some l
    → Collected in_group late seq events l
unfolding collect
collect-Collected in_group late [] events l h =
    let none_left : [] ≡ l = ground arith in
    rw (← none_left)
      (record { covers = done; size = refl; grouped = tt; picked = Picked-nil events })
collect-Collected in_group late (s ∷ seq) [] l h = absurd (ground arith)
collect-Collected in_group late (s ∷ seq) (e ∷ events) l h = elim (Bool-cases (in_group e)) [
  | inr out ↦ passed (collect-Collected in_group late (s ∷ seq) events l (rw out at h))
  | inl inside ↦ elim (Bool-cases (late e)) [
    | inl y ↦ absurd (ground arith)
    | inr timely ↦ elim (Bool-cases (step_hit s.any_of e)) [
      | inr n ↦
          passed (collect-Collected in_group late (s ∷ seq) events l (rw (inside, timely, n) at h))
      | inl y ↦ elim (Option-cases (collect in_group late seq events)) [
        | inl stuck ↦ absurd (none_here (rw (inside, timely, y, stuck) at h))
        | inr (rest, found) ↦
            let c = collect-Collected in_group late seq events rest found in
            let whole : e ∷ rest ≡ l = some_here (rw (inside, timely, y, found) at h) in
            rw (← whole) (record {
              covers = hit y c.covers;
              size = omega (arith, c.size);
              grouped = ((inside, timely), c.grouped);
              picked = take c.picked;
            })
      ]
    ]
  ]
]
  where
    none_here : {l : List CleanEvent} → none ≢ some l
    none_here h = absurd (ground arith)

    some_here : {k l : List CleanEvent} → some k ≡ some l → k ≡ l
    some_here h = ground arith

-- The events of the match are events of the input, each at most as often as there and in time order.
-- They carry out the rule's steps, one event for each; they belong to one group, with a key that is
-- not empty; where the rule has a time span, any two of them are no further apart than that; and
-- there are as many operators as the rule asks for.
pub record IsMatch (rule : Rule) (groups : List AssetGroup) (events : List CleanEvent)
    (m : CorrelationMatch) : Type 0 where
  pub pool : List CleanEvent
  pub of_input : Perm pool events
  pub picked : Picked m.events pool
  pub ordered : SortedFrom 0 m.events
  pub covers : Covers rule.sequence m.events
  pub size : length m.events ≡ length rule.sequence
  pub keyed : is_empty m.group_key ≡ false
  pub grouped : All (λ e. correlation_group_key (group_kind rule) e groups ≡ m.group_key) m.events
  pub in_span :
      rule.timespan_us ≢ 0
      → All (λ a. All (λ b. event_us b ≤ event_us a + rule.timespan_us) m.events) m.events
  pub operators : rule.min_operator_cnt ≤ℤ pos (length m.operator_ids)

-- An event that is not late for a start is within the span behind it.
not_late :
    (span start : ℕ) (e : CleanEvent)
    → span ≢ 0
    → out_of_span span start e ≡ false
    → event_us e ≤ start + span
unfolding out_of_span
not_late span start e some_span h = go (event_us e) h
  where
    go : (u : ℕ) → (not (span == 0) && ltb ((start + span) % 2 ^ 64) u) ≡ false → u ≤ start + span
    go u late = ground arith

-- The same, of a suffix of the sorted events, for a start that none of them is before.
record IsFound (rule : Rule) (groups : List AssetGroup) (events : List CleanEvent)
    (m : CorrelationMatch) : Type 0 where
  picked : Picked m.events events
  covers : Covers rule.sequence m.events
  size : length m.events ≡ length rule.sequence
  keyed : is_empty m.group_key ≡ false
  grouped : All (λ e. correlation_group_key (group_kind rule) e groups ≡ m.group_key) m.events
  in_span :
      rule.timespan_us ≢ 0
      → All (λ a. All (λ b. event_us b ≤ event_us a + rule.timespan_us) m.events) m.events
  operators : rule.min_operator_cnt ≤ℤ pos (length m.operator_ids)

later-IsFound :
    (rule : Rule) (groups : List AssetGroup) (e : CleanEvent) (events : List CleanEvent)
    (m : CorrelationMatch)
    → IsFound rule groups events m
    → IsFound rule groups (e ∷ events) m
later-IsFound rule groups e events m f = record {
  picked = skip f.picked;
  covers = f.covers;
  size = f.size;
  keyed = f.keyed;
  grouped = f.grouped;
  in_span = f.in_span;
  operators = f.operators;
}

enough-IsFound :
    (rule : Rule) (groups : List AssetGroup) (gk : Text) (start : ℕ) (events : List CleanEvent)
    (o : Option (List CleanEvent)) (m : CorrelationMatch)
    → is_empty gk ≡ false
    → SortedFrom start events
    → ((l : List CleanEvent)
        → o ≡ some l
        → Collected
            (in_group_of (group_kind rule) groups gk)
            (out_of_span rule.timespan_us start)
            rule.sequence
            events
            l)
    → enough rule (group_kind rule) gk o ≡ some m
    → IsFound rule groups events m
unfolding enough match_of in_group_of
enough-IsFound rule groups gk start events none m k sorted f h = absurd (ground arith)
enough-IsFound rule groups gk start events (some l) m k sorted f h =
    elim (Bool-cases (ltb_ℤ (pos (length (operators_of l []))) rule.min_operator_cnt)) [
      | inl few ↦ absurd (none_here (rw few at h))
      | inr many ↦
          let c = f l refl in
          let same : match_of rule (group_kind rule) gk l ≡ m = some_here (rw many at h) in
          rw (← same) (record {
            picked = c.picked;
            covers = c.covers;
            size = c.size;
            keyed = k;
            grouped =
                All-map
                  (λ e.
                    (in_group_of (group_kind rule) groups gk e ≡ true)
                    × (out_of_span rule.timespan_us start e ≡ false))
                  (λ e. correlation_group_key (group_kind rule) e groups ≡ gk) l
                  (λ e p. text_eq→≡ (correlation_group_key (group_kind rule) e groups) gk p.0)
                  c.grouped;
            in_span = λ some_span. span some_span c;
            operators = at_least (pos (length (operators_of l []))) rule.min_operator_cnt many;
          })
    ]
  where
    none_here : {m : CorrelationMatch} → none ≢ some m
    none_here h = absurd (ground arith)

    some_here : {k m : CorrelationMatch} → some k ≡ some m → k ≡ m
    some_here h = ground arith

    at_least : (a b : ℤ) → ltb_ℤ a b ≡ false → b ≤ℤ a
    at_least a b h = ground arith

    span :
        rule.timespan_us ≢ 0
        → Collected
            (in_group_of (group_kind rule) groups gk)
            (out_of_span rule.timespan_us start)
            rule.sequence
            events
            l
        → All (λ a. All (λ b. event_us b ≤ event_us a + rule.timespan_us) l) l
    span some_span c =
        All-map (λ a. start ≤ event_us a)
          (λ a. All (λ b. event_us b ≤ event_us a + rule.timespan_us) l) l
          (λ a from.
            All-map
              (λ e.
                (in_group_of (group_kind rule) groups gk e ≡ true)
                × (out_of_span rule.timespan_us start e ≡ false))
              (λ b. event_us b ≤ event_us a + rule.timespan_us) l
              (λ b p. omega (arith, from, not_late rule.timespan_us start b some_span p.1))
              c.grouped)
          (SortedFrom-All start l (Picked-SortedFrom start c.picked sorted))

match_from-IsFound :
    (rule : Rule) (groups : List AssetGroup) (first : ℕ) (events : List CleanEvent)
    (m : CorrelationMatch)
    → SortedFrom first events
    → match_from rule (group_kind rule) groups events ≡ some m
    → IsFound rule groups events m
unfolding match_from SortedFrom
match_from-IsFound rule groups first [] m sorted h = absurd (ground arith)
match_from-IsFound rule groups first (e ∷ events) m sorted h =
    let gk = correlation_group_key (group_kind rule) e groups in
    let o =
      collect (in_group_of (group_kind rule) groups gk) (out_of_span rule.timespan_us (event_us e))
        rule.sequence (e ∷ events) in
    elim (Bool-cases (is_empty gk)) [
      | inl y ↦
          later-IsFound rule groups e events m
            (match_from-IsFound rule groups (event_us e) events m sorted.1 (rw y at h))
      | inr n ↦ elim (Option-cases (enough rule (group_kind rule) gk o)) [
        | inl nothing ↦
            later-IsFound rule groups e events m
              (match_from-IsFound rule groups (event_us e) events m sorted.1 (rw (n, nothing) at h))
        | inr (m', found) ↦
            enough-IsFound rule groups gk (event_us e) (e ∷ events) o m n (omega arith, sorted.1)
              (λ l q. collect-Collected _ _ rule.sequence (e ∷ events) l q)
              (found ∙ rw (n, found) at h)
      ]
    ]

-- A match that is returned is one: its events are events of the input in time order, they carry out
-- the rule's steps, one for each, in one group with a key and no further apart than the time span, by
-- as many operators as the rule asks for.
pub match_correlation_rule-IsMatch :
    (rule : Rule) (events : List CleanEvent) (groups : List AssetGroup) (m : CorrelationMatch)
    → match_correlation_rule rule events groups ≡ some m
    → IsMatch rule groups events m
unfolding match_correlation_rule
match_correlation_rule-IsMatch rule events groups m h = elim (Bool-cases (is_empty rule.sequence)) [
  | inl y ↦ absurd (none_here (rw y at h))
  | inr n ↦
      let f =
        match_from-IsFound rule groups 0 (stable_sort events) m (stable_sort-SortedFrom events)
          (rw n at h) in
      record {
        pool = stable_sort events;
        of_input = stable_sort-perm events;
        picked = f.picked;
        ordered = Picked-SortedFrom 0 f.picked (stable_sort-SortedFrom events);
        covers = f.covers;
        size = f.size;
        keyed = f.keyed;
        grouped = f.grouped;
        in_span = f.in_span;
        operators = f.operators;
      }
]
  where
    none_here : {m : CorrelationMatch} → none ≢ some m
    none_here h = absurd (ground arith)
