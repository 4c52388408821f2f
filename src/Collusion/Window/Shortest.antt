-- ===== src/Collusion/Window/Shortest.antt =====
-- What `minimal_match_window` promises: the earliest end, and the latest start that fits it.
use audit_forwarder.Prelude.{
  ℕ, suc, ◌+◌, ◌-◌, ◌≤◌, ◌<◌, ◌≡◌, ◌≢◌, refl, sym, ap, ◌∙◌, subst, true, Option, none, some, List,
  [], ◌∷◌, ◌++◌, arith, length, take, drop, rev_onto, take-append-drop, length-take, length-drop,
  take-append, drop-append, false≢true, rev_twice, rev_onto_lem, rev_onto-append, length-rev_onto,
  length-append,
}
use audit_forwarder.Collusion.{Rule, RuleStep, CleanEvent}
use audit_forwarder.Collusion.Sequence.{is_subsequence}
use audit_forwarder.Collusion.Sequence.Covers.{Covers, done, is_subsequence_iff}
use audit_forwarder.Collusion.Window.{backward, window_of, minimal_match_window, with_end}
use audit_forwarder.Collusion.Window.Greedy.{
  rest_after, Shortest, rest_after-Shortest, rest_after_complete, Covers-rev_onto,
}
use audit_forwarder.Collusion.Window.Passes.{forward_lem, backward_lem, last_index, count_left}

-- The window from `b` to `e`, both included: it carries out the steps, no beginning that ends
-- earlier does, and no start later than `b` with the same end does.
pub record IsWindow (seq : List RuleStep) (events : List CleanEvent) (b e : ℕ) : Type 0 where
  pub in_order : b ≤ e
  pub in_range : e < length events
  pub covers : Covers seq (drop b (take (e + 1) events))
  pub earliest_end : (n : ℕ) → n ≤ e → ¬ Covers seq (take n events)
  pub latest_start : (n : ℕ) → b < n → ¬ Covers seq (drop n (take (e + 1) events))

rev_seq :
    (seq : List RuleStep) (es : List CleanEvent)
    → Covers seq es
    → Covers (rev_onto seq []) (rev_onto es [])
rev_seq seq es c = Covers-rev_onto [] [] c done

-- What the forward pass has reached.
record Reach (seq : List RuleStep) (es : List CleanEvent) (e : ℕ) : Type 0 where
  in_range : e < length es
  covers : Covers seq (take (e + 1) es)
  least : (n : ℕ) → n ≤ e → ¬ Covers seq (take n es)

Shortest-Reach :
    (s : RuleStep) (seq : List RuleStep) (es r : List CleanEvent)
    → Shortest (s ∷ seq) es r
    → Reach (s ∷ seq) es (length es - length r - 1)
Shortest-Reach s seq es r w =
    let long : length es ≡ length w.pre + length r = ap length w.split ∙ length-append w.pre r in
    let some_used : 1 ≤ length w.pre = used w.pre w.covers in
    let place : length es - length r - 1 + 1 ≡ length w.pre = omega arith in
    record {
      in_range = omega arith;
      covers = rw place (rw w.split (rw (take-append w.pre r) w.covers));
      least = λ n le c.
          let short : length (take n es) ≡ n = length-take n es (omega arith) in
          let bound = w.least (take n es) (drop n es) (sym (take-append-drop n es)) c in
          omega arith;
    }
  where
    used : (pre : List CleanEvent) → Covers (s ∷ seq) pre → 1 ≤ length pre
    used [] c = elim c [ ]
    used (x ∷ pre) c = omega arith

-- A late start of a list is a short beginning of the list turned over.
drop-rev :
    (n : ℕ) (es : List CleanEvent)
    → rev_onto es [] ≡ rev_onto (drop n es) [] ++ rev_onto (take n es) []
drop-rev n es =
    ap (λ l. rev_onto l []) (sym (take-append-drop n es))
    ∙ rev_onto-append (take n es) (drop n es) []
    ∙ rev_onto_lem (drop n es) (rev_onto (take n es) [])

-- What the backward pass has reached in the beginning `es` of the events.
record Back (seq : List RuleStep) (es : List CleanEvent) (b : ℕ) : Type 0 where
  in_order : b < length es
  covers : Covers seq (drop b es)
  latest : (n : ℕ) → b < n → ¬ Covers seq (drop n es)

Shortest-Back :
    (s : RuleStep) (seq : List RuleStep) (es r : List CleanEvent)
    → Shortest (rev_onto (s ∷ seq) []) (rev_onto es []) r
    → Back (s ∷ seq) es (length r)
Shortest-Back s seq es r w =
    let long : length (rev_onto es []) ≡ length w.pre + length r =
      ap length w.split ∙ length-append w.pre r in
    let same : length (rev_onto es []) ≡ length es + 0 = length-rev_onto es [] in
    let turned : es ≡ rev_onto r [] ++ rev_onto w.pre [] =
      sym (rev_twice es)
      ∙ ap (λ l. rev_onto l []) w.split
      ∙ rev_onto-append w.pre r []
      ∙ rev_onto_lem r (rev_onto w.pre []) in
    let front : length (rev_onto r []) ≡ length r + 0 = length-rev_onto r [] in
    let place : length r ≡ length (rev_onto r []) = omega arith in
    let forth : Covers (s ∷ seq) (rev_onto w.pre []) =
      subst (λ q. Covers q (rev_onto w.pre [])) (rev_twice (s ∷ seq))
        (rev_seq (rev_onto (s ∷ seq) []) w.pre w.covers) in
    let back : drop (length r) es ≡ rev_onto w.pre [] =
      ap (λ l. drop (length r) l) turned
      ∙ ap (λ k. drop k (rev_onto r [] ++ rev_onto w.pre [])) place
      ∙ drop-append (rev_onto r []) (rev_onto w.pre []) in
    let filled = used (drop (length r) es) (subst (Covers (s ∷ seq)) (sym back) forth) in
    let size = length-drop (length r) es in
    record {
      in_order = omega arith;
      covers = subst (Covers (s ∷ seq)) (sym back) forth;
      latest = λ n lt c.
          let bound =
            w.least (rev_onto (drop n es) []) (rev_onto (take n es) []) (drop-rev n es)
              (rev_seq (s ∷ seq) (drop n es) c) in
          let tail = length-rev_onto (drop n es) [] in
          let cut = length-drop n es in let left = used (drop n es) c in omega arith;
    }
  where
    used : (pre : List CleanEvent) → Covers (s ∷ seq) pre → 1 ≤ length pre
    used [] c = elim c [ ]
    used (x ∷ pre) c = omega arith

rev_cons :
    (s : RuleStep) (seq : List RuleStep)
    → (t : RuleStep) × (q : List RuleStep) × (rev_onto (s ∷ seq) [] ≡ t ∷ q)
unfolding rev_onto
rev_cons s seq = onto seq s []
  where
    onto :
        (seq : List RuleStep) (s : RuleStep) (acc : List RuleStep)
        → (t : RuleStep) × (q : List RuleStep) × (rev_onto seq (s ∷ acc) ≡ t ∷ q)
    onto [] s acc = (s, acc, refl)
    onto (x ∷ seq) s acc = onto seq x (s ∷ acc)

-- Where the forward pass ends, the backward pass finds a start, and the two make a window.
both_passes :
    (s : RuleStep) (seq : List RuleStep) (events r : List CleanEvent)
    → rest_after (s ∷ seq) events ≡ some r
    → let e = length events - length r - 1 in
      (b : ℕ) × (backward (rev_onto (s ∷ seq) []) (rev_onto (take (e + 1) events) []) ≡ some b)
      × IsWindow (s ∷ seq) events b e
both_passes s seq events r h =
    let e = length events - length r - 1 in
    let reach = Shortest-Reach s seq events r (rest_after-Shortest (s ∷ seq) events r h) in
    let part = take (e + 1) events in
    let left =
      rest_after_complete (rev_onto (s ∷ seq) []) (rev_onto part [])
        (rev_seq (s ∷ seq) part reach.covers) in
    let back =
      Shortest-Back s seq part left.0
        (rest_after-Shortest (rev_onto (s ∷ seq) []) (rev_onto part []) left.0 left.1) in
    let turned = rev_cons s seq in
    let size : length part ≡ e + 1 = length-take (e + 1) events (omega (arith, reach.in_range)) in
    let found : backward (rev_onto (s ∷ seq) []) (rev_onto part []) ≡ some (length left.0) =
      ap (λ q. backward q (rev_onto part [])) turned.2
      ∙ backward_lem turned.0 turned.1 (rev_onto part [])
      ∙ ap (λ q. count_left (rest_after q (rev_onto part []))) (sym turned.2)
      ∙ ap count_left left.1 in
    (
      length left.0,
      found,
      record {
        in_order = omega (arith, back.in_order);
        in_range = reach.in_range;
        covers = back.covers;
        earliest_end = reach.least;
        latest_start = back.latest;
      },
    )

-- Both answers of the function on a rule with at least one step.
data Outcome (seq : List RuleStep) (events : List CleanEvent) : Option (ℕ × ℕ) → Type 0 where
  missing : ¬ Covers seq events → Outcome seq events none
  window : {b e : ℕ} → IsWindow seq events b e → Outcome seq events (some (b, e))

window_of-Outcome :
    (s : RuleStep) (seq : List RuleStep) (events : List CleanEvent)
    → Outcome (s ∷ seq) events (window_of (s ∷ seq) events)
unfolding window_of
window_of-Outcome s seq [] = missing (λ c. elim c [ ])
window_of-Outcome s seq (e ∷ events) =
    rw (forward_lem s seq (e ∷ events) 0) (cases (rest_after (s ∷ seq) (e ∷ events)) refl)
  where
    cases :
        (o : Option (List CleanEvent))
        → rest_after (s ∷ seq) (e ∷ events) ≡ o
        → Outcome (s ∷ seq) (e ∷ events) (elim (last_index 0 (length (e ∷ events)) o) [
          | none ↦ none
          | some end_idx ↦
              with_end end_idx
                (backward (rev_onto (s ∷ seq) []) (rev_onto (take (end_idx + 1) (e ∷ events)) []))
        ])
    cases none q =
        missing
          (λ c. let found = rest_after_complete (s ∷ seq) (e ∷ events) c in absurd (ground arith))
    cases (some r) q =
        let w = both_passes s seq (e ∷ events) r q in
        let z : 0 + suc (length events) ≡ suc (length events) = omega arith in
        rw z (
          subst
            (λ o. Outcome (s ∷ seq) (e ∷ events) (with_end (length (e ∷ events) - length r - 1) o))
            (sym w.1) (window w.2))

Outcome-IsWindow :
    {seq : List RuleStep} {events : List CleanEvent} (o : Option (ℕ × ℕ)) (b e : ℕ)
    → Outcome seq events o
    → o ≡ some (b, e)
    → IsWindow seq events b e
Outcome-IsWindow none b e w h = absurd (ground arith)
Outcome-IsWindow (some (b', e')) b e (window w) h =
    let first : b' ≡ b = ground arith in
    let second : e' ≡ e = ground arith in rw (first, second) at w

Outcome-some :
    {seq : List RuleStep} {events : List CleanEvent} (o : Option (ℕ × ℕ))
    → Outcome seq events o
    → Covers seq events
    → (b : ℕ) × (e : ℕ) × (o ≡ some (b, e))
Outcome-some none (missing m) c = absurd (m c)
Outcome-some (some (b, e)) w c = (b, e, refl)

none-some : (p : ℕ × ℕ) → none ≢ some p
none-some p h = absurd (ground arith)

-- A pair that the function returns spans the match that ends first, from its latest start, and need
-- not be the shortest match of all: `b` ≤ `e` < the number of events, the events from `b` to `e`
-- carry out the steps of the rule's sequence in order, no beginning of the events that ends before
-- `e` does, and no later start with the same end does.
pub minimal_match_window-IsWindow :
    (rule : Rule) (events : List CleanEvent) (b e : ℕ)
    → minimal_match_window rule events ≡ some (b, e)
    → IsWindow rule.sequence events b e
unfolding minimal_match_window window_of
minimal_match_window-IsWindow rule events b e = steps rule.sequence
  where
    steps : (q : List RuleStep) → window_of q events ≡ some (b, e) → IsWindow q events b e
    steps [] h = absurd (none-some (b, e) h)
    steps (s ∷ seq) h =
        Outcome-IsWindow (window_of (s ∷ seq) events) b e (window_of-Outcome s seq events) h

-- Wherever `is_subsequence` says yes for the rule's sequence, the function returns a window.
pub minimal_match_window-is_subsequence :
    (rule : Rule) (events : List CleanEvent)
    → is_subsequence rule.sequence events ≡ true
    → (b : ℕ) × (e : ℕ) × (minimal_match_window rule events ≡ some (b, e))
unfolding minimal_match_window is_subsequence
minimal_match_window-is_subsequence rule events = steps rule.sequence
  where
    steps :
        (q : List RuleStep)
        → is_subsequence q events ≡ true
        → (b : ℕ) × (e : ℕ) × (window_of q events ≡ some (b, e))
    steps [] h = absurd (false≢true h)
    steps (s ∷ seq) h =
        Outcome-some (window_of (s ∷ seq) events) (window_of-Outcome s seq events)
          ((is_subsequence_iff (s ∷ seq) events refl).0 h)
