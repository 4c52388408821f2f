-- ===== src/Rules/Behavior.antt =====
-- `BehaviorTracker` (shared/src/detector/rule_engine.cpp). Times are seconds.
use audit_forwarder.Prelude.{
  ℕ, ◌+◌, ◌-◌, ◌^◌, ◌%◌, Bool, false, ◌&&◌, not, Option, none, some, List, [], ◌∷◌, ◌++◌, map,
  length, drop, get_or, ltb, text_eq, if◌then◌else◌,
}
use audit_forwarder.Rules.{BehaviorKey}

-- The arithmetic on doubles.
pub record Doubles : Type 1 where
  pub Double : Type 0
  pub of_nat : ℕ → Double
  pub add : Double → Double → Double
  pub sub : Double → Double → Double
  pub mul : Double → Double → Double
  pub div : Double → Double → Double
  pub sqrt : Double → Double
  pub abs : Double → Double
  pub le : Double → Double → Bool
  pub lt : Double → Double → Bool

unfoldable pub same_key : BehaviorKey → BehaviorKey → Bool
same_key a b = text_eq a.actor b.actor && text_eq a.path b.path && text_eq a.cmd b.cmd

unfoldable pub find_sample : List (BehaviorKey × List ℕ) → BehaviorKey → Option (List ℕ)
unfolding same_key
find_sample [] k = none
find_sample ((j, v) ∷ l) k = let rest = find_sample l k in if same_key j k then some v else rest

abbrev pub max_samples : ℕ
max_samples = 1024

-- The oldest one goes where there are too many.
unfoldable pub push_sample : List ℕ → ℕ → List ℕ
push_sample v ts =
    let longer = v ++ ts ∷ [] in if ltb max_samples (length longer) then drop 1 longer else longer

unfoldable pub observe : List (BehaviorKey × List ℕ) → BehaviorKey → ℕ → List (BehaviorKey × List ℕ)
unfolding same_key push_sample
observe [] k ts = (k, push_sample [] ts) ∷ []
observe ((j, v) ∷ l) k ts =
    let rest = observe l k ts in if same_key j k then (j, push_sample v ts) ∷ l else (j, v) ∷ rest

-- The difference of two `u64`.
abbrev pub u64_sub : ℕ → ℕ → ℕ
u64_sub a b = (a + 2 ^ 64 - b) % 2 ^ 64

-- The times between one sample and the next.
unfoldable pub intervals : List ℕ → List ℕ
intervals [] = []
intervals (a ∷ []) = []
intervals (a ∷ b ∷ v) = u64_sub b a ∷ intervals (b ∷ v)

module _ (fl : Doubles) where
  unfoldable pub sum_of : fl.Double → List fl.Double → fl.Double
  sum_of acc [] = acc
  sum_of acc (x ∷ xs) = sum_of (fl.add acc x) xs

  unfoldable pub mean_of : List fl.Double → fl.Double
  unfolding sum_of
  mean_of xs =
      fl.div (sum_of (fl.of_nat 0) xs) (fl.of_nat (if ltb 1 (length xs) then length xs else 1))

  abbrev squared : fl.Double → fl.Double → fl.Double
  squared mean x = fl.mul (fl.sub x mean) (fl.sub x mean)

  unfoldable pub deviation : List fl.Double → fl.Double
  unfolding mean_of
  deviation xs = fl.sqrt (mean_of (map (squared (mean_of xs)) xs))

  -- Three standard deviations, with the interval up to the last sample but one.
  unfoldable pub is_unusual : List ℕ → ℕ → Bool
  unfolding mean_of deviation intervals
  is_unusual v ts =
      let iv = map fl.of_nat (intervals v) in
      let last_iv = fl.of_nat (u64_sub ts (get_or v (length v - 2) 0)) in
      not (fl.le (deviation iv) (fl.of_nat 0))
      && fl.lt (fl.mul (fl.of_nat 3) (deviation iv)) (fl.abs (fl.sub last_iv (mean_of iv)))

  unfoldable pub is_anomalous : List (BehaviorKey × List ℕ) → BehaviorKey → ℕ → Bool
  unfolding find_sample is_unusual
  is_anomalous samples k ts = elim (find_sample samples k) [
    | none ↦ false
    | some v ↦ if ltb (length v) 30 then false else is_unusual v ts
  ]
