-- ===== src/Collusion/Detect/Profile.antt =====
-- The behaviour profile in `detect` (server/src/collusion/collusion.cpp): operators who have not
-- worked together, and operators away from their asset groups.
use audit_forwarder.Prelude.{
  ℕ, ◌+◌, ℤ, pos, ◌+ℤ◌, ◌*ℤ◌, min_ℤ, Bool, true, false, not, ◌||◌, none, some, List, [], ◌∷◌, ◌++◌,
  any, leb, ltb, if◌then◌else◌, Text, codes,
}
use audit_forwarder.Text.{text_lt}
use audit_forwarder.Maps.{find_key}
use audit_forwarder.Collusion.{AggSet}
use audit_forwarder.Collusion.Detect.{
  EngineConfig, ProfileSnapshot, ProfileNote, strangers, cross_domain,
}

unfoldable pub pair_key : Text → Text → Text
unfolding text_lt
pair_key a b = if text_lt a b then a ++ (codes "|" ++ b) else b ++ (codes "|" ++ a)

-- A count of at least 2 under the key.
unfoldable pub frequent : List (Text × ℕ) → Text → Bool
unfolding find_key
frequent counts k = elim (find_key counts k) [ none ↦ false | some n ↦ leb 2 n ]

-- `any_pair`: some operator and a later one have worked together.
unfoldable pub any_pair : List (Text × ℕ) → List Text → Bool
unfolding frequent pair_key any
any_pair counts [] = false
any_pair counts (a ∷ ops) = any (λ b. frequent counts (pair_key a b)) ops || any_pair counts ops

-- The operators who have hardly touched the asset group.
unfoldable pub away : List (Text × List (Text × ℕ)) → Text → Text → Bool
unfolding find_key frequent
away assets group op = elim (find_key assets op) [
  | none ↦ true
  | some counts ↦ not (frequent counts group)
]

unfoldable pub count_away : List (Text × List (Text × ℕ)) → Text → List Text → ℕ
unfolding away
count_away assets group [] = 0
count_away assets group (op ∷ ops) =
    let rest = count_away assets group ops in if away assets group op then rest + 1 else rest

pub record ProfileOutcome : Type 0 where
  pub profile_factor : ℤ
  pub profile_notes : List ProfileNote

unfoldable pub profile_engine : EngineConfig → AggSet → ProfileSnapshot → Bool → ProfileOutcome
unfolding any_pair count_away
profile_engine cfg set profile forged_ticket =
    let known = any_pair profile.pair_counts set.operator_ids in
    let crossing = count_away profile.operator_assets set.asset_group set.operator_ids in
    let add = min_ℤ (pos crossing *ℤ pos 6) (pos 13) in
    let strange = if known then pos 0 else pos 12 in
    let across = if ltb 0 crossing then strange +ℤ add else strange in
    let forged = if forged_ticket then across +ℤ cfg.forged_ticket_bonus else across in
    if cfg.profile_enabled
    then record {
      profile_factor = min_ℤ forged cfg.profile_max_factor;
      profile_notes =
          (if known then [] else strangers ∷ [])
          ++ (if ltb 0 crossing then cross_domain (pos crossing) add ∷ [] else []);
    }
    else record { profile_factor = pos 0; profile_notes = [] }
