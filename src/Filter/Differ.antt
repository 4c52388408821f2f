-- ===== src/Filter/Differ.antt =====
-- `NetworkSnapshotDiffer` (include/auditforwarder/collector_filter.h,
-- client/src/collector/collector_filter.cpp). A state is only compared, and is a number.
pub mod Changes
use audit_forwarder.Prelude.{
  ℕ, Bool, true, false, Option, none, some, List, [], ◌∷◌, ◌==◌, if◌then◌else◌, is_empty, Text,
}
use audit_forwarder.Maps.{find_key, put_key}

pub record NetworkSnapshotDiffer : Type 0 where
  pub state : List (Text × ℕ)

-- A connection that is new, or whose state has changed.
unfoldable pub is_news : Option ℕ → ℕ → Bool
is_news none state = true
is_news (some old) state = if old == state then false else true

unfoldable pub accept : NetworkSnapshotDiffer → Text → ℕ → NetworkSnapshotDiffer × Bool
unfolding is_news find_key put_key
accept d key state =
    if is_news (find_key d.state key) state
    then (record { state = put_key d.state key state }, true)
    else (d, false)

-- `next.emplace(*it)`: the first pair under a key stays.
unfoldable pub emplace : List (Text × ℕ) → Text → Option ℕ → List (Text × ℕ)
unfolding find_key
emplace next k none = next
emplace next k (some v) = elim (find_key next k) [ none ↦ (k, v) ∷ next | some old ↦ next ]

unfoldable pub keep_alive : List (Text × ℕ) → List Text → List (Text × ℕ) → List (Text × ℕ)
unfolding emplace find_key
keep_alive state [] next = next
keep_alive state (k ∷ alive_keys) next =
    keep_alive state alive_keys (emplace next k (find_key state k))

unfoldable pub sweep : NetworkSnapshotDiffer → List Text → NetworkSnapshotDiffer
unfolding keep_alive
sweep d alive_keys =
    if is_empty d.state then d else record { state = keep_alive d.state alive_keys [] }

unfoldable pub clear : NetworkSnapshotDiffer → NetworkSnapshotDiffer
clear d = record { state = [] }
