-- ===== src/Collusion/Engine/Windows.antt =====
-- The sets of events by asset group and fixed window: the lambda `add` of `Engine::ingest_json` and
-- `Engine::ingest_native_json` (server/src/collusion/collusion.cpp).

pub mod Keys
pub mod Sound
pub mod Groups
use audit_forwarder.Prelude.{
  ℕ, ◌-◌, ◌%◌, Option, none, some, List, [], ◌∷◌, ◌++◌, is_empty, if◌then◌else◌, Text, codes,
}
use audit_forwarder.Decimal.{decimal}
use audit_forwarder.Maps.{find_key, insert_key}
use audit_forwarder.Collusion.{CleanEvent, AggSet}
use audit_forwarder.Collusion.Guards.{listed}
use audit_forwarder.Collusion.Sequence.{append_event_ordered}
use audit_forwarder.Collusion.Engine.{add64}

-- `if (std::find(...) == end()) push_back(x)`.
unfoldable pub push_unique : List Text → Text → List Text
unfolding listed
push_unique l x = if listed l x then l else l ++ x ∷ []

-- `ts - ts % win`.
unfoldable pub window_start : ℕ → ℕ → ℕ
window_start ts_ms win = ts_ms - ts_ms % win

unfoldable pub window_key : Text → Text → ℕ → ℕ → Text
unfolding add64
window_key ag kind win ws =
    ag
    ++ (codes "|" ++ (decimal ws ++ (codes "|" ++ (decimal (add64 ws win) ++ (codes "|" ++ kind)))))

abbrev empty_set : AggSet
empty_set = record {
  aggregate_key = [];
  asset_group = [];
  window_kind = [];
  window_start_ms = 0;
  window_end_ms = 0;
  operator_ids = [];
  work_order_ids = [];
  events = [];
}

-- `auto& s = m[key]`.
unfoldable pub set_at : List (Text × AggSet) → Text → AggSet
unfolding find_key
set_at m key = elim (find_key m key) [ none ↦ empty_set | some s ↦ s ]

-- A set with no operator is new, and is given its place.
unfoldable pub place : Text → Text → ℕ → ℕ → AggSet → AggSet
unfolding window_key add64
place ag kind win ws s =
    if is_empty s.operator_ids
    then record s {
      aggregate_key = window_key ag kind win ws;
      asset_group = ag;
      window_kind = kind;
      window_start_ms = ws;
      window_end_ms = add64 ws win;
    }
    else s

unfoldable pub add_order : List Text → Text → List Text
unfolding push_unique
add_order orders id = if is_empty id then orders else push_unique orders id

-- The operator, the work order and the event are put into a set.
unfoldable pub join_set : AggSet → CleanEvent → AggSet
unfolding push_unique add_order append_event_ordered
join_set s e = record s {
  operator_ids = push_unique s.operator_ids e.oper_id;
  work_order_ids = add_order s.work_order_ids e.work_order_id;
  events = append_event_ordered s.events e;
}

unfoldable pub add_event :
    Text → Text → ℕ → List (Text × AggSet) → CleanEvent → List (Text × AggSet)
unfolding window_start window_key set_at place join_set insert_key
add_event ag kind win m e =
    let ws = window_start e.ts_ms win in
    let key = window_key ag kind win ws in
    insert_key m key (join_set (place ag kind win ws (set_at m key)) e)
