-- ===== src/Processor/Deduper.antt =====
-- `Deduper` and `RegexFilter` (client/src/processor/processor.cpp). Times are clock ticks; where
-- `std::regex_search` finds a pattern is an argument.
pub mod Quiet
use audit_forwarder.Prelude.{
  ℕ, ◌+◌, ◌*◌, Bool, true, false, ◌||◌, not, Option, none, some, List, [], ◌∷◌, ◌++◌, any, ltb,
  Text, if◌then◌else◌,
}
use audit_forwarder.Maps.{find_key, insert_key}
use audit_forwarder.Decimal.{decimal}
use audit_forwarder.Audit.{AuditEvent, bar}
use audit_forwarder.Processor.Aggregator.{action_number}

-- The members of `Deduper`: `window_`, `seen_`.
pub record Deduper : Type 0 where
  pub window : ℕ
  pub seen : List (Text × ℕ)

unfoldable pub repeat_key : AuditEvent → Text
repeat_key ev =
    ev.actor.name
    ++ (bar
        ++ (ev.actor.path
            ++ (bar
                ++ (decimal (action_number ev.action)
                    ++ (bar ++ (ev.target.path ++ (bar ++ ev.command)))))))

-- Entries more than ten windows old go.
unfoldable pub collect_old : ℕ → ℕ → List (Text × ℕ) → List (Text × ℕ)
collect_old window now [] = []
collect_old window now ((k, t) ∷ l) =
    let rest = collect_old window now l in if ltb (t + window * 10) now then rest else (k, t) ∷ rest

abbrev pub is_repeat : ℕ → ℕ → Option ℕ → Bool
is_repeat window now none = false
is_repeat window now (some t) = ltb now (t + window)

-- `Deduper::process`: whether the event goes on, and the new state.
unfoldable pub dedup : ℕ → Deduper → AuditEvent → Bool × Deduper
unfolding repeat_key collect_old find_key insert_key
dedup now d ev = if is_repeat d.window now (find_key d.seen (repeat_key ev)) then (false, d) else (
  true,
  record d { seen = collect_old d.window now (insert_key d.seen (repeat_key ev) now) },
)

-- `RegexFilter::Field`.
pub data Field : Type 0 where
  actor_name actor_path actor_user target_path command message any_field : Field

-- The members of `RegexFilter`; no pattern is one that does not compile.
pub record RegexFilter : Type 0 where
  pub field : Field
  pub pattern : Option Text
  pub allow : Bool

-- The texts that are searched.
unfoldable pub fields_of : AuditEvent → Field → List Text
fields_of ev actor_name = ev.actor.name ∷ []
fields_of ev actor_path = ev.actor.path ∷ []
fields_of ev actor_user = ev.actor.user ∷ []
fields_of ev target_path = ev.target.path ∷ []
fields_of ev command = ev.command ∷ []
fields_of ev message = ev.message ∷ []
fields_of ev any_field =
    ev.actor.name ∷ ev.actor.path ∷ ev.actor.user ∷ ev.target.path ∷ ev.command ∷ ev.message ∷ []

abbrev filter_with : (Text → Text → Bool) → RegexFilter → AuditEvent → Option Text → Bool
filter_with found f ev none = true
filter_with found f ev (some p) =
    if any (λ s. found p s) (fields_of ev f.field) then f.allow else not f.allow

-- `RegexFilter::process`.
unfoldable pub regex_filter : (Text → Text → Bool) → RegexFilter → AuditEvent → Bool
unfolding fields_of any
regex_filter found f ev = filter_with found f ev f.pattern
