-- ===== src/Audit.antt =====
-- The audit event and the batch: `AuditEvent`, `EventBatch` (include/auditforwarder/event.h) and
-- `AuditEvent::compute_hash` (shared/src/common/event.cpp). `attrs` is the sorted association list
-- that a `std::map` iterates over; times are microseconds since the epoch.
pub mod Json
pub mod Escapes
use audit_forwarder.Prelude.{ℕ, List, [], ◌∷◌, ◌++◌, Text, codes}
use audit_forwarder.Decimal.{decimal}
use audit_forwarder.Event.{
  EventCategory, EventAction, EventOutcome, Severity, category_to_string, action_to_string,
  outcome_to_string,
}

pub record Actor : Type 0 where
  pub pid : ℕ
  pub tid : ℕ
  pub name : Text
  pub path : Text
  pub user : Text
  pub sid : Text
  pub session : Text
  pub remote : Text

pub record Target : Type 0 where
  pub kind : Text
  pub path : Text
  pub address : Text
  pub port : ℕ
  pub protocol : Text

pub record AuditEvent : Type 0 where
  pub id : ℕ
  pub seq : ℕ
  pub timestamp : ℕ
  pub ts_micros : ℕ
  pub category : EventCategory
  pub action : EventAction
  pub outcome : EventOutcome
  pub severity : Severity
  pub host : Text
  pub agent_id : Text
  pub rule_id : Text
  pub actor : Actor
  pub target : Target
  pub command : Text
  pub message : Text
  pub attrs : List (Text × Text)
  pub raw_payload : Text
  pub hash : Text
  pub prev_hash : Text
  pub signature : Text
  pub batch_id : Text
  pub schema_ver : ℕ

pub record EventBatch : Type 0 where
  pub id : Text
  pub created_at : ℕ
  pub events : List AuditEvent
  pub merkle_root : Text
  pub signature : Text

abbrev pub bar : Text
bar = b'|' ∷ []

-- `for (const auto& [k, v] : attrs) o << k << '=' << v << ';'`.
unfoldable pub attrs_text : List (Text × Text) → Text
attrs_text [] = []
attrs_text ((k, v) ∷ rest) = k ++ (codes "=" ++ (v ++ (codes ";" ++ attrs_text rest)))

-- The text that `compute_hash` leaves in the field `hash`.
unfoldable pub canonical : AuditEvent → Text
unfolding attrs_text
canonical ev =
    decimal ev.seq
    ++ (bar
        ++ (decimal ev.ts_micros
            ++ (bar
                ++ (category_to_string ev.category
                    ++ (bar
                        ++ (action_to_string ev.action
                            ++ (bar
                                ++ (outcome_to_string ev.outcome
                                    ++ (bar
                                        ++ (decimal ev.actor.pid
                                            ++ (bar
                                                ++ (ev.actor.user
                                                    ++ (bar
                                                        ++ (ev.actor.name
                                                            ++ (bar
                                                            ++ (ev.target.path
                                                            ++ (bar
                                                            ++ (ev.target.address
                                                            ++ (bar
                                                            ++ (decimal ev.target.port
                                                            ++ (bar
                                                            ++ (ev.command
                                                            ++ (bar
                                                            ++ (ev.message
                                                            ++ (bar
                                                            ++ attrs_text
                                                            ev.attrs)))))))))))))))))))))))))

unfoldable pub compute_hash : AuditEvent → AuditEvent
compute_hash ev = record ev { hash = canonical ev }
