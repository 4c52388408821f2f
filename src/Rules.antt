-- ===== src/Rules.antt =====
-- The client's rule engine (shared/src/detector/rule_engine.cpp, include/auditforwarder/detector.h):
-- its rules and its state. Where `std::regex_search` finds a pattern is a parameter, and so is the
-- arithmetic on doubles.
pub mod Behavior
pub mod Match
pub mod Inspect
pub mod Load
pub mod Window
pub mod Kept
pub mod Verdict
pub mod Escaped
pub mod Loaded
pub mod Renamed
use audit_forwarder.Prelude.{ℕ, ℤ, Bool, false, List, [], Text}
use audit_forwarder.Event.{Severity}
use audit_forwarder.Audit.{AuditEvent}

-- `struct Rule`; `exact` is its member `match`, in the order of the keys.
pub record DetectorRule : Type 0 where
  pub id : Text
  pub name : Text
  pub description : Text
  pub severity : Severity
  pub enabled : Bool
  pub categories : List Text
  pub actions : List Text
  pub exact : List (Text × Text)
  pub actor_match : List Text
  pub path_match : List Text
  pub cmd_match : List Text
  pub threshold : ℤ
  pub window : ℤ
  pub responses : List Text

-- The actor, the path and the command.
pub record BehaviorKey : Type 0 where
  pub actor : Text
  pub path : Text
  pub cmd : Text

-- What a call makes the rest of the client do.
pub data Effect : Type 0 where
  submit_event : AuditEvent → Effect
  terminate : ℕ → Effect

-- The members of `RuleEngine`. `started` says that there is a dispatcher. The samples of the
-- behaviour tracker stand in the order in which their keys came, which nothing reads.
pub record RuleEngine : Type 0 where
  pub rules : List DetectorRule
  pub running : Bool
  pub started : Bool
  pub hits : List (Text × List ℕ)
  pub samples : List (BehaviorKey × List ℕ)

-- An engine that was not started.
abbrev pub new_engine : RuleEngine
new_engine = record { rules = []; running = false; started = false; hits = []; samples = [] }
