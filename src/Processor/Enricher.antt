-- ===== src/Processor/Enricher.antt =====
-- `Enricher` (client/src/processor/processor.cpp): what the agent knows is added to an event.
use audit_forwarder.Prelude.{
  Bool, true, false, ◌&&◌, not, Option, none, some, is_empty, if◌then◌else◌, Text, codes,
}
use audit_forwarder.Maps.{find_key}
use audit_forwarder.Audit.{AuditEvent}
use audit_forwarder.Processor.{set_attr, operator_id_key}

abbrev operator_name_key : Text
operator_name_key = codes "operator_name"

-- The members of `Enricher`; `login` is the variable USER of the process, where it is set.
pub record Enricher : Type 0 where
  pub host : Text
  pub agent_id : Text
  pub operator_id : Text
  pub operator_name : Text
  pub login : Option Text

abbrev pub is_absent : Option Text → Bool
is_absent none = true
is_absent (some v) = false

-- A value that is known is written where the attribute is not there.
unfoldable pub set_attr_if_absent : AuditEvent → Text → Text → AuditEvent
unfolding find_key set_attr
set_attr_if_absent ev key value =
    if not (is_empty value) && is_absent (find_key ev.attrs key) then set_attr ev key value else ev

unfoldable pub fill_user : Option Text → AuditEvent → AuditEvent
fill_user none ev = ev
fill_user (some login) ev =
    if is_empty ev.actor.user then record ev { actor = record (ev.actor) { user = login } } else ev

-- `ev.host` and `ev.agent_id`.
unfoldable pub fill_agent : Enricher → AuditEvent → AuditEvent
fill_agent r ev =
    let host : Text = if is_empty ev.host then r.host else ev.host in
    let agent_id : Text = if is_empty ev.agent_id then r.agent_id else ev.agent_id in
    record ev { host = host; agent_id = agent_id }

-- `Enricher::process` off Windows.
unfoldable pub enrich : Enricher → AuditEvent → AuditEvent
unfolding set_attr_if_absent fill_user fill_agent
enrich r ev =
    let named : AuditEvent = fill_user r.login (fill_agent r ev) in
    set_attr_if_absent (set_attr_if_absent named operator_id_key r.operator_id) operator_name_key
      r.operator_name
