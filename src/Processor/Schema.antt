-- ===== src/Processor/Schema.antt =====
-- `SchemaMapper::process` (client/src/processor/processor.cpp): fields of a common event model.
use audit_forwarder.Prelude.{
  ℕ, ◌/◌, ◌%◌, ◌&&◌, not, List, [], ◌∷◌, ◌++◌, ltb, ◌==◌, is_empty, if◌then◌else◌, Text, codes,
}
use audit_forwarder.Text.{contains}
use audit_forwarder.Decimal.{decimal}
use audit_forwarder.Hex.{hex_char}
use audit_forwarder.Event.{Severity, action_to_string, outcome_to_string}
use audit_forwarder.Audit.{AuditEvent}
use audit_forwarder.Processor.{
  get_attr, set_attr_if_empty, operator_id_key, collector_key, source_key, http_host_key,
  http_uri_key,
}

unfoldable pub ocsf_severity_id : Severity → ℕ
ocsf_severity_id Severity.debug = 1
ocsf_severity_id Severity.info = 1
ocsf_severity_id Severity.notice = 2
ocsf_severity_id Severity.warning = 3
ocsf_severity_id Severity.error = 4
ocsf_severity_id Severity.critical = 5
ocsf_severity_id Severity.alert = 5
ocsf_severity_id Severity.emergency = 6

-- `\` and a letter.
abbrev escaped : ℕ → Text
escaped c = b'\\' ∷ c ∷ []

-- One byte of `schema_json_escape`; 8 and 12 are backspace and form feed.
unfoldable pub escape_byte : ℕ → Text
unfolding hex_char
escape_byte c =
    if c == b'"'
    then escaped b'"'
    else if c == b'\\'
    then escaped b'\\'
    else if c == 8
    then escaped b'b'
    else if c == 12
    then escaped b'f'
    else if c == b'\n'
    then escaped b'n'
    else if c == b'\r'
    then escaped b'r'
    else if c == b'\t'
    then escaped b't'
    else if ltb c 32
    then escaped b'u' ++ (codes "00" ++ (hex_char (c / 16 % 16) ∷ hex_char (c % 16) ∷ []))
    else c ∷ []

unfoldable pub schema_json_escape : Text → Text
unfolding escape_byte
schema_json_escape [] = []
schema_json_escape (c ∷ s) = escape_byte c ++ schema_json_escape s

unfoldable pub resolve_target_system : AuditEvent → Text
unfolding get_attr contains
resolve_target_system ev =
    let host = get_attr ev http_host_key in
    let sys = if is_empty host then ev.target.address else host in
    if is_empty sys
    then codes "local"
    else if not (ev.target.port == 0) && not (contains sys (codes ":"))
    then sys ++ (codes ":" ++ decimal ev.target.port)
    else sys

unfoldable pub resolve_object : AuditEvent → Text
unfolding get_attr
resolve_object ev =
    let uri = get_attr ev http_uri_key in
    if not (is_empty ev.target.path)
    then ev.target.path
    else if not (is_empty uri)
    then uri
    else if is_empty ev.target.address
    then []
    else if ev.target.port == 0
    then ev.target.address
    else ev.target.address ++ (codes ":" ++ decimal ev.target.port)

-- The local `add_str`.
unfoldable pub add_str : Text → Text → Text
unfolding schema_json_escape
add_str key value =
    if is_empty value
    then []
    else codes ","
      ++ (b'"' ∷ (key ++ (b'"' ∷ b':' ∷ b'"' ∷ (schema_json_escape value ++ (b'"' ∷ [])))))

-- A key in quotation marks and a colon.
abbrev quoted : Text → Text
quoted key = b'"' ∷ (key ++ (b'"' ∷ b':' ∷ []))

-- The output stream: the pieces one after another.
abbrev written : List Text → Text
written [] = []
written (t ∷ ts) = t ++ written ts

unfoldable pub metadata : AuditEvent → Text
unfolding add_str get_attr
metadata ev = written (
    (b'{' ∷ quoted (codes "version"))
    ∷ (b'"' ∷ (codes "1.1.0" ++ (b'"' ∷ b',' ∷ [])))
    ∷ quoted (codes "product")
    ∷ (b'"' ∷ (codes "AuditForwarder" ++ (b'"' ∷ [])))
    ∷ add_str (codes "collector") (get_attr ev collector_key)
    ∷ add_str (codes "source") (get_attr ev source_key)
    ∷ add_str (codes "host") ev.host
    ∷ add_str (codes "agent_id") ev.agent_id
    ∷ add_str (codes "operator_id") (get_attr ev operator_id_key)
    ∷ (b',' ∷ quoted (codes "logged_time_us"))
    ∷ decimal ev.ts_micros
    ∷ (b',' ∷ quoted (codes "schema_ver"))
    ∷ decimal ev.schema_ver
    ∷ codes "}"
    ∷ [])

-- The operator, else the user, else the process.
unfoldable pub schema_actor : AuditEvent → Text
unfolding get_attr
schema_actor ev =
    let op = get_attr ev operator_id_key in
    if not (is_empty op)
    then op
    else if is_empty ev.actor.user
    then ev.actor.name
    else ev.actor.user

-- The seven assignments, in their order; each value is read from the event as it then is.
unfoldable pub schema_fields : List (Text × (AuditEvent → Text))
unfolding schema_actor resolve_object resolve_target_system ocsf_severity_id metadata
schema_fields =
    (codes "ocsf.actor", schema_actor)
    ∷ (codes "ocsf.activity_name", λ ev. action_to_string ev.action)
    ∷ (codes "ocsf.object", resolve_object)
    ∷ (codes "ocsf.target_system", resolve_target_system)
    ∷ (codes "ocsf.outcome", λ ev. outcome_to_string ev.outcome)
    ∷ (codes "ocsf.severity_id", λ ev. decimal (ocsf_severity_id ev.severity))
    ∷ (codes "ocsf.metadata", metadata)
    ∷ []

unfoldable pub fill_fields : List (Text × (AuditEvent → Text)) → AuditEvent → AuditEvent
unfolding set_attr_if_empty
fill_fields [] ev = ev
fill_fields ((key, value) ∷ fields) ev = fill_fields fields (set_attr_if_empty ev key (value ev))

unfoldable pub map_schema : AuditEvent → AuditEvent
unfolding fill_fields schema_fields
map_schema ev = fill_fields schema_fields ev
