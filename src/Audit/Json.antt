-- ===== src/Audit/Json.antt =====
-- `AuditEvent::to_json` with its helpers (shared/src/common/event.cpp).
use audit_forwarder.Prelude.{
  ℕ, ◌/◌, ◌%◌, List, [], ◌∷◌, ◌++◌, ltb, ◌==◌, get_or, is_empty, if◌then◌else◌, Text, codes,
}
use audit_forwarder.Decimal.{decimal}
use audit_forwarder.Hex.{hex_char}
use audit_forwarder.Event.{
  category_to_string, action_to_string, outcome_to_string, severity_to_string,
}
use audit_forwarder.Audit.{Actor, Target, AuditEvent}

-- `\` and a letter.
abbrev pub with_backslash : ℕ → Text
with_backslash c = b'\\' ∷ c ∷ []

-- `snprintf(buf, sizeof(buf), "\\u%04x", c)`.
unfoldable pub unicode_escape : ℕ → Text
unfolding hex_char
unicode_escape c =
    b'\\'
    ∷ b'u'
    ∷ hex_char (c / 4096 % 16)
    ∷ hex_char (c / 256 % 16)
    ∷ hex_char (c / 16 % 16)
    ∷ hex_char (c % 16)
    ∷ []

-- The `switch`; 8 and 12 are `\b` and `\f`.
unfoldable pub json_escape_byte : ℕ → Text
unfolding unicode_escape
json_escape_byte c =
    if c == b'"'
    then with_backslash b'"'
    else if c == b'\\'
    then with_backslash b'\\'
    else if c == 8
    then with_backslash b'b'
    else if c == 12
    then with_backslash b'f'
    else if c == b'\n'
    then with_backslash b'n'
    else if c == b'\r'
    then with_backslash b'r'
    else if c == b'\t'
    then with_backslash b't'
    else if ltb c 32
    then unicode_escape c
    else c ∷ []

unfoldable pub json_escape : Text → Text
unfolding json_escape_byte
json_escape [] = []
json_escape (c ∷ s) = json_escape_byte c ++ json_escape s

-- A key in quotation marks and a colon.
abbrev key_of : Text → Text
key_of k = b'"' ∷ (k ++ (b'"' ∷ b':' ∷ []))

-- `write_kv` with `first` false, and the local `w` behind its first field.
unfoldable pub write_kv : Text → Text → Text
unfolding json_escape
write_kv k v = b',' ∷ (key_of k ++ (b'"' ∷ (json_escape v ++ (b'"' ∷ []))))

-- The output stream.
abbrev stream : List Text → Text
stream [] = []
stream (t ∷ ts) = t ++ stream ts

unfoldable pub actor_json : Actor → Text
unfolding write_kv
actor_json a = stream (
    key_of (codes "pid")
    ∷ decimal a.pid
    ∷ (b',' ∷ key_of (codes "tid"))
    ∷ decimal a.tid
    ∷ write_kv (codes "name") a.name
    ∷ write_kv (codes "path") a.path
    ∷ write_kv (codes "user") a.user
    ∷ write_kv (codes "sid") a.sid
    ∷ write_kv (codes "session") a.session
    ∷ write_kv (codes "remote") a.remote
    ∷ [])

unfoldable pub target_json : Target → Text
unfolding write_kv
target_json t = stream (
    key_of (codes "port")
    ∷ decimal t.port
    ∷ write_kv (codes "kind") t.kind
    ∷ write_kv (codes "path") t.path
    ∷ write_kv (codes "address") t.address
    ∷ write_kv (codes "protocol") t.protocol
    ∷ [])

-- One attribute, with both parts escaped.
unfoldable pub attr_json : Text → Text → Text
unfolding json_escape
attr_json k v = key_of (json_escape k) ++ (b'"' ∷ (json_escape v ++ (b'"' ∷ [])))

unfoldable pub attrs_json : List (Text × Text) → Text
unfolding attr_json
attrs_json [] = []
attrs_json ((k, v) ∷ []) = attr_json k v
attrs_json ((k, v) ∷ (k', v') ∷ rest) = attr_json k v ++ (b',' ∷ attrs_json ((k', v') ∷ rest))

-- The raw bytes in upper case digits.
unfoldable pub upper_hex : Text → Text
upper_hex [] = []
upper_hex (b ∷ bs) =
    get_or (codes "0123456789ABCDEF") (b / 16 % 16) 0
    ∷ get_or (codes "0123456789ABCDEF") (b % 16) 0
    ∷ upper_hex bs

unfoldable pub raw_json : Text → Text
unfolding upper_hex
raw_json raw =
    if is_empty raw
    then []
    else b',' ∷ (key_of (codes "raw_b64") ++ (b'"' ∷ (upper_hex raw ++ (b'"' ∷ []))))

unfoldable pub to_json : AuditEvent → Text
unfolding write_kv actor_json target_json attrs_json raw_json
to_json ev = stream (
    codes "{"
    ∷ key_of (codes "id")
    ∷ decimal ev.id
    ∷ (b',' ∷ key_of (codes "seq"))
    ∷ decimal ev.seq
    ∷ (b',' ∷ key_of (codes "ts_micros"))
    ∷ decimal ev.ts_micros
    ∷ (b',' ∷ key_of (codes "schema_ver"))
    ∷ decimal ev.schema_ver
    ∷ write_kv (codes "category") (category_to_string ev.category)
    ∷ write_kv (codes "action") (action_to_string ev.action)
    ∷ write_kv (codes "outcome") (outcome_to_string ev.outcome)
    ∷ write_kv (codes "severity") (severity_to_string ev.severity)
    ∷ write_kv (codes "host") ev.host
    ∷ write_kv (codes "agent_id") ev.agent_id
    ∷ write_kv (codes "rule_id") ev.rule_id
    ∷ write_kv (codes "command") ev.command
    ∷ write_kv (codes "message") ev.message
    ∷ write_kv (codes "hash") ev.hash
    ∷ write_kv (codes "prev_hash") ev.prev_hash
    ∷ write_kv (codes "signature") ev.signature
    ∷ write_kv (codes "batch_id") ev.batch_id
    ∷ (b',' ∷ key_of (codes "actor"))
    ∷ codes "{"
    ∷ actor_json ev.actor
    ∷ codes "},"
    ∷ key_of (codes "target")
    ∷ codes "{"
    ∷ target_json ev.target
    ∷ codes "},"
    ∷ key_of (codes "attrs")
    ∷ codes "{"
    ∷ attrs_json ev.attrs
    ∷ codes "}"
    ∷ raw_json ev.raw_payload
    ∷ codes "}"
    ∷ [])
