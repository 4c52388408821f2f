-- ===== src/Processor/Actions.antt =====
-- `norm_from_uri` and `ActionNormalizer` (client/src/processor/processor.cpp): every event gets a
-- name `<verb>.<object>` for its action.
use audit_forwarder.Prelude.{
  Bool, true, false, not, ◌&&◌, ◌||◌, Option, none, some, List, [], ◌∷◌, ◌++◌, map, length, drop,
  leb, ◌==◌, rev_onto, is_empty, if◌then◌else◌, Text, codes, text_eq,
}
use audit_forwarder.Text.{lower, to_upper, starts_with}
use audit_forwarder.Maps.{find_key}
use audit_forwarder.Event.{action_to_string}
use audit_forwarder.Audit.{AuditEvent}
use audit_forwarder.Processor.{
  get_attr, set_attr, collector_id, or_empty, action_norm_key, http_uri_key, http_method_key,
  http_body_key, command_line_key,
}
use audit_forwarder.Processor.Commands.{norm_from_command, object_of_path}

-- `find_first_not_of("0123456789") == npos`.
unfoldable pub all_digits : Text → Bool
all_digits [] = true
all_digits (c ∷ s) = (leb b'0' c && leb c b'9') && all_digits s

-- `v` and a number, on a folded segment.
unfoldable pub is_version : Text → Bool
unfolding all_digits
is_version [] = false
is_version (c ∷ s) = (c == b'v') && (not (is_empty s) && all_digits s)

-- The local `flush`: a segment, folded, unless it is empty or says nothing.
unfoldable pub segment : Text → List Text
unfolding is_version all_digits lower
segment cur =
    let low = lower cur in
    if is_empty cur
      || (text_eq low (codes "api")
          || (text_eq low (codes "rest")
              || (text_eq low (codes "v1") || (is_version low || all_digits low))))
    then []
    else low ∷ []

-- The loop over the path; the first argument is `cur`.
unfoldable pub segments_from : Text → Text → List Text
unfolding segment
segments_from cur [] = segment cur
segments_from cur (c ∷ uri) =
    let cut = segments_from [] uri in
    let on = segments_from (cur ++ c ∷ []) uri in
    if (c == b'/') || ((c == b'?') || ((c == b'&') || (c == b'='))) then segment cur ++ cut else on

unfoldable pub path_segments : Text → List Text
unfolding segments_from
path_segments uri = segments_from [] uri

abbrev pub verbs : List Text
verbs =
    codes "unmount"
    ∷ codes "detach"
    ∷ codes "mount"
    ∷ codes "attach"
    ∷ codes "restart"
    ∷ codes "stop"
    ∷ codes "start"
    ∷ codes "clear"
    ∷ codes "purge"
    ∷ codes "clean"
    ∷ codes "restore"
    ∷ codes "recover"
    ∷ codes "export"
    ∷ codes "download"
    ∷ codes "dump"
    ∷ codes "grant"
    ∷ codes "privilege"
    ∷ codes "assign"
    ∷ codes "distribute"
    ∷ codes "generate"
    ∷ codes "exec"
    ∷ codes "execute"
    ∷ codes "rotate"
    ∷ codes "revoke"
    ∷ codes "login"
    ∷ codes "logout"
    ∷ []

abbrev pub verb_prefixes : List Text
verb_prefixes =
    codes "delet"
    ∷ codes "remov"
    ∷ codes "unmount"
    ∷ codes "detach"
    ∷ codes "restart"
    ∷ codes "clear"
    ∷ codes "pur"
    ∷ codes "clean"
    ∷ codes "restor"
    ∷ codes "export"
    ∷ codes "download"
    ∷ codes "dump"
    ∷ codes "grant"
    ∷ codes "privileg"
    ∷ codes "assign"
    ∷ codes "distribut"
    ∷ codes "generat"
    ∷ codes "execut"
    ∷ codes "rotat"
    ∷ codes "revok"
    ∷ []

-- The first element that passes a test.
unfoldable pub first_such : (Text → Bool) → List Text → Option Text
first_such p [] = none
first_such p (x ∷ xs) = let rest = first_such p xs in if p x then some x else rest

unfoldable pub verb_of_token : Text → Option Text
unfolding first_such starts_with
verb_of_token tok = elim (first_such (λ v. text_eq tok v) verbs) [
  | some v ↦ some v
  | none ↦ first_such (λ p. starts_with p tok) verb_prefixes
]

abbrev pub aliases : List (Text × Text)
aliases =
    (codes "books", codes "book")
    ∷ (codes "book", codes "book")
    ∷ (codes "backups", codes "backup")
    ∷ (codes "backup", codes "backup")
    ∷ (codes "bak", codes "backup")
    ∷ (codes "snapshots", codes "snapshot")
    ∷ (codes "snapshot", codes "snapshot")
    ∷ (codes "volumes", codes "volume")
    ∷ (codes "volume", codes "volume")
    ∷ (codes "storage", codes "volume")
    ∷ (codes "logs", codes "logs")
    ∷ (codes "log", codes "logs")
    ∷ (codes "configs", codes "config")
    ∷ (codes "config", codes "config")
    ∷ (codes "configuration", codes "config")
    ∷ (codes "settings", codes "config")
    ∷ (codes "setting", codes "config")
    ∷ (codes "keys", codes "key")
    ∷ (codes "key", codes "key")
    ∷ (codes "secrets", codes "key")
    ∷ (codes "secret", codes "key")
    ∷ (codes "certs", codes "key")
    ∷ (codes "cert", codes "key")
    ∷ (codes "users", codes "user")
    ∷ (codes "user", codes "user")
    ∷ (codes "audits", codes "audit")
    ∷ (codes "audit", codes "audit")
    ∷ (codes "services", codes "service")
    ∷ (codes "service", codes "service")
    ∷ (codes "systems", codes "system")
    ∷ (codes "system", codes "system")
    ∷ (codes "admins", codes "admin")
    ∷ (codes "admin", codes "admin")
    ∷ (codes "database", codes "db")
    ∷ (codes "databases", codes "db")
    ∷ (codes "db", codes "db")
    ∷ (codes "data", codes "db")
    ∷ (codes "privileges", codes "privilege")
    ∷ (codes "privilege", codes "privilege")
    ∷ (codes "roles", codes "role")
    ∷ (codes "role", codes "role")
    ∷ []

unfoldable pub entity_of_token : Text → Text
unfolding find_key
entity_of_token tok = or_empty (find_key aliases tok)

-- The regular form of a verb.
abbrev pub verb_forms : List (Text × Text)
verb_forms =
    (codes "privilege", codes "grant")
    ∷ (codes "execut", codes "exec")
    ∷ (codes "delet", codes "delete")
    ∷ (codes "remov", codes "delete")
    ∷ (codes "unmount", codes "unmount")
    ∷ (codes "clean", codes "clear")
    ∷ (codes "pur", codes "clear")
    ∷ (codes "restor", codes "restore")
    ∷ (codes "updat", codes "update")
    ∷ (codes "generat", codes "create")
    ∷ (codes "distribut", codes "distribute")
    ∷ []

unfoldable pub verb_form : Text → Text
unfolding find_key
verb_form v = elim (find_key verb_forms v) [ none ↦ v | some w ↦ w ]

-- The last verb of the path, with the segments before it, nearest first, and those behind it.
unfoldable pub last_verb : List Text → List Text → Option (Text × List Text × List Text)
unfolding verb_of_token
last_verb [] behind = none
last_verb (s ∷ before) behind =
    let rest = last_verb before (s ∷ behind) in
    elim (verb_of_token s) [ some v ↦ some (v, before, behind) | none ↦ rest ]

-- The first segment that names an entity; the empty text where none does.
unfoldable pub first_entity : List Text → Text
unfolding entity_of_token
first_entity [] = []
first_entity (s ∷ segs) =
    let rest = first_entity segs in let e = entity_of_token s in if is_empty e then rest else e

-- The last segment that names an entity other than `except`.
unfoldable pub last_entity : Text → List Text → Text → Text
unfolding entity_of_token
last_entity except [] object = object
last_entity except (s ∷ segs) object =
    let e = entity_of_token s in
    last_entity except segs (if is_empty e || text_eq e except then object else e)

unfoldable pub verb_of_method : Text → Text
unfolding to_upper
verb_of_method method =
    let m = map to_upper method in
    if text_eq m (codes "DELETE")
    then codes "delete"
    else if text_eq m (codes "POST")
    then codes "create"
    else if text_eq m (codes "PUT") || text_eq m (codes "PATCH")
    then codes "update"
    else if text_eq m (codes "GET") || text_eq m (codes "HEAD")
    then codes "read"
    else codes "call"

-- Verb and object of the path and the method.
unfoldable pub verb_object : List Text → Text → Text × Text
unfolding last_verb first_entity last_entity verb_of_method verb_form rev_onto
verb_object segs method = elim (last_verb (rev_onto segs []) []) [
  | some (v, before, behind) ↦
      let near = first_entity before in
      (verb_form v, if is_empty near then first_entity behind else near)
  | none ↦ (verb_of_method method, last_entity [] segs [])
]

-- An audit record is named with what it is about.
unfoldable pub qualified : List Text → Text → Text
unfolding last_entity
qualified segs object =
    let qualifier = last_entity (codes "audit") segs [] in
    if text_eq object (codes "audit") && not (is_empty qualifier)
    then qualifier ++ codes "_audit"
    else object

-- What stands behind the first place where the text occurs.
unfoldable pub after_first : Text → Text → Option Text
unfolding starts_with
after_first p [] = none
after_first p (c ∷ s) =
    let rest = after_first p s in
    if starts_with p (c ∷ s) then some (drop (length p) (c ∷ s)) else rest

-- What stands before the first quotation mark.
unfoldable pub before_quote : Text → Option Text
before_quote [] = none
before_quote (c ∷ s) =
    let rest = before_quote s in
    if c == b'"' then some [] else elim rest [ none ↦ none | some t ↦ some (c ∷ t) ]

unfoldable pub or_none : Option Text → (Text → Option Text) → Option Text
or_none none f = none
or_none (some s) f = f s

-- The value of `"action"` in a request body; the empty text where there is none.
unfoldable pub body_action : Text → Text
unfolding after_first before_quote or_none lower
body_action body = lower (
    or_empty (
      or_none (after_first (b'"' ∷ codes "action" ++ b'"' ∷ []) body)
        (λ s. or_none (after_first (b'"' ∷ []) (drop 1 s)) before_quote)))

unfoldable pub norm_from_uri : Text → Text → Text → Text
unfolding path_segments verb_object qualified body_action
norm_from_uri uri method body =
    let segs = path_segments uri in
    let found = verb_object segs method in
    let object = qualified segs found.1 in
    let asked = if text_eq found.0 (codes "exec") then body_action body else [] in
    let named = if is_empty asked then object else asked in
    found.0 ++ (codes "." ++ (if is_empty named then codes "unknown" else named))

-- The action of a file event by its path.
unfoldable pub norm_from_path : AuditEvent → Text
unfolding object_of_path
norm_from_path ev =
    let object = object_of_path ev.target.path in
    if is_empty ev.target.path || is_empty object
    then []
    else action_to_string ev.action ++ (codes "." ++ object)

unfoldable pub is_http : AuditEvent → Bool
unfolding collector_id get_attr
is_http ev =
    text_eq (collector_id ev) (codes "http_proxy") || not (is_empty (get_attr ev http_uri_key))

unfoldable pub norm_of : AuditEvent → Text
unfolding is_http norm_from_uri norm_from_command norm_from_path get_attr
norm_of ev =
    let uri = get_attr ev http_uri_key in
    let line = get_attr ev command_line_key in
    let shown = if is_empty ev.command then ev.message else ev.command in
    let by_command = norm_from_command (if is_empty line then shown else line) ev.actor.name in
    if is_http ev
    then norm_from_uri (if is_empty uri then ev.target.path else uri) (get_attr ev http_method_key)
        (get_attr ev http_body_key)
    else if is_empty by_command
    then norm_from_path ev
    else by_command

-- `ActionNormalizer::process`.
unfoldable pub normalize_action : AuditEvent → AuditEvent
unfolding get_attr set_attr norm_of
normalize_action ev =
    let norm = norm_of ev in
    if not (is_empty (get_attr ev action_norm_key))
    then ev
    else set_attr ev action_norm_key
        (if is_empty norm then action_to_string ev.action ++ codes ".unknown" else norm)
