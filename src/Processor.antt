-- ===== src/Processor.antt =====
-- What the processors of the client share: attributes and their keys
-- (client/src/processor/processor.cpp, include/auditforwarder/log_meta.h). A processor that always
-- lets the event through is a function on events.
pub mod Actions
pub mod Aggregator
pub mod Commands
pub mod Normalizer
pub mod Complete
pub mod Deduper
pub mod Enricher
pub mod Schema
pub mod Kept
use audit_forwarder.Prelude.{
  ℕ, ◌+◌, Bool, true, false, ◌&&◌, ◌||◌, Option, none, some, List, [], ◌∷◌, any, length, leb,
  is_empty, if◌then◌else◌, Text, codes,
}
use audit_forwarder.Text.{lower, contains}
use audit_forwarder.Maps.{find_key, insert_key}
use audit_forwarder.Audit.{AuditEvent}

abbrev pub source_key : Text
source_key = codes "source"

abbrev pub collector_key : Text
collector_key = codes "collector"

abbrev pub operator_id_key : Text
operator_id_key = codes "operator_id"

abbrev pub command_line_key : Text
command_line_key = codes "process.command_line"

abbrev pub http_method_key : Text
http_method_key = codes "http.method"

abbrev pub http_host_key : Text
http_host_key = codes "http.host"

abbrev pub http_uri_key : Text
http_uri_key = codes "http.uri"

abbrev pub http_body_key : Text
http_body_key = codes "http.request_body"

abbrev pub action_norm_key : Text
action_norm_key = codes "ozsf.action_norm"

abbrev pub or_empty : Option Text → Text
or_empty none = []
or_empty (some v) = v

-- `get_attr`: the empty text where there is none.
unfoldable pub get_attr : AuditEvent → Text → Text
unfolding find_key
get_attr ev key = or_empty (find_key ev.attrs key)

-- `ev.attrs[key] = value`.
unfoldable pub set_attr : AuditEvent → Text → Text → AuditEvent
unfolding insert_key
set_attr ev key value = record ev { attrs = insert_key ev.attrs key value }

unfoldable pub set_attr_if_empty : AuditEvent → Text → Text → AuditEvent
unfolding get_attr set_attr
set_attr_if_empty ev key value =
    if is_empty value then ev else if is_empty (get_attr ev key) then set_attr ev key value else ev

-- `collector_id`.
unfoldable pub collector_id : AuditEvent → Text
unfolding get_attr
collector_id ev =
    if is_empty (get_attr ev collector_key) then codes "unknown" else get_attr ev collector_key

-- `ci_contains`.
unfoldable pub ci_contains : Text → Text → Bool
unfolding contains lower
ci_contains hay needle =
    if is_empty needle || leb (length hay + 1) (length needle)
    then false
    else contains (lower hay) (lower needle)

-- `norm_contains_any`.
unfoldable pub norm_contains_any : Text → List Text → Bool
unfolding contains lower any
norm_contains_any text kws = any (λ kw. contains (lower text) kw) kws
