-- ===== src/Processor/Aggregator.antt =====
-- `Aggregator` of the client (client/src/processor/processor.cpp): events of one kind are counted
-- into a summary. Times are clock ticks.
pub mod Bounds
use audit_forwarder.Prelude.{
  ℕ, ◌+◌, Option, none, some, List, [], ◌∷◌, ◌++◌, length, ltb, leb, is_empty, if◌then◌else◌, Text,
  codes,
}
use audit_forwarder.Maps.{find_key, insert_key, erase_key}
use audit_forwarder.Decimal.{decimal}
use audit_forwarder.Event.{EventCategory, EventAction}
use audit_forwarder.Audit.{AuditEvent, bar}
use audit_forwarder.Processor.{set_attr}

-- `static_cast<int>(ev.category)`.
unfoldable pub category_number : EventCategory → ℕ
category_number EventCategory.system = 0
category_number EventCategory.process = 1
category_number EventCategory.file = 2
category_number EventCategory.network = 3
category_number EventCategory.registry = 4
category_number EventCategory.command = 5
category_number EventCategory.gui = 6
category_number EventCategory.auth = 7
category_number EventCategory.privilege = 8
category_number EventCategory.driver = 9
category_number EventCategory.syscall = 10
category_number EventCategory.config = 11
category_number EventCategory.update = 12
category_number EventCategory.other = 255

-- `static_cast<int>(ev.action)`.
unfoldable pub action_number : EventAction → ℕ
action_number EventAction.unknown = 0
action_number EventAction.create = 1
action_number EventAction.read = 2
action_number EventAction.write = 3
action_number EventAction.delete = 4
action_number EventAction.rename = 5
action_number EventAction.chmod = 6
action_number EventAction.execute = 7
action_number EventAction.spawn = 8
action_number EventAction.exit = 9
action_number EventAction.connect = 10
action_number EventAction.disconnect = 11
action_number EventAction.listen = 12
action_number EventAction.send = 13
action_number EventAction.receive = 14
action_number EventAction.login = 20
action_number EventAction.logout = 21
action_number EventAction.auth_fail = 22
action_number EventAction.privilege_esc = 23
action_number EventAction.key_event = 30
action_number EventAction.mouse_event = 31
action_number EventAction.window_focus = 32
action_number EventAction.clipboard = 33
action_number EventAction.screenshot = 34
action_number EventAction.set = 40
action_number EventAction.get = 41
action_number EventAction.load = 50
action_number EventAction.unload = 51
action_number EventAction.alert = 100
action_number EventAction.block = 101
action_number EventAction.quarantine = 102
action_number EventAction.kill = 103
action_number EventAction.annotate = 200
action_number EventAction.system_start = 210
action_number EventAction.system_stop = 211

-- `Aggregator::Bucket`.
pub record Bucket : Type 0 where
  pub events : List AuditEvent
  pub first : ℕ
  pub last : ℕ

-- The members of `Aggregator`: `window_`, `max_`, `buckets_`.
pub record Aggregator : Type 0 where
  pub window : ℕ
  pub max : ℕ
  pub buckets : List (Text × Bucket)

unfoldable pub agg_key : AuditEvent → Text
unfolding category_number action_number
agg_key ev =
    decimal (category_number ev.category)
    ++ (bar
        ++ (decimal (action_number ev.action)
            ++ (bar ++ (ev.actor.name ++ (bar ++ ev.target.path)))))

-- The first event of a bucket with `n` events, with the count in its message and attributes.
unfoldable pub summary : AuditEvent → ℕ → AuditEvent
unfolding set_attr
summary ev n =
    let message : Text = codes "[aggregated " ++ (decimal n ++ (codes " events] " ++ ev.message)) in
    set_attr (record ev { message = message }) (codes "aggregated_count") (decimal n)

-- `events.back()` of a list that begins with the given event.
unfoldable pub back : AuditEvent → List AuditEvent → AuditEvent
back ev [] = ev
back ev (x ∷ xs) = back x xs

unfoldable pub with_command : AuditEvent → Text → AuditEvent
with_command ev command = if is_empty ev.command then record ev { command = command } else ev

-- What takes the event's place where the window of its bucket is over.
unfoldable pub closing : List AuditEvent → AuditEvent → AuditEvent
unfolding summary back with_command
closing [] ev = ev
closing (x ∷ xs) ev = with_command (summary x (length (x ∷ xs))) (back x xs).command

-- `buckets_[k] = { {ev}, now, now }`.
unfoldable pub open_bucket : ℕ → Aggregator → Text → AuditEvent → AuditEvent × Aggregator
unfolding insert_key
open_bucket now a k ev =
    let b : Bucket = record { events = ev ∷ []; first = now; last = now } in
    (ev, record a { buckets = insert_key a.buckets k b })

-- The summary of a bucket that is full, made of its first event.
unfoldable pub full_summary : List AuditEvent → AuditEvent → AuditEvent
unfolding summary
full_summary [] ev = ev
full_summary (x ∷ xs) ev = summary x (length (x ∷ xs))

-- The event is put into its bucket, which is closed where it is full.
unfoldable pub extend : ℕ → Aggregator → Text → Bucket → AuditEvent → AuditEvent × Aggregator
unfolding insert_key erase_key full_summary
extend now a k b ev =
    let events : List AuditEvent = b.events ++ (ev ∷ []) in
    if leb a.max (length events)
    then (full_summary events ev, record a { buckets = erase_key a.buckets k })
    else (
      ev,
      record a {
        buckets = insert_key a.buckets k (record { events = events; first = b.first; last = now });
      },
    )

unfoldable pub aggregate_in :
    ℕ → Aggregator → Text → AuditEvent → Option Bucket → AuditEvent × Aggregator
unfolding open_bucket closing extend
aggregate_in now a k ev none = open_bucket now a k ev
aggregate_in now a k ev (some b) =
    if ltb (b.first + a.window) now
    then open_bucket now a k (closing b.events ev)
    else extend now a k b ev

-- `Aggregator::process`: the event that goes on, and the new state.
unfoldable pub aggregate : ℕ → Aggregator → AuditEvent → AuditEvent × Aggregator
unfolding agg_key find_key aggregate_in
aggregate now a ev = aggregate_in now a (agg_key ev) ev (find_key a.buckets (agg_key ev))

-- One round of `flush`: an empty bucket is passed over.
unfoldable pub emit_summary : List AuditEvent → List AuditEvent → List AuditEvent
unfolding summary
emit_summary [] rest = rest
emit_summary (x ∷ xs) rest = summary x (length (x ∷ xs)) ∷ rest

unfoldable pub flush_buckets : List (Text × Bucket) → List AuditEvent
unfolding emit_summary
flush_buckets [] = []
flush_buckets ((k, b) ∷ l) = let rest = flush_buckets l in emit_summary b.events rest

-- `Aggregator::flush`: the events that are emitted, and the new state.
unfoldable pub flush_aggregator : Aggregator → List AuditEvent × Aggregator
unfolding flush_buckets
flush_aggregator a = (flush_buckets a.buckets, record a { buckets = [] })
