-- ===== src/Event.antt =====
-- The names of event categories, actions, outcomes and severities: shared/src/common/types.cpp and
-- shared/src/common/event.cpp, with the enumerations of include/auditforwarder/event.h and types.h.
pub mod RoundTrip
use audit_forwarder.Prelude.{Text, codes, text_eq, if◌then◌else◌, ℕ}

-- `enum class EventCategory`.
pub data EventCategory : Type 0 where
  system process file network registry command gui auth privilege driver syscall config update
        other :
      EventCategory

-- `enum class EventAction`.
pub data EventAction : Type 0 where
  unknown create read write delete rename chmod execute spawn exit connect disconnect listen send
        receive login logout auth_fail privilege_esc key_event mouse_event window_focus clipboard
        screenshot set get load unload alert block quarantine kill annotate system_start
        system_stop :
      EventAction

-- `enum class EventOutcome`.
pub data EventOutcome : Type 0 where
  unknown success failure denied : EventOutcome

-- `enum class Severity`, in the order of its numbers.
pub data Severity : Type 0 where
  debug info notice warning error critical alert emergency : Severity

-- `static_cast<u8>(severity)`.
unfoldable pub severity_rank : Severity → ℕ
severity_rank Severity.debug = 0
severity_rank Severity.info = 1
severity_rank Severity.notice = 2
severity_rank Severity.warning = 3
severity_rank Severity.error = 4
severity_rank Severity.critical = 5
severity_rank Severity.alert = 6
severity_rank Severity.emergency = 7

-- `to_string(EventCategory)`.
unfoldable pub category_to_string : EventCategory → Text
category_to_string EventCategory.system = codes "system"
category_to_string EventCategory.process = codes "process"
category_to_string EventCategory.file = codes "file"
category_to_string EventCategory.network = codes "network"
category_to_string EventCategory.registry = codes "registry"
category_to_string EventCategory.command = codes "command"
category_to_string EventCategory.gui = codes "gui"
category_to_string EventCategory.auth = codes "auth"
category_to_string EventCategory.privilege = codes "privilege"
category_to_string EventCategory.driver = codes "driver"
category_to_string EventCategory.syscall = codes "syscall"
category_to_string EventCategory.config = codes "config"
category_to_string EventCategory.update = codes "update"
category_to_string EventCategory.other = codes "other"

-- `to_string(EventAction)`.
unfoldable pub action_to_string : EventAction → Text
action_to_string EventAction.unknown = codes "unknown"
action_to_string EventAction.create = codes "create"
action_to_string EventAction.read = codes "read"
action_to_string EventAction.write = codes "write"
action_to_string EventAction.delete = codes "delete"
action_to_string EventAction.rename = codes "rename"
action_to_string EventAction.chmod = codes "chmod"
action_to_string EventAction.execute = codes "execute"
action_to_string EventAction.spawn = codes "spawn"
action_to_string EventAction.exit = codes "exit"
action_to_string EventAction.connect = codes "connect"
action_to_string EventAction.disconnect = codes "disconnect"
action_to_string EventAction.listen = codes "listen"
action_to_string EventAction.send = codes "send"
action_to_string EventAction.receive = codes "receive"
action_to_string EventAction.login = codes "login"
action_to_string EventAction.logout = codes "logout"
action_to_string EventAction.auth_fail = codes "auth_fail"
action_to_string EventAction.privilege_esc = codes "privilege_escalation"
action_to_string EventAction.key_event = codes "key_event"
action_to_string EventAction.mouse_event = codes "mouse_event"
action_to_string EventAction.window_focus = codes "window_focus"
action_to_string EventAction.clipboard = codes "clipboard"
action_to_string EventAction.screenshot = codes "screenshot"
action_to_string EventAction.set = codes "set"
action_to_string EventAction.get = codes "get"
action_to_string EventAction.load = codes "load"
action_to_string EventAction.unload = codes "unload"
action_to_string EventAction.alert = codes "alert"
action_to_string EventAction.block = codes "block"
action_to_string EventAction.quarantine = codes "quarantine"
action_to_string EventAction.kill = codes "kill"
action_to_string EventAction.annotate = codes "annotate"
action_to_string EventAction.system_start = codes "system_start"
action_to_string EventAction.system_stop = codes "system_stop"

-- `to_string(EventOutcome)`.
unfoldable pub outcome_to_string : EventOutcome → Text
outcome_to_string EventOutcome.unknown = codes "unknown"
outcome_to_string EventOutcome.success = codes "success"
outcome_to_string EventOutcome.failure = codes "failure"
outcome_to_string EventOutcome.denied = codes "denied"

-- `to_string(Severity)`.
unfoldable pub severity_to_string : Severity → Text
severity_to_string Severity.debug = codes "debug"
severity_to_string Severity.info = codes "info"
severity_to_string Severity.notice = codes "notice"
severity_to_string Severity.warning = codes "warning"
severity_to_string Severity.error = codes "error"
severity_to_string Severity.critical = codes "critical"
severity_to_string Severity.alert = codes "alert"
severity_to_string Severity.emergency = codes "emergency"

unfoldable pub category_from_string : Text → EventCategory
unfolding text_eq
category_from_string s =
    if text_eq s (codes "system")
    then EventCategory.system
    else if text_eq s (codes "process")
    then EventCategory.process
    else if text_eq s (codes "file")
    then EventCategory.file
    else if text_eq s (codes "network")
    then EventCategory.network
    else if text_eq s (codes "registry")
    then EventCategory.registry
    else if text_eq s (codes "command")
    then EventCategory.command
    else if text_eq s (codes "gui")
    then EventCategory.gui
    else if text_eq s (codes "auth")
    then EventCategory.auth
    else if text_eq s (codes "privilege")
    then EventCategory.privilege
    else if text_eq s (codes "driver")
    then EventCategory.driver
    else if text_eq s (codes "syscall")
    then EventCategory.syscall
    else if text_eq s (codes "config")
    then EventCategory.config
    else if text_eq s (codes "update")
    then EventCategory.update
    else EventCategory.other

unfoldable pub action_from_string : Text → EventAction
unfolding text_eq
action_from_string s =
    if text_eq s (codes "unknown")
    then EventAction.unknown
    else if text_eq s (codes "create")
    then EventAction.create
    else if text_eq s (codes "read")
    then EventAction.read
    else if text_eq s (codes "write")
    then EventAction.write
    else if text_eq s (codes "delete")
    then EventAction.delete
    else if text_eq s (codes "rename")
    then EventAction.rename
    else if text_eq s (codes "chmod")
    then EventAction.chmod
    else if text_eq s (codes "execute")
    then EventAction.execute
    else if text_eq s (codes "spawn")
    then EventAction.spawn
    else if text_eq s (codes "exit")
    then EventAction.exit
    else if text_eq s (codes "connect")
    then EventAction.connect
    else if text_eq s (codes "disconnect")
    then EventAction.disconnect
    else if text_eq s (codes "listen")
    then EventAction.listen
    else if text_eq s (codes "send")
    then EventAction.send
    else if text_eq s (codes "receive")
    then EventAction.receive
    else if text_eq s (codes "login")
    then EventAction.login
    else if text_eq s (codes "logout")
    then EventAction.logout
    else if text_eq s (codes "auth_fail")
    then EventAction.auth_fail
    else if text_eq s (codes "privilege_escalation")
    then EventAction.privilege_esc
    else if text_eq s (codes "key_event")
    then EventAction.key_event
    else if text_eq s (codes "mouse_event")
    then EventAction.mouse_event
    else if text_eq s (codes "window_focus")
    then EventAction.window_focus
    else if text_eq s (codes "clipboard")
    then EventAction.clipboard
    else if text_eq s (codes "screenshot")
    then EventAction.screenshot
    else if text_eq s (codes "set")
    then EventAction.set
    else if text_eq s (codes "get")
    then EventAction.get
    else if text_eq s (codes "load")
    then EventAction.load
    else if text_eq s (codes "unload")
    then EventAction.unload
    else if text_eq s (codes "alert")
    then EventAction.alert
    else if text_eq s (codes "block")
    then EventAction.block
    else if text_eq s (codes "quarantine")
    then EventAction.quarantine
    else if text_eq s (codes "kill")
    then EventAction.kill
    else if text_eq s (codes "annotate")
    then EventAction.annotate
    else if text_eq s (codes "system_start")
    then EventAction.system_start
    else if text_eq s (codes "system_stop")
    then EventAction.system_stop
    else EventAction.unknown

unfoldable pub severity_from_string : Text → Severity
unfolding text_eq
severity_from_string s =
    if text_eq s (codes "debug")
    then Severity.debug
    else if text_eq s (codes "info")
    then Severity.info
    else if text_eq s (codes "notice")
    then Severity.notice
    else if text_eq s (codes "warning")
    then Severity.warning
    else if text_eq s (codes "error")
    then Severity.error
    else if text_eq s (codes "critical")
    then Severity.critical
    else if text_eq s (codes "alert")
    then Severity.alert
    else if text_eq s (codes "emergency")
    then Severity.emergency
    else Severity.info
