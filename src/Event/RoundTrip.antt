-- ===== src/Event/RoundTrip.antt =====
-- Reading a name gives back what was printed, and printing what was read gives back the name.
use audit_forwarder.Prelude.{
  ◌≡◌, refl, sym, ◌⊎◌, inl, inr, Text, codes, text_eq, text_eq→≡, if◌then◌else◌, Bool-cases,
}
use audit_forwarder.Event.{
  EventCategory, EventAction, Severity, category_to_string, action_to_string, severity_to_string,
  category_from_string, action_from_string, severity_from_string,
}

-- Every category is read back from its name.
pub category_from_string-to_string :
    (x : EventCategory) → category_from_string (category_to_string x) ≡ x
unfolding category_from_string category_to_string
category_from_string-to_string EventCategory.system = refl
category_from_string-to_string EventCategory.process = refl
category_from_string-to_string EventCategory.file = refl
category_from_string-to_string EventCategory.network = refl
category_from_string-to_string EventCategory.registry = refl
category_from_string-to_string EventCategory.command = refl
category_from_string-to_string EventCategory.gui = refl
category_from_string-to_string EventCategory.auth = refl
category_from_string-to_string EventCategory.privilege = refl
category_from_string-to_string EventCategory.driver = refl
category_from_string-to_string EventCategory.syscall = refl
category_from_string-to_string EventCategory.config = refl
category_from_string-to_string EventCategory.update = refl
category_from_string-to_string EventCategory.other = refl

-- Every action is read back from its name.
pub action_from_string-to_string : (x : EventAction) → action_from_string (action_to_string x) ≡ x
unfolding action_from_string action_to_string
action_from_string-to_string EventAction.unknown = refl
action_from_string-to_string EventAction.create = refl
action_from_string-to_string EventAction.read = refl
action_from_string-to_string EventAction.write = refl
action_from_string-to_string EventAction.delete = refl
action_from_string-to_string EventAction.rename = refl
action_from_string-to_string EventAction.chmod = refl
action_from_string-to_string EventAction.execute = refl
action_from_string-to_string EventAction.spawn = refl
action_from_string-to_string EventAction.exit = refl
action_from_string-to_string EventAction.connect = refl
action_from_string-to_string EventAction.disconnect = refl
action_from_string-to_string EventAction.listen = refl
action_from_string-to_string EventAction.send = refl
action_from_string-to_string EventAction.receive = refl
action_from_string-to_string EventAction.login = refl
action_from_string-to_string EventAction.logout = refl
action_from_string-to_string EventAction.auth_fail = refl
action_from_string-to_string EventAction.privilege_esc = refl
action_from_string-to_string EventAction.key_event = refl
action_from_string-to_string EventAction.mouse_event = refl
action_from_string-to_string EventAction.window_focus = refl
action_from_string-to_string EventAction.clipboard = refl
action_from_string-to_string EventAction.screenshot = refl
action_from_string-to_string EventAction.set = refl
action_from_string-to_string EventAction.get = refl
action_from_string-to_string EventAction.load = refl
action_from_string-to_string EventAction.unload = refl
action_from_string-to_string EventAction.alert = refl
action_from_string-to_string EventAction.block = refl
action_from_string-to_string EventAction.quarantine = refl
action_from_string-to_string EventAction.kill = refl
action_from_string-to_string EventAction.annotate = refl
action_from_string-to_string EventAction.system_start = refl
action_from_string-to_string EventAction.system_stop = refl

-- Every severity is read back from its name.
pub severity_from_string-to_string :
    (x : Severity) → severity_from_string (severity_to_string x) ≡ x
unfolding severity_from_string severity_to_string
severity_from_string-to_string Severity.debug = refl
severity_from_string-to_string Severity.info = refl
severity_from_string-to_string Severity.notice = refl
severity_from_string-to_string Severity.warning = refl
severity_from_string-to_string Severity.error = refl
severity_from_string-to_string Severity.critical = refl
severity_from_string-to_string Severity.alert = refl
severity_from_string-to_string Severity.emergency = refl

-- A chain of comparisons, one link at a time: `Good` holds of the value that the chain gives.
link {ℓ} :
    {E : Type ℓ} (Good : E → Type 0) (s n : Text) (x rest : E)
    → (n ≡ s → Good x)
    → Good rest
    → Good (if text_eq s n then x else rest)
link Good s n x rest hx hr = elim (Bool-cases (text_eq s n)) [
  | inl e ↦ rw e (hx (sym (text_eq→≡ s n e)))
  | inr e ↦ rw e hr
]

-- A text that is read as a category other than the default is the name of that category.
pub category_to_string-from_string :
    (s : Text)
    → (category_to_string (category_from_string s) ≡ s)
      ⊎ (category_from_string s ≡ EventCategory.other)
unfolding category_from_string category_to_string
category_to_string-from_string s =
    let Good : EventCategory → Type 0 =
      λ x. (category_to_string x ≡ s) ⊎ (x ≡ EventCategory.other) in
    link Good s (codes "system") EventCategory.system _ inl (
      link Good s (codes "process") EventCategory.process _ inl (
        link Good s (codes "file") EventCategory.file _ inl (
          link Good s (codes "network") EventCategory.network _ inl (
            link Good s (codes "registry") EventCategory.registry _ inl (
              link Good s (codes "command") EventCategory.command _ inl (
                link Good s (codes "gui") EventCategory.gui _ inl (
                  link Good s (codes "auth") EventCategory.auth _ inl (
                    link Good s (codes "privilege") EventCategory.privilege _ inl (
                      link Good s (codes "driver") EventCategory.driver _ inl (
                        link Good s (codes "syscall") EventCategory.syscall _ inl (
                          link Good s (codes "config") EventCategory.config _ inl (
                            link Good s (codes "update") EventCategory.update _ inl
                              (inr refl)))))))))))))

-- A text that is read as a action other than the default is the name of that action.
pub action_to_string-from_string :
    (s : Text)
    → (action_to_string (action_from_string s) ≡ s) ⊎ (action_from_string s ≡ EventAction.unknown)
unfolding action_from_string action_to_string
action_to_string-from_string s =
    let Good : EventAction → Type 0 = λ x. (action_to_string x ≡ s) ⊎ (x ≡ EventAction.unknown) in
    link Good s (codes "unknown") EventAction.unknown _ inl (
      link Good s (codes "create") EventAction.create _ inl (
        link Good s (codes "read") EventAction.read _ inl (
          link Good s (codes "write") EventAction.write _ inl (
            link Good s (codes "delete") EventAction.delete _ inl (
              link Good s (codes "rename") EventAction.rename _ inl (
                link Good s (codes "chmod") EventAction.chmod _ inl (
                  link Good s (codes "execute") EventAction.execute _ inl (
                    link Good s (codes "spawn") EventAction.spawn _ inl (
                      link Good s (codes "exit") EventAction.exit _ inl (
                        link Good s (codes "connect") EventAction.connect _ inl (
                          link Good s (codes "disconnect") EventAction.disconnect _ inl (
                            link Good s (codes "listen") EventAction.listen _ inl (
                              link Good s (codes "send") EventAction.send _ inl (
                                link Good s (codes "receive") EventAction.receive _ inl (
                                  link Good s (codes "login") EventAction.login _ inl (
                                    link Good s (codes "logout") EventAction.logout _ inl (
                                      link Good s (codes "auth_fail") EventAction.auth_fail _ inl (
                                        link Good s (codes "privilege_escalation")
                                          EventAction.privilege_esc _ inl
                                          (link Good s (codes "key_event") EventAction.key_event _
                                            inl
                                            (link Good s (codes "mouse_event")
                                              EventAction.mouse_event _ inl
                                              (link Good s (codes "window_focus")
                                                EventAction.window_focus _ inl
                                                (link Good s (codes "clipboard")
                                                  EventAction.clipboard _ inl
                                                  (link Good s (codes "screenshot")
                                                    EventAction.screenshot _ inl
                                                    (link Good s (codes "set") EventAction.set _ inl
                                                      (link Good s (codes "get") EventAction.get _
                                                        inl
                                                        (link Good s (codes "load") EventAction.load
                                                          _ inl
                                                          (link Good s (codes "unload")
                                                            EventAction.unload _ inl
                                                            (link Good s (codes "alert")
                                                            EventAction.alert _ inl
                                                            (link Good s (codes "block")
                                                            EventAction.block _ inl
                                                            (link Good s (codes "quarantine")
                                                            EventAction.quarantine _ inl
                                                            (link Good s (codes "kill")
                                                            EventAction.kill _ inl
                                                            (link Good s (codes "annotate")
                                                            EventAction.annotate _ inl
                                                            (link Good s (codes "system_start")
                                                            EventAction.system_start _ inl
                                                            (link Good s (codes "system_stop")
                                                            EventAction.system_stop _ inl
                                                            (inr
                                                            refl)))))))))))))))))))))))))))))))))))

-- A text that is read as a severity other than the default is the name of that severity.
pub severity_to_string-from_string :
    (s : Text)
    → (severity_to_string (severity_from_string s) ≡ s) ⊎ (severity_from_string s ≡ Severity.info)
unfolding severity_from_string severity_to_string
severity_to_string-from_string s =
    let Good : Severity → Type 0 = λ x. (severity_to_string x ≡ s) ⊎ (x ≡ Severity.info) in
    link Good s (codes "debug") Severity.debug _ inl (
      link Good s (codes "info") Severity.info _ inl (
        link Good s (codes "notice") Severity.notice _ inl (
          link Good s (codes "warning") Severity.warning _ inl (
            link Good s (codes "error") Severity.error _ inl (
              link Good s (codes "critical") Severity.critical _ inl (
                link Good s (codes "alert") Severity.alert _ inl
                  (link Good s (codes "emergency") Severity.emergency _ inl (inr refl))))))))
