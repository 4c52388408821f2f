-- ===== src/Rules/Renamed.antt =====
-- Rules of the server whose operation has another name as a category.
use audit_forwarder.Prelude.{
  ℕ, ◌≡◌, refl, sym, ◌∙◌, ap, Bool, true, false, false≢true, ◌&&◌, some, List, [], ◌∷◌, All, inl,
  inr, Bool-cases, is_empty, Text, codes, text_eq, text_eq→≡, subst,
}
use audit_forwarder.Maps.{some_same}
use audit_forwarder.Event.{EventCategory, category_to_string}
use audit_forwarder.Audit.{AuditEvent}
use audit_forwarder.Config.{ConfigValue, Floats}
use audit_forwarder.Rules.{DetectorRule}
use audit_forwarder.Rules.Loaded.{skip_if}
use audit_forwarder.Rules.Match.{in_list, matches_rule}
use audit_forwarder.Rules.Load.{
  add_category, add_operation, add_keyword, finish_remote, remote_rule, server_ops,
  server_op_to_category, native_rule, text_at, list_at, with_id, with_alert,
}

-- The operations that have another name as a category.
abbrev pub renamed_ops : List Text
renamed_ops = codes "execute" ∷ codes "command_line" ∷ codes "login" ∷ codes "permission" ∷ []

in_list-All : (P : Text → Type 0) (ws : List Text) (w : Text) → All P ws → in_list ws w ≡ true → P w
unfolding in_list
in_list-All P [] w h e = absurd (false≢true e)
in_list-All P (x ∷ ws) w h e = elim (Bool-cases (text_eq x w)) [
  | inl y ↦ subst P (text_eq→≡ x w y) h.0
  | inr k ↦ in_list-All P ws w h.1 (rw k at e)
]

abbrev Renamed : Text → Type 0
Renamed op =
    (is_empty op ≡ false)
    × ((in_list server_ops op ≡ true)
        × ((c : EventCategory) → text_eq op (category_to_string c) ≡ false))

execute_other : (c : EventCategory) → text_eq (codes "execute") (category_to_string c) ≡ false
unfolding category_to_string text_eq
execute_other EventCategory.system = refl
execute_other EventCategory.process = refl
execute_other EventCategory.file = refl
execute_other EventCategory.network = refl
execute_other EventCategory.registry = refl
execute_other EventCategory.command = refl
execute_other EventCategory.gui = refl
execute_other EventCategory.auth = refl
execute_other EventCategory.privilege = refl
execute_other EventCategory.driver = refl
execute_other EventCategory.syscall = refl
execute_other EventCategory.config = refl
execute_other EventCategory.update = refl
execute_other EventCategory.other = refl

command_line_other :
    (c : EventCategory) → text_eq (codes "command_line") (category_to_string c) ≡ false
unfolding category_to_string text_eq
command_line_other EventCategory.system = refl
command_line_other EventCategory.process = refl
command_line_other EventCategory.file = refl
command_line_other EventCategory.network = refl
command_line_other EventCategory.registry = refl
command_line_other EventCategory.command = refl
command_line_other EventCategory.gui = refl
command_line_other EventCategory.auth = refl
command_line_other EventCategory.privilege = refl
command_line_other EventCategory.driver = refl
command_line_other EventCategory.syscall = refl
command_line_other EventCategory.config = refl
command_line_other EventCategory.update = refl
command_line_other EventCategory.other = refl

login_other : (c : EventCategory) → text_eq (codes "login") (category_to_string c) ≡ false
unfolding category_to_string text_eq
login_other EventCategory.system = refl
login_other EventCategory.process = refl
login_other EventCategory.file = refl
login_other EventCategory.network = refl
login_other EventCategory.registry = refl
login_other EventCategory.command = refl
login_other EventCategory.gui = refl
login_other EventCategory.auth = refl
login_other EventCategory.privilege = refl
login_other EventCategory.driver = refl
login_other EventCategory.syscall = refl
login_other EventCategory.config = refl
login_other EventCategory.update = refl
login_other EventCategory.other = refl

permission_other : (c : EventCategory) → text_eq (codes "permission") (category_to_string c) ≡ false
unfolding category_to_string text_eq
permission_other EventCategory.system = refl
permission_other EventCategory.process = refl
permission_other EventCategory.file = refl
permission_other EventCategory.network = refl
permission_other EventCategory.registry = refl
permission_other EventCategory.command = refl
permission_other EventCategory.gui = refl
permission_other EventCategory.auth = refl
permission_other EventCategory.privilege = refl
permission_other EventCategory.driver = refl
permission_other EventCategory.syscall = refl
permission_other EventCategory.config = refl
permission_other EventCategory.update = refl
permission_other EventCategory.other = refl

renamed_ops-Renamed : All Renamed renamed_ops
unfolding in_list text_eq
renamed_ops-Renamed = (
  (refl, (refl, execute_other)),
  (
    (refl, (refl, command_line_other)),
    ((refl, (refl, login_other)), ((refl, (refl, permission_other)), tt)),
  ),
)

finish_remote-categories :
    (n : ℕ) (keyword : Text) (q : DetectorRule)
    → (finish_remote n keyword q).categories ≡ q.categories
unfolding finish_remote add_keyword
finish_remote-categories n keyword q =
    id_kept (with_alert (add_keyword keyword q))
    ∙ alert_kept (add_keyword keyword q)
    ∙ keyword_kept (is_empty keyword)
  where
    id_kept : (r : DetectorRule) → (with_id (codes "remote-rule-") n r).categories ≡ r.categories
    id_kept r = elim (Bool-cases (is_empty r.id)) [ inl y ↦ rw y refl | inr k ↦ rw k refl ]

    alert_kept : (r : DetectorRule) → (with_alert r).categories ≡ r.categories
    alert_kept r = elim (Bool-cases (is_empty r.responses)) [
      | inl y ↦ rw y refl
      | inr k ↦ rw k refl
    ]

    keyword_kept : (b : Bool) → (add_keyword keyword q).categories ≡ q.categories
    keyword_kept b = elim (Bool-cases (is_empty keyword)) [
      | inl y ↦ rw (add_keyword, y) refl
      | inr k ↦ rw (add_keyword, k) refl
    ]

add_operation-some :
    (op : Text) (q : DetectorRule) → Renamed op → add_operation op q ≡ some (add_category op q)
unfolding add_operation server_op_to_category
add_operation-some op q ren =
    rw (server_op_to_category, ren.1.0) (skip_if (is_empty op) (some q) _ ren.0)

add_category-first :
    (op : Text) (q : DetectorRule)
    → is_empty op ≡ false
    → q.categories ≡ []
    → (add_category op q).categories ≡ op ∷ []
unfolding add_category in_list
add_category-first op q full bare = rw (full, bare) refl

-- The categories that the operation gives to a rule without any.
categories-remote_rule :
    (fl : Floats) (n : ℕ) (rv : ConfigValue) (r : DetectorRule)
    → remote_rule fl n rv ≡ some r
    → list_at fl rv (codes "categories") ≡ []
    → Renamed (text_at fl rv (codes "operation_type"))
    → r.categories ≡ text_at fl rv (codes "operation_type") ∷ []
unfolding remote_rule native_rule
categories-remote_rule fl n rv r h bare ren =
    let op = text_at fl rv (codes "operation_type") in
    let q : DetectorRule = add_category op (native_rule fl rv) in
    let keyword = text_at fl rv (codes "keyword") in
    let same : finish_remote n keyword q ≡ r =
      some_same (finish_remote n keyword q) r
        (rw (remote_rule, add_operation-some op (native_rule fl rv) ren) at h) in
    ap (λ x. x.categories) (sym same)
    ∙ finish_remote-categories n keyword q
    ∙ add_category-first op (native_rule fl rv) ren.0 bare

-- A rule of the server that names one of the operations `execute`, `command_line`, `login` and
-- `permission` and no categories matches no event at all.
pub remote_rule-renamed :
    (found : Text → Text → Bool) (fl : Floats) (n : ℕ) (rv : ConfigValue) (r : DetectorRule)
    (ev : AuditEvent)
    → remote_rule fl n rv ≡ some r
    → list_at fl rv (codes "categories") ≡ []
    → in_list renamed_ops (text_at fl rv (codes "operation_type")) ≡ true
    → matches_rule found r ev ≡ false
unfolding matches_rule in_list
remote_rule-renamed found fl n rv r ev h bare named =
    let ren : Renamed (text_at fl rv (codes "operation_type")) =
      in_list-All Renamed renamed_ops _ renamed_ops-Renamed named in
    rw (categories-remote_rule fl n rv r h bare ren, ren.1.1 ev.category) (never r.enabled)
  where
    never : (b : Bool) → (b && false) ≡ false
    never true = refl
    never false = refl
