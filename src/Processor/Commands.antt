-- ===== src/Processor/Commands.antt =====
-- `norm_from_command` (client/src/processor/processor.cpp): the action that a command line stands for.
use audit_forwarder.Prelude.{Bool, ◌&&◌, ◌||◌, [], ◌∷◌, ◌++◌, if◌then◌else◌, Text, codes}
use audit_forwarder.Processor.{ci_contains}

-- The Chinese words for a backup and for a snapshot, as the bytes of their UTF-8 form.
abbrev pub backup_word : Text
backup_word = 229 ∷ 164 ∷ 135 ∷ 228 ∷ 187 ∷ 189 ∷ []

abbrev pub snapshot_word : Text
snapshot_word = 229 ∷ 191 ∷ 171 ∷ 231 ∷ 133 ∷ 167 ∷ []

unfoldable pub deletes_backup : Text → Bool
unfolding ci_contains
deletes_backup t =
    (ci_contains t (codes "del ")
      || (ci_contains t (codes "rm ") || ci_contains t (codes "erase ")))
    && (ci_contains t (codes ".bak")
        || (ci_contains t (codes "backup") || ci_contains t backup_word))

-- The tests in their order, each with its answer; the empty text where none holds.
unfoldable pub norm_from_command : Text → Text → Text
unfolding deletes_backup ci_contains
norm_from_command text image =
    let t = text ++ (codes " " ++ image) in
    if ci_contains t (codes "vssadmin") && ci_contains t (codes "delete")
    then codes "delete.snapshot"
    else if ci_contains t (codes "wbadmin") && ci_contains t (codes "delete")
    then codes "delete.backup"
    else if ci_contains t (codes "mountvol")
    then codes "unmount.volume"
    else if ci_contains t (codes "diskpart")
    then codes "unmount.volume"
    else if ci_contains t (codes "bcdedit")
    then codes "update.config"
    else if ci_contains t (codes "reg ") && ci_contains t (codes "delete")
    then codes "delete.config"
    else if ci_contains t (codes "sc ")
        && (ci_contains t (codes "stop") || ci_contains t (codes "delete"))
    then codes "stop.service"
    else if ci_contains t (codes "net user") && ci_contains t (codes "/add")
    then codes "create.user"
    else if ci_contains t (codes "net localgroup") && ci_contains t (codes "add")
    then codes "assign.admin"
    else if deletes_backup t
    then codes "delete.backup"
    else if ci_contains t (codes "log clear") || ci_contains t (codes "wevtutil cl")
    then codes "clear.logs"
    else if ci_contains t (codes "taskkill") || ci_contains t (codes "net stop")
    then codes "stop.service"
    else if ci_contains t (codes "purge") || ci_contains t (codes "truncate")
    then codes "clear.db"
    else if ci_contains t (codes "export")
        || (ci_contains t (codes "mysqldump") || ci_contains t (codes "pg_dump"))
    then codes "export.db"
    else []

-- The object that a file path stands for.
unfoldable pub object_of_path : Text → Text
unfolding ci_contains
object_of_path path =
    if ci_contains path (codes "backup")
      || (ci_contains path (codes ".bak") || ci_contains path backup_word)
    then codes "backup"
    else if ci_contains path (codes "snapshot") || ci_contains path snapshot_word
    then codes "snapshot"
    else if ci_contains path (codes ".conf")
        || (ci_contains path (codes ".ini")
            || (ci_contains path (codes ".yaml")
                || (ci_contains path (codes ".yml") || ci_contains path (codes "config"))))
    then codes "config"
    else if ci_contains path (codes ".log")
    then codes "logs"
    else []
