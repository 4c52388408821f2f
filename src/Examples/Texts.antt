-- ===== src/Examples/Texts.antt =====
-- The theorems on matching, digits and names at concrete inputs.
use audit_forwarder.Prelude.{◌++◌, ◌≡◌, ◌↔◌, arith, Bool, true, false, some, [], ◌∷◌, codes}
use audit_forwarder.Text.{lower}
use audit_forwarder.Glob.{wildcard_match, wildcard_run}
use audit_forwarder.Glob.Spec.{Glob, StarFree}
use audit_forwarder.Glob.Total.{wildcard_run-total}
use audit_forwarder.Glob.Complete.{wildcard_match_iff}
use audit_forwarder.Glob.Literal.{wildcard_match-literal_star}
use audit_forwarder.Audit.Json.{json_escape}
use audit_forwarder.Audit.Escapes.{unquoted, unquoted-json_escape}

wildcard_run-total_example :
    (b : Bool) × (wildcard_run (codes "*backup?") (codes "DB_Backup1") ≡ some b)
wildcard_run-total_example = wildcard_run-total (codes "*backup?") (codes "DB_Backup1")

-- No byte of the text is a star.
db_free : StarFree (codes "DB1")
db_free = (
  (λ e. absurd (omega (arith, e))),
  ((λ e. absurd (omega (arith, e))), ((λ e. absurd (omega (arith, e))), tt)),
)

wildcard_match_iff_example :
    (wildcard_match (codes "db*") (codes "DB1") ≡ true)
    ↔ Glob (lower (codes "db*")) (lower (codes "DB1"))
wildcard_match_iff_example = wildcard_match_iff (codes "db*") (codes "DB1") db_free

wildcard_match-literal_star_example :
    (wildcard_match (b'*' ∷ []) (b'*' ∷ b'x' ∷ []) ≡ false)
    × Glob (lower (b'*' ∷ [])) (lower (b'*' ∷ b'x' ∷ []))
wildcard_match-literal_star_example = wildcard_match-literal_star b'x' []

unquoted-json_escape_example :
    unquoted (json_escape (codes "a" ++ b'"' ∷ 1 ∷ []) ++ codes "x") ≡ unquoted (codes "x")
unquoted-json_escape_example = unquoted-json_escape (codes "a" ++ b'"' ∷ 1 ∷ []) (codes "x")
