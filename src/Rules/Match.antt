-- ===== src/Rules/Match.antt =====
-- The tests of a rule in `RuleEngine::inspect`.
use audit_forwarder.Prelude.{
  Bool, true, false, ◌&&◌, ◌||◌, List, [], ◌∷◌, ◌++◌, any, is_empty, Text, codes, text_eq,
  if◌then◌else◌,
}
use audit_forwarder.Event.{category_to_string, action_to_string}
use audit_forwarder.Audit.{AuditEvent}
use audit_forwarder.Processor.{get_attr}
use audit_forwarder.Rules.{DetectorRule}

unfoldable pub in_list : List Text → Text → Bool
in_list [] s = false
in_list (x ∷ xs) s = text_eq x s || in_list xs s

-- `found p s`: the pattern is one, and it is found.
unfoldable pub any_match : (Text → Text → Bool) → List Text → Text → Bool
unfolding any
any_match found patterns s = any (λ p. found p s) patterns

-- The value that a key of the exact test stands for.
unfoldable pub actual_value : AuditEvent → Text → Text
unfolding get_attr
actual_value ev k =
    if text_eq k (codes "actor.name")
    then ev.actor.name
    else if text_eq k (codes "actor.user")
    then ev.actor.user
    else if text_eq k (codes "target.path")
    then ev.target.path
    else if text_eq k (codes "command")
    then ev.command
    else get_attr ev k

unfoldable pub exact_match : AuditEvent → List (Text × Text) → Bool
unfolding actual_value
exact_match ev [] = true
exact_match ev ((k, v) ∷ m) = text_eq (actual_value ev k) v && exact_match ev m

abbrev actor_text : AuditEvent → Text
actor_text ev = ev.actor.name ++ b' ' ∷ ev.actor.path

-- Every test but the threshold.
unfoldable pub matches_rule : (Text → Text → Bool) → DetectorRule → AuditEvent → Bool
unfolding in_list any_match exact_match
matches_rule found r ev =
    r.enabled
    && ((is_empty r.categories || in_list r.categories (category_to_string ev.category))
        && ((is_empty r.actions || in_list r.actions (action_to_string ev.action))
            && ((is_empty r.actor_match || any_match found r.actor_match (actor_text ev))
                && ((is_empty r.path_match || any_match found r.path_match ev.target.path)
                    && ((is_empty r.cmd_match || any_match found r.cmd_match ev.command)
                        && exact_match ev r.exact)))))
