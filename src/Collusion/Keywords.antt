-- ===== src/Collusion/Keywords.antt =====
-- Keywords and resource patterns against an event: `any_keyword_hit`, `step_hit`,
-- `match_asset_group` (server/src/collusion/collusion.cpp).
use audit_forwarder.Prelude.{
  Bool, false, ◌||◌, not, List, [], ◌∷◌, ◌++◌, any, is_empty, if◌then◌else◌, Text, codes, text_eq,
}
use audit_forwarder.Text.{lower, contains}
use audit_forwarder.Glob.{wildcard_match}
use audit_forwarder.Collusion.{CleanEvent, AssetGroup}

-- One keyword: an empty one never hits.
unfoldable pub keyword_hit : Text → Text → Bool
keyword_hit lowered k = if is_empty k then false else contains lowered (lower k)

unfoldable pub any_keyword_hit : List Text → Text → Bool
unfolding keyword_hit any
any_keyword_hit keywords text =
    if is_empty keywords then false else any (keyword_hit (lower text)) keywords

-- `e.op_type + " " + e.res_key + " " + e.op_param`.
unfoldable pub searchable : CleanEvent → Text
searchable e = e.op_type ++ (codes " " ++ (e.res_key ++ (codes " " ++ e.op_param)))

-- `k.find('.') != npos`.
unfoldable pub has_dot : Text → Bool
has_dot k = contains k (codes ".")

-- One round of the strict loop: dotted keywords alone, equal to the action or matching it.
unfoldable pub strict_hit : Text → Text → Bool
unfolding has_dot
strict_hit norm k =
    if is_empty k
    then false
    else if not (has_dot (lower k))
    then false
    else text_eq (lower k) norm || wildcard_match (lower k) norm

unfoldable pub step_hit : List Text → CleanEvent → Bool
unfolding any_keyword_hit searchable has_dot strict_hit any
step_hit keywords e =
    if is_empty keywords
    then false
    else if is_empty e.action_norm
    then any_keyword_hit keywords (searchable e)
    else if not (any has_dot keywords)
    then any_keyword_hit keywords (searchable e)
    else any (strict_hit (lower e.action_norm)) keywords

-- The first group with a pattern that matches; the empty text where there is none.
unfoldable pub first_group : List AssetGroup → Text → Text
unfolding any
first_group [] res_key = []
first_group (g ∷ groups) res_key =
    if any (λ p. wildcard_match p res_key) g.patterns then g.name else first_group groups res_key

unfoldable pub match_asset_group : List AssetGroup → Text → Text
unfolding first_group
match_asset_group groups res_key = if is_empty res_key then [] else first_group groups res_key
