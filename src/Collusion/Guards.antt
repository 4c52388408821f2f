-- ===== src/Collusion/Guards.antt =====
-- The guards of the detection: `verify_work_order` and `in_whitelist`
-- (server/src/collusion/collusion.cpp). The registry that `verify_work_order` discards is left out.
pub mod Spec
use audit_forwarder.Prelude.{
  ℕ, Bool, true, false, ◌&&◌, ◌||◌, not, List, [], ◌∷◌, any, ltb, ◌==◌, is_empty, if◌then◌else◌,
  Text, codes, text_eq,
}
use audit_forwarder.Collusion.{WhitelistGroup, WorkOrder, AggSet}

-- The two Chinese words for "in progress" and "done", as the bytes of their UTF-8 form.
abbrev pub executing : Text
executing = 230 ∷ 137 ∷ 167 ∷ 232 ∷ 161 ∷ 140 ∷ 228 ∷ 184 ∷ 173 ∷ []

abbrev pub completed : Text
completed = 229 ∷ 183 ∷ 178 ∷ 229 ∷ 174 ∷ 140 ∷ 230 ∷ 136 ∷ 144 ∷ []

unfoldable pub status_ok : Text → Bool
status_ok s =
    text_eq s executing
    || (text_eq s completed
        || (text_eq s (codes "in_progress")
            || (text_eq s (codes "done") || text_eq s (codes "closed"))))

-- Every element passes the test: the loops that stop at the first that does not.
unfoldable pub all_pass {ℓ} : {A : Type ℓ} → (A → Bool) → List A → Bool
all_pass p [] = true
all_pass p (x ∷ xs) = if p x then all_pass p xs else false

unfoldable pub allows : WorkOrder → Text → Bool
unfolding any
allows wo op = any (λ allow. text_eq allow (codes "*") || text_eq allow op) wo.allowed_operators

-- `valid_until && now > valid_until`.
unfoldable pub expired : ℕ → ℕ → Bool
expired until now = not (until == 0) && ltb until now

unfoldable pub verify_work_order : WorkOrder → List Text → ℕ → Bool
unfolding status_ok all_pass allows expired
verify_work_order wo operators now_epoch =
    if is_empty wo.work_order_id
    then false
    else if not (status_ok wo.status)
    then false
    else if not (wo.valid_from_epoch == 0) && ltb now_epoch wo.valid_from_epoch
    then false
    else if expired wo.valid_until_epoch now_epoch
    then false
    else all_pass (allows wo) operators

-- `std::find(...) != end()`.
unfoldable pub listed : List Text → Text → Bool
unfolding any
listed l x = any (λ y. text_eq y x) l

-- The loop over the groups: an expired one is skipped.
unfoldable pub some_group : List WhitelistGroup → List Text → ℕ → Bool
unfolding expired all_pass listed
some_group [] operators now_epoch = false
some_group (g ∷ groups) operators now_epoch =
    let rest = some_group groups operators now_epoch in
    if expired g.valid_until_epoch now_epoch
    then rest
    else if all_pass (listed g.operators) operators
    then true
    else rest

unfoldable pub in_whitelist : List WhitelistGroup → AggSet → ℕ → Bool
unfolding some_group
in_whitelist groups set now_epoch =
    if is_empty set.operator_ids then false else some_group groups set.operator_ids now_epoch
