-- ===== src/Processor/Kept.antt =====
-- What the processors leave alone.
use audit_forwarder.Prelude.{
  ℕ, ◌≡◌, ◌≢◌, refl, sym, ap, ◌∙◌, false, List, [], ◌∷◌, ◌++◌, is_empty, Text, codes, Bool-cases,
  inl, inr, false≢true,
}
use audit_forwarder.Maps.{find_key-insert_same, find_key-insert_other}
use audit_forwarder.Event.{action_to_string}
use audit_forwarder.Audit.{AuditEvent}
use audit_forwarder.Processor.{get_attr, set_attr, set_attr_if_empty, or_empty, action_norm_key}
use audit_forwarder.Processor.Actions.{normalize_action, norm_of}
use audit_forwarder.Processor.Schema.{fill_fields, schema_fields, map_schema}

pub get_attr-set_attr : (ev : AuditEvent) (k v : Text) → get_attr (set_attr ev k v) k ≡ v
unfolding get_attr set_attr
get_attr-set_attr ev k v = ap or_empty (find_key-insert_same ev.attrs k v)

get_attr-set_attr_other :
    (ev : AuditEvent) (k x v : Text) → k ≢ x → get_attr (set_attr ev k v) x ≡ get_attr ev x
unfolding get_attr set_attr
get_attr-set_attr_other ev k x v n = ap or_empty (find_key-insert_other ev.attrs k x v n)

-- An attribute that has a value keeps it.
set_attr_if_empty-get_attr :
    (ev : AuditEvent) (k v x : Text)
    → is_empty (get_attr ev x) ≡ false
    → get_attr (set_attr_if_empty ev k v) x ≡ get_attr ev x
unfolding set_attr_if_empty
set_attr_if_empty-get_attr ev k v x h = elim (Bool-cases (is_empty v)) [
  | inl y ↦ rw y refl
  | inr n ↦ elim (Bool-cases (is_empty (get_attr ev k))) [
    | inl y ↦
        rw (n, y)
          (get_attr-set_attr_other ev k x v
            (λ e. false≢true (sym h ∙ ap (λ z. is_empty (get_attr ev z)) (sym e) ∙ y)))
    | inr z ↦ rw (n, z) refl
  ]
]

fill_fields-get_attr :
    (fields : List (Text × (AuditEvent → Text))) (ev : AuditEvent) (x : Text)
    → is_empty (get_attr ev x) ≡ false
    → get_attr (fill_fields fields ev) x ≡ get_attr ev x
unfolding fill_fields
fill_fields-get_attr [] ev x h = refl
fill_fields-get_attr ((key, value) ∷ fields) ev x h =
    let same = set_attr_if_empty-get_attr ev key (value ev) x h in
    fill_fields-get_attr fields (set_attr_if_empty ev key (value ev)) x (ap is_empty same ∙ h)
    ∙ same

-- Whatever attribute has a value before the mapping has the same value after it: what collectors and
-- adapters have set stays.
pub map_schema-get_attr :
    (ev : AuditEvent) (x : Text)
    → is_empty (get_attr ev x) ≡ false
    → get_attr (map_schema ev) x ≡ get_attr ev x
unfolding map_schema
map_schema-get_attr ev x h = fill_fields-get_attr schema_fields ev x h

is_empty-append : (s : Text) (c : ℕ) (t : Text) → is_empty (s ++ c ∷ t) ≡ false
is_empty-append [] c t = refl
is_empty-append (x ∷ s) c t = refl

-- After the normalizer every event has a name for its action.
pub normalize_action_named :
    (ev : AuditEvent) → is_empty (get_attr (normalize_action ev) action_norm_key) ≡ false
unfolding normalize_action
normalize_action_named ev = elim (Bool-cases (is_empty (get_attr ev action_norm_key))) [
  | inr n ↦ rw n n
  | inl y ↦ rw y (elim (Bool-cases (is_empty (norm_of ev))) [
    | inl z ↦ rw z (
        ap is_empty
          (get_attr-set_attr ev action_norm_key (action_to_string ev.action ++ codes ".unknown"))
        ∙ is_empty-append (action_to_string ev.action) b'.' (codes "unknown"))
    | inr z ↦ rw z (ap is_empty (get_attr-set_attr ev action_norm_key (norm_of ev)) ∙ z)
  ])
]

-- The normalizer gives every event a name for its action, and run again on the event, as on any event
-- that has a name, it changes nothing.
pub normalize_action-normalize_action :
    (ev : AuditEvent)
    → (is_empty (get_attr (normalize_action ev) action_norm_key) ≡ false)
      × (normalize_action (normalize_action ev) ≡ normalize_action ev)
unfolding normalize_action
normalize_action-normalize_action ev =
    (normalize_action_named ev, named (normalize_action ev) (normalize_action_named ev))
  where
    named :
        (e : AuditEvent) → is_empty (get_attr e action_norm_key) ≡ false → normalize_action e ≡ e
    named e h = rw h refl
