-- ===== src/Config/Paths/Lookup.antt =====
-- Lookups in the entries of a configuration map.
use audit_forwarder.Prelude.{
  ◌≡◌, ◌≢◌, refl, sym, ap, none, some, inl, inr, Bool-cases, Text, text_eq, text_eq_refl, text_eq→≡,
  if◌then◌else◌,
}
use audit_forwarder.Text.{text_lt}
use audit_forwarder.Maps.{text_eq_other, none-some}
use audit_forwarder.Config.{ConfigValue, Fields, end, field, find_field, put_field, emplace_field}

pub find_field-put_same :
    (fs : Fields) (k : Text) (v : ConfigValue) → find_field (put_field fs k v) k ≡ some v
unfolding find_field put_field
find_field-put_same end k v = rw (text_eq_refl k) refl
find_field-put_same (field j w fs) k v = elim (Bool-cases (text_eq j k)) [
  | inl y ↦ rw y (rw (text_eq_refl k) refl)
  | inr n ↦ elim (Bool-cases (text_lt k j)) [
    | inl z ↦ rw (n, z) (rw (text_eq_refl k) refl)
    | inr z ↦ rw (n, z) (rw n (find_field-put_same fs k v))
  ]
]

pub find_field-put_other :
    (fs : Fields) (k x : Text) (v : ConfigValue)
    → k ≢ x
    → find_field (put_field fs k v) x ≡ find_field fs x
unfolding find_field put_field
find_field-put_other end k x v n = rw (text_eq_other k x n) refl
find_field-put_other (field j w fs) k x v n = elim (Bool-cases (text_eq j k)) [
  | inl y ↦ rw (y, text_eq_other k x n) (rw (text_eq→≡ j k y) (rw (text_eq_other k x n) refl))
  | inr d ↦ elim (Bool-cases (text_lt k j)) [
    | inl z ↦ rw (d, z) (rw (text_eq_other k x n) refl)
    | inr z ↦
        rw (d, z) (ap (λ r. if text_eq j x then some w else r) (find_field-put_other fs k x v n))
  ]
]

-- A key that is not there is put.
pub emplace_new :
    (fs : Fields) (k : Text) (v : ConfigValue)
    → find_field fs k ≡ none
    → emplace_field fs k v ≡ put_field fs k v
unfolding find_field put_field emplace_field
emplace_new end k v h = refl
emplace_new (field j w fs) k v h = elim (Bool-cases (text_eq j k)) [
  | inl y ↦ absurd (none-some w (sym (rw y at h)))
  | inr n ↦ rw n (
      ap (λ r. if text_lt k j then field k v (field j w fs) else field j w r)
        (emplace_new fs k v (rw n at h)))
]
