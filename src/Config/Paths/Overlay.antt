-- ===== src/Config/Paths/Overlay.antt =====
-- What a merged map holds.
use audit_forwarder.Prelude.{
  Bool, true, false, ◌&&◌, ◌≡◌, ◌≢◌, refl, sym, subst, ◌∙◌, ap, ap₂, Option, none, some, inl, inr,
  Bool-cases, Text, text_eq, text_eq→≡, text_eq_iff, false≢true,
}
use audit_forwarder.Config.{
  ConfigValue, Fields, null, bool, int, double, string, list, map, end, field, find_field, is_map,
}
use audit_forwarder.Config.Paths.{merge, merged, merge_fields, merge_entry}
use audit_forwarder.Config.Paths.Lookup.{find_field-put_same, find_field-put_other, emplace_new}

-- No key stands twice.
unfoldable pub NoRepeat : Fields → Type 0
unfolding find_field
NoRepeat end = Unit
NoRepeat (field k v fs) = (find_field fs k ≡ none) × NoRepeat fs

-- What a key holds, from what it held and what the newer map has for it.
abbrev pub overlaid : Option ConfigValue → Option ConfigValue → Option ConfigValue
overlaid o none = o
overlaid none (some v) = some v
overlaid (some w) (some v) = some (merged w v)

other : (k x : Text) → text_eq k x ≡ false → k ≢ x
other k x h same = false≢true (sym h ∙ (text_eq_iff k x).1 same)

find_field-merge_entry :
    (dst : Fields) (k : Text) (v : ConfigValue)
    → find_field (merge_entry dst (find_field dst k) k v (λ w. merged w v)) k
      ≡ overlaid (find_field dst k) (some v)
unfolding merge_entry
find_field-merge_entry dst k v = go (find_field dst k) refl
  where
    go :
        (o : Option ConfigValue)
        → find_field dst k ≡ o
        → find_field (merge_entry dst o k v (λ w. merged w v)) k ≡ overlaid o (some v)
    go none e = ap (λ m. find_field m k) (emplace_new dst k v e) ∙ find_field-put_same dst k v
    go (some w) e = find_field-put_same dst k (merged w v)

find_field-merge_entry_other :
    (dst : Fields) (k x : Text) (v : ConfigValue)
    → k ≢ x
    → find_field (merge_entry dst (find_field dst k) k v (λ w. merged w v)) x ≡ find_field dst x
unfolding merge_entry
find_field-merge_entry_other dst k x v n = go (find_field dst k) refl
  where
    go :
        (o : Option ConfigValue)
        → find_field dst k ≡ o
        → find_field (merge_entry dst o k v (λ w. merged w v)) x ≡ find_field dst x
    go none e = ap (λ m. find_field m x) (emplace_new dst k v e) ∙ find_field-put_other dst k x v n
    go (some w) e = find_field-put_other dst k x (merged w v) n

find_field-merge_fields :
    (dst fs : Fields) (x : Text)
    → NoRepeat fs
    → find_field (merge_fields dst fs) x ≡ overlaid (find_field dst x) (find_field fs x)
unfolding merge_fields NoRepeat find_field
find_field-merge_fields dst end x once = refl
find_field-merge_fields dst (field k v fs) x once =
    find_field-merge_fields grown fs x once.1 ∙ elim (Bool-cases (text_eq k x)) [
      | inl here ↦
          let same : k ≡ x = text_eq→≡ k x here in
          rw (here, ← same) (ap₂ overlaid (find_field-merge_entry dst k v) once.0)
      | inr away ↦ rw away (
          ap (λ o. overlaid o (find_field fs x))
            (find_field-merge_entry_other dst k x v (other k x away)))
    ]
  where
    grown : Fields
    grown = merge_entry dst (find_field dst k) k v (λ w. merged w v)

unfoldable mutual
  -- No key stands twice in any of the maps inside.
  pub Distinct : ConfigValue → Type 0
  Distinct (map fs) = NoRepeat fs × DistinctFields fs
  Distinct null = Unit
  Distinct (bool b) = Unit
  Distinct (int n) = Unit
  Distinct (double d) = Unit
  Distinct (string s) = Unit
  Distinct (list vs) = Unit

  pub DistinctFields : Fields → Type 0
  DistinctFields end = Unit
  DistinctFields (field k v fs) = Distinct v × DistinctFields fs

-- What a newer value makes of an older one, `none` where there is none: the older stays where there
-- is no newer, two maps are overlaid key by key at every depth, and otherwise the newer takes the
-- place.
pub data Overlaid : Option ConfigValue → Option ConfigValue → Option ConfigValue → Type 0 where
  stays : (o : Option ConfigValue) → Overlaid o none o
  added : (v : ConfigValue) → Overlaid none (some v) (some v)
  replaced :
      (w v : ConfigValue) → (is_map w && is_map v) ≡ false → Overlaid (some w) (some v) (some v)
  nested :
      (ws fs rs : Fields)
      → ((k : Text) → Overlaid (find_field ws k) (find_field fs k) (find_field rs k))
      → Overlaid (some (map ws)) (some (map fs)) (some (map rs))

no_map : (b : Bool) → (b && false) ≡ false
no_map true = refl
no_map false = refl

map-Overlaid :
    (w : ConfigValue) (fs : Fields)
    → ((o : Option ConfigValue) (x : Text)
        → Overlaid o (find_field fs x) (overlaid o (find_field fs x)))
    → NoRepeat fs
    → Overlaid (some w) (some (map fs)) (some (merged w (map fs)))
unfolding merged
map-Overlaid (map ws) fs inside once = nested ws fs (merge_fields ws fs) (λ k.
    subst (Overlaid (find_field ws k) (find_field fs k))
      (sym (find_field-merge_fields ws fs k once)) (inside (find_field ws k) k))
map-Overlaid null fs inside once = replaced null (map fs) refl
map-Overlaid (bool b) fs inside once = replaced (bool b) (map fs) refl
map-Overlaid (int n) fs inside once = replaced (int n) (map fs) refl
map-Overlaid (double d) fs inside once = replaced (double d) (map fs) refl
map-Overlaid (string s) fs inside once = replaced (string s) (map fs) refl
map-Overlaid (list vs) fs inside once = replaced (list vs) (map fs) refl

add_or_merge :
    (o : Option ConfigValue) (v : ConfigValue)
    → ((w : ConfigValue) → Overlaid (some w) (some v) (some (merged w v)))
    → Overlaid o (some v) (overlaid o (some v))
add_or_merge none v both = added v
add_or_merge (some w) v both = both w

mutual
  unfolding merged Distinct find_field

  merged-Overlaid :
      (w v : ConfigValue) → Distinct v → Overlaid (some w) (some v) (some (merged w v))
  merged-Overlaid w (map fs) h = map-Overlaid w fs (λ o x. entry-Overlaid o fs x h.1) h.0
  merged-Overlaid w null h = replaced w null (no_map (is_map w))
  merged-Overlaid w (bool b) h = replaced w (bool b) (no_map (is_map w))
  merged-Overlaid w (int n) h = replaced w (int n) (no_map (is_map w))
  merged-Overlaid w (double d) h = replaced w (double d) (no_map (is_map w))
  merged-Overlaid w (string s) h = replaced w (string s) (no_map (is_map w))
  merged-Overlaid w (list vs) h = replaced w (list vs) (no_map (is_map w))

  entry-Overlaid :
      (o : Option ConfigValue) (fs : Fields) (x : Text)
      → DistinctFields fs
      → Overlaid o (find_field fs x) (overlaid o (find_field fs x))
  entry-Overlaid o end x h = stays o
  entry-Overlaid o (field k v fs) x h = elim (Bool-cases (text_eq k x)) [
    | inl y ↦ rw y (add_or_merge o v (λ w. merged-Overlaid w v h.0))
    | inr n ↦ rw n (entry-Overlaid o fs x h.1)
  ]

-- Where no key stands twice in the newer map or in a map inside of it, `merge` overlays two maps at
-- every depth: a key of one of them keeps its value, under a key of both two maps are overlaid again,
-- and otherwise the newer value takes the place.
pub merge-Overlaid :
    (ws fs : Fields)
    → Distinct (map fs)
    → Overlaid (some (map ws)) (some (map fs)) (some (merge (map ws) (map fs)))
unfolding merge merged
merge-Overlaid ws fs h = merged-Overlaid (map ws) (map fs) h
