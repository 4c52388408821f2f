-- ===== src/Config/Paths/Stored.antt =====
-- A value that was set is found by the getters.
use audit_forwarder.Prelude.{
  ◌≡◌, sym, ◌∙◌, false, some, List, [], ◌∷◌, Text, is_empty, false≢true, All,
}
use audit_forwarder.Config.{
  ConfigValue, Fields, Floats, null, bool, int, double, string, list, map, end, find_field,
  put_field, or_null, has, at, as_string,
}
use audit_forwarder.Config.Paths.{pieces, set_pieces, set_path, walk, get_string}
use audit_forwarder.Config.Paths.Lookup.{find_field-put_same}

-- Every value that the pieces lead through is a map, or null or missing.
unfoldable pub CanSet : ConfigValue → List Text → Type 0
unfolding find_field
CanSet cur [] = ⊥
CanSet null (k ∷ ks) = Unit
CanSet (map fs) (k ∷ []) = Unit
CanSet (map fs) (k ∷ j ∷ ks) = CanSet (or_null (find_field fs k)) (j ∷ ks)
CanSet (bool b) (k ∷ ks) = ⊥
CanSet (int n) (k ∷ ks) = ⊥
CanSet (double d) (k ∷ ks) = ⊥
CanSet (string s) (k ∷ ks) = ⊥
CanSet (list vs) (k ∷ ks) = ⊥

abbrev pub NonEmpty : Text → Type 0
NonEmpty k = is_empty k ≡ false

-- One step of the walk, into the entry that was put.
walk-put :
    (fs : Fields) (k : Text) (v : ConfigValue) (ks : List Text)
    → NonEmpty k
    → walk (map (put_field fs k v)) (k ∷ ks) ≡ walk v ks
unfolding walk has at
walk-put fs [] v ks ne = absurd (false≢true (sym ne))
walk-put fs (c ∷ k) v ks ne = rw (find_field-put_same fs (c ∷ k) v)

walk-set_pieces :
    (cur : ConfigValue) (ks : List Text) (v : ConfigValue)
    → CanSet cur ks
    → All NonEmpty ks
    → walk (set_pieces cur ks v) ks ≡ some v
unfolding set_pieces CanSet walk
walk-set_pieces cur [] v can ne = absurd can
walk-set_pieces null (k ∷ []) v can ne = walk-put end k v [] ne.0
walk-set_pieces null (k ∷ j ∷ ks) v can ne =
    walk-put end k _ (j ∷ ks) ne.0 ∙ walk-set_pieces null (j ∷ ks) v tt ne.1
walk-set_pieces (map fs) (k ∷ []) v can ne = walk-put fs k v [] ne.0
walk-set_pieces (map fs) (k ∷ j ∷ ks) v can ne =
    walk-put fs k _ (j ∷ ks) ne.0 ∙ walk-set_pieces (or_null (find_field fs k)) (j ∷ ks) v can ne.1
walk-set_pieces (bool b) (k ∷ ks) v can ne = absurd can
walk-set_pieces (int n) (k ∷ ks) v can ne = absurd can
walk-set_pieces (double d) (k ∷ ks) v can ne = absurd can
walk-set_pieces (string s) (k ∷ ks) v can ne = absurd can
walk-set_pieces (list vs) (k ∷ ks) v can ne = absurd can

-- A value that is set at a path without empty pieces, where nothing but maps, nulls and missing keys
-- stand in the way, is what `get_string` reads at that path, printed.
pub get_string-set_path :
    (fl : Floats) (root v : ConfigValue) (path def : Text)
    → CanSet root (pieces path)
    → All NonEmpty (pieces path)
    → get_string fl (set_path root path v) path def ≡ as_string fl v def
unfolding get_string set_path
get_string-set_path fl root v path def can ne =
    rw (get_string, set_path, walk-set_pieces root (pieces path) v can ne)
