-- ===== src/Filter/Allowed.antt =====
-- Which files are reported.
use audit_forwarder.Prelude.{
  ◌≡◌, ◌↔◌, ◌⊎◌, inl, inr, refl, sym, Bool, true, false, List, Any, is_empty, if◌then◌else◌, Text,
  false≢true,
}
use audit_forwarder.Text.{lower}
use audit_forwarder.Glob.{filter_glob_match, wildcard_match, wildcard_run}
use audit_forwarder.Glob.Spec.{Glob, StarFree}
use audit_forwarder.Glob.Complete.{wildcard_match_iff}
use audit_forwarder.Collusion.Guards.Spec.{any_iff, guard_iff}
use audit_forwarder.Filter.{FileFilterConfig, matches, file_event_allowed}

filter_glob_match_iff :
    (path pattern : Text)
    → StarFree path
    → (filter_glob_match pattern path ≡ true) ↔ Glob (lower pattern) (lower path)
unfolding filter_glob_match wildcard_match wildcard_run
filter_glob_match_iff path pattern free = wildcard_match_iff pattern path free

-- One of the patterns describes the path, letter case aside.
abbrev pub Described : List Text → Text → Type 0
Described patterns path = Any (λ p. Glob (lower p) (lower path)) patterns

matches_iff :
    (patterns : List Text) (path : Text)
    → StarFree path
    → (matches patterns path ≡ true) ↔ Described patterns path
unfolding matches
matches_iff patterns path free =
    any_iff (λ p. filter_glob_match p path) (λ p. Glob (lower p) (lower path))
      (λ p. filter_glob_match_iff path p free) patterns

no_iff : {b : Bool} {P : Type 0} → (b ≡ true) ↔ P → (b ≡ false) ↔ (¬ P)
no_iff {b = true} f = (λ h. absurd (false≢true (sym h)), λ n. absurd (n (f.0 refl)))
no_iff {b = false} f = (λ h. λ p. false≢true (f.1 p), λ n. refl)

either_iff :
    {a b : Bool} {P : Type 0} → (b ≡ true) ↔ P → ((if a then true else b) ≡ true) ↔ ((a ≡ true) ⊎ P)
either_iff {a = true} f = (λ h. inl refl, λ h. refl)
either_iff {a = false} f =
    (λ h. inr (f.0 h), λ s. elim s [ inl e ↦ absurd (false≢true e) | inr p ↦ f.1 p ])

-- A file event whose path has no literal `*` is let through exactly when no exclude pattern
-- describes the path and there is no include pattern or one of them describes it: excluding wins.
pub file_event_allowed_iff :
    (cfg : FileFilterConfig) (path : Text)
    → StarFree path
    → (file_event_allowed cfg path ≡ true) ↔ (
        (¬ Described cfg.exclude path)
        × ((is_empty cfg.include ≡ true) ⊎ Described cfg.include path))
unfolding file_event_allowed
file_event_allowed_iff cfg path free =
    guard_iff (no_iff (matches_iff cfg.exclude path free))
      (either_iff (matches_iff cfg.include path free))
