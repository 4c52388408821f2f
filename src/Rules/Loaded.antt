-- ===== src/Rules/Loaded.antt =====
-- What the loaders of the rules leave.
use audit_forwarder.Prelude.{
  Bool, ◌⊎◌, true, if◌then◌else◌, ◌≡◌, refl, sym, false, false≢true, Option, List, [], ◌∷◌, All,
  is_empty, Text, codes,
}
use audit_forwarder.Config.{as_string, nil, cons, ConfigValue, Values, Floats, at, as_list}
use audit_forwarder.Config.Json.{Parsed, ok, err, stuck}
use audit_forwarder.Rules.{DetectorRule, RuleEngine}
use audit_forwarder.Rules.Match.{in_list}
use audit_forwarder.Rules.Load.{
  Outcome, ended, loaded, undefined, not_map, no_rules, out_of_fuel, unreadable, no_file, text_at,
}

-- A rule can be named in an event, and answers.
abbrev pub Ready : DetectorRule → Type 0
Ready r = (is_empty r.id ≡ false) × (is_empty r.responses ≡ false)

pub skip_if : (b : Bool) (x y : Option DetectorRule) → b ≡ false → (if b then x else y) ≡ y
skip_if true x y e = absurd (false≢true (sym e))
skip_if false x y e = refl

-- The operations that the server may name.
abbrev pub known_ops : List Text
known_ops =
    codes "execute"
    ∷ codes "process"
    ∷ codes "file"
    ∷ codes "network"
    ∷ codes "registry"
    ∷ codes "command_line"
    ∷ codes "auth"
    ∷ codes "login"
    ∷ codes "permission"
    ∷ codes "driver"
    ∷ codes "config"
    ∷ codes "update"
    ∷ []

-- A rule names none or one of them.
abbrev pub Known : Text → Type 0
Known op = (is_empty op ≡ true) ⊎ (in_list known_ops op ≡ true)

unfoldable pub AllKnown : Floats → Values → Type 0
unfolding as_string at
AllKnown fl nil = Unit
AllKnown fl (cons rv vs) = Known (text_at fl rv (codes "operation_type")) × AllKnown fl vs

-- The rules of a text that is read.
unfoldable pub KnownRules : Floats → Parsed ConfigValue → Type 0
unfolding AllKnown as_list at
KnownRules fl (ok v rest) = AllKnown fl (as_list (at v (codes "rules")))
KnownRules fl (err x) = Unit
KnownRules fl stuck = Unit

-- How a load ends: with new rules that are ready and no hits, or with an error and the engine as it
-- was; not by undefined behaviour, and not by the end of the fuel.
pub Settled : RuleEngine → Outcome → Type 0
Settled e undefined = ⊥
Settled e (ended loaded e') = All Ready e'.rules × (e'.hits ≡ [])
Settled e (ended out_of_fuel e') = ⊥
Settled e (ended not_map e') = e' ≡ e
Settled e (ended no_rules e') = e' ≡ e
Settled e (ended (unreadable x) e') = e' ≡ e
Settled e (ended no_file e') = e' ≡ e
