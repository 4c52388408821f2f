-- ===== src/Collusion/Engine/Levels.antt =====
-- How the level of a risk is lowered before it is stored (server/src/collusion/collusion.cpp).
use audit_forwarder.Prelude.{
  ℕ, ◌≡◌, refl, sym, ◌⊎◌, inl, inr, Bool, true, false, ◌&&◌, some, codes, text_eq, Bool-cases,
}
use audit_forwarder.Maps.{none-some, some_same}
use audit_forwarder.Collusion.{AggSet}
use audit_forwarder.Collusion.Detect.{
  EngineConfig, DetectionResult, Level, high, mid, low, no_level,
}
use audit_forwarder.Collusion.Engine.Evaluate.{
  is_high, is_low, is_none, one_down, emergency_active, long_capped, emergency_lowered, settle,
}

long_capped-level :
    (set : AggSet) (r : DetectionResult)
    → text_eq set.window_kind (codes "long") ≡ true
    → is_high (long_capped set r).level ≡ false
unfolding long_capped
long_capped-level set r h =
    rw h (elim (Bool-cases (is_high r.level)) [ inl y ↦ rw y refl | inr z ↦ rw z z ])

low_not_high : (l : Level) → is_low l ≡ true → is_high l ≡ false
low_not_high high h = sym h
low_not_high mid h = refl
low_not_high low h = refl
low_not_high no_level h = refl

one_down-level : (l : Level) → is_high (one_down l) ≡ false
unfolding one_down
one_down-level high = refl
one_down-level mid = refl
one_down-level low = refl
one_down-level no_level = refl

emergency_lowered-level :
    (active : Bool) (r : DetectionResult)
    → (active ≡ true) ⊎ (is_high r.level ≡ false)
    → is_high (emergency_lowered active r).level ≡ false
unfolding emergency_lowered
emergency_lowered-level false r (inl e) = absurd (cc)
emergency_lowered-level false r (inr e) = e
emergency_lowered-level true r h = elim (Bool-cases (is_low r.level)) [
  | inl y ↦ rw y (low_not_high r.level y)
  | inr n ↦ rw n (one_down-level r.level)
]

-- A result of the detection that is kept is not high where it is about a long window, and where the
-- emergency mode is active.
pub settle-not_high :
    (cfg : EngineConfig) (now : ℕ) (set : AggSet) (eager : Bool) (r r' : DetectionResult)
    → settle cfg now set eager r ≡ some r'
    → (text_eq set.window_kind (codes "long") ≡ true) ⊎ (emergency_active cfg now ≡ true)
    → is_high r'.level ≡ false
unfolding settle
settle-not_high cfg now set eager r r' e h = elim (Bool-cases (is_none r.level)) [
  | inl y ↦ absurd (none-some r' (rw y at e))
  | inr n ↦ elim (Bool-cases (eager && is_low r.level)) [
    | inl y ↦ absurd (none-some r' (rw (n, y) at e))
    | inr m ↦
        let same : emergency_lowered (emergency_active cfg now) (long_capped set r) ≡ r' =
          some_same _ _ (rw (n, m) at e) in
        rw (← same) (
          emergency_lowered-level (emergency_active cfg now) (long_capped set r)
            (elim h [ inl l ↦ inr (long_capped-level set r l) | inr a ↦ inl a ]))
  ]
]
