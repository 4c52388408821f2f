-- ===== src/Collusion/Engine/Retention.antt =====
-- How long the risk events are kept (server/src/collusion/collusion.cpp).
use audit_forwarder.Prelude.{
  ℕ, ◌+◌, ◌-◌, ◌*◌, ◌≤◌, ◌<◌, ◌≡◌, refl, ap, ◌∙◌, arith, true, false, List, [], ◌∷◌, ◌++◌, All,
  All-append, length, length-append, ltb, leb, ltb_false→le, ltb→lt, leb→le, Bool-cases, inl, inr,
  if◌then◌else◌,
}
use audit_forwarder.Collusion.Engine.{RiskEvent}
use audit_forwarder.Collusion.Engine.Evaluate.{
  is_low, keep_recent, keep_last, max_stored, cutoff_epoch, persist_risk,
}
use audit_forwarder.Collusion.Engine.Invariant.Stored.{keep_last-All}

-- 90 days.
abbrev quarter : ℕ
quarter = 7776000

-- Not older than 90 days.
abbrev pub Young : ℕ → RiskEvent → Type 0
Young now r = now ≤ r.created_epoch + quarter

-- The risk events of the last 90 days.
pub young_ones : ℕ → List RiskEvent → List RiskEvent
young_ones now [] = []
young_ones now (r ∷ l) =
    let rest = young_ones now l in if leb now (r.created_epoch + quarter) then r ∷ rest else rest

keep_recent-young :
    (now : ℕ) (l : List RiskEvent)
    → quarter ≤ now
    → keep_recent (now - quarter) l ≡ young_ones now l
unfolding keep_recent young_ones
keep_recent-young now [] late = refl
keep_recent-young now (r ∷ l) late = elim (Bool-cases (ltb r.created_epoch (now - quarter))) [
  | inl old ↦
      let lt = ltb→lt r.created_epoch (now - quarter) old in
      let gone : leb now (r.created_epoch + quarter) ≡ false = ground arith in
      rw (old, gone) (keep_recent-young now l late)
  | inr young ↦
      let le = ltb_false→le r.created_epoch (now - quarter) young in
      let stays : leb now (r.created_epoch + quarter) ≡ true = ground arith in
      rw (young, stays) (ap (◌∷◌ r) (keep_recent-young now l late))
]

young_ones-All : (now : ℕ) (l : List RiskEvent) → All (Young now) (young_ones now l)
unfolding young_ones
young_ones-All now [] = tt
young_ones-All now (r ∷ l) = elim (Bool-cases (leb now (r.created_epoch + quarter))) [
  | inl y ↦ rw y (leb→le now (r.created_epoch + quarter) y, young_ones-All now l)
  | inr n ↦ rw n (young_ones-All now l)
]

length-young_ones : (now : ℕ) (l : List RiskEvent) → length (young_ones now l) ≤ length l
unfolding young_ones
length-young_ones now [] = omega arith
length-young_ones now (r ∷ l) = elim (Bool-cases (leb now (r.created_epoch + quarter))) [
  | inl y ↦ rw y (omega (arith, length-young_ones now l))
  | inr n ↦ rw n (omega (arith, length-young_ones now l))
]

persist_risk-low :
    (stored : List RiskEvent) (r : RiskEvent) (now : ℕ)
    → quarter ≤ now
    → is_low r.risk_level ≡ true
    → persist_risk stored r now ≡ keep_last max_stored (young_ones now stored ++ r ∷ [])
unfolding persist_risk cutoff_epoch
persist_risk-low stored r now late low =
    let since : leb (90 * 86400) now ≡ true = ground arith in
    rw (low, since)
      (ap (λ l. keep_last max_stored (l ++ r ∷ [])) (keep_recent-young now stored late))

-- Where a low risk arrives at its own time, later than 90 days after the epoch, no risk event that
-- is older than 90 days is left in the store, whatever its level is; and where the store had room,
-- what is left are the younger ones in their order and the new one.
pub persist_risk-purges :
    (stored : List RiskEvent) (r : RiskEvent) (now : ℕ)
    → quarter ≤ now
    → is_low r.risk_level ≡ true
    → r.created_epoch ≡ now
    → All (Young now) (persist_risk stored r now)
      × (length stored < max_stored → persist_risk stored r now ≡ young_ones now stored ++ r ∷ [])
unfolding keep_last
persist_risk-purges stored r now late low made =
    let whole = persist_risk-low stored r now late low in
    let left = young_ones now stored ++ r ∷ [] in
    let fresh : Young now r = omega arith in
    (
      rw whole (
          keep_last-All (Young now) max_stored left (
            All-append (Young now) (young_ones now stored) (r ∷ []) (young_ones-All now stored)
              (fresh, tt))),
      λ room. whole ∙ fits room,
    )
  where
    fits :
        length stored < max_stored
        → keep_last max_stored (young_ones now stored ++ r ∷ []) ≡ young_ones now stored ++ r ∷ []
    fits room = elim (Bool-cases (ltb max_stored (length (young_ones now stored ++ r ∷ [])))) [
      | inr n ↦ rw n refl
      | inl y ↦ absurd (
          omega (
            arith,
            ltb→lt max_stored (length (young_ones now stored ++ r ∷ [])) y,
            length-append (young_ones now stored) (r ∷ []),
            length-young_ones now stored,
            room,
          ))
    ]
