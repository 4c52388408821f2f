-- ===== src/Collusion/Engine/Invariant/Stored.antt =====
-- The invariant under the evaluation of a set, and what the pruning of a buffer leaves.
use audit_forwarder.Prelude.{
  ℕ, zero, suc, ◌-◌, ◌≤◌, ◌≡◌, refl, arith, Bool, true, false, not, ◌&&◌, ◌||◌, Option, none, some,
  List, [], ◌∷◌, ◌++◌, All, All-append, length, length-drop, drop, last_or, ltb, ltb→lt,
  ltb_false→le, leb, ◌==◌, codes, text_eq, Bool-cases, if_both, inl, inr,
}
use audit_forwarder.Collusion.{CleanEvent, AggSet}
use audit_forwarder.Collusion.Sequence.Order.{Ascending}
use audit_forwarder.Collusion.Correlation.{event_us}
use audit_forwarder.Collusion.Detect.{DetectionResult}
use audit_forwarder.Collusion.Engine.{Clock, Oracles, RiskEvent, Engine, add64}
use audit_forwarder.Collusion.Engine.Evaluate.{
  is_high, is_low, update_profile, keep_recent, keep_last, cutoff_epoch, max_stored, persist_risk,
  suppressed, store, report, learned, verdict, evaluate, eager_evaluate, same_count, risk_event,
}
use audit_forwarder.Collusion.Engine.Levels.{settle-not_high}
use audit_forwarder.Collusion.Engine.Chain.{drop_before, within_span}
use audit_forwarder.Collusion.Engine.Correlate.{drop_late, newest_us, in_timespan}
use audit_forwarder.Collusion.Engine.Invariant.{IsCapped, IsSound}

pub length-keep_last {ℓ} : {A : Type ℓ} (n : ℕ) (l : List A) → length (keep_last n l) ≤ n
unfolding keep_last
length-keep_last n l = elim (Bool-cases (ltb n (length l))) [
  | inl y ↦ let more = ltb→lt n (length l) y in rw y (omega (arith, length-drop (length l - n) l))
  | inr z ↦ rw z (ltb_false→le n (length l) z)
]

drop-All : {A : Type 0} (P : A → Type 0) (n : ℕ) (l : List A) → All P l → All P (drop n l)
drop-All P zero l h = h
drop-All P (suc n) [] h = tt
drop-All P (suc n) (x ∷ l) h = drop-All P n l h.1

pub keep_last-All :
    {A : Type 0} (P : A → Type 0) (n : ℕ) (l : List A) → All P l → All P (keep_last n l)
unfolding keep_last
keep_last-All P n l h = elim (Bool-cases (ltb n (length l))) [
  | inl y ↦ rw y (drop-All P (length l - n) l h)
  | inr z ↦ rw z h
]

keep_recent-All :
    (P : RiskEvent → Type 0) (cutoff : ℕ) (l : List RiskEvent)
    → All P l
    → All P (keep_recent cutoff l)
unfolding keep_recent
keep_recent-All P cutoff [] h = tt
keep_recent-All P cutoff (r ∷ l) h = elim (Bool-cases (ltb r.created_epoch cutoff)) [
  | inl y ↦ rw y (keep_recent-All P cutoff l h.1)
  | inr z ↦ rw z (h.0, keep_recent-All P cutoff l h.1)
]

pub persist_risk-All :
    (P : RiskEvent → Type 0) (stored : List RiskEvent) (r : RiskEvent) (now : ℕ)
    → P r
    → All P stored
    → All P (persist_risk stored r now)
unfolding persist_risk
persist_risk-All P stored r now p h =
    let recent = keep_recent (cutoff_epoch r.risk_level now) stored in
    keep_last-All P max_stored (recent ++ r ∷ [])
      (All-append P recent (r ∷ []) (keep_recent-All P _ stored h) (p, tt))

pub length-persist_risk :
    (stored : List RiskEvent) (r : RiskEvent) (now : ℕ)
    → length (persist_risk stored r now) ≤ max_stored
unfolding persist_risk
length-persist_risk stored r now =
    length-keep_last max_stored (keep_recent (cutoff_epoch r.risk_level now) stored ++ r ∷ [])

drop-Ascending : (n : ℕ) (l : List CleanEvent) → Ascending l → Ascending (drop n l)
drop-Ascending zero l h = h
drop-Ascending (suc n) [] h = tt
drop-Ascending (suc n) (x ∷ l) h = drop-Ascending n l h.1

pub keep_last-Ascending : (n : ℕ) (l : List CleanEvent) → Ascending l → Ascending (keep_last n l)
unfolding keep_last
keep_last-Ascending n l h = elim (Bool-cases (ltb n (length l))) [
  | inl y ↦ rw y (drop-Ascending (length l - n) l h)
  | inr z ↦ rw z h
]

-- A list that has lost some of its first elements.
abbrev Shortened : List CleanEvent → List CleanEvent → Type 0
Shortened l l' = (length l' ≤ length l) × (Ascending l → Ascending l')

drop_before-Shortened : (cutoff : ℕ) (l : List CleanEvent) → Shortened l (drop_before cutoff l)
unfolding drop_before
drop_before-Shortened cutoff [] = (omega arith, λ h. h)
drop_before-Shortened cutoff (e ∷ l) = elim (Bool-cases (ltb e.ts_ms cutoff)) [
  | inl y ↦ let ih = drop_before-Shortened cutoff l in rw y (omega (arith, ih.0), λ h. ih.1 h.1)
  | inr z ↦ rw z (omega arith, λ h. h)
]

pub within_span-Shortened : (span : ℕ) (l : List CleanEvent) → Shortened l (within_span span l)
unfolding within_span
within_span-Shortened span [] = elim (Bool-cases (not (span == 0) && ltb span 0)) [
  | inl y ↦ rw y (drop_before-Shortened (0 - span) [])
  | inr z ↦ rw z (omega arith, λ h. h)
]
within_span-Shortened span (e ∷ l) =
    elim (Bool-cases (not (span == 0) && ltb span (last_or e l).ts_ms)) [
      | inl y ↦ rw y (drop_before-Shortened ((last_or e l).ts_ms - span) (e ∷ l))
      | inr z ↦ rw z (omega arith, λ h. h)
    ]

drop_late-Shortened :
    (newest span : ℕ) (l : List CleanEvent) → Shortened l (drop_late newest span l)
unfolding drop_late
drop_late-Shortened newest span [] = (omega arith, λ h. h)
drop_late-Shortened newest span (e ∷ l) = elim (Bool-cases (leb newest (add64 (event_us e) span))) [
  | inl y ↦ rw y (omega arith, λ h. h)
  | inr z ↦ let ih = drop_late-Shortened newest span l in rw z (omega (arith, ih.0), λ h. ih.1 h.1)
]

pub in_timespan-Shortened : (span : ℕ) (l : List CleanEvent) → Shortened l (in_timespan span l)
unfolding in_timespan
in_timespan-Shortened span l = elim (Bool-cases (span == 0)) [
  | inl y ↦ rw y (omega arith, λ h. h)
  | inr z ↦ rw z (drop_late-Shortened (newest_us 0 l) span l)
]

store-IsSound :
    (st : Engine) (now : Clock) (set : AggSet) (r : DetectionResult)
    → (text_eq set.window_kind (codes "long") ≡ true → is_high r.level ≡ false)
    → IsSound st
    → IsSound (store st now set r)
unfolding store risk_event
store-IsSound st now set r cap s = record {
  short = s.short;
  long = s.long;
  chain_order = s.chain_order;
  chain_size = s.chain_size;
  corr_order = s.corr_order;
  corr_size = s.corr_size;
  stored_size = length-persist_risk st.risk_events (risk_event set r now.epoch) now.epoch;
  capped =
      persist_risk-All IsCapped st.risk_events (risk_event set r now.epoch) now.epoch cap s.capped;
}

report-IsSound :
    (st : Engine) (now : Clock) (set : AggSet) (o : Option DetectionResult)
    → ((r : DetectionResult)
        → o ≡ some r
        → text_eq set.window_kind (codes "long") ≡ true
        → is_high r.level ≡ false)
    → IsSound st
    → IsSound (report st now set o)
unfolding report
report-IsSound st now set none cap s = s
report-IsSound st now set (some r) cap s =
    if_both IsSound (not (is_low r.level) && suppressed st now.ms set) s
      (store-IsSound st now set r (cap r refl) s)

pub update_profile-IsSound :
    (st : Engine) (set : AggSet) → IsSound st → IsSound (update_profile st set)
unfolding update_profile
update_profile-IsSound st set s =
    if_both IsSound st.cfg.profile_enabled
      (record {
        short = s.short;
        long = s.long;
        chain_order = s.chain_order;
        chain_size = s.chain_size;
        corr_order = s.corr_order;
        corr_size = s.corr_size;
        stored_size = s.stored_size;
        capped = s.capped;
      })
      s

pub evaluate-IsSound :
    (o : Oracles) (now : Clock) (st : Engine) (set : AggSet) (with_profile eager : Bool)
    → IsSound st
    → IsSound (evaluate o now st set with_profile eager)
unfolding evaluate learned verdict
evaluate-IsSound o now st set with_profile eager s =
    if_both IsSound (ltb (length set.operator_ids) 2) s (
      report-IsSound (learned with_profile st set) now set (verdict o now st set eager)
        (λ r e h. settle-not_high st.cfg now.epoch set eager _ r e (inl h))
        (if_both IsSound with_profile (update_profile-IsSound st set s) s))

pub eager_evaluate-IsSound :
    (o : Oracles) (now : Clock) (st : Engine) (set : AggSet)
    → IsSound st
    → IsSound (eager_evaluate o now st set)
unfolding eager_evaluate
eager_evaluate-IsSound o now st set s =
    if_both IsSound
      (not st.cfg.eager_eval
        || ltb (length set.operator_ids) 2
        || same_count st.eager_last_count set)
      s
      (evaluate-IsSound o now _ set false true (record {
        short = s.short;
        long = s.long;
        chain_order = s.chain_order;
        chain_size = s.chain_size;
        corr_order = s.corr_order;
        corr_size = s.corr_size;
        stored_size = s.stored_size;
        capped = s.capped;
      }))
