-- ===== src/Collusion/Engine/Alerts.antt =====
-- Alerts of one key are kept apart (server/src/collusion/collusion.cpp).
use audit_forwarder.Prelude.{
  ℕ, ◌<◌, ◌≡◌, ◌≢◌, refl, ap, ◌∙◌, ◌⊎◌, inl, inr, arith, Bool, true, not, ◌&&◌, Option, none, some,
  List, length, ltb, ◌==◌, Text, Bool-cases, if_both,
}
use audit_forwarder.Maps.{insert_key, find_key-insert_same}
use audit_forwarder.Collusion.{AggSet}
use audit_forwarder.Collusion.Detect.{EngineConfig, DetectionResult}
use audit_forwarder.Collusion.Engine.{Clock, Oracles, Alert, Engine, add64, mul64}
use audit_forwarder.Collusion.Engine.Evaluate.{
  is_low, count_of, update_profile, dedup_seconds, suppressed, pushed, store, report, learned,
  verdict, evaluate,
}

-- What an evaluation does to the configuration and the alerts of a key: it pushes nothing, or the
-- time of the last alert is now.
record Pushes (now : Clock) (key : Text) (st st' : Engine) : Type 0 where
  cfg : st'.cfg ≡ st.cfg
  noted : (st'.alerts ≡ st.alerts) ⊎ (count_of st'.last_alert_epoch key ≡ now.ms)

Pushes-refl : (now : Clock) (key : Text) (st : Engine) → Pushes now key st st
Pushes-refl now key st = record { cfg = refl; noted = inl refl }

count_of-insert_key : (m : List (Text × ℕ)) (k : Text) (n : ℕ) → count_of (insert_key m k n) k ≡ n
unfolding count_of
count_of-insert_key m k n = rw (find_key-insert_same m k n, count_of) refl

store-Pushes :
    (st : Engine) (now : Clock) (set : AggSet) (r : DetectionResult)
    → Pushes now set.aggregate_key st (store st now set r)
unfolding store pushed
store-Pushes st now set r = elim (Bool-cases (is_low r.level)) [
  | inl y ↦ record { cfg = refl; noted = inl (rw y refl) }
  | inr n ↦ record {
    cfg = refl;
    noted = inr (rw n (count_of-insert_key st.last_alert_epoch set.aggregate_key now.ms));
  }
]

report-Pushes :
    (st : Engine) (now : Clock) (set : AggSet) (o : Option DetectionResult)
    → Pushes now set.aggregate_key st (report st now set o)
unfolding report
report-Pushes st now set none = Pushes-refl now set.aggregate_key st
report-Pushes st now set (some r) =
    if_both (Pushes now set.aggregate_key st) (not (is_low r.level) && suppressed st now.ms set)
      (Pushes-refl now set.aggregate_key st) (store-Pushes st now set r)

-- Learning leaves what the alerts rest on.
learned-Same :
    (P : EngineConfig → List Alert → List (Text × ℕ) → Type 0) (b : Bool) (st : Engine)
    (set : AggSet)
    → P st.cfg st.alerts st.last_alert_epoch
    → P (learned b st set).cfg (learned b st set).alerts (learned b st set).last_alert_epoch
unfolding learned update_profile
learned-Same P b st set p =
    if_both {A = Engine} (λ x. P x.cfg x.alerts x.last_alert_epoch) b
      (if_both {A = Engine} (λ x. P x.cfg x.alerts x.last_alert_epoch) st.cfg.profile_enabled p p) p

evaluate-Pushes :
    (o : Oracles) (now : Clock) (st : Engine) (set : AggSet) (b eager : Bool)
    → Pushes now set.aggregate_key st (evaluate o now st set b eager)
unfolding evaluate
evaluate-Pushes o now st set b eager =
    let p = report-Pushes (learned b st set) now set (verdict o now st set eager) in
    let same_cfg = learned-Same (λ c _ _. c ≡ st.cfg) b st set refl in
    let same_alerts = learned-Same (λ _ l _. l ≡ st.alerts) b st set refl in
    if_both (Pushes now set.aggregate_key st) (ltb (length set.operator_ids) 2)
      (Pushes-refl now set.aggregate_key st)
      (record {
        cfg = p.cfg ∙ same_cfg;
        noted = elim p.noted [ inl e ↦ inl (e ∙ same_alerts) | inr e ↦ inr e ];
      })

-- In the quiet time after the last alert of its key, a set pushes nothing.
store-low :
    (st : Engine) (now : Clock) (set : AggSet) (r : DetectionResult)
    → is_low r.level ≡ true
    → (store st now set r).alerts ≡ st.alerts
unfolding store pushed
store-low st now set r h = rw h refl

report-quiet :
    (st : Engine) (now : Clock) (set : AggSet) (o : Option DetectionResult)
    → suppressed st now.ms set ≡ true
    → (report st now set o).alerts ≡ st.alerts
unfolding report
report-quiet st now set none h = refl
report-quiet st now set (some r) h = elim (Bool-cases (is_low r.level)) [
  | inl y ↦
      if_both {A = Engine} (λ x. x.alerts ≡ st.alerts)
        (not (is_low r.level) && suppressed st now.ms set) refl (store-low st now set r y)
  | inr n ↦ rw (n, h) refl
]

evaluate-quiet :
    (o : Oracles) (now : Clock) (st : Engine) (set : AggSet) (b eager : Bool)
    → suppressed st now.ms set ≡ true
    → (evaluate o now st set b eager).alerts ≡ st.alerts
unfolding evaluate suppressed
evaluate-quiet o now st set b eager h =
    if_both {A = Engine} (λ x. x.alerts ≡ st.alerts) (ltb (length set.operator_ids) 2) refl
      (report-quiet (learned b st set) now set (verdict o now st set eager) (
          learned-Same
            (λ c _ l.
              (not (count_of l set.aggregate_key == 0)
                && ltb now.ms
                    (add64 (count_of l set.aggregate_key) (mul64 (dedup_seconds c set) 1000)))
              ≡ true)
            b st set h)
        ∙ learned-Same (λ _ l _. l ≡ st.alerts) b st set refl)

still_quiet :
    (st : Engine) (cfg : EngineConfig) (set : AggSet) (key : Text) (t now_ms : ℕ)
    → set.aggregate_key ≡ key
    → st.cfg ≡ cfg
    → count_of st.last_alert_epoch key ≡ t
    → t ≢ 0
    → now_ms < add64 t (mul64 (dedup_seconds cfg set) 1000)
    → suppressed st now_ms set ≡ true
unfolding suppressed
still_quiet st cfg set key t now_ms k c e n soon =
    let at : count_of st.last_alert_epoch set.aggregate_key ≡ t =
      ap (count_of st.last_alert_epoch) k ∙ e in
    let seconds : dedup_seconds st.cfg set ≡ dedup_seconds cfg set =
      ap (λ x. dedup_seconds x set) c in
    rw (at, seconds) (ground arith)

-- At most one of two evaluations of one key pushes an alert, where the second comes within the quiet
-- time of its set behind the first and the first does not happen at the time 0.
pub evaluate_twice :
    (o : Oracles) (now now' : Clock) (st : Engine) (set set' : AggSet) (b b' eager eager' : Bool)
    → set'.aggregate_key ≡ set.aggregate_key
    → now.ms ≢ 0
    → now'.ms < add64 now.ms (mul64 (dedup_seconds st.cfg set') 1000)
    → ((evaluate o now st set b eager).alerts ≡ st.alerts)
      ⊎ ((evaluate o now' (evaluate o now st set b eager) set' b' eager').alerts
          ≡ (evaluate o now st set b eager).alerts)
evaluate_twice o now now' st set set' b b' eager eager' key n soon =
    let first = evaluate o now st set b eager in
    let p = evaluate-Pushes o now st set b eager in
    elim p.noted [
      | inl e ↦ inl e
      | inr e ↦ inr (
          evaluate-quiet o now' first set' b' eager'
            (still_quiet first st.cfg set' set.aggregate_key now.ms now'.ms key p.cfg e n soon))
    ]
