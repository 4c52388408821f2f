-- ===== src/Collusion/Engine/Closing.antt =====
-- What a flush does to the sets that are due (server/src/collusion/collusion.cpp).
use audit_forwarder.Prelude.{
  ℕ, ◌+◌, ◌%◌, ◌^◌, ◌≡◌, refl, sym, ap, ◌∙◌, Bool, true, false, not, ◌&&◌, Option, none, some, List,
  [], ◌∷◌, ◌++◌, length, ltb, leb, Text, Bool-cases, if◌then◌else◌, inl, inr,
}
use audit_forwarder.Collusion.{AggSet}
use audit_forwarder.Collusion.Detect.{EngineConfig, DetectionResult}
use audit_forwarder.Collusion.Engine.{Clock, Oracles, Engine, add64}
use audit_forwarder.Collusion.Engine.Evaluate.{
  is_low, update_profile, suppressed, store, report, learned, verdict, evaluate,
}
use audit_forwarder.Collusion.Engine.Ingest.{
  is_due, close_set, not_due, close_due, save_due, flush_due,
}
use audit_forwarder.Collusion.Engine.Flush.{close_set-windows, close_due-windows, flush_due-windows}

-- The end of the window and the grace behind it are over.
pub is_past : EngineConfig → ℕ → AggSet → Bool
is_past cfg now_ms set = leb ((set.window_end_ms + cfg.flush_grace_ms) % 2 ^ 64) now_ms

pub past_sets : EngineConfig → ℕ → List (Text × AggSet) → List AggSet
past_sets cfg now_ms [] = []
past_sets cfg now_ms ((k, set) ∷ m) =
    let rest = past_sets cfg now_ms m in if is_past cfg now_ms set then set ∷ rest else rest

pub open_sets : EngineConfig → ℕ → List (Text × AggSet) → List (Text × AggSet)
open_sets cfg now_ms [] = []
open_sets cfg now_ms ((k, set) ∷ m) =
    let rest = open_sets cfg now_ms m in if is_past cfg now_ms set then rest else (k, set) ∷ rest

-- The engine without its windows.
abbrev pub emptied : Engine → Engine
emptied st = record st { short_sets = []; long_sets = [] }

-- A set that is over is learned from, and evaluated where no chain does it.
pub finish : Oracles → Clock → Engine → AggSet → Engine
finish o now st set =
    if st.cfg.chain_mode then update_profile st set else evaluate o now st set true false

pub finish_all : Oracles → Clock → Engine → List AggSet → Engine
finish_all o now st [] = st
finish_all o now st (set ∷ sets) = finish_all o now (finish o now st set) sets

-- What is known of the operators is written where it changed, a minute after the last time.
pub written : ℕ → Engine → Engine
written now_ms st =
    if st.profile_dirty && leb ((st.profile_save_ms + 60000) % 2 ^ 64) now_ms
    then record st { saved_profile = st.profile; profile_dirty = false; profile_save_ms = now_ms }
    else st

emptied-if :
    (b : Bool) (x y x' y' : Engine)
    → emptied x ≡ x'
    → emptied y ≡ y'
    → emptied (if b then x else y) ≡ (if b then x' else y')
emptied-if true x y x' y' hx hy = hx
emptied-if false x y x' y' hx hy = hy

emptied-update_profile :
    (st : Engine) (set : AggSet) → emptied (update_profile st set) ≡ update_profile (emptied st) set
unfolding update_profile
emptied-update_profile st set = emptied-if st.cfg.profile_enabled _ st _ (emptied st) refl refl

emptied-report :
    (st : Engine) (now : Clock) (set : AggSet) (o : Option DetectionResult)
    → emptied (report st now set o) ≡ report (emptied st) now set o
unfolding report
emptied-report st now set none = refl
emptied-report st now set (some r) =
    emptied-if (not (is_low r.level) && suppressed st now.ms set) st (store st now set r)
      (emptied st) (store (emptied st) now set r) refl refl

emptied-evaluate :
    (o : Oracles) (now : Clock) (st : Engine) (set : AggSet)
    → emptied (evaluate o now st set true false) ≡ evaluate o now (emptied st) set true false
unfolding evaluate learned
emptied-evaluate o now st set =
    emptied-if (ltb (length set.operator_ids) 2) st _ (emptied st) _ refl (
      emptied-report (update_profile st set) now set (verdict o now st set false)
      ∙ ap (λ x. report x now set (verdict o now st set false)) (emptied-update_profile st set))

emptied-finish :
    (o : Oracles) (now : Clock) (st : Engine) (set : AggSet)
    → emptied (finish o now st set) ≡ finish o now (emptied st) set
unfolding finish
emptied-finish o now st set =
    emptied-if st.cfg.chain_mode _ _ _ _ (emptied-update_profile st set)
      (emptied-evaluate o now st set)

emptied-finish_all :
    (o : Oracles) (now : Clock) (st : Engine) (sets : List AggSet)
    → emptied (finish_all o now st sets) ≡ finish_all o now (emptied st) sets
unfolding finish_all
emptied-finish_all o now st [] = refl
emptied-finish_all o now st (set ∷ sets) =
    emptied-finish_all o now (finish o now st set) sets
    ∙ ap (λ x. finish_all o now x sets) (emptied-finish o now st set)

finish_all-append :
    (o : Oracles) (now : Clock) (st : Engine) (a b : List AggSet)
    → finish_all o now st (a ++ b) ≡ finish_all o now (finish_all o now st a) b
unfolding finish_all
finish_all-append o now st [] b = refl
finish_all-append o now st (set ∷ a) b = finish_all-append o now (finish o now st set) a b

is_due-past :
    (cfg : EngineConfig) (now_ms : ℕ) (set : AggSet)
    → is_due cfg now_ms set ≡ is_past cfg now_ms set
unfolding is_due is_past add64
is_due-past cfg now_ms set = refl

close_set-finish :
    (o : Oracles) (now : Clock) (st : Engine) (set : AggSet)
    → close_set o now st set ≡ finish o now st set
unfolding close_set finish
close_set-finish o now st set = refl

close_due-finish_all :
    (cfg : EngineConfig) (o : Oracles) (now : Clock) (st : Engine) (m : List (Text × AggSet))
    → st.cfg ≡ cfg
    → close_due o now st m ≡ finish_all o now st (past_sets cfg now.ms m)
unfolding close_due finish_all past_sets
close_due-finish_all cfg o now st [] same = refl
close_due-finish_all cfg o now st ((k, set) ∷ m) same =
    let due = ap (λ c. is_due c now.ms set) same ∙ is_due-past cfg now.ms set in
    elim (Bool-cases (is_past cfg now.ms set)) [
      | inl y ↦
          rw (due, y)
            (close_due-finish_all cfg o now (close_set o now st set) m
                (ap (λ w. w.0) (close_set-windows o now st set) ∙ same)
              ∙ ap (λ x. finish_all o now x (past_sets cfg now.ms m))
                  (close_set-finish o now st set))
      | inr n ↦ rw (due, n) (close_due-finish_all cfg o now st m same)
    ]

not_due-open :
    (cfg : EngineConfig) (now_ms : ℕ) (m : List (Text × AggSet))
    → not_due cfg now_ms m ≡ open_sets cfg now_ms m
unfolding not_due open_sets is_due is_past
not_due-open cfg now_ms [] = refl
not_due-open cfg now_ms ((k, set) ∷ m) =
    ap (λ r. if is_past cfg now_ms set then r else (k, set) ∷ r) (not_due-open cfg now_ms m)

emptied-save_due :
    (now_ms : ℕ) (st : Engine) → emptied (save_due now_ms st) ≡ written now_ms (emptied st)
unfolding save_due written add64
emptied-save_due now_ms st =
    emptied-if (st.profile_dirty && leb ((st.profile_save_ms + 60000) % 2 ^ 64) now_ms) _ st _
      (emptied st) refl refl

-- One window: its sets are finished, whatever the windows hold by then.
close_due-emptied :
    (cfg : EngineConfig) (o : Oracles) (now : Clock) (st : Engine) (m : List (Text × AggSet))
    → st.cfg ≡ cfg
    → emptied (close_due o now st m) ≡ finish_all o now (emptied st) (past_sets cfg now.ms m)
close_due-emptied cfg o now st m same =
    ap emptied (close_due-finish_all cfg o now st m same)
    ∙ emptied-finish_all o now st (past_sets cfg now.ms m)

flush_due-emptied :
    (o : Oracles) (now : Clock) (st : Engine)
    → emptied (flush_due o now st)
      ≡ written now.ms (
          finish_all o now
            (emptied st)
            (past_sets st.cfg now.ms st.short_sets ++ past_sets st.cfg now.ms st.long_sets))
unfolding flush_due
flush_due-emptied o now st =
    let past_short = past_sets st.cfg now.ms st.short_sets in
    let past_long = past_sets st.cfg now.ms st.long_sets in
    let closed = close_due o now st st.short_sets in
    let w = close_due-windows o now st st.short_sets in
    let short = record closed { short_sets = not_due closed.cfg now.ms closed.short_sets } in
    let closed_long = close_due o now short short.long_sets in
    emptied-save_due now.ms
      (record closed_long { long_sets = not_due closed_long.cfg now.ms closed_long.long_sets })
    ∙ ap (written now.ms) (
        close_due-emptied st.cfg o now short short.long_sets (ap (λ v. v.0) w)
        ∙ ap (λ m. finish_all o now (emptied closed) (past_sets st.cfg now.ms m)) (ap (λ v. v.2) w)
        ∙ ap (λ x. finish_all o now x past_long)
            (close_due-emptied st.cfg o now st st.short_sets refl)
        ∙ sym (finish_all-append o now (emptied st) past_short past_long))

-- A flush keeps exactly the sets whose window and grace are not over, in their order; and the rest of
-- the engine comes out as it does when the sets that are over are finished one after the other, those
-- of the short window first, each once, and what is known of the operators is then written.
pub flush_due-closes :
    (o : Oracles) (now : Clock) (st : Engine)
    → ((flush_due o now st).short_sets ≡ open_sets st.cfg now.ms st.short_sets)
      × ((flush_due o now st).long_sets ≡ open_sets st.cfg now.ms st.long_sets)
      × (emptied (flush_due o now st)
          ≡ written now.ms (
              finish_all o now
                (emptied st)
                (past_sets st.cfg now.ms st.short_sets ++ past_sets st.cfg now.ms st.long_sets)))
flush_due-closes o now st =
    let w = flush_due-windows o now st in
    (
      ap (λ v. v.1) w ∙ not_due-open st.cfg now.ms st.short_sets,
      ap (λ v. v.2) w ∙ not_due-open st.cfg now.ms st.long_sets,
      flush_due-emptied o now st,
    )
