-- ===== src/Examples/Processors.antt =====
-- The theorems on the client's processors at concrete inputs.
use audit_forwarder.Prelude.{arith, [], ◌∷◌, codes, ◌≡◌, refl, false}
use audit_forwarder.Processor.Aggregator.{Aggregator, aggregate}
use audit_forwarder.Processor.Aggregator.Bounds.{IsBounded, aggregate-IsBounded}
use audit_forwarder.Processor.Deduper.{Deduper, dedup}
use audit_forwarder.Processor.Deduper.Quiet.{Calls, dedup_all, dedup-quiet}
use audit_forwarder.Examples.{delete_event}

-- Two events of one key are waiting; the third fills the bucket.
abbrev waiting : Aggregator
waiting = record {
  window = 10;
  max = 3;
  buckets =
      (codes "2|4|rm|/b", record { events = delete_event ∷ delete_event ∷ []; first = 1; last = 2 })
      ∷ [];
}

aggregate-IsBounded_example : IsBounded (aggregate 5 waiting delete_event).1
aggregate-IsBounded_example =
    aggregate-IsBounded 5 waiting delete_event (omega arith) ((omega arith, omega arith), tt)

abbrev empty_deduper : Deduper
empty_deduper = record { window = 50; seen = [] }

-- Another event comes in between.
dedup-quiet_example :
    (dedup 20
      (dedup_all
        (dedup 5 empty_deduper delete_event).1
        ((7, record delete_event { command = codes "ls" }) ∷ []))
      (record delete_event { seq = 3 })).0
    ≡ false
unfolding Calls dedup
dedup-quiet_example =
    dedup-quiet empty_deduper delete_event (record delete_event { seq = 3 }) 5 20
      ((7, record delete_event { command = codes "ls" }) ∷ []) refl refl (omega arith, omega arith)
      (omega arith)
