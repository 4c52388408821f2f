-- ===== src/Processor/Aggregator/Bounds.antt =====
-- How many events a bucket of the aggregator holds (client/src/processor/processor.cpp).
use audit_forwarder.Prelude.{
  ℕ, ◌+◌, ◌≤◌, ◌<◌, arith, Option, none, some, [], ◌∷◌, ◌++◌, All, length, length-append, ltb, leb,
  leb_false→lt, Text, Bool-cases, inl, inr,
}
use audit_forwarder.Maps.{find_key, insert_key-All, erase_key-All}
use audit_forwarder.Audit.{AuditEvent}
use audit_forwarder.Processor.Aggregator.{
  Bucket, Aggregator, agg_key, closing, open_bucket, extend, aggregate_in, aggregate,
}

-- At least one event, and fewer than the limit.
abbrev pub IsRoomy : ℕ → Text × Bucket → Type 0
IsRoomy limit p = (1 ≤ length p.1.events) × (length p.1.events < limit)

abbrev pub IsBounded : Aggregator → Type 0
IsBounded a = All (IsRoomy a.max) a.buckets

open_bucket-IsBounded :
    (now : ℕ) (a : Aggregator) (k : Text) (ev : AuditEvent)
    → 2 ≤ a.max
    → IsBounded a
    → IsBounded (open_bucket now a k ev).1
unfolding open_bucket
open_bucket-IsBounded now a k ev two h =
    insert_key-All (IsRoomy a.max) a.buckets k _ h (omega arith, omega arith)

extend-IsBounded :
    (now : ℕ) (a : Aggregator) (k : Text) (b : Bucket) (ev : AuditEvent)
    → IsBounded a
    → IsBounded (extend now a k b ev).1
unfolding extend
extend-IsBounded now a k b ev h = elim (Bool-cases (leb a.max (length (b.events ++ (ev ∷ []))))) [
  | inl full ↦ rw full (erase_key-All (IsRoomy a.max) a.buckets k h)
  | inr room ↦
      let added = length-append b.events (ev ∷ []) in
      let some_event : 1 ≤ length (b.events ++ (ev ∷ [])) = omega (arith, added) in
      let below : length (b.events ++ (ev ∷ [])) < a.max = leb_false→lt _ _ room in
      rw room (insert_key-All (IsRoomy a.max) a.buckets k _ h (some_event, below))
]

aggregate_in-IsBounded :
    (now : ℕ) (a : Aggregator) (k : Text) (ev : AuditEvent) (o : Option Bucket)
    → 2 ≤ a.max
    → IsBounded a
    → IsBounded (aggregate_in now a k ev o).1
unfolding aggregate_in
aggregate_in-IsBounded now a k ev none two h = open_bucket-IsBounded now a k ev two h
aggregate_in-IsBounded now a k ev (some b) two h =
    elim (Bool-cases (ltb (b.first + a.window) now)) [
      | inl over ↦ rw over (open_bucket-IsBounded now a k (closing b.events ev) two h)
      | inr live ↦ rw live (extend-IsBounded now a k b ev h)
    ]

-- Where the limit of the aggregator is at least 2 and each of its buckets holds at least one event
-- and fewer events than the limit, the same holds of the state that it has after any event at any
-- time: a bucket that reaches the limit is closed at once.
pub aggregate-IsBounded :
    (now : ℕ) (a : Aggregator) (ev : AuditEvent)
    → 2 ≤ a.max
    → IsBounded a
    → IsBounded (aggregate now a ev).1
unfolding aggregate
aggregate-IsBounded now a ev two h =
    aggregate_in-IsBounded now a (agg_key ev) ev (find_key a.buckets (agg_key ev)) two h
