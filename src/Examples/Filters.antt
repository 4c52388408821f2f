-- ===== src/Examples/Filters.antt =====
-- The theorems on the collectors' filters at concrete inputs.
use audit_forwarder.Prelude.{
  ◌≡◌, ◌↔◌, refl, arith, false, some, [], ◌∷◌, if◌then◌else◌, codes, text_eq,
}
use audit_forwarder.Maps.{find_key}
use audit_forwarder.Filter.Coalescer.{FileEventCoalescer, new_coalescer}
use audit_forwarder.Filter.Coalescer.Window.{Call, after_calls, accept-Coalesced}
use audit_forwarder.Filter.Coalescer
use audit_forwarder.Filter.Differ.{NetworkSnapshotDiffer, sweep}
use audit_forwarder.Filter.Differ
use audit_forwarder.Filter.Differ.Changes.{accept_lem}

abbrev fresh : FileEventCoalescer
fresh = new_coalescer 2

abbrev other_file : Call
other_file = record { path = codes "/b"; action = codes "write"; ts_us = 1500 }

accept-Coalesced_example :
    let d =
      after_calls (Coalescer.accept fresh (codes "/a") (codes "write") 1000).0 (other_file ∷ []) in
    Coalescer.accept d (codes "/a") (codes "write") 2000 ≡ (d, false)
unfolding new_coalescer Coalescer.accept
accept-Coalesced_example =
    accept-Coalesced fresh (codes "/a") (codes "write") 1000 2000 (other_file ∷ []) (omega arith)
      (omega arith) refl ((omega arith, omega arith), tt) (omega arith, omega arith)

abbrev one_open : NetworkSnapshotDiffer
one_open = record { state = (codes "c1", 5) ∷ [] }

accept_lem_example :
    (find_key (Differ.accept one_open (codes "c1") 8).0.state (codes "c2") ≡ (
      if text_eq (codes "c1") (codes "c2") then some 8 else find_key one_open.state (codes "c2")))
    × (((Differ.accept one_open (codes "c1") 8).1 ≡ false)
        ↔ (find_key one_open.state (codes "c1") ≡ some 8))
accept_lem_example = accept_lem one_open (codes "c1") 8 (codes "c2")
