-- ===== src/Examples/Evidence.antt =====
-- The theorems on the evidence chain and its trees at concrete inputs.
use audit_forwarder.Prelude.{
  ◌≡◌, ◌⊎◌, refl, arith, true, none, some, List, [], ◌∷◌, ◌++◌, get_or, Text, codes, text_eq,
  Option,
}
use audit_forwarder.Crypto.{sha256_hex}
use audit_forwarder.Hex.{to_hex, hex_char}
use audit_forwarder.Merkle.{root_hex, proof, verify, fold_proof, join}
use audit_forwarder.Merkle.Proof.{verify-proof}
use audit_forwarder.Merkle.Binding.{Collision, hashed, verify-binding}
use audit_forwarder.Merkle.Padding.{root_hex-repeat}
use audit_forwarder.Audit.{EventBatch}
use audit_forwarder.Chain.{Chain, init, set_hmac_key, enqueue, flush, writes_files}
use audit_forwarder.Chain.Batches.{Call, submits, flushes, run, history}
use audit_forwarder.Chain.Links.{Linked, run-Linked}
use audit_forwarder.Chain.Supers.{Anchored, run-Anchored}
use audit_forwarder.Chain.Signing.{BatchAccepted, flush-verify}
use audit_forwarder.Examples.{sum_ssl, delete_event, two_a_batch}

abbrev three : List Text
three = codes "x" ∷ codes "y" ∷ codes "z" ∷ []

verify-proof_example :
    (root : Text) × (path : List Text) × (root_hex sum_ssl three ≡ some root)
    × (proof sum_ssl three 2 ≡ some path)
    × (verify sum_ssl root (get_or three 2 []) 2 path ≡ true)
verify-proof_example = verify-proof sum_ssl three 2 (omega arith)

abbrev two : Text
two = 2 ∷ []

abbrev one_one : Text
one_one = 1 ∷ 1 ∷ []

abbrev path_one : List Text
path_one = codes "00" ∷ []

abbrev root_one : Text
root_one = fold_proof sum_ssl (sha256_hex sum_ssl two) 0 path_one

-- Two leaves that the stand-in hash does not tell apart are accepted for one place.
verify-binding_example :
    (two ≡ one_one)
    ⊎ Collision sum_ssl (hashed sum_ssl two 0 path_one) (hashed sum_ssl one_one 0 path_one)
unfolding verify fold_proof join sha256_hex to_hex hex_char text_eq
verify-binding_example =
    verify-binding sum_ssl root_one two one_one 0 path_one path_one refl refl refl

root_hex-repeat_example :
    root_hex sum_ssl ((codes "x" ∷ codes "y" ∷ []) ++ codes "z" ∷ codes "z" ∷ [])
    ≡ root_hex sum_ssl ((codes "x" ∷ codes "y" ∷ []) ++ codes "z" ∷ [])
root_hex-repeat_example =
    root_hex-repeat sum_ssl (codes "x" ∷ codes "y" ∷ []) (codes "z") refl (omega arith)

abbrev calls : List Call
calls =
    submits 1 2 3 delete_event
    ∷ submits 4 5 6 delete_event
    ∷ submits 7 8 9 delete_event
    ∷ flushes 10 11
    ∷ []

run-Linked_example :
    let c = run sum_ssl (init two_a_batch 2) calls in
    Linked sum_ssl 0 [] (history c) c.last_seq c.last_event_hash
run-Linked_example = run-Linked sum_ssl two_a_batch 2 calls

run-Anchored_example : Anchored sum_ssl (run sum_ssl (init two_a_batch 2) calls)
unfolding writes_files init
run-Anchored_example = run-Anchored sum_ssl two_a_batch 2 calls refl (omega arith)

-- A chain with an HMAC key and one event that waits.
abbrev keyed : Chain
keyed = enqueue sum_ssl 1 (set_hmac_key (codes "k") (init two_a_batch 2)) delete_event

abbrev flushed : Chain × Option EventBatch
flushed = flush sum_ssl 2 3 keyed

abbrev batch_of : Option EventBatch → EventBatch
batch_of none = record { id = []; created_at = 0; events = []; merkle_root = []; signature = [] }
batch_of (some b) = b

flush-verify_example : BatchAccepted sum_ssl keyed (batch_of flushed.1)
unfolding flush enqueue set_hmac_key init
flush-verify_example = flush-verify sum_ssl 2 3 keyed flushed.0 (batch_of flushed.1) refl
