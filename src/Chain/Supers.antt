-- ===== src/Chain/Supers.antt =====
-- Super batches: every `super_batch_k` delivered batches are covered by one, in order, and each names
-- the root of the one before it.
use audit_forwarder.Prelude.{
  ℕ, ◌+◌, ◌≤◌, ◌<◌, ◌≡◌, refl, sym, ap, ◌∙◌, true, false, not, List, [], ◌∷◌, ◌++◌, append_assoc,
  append-nil, map, arith, All, All-append, length, length-append, leb, Text, Bool-cases, inl, inr,
}
use mathlib.Core.List.{map-append}
use audit_forwarder.Crypto.{OpenSsl}
use audit_forwarder.Merkle.{root_text}
use audit_forwarder.Audit.{AuditEvent, EventBatch}
use audit_forwarder.Chain.{
  Chain, ChainConfig, SuperBatch, init, note_batch, needs_super, flush_super, build_super_batch,
  finish_flush, enqueue, writes_files,
}
use audit_forwarder.Chain.Batches.{Call, run, step, step_cases}

-- From the root `h` the super batches lead to the root `k`, each over its own roots.
abbrev pub SuperLinked : OpenSsl → Text → List SuperBatch → Text → Type 0
SuperLinked ssl h [] k = k ≡ h
SuperLinked ssl h (sb ∷ sbs) k =
    (sb.prev_super_root ≡ h)
    × (sb.super_root ≡ root_text ssl sb.batch_roots)
    × SuperLinked ssl sb.super_root sbs k

-- The batch roots that the super batches cover, in order.
unfoldable pub covered : List SuperBatch → List Text
covered [] = []
covered (sb ∷ sbs) = sb.batch_roots ++ covered sbs

pub record Anchored (ssl : OpenSsl) (c : Chain) : Type 0 where
  pub files : writes_files c ≡ true
  pub size : 1 ≤ c.super_batch_k
  pub waiting : length c.pending_batch_roots < c.super_batch_k
  pub linked : SuperLinked ssl [] c.super_files c.last_super_root
  pub full : All (λ sb. length sb.batch_roots ≡ c.super_batch_k) c.super_files
  pub covers : covered c.super_files ++ c.pending_batch_roots ≡ map (λ b. b.merkle_root) c.delivered

covered-append :
    (sbs : List SuperBatch) (sb : SuperBatch)
    → covered (sbs ++ sb ∷ []) ≡ covered sbs ++ sb.batch_roots
unfolding covered
covered-append [] sb = append-nil sb.batch_roots
covered-append (a ∷ sbs) sb =
    ap (◌++◌ a.batch_roots) (covered-append sbs sb)
    ∙ sym (append_assoc a.batch_roots (covered sbs) sb.batch_roots)

module _ (ssl : OpenSsl) where
  SuperLinked-snoc :
      (h : Text) (sbs : List SuperBatch) (k : Text) (sb : SuperBatch)
      → SuperLinked ssl h sbs k
      → sb.prev_super_root ≡ k
      → sb.super_root ≡ root_text ssl sb.batch_roots
      → SuperLinked ssl h (sbs ++ sb ∷ []) sb.super_root
  SuperLinked-snoc h [] k sb l p q = (p ∙ l, q, refl)
  SuperLinked-snoc h (a ∷ sbs) k sb l p q =
      (l.0, l.1, SuperLinked-snoc a.super_root sbs k sb l.2 p q)

  kept : (c : Chain) → 1 ≤ c.super_batch_k → not (leb c.super_batch_k 0) ≡ true
  kept c h = ground arith

  -- The roots that are covered or wait are those of `target`.
  record Filled (target : List Text) (c : Chain) : Type 0 where
    files : writes_files c ≡ true
    size : 1 ≤ c.super_batch_k
    linked : SuperLinked ssl [] c.super_files c.last_super_root
    full : All (λ sb. length sb.batch_roots ≡ c.super_batch_k) c.super_files
    covers : covered c.super_files ++ c.pending_batch_roots ≡ target

  noted_roots :
      (c : Chain) (b : EventBatch)
      → 1 ≤ c.super_batch_k
      → (note_batch c b).pending_batch_roots ≡ c.pending_batch_roots ++ b.merkle_root ∷ []
  unfolding note_batch
  noted_roots c b h = rw (kept c h)

  note_batch-Filled :
      (c : Chain) (b : EventBatch)
      → Anchored ssl c
      → Filled (map (λ x. x.merkle_root) (c.delivered ++ b ∷ [])) (note_batch c b)
  unfolding note_batch writes_files
  note_batch-Filled c b a = record {
    files = a.files;
    size = a.size;
    linked = a.linked;
    full = a.full;
    covers =
        ap (◌++◌ (covered c.super_files)) (noted_roots c b a.size)
        ∙ sym (append_assoc (covered c.super_files) c.pending_batch_roots (b.merkle_root ∷ []))
        ∙ ap (λ rs. rs ++ b.merkle_root ∷ []) a.covers
        ∙ sym (map-append (λ x. x.merkle_root) c.delivered (b ∷ []));
  }

  flush_super-Filled :
      (now : ℕ) (target : List Text) (c : Chain)
      → Filled target c
      → length c.pending_batch_roots ≡ c.super_batch_k
      → Filled target (flush_super ssl now c)
  unfolding flush_super build_super_batch writes_files
  flush_super-Filled now target c f n =
      let sb = build_super_batch ssl now c c.pending_batch_ids c.pending_batch_roots in
      rw f.files (record {
        files = f.files;
        size = f.size;
        linked = SuperLinked-snoc [] c.super_files c.last_super_root sb f.linked refl refl;
        full = All-append _ c.super_files (sb ∷ []) f.full (n, tt);
        covers = append-nil _ ∙ covered-append c.super_files sb ∙ f.covers;
      })

  length-noted :
      (c : Chain) (b : EventBatch)
      → 1 ≤ c.super_batch_k
      → length (note_batch c b).pending_batch_roots ≡ length c.pending_batch_roots + 1
  length-noted c b h =
      ap length (noted_roots c b h) ∙ length-append c.pending_batch_roots (b.merkle_root ∷ [])

  needs_super→le :
      (c : Chain) → needs_super c ≡ true → c.super_batch_k ≤ length c.pending_batch_roots
  unfolding needs_super
  needs_super→le c h = ground arith

  needs_super→lt :
      (c : Chain)
      → 1 ≤ c.super_batch_k
      → needs_super c ≡ false
      → length c.pending_batch_roots < c.super_batch_k
  unfolding needs_super
  needs_super→lt c k h = ground arith

  same_size : (c : Chain) (b : EventBatch) → (note_batch c b).super_batch_k ≡ c.super_batch_k
  unfolding note_batch
  same_size c b = refl

  finish_flush-Anchored :
      (now : ℕ) (c : Chain) (b : EventBatch)
      → Anchored ssl c
      → Anchored ssl (finish_flush ssl now c b)
  unfolding finish_flush note_batch flush_super writes_files
  finish_flush-Anchored now c b a = elim (Bool-cases (needs_super (note_batch c b))) [
    | inl more ↦
        let reached : length (note_batch c b).pending_batch_roots ≡ c.super_batch_k =
          omega (arith, needs_super→le (note_batch c b) more, length-noted c b a.size, a.waiting) in
        let f = flush_super-Filled now _ (note_batch c b) (note_batch-Filled c b a) reached in
        rw (more, finish_flush)
          (record {
            files = f.files;
            size = f.size;
            waiting = a.size;
            linked = f.linked;
            full = f.full;
            covers = f.covers;
          })
    | inr few ↦
        let f = note_batch-Filled c b a in
        rw (few, finish_flush)
          (record {
            files = f.files;
            size = f.size;
            waiting = needs_super→lt (note_batch c b) a.size few;
            linked = f.linked;
            full = f.full;
            covers = f.covers;
          })
  ]

  enqueue-Anchored :
      (now : ℕ) (c : Chain) (ev : AuditEvent) → Anchored ssl c → Anchored ssl (enqueue ssl now c ev)
  unfolding enqueue writes_files
  enqueue-Anchored now c ev a = record {
    files = a.files;
    size = a.size;
    waiting = a.waiting;
    linked = a.linked;
    full = a.full;
    covers = a.covers;
  }

  run-Anchored_from :
      (c : Chain) (calls : List Call) → Anchored ssl c → Anchored ssl (run ssl c calls)
  unfolding run
  run-Anchored_from c [] a = a
  run-Anchored_from c (call ∷ calls) a = run-Anchored_from (step ssl c call) calls (
      step_cases ssl (Anchored ssl) c call (λ now ev h. enqueue-Anchored now c ev h)
        (λ now c' b _ h. finish_flush-Anchored now c' b h) a)

  -- With files written and super batches of `k ≥ 1` batches, after any calls each super batch covers
  -- exactly `k` batches, names the root of the super batch before it and carries the Merkle root of
  -- its batches; the batches that they cover, then those that wait, are all delivered batches in
  -- order; and fewer than `k` wait.
  pub run-Anchored :
      (cfg : ChainConfig) (k : ℕ) (calls : List Call)
      → writes_files (init cfg k) ≡ true
      → 1 ≤ k
      → Anchored ssl (run ssl (init cfg k) calls)
  unfolding init covered
  run-Anchored cfg k calls w h =
      run-Anchored_from (init cfg k) calls
        (record { files = w; size = h; waiting = h; linked = refl; full = tt; covers = refl })
