-- ===== src/Filter/Coalescer/Window.antt =====
-- One event for each key and window.
use audit_forwarder.Prelude.{
  ℕ, ◌+◌, ◌-◌, ◌≤◌, ◌<◌, ◌%◌, ◌^◌, ◌≡◌, refl, sym, ap, ◌∙◌, subst, arith, true, false, ◌&&◌, some,
  List, [], ◌∷◌, ◌++◌, All, leb, ◌==◌, if◌then◌else◌, Text, text_eq, text_eq→≡, text_eq_refl,
  false≢true, Bool-cases, inl, inr,
}
use audit_forwarder.Maps.{
  find_key, erase_key, put_key, find_key-erase_other, find_key-put_same, find_key-put_other,
}
use audit_forwarder.Filter.Coalescer.{FileEventCoalescer, event_key, stale, evict, recent, accept}

fresh-stale : (w ts now : ℕ) → ts + w < 2 ^ 64 → now < ts + w → stale w now (some ts) ≡ false
unfolding stale
fresh-stale w ts now fits soon =
    let same : (ts + w) % 2 ^ 64 ≡ ts + w = omega arith in rw same (ground arith)

-- What was let through less than a window ago is not evicted.
evict-keeps :
    (w now ts : ℕ) (k : Text) (last : List (Text × ℕ)) (order : List (ℕ × Text))
    → ts + w < 2 ^ 64
    → now < ts + w
    → find_key last k ≡ some ts
    → find_key (evict w now last order).0 k ≡ some ts
unfolding evict
evict-keeps w now ts k last [] fits soon h = h
evict-keeps w now ts k last ((t, key) ∷ order) fits soon h =
    elim (Bool-cases (leb t now && leb w (now - t))) [
      | inl y ↦ rw y (
          evict-keeps w now ts k
            (if stale w now (find_key last key) then erase_key last key else last) order fits soon
            (kept key))
      | inr n ↦ rw n h
    ]
  where
    kept :
        (key : Text)
        → find_key (if stale w now (find_key last key) then erase_key last key else last) k
          ≡ some ts
    kept key = elim (Bool-cases (stale w now (find_key last key))) [
      | inl y ↦ rw y (
          find_key-erase_other last key k (λ e. false≢true (
            sym (fresh-stale w ts now fits soon)
            ∙ ap (stale w now) (sym h ∙ ap (find_key last) (sym e))
            ∙ y))
          ∙ h)
      | inr n ↦ rw n h
    ]

-- The coalescer with this window has let the key through at the time `ts`.
record Noted (w ts : ℕ) (k : Text) (c : FileEventCoalescer) : Type 0 where
  window : c.window_us ≡ w
  noted : find_key c.last k ≡ some ts

accept-Noted_new :
    (c : FileEventCoalescer) (path action : Text) (ts : ℕ)
    → 0 < c.window_us
    → ts + c.window_us < 2 ^ 64
    → (accept c path action ts).1 ≡ true
    → Noted c.window_us ts (event_key path action) (accept c path action ts).0
unfolding accept
accept-Noted_new c path action ts wide fits h =
    let on : (c.window_us == 0) ≡ false = ground arith in
    elim (Bool-cases (recent c.window_us ts (find_key c.last (event_key path action)))) [
      | inl y ↦ absurd (false≢true (rw (on, y) at h))
      | inr n ↦
          rw (on, n)
            (record {
              window = refl;
              noted =
                  evict-keeps c.window_us ts ts (event_key path action)
                    (put_key c.last (event_key path action) ts)
                    (c.order ++ ((ts, event_key path action) ∷ [])) fits (omega arith)
                    (find_key-put_same c.last (event_key path action) ts);
            })
    ]

-- An event of a window: its time is not before `ts`, and less than the window after it.
abbrev pub Within : ℕ → ℕ → ℕ → Type 0
Within w ts now = (ts ≤ now) × (now < ts + w)

Within-recent : (w ts now : ℕ) → Within w ts now → recent w now (some ts) ≡ true
unfolding recent
Within-recent w ts now h = ground arith

accept-refused :
    (w ts : ℕ) (c : FileEventCoalescer) (path action : Text) (now : ℕ)
    → Within w ts now
    → Noted w ts (event_key path action) c
    → accept c path action now ≡ (c, false)
unfolding accept
accept-refused w ts c path action now h k =
    let wide : 0 < w = omega (arith, h.0, h.1) in
    let there : 0 < c.window_us = rw k.window wide in
    let on : (c.window_us == 0) ≡ false = ground arith in
    let seen : recent c.window_us now (find_key c.last (event_key path action)) ≡ true =
      rw k.noted (rw k.window (Within-recent w ts now h)) in
    rw (on, seen) refl

-- Whatever comes next inside the window leaves the note in place.
accept-Noted :
    (w ts : ℕ) (k : Text) (c : FileEventCoalescer) (path action : Text) (now : ℕ)
    → ts + w < 2 ^ 64
    → Within w ts now
    → Noted w ts k c
    → Noted w ts k (accept c path action now).0
unfolding accept
accept-Noted w ts k c path action now fits h note =
    elim (Bool-cases (text_eq (event_key path action) k)) [
      | inl y ↦
          let same = text_eq→≡ (event_key path action) k y in
          rw (accept-refused w ts c path action now h (subst (λ x. Noted w ts x c) (sym same) note))
            note
      | inr other ↦
          let wide : 0 < w = omega (arith, h.0, h.1) in
          let there : 0 < c.window_us = rw note.window wide in
          let on : (c.window_us == 0) ≡ false = ground arith in
          elim (Bool-cases (recent c.window_us now (find_key c.last (event_key path action)))) [
            | inl y ↦ rw (on, y) note
            | inr n ↦
                rw (on, n)
                  (record {
                    window = note.window;
                    noted =
                        evict-keeps c.window_us now ts k
                          (put_key c.last (event_key path action) now)
                          (c.order ++ ((now, event_key path action) ∷ [])) (rw note.window fits)
                          (rw note.window h.1)
                          (find_key-put_other c.last (event_key path action) k now
                              (λ e. false≢true (sym other ∙ rw e (text_eq_refl k)))
                            ∙ note.noted);
                  })
          ]
    ]

-- One call of `accept`.
pub record Call : Type 0 where
  pub path : Text
  pub action : Text
  pub ts_us : ℕ

-- The coalescer after a sequence of calls.
unfoldable pub after_calls : FileEventCoalescer → List Call → FileEventCoalescer
after_calls c [] = c
after_calls c (x ∷ calls) = after_calls (accept c x.path x.action x.ts_us).0 calls

after_calls-Noted :
    (w ts : ℕ) (k : Text) (c : FileEventCoalescer) (calls : List Call)
    → ts + w < 2 ^ 64
    → All (λ x. Within w ts x.ts_us) calls
    → Noted w ts k c
    → Noted w ts k (after_calls c calls)
unfolding after_calls
after_calls-Noted w ts k c [] fits h note = note
after_calls-Noted w ts k c (x ∷ calls) fits h note =
    after_calls-Noted w ts k (accept c x.path x.action x.ts_us).0 calls fits h.1
      (accept-Noted w ts k c x.path x.action x.ts_us fits h.0 note)

-- Where an event was let through at `ts` by a coalescer whose window is not 0 and does not take the
-- clock past 2^64, then after any further calls inside the window, for any files, an event of the
-- same path and action inside the window is refused and changes nothing.
pub accept-Coalesced :
    (c : FileEventCoalescer) (path action : Text) (ts now : ℕ) (calls : List Call)
    → 0 < c.window_us
    → ts + c.window_us < 2 ^ 64
    → (accept c path action ts).1 ≡ true
    → All (λ x. Within c.window_us ts x.ts_us) calls
    → Within c.window_us ts now
    → let d = after_calls (accept c path action ts).0 calls in accept d path action now ≡ (d, false)
accept-Coalesced c path action ts now calls wide fits through inside last =
    accept-refused c.window_us ts _ path action now last (
      after_calls-Noted c.window_us ts (event_key path action) _ calls fits inside
        (accept-Noted_new c path action ts wide fits through))
