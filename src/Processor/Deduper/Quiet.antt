-- ===== src/Processor/Deduper/Quiet.antt =====
-- No event goes through twice within the window.
use audit_forwarder.Prelude.{
  ℕ, ◌+◌, ◌*◌, ◌≤◌, ◌<◌, ◌≡◌, refl, sym, subst, ◌∙◌, ap, arith, true, false, false≢true, some, List,
  [], ◌∷◌, inl, inr, Bool-cases, ltb, lt→ltb, Text, text_eq,
}
use audit_forwarder.Maps.{find_key, find_key-insert_same, find_key-insert_other, some_same}
use audit_forwarder.Audit.{AuditEvent}
use audit_forwarder.Processor.Deduper.{Deduper, repeat_key, collect_old, is_repeat, dedup}

-- An entry that is not old is still there.
find_key-collect_old :
    (w now t : ℕ) (l : List (Text × ℕ)) (k : Text)
    → now ≤ t + w * 10
    → find_key l k ≡ some t
    → find_key (collect_old w now l) k ≡ some t
unfolding find_key collect_old
find_key-collect_old w now t [] k le h = h
find_key-collect_old w now t ((j, s) ∷ l) k le h = elim (Bool-cases (text_eq j k)) [
  | inl here ↦
      let same : s ≡ t = some_same s t (rw here at h) in
      let young : ltb (s + w * 10) now ≡ false = rw same (ground arith) in
      rw young (rw here (ap some same))
  | inr away ↦ elim (Bool-cases (ltb (s + w * 10) now)) [
    | inl old ↦ rw old (find_key-collect_old w now t l k le (rw away at h))
    | inr young ↦ rw young (rw away (find_key-collect_old w now t l k le (rw away at h)))
  ]
]

-- Calls at times that never go back and stay below `last`.
unfoldable pub Calls : ℕ → ℕ → List (ℕ × AuditEvent) → Type 0
Calls first last [] = first < last
Calls first last ((now, ev) ∷ cs) = (first ≤ now) × Calls now last cs

pub dedup_all : Deduper → List (ℕ × AuditEvent) → Deduper
dedup_all d [] = d
dedup_all d ((now, ev) ∷ cs) = dedup_all (dedup now d ev).1 cs

-- The key was let through at `t`.
Seen : Deduper → Text → ℕ → Type 0
Seen d k t = find_key d.seen k ≡ some t

dedup-Seen :
    (d : Deduper) (k : Text) (t now : ℕ) (ev : AuditEvent)
    → Seen d k t
    → now < t + d.window
    → Seen (dedup now d ev).1 k t × ((dedup now d ev).1.window ≡ d.window)
unfolding dedup Seen
dedup-Seen d k t now ev h low =
    elim (Bool-cases (is_repeat d.window now (find_key d.seen (repeat_key ev)))) [
      | inl again ↦ rw again (h, refl)
      | inr fresh ↦ rw fresh (
        find_key-collect_old d.window now t _ k (omega arith)
            (find_key-insert_other d.seen (repeat_key ev) k now (λ same. clash same fresh) ∙ h),
        refl,
      )
    ]
  where
    clash : repeat_key ev ≡ k → is_repeat d.window now (find_key d.seen (repeat_key ev)) ≡ false → ⊥
    clash same fresh =
        let found : find_key d.seen k ≡ some t = h in
        false≢true (sym (rw (same, found) at fresh) ∙ lt→ltb now (t + d.window) low)

first_last : (first last : ℕ) (cs : List (ℕ × AuditEvent)) → Calls first last cs → first < last
unfolding Calls
first_last first last [] h = h
first_last first last ((now, ev) ∷ cs) h = omega (arith, h.0, first_last now last cs h.1)

dedup_all-Seen :
    (d : Deduper) (k : Text) (t first last : ℕ) (cs : List (ℕ × AuditEvent))
    → Seen d k t
    → Calls first last cs
    → last ≤ t + d.window
    → Seen (dedup_all d cs) k t × ((dedup_all d cs).window ≡ d.window)
unfolding dedup_all Calls
dedup_all-Seen d k t first last [] h calls le = (h, refl)
dedup_all-Seen d k t first last ((now, ev) ∷ cs) h calls le =
    let low : now < t + d.window = omega (arith, le, first_last now last cs calls.1) in
    let one = dedup-Seen d k t now ev h low in
    let rest =
      dedup_all-Seen (dedup now d ev).1 k t now last cs one.0 calls.1
        (subst (λ w. last ≤ t + w) (sym one.1) le) in
    (rest.0, rest.1 ∙ one.1)

-- What was let through is noted.
dedup-noted :
    (d : Deduper) (ev : AuditEvent) (t : ℕ)
    → (dedup t d ev).0 ≡ true
    → Seen (dedup t d ev).1 (repeat_key ev) t × ((dedup t d ev).1.window ≡ d.window)
unfolding dedup Seen
dedup-noted d ev t through =
    elim (Bool-cases (is_repeat d.window t (find_key d.seen (repeat_key ev)))) [
      | inl again ↦ absurd (false≢true (rw again at through))
      | inr fresh ↦ rw fresh (
        find_key-collect_old d.window t t _ (repeat_key ev) (omega arith)
            (find_key-insert_same d.seen (repeat_key ev) t),
        refl,
      )
    ]

repeat-dropped :
    (d : Deduper) (ev : AuditEvent) (t now : ℕ)
    → Seen d (repeat_key ev) t
    → now < t + d.window
    → (dedup now d ev).0 ≡ false
unfolding dedup Seen
repeat-dropped d ev t now seen low =
    let found : find_key d.seen (repeat_key ev) ≡ some t = seen in
    rw (dedup, found, lt→ltb now (t + d.window) low) refl

-- After an event went through at a time, and whatever calls follow in the order of the clock, no
-- event with its key goes through before the window is over.
pub dedup-quiet :
    (d : Deduper) (ev again : AuditEvent) (t now : ℕ) (cs : List (ℕ × AuditEvent))
    → (dedup t d ev).0 ≡ true
    → repeat_key again ≡ repeat_key ev
    → Calls t (now + 1) cs
    → now < t + d.window
    → (dedup now (dedup_all (dedup t d ev).1 cs) again).0 ≡ false
dedup-quiet d ev again t now cs through same calls low =
    let first = dedup-noted d ev t through in
    let on =
      dedup_all-Seen (dedup t d ev).1 (repeat_key ev) t t (now + 1) cs first.0 calls
        (subst (λ w. now + 1 ≤ t + w) (sym first.1) (omega (arith, low))) in
    let after = dedup_all (dedup t d ev).1 cs in
    repeat-dropped after again t now (subst (λ k. Seen after k t) (sym same) on.0)
      (subst (λ w. now < t + w) (sym (on.1 ∙ first.1)) low)
