-- ===== src/Rules/Window.antt =====
-- The times of a rule are those inside of the window.
use audit_forwarder.Prelude.{
  ℕ, ◌+◌, ◌-◌, ◌^◌, ◌≤◌, ◌<◌, ◌≡◌, refl, sym, ◌∙◌, ap, arith, true, false, List, [], ◌∷◌, ◌++◌, inl,
  inr, Bool-cases, leb, ltb, leb→le, leb_false→lt, lt→ltb, last_or, append_assoc, append-nil,
  if◌then◌else◌,
}
use audit_forwarder.Rules.Behavior.{u64_sub}
use audit_forwarder.Rules.Inspect.{drop_old, track}

-- The times that are no more than `window` seconds before `now`.
pub in_window : ℕ → ℕ → List ℕ → List ℕ
in_window window now [] = []
in_window window now (t ∷ ts) =
    let rest = in_window window now ts in if leb now (t + window) then t ∷ rest else rest

-- Times that never go back, from `first` on and up to `last`.
unfoldable pub AscendingWithin : ℕ → ℕ → List ℕ → Type 0
AscendingWithin first last [] = first ≤ last
AscendingWithin first last (t ∷ ts) = (first ≤ t) × AscendingWithin t last ts

first_last : (a b : ℕ) (ts : List ℕ) → AscendingWithin a b ts → a ≤ b
unfolding AscendingWithin
first_last a b [] h = h
first_last a b (t ∷ ts) h = omega (arith, h.0, first_last t b ts h.1)

-- Behind the first time inside of the window, all are.
in_window-all :
    (w now a : ℕ) (ts : List ℕ) → AscendingWithin a now ts → now ≤ a + w → in_window w now ts ≡ ts
unfolding in_window AscendingWithin
in_window-all w now a [] h le = refl
in_window-all w now a (t ∷ ts) h le = elim (Bool-cases (leb now (t + w))) [
  | inl y ↦ rw y (ap (◌∷◌ t) (in_window-all w now t ts h.1 (leb→le now (t + w) y)))
  | inr n ↦ absurd (omega (arith, h.0, le, leb_false→lt now (t + w) n))
]

u64_sub_lem : (now t : ℕ) → t ≤ now → now < 2 ^ 64 → u64_sub now t ≡ now - t
u64_sub_lem now t le small = omega arith

drop_old_lem :
    (w now a : ℕ) (ts : List ℕ)
    → now < 2 ^ 64
    → AscendingWithin a now ts
    → drop_old w now ts ≡ in_window w now ts
unfolding drop_old in_window AscendingWithin
drop_old_lem w now a [] small h = refl
drop_old_lem w now a (t ∷ ts) small h = elim (Bool-cases (leb now (t + w))) [
  | inl y ↦
      let le = leb→le now (t + w) y in
      let diff = u64_sub_lem now t (first_last t now ts h.1) small in
      let early : ltb w (u64_sub now t) ≡ false = rw diff (ground arith) in
      rw (y, early) (ap (◌∷◌ t) (sym (in_window-all w now t ts h.1 le)))
  | inr n ↦
      let gt = leb_false→lt now (t + w) n in
      let diff = u64_sub_lem now t (first_last t now ts h.1) small in
      let late : ltb w (u64_sub now t) ≡ true = rw diff (lt→ltb w (now - t) (omega arith)) in
      rw (n, late) (drop_old_lem w now t ts small h.1)
]

in_window-append :
    (w now : ℕ) (xs ys : List ℕ)
    → in_window w now (xs ++ ys) ≡ in_window w now xs ++ in_window w now ys
unfolding in_window
in_window-append w now [] ys = refl
in_window-append w now (t ∷ xs) ys = elim (Bool-cases (leb now (t + w))) [
  | inl y ↦ rw y (ap (◌∷◌ t) (in_window-append w now xs ys))
  | inr n ↦ rw n (in_window-append w now xs ys)
]

-- What is in_window later was in_window before.
in_window-in_window :
    (w old now : ℕ) (ts : List ℕ)
    → old ≤ now
    → in_window w now (in_window w old ts) ≡ in_window w now ts
unfolding in_window
in_window-in_window w old now [] le = refl
in_window-in_window w old now (t ∷ ts) le = elim (Bool-cases (leb old (t + w))) [
  | inl y ↦
      rw y (ap (λ r. if leb now (t + w) then t ∷ r else r) (in_window-in_window w old now ts le))
  | inr n ↦
      let gt = leb_false→lt old (t + w) n in
      let gone : leb now (t + w) ≡ false = ground arith in
      rw (n, gone) (in_window-in_window w old now ts le)
]

in_window-AscendingWithin :
    (w old a b : ℕ) (ts : List ℕ)
    → AscendingWithin a b ts
    → AscendingWithin a b (in_window w old ts)
unfolding in_window AscendingWithin
in_window-AscendingWithin w old a b [] h = h
in_window-AscendingWithin w old a b (t ∷ ts) h = elim (Bool-cases (leb old (t + w))) [
  | inl y ↦ rw y (h.0, in_window-AscendingWithin w old t b ts h.1)
  | inr n ↦ rw n (in_window-AscendingWithin w old a b ts (from_below a t b ts h.0 h.1))
]
  where
    from_below : (a t b : ℕ) (ts : List ℕ) → a ≤ t → AscendingWithin t b ts → AscendingWithin a b ts
    from_below a t b [] le h = omega arith
    from_below a t b (u ∷ ts) le h = (omega (arith, h.0), h.1)

snoc-AscendingWithin :
    (a b now : ℕ) (ts : List ℕ)
    → AscendingWithin a b ts
    → b ≤ now
    → AscendingWithin a now (ts ++ now ∷ [])
unfolding AscendingWithin
snoc-AscendingWithin a b now [] h le = (omega arith, omega arith)
snoc-AscendingWithin a b now (t ∷ ts) h le = (h.0, snoc-AscendingWithin t b now ts h.1 le)

-- One more hit: from the recent times of the past to the recent times of the past and now.
track_step :
    (w old now a : ℕ) (ts : List ℕ)
    → old ≤ now
    → now < 2 ^ 64
    → AscendingWithin a old ts
    → track w now (in_window w old ts) ≡ in_window w now (ts ++ now ∷ [])
unfolding track
track_step w old now a ts le small h =
    drop_old_lem w now a (in_window w old ts ++ now ∷ []) small (
      snoc-AscendingWithin a old now (in_window w old ts)
        (in_window-AscendingWithin w old a old ts h) le)
    ∙ in_window-append w now (in_window w old ts) (now ∷ [])
    ∙ ap (λ r. r ++ in_window w now (now ∷ [])) (in_window-in_window w old now ts le)
    ∙ sym (in_window-append w now ts (now ∷ []))

-- The hits of a rule at one time after the other.
pub track_all : ℕ → List ℕ → List ℕ → List ℕ
track_all w h [] = h
track_all w h (now ∷ ts) = track_all w (track w now h) ts

track_all-in_window :
    (w old last : ℕ) (past ts : List ℕ)
    → last < 2 ^ 64
    → AscendingWithin 0 old past
    → AscendingWithin old last ts
    → track_all w (in_window w old past) ts ≡ in_window w (last_or old ts) (past ++ ts)
unfolding track_all AscendingWithin
track_all-in_window w old last past [] small hp ht = ap (in_window w old) (sym (append-nil past))
track_all-in_window w old last past (now ∷ ts) small hp ht =
    let low : now < 2 ^ 64 = omega (arith, small, first_last now last ts ht.1) in
    ap (λ h. track_all w h ts) (track_step w old now 0 past ht.0 low hp)
    ∙ track_all-in_window w now last (past ++ now ∷ []) ts small
        (snoc-AscendingWithin 0 old now past hp ht.0) ht.1
    ∙ ap (in_window w (last_or now ts)) (append_assoc past (now ∷ []) ts)

-- When the times of the hits never go back and fit into 64 bits, the times that the rule keeps after
-- them are those of all of its hits that are no more than the window before the last one.
pub track_all_lem :
    (w last : ℕ) (ts : List ℕ)
    → last < 2 ^ 64
    → AscendingWithin 0 last ts
    → track_all w [] ts ≡ in_window w (last_or 0 ts) ts
unfolding AscendingWithin in_window
track_all_lem w last ts small h = track_all-in_window w 0 last [] ts small (omega arith) h
