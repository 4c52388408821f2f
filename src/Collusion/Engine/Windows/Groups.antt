-- ===== src/Collusion/Engine/Windows/Groups.antt =====
-- The sets of a window as a grouping of the events: each event in the set of its asset group and
-- window, and in no other.
use audit_forwarder.Prelude.{
  ℕ, ◌≡◌, ◌≢◌, refl, sym, ap, ap₂, ◌∙◌, subst, Bool, true, false, ◌&&◌, List, [], ◌∷◌, ◌++◌,
  append-nil, ◌==◌, ==_iff, is_empty, Text, text_eq, text_eq→≡, text_eq_refl, Bool-cases,
  false≢true, inl, inr, if◌then◌else◌,
}
use mathlib.Core.List.{Perm, perm_middle}
use mathlib.Core.List.Perm
use audit_forwarder.Maps.{find_key, insert_key, find_key-insert_same, find_key-insert_other}
use audit_forwarder.Collusion.{AssetGroup, CleanEvent, AggSet}
use audit_forwarder.Collusion.Keywords.{match_asset_group}
use audit_forwarder.Collusion.Sequence.{append_event_ordered}
use audit_forwarder.Collusion.Sequence.Order.{append_event_ordered-perm}
use audit_forwarder.Collusion.Engine.Windows.{
  window_start, window_key, set_at, place, join_set, add_event,
}
use audit_forwarder.Collusion.Engine.Windows.Keys.{window_key_inj}

-- The events of the set under a key.
abbrev pub events_at : List (Text × AggSet) → Text → List CleanEvent
events_at m k = (set_at m k).events

set_at-insert_same :
    (m : List (Text × AggSet)) (k : Text) (s : AggSet) → set_at (insert_key m k s) k ≡ s
unfolding set_at
set_at-insert_same m k s = rw (find_key-insert_same m k s, set_at) refl

set_at-insert_other :
    (m : List (Text × AggSet)) (k x : Text) (s : AggSet)
    → k ≢ x
    → set_at (insert_key m k s) x ≡ set_at m x
unfolding set_at
set_at-insert_other m k x s n = rw (find_key-insert_other m k x s n, set_at) refl

place-events :
    (ag kind : Text) (win ws : ℕ) (s : AggSet) → (place ag kind win ws s).events ≡ s.events
unfolding place
place-events ag kind win ws s = elim (Bool-cases (is_empty s.operator_ids)) [
  | inl y ↦ rw y refl
  | inr n ↦ rw n refl
]

both_true : (a b : Bool) → (a && b) ≡ true → (a ≡ true) × (b ≡ true)
both_true true b h = (refl, h)
both_true false b h = absurd (false≢true h)

nothing_at : (l : List CleanEvent) (k : Text) → l ++ events_at [] k ≡ l
unfolding set_at find_key
nothing_at l k = append-nil l

module _ (groups : List AssetGroup) (kind : Text) (win : ℕ) where
  abbrev group_of : CleanEvent → Text
  group_of e = match_asset_group groups e.res_key

  abbrev key_of : CleanEvent → Text
  key_of e = window_key (group_of e) kind win (window_start e.ts_ms win)

  -- An event as it is taken: one with no asset group enters no set.
  abbrev pub enter : List (Text × AggSet) → CleanEvent → List (Text × AggSet)
  enter m e = if is_empty (group_of e) then m else add_event (group_of e) kind win m e

  abbrev pub enter_all : List (Text × AggSet) → List CleanEvent → List (Text × AggSet)
  enter_all m [] = m
  enter_all m (e ∷ events) = enter_all (enter m e) events

  -- The event is of this asset group and window.
  abbrev pub belongs : Text → ℕ → CleanEvent → Bool
  belongs ag ws e = text_eq (group_of e) ag && (window_start e.ts_ms win == ws)

  abbrev pub pick : Text → ℕ → List CleanEvent → List CleanEvent
  pick ag ws [] = []
  pick ag ws (e ∷ events) =
      let rest = pick ag ws events in if belongs ag ws e then e ∷ rest else rest

  add_event-own :
      (m : List (Text × AggSet)) (e : CleanEvent)
      → events_at (add_event (group_of e) kind win m e) (key_of e)
        ≡ append_event_ordered (events_at m (key_of e)) e
  unfolding add_event join_set
  add_event-own m e =
      ap (λ s. s.events) (set_at-insert_same m (key_of e) _)
      ∙ ap (λ l. append_event_ordered l e) {y = events_at m (key_of e)}
          (place-events (group_of e) kind win (window_start e.ts_ms win) (set_at m (key_of e)))

  add_event-other :
      (m : List (Text × AggSet)) (e : CleanEvent) (k : Text)
      → key_of e ≢ k
      → events_at (add_event (group_of e) kind win m e) k ≡ events_at m k
  unfolding add_event
  add_event-other m e k n = ap (λ s. s.events) (set_at-insert_other m (key_of e) k _ n)

  belongs-key_of :
      (ag : Text) (ws : ℕ) (e : CleanEvent)
      → belongs ag ws e ≡ true
      → key_of e ≡ window_key ag kind win ws
  belongs-key_of ag ws e h =
      let parts = both_true (text_eq (group_of e) ag) (window_start e.ts_ms win == ws) h in
      ap₂ (λ a w. window_key a kind win w) (text_eq→≡ (group_of e) ag parts.0)
        ((==_iff (window_start e.ts_ms win) ws).0 parts.1)

  key_of-belongs :
      (ag : Text) (ws : ℕ) (e : CleanEvent)
      → key_of e ≡ window_key ag kind win ws
      → belongs ag ws e ≡ true
  key_of-belongs ag ws e h =
      let same = window_key_inj (group_of e) ag kind win (window_start e.ts_ms win) ws h in
      let one : text_eq (group_of e) ag ≡ true = rw same.0 (text_eq_refl ag) in
      let two : (window_start e.ts_ms win == ws) ≡ true =
        (==_iff (window_start e.ts_ms win) ws).1 same.1 in
      rw (one, two) refl

  no_group :
      (ag : Text) (ws : ℕ) (e : CleanEvent)
      → is_empty ag ≡ false
      → is_empty (group_of e) ≡ true
      → belongs ag ws e ≡ false
  no_group ag ws e full none_of = elim (Bool-cases (belongs ag ws e)) [
    | inl y ↦
        let parts = both_true (text_eq (group_of e) ag) (window_start e.ts_ms win == ws) y in
        absurd
          (false≢true (sym full ∙ ap is_empty (sym (text_eq→≡ (group_of e) ag parts.0)) ∙ none_of))
    | inr n ↦ n
  ]

  enter-perm :
      (m : List (Text × AggSet)) (ag : Text) (ws : ℕ) (e : CleanEvent)
      → is_empty ag ≡ false
      → Perm (events_at (enter m e) (window_key ag kind win ws)) (
          if belongs ag ws e
          then e ∷ events_at m (window_key ag kind win ws)
          else events_at m (window_key ag kind win ws))
  enter-perm m ag ws e full = elim (Bool-cases (is_empty (group_of e))) [
    | inl y ↦ rw (y, no_group ag ws e full y) (Perm.refl _)
    | inr n ↦ elim (Bool-cases (belongs ag ws e)) [
      | inl b ↦
          rw (n, b)
            (subst
              (λ k. Perm (events_at (add_event (group_of e) kind win m e) k) (e ∷ events_at m k))
              (belongs-key_of ag ws e b)
              (subst (λ l. Perm l (e ∷ events_at m (key_of e))) (sym (add_event-own m e))
                (append_event_ordered-perm (events_at m (key_of e)) e)))
      | inr b ↦
          rw (n, b)
            (subst (λ l. Perm l (events_at m (window_key ag kind win ws)))
              (sym (
                add_event-other m e (window_key ag kind win ws)
                  (λ h. false≢true (sym b ∙ key_of-belongs ag ws e h))))
              (Perm.refl _))
    ]
  ]

  enter_all-from :
      (m : List (Text × AggSet)) (ag : Text) (ws : ℕ) (events : List CleanEvent)
      → is_empty ag ≡ false
      → Perm
          (events_at (enter_all m events) (window_key ag kind win ws))
          (pick ag ws events ++ events_at m (window_key ag kind win ws))
  enter_all-from m ag ws [] full = Perm.refl _
  enter_all-from m ag ws (e ∷ events) full =
      Perm.trans (enter_all-from (enter m e) ag ws events full) (
        Perm.trans (Perm.append_left (pick ag ws events) (enter-perm m ag ws e full))
          (moved (belongs ag ws e)))
    where
      moved :
          (b : Bool)
          → Perm
              (pick ag ws events
                ++ (if b
                    then e ∷ events_at m (window_key ag kind win ws)
                    else events_at m (window_key ag kind win ws)))
              ((if b then e ∷ pick ag ws events else pick ag ws events)
                ++ events_at m (window_key ag kind win ws))
      moved true = perm_middle (pick ag ws events) (events_at m (window_key ag kind win ws))
      moved false = Perm.refl _

  -- From empty maps on, the set under the key of an asset group and a start holds exactly the events
  -- that were taken of that group and window, each as often, whatever the order of their arrival.
  pub enter_all-perm :
      (ag : Text) (ws : ℕ) (events : List CleanEvent)
      → is_empty ag ≡ false
      → Perm (events_at (enter_all [] events) (window_key ag kind win ws)) (pick ag ws events)
  enter_all-perm ag ws events full =
      subst (λ l. Perm (events_at (enter_all [] events) (window_key ag kind win ws)) l)
        (nothing_at (pick ag ws events) (window_key ag kind win ws))
        (enter_all-from [] ag ws events full)
