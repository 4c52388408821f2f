-- ===== src/Collusion/Engine/Windows/Sound.antt =====
-- What the sets of a window hold.
use audit_forwarder.Prelude.{
  ℕ, ◌+◌, ◌-◌, ◌%◌, ◌^◌, ◌≤◌, ◌<◌, ◌≡◌, refl, sym, ◌∙◌, arith, true, false, none, some, List, [],
  ◌∷◌, ◌++◌, any, All, All-map, is_empty, Text, text_eq, text_eq_refl, Bool-cases, Option-cases,
  inl, inr,
}
use native.Mathlib.Nat.{mod-lt}
use audit_forwarder.Maps.{find_key, insert_key-All, find_key-All}
use audit_forwarder.Collusion.{AssetGroup, CleanEvent, AggSet}
use audit_forwarder.Collusion.Keywords.{match_asset_group}
use audit_forwarder.Collusion.Guards.{listed}
use audit_forwarder.Collusion.Sequence.Order.{
  Ascending, append_event_ordered-Ascending, append_event_ordered-All,
}
use audit_forwarder.Collusion.Engine.{add64}
use audit_forwarder.Collusion.Engine.Windows.{
  push_unique, window_start, window_key, empty_set, set_at, place, join_set, add_event,
}
use audit_forwarder.Collusion.Engine.Windows.Keys.{window_key_inj}

listed-append : (l m : List Text) (x : Text) → listed l x ≡ true → listed (l ++ m) x ≡ true
unfolding listed any
listed-append [] m x h = absurd (cc)
listed-append (y ∷ l) m x h = elim (Bool-cases (text_eq y x)) [
  | inl e ↦ rw e refl
  | inr n ↦ rw n (listed-append l m x (rw n at h))
]

listed_last : (l : List Text) (x : Text) → listed (l ++ x ∷ []) x ≡ true
unfolding listed any
listed_last [] x = rw (text_eq_refl x) refl
listed_last (y ∷ l) x = elim (Bool-cases (text_eq y x)) [
  | inl e ↦ rw e refl
  | inr n ↦ rw n (listed_last l x)
]

pub push_unique-listed : (l : List Text) (x : Text) → listed (push_unique l x) x ≡ true
unfolding push_unique
push_unique-listed l x = elim (Bool-cases (listed l x)) [
  | inl e ↦ rw e e
  | inr n ↦ rw n (listed_last l x)
]

pub push_unique-listed_old :
    (l : List Text) (x y : Text) → listed l y ≡ true → listed (push_unique l x) y ≡ true
unfolding push_unique
push_unique-listed_old l x y h = elim (Bool-cases (listed l x)) [
  | inl e ↦ rw e h
  | inr n ↦ rw n (listed-append l (x ∷ []) y h)
]

listed-is_empty : (l : List Text) (x : Text) → listed l x ≡ true → is_empty l ≡ false
unfolding listed any
listed-is_empty [] x h = sym h
listed-is_empty (y ∷ l) x h = refl

set_at-none : (m : List (Text × AggSet)) (k : Text) → find_key m k ≡ none → set_at m k ≡ empty_set
unfolding set_at
set_at-none m k e = rw (e, set_at) refl

set_at-some :
    (m : List (Text × AggSet)) (k : Text) (s : AggSet) → find_key m k ≡ some s → set_at m k ≡ s
unfolding set_at
set_at-some m k s e = rw (e, set_at) refl

module _ (groups : List AssetGroup) (kind : Text) (win : ℕ) where
  -- The set stands under the key of its asset group and start, and its events are of that group and
  -- that window, in time order, of the operators that it names.
  pub record IsFramed (p : Text × AggSet) : Type 0 where
    pub keyed : p.0 ≡ window_key p.1.asset_group kind win p.1.window_start_ms
    pub named : p.1.aggregate_key ≡ p.0
    pub of_kind : p.1.window_kind ≡ kind
    pub ends : p.1.window_end_ms ≡ add64 p.1.window_start_ms win
    pub inside : All (λ e. window_start e.ts_ms win ≡ p.1.window_start_ms) p.1.events
    pub grouped : All (λ e. match_asset_group groups e.res_key ≡ p.1.asset_group) p.1.events
    pub known : All (λ e. listed p.1.operator_ids e.oper_id ≡ true) p.1.events
    pub ascending : Ascending p.1.events

  -- A set that is there names an operator.
  pub record IsPlaced (p : Text × AggSet) : Type 0 where
    pub framed : IsFramed p
    pub joined : is_empty p.1.operator_ids ≡ false

  join_set-IsPlaced :
      (k : Text) (s : AggSet) (e : CleanEvent)
      → IsFramed (k, s)
      → window_start e.ts_ms win ≡ s.window_start_ms
      → match_asset_group groups e.res_key ≡ s.asset_group
      → IsPlaced (k, join_set s e)
  unfolding join_set
  join_set-IsPlaced k s e f start group = record {
    framed = record {
      keyed = f.keyed;
      named = f.named;
      of_kind = f.of_kind;
      ends = f.ends;
      inside =
          append_event_ordered-All (λ x. window_start x.ts_ms win ≡ s.window_start_ms) s.events e
            start f.inside;
      grouped =
          append_event_ordered-All (λ x. match_asset_group groups x.res_key ≡ s.asset_group)
            s.events e group f.grouped;
      known =
          append_event_ordered-All
            (λ x. listed (push_unique s.operator_ids e.oper_id) x.oper_id ≡ true) s.events e
            (push_unique-listed s.operator_ids e.oper_id)
            (All-map (λ x. listed s.operator_ids x.oper_id ≡ true)
              (λ x. listed (push_unique s.operator_ids e.oper_id) x.oper_id ≡ true) s.events
              (λ x. push_unique-listed_old s.operator_ids e.oper_id x.oper_id) f.known);
      ascending = append_event_ordered-Ascending s.events e f.ascending;
    };
    joined =
        listed-is_empty (push_unique s.operator_ids e.oper_id) e.oper_id
          (push_unique-listed s.operator_ids e.oper_id);
  }

  new_set-IsFramed :
      (ag : Text) (ws : ℕ) → IsFramed (window_key ag kind win ws, place ag kind win ws empty_set)
  unfolding place
  new_set-IsFramed ag ws = record {
    keyed = refl;
    named = refl;
    of_kind = refl;
    ends = refl;
    inside = tt;
    grouped = tt;
    known = tt;
    ascending = tt;
  }

  old_set :
      (ag : Text) (ws : ℕ) (s : AggSet)
      → is_empty s.operator_ids ≡ false
      → place ag kind win ws s ≡ s
  unfolding place
  old_set ag ws s h = rw h refl

  abbrev event_start : CleanEvent → ℕ
  event_start e = window_start e.ts_ms win

  abbrev placed_key : Text → CleanEvent → Text
  placed_key ag e = window_key ag kind win (event_start e)

  join_new :
      (ag : Text) (m : List (Text × AggSet)) (e : CleanEvent)
      → match_asset_group groups e.res_key ≡ ag
      → find_key m (placed_key ag e) ≡ none
      → IsPlaced (
        placed_key ag e,
        join_set (place ag kind win (event_start e) (set_at m (placed_key ag e))) e,
      )
  unfolding place window_start
  join_new ag m e group absent = rw (set_at-none m (placed_key ag e) absent) (
      join_set-IsPlaced (placed_key ag e) (place ag kind win (event_start e) empty_set) e
        (new_set-IsFramed ag (event_start e)) refl group)

  join_old :
      (ag : Text) (m : List (Text × AggSet)) (e : CleanEvent) (s : AggSet)
      → match_asset_group groups e.res_key ≡ ag
      → All IsPlaced m
      → find_key m (placed_key ag e) ≡ some s
      → IsPlaced (
        placed_key ag e,
        join_set (place ag kind win (event_start e) (set_at m (placed_key ag e))) e,
      )
  join_old ag m e s group h found =
      let old : IsPlaced (placed_key ag e, s) =
        find_key-All IsPlaced m (placed_key ag e) s h found in
      let same =
        window_key_inj ag s.asset_group kind win (event_start e) s.window_start_ms
          old.framed.keyed in
      rw (set_at-some m (placed_key ag e) s found) (
        rw (old_set ag (event_start e) s old.joined)
          (join_set-IsPlaced (placed_key ag e) s e old.framed same.1 (group ∙ same.0)))

  -- An event is put into a map of placed sets under its asset group: all the sets are placed again.
  pub add_event-IsPlaced :
      (ag : Text) (m : List (Text × AggSet)) (e : CleanEvent)
      → match_asset_group groups e.res_key ≡ ag
      → All IsPlaced m
      → All IsPlaced (add_event ag kind win m e)
  unfolding add_event
  add_event-IsPlaced ag m e group h =
      insert_key-All IsPlaced m (placed_key ag e) _ h
        (elim (Option-cases (find_key m (placed_key ag e))) [
          | inl absent ↦ join_new ag m e group absent
          | inr found ↦ join_old ag m e found.0 group h found.1
        ])

  -- Where the window has a length and its end does not wrap, the events of a placed set lie in it.
  pub IsPlaced-within :
      (p : Text × AggSet)
      → 0 < win
      → p.1.window_start_ms + win < 2 ^ 64
      → IsPlaced p
      → All (λ e. (p.1.window_start_ms ≤ e.ts_ms) × (e.ts_ms < p.1.window_end_ms)) p.1.events
  unfolding window_start add64
  IsPlaced-within p pos_win fits h =
      All-map (λ e. window_start e.ts_ms win ≡ p.1.window_start_ms)
        (λ e. (p.1.window_start_ms ≤ e.ts_ms) × (e.ts_ms < p.1.window_end_ms)) p.1.events
        (λ e at. bounds e.ts_ms at) h.framed.inside
    where
      bounds :
          (ts : ℕ)
          → ts - ts % win ≡ p.1.window_start_ms
          → (p.1.window_start_ms ≤ ts) × (ts < p.1.window_end_ms)
      bounds ts at =
          let below : ts % win < win = mod-lt ts pos_win in
          let end : p.1.window_end_ms ≡ (p.1.window_start_ms + win) % 2 ^ 64 = h.framed.ends in
          (omega arith, omega arith)
