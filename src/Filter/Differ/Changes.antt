-- ===== src/Filter/Differ/Changes.antt =====
-- A connection is reported when it is new or its state has changed, and forgotten when it is gone.
use audit_forwarder.Prelude.{
  ℕ, ◌≡◌, ◌↔◌, ◌⊎◌, refl, sym, ap, subst, ◌∙◌, arith, Bool, true, false, Option, none, some, List,
  [], ◌∷◌, if◌then◌else◌, is_empty, Text, text_eq, text_eq→≡, text_eq_refl, Bool-cases,
  Option-cases, inl, inr, false≢true,
}
use audit_forwarder.Maps.{put_key, find_key, find_key-put_same, find_key-put_other}
use audit_forwarder.Filter.Differ.{
  NetworkSnapshotDiffer, is_news, accept, emplace, keep_alive, sweep,
}

is_news_lem : (o : Option ℕ) (state : ℕ) → (is_news o state ≡ false) ↔ (o ≡ some state)
unfolding is_news
is_news_lem none state = (λ h. absurd (ground arith), λ h. absurd (ground arith))
is_news_lem (some old) state = (
  λ h. ap some (ground arith),
  λ h. let same : old ≡ state = ground arith in rw same (ground arith),
)

find_key-put_key :
    (l : List (Text × ℕ)) (key : Text) (state : ℕ) (k : Text)
    → find_key (put_key l key state) k ≡ (if text_eq key k then some state else find_key l k)
find_key-put_key l key state k = elim (Bool-cases (text_eq key k)) [
  | inl y ↦ rw y (
      subst (λ z. find_key (put_key l key state) z ≡ some state) (text_eq→≡ key k y)
        (find_key-put_same l key state))
  | inr n ↦
      rw n (find_key-put_other l key k state (λ e. false≢true (sym n ∙ rw e (text_eq_refl k))))
]

find_key-stored :
    (l : List (Text × ℕ)) (key : Text) (state : ℕ) (k : Text)
    → find_key l key ≡ some state
    → find_key l k ≡ (if text_eq key k then some state else find_key l k)
find_key-stored l key state k stored = elim (Bool-cases (text_eq key k)) [
  | inl y ↦ rw y (subst (λ z. find_key l z ≡ some state) (text_eq→≡ key k y) stored)
  | inr n ↦ rw n refl
]

-- After a snapshot entry the stored state of its connection is the entry's, every other connection
-- has the state it had, and the entry is not reported exactly when its state was stored already.
pub accept_lem :
    (d : NetworkSnapshotDiffer) (key : Text) (state : ℕ) (k : Text)
    → (find_key (accept d key state).0.state k
        ≡ (if text_eq key k then some state else find_key d.state k))
      × (((accept d key state).1 ≡ false) ↔ (find_key d.state key ≡ some state))
unfolding accept
accept_lem d key state k = elim (Bool-cases (is_news (find_key d.state key) state)) [
  | inl y ↦ rw y (
    find_key-put_key d.state key state k,
    (
      λ h. absurd (false≢true (sym h)),
      λ h. absurd (false≢true (sym ((is_news_lem (find_key d.state key) state).1 h) ∙ y)),
    ),
  )
  | inr n ↦
      let stored = (is_news_lem (find_key d.state key) state).0 n in
      rw n (find_key-stored d.state key state k stored, (λ h. stored, λ h. refl))
]

emplace_same :
    (next : List (Text × ℕ)) (k : Text) (o : Option ℕ)
    → (find_key next k ≡ none) ⊎ (find_key next k ≡ o)
    → find_key (emplace next k o) k ≡ o
unfolding emplace find_key
emplace_same next k none h = elim h [ inl n ↦ n | inr e ↦ e ]
emplace_same next k (some v) (inl n) = rw (n, find_key) (rw (text_eq_refl k) refl)
emplace_same next k (some v) (inr e) = rw (e, find_key) e

emplace_other :
    (next : List (Text × ℕ)) (k x : Text) (o : Option ℕ)
    → text_eq k x ≡ false
    → find_key (emplace next k o) x ≡ find_key next x
unfolding emplace find_key
emplace_other next k x none h = refl
emplace_other next k x (some v) h = elim (Option-cases (find_key next k)) [
  | inl n ↦ rw (n, find_key) (rw h refl)
  | inr (old, e) ↦ rw (e, find_key) refl
]

-- Text `x` is among the keys that are alive.
pub alive : Text → List Text → Bool
alive x [] = false
alive x (k ∷ keys) = if text_eq k x then true else alive x keys

either : (b : Bool) (o : Option ℕ) → (if b then o else o) ≡ o
either true o = refl
either false o = refl

abbrev Agrees : List (Text × ℕ) → List (Text × ℕ) → Type 0
Agrees state next = (x : Text) → (find_key next x ≡ none) ⊎ (find_key next x ≡ find_key state x)

emplace-Agrees :
    (state next : List (Text × ℕ)) (k : Text)
    → Agrees state next
    → Agrees state (emplace next k (find_key state k))
emplace-Agrees state next k a x = elim (Bool-cases (text_eq k x)) [
  | inl y ↦
      let same = text_eq→≡ k x y in
      inr (
        subst (λ z. find_key (emplace next k (find_key state k)) z ≡ find_key state z) same
          (emplace_same next k (find_key state k) (a k)))
  | inr n ↦ rw (emplace_other next k x (find_key state k) n) (a x)
]

keep_alive_lem :
    (state : List (Text × ℕ)) (keys : List Text) (next : List (Text × ℕ)) (x : Text)
    → Agrees state next
    → find_key (keep_alive state keys next) x
      ≡ (if alive x keys then find_key state x else find_key next x)
unfolding keep_alive alive
keep_alive_lem state [] next x a = refl
keep_alive_lem state (k ∷ keys) next x a =
    let next' = emplace next k (find_key state k) in
    keep_alive_lem state keys next' x (emplace-Agrees state next k a) ∙ step keys
  where
    step :
        (keys : List Text)
        → (if alive x keys
            then find_key state x
            else find_key (emplace next k (find_key state k)) x)
          ≡ (if alive x (k ∷ keys) then find_key state x else find_key next x)
    step keys = elim (Bool-cases (text_eq k x)) [
      | inl y ↦
          let same = text_eq→≡ k x y in
          let stored =
            subst (λ z. find_key (emplace next k (find_key state k)) z ≡ find_key state z) same
              (emplace_same next k (find_key state k) (a k)) in
          rw (y, stored) (either (alive x keys) (find_key state x))
      | inr n ↦ rw (n, emplace_other next k x (find_key state k) n) refl
    ]

-- After a sweep the connections that are alive have the state they had, and the others have none.
pub sweep_lem :
    (d : NetworkSnapshotDiffer) (alive_keys : List Text) (x : Text)
    → find_key (sweep d alive_keys).state x
      ≡ (if alive x alive_keys then find_key d.state x else none)
unfolding sweep find_key
sweep_lem d alive_keys x = stored d.state refl
  where
    stored :
        (l : List (Text × ℕ))
        → d.state ≡ l
        → find_key (if is_empty l then d else record { state = keep_alive l alive_keys [] }).state x
          ≡ (if alive x alive_keys then find_key l x else none)
    stored [] e = rw e (sym (either (alive x alive_keys) none))
    stored (p ∷ l) e = keep_alive_lem (p ∷ l) alive_keys [] x (λ z. inl refl)
