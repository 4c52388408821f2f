-- ===== src/Filter/Coalescer.antt =====
-- `FileEventCoalescer` (include/auditforwarder/collector_filter.h,
-- client/src/collector/collector_filter.cpp). Times are `u64`.
pub mod Window
use audit_forwarder.Prelude.{
  ℕ, ◌+◌, ◌-◌, ◌*◌, ◌%◌, ◌^◌, Bool, true, false, ◌&&◌, Option, none, some, List, [], ◌∷◌, ◌++◌, leb,
  ltb, ◌==◌, if◌then◌else◌, Text, length,
}
use audit_forwarder.Maps.{find_key, erase_key, put_key}

pub record FileEventCoalescer : Type 0 where
  pub window_us : ℕ
  pub last : List (Text × ℕ)
  pub order : List (ℕ × Text)

unfoldable pub new_coalescer : ℕ → FileEventCoalescer
new_coalescer window_ms = record { window_us = window_ms * 1000 % 2 ^ 64; last = []; order = [] }

-- `path + "\n" + action`.
unfoldable pub event_key : Text → Text → Text
event_key path action = path ++ (b'\n' ∷ action)

-- The record under the key is out of the window.
unfoldable pub stale : ℕ → ℕ → Option ℕ → Bool
stale window_us ts_us none = false
stale window_us ts_us (some t) = leb ((t + window_us) % 2 ^ 64) ts_us

-- The loop that takes entries out of the window off the front.
unfoldable pub evict : ℕ → ℕ → List (Text × ℕ) → List (ℕ × Text) → List (Text × ℕ) × List (ℕ × Text)
unfolding stale find_key erase_key
evict window_us ts_us last [] = (last, [])
evict window_us ts_us last ((t, key) ∷ order) =
    let kept = if stale window_us ts_us (find_key last key) then erase_key last key else last in
    let rest = evict window_us ts_us kept order in
    if leb t ts_us && leb window_us (ts_us - t) then rest else (last, (t, key) ∷ order)

-- The key was let through less than a window ago.
unfoldable pub recent : ℕ → ℕ → Option ℕ → Bool
recent window_us ts_us none = false
recent window_us ts_us (some t) = leb t ts_us && ltb (ts_us - t) window_us

unfoldable pub accept : FileEventCoalescer → Text → Text → ℕ → FileEventCoalescer × Bool
unfolding event_key evict recent find_key put_key
accept c path action ts_us =
    let key = event_key path action in
    let rest =
      evict c.window_us ts_us (put_key c.last key ts_us) (c.order ++ ((ts_us, key) ∷ [])) in
    if c.window_us == 0
    then (c, true)
    else if recent c.window_us ts_us (find_key c.last key)
    then (c, false)
    else (record c { last = rest.0; order = rest.1 }, true)

unfoldable pub clear : FileEventCoalescer → FileEventCoalescer
clear c = record c { last = []; order = [] }

unfoldable pub size : FileEventCoalescer → ℕ
size c = length c.last
