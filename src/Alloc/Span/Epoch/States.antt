-- ===== src/Alloc/Span/Epoch/States.antt =====
-- The epoch as a state and a counter, and what the marks do to them.
use scalloc.Common.{
  ℕ, ◌+◌, ◌%◌, ◌^◌, ◌<◌, ◌≡◌, Bool, true, false, ◌&&◌, ◌||◌, ◌==◌, if◌then◌else◌, arith,
}
use scalloc.Alloc.Span.Epoch.{
  hot_bit, full_bit, reuse_bit, last_value_bit, new_mark_hot, new_mark_full, new_mark_reuse,
  new_mark_floating, try_mark_floating, is_hot, is_full, is_reusable, is_floating_or_reusable,
}

pub data State : Type 0 where
  floating : State
  hot : State
  full : State
  reusable : State

abbrev pub state_bit : State → ℕ
state_bit floating = 0
state_bit hot = 2 ^ hot_bit
state_bit full = 2 ^ full_bit
state_bit reusable = 2 ^ reuse_bit

abbrev pub encode : State → ℕ → ℕ
encode st c = c + state_bit st

-- The counter behind a mark.
abbrev pub next : ℕ → ℕ
next c = (c + 1) % 2 ^ last_value_bit

-- The state that NewMarkHot and NewMarkFull need now, by the one that was read before.
abbrev pub leaves : State → State → Bool
leaves reusable reusable = true
leaves reusable _ = false
leaves _ floating = true
leaves _ _ = false

abbrev pub is_floating : State → Bool
is_floating floating = true
is_floating _ = false

abbrev pub same_state : State → State → Bool
same_state floating floating = true
same_state hot hot = true
same_state full full = true
same_state reusable reusable = true
same_state _ _ = false

module _ {c d : ℕ} (c_fits : c < 2 ^ 28) (d_fits : d < 2 ^ 28) where
  hot_marked :
      (seen now : State)
      → new_mark_hot (encode seen c) (encode now d)
        ≡ (if leaves seen now && c == d then (encode hot (next d), true) else (encode now d, false))
  unfolding new_mark_hot
  hot_marked reusable reusable = ground arith
  hot_marked _ _ = ground arith

  full_marked :
      (seen now : State)
      → new_mark_full (encode seen c) (encode now d) ≡ (
          if leaves seen now && c == d then (encode full (next d), true) else (encode now d, false))
  unfolding new_mark_full
  full_marked reusable reusable = ground arith
  full_marked _ _ = ground arith

  reuse_marked :
      (seen now : State)
      → new_mark_reuse (encode seen c) (encode now d) ≡ (
          if is_floating now && c == d
          then (encode reusable (next d), true)
          else (encode now d, false))
  unfolding new_mark_reuse
  reuse_marked reusable reusable = ground arith
  reuse_marked _ _ = ground arith

  floating_tried :
      (seen now : State)
      → try_mark_floating (encode seen c) (encode now d) ≡ (
          if same_state seen now && c == d
          then (encode floating d, true)
          else (encode now d, false))
  unfolding try_mark_floating
  floating_tried reusable reusable = ground arith
  floating_tried _ _ = ground arith

floating_marked :
    {d : ℕ} → d < 2 ^ 28 → (now : State) → new_mark_floating (encode now d) ≡ encode floating d
unfolding new_mark_floating
floating_marked h reusable = ground arith
floating_marked h _ = ground arith

-- On an epoch of a state and a counter of 28 bits, with an epoch that was read before: NewMarkHot and
-- NewMarkFull need the counter that was read, and the reusable state if that was read, else the
-- floating one; NewMarkReuse needs the counter that was read and the floating state. These three leave
-- their state and the counter counted up modulo 2 ^ 28. TryMarkFloating needs the state and the counter
-- that were read, and NewMarkFloating nothing; these two leave the floating state and the counter as
-- it was. A mark that lacks what it needs changes nothing and returns false.
pub marks_lem :
    (c d : ℕ) (seen now : State)
    → c < 2 ^ 28
    → d < 2 ^ 28
    → (new_mark_hot (encode seen c) (encode now d) ≡ (
        if leaves seen now && c == d then (encode hot (next d), true) else (encode now d, false)))
      × (new_mark_full (encode seen c) (encode now d) ≡ (
          if leaves seen now && c == d
          then (encode full (next d), true)
          else (encode now d, false)))
      × (new_mark_reuse (encode seen c) (encode now d) ≡ (
          if is_floating now && c == d
          then (encode reusable (next d), true)
          else (encode now d, false)))
      × (try_mark_floating (encode seen c) (encode now d) ≡ (
          if same_state seen now && c == d
          then (encode floating d, true)
          else (encode now d, false)))
      × (new_mark_floating (encode now d) ≡ encode floating d)
      × (next d < 2 ^ 28)
marks_lem c d seen now c_fits d_fits = (
  hot_marked c_fits d_fits seen now,
  full_marked c_fits d_fits seen now,
  reuse_marked c_fits d_fits seen now,
  floating_tried c_fits d_fits seen now,
  floating_marked d_fits now,
  omega arith,
)

-- The tests of an epoch read its state.
pub state_tests :
    (st : State) (c : ℕ)
    → c < 2 ^ 28
    → (is_hot (encode st c) ≡ same_state st hot)
      × (is_full (encode st c) ≡ same_state st full)
      × (is_reusable (encode st c) ≡ same_state st reusable)
      × (is_floating_or_reusable (encode st c) ≡ (is_floating st || same_state st reusable))
unfolding is_hot is_full is_reusable is_floating_or_reusable
state_tests reusable c h = (ground arith, ground arith, ground arith, ground arith)
state_tests _ c h = (ground arith, ground arith, ground arith, ground arith)
