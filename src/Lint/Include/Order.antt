-- ===== src/Lint/Include/Order.antt =====
-- Which orders of includes pass: the section is a function of the kinds of header seen before.
use scalloc.Common.{
  ℕ, List, [], ◌∷◌, Bool, true, false, not, ◌&&◌, ◌||◌, if◌then◌else◌, ◌≤◌, ◌≡◌, ◌≢◌, refl, arith,
}
use scalloc.Common.Text.{Text}
use scalloc.Lint.Include.{
  HeaderType, c_sys_header, cpp_sys_header, likely_my_header, possible_my_header, other_header,
  rank, IncludeState, check_next_include_order, reset_section, order_error,
}

-- The state after the headers of a list, the latest first, from a new section.
unfoldable pub after : List HeaderType → IncludeState → IncludeState
after [] s = reset_section s
after (h ∷ hs) s = (check_next_include_order h (after hs s)).0

abbrev is_c : HeaderType → Bool
is_c c_sys_header = true
is_c _ = false

abbrev is_cpp : HeaderType → Bool
is_cpp cpp_sys_header = true
is_cpp _ = false

abbrev is_mine : HeaderType → Bool
is_mine likely_my_header = true
is_mine possible_my_header = true
is_mine _ = false

abbrev is_other : HeaderType → Bool
is_other other_header = true
is_other _ = false

abbrev pub saw : (HeaderType → Bool) → List HeaderType → Bool
saw p [] = false
saw p (h ∷ hs) = p h || saw p hs

-- Another header was seen, or the file's own header behind a system header.
abbrev pub saw_late : List HeaderType → Bool
saw_late [] = false
saw_late (h ∷ hs) = saw_late hs || (is_other h || (is_mine h && (saw is_c hs || saw is_cpp hs)))

abbrev pub expected_rank : List HeaderType → ℕ
expected_rank hs =
    if saw_late hs
    then 4
    else if saw is_cpp hs
    then 3
    else if saw is_c hs
    then 2
    else if saw is_mine hs
    then 1
    else 0

step_rank :
    (h : HeaderType) (s : IncludeState) (late cpp c mine : Bool)
    → rank s.section
      ≡ (if late then 4 else if cpp then 3 else if c then 2 else if mine then 1 else 0)
    → rank (check_next_include_order h s).0.section ≡ (
        if late || (is_other h || (is_mine h && (c || cpp)))
        then 4
        else if is_cpp h || cpp
        then 3
        else if is_c h || c
        then 2
        else if is_mine h || mine
        then 1
        else 0)
unfolding check_next_include_order
step_rank c_sys_header s late cpp c mine e = ground arith
step_rank cpp_sys_header s late cpp c mine e = ground arith
step_rank likely_my_header s late cpp c mine e = ground arith
step_rank possible_my_header s late cpp c mine e = ground arith
step_rank other_header s late cpp c mine e = ground arith

rank-after :
    (hs : List HeaderType) (s : IncludeState) → rank (after hs s).section ≡ expected_rank hs
unfolding after reset_section
rank-after [] s = refl
rank-after (h ∷ hs) s =
    step_rank h (after hs s) (saw_late hs) (saw is_cpp hs) (saw is_c hs) (saw is_mine hs)
      (rank-after hs s)

-- What may follow the headers of a list: a C system header unless a C++ system header or a late one
-- was seen, a C++ system header unless a late one was seen, and any other kind.
abbrev pub may_follow : HeaderType → List HeaderType → Bool
may_follow c_sys_header hs = not (saw is_cpp hs || saw_late hs)
may_follow cpp_sys_header hs = not (saw_late hs)
may_follow _ hs = true

abbrev is_nil : Text → Bool
is_nil [] = true
is_nil (c ∷ s) = false

step_message :
    (h : HeaderType) (s : IncludeState) (hs : List HeaderType)
    → rank s.section ≡ expected_rank hs
    → (check_next_include_order h s).1 ≡ (if may_follow h hs then [] else order_error h s)
unfolding check_next_include_order
step_message c_sys_header s hs e = ground arith
step_message cpp_sys_header s hs e = ground arith
step_message _ s hs e = ground arith

-- After any includes since the last section start, `CheckNextIncludeOrder` gives no message exactly
-- when the next header may follow them by the rule above, and else the message that names both.
pub check_next_include_order_lem :
    (h : HeaderType) (hs : List HeaderType) (s : IncludeState)
    → (check_next_include_order h (after hs s)).1
      ≡ (if may_follow h hs then [] else order_error h (after hs s))
check_next_include_order_lem h hs s = step_message h (after hs s) hs (rank-after hs s)

-- The section never goes back, and the last header is kept only while the section stays.
pub check_next_include_order_mono :
    (h : HeaderType) (s : IncludeState)
    → (rank s.section ≤ rank (check_next_include_order h s).0.section)
      × ((rank s.section ≢ rank (check_next_include_order h s).0.section)
          → (check_next_include_order h s).0.last_header ≡ [])
      × ((check_next_include_order h s).1 ≢ []
          → ((check_next_include_order h s).0.section ≡ s.section)
            × ((check_next_include_order h s).0.last_header ≡ []))
unfolding check_next_include_order
check_next_include_order_mono c_sys_header s = ground arith
check_next_include_order_mono cpp_sys_header s = ground arith
check_next_include_order_mono likely_my_header s = ground arith
check_next_include_order_mono possible_my_header s = ground arith
check_next_include_order_mono other_header s = ground arith
