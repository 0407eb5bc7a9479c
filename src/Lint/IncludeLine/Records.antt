-- ===== src/Lint/IncludeLine/Records.antt =====
-- What `CheckIncludeLine` of tools/cpplint.py records of an include.
use scalloc.Common.{
  ℕ, Option, none, some, Bool, ◌≡◌, refl, ap, sym, ◌∙◌, subst, Option-cases, Bool-cases, inl, inr,
  if◌then◌else◌, arith,
}
use scalloc.Common.Text.{Text, text_eq, text_eq_iff}
use scalloc.Common.Dict.{get, text_key, get-put}
use scalloc.Lint.World.{Exn, Outcome, ok, raised, ◌>>=◌, World, ErrorFn}
use scalloc.Lint.Cleanse.{CleansedLines}
use scalloc.Lint.Include.{
  HeaderType, c_sys_header, cpp_sys_header, likely_my_header, possible_my_header, other_header,
  IncludeState, check_next_include_order, set_last_header, canonicalize_alphabetical_order,
}
use scalloc.Lint.IncludeLine.{
  check_new_include, check_include, classify_include, enter_include, report_order, report_alpha,
  report_again,
}

-- A property of the state that a call returns, if it returns.
data Returns (P : IncludeState → Type 0) : Outcome (World × IncludeState) → Type 0 where
  returns : (w : World) (s : IncludeState) → P s → Returns P (ok (w, s))
  raises : (e : Exn) → Returns P (raised e)

Returns-ok :
    (P : IncludeState → Type 0) (o : Outcome World) (s : IncludeState)
    → P s
    → Returns P (o >>= λ w. ok (w, s))
Returns-ok P (ok w) s h = returns w s h
Returns-ok P (raised e) s h = raises e

Returns-two :
    (P : IncludeState → Type 0) (o : Outcome World) (f : World → Outcome World) (s : IncludeState)
    → P s
    → Returns P (o >>= λ w. f w >>= λ v. ok (v, s))
Returns-two P (ok w) f s h = Returns-ok P (f w) s h
Returns-two P (raised e) f s h = raises e

Returns-inv :
    (P : IncludeState → Type 0) (w : World) (s : IncludeState) → Returns P (ok (w, s)) → P s
Returns-inv P _ _ (returns w s h) = h

order-lines : (h : HeaderType) (s : IncludeState) → (check_next_include_order h s).0.lines ≡ s.lines
unfolding check_next_include_order
order-lines c_sys_header s = ground arith
order-lines cpp_sys_header s = ground arith
order-lines likely_my_header s = ground arith
order-lines possible_my_header s = ground arith
order-lines other_header s = ground arith

abbrev first_line : Option ℕ → ℕ → ℕ
first_line none linenum = linenum
first_line (some n) linenum = n

-- The dict afterwards: the include with the number of its first line, the others as they were.
abbrev pub Recorded : Text → ℕ → IncludeState → IncludeState → Type 0
Recorded include linenum s s' =
    (other : Text)
    → get other s'.lines ≡ (
        if text_eq include other
        then some (first_line (get include s.lines) linenum)
        else get other s.lines)

recorded :
    (repository include : Text) (linenum : ℕ) (is_system : Bool) (s : IncludeState) (path : Text)
    → get include s.lines ≡ none
    → Recorded include linenum s
        (set_last_header path ((enter_include repository linenum include is_system s).0))
unfolding enter_include set_last_header
recorded repository include linenum is_system s path e other =
    ap (get other) (order-lines (classify_include repository include is_system) _)
    ∙ (get-put include other linenum s.lines
        ∙ ap (λ o. if text_eq include other then some (first_line o linenum) else get other s.lines)
            (sym e))

module _ (report : ErrorFn) (filename repository : Text) (clean_lines : CleansedLines)
    (linenum : ℕ) where
  check_new_include-Recorded :
      (include : Text) (is_system : Bool) (s : IncludeState) (w : World)
      → get include s.lines ≡ none
      → Returns
          (Recorded include linenum s)
          (check_new_include report filename repository clean_lines linenum include is_system s w)
  unfolding check_new_include
  check_new_include-Recorded include is_system s w e =
      let entered = enter_include repository linenum include is_system s in
      Returns-two (Recorded include linenum s)
        (report_order report filename repository linenum (entered.1) w)
        (λ w₁. report_alpha report filename clean_lines linenum include (entered.0) w₁)
        (set_last_header (canonicalize_alphabetical_order include) (entered.0))
        (recorded repository include linenum is_system s (canonicalize_alphabetical_order include)
          e)

  known :
      (include : Text) (s : IncludeState) (n : ℕ)
      → get include s.lines ≡ some n
      → Recorded include linenum s s
  known include s n e other = elim (Bool-cases (text_eq include other)) [
    | inl same ↦ rw same (
        ap (λ t. get t s.lines) (sym ((text_eq_iff include other).0 same))
        ∙ (e ∙ ap (λ o. some (first_line o linenum)) (sym e)))
    | inr not_same ↦ rw not_same refl
  ]

  check_include-Returns :
      (include : Text) (is_system : Bool) (s : IncludeState) (w : World)
      → Returns
          (Recorded include linenum s)
          (check_include report filename repository clean_lines linenum include is_system s w)
  unfolding check_include
  check_include-Returns include is_system s w = elim (Option-cases (get include s.lines)) [
    | inl e ↦ rw (check_include, e) (check_new_include-Recorded include is_system s w e)
    | inr (n, e) ↦
        rw (check_include, e)
          (Returns-ok (Recorded include linenum s)
            (report_again report filename linenum include n w) s (known include s n e))
  ]

  -- When the part of `CheckIncludeLine` on an include returns, whatever it reports, the include has
  -- in the dict the number of the first line that included it, and every other include the number
  -- that it had.
  pub check_include-Recorded :
      (include : Text) (is_system : Bool) (s s' : IncludeState) (w w' : World)
      → check_include report filename repository clean_lines linenum include is_system s w
        ≡ ok (w', s')
      → Recorded include linenum s s'
  check_include-Recorded include is_system s s' w w' e =
      Returns-inv (Recorded include linenum s) w' s' (
        subst (Returns (Recorded include linenum s)) e
          (check_include-Returns include is_system s w))
