-- ===== src/Lint/Filters/Valid.antt =====
-- What `SetFilters` guarantees, and that `_ShouldPrintError` then never fails its assertion.
use mathlib.Core.List.{Memᴰ}
use scalloc.Common.{
  ℕ, List, [], ◌∷◌, ◌++◌, Bool, false, not, ◌≡◌, refl, Bool-cases, inl, inr, All, All-append, ltb,
  ◌⊎◌, subst, map, if◌then◌else◌,
}
use scalloc.Common.Text.{Text, split_on, strip, is_empty}
use scalloc.Lint.World.{Outcome, ok, raised, ◌>>=◌, LintState, World}
use scalloc.Lint.Tables.{default_filters}
use scalloc.Lint.Filters.{
  is_signed, unsigned_error, check_filters, clean_filters, set_filters, should_print_error,
  is_error_suppressed_by_nolint,
}
use scalloc.Lint.Filters.LastWins.{IsSigned, apply_filters-total}

-- A filter of the list that has no sign.
abbrev pub Unsigned : List Text → Text → Type 0
Unsigned fs f = Memᴰ f fs × (is_signed f ≡ false)

abbrev Checked : List Text → Outcome (Unit {0}) → Type 0
Checked fs o =
    (All IsSigned fs × (o ≡ ok tt)) ⊎ ((f : Text) × Unsigned fs f × (o ≡ raised (unsigned_error f)))

check_filters-Checked : (fs : List Text) → Checked fs (check_filters fs)
unfolding check_filters
check_filters-Checked [] = inl (tt, refl)
check_filters-Checked (f ∷ fs) = elim (Bool-cases (is_signed f)) [
  | inl s ↦ elim (check_filters-Checked fs) [
    | inl (h, e) ↦ inl ((s, h), rw s e)
    | inr (g, (m, n), e) ↦ inr (g, (Memᴰ.tail m, n), rw s e)
  ]
  | inr n ↦ inr (f, (Memᴰ.head refl, n), rw n refl)
]

defaults-IsSigned : All IsSigned default_filters
unfolding is_signed
defaults-IsSigned = (refl, tt)

set_filters-bind :
    (flag : Text) (s : LintState)
    → set_filters flag s ≡ (
        check_filters (clean_filters (split_on b',' flag)) >>= λ _.
        ok (record s { filters = default_filters ++ clean_filters (split_on b',' flag) }))
unfolding set_filters
set_filters-bind flag s = refl

-- The texts that are not empty.
abbrev pub non_empty : List Text → List Text
non_empty [] = []
non_empty (t ∷ ts) = if is_empty t then non_empty ts else t ∷ non_empty ts

clean_filters-non_empty : (fs : List Text) → clean_filters fs ≡ non_empty (map strip fs)
unfolding clean_filters
clean_filters-non_empty [] = refl
clean_filters-non_empty (f ∷ fs) = rw (clean_filters-non_empty fs) refl

-- The filters of a flag are its parts between commas, stripped, without the empty ones. `SetFilters`
-- has two outcomes. Either every filter of the flag is signed, and the filters become
-- the default ones followed by those of the flag, with nothing else changed; or some filter of the
-- flag has no sign, and the ValueError names it.
pub set_filters_outcomes :
    (flag : Text) (s : LintState)
    → let fs = non_empty (map strip (split_on b',' flag)) in
      (All IsSigned (default_filters ++ fs)
        × (set_filters flag s ≡ ok (record s { filters = default_filters ++ fs })))
      ⊎ ((f : Text) × Unsigned fs f × (set_filters flag s ≡ raised (unsigned_error f)))
set_filters_outcomes flag s =
    subst
      (λ fs.
        (All IsSigned (default_filters ++ fs)
          × (set_filters flag s ≡ ok (record s { filters = default_filters ++ fs })))
        ⊎ ((f : Text) × Unsigned fs f × (set_filters flag s ≡ raised (unsigned_error f))))
      (clean_filters-non_empty (split_on b',' flag))
      (elim (check_filters-Checked (clean_filters (split_on b',' flag))) [
        | inl (h, e) ↦
            inl
              (All-append IsSigned default_filters _ defaults-IsSigned h, rw (set_filters-bind, e))
        | inr (f, u, e) ↦ inr (f, u, rw (set_filters-bind, e))
      ])

-- When the filters are signed, as `SetFilters` leaves them, `_ShouldPrintError` returns a value.
pub should_print_error-total :
    (category : Text) (confidence linenum : ℕ) (w : World)
    → All IsSigned w.lint.filters
    → (b : Bool) × (should_print_error category confidence linenum w ≡ ok b)
unfolding should_print_error
should_print_error-total category confidence linenum w h =
    elim (Bool-cases (is_error_suppressed_by_nolint category linenum w)) [
      | inl s ↦ (false, rw s)
      | inr s ↦ elim (Bool-cases (ltb confidence w.lint.verbose_level)) [
        | inl low ↦ (false, rw (s, low))
        | inr high ↦
            let (b, e) = apply_filters-total category w.lint.filters false h in
            (not b, rw (s, high, e))
      ]
    ]
