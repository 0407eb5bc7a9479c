-- ===== src/Lint/Checks/FinalNewline.antt =====
-- `CheckForNewlineAtEOF` of tools/cpplint.py on the lines that `ProcessFile` splits a text into, with
-- the two marker lines that `ProcessFileData` puts around them.
use scalloc.Common.{
  ℕ, suc, ◌-◌, List, [], ◌∷◌, ◌++◌, Bool, true, false, not, ◌≡◌, refl, ap, ◌∙◌, arith, Bool-cases,
  inl, inr, length, get_or, if◌then◌else◌, ltb, ◌==◌, length-append, if-true, if-false,
}
use scalloc.Common.Text.{Text, codes, is_empty, split_on, cons_head}
use scalloc.Lint.World.{Outcome, ok, World, ErrorFn}
use scalloc.Lint.Checks.{check_for_newline_at_eof}

abbrev last : Text → List Text → Text
last y [] = y
last y (z ∷ zs) = last z zs

-- Lines of a text that ends in a newline, and of one that ends in another character.
abbrev Ended : Bool → List Text → Type 0
Ended true xs =
    (y : Text) × (z : Text) × (zs : List Text) × (xs ≡ y ∷ z ∷ zs) × (is_empty (last z zs) ≡ true)
Ended false xs = (y : Text) × (ys : List Text) × (xs ≡ y ∷ ys) × (is_empty (last y ys) ≡ false)

Ended-new_line : (b : Bool) (xs : List Text) → Ended b xs → Ended b ([] ∷ xs)
Ended-new_line true xs (y, z, zs, e, h) = ([], y, z ∷ zs, ap (◌∷◌ []) e, h)
Ended-new_line false xs (y, ys, e, h) = ([], y ∷ ys, ap (◌∷◌ []) e, h)

last-cons :
    (c : ℕ) (y : Text) (ys : List Text)
    → is_empty (last y ys) ≡ false
    → is_empty (last (c ∷ y) ys) ≡ false
last-cons c y [] h = refl
last-cons c y (z ∷ zs) h = h

Ended-cons_head : (b : Bool) (c : ℕ) (xs : List Text) → Ended b xs → Ended b (cons_head c xs)
Ended-cons_head true c xs (y, z, zs, e, h) = (c ∷ y, z, zs, ap (cons_head c) e, h)
Ended-cons_head false c xs (y, ys, e, h) = (c ∷ y, ys, ap (cons_head c) e, last-cons c y ys h)

split-one : (x : ℕ) → Ended (x == b'\n') (split_on b'\n' (x ∷ []))
unfolding split_on
split-one x = elim (Bool-cases (x == b'\n')) [
  | inl e ↦ rw e ([], [], [], refl, refl)
  | inr e ↦ rw e (x ∷ [], [], refl, refl)
]

split-Ended : (t : Text) (x : ℕ) → Ended (x == b'\n') (split_on b'\n' (t ++ x ∷ []))
unfolding split_on
split-Ended [] x = split-one x
split-Ended (c ∷ t) x = elim (Bool-cases (c == b'\n')) [
  | inl e ↦ rw e (Ended-new_line _ _ (split-Ended t x))
  | inr e ↦ rw e (Ended-cons_head _ c _ (split-Ended t x))
]

-- The lines that `ProcessFileData` builds.
abbrev pub marked_lines : Text → Text → Text → List Text
marked_lines first final text = (first ∷ split_on b'\n' text) ++ final ∷ []

get_or-before_last :
    (m n y d : Text) (ys : List Text)
    → get_or ((m ∷ y ∷ ys) ++ n ∷ []) (suc (length ys)) d ≡ last y ys
get_or-before_last m n y d [] = refl
get_or-before_last m n y d (z ∷ zs) = get_or-before_last m n z d zs

-- The message of the check.
abbrev pub complaint : ErrorFn → Text → ℕ → World → Outcome World
complaint report filename linenum w =
    report filename linenum (codes "whitespace/ending_newline") 5
      (codes "Could not find a newline character at the end of the file.") w

module _ (report : ErrorFn) (filename first final : Text) (w : World) where
  -- On lines `y`, `ys` between the markers, the check looks at the last of them.
  check-last :
      (y : Text) (ys : List Text)
      → check_for_newline_at_eof report filename ((first ∷ y ∷ ys) ++ final ∷ []) w ≡ (
          if not (is_empty (last y ys))
          then complaint report filename (suc (length ys)) w
          else ok w)
  unfolding check_for_newline_at_eof
  check-last y ys =
      let ls = (first ∷ y ∷ ys) ++ final ∷ [] in
      let n : length ls - 2 ≡ suc (length ys) =
        omega (arith, length-append (first ∷ y ∷ ys) (final ∷ [])) in
      let big : ltb (length ls) 3 ≡ false = ground (arith, length-append ys (final ∷ [])) in
      rw (n, big, get_or-before_last first final y [] ys) refl

  check-Ended :
      (b : Bool) (xs : List Text)
      → Ended b xs
      → check_for_newline_at_eof report filename ((first ∷ xs) ++ final ∷ []) w
        ≡ (if b then ok w else complaint report filename (length xs) w)
  check-Ended true xs (y, z, zs, e, h) = rw e (check-last y (z ∷ zs) ∙ if-false _ _ (ap not h))
  check-Ended false xs (y, ys, e, h) = rw e (check-last y ys ∙ if-true _ _ (ap not h))

empty_file :
    (report : ErrorFn) (filename first final : Text) (w : World)
    → check_for_newline_at_eof report filename (marked_lines first final []) w ≡ ok w
unfolding check_for_newline_at_eof split_on
empty_file report filename first final w = refl

-- Between the markers, `CheckForNewlineAtEOF` accepts the lines of the empty text, and those of a
-- text that ends in a newline; for a text that ends in another character it makes its complaint, on
-- the number of the last line.
pub check_for_newline_at_eof_lem :
    (report : ErrorFn) (filename first final : Text) (w : World)
    → (check_for_newline_at_eof report filename (marked_lines first final []) w ≡ ok w)
      × ((t : Text) (x : ℕ)
          → check_for_newline_at_eof report filename (marked_lines first final (t ++ x ∷ [])) w ≡ (
              if x == b'\n'
              then ok w
              else complaint report filename (length (split_on b'\n' (t ++ x ∷ []))) w))
check_for_newline_at_eof_lem report filename first final w = (
  empty_file report filename first final w,
  λ t x. check-Ended report filename first final w (x == b'\n') _ (split-Ended t x),
)
