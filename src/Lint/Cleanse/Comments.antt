-- ===== src/Lint/Cleanse/Comments.antt =====
-- `RemoveMultiLineComments` of tools/cpplint.py and the two searches that it makes.
pub mod Removal
pub mod Cleared
use scalloc.Common.{
  ℕ, zero, suc, ◌+◌, ◌-◌, List, [], ◌∷◌, ◌++◌, Option, none, some, Bool, true, false, not, ◌&&◌,
  if◌then◌else◌, leb, ltb, length, drop,
}
use scalloc.Common.Text.{Text, codes, find, strip, starts_with, ends_with}
use scalloc.Lint.World.{Outcome, ok, ◌>>=◌, World, ErrorFn}

abbrev is_none {ℓ} : {A : Type ℓ} → Option A → Bool
is_none none = true
is_none (some a) = false

-- A line that begins a comment which goes beyond it.
unfoldable pub starts_comment : Text → Bool
starts_comment line =
    starts_with (strip line) (codes "/*") && is_none (find (drop 2 (strip line)) (codes "*/"))

unfoldable pub ends_comment : Text → Bool
ends_comment line = ends_with (strip line) (codes "*/")

-- The first index from `i` on, in the lines that are left, of a line that passes a test.
unfoldable pub first_index : (Text → Bool) → List Text → ℕ → Option ℕ
first_index p [] i = none
first_index p (line ∷ lines) i =
    let later = first_index p lines (suc i) in if p line then some i else later

abbrev or_length : List Text → Option ℕ → ℕ
or_length lines none = length lines
or_length lines (some i) = i

-- FindNextMultiLineCommentStart
unfoldable pub find_next_multi_line_comment_start : List Text → ℕ → ℕ
find_next_multi_line_comment_start lines i =
    or_length lines (first_index starts_comment (drop i lines) i)

-- FindNextMultiLineCommentEnd
unfoldable pub find_next_multi_line_comment_end : List Text → ℕ → ℕ
find_next_multi_line_comment_end lines i =
    or_length lines (first_index ends_comment (drop i lines) i)

abbrev pub dummy : Text
dummy = codes "// dummy"

-- RemoveMultiLineCommentsFromRange, for begin ≤ i < end
unfoldable pub remove_from_range : List Text → ℕ → ℕ → List Text
remove_from_range [] begin end = []
remove_from_range (l ∷ ls) begin zero = l ∷ ls
remove_from_range (l ∷ ls) zero (suc end) = dummy ∷ remove_from_range ls zero end
remove_from_range (l ∷ ls) (suc begin) (suc end) = l ∷ remove_from_range ls begin end

-- How a round of the loop ends: with the result, or with the lines and the index of the next round.
pub data Round : Type 0 where
  stop : Outcome (List Text × World) → Round
  next : List Text → ℕ → Round

-- The body of the loop of `RemoveMultiLineComments`, its test first.
unfoldable pub remove_round : ErrorFn → Text → List Text → ℕ → World → Round
remove_round report filename lines i w =
    let begin = find_next_multi_line_comment_start lines i in
    let end = find_next_multi_line_comment_end lines begin in
    if leb (length lines) i
    then stop (ok (lines, w))
    else if leb (length lines) begin
    then stop (ok (lines, w))
    else if leb (length lines) end
    then stop (
        report filename (begin + 1) (codes "readability/multiline_comment") 5
          (codes "Could not find end of multi-line comment") w
        >>= λ w'. ok (lines, w'))
    else next (remove_from_range lines begin (end + 1)) (end + 1)

-- Each round but the last moves on by a line or more, so the rounds are at most the lines left, and
-- with no line left the loop's test fails.
unfoldable pub remove_rounds :
    ErrorFn → Text → ℕ → List Text → ℕ → World → Outcome (List Text × World)
remove_rounds report filename zero lines i w = ok (lines, w)
remove_rounds report filename (suc n) lines i w = elim (remove_round report filename lines i w) [
  | stop result ↦ result
  | next lines' i' ↦ remove_rounds report filename n lines' i' w
]

-- RemoveMultiLineComments
unfoldable pub remove_multi_line_comments :
    ErrorFn → Text → List Text → World → Outcome (List Text × World)
remove_multi_line_comments report filename lines w =
    remove_rounds report filename (length lines) lines 0 w
