-- ===== src/Lint/Brackets.antt =====
-- Matching brackets in tools/cpplint.py: `FindEndOfExpressionInLine`, `CloseExpression`,
-- `FindStartOfExpressionInLine` and `ReverseCloseExpression`, on the elided lines.
pub mod Spread
pub mod RoundTrip
use scalloc.Common.{
  ℕ, zero, suc, ◌+◌, ◌-◌, List, [], ◌∷◌, reverse, Option, none, some, Bool, true, false, not, ◌&&◌,
  if◌then◌else◌, ◌==◌, length, take, drop, get_or,
}
use scalloc.Common.Depth.{ℤ, pos, inc, dec, is_zero}
use scalloc.Common.Text.{Text, codes}

-- The depth behind a character; `up` is the bracket that is tested first.
abbrev pub depth_after : ℕ → ℕ → ℤ → ℕ → ℤ
depth_after up down depth x = if x == up then inc depth else if x == down then dec depth else depth

-- Whether the character takes the depth to 0 from above or below.
abbrev pub closes : ℕ → ℕ → ℤ → ℕ → Bool
closes up down depth x = not (x == up) && (x == down && is_zero (dec depth))

-- The loop of `FindEndOfExpressionInLine` over the characters from index `i` on.
unfoldable pub scan_end : ℕ → ℕ → ℕ → ℤ → Text → Option ℕ × ℤ
scan_end startchar endchar i depth [] = (none, depth)
scan_end startchar endchar i depth (x ∷ s) =
    let rest = scan_end startchar endchar (suc i) (depth_after startchar endchar depth x) s in
    if closes startchar endchar depth x then (some (suc i), pos 0) else rest

-- FindEndOfExpressionInLine, with `none` for -1
unfoldable pub find_end_of_expression_in_line : Text → ℕ → ℤ → ℕ → ℕ → Option ℕ × ℤ
find_end_of_expression_in_line line startpos depth startchar endchar =
    scan_end startchar endchar startpos depth (drop startpos line)

-- A result of `CloseExpression`: a line, its number, and a position or -1.
pub record Place : Type 0 where
  pub line : Text
  pub linenum : ℕ
  pub position : Option ℕ

-- The forward loop of `CloseExpression` over the lines behind `line`; `total` is NumLines().
unfoldable pub close_forward : ℕ → ℕ → ℕ → ℕ → ℤ → Text → List Text → Place
close_forward startchar endchar total linenum depth line [] = record {
  line = line;
  linenum = total;
  position = none;
}
close_forward startchar endchar total linenum depth line (l ∷ ls) =
    let (found, depth') = scan_end startchar endchar 0 depth l in
    let rest = close_forward startchar endchar total (suc linenum) depth' l ls in
    elim found [
      | none ↦ rest
      | some end ↦ record { line = l; linenum = suc linenum; position = some end }
    ]

-- The bracket that closes one of the four that `CloseExpression` takes.
unfoldable pub closing : ℕ → Option ℕ
closing c =
    if c == b'('
    then some b')'
    else if c == b'['
    then some b']'
    else if c == b'{'
    then some b'}'
    else if c == b'<'
    then some b'>'
    else none

abbrev first_or_forward : List Text → ℕ → ℕ → Text → ℕ → Option ℕ × ℤ → Place
first_or_forward elided startchar endchar line linenum (some end, depth) = record {
  line = line;
  linenum = linenum;
  position = some end;
}
first_or_forward elided startchar endchar line linenum (none, depth) =
    close_forward startchar endchar (length elided) linenum depth line (drop (suc linenum) elided)

-- CloseExpression, for a line number and a position inside the file
unfoldable pub close_expression : List Text → ℕ → ℕ → Place
close_expression elided linenum position =
    let line = get_or elided linenum [] in
    let startchar = get_or line position 0 in
    elim (closing startchar) [
      | none ↦ record { line = line; linenum = length elided; position = none }
      | some endchar ↦
          first_or_forward elided startchar endchar line linenum
            (find_end_of_expression_in_line line position (pos 0) startchar endchar)
    ]

-- The loop of `FindStartOfExpressionInLine`, over the characters from the last one back; the index
-- of a character is the number of characters in front of it.
unfoldable pub scan_start : ℕ → ℕ → ℤ → Text → Option ℕ × ℤ
scan_start startchar endchar depth [] = (none, depth)
scan_start startchar endchar depth (x ∷ s) =
    let rest = scan_start startchar endchar (depth_after endchar startchar depth x) s in
    if closes endchar startchar depth x then (some (length s), pos 0) else rest

-- FindStartOfExpressionInLine
unfoldable pub find_start_of_expression_in_line : Text → ℕ → ℤ → ℕ → ℕ → Option ℕ × ℤ
find_start_of_expression_in_line line endpos depth startchar endchar =
    scan_start startchar endchar depth (reverse (take (suc endpos) line))

-- The backward loop of `ReverseCloseExpression` over the lines in front of `line`, the last first.
unfoldable pub close_backward : ℕ → ℕ → ℤ → Text → List Text → Place
close_backward startchar endchar depth line [] = record {
  line = line;
  linenum = 0;
  position = none;
}
close_backward startchar endchar depth line (l ∷ ls) =
    let (found, depth') = scan_start startchar endchar depth (reverse l) in
    let rest = close_backward startchar endchar depth' l ls in
    elim found [
      | none ↦ rest
      | some start ↦ record { line = l; linenum = length ls; position = some start }
    ]

unfoldable pub opening : ℕ → Option ℕ
opening c =
    if c == b')'
    then some b'('
    else if c == b']'
    then some b'['
    else if c == b'}'
    then some b'{'
    else if c == b'>'
    then some b'<'
    else none

abbrev first_or_backward : List Text → ℕ → ℕ → Text → ℕ → Option ℕ × ℤ → Place
first_or_backward elided startchar endchar line linenum (some start, depth) = record {
  line = line;
  linenum = linenum;
  position = some start;
}
first_or_backward elided startchar endchar line linenum (none, depth) =
    close_backward startchar endchar depth line (reverse (take linenum elided))

-- ReverseCloseExpression, for a line number and a position inside the file
unfoldable pub reverse_close_expression : List Text → ℕ → ℕ → Place
reverse_close_expression elided linenum position =
    let line = get_or elided linenum [] in
    let endchar = get_or line position 0 in
    elim (opening endchar) [
      | none ↦ record { line = line; linenum = 0; position = none }
      | some startchar ↦
          first_or_backward elided startchar endchar line linenum
            (find_start_of_expression_in_line line position (pos 0) startchar endchar)
    ]
