-- ===== src/Lint/Cleanse.antt =====
-- How tools/cpplint.py strips comments, strings and raw strings from the lines of a file:
-- `CleanseRawStrings`, `RemoveMultiLineComments`, `CleanseComments` and `CleansedLines`.
pub mod Comments
pub mod Lines
use mathlib.Core.Bool.{xor}
use scalloc.Common.{
  ℕ, zero, suc, ◌+◌, ◌-◌, ◌%◌, List, [], ◌∷◌, ◌++◌, map, Option, none, some, Bool, true, false, not,
  ◌&&◌, ◌||◌, if◌then◌else◌, leb, ltb, ◌==◌, length, take, drop,
}
use scalloc.Common.Text.{Text, codes, count, replace, find, strip, rstrip, starts_with, ends_with}
use scalloc.Common.Regex.{
  Regex, group, star, few, seqs, alts, opt, plus, chr, lit, one, one_of, none_of, dot, blank,
  not_blank, not_word, is_blank, bol, eol, boundary, ahead, mem, match, sub, matches, group_of,
  Found,
}
use scalloc.Lint.World.{Outcome, ok, ◌>>=◌, World, ErrorFn}

-- IsCppString. The source tests the parity of a difference of three counts, which is that of their
-- sum.
unfoldable pub is_cpp_string : Text → Bool
unfolding count replace
is_cpp_string line =
    let line' = replace line (codes "\\\\") (codes "XX") in
    (count line' (codes "\"") + count line' (codes "\\\"") + count line' (codes "'\"'")) % 2 == 1

-- ^(\s*)\S
abbrev pub re_leading_space : Regex
re_leading_space = seqs (bol ∷ group 1 (star blank) ∷ not_blank ∷ [])

-- ^(.*)\b(?:R|u8R|uR|UR|LR)"([^\s\\()]*)\((.*)$
abbrev pub re_raw_string : Regex
re_raw_string = seqs (
    bol
    ∷ group 1 (star dot)
    ∷ boundary
    ∷ alts (lit (codes "R")) (map lit (codes "u8R" ∷ codes "uR" ∷ codes "UR" ∷ codes "LR" ∷ []))
    ∷ chr b'"'
    ∷ group 2 (star (one (λ c. not (is_blank c || mem c (codes "\\()")))))
    ∷ chr b'('
    ∷ group 3 (star dot)
    ∷ eol
    ∷ [])

abbrev pub text_of : Option Text → Text
text_of none = []
text_of (some t) = t

-- The white space that a line begins with. A line that holds a delimiter has a `)`, so the match is
-- there where the source uses it.
abbrev leading_space : Text → Text
leading_space line = elim (match re_leading_space line) [
  | none ↦ []
  | some found ↦ text_of (group_of 1 found.groups)
]

-- A line inside a raw string: the new line, and the delimiter that is still looked for.
unfoldable pub inside_raw_string : Text → Text → Text × Option Text
inside_raw_string delimiter line = elim (find line delimiter) [
  | none ↦ ([], some delimiter)
  | some end ↦ (leading_space line ++ (codes "\"\"" ++ drop (end + length delimiter) line), none)
]

abbrev raw_delimiter : Text → Text
raw_delimiter tag = b')' ∷ (tag ++ codes "\"")

abbrev begin_raw_string : Text → Text → Text → Text × Option Text
begin_raw_string head delimiter rest = elim (find rest delimiter) [
  | some end ↦ (head ++ (codes "\"\"" ++ drop (end + length delimiter) rest), none)
  | none ↦ (head ++ codes "\"\"", some delimiter)
]

-- A line outside of raw strings.
unfoldable pub outside_raw_string : Text → Text × Option Text
outside_raw_string line = elim (match re_raw_string line) [
  | none ↦ (line, none)
  | some found ↦
      begin_raw_string (text_of (group_of 1 found.groups))
        (raw_delimiter (text_of (group_of 2 found.groups))) (text_of (group_of 3 found.groups))
]

unfoldable pub raw_string_step : Option Text → Text → Text × Option Text
raw_string_step none line = outside_raw_string line
raw_string_step (some delimiter) line = inside_raw_string delimiter line

unfoldable pub cleanse_raw_lines : Option Text → List Text → List Text
cleanse_raw_lines delimiter [] = []
cleanse_raw_lines delimiter (line ∷ lines) =
    let (line', delimiter') = raw_string_step delimiter line in
    line' ∷ cleanse_raw_lines delimiter' lines

-- CleanseRawStrings
unfoldable pub cleanse_raw_strings : List Text → List Text
unfolding cleanse_raw_lines
cleanse_raw_strings lines = cleanse_raw_lines none lines

-- _RE_PATTERN_CLEANSE_LINE_C_COMMENTS
abbrev pub re_c_comment : Regex
re_c_comment = seqs (lit (codes "/*") ∷ star dot ∷ lit (codes "*/") ∷ [])

abbrev pub re_c_comments : Regex
re_c_comments = alts (seqs (star blank ∷ re_c_comment ∷ star blank ∷ eol ∷ [])) (
    seqs (re_c_comment ∷ plus blank ∷ [])
    ∷ seqs (plus blank ∷ re_c_comment ∷ ahead not_word ∷ [])
    ∷ re_c_comment
    ∷ [])

abbrev cut_at : Text → Option ℕ → Text
cut_at line none = line
cut_at line (some pos) =
    if not (is_cpp_string (take pos line)) then rstrip (take pos line) else line

-- CleanseComments
unfoldable pub cleanse_comments : Text → Text
cleanse_comments line = sub re_c_comments [] (cut_at line (find line (codes "//")))

abbrev pub digit : ℕ → Bool
digit c = leb b'0' c && leb c b'9'

abbrev hex_digit : ℕ → Bool
hex_digit c = digit c || (leb b'a' c && leb c b'f') || (leb b'A' c && leb c b'F')

-- _RE_PATTERN_CLEANSE_LINE_ESCAPES, \\([abfnrtv?"\\\']|\d+|x[0-9a-fA-F]+)
abbrev pub re_escapes : Regex
re_escapes = seqs (
    chr b'\\'
    ∷ alts (one_of (codes "abfnrtv?\"\\'"))
        (plus (one digit) ∷ seqs (chr b'x' ∷ plus (one hex_digit) ∷ []) ∷ [])
    ∷ [])

-- _RE_PATTERN_CLEANSE_LINE_SINGLE_QUOTES, '.'
abbrev pub re_single_quotes : Regex
re_single_quotes = seqs (chr b'\'' ∷ dot ∷ chr b'\'' ∷ [])

-- _RE_PATTERN_CLEANSE_LINE_DOUBLE_QUOTES, "[^"]*"
abbrev pub re_double_quotes : Regex
re_double_quotes = seqs (chr b'"' ∷ star (none_of (codes "\"")) ∷ chr b'"' ∷ [])

-- _RE_PATTERN_INCLUDE, ^\s*#\s*include\s*([<"])([^>"]*)[>"].*$
abbrev pub re_include : Regex
re_include = seqs (
    bol
    ∷ star blank
    ∷ chr b'#'
    ∷ star blank
    ∷ lit (codes "include")
    ∷ star blank
    ∷ group 1 (one_of (codes "<\""))
    ∷ group 2 (star (none_of (codes ">\"")))
    ∷ one_of (codes ">\"")
    ∷ star dot
    ∷ eol
    ∷ [])

-- CleansedLines._CollapseStrings
unfoldable pub collapse_strings : Text → Text
collapse_strings elided =
    if matches re_include elided
    then elided
    else sub re_double_quotes (codes "\"\"")
        (sub re_single_quotes (codes "''") (sub re_escapes [] elided))

pub record CleansedLines : Type 0 where
  pub elided : List Text
  pub lines : List Text
  pub raw_lines : List Text
  pub num_lines : ℕ
  pub lines_without_raw_strings : List Text

-- CleansedLines.__init__; its loop appends one line to each list
unfoldable pub new_cleansed_lines : List Text → CleansedLines
new_cleansed_lines raw =
    let plain = cleanse_raw_strings raw in
    record {
      elided = map (λ line. cleanse_comments (collapse_strings line)) plain;
      lines = map cleanse_comments plain;
      raw_lines = raw;
      num_lines = length raw;
      lines_without_raw_strings = plain;
    }
