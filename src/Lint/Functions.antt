-- ===== src/Lint/Functions.antt =====
-- The length of functions in tools/cpplint.py: `_FunctionState`, `IsBlankLine` and
-- `CheckForFunctionLengths`.
pub mod Level
use scalloc.Common.{
  ℕ, zero, suc, ◌+◌, ◌*◌, ◌/◌, ◌^◌, List, [], ◌∷◌, ◌++◌, Option, none, some, Bool, true, false, not,
  ◌||◌, ◌&&◌, if◌then◌else◌, ltb, leb, ◌==◌, drop, get_or, every, length,
}
use scalloc.Common.Text.{Text, codes, text_eq, words, lstrip, show, is_empty, is_space}
use scalloc.Common.Regex.{
  Regex, one, alt, alts, star, group, eol, bol, lit, chr, seqs, plus, dot, blank, word, match,
  matches, search_re, searches, group_of,
}
use scalloc.Lint.World.{
  Outcome, ok, raised, ◌>>=◌, Exn, attribute_error, LintState, World, Act, ErrorFn,
}
use scalloc.Lint.Cleanse.{CleansedLines}

pub record FunctionState : Type 0 where
  pub in_a_function : Bool
  pub lines_in_function : ℕ
  pub current_function : Text

-- _FunctionState.__init__
abbrev pub new_function_state : FunctionState
new_function_state = record { in_a_function = false; lines_in_function = 0; current_function = [] }

unfoldable pub begin : Text → FunctionState → FunctionState
begin function_name s = record {
  in_a_function = true;
  lines_in_function = 0;
  current_function = function_name;
}

-- _FunctionState.Count
unfoldable pub count_line : FunctionState → FunctionState
count_line s =
    if s.in_a_function then record s { lines_in_function = s.lines_in_function + 1 } else s

-- _FunctionState.End
unfoldable pub end_function : FunctionState → FunctionState
end_function s = record s { in_a_function = false }

-- int(math.log(n, 2)) of a number above 0: it is halved at most `n` times
unfoldable pub log2_from : ℕ → ℕ → ℕ
log2_from zero n = 0
log2_from (suc fuel) n = let half = log2_from fuel (n / 2) in if ltb n 2 then 0 else suc half

unfoldable pub log2 : ℕ → ℕ
unfolding log2_from
log2 n = log2_from n n

-- T(EST|est)
abbrev re_test : Regex
re_test = seqs (chr b'T' ∷ alt (lit (codes "EST")) (lit (codes "est")) ∷ [])

-- _TEST_TRIGGER and _NORMAL_TRIGGER
unfoldable pub base_trigger : FunctionState → ℕ
base_trigger s = if matches re_test s.current_function then 400 else 250

-- The confidence of the message, at most 5.
unfoldable pub error_level : ℕ → ℕ
unfolding log2
error_level n = if ltb 5 (log2 n) then 5 else log2 n

unfoldable pub too_long : FunctionState → ℕ → Text
unfolding show
too_long s trigger =
    codes "Small and focused functions are preferred: "
    ++ (s.current_function
        ++ (codes " has "
            ++ (show s.lines_in_function
                ++ (codes " non-comment lines (error triggered by exceeding "
                    ++ (show trigger ++ codes " lines).")))))

-- _FunctionState.Check
unfoldable pub check : ErrorFn → Text → ℕ → FunctionState → Act
unfolding base_trigger error_level too_long
check report filename linenum s w =
    let trigger = base_trigger s * 2 ^ w.lint.verbose_level in
    if ltb trigger s.lines_in_function
    then report filename linenum (codes "readability/fn_size")
        (error_level (s.lines_in_function / base_trigger s)) (too_long s trigger) w
    else ok w

unfoldable pub is_blank_line : Text → Bool
unfolding is_space
is_blank_line line = is_empty line || every is_space line

-- (\w(\w|::|\*|\&|\s)*)\(
abbrev re_function : Regex
re_function = seqs (
    group 1 (
      seqs (
        word
        ∷ star (group 2 (alts word (lit (codes "::") ∷ chr b'*' ∷ chr b'&' ∷ blank ∷ [])))
        ∷ []))
    ∷ chr b'('
    ∷ [])

-- [A-Z_]+$
abbrev re_macro : Regex
re_macro = seqs (plus (one (λ c. (leb b'A' c && leb c b'Z') || c == b'_')) ∷ eol ∷ [])

-- ((\w|:)*)\(
abbrev re_name : Regex
re_name = seqs (group 1 (star (group 2 (alt word (chr b':')))) ∷ chr b'(' ∷ [])

-- (\(.*\))
abbrev re_parameters : Regex
re_parameters = group 1 (seqs (chr b'(' ∷ star dot ∷ chr b')' ∷ []))

abbrev last_word : List Text → Text
last_word [] = []
last_word (w ∷ []) = w
last_word (w ∷ v ∷ ws) = last_word (v ∷ ws)

abbrev or_empty : Option Text → Text
or_empty none = []
or_empty (some t) = t

-- Whether the line starts a function: a name and a parenthesis, unless the name looks like a macro.
unfoldable pub starting_func : Text → Bool
unfolding match words group_of text_eq
starting_func line = elim (match re_function line) [
  | none ↦ false
  | some found ↦
      let function_name = last_word (words (or_empty (group_of 1 found.groups))) in
      text_eq function_name (codes "TEST")
      || text_eq function_name (codes "TEST_F")
      || not (matches re_macro function_name)
]

-- The name that is reported: TEST macros keep their parameters.
unfoldable pub function_name_of : Text → Text → Outcome Text
unfolding search_re group_of match
function_name_of line joined_line = elim (search_re re_name line) [
  | none ↦ raised attribute_error
  | some found ↦
      let function = or_empty (group_of 1 found.groups) in
      if matches (lit (codes "TEST")) function
      then elim (search_re re_parameters joined_line) [
        | none ↦ ok function
        | some parameters ↦ ok (function ++ or_empty (group_of 1 parameters.groups))
      ]
      else ok (function ++ codes "()")
]

-- The loop that looks for the body of a function; `none` where it finds none.
unfoldable pub find_body : Text → Text → List Text → FunctionState → Outcome (Option FunctionState)
unfolding lstrip search_re function_name_of begin
find_body line joined_line [] s = ok none
find_body line joined_line (start_line ∷ lines) s =
    let joined_line' = joined_line ++ b' ' ∷ lstrip start_line in
    let rest = find_body line joined_line' lines s in
    if searches (alt (chr b';') (chr b'}')) start_line
    then ok (some s)
    else if searches (chr b'{') start_line
    then (do function ← function_name_of line joined_line'; ok (some (begin function s)))
    else rest

abbrev re_closing : Regex
re_closing = seqs (bol ∷ chr b'}' ∷ star blank ∷ eol ∷ [])

abbrev re_blank_line : Regex
re_blank_line = seqs (bol ∷ star blank ∷ eol ∷ [])

abbrev after_search :
    ErrorFn
    → Text
    → ℕ
    → FunctionState
    → World
    → Option FunctionState
    → Outcome (World × FunctionState)
after_search report filename linenum s w (some s') = ok (w, s')
after_search report filename linenum s w none = do
  w' ←
      report filename linenum (codes "readability/fn_size") 5
        (codes "Lint failed to find start of function body.") w
  ok (w', s)

-- CheckForFunctionLengths
unfoldable pub check_for_function_lengths :
    ErrorFn → Text → CleansedLines → ℕ → FunctionState → World → Outcome (World × FunctionState)
unfolding starting_func find_body check end_function match count_line
check_for_function_lengths report filename clean_lines linenum s w =
    let line = get_or clean_lines.lines linenum [] in
    if starting_func line
    then find_body line [] (drop linenum clean_lines.lines) s
      >>= after_search report filename linenum s w
    else if matches re_closing line
    then (do w' ← check report filename linenum s w; ok (w', end_function s))
    else if not (matches re_blank_line line)
    then ok (w, count_line s)
    else ok (w, s)
