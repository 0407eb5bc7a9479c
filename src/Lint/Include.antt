-- ===== src/Lint/Include.antt =====
-- `_IncludeState` of tools/cpplint.py: the includes seen, and the state machine of their order.
pub mod Order
use scalloc.Common.{
  ℕ, ◌-◌, List, [], ◌∷◌, ◌++◌, map, Bool, true, false, not, ◌&&◌, if◌then◌else◌, leb, ◌==◌, ltb,
  length, get_or,
}
use scalloc.Common.Text.{Text, codes, replace, to_lower}
use scalloc.Common.Dict.{Dict}
use scalloc.Common.Regex.{matches, seqs, bol, star, blank, eol}

-- _C_SYS_HEADER and its four siblings
pub data HeaderType : Type 0 where
  c_sys_header cpp_sys_header likely_my_header possible_my_header other_header : HeaderType

-- _INITIAL_SECTION, _MY_H_SECTION, _C_SECTION, _CPP_SECTION, _OTHER_H_SECTION
pub data Section : Type 0 where
  initial_section my_h_section c_section cpp_section other_h_section : Section

-- The number that the source gives to a section.
abbrev pub rank : Section → ℕ
rank initial_section = 0
rank my_h_section = 1
rank c_section = 2
rank cpp_section = 3
rank other_h_section = 4

unfoldable pub type_name : HeaderType → Text
type_name c_sys_header = codes "C system header"
type_name cpp_sys_header = codes "C++ system header"
type_name likely_my_header = codes "header this file implements"
type_name possible_my_header = codes "header this file may implement"
type_name other_header = codes "other header"

unfoldable pub section_name : Section → Text
section_name initial_section = codes "... nothing. (This can't be an error.)"
section_name my_h_section = codes "a header this file implements"
section_name c_section = codes "C system header"
section_name cpp_section = codes "C++ system header"
section_name other_h_section = codes "other header"

-- The dict of the class is `lines`: an include, and the number of the line that includes it.
pub record IncludeState : Type 0 where
  pub lines : Dict Text ℕ
  pub section : Section
  pub last_header : Text

unfoldable pub reset_section : IncludeState → IncludeState
reset_section s = record s { section = initial_section; last_header = [] }

abbrev pub new_include_state : IncludeState
new_include_state = record { lines = []; section = initial_section; last_header = [] }

unfoldable pub set_last_header : Text → IncludeState → IncludeState
set_last_header path s = record s { last_header = path }

-- CanonicalizeAlphabeticalOrder
unfoldable pub canonicalize_alphabetical_order : Text → Text
unfolding replace
canonicalize_alphabetical_order path =
    map to_lower (replace (replace path (codes "-inl.h") (codes ".h")) (codes "-") (codes "_"))

-- The order of texts by code points: s > t.
unfoldable pub text_gt : Text → Text → Bool
text_gt [] t = false
text_gt (x ∷ s) [] = true
text_gt (x ∷ s) (y ∷ t) = if x == y then text_gt s t else ltb y x

-- lines[linenum - 1], where -1 is the last line
abbrev pub line_above : List Text → ℕ → Text
line_above lines linenum = get_or lines (if linenum == 0 then length lines - 1 else linenum - 1) []

-- IsInAlphabeticalOrder, on the elided lines
unfoldable pub is_in_alphabetical_order : List Text → ℕ → Text → IncludeState → Bool
unfolding text_gt
is_in_alphabetical_order elided linenum path s = not (
    text_gt s.last_header path
    && not (matches (seqs (bol ∷ star blank ∷ eol ∷ [])) (line_above elided linenum)))

abbrev enter : Section → IncludeState → IncludeState
enter section s = record s {
  section = section;
  last_header = if rank s.section == rank section then s.last_header else [];
}

abbrev pub order_error : HeaderType → IncludeState → Text
order_error type s =
    codes "Found " ++ (type_name type ++ (codes " after " ++ section_name s.section))

-- A system header: its section, or an error.
abbrev enter_or_fail : HeaderType → Section → IncludeState → IncludeState × Text
enter_or_fail type section s =
    if leb (rank s.section) (rank section)
    then (enter section s, [])
    else (record s { last_header = [] }, order_error type s)

abbrev enter_my_header : IncludeState → IncludeState × Text
enter_my_header s =
    if leb (rank s.section) (rank my_h_section)
    then (enter my_h_section s, [])
    else (enter other_h_section s, [])

-- CheckNextIncludeOrder, with the error message or the empty text
unfoldable pub check_next_include_order : HeaderType → IncludeState → IncludeState × Text
check_next_include_order c_sys_header s = enter_or_fail c_sys_header c_section s
check_next_include_order cpp_sys_header s = enter_or_fail cpp_sys_header cpp_section s
check_next_include_order likely_my_header s = enter_my_header s
check_next_include_order possible_my_header s = enter_my_header s
check_next_include_order other_header s = (enter other_h_section s, [])
