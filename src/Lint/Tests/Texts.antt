-- ===== src/Lint/Tests/Texts.antt =====
-- Include order, cleansed lines and brackets of tools/cpplint.py, on small inputs.
use scalloc.Common.{List, [], ◌∷◌, ◌++◌, map, none, some, false, ◌≡◌, refl, length, arith}
use scalloc.Common.Text.{Text, codes, find, starts_with, ends_with, strip, lstrip, rstrip, is_space}
use scalloc.Common.Depth.{pos}
use scalloc.Lint.World.{ok, World}
use scalloc.Lint.Report.{error, new_lint_state}
use scalloc.Lint.Include.{
  HeaderType, Section, IncludeState, new_include_state, check_next_include_order, reset_section,
  type_name, section_name, order_error,
}
use scalloc.Lint.Include.Order.{after, check_next_include_order_lem}
use scalloc.Lint.Cleanse.{new_cleansed_lines, cleanse_raw_lines, inside_raw_string}
use scalloc.Lint.Cleanse.Lines.{cleansed_lines_same_length, raw_string_body}
use scalloc.Lint.Cleanse.Comments.{
  remove_multi_line_comments, remove_rounds, remove_round, find_next_multi_line_comment_start,
  find_next_multi_line_comment_end, first_index, starts_comment, ends_comment, remove_from_range,
  dummy,
}
use scalloc.Lint.Cleanse.Comments.Removal.{remove_rounds_enough}
use scalloc.Lint.Cleanse.Comments.Cleared.{
  Cleared, remove_multi_line_comments-Cleared, remove_multi_line_comments-none_left, refuse,
}
use scalloc.Lint.Brackets.{
  find_end_of_expression_in_line, find_start_of_expression_in_line, scan_end, close_expression,
  closing,
}
use scalloc.Lint.Brackets.RoundTrip.{find_start-find_end}
use scalloc.Lint.Brackets.Spread.{Closed, close_expression-joined}
use scalloc.Common.{get_elem?}
use HeaderType.{c_sys_header, cpp_sys_header}

abbrev calm : World
calm = record {
  suppressions = [];
  lint = new_lint_state;
  stderr = [];
  root = none;
  line_length = 80;
  valid_extensions = [];
}

abbrev behind_cpp : IncludeState
behind_cpp = record new_include_state {
  section = Section.cpp_section;
  last_header = codes "vector";
}

-- A C header behind a C++ header is out of order.
late_c_header :
    (check_next_include_order c_sys_header (after (cpp_sys_header ∷ []) new_include_state)).1
    ≡ codes "Found C system header after C++ system header"
unfolding check_next_include_order after type_name section_name reset_section
late_c_header = refl

check_next_include_order_lem_example :
    (check_next_include_order c_sys_header (after (cpp_sys_header ∷ []) new_include_state)).1
    ≡ order_error c_sys_header (after (cpp_sys_header ∷ []) new_include_state)
check_next_include_order_lem_example =
    check_next_include_order_lem c_sys_header (cpp_sys_header ∷ []) new_include_state

abbrev two_files : List Text
two_files = codes "int x;" ∷ codes "" ∷ []

cleansed_lines_same_length_example :
    let c = new_cleansed_lines two_files in
    (c.num_lines ≡ 2)
    × (length c.elided ≡ 2)
    × (length c.lines ≡ 2)
    × (length c.raw_lines ≡ 2)
    × (length c.lines_without_raw_strings ≡ 2)
cleansed_lines_same_length_example = cleansed_lines_same_length two_files

raw_string_body_example :
    cleanse_raw_lines (some (codes ")\"")) (codes "  a" ∷ codes "b)\";" ∷ [])
    ≡ map (λ _. []) (codes "  a" ∷ [])
      ++ (inside_raw_string (codes ")\"") (codes "b)\";")).0 ∷ cleanse_raw_lines none []
unfolding find
raw_string_body_example =
    raw_string_body (codes ")\"") (codes "  a" ∷ []) (codes "b)\";") [] 1 (refl, tt) refl

abbrev commented : List Text
commented = codes "/* a" ∷ codes "b */" ∷ codes "int x;" ∷ []

removed :
    remove_multi_line_comments refuse (codes "a.cc") commented calm
    ≡ ok (dummy ∷ dummy ∷ codes "int x;" ∷ [], calm)
unfolding remove_multi_line_comments remove_rounds remove_round find_next_multi_line_comment_start
    find_next_multi_line_comment_end first_index starts_comment ends_comment remove_from_range strip
    lstrip rstrip is_space starts_with ends_with find
removed = refl

remove_multi_line_comments-Cleared_example : Cleared commented (dummy ∷ dummy ∷ codes "int x;" ∷ [])
remove_multi_line_comments-Cleared_example =
    remove_multi_line_comments-Cleared refuse (codes "a.cc") commented
      (dummy ∷ dummy ∷ codes "int x;" ∷ []) calm calm removed

remove_multi_line_comments-none_left_example : starts_comment (codes "int x;") ≡ false
remove_multi_line_comments-none_left_example =
    remove_multi_line_comments-none_left (codes "a.cc") commented
      (dummy ∷ dummy ∷ codes "int x;" ∷ []) calm calm 2 (codes "int x;") removed refl

remove_rounds_enough_example :
    remove_rounds error (codes "a.cc") 4 commented 0 calm
    ≡ remove_rounds error (codes "a.cc") 3 commented 0 calm
remove_rounds_enough_example =
    remove_rounds_enough error (codes "a.cc") 3 commented 0 calm (omega arith)

find_start-find_end_example :
    (get_elem? (codes "f(a(b))") 6 ≡ some b')')
    × (find_start_of_expression_in_line (codes "f(a(b))") 6 (pos 0) b'(' b')' ≡ (some 1, pos 0))
unfolding find_end_of_expression_in_line scan_end
find_start-find_end_example =
    find_start-find_end (codes "f(a(b))") 1 b'(' b')' 7 (pos 0) refl refl refl

abbrev call_lines : List Text
call_lines = codes "f(a," ∷ codes "  b);" ∷ []

close_expression-joined_example :
    Closed call_lines 0 1
      (codes "f(a,")
      ((scan_end b'(' b')' 0 (pos 0) (codes "(a,  b);")).0)
      (close_expression call_lines 0 1)
unfolding closing
close_expression-joined_example =
    close_expression-joined call_lines 0 1 b'(' b')' (codes "f(a,") refl refl refl
