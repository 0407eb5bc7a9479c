-- ===== src/Lint/Cleanse/Lines.antt =====
-- The lists of `CleansedLines` line up, and the body of a raw string is blanked.
use scalloc.Common.{
  ℕ, suc, List, [], ◌∷◌, ◌++◌, map, Option, none, some, ◌≡◌, refl, ap, ◌∙◌, All, length, length-map,
}
use scalloc.Common.Text.{Text, find}
use scalloc.Lint.Cleanse.{
  raw_string_step, inside_raw_string, cleanse_raw_lines, cleanse_raw_strings, new_cleansed_lines,
}

length-cleanse_raw_lines :
    (delimiter : Option Text) (lines : List Text)
    → length (cleanse_raw_lines delimiter lines) ≡ length lines
unfolding cleanse_raw_lines
length-cleanse_raw_lines delimiter [] = refl
length-cleanse_raw_lines delimiter (line ∷ lines) =
    ap suc (length-cleanse_raw_lines (raw_string_step delimiter line).1 lines)

-- The four lists of a `CleansedLines` have as many lines as the file.
pub cleansed_lines_same_length :
    (raw : List Text)
    → let c = new_cleansed_lines raw in
      (c.num_lines ≡ length raw)
      × (length c.elided ≡ length raw)
      × (length c.lines ≡ length raw)
      × (length c.raw_lines ≡ length raw)
      × (length c.lines_without_raw_strings ≡ length raw)
unfolding new_cleansed_lines cleanse_raw_strings
cleansed_lines_same_length raw =
    let plain = length-cleanse_raw_lines none raw in
    (refl, length-map _ _ ∙ plain, length-map _ _ ∙ plain, refl, plain)

-- Inside a raw string, the lines without the delimiter become empty, the line with it is rewritten
-- from the delimiter on, and the lines behind it are read as outside of raw strings.
pub raw_string_body :
    (delimiter : Text) (body : List Text) (last : Text) (rest : List Text) (end : ℕ)
    → All (λ line. find line delimiter ≡ none) body
    → find last delimiter ≡ some end
    → cleanse_raw_lines (some delimiter) (body ++ last ∷ rest)
      ≡ map (λ _. []) body ++ (inside_raw_string delimiter last).0 ∷ cleanse_raw_lines none rest
unfolding cleanse_raw_lines raw_string_step inside_raw_string
raw_string_body delimiter [] last rest end h e = rw (e, inside_raw_string) refl
raw_string_body delimiter (line ∷ body) last rest end (n, h) e =
    rw (n, inside_raw_string) (ap (◌∷◌ []) (raw_string_body delimiter body last rest end h e))
