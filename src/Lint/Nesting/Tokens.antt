-- ===== src/Lint/Nesting/Tokens.antt =====
-- Parentheses, assembly blocks and braces in `_NestingState.Update` of tools/cpplint.py.
use scalloc.Common.{
  ℕ, zero, suc, List, [], ◌∷◌, none, some, Bool, true, not, ◌||◌, ◌&&◌, if◌then◌else◌, ◌==◌,
}
use scalloc.Common.Depth.{ℤ, up, down, dec, is_zero}
use scalloc.Common.Text.{Text, codes, text_eq, count}
use scalloc.Common.Regex.{
  Regex, alt, alts, star, group, eol, bol, lit, seqs, plus, dot, blank, none_of, one_of, match,
  matches, group_of, opt,
}
use scalloc.Lint.World.{Outcome, ok, ◌>>=◌, World, ErrorFn}
use scalloc.Lint.Cleanse.{CleansedLines, text_of}
use scalloc.Lint.Nesting.{
  Asm, no_asm, inside_asm, end_asm, block_asm, plain, Block, new_block, check_end,
}

-- ^\s*(?:asm|_asm|__asm|__asm__)(?:\s+(volatile|__volatile__))?\s*[{(]
abbrev pub re_asm : Regex
re_asm = seqs (
    bol
    ∷ star blank
    ∷ alts (lit (codes "asm"))
        (lit (codes "_asm") ∷ lit (codes "__asm") ∷ lit (codes "__asm__") ∷ [])
    ∷ opt (
        seqs
          (plus blank ∷ group 1 (alt (lit (codes "volatile")) (lit (codes "__volatile__"))) ∷ []))
    ∷ star blank
    ∷ one_of (codes "{(")
    ∷ [])

-- Entering or leaving an assembly block, by the parentheses that are open behind the line.
unfoldable pub next_asm : Asm → Bool → ℤ → Text → Asm
unfolding match
next_asm inside_asm changed depth line = if is_zero depth then end_asm else inside_asm
next_asm block_asm changed depth line = block_asm
next_asm _ changed depth line =
    if changed && (is_zero (dec depth) && matches re_asm line) then inside_asm else no_asm

unfoldable pub count_parentheses : Text → List Block → List Block
unfolding count
count_parentheses line [] = []
count_parentheses line (b ∷ bs) =
    let opened = count line (codes "(") in
    let closed = count line (codes ")") in
    let depth = down closed (up opened b.open_parentheses) in
    record b {
      open_parentheses = depth;
      inline_asm = next_asm b.inline_asm (not (opened == closed)) depth line;
    }
    ∷ bs

abbrev pub with_brace : Block → Block
with_brace b = record b { seen_open_brace = true }

-- ^[^{;)}]*([{;)}])(.*)$
abbrev pub re_token : Regex
re_token = seqs (
    bol
    ∷ star (none_of (codes "{;)}"))
    ∷ group 1 (one_of (codes "{;)}"))
    ∷ group 2 (star dot)
    ∷ eol
    ∷ [])

-- A new plain block, an assembly block where the line says so.
unfoldable pub open_block : Text → Block
unfolding match new_block
open_block line =
    let b = new_block true plain in
    if matches re_asm line then record b { inline_asm = block_asm } else b

-- The branches on the token in the loop over the braces.
unfoldable pub take_token :
    ErrorFn
    → Text
    → CleansedLines
    → ℕ
    → Text
    → Text
    → List Block
    → World
    → Outcome (World × List Block)
unfolding text_eq open_block
take_token report filename clean_lines linenum token line [] w =
    if text_eq token (codes "{") then ok (w, open_block line ∷ []) else ok (w, [])
take_token report filename clean_lines linenum token line (b ∷ bs) w =
    if text_eq token (codes "{")
    then ok (w, if b.seen_open_brace then open_block line ∷ b ∷ bs else with_brace b ∷ bs)
    else if text_eq token (codes ";") || text_eq token (codes ")")
    then ok (w, if b.seen_open_brace then b ∷ bs else bs)
    else (do w' ← check_end report filename clean_lines linenum b w; ok (w', bs))

-- The loop over braces, semicolons and closing parentheses; a round reads its token, so there are no
-- more rounds than characters.
unfoldable pub consume_braces :
    ℕ
    → ErrorFn
    → Text
    → CleansedLines
    → ℕ
    → Text
    → List Block
    → World
    → Outcome (World × List Block)
unfolding match group_of
consume_braces zero report filename clean_lines linenum line stack w = ok (w, stack)
consume_braces (suc fuel) report filename clean_lines linenum line stack w =
    elim (match re_token line) [
      | none ↦ ok (w, stack)
      | some found ↦ (do
        (w', stack') ←
            take_token report filename clean_lines linenum (text_of (group_of 1 found.groups)) line
              stack w
        consume_braces fuel report filename clean_lines linenum (text_of (group_of 2 found.groups))
            stack' w')
    ]
