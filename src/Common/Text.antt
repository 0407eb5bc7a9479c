-- ===== src/Common/Text.antt =====
-- Texts as lists of code points, with the Python string methods that the linter calls.
use Prim.Native.Char.{code}
use Prim.Native.String.{String}
use Prim.Native.Nat.{ℕ, zero, suc, ◌+◌, ◌-◌, ◌/◌, ◌%◌}
use mathlib.Core.Bool.{Bool, true, false, not, ◌&&◌, ◌||◌}
use mathlib.Core.List.{List, [], ◌∷◌, ◌++◌, reverse}
use mathlib.Core.Logic.{◌↔◌, inl, inr}
use mathlib.Core.Option
use mathlib.Core.Option.{Option, none, some}
use mathlib.Core.Path.{◌≡◌}
use native.Mathlib.Omega.{arith}
use scalloc.Common.Lists.{length, take, every}
use scalloc.Common.Tests.{ltb, leb, ◌==◌, if◌then◌else◌, Bool-cases}

abbrev pub Text : Type 0
Text = List ℕ

-- The code points of a literal.
abbrev pub codes : String → Text
codes String.[] = []
codes (String.◌∷◌ c s) = code c ∷ codes s

unfoldable pub text_eq : Text → Text → Bool
text_eq [] [] = true
text_eq (x ∷ xs) (y ∷ ys) = x == y && text_eq xs ys
text_eq _ _ = false

pub text_eq_iff : (s t : Text) → (text_eq s t ≡ true) ↔ (s ≡ t)
unfolding text_eq
text_eq_iff (x ∷ s) (y ∷ t) = ground (arith, text_eq_iff s t)
text_eq_iff _ _ = ground arith

-- `x in (…)` over texts.
unfoldable pub mem_text : Text → List Text → Bool
unfolding text_eq
mem_text t [] = false
mem_text t (x ∷ xs) = text_eq t x || mem_text t xs

-- What holds of every text of a table holds of a member.
pub mem_text-every :
    (p : Text → Bool) (t : Text) (xs : List Text)
    → mem_text t xs ≡ true
    → every p xs ≡ true
    → p t ≡ true
unfolding mem_text
mem_text-every p t [] h k = cc
mem_text-every p t (x ∷ xs) h k = elim (Bool-cases (text_eq t x)) [
  | inl same ↦ rw ((text_eq_iff t x).0 same) (ground (arith, k))
  | inr other ↦ mem_text-every p t xs (rw other at h) (ground (arith, k))
]

abbrev pub is_empty {ℓ} : {A : Type ℓ} → List A → Bool
is_empty [] = true
is_empty (x ∷ xs) = false

-- s.startswith(p)
unfoldable pub starts_with : Text → Text → Bool
starts_with s [] = true
starts_with [] (p ∷ ps) = false
starts_with (c ∷ s) (p ∷ ps) = c == p && starts_with s ps

-- s.endswith(p)
unfoldable pub ends_with : Text → Text → Bool
unfolding starts_with
ends_with s p = starts_with (reverse s) (reverse p)

-- s[:-n], for the lengths at hand
unfoldable pub drop_last : ℕ → Text → Text
drop_last n s = take (length s - n) s

-- s.find(p), with `none` for -1
unfoldable pub find : Text → Text → Option ℕ
unfolding starts_with
find [] p = if is_empty p then some 0 else none
find (c ∷ s) p =
    let later = Option.map suc (find s p) in if starts_with (c ∷ s) p then some 0 else later

-- Occurrences that do not overlap; the number counts the characters of the last one still to skip.
unfoldable pub count_from : Text → ℕ → Text → ℕ
unfolding starts_with
count_from p skip [] = 0
count_from p (suc skip) (c ∷ s) = count_from p skip s
count_from p zero (c ∷ s) =
    let hit = starts_with (c ∷ s) p in
    (if hit then 1 else 0) + count_from p (if hit then length p - 1 else 0) s

-- s.count(p), for a `p` that is not empty
unfoldable pub count : Text → Text → ℕ
unfolding count_from
count s p = count_from p 0 s

unfoldable pub replace_from : Text → Text → ℕ → Text → Text
unfolding starts_with
replace_from old new skip [] = []
replace_from old new (suc skip) (c ∷ s) = replace_from old new skip s
replace_from old new zero (c ∷ s) =
    let hit = starts_with (c ∷ s) old in
    (if hit then new else c ∷ []) ++ replace_from old new (if hit then length old - 1 else 0) s

-- s.replace(old, new), for an `old` that is not empty
unfoldable pub replace : Text → Text → Text → Text
unfolding replace_from
replace s old new = replace_from old new 0 s

abbrev within : ℕ → ℕ → ℕ → Bool
within lo hi c = leb lo c && leb c hi

-- unicode.isspace of one character
unfoldable pub is_space : ℕ → Bool
is_space c =
    within 9 13 c
    || within 28 32 c
    || c == 0x85
    || c == 0xa0
    || c == 0x1680
    || c == 0x180e
    || within 0x2000 0x200a c
    || within 0x2028 0x2029 c
    || c == 0x202f
    || c == 0x205f
    || c == 0x3000

unfoldable pub lstrip : Text → Text
unfolding is_space
lstrip [] = []
lstrip (c ∷ s) = let rest = lstrip s in if is_space c then rest else c ∷ s

unfoldable pub rstrip : Text → Text
unfolding lstrip
rstrip s = reverse (lstrip (reverse s))

unfoldable pub strip : Text → Text
unfolding lstrip rstrip
strip s = rstrip (lstrip s)

abbrev pub cons_head : ℕ → List Text → List Text
cons_head c [] = (c ∷ []) ∷ []
cons_head c (w ∷ ws) = (c ∷ w) ∷ ws

-- s.split(c) for a separator of one character
unfoldable pub split_on : ℕ → Text → List Text
split_on sep [] = [] ∷ []
split_on sep (c ∷ s) = let rest = split_on sep s in if c == sep then [] ∷ rest else cons_head c rest

-- s.split(): the words between runs of white space; the flag says that a word is under way
unfoldable pub words_from : Bool → Text → List Text
unfolding is_space
words_from started [] = if started then [] ∷ [] else []
words_from true (c ∷ s) =
    let space = is_space c in
    let rest = words_from (not space) s in if space then [] ∷ rest else cons_head c rest
words_from false (c ∷ s) =
    let space = is_space c in
    let rest = words_from (not space) s in if space then rest else cons_head c rest

unfoldable pub words : Text → List Text
unfolding words_from
words s = words_from false s

-- str.lower and str.upper of one ASCII character
abbrev pub to_lower : ℕ → ℕ
to_lower c = if within b'A' b'Z' c then c + 32 else c

abbrev pub to_upper : ℕ → ℕ
to_upper c = if within b'a' b'z' c then c - 32 else c

-- A number in decimal, as `%d` writes it; a number has fewer digits than its value plus one.
unfoldable pub show_from : ℕ → ℕ → Text → Text
show_from zero n out = out
show_from (suc fuel) n out =
    let out' = (b'0' + n % 10) ∷ out in
    let rest = show_from fuel (n / 10) out' in if ltb n 10 then out' else rest

unfoldable pub show : ℕ → Text
unfolding show_from
show n = show_from (n + 1) n []
