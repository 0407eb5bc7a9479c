-- ===== src/Common/Regex.antt =====
-- The part of Python's `re` that the linter's patterns use: a backtracking matcher with groups.
pub mod Laws
pub mod Shrink
use Prim.Native.Nat.{ℕ, zero, suc, ◌-◌}
use mathlib.Core.Bool.{Bool, true, false, not, ◌&&◌, ◌||◌, xor}
use mathlib.Core.List.{List, [], ◌∷◌, ◌++◌}
use mathlib.Core.Option.{Option, none, some}
use scalloc.Common.Lists.{length, take, any}
use scalloc.Common.Tests.{ltb, leb, ◌==◌, if◌then◌else◌}
use scalloc.Common.Text.{Text}

-- `one p` reads a character of a class, `ahead` is `(?=…)`, `group n` is the n-th parenthesis,
-- `few` is the lazy `*?`.
pub data Regex : Type 0 where
  eps : Regex
  one : (ℕ → Bool) → Regex
  seq : Regex → Regex → Regex
  alt : Regex → Regex → Regex
  star : Regex → Regex
  few : Regex → Regex
  group : ℕ → Regex → Regex
  bol : Regex
  eol : Regex
  boundary : Regex
  ahead : Regex → Regex

-- A position in a line: the text before it, last character first, and the text behind it.
pub record Cursor : Type 0 where
  pub before : Text
  pub after : Text

abbrev pub Groups : Type 0
Groups = List (ℕ × Text)

pub record Found : Type 0 where
  pub end : Cursor
  pub groups : Groups

abbrev pub Cont : Type 0
Cont = Cursor → Groups → Option Found

abbrev pub is_word : ℕ → Bool
is_word c =
    (leb b'a' c && leb c b'z')
    || (leb b'A' c && leb c b'Z')
    || (leb b'0' c && leb c b'9')
    || c == b'_'

abbrev head_is_word : Text → Bool
head_is_word [] = false
head_is_word (c ∷ s) = is_word c

-- `$` holds at the end, and before a newline at the end.
abbrev at_end : Text → Bool
at_end [] = true
at_end (c ∷ []) = c == b'\n'
at_end (c ∷ d ∷ s) = false

abbrev step_one : (ℕ → Bool) → Cont → Text → Text → Groups → Option Found
step_one p k before [] g = none
step_one p k before (c ∷ s) g = elim (p c) [
  | true ↦ k (record { before = c ∷ before; after = s }) g
  | false ↦ none
]

abbrev or_else : Option Found → Option Found → Option Found
or_else (some m) n = some m
or_else none n = n

-- The text read between two positions of one line.
abbrev pub between : Cursor → Cursor → Text
between c d = take (length c.after - length d.after) c.after

-- A round that reads nothing ends the loop, so a loop has at most as many rounds as characters.
star_loop : (Cont → Cont) → ℕ → Cont → Cont
star_loop m zero k c g = k c g
star_loop m (suc n) k c g =
    elim (m
      (λ d h. elim (ltb (length d.after) (length c.after)) [
        | true ↦ star_loop m n k d h
        | false ↦ none
      ])
      c g) [ some f ↦ some f | none ↦ k c g ]

few_loop : (Cont → Cont) → ℕ → Cont → Cont
few_loop m zero k c g = k c g
few_loop m (suc n) k c g = elim (k c g) [
  | some f ↦ some f
  | none ↦
      m
        (λ d h. elim (ltb (length d.after) (length c.after)) [
          | true ↦ few_loop m n k d h
          | false ↦ none
        ])
        c g
]

unfoldable pub run : Regex → Cont → Cont
unfolding star_loop few_loop xor
run eps k c g = k c g
run (one p) k c g = step_one p k c.before c.after g
run (seq r s) k c g = run r (λ d h. run s k d h) c g
run (alt r s) k c g = elim (run r k c g) [ some f ↦ some f | none ↦ run s k c g ]
run (star r) k c g = star_loop (run r) (length c.after) k c g
run (few r) k c g = few_loop (run r) (length c.after) k c g
run (group n r) k c g = run r (λ d h. k d ((n, between c d) ∷ h)) c g
run bol k c g = elim c.before [ [] ↦ k c g | x ∷ s ↦ none ]
run eol k c g = elim (at_end c.after) [ true ↦ k c g | false ↦ none ]
run boundary k c g = elim (xor (head_is_word c.before) (head_is_word c.after)) [
  | true ↦ k c g
  | false ↦ none
]
run (ahead r) k c g = elim (run r (λ d h. some (record { end = d; groups = h })) c g) [
  | some f ↦ k c g
  | none ↦ none
]

-- A match that begins at a position.
unfoldable pub match_at : Regex → Cursor → Option Found
unfolding run
match_at r c = run r (λ d h. some (record { end = d; groups = h })) c []

-- pattern.match(s)
unfoldable pub match : Regex → Text → Option Found
unfolding match_at
match r s = match_at r (record { before = []; after = s })

unfoldable pub search_from : Regex → Text → Text → Option Found
unfolding match_at
search_from r before [] = match_at r (record { before = before; after = [] })
search_from r before (c ∷ s) = elim (match_at r (record { before = before; after = c ∷ s })) [
  | some f ↦ some f
  | none ↦ search_from r (c ∷ before) s
]

-- pattern.search(s)
unfoldable pub search_re : Regex → Text → Option Found
unfolding search_from
search_re r s = search_from r [] s

-- The rounds of a substitution are at most the characters left.
sub_from : Regex → Text → ℕ → Text → Text → Text
unfolding match_at
sub_from r rep zero before after = after
sub_from r rep (suc n) before [] = []
sub_from r rep (suc n) before (c ∷ s) =
    elim (match_at r (record { before = before; after = c ∷ s })) [
      | some f ↦ rep ++ sub_from r rep n f.end.before f.end.after
      | none ↦ c ∷ sub_from r rep n (c ∷ before) s
    ]

-- pattern.sub(rep, s), for a pattern that matches no empty text and a literal replacement
unfoldable pub sub : Regex → Text → Text → Text
unfolding sub_from
sub r rep s = sub_from r rep (length s) [] s

-- match.group(n), with `none` for a group that took no part
unfoldable pub group_of : ℕ → Groups → Option Text
group_of n [] = none
group_of n ((m, t) ∷ g) = if m == n then some t else group_of n g

abbrev pub matches : Regex → Text → Bool
matches r s = elim (match r s) [ some f ↦ true | none ↦ false ]

abbrev pub searches : Regex → Text → Bool
searches r s = elim (search_re r s) [ some f ↦ true | none ↦ false ]

-- Abbreviations for the pieces of a pattern.
abbrev pub opt : Regex → Regex
opt r = alt r eps

abbrev pub plus : Regex → Regex
plus r = seq r (star r)

abbrev pub chr : ℕ → Regex
chr c = one (λ d. d == c)

abbrev pub lit : Text → Regex
lit [] = eps
lit (c ∷ s) = seq (chr c) (lit s)

abbrev pub mem : ℕ → Text → Bool
mem c s = any (λ d. d == c) s

-- `[…]` and `[^…]` over single characters
abbrev pub one_of : Text → Regex
one_of s = one (λ c. mem c s)

abbrev pub none_of : Text → Regex
none_of s = one (λ c. not (mem c s))

-- `.`, `\s`, `\S`, `\w`, `\W`
abbrev pub dot : Regex
dot = one (λ c. not (c == b'\n'))

-- `\s` without re.UNICODE
abbrev pub is_blank : ℕ → Bool
is_blank c = (leb 9 c && leb c 13) || c == 32

abbrev pub blank : Regex
blank = one is_blank

abbrev pub not_blank : Regex
not_blank = one (λ c. not (is_blank c))

abbrev pub word : Regex
word = one is_word

abbrev pub not_word : Regex
not_word = one (λ c. not (is_word c))

abbrev pub seqs : List Regex → Regex
seqs [] = eps
seqs (r ∷ rs) = seq r (seqs rs)

abbrev pub alts : Regex → List Regex → Regex
alts r [] = r
alts r (s ∷ rs) = alt r (alts s rs)
