-- ===== src/Lint/HeaderGuard/Accepted.antt =====
-- A header that is guarded as `CheckForHeaderGuard` of tools/cpplint.py asks for is accepted.
use scalloc.Common.{
  ℕ, suc, List, [], ◌∷◌, ◌++◌, Option, none, some, Bool, true, false, ◌||◌, ◌≡◌, refl, ap, ◌∙◌,
  arith, All, Bool-cases, inl, inr,
}
use scalloc.Common.Text.{
  Text, codes, text_eq, text_eq_iff, words, words_from, is_space, starts_with, cons_head,
}
use scalloc.Lint.World.{ok, World, ErrorFn}
use scalloc.Lint.HeaderGuard.{
  Guards, no_guards, see_words, see_line, see_lines, endif_line, check_guards, check_ifndef,
  check_endif, check_with_variable,
}

abbrev pub NotSpace : ℕ → Type 0
NotSpace c = is_space c ≡ false

words_from-word : (v : Text) → All NotSpace v → words_from true v ≡ v ∷ []
unfolding words_from
words_from-word [] h = refl
words_from-word (c ∷ v) (n, h) = rw n (ap (cons_head c) (words_from-word v h))

words-word : (c : ℕ) (v : Text) → All NotSpace (c ∷ v) → words_from false (c ∷ v) ≡ (c ∷ v) ∷ []
unfolding words_from
words-word c v (n, h) = rw n (ap (cons_head c) (words_from-word v h))

abbrev pub ifndef_line : Text → Text
ifndef_line v = codes "#ifndef " ++ v

abbrev pub define_line : Text → Text
define_line v = codes "#define " ++ v

words-ifndef :
    (c : ℕ) (v : Text)
    → All NotSpace (c ∷ v)
    → words (ifndef_line (c ∷ v)) ≡ codes "#ifndef" ∷ (c ∷ v) ∷ []
unfolding words words_from is_space
words-ifndef c v h = ap (◌∷◌ (codes "#ifndef")) (words-word c v h)

words-define :
    (c : ℕ) (v : Text)
    → All NotSpace (c ∷ v)
    → words (define_line (c ∷ v)) ≡ codes "#define" ∷ (c ∷ v) ∷ []
unfolding words words_from is_space
words-define c v h = ap (◌∷◌ (codes "#define")) (words-word c v h)

-- A line that starts no guard, whatever is behind.
abbrev starts_guard : List Text → Bool
starts_guard (directive ∷ name ∷ rest) =
    text_eq directive (codes "#ifndef") || text_eq directive (codes "#define")
starts_guard _ = false

abbrev pub Plain : Text → Type 0
Plain line = starts_guard (words line) ≡ false

-- The names that the loop has seen.
abbrev Seen : Option Text → Option Text → Guards → Type 0
Seen a b g = (g.ifndef ≡ a) × (g.define ≡ b)

see_words-Plain :
    (n : ℕ) (ws : List Text) (g : Guards)
    → starts_guard ws ≡ false
    → Seen none none g
    → Seen none none (see_words n ws g)
unfolding see_words
see_words-Plain n [] g p h = h
see_words-Plain n (d ∷ []) g p h = h
see_words-Plain n (d ∷ m ∷ ws) g p (a, b) = ground (arith, p, a, b)

see_words-kept :
    (n : ℕ) (ws : List Text) (g : Guards) (v u : Text)
    → Seen (some v) (some u) g
    → Seen (some v) (some u) (see_words n ws g)
unfolding see_words
see_words-kept n [] g v u h = h
see_words-kept n (d ∷ []) g v u h = h
see_words-kept n (d ∷ m ∷ ws) g v u (a, b) = ground (arith, a, b)

-- The test for #endif changes neither name.
see_line-Seen :
    (n : ℕ) (line : Text) (g : Guards) (a b : Option Text)
    → Seen a b (see_words n (words line) g)
    → Seen a b (see_line n line g)
unfolding see_line
see_line-Seen n line g a b h = elim (Bool-cases (starts_with line (codes "#endif"))) [
  | inl e ↦ rw (see_line, e) h
  | inr e ↦ rw (see_line, e) h
]

see_words-ifndef :
    (n : ℕ) (v : Text) (g : Guards)
    → Seen none none g
    → Seen (some v) none (see_words n (codes "#ifndef" ∷ v ∷ []) g)
unfolding see_words text_eq
see_words-ifndef n v g (a, b) = ground (arith, a, b)

see_words-define :
    (n : ℕ) (v u : Text) (g : Guards)
    → Seen (some v) none g
    → Seen (some v) (some u) (see_words n (codes "#define" ∷ u ∷ []) g)
unfolding see_words text_eq
see_words-define n v u g (a, b) = ground (arith, a, b)

see_lines-Plain :
    (n : ℕ) (pre rest : List Text) (g : Guards)
    → All Plain pre
    → Seen none none g
    → (m : ℕ) × (g' : Guards) × (see_lines n (pre ++ rest) g ≡ see_lines m rest g')
      × Seen none none g'
unfolding see_lines
see_lines-Plain n [] rest g h s = (n, g, refl, s)
see_lines-Plain n (line ∷ pre) rest g (p, h) s =
    see_lines-Plain (suc n) pre rest (see_line n line g) h
      (see_line-Seen n line g _ _ (see_words-Plain n (words line) g p s))

see_lines-kept :
    (n : ℕ) (body rest : List Text) (g : Guards) (v u : Text)
    → Seen (some v) (some u) g
    → (m : ℕ) × (g' : Guards) × (see_lines n (body ++ rest) g ≡ see_lines m rest g')
      × Seen (some v) (some u) g'
unfolding see_lines
see_lines-kept n [] rest g v u s = (n, g, refl, s)
see_lines-kept n (line ∷ body) rest g v u s =
    see_lines-kept (suc n) body rest (see_line n line g) v u
      (see_line-Seen n line g _ _ (see_words-kept n (words line) g v u s))

-- A line that is not an #endif.
abbrev pub NotEndif : Text → Type 0
NotEndif line = starts_with line (codes "#endif") ≡ false

abbrev Closed : Text → Text → Guards → Type 0
Closed v line g = Seen (some v) (some v) g × (g.endif ≡ some line)

see_line-endif :
    (n : ℕ) (v u : Text) (g : Guards)
    → Seen (some v) (some v) g
    → Closed v (endif_line u) (see_line n (endif_line u) g)
unfolding see_line endif_line starts_with
see_line-endif n v u g s = (see_line-Seen n (endif_line u) g _ _ (see_words-kept n _ g v v s), refl)

see_words-endif : (n : ℕ) (ws : List Text) (g : Guards) → (see_words n ws g).endif ≡ g.endif
unfolding see_words
see_words-endif n [] g = refl
see_words-endif n (d ∷ []) g = refl
see_words-endif n (d ∷ m ∷ ws) g = ground arith

see_lines-Closed :
    (n : ℕ) (post : List Text) (v line : Text) (g : Guards)
    → All NotEndif post
    → Closed v line g
    → Closed v line (see_lines n post g)
unfolding see_lines
see_lines-Closed n [] v line g h c = c
see_lines-Closed n (l ∷ post) v line g (p, h) (s, e) =
    see_lines-Closed (suc n) post v line (see_line n l g) h (
      see_line-Seen n l g _ _ (see_words-kept n (words l) g v v s),
      rw (see_line, p) (see_words-endif n (words l) g ∙ e),
    )

same : (v : Text) → text_eq v v ≡ true
same v = (text_eq_iff v v).1 refl

check_guards-Closed :
    (report : ErrorFn) (filename v : Text) (lines : List Text) (g : Guards) (w : World)
    → Closed v (endif_line v) g
    → check_guards report filename v lines g w ≡ ok w
unfolding check_guards check_ifndef check_endif
check_guards-Closed report filename v lines g w ((a, b), e) =
    rw (check_guards, a, b, same v, e, same (endif_line v)) refl

-- The lines of a guarded header: `pre` before the guard, `body` inside, `post` behind.
abbrev pub guarded : Text → List Text → List Text → List Text → List Text
guarded v pre body post = pre ++ (ifndef_line v ∷ define_line v ∷ (body ++ endif_line v ∷ post))

one :
    (n : ℕ) (a : Text) (rest : List Text) (g : Guards)
    → see_lines n (a ∷ rest) g ≡ see_lines (suc n) rest (see_line n a g)
unfolding see_lines
one n a rest g = refl

two :
    (n : ℕ) (a b : Text) (rest : List Text) (g : Guards)
    → see_lines n (a ∷ b ∷ rest) g
      ≡ see_lines (suc (suc n)) rest (see_line (suc n) b (see_line n a g))
unfolding see_lines
two n a b rest g = refl

guarded-Closed :
    (c : ℕ) (v : Text) (pre body post : List Text)
    → All NotSpace (c ∷ v)
    → All Plain pre
    → All NotEndif post
    → Closed (c ∷ v) (endif_line (c ∷ v)) (see_lines 0 (guarded (c ∷ v) pre body post) no_guards)
guarded-Closed c v pre body post h p q =
    let name = c ∷ v in
    let (n, g, e, s) =
      see_lines-Plain 0 pre (ifndef_line name ∷ define_line name ∷ (body ++ endif_line name ∷ post))
        no_guards p (refl, refl) in
    let s₁ =
      see_line-Seen n (ifndef_line name) g (some name) none
        (rw (words-ifndef c v h) (see_words-ifndef n name g s)) in
    let g₁ = see_line n (ifndef_line name) g in
    let s₂ =
      see_line-Seen (suc n) (define_line name) g₁ (some name) (some name)
        (rw (words-define c v h) (see_words-define (suc n) name name g₁ s₁)) in
    let g₂ = see_line (suc n) (define_line name) g₁ in
    let (m, g₃, k, s₃) =
      see_lines-kept (suc (suc n)) body (endif_line name ∷ post) g₂ name name s₂ in
    rw
      (e
        ∙ two n (ifndef_line name) (define_line name) (body ++ endif_line name ∷ post) g
        ∙ k
        ∙ one m (endif_line name) post g₃)
      (see_lines-Closed (suc m) post name (endif_line name) (see_line m (endif_line name) g₃) q
        (see_line-endif m name name g₃ s₃))

-- A header whose lines are those of a guard by the variable of the file, with anything between the
-- #define and the last #endif, is accepted in silence: no line before the guard starts one, none
-- behind it is an #endif, and the variable is not empty and has no white space.
pub guarded_header_accepted :
    (report : ErrorFn) (filename : Text) (c : ℕ) (v : Text) (pre body post : List Text) (w : World)
    → All NotSpace (c ∷ v)
    → All Plain pre
    → All NotEndif post
    → check_with_variable report filename (c ∷ v) (guarded (c ∷ v) pre body post) w ≡ ok w
unfolding check_with_variable
guarded_header_accepted report filename c v pre body post w h p q =
    let lines = guarded (c ∷ v) pre body post in
    check_guards-Closed report filename (c ∷ v) lines (see_lines 0 lines no_guards) w
      (guarded-Closed c v pre body post h p q)
