-- ===== src/Lint/Brackets/RoundTrip.antt =====
-- The two searches inside one line of tools/cpplint.py, `FindEndOfExpressionInLine` and
-- `FindStartOfExpressionInLine`, find each other's bracket.
use mathlib.Core.List.{reverse_aux, reverse_aux-append}
use scalloc.Common.{
  ℕ, zero, suc, ◌+◌, ◌-◌, [], ◌∷◌, ◌++◌, reverse, Option, some, true, false, ◌≡◌, refl, ap, sym,
  ◌∙◌, arith, Bool-cases, inl, inr, length, take, drop, get_elem?, ◌==◌, length-append,
  take-append-drop, ==_iff,
}
use scalloc.Common.Depth.{ℤ, pos}
use scalloc.Common.Text.{Text}
use scalloc.Lint.Brackets.{
  scan_end, scan_start, find_end_of_expression_in_line, find_start_of_expression_in_line,
}

length-reverse_aux : (s t : Text) → length (reverse_aux s t) ≡ length s + length t
length-reverse_aux [] t = omega arith
length-reverse_aux (x ∷ s) t = omega (arith, length-reverse_aux s (x ∷ t))

drop-get_elem? : (s : Text) (p x : ℕ) → get_elem? s p ≡ some x → drop p s ≡ x ∷ drop (suc p) s
drop-get_elem? [] p x e = absurd cc
drop-get_elem? (y ∷ s) zero x e = cc
drop-get_elem? (y ∷ s) (suc p) x e = drop-get_elem? s p x e

length-take_lt : (s : Text) (p x : ℕ) → get_elem? s p ≡ some x → length (take p s) ≡ p
length-take_lt [] p x e = absurd cc
length-take_lt (y ∷ s) zero x e = refl
length-take_lt (y ∷ s) (suc p) x e = ap suc (length-take_lt s p x e)

-- A text that brings the depth from `suc d` to 1 and never to 0, read forward; then read backward it
-- brings the depth from 1 to `suc d` and finds nothing.
abbrev Balanced : ℕ → ℕ → ℕ → Text → Type 0
Balanced o c d u =
    (rest : Text) → scan_start o c (pos 1) (reverse_aux u rest) ≡ scan_start o c (pos (suc d)) rest

record Split (o c i d : ℕ) (s : Text) (j : ℕ) : Type 0 where
  body : Text
  tail : Text
  text : s ≡ body ++ c ∷ tail
  place : j ≡ suc (i + length body)
  balanced : Balanced o c d body

-- A step of either scan on a bracket or on another character; the depth stays above 0.
start-open :
    (o c x d : ℕ) (rest : Text)
    → (x == o) ≡ true
    → (o == c) ≡ false
    → scan_start o c (pos (suc (suc d))) (x ∷ rest) ≡ scan_start o c (pos (suc d)) rest
unfolding scan_start
start-open o c x d rest h n = ground (arith, h, n)

start-close :
    (o c x d : ℕ) (rest : Text)
    → (x == c) ≡ true
    → scan_start o c (pos d) (x ∷ rest) ≡ scan_start o c (pos (suc d)) rest
unfolding scan_start
start-close o c x d rest h = ground (arith, h)

start-other :
    (o c x d : ℕ) (rest : Text)
    → (x == o) ≡ false
    → (x == c) ≡ false
    → scan_start o c (pos (suc d)) (x ∷ rest) ≡ scan_start o c (pos (suc d)) rest
unfolding scan_start
start-other o c x d rest m n = ground (arith, m, n)

end-open :
    (o c i x d : ℕ) (s : Text)
    → (x == o) ≡ true
    → scan_end o c i (pos d) (x ∷ s) ≡ scan_end o c (suc i) (pos (suc d)) s
unfolding scan_end
end-open o c i x d s h = ground (arith, h)

end-close :
    (o c i x d : ℕ) (s : Text)
    → (x == o) ≡ false
    → (x == c) ≡ true
    → scan_end o c i (pos (suc (suc d))) (x ∷ s) ≡ scan_end o c (suc i) (pos (suc d)) s
unfolding scan_end
end-close o c i x d s n h = ground (arith, n, h)

end-last :
    (o c i x : ℕ) (s : Text)
    → (x == o) ≡ false
    → (x == c) ≡ true
    → scan_end o c i (pos 1) (x ∷ s) ≡ (some (suc i), pos 0)
unfolding scan_end
end-last o c i x s n h = ground (arith, n, h)

end-other :
    (o c i x d : ℕ) (s : Text)
    → (x == o) ≡ false
    → (x == c) ≡ false
    → scan_end o c i (pos (suc d)) (x ∷ s) ≡ scan_end o c (suc i) (pos (suc d)) s
unfolding scan_end
end-other o c i x d s m n = ground (arith, m, n)

longer :
    (o c i d e x j : ℕ) (s : Text) (r : Split o c (suc i) e s j)
    → ((rest : Text) → scan_start o c (pos (suc e)) (x ∷ rest) ≡ scan_start o c (pos (suc d)) rest)
    → Split o c i d (x ∷ s) j
longer o c i d e x j s r h = record {
  body = x ∷ r.body;
  tail = r.tail;
  text = ap (◌∷◌ x) r.text;
  place = omega (arith, r.place);
  balanced = λ rest. r.balanced (x ∷ rest) ∙ h rest;
}

some_place : (i j : ℕ) → some i ≡ some j → j ≡ i
some_place i j e = cc

last :
    (o c i x j : ℕ) (s : Text) (z : ℤ)
    → (x == o) ≡ false
    → (x == c) ≡ true
    → scan_end o c i (pos 1) (x ∷ s) ≡ (some j, z)
    → Split o c i 0 (x ∷ s) j
last o c i x j s z m h e = record {
  body = [];
  tail = s;
  text = ap (λ (y : ℕ). y ∷ s) ((==_iff x c).0 h);
  place = omega (
    arith,
    some_place (suc i) j (ap (λ (r : Option ℕ × ℤ). r.0) (sym (end-last o c i x s m h) ∙ e)),
  );
  balanced = λ rest. refl;
}

none_found : (o c i : ℕ) (d z : ℤ) (j : ℕ) → scan_end o c i d [] ≡ (some j, z) → ⊥
unfolding scan_end
none_found o c i d z j e = cc

shut :
    (o c i x d : ℕ) (s : Text) (j : ℕ) (z : ℤ)
    → ((d' : ℕ) → scan_end o c (suc i) (pos (suc d')) s ≡ (some j, z) → Split o c (suc i) d' s j)
    → (x == o) ≡ false
    → (x == c) ≡ true
    → scan_end o c i (pos (suc d)) (x ∷ s) ≡ (some j, z)
    → Split o c i d (x ∷ s) j
shut o c i x zero s j z ih m h e = last o c i x j s z m h e
shut o c i x (suc d) s j z ih m h e =
    longer o c i (suc d) d x j s (ih d (sym (end-close o c i x d s m h) ∙ e))
      (λ rest. start-close o c x (suc d) rest h)

split :
    (o c i d : ℕ) (s : Text) (j : ℕ) (z : ℤ)
    → (o == c) ≡ false
    → scan_end o c i (pos (suc d)) s ≡ (some j, z)
    → Split o c i d s j
split o c i d [] j z n e = absurd (none_found o c i (pos (suc d)) z j e)
split o c i d (x ∷ s) j z n e = elim (Bool-cases (x == o)) [
  | inl h ↦
      longer o c i d (suc d) x j s
        (split o c (suc i) (suc d) s j z n (sym (end-open o c i x (suc d) s h) ∙ e))
        (λ rest. start-open o c x d rest h n)
  | inr m ↦ elim (Bool-cases (x == c)) [
    | inl h ↦ shut o c i x d s j z (λ d. split o c (suc i) d s j z n) m h e
    | inr k ↦
        longer o c i d d x j s (split o c (suc i) d s j z n (sym (end-other o c i x d s m k) ∙ e))
          (λ rest. start-other o c x d rest m k)
  ]
]

take-through : (xs ys : Text) (y k : ℕ) → k ≡ length xs → take (suc k) (xs ++ y ∷ ys) ≡ xs ++ y ∷ []
take-through [] ys y k e = rw e refl
take-through (x ∷ xs) ys y zero e = absurd (omega arith)
take-through (x ∷ xs) ys y (suc k) e = ap (◌∷◌ x) (take-through xs ys y k (omega arith))

-- The text up to a bracket, read backward from it.
backward-take :
    (xs ys : Text) (y k : ℕ)
    → k ≡ length xs
    → reverse (take (suc k) (xs ++ y ∷ ys)) ≡ y ∷ reverse xs
backward-take xs ys y k e =
    ap reverse (take-through xs ys y k e) ∙ reverse_aux-append xs (y ∷ []) []

get_elem?-through : (xs ys : Text) (y k : ℕ) → k ≡ length xs → get_elem? (xs ++ y ∷ ys) k ≡ some y
get_elem?-through [] ys y k e = rw e refl
get_elem?-through (x ∷ xs) ys y zero e = absurd (omega arith)
get_elem?-through (x ∷ xs) ys y (suc k) e = get_elem?-through xs ys y k (omega arith)

++_assoc : (xs ys zs : Text) → xs ++ (ys ++ zs) ≡ (xs ++ ys) ++ zs
++_assoc [] ys zs = refl
++_assoc (x ∷ xs) ys zs = ap (◌∷◌ x) (++_assoc xs ys zs)

start-last :
    (o c : ℕ) (s : Text)
    → (o == c) ≡ false
    → scan_start o c (pos 1) (o ∷ s) ≡ (some (length s), pos 0)
unfolding scan_start
start-last o c s n = ground (arith, n)

length-reverse : (s : Text) → length (reverse s) ≡ length s
length-reverse s = omega (arith, length-reverse_aux s [])

start-closing :
    (o c : ℕ) (pre body : Text)
    → (o == c) ≡ false
    → Balanced o c 0 body
    → scan_start o c (pos 0) (c ∷ reverse (pre ++ o ∷ body)) ≡ (some (length pre), pos 0)
start-closing o c pre body n h =
    start-close o c c 0 _ (ground arith)
    ∙ (ap (scan_start o c (pos 1)) (reverse_aux-append pre (o ∷ body) [])
        ∙ (h (o ∷ reverse pre)
            ∙ (start-last o c (reverse pre) n ∙ ap (λ k. (some k, pos 0)) (length-reverse pre))))

split_line :
    (line : Text) (p o c j : ℕ)
    → get_elem? line p ≡ some o
    → (r : Split o c (suc p) 0 (drop (suc p) line) j)
    → line ≡ (take p line ++ o ∷ r.body) ++ c ∷ r.tail
split_line line p o c j at r =
    sym (take-append-drop p line)
    ∙ (ap (take p line ++◌) (drop-get_elem? line p o at ∙ ap (◌∷◌ o) r.text)
        ∙ ++_assoc (take p line) (o ∷ r.body) (c ∷ r.tail))

-- When `FindEndOfExpressionInLine` starts on an opening bracket at depth 0 and finds the closing one
-- (it returns the position behind it), the character there is the closing bracket, and
-- `FindStartOfExpressionInLine` from it at depth 0 returns the position of the opening bracket.
-- The two brackets are different characters.
pub find_start-find_end :
    (line : Text) (p o c j : ℕ) (z : ℤ)
    → (o == c) ≡ false
    → get_elem? line p ≡ some o
    → find_end_of_expression_in_line line p (pos 0) o c ≡ (some j, z)
    → (get_elem? line (j - 1) ≡ some c)
      × (find_start_of_expression_in_line line (j - 1) (pos 0) o c ≡ (some p, pos 0))
unfolding find_end_of_expression_in_line find_start_of_expression_in_line
find_start-find_end line p o c j z n at e =
    let r = split o c (suc p) 0 (drop (suc p) line) j z n (
      sym (end-open o c p o 0 _ (ground arith))
      ∙ (ap (scan_end o c p (pos 0)) (sym (drop-get_elem? line p o at)) ∙ e)) in
    let l = split_line line p o c j at r in
    let k : j - 1 ≡ length (take p line ++ o ∷ r.body) =
      omega
        (arith, r.place, length-append (take p line) (o ∷ r.body), length-take_lt line p o at) in
    (
      ap (λ t. get_elem? t (j - 1)) l
          ∙ get_elem?-through (take p line ++ o ∷ r.body) r.tail c (j - 1) k,
      ap (scan_start o c (pos 0)) (
            ap (λ t. reverse (take (suc (j - 1)) t)) l
            ∙ backward-take (take p line ++ o ∷ r.body) r.tail c (j - 1) k)
          ∙ (start-closing o c (take p line) r.body n r.balanced
              ∙ ap (λ k. (some k, pos 0)) (length-take_lt line p o at)),
    )
