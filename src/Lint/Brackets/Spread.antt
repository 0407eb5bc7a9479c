-- ===== src/Lint/Brackets/Spread.antt =====
-- Closing an expression over several lines is closing it in the lines joined.
use scalloc.Common.{
  ℕ, zero, suc, ◌+◌, List, [], ◌∷◌, ◌++◌, Option, none, some, ◌≡◌, refl, ap, ◌∙◌, arith, Bool-cases,
  inl, inr, get_or, get_elem?, drop, length, length-append, ◌⊎◌,
}
use scalloc.Common.Depth.{ℤ, pos}
use scalloc.Common.Text.{Text}
use scalloc.Lint.Brackets.{
  depth_after, closes, scan_end, Place, close_forward, close_expression, closing, first_or_forward,
  find_end_of_expression_in_line,
}

-- What a scan finds in a text, or in the text behind it.
abbrev continue : ℕ → ℕ → ℕ → Text → Text → Option ℕ × ℤ → Option ℕ × ℤ
continue o c i s t (some j, d) = (some j, d)
continue o c i s t (none, d) = scan_end o c (i + length s) d t

continue-cons :
    (o c i x : ℕ) (s t : Text) (r : Option ℕ × ℤ)
    → continue o c (suc i) s t r ≡ continue o c i (x ∷ s) t r
continue-cons o c i x s t (some j, d) = refl
continue-cons o c i x s t (none, d) =
    let e : suc i + length s ≡ i + suc (length s) = omega arith in
    ap (λ (n : ℕ). scan_end o c n d t) e

pub scan_end-append :
    (o c i : ℕ) (d : ℤ) (s t : Text)
    → scan_end o c i d (s ++ t) ≡ continue o c i s t (scan_end o c i d s)
unfolding scan_end
scan_end-append o c i d [] t =
    let e : i ≡ i + 0 = omega arith in ap (λ (n : ℕ). scan_end o c n d t) e
scan_end-append o c i d (x ∷ s) t = elim (Bool-cases (closes o c d x)) [
  | inl done ↦ rw done refl
  | inr on ↦ rw on (
      scan_end-append o c (suc i) (depth_after o c d x) s t
      ∙ continue-cons o c i x s t (scan_end o c (suc i) (depth_after o c d x) s))
]

abbrev pub joined : List Text → Text
joined [] = []
joined (l ∷ ls) = l ++ joined ls

abbrev shift : ℕ → Option ℕ → Option ℕ
shift i none = none
shift i (some j) = some (i + j)

scan_end-shift :
    (o c i k : ℕ) (d : ℤ) (s : Text)
    → scan_end o c (i + k) d s ≡ (shift i ((scan_end o c k d s).0), (scan_end o c k d s).1)
unfolding scan_end
scan_end-shift o c i k d [] = refl
scan_end-shift o c i k d (x ∷ s) = elim (Bool-cases (closes o c d x)) [
  | inl done ↦ let e : suc (i + k) ≡ i + suc k = omega arith in rw (done, e) refl
  | inr on ↦
      let e : suc (i + k) ≡ i + suc k = omega arith in
      rw on (
        ap (λ (n : ℕ). scan_end o c n (depth_after o c d x) s) e
        ∙ scan_end-shift o c i (suc k) (depth_after o c d x) s)
]

-- Where an offset into the joined lines lies, and the result that names the place; the line in front
-- of the first one has the number `n`.
pub record InLine (n : ℕ) (ls : List Text) (j : ℕ) (place : Place) : Type 0 where
  front : List Text
  here : Text
  back : List Text
  offset : ℕ
  lines : ls ≡ front ++ here ∷ back
  whole : j ≡ length (joined front) + offset
  result : place ≡ record { line = here; linenum = suc (n + length front); position = some offset }

abbrev pub Nowhere : ℕ → Place → Type 0
Nowhere total place = (place.linenum ≡ total) × (place.position ≡ none)

abbrev pub Spread : ℕ → ℕ → List Text → Option ℕ → Place → Type 0
Spread total n ls scan place =
    ((scan ≡ none) × Nowhere total place) ⊎ ((j : ℕ) × (scan ≡ some j) × InLine n ls j place)

InLine-cons :
    (n j : ℕ) (l : Text) (ls : List Text) (place : Place)
    → InLine (suc n) ls j place
    → InLine n (l ∷ ls) (length l + j) place
InLine-cons n j l ls place h = record {
  front = l ∷ h.front;
  here = h.here;
  back = h.back;
  offset = h.offset;
  lines = ap (◌∷◌ l) h.lines;
  whole = omega (arith, h.whole, length-append l (joined h.front));
  result =
      let e : suc n + length h.front ≡ n + suc (length h.front) = omega arith in
      h.result ∙ ap (λ m. record { line = h.here; linenum = suc m; position = some h.offset }) e;
}

module _ (o c : ℕ) (d z : ℤ) (l : Text) where
  forward-found :
      (total n j : ℕ) (line : Text) (ls : List Text)
      → scan_end o c 0 d l ≡ (some j, z)
      → close_forward o c total n d line (l ∷ ls)
        ≡ record { line = l; linenum = suc n; position = some j }
  unfolding close_forward
  forward-found total n j line ls e = rw (close_forward, e) refl

  forward-on :
      (total n : ℕ) (line : Text) (ls : List Text)
      → scan_end o c 0 d l ≡ (none, z)
      → close_forward o c total n d line (l ∷ ls) ≡ close_forward o c total (suc n) z l ls
  unfolding close_forward
  forward-on total n line ls e =
      rw (close_forward, e)
        (ap (λ (r : Option ℕ × ℤ). close_forward o c total (suc n) (r.1) l ls) e)

  joined-found :
      (j : ℕ) (t : Text) → scan_end o c 0 d l ≡ (some j, z) → (scan_end o c 0 d (l ++ t)).0 ≡ some j
  joined-found j t e = ap (λ r. r.0) (scan_end-append o c 0 d l t ∙ ap (continue o c 0 l t) e)

  joined-on :
      (t : Text)
      → scan_end o c 0 d l ≡ (none, z)
      → (scan_end o c 0 d (l ++ t)).0 ≡ shift (length l) ((scan_end o c 0 z t).0)
  joined-on t e =
      let k : 0 + length l ≡ length l + 0 = omega arith in
      ap (λ r. r.0)
        (scan_end-append o c 0 d l t
          ∙ (ap (continue o c 0 l t) e
              ∙ (ap (λ (i : ℕ). scan_end o c i z t) k ∙ scan_end-shift o c (length l) 0 z t)))

module _ (o c total : ℕ) where
  Spread-cons :
      (n : ℕ) (d : ℤ) (line l : Text) (ls : List Text) (r : Option ℕ × ℤ)
      → scan_end o c 0 d l ≡ r
      → ((z : ℤ)
          → Spread total
              (suc n)
              ls
              ((scan_end o c 0 z (joined ls)).0)
              (close_forward o c total (suc n) z l ls))
      → Spread total n
          (l ∷ ls)
          ((scan_end o c 0 d (joined (l ∷ ls))).0)
          (close_forward o c total n d line (l ∷ ls))
  Spread-cons n d line l ls (some j, z) e ih = inr (
    j,
    joined-found o c d z l j (joined ls) e,
    record {
      front = [];
      here = l;
      back = ls;
      offset = j;
      lines = refl;
      whole = omega arith;
      result =
          let k : suc n ≡ suc (n + 0) = omega arith in
          forward-found o c d z l total n j line ls e
          ∙ ap (λ m. record { line = l; linenum = m; position = some j }) k;
    },
  )
  Spread-cons n d line l ls (none, z) e ih =
      rw (joined-on o c d z l (joined ls) e, forward-on o c d z l total n line ls e)
        (elim (ih z) [
          | inl (h, k) ↦ inl (ap (shift (length l)) h, k)
          | inr (j, h, k) ↦ inr (length l + j, ap (shift (length l)) h, InLine-cons n j l ls _ k)
        ])

  -- The loop of `CloseExpression` over the lines behind the first one agrees with one scan of these
  -- lines joined: where the scan finds nothing the loop ends at NumLines() without a position, and
  -- where it finds an offset the loop names the line and the column of that offset.
  pub close_forward-joined :
      (n : ℕ) (d : ℤ) (line : Text) (ls : List Text)
      → Spread total n ls ((scan_end o c 0 d (joined ls)).0) (close_forward o c total n d line ls)
  unfolding scan_end close_forward
  close_forward-joined n d line [] = inl (refl, (refl, refl))
  close_forward-joined n d line (l ∷ ls) =
      Spread-cons n d line l ls _ refl (λ z. close_forward-joined (suc n) z l ls)

-- What `CloseExpression` may return, given what a scan finds from the bracket on in the rest of its
-- line joined to the lines behind it: nothing; a column of the same line; or a place behind it.
abbrev pub Closed : List Text → ℕ → ℕ → Text → Option ℕ → Place → Type 0
Closed elided linenum position line scan place =
    ((scan ≡ none) × Nowhere (length elided) place)
    ⊎ ((j : ℕ) × (scan ≡ some j)
        × ((place ≡ record { line = line; linenum = linenum; position = some (position + j) })
            ⊎ ((k : ℕ) × (j ≡ length (drop position line) + k)
                × InLine linenum (drop (suc linenum) elided) k place)))

module _ (elided : List Text) (linenum position o c : ℕ) (line : Text) where
  abbrev behind : Text
  behind = joined (drop (suc linenum) elided)

  later :
      (z : ℤ) (place : Place)
      → scan_end o c 0 (pos 0) (drop position line) ≡ (none, z)
      → Spread
          (length elided)
          linenum
          (drop (suc linenum) elided)
          ((scan_end o c 0 z behind).0)
          place
      → Closed elided linenum position line
          ((scan_end o c 0 (pos 0) (drop position line ++ behind)).0)
          place
  later z place e (inl (h, k)) = inl (
    joined-on o c (pos 0) z (drop position line) behind e
        ∙ ap (shift (length (drop position line))) h,
    k,
  )
  later z place e (inr (j, h, k)) = inr (
    length (drop position line) + j,
    joined-on o c (pos 0) z (drop position line) behind e
        ∙ ap (shift (length (drop position line))) h,
    inr (j, refl, k),
  )

  first :
      (r : Option ℕ × ℤ)
      → scan_end o c 0 (pos 0) (drop position line) ≡ r
      → Closed elided linenum position line
          ((scan_end o c 0 (pos 0) (drop position line ++ behind)).0)
          (first_or_forward elided o c line linenum (shift position r.0, r.1))
  first (some j, z) e =
      inr (j, joined-found o c (pos 0) z (drop position line) j behind e, inl refl)
  first (none, z) e =
      later z _ e
        (close_forward-joined o c (length elided) linenum z line (drop (suc linenum) elided))

get_or-some {ℓ} :
    {A : Type ℓ} (xs : List A) (i : ℕ) (a d : A) → get_elem? xs i ≡ some a → get_or xs i d ≡ a
get_or-some [] i a d e = absurd cc
get_or-some (x ∷ xs) zero a d e = cc
get_or-some (x ∷ xs) (suc i) a d e = get_or-some xs i a d e

abbrev close_by : List Text → ℕ → ℕ → Text → ℕ → Option ℕ → Place
close_by elided linenum position line o none = record {
  line = line;
  linenum = length elided;
  position = none;
}
close_by elided linenum position line o (some c) =
    first_or_forward elided o c line linenum
      (find_end_of_expression_in_line line position (pos 0) o c)

close_by-expression :
    (elided : List Text) (linenum position : ℕ)
    → let line = get_or elided linenum [] in
      let o = get_or line position 0 in
      close_expression elided linenum position ≡ close_by elided linenum position line o (closing o)
unfolding close_expression
close_by-expression elided linenum position = refl

-- `CloseExpression` at one of the four brackets `o` agrees with one scan of the rest of the line
-- joined to the lines behind it. When the scan finds nothing, it returns NumLines() and -1; when the
-- scan finds an offset, it returns the line, the number and the column of that offset.
pub close_expression-joined :
    (elided : List Text) (linenum position o c : ℕ) (line : Text)
    → get_elem? elided linenum ≡ some line
    → get_elem? line position ≡ some o
    → closing o ≡ some c
    → Closed elided linenum position line
        ((scan_end o c 0 (pos 0) (drop position line ++ joined (drop (suc linenum) elided))).0)
        (close_expression elided linenum position)
unfolding find_end_of_expression_in_line
close_expression-joined elided linenum position o c line h k m =
    let p : position ≡ position + 0 = omega arith in
    let by = close_by elided linenum position in
    let opened : close_expression elided linenum position ≡ by line o (some c) =
      close_by-expression elided linenum position
      ∙ (ap (λ l. by l (get_or l position 0) (closing (get_or l position 0)))
            (get_or-some elided linenum line [] h)
          ∙ (ap (λ x. by line x (closing x)) (get_or-some line position o 0 k)
              ∙ ap (by line o) m)) in
    let scanned : by line o (some c)
        ≡ first_or_forward elided o c line linenum (
          shift position ((scan_end o c 0 (pos 0) (drop position line)).0),
          (scan_end o c 0 (pos 0) (drop position line)).1,
        ) =
      ap (first_or_forward elided o c line linenum) (
        ap (λ (i : ℕ). scan_end o c i (pos 0) (drop position line)) p
        ∙ scan_end-shift o c position 0 (pos 0) (drop position line)) in
    rw (opened, scanned) (first elided linenum position o c line _ refl)
