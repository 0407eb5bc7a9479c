-- ===== src/Lint/Cleanse/Comments/Removal.antt =====
-- What `RemoveMultiLineComments` does to the lines, and that its rounds are enough.
use scalloc.Common.{
  ℕ, zero, suc, ◌+◌, ◌≤◌, ◌<◌, List, [], ◌∷◌, some, Bool, ◌≡◌, inl, inr, refl, ap, arith,
  Bool-cases, Option-cases, length, drop,
}
use scalloc.Common.Text.{Text}
use scalloc.Lint.World.{Outcome, ok, World, ErrorFn}
use scalloc.Lint.Cleanse.Comments.{
  starts_comment, ends_comment, first_index, find_next_multi_line_comment_start, or_length,
  find_next_multi_line_comment_end, remove_from_range, Round, stop, next, remove_round,
  remove_rounds,
}

pub length-remove_from_range :
    (ls : List Text) (begin end : ℕ) → length (remove_from_range ls begin end) ≡ length ls
unfolding remove_from_range
length-remove_from_range [] begin end = refl
length-remove_from_range (l ∷ ls) begin zero = refl
length-remove_from_range (l ∷ ls) zero (suc end) = ap suc (length-remove_from_range ls zero end)
length-remove_from_range (l ∷ ls) (suc begin) (suc end) =
    ap suc (length-remove_from_range ls begin end)

-- An index that is found is not below the start of the search.
first_index-ge :
    (p : Text → Bool) (ls : List Text) (i : ℕ) {j : ℕ} → first_index p ls i ≡ some j → i ≤ j
unfolding first_index
first_index-ge p [] i e = cc
first_index-ge p (l ∷ ls) i {j} e = elim (Bool-cases (p l)) [
  | inl hit ↦ ground (arith, hit)
  | inr miss ↦ let h = first_index-ge p ls (suc i) (rw miss at e) in omega arith
]

abbrev SearchFromGe : (p : Text → Bool) (ls : List Text) (i : ℕ) → Type 0
SearchFromGe p ls i = i ≤ length ls → i ≤ or_length ls (first_index p (drop i ls) i)

search-ge : (p : Text → Bool) (ls : List Text) (i : ℕ) → SearchFromGe p ls i
search-ge p ls i h = elim (Option-cases (first_index p (drop i ls) i)) [
  | inl e ↦ rw e h
  | inr (j, e) ↦ rw e (first_index-ge p (drop i ls) i e)
]

start-ge : (ls : List Text) (i : ℕ) → i ≤ length ls → i ≤ find_next_multi_line_comment_start ls i
unfolding find_next_multi_line_comment_start
start-ge ls i = search-ge starts_comment ls i

end-ge : (ls : List Text) (i : ℕ) → i ≤ length ls → i ≤ find_next_multi_line_comment_end ls i
unfolding find_next_multi_line_comment_end
end-ge ls i = search-ge ends_comment ls i

-- What a round that goes on has done.
pub record Advances (ls : List Text) (i : ℕ) (ls' : List Text) (i' : ℕ) : Type 0 where
  pub begin : ℕ
  pub begin_is : begin ≡ find_next_multi_line_comment_start ls i
  pub from : i ≤ begin
  pub further : begin < i'
  pub inside : i' ≤ length ls
  pub lines_are : ls' ≡ remove_from_range ls begin i'

remove_round-Advances :
    (report : ErrorFn) (filename : Text) (ls : List Text) (i : ℕ) (w : World) {ls' : List Text}
    {i' : ℕ}
    → remove_round report filename ls i w ≡ next ls' i'
    → Advances ls i ls' i'
unfolding remove_round
remove_round-Advances report filename ls i w {ls'} {i'} e =
    let begin = find_next_multi_line_comment_start ls i in
    record {
      begin = begin;
      begin_is = refl;
      from = ground (arith, start-ge ls i);
      further = ground (arith, end-ge ls begin);
      inside = ground arith;
      lines_are = ground arith;
    }

abbrev result_of : ErrorFn → Text → ℕ → World → Round → Outcome (List Text × World)
result_of report filename n w r = elim r [
  | stop result ↦ result
  | next ls' i' ↦ remove_rounds report filename n ls' i' w
]

-- Once the rounds cover the lines left, one more changes nothing: the loop ends by its own tests.
pub remove_rounds_enough :
    (report : ErrorFn) (filename : Text) (n : ℕ) (ls : List Text) (i : ℕ) (w : World)
    → length ls ≤ i + n
    → remove_rounds report filename (suc n) ls i w ≡ remove_rounds report filename n ls i w
unfolding remove_rounds
remove_rounds_enough report filename zero ls i w h = unfold remove_round in ground arith
remove_rounds_enough report filename (suc n) ls i w h =
    go (remove_round report filename ls i w) refl
      λ ls' i' h'. remove_rounds_enough report filename n ls' i' w h'
  where
    go :
        (r : Round)
        → remove_round report filename ls i w ≡ r
        → ((ls' : List Text) (i' : ℕ)
            → length ls' ≤ i' + n
            → remove_rounds report filename (suc n) ls' i' w
              ≡ remove_rounds report filename n ls' i' w)
        → result_of report filename (suc n) w r ≡ result_of report filename n w r
    go (stop o) e ih = refl
    go (next ls' i') e ih =
        let a = remove_round-Advances report filename ls i w e in
        ih ls' i' (
          rw a.lines_are (omega (arith, length-remove_from_range ls a.begin i', a.from, a.further)))

-- The rule of the loop: `P` holds before each round, and `Q` of the result.
module _ (report : ErrorFn) (filename : Text) (w : World) (P : List Text → ℕ → Type 0)
    (Q : Outcome (List Text × World) → Type 0)
    (stops : (ls : List Text) (i : ℕ) (o : Outcome (List Text × World))
      → P ls i
      → remove_round report filename ls i w ≡ stop o
      → Q o)
    (moves : (ls : List Text) (i : ℕ) (ls' : List Text) (i' : ℕ)
      → P ls i
      → Advances ls i ls' i'
      → P ls' i') where
  pub rounds_rule :
      (n : ℕ) (ls : List Text) (i : ℕ)
      → length ls ≤ i + n
      → P ls i
      → Q (remove_rounds report filename n ls i w)
  unfolding remove_rounds
  rounds_rule zero ls i h p = stops ls i (ok (ls, w)) p (unfold remove_round in ground arith)
  rounds_rule (suc n) ls i h p =
      go (remove_round report filename ls i w) refl λ ls' i' h' p'. rounds_rule n ls' i' h' p'
    where
      go :
          (r : Round)
          → remove_round report filename ls i w ≡ r
          → ((ls' : List Text) (i' : ℕ)
              → length ls' ≤ i' + n
              → P ls' i'
              → Q (remove_rounds report filename n ls' i' w))
          → Q (result_of report filename n w r)
      go (stop o) e ih = stops ls i o p e
      go (next ls' i') e ih =
          let a = remove_round-Advances report filename ls i w e in
          ih ls' i'
            (rw a.lines_are
              (omega (arith, length-remove_from_range ls a.begin i', a.from, a.further)))
            (moves ls i ls' i' p a)
