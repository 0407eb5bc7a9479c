-- ===== src/Lint/Paths/Modules.antt =====
-- What `FilesBelongToSameModule` of tools/cpplint.py says of two file names.
use mathlib.Core.List.{reverse-reverse, reverse-append}
use scalloc.Common.{
  [], ◌∷◌, ◌++◌, reverse, Bool, true, false, not, ◌||◌, ◌≡◌, refl, ap, sym, ◌∙◌, arith, length,
  drop, take_before, if◌then◌else◌,
}
use scalloc.Common.Text.{Text, codes, starts_with, ends_with, drop_last, is_empty}
use scalloc.Lint.Paths.{module_of_cc, module_of_h, common_path, files_belong_to_same_module}

starts_with-split : (s p : Text) → starts_with s p ≡ true → s ≡ p ++ drop (length p) s
unfolding starts_with
starts_with-split s [] h = refl
starts_with-split [] (x ∷ p) h = absurd cc
starts_with-split (c ∷ s) (x ∷ p) h =
    let e : c ≡ x = ground (arith, h) in
    let k : starts_with s p ≡ true = ground (arith, h) in
    rw e (ap (◌∷◌ x) (starts_with-split s p k))

ends_with-split : (s p : Text) → ends_with s p ≡ true → (q : Text) × (s ≡ q ++ p)
unfolding ends_with
ends_with-split s p h =
    let rest = drop (length (reverse p)) (reverse s) in
    (
      reverse rest,
      sym (reverse-reverse s)
          ∙ (ap reverse (starts_with-split (reverse s) (reverse p) h)
              ∙ (reverse-append (reverse p) rest ∙ ap (reverse rest ++◌) (reverse-reverse p))),
    )

drop_last-append : (q p : Text) → drop_last (length p) (q ++ p) ≡ q
unfolding drop_last
drop_last-append q p = take_before q p

path_of : (cc h : Text) → is_empty h ≡ false → ends_with cc h ≡ true → cc ≡ common_path cc h ++ h
path_of cc h n e =
    let (q, k) = ends_with-split cc h e in
    rw n (k ∙ sym (ap (◌++ h) (ap (drop_last (length h)) k ∙ drop_last-append q h)))

abbrev answer : Bool → Bool → Bool → Text → Bool × Text
answer a b c path = if not a || not b then (false, []) else if c then (true, path) else (false, [])

answer-true :
    (a b c : Bool) (path : Text)
    → (answer a b c path).0 ≡ true
    → (a ≡ true) × (b ≡ true) × (c ≡ true) × ((answer a b c path).1 ≡ path)
answer-true true true true path e = (refl, refl, refl, refl)
answer-true true true false path e = absurd cc
answer-true true false c path e = absurd cc
answer-true false b c path e = absurd cc

-- How the path, the name of the source and that of the header fit together.
abbrev pub Fits : Text → Text → Text → Type 0
Fits cc h path = if is_empty h then path ≡ [] else cc ≡ path ++ h

common_path-Fits :
    (cc h path : Text) → ends_with cc h ≡ true → path ≡ common_path cc h → Fits cc h path
common_path-Fits cc [] path c p = p
common_path-Fits cc (x ∷ h) path c p = path_of cc (x ∷ h) refl c ∙ ap (◌++ (x ∷ h)) (sym p)

-- When `FilesBelongToSameModule` says yes, the names end in .cc and .h, and the name of the source
-- less its suffixes is the path that is returned followed by the name of the header less its own;
-- of a header with an empty name the path is empty.
pub files_belong_to_same_module_lem :
    (filename_cc filename_h : Text)
    → (files_belong_to_same_module filename_cc filename_h).0 ≡ true
    → let path = (files_belong_to_same_module filename_cc filename_h).1 in
      (ends_with filename_cc (codes ".cc") ≡ true)
      × (ends_with filename_h (codes ".h") ≡ true)
      × Fits (module_of_cc filename_cc) (module_of_h filename_h) path
unfolding files_belong_to_same_module
files_belong_to_same_module_lem filename_cc filename_h e =
    let cc = module_of_cc filename_cc in
    let h = module_of_h filename_h in
    let (a, b, c, p) =
      answer-true (ends_with filename_cc (codes ".cc")) (ends_with filename_h (codes ".h"))
        (ends_with cc h) (common_path cc h) e in
    (a, b, common_path-Fits cc h _ c p)
