-- ===== src/Lint/Paths/Walk.antt =====
-- The walks up the directories in `FileInfo.RepositoryName` of tools/cpplint.py end.
use mathlib.Core.List.{reverse_aux, reverse-reverse}
use scalloc.Common.{
  ℕ, zero, suc, ◌+◌, ◌≤◌, ◌<◌, [], ◌∷◌, reverse, Option, none, some, Bool, true, false, ◌||◌, ◌≡◌,
  ◌⊎◌, inl, inr, refl, ap, sym, ◌∙◌, arith, Bool-cases, length, take, drop, every, if◌then◌else◌,
  if-true, if-false,
}
use scalloc.Common.Text.{Text, codes, text_eq, text_eq_iff}
use scalloc.Lint.Paths.{
  has, svn_root, is_top, repository_root, relative_to, repository_name_of, repository_name,
  full_name,
}
use scalloc.Lint.OsPath.{Host, after_last, is_slash, strip_slashes, trim_head, dirname}

-- Unchanged, or shorter.
abbrev Shrinks : Text → Text → Type 0
Shrinks p q = (q ≡ p) ⊎ (length q < length p)

Shrinks-trans : (p q r : Text) → Shrinks p q → Shrinks q r → Shrinks p r
Shrinks-trans p q r (inl e) (inl k) = inl (k ∙ e)
Shrinks-trans p q r (inl e) (inr k) = inr (rw (sym e) k)
Shrinks-trans p q r (inr e) (inl k) = inr (rw k e)
Shrinks-trans p q r (inr e) (inr k) = inr (omega arith)

take-Shrinks : (n : ℕ) (p : Text) → Shrinks p (take n p)
take-Shrinks zero [] = inl refl
take-Shrinks zero (x ∷ p) = inr (omega arith)
take-Shrinks (suc n) [] = inl refl
take-Shrinks (suc n) (x ∷ p) = elim (take-Shrinks n p) [
  | inl e ↦ inl (ap (◌∷◌ x) e)
  | inr l ↦ inr (omega arith)
]

strip_slashes-Shrinks : (p : Text) → Shrinks p (strip_slashes p)
unfolding strip_slashes
strip_slashes-Shrinks [] = inl refl
strip_slashes-Shrinks (c ∷ p) = elim (Bool-cases (is_slash c)) [
  | inl s ↦ rw s (elim (strip_slashes-Shrinks p) [
    | inl e ↦ rw e (inr (omega arith))
    | inr l ↦ inr (omega arith)
  ])
  | inr s ↦ rw s (inl refl)
]

length-reverse_aux : (s t : Text) → length (reverse_aux s t) ≡ length s + length t
length-reverse_aux [] t = omega arith
length-reverse_aux (x ∷ s) t = omega (arith, length-reverse_aux s (x ∷ t))

reverse-Shrinks : (p q : Text) → Shrinks (reverse p) q → Shrinks p (reverse q)
reverse-Shrinks p q (inl e) = inl (ap reverse e ∙ reverse-reverse p)
reverse-Shrinks p q (inr l) =
    inr (omega (arith, length-reverse_aux p [], length-reverse_aux q [], l))

trim_head-Shrinks : (p : Text) → Shrinks p (trim_head p)
trim_head-Shrinks p = elim (Bool-cases (every is_slash p)) [
  | inl s ↦ rw s (inl refl)
  | inr s ↦ rw s (reverse-Shrinks p _ (strip_slashes-Shrinks (reverse p)))
]

-- The directory of a name is the name itself or shorter.
pub dirname-Shrinks : (p : Text) → Shrinks p (dirname p)
unfolding dirname
dirname-Shrinks p = Shrinks-trans p _ _ (take-Shrinks (after_last b'/' p) p) (trim_head-Shrinks _)

-- The first directory on the way up that is the top of a repository, or the root of the file system.
pub data NearestTop (h : Host) : Text → Text → Type 0 where
  here : (dir : Text) → is_top h dir ≡ true → NearestTop h dir dir
  root : (dir : Text) → is_top h dir ≡ false → dirname dir ≡ dir → NearestTop h dir dir
  above :
      (dir top : Text)
      → is_top h dir ≡ false
      → NearestTop h (dirname dir) top
      → NearestTop h dir top

abbrev stops : Host → Text → Bool
stops h dir = text_eq dir (dirname dir) || is_top h dir

module _ (h : Host) where
  root-step :
      (fuel : ℕ) (dir : Text)
      → repository_root h (suc fuel) dir
        ≡ (if stops h dir then some dir else repository_root h fuel (dirname dir))
  unfolding repository_root
  root-step fuel dir = refl

  same-dirname : (dir : Text) → text_eq dir (dirname dir) ≡ true → dirname dir ≡ dir
  same-dirname dir e = sym ((text_eq_iff dir (dirname dir)).0 e)

  smaller : (dir : Text) → text_eq dir (dirname dir) ≡ false → length (dirname dir) < length dir
  smaller dir n = elim (dirname-Shrinks dir) [
    | inl e ↦ absurd (let t = (text_eq_iff dir (dirname dir)).1 (sym e) in cc)
    | inr l ↦ l
  ]

  -- The loop of `RepositoryName` that looks for a .git, .hg or .svn ends within more rounds than the
  -- directory has characters, at the first directory on the way up that has one, or at the root.
  pub repository_root-NearestTop :
      (fuel : ℕ) (dir : Text)
      → length dir < fuel
      → (top : Text) × (repository_root h fuel dir ≡ some top) × NearestTop h dir top
  repository_root-NearestTop zero dir l = absurd (omega arith)
  repository_root-NearestTop (suc fuel) dir l = elim (Bool-cases (is_top h dir)) [
    | inl t ↦
        (dir, root-step fuel dir ∙ if-true {b = stops h dir} _ _ (ground (arith, t)), here dir t)
    | inr t ↦ elim (Bool-cases (text_eq dir (dirname dir))) [
      | inl e ↦ (
        dir,
        root-step fuel dir ∙ if-true {b = stops h dir} _ _ (ground (arith, e)),
        root dir t (same-dirname dir e),
      )
      | inr e ↦
          let s = smaller dir e in
          let (top, k, n) = repository_root-NearestTop fuel (dirname dir) (omega arith) in
          (
            top,
            root-step fuel dir ∙ (if-false {b = stops h dir} _ _ (ground (arith, e, t)) ∙ k),
            above dir top t n,
          )
    ]
  ]

  svn-step :
      (fuel : ℕ) (dir up : Text)
      → svn_root h (suc fuel) dir up
        ≡ (if has h up (codes ".svn") then svn_root h fuel (dirname dir) (dirname up) else some dir)
  unfolding svn_root
  svn-step fuel dir up = refl

  -- No .svn in a directory that is its own parent.
  abbrev pub RootIsFree : Type 0
  RootIsFree = (dir : Text) → dirname dir ≡ dir → has h dir (codes ".svn") ≡ false

  svn_root-stops :
      (fuel : ℕ) (dir : Text)
      → RootIsFree
      → length (dirname dir) < fuel
      → (top : Text) × (svn_root h fuel dir (dirname dir) ≡ some top)
        × (has h (dirname top) (codes ".svn") ≡ false)
  svn_root-stops zero dir free l = absurd (omega arith)
  svn_root-stops (suc fuel) dir free l = elim (Bool-cases (has h (dirname dir) (codes ".svn"))) [
    | inr n ↦ (dir, svn-step fuel dir (dirname dir) ∙ if-false _ _ n, n)
    | inl y ↦ elim (dirname-Shrinks (dirname dir)) [
      | inl e ↦ absurd (let n = free (dirname dir) e in cc)
      | inr s ↦
          let (top, k, n) = svn_root-stops fuel (dirname dir) free (omega arith) in
          (top, svn-step fuel dir (dirname dir) ∙ (if-true _ _ y ∙ k), n)
    ]
  ]

length-take_le : (n : ℕ) (p : Text) → length (take n p) ≤ length p
length-take_le n p = elim (take-Shrinks n p) [ inl e ↦ rw e (omega arith) | inr l ↦ omega arith ]

length-dirname : (p : Text) → length (dirname p) ≤ length p
length-dirname p = elim (dirname-Shrinks p) [ inl e ↦ rw e (omega arith) | inr l ↦ omega arith ]

-- A name that is a full name without a prefix.
abbrev pub IsRest : Text → Option Text → Type 0
IsRest fullname o = (n : ℕ) × (o ≡ some (drop n fullname))

module _ (h : Host) (free : RootIsFree h) (fullname : Text) where
  abbrev project : Text
  project = dirname fullname

  relative-IsRest :
      (o : Option Text) (top : Text)
      → o ≡ some top
      → IsRest fullname (elim o [ none ↦ none | some dir ↦ some (relative_to fullname dir) ])
  unfolding relative_to
  relative-IsRest o top e = rw e (_, refl)

  either-IsRest :
      (o : Option Text) (top : Text)
      → o ≡ some top
      → IsRest fullname (elim o [
        | none ↦ none
        | some dir ↦ some (if is_top h dir then relative_to fullname dir else fullname)
      ])
  unfolding relative_to
  either-IsRest o top e = elim (Bool-cases (is_top h top)) [
    | inl t ↦ rw (e, t) (_, refl)
    | inr t ↦ rw (e, t) (0, refl)
  ]

  repository_name_of-IsRest : IsRest fullname (repository_name_of h fullname)
  unfolding repository_name_of
  repository_name_of-IsRest = elim (Bool-cases (h.exists fullname)) [
    | inr absent ↦ rw (repository_name_of, absent) (0, refl)
    | inl present ↦ elim (Bool-cases (has h project (codes ".svn"))) [
      | inl svn ↦
          let (top, e, n) =
            svn_root-stops h (length fullname + 1) project free
              (omega (arith, length-dirname fullname, length-dirname project)) in
          rw (repository_name_of, present, svn) (relative-IsRest _ top e)
      | inr other ↦
          let (top, e, n) =
            repository_root-NearestTop h (length fullname + 1) project
              (omega (arith, length-dirname fullname)) in
          rw (repository_name_of, present, other) (either-IsRest _ top e)
    ]
  ]

-- When no directory that is its own parent has a .svn, `RepositoryName` returns, whatever files
-- exist, and what it returns is the full name without a prefix.
pub repository_name-IsRest :
    (h : Host) (filename : Text)
    → RootIsFree h
    → IsRest (full_name h filename) (repository_name h filename)
unfolding repository_name
repository_name-IsRest h filename free = repository_name_of-IsRest h free (full_name h filename)

-- The loop of `RepositoryName` to the top of a Subversion checkout never ends once it looks at a
-- directory with a .svn that is its own parent, as the root of the file system is.
pub svn_root_diverges :
    (h : Host) (fuel : ℕ) (dir up : Text)
    → dirname up ≡ up
    → has h up (codes ".svn") ≡ true
    → svn_root h fuel dir up ≡ none
unfolding svn_root
svn_root_diverges h zero dir up e s = refl
svn_root_diverges h (suc fuel) dir up e s =
    svn-step h fuel dir up
    ∙ (if-true _ _ s
        ∙ (ap (svn_root h fuel (dirname dir)) e ∙ svn_root_diverges h fuel (dirname dir) up e s))
