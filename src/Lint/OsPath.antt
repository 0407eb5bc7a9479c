-- ===== src/Lint/OsPath.antt =====
-- The functions of Python's `posixpath` that tools/cpplint.py calls. The working directory and the
-- existence of files are the `Host`.
use scalloc.Common.{
  ℕ, suc, ◌-◌, List, [], ◌∷◌, ◌++◌, reverse, Bool, not, ◌||◌, ◌&&◌, if◌then◌else◌, ltb, ◌==◌, drop,
  take, get_or, every,
}
use scalloc.Common.Text.{Text, codes, text_eq, starts_with, ends_with, is_empty, split_on}

pub record Host : Type 0 where
  pub cwd : Text
  pub exists : Text → Bool

-- p.rfind(c) + 1, which is 0 for a character that does not occur
unfoldable pub after_last : ℕ → Text → ℕ
after_last c [] = 0
after_last c (x ∷ s) =
    let later = after_last c s in if ltb 0 later then suc later else if x == c then 1 else 0

abbrev pub is_slash : ℕ → Bool
is_slash c = c == b'/'

-- Leading slashes off; applied to the reversed text, it is rstrip('/').
unfoldable pub strip_slashes : Text → Text
strip_slashes [] = []
strip_slashes (c ∷ s) = let rest = strip_slashes s in if is_slash c then rest else c ∷ s

abbrev pub trim_head : Text → Text
trim_head head = if every is_slash head then head else reverse (strip_slashes (reverse head))

-- os.path.split
unfoldable pub split_path : Text → Text × Text
unfolding after_last strip_slashes
split_path p = (trim_head (take (after_last b'/' p) p), drop (after_last b'/' p) p)

-- os.path.dirname
unfoldable pub dirname : Text → Text
unfolding after_last strip_slashes
dirname p = trim_head (take (after_last b'/' p) p)

-- os.path.splitext: the last dot behind the last slash, if another character than a dot is in front
-- of it there
unfoldable pub splitext : Text → Text × Text
unfolding after_last
splitext p =
    let slash = after_last b'/' p in
    let dot = after_last b'.' p in
    if ltb slash dot && not (every (λ c. c == b'.') (take (dot - 1 - slash) (drop slash p)))
    then (take (dot - 1) p, drop (dot - 1) p)
    else (p, [])

-- os.path.join, of a second part that is not absolute
unfoldable pub join_path : Text → Text → Text
unfolding ends_with
join_path a b = if is_empty a || ends_with a (codes "/") then a ++ b else a ++ b'/' ∷ b

-- The loop of os.path.normpath over the components; `kept` is reversed.
unfoldable pub norm_components : Bool → List Text → List Text → List Text
unfolding text_eq
norm_components absolute kept [] = reverse kept
norm_components absolute kept (c ∷ cs) =
    let skip = norm_components absolute kept cs in
    let keep = norm_components absolute (c ∷ kept) cs in
    let pop = norm_components absolute (drop 1 kept) cs in
    if is_empty c || text_eq c (codes ".")
    then skip
    else if not (text_eq c (codes ".."))
        || (not absolute && is_empty kept)
        || text_eq (get_or kept 0 []) (codes "..")
    then keep
    else pop

abbrev join_with : ℕ → List Text → Text
join_with sep [] = []
join_with sep (w ∷ []) = w
join_with sep (w ∷ v ∷ ws) = w ++ sep ∷ join_with sep (v ∷ ws)

-- Two slashes at the start stay, three are one.
abbrev initial_slashes : Text → Text
initial_slashes p =
    if starts_with p (codes "//") && not (starts_with p (codes "///"))
    then codes "//"
    else if starts_with p (codes "/")
    then codes "/"
    else []

-- os.path.normpath
unfoldable pub normpath : Text → Text
unfolding norm_components split_on starts_with
normpath p =
    let slashes = initial_slashes p in
    let path =
      slashes ++ join_with b'/' (norm_components (not (is_empty slashes)) [] (split_on b'/' p)) in
    if is_empty path then codes "." else path

-- os.path.abspath
unfoldable pub abspath : Host → Text → Text
unfolding normpath join_path starts_with
abspath h p = normpath (if starts_with p (codes "/") then p else join_path h.cwd p)

-- os.path.commonprefix of two names
unfoldable pub common_prefix : Text → Text → Text
common_prefix (x ∷ s) (y ∷ t) = if x == y then x ∷ common_prefix s t else []
common_prefix _ _ = []
