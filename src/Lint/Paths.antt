-- ===== src/Lint/Paths.antt =====
-- File names in tools/cpplint.py: `FileInfo`, `_DropCommonSuffixes`, `_IsTestFilename` and
-- `FilesBelongToSameModule`.
pub mod Walk
pub mod Modules
use scalloc.Common.{
  ℕ, zero, suc, ◌+◌, ◌-◌, List, [], ◌∷◌, ◌++◌, reverse, Option, none, some, Bool, true, false, not,
  ◌||◌, ◌&&◌, if◌then◌else◌, ltb, ◌==◌, drop, take, get_or, every, any, length,
}
use scalloc.Common.Text.{
  Text, codes, text_eq, starts_with, ends_with, drop_last, is_empty, split_on, replace, mem_text,
}
use scalloc.Lint.OsPath.{
  Host, after_last, is_slash, strip_slashes, trim_head, split_path, dirname, splitext, join_path,
  norm_components, normpath, abspath, common_prefix,
}

-- FullName
unfoldable pub full_name : Host → Text → Text
unfolding abspath replace
full_name h filename = replace (abspath h filename) (codes "\\") (codes "/")

-- os.path.exists(os.path.join(dir, name))
unfoldable pub has : Host → Text → Text → Bool
unfolding join_path
has h dir name = h.exists (join_path dir name)

-- The loop to the top of a checkout that has a .svn in every directory; `none` when the rounds are
-- used up.
unfoldable pub svn_root : Host → ℕ → Text → Text → Option Text
unfolding has dirname
svn_root h zero root_dir one_up_dir = none
svn_root h (suc fuel) root_dir one_up_dir =
    let up = svn_root h fuel (dirname root_dir) (dirname one_up_dir) in
    if has h one_up_dir (codes ".svn") then up else some root_dir

abbrev pub is_top : Host → Text → Bool
is_top h dir = has h dir (codes ".git") || (has h dir (codes ".hg") || has h dir (codes ".svn"))

-- The loop that looks for a directory with .git, .hg or .svn.
unfoldable pub repository_root : Host → ℕ → Text → Option Text
unfolding has dirname text_eq
repository_root h zero root_dir = none
repository_root h (suc fuel) root_dir =
    let up = repository_root h fuel (dirname root_dir) in
    if text_eq root_dir (dirname root_dir) || is_top h root_dir then some root_dir else up

-- fullname[len(prefix) + 1:] with the common prefix of the root and the directory of the file
unfoldable pub relative_to : Text → Text → Text
unfolding common_prefix dirname
relative_to fullname root_dir =
    drop (length (common_prefix root_dir (dirname fullname)) + 1) fullname

-- RepositoryName, of the full name; each loop has as many rounds as the name has characters
unfoldable pub repository_name_of : Host → Text → Option Text
unfolding svn_root repository_root relative_to has dirname
repository_name_of h fullname =
    let project_dir = dirname fullname in
    if not (h.exists fullname)
    then some fullname
    else if has h project_dir (codes ".svn")
    then elim (svn_root h (length fullname + 1) project_dir (dirname project_dir)) [
      | none ↦ none
      | some root_dir ↦ some (relative_to fullname root_dir)
    ]
    else elim (repository_root h (length fullname + 1) project_dir) [
      | none ↦ none
      | some root_dir ↦ some (if is_top h root_dir then relative_to fullname root_dir else fullname)
    ]

-- RepositoryName; `none` where the loop does not end
unfoldable pub repository_name : Host → Text → Option Text
unfolding repository_name_of full_name
repository_name h filename = repository_name_of h (full_name h filename)

-- Split, of the repository name: the directory, the base name and the extension
unfoldable pub split_name : Text → Text × Text × Text
unfolding split_path splitext
split_name name =
    ((split_path name).0, (splitext ((split_path name).1)).0, (splitext ((split_path name).1)).1)

unfoldable pub base_name : Text → Text
unfolding split_name
base_name name = (split_name name).1

unfoldable pub extension : Text → Text
unfolding split_name
extension name = (split_name name).2

-- NoExtension
unfoldable pub no_extension : Text → Text
unfolding split_name
no_extension name = (split_name name).0 ++ b'/' ∷ (split_name name).1

-- IsSource
unfoldable pub is_source : Text → Bool
unfolding extension mem_text
is_source name =
    mem_text (drop 1 (extension name)) (codes "c" ∷ codes "cc" ∷ codes "cpp" ∷ codes "cxx" ∷ [])

unfoldable pub common_suffixes : List Text
common_suffixes =
    codes "test.cc"
    ∷ codes "regtest.cc"
    ∷ codes "unittest.cc"
    ∷ codes "inl.h"
    ∷ codes "impl.h"
    ∷ codes "internal.h"
    ∷ []

-- The character in front of a suffix.
abbrev before_suffix : Text → Text → ℕ
before_suffix filename suffix = get_or filename (length filename - length suffix - 1) 0

abbrev has_suffix : Text → Text → Bool
has_suffix filename suffix =
    ends_with filename suffix
    && (ltb (length suffix) (length filename)
        && (before_suffix filename suffix == b'-' || before_suffix filename suffix == b'_'))

unfoldable pub drop_suffixes : Text → List Text → Text
unfolding splitext ends_with drop_last
drop_suffixes filename [] = (splitext filename).0
drop_suffixes filename (suffix ∷ suffixes) =
    let rest = drop_suffixes filename suffixes in
    if has_suffix filename suffix then drop_last (length suffix + 1) filename else rest

-- _DropCommonSuffixes
unfoldable pub drop_common_suffixes : Text → Text
unfolding drop_suffixes common_suffixes
drop_common_suffixes filename = drop_suffixes filename common_suffixes

-- _IsTestFilename
unfoldable pub is_test_filename : Text → Bool
unfolding ends_with
is_test_filename filename =
    ends_with filename (codes "_test.cc")
    || (ends_with filename (codes "_unittest.cc") || ends_with filename (codes "_regtest.cc"))

-- Directories public and internal do not count.
abbrev without_parts : Text → Text
without_parts filename =
    replace (replace filename (codes "/public/") (codes "/")) (codes "/internal/") (codes "/")

abbrev pub module_of_cc : Text → Text
module_of_cc filename =
    let stem = drop_last 3 filename in
    without_parts (
      if ends_with stem (codes "_unittest")
      then drop_last 9 stem
      else if ends_with stem (codes "_test")
      then drop_last 5 stem
      else stem)

abbrev pub module_of_h : Text → Text
module_of_h filename =
    let stem = drop_last 2 filename in
    without_parts (if ends_with stem (codes "-inl") then drop_last 4 stem else stem)

-- The common path in front of the header: cc[:-len(h)], which is empty for an empty `h`
abbrev common_path : Text → Text → Text
common_path cc h = if is_empty h then [] else drop_last (length h) cc

-- FilesBelongToSameModule
unfoldable pub files_belong_to_same_module : Text → Text → Bool × Text
unfolding ends_with drop_last replace
files_belong_to_same_module filename_cc filename_h =
    let cc = module_of_cc filename_cc in
    let h = module_of_h filename_h in
    if not (ends_with filename_cc (codes ".cc")) || not (ends_with filename_h (codes ".h"))
    then (false, [])
    else if ends_with cc h
    then (true, common_path cc h)
    else (false, [])
