-- ===== src/Lint/World.antt =====
-- The module-wide state of tools/cpplint.py: `_CppLintState`, `_error_suppressions` and the flags,
-- with what the program has written to stderr. A function that may raise returns an `Outcome`.
use scalloc.Common.{ℕ, List, Option, ◌≡◌}
use scalloc.Common.Text.{Text}
use scalloc.Common.Dict.{Dict}

-- What ends the program: a failed `assert`, an attribute of None, a ValueError, `sys.exit` with a message or a code.
pub data Exn : Type 0 where
  assertion_error : Exn
  value_error : Text → Exn
  exit_message : Text → Exn
  exit_code : ℕ → Exn
  attribute_error : Exn

pub data Outcome {ℓ} (A : Type ℓ) : Type ℓ where
  ok : A → Outcome A
  raised : Exn → Outcome A

pub ok-injective {ℓ} : {A : Type ℓ} {a b : A} → ok a ≡ ok b → a ≡ b
ok-injective e = cc

infixl 5 ◌>>=◌
abbrev pub ◌>>=◌ {ℓ κ} : {A : Type ℓ} {B : Type κ} → Outcome A → (A → Outcome B) → Outcome B
ok a >>= f = f a
raised e >>= f = raised e

pub record LintState : Type 0 where
  pub verbose_level : ℕ
  pub error_count : ℕ
  pub filters : List Text
  pub counting : Text
  pub errors_by_category : Dict Text ℕ
  pub output_format : Text

pub record World : Type 0 where
  pub suppressions : Dict (Option Text) (List ℕ)
  pub lint : LintState
  pub stderr : List Text
  pub root : Option Text
  pub line_length : ℕ
  pub valid_extensions : List Text

abbrev pub Act : Type 0
Act = World → Outcome World

-- The callback `error(filename, linenum, category, confidence, message)`.
abbrev pub ErrorFn : Type 0
ErrorFn = Text → ℕ → Text → ℕ → Text → Act
