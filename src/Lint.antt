-- ===== src/Lint.antt =====
-- tools/cpplint.py, the style checker of the repository's C++ code.
pub mod World
pub mod Tables
pub mod Filters
pub mod Report
pub mod Include
pub mod Cleanse
pub mod Brackets
pub mod Functions
pub mod Nesting
pub mod Checks
pub mod OsPath
pub mod Paths
pub mod IncludeLine
pub mod HeaderGuard
pub mod Arguments
mod Tests
