-- ===== src/Lint/Tests.antt =====
-- Runs on small inputs, and uses of the theorems at them.
mod Reporting
mod Texts
mod Blocks
mod Files
