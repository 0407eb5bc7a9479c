-- ===== src/Alloc/Tests.antt =====
-- Runs of the allocator's code on small inputs.
mod Words
mod Lists
mod Deques
mod Pools
mod Moves
