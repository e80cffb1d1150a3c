-- ===== src/Tests.antt =====
-- The theorems at concrete inputs.
mod Parts
mod Files
mod Sessions
mod Reader
mod Splits
mod Trees
mod Arena
mod Grown
mod Chains
mod Cycles
mod Lines
