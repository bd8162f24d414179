-- ===== src/Tests.antt =====
-- Concrete runs of the modelled code.
mod Memory
mod Pages
mod Chains
mod Tables
mod Tables64
mod Tables4
mod Tasks
mod Output
mod Spinning
mod Files
mod Harts
mod Switching
mod Trees
mod Blobs
