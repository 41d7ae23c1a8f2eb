-- ===== src/Tests.antt =====
-- Runs of the definitions on concrete inputs, and the theorems at concrete inputs.
mod Wheels
mod Maps
mod Caches
mod Globs
mod Lists
mod Bitmaps
mod ZSets
mod Hashes
mod Sets
mod Protocol
mod PubSubs
