-- ===== src/Tests.antt =====
-- Concrete runs of the models, at small trees, slices and caches.
mod Data
mod OneSlot
mod Trees
mod Caches
mod Streams
mod Queries
mod Hashes
mod Multi
mod Sorting
mod Snapshots
