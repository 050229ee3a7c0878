-- ===== src/Memiavl/Versions.antt =====
-- memiavl/multitree.go: the versions of commits and their indexes in the write-ahead log. Versions are
-- int64 and indexes uint64, both given by their 64 bits.
use store.Prelude.{ℕ, ◌+◌, ◌-◌, ◌%◌, ◌^◌, ◌≤◌, ◌<◌, ltb, ◌==◌, ◌&&◌, ◌≡◌, ◌⊎◌, arith, if◌then◌else◌}

unfoldable pub next_version : ℕ → ℕ → ℕ
next_version v initial_version =
    if v == 0 && ltb 1 initial_version then initial_version else (v + 1) % 2 ^ 64

unfoldable pub wal_index : ℕ → ℕ → ℕ
wal_index v initial_version =
    if ltb 1 initial_version then (v + (2 ^ 64 - initial_version) + 1) % 2 ^ 64 else v

unfoldable pub wal_version : ℕ → ℕ → ℕ
wal_version index initial_version =
    if ltb 1 initial_version then (index + initial_version + (2 ^ 64 - 1)) % 2 ^ 64 else index

-- On 64-bit numbers `walVersion` and `walIndex` are inverse to each other, for every initial
-- version.
pub wal_version-wal_index :
    (v initial_version : ℕ)
    → v < 2 ^ 64
    → initial_version < 2 ^ 64
    → (wal_version (wal_index v initial_version) initial_version ≡ v)
      × (wal_index (wal_version v initial_version) initial_version ≡ v)
unfolding wal_version wal_index
wal_version-wal_index v initial_version p q = ground arith

-- With an initial version below 2 ^ 63, for a version below 2 ^ 63 - 1 that is 0 or at least the
-- initial version, the next version's index in the log is 1 after version 0, and one more than
-- the version's index else.
pub wal_index-next_version :
    (v initial_version : ℕ)
    → v < 2 ^ 63 - 1
    → initial_version < 2 ^ 63
    → (v ≡ 0) ⊎ (initial_version ≤ v)
    → wal_index (next_version v initial_version) initial_version
      ≡ (if v == 0 then 1 else wal_index v initial_version + 1)
unfolding wal_index next_version
wal_index-next_version v initial_version p q r = ground arith
