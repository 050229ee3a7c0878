-- ===== src/Versiondb/Comparator.antt =====
-- versiondb/tsrocksdb/comparator.go: the order of keys that end in a timestamp of eight bytes. `none` is
-- the panic on a slice that is too short.
pub mod Order
use Prim.Native.Nat.{Ordering}
use store.Prelude.{
  ℕ, zero, suc, ◌+◌, ◌*◌, ◌-◌, Bool, true, false, List, [], ◌∷◌, Option, none, some, ltb, length,
  take, drop, ◌>>=◌, if◌then◌else◌,
}
use store.Bytes.{Bytes, compare_bytes}

abbrev pub timestamp_size : ℕ
timestamp_size = 8

-- `binary.LittleEndian.Uint64`, for any count of bytes.
unfoldable pub little_endian : ℕ → Bytes → Option ℕ
little_endian zero bz = some 0
little_endian (suc n) [] = none
little_endian (suc n) (b ∷ bz) = little_endian n bz >>= λ high. some (b + 256 * high)

unfoldable pub compare_ts : Bytes → Bytes → Option Ordering
unfolding little_endian
compare_ts bz1 bz2 = do
  ts1 ← little_endian 8 bz1
  ts2 ← little_endian 8 bz2
  some (if ltb ts1 ts2 then Ordering.lt else if ltb ts2 ts1 then Ordering.gt else Ordering.eq)

unfoldable pub negate : Ordering → Ordering
negate Ordering.lt = Ordering.gt
negate Ordering.eq = Ordering.eq
negate Ordering.gt = Ordering.lt

-- `a[:len(a)-TimestampSize]` of a key with a timestamp, and `a[len(a)-TimestampSize:]`.
unfoldable pub without_ts : Bytes → Bool → Option Bytes
without_ts a false = some a
without_ts a true =
    if ltb (length a) timestamp_size then none else some (take (length a - timestamp_size) a)

unfoldable pub ts_of : Bytes → Option Bytes
ts_of a = if ltb (length a) timestamp_size then none else some (drop (length a - timestamp_size) a)

unfoldable pub compare_without_ts : Bytes → Bool → Bytes → Bool → Option Ordering
unfolding without_ts
compare_without_ts a a_has_ts b b_has_ts = do
  key1 ← without_ts a a_has_ts
  key2 ← without_ts b b_has_ts
  some (compare_bytes key1 key2)

-- The end of `compare`: equal keys are ordered by their timestamps, the larger one first.
unfoldable pub compare_end : Bytes → Bytes → Ordering → Option Ordering
unfolding ts_of compare_ts negate
compare_end a b Ordering.lt = some Ordering.lt
compare_end a b Ordering.gt = some Ordering.gt
compare_end a b Ordering.eq = do
  ts1 ← ts_of a
  ts2 ← ts_of b
  r ← compare_ts ts1 ts2
  some (negate r)

unfoldable pub compare_keys : Bytes → Bytes → Option Ordering
unfolding compare_without_ts compare_end
compare_keys a b = compare_without_ts a true b true >>= compare_end a b
