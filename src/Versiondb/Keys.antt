-- ===== src/Versiondb/Keys.antt =====
-- versiondb/tsrocksdb/store.go: how a store's keys are laid out in the column family, and the range
-- that an iterator over one store scans. A nil bound is `none`.
pub mod Range
pub mod Increment
use Prim.Native.Nat.{Ordering}
use store.Prelude.{
  ℕ, zero, suc, ◌+◌, List, [], ◌∷◌, ◌++◌, Option, none, some, Bool, true, false, ltb, ◌==◌, ◌||◌,
  length, if◌then◌else◌,
}
use store.Bytes.{Bytes, compare_bytes}

-- `s/k:%s/` applied to the store's name.
unfoldable pub store_prefix : Bytes → Bytes
store_prefix store_key = 115 ∷ 47 ∷ 107 ∷ 58 ∷ (store_key ++ 47 ∷ [])

-- A new slice with the bytes of both.
unfoldable pub clone_append : Bytes → Bytes → Bytes
clone_append bz tail = bz ++ tail

unfoldable pub prepend_store_key : Bytes → Bytes → Bytes
unfolding store_prefix
prepend_store_key store_key key = store_prefix store_key ++ key

-- One round of the loop of `cpIncr`, at byte `b`: the bytes behind it, and whether all overflowed.
unfoldable pub increment_byte : ℕ → Bytes × Bool → Bytes × Bool
increment_byte b (ret, true) = if ltb b 255 then ((b + 1) ∷ ret, false) else (0 ∷ ret, true)
increment_byte b (ret, false) = (b ∷ ret, false)

-- The loop of `cpIncr`, from the last byte to the first.
unfoldable pub increment : Bytes → Bytes × Bool
unfolding increment_byte
increment [] = ([], true)
increment (b ∷ bz) = increment_byte b (increment bz)

-- The outer `none` is the panic on an empty slice, the inner one the nil of an overflow.
unfoldable pub cp_incr : Bytes → Option (Option Bytes)
cp_incr [] = none
cp_incr (b ∷ bz) =
    let (ret, carry) = increment (b ∷ bz) in if carry then some none else some (some ret)

-- The bytes of a slice that may be nil.
abbrev pub bytes_of : Option Bytes → Bytes
bytes_of none = []
bytes_of (some bz) = bz

unfoldable pub iterate_with_prefix :
    Bytes → Option Bytes → Option Bytes → Option (Option Bytes × Option Bytes)
unfolding clone_append
iterate_with_prefix [] begin end = some (begin, end)
iterate_with_prefix (b ∷ prefix) begin none = elim (cp_incr (b ∷ prefix)) [
  | none ↦ none
  | some last ↦ some (some (clone_append (b ∷ prefix) (bytes_of begin)), last)
]
iterate_with_prefix (b ∷ prefix) begin (some end) =
    some (some (clone_append (b ∷ prefix) (bytes_of begin)), some (clone_append (b ∷ prefix) end))

-- The start of `iteratorAtVersion`: the error on an empty bound, and the range that the iterator gets.
pub data RangeResult : Type 0 where
  key_empty : RangeResult
  range : Option Bytes → Option Bytes → RangeResult
  range_panic : RangeResult

abbrev pub is_empty : Option Bytes → Bool
is_empty none = false
is_empty (some bz) = length bz == 0

unfoldable pub iterator_range : Bytes → Option Bytes → Option Bytes → RangeResult
unfolding store_prefix iterate_with_prefix
iterator_range store_key start end =
    if is_empty start || is_empty end
    then key_empty
    else elim (iterate_with_prefix (store_prefix store_key) start end) [
      | none ↦ range_panic
      | some (from, to) ↦ range from to
    ]
