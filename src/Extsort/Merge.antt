-- ===== src/Extsort/Merge.antt =====
-- versiondb/extsort/merge.go: `MultiWayMerge`, the merge of sorted streams on a heap. The functions of
-- container/heap, on the entries and their `Less`, are a parameter, and so is a stream, a state with the
-- function that yields its next item (types.go).
pub mod Order
pub mod Laws
use store.Prelude.{ℕ, zero, suc, Bool, true, false, Option, none, some, List, [], ◌∷◌}
use store.Bytes.{Bytes}
use store.Binary.{Result, ok, err, panic, ◌>>=◌}

-- `heap.Init`, and `heap.Remove` and `heap.Fix` at index 0, under a `Less`.
pub record HeapOps : Type 1 where
  pub init : {A : Type 0} → (A → A → Bool) → List A → List A
  pub remove_first : {A : Type 0} → (A → A → Bool) → List A → List A
  pub fix_first : {A : Type 0} → (A → A → Bool) → List A → List A

-- `heapEntry`; the value is nil when the stream is exhausted.
pub record HeapEntry (S : Type 0) : Type 0 where
  pub stream : S
  pub value : Option Bytes

-- A nil slice has no bytes.
abbrev pub bytes_of : Option Bytes → Bytes
bytes_of none = []
bytes_of (some bz) = bz

module _ {S : Type 0} (next : S → Result (Option Bytes × S)) where
  -- `newHeapEntry`, with an entry that is nil as `none`.
  unfoldable pub new_heap_entry : S → Result (Option (HeapEntry S))
  new_heap_entry stream = do
    (value, stream1) ← next stream
    elim value [ none ↦ ok none | some v ↦ ok (some (record { stream = stream1; value = some v })) ]

  -- The loop of `NewMultiWayMerge`.
  unfoldable pub new_heap_entries : List S → Result (List (HeapEntry S))
  unfolding new_heap_entry
  new_heap_entries [] = ok []
  new_heap_entries (stream ∷ streams) = new_heap_entry stream >>= λ entry.
      new_heap_entries streams >>= λ entries. elim entry [
        | none ↦ ok entries
        | some e ↦ ok (e ∷ entries)
      ]

  -- `update`
  unfoldable pub update : HeapEntry S → Result (HeapEntry S)
  update entry = do
    (value, stream) ← next entry.stream
    ok (record { stream = stream; value = value })

  module _ (heap : HeapOps) (less : Bytes → Bytes → Bool) where
    -- `Less`
    unfoldable pub less_entry : HeapEntry S → HeapEntry S → Bool
    less_entry x y = less (bytes_of x.value) (bytes_of y.value)

    unfoldable pub new_multi_way_merge : List S → Result (List (HeapEntry S))
    unfolding new_heap_entries
    new_multi_way_merge streams = do
      entries ← new_heap_entries streams
      ok (heap.init less_entry entries)

    -- The heap after the update of its first entry.
    unfoldable pub settle : HeapEntry S → List (HeapEntry S) → List (HeapEntry S)
    settle entry entries = elim entry.value [
      | none ↦ heap.remove_first less_entry (entry ∷ entries)
      | some v ↦ heap.fix_first less_entry (entry ∷ entries)
    ]

    -- `Next`
    unfoldable pub next_item : List (HeapEntry S) → Result (Option Bytes × List (HeapEntry S))
    unfolding update settle
    next_item [] = ok (none, [])
    next_item (min_entry ∷ entries) = do
      entry ← update min_entry
      ok (min_entry.value, settle entry entries)

    -- The loop of `Spawn` that takes all the items, on fuel: a round for each of them and one more.
    unfoldable pub take_items : ℕ → List (HeapEntry S) → Result (List Bytes)
    unfolding next_item
    take_items zero entries = panic
    take_items (suc n) entries = next_item entries >>= λ r. elim r.0 [
      | none ↦ ok []
      | some item ↦ take_items n r.1 >>= λ items. ok (item ∷ items)
    ]
