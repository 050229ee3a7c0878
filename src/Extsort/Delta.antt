-- ===== src/Extsort/Delta.antt =====
-- versiondb/extsort/delta_encoding.go: sorted keys written as the length shared with the previous
-- key, the length of the rest, and the rest; and the loop of `Finalize` that reads a chunk back.
-- The writer is a buffer that accepts everything.
pub mod RoundTrip
use store.Prelude.{
  ℕ, zero, suc, ◌+◌, ◌-◌, ◌%◌, ◌^◌, List, [], ◌∷◌, ◌++◌, Option, none, some, ltb, ◌==◌, ◌||◌,
  length, take, drop, if◌then◌else◌,
}
use store.Bytes.{Bytes}
use store.Binary.{Result, ok, err, panic, eof, ◌>>=◌, put_uvarint, read_uvarint, read_full}

-- `diffOffset`: the loop stops at the first difference or at the end of the shorter slice.
unfoldable pub diff_offset : Bytes → Bytes → ℕ
diff_offset [] b = 0
diff_offset (x ∷ a) [] = 0
diff_offset (x ∷ a) (y ∷ b) = if x == y then suc (diff_offset a b) else 0

-- `DeltaEncoder.Write`: the bytes written; `last` becomes the key.
unfoldable pub encode_key : Bytes → Bytes → Bytes
encode_key last key =
    let shared = diff_offset last key in
    put_uvarint shared ++ (put_uvarint (length key - shared) ++ drop shared key)

-- `DeltaDecoder.Read`: the item, which becomes `last`, and the rest of the stream. `make` panics on a
-- length that is no int, and the slices panic beyond their lengths.
unfoldable pub decode_key : Bytes → Bytes → Result (Bytes × Bytes)
decode_key last stream = do
  (shared, stream1) ← read_uvarint stream
  (non_shared, stream2) ← read_uvarint stream1
  if ltb (2 ^ 63 - 1) ((shared + non_shared) % 2 ^ 64)
        || (ltb ((shared + non_shared) % 2 ^ 64) shared || ltb (length last) shared)
      then panic
      else (do
        (tail, stream3) ← read_full ((shared + non_shared) % 2 ^ 64 - shared) stream2
        ok (take shared last ++ tail, stream3))

-- `sortAndSaveChunk` with delta encoding, after the sort.
unfoldable pub encode_chunk : Bytes → List Bytes → Bytes
encode_chunk last [] = []
encode_chunk last (key ∷ keys) = encode_key last key ++ encode_chunk key keys

-- The stream of `Finalize`: an error that is `io.EOF` ends the chunk.
unfoldable pub next_key : Bytes → Bytes → Result (Option (Bytes × Bytes))
next_key last stream = elim (decode_key last stream) [
  | ok r ↦ ok (some r)
  | err e ↦ elim e [ eof ↦ ok none | other ↦ err other ]
  | panic ↦ panic
]

-- All the items of a chunk, on fuel; an item takes two bytes at least.
unfoldable pub decode_chunk : ℕ → Bytes → Bytes → Result (List Bytes)
decode_chunk zero last stream = panic
decode_chunk (suc n) last stream = elim (next_key last stream) [
  | ok none ↦ ok []
  | ok (some (item, rest)) ↦ decode_chunk n item rest >>= λ items. ok (item ∷ items)
  | err e ↦ err e
  | panic ↦ panic
]
