-- ===== src/Extsort/Sorter.antt =====
-- versiondb/extsort/sort.go: `ExtSorter`. The items of a chunk are sorted and saved by a goroutine, which
-- may finish at any time; a chunk file is the list of its bytes. Parameters are `sort.Slice`, snappy,
-- whether `os.CreateTemp` makes a file, and the errors of the goroutines' writes. Sizes are int64, given
-- by their 64 bits, and `MaxChunkSize` is not negative.
pub mod Chunks
pub mod Holds
pub mod Laws
use store.Prelude.{
  ℕ, zero, suc, ◌+◌, ◌-◌, ◌%◌, ◌^◌, Bool, true, false, Option, none, some, List, [], ◌∷◌, ◌++◌, map,
  ltb, leb, ◌&&◌, length, get_elem?, if◌then◌else◌,
}
use store.Bytes.{Bytes}
use store.Binary.{Result, ok, err, panic, eof, ◌>>=◌, put_uvarint, read_uvarint, read_full}
use store.Extsort.Delta.{encode_chunk, next_key}
use store.Extsort.Merge.{HeapOps, HeapEntry, new_multi_way_merge}

pub record Options : Type 0 where
  pub delta_encoding : Bool
  pub snappy_compression : Bool
  pub max_chunk_size : ℕ
  pub lesser_func : Bytes → Bytes → Bool

-- The chunks that goroutines are at work on are `running`, in the order of their start.
pub record ExtSorter : Type 0 where
  pub opts : Options
  pub current_chunk : List Bytes
  pub current_chunk_size : ℕ
  pub running : List (List Bytes)
  pub chunk_files : List Bytes
  pub failures : List Bytes

pub data SortError : Type 0 where
  too_long no_file : SortError

-- snappy, over a whole file.
pub record Snappy : Type 0 where
  pub compress : Bytes → Bytes
  pub decompress : Bytes → Bytes

unfoldable pub new_sorter : Options → ExtSorter
new_sorter opts = record {
  opts = opts;
  current_chunk = [];
  current_chunk_size = 0;
  running = [];
  chunk_files = [];
  failures = [];
}

-- `sortChunkAndRotate`, for a file that is made or not.
unfoldable pub sort_chunk_and_rotate : Bool → ExtSorter → Option SortError × ExtSorter
sort_chunk_and_rotate made s =
    if made
    then (
      none,
      record s {
        current_chunk = [];
        current_chunk_size = 0;
        running = s.running ++ (s.current_chunk ∷ []);
      },
    )
    else (some no_file, s)

-- A signed comparison, `size >= max`, of 64 bits with a number that is not negative.
abbrev pub reaches : ℕ → ℕ → Bool
reaches size most = ltb size (2 ^ 63) && leb most size

-- The item in the current chunk.
abbrev pub add_item : Bytes → ExtSorter → ExtSorter
add_item item s = record s {
  current_chunk = s.current_chunk ++ (item ∷ []);
  current_chunk_size = (s.current_chunk_size + (length item + 4)) % 2 ^ 64;
}

-- `Feed`
unfoldable pub feed : Bool → Bytes → ExtSorter → Option SortError × ExtSorter
unfolding sort_chunk_and_rotate
feed made item s =
    let s1 = add_item item s in
    if ltb (2 ^ 32 - 1) (length item)
    then (some too_long, s)
    else if reaches s1.current_chunk_size s.opts.max_chunk_size
    then sort_chunk_and_rotate made s1
    else (none, s1)

-- The items without delta encoding.
unfoldable pub write_items : List Bytes → Bytes
write_items [] = []
write_items (item ∷ items) = put_uvarint (length item) ++ (item ++ write_items items)

unfoldable pub read_item : Bytes → Result (Option (Bytes × Bytes))
read_item stream = elim (read_uvarint stream) [
  | err e ↦ elim e [ eof ↦ ok none | other ↦ err other ]
  | panic ↦ panic
  | ok r ↦ if ltb (2 ^ 63 - 1) r.0 then panic else read_full r.0 r.1 >>= λ q. ok (some q)
]

unfoldable pub remove_at : {A : Type 0} → List A → ℕ → List A
remove_at [] i = []
remove_at (x ∷ xs) zero = xs
remove_at (x ∷ xs) (suc i) = x ∷ remove_at xs i

-- A stream of `Finalize`: the decoder's last item, and the bytes that are left.
pub record ChunkStream : Type 0 where
  pub last : Bytes
  pub rest : Bytes

unfoldable pub next_chunk_item : Bool → ChunkStream → Result (Option Bytes × ChunkStream)
unfolding read_item
next_chunk_item delta stream =
    (if delta then next_key stream.last stream.rest else read_item stream.rest) >>= λ r. elim r [
      | none ↦ ok (none, stream)
      | some (item, rest) ↦ ok (some item, record { last = item; rest = rest })
    ]

pub data Finalized : Type 0 where
  broken : List Bytes → Finalized
  merging : Result (List (HeapEntry ChunkStream)) → Finalized

-- What happens to a sorter before `Finalize`: it is fed, or a goroutine ends.
pub data Event : Type 0 where
  fed : Bool → Bytes → Event
  ended : ℕ → Option Bytes → Event

module _ (sort : (Bytes → Bytes → Bool) → List Bytes → List Bytes) (snappy : Snappy)
    (heap : HeapOps) where
  -- The bytes of `sortAndSaveChunk`.
  unfoldable pub sort_and_save_chunk : Options → List Bytes → Bytes
  unfolding write_items
  sort_and_save_chunk opts chunk =
      let sorted = sort opts.lesser_func chunk in
      let written = if opts.delta_encoding then encode_chunk [] sorted else write_items sorted in
      if opts.snappy_compression then snappy.compress written else written

  -- The goroutine of the running chunk at an index ends, with the error of its writes if there is one.
  unfoldable pub end_chunk : ℕ → Option Bytes → ExtSorter → ExtSorter
  unfolding sort_and_save_chunk remove_at
  end_chunk i failure s = elim (get_elem? s.running i) [
    | none ↦ s
    | some chunk ↦ elim failure [
      | some message ↦ record s {
        running = remove_at s.running i;
        failures = s.failures ++ (message ∷ []);
      }
      | none ↦ record s {
        running = remove_at s.running i;
        chunk_files = s.chunk_files ++ (sort_and_save_chunk s.opts chunk ∷ []);
      }
    ]
  ]

  -- `Finalize` up to its wait: the pending chunk is rotated.
  unfoldable pub rotate_pending : Bool → ExtSorter → Option SortError × ExtSorter
  unfolding sort_chunk_and_rotate
  rotate_pending made s =
      if ltb 0 s.current_chunk_size && ltb s.current_chunk_size (2 ^ 63)
      then sort_chunk_and_rotate made s
      else (none, s)

  unfoldable pub open_chunk : Options → Bytes → ChunkStream
  open_chunk opts file = record {
    last = [];
    rest = if opts.snappy_compression then snappy.decompress file else file;
  }

  unfoldable pub open_chunks : Options → List Bytes → List ChunkStream
  unfolding open_chunk
  open_chunks opts [] = []
  open_chunks opts (file ∷ files) = open_chunk opts file ∷ open_chunks opts files

  -- `Finalize` after its wait.
  unfoldable pub finalize : ExtSorter → Finalized
  unfolding open_chunks next_chunk_item
  finalize s =
      if ltb 0 (length s.failures)
      then broken s.failures
      else merging (
          new_multi_way_merge (next_chunk_item s.opts.delta_encoding) heap s.opts.lesser_func
            (open_chunks s.opts s.chunk_files))

  unfoldable pub happens : Event → ExtSorter → ExtSorter
  unfolding feed end_chunk
  happens (fed made item) s = (feed made item s).1
  happens (ended i failure) s = end_chunk i failure s

  unfoldable pub run : List Event → ExtSorter → ExtSorter
  unfolding happens
  run [] s = s
  run (event ∷ events) s = run events (happens event s)

  -- Goroutines end while `Finalize` waits.
  unfoldable pub wait : List (ℕ × Option Bytes) → ExtSorter → ExtSorter
  unfolding end_chunk
  wait [] s = s
  wait ((i, failure) ∷ ends) s = wait ends (end_chunk i failure s)
