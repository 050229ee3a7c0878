-- ===== src/Extsort/Sorter/Chunks.antt =====
-- A chunk file's stream yields the chunk's items, sorted.
use store.Prelude.{
  ◌-◌, ◌^◌, ◌<◌, Bool, true, false, some, List, [], ◌∷◌, ◌++◌, ltb, ◌≡◌, refl, All, All-append_inv,
  length, arith, if◌then◌else◌,
}
use store.Bytes.{Bytes}
use store.Binary.{ok, put_uvarint, read_uvarint}
use store.Binary.RoundTrip.{read_uvarint-put_uvarint, read_full-append}
use store.Prelude.Shuffles.{
  Shuffle, nil, trans, Shuffle-append_left, Shuffle-append_right, All-Shuffle,
}
use store.Extsort.Delta.{encode_chunk}
use store.Extsort.Delta.RoundTrip.{next_key-nil, next_key-encode_key}
use store.Extsort.Merge.{HeapOps}
use store.Extsort.Merge.Order.{IsWeakOrder, SortLaws}
use store.Extsort.Merge.Laws.{Yields, AllYield, concat}
use store.Extsort.Sorter.{
  Options, Snappy, write_items, read_item, next_chunk_item, sort_and_save_chunk, open_chunk,
  open_chunks,
}

pub record SnappyLaws (snappy : Snappy) : Type 0 where
  pub decompress-compress : (bz : Bytes) → snappy.decompress (snappy.compress bz) ≡ bz

abbrev pub AreShort : List Bytes → Type 0
AreShort = All (λ item. length item < 2 ^ 32)

delta-Yields :
    (items : List Bytes) (last : Bytes)
    → AreShort items
    → Yields (next_chunk_item true) (record { last = last; rest = encode_chunk last items }) items
unfolding next_chunk_item encode_chunk
delta-Yields [] last h = (record { last = last; rest = [] }, rw (next_key-nil last) refl)
delta-Yields (item ∷ items) last (p, h) = (
  record { last = item; rest = encode_chunk item items },
  rw (next_key-encode_key last item (encode_chunk item items) (omega arith)) refl,
  delta-Yields items item h,
)

read_item-put_uvarint :
    (item rest : Bytes)
    → length item < 2 ^ 32
    → read_item (put_uvarint (length item) ++ (item ++ rest)) ≡ ok (some (item, rest))
unfolding read_item
read_item-put_uvarint item rest h =
    let fits : ltb (2 ^ 63 - 1) (length item) ≡ false = ground arith in
    rw (read_uvarint-put_uvarint (length item) (item ++ rest) (omega arith), read_item, fits)
      (rw (read_full-append item rest) refl)

plain-Yields :
    (items : List Bytes) (last : Bytes)
    → AreShort items
    → Yields (next_chunk_item false) (record { last = last; rest = write_items items }) items
unfolding next_chunk_item write_items
plain-Yields [] last h = (record { last = last; rest = [] }, unfold read_item read_uvarint in refl)
plain-Yields (item ∷ items) last (p, h) = (
  record { last = item; rest = write_items items },
  rw (read_item-put_uvarint item (write_items items) p) refl,
  plain-Yields items item h,
)

module _ (sort : (Bytes → Bytes → Bool) → List Bytes → List Bytes) (sorts : SortLaws sort)
    (snappy : Snappy) (laws : SnappyLaws snappy) (heap : HeapOps) (opts : Options)
    (order : IsWeakOrder opts.lesser_func) where
  chunk_Yields :
      (b delta : Bool) (items : List Bytes)
      → AreShort items
      → Yields
          (next_chunk_item delta)
          (record {
            last = [];
            rest =
                (let written = if delta then encode_chunk [] items else write_items items in
                  if b
                  then snappy.decompress (if b then snappy.compress written else written)
                  else (if b then snappy.compress written else written));
          })
          items
  chunk_Yields true true items h =
      rw (laws.decompress-compress (encode_chunk [] items)) (delta-Yields items [] h)
  chunk_Yields true false items h =
      rw (laws.decompress-compress (write_items items)) (plain-Yields items [] h)
  chunk_Yields false true items h = delta-Yields items [] h
  chunk_Yields false false items h = plain-Yields items [] h

  saved-Yields :
      (chunk : List Bytes)
      → AreShort chunk
      → Yields
          (next_chunk_item opts.delta_encoding)
          (open_chunk sort snappy heap opts (sort_and_save_chunk sort snappy heap opts chunk))
          (sort opts.lesser_func chunk)
  unfolding open_chunk sort_and_save_chunk
  saved-Yields chunk h =
      chunk_Yields opts.snappy_compression opts.delta_encoding (sort opts.lesser_func chunk)
        (All-Shuffle (λ item. length item < 2 ^ 32) (sorts.sort_perm opts.lesser_func chunk) h)

  -- The files of saved chunks.
  unfoldable pub files_of : List (List Bytes) → List Bytes
  files_of [] = []
  files_of (chunk ∷ chunks) = sort_and_save_chunk sort snappy heap opts chunk ∷ files_of chunks

  unfoldable pub sort_all : List (List Bytes) → List (List Bytes)
  sort_all [] = []
  sort_all (chunk ∷ chunks) = sort opts.lesser_func chunk ∷ sort_all chunks

  pub concat-sort_all :
      (chunks : List (List Bytes)) → Shuffle (concat chunks) (concat (sort_all chunks))
  unfolding sort_all
  concat-sort_all [] = nil
  concat-sort_all (chunk ∷ chunks) =
      trans (Shuffle-append_right (concat chunks) (sorts.sort_perm opts.lesser_func chunk))
        (Shuffle-append_left (sort opts.lesser_func chunk) (concat-sort_all chunks))

  pub files_of-AllYield :
      (chunks : List (List Bytes))
      → AreShort (concat chunks)
      → AllYield
          (next_chunk_item opts.delta_encoding)
          opts.lesser_func
          (open_chunks sort snappy heap opts (files_of chunks))
          (sort_all chunks)
  unfolding open_chunks files_of sort_all
  files_of-AllYield [] h = tt
  files_of-AllYield (chunk ∷ chunks) h =
      let (p, q) = All-append_inv (λ item. length item < 2 ^ 32) chunk (concat chunks) h in
      (
        saved-Yields chunk p,
        sorts.sort-IsSorted opts.lesser_func order chunk,
        files_of-AllYield chunks q,
      )

  pub files_of-append :
      (chunks : List (List Bytes)) (chunk : List Bytes)
      → files_of (chunks ++ (chunk ∷ []))
        ≡ files_of chunks ++ (sort_and_save_chunk sort snappy heap opts chunk ∷ [])
  unfolding files_of
  files_of-append [] chunk = refl
  files_of-append (x ∷ chunks) chunk = rw (files_of-append chunks chunk)
