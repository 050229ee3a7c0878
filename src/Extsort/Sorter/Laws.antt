-- ===== src/Extsort/Sorter/Laws.antt =====
-- The external sorter gives back a sorted permutation of what it was fed, however its goroutines
-- interleave with it.
use store.Prelude.{
  ℕ, suc, ◌^◌, ◌<◌, Bool, true, Option, none, List, [], ◌∷◌, ltb, ◌≡◌, ◌≢◌, refl, sym, ◌∙◌, subst,
  length, arith, if◌then◌else◌,
}
use store.Bytes.{Bytes}
use store.Binary.{◌>>=◌}
use store.Prelude.Shuffles.{Shuffle, nil, trans, Shuffle-sym, All-Shuffle, length-Shuffle}
use store.Extsort.Merge.{HeapOps, new_multi_way_merge, take_items}
use store.Extsort.Merge.Order.{IsWeakOrder, HeapLaws, SortLaws}
use store.Extsort.Merge.Laws.{concat, HasSorted, HasSorted-Shuffle, take_items-HasSorted}
use store.Extsort.Sorter.{
  Options, ExtSorter, SortError, Snappy, Finalized, broken, merging, Event, new_sorter,
  next_chunk_item, rotate_pending, open_chunks, finalize, run, wait,
}
use store.Extsort.Sorter.Chunks.{
  SnappyLaws, AreShort, files_of, files_of-AllYield, sort_all, concat-sort_all,
}
use store.Extsort.Sorter.Holds.{
  total, accepted, accepted-AreShort, files, Holds, run-Holds, wait-Holds, pending-Holds,
  wait-current_chunk,
}

module _ (sort : (Bytes → Bytes → Bool) → List Bytes → List Bytes) (sorts : SortLaws sort)
    (snappy : Snappy) (snappies : SnappyLaws snappy) (heap : HeapOps) (heaps : HeapLaws heap)
    (opts : Options) (order : IsWeakOrder opts.lesser_func) where
  -- The end of `Finalize`: the failures if there are any, and else a merge to a sorted permutation.
  abbrev pub HasFinal : ℕ → List Bytes → List Bytes → Finalized → Type 0
  HasFinal n items failures (broken fs) = (fs ≡ failures) × (failures ≢ [])
  HasFinal n items failures (merging r) =
      (failures ≡ [])
      × HasSorted opts.lesser_func items
          (r >>= take_items (next_chunk_item opts.delta_encoding) heap opts.lesser_func n)

  finalize_lem :
      (n : ℕ) (items : List Bytes) (s : ExtSorter)
      → Holds sort sorts snappy snappies heap heaps opts order items s
      → AreShort items
      → s.current_chunk ≡ []
      → s.running ≡ []
      → length items < n
      → HasFinal n items s.failures (finalize sort snappy heap s)
  unfolding finalize
  finalize_lem n items s h short c r p = go s.failures refl
    where
      merged :
          s.failures ≡ []
          → (o : Options) → opts ≡ o
          → (fs : List Bytes) → files sort sorts snappy snappies heap heaps opts order h.saved ≡ fs
          → HasSorted opts.lesser_func items (
              new_multi_way_merge
                (next_chunk_item o.delta_encoding)
                heap
                o.lesser_func
                (open_chunks sort snappy heap o fs)
              >>= take_items (next_chunk_item opts.delta_encoding) heap opts.lesser_func n)
      merged e o eo fs ef =
          let all : Shuffle (concat h.saved) items = rw (c, r) at h.kept e in
          let short_saved = All-Shuffle (λ item. length item < 2 ^ 32) (Shuffle-sym all) short in
          let lists = sort_all sort sorts snappy snappies heap opts order h.saved in
          let sh = concat-sort_all sort sorts snappy snappies heap opts order h.saved in
          let streams =
            open_chunks sort snappy heap opts
              (files sort sorts snappy snappies heap heaps opts order h.saved) in
          let m =
            take_items-HasSorted (next_chunk_item opts.delta_encoding) opts.lesser_func heap heaps
              order n streams lists
              (files_of-AllYield sort sorts snappy snappies heap opts order h.saved short_saved)
              (omega (arith, length-Shuffle sh, length-Shuffle all)) in
          subst
            (λ x. HasSorted opts.lesser_func items (
              new_multi_way_merge (next_chunk_item o.delta_encoding) heap o.lesser_func
                (open_chunks sort snappy heap o x)
              >>= take_items (next_chunk_item opts.delta_encoding) heap opts.lesser_func n))
            ef
            (subst
              (λ x. HasSorted opts.lesser_func items (
                new_multi_way_merge (next_chunk_item x.delta_encoding) heap x.lesser_func (
                  open_chunks sort snappy heap x
                    (files sort sorts snappy snappies heap heaps opts order h.saved))
                >>= take_items (next_chunk_item opts.delta_encoding) heap opts.lesser_func n))
              eo
              (HasSorted-Shuffle (next_chunk_item opts.delta_encoding) opts.lesser_func heap heaps
                order items (concat lists)
                (new_multi_way_merge (next_chunk_item opts.delta_encoding) heap opts.lesser_func
                    streams
                  >>= take_items (next_chunk_item opts.delta_encoding) heap opts.lesser_func n)
                (trans (Shuffle-sym all) sh) m))

      go :
          (fs : List Bytes)
          → s.failures ≡ fs
          → HasFinal n items fs (
              if ltb 0 (length fs)
              then broken fs
              else merging (
                  new_multi_way_merge
                    (next_chunk_item s.opts.delta_encoding)
                    heap
                    s.opts.lesser_func
                    (open_chunks sort snappy heap s.opts s.chunk_files)))
      go [] e = (refl, merged e s.opts (sym h.same_opts) s.chunk_files (sym h.filed))
      go (f ∷ fs) e =
          let some_failure : ltb 0 (suc (length fs)) ≡ true = ground arith in
          rw some_failure (refl, λ g. cc)

  -- The sorter after the events and the first part of `Finalize`.
  abbrev pub finalizing : Bool → List Event → Option SortError × ExtSorter
  finalizing made events =
      rotate_pending sort snappy heap made (run sort snappy heap events (new_sorter opts))

  -- For a strict weak order as the less function, with a sort, a heap and a compression that
  -- do what they document: a new sorter is fed items while its goroutines end in any order,
  -- and `Finalize`, when a file for a pending chunk can be made, waits until all have ended.
  -- If the accepted items (those of less than 2 ^ 32 bytes) have below 2 ^ 63 bytes, each with
  -- four more, then `Finalize` returns the failures when a goroutine's writes have failed, and
  -- else a merge; in more rounds than there are items it yields all of them, a sorted
  -- permutation of the accepted items.
  pub finalize-HasFinal :
      (made : Bool) (events : List Event) (ends : List (ℕ × Option Bytes)) (n : ℕ)
      → total (accepted events) < 2 ^ 63
      → (finalizing made events).0 ≡ none
      → (wait sort snappy heap ends (finalizing made events).1).running ≡ []
      → length (accepted events) < n
      → HasFinal n
          (accepted events)
          (wait sort snappy heap ends (finalizing made events).1).failures
          (finalize sort snappy heap (wait sort snappy heap ends (finalizing made events).1))
  unfolding new_sorter
  finalize-HasFinal made events ends n p q r f =
      let start : Holds sort sorts snappy snappies heap heaps opts order [] (new_sorter opts) =
        record {
          saved = [];
          same_opts = refl;
          filed = unfold files_of in refl;
          kept = λ g. nil;
          sized = refl;
          bounded = omega arith;
        } in
      let s1 = run sort snappy heap events (new_sorter opts) in
      let (h, empty) =
        pending-Holds sort sorts snappy snappies heap heaps opts order made (accepted events) s1
          (run-Holds sort sorts snappy snappies heap heaps opts order events [] (new_sorter opts)
            start p)
          p q in
      let s2 = (finalizing made events).1 in
      finalize_lem n (accepted events) (wait sort snappy heap ends s2)
        (wait-Holds sort sorts snappy snappies heap heaps opts order ends (accepted events) s2 h)
        (accepted-AreShort events)
        (wait-current_chunk sort sorts snappy snappies heap heaps opts order ends s2 ∙ empty) r f
