-- ===== src/Tests/Sorting.antt =====
-- The external sorter with an insertion sort, by the length of the items.
use store.Prelude.{
  ℕ, Bool, true, false, Option, none, some, List, [], ◌∷◌, ◌≡◌, refl, ltb, length, if◌then◌else◌,
  Bool-cases, inl, inr, arith,
}
use store.Bytes.{Bytes}
use store.Binary.{Result, ok, ◌>>=◌}
use store.Prelude.Shuffles.{Shuffle, nil, cons, swap, trans, Shuffle-rfl, All-Shuffle}
use store.Extsort.Merge.{HeapOps, new_multi_way_merge, take_items}
use store.Extsort.Merge.Order.{IsWeakOrder, IsSorted, IsLeast-trans, HeapLaws, SortLaws}
use store.Extsort.Merge.Laws.{concat, HasSorted, take_items-HasSorted}
use store.Extsort.Sorter.{
  ExtSorter, new_sorter, run, happens, feed, end_chunk, remove_at, rotate_pending,
  sort_chunk_and_rotate, Options, Snappy, Event, fed, finalize, wait,
}
use store.Extsort.Sorter.Chunks.{SnappyLaws}
use store.Extsort.Sorter.Holds.{accepted}
use store.Extsort.Sorter.Laws.{HasFinal, finalizing, finalize-HasFinal}

module _ {A : Type 0} (less : A → A → Bool) where
  put : A → List A → List A
  put x [] = x ∷ []
  put x (y ∷ ys) = let rest = put x ys in if less y x then y ∷ rest else x ∷ y ∷ ys

  put_all : List A → List A
  put_all [] = []
  put_all (x ∷ xs) = put x (put_all xs)

  put_perm : (x : A) (xs : List A) → Shuffle (x ∷ xs) (put x xs)
  unfolding put
  put_perm x [] = Shuffle-rfl (x ∷ [])
  put_perm x (y ∷ ys) = elim (Bool-cases (less y x)) [
    | inl e ↦ rw e (trans (swap y x ys) (cons y (put_perm x ys)))
    | inr e ↦ rw e (Shuffle-rfl (x ∷ y ∷ ys))
  ]

  put_all_perm : (xs : List A) → Shuffle xs (put_all xs)
  unfolding put_all
  put_all_perm [] = nil
  put_all_perm (x ∷ xs) = trans (cons x (put_all_perm xs)) (put_perm x (put_all xs))

  put-IsSorted :
      IsWeakOrder less → (x : A) (xs : List A) → IsSorted less xs → IsSorted less (put x xs)
  unfolding put
  put-IsSorted order x [] h = (tt, tt)
  put-IsSorted order x (y ∷ ys) h = elim (Bool-cases (less y x)) [
    | inl e ↦ rw e (
      All-Shuffle (λ z. less z y ≡ false) (put_perm x ys) (order.asym y x e, h.0),
      put-IsSorted order x ys h.1,
    )
    | inr e ↦ rw e ((e, IsLeast-trans less order x y ys e h.0), h)
  ]

  put_all-IsSorted : IsWeakOrder less → (xs : List A) → IsSorted less (put_all xs)
  unfolding put_all
  put_all-IsSorted order [] = tt
  put_all-IsSorted order (x ∷ xs) = put-IsSorted order x (put_all xs) (put_all-IsSorted order xs)

-- A sorted list is a heap.
abbrev tail : {A : Type 0} → List A → List A
tail [] = []
tail (x ∷ xs) = xs

abbrev refit : {A : Type 0} → (A → A → Bool) → List A → List A
refit less [] = []
refit less (x ∷ xs) = put less x xs

abbrev list_heap : HeapOps
list_heap = record {
  init = λ {A} less xs. put_all less xs;
  remove_first = λ {A} less xs. tail xs;
  fix_first = λ {A} less xs. refit less xs;
}

list_heap-HeapLaws : HeapLaws list_heap
list_heap-HeapLaws = record {
  IsHeap = λ {A} less xs. IsSorted less xs;
  first = λ {A} less order x xs h. h.0;
  init-IsHeap = λ {A} less order xs. put_all-IsSorted less order xs;
  init_perm = λ {A} less xs. put_all_perm less xs;
  remove_first-IsHeap = λ {A} less order x y xs h. h.1;
  remove_first_perm = λ {A} less y xs. Shuffle-rfl xs;
  fix_first-IsHeap = λ {A} less order x y xs h. put-IsSorted less order y xs h.1;
  fix_first_perm = λ {A} less y xs. put_perm less y xs;
}

abbrev list_sort : (Bytes → Bytes → Bool) → List Bytes → List Bytes
list_sort less xs = put_all less xs

list_sort-SortLaws : SortLaws list_sort
list_sort-SortLaws = record {
  sort-IsSorted = λ less order xs. put_all-IsSorted less order xs;
  sort_perm = λ less xs. put_all_perm less xs;
}

abbrev marked : Snappy
marked = record { compress = λ bz. 7 ∷ bz; decompress = λ bz. tail bz }

marked-SnappyLaws : SnappyLaws marked
marked-SnappyLaws = record { decompress-compress = λ bz. refl }

abbrev shorter : Bytes → Bytes → Bool
shorter a b = ltb (length a) (length b)

shorter-IsWeakOrder : IsWeakOrder shorter
shorter-IsWeakOrder = record { asym = λ x y h. ground arith; trans = λ x y z h k. ground arith }

abbrev by_length : Options
by_length = record {
  delta_encoding = true;
  snappy_compression = true;
  max_chunk_size = 10;
  lesser_func = shorter;
}

-- Three items in two chunks; the second chunk is saved first.
abbrev three_fed : List Event
three_fed = fed true (1 ∷ 2 ∷ 3 ∷ []) ∷ fed true (4 ∷ []) ∷ fed true (5 ∷ 6 ∷ []) ∷ []

abbrev both_end : List (ℕ × Option Bytes)
both_end = (1, none) ∷ (0, none) ∷ []

abbrev after_wait : ExtSorter
after_wait =
    wait list_sort marked list_heap both_end
      (finalizing list_sort list_sort-SortLaws marked marked-SnappyLaws list_heap list_heap-HeapLaws
        by_length shorter-IsWeakOrder true three_fed).1

finalize_example :
    HasFinal list_sort list_sort-SortLaws marked marked-SnappyLaws list_heap list_heap-HeapLaws
      by_length shorter-IsWeakOrder 9
      (accepted three_fed)
      after_wait.failures
      (finalize list_sort marked list_heap after_wait)
finalize_example =
    finalize-HasFinal list_sort list_sort-SortLaws marked marked-SnappyLaws list_heap
      list_heap-HeapLaws by_length shorter-IsWeakOrder true three_fed both_end 9
      (unfold accepted in omega arith)
      (unfold new_sorter rotate_pending sort_chunk_and_rotate run happens feed in refl)
      (unfold wait end_chunk remove_at new_sorter rotate_pending sort_chunk_and_rotate run happens
          feed in
        refl)
      (unfold accepted in omega arith)

-- A stream that is a list of items.
abbrev next_of : List Bytes → Result (Option Bytes × List Bytes)
next_of [] = ok (none, [])
next_of (x ∷ xs) = ok (some x, xs)

abbrev two_lists : List (List Bytes)
two_lists = ((1 ∷ []) ∷ (2 ∷ 3 ∷ 4 ∷ []) ∷ []) ∷ [] ∷ ((5 ∷ 6 ∷ []) ∷ []) ∷ []

merge_example : HasSorted shorter (concat two_lists) (
    new_multi_way_merge next_of list_heap shorter two_lists
    >>= take_items next_of list_heap shorter 4)
merge_example =
    take_items-HasSorted next_of shorter list_heap list_heap-HeapLaws shorter-IsWeakOrder 4
      two_lists two_lists
      (
        ((2 ∷ 3 ∷ 4 ∷ []) ∷ [], refl, ([], refl, ([], refl))),
        ((refl, tt), (tt, tt)),
        (([], refl), tt, (([], refl, ([], refl)), (tt, tt), tt)),
      )
      (omega arith)
