-- ===== src/Extsort/Merge/Laws.antt =====
-- The merge of sorted streams is a sorted permutation of their items.
use store.Prelude.{
  ℕ, zero, suc, ◌<◌, Bool, false, Option, none, some, List, [], ◌∷◌, ◌++◌, ◌≡◌, refl, ap,
  All-append, length, arith,
}
use store.Bytes.{Bytes}
use store.Binary.{Result, ok, err, panic, ◌>>=◌}
use store.Prelude.Shuffles.{
  Shuffle, nil, cons, swap, trans, Shuffle-rfl, Shuffle-append_left, Shuffle-front, All-Shuffle,
  length-Shuffle,
}
use store.Extsort.Merge.{
  HeapOps, HeapEntry, bytes_of, new_heap_entry, new_heap_entries, update, less_entry,
  new_multi_way_merge, settle, next_item, take_items,
}
use store.Extsort.Merge.Order.{IsWeakOrder, IsLeast, IsSorted, IsLeast-trans, HeapLaws}

module _ {S : Type 0} (next : S → Result (Option Bytes × S)) where
  -- The stream yields the items, and nil at their end.
  abbrev pub Yields : S → List Bytes → Type 0
  Yields s [] = (s1 : S) × (next s ≡ ok (none, s1))
  Yields s (v ∷ vs) = (s1 : S) × (next s ≡ ok (some v, s1)) × Yields s1 vs

abbrev pub concat : List (List Bytes) → List Bytes
concat [] = []
concat (l ∷ ls) = l ++ concat ls

-- A sorted permutation of the items.
abbrev pub HasSorted : (Bytes → Bytes → Bool) → List Bytes → Result (List Bytes) → Type 0
HasSorted less c (ok out) = IsSorted less out × Shuffle c out
HasSorted less c (err e) = ⊥
HasSorted less c panic = ⊥

module _ {S : Type 0} (next : S → Result (Option Bytes × S)) (less : Bytes → Bytes → Bool) where
  -- Streams that yield sorted lists.
  abbrev pub AllYield : List S → List (List Bytes) → Type 0
  AllYield [] [] = Unit
  AllYield [] (l ∷ ls) = ⊥
  AllYield (s ∷ ss) [] = ⊥
  AllYield (s ∷ ss) (l ∷ ls) = Yields next s l × IsSorted less l × AllYield ss ls

  -- The entry holds the first item, and its stream yields the others.
  abbrev IsLoaded : HeapEntry S → List Bytes → Type 0
  IsLoaded e [] = ⊥
  IsLoaded e (v ∷ vs) = (e.value ≡ some v) × Yields next e.stream vs × IsSorted less (v ∷ vs)

  abbrev Carries : List (HeapEntry S) → List Bytes → Type 0
  Carries [] c = c ≡ []
  Carries (e ∷ es) c =
      (l : List Bytes) × (r : List Bytes) × (c ≡ l ++ r) × IsLoaded e l × Carries es r

  Carries-Shuffle :
      {es fs : List (HeapEntry S)}
      → Shuffle es fs
      → (c : List Bytes) → Carries es c
      → (d : List Bytes) × Shuffle c d × Carries fs d
  Carries-Shuffle nil c h = (c, Shuffle-rfl c, h)
  Carries-Shuffle (cons e p) c (l, r, q, k, h) =
      let (r1, s, h1) = Carries-Shuffle p r h in
      (l ++ r1, rw q (Shuffle-append_left l s), (l, r1, refl, k, h1))
  Carries-Shuffle (swap x y xs) c (l, r, q, k, (l1, r1, q1, k1, h)) = (
    l1 ++ (l ++ r1),
    rw (q, q1) (Shuffle-front l l1 r1),
    (l1, l ++ r1, refl, k1, (l, r1, refl, k, h)),
  )
  Carries-Shuffle (trans p q) c h =
      let (d, s, h1) = Carries-Shuffle p c h in
      let (d1, s1, h2) = Carries-Shuffle q d h1 in (d1, trans s s1, h2)

  new_heap_entries_lem :
      (streams : List S) (lists : List (List Bytes))
      → AllYield streams lists
      → (es : List (HeapEntry S)) × (new_heap_entries next streams ≡ ok es)
        × Carries es (concat lists)
  unfolding new_heap_entries new_heap_entry
  new_heap_entries_lem [] [] h = ([], refl, refl)
  new_heap_entries_lem [] (l ∷ ls) h = absurd h
  new_heap_entries_lem (s ∷ ss) [] h = absurd h
  new_heap_entries_lem (s ∷ ss) ([] ∷ ls) ((s1, q), o, h) =
      let (es, e, k) = new_heap_entries_lem ss ls h in (es, rw (q, e) refl, k)
  new_heap_entries_lem (s ∷ ss) ((v ∷ vs) ∷ ls) ((s1, q, y), o, h) =
      let (es, e, k) = new_heap_entries_lem ss ls h in
      (
        record { stream = s1; value = some v } ∷ es,
        rw (q, e) refl,
        (v ∷ vs, concat ls, refl, (refl, y, o), k),
      )

  module _ (heap : HeapOps) (laws : HeapLaws heap) (order : IsWeakOrder less) where
    less_entry-order : IsWeakOrder (less_entry next heap less)
    unfolding less_entry
    less_entry-order = record {
      asym = λ x y h. order.asym (bytes_of x.value) (bytes_of y.value) h;
      trans = λ x y z h k. order.trans (bytes_of x.value) (bytes_of y.value) (bytes_of z.value) h k;
    }

    Carries-IsLeast :
        (e : HeapEntry S) (v : Bytes) (es : List (HeapEntry S)) (c : List Bytes)
        → e.value ≡ some v
        → IsLeast (less_entry next heap less) e es
        → Carries es c
        → IsLeast less v c
    unfolding less_entry
    Carries-IsLeast e v [] c q h k = rw k tt
    Carries-IsLeast e v (f ∷ es) c q (h, hs) ([], r, p, k, ks) = absurd k
    Carries-IsLeast e v (f ∷ es) c q (h, hs) (w ∷ ws, r, p, (fv, y, o), ks) =
        let below : less w v ≡ false = (rw (fv, q) at h) in
        rw p (
          below,
          All-append (λ y. less y v ≡ false) ws r (IsLeast-trans less order v w ws below o.0)
              (Carries-IsLeast e v es r q hs ks),
        )

    -- A least item in front of the rest, sorted.
    finish :
        (v : Bytes) (c d : List Bytes) (o : Result (List Bytes))
        → IsLeast less v c
        → Shuffle c d
        → HasSorted less d o
        → HasSorted less (v ∷ c) (o >>= λ items. ok (v ∷ items))
    finish v c d (ok items) l sh (o, p) =
        ((All-Shuffle (λ y. less y v ≡ false) (trans sh p) l, o), cons v (trans sh p))
    finish v c d (err e) l sh h = h
    finish v c d panic l sh h = h

    pub HasSorted-Shuffle :
        (c d : List Bytes) (o : Result (List Bytes))
        → Shuffle c d
        → HasSorted less d o
        → HasSorted less c o
    HasSorted-Shuffle c d (ok items) sh (o, p) = (o, trans sh p)
    HasSorted-Shuffle c d (err e) sh h = h
    HasSorted-Shuffle c d panic sh h = h

    take_items_lem :
        (n : ℕ) (es : List (HeapEntry S)) (c : List Bytes)
        → laws.IsHeap (less_entry next heap less) es
        → Carries es c
        → length c < n
        → HasSorted less c (take_items next heap less n es)
    unfolding take_items next_item update settle
    take_items_lem zero es c h k p = absurd (omega arith)
    take_items_lem (suc n) [] c h k p = rw k (tt, nil)
    take_items_lem (suc n) (e ∷ es) c h ([], r, q, l, k) p = absurd l
    take_items_lem (suc n) (e ∷ es) c h (v ∷ [], r, q, (ev, (s1, y), o), k) p =
        let e1 : HeapEntry S = record { stream = s1; value = none } in
        let fs = heap.remove_first (less_entry next heap less) (e1 ∷ es) in
        let (d, sh, k1) =
          Carries-Shuffle (laws.remove_first_perm (less_entry next heap less) e1 es) r k in
        let root = laws.first (less_entry next heap less) less_entry-order e es h in
        let rest =
          take_items_lem n fs d
            (laws.remove_first-IsHeap (less_entry next heap less) less_entry-order e e1 es h) k1
            (omega (arith, ap length q, length-Shuffle sh)) in
        rw (y, ev, q)
          (finish v r d (take_items next heap less n fs) (Carries-IsLeast e v es r ev root k) sh
            rest)
    take_items_lem (suc n) (e ∷ es) c h (v ∷ w ∷ ws, r, q, (ev, (s1, y, ys), o), k) p =
        let e1 : HeapEntry S = record { stream = s1; value = some w } in
        let fs = heap.fix_first (less_entry next heap less) (e1 ∷ es) in
        let (d, sh, k1) =
          Carries-Shuffle (laws.fix_first_perm (less_entry next heap less) e1 es) ((w ∷ ws) ++ r)
            (w ∷ ws, r, refl, (refl, ys, o.1), k) in
        let root = laws.first (less_entry next heap less) less_entry-order e es h in
        let rest =
          take_items_lem n fs d
            (laws.fix_first-IsHeap (less_entry next heap less) less_entry-order e e1 es h) k1
            (omega (arith, ap length q, length-Shuffle sh)) in
        rw (y, ev, q)
          (finish v ((w ∷ ws) ++ r) d (take_items next heap less n fs)
            (All-append (λ z. less z v ≡ false) (w ∷ ws) r o.0 (Carries-IsLeast e v es r ev root k))
            sh rest)

    -- For a strict weak order and a heap that does what container/heap documents, on streams
    -- that each yield a sorted list and then nil, `NewMultiWayMerge` returns a merge, and
    -- the loop that takes its items until nil ends after more rounds than there are items,
    -- with a sorted permutation of the items of all streams.
    pub take_items-HasSorted :
        (n : ℕ) (streams : List S) (lists : List (List Bytes))
        → AllYield streams lists
        → length (concat lists) < n
        → HasSorted less
            (concat lists)
            (new_multi_way_merge next heap less streams >>= take_items next heap less n)
    unfolding new_multi_way_merge
    take_items-HasSorted n streams lists h p =
        let (es, e, k) = new_heap_entries_lem streams lists h in
        let (d, sh, k1) =
          Carries-Shuffle (laws.init_perm (less_entry next heap less) es) (concat lists) k in
        rw e (
          HasSorted-Shuffle (concat lists) d
            (take_items next heap less n (heap.init (less_entry next heap less) es)) sh
            (take_items_lem n (heap.init (less_entry next heap less) es) d
              (laws.init-IsHeap (less_entry next heap less) less_entry-order es) k1
              (omega (arith, length-Shuffle sh))))
