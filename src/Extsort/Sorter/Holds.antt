-- ===== src/Extsort/Sorter/Holds.antt =====
-- What a sorter holds while it is fed, while goroutines end, and while `Finalize` waits.
use store.Prelude.{
  ℕ, zero, suc, ◌+◌, ◌-◌, ◌^◌, ◌<◌, ◌≤◌, Bool, true, false, Option, none, some, List, [], ◌∷◌, ◌++◌,
  append_assoc, append-nil, ltb, ◌&&◌, ◌≡◌, ◌≢◌, refl, sym, ap, ◌∙◌, subst, length, get_elem?,
  arith, if◌then◌else◌, Bool-cases, inl, inr,
}
use store.Bytes.{Bytes}
use store.Prelude.Shuffles.{
  Shuffle, cons, trans, Shuffle-rfl, Shuffle-append_left, Shuffle-append_right, Shuffle-sym,
  Shuffle-front, Shuffle-middle,
}
use store.Extsort.Merge.{HeapOps}
use store.Extsort.Merge.Order.{IsWeakOrder, HeapLaws, SortLaws}
use store.Extsort.Merge.Laws.{concat}
use store.Extsort.Sorter.{
  Options, add_item, ExtSorter, Snappy, Event, fed, ended, sort_chunk_and_rotate, feed, reaches,
  remove_at, sort_and_save_chunk, end_chunk, rotate_pending, happens, run, wait,
}
use store.Extsort.Sorter.Chunks.{SnappyLaws, AreShort, files_of, files_of-append}

-- The bytes of items as `Feed` counts them.
abbrev pub total : List Bytes → ℕ
total [] = 0
total (item ∷ items) = length item + 4 + total items

total-append : (xs ys : List Bytes) → total (xs ++ ys) ≡ total xs + total ys
total-append [] ys = omega arith
total-append (x ∷ xs) ys = omega (arith, total-append xs ys)

total-pos : (xs : List Bytes) → total xs ≡ 0 → xs ≡ []
total-pos [] h = refl
total-pos (x ∷ xs) h = absurd (omega arith)

concat-append : (xs ys : List (List Bytes)) → concat (xs ++ ys) ≡ concat xs ++ concat ys
concat-append [] ys = refl
concat-append (x ∷ xs) ys = rw (concat-append xs ys, append_assoc x (concat xs) (concat ys))

concat-remove_at :
    (xs : List (List Bytes)) (i : ℕ) (x : List Bytes)
    → get_elem? xs i ≡ some x
    → Shuffle (concat xs) (x ++ concat (remove_at xs i))
unfolding remove_at
concat-remove_at [] i x h = absurd cc
concat-remove_at (y ∷ xs) zero x h = let e : y ≡ x = cc in rw e (Shuffle-rfl (x ++ concat xs))
concat-remove_at (y ∷ xs) (suc i) x h =
    trans (Shuffle-append_left y (concat-remove_at xs i x h))
      (Shuffle-front y x (concat (remove_at xs i)))

-- One item at the end of the first part goes to the end of all.
Shuffle-snoc :
    (xs ys zs : List Bytes) (x : Bytes)
    → Shuffle (xs ++ ys) zs
    → Shuffle ((xs ++ (x ∷ [])) ++ ys) (zs ++ (x ∷ []))
Shuffle-snoc xs ys zs x p =
    let last : Shuffle (zs ++ (x ∷ [])) (x ∷ zs) = rw (append-nil zs) at (Shuffle-middle x zs []) in
    rw (append_assoc xs (x ∷ []) ys)
      (trans (Shuffle-middle x xs ys) (trans (cons x p) (Shuffle-sym last)))

snoc-ne-nil : {A : Type 0} → (xs : List A) (x : A) → (xs ++ (x ∷ [])) ≢ []
snoc-ne-nil [] x h = cc
snoc-ne-nil (y ∷ xs) x h = cc

Shuffle-comm : (xs ys : List Bytes) → Shuffle (xs ++ ys) (ys ++ xs)
Shuffle-comm xs ys = rw (append-nil xs, append-nil ys) at (Shuffle-front xs ys [])

-- A chunk goes from the running ones to the end of the saved ones.
moved :
    (running saved : List (List Bytes)) (i : ℕ) (chunk : List Bytes)
    → get_elem? running i ≡ some chunk
    → Shuffle
        (concat (remove_at running i) ++ concat (saved ++ (chunk ∷ [])))
        (concat running ++ concat saved)
moved running saved i chunk e =
    let left = concat (remove_at running i) in
    let front : Shuffle (left ++ (chunk ++ concat saved)) (concat running ++ concat saved) =
      trans (Shuffle-front left chunk (concat saved)) (
        rw (← append_assoc chunk left (concat saved)) (
          Shuffle-append_right (concat saved)
            (Shuffle-sym (concat-remove_at running i chunk e)))) in
    rw (concat-append saved (chunk ∷ []), append-nil chunk)
      (trans (Shuffle-append_left left (Shuffle-comm (concat saved) chunk)) front)

-- The items that `Feed` takes.
unfoldable pub accepted : List Event → List Bytes
accepted [] = []
accepted (fed made item ∷ events) =
    let rest = accepted events in if ltb (2 ^ 32 - 1) (length item) then rest else item ∷ rest
accepted (ended i failure ∷ events) = accepted events

pub accepted-AreShort : (events : List Event) → AreShort (accepted events)
unfolding accepted
accepted-AreShort [] = tt
accepted-AreShort (fed made item ∷ events) = elim (Bool-cases (ltb (2 ^ 32 - 1) (length item))) [
  | inl e ↦ rw e (accepted-AreShort events)
  | inr e ↦ rw e (ground arith, accepted-AreShort events)
]
accepted-AreShort (ended i failure ∷ events) = accepted-AreShort events

module _ (sort : (Bytes → Bytes → Bool) → List Bytes → List Bytes) (sorts : SortLaws sort)
    (snappy : Snappy) (snappies : SnappyLaws snappy) (heap : HeapOps) (heaps : HeapLaws heap)
    (opts : Options) (order : IsWeakOrder opts.lesser_func) where
  abbrev pub files : List (List Bytes) → List Bytes
  files = files_of sort sorts snappy snappies heap opts order

  -- A sorter that has taken the items: unless a chunk is lost, they are all there.
  pub record Holds (items : List Bytes) (s : ExtSorter) : Type 0 where
    pub saved : List (List Bytes)
    pub same_opts : s.opts ≡ opts
    pub filed : s.chunk_files ≡ files saved
    pub kept :
        s.failures ≡ [] → Shuffle (s.current_chunk ++ (concat s.running ++ concat saved)) items
    pub sized : s.current_chunk_size ≡ total s.current_chunk
    pub bounded : total s.current_chunk ≤ total items

  rotated-Holds :
      (made : Bool) (items : List Bytes) (s : ExtSorter)
      → Holds items s
      → Holds items (sort_chunk_and_rotate made s).1
  unfolding sort_chunk_and_rotate
  rotated-Holds false items s h = h
  rotated-Holds true items s h = record {
    saved = h.saved;
    same_opts = h.same_opts;
    filed = h.filed;
    kept = λ f.
        rw (concat-append s.running (s.current_chunk ∷ []), append-nil s.current_chunk)
          (trans
            (rw (append_assoc (concat s.running) s.current_chunk (concat h.saved))
              (Shuffle-front (concat s.running) s.current_chunk (concat h.saved)))
            (h.kept f));
    sized = refl;
    bounded = omega arith;
  }

  added-Holds :
      (item : Bytes) (items : List Bytes) (s : ExtSorter)
      → Holds items s
      → total (items ++ (item ∷ [])) < 2 ^ 63
      → Holds (items ++ (item ∷ [])) (add_item item s)
  added-Holds item items s h p = record {
    saved = h.saved;
    same_opts = h.same_opts;
    filed = h.filed;
    kept = λ f.
        Shuffle-snoc s.current_chunk (concat s.running ++ concat h.saved) items item (h.kept f);
    sized = omega (
      arith,
      h.sized,
      h.bounded,
      total-append items (item ∷ []),
      total-append s.current_chunk (item ∷ []),
    );
    bounded = omega (
      arith,
      h.bounded,
      total-append items (item ∷ []),
      total-append s.current_chunk (item ∷ []),
    );
  }

  feed-Holds :
      (made : Bool) (item : Bytes) (items : List Bytes) (s : ExtSorter)
      → Holds items s
      → ltb (2 ^ 32 - 1) (length item) ≡ false
      → total (items ++ (item ∷ [])) < 2 ^ 63
      → Holds (items ++ (item ∷ [])) (feed made item s).1
  unfolding feed
  feed-Holds made item items s h e p = rw e (
      go (reaches (add_item item s).current_chunk_size s.opts.max_chunk_size)
        (added-Holds item items s h p))
    where
      go :
          (b : Bool)
          → Holds (items ++ (item ∷ [])) (add_item item s)
          → Holds (items ++ (item ∷ [])) (
              (if b
                then sort_chunk_and_rotate made (add_item item s)
                else (none, add_item item s)).1)
      go true k = rotated-Holds made (items ++ (item ∷ [])) (add_item item s) k
      go false k = k

  -- The running chunk of an index is saved, or lost.
  ended-Holds :
      (i : ℕ) (failure : Option Bytes) (items : List Bytes) (s : ExtSorter)
      → Holds items s
      → Holds items (end_chunk sort snappy heap i failure s)
  unfolding end_chunk
  ended-Holds i failure items s h = go (get_elem? s.running i) refl failure
    where
      go :
          (o : Option (List Bytes))
          → get_elem? s.running i ≡ o
          → (f : Option Bytes)
          → Holds items (elim o [
            | none ↦ s
            | some chunk ↦ elim f [
              | some message ↦ record s {
                running = remove_at s.running i;
                failures = s.failures ++ (message ∷ []);
              }
              | none ↦ record s {
                running = remove_at s.running i;
                chunk_files =
                    s.chunk_files ++ (sort_and_save_chunk sort snappy heap s.opts chunk ∷ []);
              }
            ]
          ])
      go none e f = h
      go (some chunk) e (some message) = record {
        saved = h.saved;
        same_opts = h.same_opts;
        filed = h.filed;
        kept = λ g. absurd (snoc-ne-nil s.failures message g);
        sized = h.sized;
        bounded = h.bounded;
      }
      go (some chunk) e none = record {
        saved = h.saved ++ (chunk ∷ []);
        same_opts = h.same_opts;
        filed =
            ap (λ o. s.chunk_files ++ (sort_and_save_chunk sort snappy heap o chunk ∷ []))
              h.same_opts
            ∙ ap (λ x. x ++ (sort_and_save_chunk sort snappy heap opts chunk ∷ [])) h.filed
            ∙ sym (files_of-append sort sorts snappy snappies heap opts order h.saved chunk);
        kept = λ g.
            trans (Shuffle-append_left s.current_chunk (moved s.running h.saved i chunk e))
              (h.kept g);
        sized = h.sized;
        bounded = h.bounded;
      }

  pub run-Holds :
      (events : List Event) (items : List Bytes) (s : ExtSorter)
      → Holds items s
      → total (items ++ accepted events) < 2 ^ 63
      → Holds (items ++ accepted events) (run sort snappy heap events s)
  unfolding run happens accepted feed
  run-Holds [] items s h p = rw (append-nil items) h
  run-Holds (ended i failure ∷ events) items s h p =
      run-Holds events items (end_chunk sort snappy heap i failure s)
        (ended-Holds i failure items s h) p
  run-Holds (fed made item ∷ events) items s h p =
      elim (Bool-cases (ltb (2 ^ 32 - 1) (length item))) [
        | inl e ↦
            let same : (feed made item s).1 ≡ s = rw e refl in
            rw e (
              subst (λ z. Holds (items ++ accepted events) (run sort snappy heap events z))
                (sym same) (run-Holds events items s h (rw e at p)))
        | inr e ↦
            let q : total (items ++ (item ∷ accepted events)) < 2 ^ 63 = rw e at p in
            let q1 : total ((items ++ (item ∷ [])) ++ accepted events) < 2 ^ 63 =
              rw (append_assoc items (item ∷ []) (accepted events)) q in
            let k =
              run-Holds events (items ++ (item ∷ [])) (feed made item s).1
                (feed-Holds made item items s h e
                  (omega (arith, q1, total-append (items ++ (item ∷ [])) (accepted events))))
                q1 in
            rw e (rw (append_assoc items (item ∷ []) (accepted events)) at k)
      ]

  pub wait-Holds :
      (ends : List (ℕ × Option Bytes)) (items : List Bytes) (s : ExtSorter)
      → Holds items s
      → Holds items (wait sort snappy heap ends s)
  unfolding wait
  wait-Holds [] items s h = h
  wait-Holds ((i, failure) ∷ ends) items s h =
      wait-Holds ends items (end_chunk sort snappy heap i failure s)
        (ended-Holds i failure items s h)

  pub pending-Holds :
      (made : Bool) (items : List Bytes) (s : ExtSorter)
      → Holds items s
      → total items < 2 ^ 63
      → (rotate_pending sort snappy heap made s).0 ≡ none
      → Holds items (rotate_pending sort snappy heap made s).1
        × ((rotate_pending sort snappy heap made s).1.current_chunk ≡ [])
  unfolding rotate_pending sort_chunk_and_rotate
  pending-Holds made items s h p q =
      elim (Bool-cases (ltb 0 s.current_chunk_size && ltb s.current_chunk_size (2 ^ 63))) [
        | inl e ↦ rw e (made_file made (rw e at q))
        | inr e ↦ rw e (h, total-pos s.current_chunk (ground (arith, e, h.sized, h.bounded)))
      ]
    where
      made_file :
          (b : Bool)
          → (sort_chunk_and_rotate b s).0 ≡ none
          → Holds items (sort_chunk_and_rotate b s).1
            × ((sort_chunk_and_rotate b s).1.current_chunk ≡ [])
      made_file true q = (rotated-Holds true items s h, refl)
      made_file false q = cc

  pub wait-current_chunk :
      (ends : List (ℕ × Option Bytes)) (s : ExtSorter)
      → (wait sort snappy heap ends s).current_chunk ≡ s.current_chunk
  unfolding wait end_chunk
  wait-current_chunk [] s = refl
  wait-current_chunk ((i, failure) ∷ ends) s =
      wait-current_chunk ends (end_chunk sort snappy heap i failure s)
      ∙ go (get_elem? s.running i) failure
    where
      go :
          (o : Option (List Bytes)) (f : Option Bytes)
          → (elim o as (λ x. ExtSorter) [
            | none ↦ s
            | some chunk ↦ elim f as (λ x. ExtSorter) [
              | some message ↦ record s {
                running = remove_at s.running i;
                failures = s.failures ++ (message ∷ []);
              }
              | none ↦ record s {
                running = remove_at s.running i;
                chunk_files =
                    s.chunk_files ++ (sort_and_save_chunk sort snappy heap s.opts chunk ∷ []);
              }
            ]
          ]).current_chunk
            ≡ s.current_chunk
      go none f = refl
      go (some chunk) none = refl
      go (some chunk) (some message) = refl
