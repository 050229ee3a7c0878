-- ===== src/Rootmulti/QueryCache/Order.antt =====
-- `insertVersion` keeps the versions ascending, by a binary search.
use store.Prelude.{
  ℕ, zero, suc, ◌≤◌, ◌<◌, true, false, List, [], ◌∷◌, ◌++◌, ◌≡◌, refl, sym, ap, ◌∙◌, arith, ltb,
  leb, ◌==◌, ◌&&◌, All, All-imp, ltb→lt, ==_iff, length, if◌then◌else◌, Bool-cases, inl, inr,
}
use store.Search.{sort_search, sort_search-IsSplit}
use store.Rootmulti.QueryCache.{seq_at, last_of, insert_at, insert_searched, insert_version}

abbrev pub IsAscending : List ℕ → Type 0
IsAscending [] = Unit
IsAscending (v ∷ seq) = All (λ w. v < w) seq × IsAscending seq

-- The reference: the place of a version in an ascending list.
unfoldable pub insert_sorted : ℕ → List ℕ → List ℕ
insert_sorted version [] = version ∷ []
insert_sorted version (v ∷ seq) =
    if ltb version v
    then version ∷ v ∷ seq
    else if version == v
    then v ∷ seq
    else v ∷ insert_sorted version seq

seq_at-lt :
    (v : ℕ) (seq : List ℕ) (i : ℕ) → All (λ w. v < w) seq → i < length seq → v < seq_at seq i
unfolding seq_at
seq_at-lt v [] i a h = absurd (omega arith)
seq_at-lt v (w ∷ seq) zero a h = a.0
seq_at-lt v (w ∷ seq) (suc i) a h = seq_at-lt v seq i a.1 (omega arith)

seq_at_mono :
    (seq : List ℕ) (i j : ℕ)
    → IsAscending seq
    → i ≤ j
    → j < length seq
    → seq_at seq i ≤ seq_at seq j
unfolding seq_at
seq_at_mono [] i j s p q = absurd (omega arith)
seq_at_mono (v ∷ seq) zero zero s p q = omega arith
seq_at_mono (v ∷ seq) zero (suc j) s p q = omega (arith, seq_at-lt v seq j s.0 (omega arith))
seq_at_mono (v ∷ seq) (suc i) zero s p q = absurd (omega arith)
seq_at_mono (v ∷ seq) (suc i) (suc j) s p q = seq_at_mono seq i j s.1 (omega arith) (omega arith)

-- Inserting at the place that the search finds.
insert_at_lem :
    (version : ℕ) (seq : List ℕ) (r : ℕ)
    → r ≤ length seq
    → ((k : ℕ) → k < r → seq_at seq k < version)
    → ((k : ℕ) → r ≤ k → k < length seq → version ≤ seq_at seq k)
    → (if ltb r (length seq) && (seq_at seq r == version) then seq else insert_at r version seq)
      ≡ insert_sorted version seq
unfolding seq_at insert_at insert_sorted
insert_at_lem version [] zero b lo hi = refl
insert_at_lem version [] (suc r) b lo hi = absurd (omega arith)
insert_at_lem version (v ∷ seq) zero b lo hi = ground (arith, hi 0)
insert_at_lem version (v ∷ seq) (suc r) b lo hi =
    let rest =
      insert_at_lem version seq r (omega arith) (λ k p. lo (suc k) (omega arith))
        (λ k p q. hi (suc k) (omega arith) (omega arith)) in
    ground (arith, rest, lo 0)

insert_searched_lem :
    (version : ℕ) (seq : List ℕ)
    → IsAscending seq
    → insert_searched version seq ≡ insert_sorted version seq
unfolding insert_searched
insert_searched_lem version seq s =
    let test = λ (i : ℕ). leb version (seq_at seq i) in
    let split =
      sort_search-IsSplit (length seq) test
        (λ a b p q h. mono_test (seq_at seq a) (seq_at seq b) (seq_at_mono seq a b s p q) h) in
    insert_at_lem version seq (sort_search (length seq) test) split.bound
      (λ k p. not_leb (seq_at seq k) (split.below k p))
      (λ k p q. is_leb (seq_at seq k) (split.above k p q))
  where
    mono_test : (x y : ℕ) → x ≤ y → leb version x ≡ true → leb version y ≡ true
    mono_test x y p h = ground arith

    not_leb : (x : ℕ) → leb version x ≡ false → x < version
    not_leb x h = ground arith

    is_leb : (x : ℕ) → leb version x ≡ true → version ≤ x
    is_leb x h = ground arith

pub All-le_last : (seq : List ℕ) → IsAscending seq → All (λ w. w ≤ last_of seq) seq
unfolding last_of
All-le_last [] s = tt
All-le_last (v ∷ []) s = (omega arith, tt)
All-le_last (v ∷ w ∷ seq) s =
    let rest = All-le_last (w ∷ seq) s.1 in (omega (arith, rest.0, s.0.0), rest)

insert_sorted_above :
    (version : ℕ) (seq : List ℕ)
    → All (λ w. w < version) seq
    → insert_sorted version seq ≡ seq ++ (version ∷ [])
unfolding insert_sorted
insert_sorted_above version [] h = refl
insert_sorted_above version (v ∷ seq) h = ground (arith, insert_sorted_above version seq h.1)

insert_sorted_last :
    (v : ℕ) (seq : List ℕ)
    → IsAscending (v ∷ seq)
    → insert_sorted (last_of (v ∷ seq)) (v ∷ seq) ≡ v ∷ seq
unfolding insert_sorted last_of
insert_sorted_last v [] s = ground arith
insert_sorted_last v (w ∷ seq) s =
    let rest = insert_sorted_last w seq s.1 in
    let last = All-le_last (w ∷ seq) s.1 in ground (arith, rest, last.0, s.0.0)

-- On ascending versions `insertVersion`, with its shortcuts and its binary search, is the
-- insertion of the version at its place, which leaves a version that is there.
pub insert_version_lem :
    (version : ℕ) (seq : List ℕ)
    → IsAscending seq
    → insert_version version seq ≡ insert_sorted version seq
unfolding insert_version
insert_version_lem version [] s = unfold insert_sorted in refl
insert_version_lem version (v ∷ seq) s = elim (Bool-cases (ltb (last_of (v ∷ seq)) version)) [
  | inl above ↦ rw above (
      sym (
        insert_sorted_above version (v ∷ seq) (
          All-imp (λ w p. omega (arith, ltb→lt _ version above)) (v ∷ seq)
            (All-le_last (v ∷ seq) s))))
  | inr below ↦ elim (Bool-cases (version == last_of (v ∷ seq))) [
    | inl same ↦
        rw (below, same)
          (sym (
            ap (λ x. insert_sorted x (v ∷ seq)) ((==_iff version (last_of (v ∷ seq))).0 same)
            ∙ insert_sorted_last v seq s))
    | inr other ↦ rw (below, other) (insert_searched_lem version (v ∷ seq) s)
  ]
]

All-insert_sorted :
    (P : ℕ → Type 0) (version : ℕ) (seq : List ℕ)
    → P version
    → All P seq
    → All P (insert_sorted version seq)
unfolding insert_sorted
All-insert_sorted P version [] p h = (p, tt)
All-insert_sorted P version (v ∷ seq) p h = ground (arith, All-insert_sorted P version seq p h.1)

pub insert_sorted-IsAscending :
    (version : ℕ) (seq : List ℕ) → IsAscending seq → IsAscending (insert_sorted version seq)
unfolding insert_sorted
insert_sorted-IsAscending version [] s = (tt, tt)
insert_sorted-IsAscending version (v ∷ seq) s = elim (Bool-cases (ltb version v)) [
  | inl under ↦
      rw under (
        (ltb→lt version v under, All-imp (λ w p. omega (arith, ltb→lt version v under)) seq s.0),
        s,
      )
  | inr over ↦ elim (Bool-cases (version == v)) [
    | inl same ↦ rw (over, same) s
    | inr other ↦
        rw (over, other)
          (
            All-insert_sorted (λ w. v < w) version seq (above over other) s.0,
            insert_sorted-IsAscending version seq s.1,
          )
  ]
]
  where
    above : ltb version v ≡ false → (version == v) ≡ false → v < version
    above p q = ground arith
