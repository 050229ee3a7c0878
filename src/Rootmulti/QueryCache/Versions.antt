-- ===== src/Rootmulti/QueryCache/Versions.antt =====
-- Ascending lists of versions: their last one, their members and an insertion.
use store.Prelude.{
  ℕ, ◌+◌, ◌≤◌, ◌<◌, max, Bool, true, false, List, [], ◌∷◌, Option, none, some, ◌≡◌, refl, sym, ap,
  ◌∙◌, arith, ltb, ◌==◌, ◌||◌, All, length, Bool-cases, inl, inr, ltb→lt, ==_iff,
}
use store.Rootmulti.QueryCache.{last_of}
use store.Rootmulti.QueryCache.Order.{IsAscending, insert_sorted, All-le_last}

unfoldable pub elem : ℕ → List ℕ → Bool
elem v [] = false
elem v (w ∷ seq) = (w == v) || elem v seq

abbrev pub has_tree : {M : Type 0} → Option M → Bool
has_tree none = false
has_tree (some tree) = true

pub elem-insert_sorted :
    (w version : ℕ) (seq : List ℕ)
    → elem w (insert_sorted version seq) ≡ ((version == w) || elem w seq)
unfolding elem insert_sorted
elem-insert_sorted w version [] = refl
elem-insert_sorted w version (v ∷ seq) = ground (arith, elem-insert_sorted w version seq)

pub length-insert_sorted :
    (version : ℕ) (seq : List ℕ) → length (insert_sorted version seq) ≤ length seq + 1
unfolding insert_sorted
length-insert_sorted version [] = omega arith
length-insert_sorted version (v ∷ seq) = ground (arith, length-insert_sorted version seq)

pub last_of-cons : (v : ℕ) (seq : List ℕ) → 0 < length seq → last_of (v ∷ seq) ≡ last_of seq
unfolding last_of
last_of-cons v [] h = absurd (omega arith)
last_of-cons v (w ∷ seq) h = refl

length-insert_sorted_pos : (version : ℕ) (seq : List ℕ) → 0 < length (insert_sorted version seq)
unfolding insert_sorted
length-insert_sorted_pos version [] = omega arith
length-insert_sorted_pos version (v ∷ seq) = ground arith

pub last_of-insert_sorted :
    (version : ℕ) (seq : List ℕ)
    → IsAscending seq
    → last_of (insert_sorted version seq) ≡ max version (last_of seq)
unfolding insert_sorted
last_of-insert_sorted version [] s = unfold last_of in omega arith
last_of-insert_sorted version (v ∷ seq) s =
    let low = (All-le_last (v ∷ seq) s).0 in
    elim (Bool-cases (ltb version v)) [
      | inl under ↦ rw under (
          last_of-cons version (v ∷ seq) (omega arith) ∙ omega (arith, low, ltb→lt version v under))
      | inr over ↦ elim (Bool-cases (version == v)) [
        | inl same ↦ rw (over, same) (omega (arith, low, (==_iff version v).0 same))
        | inr other ↦
            rw (over, other)
              (last_of-cons v (insert_sorted version seq) (length-insert_sorted_pos version seq)
                ∙ last_of-insert_sorted version seq s.1
                ∙ max_last v seq (above v over other))
      ]
    ]
  where
    above : (v : ℕ) → ltb version v ≡ false → (version == v) ≡ false → v < version
    above v p q = ground arith

    max_last :
        (v : ℕ) (seq : List ℕ)
        → v < version
        → max version (last_of seq) ≡ max version (last_of (v ∷ seq))
    max_last v [] h = unfold last_of in omega arith
    max_last v (w ∷ seq) h = ap (max version) (sym (last_of-cons v (w ∷ seq) (omega arith)))

pub elem_absent : (v : ℕ) (seq : List ℕ) → All (λ w. v < w) seq → elem v seq ≡ false
unfolding elem
elem_absent v [] h = refl
elem_absent v (w ∷ seq) h = ground (arith, elem_absent v seq h.1)

pub elem-last_of : (seq : List ℕ) → 0 < length seq → elem (last_of seq) seq ≡ true
unfolding elem last_of
elem-last_of [] h = absurd (omega arith)
elem-last_of (v ∷ []) h = ground arith
elem-last_of (v ∷ w ∷ seq) h = ground (arith, elem-last_of (w ∷ seq) (omega arith))

pub elem_le :
    (v bound : ℕ) (seq : List ℕ) → All (λ w. w ≤ bound) seq → elem v seq ≡ true → v ≤ bound
unfolding elem
elem_le v bound [] h e = absurd cc
elem_le v bound (w ∷ seq) h e = ground (arith, elem_le v bound seq h.1)

pub nonempty : (seq : List ℕ) → 0 < last_of seq → 0 < length seq
unfolding last_of
nonempty [] p = absurd (omega arith)
nonempty (v ∷ seq) p = omega arith
