-- ===== src/Search.antt =====
-- Go's `sort.Search`: the smallest index in [0, n) at which a test holds, or n, by halving.
use mathlib.Core.Bool.{false≢true}
use store.Prelude.{
  ℕ, zero, suc, ◌+◌, ◌/◌, ◌≤◌, ◌<◌, Bool, true, false, ◌≡◌, arith, ltb, ltb→lt, Bool-cases, inl,
  inr, sym, ◌∙◌,
}

-- The loop, on fuel; a round at least halves j - i.
unfoldable pub search_loop : ℕ → (ℕ → Bool) → ℕ → ℕ → ℕ
search_loop zero f i j = i
search_loop (suc n) f i j = elim (ltb i j) [
  | true ↦ elim (f ((i + j) / 2)) [
    | true ↦ search_loop n f i ((i + j) / 2)
    | false ↦ search_loop n f ((i + j) / 2 + 1) j
  ]
  | false ↦ i
]

unfoldable pub sort_search : ℕ → (ℕ → Bool) → ℕ
unfolding search_loop
sort_search n f = search_loop n f 0 n

-- The result splits the indexes: the test fails below it and holds from it on.
pub record IsSplit (n : ℕ) (f : ℕ → Bool) (r : ℕ) : Type 0 where
  pub bound : r ≤ n
  pub below : (k : ℕ) → k < r → f k ≡ false
  pub above : (k : ℕ) → r ≤ k → k < n → f k ≡ true

module _ (n : ℕ) (f : ℕ → Bool) (mono : (a b : ℕ) → a ≤ b → b < n → f a ≡ true → f b ≡ true) where
  search_loop-IsSplit :
      (fuel i j : ℕ)
      → j ≤ i + fuel
      → i ≤ j
      → j ≤ n
      → ((k : ℕ) → k < i → f k ≡ false)
      → ((k : ℕ) → j ≤ k → k < n → f k ≡ true)
      → IsSplit n f (search_loop fuel f i j)
  unfolding search_loop
  search_loop-IsSplit zero i j e p q lo hi = record {
    bound = omega arith;
    below = lo;
    above = λ k a b. hi k (omega arith) b;
  }
  search_loop-IsSplit (suc fuel) i j e p q lo hi = elim (Bool-cases (ltb i j)) [
    | inl more ↦
        let m = (i + j) / 2 in
        let between : (i ≤ m) × (m < j) =
          (omega (arith, ltb→lt i j more), omega (arith, ltb→lt i j more)) in
        elim (Bool-cases (f m)) [
          | inl t ↦
              rw (more, t, search_loop)
                (search_loop-IsSplit fuel i m (omega arith) (omega arith) (omega arith) lo
                  (λ k a b. mono m k a b t))
          | inr t ↦
              rw (more, t, search_loop)
                (search_loop-IsSplit fuel (m + 1) j (omega arith) (omega arith) q
                  (λ k a. below_false m t (omega arith) k (omega arith)) hi)
        ]
    | inr done ↦
        rw (done, search_loop)
          (record { bound = omega arith; below = lo; above = λ k a b. hi k (ground arith) b })
  ]
    where
      below_false : (m : ℕ) → f m ≡ false → m < n → (k : ℕ) → k ≤ m → f k ≡ false
      below_false m t h k a = elim (Bool-cases (f k)) [
        | inl s ↦ absurd (false≢true (sym t ∙ mono k m a h s))
        | inr s ↦ s
      ]

  -- For a test that stays true once it is, `sort.Search` finds where it begins.
  pub sort_search-IsSplit : IsSplit n f (sort_search n f)
  unfolding sort_search
  sort_search-IsSplit =
      search_loop-IsSplit n 0 n (omega arith) (omega arith) (omega arith)
        (λ k h. absurd (omega arith)) (λ k a b. absurd (omega arith))
