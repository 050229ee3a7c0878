-- ===== src/Memiavl/SortedMap/Halves.antt =====
-- The operations on a list of two halves act on the half where the key belongs.
use store.Prelude.{◌+◌, ◌≤◌, Option, none, List, [], ◌∷◌, ◌++◌, length, ◌≡◌, refl, arith}
use store.Bytes.{Bytes}
use store.Bytes.Order.{gt_of_lt}
use store.Memiavl.SortedMap.{Entry, Above, Below, lookup, rank, insert, delete}

module _ (k : Bytes) (v : Option Bytes) where
  pub insert-append_left :
      (xs ys : List Entry) → Above k ys → insert k v (xs ++ ys) ≡ insert k v xs ++ ys
  unfolding insert
  insert-append_left [] [] h = refl
  insert-append_left [] ((j, w) ∷ ys) h = ground arith
  insert-append_left ((i, w) ∷ xs) ys h = ground (arith, insert-append_left xs ys h)

  pub insert-append_right :
      (xs ys : List Entry) → Below k xs → insert k v (xs ++ ys) ≡ xs ++ insert k v ys
  unfolding insert
  insert-append_right [] ys h = refl
  insert-append_right ((j, w) ∷ xs) ys h = ground (arith, gt_of_lt j k, insert-append_right xs ys)

module _ (k : Bytes) where
  pub delete-Above : (ys : List Entry) → Above k ys → delete k ys ≡ ys
  unfolding delete
  delete-Above [] h = refl
  delete-Above ((j, w) ∷ ys) h = ground (arith, gt_of_lt k j, delete-Above ys)

  pub delete-append_left :
      (xs ys : List Entry) → Above k ys → delete k (xs ++ ys) ≡ delete k xs ++ ys
  unfolding delete
  delete-append_left [] ys h = delete-Above ys h
  delete-append_left ((i, w) ∷ xs) ys h = ground (arith, delete-append_left xs ys h)

  pub delete-append_right :
      (xs ys : List Entry) → Below k xs → delete k (xs ++ ys) ≡ xs ++ delete k ys
  unfolding delete
  delete-append_right [] ys h = refl
  delete-append_right ((j, w) ∷ xs) ys h = ground (arith, delete-append_right xs ys)

  pub lookup-append_right : (xs ys : List Entry) → Below k xs → lookup k (xs ++ ys) ≡ lookup k ys
  unfolding lookup
  lookup-append_right [] ys h = refl
  lookup-append_right ((j, w) ∷ xs) ys h = ground (arith, lookup-append_right xs ys)

  lookup-Above-none : (ys : List Entry) → Above k ys → lookup k ys ≡ none
  unfolding lookup
  lookup-Above-none [] h = refl
  lookup-Above-none ((j, w) ∷ ys) h = ground (arith, gt_of_lt k j, lookup-Above-none ys)

  pub lookup-append_left : (xs ys : List Entry) → Above k ys → lookup k (xs ++ ys) ≡ lookup k xs
  unfolding lookup
  lookup-append_left [] ys h = lookup-Above-none ys h
  lookup-append_left ((i, w) ∷ xs) ys h = ground (arith, lookup-append_left xs ys h)

  rank-Above : (ys : List Entry) → Above k ys → rank k ys ≡ 0
  unfolding rank
  rank-Above [] h = refl
  rank-Above ((j, w) ∷ ys) h = ground (arith, gt_of_lt k j, rank-Above ys)

  pub rank-append_left : (xs ys : List Entry) → Above k ys → rank k (xs ++ ys) ≡ rank k xs
  unfolding rank
  rank-append_left [] ys h = rank-Above ys h
  rank-append_left ((i, w) ∷ xs) ys h = ground (arith, rank-append_left xs ys h)

  pub rank-append_right :
      (xs ys : List Entry) → Below k xs → rank k (xs ++ ys) ≡ length xs + rank k ys
  unfolding rank
  rank-append_right [] ys h = omega arith
  rank-append_right ((j, w) ∷ xs) ys h = ground (arith, rank-append_right xs ys)

  pub rank-le-length : (xs : List Entry) → rank k xs ≤ length xs
  unfolding rank
  rank-le-length [] = omega arith
  rank-le-length ((j, w) ∷ xs) = ground (arith, rank-le-length xs)
