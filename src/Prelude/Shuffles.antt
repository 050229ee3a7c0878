-- ===== src/Prelude/Shuffles.antt =====
-- Permutations as a data type: an induction on one may give data.
use mathlib.Core.Path.{◌≡◌, refl}
use mathlib.Core.List.{List, [], ◌∷◌, ◌++◌}
use store.Prelude.Lists.{All, length}

pub data Shuffle {A : Type 0} : List A → List A → Type 0 where
  nil : Shuffle [] []
  cons : (x : A) {xs ys : List A} → Shuffle xs ys → Shuffle (x ∷ xs) (x ∷ ys)
  swap : (x y : A) (xs : List A) → Shuffle (y ∷ x ∷ xs) (x ∷ y ∷ xs)
  trans : {xs ys zs : List A} → Shuffle xs ys → Shuffle ys zs → Shuffle xs zs

module _ {A : Type 0} where
  pub Shuffle-rfl : (xs : List A) → Shuffle xs xs
  Shuffle-rfl [] = nil
  Shuffle-rfl (x ∷ xs) = cons x (Shuffle-rfl xs)

  pub Shuffle-sym : {xs ys : List A} → Shuffle xs ys → Shuffle ys xs
  Shuffle-sym nil = nil
  Shuffle-sym (cons x p) = cons x (Shuffle-sym p)
  Shuffle-sym (swap x y xs) = swap y x xs
  Shuffle-sym (trans p q) = trans (Shuffle-sym q) (Shuffle-sym p)

  pub Shuffle-append_left :
      (zs : List A) {xs ys : List A} → Shuffle xs ys → Shuffle (zs ++ xs) (zs ++ ys)
  Shuffle-append_left [] p = p
  Shuffle-append_left (z ∷ zs) p = cons z (Shuffle-append_left zs p)

  pub Shuffle-append_right :
      (zs : List A) {xs ys : List A} → Shuffle xs ys → Shuffle (xs ++ zs) (ys ++ zs)
  Shuffle-append_right zs nil = Shuffle-rfl zs
  Shuffle-append_right zs (cons x p) = cons x (Shuffle-append_right zs p)
  Shuffle-append_right zs (swap x y xs) = swap x y (xs ++ zs)
  Shuffle-append_right zs (trans p q) =
      trans (Shuffle-append_right zs p) (Shuffle-append_right zs q)

  pub Shuffle-middle : (x : A) (xs ys : List A) → Shuffle (xs ++ (x ∷ ys)) (x ∷ (xs ++ ys))
  Shuffle-middle x [] ys = Shuffle-rfl (x ∷ ys)
  Shuffle-middle x (z ∷ xs) ys = trans (cons z (Shuffle-middle x xs ys)) (swap x z (xs ++ ys))

  -- Two parts in front of a rest change places.
  pub Shuffle-front : (xs ys zs : List A) → Shuffle (xs ++ (ys ++ zs)) (ys ++ (xs ++ zs))
  Shuffle-front [] ys zs = Shuffle-rfl (ys ++ zs)
  Shuffle-front (x ∷ xs) ys zs =
      trans (cons x (Shuffle-front xs ys zs)) (Shuffle-sym (Shuffle-middle x ys (xs ++ zs)))

  pub All-Shuffle {κ} : (P : A → Type κ) {xs ys : List A} → Shuffle xs ys → All P xs → All P ys
  All-Shuffle P nil h = tt
  All-Shuffle P (cons x p) (h, hs) = (h, All-Shuffle P p hs)
  All-Shuffle P (swap x y xs) (h, (k, hs)) = (k, (h, hs))
  All-Shuffle P (trans p q) h = All-Shuffle P q (All-Shuffle P p h)

  pub length-Shuffle : {xs ys : List A} → Shuffle xs ys → length xs ≡ length ys
  length-Shuffle nil = refl
  length-Shuffle (cons x p) = rw (length-Shuffle p)
  length-Shuffle (swap x y xs) = refl
  length-Shuffle (trans p q) = rw (length-Shuffle p, length-Shuffle q)
