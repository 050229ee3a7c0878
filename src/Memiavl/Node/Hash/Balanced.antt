-- ===== src/Memiavl/Node/Hash/Balanced.antt =====
-- Rebalancing a node that keeps no hash leaves only fresh hashes.
use store.Prelude.{
  ℕ, ◌+◌, ◌%◌, max, ◌^◌, Option, none, some, IfReturns, IfReturns-bind, Bool-cases, inl, inr,
}
use store.Prelude.Int.{ℤ, pos, negsuc, sub_ℕ, ltb_ℤ, leb_ℤ}
use store.Bytes.{Bytes}
use store.Memiavl.Node.{
  Node, leaf, branch, height, size, mutate, update_height_size, calc_balance, rotate_right,
  rotate_left, lower_left, lower_right, re_balance,
}
use store.Memiavl.Node.Hash.Fresh.{IsFresh}

module _ (sha256 : Bytes → Bytes) where
  rotate_right-IsFresh :
      (version h s v : ℕ) (key : Bytes) (left right : Node)
      → IsFresh sha256 left
      → IsFresh sha256 right
      → IfReturns (rotate_right version (branch h s v key none left right)) (IsFresh sha256)
  unfolding rotate_right update_height_size
  rotate_right-IsFresh version h s v key (leaf k w x kept) right fl fr = tt
  rotate_right-IsFresh version h s v key (branch h1 s1 v1 k1 kept ll lr) right fl fr =
      (tt, fl.1, (tt, fl.2, fr))

  rotate_left-IsFresh :
      (version h s v : ℕ) (key : Bytes) (left right : Node)
      → IsFresh sha256 left
      → IsFresh sha256 right
      → IfReturns (rotate_left version (branch h s v key none left right)) (IsFresh sha256)
  unfolding rotate_left update_height_size
  rotate_left-IsFresh version h s v key left (leaf k w x kept) fl fr = tt
  rotate_left-IsFresh version h s v key left (branch h1 s1 v1 k1 kept rl rr) fl fr =
      (tt, (tt, fl, fr.1), fr.2)

  -- A mutated child is rotated.
  rotate_left-mutate :
      (version : ℕ) (t : Node)
      → IsFresh sha256 t
      → IfReturns (rotate_left version (mutate version t)) (IsFresh sha256)
  unfolding mutate
  rotate_left-mutate version (leaf k w x kept) f = unfold rotate_left in tt
  rotate_left-mutate version (branch h1 s1 v1 k1 kept ll lr) f =
      rotate_left-IsFresh version h1 s1 version k1 ll lr f.1 f.2

  lower_left-IsFresh :
      (version h s v : ℕ) (key : Bytes) (left right : Node) (balance : ℤ)
      → IsFresh sha256 left
      → IsFresh sha256 right
      → IfReturns (lower_left version (branch h s v key none left right) balance) (IsFresh sha256)
  unfolding lower_left mutate
  lower_left-IsFresh version h s v key left right balance fl fr =
      elim (Bool-cases (leb_ℤ (pos 0) balance)) [
        | inl e ↦ rw e (rotate_right-IsFresh version h s v key left right fl fr)
        | inr e ↦ rw e (
            IfReturns-bind (IsFresh sha256) (IsFresh sha256)
              (rotate_left version (mutate version left)) _ (rotate_left-mutate version left fl)
              (λ left' f. rotate_right-IsFresh version h s v key left' right f fr))
      ]

  -- A mutated child is rotated.
  rotate_right-mutate :
      (version : ℕ) (t : Node)
      → IsFresh sha256 t
      → IfReturns (rotate_right version (mutate version t)) (IsFresh sha256)
  unfolding mutate
  rotate_right-mutate version (leaf k w x kept) f = unfold rotate_right in tt
  rotate_right-mutate version (branch h1 s1 v1 k1 kept rl rr) f =
      rotate_right-IsFresh version h1 s1 version k1 rl rr f.1 f.2

  lower_right-IsFresh :
      (version h s v : ℕ) (key : Bytes) (left right : Node) (balance : ℤ)
      → IsFresh sha256 left
      → IsFresh sha256 right
      → IfReturns (lower_right version (branch h s v key none left right) balance) (IsFresh sha256)
  unfolding lower_right mutate
  lower_right-IsFresh version h s v key left right balance fl fr =
      elim (Bool-cases (leb_ℤ balance (pos 0))) [
        | inl e ↦ rw e (rotate_left-IsFresh version h s v key left right fl fr)
        | inr e ↦ rw e (
            IfReturns-bind (IsFresh sha256) (IsFresh sha256)
              (rotate_right version (mutate version right)) _ (rotate_right-mutate version right fr)
              (λ right' f. rotate_left-IsFresh version h s v key left right' fl f))
      ]

  pub re_balance-IsFresh :
      (version v : ℕ) (key : Bytes) (left right : Node)
      → IsFresh sha256 left
      → IsFresh sha256 right
      → IfReturns (re_balance version (update_height_size v key none left right)) (IsFresh sha256)
  unfolding re_balance update_height_size
  re_balance-IsFresh version v key left right fl fr =
      let h = (max (height left) (height right) + 1) % 2 ^ 8 in
      let s = (size left + size right) % 2 ^ 64 in
      elim (Bool-cases (ltb_ℤ (pos 1) (sub_ℕ (height left) (height right)))) [
        | inl e ↦ rw e (
            IfReturns-bind (λ b. Unit) (IsFresh sha256) (calc_balance left) _
              (any (calc_balance left))
              (λ b _. lower_left-IsFresh version h s v key left right b fl fr))
        | inr e ↦ elim (Bool-cases (ltb_ℤ (sub_ℕ (height left) (height right)) (negsuc 0))) [
          | inl f ↦
              rw (e, f)
                (IfReturns-bind (λ b. Unit) (IsFresh sha256) (calc_balance right) _
                  (any (calc_balance right))
                  (λ b _. lower_right-IsFresh version h s v key left right b fl fr))
          | inr f ↦ rw (e, f) (tt, fl, fr)
        ]
      ]
    where
      any : (o : Option ℤ) → IfReturns o (λ b. Unit)
      any none = tt
      any (some b) = tt
