-- ===== src/Memiavl/Node/Rebalance.antt =====
-- `reBalance` of memiavl/mem_node.go returns, and restores the AVL invariant.
use store.Prelude.{
  ℕ, ◌+◌, ◌^◌, ◌≤◌, ◌<◌, max, Option, ◌≡◌, refl, Returns, ◌>>=◌, arith, Bool-cases, inl, inr,
}
use store.Prelude.Int.{
  pos, negsuc, sub_ℕ, leb_ℤ, ltb_ℤ, le_of_nonneg, lt_of_not_nonneg, le_of_nonpos, lt_of_not_nonpos,
  lt_of_one_lt, le_of_not_one_lt, lt_of_lt_neg, le_of_not_lt_neg,
}
use store.Bytes.{Bytes}
use store.Memiavl.Node.{
  Node, leaf, branch, height, size, update_height_size, re_balance, calc_balance, lower_left,
  lower_right, rotate_left, rotate_right, mutate,
}
use store.Memiavl.Node.Balance.{
  IsAvl, IsRebalanced, update_height_size_lem, single_right, double_right, single_left, double_left,
}

lower_left_lem :
    (version h s v : ℕ) (key : Bytes) (hash : Option Bytes) (left right : Node)
    → IsAvl left
    → IsAvl right
    → height left ≡ height right + 2
    → size left + size right < 2 ^ 63
    → Returns
        (calc_balance left >>= lower_left version (branch h s v key hash left right))
        (IsRebalanced left right)
unfolding lower_left calc_balance rotate_right rotate_left mutate height size
lower_left_lem version h s v key hash (leaf k w lv lh) right a b d n = absurd (omega arith)
lower_left_lem version h s v key hash (branch h1 s1 v1 k1 hash1 ll (leaf k w v2 hash2)) right a b d
      n =
    elim (Bool-cases (leb_ℤ (pos 0) (sub_ℕ (height ll) 0))) [
      | inl e ↦ rw e (
          single_right v version v1 s1 h1 key k1 hash hash1 ll (leaf k w v2 hash2) right a b d n
            (le_of_nonneg (height ll) 0 e))
      | inr e ↦ absurd (omega (arith, lt_of_not_nonneg (height ll) 0 e))
    ]
lower_left_lem version h s v key hash (branch h1 s1 v1 k1 hash1 ll (branch h2 s2 v2 k2 hash2 m1 m2))
      right a b d n =
    elim (Bool-cases (leb_ℤ (pos 0) (sub_ℕ (height ll) h2))) [
      | inl e ↦ rw e (
          single_right v version v1 s1 h1 key k1 hash hash1 ll (branch h2 s2 v2 k2 hash2 m1 m2)
            right a b d n (le_of_nonneg (height ll) h2 e))
      | inr e ↦ rw e (
          double_right v version v1 s1 h1 h2 s2 v2 key k1 k2 hash hash1 hash2 ll m1 m2 right a b d n
            (lt_of_not_nonneg (height ll) h2 e))
    ]

lower_right_lem :
    (version h s v : ℕ) (key : Bytes) (hash : Option Bytes) (left right : Node)
    → IsAvl left
    → IsAvl right
    → height right ≡ height left + 2
    → size left + size right < 2 ^ 63
    → Returns
        (calc_balance right >>= lower_right version (branch h s v key hash left right))
        (IsRebalanced left right)
unfolding lower_right calc_balance rotate_right rotate_left mutate height size
lower_right_lem version h s v key hash left (leaf k w lv lh) a b d n = absurd (omega arith)
lower_right_lem version h s v key hash left (branch h1 s1 v1 k1 hash1 (leaf k w v2 hash2) rr) a b d
      n =
    elim (Bool-cases (leb_ℤ (sub_ℕ 0 (height rr)) (pos 0))) [
      | inl e ↦ rw e (
          single_left v version v1 s1 h1 key k1 hash hash1 left (leaf k w v2 hash2) rr a b d n
            (le_of_nonpos 0 (height rr) e))
      | inr e ↦ absurd (omega (arith, lt_of_not_nonpos 0 (height rr) e))
    ]
lower_right_lem version h s v key hash left
      (branch h1 s1 v1 k1 hash1 (branch h2 s2 v2 k2 hash2 m1 m2) rr) a b d n =
    elim (Bool-cases (leb_ℤ (sub_ℕ h2 (height rr)) (pos 0))) [
      | inl e ↦ rw e (
          single_left v version v1 s1 h1 key k1 hash hash1 left (branch h2 s2 v2 k2 hash2 m1 m2) rr
            a b d n (le_of_nonpos h2 (height rr) e))
      | inr e ↦ rw e (
          double_left v version v1 s1 h1 h2 s2 v2 key k1 k2 hash hash1 hash2 left m1 m2 rr a b d n
            (lt_of_not_nonpos h2 (height rr) e))
    ]

level :
    (v : ℕ) (key : Bytes) (hash : Option Bytes) (left right : Node)
    → IsAvl left
    → IsAvl right
    → size left + size right < 2 ^ 63
    → height left ≤ height right + 1
    → height right ≤ height left + 1
    → IsRebalanced left right (
        branch
          (max (height left) (height right) + 1)
          (size left + size right)
          v
          key
          hash
          left
          right)
unfolding height size
level v key hash left right a b n p q = record {
  avl = (refl, refl, p, q, a, b);
  whole = refl;
  low = omega arith;
  high = omega arith;
  same = λ _ _. refl;
}

-- With children of heights two apart at most, `reBalance` returns, and its result is balanced.
pub re_balance-Returns :
    (version v : ℕ) (key : Bytes) (hash : Option Bytes) (left right : Node)
    → IsAvl left
    → IsAvl right
    → height left ≤ height right + 2
    → height right ≤ height left + 2
    → size left + size right < 2 ^ 63
    → Returns
        (re_balance version (update_height_size v key hash left right))
        (IsRebalanced left right)
unfolding re_balance
re_balance-Returns version v key hash left right a b p q n =
    rw (update_height_size_lem v key hash left right a b n) (
      let h = max (height left) (height right) + 1 in
      let s = size left + size right in
      elim (Bool-cases (ltb_ℤ (pos 1) (sub_ℕ (height left) (height right)))) [
        | inl e ↦ rw e (
            lower_left_lem version h s v key hash left right a b
              (omega (arith, lt_of_one_lt (height left) (height right) e)) n)
        | inr e ↦ elim (Bool-cases (ltb_ℤ (sub_ℕ (height left) (height right)) (negsuc 0))) [
          | inl f ↦
              rw (e, f)
                (lower_right_lem version h s v key hash left right a b
                  (omega (arith, lt_of_lt_neg (height left) (height right) f)) n)
          | inr f ↦
              rw (e, f)
                (level v key hash left right a b n (le_of_not_one_lt (height left) (height right) e)
                  (le_of_not_lt_neg (height left) (height right) f))
        ]
      ])
