-- ===== src/Memiavl/Node/Leaves.antt =====
-- The leaves of a tree in order, and what rebalancing keeps: the leaves, and that each branch has the
-- smallest key of its right subtree.
use store.Prelude.{
  ℕ, ◌+◌, ◌%◌, ◌^◌, max, Option, none, List, [], ◌∷◌, ◌++◌, append_assoc, ◌≡◌, refl, sym, ◌∙◌,
  IfReturns, IfReturns-bind, IfReturns_imp, ◌>>=◌, Bool-cases, inl, inr,
}
use store.Prelude.Int.{pos, negsuc, sub_ℕ, leb_ℤ, ltb_ℤ}
use store.Bytes.{Bytes}
use store.Memiavl.SortedMap.{Entry}
use store.Memiavl.Node.{
  Node, leaf, branch, height, size, update_height_size, re_balance, calc_balance, lower_left,
  lower_right, rotate_left, rotate_right, mutate,
}

unfoldable pub entries : Node → List Entry
entries (leaf key value version hash) = (key, value) ∷ []
entries (branch h s version key hash left right) = entries left ++ entries right

unfoldable pub min_key : Node → Bytes
min_key (leaf key value version hash) = key
min_key (branch h s version key hash left right) = min_key left

abbrev pub IsKeyed : Node → Type 0
IsKeyed (leaf key value version hash) = Unit
IsKeyed (branch h s version key hash left right) =
    (min_key right ≡ key) × IsKeyed left × IsKeyed right

-- `t` has the leaves of `left` and then of `right`.
pub record HasLeaves (left right t : Node) : Type 0 where
  pub same : entries t ≡ entries left ++ entries right
  pub keyed : IsKeyed t
  pub least : min_key t ≡ min_key left

module _ (version h s v : ℕ) (key : Bytes) (hash : Option Bytes) where
  rotate_right-HasLeaves :
      (left right : Node)
      → IsKeyed (branch h s v key hash left right)
      → IfReturns (rotate_right version (branch h s v key hash left right)) (HasLeaves left right)
  unfolding rotate_right entries min_key
  rotate_right-HasLeaves (leaf k w x y) right a = tt
  rotate_right-HasLeaves (branch h1 s1 v1 k1 hash1 ll lr) right a = record {
    same = sym (append_assoc (entries ll) (entries lr) (entries right));
    keyed = (a.1.0, a.1.1, (a.0, a.1.2, a.2));
    least = refl;
  }

  rotate_left-HasLeaves :
      (left right : Node)
      → IsKeyed (branch h s v key hash left right)
      → IfReturns (rotate_left version (branch h s v key hash left right)) (HasLeaves left right)
  unfolding rotate_left entries min_key
  rotate_left-HasLeaves left (leaf k w x y) a = tt
  rotate_left-HasLeaves left (branch h1 s1 v1 k1 hash1 rl rr) a = record {
    same = append_assoc (entries left) (entries rl) (entries rr);
    keyed = (a.2.0, (a.0, a.1, a.2.1), a.2.2);
    least = refl;
  }

-- A child may be replaced by one with the same leaves.
HasLeaves-left :
    (left left' right t : Node)
    → entries left' ≡ entries left
    → min_key left' ≡ min_key left
    → HasLeaves left' right t
    → HasLeaves left right t
HasLeaves-left left left' right t e m r = record {
  same = rw (← e) r.same;
  keyed = r.keyed;
  least = r.least ∙ m;
}

HasLeaves-right :
    (left right right' t : Node)
    → entries right' ≡ entries right
    → HasLeaves left right' t
    → HasLeaves left right t
HasLeaves-right left right right' t e r = record {
  same = rw (← e) r.same;
  keyed = r.keyed;
  least = r.least;
}

lower_left-HasLeaves :
    (version h s v : ℕ) (key : Bytes) (hash : Option Bytes) (left right : Node)
    → IsKeyed (branch h s v key hash left right)
    → IfReturns
        (calc_balance left >>= lower_left version (branch h s v key hash left right))
        (HasLeaves left right)
unfolding calc_balance lower_left mutate
lower_left-HasLeaves version h s v key hash (leaf k w x y) right a = tt
lower_left-HasLeaves version h s v key hash (branch h1 s1 v1 k1 hash1 ll lr) right a =
    let left = branch h1 s1 v1 k1 hash1 ll lr in
    elim (Bool-cases (leb_ℤ (pos 0) (sub_ℕ (height ll) (height lr)))) [
      | inl e ↦ rw e (rotate_right-HasLeaves version h s v key hash left right a)
      | inr e ↦ rw e (
          IfReturns-bind (HasLeaves ll lr) (HasLeaves left right) _ _
            (rotate_left-HasLeaves version h1 s1 version k1 none ll lr a.1)
            λ left' r.
              IfReturns_imp (HasLeaves left' right) (HasLeaves left right) _
                (λ t.
                  HasLeaves-left left left' right t (unfold entries in r.same)
                    (unfold min_key in r.least))
                (rotate_right-HasLeaves version h s v key hash left' right (a.0, r.keyed, a.2)))
    ]

lower_right-HasLeaves :
    (version h s v : ℕ) (key : Bytes) (hash : Option Bytes) (left right : Node)
    → IsKeyed (branch h s v key hash left right)
    → IfReturns
        (calc_balance right >>= lower_right version (branch h s v key hash left right))
        (HasLeaves left right)
unfolding calc_balance lower_right mutate
lower_right-HasLeaves version h s v key hash left (leaf k w x y) a = tt
lower_right-HasLeaves version h s v key hash left (branch h1 s1 v1 k1 hash1 rl rr) a =
    let right = branch h1 s1 v1 k1 hash1 rl rr in
    elim (Bool-cases (leb_ℤ (sub_ℕ (height rl) (height rr)) (pos 0))) [
      | inl e ↦ rw e (rotate_left-HasLeaves version h s v key hash left right a)
      | inr e ↦ rw e (
          IfReturns-bind (HasLeaves rl rr) (HasLeaves left right) _ _
            (rotate_right-HasLeaves version h1 s1 version k1 none rl rr a.2)
            λ right' r.
              IfReturns_imp (HasLeaves left right') (HasLeaves left right) _
                (λ t. HasLeaves-right left right right' t (unfold entries in r.same))
                (rotate_left-HasLeaves version h s v key hash left right'
                  (r.least ∙ (unfold min_key in a.0), a.1, r.keyed)))
    ]

-- `reBalance` moves no leaf.
pub re_balance-HasLeaves :
    (version v : ℕ) (key : Bytes) (hash : Option Bytes) (left right : Node)
    → min_key right ≡ key
    → IsKeyed left
    → IsKeyed right
    → IfReturns
        (re_balance version (update_height_size v key hash left right))
        (HasLeaves left right)
unfolding re_balance update_height_size
re_balance-HasLeaves version v key hash left right m a b =
    let h = (max (height left) (height right) + 1) % 2 ^ 8 in
    let s = (size left + size right) % 2 ^ 64 in
    elim (Bool-cases (ltb_ℤ (pos 1) (sub_ℕ (height left) (height right)))) [
      | inl e ↦ rw e (lower_left-HasLeaves version h s v key hash left right (m, a, b))
      | inr e ↦ elim (Bool-cases (ltb_ℤ (sub_ℕ (height left) (height right)) (negsuc 0))) [
        | inl f ↦ rw (e, f) (lower_right-HasLeaves version h s v key hash left right (m, a, b))
        | inr f ↦
            rw (e, f)
              (record {
                same = unfold entries in refl;
                keyed = (m, a, b);
                least = unfold min_key in refl;
              })
      ]
    ]
