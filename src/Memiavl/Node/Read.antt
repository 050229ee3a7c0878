-- ===== src/Memiavl/Node/Read.antt =====
-- `Get` and `GetByIndex` of memiavl/mem_node.go read the sorted list of leaves.
use store.Prelude.{
  ℕ, zero, suc, ◌+◌, ◌-◌, ◌%◌, ◌^◌, ◌≤◌, ◌<◌, Option, none, some, List, ◌++◌, length, get_elem?,
  get_elem?-append_left, get_elem?-append_right, ◌≡◌, refl, ap, ◌∙◌, arith, ltb, Bool-cases, ltb→lt,
  inl, inr,
}
use store.Bytes.{Bytes, compare_bytes}
use store.Bytes.Order.{◌≼◌, Ordering-cases}
use store.Memiavl.SortedMap.{Entry, lookup, rank}
use store.Memiavl.SortedMap.Halves.{
  lookup-append_left, lookup-append_right, rank-append_left, rank-append_right, rank-le-length,
}
use store.Memiavl.Node.{Node, leaf, branch, size, get, index_from_right, get_by_index}
use store.Memiavl.Node.Balance.{IsAvl}
use store.Memiavl.Node.Leaves.{entries}
use store.Memiavl.Node.Valid.{IsValid, IsValid-HasHalves, size-length}

get_leaf :
    (k key : Bytes) (w : Option Bytes) (v : ℕ) (hash : Option Bytes)
    → get (leaf k w v hash) key
      ≡ (lookup key (entries (leaf k w v hash)), rank key (entries (leaf k w v hash)))
unfolding get entries lookup rank
get_leaf k key w v hash = ground arith

-- The uint32 subtraction of the code, where nothing wraps.
index_right :
    (i s a b : ℕ)
    → s ≡ a + b
    → s < 2 ^ 32
    → i ≤ b
    → ((i + s % 2 ^ 32) % 2 ^ 32 + 2 ^ 32 - b % 2 ^ 32) % 2 ^ 32 ≡ a + i
index_right i s a b e h p = omega arith

get_right :
    (h s v : ℕ) (k : Bytes) (hash : Option Bytes) (left right : Node) (key : Bytes)
    → IsValid (branch h s v k hash left right)
    → s < 2 ^ 32
    → k ≼ key
    → get right key ≡ (lookup key (entries right), rank key (entries right))
    → index_from_right s (size right) (get right key)
      ≡ (lookup key (entries left ++ entries right), rank key (entries left ++ entries right))
unfolding index_from_right
get_right h s v k hash left right key valid n p e =
    let x = IsValid-HasHalves h s v k hash left right valid in
    let a = valid.avl in
    let below = x.below key p in
    let ls = entries left in
    let rs = entries right in
    let bound = rank-le-length key rs in
    let sl = size-length left a.4 in
    let sr = size-length right a.5 in
    let index =
      index_right (rank key rs) s (length ls) (size right) (omega arith) n (omega arith) in
    rw (e, lookup-append_right key ls rs below, rank-append_right key ls rs below, index)

-- On a valid tree with fewer than 2 ^ 32 leaves, `Get` returns the value that the sorted list of
-- leaves has under the key and the number of smaller keys.
pub get_lem :
    (t : Node) (key : Bytes)
    → IsValid t
    → size t < 2 ^ 32
    → get t key ≡ (lookup key (entries t), rank key (entries t))
unfolding get entries size
get_lem (leaf k w v hash) key valid n = get_leaf k key w v hash
get_lem (branch h s v k hash left right) key valid n =
    let x = IsValid-HasHalves h s v k hash left right valid in
    let a = valid.avl in
    let ls = entries left in
    let rs = entries right in
    let ih = get_lem right key x.right_valid (omega arith) in
    elim (Ordering-cases (compare_bytes key k)) [
      | inl e ↦
          rw (e, get)
            (rw
              (
                lookup-append_left key ls rs (x.above key e),
                rank-append_left key ls rs (x.above key e),
              )
              (get_lem left key x.left_valid (omega arith)))
      | inr (inl e) ↦ rw (e, get) (get_right h s v k hash left right key valid n (λ f. cc) ih)
      | inr (inr e) ↦ rw (e, get) (get_right h s v k hash left right key valid n (λ f. cc) ih)
    ]

-- A key and a value, or nil twice.
abbrev pub key_value : Option Entry → Option Bytes × Option Bytes
key_value none = (none, none)
key_value (some (k, v)) = (some k, v)

get_elem?-append_ge :
    (xs ys : List Entry) (i : ℕ)
    → length xs ≤ i
    → get_elem? (xs ++ ys) i ≡ get_elem? ys (i - length xs)
get_elem?-append_ge xs ys i h =
    let e : i ≡ length xs + (i - length xs) = omega arith in
    ap (get_elem? (xs ++ ys)) e ∙ get_elem?-append_right xs ys (i - length xs)

-- On an AVL tree with fewer than 2 ^ 32 leaves, `GetByIndex` returns the key and value of the
-- leaf at that place in key order, and nil twice beyond the last one.
pub get_by_index_lem :
    (t : Node) (i : ℕ)
    → IsAvl t
    → size t < 2 ^ 32
    → get_by_index t i ≡ key_value (get_elem? (entries t) i)
unfolding get_by_index entries size
get_by_index_lem (leaf k w v hash) zero a n = refl
get_by_index_lem (leaf k w v hash) (suc i) a n = ground arith
get_by_index_lem (branch h s v k hash left right) i a n =
    let e : size left % 2 ^ 32 ≡ length (entries left) = omega (arith, size-length left a.4) in
    elim (Bool-cases (ltb i (length (entries left)))) [
      | inl p ↦
          rw (e, p, get_elem?-append_left (entries left) (entries right) i (ltb→lt _ _ p))
            (get_by_index_lem left i a.4 (omega arith))
      | inr p ↦
          rw (e, p, get_elem?-append_ge (entries left) (entries right) i (ground arith))
            (get_by_index_lem right (i - length (entries left)) a.5 (omega arith))
    ]
