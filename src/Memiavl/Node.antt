-- ===== src/Memiavl/Node.antt =====
-- memiavl/node.go and memiavl/mem_node.go: the nodes of an IAVL tree as values, and the recursive
-- operations on them. A `MemNode` with no children (height 0) is a `leaf`, one with two children a
-- `branch`; a `PersistedNode` is read as the same value. `Mutate` clones a node or reuses it by its
-- version, which decides who sees the change and not what the new node holds.
pub mod Balance
pub mod Valid
pub mod Set
pub mod Read
pub mod Remove
pub mod Leaves
pub mod Rebalance
pub mod Hash
use Prim.Native.Nat.{Ordering}
use mathlib.Core.Option.{get_or}
use store.Prelude.{
  ℕ, ◌+◌, ◌-◌, ◌%◌, ◌^◌, max, Bool, true, false, Option, none, some, ltb, ◌==◌, if◌then◌else◌,
  ◌>>=◌,
}
use store.Prelude.Int.{ℤ, pos, negsuc, sub_ℕ, ltb_ℤ, leb_ℤ}
use store.Bytes.{Bytes, compare_bytes}

-- The fields of `MemNode`: a leaf has key, value, version and cached hash; a branch has height, size,
-- version, key, cached hash, left and right. A nil value or hash is `none`.
pub data Node : Type 0 where
  leaf : Bytes → Option Bytes → ℕ → Option Bytes → Node
  branch : ℕ → ℕ → ℕ → Bytes → Option Bytes → Node → Node → Node

unfoldable pub height : Node → ℕ
height (leaf key value version hash) = 0
height (branch h size version key hash left right) = h

unfoldable pub size : Node → ℕ
size (leaf key value version hash) = 1
size (branch h s version key hash left right) = s

unfoldable pub new_leaf_node : Bytes → Option Bytes → ℕ → Node
new_leaf_node key value version = leaf key value version none

-- The new node has the new version and no cached hash.
unfoldable pub mutate : ℕ → Node → Node
mutate version (leaf key value _ hash) = leaf key value version none
mutate version (branch h s _ key hash left right) = branch h s version key none left right

-- `updateHeightSize` on a node with this version, key, hash, left and right. The height is a uint8
-- and the size an int64.
unfoldable pub update_height_size : ℕ → Bytes → Option Bytes → Node → Node → Node
unfolding height size
update_height_size version key hash left right =
    branch ((max (height left) (height right) + 1) % 2 ^ 8) ((size left + size right) % 2 ^ 64)
      version key hash left right

-- On a leaf the code calls `Height` on a nil interface, which panics.
unfoldable pub calc_balance : Node → Option ℤ
unfolding height
calc_balance (leaf key value version hash) = none
calc_balance (branch h s version key hash left right) = some (sub_ℕ (height left) (height right))

-- With a leaf where a branch is rotated, a nil child is asked for its height: a panic.
unfoldable pub rotate_right : ℕ → Node → Option Node
unfolding update_height_size
rotate_right version (branch h s v key hash (branch lh ls lv lkey lhash ll lr) right) =
    some (update_height_size version lkey none ll (update_height_size v key hash lr right))
rotate_right version _ = none

unfoldable pub rotate_left : ℕ → Node → Option Node
unfolding update_height_size
rotate_left version (branch h s v key hash left (branch rh rs rv rkey rhash rl rr)) =
    some (update_height_size version rkey none (update_height_size v key hash left rl) rr)
rotate_left version _ = none

-- The case `balance > 1` of `reBalance`: left left, or left right.
unfoldable pub lower_left : ℕ → Node → ℤ → Option Node
unfolding rotate_right rotate_left mutate
lower_left version (leaf key value v hash) left_balance = none
lower_left version (branch h s v key hash left right) left_balance =
    if leb_ℤ (pos 0) left_balance
    then rotate_right version (branch h s v key hash left right)
    else (do
      left' ← rotate_left version (mutate version left)
      rotate_right version (branch h s v key hash left' right))

-- The case `balance < -1` of `reBalance`: right right, or right left.
unfoldable pub lower_right : ℕ → Node → ℤ → Option Node
unfolding rotate_right rotate_left mutate
lower_right version (leaf key value v hash) right_balance = none
lower_right version (branch h s v key hash left right) right_balance =
    if leb_ℤ right_balance (pos 0)
    then rotate_left version (branch h s v key hash left right)
    else (do
      right' ← rotate_right version (mutate version right)
      rotate_left version (branch h s v key hash left right'))

unfoldable pub re_balance : ℕ → Node → Option Node
unfolding calc_balance lower_left lower_right
re_balance version (leaf key value v hash) = none
re_balance version (branch h s v key hash left right) =
    let node = branch h s v key hash left right in
    let balance = sub_ℕ (height left) (height right) in
    if ltb_ℤ (pos 1) balance
    then calc_balance left >>= lower_left version node
    else if ltb_ℤ balance (negsuc 0)
    then calc_balance right >>= lower_right version node
    else some node

-- The end of `setRecursive` on a branch: `node` is the mutated copy with its new child in place, and
-- an insertion rebalances it.
unfoldable pub finish_set : ℕ → Bool → Node → Option (Node × Bool)
finish_set version true node = some (node, true)
finish_set version false (leaf key value v hash) = none
finish_set version false (branch h s v key hash left right) = do
  balanced ← re_balance version (update_height_size v key hash left right)
  some (balanced, false)

-- The new node, and whether the key was there before. The nil root is `set_root`'s case.
unfoldable pub set_recursive : Node → Bytes → Option Bytes → ℕ → Option (Node × Bool)
unfolding new_leaf_node finish_set
set_recursive (leaf k w v hash) key value version = elim (compare_bytes key k) [
  | Ordering.lt ↦
      some (branch 1 2 version k none (new_leaf_node key value version) (leaf k w v hash), false)
  | Ordering.gt ↦
      some (branch 1 2 version key none (leaf k w v hash) (new_leaf_node key value version), false)
  | Ordering.eq ↦ some (leaf k value version none, true)
]
set_recursive (branch h s v k hash left right) key value version = elim (compare_bytes key k) [
  | Ordering.lt ↦ do
    (child, updated) ← set_recursive left key value version
    finish_set version updated (branch h s version k none child right)
  | _ ↦ do
    (child, updated) ← set_recursive right key value version
    finish_set version updated (branch h s version k none left child)
]

-- `setRecursive` on a possibly nil node.
unfoldable pub set_root : Option Node → Bytes → Option Bytes → ℕ → Option (Node × Bool)
unfolding new_leaf_node
set_root none key value version = some (new_leaf_node key value version, true)
set_root (some node) key value version = set_recursive node key value version

-- What `removeRecursive` returns: the value removed, the node left, and the new smallest key.
pub record Removed : Type 0 where
  pub value : Option Bytes
  pub node : Option Node
  pub new_key : Option Bytes

-- The end of `removeRecursive` after its call on the left child of `node`, which has this key and
-- right child: nothing removed, the child was the leaf removed, or a new child to put in place.
unfoldable pub removed_left :
    ℕ → Node → Bytes → Node → Option Bytes → Option Node → Option Bytes → Option Removed
removed_left version node key right none child new_key =
    some (record { value = none; node = some node; new_key = none })
removed_left version node key right (some value) none new_key =
    some (record { value = some value; node = some right; new_key = some key })
removed_left version node key right (some value) (some child) new_key = do
  balanced ← re_balance version (update_height_size version key none child right)
  some (record { value = some value; node = some balanced; new_key = new_key })

-- The same after the call on the right child; a new smallest key there is the node's new key.
unfoldable pub removed_right :
    ℕ → Node → Bytes → Node → Option Bytes → Option Node → Option Bytes → Option Removed
removed_right version node key left none child new_key =
    some (record { value = none; node = some node; new_key = none })
removed_right version node key left (some value) none new_key =
    some (record { value = some value; node = some left; new_key = none })
removed_right version node key left (some value) (some child) new_key = do
  balanced ← re_balance version (update_height_size version (get_or new_key key) none left child)
  some (record { value = some value; node = some balanced; new_key = none })

unfoldable pub remove_recursive : Node → Bytes → ℕ → Option Removed
unfolding removed_left removed_right
remove_recursive (leaf k w v hash) key version = elim (compare_bytes k key) [
  | Ordering.eq ↦ some (record { value = w; node = none; new_key = none })
  | _ ↦ some (record { value = none; node = some (leaf k w v hash); new_key = none })
]
remove_recursive (branch h s v k hash left right) key version =
    let node = branch h s v k hash left right in
    elim (compare_bytes key k) [
      | Ordering.lt ↦ do
        r ← remove_recursive left key version
        removed_left version node k right r.value r.node r.new_key
      | _ ↦ do
        r ← remove_recursive right key version
        removed_right version node k left r.value r.node r.new_key
    ]

-- `removeRecursive` on a possibly nil node.
unfoldable pub remove_root : Option Node → Bytes → ℕ → Option Removed
remove_root none key version = some (record { value = none; node = none; new_key = none })
remove_root (some node) key version = remove_recursive node key version

-- The index in the right child becomes one in the node. Indexes are uint32, so they wrap.
unfoldable pub index_from_right : ℕ → ℕ → Option Bytes × ℕ → Option Bytes × ℕ
index_from_right size right_size (value, index) =
    (value, ((index + size % 2 ^ 32) % 2 ^ 32 + 2 ^ 32 - right_size % 2 ^ 32) % 2 ^ 32)

-- `Get`: the value, and the number of keys below.
unfoldable pub get : Node → Bytes → Option Bytes × ℕ
unfolding index_from_right
get (leaf k w v hash) key = elim (compare_bytes k key) [
  | Ordering.lt ↦ (none, 1)
  | Ordering.gt ↦ (none, 0)
  | Ordering.eq ↦ (w, 0)
]
get (branch h s v k hash left right) key = elim (compare_bytes key k) [
  | Ordering.lt ↦ get left key
  | _ ↦ index_from_right s (size right) (get right key)
]

-- `GetByIndex`: the key and the value at a position in key order; nil twice when out of range.
unfoldable pub get_by_index : Node → ℕ → Option Bytes × Option Bytes
get_by_index (leaf k w v hash) index = if index == 0 then (some k, w) else (none, none)
get_by_index (branch h s v k hash left right) index =
    let left_size = size left % 2 ^ 32 in
    let in_left = get_by_index left index in
    let in_right = get_by_index right (index - left_size) in
    if ltb index left_size then in_left else in_right
