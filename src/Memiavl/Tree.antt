-- ===== src/Memiavl/Tree.antt =====
-- memiavl/tree.go: a tree with its version, its root and its optional cache of values. The LRU cache of
-- the iavl library is a parameter. Values are not shared, so `zeroCopy` and the clones leave no trace,
-- and the snapshot handle, which only `Export` and `Close` use, is left out.
pub mod Writes
pub mod Cached
pub mod Reads
pub mod Saves
pub mod Fresh
use mathlib.Core.Option
use store.Prelude.{
  ℕ, ◌+◌, ◌-◌, ◌%◌, ◌^◌, Bool, true, false, Option, none, some, List, [], ◌∷◌, ltb, leb, ◌==◌,
  if◌then◌else◌, ◌>>=◌, ◌≡◌,
}
use store.Prelude.Int.{ℤ, pos, negsuc}
use store.Bytes.{Bytes}
use store.Memiavl.SortedMap.{Entry}
use store.Memiavl.Node.{Node, set_root, remove_root, get, get_by_index, Removed}
use store.Memiavl.Node.Hash.{hash}
use store.Memiavl.Node.Leaves.{entries}

-- `cache.Cache` of github.com/cosmos/iavl: a value is kept until it is removed or evicted, and a read
-- may change what is evicted next.
pub record Cache : Type 1 where
  pub State : Type 0
  pub add : Bytes → Option Bytes → State → State
  pub remove : Bytes → State → State
  pub find : Bytes → State → Option (Option Bytes)
  pub touch : Bytes → State → State

-- A pair of a `ChangeSet`.
pub record KvPair : Type 0 where
  pub delete : Bool
  pub key : Bytes
  pub value : Option Bytes

pub record Tree (S : Type 0) : Type 0 where
  pub version : ℕ
  pub cow_version : ℕ
  pub root : Option Node
  pub cache : Option S
  pub zero_copy : Bool

abbrev pub max_int64 : ℕ
max_int64 = 2 ^ 63 - 1

abbrev pub max_uint32 : ℕ
max_uint32 = 2 ^ 32 - 1

-- `NewEmptyTree`, given its new cache.
unfoldable pub new_empty_tree : {S : Type 0} → ℕ → Option S → Tree S
new_empty_tree version cache = record {
  version = version;
  cow_version = 0;
  root = none;
  cache = cache;
  zero_copy = true;
}

unfoldable pub new_with_initial_version : {S : Type 0} → ℕ → Option S → Tree S
unfolding new_empty_tree
new_with_initial_version initial_version cache =
    if leb initial_version 1
    then new_empty_tree 0 cache
    else new_empty_tree (initial_version - 1) cache

unfoldable pub is_empty : {S : Type 0} → Tree S → Bool
is_empty t = elim t.root [ none ↦ true | some node ↦ false ]

-- `setInitialVersion` has no effect once the tree has a version.
unfoldable pub set_initial_version_uint : {S : Type 0} → ℕ → Tree S → Tree S
set_initial_version_uint initial_version t =
    if ltb 0 t.version
    then t
    else if ltb initial_version 1
    then record t { version = 0 }
    else record t { version = initial_version - 1 }

-- The error on a negative version is `none`.
unfoldable pub set_initial_version : {S : Type 0} → ℤ → Tree S → Option (Tree S)
unfolding set_initial_version_uint
set_initial_version (pos n) t = some (set_initial_version_uint n t)
set_initial_version (negsuc n) t = none

-- The value nil is stored as the empty slice.
unfoldable pub non_nil : Option Bytes → Option Bytes
non_nil none = some []
non_nil (some v) = some v

module _ (sha256 : Bytes → Bytes) where
  -- `RootHash`, with the root that keeps the hashes; `emptyHash` is the hash of nothing.
  unfoldable pub root_hash : Option Node → Bytes × Option Node
  root_hash none = (sha256 [], none)
  root_hash (some node) = let (bz, node') = hash sha256 node in (bz, some node')

  -- `SaveVersion`: the hash, which is nil without the update, and the version; or the error.
  unfoldable pub save_version : {S : Type 0} → Bool → Tree S → Option (Option Bytes × ℕ × Tree S)
  unfolding root_hash
  save_version update_hash t =
      let version = (t.version + 1) % 2 ^ 64 in
      let saved = root_hash t.root in
      if ltb max_int64 version
      then none
      else if update_hash
      then some (some saved.0, version, record t { version = version; root = saved.1 })
      else some (none, version, record t { version = version })

unfoldable pub root_get : Option Node → Bytes → ℕ × Option Bytes
root_get none key = (0, none)
root_get (some node) key = let (value, index) = get node key in (index, value)

unfoldable pub get_with_index : {S : Type 0} → Tree S → Bytes → ℕ × Option Bytes
unfolding root_get
get_with_index t key = root_get t.root key

-- `uint32` of an int64.
unfoldable pub to_uint32 : ℤ → ℕ
to_uint32 (pos n) = n % 2 ^ 32
to_uint32 (negsuc n) = 2 ^ 32 - 1 - n % 2 ^ 32

unfoldable pub above_uint32 : ℤ → Bool
above_uint32 (pos n) = ltb max_uint32 n
above_uint32 (negsuc n) = false

-- An index beyond uint32 finds nothing; a negative one wraps.
unfoldable pub tree_get_by_index : {S : Type 0} → Tree S → ℤ → Option Bytes × Option Bytes
unfolding to_uint32 above_uint32
tree_get_by_index t index =
    if above_uint32 index
    then (none, none)
    else elim t.root [ none ↦ (none, none) | some node ↦ get_by_index node (to_uint32 index) ]

module _ (c : Cache) where
  open c use {State, add, remove, find, touch}

  unfoldable pub tree_set : Bytes → Option Bytes → Tree State → Option (Tree State)
  unfolding non_nil
  tree_set key value t = set_root t.root key (non_nil value) ((t.version + 1) % 2 ^ 64) >>= λ r.
      some (record t { root = some r.0; cache = Option.map (add key (non_nil value)) t.cache })

  unfoldable pub tree_remove : Bytes → Tree State → Option (Tree State)
  tree_remove key t = remove_root t.root key ((t.version + 1) % 2 ^ 64) >>= λ r.
      some (record t { root = r.node; cache = Option.map (remove key) t.cache })

  unfoldable pub apply_pair : KvPair → Tree State → Option (Tree State)
  unfolding tree_set tree_remove
  apply_pair pair t = if pair.delete then tree_remove pair.key t else tree_set pair.key pair.value t

  unfoldable pub apply_change_set : List KvPair → Tree State → Option (Tree State)
  apply_change_set [] t = some t
  apply_change_set (pair ∷ pairs) t = apply_pair pair t >>= apply_change_set pairs

  -- A miss reads the tree, and a value that is there is cached.
  unfoldable pub get_miss : Bytes → Tree State → Option Bytes × Tree State
  unfolding get_with_index
  get_miss key t = elim (get_with_index t key).1 [
    | none ↦ (none, t)
    | some value ↦ (some value, record t { cache = Option.map (add key (some value)) t.cache })
  ]

  unfoldable pub get_cached : Bytes → Tree State → Option State → Option Bytes × Tree State
  unfolding get_miss
  get_cached key t none = get_miss key t
  get_cached key t (some s) = elim (find key s) [
    | some value ↦ (value, record t { cache = some (touch key s) })
    | none ↦ get_miss key (record t { cache = some (touch key s) })
  ]

  -- `Get` returns the value and, since it fills the cache, the tree.
  unfoldable pub tree_get : Bytes → Tree State → Option Bytes × Tree State
  unfolding get_cached
  tree_get key t = get_cached key t t.cache

  unfoldable pub has : Bytes → Tree State → Bool × Tree State
  unfolding tree_get
  has key t = let (value, t') = tree_get key t in (elim value [ none ↦ false | some v ↦ true ], t')

-- The leaves of a tree, in key order.
unfoldable pub root_entries : Option Node → List Entry
root_entries none = []
root_entries (some node) = entries node

unfoldable pub tree_entries : {S : Type 0} → Tree S → List Entry
unfolding root_entries
tree_entries t = root_entries t.root
