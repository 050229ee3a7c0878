-- ===== src/Memiavl/Iterator.antt =====
-- memiavl/iterator.go: iteration over a range of keys by an explicit stack of nodes. The head of the
-- list is the top of the stack. Clones of keys and values leave no trace.
pub mod Range
pub mod Visits
use Prim.Native.Nat.{Ordering}
use store.Prelude.{
  ℕ, zero, suc, ◌+◌, Bool, true, false, Option, none, some, List, [], ◌∷◌, ◌||◌, ◌&&◌,
  if◌then◌else◌,
}
use store.Bytes.{Bytes, compare_bytes}
use store.Memiavl.SortedMap.{Entry}
use store.Memiavl.Node.{Node, leaf, branch}

pub record Iterator : Type 0 where
  pub start : Option Bytes
  pub end : Option Bytes
  pub ascending : Bool
  pub current : Option Entry
  pub valid : Bool
  pub stack : List Node

-- `iter.start == nil || startCmp < 0`
unfoldable pub after_start : Option Bytes → Bytes → Bool
after_start none key = true
after_start (some start) key = elim (compare_bytes start key) [ Ordering.lt ↦ true | _ ↦ false ]

-- `startCmp == 0`, where a nil start compares as the empty slice.
unfoldable pub at_start : Option Bytes → Bytes → Bool
at_start none key = elim (compare_bytes [] key) [ Ordering.eq ↦ true | _ ↦ false ]
at_start (some start) key = elim (compare_bytes start key) [ Ordering.eq ↦ true | _ ↦ false ]

-- `iter.end == nil || bytes.Compare(key, iter.end) < 0`
unfoldable pub before_end : Option Bytes → Bytes → Bool
before_end none key = true
before_end (some end) key = elim (compare_bytes key end) [ Ordering.lt ↦ true | _ ↦ false ]

-- The children that a branch pushes, the one to visit first on top.
unfoldable pub push_children : Bool → Bool → Bool → Node → Node → List Node → List Node
push_children true after before left right stack =
    let pushed = if before then right ∷ stack else stack in if after then left ∷ pushed else pushed
push_children false after before left right stack =
    let pushed = if after then left ∷ stack else stack in if before then right ∷ pushed else pushed

-- How many nodes a tree, and a stack, still hold: the rounds that the loop can take.
unfoldable pub node_count : Node → ℕ
node_count (leaf key value version hash) = 1
node_count (branch h s version key hash left right) = suc (node_count left + node_count right)

unfoldable pub stack_count : List Node → ℕ
stack_count [] = 0
stack_count (node ∷ stack) = node_count node + stack_count stack

-- The loop of `Next`: the next leaf in the domain and the stack left, or no leaf and an empty stack.
unfoldable pub next_loop :
    Option Bytes → Option Bytes → Bool → ℕ → List Node → Option Entry × List Node
unfolding after_start at_start before_end push_children
next_loop start end ascending zero stack = (none, [])
next_loop start end ascending (suc n) [] = (none, [])
next_loop start end ascending (suc n) (leaf key value version hash ∷ stack) =
    let rest = next_loop start end ascending n stack in
    if (after_start start key || at_start start key) && before_end end key
    then (some (key, value), stack)
    else rest
next_loop start end ascending (suc n) (branch h s version key hash left right ∷ stack) =
    next_loop start end ascending n
      (push_children ascending (after_start start key) (before_end end key) left right stack)

unfoldable pub finish_next : Iterator → Option Entry × List Node → Iterator
finish_next it (none, stack) = record it { valid = false; stack = stack }
finish_next it (some entry, stack) = record it { current = some entry; stack = stack }

unfoldable pub next : Iterator → Iterator
unfolding next_loop stack_count node_count finish_next
next it = finish_next it (next_loop it.start it.end it.ascending (stack_count it.stack) it.stack)

abbrev pub root_stack : Option Node → List Node
root_stack none = []
root_stack (some root) = root ∷ []

-- `NewIterator` stands on the first pair at once.
unfoldable pub new_iterator : Option Bytes → Option Bytes → Bool → Option Node → Iterator
unfolding next
new_iterator start end ascending root = next (record {
  start = start;
  end = end;
  ascending = ascending;
  current = none;
  valid = true;
  stack = root_stack root;
})

unfoldable pub close : Iterator → Iterator
close it = record it { valid = false; stack = [] }

-- The caller's loop `for ; iter.Valid(); iter.Next()`, on fuel, with the pairs that it sees.
unfoldable pub collect : ℕ → Iterator → List (Option Entry)
unfolding next
collect zero it = []
collect (suc n) it = let rest = collect n (next it) in if it.valid then it.current ∷ rest else []
