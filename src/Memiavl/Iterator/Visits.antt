-- ===== src/Memiavl/Iterator/Visits.antt =====
-- The loops of memiavl/iterator.go: `Next` finds the next pair of the domain, and the caller's loop
-- sees all of them.
use store.Prelude.{
  ℕ, zero, suc, ◌≤◌, ◌<◌, Bool, true, false, Option, none, some, List, [], ◌∷◌, append-nil, ◌≡◌,
  refl, sym, ap, ◌∙◌, arith, map, Bool-cases, inl, inr,
}
use store.Bytes.{Bytes}
use store.Memiavl.SortedMap.{Entry}
use store.Memiavl.Node.{Node, leaf, branch}
use store.Memiavl.Node.Leaves.{entries}
use store.Memiavl.Node.Valid.{IsValid-HasHalves}
use store.Memiavl.Tree.{root_entries}
use store.Memiavl.Tree.Writes.{IsValidRoot}
use store.Memiavl.Iterator.{
  Iterator, after_start, before_end, push_children, node_count, stack_count, next_loop, finish_next,
  next, new_iterator, collect, root_stack,
}
use store.Memiavl.Iterator.Range.{
  is_inside, in_domain, in_order, leaf_test, remaining, AllValid, HasStepped, push_children_lem,
  push_children-AllValid,
}

HasStepped-mono :
    (start end : Option Bytes) (ascending : Bool) (pairs pairs' : List Entry) (m n : ℕ)
    (r : Option Entry × List Node)
    → pairs' ≡ pairs
    → m ≤ n
    → HasStepped start end ascending pairs m r
    → HasStepped start end ascending pairs' n r
HasStepped-mono start end ascending pairs pairs' m n (none, stack) e p h = (e ∙ h.0, h.1)
HasStepped-mono start end ascending pairs pairs' m n (some x, stack) e p h =
    (e ∙ h.0, h.1, omega (arith, h.2))

-- A leaf gives its pair if it lies in the domain, and nothing otherwise.
remaining_hit :
    (start end : Option Bytes) (ascending : Bool) (key : Bytes) (value : Option Bytes) (version : ℕ)
    (hash : Option Bytes) (stack : List Node)
    → is_inside start end key ≡ true
    → remaining start end ascending (leaf key value version hash ∷ stack)
      ≡ (key, value) ∷ remaining start end ascending stack
unfolding remaining in_order in_domain entries
remaining_hit start end true key value version hash stack e = rw e
remaining_hit start end false key value version hash stack e = rw e

remaining_miss :
    (start end : Option Bytes) (ascending : Bool) (key : Bytes) (value : Option Bytes) (version : ℕ)
    (hash : Option Bytes) (stack : List Node)
    → is_inside start end key ≡ false
    → remaining start end ascending (leaf key value version hash ∷ stack)
      ≡ remaining start end ascending stack
unfolding remaining in_order in_domain entries
remaining_miss start end true key value version hash stack e = rw e
remaining_miss start end false key value version hash stack e = rw e

-- The loop of `Next`, with a round for each node on the stack.
pub next_loop_lem :
    (start end : Option Bytes) (ascending : Bool) (n : ℕ) (stack : List Node)
    → AllValid start end ascending stack
    → stack_count stack ≤ n
    → HasStepped start end ascending
        (remaining start end ascending stack)
        (stack_count stack)
        (next_loop start end ascending n stack)
unfolding next_loop stack_count node_count
next_loop_lem start end ascending zero [] v f = unfold remaining in (refl, refl)
next_loop_lem start end ascending zero (leaf key value version hash ∷ stack) v f =
    absurd (omega arith)
next_loop_lem start end ascending zero (branch h s version key hash left right ∷ stack) v f =
    absurd (omega arith)
next_loop_lem start end ascending (suc n) [] v f = unfold remaining in (refl, refl)
next_loop_lem start end ascending (suc n) (leaf key value version hash ∷ stack) v f =
    let test = leaf_test start end key in
    elim (Bool-cases (is_inside start end key)) [
      | inl e ↦
          rw (test, e)
            (remaining_hit start end ascending key value version hash stack e, v.1, omega arith)
      | inr e ↦
          rw (test, e, next_loop)
            (HasStepped-mono start end ascending _ _ (stack_count stack) _ _
              (remaining_miss start end ascending key value version hash stack e) (omega arith)
              (next_loop_lem start end ascending n stack v.1 (omega arith)))
    ]
next_loop_lem start end ascending (suc n) (branch h s version key hash left right ∷ stack) v f =
    let after = after_start start key in
    let before = before_end end key in
    let x = IsValid-HasHalves h s version key hash left right v.0 in
    let pushed = push_children ascending after before left right stack in
    let (valid, count) =
      push_children-AllValid start end ascending after before left right stack x.left_valid
        x.right_valid v.1 in
    HasStepped-mono start end ascending _ _ (stack_count pushed) _ _
      (sym (push_children_lem start end ascending h s version key hash left right stack v.0))
      (omega arith) (next_loop_lem start end ascending n pushed valid (omega arith))

collect_lem :
    (n : ℕ) (it : Iterator) (r : Option Entry × List Node) (pairs : List Entry) (count : ℕ)
    → it.valid ≡ true
    → HasStepped it.start it.end it.ascending pairs count r
    → count < n
    → collect n (finish_next it r) ≡ map some pairs
unfolding collect next finish_next
collect_lem zero it r pairs count v h f = absurd (omega arith)
collect_lem (suc n) it (none, stack) pairs count v h f = rw h.0
collect_lem (suc n) it (some e, stack) pairs count v h f =
    let it' : Iterator = record it { current = some e; stack = stack } in
    let after = next_loop it.start it.end it.ascending (stack_count stack) stack in
    let rest : collect n (finish_next it' after)
        ≡ map some (remaining it.start it.end it.ascending stack) =
      collect_lem n it' after (remaining it.start it.end it.ascending stack) (stack_count stack) v
        (next_loop_lem it.start it.end it.ascending (stack_count stack) stack h.1 (omega arith))
        (omega (arith, h.2)) in
    rw (v, h.0) (ap (λ m. some e ∷ m) rest)

root_AllValid :
    (start end : Option Bytes) (ascending : Bool) (root : Option Node)
    → IsValidRoot root
    → AllValid start end ascending (root_stack root)
root_AllValid start end ascending none v = tt
root_AllValid start end ascending (some root) v = (v.0, tt)

remaining-root :
    (start end : Option Bytes) (ascending : Bool) (root : Option Node)
    → remaining start end ascending (root_stack root)
      ≡ in_order ascending (in_domain start end (root_entries root))
unfolding remaining root_entries
remaining-root start end true none = unfold in_order in_domain in refl
remaining-root start end false none = unfold in_order in_domain in refl
remaining-root start end ascending (some root) =
    append-nil (in_order ascending (in_domain start end (entries root)))

-- On a valid or nil root, the caller's loop over a new iterator, given more rounds than the tree
-- has nodes, sees exactly the leaves whose keys are at least the start and below the end, in key
-- order when ascending and in the reverse order else.
pub collect-new_iterator :
    (start end : Option Bytes) (ascending : Bool) (root : Option Node) (n : ℕ)
    → IsValidRoot root
    → stack_count (root_stack root) < n
    → collect n (new_iterator start end ascending root)
      ≡ map some (in_order ascending (in_domain start end (root_entries root)))
unfolding new_iterator next
collect-new_iterator start end ascending root n v f =
    let it : Iterator = record {
      start = start;
      end = end;
      ascending = ascending;
      current = none;
      valid = true;
      stack = root_stack root;
    } in
    let stack = root_stack root in
    let visited =
      collect_lem n it (next_loop start end ascending (stack_count stack) stack)
        (remaining start end ascending stack) (stack_count stack) refl
        (next_loop_lem start end ascending (stack_count stack) stack
          (root_AllValid start end ascending root v) (omega arith))
        f in
    visited ∙ ap (map some) (remaining-root start end ascending root)
