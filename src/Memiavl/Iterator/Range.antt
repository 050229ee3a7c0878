-- ===== src/Memiavl/Iterator/Range.antt =====
-- An iterator of memiavl/iterator.go visits the pairs of its domain, each once, in key order or in
-- the reverse order.
use Prim.Native.Nat.{Ordering}
use mathlib.Core.List.{reverse, reverse-append}
use store.Prelude.{
  ℕ, ◌+◌, ◌≤◌, ◌<◌, Bool, true, false, Option, none, some, List, [], ◌∷◌, ◌++◌, append_assoc, ◌||◌,
  ◌&&◌, All, All-imp, ◌≡◌, ◌≢◌, refl, sym, ap, ◌∙◌, arith, if◌then◌else◌,
}
use store.Bytes.{Bytes, compare_bytes}
use store.Bytes.Order.{◌≺◌, ◌≼◌, lt_le_trans, gt_of_lt, lt_irrefl}
use store.Memiavl.SortedMap.{Entry}
use store.Memiavl.Node.{Node, branch}
use store.Memiavl.Node.Leaves.{entries}
use store.Memiavl.Node.Valid.{IsValid, IsValid-HasHalves}
use store.Memiavl.Iterator.{
  after_start, at_start, before_end, push_children, node_count, stack_count,
}

-- Whether a key lies in the domain [start, end).
unfoldable pub is_inside : Option Bytes → Option Bytes → Bytes → Bool
is_inside start end key =
    (elim start [
      | none ↦ true
      | some s ↦ elim (compare_bytes s key) [ Ordering.gt ↦ false | _ ↦ true ]
    ])
    && (elim end [
      | none ↦ true
      | some e ↦ elim (compare_bytes key e) [ Ordering.lt ↦ true | _ ↦ false ]
    ])

-- The entries of the domain, in their order.
unfoldable pub in_domain : Option Bytes → Option Bytes → List Entry → List Entry
in_domain start end [] = []
in_domain start end (e ∷ m) =
    let rest = in_domain start end m in if is_inside start end e.0 then e ∷ rest else rest

unfoldable pub in_order : Bool → List Entry → List Entry
in_order true m = m
in_order false m = reverse m

module _ (start end : Option Bytes) where
  pub leaf_test :
      (key : Bytes)
      → ((after_start start key || at_start start key) && before_end end key)
        ≡ is_inside start end key
  unfolding after_start at_start before_end is_inside
  leaf_test key = ground arith

  in_domain-append :
      (xs ys : List Entry)
      → in_domain start end (xs ++ ys) ≡ in_domain start end xs ++ in_domain start end ys
  unfolding in_domain
  in_domain-append [] ys = refl
  in_domain-append (e ∷ xs) ys = ground (arith, in_domain-append xs ys)

  in_domain-nil :
      (m : List Entry) → All (λ e. is_inside start end e.0 ≡ false) m → in_domain start end m ≡ []
  unfolding in_domain
  in_domain-nil [] h = refl
  in_domain-nil (e ∷ m) (p, h) = ground (arith, in_domain-nil m h)

-- What lies below a key that is not after the start is outside.
outside_left :
    (start end : Option Bytes) (key j : Bytes)
    → after_start start key ≡ false
    → j ≺ key
    → is_inside start end j ≡ false
unfolding after_start is_inside
outside_left none end key j h p = cc
outside_left (some s) end key j h p =
    let le : key ≼ s = λ e. ground arith in ground (arith, gt_of_lt j s (lt_le_trans j key s p le))

-- What is not below a key that is not before the end is outside.
outside_right :
    (start end : Option Bytes) (key j : Bytes)
    → before_end end key ≡ false
    → key ≼ j
    → is_inside start end j ≡ false
unfolding before_end is_inside
outside_right start none key j h p = cc
outside_right start (some e) key j h p =
    let le : compare_bytes j e ≢ Ordering.lt = λ q. p (lt_le_trans j e key q (λ c. ground arith)) in
    ground arith

module _ (start end : Option Bytes) (ascending : Bool) where
  -- The pairs that a stack still has to give.
  unfoldable pub remaining : List Node → List Entry
  remaining [] = []
  remaining (node ∷ stack) =
      in_order ascending (in_domain start end (entries node)) ++ remaining stack

  abbrev pub AllValid : List Node → Type 0
  AllValid = All (λ t. IsValid t)

  -- The result of the loop on a stack with these pairs and this count.
  abbrev pub HasStepped : List Entry → ℕ → Option Entry × List Node → Type 0
  HasStepped pairs count (none, stack) = (pairs ≡ []) × (stack ≡ [])
  HasStepped pairs count (some e, stack) =
      (pairs ≡ e ∷ remaining stack) × AllValid stack × (stack_count stack < count)

in_order-append :
    (ascending : Bool) (xs ys : List Entry)
    → in_order ascending (xs ++ ys) ≡ (
        if ascending
        then in_order ascending xs ++ in_order ascending ys
        else in_order ascending ys ++ in_order ascending xs)
unfolding in_order
in_order-append true xs ys = refl
in_order-append false xs ys = reverse-append xs ys

in_order-nil : (ascending : Bool) → in_order ascending [] ≡ []
unfolding in_order
in_order-nil true = refl
in_order-nil false = refl

keep : (b : Bool) (xs : List Entry) → (b ≡ false → xs ≡ []) → (if b then xs else []) ≡ xs
keep true xs h = refl
keep false xs h = sym (h refl)

-- The pairs of a stack after the children that are wanted were pushed.
remaining-push_children :
    (start end : Option Bytes) (ascending after before : Bool) (left right : Node)
    (stack : List Node)
    → remaining start end ascending (push_children ascending after before left right stack) ≡ (
        let l = if after then in_order ascending (in_domain start end (entries left)) else [] in
        let r = if before then in_order ascending (in_domain start end (entries right)) else [] in
        let rest = remaining start end ascending stack in
        if ascending then l ++ (r ++ rest) else r ++ (l ++ rest))
unfolding remaining push_children
remaining-push_children start end true true true left right stack = refl
remaining-push_children start end true true false left right stack = refl
remaining-push_children start end true false true left right stack = refl
remaining-push_children start end true false false left right stack = refl
remaining-push_children start end false true true left right stack = refl
remaining-push_children start end false true false left right stack = refl
remaining-push_children start end false false true left right stack = refl
remaining-push_children start end false false false left right stack = refl

remaining-branch :
    (start end : Option Bytes) (ascending : Bool) (h s version : ℕ) (key : Bytes)
    (hash : Option Bytes) (left right : Node) (stack : List Node)
    → remaining start end ascending (branch h s version key hash left right ∷ stack) ≡ (
        let l = in_order ascending (in_domain start end (entries left)) in
        let r = in_order ascending (in_domain start end (entries right)) in
        let rest = remaining start end ascending stack in
        if ascending then l ++ (r ++ rest) else r ++ (l ++ rest))
unfolding remaining entries in_order
remaining-branch start end true h s version key hash left right stack =
    rw (in_domain-append start end (entries left) (entries right))
      (append_assoc (in_domain start end (entries left)) (in_domain start end (entries right)) _)
remaining-branch start end false h s version key hash left right stack =
    rw
      (
        in_domain-append start end (entries left) (entries right),
        reverse-append (in_domain start end (entries left)) (in_domain start end (entries right)),
      )
      (append_assoc (reverse (in_domain start end (entries right)))
        (reverse (in_domain start end (entries left))) _)

-- Pushing the children keeps the pairs of a branch: a child that is left out has none.
pub push_children_lem :
    (start end : Option Bytes) (ascending : Bool) (h s version : ℕ) (key : Bytes)
    (hash : Option Bytes) (left right : Node) (stack : List Node)
    → IsValid (branch h s version key hash left right)
    → remaining start end ascending
        (push_children ascending (after_start start key) (before_end end key) left right stack)
      ≡ remaining start end ascending (branch h s version key hash left right ∷ stack)
push_children_lem start end ascending h s version key hash left right stack valid =
    let x = IsValid-HasHalves h s version key hash left right valid in
    let none_left : after_start start key ≡ false
        → in_order ascending (in_domain start end (entries left)) ≡ [] =
      λ a.
        ap (in_order ascending) (
          in_domain-nil start end (entries left) (
            All-imp (λ e p. outside_left start end key e.0 a p) (entries left)
              (x.below key (lt_irrefl key))))
        ∙ in_order-nil ascending in
    let none_right : before_end end key ≡ false
        → in_order ascending (in_domain start end (entries right)) ≡ [] =
      λ b.
        ap (in_order ascending) (
          in_domain-nil start end (entries right)
            (All-imp (λ e p. outside_right start end key e.0 b p) (entries right) (x.at_least)))
        ∙ in_order-nil ascending in
    remaining-push_children start end ascending (after_start start key) (before_end end key) left
      right stack
    ∙ rw (keep (after_start start key) _ none_left, keep (before_end end key) _ none_right)
        (sym (remaining-branch start end ascending h s version key hash left right stack))

pub push_children-AllValid :
    (start end : Option Bytes) (ascending after before : Bool) (left right : Node)
    (stack : List Node)
    → IsValid left
    → IsValid right
    → AllValid start end ascending stack
    → AllValid start end ascending (push_children ascending after before left right stack)
      × (stack_count (push_children ascending after before left right stack)
          ≤ node_count left + node_count right + stack_count stack)
unfolding push_children stack_count
push_children-AllValid start end true after before left right stack l r v = ground arith
push_children-AllValid start end false after before left right stack l r v = ground arith
