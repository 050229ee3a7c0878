-- ===== src/Memiavl/MultiTree/Changes/Views.antt =====
-- A multi-tree as a table of sorted lists under names, and a change set applied to one of them.
use store.Prelude.{
  ℕ, zero, suc, ◌+◌, ◌^◌, ◌<◌, ◌≤◌, none, some, List, [], ◌∷◌, ◌≡◌, ◌≢◌, refl, sym, arith, All,
  All-imp, Bool-cases, Option-cases, inl, inr, if◌then◌else◌, get_elem?, length, subst,
}
use store.Bytes.{Bytes}
use store.Bytes.Order.{◌≺◌}
use store.Memiavl.SortedMap.{Entry}
use store.Memiavl.Tree.{KvPair, Tree, tree_entries}
use store.Memiavl.Tree.Writes.{apply_entry, apply_entries}
use store.Memiavl.Tree.Cached.{length-apply_entry}
use store.Memiavl.MultiTree.{NamedTree, NamedChangeSet, same_name, index_of, write_at}
use store.Memiavl.MultiTree.Names.{
  same_name_self, eq_of_same_name, same_name_ne, IsDistinct, IsAscending,
}

-- The sorted list of each tree, under its name.
abbrev pub Table : Type 0
Table = List (Bytes × List Entry)

-- The reference: the change set reaches the list with its name.
unfoldable pub change_table : Bytes → List KvPair → Table → Table
change_table name pairs [] = []
change_table name pairs ((n, m) ∷ table) =
    (n, if same_name n name then apply_entries pairs m else m) ∷ change_table name pairs table

unfoldable pub change_tables : List NamedChangeSet → Table → Table
change_tables [] table = table
change_tables (cs ∷ change_sets) table =
    change_tables change_sets (change_table cs.name cs.changeset table)

unfoldable pub total_pairs : List NamedChangeSet → ℕ
total_pairs [] = 0
total_pairs (cs ∷ change_sets) = length cs.changeset + total_pairs change_sets

pub length-apply_entries :
    (pairs : List KvPair) (m : List Entry)
    → length (apply_entries pairs m) ≤ length m + length pairs
unfolding apply_entries
length-apply_entries [] m = omega arith
length-apply_entries (pair ∷ pairs) m =
    omega (arith, length-apply_entry pair m, length-apply_entries pairs (apply_entry pair m))

module _ {S : Type 0} where
  unfoldable pub table_of : List (NamedTree S) → Table
  table_of [] = []
  table_of (e ∷ trees) = (e.name, tree_entries e.tree) ∷ table_of trees

  -- Each tree has room for `n` more pairs.
  abbrev pub HasRoom : ℕ → List (NamedTree S) → Type 0
  HasRoom n = All (λ e. length (tree_entries e.tree) + n < 2 ^ 63)

  pub index_of-found :
      (name : Bytes) (trees : List (NamedTree S)) (i : ℕ)
      → index_of name trees ≡ some i
      → (e : NamedTree S) × (get_elem? trees i ≡ some e) × (e.name ≡ name)
  unfolding index_of
  index_of-found name [] i h = absurd (cc)
  index_of-found name (x ∷ trees) i h = elim (Bool-cases (same_name x.name name)) [
    | inl e ↦
        let z : some 0 ≡ some i = rw (e, index_of) at h in
        rw (← injective 0 i z) (x, refl, eq_of_same_name x.name name e)
    | inr e ↦ elim (Option-cases (index_of name trees)) [
      | inl absent ↦ absurd (none_some i (rw (e, absent, index_of) at h))
      | inr (k, there) ↦
          let z : some (suc k) ≡ some i = rw (e, there, index_of) at h in
          let (x', p, q) = index_of-found name trees k there in
          rw (← injective (suc k) i z) (x', p, q)
    ]
  ]
    where
      injective : (a b : ℕ) → some a ≡ some b → a ≡ b
      injective a b p = cc

      none_some : (i : ℕ) → none ≡ some i → ⊥
      none_some i p = cc

  module _ (tree : Tree S) where
    abbrev put : NamedTree S → NamedTree S
    put e = record e { tree = tree }

    pub index_of-write_at :
        (name : Bytes) (trees : List (NamedTree S)) (i : ℕ)
        → index_of name (write_at trees i (λ e. record e { tree = tree })) ≡ index_of name trees
    unfolding index_of write_at
    index_of-write_at name [] i = refl
    index_of-write_at name (x ∷ trees) zero = refl
    index_of-write_at name (x ∷ trees) (suc i) = rw (index_of-write_at name trees i) refl

    All-names :
        (P : Bytes → Type 0) (trees : List (NamedTree S)) (i : ℕ)
        → All (λ e. P e.name) trees
        → All (λ e. P e.name) (write_at trees i (λ e. record e { tree = tree }))
    unfolding write_at
    All-names P [] i h = tt
    All-names P (x ∷ trees) zero h = h
    All-names P (x ∷ trees) (suc i) h = (h.0, All-names P trees i h.1)

    pub write_at-IsAscending :
        (trees : List (NamedTree S)) (i : ℕ)
        → IsAscending trees
        → IsAscending (write_at trees i (λ e. record e { tree = tree }))
    unfolding write_at
    write_at-IsAscending [] i h = tt
    write_at-IsAscending (x ∷ trees) zero h = h
    write_at-IsAscending (x ∷ trees) (suc i) h =
        (All-names (λ n. x.name ≺ n) trees i h.0, write_at-IsAscending trees i h.1)

    change_table-absent :
        (name : Bytes) (pairs : List KvPair) (trees : List (NamedTree S))
        → All (λ x. name ≢ x.name) trees
        → change_table name pairs (table_of trees) ≡ table_of trees
    unfolding change_table table_of
    change_table-absent name pairs [] h = refl
    change_table-absent name pairs (x ∷ trees) h =
        rw (same_name_ne x.name name (λ e. h.0 (sym e)), change_table-absent name pairs trees h.1)
          refl

    get_elem?_ne :
        (name : Bytes) (trees : List (NamedTree S)) (i : ℕ) (e : NamedTree S)
        → All (λ x. name ≢ x.name) trees
        → get_elem? trees i ≡ some e
        → name ≢ e.name
    get_elem?_ne name [] i e h p = absurd (cc)
    get_elem?_ne name (x ∷ trees) zero e h p = subst (λ y. name ≢ y.name) (injective x e p) h.0
      where
        injective : (x e : NamedTree S) → some x ≡ some e → x ≡ e
        injective x e p = cc
    get_elem?_ne name (x ∷ trees) (suc i) e h p = get_elem?_ne name trees i e h.1 p

    changed_head :
        (pairs : List KvPair) (x : NamedTree S) (trees : List (NamedTree S))
        → All (λ y. x.name ≢ y.name) trees
        → tree_entries tree ≡ apply_entries pairs (tree_entries x.tree)
        → table_of (put x ∷ trees) ≡ change_table x.name pairs (table_of (x ∷ trees))
    unfolding table_of change_table
    changed_head pairs x trees d h =
        rw (same_name_self x.name, change_table-absent x.name pairs trees d, h) refl

    -- The tree with the change set, put at its index, is the change of the table.
    pub table_of-write_at :
        (pairs : List KvPair) (trees : List (NamedTree S)) (i : ℕ) (e : NamedTree S)
        → IsDistinct trees
        → get_elem? trees i ≡ some e
        → tree_entries tree ≡ apply_entries pairs (tree_entries e.tree)
        → table_of (write_at trees i (λ x. record x { tree = tree }))
          ≡ change_table e.name pairs (table_of trees)
    unfolding table_of change_table write_at
    table_of-write_at pairs [] i e d p h = absurd (cc)
    table_of-write_at pairs (x ∷ trees) zero e d p h =
        subst
          (λ (y : NamedTree S).
            tree_entries tree ≡ apply_entries pairs (tree_entries y.tree)
            → table_of (put x ∷ trees) ≡ change_table y.name pairs (table_of (x ∷ trees)))
          (injective x e p) (changed_head pairs x trees d.0) h
      where
        injective : (x e : NamedTree S) → some x ≡ some e → x ≡ e
        injective x e p = cc
    table_of-write_at pairs (x ∷ trees) (suc i) e d p h =
        rw
          (
            same_name_ne x.name e.name (get_elem?_ne x.name trees i e d.0 p),
            table_of-write_at pairs trees i e d.1 p h,
          )
          refl

-- Room for more pairs, by the lists of a table.
abbrev TableRoom : ℕ → Table → Type 0
TableRoom n = All (λ e. length e.1 + n < 2 ^ 63)

change_table-TableRoom :
    (name : Bytes) (pairs : List KvPair) (more : ℕ) (table : Table)
    → TableRoom (length pairs + more) table
    → TableRoom more (change_table name pairs table)
unfolding change_table
change_table-TableRoom name pairs more [] h = tt
change_table-TableRoom name pairs more ((n, m) ∷ table) h = elim (Bool-cases (same_name n name)) [
  | inl e ↦ rw e (
    omega (arith, length-apply_entries pairs m),
    change_table-TableRoom name pairs more table h.1,
  )
  | inr e ↦ rw e (omega arith, change_table-TableRoom name pairs more table h.1)
]

change_tables-TableRoom :
    (change_sets : List NamedChangeSet) (more : ℕ) (table : Table)
    → TableRoom (total_pairs change_sets + more) table
    → TableRoom more (change_tables change_sets table)
unfolding change_tables total_pairs
change_tables-TableRoom [] more table h =
    All-imp (λ (e : Bytes × List Entry) (p : length e.1 + (0 + more) < 2 ^ 63). less e p) table h
  where
    less : (e : Bytes × List Entry) → length e.1 + (0 + more) < 2 ^ 63 → length e.1 + more < 2 ^ 63
    less e p = omega arith
change_tables-TableRoom (cs ∷ change_sets) more table h =
    change_tables-TableRoom change_sets more (change_table cs.name cs.changeset table) (
      change_table-TableRoom cs.name cs.changeset (total_pairs change_sets + more) table (
        All-imp
          (λ (e : Bytes × List Entry)
              (p : length e.1 + (length cs.changeset + total_pairs change_sets + more) < 2 ^ 63).
            less e p)
          table h))
  where
    less :
        (e : Bytes × List Entry)
        → length e.1 + (length cs.changeset + total_pairs change_sets + more) < 2 ^ 63
        → length e.1 + (length cs.changeset + (total_pairs change_sets + more)) < 2 ^ 63
    less e p = omega arith

module _ {S : Type 0} where
  HasRoom-TableRoom :
      (n : ℕ) (trees : List (NamedTree S)) → HasRoom n trees → TableRoom n (table_of trees)
  unfolding table_of
  HasRoom-TableRoom n [] h = tt
  HasRoom-TableRoom n (e ∷ trees) h = (h.0, HasRoom-TableRoom n trees h.1)

  TableRoom-HasRoom :
      (n : ℕ) (trees : List (NamedTree S)) → TableRoom n (table_of trees) → HasRoom n trees
  unfolding table_of
  TableRoom-HasRoom n [] h = tt
  TableRoom-HasRoom n (e ∷ trees) h = (h.0, TableRoom-HasRoom n trees h.1)

  -- Change sets leave room for what was beyond them.
  pub change_tables-HasRoom :
      (change_sets : List NamedChangeSet) (more : ℕ) (trees trees' : List (NamedTree S))
      → table_of trees' ≡ change_tables change_sets (table_of trees)
      → HasRoom (total_pairs change_sets + more) trees
      → HasRoom more trees'
  change_tables-HasRoom change_sets more trees trees' e h = TableRoom-HasRoom more trees' (
      rw e (
        change_tables-TableRoom change_sets more (table_of trees)
          (HasRoom-TableRoom (total_pairs change_sets + more) trees h)))

  -- The same lists have the same room.
  pub table_of-HasRoom :
      (n : ℕ) (trees trees' : List (NamedTree S))
      → table_of trees' ≡ table_of trees
      → HasRoom n trees
      → HasRoom n trees'
  table_of-HasRoom n trees trees' e h =
      TableRoom-HasRoom n trees' (rw e (HasRoom-TableRoom n trees h))
