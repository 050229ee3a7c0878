-- ===== src/Memiavl/Node/Hash/Shape.antt =====
-- Computing hashes changes nothing of a tree but the hashes that it keeps.
use store.Prelude.{none, some, ◌≡◌, refl, ◌∙◌}
use store.Bytes.{Bytes}
use store.Memiavl.Node.{Node, leaf, branch, height, size}
use store.Memiavl.Node.Balance.{IsAvl}
use store.Memiavl.Node.Leaves.{entries, min_key, IsKeyed}
use store.Memiavl.Node.Valid.{IsValid}
use store.Memiavl.Node.Hash.{hash}

module _ (sha256 : Bytes → Bytes) where
  pub record HasShape (t t' : Node) : Type 0 where
    pub same_height : height t' ≡ height t
    pub same_size : size t' ≡ size t
    pub same_key : min_key t' ≡ min_key t
    pub same_entries : entries t' ≡ entries t
    pub keyed : IsKeyed t → IsKeyed t'
    pub avl : IsAvl t → IsAvl t'

  pub hash-HasShape : (t : Node) → HasShape t (hash sha256 t).1
  unfolding hash height size min_key entries
  hash-HasShape (leaf key value version none) = record {
    same_height = refl;
    same_size = refl;
    same_key = refl;
    same_entries = refl;
    keyed = λ h. h;
    avl = λ h. h;
  }
  hash-HasShape (leaf key value version (some bz)) = record {
    same_height = refl;
    same_size = refl;
    same_key = refl;
    same_entries = refl;
    keyed = λ h. h;
    avl = λ h. h;
  }
  hash-HasShape (branch h s version key (some bz) left right) = record {
    same_height = refl;
    same_size = refl;
    same_key = refl;
    same_entries = refl;
    keyed = λ h. h;
    avl = λ h. h;
  }
  hash-HasShape (branch h s version key none left right) =
      let l = hash-HasShape left in
      let r = hash-HasShape right in
      record {
        same_height = refl;
        same_size = refl;
        same_key = l.same_key;
        same_entries = rw (l.same_entries, r.same_entries) refl;
        keyed = λ k. (r.same_key ∙ k.0, l.keyed k.1, r.keyed k.2);
        avl = λ a.
            rw (l.same_height, l.same_size, r.same_height, r.same_size)
              (a.0, a.1, a.2, a.3, l.avl a.4, r.avl a.5);
      }

  pub hash-IsValid : (t : Node) → IsValid t → IsValid (hash sha256 t).1
  hash-IsValid t v =
      let s = hash-HasShape t in
      record { sorted = rw s.same_entries v.sorted; keyed = s.keyed v.keyed; avl = s.avl v.avl }
