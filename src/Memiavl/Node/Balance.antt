-- ===== src/Memiavl/Node/Balance.antt =====
-- The AVL invariant of memiavl/mem_node.go: stored heights and sizes are those of the subtrees, and
-- siblings differ in height by one at most.
use store.Prelude.{ℕ, zero, suc, ◌+◌, ◌*◌, ◌^◌, ◌≤◌, ◌<◌, max, Option, none, ◌≡◌, refl, arith}
use store.Bytes.{Bytes}
use store.Memiavl.Node.{Node, leaf, branch, height, size, update_height_size}

abbrev pub IsAvl : Node → Type 0
IsAvl (leaf key value version hash) = Unit
IsAvl (branch h s version key hash left right) =
    (h ≡ max (height left) (height right) + 1)
    × (s ≡ size left + size right)
    × (height left ≤ height right + 1)
    × (height right ≤ height left + 1)
    × IsAvl left
    × IsAvl right

pow_suc : (k : ℕ) → 2 ^ suc k ≡ 2 * 2 ^ k
pow_suc k = omega arith

-- A tree of height 2 k or more has at least 2 ^ k leaves.
pub two_pow-le-size : (k : ℕ) (t : Node) → IsAvl t → k + k ≤ height t → 2 ^ k ≤ size t
unfolding height size
two_pow-le-size zero (leaf key value version hash) a h = omega arith
two_pow-le-size zero (branch th s version key hash left right) a h =
    omega (arith, two_pow-le-size zero left a.4 (omega arith))
two_pow-le-size (suc k) (leaf key value version hash) a h = absurd (omega arith)
two_pow-le-size (suc k) (branch th s version key hash left right) a h = omega (
  arith,
  pow_suc k,
  two_pow-le-size k left a.4 (omega arith),
  two_pow-le-size k right a.5 (omega arith),
)

-- An AVL tree with fewer than 2 ^ 63 leaves has a height below 126.
pub height-lt : (t : Node) → IsAvl t → size t < 2 ^ 63 → height t < 126
height-lt t a h = ground (arith, two_pow-le-size 63 t a)

pub update_height_size_lem :
    (version : ℕ) (key : Bytes) (hash : Option Bytes) (left right : Node)
    → IsAvl left
    → IsAvl right
    → size left + size right < 2 ^ 63
    → update_height_size version key hash left right
      ≡ branch
          (max (height left) (height right) + 1)
          (size left + size right)
          version
          key
          hash
          left
          right
unfolding update_height_size
update_height_size_lem version key hash left right a b h =
    let p = height-lt left a (omega arith) in
    let q = height-lt right b (omega arith) in ground arith

-- Two trees of like height under a fresh branch.
pub update_height_size-IsAvl :
    (version : ℕ) (key : Bytes) (hash : Option Bytes) (left right : Node)
    → IsAvl left
    → IsAvl right
    → size left + size right < 2 ^ 63
    → height left ≤ height right + 1
    → height right ≤ height left + 1
    → IsAvl (update_height_size version key hash left right)
      × (height (update_height_size version key hash left right)
          ≡ max (height left) (height right) + 1)
      × (size (update_height_size version key hash left right) ≡ size left + size right)
unfolding height size
update_height_size-IsAvl version key hash left right a b n p q =
    rw (update_height_size_lem version key hash left right a b n)
      ((refl, refl, p, q, a, b), refl, refl)

-- What rebalancing gives for children `left` and `right`.
pub record IsRebalanced (left right t : Node) : Type 0 where
  pub avl : IsAvl t
  pub whole : size t ≡ size left + size right
  pub low : max (height left) (height right) ≤ height t
  pub high : height t ≤ max (height left) (height right) + 1
  pub same :
      height left ≤ height right + 1
      → height right ≤ height left + 1
      → height t ≡ max (height left) (height right) + 1

-- A single rotation to the right, of a left child that is two higher and not heavy on its right.
pub single_right :
    (v w x s h : ℕ) (key k : Bytes) (hash hash' : Option Bytes) (ll lr right : Node)
    → IsAvl (branch h s x k hash' ll lr)
    → IsAvl right
    → h ≡ height right + 2
    → s + size right < 2 ^ 63
    → height lr ≤ height ll
    → IsRebalanced
        (branch h s x k hash' ll lr)
        right
        (update_height_size w k none ll (update_height_size v key hash lr right))
unfolding height size
single_right v w x s h key k hash hash' ll lr right a b d n c =
    let inner = update_height_size v key hash lr right in
    let (ia, ih, is) =
      update_height_size-IsAvl v key hash lr right a.5 b (omega arith) (omega arith)
        (omega arith) in
    let (oa, oh, os) =
      update_height_size-IsAvl w k none ll inner a.4 ia (omega arith) (omega arith) (omega arith) in
    record {
      avl = oa;
      whole = omega arith;
      low = omega arith;
      high = omega arith;
      same = omega arith;
    }

-- A double rotation to the right, of a left child that is two higher and heavy on its right.
pub double_right :
    (v w x s h hm sm u : ℕ) (key k km : Bytes) (hash hash' hashm : Option Bytes)
    (ll m1 m2 right : Node)
    → IsAvl (branch h s x k hash' ll (branch hm sm u km hashm m1 m2))
    → IsAvl right
    → h ≡ height right + 2
    → s + size right < 2 ^ 63
    → height ll < hm
    → IsRebalanced (branch h s x k hash' ll (branch hm sm u km hashm m1 m2)) right (
        update_height_size w km none
          (update_height_size w k none ll m1)
          (update_height_size v key hash m2 right))
unfolding height size
double_right v w x s h hm sm u key k km hash hash' hashm ll m1 m2 right a b d n c =
    let inner1 = update_height_size w k none ll m1 in
    let inner2 = update_height_size v key hash m2 right in
    let am = a.5 in
    let (a1, h1, s1) =
      update_height_size-IsAvl w k none ll m1 a.4 am.4 (omega arith) (omega arith) (omega arith) in
    let (a2, h2, s2) =
      update_height_size-IsAvl v key hash m2 right am.5 b (omega arith) (omega arith)
        (omega arith) in
    let (oa, oh, os) =
      update_height_size-IsAvl w km none inner1 inner2 a1 a2 (omega arith) (omega arith)
        (omega arith) in
    record {
      avl = oa;
      whole = omega arith;
      low = omega arith;
      high = omega arith;
      same = omega arith;
    }

-- The mirror images.
pub single_left :
    (v w x s h : ℕ) (key k : Bytes) (hash hash' : Option Bytes) (left rl rr : Node)
    → IsAvl left
    → IsAvl (branch h s x k hash' rl rr)
    → h ≡ height left + 2
    → size left + s < 2 ^ 63
    → height rl ≤ height rr
    → IsRebalanced left
        (branch h s x k hash' rl rr)
        (update_height_size w k none (update_height_size v key hash left rl) rr)
unfolding height size
single_left v w x s h key k hash hash' left rl rr a b d n c =
    let inner = update_height_size v key hash left rl in
    let (ia, ih, is) =
      update_height_size-IsAvl v key hash left rl a b.4 (omega arith) (omega arith) (omega arith) in
    let (oa, oh, os) =
      update_height_size-IsAvl w k none inner rr ia b.5 (omega arith) (omega arith) (omega arith) in
    record {
      avl = oa;
      whole = omega arith;
      low = omega arith;
      high = omega arith;
      same = omega arith;
    }

pub double_left :
    (v w x s h hm sm u : ℕ) (key k km : Bytes) (hash hash' hashm : Option Bytes)
    (left m1 m2 rr : Node)
    → IsAvl left
    → IsAvl (branch h s x k hash' (branch hm sm u km hashm m1 m2) rr)
    → h ≡ height left + 2
    → size left + s < 2 ^ 63
    → height rr < hm
    → IsRebalanced left (branch h s x k hash' (branch hm sm u km hashm m1 m2) rr) (
        update_height_size w km none
          (update_height_size v key hash left m1)
          (update_height_size w k none m2 rr))
unfolding height size
double_left v w x s h hm sm u key k km hash hash' hashm left m1 m2 rr a b d n c =
    let inner1 = update_height_size v key hash left m1 in
    let inner2 = update_height_size w k none m2 rr in
    let bm = b.4 in
    let (a1, h1, s1) =
      update_height_size-IsAvl v key hash left m1 a bm.4 (omega arith) (omega arith)
        (omega arith) in
    let (a2, h2, s2) =
      update_height_size-IsAvl w k none m2 rr bm.5 b.5 (omega arith) (omega arith) (omega arith) in
    let (oa, oh, os) =
      update_height_size-IsAvl w km none inner1 inner2 a1 a2 (omega arith) (omega arith)
        (omega arith) in
    record {
      avl = oa;
      whole = omega arith;
      low = omega arith;
      high = omega arith;
      same = omega arith;
    }
