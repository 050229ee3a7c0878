-- ===== src/Memiavl/Export/Visits.antt =====
-- The scan visits every node once, its children first.
use store.Prelude.{
  ℕ, zero, suc, ◌+◌, ◌<◌, ◌-◌, Bool, true, false, Option, none, some, List, [], ◌∷◌, ◌++◌,
  append_assoc, append-nil, ◌>>=◌, ◌≡◌, refl, ap, ◌∙◌, arith,
}
use store.Memiavl.Node.{Node, leaf, branch}
use store.Memiavl.Export.{scan_loop, scan_post_order}

unfoldable pub post_order : Node → List Node
post_order (leaf key value version hash) = leaf key value version hash ∷ []
post_order (branch h s v key hash left right) =
    post_order left ++ (post_order right ++ (branch h s v key hash left right ∷ []))

-- The rounds of the scan.
unfoldable pub rounds : Node → ℕ
rounds (leaf key value version hash) = 1
rounds (branch h s v key hash left right) = 2 + (rounds left + rounds right)

rounds-pos : (t : Node) → 0 < rounds t
unfolding rounds
rounds-pos (leaf key value version hash) = omega arith
rounds-pos (branch h s v key hash left right) = omega arith

prefixed : List Node → Option (List Node) → Option (List Node)
prefixed xs o = o >>= λ ys. some (xs ++ ys)

prefixed-prefixed :
    (xs ys : List Node) (o : Option (List Node))
    → prefixed xs (prefixed ys o) ≡ prefixed (xs ++ ys) o
unfolding prefixed
prefixed-prefixed xs ys none = refl
prefixed-prefixed xs ys (some zs) = rw (append_assoc xs ys zs) refl

scan_loop_lem :
    (t : Node) (m n : ℕ) (stack : List (Node × Bool))
    → m ≡ rounds t + n
    → scan_loop m ((t, false) ∷ stack) ≡ prefixed (post_order t) (scan_loop n stack)
unfolding scan_loop rounds post_order
scan_loop_lem t zero n stack e = absurd (omega (arith, rounds-pos t))
scan_loop_lem (leaf key value version hash) (suc m) n stack e =
    let same : m ≡ n = omega arith in unfold prefixed in rw same refl
scan_loop_lem (branch h s v key hash left right) (suc m) n stack e =
    let b : Node = branch h s v key hash left right in
    let last : scan_loop (suc n) ((b, true) ∷ stack) ≡ prefixed (b ∷ []) (scan_loop n stack) =
      unfold prefixed in refl in
    scan_loop_lem left m (rounds right + suc n) ((right, false) ∷ (b, true) ∷ stack) (omega arith)
    ∙ ap (prefixed (post_order left)) (
        scan_loop_lem right (rounds right + suc n) (suc n) ((b, true) ∷ stack) refl
        ∙ ap (prefixed (post_order right)) last
        ∙ prefixed-prefixed (post_order right) (b ∷ []) (scan_loop n stack))
    ∙ prefixed-prefixed (post_order left) (post_order right ++ (b ∷ [])) (scan_loop n stack)

-- In more rounds than the nodes need, one for a leaf and two for a branch, the loop of
-- `ScanPostOrder` ends; it calls back with all nodes of the tree, each once, left before right
-- and children before their parent.
pub scan_post_order_lem :
    (t : Node) (n : ℕ) → rounds t < n → scan_post_order n (some t) ≡ some (post_order t)
unfolding scan_post_order
scan_post_order_lem t n h =
    scan_loop_lem t n (suc (n - rounds t - 1)) [] (omega arith)
    ∙ unfold prefixed scan_loop in ap some (append-nil (post_order t))

abbrev pub root_order : Option Node → List Node
root_order none = []
root_order (some root) = post_order root

abbrev pub root_rounds : Option Node → ℕ
root_rounds none = 0
root_rounds (some root) = rounds root

pub scan_root_lem :
    (root : Option Node) (n : ℕ)
    → root_rounds root < n
    → scan_post_order n root ≡ some (root_order root)
scan_root_lem none n h = unfold scan_post_order in refl
scan_root_lem (some root) n h = scan_post_order_lem root n h
