-- ===== src/Memiavl/MultiTree/Names.antt =====
-- The trees by their names: the stable sort and the index that `ApplyUpgrades` builds.
use mathlib.Core.Bool.{false≢true}
use mathlib.Core.List.{Perm}
use mathlib.Core.List.Perm
use store.Prelude.{
  true, false, List, [], ◌∷◌, ◌≡◌, refl, ◌≢◌, sym, ap, ◌∙◌, arith, All, All-imp, Bool-cases, inl,
  inr, ◌↔◌,
}
use store.Bytes.{Bytes, compare_bytes}
use store.Bytes.Order.{
  ◌≺◌, compare_bytes_refl, eq_of_compare_bytes, lt_of_gt, lt_trans, Ordering-cases,
}
use store.Memiavl.MultiTree.{
  NamedTree, Error, Outcome, done, failed, panicked, ◌>>=◌, same_name, insert_by_name, sort_by_name,
}

-- How an outcome ends: `P` of a state that is returned, `Q` of an error with its state.
abbrev pub Ends : {A : Type 0} → Outcome A → (A → Type 0) → (Error → A → Type 0) → Type 0
Ends (done a) P Q = P a
Ends (failed e a) P Q = Q e a
Ends panicked P Q = ⊥

pub Ends-× :
    {A : Type 0} (o : Outcome A) (P P' : A → Type 0) (Q Q' : Error → A → Type 0)
    → Ends o P Q
    → Ends o P' Q'
    → Ends o (λ a. P a × P' a) (λ e a. Q e a × Q' e a)
Ends-× (done a) P P' Q Q' h k = (h, k)
Ends-× (failed e a) P P' Q Q' h k = (h, k)
Ends-× panicked P P' Q Q' h k = h

pub Ends-imp :
    {A : Type 0} (o : Outcome A) (P P' : A → Type 0) (Q Q' : Error → A → Type 0)
    → ((a : A) → P a → P' a)
    → ((e : Error) (a : A) → Q e a → Q' e a)
    → Ends o P Q
    → Ends o P' Q'
Ends-imp (done a) P P' Q Q' f g h = f a h
Ends-imp (failed e a) P P' Q Q' f g h = g e a h
Ends-imp panicked P P' Q Q' f g h = h

-- The multi-tree that is returned is the one of the outcome.
pub Ends-done :
    {A : Type 0} (o : Outcome A) (P : A → Type 0) (Q : Error → A → Type 0)
    → Ends o P Q
    → Ends o (λ a. (o ≡ done a) × P a) Q
Ends-done (done a) P Q h = (refl, h)
Ends-done (failed e a) P Q h = h
Ends-done panicked P Q h = h

pub Ends-bind :
    {A : Type 0} (o : Outcome A) (f : A → Outcome A) (P P' : A → Type 0) (Q Q' : Error → A → Type 0)
    → Ends o P Q
    → ((a : A) → P a → Ends (f a) P' Q')
    → ((e : Error) (a : A) → Q e a → Q' e a)
    → Ends (o >>= f) P' Q'
Ends-bind (done a) f P P' Q Q' h k g = k a h
Ends-bind (failed e a) f P P' Q Q' h k g = g e a h
Ends-bind panicked f P P' Q Q' h k g = h

pub same_name_self : (a : Bytes) → same_name a a ≡ true
unfolding same_name
same_name_self a = ground (arith, compare_bytes_refl a)

pub eq_of_same_name : (a b : Bytes) → same_name a b ≡ true → a ≡ b
unfolding same_name
eq_of_same_name a b h = ground (arith, eq_of_compare_bytes a b)

pub same_name_ne : (a b : Bytes) → a ≢ b → same_name a b ≡ false
same_name_ne a b h = elim (Bool-cases (same_name a b)) [
  | inl e ↦ absurd (h (eq_of_same_name a b e))
  | inr e ↦ e
]

pub ne_of_same_name : (a b : Bytes) → same_name a b ≡ false → a ≢ b
ne_of_same_name a b h e =
    absurd (false≢true (sym h ∙ (ap (same_name a) (sym e) ∙ same_name_self a)))

module _ {S : Type 0} where
  -- No two trees have one name.
  abbrev pub IsDistinct : List (NamedTree S) → Type 0
  IsDistinct [] = Unit
  IsDistinct (e ∷ trees) = All (λ x. e.name ≢ x.name) trees × IsDistinct trees

  -- The names ascend.
  abbrev pub IsAscending : List (NamedTree S) → Type 0
  IsAscending [] = Unit
  IsAscending (e ∷ trees) = All (λ x. e.name ≺ x.name) trees × IsAscending trees

  pub All-insert_by_name :
      (P : NamedTree S → Type 0) (e : NamedTree S) (trees : List (NamedTree S))
      → All P (insert_by_name e trees) ↔ (P e × All P trees)
  unfolding insert_by_name
  All-insert_by_name P e [] = (λ h. h, λ h. h)
  All-insert_by_name P e (o ∷ trees) = elim (Ordering-cases (compare_bytes o.name e.name)) [
    | inl c ↦
        rw (c, insert_by_name)
          (
            (λ h. let q = (All-insert_by_name P e trees).0 h.1 in (q.0, (h.0, q.1))),
            (λ h. (h.1.0, (All-insert_by_name P e trees).1 (h.0, h.1.1))),
          )
    | inr (inl c) ↦ rw (c, insert_by_name) ((λ h. h), (λ h. h))
    | inr (inr c) ↦ rw (c, insert_by_name) ((λ h. h), (λ h. h))
  ]

  -- An ascending list stays so, unless the name is there.
  insert_by_name-IsAscending :
      (e : NamedTree S) (trees : List (NamedTree S))
      → IsAscending trees
      → All (λ x. e.name ≢ x.name) trees
      → IsAscending (insert_by_name e trees)
  unfolding insert_by_name
  insert_by_name-IsAscending e [] s d = (tt, tt)
  insert_by_name-IsAscending e (o ∷ trees) s d =
      elim (Ordering-cases (compare_bytes o.name e.name)) [
        | inl c ↦
            rw (c, insert_by_name)
              (
                (All-insert_by_name (λ x. o.name ≺ x.name) e trees).1 (c, s.0),
                insert_by_name-IsAscending e trees s.1 d.1,
              )
        | inr (inl c) ↦ absurd (d.0 (sym (eq_of_compare_bytes o.name e.name c)))
        | inr (inr c) ↦
            let low = lt_of_gt o.name e.name c in
            rw (c, insert_by_name)
              (
                (
                  low,
                  All-imp
                      (λ (x : NamedTree S) (p : o.name ≺ x.name).
                        lt_trans e.name o.name x.name low p)
                      trees s.0,
                ),
                s,
              )
      ]

  pub All-sort_by_name :
      (P : NamedTree S → Type 0) (trees : List (NamedTree S))
      → All P (sort_by_name trees) ↔ All P trees
  unfolding sort_by_name
  All-sort_by_name P [] = (λ h. h, λ h. h)
  All-sort_by_name P (e ∷ trees) =
      let inner = All-sort_by_name P trees in
      let outer = All-insert_by_name P e (sort_by_name trees) in
      ((λ h. let q = outer.0 h in (q.0, inner.0 q.1)), (λ h. outer.1 (h.0, inner.1 h.1)))

  pub sort_by_name-IsAscending :
      (trees : List (NamedTree S)) → IsDistinct trees → IsAscending (sort_by_name trees)
  unfolding sort_by_name
  sort_by_name-IsAscending [] d = tt
  sort_by_name-IsAscending (e ∷ trees) d =
      insert_by_name-IsAscending e (sort_by_name trees) (sort_by_name-IsAscending trees d.1)
        ((All-sort_by_name (λ x. e.name ≢ x.name) trees).1 d.0)

  insert_by_name-perm :
      (e : NamedTree S) (trees : List (NamedTree S)) → Perm (insert_by_name e trees) (e ∷ trees)
  unfolding insert_by_name
  insert_by_name-perm e [] = Perm.rfl
  insert_by_name-perm e (o ∷ trees) = elim (Ordering-cases (compare_bytes o.name e.name)) [
    | inl c ↦
        rw (c, insert_by_name)
          (Perm.trans (Perm.cons o (insert_by_name-perm e trees)) (Perm.swap e o trees))
    | inr (inl c) ↦ rw (c, insert_by_name) Perm.rfl
    | inr (inr c) ↦ rw (c, insert_by_name) Perm.rfl
  ]

  pub sort_by_name-perm : (trees : List (NamedTree S)) → Perm (sort_by_name trees) trees
  unfolding sort_by_name
  sort_by_name-perm [] = Perm.rfl
  sort_by_name-perm (e ∷ trees) =
      Perm.trans (insert_by_name-perm e (sort_by_name trees))
        (Perm.cons e (sort_by_name-perm trees))

  pub IsAscending-IsDistinct : (trees : List (NamedTree S)) → IsAscending trees → IsDistinct trees
  IsAscending-IsDistinct [] s = tt
  IsAscending-IsDistinct (e ∷ trees) s = (
    All-imp {Q = λ x. e.name ≢ x.name}
        (λ (x : NamedTree S) (p : e.name ≺ x.name) q. lt_ne e.name x.name p q) trees s.0,
    IsAscending-IsDistinct trees s.1,
  )
    where
      lt_ne : (a b : Bytes) → a ≺ b → a ≢ b
      lt_ne a b p q = ground (arith, compare_bytes_refl b)

  insert_by_name-IsDistinct :
      (e : NamedTree S) (trees : List (NamedTree S))
      → IsDistinct (insert_by_name e trees) ↔ IsDistinct (e ∷ trees)
  unfolding insert_by_name
  insert_by_name-IsDistinct e [] = ((λ h. h), (λ h. h))
  insert_by_name-IsDistinct e (o ∷ trees) = elim (Ordering-cases (compare_bytes o.name e.name)) [
    | inl c ↦
        rw (c, insert_by_name)
          (
            (λ h.
                let q = (All-insert_by_name (λ x. o.name ≢ x.name) e trees).0 h.0 in
                let r = (insert_by_name-IsDistinct e trees).0 h.1 in
                (((λ p. q.0 (sym p)), r.0), (q.1, r.1))),
            (λ h. (
              (All-insert_by_name (λ x. o.name ≢ x.name) e trees).1 ((λ p. h.0.0 (sym p)), h.1.0),
              (insert_by_name-IsDistinct e trees).1 (h.0.1, h.1.1),
            )),
          )
    | inr (inl c) ↦ rw (c, insert_by_name) ((λ h. h), (λ h. h))
    | inr (inr c) ↦ rw (c, insert_by_name) ((λ h. h), (λ h. h))
  ]

  pub sort_by_name-IsDistinct :
      (trees : List (NamedTree S)) → IsDistinct (sort_by_name trees) ↔ IsDistinct trees
  unfolding sort_by_name
  sort_by_name-IsDistinct [] = ((λ h. h), (λ h. h))
  sort_by_name-IsDistinct (e ∷ trees) =
      let inner = sort_by_name-IsDistinct trees in
      let outer = insert_by_name-IsDistinct e (sort_by_name trees) in
      let all = All-sort_by_name (λ x. e.name ≢ x.name) trees in
      (
        (λ h. let q = outer.0 h in (all.0 q.0, inner.0 q.1)),
        (λ h. outer.1 (all.1 h.0, inner.1 h.1)),
      )
