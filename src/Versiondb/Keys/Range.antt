-- ===== src/Versiondb/Keys/Range.antt =====
-- An iterator over a store scans the keys of that store in the wanted range, and no others.
use store.Prelude.{
  ℕ, ◌+◌, ◌<◌, [], ◌∷◌, ◌++◌, Option, none, some, false, ◌≡◌, ◌↔◌, refl, sym, ap₂, append-nil, ◌∙◌,
  arith, ◌||◌, if◌then◌else◌,
}
use store.Bytes.{Bytes, compare_bytes}
use store.Bytes.Order.{◌≺◌, ◌≼◌, lt_le_trans}
use store.Versiondb.Keys.{
  store_prefix, increment, cp_incr, bytes_of, iterate_with_prefix, iterator_range, key_empty, range,
  is_empty, prepend_store_key,
}

-- The half-open range of an iterator, with `none` for an open end.
abbrev pub AtLeast : Option Bytes → Bytes → Type 0
AtLeast none k = Unit
AtLeast (some b) k = b ≼ k

abbrev pub Under : Option Bytes → Bytes → Type 0
Under none k = Unit
Under (some e) k = k ≺ e

abbrev pub InRange : Option Bytes → Option Bytes → Bytes → Type 0
InRange start end k = AtLeast start k × Under end k

compare_append : (p a b : Bytes) → compare_bytes (p ++ a) (p ++ b) ≡ compare_bytes a b
unfolding compare_bytes
compare_append [] a b = refl
compare_append (x ∷ p) a b = ground (arith, compare_append p a b)

same_head :
    (a c : ℕ) (p x m : Bytes) → (a ∷ p) ≼ (c ∷ x) → (c ∷ x) ≺ (a ∷ m) → (c ≡ a) × (p ≼ x) × (x ≺ m)
unfolding compare_bytes
same_head a c p x m h l = ground arith

-- Between a prefix and one of its extensions lie only extensions.
extension_below : (p e x : Bytes) → p ≼ x → x ≺ p ++ e → (k : Bytes) × (x ≡ p ++ k)
extension_below [] e x h l = (x, refl)
extension_below (a ∷ p) e [] h l = absurd (h (unfold compare_bytes in refl))
extension_below (a ∷ p) e (c ∷ x) h l =
    let (same, h', l') = same_head a c p x (p ++ e) h l in
    let (k, q) = extension_below p e x h' l' in (k, ap₂ (λ b m. b ∷ m) same q)

last_byte : (b : ℕ) (x : Bytes) → (b ∷ []) ≼ x → x ≺ ((b + 1) ∷ []) → (k : Bytes) × (x ≡ b ∷ k)
unfolding compare_bytes
last_byte b [] h l = absurd (h refl)
last_byte b (c ∷ x) h l = (x, go x h l)
  where
    go : (x : Bytes) → (b ∷ []) ≼ (c ∷ x) → (c ∷ x) ≺ ((b + 1) ∷ []) → c ∷ x ≡ b ∷ x
    go [] h l = ground arith
    go (y ∷ x) h l = ground arith

-- Below the prefix with its last byte incremented lie only extensions, and all of them.
extension_below_next :
    (q : Bytes) (b : ℕ) (x : Bytes)
    → (q ++ b ∷ []) ≼ x
    → x ≺ q ++ (b + 1) ∷ []
    → (k : Bytes) × (x ≡ (q ++ b ∷ []) ++ k)
extension_below_next [] b x h l = last_byte b x h l
extension_below_next (a ∷ q) b [] h l = absurd (h (unfold compare_bytes in refl))
extension_below_next (a ∷ q) b (c ∷ x) h l =
    let (same, h', l') = same_head a c (q ++ b ∷ []) x (q ++ (b + 1) ∷ []) h l in
    let (k, e) = extension_below_next q b x h' l' in (k, ap₂ (λ d m. d ∷ m) same e)

below_next : (q : Bytes) (b : ℕ) (k : Bytes) → ((q ++ b ∷ []) ++ k) ≺ (q ++ (b + 1) ∷ [])
unfolding compare_bytes
below_next [] b k = ground arith
below_next (a ∷ q) b k = ground (arith, below_next q b k)

nil_le : (k : Bytes) → [] ≼ k
unfolding compare_bytes
nil_le [] = λ e. cc
nil_le (b ∷ k) = λ e. cc

le_append : (p k : Bytes) → p ≼ p ++ k
le_append p k e = nil_le k (sym (compare_append p k []) ∙ rw append-nil e)

le_of_append_le : (p b x : Bytes) → (p ++ b) ≼ x → p ≼ x
le_of_append_le p b x h l = h (lt_le_trans x p (p ++ b) l (le_append p b))

increment_last :
    (q : Bytes) (b : ℕ) → b < 255 → increment (q ++ b ∷ []) ≡ (q ++ (b + 1) ∷ [], false)
unfolding increment
increment_last [] b h = ground arith
increment_last (a ∷ q) b h = rw (increment_last q b h)

-- The bound that an open end becomes: the last byte of the prefix is `/`, the next one `0`.
abbrev next_prefix : Bytes → Bytes
next_prefix store_key = 115 ∷ 47 ∷ 107 ∷ 58 ∷ (store_key ++ 48 ∷ [])

abbrev pub upper : Bytes → Option Bytes → Bytes
upper store_key none = next_prefix store_key
upper store_key (some e) = store_prefix store_key ++ e

cp_incr-store_prefix :
    (store_key : Bytes) → cp_incr (store_prefix store_key) ≡ some (some (next_prefix store_key))
unfolding cp_incr store_prefix
cp_incr-store_prefix store_key =
    rw (increment_last (115 ∷ 47 ∷ 107 ∷ 58 ∷ store_key) 47 (omega arith))

prefix_range :
    (store_key : Bytes) (start end : Option Bytes)
    → iterate_with_prefix (store_prefix store_key) start end
      ≡ some (some (store_prefix store_key ++ bytes_of start), some (upper store_key end))
unfolding iterate_with_prefix store_prefix
prefix_range store_key start none =
    let e : cp_incr (store_prefix store_key) ≡ some (some (next_prefix store_key)) =
      cp_incr-store_prefix store_key in
    rw (e, iterate_with_prefix)
prefix_range store_key start (some e) = refl

-- What the iterator over a store gets: an error for an empty bound, or a range.
pub iterator_range_lem :
    (store_key : Bytes) (start end : Option Bytes)
    → iterator_range store_key start end ≡ (
        if is_empty start || is_empty end
        then key_empty
        else range (some (store_prefix store_key ++ bytes_of start)) (some (upper store_key end)))
unfolding iterator_range
iterator_range_lem store_key start end = rw (prefix_range store_key start end)

extension :
    (store_key : Bytes) (end : Option Bytes) (x : Bytes)
    → store_prefix store_key ≼ x
    → x ≺ upper store_key end
    → (k : Bytes) × (x ≡ store_prefix store_key ++ k)
unfolding store_prefix
extension store_key none x h l = extension_below_next (115 ∷ 47 ∷ 107 ∷ 58 ∷ store_key) 47 x h l
extension store_key (some e) x h l = extension_below (store_prefix store_key) e x h l

AtLeast-iff :
    (p k : Bytes) (start : Option Bytes) → ((p ++ bytes_of start) ≼ (p ++ k)) ↔ AtLeast start k
AtLeast-iff p k none = (λ h. tt, λ h e. nil_le k (sym (compare_append p k []) ∙ e))
AtLeast-iff p k (some s) =
    (λ h e. h (compare_append p k s ∙ e), λ h e. h (sym (compare_append p k s) ∙ e))

Under-iff :
    (store_key k : Bytes) (end : Option Bytes)
    → ((store_prefix store_key ++ k) ≺ upper store_key end) ↔ Under end k
Under-iff store_key k none =
    (λ h. tt, λ h. unfold store_prefix in below_next (115 ∷ 47 ∷ 107 ∷ 58 ∷ store_key) 47 k)
Under-iff store_key k (some e) =
    let c = compare_append (store_prefix store_key) k e in (λ h. sym c ∙ h, λ h. c ∙ h)

-- A key lies in the range exactly when it is one of the store's keys, between the wanted bounds.
pub prefix_range_exact :
    (store_key : Bytes) (start end : Option Bytes) (x : Bytes)
    → InRange (some (store_prefix store_key ++ bytes_of start)) (some (upper store_key end)) x
      ↔ ((k : Bytes) × (x ≡ prepend_store_key store_key k) × InRange start end k)
unfolding prepend_store_key
prefix_range_exact store_key start end x = (into, from)
  where
    p : Bytes
    p = store_prefix store_key

    into :
        InRange (some (p ++ bytes_of start)) (some (upper store_key end)) x
        → (k : Bytes) × (x ≡ p ++ k) × InRange start end k
    into (h, l) =
        let (k, e) = extension store_key end x (le_of_append_le p (bytes_of start) x h) l in
        (k, e, ((AtLeast-iff p k start).0 (rw e at h), (Under-iff store_key k end).0 (rw e at l)))

    from :
        ((k : Bytes) × (x ≡ p ++ k) × InRange start end k)
        → InRange (some (p ++ bytes_of start)) (some (upper store_key end)) x
    from (k, e, (h, l)) = rw e ((AtLeast-iff p k start).1 h, (Under-iff store_key k end).1 l)

-- With no empty bound, the iterator over a store is given a range without a panic, and a key of
-- the column family lies in that range exactly when it is one of the store's keys, with its part
-- after the prefix at least the start and below the end; a nil bound is no bound.
pub iterator_range_exact :
    (store_key : Bytes) (start end : Option Bytes)
    → (is_empty start || is_empty end) ≡ false
    → (from : Option Bytes) × (to : Option Bytes) × (iterator_range store_key start end
        ≡ range from to)
      × ((x : Bytes)
          → InRange from to x
            ↔ ((k : Bytes) × (x ≡ prepend_store_key store_key k) × InRange start end k))
iterator_range_exact store_key start end h = (
  some (store_prefix store_key ++ bytes_of start),
  some (upper store_key end),
  rw (iterator_range_lem store_key start end, h),
  prefix_range_exact store_key start end,
)
