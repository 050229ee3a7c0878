-- ===== src/Tests/OneSlot.antt =====
-- A cache that keeps the last value added, which meets the laws that the trees rely on.
use Prim.Native.Nat.{Ordering}
use store.Prelude.{Option, none, some, ◌≡◌, ◌≢◌, inl, arith}
use store.Bytes.{Bytes, compare_bytes}
use store.Bytes.Order.{compare_bytes_refl, eq_of_compare_bytes}
use store.Memiavl.Tree.{Cache}
use store.Memiavl.Tree.Cached.{CacheLaws}

abbrev pub Slot : Type 0
Slot = Option (Bytes × Option Bytes)

abbrev slot_remove : Bytes → Slot → Slot
slot_remove k none = none
slot_remove k (some (j, v)) = elim (compare_bytes j k) [ Ordering.eq ↦ none | _ ↦ some (j, v) ]

abbrev slot_find : Bytes → Slot → Option (Option Bytes)
slot_find k none = none
slot_find k (some (j, v)) = elim (compare_bytes j k) [ Ordering.eq ↦ some v | _ ↦ none ]

abbrev pub one_slot : Cache
one_slot = record {
  State = Slot;
  add = λ k v s. some (k, v);
  remove = slot_remove;
  find = slot_find;
  touch = λ k s. s;
}

pub find_slot :
    (j k : Bytes) (v w : Option Bytes) → slot_find j (some (k, v)) ≡ some w → (k ≡ j) × (w ≡ v)
find_slot j k v w = ground (arith, eq_of_compare_bytes k j)

find_removed :
    (j k : Bytes) (w : Option Bytes) (s : Slot)
    → slot_find j (slot_remove k s) ≡ some w
    → (k ≢ j) × (slot_find j s ≡ some w)
find_removed j k w none h = ground arith
find_removed j k w (some (i, v)) h = ground (arith, compare_bytes_refl i, eq_of_compare_bytes i j)

pub one_slot-CacheLaws : CacheLaws one_slot
one_slot-CacheLaws = record {
  find_add = λ j k v w s h. inl (find_slot j k v w h);
  find_remove = find_removed;
  find_touch = λ j k w s h. h;
}
