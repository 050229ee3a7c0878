-- ===== src/Versiondb/Comparator/Order.antt =====
-- `compare` orders keys by their bytes, and the versions of one key from the newest to the oldest.
use Prim.Native.Nat.{Ordering}
use store.Prelude.{
  ℕ, zero, suc, ◌+◌, ◌*◌, ◌-◌, ◌/◌, ◌%◌, ◌^◌, ◌<◌, ◌≡◌, refl, ap, arith, [], ◌∷◌, ◌++◌, some, ltb,
  length, length-append, take, drop, if◌then◌else◌, true, false, inl, inr,
}
use store.Bytes.{Bytes, compare_bytes}
use store.Bytes.Order.{Ordering-cases}
use store.Versiondb.Comparator.{
  little_endian, compare_ts, negate, without_ts, ts_of, compare_without_ts, compare_end,
  compare_keys,
}

-- `binary.LittleEndian.PutUint64`, for any count of bytes.
unfoldable pub to_little_endian : ℕ → ℕ → Bytes
to_little_endian zero v = []
to_little_endian (suc n) v = v % 256 ∷ to_little_endian n (v / 256)

pow_suc : (n : ℕ) → 256 ^ suc n ≡ 256 * 256 ^ n
pow_suc n = omega arith

little_endian-to_little_endian :
    (n v : ℕ) → v < 256 ^ n → little_endian n (to_little_endian n v) ≡ some v
unfolding little_endian to_little_endian
little_endian-to_little_endian zero v h = ap some (omega arith)
little_endian-to_little_endian (suc n) v h =
    rw (little_endian-to_little_endian n (v / 256) (omega (arith, pow_suc n)))
      (ap some (omega arith))

length-to_little_endian : (n v : ℕ) → length (to_little_endian n v) ≡ n
unfolding to_little_endian
length-to_little_endian zero v = refl
length-to_little_endian (suc n) v = rw (length-to_little_endian n (v / 256)) refl

take-length_append : (a b : Bytes) → take (length a) (a ++ b) ≡ a
take-length_append [] b = refl
take-length_append (x ∷ a) b = rw (take-length_append a b) refl

drop-length_append : (a b : Bytes) → drop (length a) (a ++ b) ≡ b
drop-length_append [] b = refl
drop-length_append (x ∷ a) b = drop-length_append a b

-- A key with its timestamp.
abbrev pub at_version : Bytes → ℕ → Bytes
at_version a t = a ++ to_little_endian 8 t

length-at_version : (a : Bytes) (t : ℕ) → length (at_version a t) ≡ length a + 8
length-at_version a t =
    omega (arith, length-append a (to_little_endian 8 t), length-to_little_endian 8 t)

without_ts-at_version : (a : Bytes) (t : ℕ) → without_ts (at_version a t) true ≡ some a
unfolding without_ts
without_ts-at_version a t =
    let long : ltb (length a + 8) 8 ≡ false = ground arith in
    let cut : length a + 8 - 8 ≡ length a = omega arith in
    rw (length-at_version a t, long, cut, take-length_append a (to_little_endian 8 t)) refl

ts_of-at_version : (a : Bytes) (t : ℕ) → ts_of (at_version a t) ≡ some (to_little_endian 8 t)
unfolding ts_of
ts_of-at_version a t =
    let long : ltb (length a + 8) 8 ≡ false = ground arith in
    let cut : length a + 8 - 8 ≡ length a = omega arith in
    rw (length-at_version a t, long, cut, drop-length_append a (to_little_endian 8 t)) refl

-- The order of numbers, the larger one first.
unfoldable pub compare_newer : ℕ → ℕ → Ordering
compare_newer t u = if ltb u t then Ordering.lt else if ltb t u then Ordering.gt else Ordering.eq

negated :
    (t u : ℕ)
    → negate (if ltb t u then Ordering.lt else if ltb u t then Ordering.gt else Ordering.eq)
      ≡ compare_newer t u
unfolding negate compare_newer
negated t u = ground arith

compare_end_eq :
    (a b : Bytes) (t u : ℕ)
    → t < 2 ^ 64
    → u < 2 ^ 64
    → compare_end (at_version a t) (at_version b u) Ordering.eq ≡ some (compare_newer t u)
unfolding compare_end compare_ts
compare_end_eq a b t u p q =
    rw (ts_of-at_version a t, ts_of-at_version b u)
      (rw
        (
          little_endian-to_little_endian 8 t (omega arith),
          little_endian-to_little_endian 8 u (omega arith),
        )
        (ap some (negated t u)))

-- On two keys with the eight bytes of their 64-bit timestamps behind them, `compare` returns; it
-- orders different keys by their bytes, and equal keys by their timestamps, the larger one
-- first.
pub compare_keys-at_version :
    (a b : Bytes) (t u : ℕ)
    → t < 2 ^ 64
    → u < 2 ^ 64
    → compare_keys (at_version a t) (at_version b u)
      ≡ some (elim (compare_bytes a b) [
        | Ordering.lt ↦ Ordering.lt
        | Ordering.gt ↦ Ordering.gt
        | Ordering.eq ↦ compare_newer t u
      ])
unfolding compare_keys compare_without_ts
compare_keys-at_version a b t u p q =
    rw (without_ts-at_version a t, without_ts-at_version b u)
      (elim (Ordering-cases (compare_bytes a b)) [
        | inl e ↦ rw e (unfold compare_end in refl)
        | inr (inl e) ↦ rw e (compare_end_eq a b t u p q)
        | inr (inr e) ↦ rw e (unfold compare_end in refl)
      ])
