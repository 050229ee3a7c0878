-- ===== src/Binary/RoundTrip.antt =====
-- What the writers of `Binary` write, its readers read back, and leave what follows.
use native.Mathlib.Nat.{div-add-mod}
use native.Mathlib.Numerals.{towards_suc}
use store.Prelude.{
  ℕ, zero, suc, ◌+◌, ◌*◌, ◌/◌, ◌%◌, ◌^◌, ◌≤◌, ◌<◌, [], ◌∷◌, ◌++◌, ◌≡◌, refl, ap, ◌∙◌, length,
  length-append, take, drop, arith,
}
use store.Bytes.{Bytes}
use store.Binary.{ok, uvarint_loop, put_uvarint, read_loop, read_uvarint, read_full}

shift_seven : (s : ℕ) → 2 ^ (s + 7) ≡ 128 * 2 ^ s
shift_seven s = simp towards_suc (omega arith)

split_group : (v s : ℕ) → v * 2 ^ s ≡ v % 128 * 2 ^ s + v / 128 * 2 ^ (s + 7)
split_group v s = omega (
  arith,
  ap (λ (t : ℕ). t * 2 ^ s) (div-add-mod v 128),
  ap (λ (t : ℕ). v / 128 * t) (shift_seven s),
)

read_loop-uvarint_loop :
    (n v x s : ℕ) (rest : Bytes)
    → v < 2 * 128 ^ n
    → read_loop (suc n) x s (uvarint_loop n v ++ rest) ≡ ok (x + v * 2 ^ s, rest)
unfolding read_loop uvarint_loop
read_loop-uvarint_loop zero v x s rest h = ground arith
read_loop-uvarint_loop (suc n) v x s rest h = ground (
  arith,
  split_group v s,
  read_loop-uvarint_loop n (v / 128) (x + v % 128 * 2 ^ s) (s + 7) rest (omega arith),
)

-- A uint64 is read back.
pub read_uvarint-put_uvarint :
    (v : ℕ) (rest : Bytes) → v < 2 ^ 64 → read_uvarint (put_uvarint v ++ rest) ≡ ok (v, rest)
unfolding read_uvarint put_uvarint
read_uvarint-put_uvarint v rest h =
    read_loop-uvarint_loop 9 v 0 0 rest (omega arith) ∙ ap (λ (t : ℕ). ok (t, rest)) (omega arith)

length-uvarint_loop : (n v : ℕ) → 1 ≤ length (uvarint_loop n v)
unfolding uvarint_loop
length-uvarint_loop zero v = omega arith
length-uvarint_loop (suc n) v = ground arith

pub length-put_uvarint : (v : ℕ) → 1 ≤ length (put_uvarint v)
unfolding put_uvarint
length-put_uvarint v = length-uvarint_loop 9 v

take-length-append : (xs ys : Bytes) → take (length xs) (xs ++ ys) ≡ xs
take-length-append [] ys = refl
take-length-append (x ∷ xs) ys = ap (λ m. x ∷ m) (take-length-append xs ys)

drop-length-append : (xs ys : Bytes) → drop (length xs) (xs ++ ys) ≡ ys
drop-length-append [] ys = refl
drop-length-append (x ∷ xs) ys = drop-length-append xs ys

pub read_full-append : (xs rest : Bytes) → read_full (length xs) (xs ++ rest) ≡ ok (xs, rest)
unfolding read_full
read_full-append xs rest =
    ground (arith, length-append xs rest, take-length-append xs rest, drop-length-append xs rest)
