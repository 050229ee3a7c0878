-- ===== src/Binary.antt =====
-- Go's encoding/binary and io, as far as the library uses them: varints and exact reads, over a
-- stream that is the list of its bytes.
pub mod RoundTrip
use store.Prelude.{
  ℕ, zero, suc, ◌+◌, ◌-◌, ◌*◌, ◌/◌, ◌%◌, ◌^◌, List, [], ◌∷◌, ◌++◌, ◌&&◌, ltb, leb, ◌==◌, length,
  take, drop, if◌then◌else◌,
}
use store.Bytes.{Bytes}

-- `io.EOF`, `io.ErrUnexpectedEOF` and the overflow error of `ReadUvarint`.
pub data ReadError : Type 0 where
  eof unexpected_eof overflow : ReadError

-- A read returns a value and the rest of the stream, or an error; `panic` is a Go panic.
pub data Result {ℓ} (A : Type ℓ) : Type ℓ where
  ok : A → Result A
  err : ReadError → Result A
  panic : Result A

infixl 5 ◌>>=◌
abbrev pub ◌>>=◌ {ℓ κ} : {A : Type ℓ} {B : Type κ} → Result A → (A → Result B) → Result B
ok a >>= f = f a
err e >>= f = err e
panic >>= f = panic

-- Groups of seven bits, lowest first; a uint64 takes ten at most.
unfoldable pub uvarint_loop : ℕ → ℕ → Bytes
uvarint_loop zero v = v ∷ []
uvarint_loop (suc n) v =
    let rest = uvarint_loop n (v / 128) in if ltb v 128 then v ∷ [] else (v % 128 + 128) ∷ rest

-- `binary.PutUvarint`
unfoldable pub put_uvarint : ℕ → Bytes
unfolding uvarint_loop
put_uvarint v = uvarint_loop 9 v

-- `binary.PutVarint` of an int64, given by its bit pattern.
unfoldable pub put_varint : ℕ → Bytes
put_varint x =
    let ux = 2 * x % 2 ^ 64 in put_uvarint (if ltb x (2 ^ 63) then ux else 2 ^ 64 - 1 - ux)

-- The groups are disjoint bits, so `|` is `+`. The shift is 0 at the first byte only.
unfoldable pub read_loop : ℕ → ℕ → ℕ → Bytes → Result (ℕ × Bytes)
read_loop zero x shift bs = err overflow
read_loop (suc n) x shift [] = err (if shift == 0 then eof else unexpected_eof)
read_loop (suc n) x shift (b ∷ bs) =
    let more = read_loop n (x + b % 128 * 2 ^ shift) (shift + 7) bs in
    if ltb b 128
    then if n == 0 && ltb 1 b then err overflow else ok (x + b * 2 ^ shift, bs)
    else more

-- `binary.ReadUvarint`
unfoldable pub read_uvarint : Bytes → Result (ℕ × Bytes)
unfolding read_loop
read_uvarint bs = read_loop 10 0 0 bs

-- `io.ReadFull` into a buffer of `n` bytes.
unfoldable pub read_full : ℕ → Bytes → Result (Bytes × Bytes)
read_full n bs =
    if leb n (length bs)
    then ok (take n bs, drop n bs)
    else if length bs == 0
    then err eof
    else err unexpected_eof
