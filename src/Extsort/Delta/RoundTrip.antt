-- ===== src/Extsort/Delta/RoundTrip.antt =====
-- A chunk of keys reads back as it was written.
use store.Prelude.{
  ℕ, zero, suc, ◌+◌, ◌-◌, ◌%◌, ◌^◌, ◌≤◌, ◌<◌, List, [], ◌∷◌, ◌++◌, append_assoc, none, some, ◌≡◌,
  refl, length, length-append, take, drop, All, arith, ltb, false, ◌||◌,
}
use store.Bytes.{Bytes}
use store.Binary.{ok, put_uvarint, read_uvarint}
use store.Binary.RoundTrip.{read_uvarint-put_uvarint, length-put_uvarint, read_full-append}
use store.Extsort.Delta.{diff_offset, encode_key, decode_key, encode_chunk, next_key, decode_chunk}

diff_offset-le : (a b : Bytes) → (diff_offset a b ≤ length a) × (diff_offset a b ≤ length b)
unfolding diff_offset
diff_offset-le [] b = omega arith
diff_offset-le (x ∷ a) [] = omega arith
diff_offset-le (x ∷ a) (y ∷ b) = ground (arith, diff_offset-le a b)

-- The bytes before the offset are the same.
take-diff_offset : (a b : Bytes) → take (diff_offset a b) a ≡ take (diff_offset a b) b
unfolding diff_offset
take-diff_offset [] b = refl
take-diff_offset (x ∷ a) [] = refl
take-diff_offset (x ∷ a) (y ∷ b) = ground (arith, take-diff_offset a b)

take-append-drop : (n : ℕ) (xs : Bytes) → take n xs ++ drop n xs ≡ xs
take-append-drop zero xs = refl
take-append-drop (suc n) [] = refl
take-append-drop (suc n) (x ∷ xs) = rw (take-append-drop n xs)

length-drop : (n : ℕ) (xs : Bytes) → length (drop n xs) ≡ length xs - n
length-drop zero xs = omega arith
length-drop (suc n) [] = omega arith
length-drop (suc n) (x ∷ xs) = omega (arith, length-drop n xs)

-- The tests of the decoder on lengths that were written by the encoder.
in_range :
    (shared n l : ℕ)
    → n < 2 ^ 63
    → shared ≤ n
    → shared ≤ l
    → (ltb (2 ^ 63 - 1) n || (ltb n shared || ltb l shared)) ≡ false
in_range shared n l h p q = ground arith

-- A key shorter than 2 ^ 63 that the delta encoder wrote after the key `last` is read back by a
-- decoder whose last key is the same, and what follows it in the stream is left.
pub decode_key-encode_key :
    (last key rest : Bytes)
    → length key < 2 ^ 63
    → decode_key last (encode_key last key ++ rest) ≡ ok (key, rest)
unfolding decode_key encode_key
decode_key-encode_key last key rest h =
    let shared = diff_offset last key in
    let tail = drop shared key in
    let (p, q) = diff_offset-le last key in
    let two = put_uvarint (length key - shared) ++ tail in
    let e : (shared + (length key - shared)) % 2 ^ 64 ≡ length key = omega arith in
    rw
      (
        append_assoc (put_uvarint shared) two rest,
        read_uvarint-put_uvarint shared (two ++ rest) (omega arith),
      )
      (rw
        (
          append_assoc (put_uvarint (length key - shared)) tail rest,
          read_uvarint-put_uvarint (length key - shared) (tail ++ rest) (omega arith),
        )
        (rw
          (
            e,
            in_range shared (length key) (length last) h q p,
            ← length-drop shared key,
            read_full-append tail rest,
          )
          (rw (take-diff_offset last key, take-append-drop shared key))))

-- Every key is written in two bytes or more.
length-encode_key : (last key : Bytes) → 2 ≤ length (encode_key last key)
unfolding encode_key
length-encode_key last key =
    let shared = diff_offset last key in
    let two = put_uvarint (length key - shared) ++ drop shared key in
    omega (
      arith,
      length-append (put_uvarint shared) two,
      length-append (put_uvarint (length key - shared)) (drop shared key),
      length-put_uvarint shared,
      length-put_uvarint (length key - shared),
    )

-- At the end of the stream the chunk ends.
pub next_key-nil : (last : Bytes) → next_key last [] ≡ ok none
unfolding next_key decode_key read_uvarint
next_key-nil last = refl

pub next_key-encode_key :
    (last key rest : Bytes)
    → length key < 2 ^ 63
    → next_key last (encode_key last key ++ rest) ≡ ok (some (key, rest))
unfolding next_key
next_key-encode_key last key rest h = rw (decode_key-encode_key last key rest h, next_key)

-- Keys shorter than 2 ^ 63, written one after the other by the delta encoder from any last key,
-- are read back in their order by the chunk's stream from the same last key, in more rounds than
-- the chunk has bytes.
pub decode_chunk-encode_chunk :
    (keys : List Bytes) (last : Bytes) (n : ℕ)
    → All (λ key. length key < 2 ^ 63) keys
    → length (encode_chunk last keys) < n
    → decode_chunk n last (encode_chunk last keys) ≡ ok keys
unfolding decode_chunk encode_chunk
decode_chunk-encode_chunk keys last zero h f = absurd (omega arith)
decode_chunk-encode_chunk [] last (suc n) h f = rw (next_key-nil last, decode_chunk)
decode_chunk-encode_chunk (key ∷ keys) last (suc n) (hk, h) f =
    let rest = encode_chunk key keys in
    let fuel : length rest < n =
      omega (arith, length-append (encode_key last key) rest, length-encode_key last key) in
    rw (next_key-encode_key last key rest hk, decode_chunk)
      (rw (decode_chunk-encode_chunk keys key n h fuel))
