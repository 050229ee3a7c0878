-- ===== src/Memiavl/Snapshot/Scan/Slices.antt =====
-- What was written at an offset is read there.
use store.Prelude.{
  ℕ, ◌+◌, ◌^◌, ◌<◌, some, [], ◌∷◌, ◌++◌, append_assoc, length, length-append, take, drop, leb, ◌≡◌,
  refl, sym, ap, ◌∙◌, true, arith,
}
use store.Bytes.{Bytes}
use store.Memiavl.Snapshot.{put_uint32}
use store.Memiavl.Snapshot.Scan.{uint32_at, slice_at, key_value_at, leaf_key, leaf_key_value}

drop-append : (xs ys : Bytes) → drop (length xs) (xs ++ ys) ≡ ys
drop-append [] ys = refl
drop-append (x ∷ xs) ys = drop-append xs ys

take-append : (xs ys : Bytes) → take (length xs) (xs ++ ys) ≡ xs
take-append [] ys = refl
take-append (x ∷ xs) ys = ap (◌∷◌ x) (take-append xs ys)

uint32_at-put_uint32 :
    (offset n : ℕ) (front rest : Bytes)
    → offset ≡ length front
    → n < 2 ^ 32
    → uint32_at offset (front ++ (put_uint32 n ++ rest)) ≡ some n
unfolding uint32_at
uint32_at-put_uint32 offset n front rest e h =
    rw (e, drop-append front (put_uint32 n ++ rest), uint32_at)
      (unfold put_uint32 in ap some (omega arith))

slice_at-append :
    (offset n : ℕ) (front x rest : Bytes)
    → offset ≡ length front
    → n ≡ length x
    → slice_at offset n (front ++ (x ++ rest)) ≡ some x
unfolding slice_at
slice_at-append offset n front x rest e f =
    let fits : leb (length front + length x) (length (front ++ (x ++ rest))) ≡ true =
      ground (arith, length-append front (x ++ rest), length-append x rest) in
    rw (e, f, fits, drop-append front (x ++ rest), take-append x rest) refl

-- The bytes of a key and a value.
unfoldable pub kv_bytes : Bytes → Bytes → Bytes
kv_bytes key value = put_uint32 (length key) ++ (key ++ (put_uint32 (length value) ++ value))

module _ (offset : ℕ) (key value front rest : Bytes) where
  abbrev whole : Bytes
  whole = front ++ (kv_bytes key value ++ rest)

  split1 :
      whole
      ≡ front
        ++ (put_uint32 (length key) ++ (key ++ (put_uint32 (length value) ++ (value ++ rest))))
  unfolding kv_bytes
  split1 =
      rw
        (
          append_assoc (put_uint32 (length key)) (key ++ (put_uint32 (length value) ++ value)) rest,
          append_assoc key (put_uint32 (length value) ++ value) rest,
          append_assoc (put_uint32 (length value)) value rest,
        )
        refl

  abbrev front2 : Bytes
  front2 = front ++ put_uint32 (length key)

  split2 : whole ≡ front2 ++ (key ++ (put_uint32 (length value) ++ (value ++ rest)))
  split2 =
      split1
      ∙ sym (
          append_assoc front (put_uint32 (length key))
            (key ++ (put_uint32 (length value) ++ (value ++ rest))))

  abbrev front3 : Bytes
  front3 = front2 ++ key

  split3 : whole ≡ front3 ++ (put_uint32 (length value) ++ (value ++ rest))
  split3 = split2 ∙ sym (append_assoc front2 key (put_uint32 (length value) ++ (value ++ rest)))

  abbrev front4 : Bytes
  front4 = front3 ++ put_uint32 (length value)

  split4 : whole ≡ front4 ++ (value ++ rest)
  split4 = split3 ∙ sym (append_assoc front3 (put_uint32 (length value)) (value ++ rest))

  length-front2 : length front2 ≡ length front + 4
  length-front2 = length-append front (put_uint32 (length key)) ∙ unfold put_uint32 in refl

  length-front3 : length front3 ≡ length front + 4 + length key
  length-front3 = omega (arith, length-append front2 key, length-front2)

  length-front4 : length front4 ≡ length front + 4 + length key + 4
  length-front4 =
      length-append front3 (put_uint32 (length value))
      ∙ unfold put_uint32 in omega (arith, length-front3)

  module _ (e : offset ≡ length front) (k : length key < 2 ^ 32) (v : length value < 2 ^ 32) where
    first_length : uint32_at offset whole ≡ some (length key)
    first_length =
        ap (uint32_at offset) split1 ∙ uint32_at-put_uint32 offset (length key) front _ e k

    the_key : slice_at (offset + 4) (length key) whole ≡ some key
    the_key =
        ap (slice_at (offset + 4) (length key)) split2
        ∙ slice_at-append (offset + 4) (length key) front2 key _ (omega (arith, length-front2)) refl

    second_length : uint32_at (offset + 4 + length key) whole ≡ some (length value)
    second_length =
        ap (uint32_at (offset + 4 + length key)) split3
        ∙ uint32_at-put_uint32 (offset + 4 + length key) (length value) front3 _
            (omega (arith, length-front3)) v

    the_value : slice_at (offset + 4 + length key + 4) (length value) whole ≡ some value
    the_value =
        ap (slice_at (offset + 4 + length key + 4) (length value)) split4
        ∙ slice_at-append (offset + 4 + length key + 4) (length value) front4 value rest
            (omega (arith, length-front4)) refl

    pub key_value_at_lem : key_value_at offset whole ≡ some (key, value)
    unfolding key_value_at
    key_value_at_lem = rw (first_length, the_key, second_length, the_value) refl

    pub leaf_key_lem :
        (version : ℕ) (hash : Bytes)
        → leaf_key
            (record {
              version = version;
              key_length = length key;
              key_offset = offset;
              hash = hash;
            })
            whole
          ≡ some key
    unfolding leaf_key
    leaf_key_lem version hash = the_key

    pub leaf_key_value_lem :
        (version : ℕ) (hash : Bytes)
        → leaf_key_value
            (record {
              version = version;
              key_length = length key;
              key_offset = offset;
              hash = hash;
            })
            whole
          ≡ some (key, value)
    unfolding leaf_key_value
    leaf_key_value_lem version hash = rw (the_key, second_length, the_value) refl
