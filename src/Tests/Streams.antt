-- ===== src/Tests/Streams.antt =====
-- The codecs, the key ranges and the query cache at small inputs.
use store.Prelude.{◌<◌, Option, none, some, List, [], ◌∷◌, ◌++◌, ◌≡◌, refl, arith, length, ◌↔◌}
use Prim.Native.Nat.{Ordering}
use store.Bytes.{Bytes, compare_bytes}
use store.Binary.{ok, put_uvarint}
use store.Extsort.Delta.{encode_key, decode_key, encode_chunk, decode_chunk, diff_offset}
use store.Extsort.Delta.RoundTrip.{decode_key-encode_key, decode_chunk-encode_chunk}
use store.Versiondb.Keys.{iterator_range, range, prepend_store_key, cp_incr}
use store.Versiondb.Keys.Range.{InRange, iterator_range_exact}
use store.Versiondb.Comparator.{compare_keys}
use store.Versiondb.Comparator.Order.{at_version, compare_newer, compare_keys-at_version}
use store.Versiondb.Keys.Increment.{IsNext, cp_incr-IsNext}

-- The second key shares two bytes with the first.
abbrev two_keys : List Bytes
two_keys = (1 ∷ 2 ∷ 3 ∷ []) ∷ (1 ∷ 2 ∷ 4 ∷ 5 ∷ []) ∷ []

chunk_short : length (encode_chunk [] two_keys) < 12
unfolding encode_chunk encode_key put_uvarint diff_offset
chunk_short = omega arith

decode_chunk_example : decode_chunk 12 [] (encode_chunk [] two_keys) ≡ ok two_keys
decode_chunk_example =
    decode_chunk-encode_chunk two_keys [] 12 (omega arith, (omega arith, tt)) chunk_short

decode_key_example :
    decode_key (1 ∷ 2 ∷ []) (encode_key (1 ∷ 2 ∷ []) (1 ∷ 3 ∷ []) ++ (7 ∷ []))
    ≡ ok (1 ∷ 3 ∷ [], 7 ∷ [])
decode_key_example = decode_key-encode_key (1 ∷ 2 ∷ []) (1 ∷ 3 ∷ []) (7 ∷ []) (omega arith)

iterator_range_example :
    (from : Option Bytes) × (to : Option Bytes) × (iterator_range (98 ∷ []) none (some (7 ∷ []))
      ≡ range from to)
    × ((x : Bytes)
        → InRange from to x
          ↔ ((k : Bytes) × (x ≡ prepend_store_key (98 ∷ []) k) × InRange none (some (7 ∷ [])) k))
iterator_range_example = iterator_range_exact (98 ∷ []) none (some (7 ∷ [])) refl

cp_incr_example : (r : Option Bytes) × (cp_incr (1 ∷ 255 ∷ []) ≡ some r) × IsNext (1 ∷ 255 ∷ []) r
cp_incr_example = cp_incr-IsNext (1 ∷ 255 ∷ []) (omega arith, (omega arith, tt)) (λ e. cc)

-- The newer version of the same key comes first.
compare_keys-at_version_example :
    compare_keys (at_version (7 ∷ []) 300) (at_version (7 ∷ []) 299) ≡ some Ordering.lt
unfolding compare_newer compare_bytes
compare_keys-at_version_example =
    compare_keys-at_version (7 ∷ []) (7 ∷ []) 300 299 (omega arith) (omega arith)
