-- ===== src/Versiondb/Keys/Increment.antt =====
-- `cpIncr` adds one to the big-endian number that a slice stands for.
use store.Prelude.{
  ℕ, suc, ◌+◌, ◌*◌, ◌^◌, ◌<◌, [], ◌∷◌, Option, none, some, Bool, true, false, ◌≡◌, ◌≢◌, refl, arith,
  length, All, ltb, Bool-cases, inl, inr, if◌then◌else◌,
}
use store.Bytes.{Bytes}
use store.Versiondb.Keys.{increment, increment_byte, cp_incr}

unfoldable pub big_endian : Bytes → ℕ
big_endian [] = 0
big_endian (b ∷ bz) = b * 256 ^ length bz + big_endian bz

pow_suc : (n : ℕ) → 256 ^ suc n ≡ 256 * 256 ^ n
pow_suc n = omega arith

-- What the loop has made of `bz`; a carry out stands for 256 to the length.
abbrev IsIncrement : Bytes → Bytes × Bool → Type 0
IsIncrement bz r =
    All (λ b. b < 256) r.0
    × (length r.0 ≡ length bz)
    × (big_endian r.0 + (if r.1 then 256 ^ length bz else 0) ≡ big_endian bz + 1)

increment_byte_lem :
    (b : ℕ) (bz : Bytes) (r : Bytes × Bool)
    → b < 256
    → IsIncrement bz r
    → IsIncrement (b ∷ bz) (increment_byte b r)
unfolding increment_byte big_endian
increment_byte_lem b bz (ret, true) h (k, l, e) = elim (Bool-cases (ltb b 255)) [
  | inl p ↦ rw p ((ground arith, k), omega arith, rw l (omega (arith, pow_suc (length bz))))
  | inr p ↦
      let full : b ≡ 255 = ground arith in
      rw p ((omega arith, k), omega arith, rw (l, full) (omega (arith, pow_suc (length bz))))
]
increment_byte_lem b bz (ret, false) h (k, l, e) = ((h, k), omega arith, rw l (omega arith))

increment_lem : (bz : Bytes) → All (λ b. b < 256) bz → IsIncrement bz (increment bz)
unfolding increment big_endian
increment_lem [] h = (tt, refl, omega arith)
increment_lem (b ∷ bz) (hb, h) = increment_byte_lem b bz (increment bz) hb (increment_lem bz h)

-- What `cpIncr` promises of a slice: bytes of the next number, as many as before, or nil when
-- the next number needs one byte more.
abbrev pub IsNext : Bytes → Option Bytes → Type 0
IsNext bz none = big_endian bz + 1 ≡ 256 ^ length bz
IsNext bz (some ret) =
    All (λ b. b < 256) ret × (length ret ≡ length bz) × (big_endian ret ≡ big_endian bz + 1)

big_endian-lt : (bz : Bytes) → All (λ b. b < 256) bz → big_endian bz < 256 ^ length bz
unfolding big_endian
big_endian-lt [] h = omega arith
big_endian-lt (b ∷ bz) (hb, h) = grind (arith, big_endian-lt bz h, pow_suc (length bz))

-- On a non-empty slice of bytes `cpIncr` returns, and its result either is the next big-endian
-- number, in as many elements that are bytes again, or is nil, and then the next number is 256
-- to the length of the slice, so that as many bytes have no next one.
pub cp_incr-IsNext :
    (bz : Bytes)
    → All (λ b. b < 256) bz
    → bz ≢ []
    → (r : Option Bytes) × (cp_incr bz ≡ some r) × IsNext bz r
unfolding cp_incr
cp_incr-IsNext [] h n = absurd (n refl)
cp_incr-IsNext (b ∷ bz) h n =
    go (increment (b ∷ bz)).0 (increment (b ∷ bz)).1 (increment_lem (b ∷ bz) h)
  where
    go :
        (ret : Bytes) (carry : Bool)
        → IsIncrement (b ∷ bz) (ret, carry)
        → (r : Option Bytes) × ((if carry then some none else some (some ret)) ≡ some r)
          × IsNext (b ∷ bz) r
    go ret true (k, l, e) = (none, refl, omega (arith, big_endian-lt (b ∷ bz) h))
    go ret false (k, l, e) = (some ret, refl, (k, l, omega arith))
