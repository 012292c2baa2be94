-- ===== src/Resolvers/HashTable/Bloom.antt =====
-- The Bloom filter of udynlink/udynlink_hash.h, read bit by bit.
use udynlink.Prelude.{
  ℕ, zero, suc, ◌+◌, ◌-◌, ◌*◌, ◌/◌, ◌%◌, ◌^◌, ◌≡◌, ◌<◌, ◌≤◌, refl, arith, bit_and, bit_or, true,
  sub32, bit_and_step, bit_or_step, bit_and-zero, bit_and_mask,
}
use Prim.Native.Nat.{max}
use native.Mathlib.Nat.{pow-suc, one-le-pow}
use udynlink.Resolvers.HashTable.{HashTable, bloom_mask, in_bloom}

-- The bit of a word at an index.
unfoldable pub bit_at : ℕ → ℕ → ℕ
bit_at zero w = w % 2
bit_at (suc i) w = bit_at i (w / 2)

-- The filter has both bits of a hash, in the word that its upper bits choose.
pub record InFilter (table : HashTable) (h : ℕ) : Type 0 where
  pub first : bit_at (h % 32) (table.bloom (h / 32 % table.bloom_size)) ≡ 1
  pub second : bit_at (h / 2 ^ table.bloom_shift % 32) (table.bloom (h / 32 % table.bloom_size)) ≡ 1

covers_bit : (i w : ℕ) → bit_at i w ≡ 1 → bit_and w (2 ^ i) ≡ 2 ^ i
unfolding bit_at
covers_bit zero w e = omega (arith, bit_and_step w 1, bit_and-zero (w / 2))
covers_bit (suc i) w e =
    let half : 2 ^ suc i / 2 ≡ 2 ^ i = omega (arith, pow-suc 2 i) in
    let even : 2 ^ suc i % 2 ≡ 0 = omega (arith, pow-suc 2 i) in
    let rest = covers_bit i (w / 2) e in
    let step = bit_and_step w (2 ^ suc i) in
    omega (arith, rw (half, even) at step, rest, pow-suc 2 i)

covers_or :
    (n w x y : ℕ)
    → x ≤ n
    → y ≤ n
    → bit_and w x ≡ x
    → bit_and w y ≡ y
    → bit_and w (bit_or x y) ≡ bit_or x y
covers_or zero w x y small small' e e' =
    let none_left : bit_or x y ≡ 0 =
      let nil : x ≡ 0 = omega arith in let nil' : y ≡ 0 = omega arith in rw (nil, nil') refl in
    rw none_left (bit_and-zero w)
covers_or (suc n) w x y small small' e e' =
    let lower = bit_and_step w x in
    let lower' = bit_and_step w y in
    let digits = bit_or_step x y in
    let half : bit_or x y / 2 ≡ bit_or (x / 2) (y / 2) = omega arith in
    let digit : bit_or x y % 2 ≡ max (x % 2) (y % 2) = omega arith in
    let rest =
      covers_or n (w / 2) (x / 2) (y / 2) (omega arith) (omega arith) (omega arith) (omega arith) in
    let step = bit_and_step w (bit_or x y) in omega (arith, rw (half, digit) at step, rest)

-- Then the filter lets the hash through.
pub in_bloom-InFilter :
    (table : HashTable) (h k : ℕ)
    → table.bloom_size ≡ 2 ^ k
    → table.bloom_size < 2 ^ 32
    → InFilter table h
    → in_bloom table h ≡ true
unfolding in_bloom bloom_mask
in_bloom-InFilter table h k size small filter =
    let word = table.bloom (h / 32 % table.bloom_size) in
    let index : bit_and (h / 32) (sub32 table.bloom_size 1) ≡ h / 32 % table.bloom_size =
      let minus : sub32 (2 ^ k) 1 ≡ 2 ^ k - 1 = ground (arith, one-le-pow k 2, size) in
      rw (size, minus) (bit_and_mask k (h / 32)) in
    let first = covers_bit (h % 32) word filter.first in
    let second = covers_bit (h / 2 ^ table.bloom_shift % 32) word filter.second in
    let x = 2 ^ (h % 32) in
    let y = 2 ^ (h / 2 ^ table.bloom_shift % 32) in
    let both = covers_or (x + y) word x y (omega arith) (omega arith) first second in
    let mask : bloom_mask table h ≡ bit_or x y =
      let one : 1 * x ≡ x = omega arith in
      let one' : 1 * y ≡ y = omega arith in rw (one, one') refl in
    let through : bit_and (table.bloom (bit_and (h / 32) (sub32 table.bloom_size 1)))
          (bloom_mask table h)
        ≡ bloom_mask table h =
      rw (index, mask) both in
    ground (arith, through)
