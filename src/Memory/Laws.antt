-- ===== src/Memory/Laws.antt =====
-- What a read gives after a write.
use udynlink.Prelude.{ℕ, ◌+◌, ◌%◌, ◌^◌, ◌≤◌, ◌<◌, ◌≡◌, ◌⊎◌, arith}
use udynlink.Memory.{Memory, IsBytes, read32, write32, memcpy, memset}

pub read32-write32 : (m : Memory) (p v : ℕ) → read32 (write32 m p v) p ≡ v % 2 ^ 32
unfolding read32 write32
read32-write32 m p v = ground arith

pub write32-IsBytes : (m : Memory) (p v : ℕ) → IsBytes m → IsBytes (write32 m p v)
unfolding write32
write32-IsBytes m p v h a = ground (arith, h a)

pub write32_outside : (m : Memory) (p v a : ℕ) → (a < p) ⊎ (p + 4 ≤ a) → write32 m p v a ≡ m a
unfolding write32
write32_outside m p v a h = ground arith

pub read32-lt : (m : Memory) (p : ℕ) → IsBytes m → read32 m p < 2 ^ 32
unfolding read32
read32-lt m p h = omega (arith, h p, h (p + 1), h (p + 2), h (p + 3))

-- A word apart from the one written is unchanged.
pub read32-write32_apart :
    (m : Memory) (p v q : ℕ) → (q + 4 ≤ p) ⊎ (p + 4 ≤ q) → read32 (write32 m p v) q ≡ read32 m q
unfolding read32
read32-write32_apart m p v q h = ground (
  arith,
  write32_outside m p v q,
  write32_outside m p v (q + 1),
  write32_outside m p v (q + 2),
  write32_outside m p v (q + 3),
)

pub memcpy_outside : (m : Memory) (d s n a : ℕ) → (a < d) ⊎ (d + n ≤ a) → memcpy m d s n a ≡ m a
unfolding memcpy
memcpy_outside m d s n a h = ground arith

pub memcpy_inside : (m : Memory) (d s n i : ℕ) → i < n → memcpy m d s n (d + i) ≡ m (s + i)
unfolding memcpy
memcpy_inside m d s n i h = ground arith

pub memset_outside : (m : Memory) (d v n a : ℕ) → (a < d) ⊎ (d + n ≤ a) → memset m d v n a ≡ m a
unfolding memset
memset_outside m d v n a h = ground arith

pub memset_inside : (m : Memory) (d v n i : ℕ) → i < n → memset m d v n (d + i) ≡ v
unfolding memset
memset_inside m d v n i h = ground arith
