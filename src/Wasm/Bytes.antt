-- ===== src/Wasm/Bytes.antt =====
-- The memory functions that the runtime brings along, udynlink/wasm2c_runtime/wasm-rt-udynlink.c: the
-- loops over the bytes do what the functions of string.h promise, `memmove` for blocks that overlap.
use udynlink.Prelude.{
  ℕ, zero, suc, ◌+◌, ◌-◌, ◌≡◌, ◌≤◌, ◌⊎◌, arith, ◌&&◌, Bool-cases, inl, inr, ltb, leb, ◌==◌,
  if◌then◌else◌, u8,
}
use native.Mathlib.Decide.{ℕ_discrete}
use udynlink.Memory.{Memory, IsBytes, write8, memcpy}

-- `while (n--) *d++ = *s++`.
unfoldable pub copy_up : Memory → ℕ → ℕ → ℕ → Memory
copy_up m d s zero = m
copy_up m d s (suc n) = copy_up (write8 m d (m s)) (d + 1) (s + 1) n

-- `d += n; s += n; while (n--) *--d = *--s`, before the two additions.
unfoldable pub copy_down : Memory → ℕ → ℕ → ℕ → Memory
copy_down m d s zero = m
copy_down m d s (suc n) = copy_down (write8 m (d + n) (m (s + n))) d s n

-- `memmove`.
unfoldable pub memmove : Memory → ℕ → ℕ → ℕ → Memory
unfolding copy_up copy_down
memmove m d s n = if ltb d s then copy_up m d s n else if ltb s d then copy_down m d s n else m

-- `memset` from the byte at `p` on.
unfoldable pub fill_up : Memory → ℕ → ℕ → ℕ → Memory
fill_up m p c zero = m
fill_up m p c (suc n) = fill_up (write8 m p (u8 c)) (p + 1) c n

-- `memcmp`, with the two bytes whose difference is the result, both 0 where the blocks are equal.
unfoldable pub compare_bytes : Memory → ℕ → ℕ → ℕ → ℕ × ℕ
compare_bytes m p q zero = (0, 0)
compare_bytes m p q (suc n) =
    let rest = compare_bytes m (p + 1) (q + 1) n in if m p == m q then rest else (m p, m q)

write8-IsBytes : (m : Memory) (p v : ℕ) → IsBytes m → IsBytes (write8 m p v)
unfolding write8
write8-IsBytes m p v bytes a = ground (arith, bytes a)

-- Upwards, the blocks may overlap when the target begins first.
pub copy_up_lem :
    (n : ℕ) (m : Memory) (d s a : ℕ)
    → IsBytes m
    → (d ≤ s) ⊎ (s + n ≤ d)
    → copy_up m d s n a ≡ memcpy m d s n a
unfolding copy_up memcpy write8
copy_up_lem zero m d s a bytes apart = ground arith
copy_up_lem (suc n) m d s a bytes apart =
    let after = write8 m d (m s) in
    let rest =
      copy_up_lem n after (d + 1) (s + 1) a (write8-IsBytes m d (m s) bytes)
        (ground (arith, apart)) in
    elim (Bool-cases (leb (d + 1) a && ltb a (d + 1 + n))) [
      | inl later ↦
          let same : s + 1 + (a - (d + 1)) ≡ s + (a - d) = ground (arith, later) in
          let kept : after (s + (a - d)) ≡ m (s + (a - d)) = ground (arith, later, apart) in
          ground (arith, rest, later, same, kept)
      | inr other ↦ elim (ℕ_discrete a d) [
        | yes first ↦
            let same : s + (a - d) ≡ s = omega (arith, first) in
            ground (arith, rest, other, first, same, bytes s)
        | no out ↦ ground (arith, rest, other, out)
      ]
    ]

-- Downwards, when it begins last.
copy_down_lem :
    (n : ℕ) (m : Memory) (d s a : ℕ) → IsBytes m → s ≤ d → copy_down m d s n a ≡ memcpy m d s n a
unfolding copy_down memcpy write8
copy_down_lem zero m d s a bytes apart = ground arith
copy_down_lem (suc n) m d s a bytes apart =
    let after = write8 m (d + n) (m (s + n)) in
    let rest = copy_down_lem n after d s a (write8-IsBytes m (d + n) (m (s + n)) bytes) apart in
    elim (Bool-cases (leb d a && ltb a (d + n))) [
      | inl before ↦
          let kept : after (s + (a - d)) ≡ m (s + (a - d)) = ground (arith, before, apart) in
          ground (arith, rest, before, kept)
      | inr other ↦ elim (ℕ_discrete a (d + n)) [
        | yes last ↦
            let same : s + (a - d) ≡ s + n = omega (arith, last) in
            ground (arith, rest, other, last, same, bytes (s + n))
        | no out ↦ ground (arith, rest, other, out)
      ]
    ]

-- `memmove` leaves in the target what stood in the source, and nothing else is written, however the
-- two blocks overlap, in a memory of bytes.
pub memmove-memcpy : (m : Memory) (d s n a : ℕ) → IsBytes m → memmove m d s n a ≡ memcpy m d s n a
unfolding memmove memcpy
memmove-memcpy m d s n a bytes = elim (Bool-cases (ltb d s)) [
  | inl up ↦ rw up (copy_up_lem n m d s a bytes (inl (ground (arith, up))))
  | inr not_up ↦ elim (Bool-cases (ltb s d)) [
    | inl down ↦ rw (not_up, down) (copy_down_lem n m d s a bytes (ground (arith, down)))
    | inr same ↦
        let equal : d ≡ s = ground (arith, not_up, same) in
        rw (not_up, same)
          (elim (Bool-cases (leb d a && ltb a (d + n))) [
            | inl within ↦
                let here : s + (a - d) ≡ a = ground (arith, within, equal) in
                ground (arith, within, here)
            | inr out ↦ ground (arith, out)
          ])
  ]
]
