-- ===== src/Memory.antt =====
-- The address space of the target, as a function from addresses to bytes, and the functions of
-- string.h that the loader calls, over it. A word is stored with its lowest byte first.
pub mod Laws
use udynlink.Prelude.{
  ℕ, zero, suc, ◌+◌, ◌-◌, ◌*◌, ◌/◌, ◌%◌, ◌^◌, ◌<◌, compare, Ordering, Bool, true, false, ◌&&◌, List,
  [], ◌∷◌, ltb, leb, ◌==◌, if◌then◌else◌, u8,
}

abbrev pub Memory : Type 0
Memory = ℕ → ℕ

-- Every cell holds a byte.
abbrev pub IsBytes : Memory → Type 0
IsBytes m = (a : ℕ) → m a < 256

unfoldable pub write8 : Memory → ℕ → ℕ → Memory
write8 m p v a = if a == p then u8 v else m a

unfoldable pub read16 : Memory → ℕ → ℕ
read16 m p = m p + m (p + 1) * 2 ^ 8

unfoldable pub read32 : Memory → ℕ → ℕ
read32 m p = m p + m (p + 1) * 2 ^ 8 + m (p + 2) * 2 ^ 16 + m (p + 3) * 2 ^ 24

unfoldable pub write32 : Memory → ℕ → ℕ → Memory
write32 m p v a =
    if a == p
    then v % 256
    else if a == p + 1
    then v / 2 ^ 8 % 256
    else if a == p + 2
    then v / 2 ^ 16 % 256
    else if a == p + 3
    then v / 2 ^ 24 % 256
    else m a

unfoldable pub memcpy : Memory → ℕ → ℕ → ℕ → Memory
memcpy m dst src n a = if leb dst a && ltb a (dst + n) then m (src + (a - dst)) else m a

unfoldable pub memset : Memory → ℕ → ℕ → ℕ → Memory
memset m dst v n a = if leb dst a && ltb a (dst + n) then v else m a

-- `strcmp` of the text at `p` with a text that the caller holds, given by its characters. The
-- characters are not 0, so the walk stops at the end of the shorter text.
unfoldable pub strcmp : Memory → ℕ → List ℕ → Ordering
strcmp m p [] = compare (m p) 0
strcmp m p (c ∷ cs) =
    let rest = strcmp m (p + 1) cs in
    elim (compare (m p) c) [ Ordering.lt ↦ Ordering.lt | Ordering.gt ↦ Ordering.gt | _ ↦ rest ]

-- `strncmp` of two texts in memory.
unfoldable pub strncmp : Memory → ℕ → ℕ → ℕ → Ordering
strncmp m p q zero = Ordering.eq
strncmp m p q (suc n) =
    let rest = if m p == 0 then Ordering.eq else strncmp m (p + 1) (q + 1) n in
    elim (compare (m p) (m q)) [ Ordering.lt ↦ Ordering.lt | Ordering.gt ↦ Ordering.gt | _ ↦ rest ]

-- Whether `memchr(p, 0, n)` finds a NUL.
unfoldable pub has_nul : Memory → ℕ → ℕ → Bool
has_nul m p zero = false
has_nul m p (suc n) = let rest = has_nul m (p + 1) n in if m p == 0 then true else rest
