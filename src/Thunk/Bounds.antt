-- ===== src/Thunk/Bounds.antt =====
-- The pool of udynlink/udynlink_thunk.c stays within its buffer: stubs below gateways.
use udynlink.Prelude.{
  ℕ, ◌+◌, ◌-◌, ◌/◌, ◌%◌, ◌^◌, ◌≤◌, ◌<◌, ◌≡◌, refl, arith, true, false, some, none, bit_or,
  Bool-cases, List, [], ◌∷◌, length, ◌⊎◌, inl, inr, ltb, ◌==◌, if◌then◌else◌, add32,
}
use udynlink.Memory.{Memory, write8}
use udynlink.Thunk.Encoding.{encode_mov_imm_outside, write16_outside}
use udynlink.Thunk.{
  write_bytes, gateway_template, encode_mov_imm, encode_b_n, branch_offset, Pool, gateway_size,
  stub_size, pool_init, alloc, alloc_gateway, alloc_stub, stub_result, write_stub, write_gateway,
}

-- Stubs end at or below the lowest gateway, which lies in the region. The region keeps clear of the
-- last 64 KiB of the address space, and its base is word aligned unless nothing of it is left.
pub record IsPool (p : Pool) : Type 0 where
  pub ordered : p.used ≤ p.gateway_top
  pub inside : p.gateway_top ≤ p.size
  pub addressable : p.base + p.size + 2 ^ 16 ≤ 2 ^ 32
  pub aligned : (p.size ≡ 0) ⊎ (p.base % 4 ≡ 0)

-- `pool_init` gives an empty, well-formed pool inside the buffer that it is handed, a buffer of any
-- alignment and size that keeps clear of the end of the address space.
pub pool_init-IsPool :
    (buf sz : ℕ)
    → buf + sz + 2 ^ 16 ≤ 2 ^ 32
    → let p = pool_init buf sz in
      IsPool p
      × (buf ≤ p.base)
      × (p.base + p.size ≤ buf + sz)
      × (p.gateway_top ≡ p.size)
      × (p.used ≡ 0)
unfolding pool_init
pool_init-IsPool buf sz h = ground arith

module _ (p : Pool) (v : IsPool p) where
  alloc_lem :
      (n : ℕ)
      → n < 2 ^ 16
      → alloc p n ≡ (
          if ltb p.gateway_top (p.used + n)
          then none
          else some (p.base + p.used, record p { used = p.used + n }))
  unfolding alloc
  alloc_lem n small = let e : add32 p.used n ≡ p.used + n = omega arith in rw e refl

  -- What `alloc_stub` returns, by its two failures and its success.
  pub alloc_stub_full :
      (m : Memory) (f g : ℕ)
      → ltb p.gateway_top (p.used + stub_size) ≡ true
      → alloc_stub m p f g ≡ (0, m, p)
  unfolding alloc_stub
  alloc_stub_full m f g full = rw (alloc_lem stub_size (omega arith), full, alloc_stub)

  pub alloc_stub_room :
      (m : Memory) (f g : ℕ)
      → ltb p.gateway_top (p.used + stub_size) ≡ false
      → alloc_stub m p f g
        ≡ stub_result
            (record p { used = p.used + stub_size })
            (p.base + p.used)
            (write_stub m (p.base + p.used) f g)
  unfolding alloc_stub
  alloc_stub_room m f g room = rw (alloc_lem stub_size (omega arith), room, alloc_stub)

-- A stub is written only below its tenth byte.
pub write_stub_outside :
    (m : Memory) (dst f g a : ℕ)
    → (a < dst) ⊎ (dst + stub_size ≤ a)
    → (write_stub m dst f g).1 a ≡ m a
unfolding write_stub encode_b_n
write_stub_outside m dst f g a h = ground (
  arith,
  encode_mov_imm_outside m dst 12 (f % 2 ^ 16) false a,
  encode_mov_imm_outside (encode_mov_imm m dst 12 (f % 2 ^ 16) false) (dst + 4) 12
      (f / 2 ^ 16 % 2 ^ 16) true a,
  write16_outside
      (encode_mov_imm (encode_mov_imm m dst 12 (f % 2 ^ 16) false) (dst + 4) 12
        (f / 2 ^ 16 % 2 ^ 16) true)
      (dst + 8) (bit_or 0xE000 (branch_offset dst g % 2 ^ 11)) a,
)

-- What `alloc_stub` promises of its result, at the pool `p` and the memory `m` before.
abbrev pub IsStubAlloc : Memory → Pool → ℕ × Memory × Pool → Type 0
IsStubAlloc m p (s, m', p') =
    IsPool p'
    × ((a : ℕ) → (a < p.base + p.used) ⊎ (p.base + p.used + stub_size ≤ a) → m' a ≡ m a)
    × (((s ≡ 0) × (p' ≡ p))
        ⊎ ((s ≡ bit_or (p.base + p.used) 1)
            × (p' ≡ record p { used = p.used + stub_size })
            × (p.used + stub_size ≤ p.gateway_top)))

stub_result-IsStubAlloc :
    (m : Memory) (p : Pool) (written : ℕ) (m' : Memory)
    → IsPool p
    → ltb p.gateway_top (p.used + stub_size) ≡ false
    → ((a : ℕ) → (a < p.base + p.used) ⊎ (p.base + p.used + stub_size ≤ a) → m' a ≡ m a)
    → IsStubAlloc m p
        (stub_result (record p { used = p.used + stub_size }) (p.base + p.used) (written, m'))
unfolding stub_result
stub_result-IsStubAlloc m p written m' v room same = elim (Bool-cases (written == 0)) [
  | inl failed ↦ rw failed (ground arith, same, inl (refl, ground arith))
  | inr done ↦ rw done (ground arith, same, inr (refl, refl, ground arith))
]

-- `alloc_stub` keeps the pool well formed and touches neither the stubs already there nor any
-- gateway: outside of the ten bytes above `used` the memory is as before. On failure the result is
-- 0 and the pool is the old one; on success `used` grows by ten bytes and the result is their
-- address with the Thumb bit.
pub alloc_stub-IsPool :
    (m : Memory) (p : Pool) (f g : ℕ) → IsPool p → IsStubAlloc m p (alloc_stub m p f g)
alloc_stub-IsPool m p f g v = elim (Bool-cases (ltb p.gateway_top (p.used + stub_size))) [
  | inl full ↦ rw (alloc_stub_full p v m f g full) (v, (λ a h. refl), inl (refl, refl))
  | inr room ↦
      rw (alloc_stub_room p v m f g room)
        (stub_result-IsStubAlloc m p _ _ v room (write_stub_outside m (p.base + p.used) f g))
]

write_bytes_outside :
    (bs : List ℕ) (m : Memory) (p a : ℕ)
    → (a < p) ⊎ (p + length bs ≤ a)
    → write_bytes m p bs a ≡ m a
unfolding write_bytes write8
write_bytes_outside [] m p a h = refl
write_bytes_outside (b ∷ bs) m p a h =
    ground (arith, write_bytes_outside bs (write8 m p b) (p + 1) a)

pub write_gateway_outside :
    (m : Memory) (dst r a : ℕ)
    → (a < dst) ⊎ (dst + gateway_size ≤ a)
    → write_gateway m dst r a ≡ m a
unfolding write_gateway
write_gateway_outside m dst r a h = ground (
  arith,
  encode_mov_imm_outside
      (encode_mov_imm (write_bytes m dst gateway_template) (dst + 4) 9 (r % 2 ^ 16) false) (dst + 8)
      9 (r / 2 ^ 16) true a,
  encode_mov_imm_outside (write_bytes m dst gateway_template) (dst + 4) 9 (r % 2 ^ 16) false a,
  write_bytes_outside gateway_template m dst a,
)

-- `alloc_gateway` keeps the pool well formed. It fails exactly when the eighteen bytes below the
-- lowest gateway reach into the stubs; otherwise it hands these bytes out and writes only there.
pub alloc_gateway-IsPool :
    (m : Memory) (p : Pool) (r : ℕ)
    → IsPool p
    → ((alloc_gateway m p r ≡ none) × (p.gateway_top < p.used + gateway_size))
      ⊎ ((g : ℕ) × (m' : Memory) × (p' : Pool) × (alloc_gateway m p r ≡ some (g, m', p'))
          × IsPool p'
          × (g + gateway_size ≡ p.base + p.gateway_top)
          × (p'.used ≡ p.used)
          × (p'.base ≡ p.base)
          × ((a : ℕ) → (a < g) ⊎ (g + gateway_size ≤ a) → m' a ≡ m a))
unfolding alloc_gateway
alloc_gateway-IsPool m p r v =
    let e : add32 p.used gateway_size ≡ p.used + gateway_size = omega arith in
    elim (Bool-cases (ltb p.gateway_top (p.used + gateway_size))) [
      | inl full ↦ rw (e, full) (inl (refl, ground arith))
      | inr room ↦
          rw (e, room)
            (inr (
              p.base + (p.gateway_top - gateway_size),
              write_gateway m (p.base + (p.gateway_top - gateway_size)) r,
              record p { gateway_top = p.gateway_top - gateway_size },
              refl,
              ground arith,
              ground arith,
              refl,
              refl,
              write_gateway_outside m (p.base + (p.gateway_top - gateway_size)) r,
            ))
    ]
