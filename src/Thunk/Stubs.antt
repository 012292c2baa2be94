-- ===== src/Thunk/Stubs.antt =====
-- What stands in the pool of udynlink/udynlink_thunk.c after a stub or a gateway was written: the
-- scans find it again.
use udynlink.Prelude.{
  ℕ, suc, ◌+◌, ◌-◌, ◌/◌, ◌%◌, ◌^◌, ◌≤◌, ◌<◌, ◌≡◌, ◌≢◌, refl, arith, true, false, some, inl, inr,
  Bool-cases, ltb, ◌==◌, ==_refl, u32, shr, shl, add32, bit_or, bit_or_fields, bit_or_fields_low,
  bit_or_step, ◌∙◌,
}
use udynlink.Memory.{Memory, read16}
use udynlink.Thunk.{
  Pool, gateway_size, stub_size, alloc_gateway, alloc_stub, stub_result, write_stub, write_gateway,
  encode_mov_imm, branch_offset, decode_mov_ip, stub_matches, find_stub, find_stub_loop,
  gateway_target, find_gateway, find_gateway_loop, decode_mov_imm, write_bytes, gateway_template,
  encode_b_n,
}
use udynlink.Thunk.Encoding.{
  encode_mov_imm_outside, write16_outside, decode_mov_ip-encode_mov_imm,
  decode_mov_imm-encode_mov_imm,
}
use udynlink.Thunk.Bounds.{IsPool, alloc_stub_room, alloc_stub_full}

read16_frame :
    (m m' : Memory) (p : ℕ) → m' p ≡ m p → m' (p + 1) ≡ m (p + 1) → read16 m' p ≡ read16 m p
unfolding read16
read16_frame m m' p h k = omega (arith, h, k)

-- The bytes of the two instructions in front of the branch.
abbrev pub movw_done : Memory → ℕ → ℕ → Memory
movw_done m dst f = encode_mov_imm m dst 12 (f % 2 ^ 16) false

abbrev pub movt_done : Memory → ℕ → ℕ → Memory
movt_done m dst f = encode_mov_imm (movw_done m dst f) (dst + 4) 12 (shr f 16 % 2 ^ 16) true

module _ (m : Memory) (dst f g : ℕ) where
  movt_kept : (a : ℕ) → a < dst + 8 → (write_stub m dst f g).1 a ≡ movt_done m dst f a
  unfolding write_stub encode_b_n
  movt_kept a h = ground (
    arith,
    write16_outside (movt_done m dst f) (dst + 8) (bit_or 0xE000 (branch_offset dst g % 2 ^ 11)) a,
  )

  movw_kept : (a : ℕ) → a < dst + 4 → (write_stub m dst f g).1 a ≡ movw_done m dst f a
  movw_kept a h =
      movt_kept a (omega arith)
      ∙ encode_mov_imm_outside (movw_done m dst f) (dst + 4) 12 (shr f 16 % 2 ^ 16) true a (inl h)

  low_half :
      decode_mov_ip false
        (read16 (write_stub m dst f g).1 dst)
        (read16 (write_stub m dst f g).1 (dst + 2))
      ≡ some (f % 2 ^ 16)
  low_half =
      rw
        (
          read16_frame (movw_done m dst f) (write_stub m dst f g).1 dst
              (movw_kept dst (omega arith)) (movw_kept (dst + 1) (omega arith)),
          read16_frame (movw_done m dst f) (write_stub m dst f g).1 (dst + 2)
              (movw_kept (dst + 2) (omega arith)) (movw_kept (dst + 2 + 1) (omega arith)),
        )
        (decode_mov_ip-encode_mov_imm m dst (f % 2 ^ 16) false (omega arith))

  high_half :
      decode_mov_ip true
        (read16 (write_stub m dst f g).1 (dst + 4))
        (read16 (write_stub m dst f g).1 (dst + 4 + 2))
      ≡ some (shr f 16 % 2 ^ 16)
  high_half =
      rw
        (
          read16_frame (movt_done m dst f) (write_stub m dst f g).1 (dst + 4)
              (movt_kept (dst + 4) (omega arith)) (movt_kept (dst + 4 + 1) (omega arith)),
          read16_frame (movt_done m dst f) (write_stub m dst f g).1 (dst + 4 + 2)
              (movt_kept (dst + 4 + 2) (omega arith)) (movt_kept (dst + 4 + 2 + 1) (omega arith)),
        )
        (decode_mov_ip-encode_mov_imm (movw_done m dst f) (dst + 4) (shr f 16 % 2 ^ 16) true
          (omega arith))

  -- The scan's test accepts a stub for the function that it was written for.
  pub stub_matches-write_stub : f < 2 ^ 32 → stub_matches (write_stub m dst f g).1 dst f ≡ true
  unfolding stub_matches
  stub_matches-write_stub h =
      ground (arith, low_half, high_half, bit_or_fields 16 (shr f 16 % 2 ^ 16) (f % 2 ^ 16))

-- The address with the Thumb bit is never 0.
pub bit_or-one-pos : (a : ℕ) → bit_or a 1 ≢ 0
bit_or-one-pos a = omega (arith, bit_or_step a 1)

-- The first round of the scan looks at the newest stub.
find_stub_newest :
    (m : Memory) (p : Pool) (used f : ℕ)
    → p.used ≡ used + stub_size
    → stub_matches m (p.base + used) f ≡ true
    → find_stub m (some p) f ≡ bit_or (p.base + used) 1
unfolding find_stub find_stub_loop
find_stub_newest m p used f e matches =
    let rounds : p.used / 10 ≡ suc (used / 10) = omega arith in
    let newest : p.used - 10 ≡ used = omega arith in
    let enough : ltb p.used 10 ≡ false = ground arith in
    rw (enough, rounds) (rw (newest, find_stub_loop, matches))

stub_result_found :
    (p : Pool) (used f written : ℕ) (m' : Memory)
    → p.used ≡ used + stub_size
    → stub_matches m' (p.base + used) f ≡ true
    → let (s, m'', p') = stub_result p (p.base + used) (written, m') in
      s ≢ 0 → find_stub m'' (some p') f ≡ s
unfolding stub_result
stub_result_found p used f written m' e matches = elim (Bool-cases (written == 0)) [
  | inl failed ↦ rw failed (λ h. absurd (h refl))
  | inr done ↦ rw done (λ h. find_stub_newest m' p used f e matches)
]

-- In a well-formed pool, right after `alloc_stub` succeeded, `find_stub` gives the new stub for the
-- same 32-bit function address, so a second request for it needs no second stub.
pub find_stub-alloc_stub :
    (m : Memory) (p : Pool) (f g : ℕ)
    → IsPool p
    → f < 2 ^ 32
    → (alloc_stub m p f g).0 ≢ 0
    → find_stub (alloc_stub m p f g).1 (some (alloc_stub m p f g).2) f ≡ (alloc_stub m p f g).0
find_stub-alloc_stub m p f g v small = elim (Bool-cases (ltb p.gateway_top (p.used + stub_size))) [
  | inl full ↦ rw (alloc_stub_full p v m f g full) (λ h. absurd (h refl))
  | inr room ↦ rw (alloc_stub_room p v m f g room) (
      stub_result_found (record p { used = p.used + stub_size }) p.used f
        (write_stub m (p.base + p.used) f g).0 (write_stub m (p.base + p.used) f g).1 refl
        (stub_matches-write_stub m (p.base + p.used) f g small))
]

decode_mov_imm_frame :
    (m m' : Memory) (p : ℕ)
    → ((a : ℕ) → a < p + 4 → m' a ≡ m a)
    → decode_mov_imm m' p ≡ decode_mov_imm m p
unfolding decode_mov_imm
decode_mov_imm_frame m m' p h = rw (
  read16_frame m m' p (h p (omega arith)) (h (p + 1) (omega arith)),
  read16_frame m m' (p + 2) (h (p + 2) (omega arith)) (h (p + 2 + 1) (omega arith)),
)

module _ (m : Memory) (dst r : ℕ) where
  abbrev low_done : Memory
  low_done = encode_mov_imm (write_bytes m dst gateway_template) (dst + 4) 9 (r % 2 ^ 16) false

  -- A gateway loads the base that it was written for.
  gateway_target-write_gateway : r < 2 ^ 32 → gateway_target (write_gateway m dst r) dst ≡ r
  unfolding gateway_target write_gateway
  gateway_target-write_gateway h =
      rw
        (
          decode_mov_imm_frame low_done (write_gateway m dst r) (dst + 4) low_kept,
          decode_mov_imm-encode_mov_imm (write_bytes m dst gateway_template) (dst + 4) 9
              (r % 2 ^ 16) false (omega arith),
          decode_mov_imm-encode_mov_imm low_done (dst + 8) 9 (shr r 16) true (omega arith),
          fits,
          bit_or_fields_low 16 (shr r 16) (r % 2 ^ 16) (omega arith),
        )
        (omega arith)
    where
      fits : u32 (shl (shr r 16) 16) ≡ shl (shr r 16) 16
      fits = omega arith

      low_kept : (a : ℕ) → a < dst + 4 + 4 → write_gateway m dst r a ≡ low_done a
      low_kept a k =
          encode_mov_imm_outside low_done (dst + 8) 9 (shr r 16) true a (inl (omega arith))

find_gateway_newest :
    (m : Memory) (p : Pool) (r : ℕ)
    → p.gateway_top + gateway_size ≤ p.size
    → gateway_target m (p.base + p.gateway_top) ≡ r
    → find_gateway m (some p) r ≡ some (p.base + p.gateway_top)
unfolding find_gateway find_gateway_loop
find_gateway_newest m p r room target =
    let rounds : (p.size - p.gateway_top) / 18 ≡ suc ((p.size - p.gateway_top - 18) / 18) =
      omega arith in
    rw (rounds, find_gateway_loop, target, ==_refl r)

-- Where eighteen bytes of a well-formed pool are free, `alloc_gateway` succeeds, and `find_gateway`
-- then gives the new gateway for the 32-bit base of its module.
pub find_gateway-alloc_gateway :
    (m : Memory) (p : Pool) (r : ℕ)
    → IsPool p
    → r < 2 ^ 32
    → p.used + gateway_size ≤ p.gateway_top
    → (g : ℕ) × (m' : Memory) × (p' : Pool) × (alloc_gateway m p r ≡ some (g, m', p'))
      × (find_gateway m' (some p') r ≡ some g)
unfolding alloc_gateway
find_gateway-alloc_gateway m p r v h room =
    let top = p.gateway_top - gateway_size in
    let test : ltb p.gateway_top (add32 p.used gateway_size) ≡ false = ground arith in
    (
      p.base + top,
      write_gateway m (p.base + top) r,
      record p { gateway_top = top },
      rw test,
      find_gateway_newest _ (record p { gateway_top = top }) r (omega arith)
          (gateway_target-write_gateway m (p.base + top) r h),
    )
