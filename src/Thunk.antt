-- ===== src/Thunk.antt =====
-- udynlink/udynlink_thunk.c and udynlink_thunk.h: the pool of run-time generated call thunks.
-- Gateways are carved off the top of the pool and stubs off its bottom. The children prove what
-- the encodings and the pool do; `Thunk.Call` models the calls that look a symbol up first.
pub mod Encoding
pub mod Bounds
pub mod Stubs
pub mod Branch
pub mod Call
use udynlink.Prelude.{
  ℕ, zero, suc, ◌+◌, ◌-◌, ◌*◌, ◌/◌, ◌%◌, ◌^◌, bit_and, bit_or, Bool, true, false, ◌&&◌, ◌||◌,
  Option, none, some, List, [], ◌∷◌, ltb, leb, ◌==◌, ◌!=◌, if◌then◌else◌, u8, u16, u32, add32, shl,
  shr, field,
}
use udynlink.Memory.{Memory, write8, read16}

abbrev pub gateway_size : ℕ
gateway_size = 18

abbrev pub stub_size : ℕ
stub_size = 10

-- MOVW and MOVT with an immediate: `1111 0i10 t100 imm4 | 0 imm3 rd imm8`.
abbrev pub mov_opcode : Bool → ℕ
mov_opcode top = if top then 0xF2C0 else 0xF240

unfoldable pub write16 : Memory → ℕ → ℕ → Memory
unfolding write8
write16 m p hw = write8 (write8 m p (hw % 2 ^ 8)) (p + 1) (shr hw 8)

unfoldable pub mov_hw0 : ℕ → Bool → ℕ
mov_hw0 imm16 top = bit_or (bit_or (mov_opcode top) (shl (field imm16 11 1) 10)) (field imm16 12 4)

unfoldable pub mov_hw1 : ℕ → ℕ → ℕ
mov_hw1 rd imm16 = bit_or (bit_or (shl (field imm16 8 3) 12) (shl (rd % 2 ^ 4) 8)) (imm16 % 2 ^ 8)

unfoldable pub encode_mov_imm : Memory → ℕ → ℕ → ℕ → Bool → Memory
encode_mov_imm m dst rd imm16 top =
    write16 (write16 m dst (mov_hw0 imm16 top)) (dst + 2) (mov_hw1 rd imm16)

encode_movw_ip : Memory → ℕ → ℕ → Memory
encode_movw_ip m dst imm16 = encode_mov_imm m dst 12 imm16 false

encode_movt_ip : Memory → ℕ → ℕ → Memory
encode_movt_ip m dst imm16 = encode_mov_imm m dst 12 imm16 true

-- The immediate that the two halfwords of a MOVW or MOVT carry.
unfoldable pub mov_imm : ℕ → ℕ → ℕ
mov_imm hw0 hw1 = u16 (
    bit_or
      (bit_or (bit_or (shl (field hw0 10 1) 11) (shl (hw0 % 2 ^ 4) 12)) (shl (field hw1 12 3) 8))
      (hw1 % 2 ^ 8))

unfoldable pub decode_mov_imm : Memory → ℕ → ℕ
decode_mov_imm m src = mov_imm (read16 m src) (read16 m (src + 2))

-- `decode_movw_ip_imm16` for `top` false and `decode_movt_ip_imm16` for `top` true.
unfoldable pub decode_mov_ip : Bool → ℕ → ℕ → Option ℕ
decode_mov_ip top hw0 hw1 =
    if bit_and hw0 0xFBF0 != mov_opcode top
    then none
    else if bit_and hw1 0x0F00 != 0x0C00
    then none
    else some (mov_imm hw0 hw1)

decode_movw_ip_imm16 : Memory → ℕ → Option ℕ
decode_movw_ip_imm16 m stub = decode_mov_ip false (read16 m stub) (read16 m (stub + 2))

decode_movt_ip_imm16 : Memory → ℕ → Option ℕ
decode_movt_ip_imm16 m stub = decode_mov_ip true (read16 m stub) (read16 m (stub + 2))

-- The offset is the bit pattern of an `int16_t`.
unfoldable pub encode_b_n : Memory → ℕ → ℕ → Memory
encode_b_n m dst offset_halfwords = write16 m dst (bit_or 0xE000 (offset_halfwords % 2 ^ 11))

pub record Pool : Type 0 where
  pub base : ℕ
  pub size : ℕ
  pub used : ℕ
  pub gateway_top : ℕ

unfoldable pub pool_init : ℕ → ℕ → Pool
pool_init buf sz =
    let misalign = buf % 2 ^ 2 in
    let skip = 4 - misalign in
    let base = if misalign == 0 then buf else if leb sz skip then buf + sz else buf + skip in
    let kept = if misalign == 0 then sz else if leb sz skip then 0 else sz - skip in
    let size = kept / 2 ^ 2 * 2 ^ 2 in
    record { base = base; size = size; used = 0; gateway_top = size }

-- `none` is the NULL of an exhausted pool.
unfoldable pub alloc : Pool → ℕ → Option (ℕ × Pool)
alloc pool n =
    if ltb pool.gateway_top (add32 pool.used n)
    then none
    else some (pool.base + pool.used, record pool { used = add32 pool.used n })

abbrev pub gateway_template : List ℕ
gateway_template =
    0x2D ∷ 0xE9 ∷ 0x00 ∷ 0x42 ∷ 0x40 ∷ 0xF2 ∷ 0x00 ∷ 0x09 ∷ 0xC0 ∷ 0xF2 ∷ 0x00 ∷ 0x09 ∷ 0xE0 ∷ 0x47
    ∷ 0xBD ∷ 0xE8 ∷ 0x00 ∷ 0x82 ∷ []

-- `memcpy` from a constant array.
unfoldable pub write_bytes : Memory → ℕ → List ℕ → Memory
write_bytes m p [] = m
write_bytes m p (b ∷ bs) = write_bytes (write8 m p b) (p + 1) bs

unfoldable pub write_gateway : Memory → ℕ → ℕ → Memory
write_gateway m dst ram_base =
    let copied = write_bytes m dst gateway_template in
    let low = encode_mov_imm copied (dst + 4) 9 (ram_base % 2 ^ 16) false in
    encode_mov_imm low (dst + 8) 9 (shr ram_base 16) true

-- `(int16_t)(byte_offset / 2)` as a bit pattern. The division rounds towards 0, and the cast keeps
-- the low 16 bits.
unfoldable pub branch_offset : ℕ → ℕ → ℕ
branch_offset dst gateway_addr =
    if leb (dst + 12) gateway_addr
    then u16 ((gateway_addr - (dst + 12)) / 2)
    else u16 (2 ^ 16 - u16 ((dst + 12 - gateway_addr) / 2))

-- Whether the pattern stands for a number outside of -1024 .. 1023.
abbrev pub out_of_range : ℕ → Bool
out_of_range hw_offset = ltb 1023 hw_offset && ltb hw_offset (2 ^ 16 - 1024)

-- The result 0 is the failure of the C function; the address is written to in any case.
unfoldable pub write_stub : Memory → ℕ → ℕ → ℕ → ℕ × Memory
unfolding encode_movw_ip encode_movt_ip
write_stub m dst func_addr gateway_addr =
    let moved =
      encode_movt_ip (encode_movw_ip m dst (func_addr % 2 ^ 16)) (dst + 4)
        (shr func_addr 16 % 2 ^ 16) in
    let hw_offset = branch_offset dst gateway_addr in
    if out_of_range hw_offset
    then (0, moved)
    else (bit_or dst 1, encode_b_n moved (dst + 8) hw_offset)

-- Whether the stub at `candidate` loads `func_addr`.
unfoldable pub stub_matches : Memory → ℕ → ℕ → Bool
unfolding decode_movw_ip_imm16 decode_movt_ip_imm16
stub_matches m candidate func_addr = elim (decode_movw_ip_imm16 m candidate) [
  | none ↦ false
  | some lo16 ↦ elim (decode_movt_ip_imm16 m (candidate + 4)) [
    | none ↦ false
    | some hi16 ↦ bit_or (shl hi16 16) lo16 == func_addr
  ]
]

-- The scan from `pos` down, with `pos / stub_size` rounds left.
unfoldable pub find_stub_loop : Memory → ℕ → ℕ → ℕ → ℕ → ℕ
find_stub_loop m base func_addr zero pos = 0
find_stub_loop m base func_addr (suc left) pos =
    let candidate = base + (pos - stub_size) in
    let rest = find_stub_loop m base func_addr left (pos - stub_size) in
    if stub_matches m candidate func_addr then bit_or candidate 1 else rest

-- `udynlink_external_find_stub`, the weak default: a scan from the newest stub down.
unfoldable pub find_stub : Memory → Option Pool → ℕ → ℕ
find_stub m none func_addr = 0
find_stub m (some pool) func_addr =
    if ltb pool.used stub_size
    then 0
    else find_stub_loop m pool.base func_addr (pool.used / stub_size) pool.used

-- The `ram_base` that the gateway at `g` loads into r9.
unfoldable pub gateway_target : Memory → ℕ → ℕ
gateway_target m g = bit_or (decode_mov_imm m (g + 4)) (u32 (shl (decode_mov_imm m (g + 8)) 16))

-- The scan from `off` up, with `(size - off) / gateway_size` rounds left.
unfoldable pub find_gateway_loop : Memory → ℕ → ℕ → ℕ → ℕ → Option ℕ
find_gateway_loop m base ram_base zero off = none
find_gateway_loop m base ram_base (suc left) off =
    let rest = find_gateway_loop m base ram_base left (off + gateway_size) in
    if gateway_target m (base + off) == ram_base then some (base + off) else rest

unfoldable pub find_gateway : Memory → Option Pool → ℕ → Option ℕ
find_gateway m none ram_base = none
find_gateway m (some pool) ram_base =
    find_gateway_loop m pool.base ram_base ((pool.size - pool.gateway_top) / gateway_size)
      pool.gateway_top

unfoldable pub alloc_gateway : Memory → Pool → ℕ → Option (ℕ × Memory × Pool)
alloc_gateway m pool ram_base =
    if ltb pool.gateway_top (add32 pool.used gateway_size)
    then none
    else let top = pool.gateway_top - gateway_size in
      let g = pool.base + top in
      some (g, write_gateway m g ram_base, record pool { gateway_top = top })

-- `alloc_stub` behind `write_stub`: a failure takes the ten bytes off `used` again.
unfoldable pub stub_result : Pool → ℕ → ℕ × Memory → ℕ × Memory × Pool
stub_result pool s (written, m) =
    if written == 0
    then (0, m, record pool { used = pool.used - stub_size })
    else (bit_or s 1, m, pool)

-- A stub whose branch cannot reach is given back; its bytes have been written all the same.
unfoldable pub alloc_stub : Memory → Pool → ℕ → ℕ → ℕ × Memory × Pool
alloc_stub m pool func_addr gateway_addr = elim (alloc pool stub_size) [
  | none ↦ (0, m, pool)
  | some (s, pool') ↦ stub_result pool' s (write_stub m s func_addr gateway_addr)
]
