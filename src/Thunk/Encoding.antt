-- ===== src/Thunk/Encoding.antt =====
-- The instruction encodings of udynlink/udynlink_thunk.c: what is encoded is decoded again.
use udynlink.Prelude.{
  ℕ, ◌+◌, ◌*◌, ◌/◌, ◌%◌, ◌^◌, ◌<◌, ◌≤◌, ◌⊎◌, inl, ◌≡◌, refl, arith, bit_and, bit_or, Bool, true,
  false, some, ◌&&◌, ◌==◌, ==_iff, all_below, all_below_sound, bit_or_fields, shl, field,
}
use udynlink.Memory.{Memory, read16}
use udynlink.Thunk.{
  write16, mov_opcode, mov_hw0, mov_hw1, encode_mov_imm, mov_imm, decode_mov_imm, decode_mov_ip,
}

-- The first halfword for every `i` and `imm4`: the fields read back, and the opcode is there.
hw0_fits : Bool → ℕ → ℕ → Bool
hw0_fits top i imm4 =
    let hw0 = bit_or (bit_or (mov_opcode top) (shl i 10)) imm4 in
    (field hw0 10 1 == i)
    && (hw0 % 2 ^ 4 == imm4)
    && (bit_and hw0 0xFBF0 == mov_opcode top)
    && (hw0 / 2 ^ 16 == 0)

hw0_table : (top : Bool) → all_below 2 (λ i. all_below 16 (λ imm4. hw0_fits top i imm4)) ≡ true
unfolding hw0_fits
hw0_table true = refl
hw0_table false = refl

hw0_row : (top : Bool) (i imm4 : ℕ) → i < 2 → imm4 < 16 → hw0_fits top i imm4 ≡ true
hw0_row top i imm4 hi h4 =
    all_below_sound 16 (λ k. hw0_fits top i k) imm4
      (all_below_sound 2 (λ i. all_below 16 (λ imm4. hw0_fits top i imm4)) i (hw0_table top) hi) h4

mov_hw0_lem :
    (imm16 : ℕ) (top : Bool)
    → (field (mov_hw0 imm16 top) 10 1 ≡ field imm16 11 1)
      × (mov_hw0 imm16 top % 2 ^ 4 ≡ field imm16 12 4)
      × (bit_and (mov_hw0 imm16 top) 0xFBF0 ≡ mov_opcode top)
      × (mov_hw0 imm16 top < 2 ^ 16)
unfolding mov_hw0 hw0_fits
mov_hw0_lem imm16 top = ground (arith, hw0_row top (field imm16 11 1) (field imm16 12 4))

-- The second halfword is the sum of its three fields.
mov_hw1_lem :
    (rd imm16 : ℕ)
    → mov_hw1 rd imm16 ≡ field imm16 8 3 * 2 ^ 12 + rd % 2 ^ 4 * 2 ^ 8 + imm16 % 2 ^ 8
unfolding mov_hw1
mov_hw1_lem rd imm16 =
    rw
      (
        bit_or_fields 12 (field imm16 8 3) (rd % 2 ^ 4 * 2 ^ 8) (omega arith),
        hw1_sum,
        bit_or_fields 8 (field imm16 8 3 * 2 ^ 4 + rd % 2 ^ 4) (imm16 % 2 ^ 8) (omega arith),
      )
      (omega arith)
  where
    hw1_sum :
        field imm16 8 3 * 2 ^ 12 + rd % 2 ^ 4 * 2 ^ 8
        ≡ (field imm16 8 3 * 2 ^ 4 + rd % 2 ^ 4) * 2 ^ 8
    hw1_sum = omega arith

-- `i << 11 | imm4 << 12` for every `i` and `imm4`.
high_bits_row : ℕ → ℕ → Bool
high_bits_row i imm4 = bit_or (shl i 11) (shl imm4 12) == i * 2 ^ 11 + imm4 * 2 ^ 12

high_bits_table : all_below 2 (λ i. all_below 16 (λ imm4. high_bits_row i imm4)) ≡ true
unfolding high_bits_row
high_bits_table = refl

high_bits :
    (i imm4 : ℕ) → i < 2 → imm4 < 16 → bit_or (shl i 11) (shl imm4 12) ≡ i * 2 ^ 11 + imm4 * 2 ^ 12
unfolding high_bits_row
high_bits i imm4 hi h4 = (==_iff _ _).0 (
    all_below_sound 16 (λ k. high_bits_row i k) imm4
      (all_below_sound 2 (λ i. all_below 16 (λ imm4. high_bits_row i imm4)) i high_bits_table hi)
      h4)

-- The fields of an immediate put it together again.
fields_join :
    (i imm4 imm3 imm8 : ℕ)
    → i < 2
    → imm4 < 16
    → imm3 < 8
    → imm8 < 256
    → bit_or (bit_or (bit_or (shl i 11) (shl imm4 12)) (shl imm3 8)) imm8
      ≡ i * 2 ^ 11 + imm4 * 2 ^ 12 + imm3 * 2 ^ 8 + imm8
fields_join i imm4 imm3 imm8 hi h4 h3 h8 =
    rw
      (
        high_bits i imm4 hi h4,
        first,
        bit_or_fields 11 (i + imm4 * 2) (imm3 * 2 ^ 8) (omega arith),
        second,
        bit_or_fields 8 (i * 8 + imm4 * 16 + imm3) imm8 h8,
      )
      (omega arith)
  where
    first : i * 2 ^ 11 + imm4 * 2 ^ 12 ≡ (i + imm4 * 2) * 2 ^ 11
    first = omega arith

    second : (i + imm4 * 2) * 2 ^ 11 + imm3 * 2 ^ 8 ≡ (i * 8 + imm4 * 16 + imm3) * 2 ^ 8
    second = omega arith

pub mov_imm-mov_hw :
    (rd imm16 : ℕ) (top : Bool)
    → imm16 < 2 ^ 16
    → mov_imm (mov_hw0 imm16 top) (mov_hw1 rd imm16) ≡ imm16
unfolding mov_imm
mov_imm-mov_hw rd imm16 top h = omega (
  arith,
  mov_hw0_lem imm16 top,
  mov_hw1_lem rd imm16,
  fields_join (field (mov_hw0 imm16 top) 10 1) (mov_hw0 imm16 top % 2 ^ 4)
      (field (mov_hw1 rd imm16) 12 3) (mov_hw1 rd imm16 % 2 ^ 8) (omega arith) (omega arith)
      (omega arith) (omega arith),
)

pub read16-write16 : (m : Memory) (p hw : ℕ) → hw < 2 ^ 16 → read16 (write16 m p hw) p ≡ hw
unfolding read16 write16
read16-write16 m p hw h = ground arith

pub write16_outside : (m : Memory) (p hw a : ℕ) → (a < p) ⊎ (p + 2 ≤ a) → write16 m p hw a ≡ m a
unfolding write16
write16_outside m p hw a h = ground arith

pub read16-write16_apart :
    (m : Memory) (p hw q : ℕ) → (q + 2 ≤ p) ⊎ (p + 2 ≤ q) → read16 (write16 m p hw) q ≡ read16 m q
unfolding read16
read16-write16_apart m p hw q h =
    ground (arith, write16_outside m p hw q, write16_outside m p hw (q + 1))

module _ (m : Memory) (dst rd imm16 : ℕ) (top : Bool) where
  encoded_hw0 : read16 (encode_mov_imm m dst rd imm16 top) dst ≡ mov_hw0 imm16 top
  unfolding encode_mov_imm
  encoded_hw0 = omega (
    arith,
    read16-write16_apart (write16 m dst (mov_hw0 imm16 top)) (dst + 2) (mov_hw1 rd imm16) dst
        (inl (omega arith)),
    read16-write16 m dst (mov_hw0 imm16 top),
    mov_hw0_lem imm16 top,
  )

  encoded_hw1 : read16 (encode_mov_imm m dst rd imm16 top) (dst + 2) ≡ mov_hw1 rd imm16
  unfolding encode_mov_imm
  encoded_hw1 =
      read16-write16 (write16 m dst (mov_hw0 imm16 top)) (dst + 2) (mov_hw1 rd imm16)
        (omega (arith, mov_hw1_lem rd imm16))

  pub encode_mov_imm_outside :
      (a : ℕ) → (a < dst) ⊎ (dst + 4 ≤ a) → encode_mov_imm m dst rd imm16 top a ≡ m a
  unfolding encode_mov_imm
  encode_mov_imm_outside a h = ground (
    arith,
    write16_outside (write16 m dst (mov_hw0 imm16 top)) (dst + 2) (mov_hw1 rd imm16) a,
    write16_outside m dst (mov_hw0 imm16 top) a,
  )

  -- `decode_mov_imm` reads back every 16-bit immediate that `encode_mov_imm` wrote, whatever the
  -- register and whichever half of the word the instruction sets.
  pub decode_mov_imm-encode_mov_imm :
      imm16 < 2 ^ 16 → decode_mov_imm (encode_mov_imm m dst rd imm16 top) dst ≡ imm16
  unfolding decode_mov_imm
  decode_mov_imm-encode_mov_imm h = rw (encoded_hw0, encoded_hw1) (mov_imm-mov_hw rd imm16 top h)

-- The mask of the second halfword sees the register field alone.
register_row : ℕ → ℕ → Bool
register_row imm3 imm8 = bit_and (imm3 * 2 ^ 12 + 12 * 2 ^ 8 + imm8) 0x0F00 == 0x0C00

register_table : all_below 8 (λ imm3. all_below 256 (λ imm8. register_row imm3 imm8)) ≡ true
unfolding register_row
register_table = refl

register_is_ip :
    (imm3 imm8 : ℕ)
    → imm3 < 8
    → imm8 < 256
    → bit_and (imm3 * 2 ^ 12 + 12 * 2 ^ 8 + imm8) 0x0F00 ≡ 0x0C00
unfolding register_row
register_is_ip imm3 imm8 h3 h8 = (==_iff _ _).0 (
    all_below_sound 256 (λ k. register_row imm3 k) imm8
      (all_below_sound 8 (λ i. all_below 256 (λ k. register_row i k)) imm3 register_table h3) h8)

hw1_mask : (imm16 : ℕ) → bit_and (mov_hw1 12 imm16) 0x0F00 ≡ 0x0C00
hw1_mask imm16 =
    rw (mov_hw1_lem 12 imm16)
      (register_is_ip (field imm16 8 3) (imm16 % 2 ^ 8) (omega arith) (omega arith))

-- The decoder of the stub scan accepts what was encoded for register ip, and gives the immediate.
pub decode_mov_ip-encode_mov_imm :
    (m : Memory) (dst imm16 : ℕ) (top : Bool)
    → imm16 < 2 ^ 16
    → let written = encode_mov_imm m dst 12 imm16 top in
      decode_mov_ip top (read16 written dst) (read16 written (dst + 2)) ≡ some imm16
unfolding decode_mov_ip
decode_mov_ip-encode_mov_imm m dst imm16 top h =
    rw (encoded_hw0 m dst 12 imm16 top, encoded_hw1 m dst 12 imm16 top)
      (ground (arith, mov_hw0_lem imm16 top, hw1_mask imm16, mov_imm-mov_hw 12 imm16 top))
