-- ===== src/Thunk/Branch.antt =====
-- The branch from a stub to its gateway, udynlink/udynlink_thunk.c: where it goes, and how far it
-- reaches.
use udynlink.Prelude.{
  ℕ, ◌+◌, ◌-◌, ◌*◌, ◌%◌, ◌^◌, ◌<◌, ◌≡◌, ◌≢◌, refl, arith, false, inl, inr, Bool-cases, ltb,
  if◌then◌else◌, bit_or, bit_or_fields,
}
use udynlink.Memory.{Memory, read16}
use udynlink.Thunk.{write_stub, branch_offset, out_of_range, encode_b_n}
use udynlink.Thunk.Encoding.{read16-write16}
use udynlink.Thunk.Stubs.{movt_done, bit_or-one-pos}

-- The address that a `b.n` at `dst + 8` goes to, from the 11 low bits of its halfword.
abbrev pub branch_target : ℕ → ℕ → ℕ
branch_target dst hw =
    if ltb (hw % 2 ^ 11) (2 ^ 10)
    then dst + 12 + 2 * (hw % 2 ^ 11)
    else dst + 12 - 2 * (2 ^ 11 - hw % 2 ^ 11)

branch_halfword : (k : ℕ) → k < 2 ^ 11 → bit_or 0xE000 k ≡ 0xE000 + k
branch_halfword k h = bit_or_fields 11 28 k h

module _ (m : Memory) (dst f g : ℕ) (in_range : out_of_range (branch_offset dst g) ≡ false) where
  pub branch_written :
      read16 (write_stub m dst f g).1 (dst + 8) ≡ 0xE000 + branch_offset dst g % 2 ^ 11
  unfolding write_stub encode_b_n
  branch_written =
      rw (in_range, branch_halfword (branch_offset dst g % 2 ^ 11) (omega arith))
        (read16-write16 (movt_done m dst f) (dst + 8) (0xE000 + branch_offset dst g % 2 ^ 11)
          (omega arith))

-- `write_stub` fails exactly when its test says that the branch is out of range.
write_stub_zero :
    (m : Memory) (dst f g : ℕ)
    → (write_stub m dst f g).0 ≢ 0
    → out_of_range (branch_offset dst g) ≡ false
unfolding write_stub
write_stub_zero m dst f g done = elim (Bool-cases (out_of_range (branch_offset dst g))) [
  | inl out ↦ absurd (done (rw out))
  | inr fits ↦ fits
]

branch_arrives :
    (dst g hw : ℕ)
    → (dst + g) % 2 ≡ 0
    → g < dst + 2 ^ 16
    → dst < g + 2 ^ 16
    → out_of_range (branch_offset dst g) ≡ false
    → hw ≡ 0xE000 + branch_offset dst g % 2 ^ 11
    → branch_target dst hw ≡ g
unfolding branch_offset
branch_arrives dst g hw even above below fits e = ground arith

-- Where `write_stub` succeeds and its gateway is an even distance of less than 64 KiB away, the
-- branch that it wrote goes to the gateway.
pub branch_target-write_stub :
    (m : Memory) (dst f g : ℕ)
    → (dst + g) % 2 ≡ 0
    → g < dst + 2 ^ 16
    → dst < g + 2 ^ 16
    → (write_stub m dst f g).0 ≢ 0
    → branch_target dst (read16 (write_stub m dst f g).1 (dst + 8)) ≡ g
branch_target-write_stub m dst f g even above below done =
    let fits = write_stub_zero m dst f g done in
    branch_arrives dst g _ even above below fits (branch_written m dst f g fits)

far_offset : (dst k : ℕ) → branch_offset dst (dst + 12 + (k + 1) * 2 ^ 17) ≡ 0
unfolding branch_offset
far_offset dst k = ground arith

write_stub_done :
    (m : Memory) (dst f g : ℕ)
    → out_of_range (branch_offset dst g) ≡ false
    → (write_stub m dst f g).0 ≢ 0
unfolding write_stub
write_stub_done m dst f g fits = rw fits (bit_or-one-pos dst)

-- The range test looks at the offset after its cast to 16 bits. A gateway whose distance is a
-- positive multiple of 128 KiB passes for one at distance 0: `write_stub` succeeds, and the branch
-- does not go to the gateway.
pub write_stub_far :
    (m : Memory) (dst f k : ℕ)
    → let g = dst + 12 + (k + 1) * 2 ^ 17 in
      ((write_stub m dst f g).0 ≢ 0)
      × (branch_target dst (read16 (write_stub m dst f g).1 (dst + 8)) ≢ g)
write_stub_far m dst f k =
    let g = dst + 12 + (k + 1) * 2 ^ 17 in
    let fits : out_of_range (branch_offset dst g) ≡ false = rw (far_offset dst k) refl in
    (
      write_stub_done m dst f g fits,
      rw (branch_written m dst f g fits) (rw (far_offset dst k) (omega arith)),
    )
