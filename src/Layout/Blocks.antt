-- ===== src/Layout/Blocks.antt =====
-- The main block of a sectioned module, udynlink/udynlink.c: its parts are aligned, do not overlap
-- and lie inside of what the loader allocates.
use udynlink.Prelude.{
  ℕ, ◌+◌, ◌-◌, ◌*◌, ◌/◌, ◌%◌, ◌^◌, ◌≤◌, ◌<◌, ◌≡◌, ◌≢◌, refl, arith, false, leb, add32, not32,
  IsPow2, bit_and_clear,
}
use native.Mathlib.Nat.{one-le-pow, div-add-mod', mod-lt, mul-mod_left}
use udynlink.Memory.{Memory}
use udynlink.Header.{Header, LoadMode, copy_all, copy_text_data, xip}
use udynlink.Sections.{SectView, sect_entry_at, align_up}
use udynlink.Sections.Table.{IsSectab}
use udynlink.Layout.{
  get_main_sections_start, get_main_section_offset, get_ram_size_sections, main_walk, size_walk,
}

-- Where nothing wraps, rounding up gives a multiple of the alignment.
align_up_pow :
    (off k : ℕ) → off + 2 ^ k ≤ 2 ^ 32 → align_up off (2 ^ k) ≡ (off + 2 ^ k - 1) / 2 ^ k * 2 ^ k
unfolding align_up
align_up_pow off k fits =
    let sum : (off + 2 ^ k + 2 ^ 32 - 1) % 2 ^ 32 ≡ off + 2 ^ k - 1 =
      omega (arith, one-le-pow k 2) in
    let mask : not32 ((2 ^ k + 2 ^ 32 - 1) % 2 ^ 32) ≡ 2 ^ 32 - 2 ^ k =
      omega (arith, one-le-pow k 2) in
    rw (sum, mask) (bit_and_clear k 32 (off + 2 ^ k - 1) (omega (arith, one-le-pow k 2)))

pub align_up_bounds :
    (off a : ℕ)
    → IsPow2 a
    → off + a ≤ 2 ^ 32
    → (off ≤ align_up off a) × (align_up off a < off + a) × (align_up off a % a ≡ 0)
align_up_bounds off a (k, e) fits =
    let value : align_up off a ≡ (off + a - 1) / a * a =
      rw e (align_up_pow off k (rw (← e) fits)) in
    let pos : 0 < a = rw e (one-le-pow k 2 (omega arith)) in
    rw value (
      omega (arith, div-add-mod' (off + a - 1) a, mod-lt (off + a - 1) pos),
      omega (arith, div-add-mod' (off + a - 1) a),
      mul-mod_left ((off + a - 1) / a) a,
    )

-- The three main sections at block offsets `o0`, `o1` and `o2`, behind `start` and up to `total`.
module _ (m : Memory) (h : Header) (tab : SectView) (v : IsSectab m h tab)
    (three : 3 ≤ tab.num) where
  abbrev pub size_of : ℕ → ℕ
  size_of i = (sect_entry_at m tab i).size

  abbrev pub align_of : ℕ → ℕ
  align_of i = (sect_entry_at m tab i).align

  abbrev offset : LoadMode → ℕ → ℕ
  offset mode i = get_main_section_offset m h tab mode i

  -- One step of the walk, where nothing wraps.
  place :
      (i off : ℕ)
      → i < 3
      → off + align_of i + size_of i ≤ 2 ^ 32
      → (off ≤ align_up off (align_of i))
        × (align_up off (align_of i) < off + align_of i)
        × (align_up off (align_of i) % align_of i ≡ 0)
        × (add32 (align_up off (align_of i)) (size_of i) ≡ align_up off (align_of i) + size_of i)
  place i off k fits =
      let (above, below, aligned) =
        align_up_bounds off (align_of i) (v.entry i (omega arith)).align_pow2 (omega arith) in
      (above, below, aligned, omega (arith, below))

  enough : (i : ℕ) → i < 3 → leb tab.num i ≡ false
  enough i k = ground arith

  -- Main sections `i` and `j = i + 1`, placed one behind the other from `off`.
  abbrev next_base : ℕ → ℕ → ℕ
  next_base i off = add32 (align_up off (align_of i)) (size_of i)

  -- The three main sections placed from `start` on: aligned, in order, and up to the end of the
  -- block.
  abbrev pub IsTiled : (start o0 o1 o2 total : ℕ) → Type 0
  IsTiled start o0 o1 o2 total =
      (start ≤ o0)
      × (o0 + size_of 0 ≤ o1)
      × (o1 + size_of 1 ≤ o2)
      × (o2 + size_of 2 ≡ total)
      × (o0 % align_of 0 ≡ 0)
      × (o1 % align_of 1 ≡ 0)
      × (o2 % align_of 2 ≡ 0)

  -- The sizes and alignments leave room for the sum in 32 bits.
  abbrev pub Fits : ℕ → Type 0
  Fits start =
      start + align_of 0 + size_of 0 + align_of 1 + size_of 1 + align_of 2 + size_of 2 ≤ 2 ^ 32

  tile :
      (start : ℕ)
      → Fits start
      → let b1 = next_base 0 start in
        let b2 = next_base 1 b1 in
        IsTiled start
          (align_up start (align_of 0))
          (align_up b1 (align_of 1))
          (align_up b2 (align_of 2))
          (next_base 2 b2)
  tile start fits =
      let b1 = next_base 0 start in
      let b2 = next_base 1 b1 in
      let p0 = place 0 start (omega arith) (omega arith) in
      let p1 = place 1 b1 (omega arith) (omega (arith, p0)) in
      let p2 = place 2 b2 (omega arith) (omega (arith, p0, p1)) in omega (arith, p0, p1, p2)

  -- For a valid table with the three main sections, where the sum of sizes and alignments fits 32
  -- bits, and in the modes that copy the code: `get_main_section_offset` places .text, .data and
  -- .bss behind the start of the sections, each at a multiple of its alignment and none over
  -- another, and the block of `get_ram_size_sections` ends where .bss does.
  pub main_sections_tile :
      (mode : LoadMode)
      → mode ≢ xip
      → Fits (get_main_sections_start h tab mode)
      → IsTiled
          (get_main_sections_start h tab mode)
          (get_main_section_offset m h tab mode 0)
          (get_main_section_offset m h tab mode 1)
          (get_main_section_offset m h tab mode 2)
          (get_ram_size_sections m h tab mode)
  unfolding get_main_section_offset get_ram_size_sections main_walk size_walk
  main_sections_tile copy_all ne fits =
      rw (enough 0 (omega arith), enough 1 (omega arith), enough 2 (omega arith)) (tile _ fits)
  main_sections_tile copy_text_data ne fits =
      rw (enough 0 (omega arith), enough 1 (omega arith), enough 2 (omega arith)) (tile _ fits)
  main_sections_tile xip ne fits = absurd (ne refl)

  -- Under XIP, for a valid table with the three main sections and a sum that fits 32 bits, the
  -- block has .data and .bss only, with the same guarantees.
  pub xip_sections_tile :
      get_main_sections_start h tab xip + align_of 1 + size_of 1 + align_of 2 + size_of 2 ≤ 2 ^ 32
      → (get_main_sections_start h tab xip ≤ get_main_section_offset m h tab xip 1)
        × (get_main_section_offset m h tab xip 1 + size_of 1
            ≤ get_main_section_offset m h tab xip 2)
        × (get_main_section_offset m h tab xip 2 + size_of 2 ≡ get_ram_size_sections m h tab xip)
        × (get_main_section_offset m h tab xip 1 % align_of 1 ≡ 0)
        × (get_main_section_offset m h tab xip 2 % align_of 2 ≡ 0)
  unfolding get_main_section_offset get_ram_size_sections main_walk size_walk
  xip_sections_tile fits =
      let start = get_main_sections_start h tab xip in
      let p1 = place 1 start (omega arith) (omega arith) in
      let p2 = place 2 (next_base 1 start) (omega arith) (omega (arith, p1)) in
      rw (enough 1 (omega arith), enough 2 (omega arith)) (omega (arith, p1, p2))
