-- ===== src/Loader/Copied.antt =====
-- What the copying of an untagged image into its block can write, udynlink/udynlink.c, in any mode.
use udynlink.Prelude.{
  ℕ, ◌+◌, ◌*◌, ◌%◌, ◌^◌, ◌≡◌, ◌⊎◌, ◌<◌, ◌≤◌, refl, inl, arith, Bool, true, false, ◌∙◌,
  if◌then◌else◌, ltb, ◌&&◌, sub32, u32,
}
use udynlink.Memory.{Memory, memcpy, memset}
use udynlink.Memory.Laws.{memcpy_outside, memcpy_inside, memset_outside}
use udynlink.Header.{
  Header, IsHeader, LoadMode, copy_all, copy_text_data, xip, max_ram_size, get_code_offset,
  get_header_size,
}
use udynlink.Header.Offsets.{get_code_offset_lem, get_header_size_cases, get_num_sections_raw-le}
use udynlink.Loader.Copy.{Image, copy_metadata, copy_untagged}
use udynlink.Loader.Extents.{ram_of, data_at}

-- The symbol table keeps clear of the end of the address space, and the block of its cap.
abbrev pub Fits : Header → LoadMode → Type 0
Fits h mode = IsHeader h × (h.symt_size + 2 ^ 20 ≤ 2 ^ 32) × (ram_of h mode ≤ max_ram_size)

if_either : (b : Bool) (f g : Memory) (a : ℕ) → f a ≡ g a → (if b then f else g) a ≡ g a
if_either true f g a same = same
if_either false f g a same = refl

-- Where the three copied parts of the metadata and their padding end.
pub metadata_ends :
    (h : Header)
    → IsHeader h
    → h.symt_size + 2 ^ 20 ≤ 2 ^ 32
    → let end = get_header_size h + h.num_rels * 8 + h.symt_size in
      (32 ≤ get_header_size h)
      × (end ≤ get_code_offset h)
      × (end + sub32 (get_code_offset h) (u32 end) ≡ get_code_offset h)
metadata_ends h wf small =
    let offsets = get_code_offset_lem h wf small in
    let sections = get_num_sections_raw-le h in
    let size = get_header_size_cases h in omega (arith, offsets, sections, size, wf.rels_fits)

module _ (m : Memory) (h : Header) (image : Image) (dst : ℕ) where
  -- The three parts, and their padding.
  abbrev parts : Memory
  parts =
      memcpy
        (memcpy (memcpy m dst image.p_header (get_header_size h)) (dst + get_header_size h)
          image.p_relocations (h.num_rels * 8))
        (dst + get_header_size h + h.num_rels * 8) image.p_symtab h.symt_size

  parts_outside :
      (a : ℕ)
      → (a < dst) ⊎ (dst + (get_header_size h + h.num_rels * 8 + h.symt_size) ≤ a)
      → parts a ≡ m a
  parts_outside a off =
      memcpy_outside _ (dst + get_header_size h + h.num_rels * 8) image.p_symtab h.symt_size a
        (ground (arith, off))
      ∙ memcpy_outside _ (dst + get_header_size h) image.p_relocations (h.num_rels * 8) a
          (ground (arith, off))
      ∙ memcpy_outside m dst image.p_header (get_header_size h) a (ground (arith, off))

  parts_header : (k : ℕ) → k < get_header_size h → parts (dst + k) ≡ m (image.p_header + k)
  parts_header k inside =
      memcpy_outside _ (dst + get_header_size h + h.num_rels * 8) image.p_symtab h.symt_size
        (dst + k) (inl (omega (arith, inside)))
      ∙ memcpy_outside _ (dst + get_header_size h) image.p_relocations (h.num_rels * 8) (dst + k)
          (inl (omega (arith, inside)))
      ∙ memcpy_inside m dst image.p_header (get_header_size h) k inside

  copy_metadata-parts :
      (a : ℕ)
      → (a < dst + (get_header_size h + h.num_rels * 8 + h.symt_size))
        ⊎ (dst
              + (get_header_size h + h.num_rels * 8 + h.symt_size)
              + sub32 (get_code_offset h) (u32 (get_header_size h + h.num_rels * 8 + h.symt_size))
            ≤ a)
      → copy_metadata m h image dst a ≡ parts a
  unfolding copy_metadata
  copy_metadata-parts a off =
      let c =
        memset_outside parts (dst + get_header_size h + h.num_rels * 8 + h.symt_size) 0
          (sub32 (get_code_offset h) (u32 (get_header_size h + h.num_rels * 8 + h.symt_size))) a
          (omega (arith, off)) in
      if_either
        (ltb 0 (sub32 (get_code_offset h) (u32 (get_header_size h + h.num_rels * 8 + h.symt_size)))
          && ltb
              (sub32 (get_code_offset h) (u32 (get_header_size h + h.num_rels * 8 + h.symt_size)))
              4)
        (memset parts (dst + get_header_size h + h.num_rels * 8 + h.symt_size) 0
          (sub32 (get_code_offset h) (u32 (get_header_size h + h.num_rels * 8 + h.symt_size))))
        parts a c

  module _ (wf : IsHeader h) (small : h.symt_size + 2 ^ 20 ≤ 2 ^ 32) where
    copy_metadata_outside :
        (a : ℕ) → (a < dst) ⊎ (dst + get_code_offset h ≤ a) → copy_metadata m h image dst a ≡ m a
    copy_metadata_outside a off =
        let ends = metadata_ends h wf small in
        copy_metadata-parts a (ground (arith, off, ends))
        ∙ parts_outside a (ground (arith, off, ends))

    copy_metadata_header :
        (k : ℕ) → k < 32 → copy_metadata m h image dst (dst + k) ≡ m (image.p_header + k)
    copy_metadata_header k inside =
        let ends = metadata_ends h wf small in
        copy_metadata-parts (dst + k) (inl (omega (arith, inside, ends)))
        ∙ parts_header k (omega (arith, inside, ends))

-- The copy, into a block at `p`.
pub copy_untagged_reach :
    (m : Memory) (h : Header) (image : Image) (mode : LoadMode) (p a : ℕ)
    → Fits h mode
    → (a < p + h.num_lot * 4) ⊎ (data_at h mode p + h.data_size ≤ a)
    → copy_untagged m h image mode (p + h.num_lot * 4) a ≡ m a
unfolding copy_untagged
copy_untagged_reach m h image copy_all p a (wf, small, cap) off =
    let dst = p + h.num_lot * 4 in
    let code = dst + get_code_offset h in
    let copied = copy_metadata m h image dst in
    let with_code = memcpy copied code image.p_code h.code_size in
    memcpy_outside with_code (code + h.code_size) image.p_data h.data_size a (ground (arith, off))
    ∙ memcpy_outside copied code image.p_code h.code_size a (ground (arith, off))
    ∙ copy_metadata_outside m h image dst wf small a (ground (arith, off))
copy_untagged_reach m h image copy_text_data p a (wf, small, cap) off =
    memcpy_outside m (p + h.num_lot * 4) image.p_code ((h.code_size + h.data_size) % 2 ^ 32) a
      (ground (arith, off, cap))
copy_untagged_reach m h image xip p a (wf, small, cap) off =
    memcpy_outside m (p + h.num_lot * 4) image.p_data h.data_size a (ground (arith, off))

-- In `copy_all` the header stands behind the LOT.
pub copy_untagged_header :
    (m : Memory) (h : Header) (image : Image) (p k : ℕ)
    → Fits h copy_all
    → k < 32
    → copy_untagged m h image copy_all (p + h.num_lot * 4) (p + h.num_lot * 4 + k)
      ≡ m (image.p_header + k)
unfolding copy_untagged
copy_untagged_header m h image p k (wf, small, cap) inside =
    let dst = p + h.num_lot * 4 in
    let code = dst + get_code_offset h in
    let copied = copy_metadata m h image dst in
    let with_code = memcpy copied code image.p_code h.code_size in
    let ends = metadata_ends h wf small in
    memcpy_outside with_code (code + h.code_size) image.p_data h.data_size (dst + k)
      (inl (omega (arith, inside, ends)))
    ∙ memcpy_outside copied code image.p_code h.code_size (dst + k)
        (inl (omega (arith, inside, ends)))
    ∙ copy_metadata_header m h image dst wf small k inside
