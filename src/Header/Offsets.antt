-- ===== src/Header/Offsets.antt =====
-- The layout of an image as the offsets of udynlink/udynlink.c give it.
use udynlink.Prelude.{ℕ, ◌+◌, ◌-◌, ◌*◌, ◌%◌, ◌^◌, ◌≤◌, ◌<◌, ◌≡◌, ◌⊎◌, arith, false}
use udynlink.Header.{
  Header, IsHeader, get_header_size, get_symtab_end_offset, get_num_sections_raw, get_code_offset,
  max_sections, is_sectioned,
}

pub get_header_size_cases : (h : Header) → (get_header_size h ≡ 32) ⊎ (get_header_size h ≡ 36)
unfolding get_header_size
get_header_size_cases h = ground arith

pub get_num_sections_raw-le : (h : Header) → get_num_sections_raw h ≤ max_sections
unfolding get_num_sections_raw
get_num_sections_raw-le h = ground arith

-- Where the symbol table keeps clear of the end of the address space, the metadata lie one behind
-- another: the header, the relocations, the symbol table padded to a word, the section table, and
-- then the code, at a word-aligned offset.
pub get_code_offset_lem :
    (h : Header)
    → IsHeader h
    → h.symt_size + 2 ^ 20 ≤ 2 ^ 32
    → (get_code_offset h % 4 ≡ 0)
      × (get_header_size h + h.num_rels * 8 + h.symt_size ≤ get_symtab_end_offset h)
      × (get_symtab_end_offset h < get_header_size h + h.num_rels * 8 + h.symt_size + 4)
      × (get_code_offset h ≡ get_symtab_end_offset h + get_num_sections_raw h * 24)
unfolding get_code_offset get_symtab_end_offset
get_code_offset_lem h w small =
    omega (arith, w.rels_fits, get_header_size_cases h, get_num_sections_raw-le h)

-- On the 32-bit target the sum of the sizes wraps before it is compared: a header with no
-- relocations and no section table whose symbol table claims all but `k` bytes of the address
-- space, `k` between 4 and 32 and a multiple of 4, has its code within the first 32 bytes.
get_code_offset_wraps :
    (h : Header) (k : ℕ)
    → h.num_rels ≡ 0
    → is_sectioned h ≡ false
    → get_header_size h ≡ 32
    → h.symt_size + 4 * k ≡ 2 ^ 32
    → 0 < k
    → k ≤ 8
    → get_code_offset h ≡ 32 - 4 * k
unfolding get_code_offset get_symtab_end_offset get_num_sections_raw
get_code_offset_wraps h k rels untagged size claims pos le = rw (untagged) (omega arith)
