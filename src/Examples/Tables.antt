-- ===== src/Examples/Tables.antt =====
-- Applications to the tables of an image: sections, layout and symbols.
use udynlink.Prelude.{
  ℕ, zero, suc, ◌+◌, ◌-◌, ◌^◌, ◌≡◌, ◌⊎◌, ◌↔◌, ◌<◌, ◌≤◌, inl, inr, refl, sym, ◌∙◌, arith, true,
  false, some,
}
use mathlib.Core.Bool.{true≢false}
use udynlink.Memory.{read32, read16}
use udynlink.Header.{
  Header, IsHeader, header_at, module_sign, loader_abi_version, LoadMode, copy_text_data, xip,
  ErrorCode, ok, check_arch_tag, validate_header, get_code_offset, get_header_size,
  get_symtab_end_offset, get_num_sections_raw, is_sectioned, hdr_num_sections, load_invalid_sign,
  load_version_mismatch,
}
use udynlink.Sections.{SectView, sect_entry_at, get_sectab, table_view, empty_view, sect_find_by_va}
use udynlink.Sections.Table.{IsValid, IsSectab, get_sectab-IsSectab}
use udynlink.Sections.Find.{IsSorted, Contains, sect_find_by_va_iff}
use udynlink.Layout.{get_main_section_offset, get_main_sections_start, get_ram_size_sections}
use udynlink.Layout.Blocks.{main_sections_tile, IsTiled}
use udynlink.Examples.Images.{base, tagged, from_words}

abbrev table : SectView
table = record { p_entries = base + 48; p_pool = base + 32; num = 3 }

tagged_table : get_sectab tagged base true ≡ some table
unfolding get_sectab from_words read16 read32 header_at udynlink.Sections.sectioned_header_ok
    get_num_sections_raw udynlink.Sections.entries_ok table_view udynlink.Sections.entry_fields_ok
    sect_entry_at udynlink.Header.get_sectab_offset udynlink.Sections.entry_role_ok
    udynlink.Sections.entry_name_ok udynlink.Sections.entry_order_ok
    udynlink.Sections.main_sections_ok udynlink.Sections.align_up_u32
    udynlink.Header.get_sym_table_pointer
tagged_table = refl

get_sectab-IsSectab_example : (get_sectab tagged base true ≡ some table) ↔ (
    ((is_sectioned (header_at tagged base) ≡ false)
      × (hdr_num_sections (header_at tagged base).flags ≡ 0)
      × (table ≡ empty_view tagged base))
    ⊎ ((is_sectioned (header_at tagged base) ≡ true)
        × (table ≡ table_view tagged base)
        × IsValid tagged (header_at tagged base) table true))
get_sectab-IsSectab_example = get_sectab-IsSectab tagged base true table

is_tagged : is_sectioned (header_at tagged base) ≡ true
unfolding header_at read16 from_words
is_tagged = refl

is_table : IsSectab tagged (header_at tagged base) table
unfolding header_at
is_table = elim ((get_sectab-IsSectab tagged base true table).0 tagged_table) [
  | inl (clear, bits, same) ↦ absurd (true≢false (sym is_tagged ∙ clear))
  | inr (sectioned, same, good) ↦ good.table
]

main_sections_tile_example :
    IsTiled tagged
      (header_at tagged base)
      table
      is_table
      (omega arith)
      (get_main_sections_start (header_at tagged base) table copy_text_data)
      (get_main_section_offset tagged (header_at tagged base) table copy_text_data 0)
      (get_main_section_offset tagged (header_at tagged base) table copy_text_data 1)
      (get_main_section_offset tagged (header_at tagged base) table copy_text_data 2)
      (get_ram_size_sections tagged (header_at tagged base) table copy_text_data)
unfolding get_main_sections_start header_at read16 from_words
    udynlink.Sections.get_nonmain_bases_size sect_entry_at read32
main_sections_tile_example =
    main_sections_tile tagged (header_at tagged base) table is_table (omega arith) copy_text_data
      (ground arith) (omega arith)

starts_fit : (j : ℕ) → j < 3 → (sect_entry_at tagged table j).va < 2 ^ 32
unfolding sect_entry_at from_words read32
starts_fit zero h = omega arith
starts_fit (suc zero) h = omega arith
starts_fit (suc (suc zero)) h = omega arith
starts_fit (suc (suc (suc j))) h = omega arith

in_order :
    (j : ℕ)
    → j + 1 < 3
    → (sect_entry_at tagged table j).va + (sect_entry_at tagged table j).size
      ≤ (sect_entry_at tagged table (j + 1)).va
unfolding sect_entry_at from_words read32
in_order zero h = omega arith
in_order (suc zero) h = omega arith
in_order (suc (suc j)) h = omega arith

is_sorted : IsSorted tagged table
is_sorted = record { start_fits = starts_fit; apart = in_order }

sect_find_by_va_iff_example : (sect_find_by_va tagged table 8 ≡ some 1) ↔ Contains tagged table 1 8
sect_find_by_va_iff_example = sect_find_by_va_iff tagged table 8 1 is_sorted

-- An untagged header of version 3.0 with a symbol table of 36 bytes.
abbrev small : Header
small = record {
  sign = module_sign;
  mod_version = 0;
  udynlink_version = 0x300;
  arch_tag = 0;
  num_lot = 1;
  num_rels = 0;
  flags = 0;
  symt_size = 36;
  code_size = 8;
  data_size = 4;
  bss_size = 4;
}

small-IsHeader : IsHeader small
small-IsHeader = record {
  sign_fits = omega arith;
  version_fits = omega arith;
  lot_fits = omega arith;
  rels_fits = omega arith;
  flags_fit = omega arith;
  symt_fits = omega arith;
  code_fits = omega arith;
  data_fits = omega arith;
  bss_fits = omega arith;
}

-- A header whose symbol table claims all but 16 bytes of the address space.
abbrev huge : Header
huge = record small { symt_size = 2 ^ 32 - 16 }

-- The code of it is taken to stand within its header.
code_of_huge : get_code_offset huge ≡ 16
unfolding get_header_size get_code_offset
code_of_huge = refl
