-- ===== src/Sections.antt =====
-- The section table of a sectioned image in udynlink/udynlink.c: its entries, their validation
-- (`get_sectab`), the map from link-time addresses to sections, and the layout of the main block.
pub mod Entries
pub mod Rounds
pub mod Table
pub mod Find
use udynlink.Prelude.{
  ℕ, zero, suc, ◌+◌, ◌-◌, ◌*◌, ◌/◌, ◌%◌, ◌^◌, bit_and, Bool, true, false, ◌&&◌, ◌||◌, not, Option,
  some, none, ltb, leb, ◌==◌, ◌!=◌, if◌then◌else◌, u32, add32, sub32, shl, field, not32,
}
use mathlib.Core.Option
use udynlink.Memory.{Memory, read32, has_nul}
use udynlink.Header.{
  Header, header_at, LoadMode, copy_all, copy_text_data, xip, is_sectioned, max_sections,
  max_image_size, make_version, hdr_num_sections, get_num_sections_raw, get_sectab_offset,
  get_code_offset, get_sym_table_pointer,
}

abbrev pub class_code : ℕ
class_code = 0

abbrev pub class_data : ℕ
class_data = 1

abbrev pub class_bss : ℕ
class_bss = 2

pub record SectEntry : Type 0 where
  pub name_off : ℕ
  pub va : ℕ
  pub size : ℕ
  pub align : ℕ
  pub cls : ℕ
  pub flags : ℕ

-- `num` is 0 for an untagged header.
pub record SectView : Type 0 where
  pub p_entries : ℕ
  pub p_pool : ℕ
  pub num : ℕ

unfoldable pub sect_entry_at : Memory → SectView → ℕ → SectEntry
sect_entry_at m tab idx =
    let w = tab.p_entries + idx * 24 in
    record {
      name_off = read32 m w;
      va = read32 m (w + 4);
      size = read32 m (w + 8);
      align = read32 m (w + 12);
      cls = read32 m (w + 16);
      flags = read32 m (w + 20);
    }

-- Bit 31, and bits 23:16.
abbrev pub is_main : ℕ → Bool
is_main flags = field flags 31 1 != 0

abbrev pub has_reserved : ℕ → Bool
has_reserved flags = field flags 16 8 != 0

-- `none` is the NULL of an unnamed section.
unfoldable pub sect_name : SectView → SectEntry → Option ℕ
sect_name tab e = if e.name_off != 0 then some (tab.p_pool + e.name_off) else none

-- Bits 30:24 and 15:0 remain.
unfoldable pub sect_host_flags : SectEntry → ℕ
sect_host_flags e = shl (field e.flags 24 7) 24 + e.flags % 2 ^ 16

unfoldable pub get_nonmain_bases_size : SectView → ℕ
get_nonmain_bases_size tab = if ltb 3 tab.num then (tab.num - 3) * 4 else 0

-- `(value + align - 1) & ~(align - 1)` on 64 bits, cut to 32. For `align` 0 the mask is 0, as in C.
unfoldable pub align_up_u32 : ℕ → ℕ → ℕ
align_up_u32 value align =
    u32
      (bit_and ((value + align + 2 ^ 64 - 1) % 2 ^ 64) (2 ^ 64 - 1 - (align + 2 ^ 64 - 1) % 2 ^ 64))

-- `(off + align - 1) & ~(align - 1)` on `size_t`.
unfoldable pub align_up : ℕ → ℕ → ℕ
align_up off align =
    bit_and ((off + align + 2 ^ 32 - 1) % 2 ^ 32) (not32 ((align + 2 ^ 32 - 1) % 2 ^ 32))

abbrev pub no_entry : SectEntry
no_entry = record { name_off = 0; va = 0; size = 0; align = 0; cls = 0; flags = 0 }

-- The checks of an entry that do not look at its neighbours.
unfoldable pub entry_fields_ok : SectEntry → Bool
entry_fields_ok e =
    not (ltb e.align 4)
    && bit_and e.align (e.align - 1) == 0
    && e.size % 4 == 0
    && leb e.cls class_bss
    && not (has_reserved e.flags)

-- The first three entries are the main ones; the others are named and not main.
unfoldable pub entry_role_ok : ℕ → SectEntry → Bool
entry_role_ok i e =
    if ltb i 3 then is_main e.flags && e.cls == i else not (is_main e.flags) && e.name_off != 0

unfoldable pub entry_name_ok : Memory → Header → ℕ → Bool → SectEntry → Bool
entry_name_ok m h pool check_names e =
    if check_names && e.name_off != 0
    then ltb e.name_off h.symt_size && has_nul m (pool + e.name_off) (h.symt_size - e.name_off)
    else true

unfoldable pub entry_order_ok : ℕ → SectEntry → SectEntry → Bool
entry_order_ok i prev e = if i == 0 then e.va == 0 else leb (prev.va + prev.size) e.va

-- The loop of `get_sectab` at entry `i` with `left` entries to go.
unfoldable pub entries_ok : Memory → Header → SectView → Bool → ℕ → ℕ → SectEntry → Bool
entries_ok m h view check_names zero i prev = true
entries_ok m h view check_names (suc left) i prev =
    let e = sect_entry_at m view i in
    entry_fields_ok e
    && entry_role_ok i e
    && entry_name_ok m h view.p_pool check_names e
    && entry_order_ok i prev e
    && entries_ok m h view check_names left (i + 1) e

-- The main sections against the sizes of the header.
unfoldable pub main_sections_ok : Memory → Header → SectView → Bool
main_sections_ok m h view =
    let m0 = sect_entry_at m view 0 in
    let m1 = sect_entry_at m view 1 in
    let m2 = sect_entry_at m view 2 in
    let data_va = align_up_u32 h.code_size m1.align in
    let bss_va = align_up_u32 (data_va + h.data_size) m2.align in
    m0.size == data_va
    && m1.va == data_va
    && m1.size == h.data_size
    && m2.va == bss_va
    && m2.size == h.bss_size

-- The view of an untagged header, and what a caller that ignores an error is left with.
unfoldable pub empty_view : Memory → ℕ → SectView
empty_view m p = record { p_entries = 0; p_pool = get_sym_table_pointer (header_at m p) p; num = 0 }

-- The view that `get_sectab` hands out for a valid table.
unfoldable pub table_view : Memory → ℕ → SectView
table_view m p =
    let h = header_at m p in
    record {
      p_entries = p + get_sectab_offset h;
      p_pool = get_sym_table_pointer h p;
      num = get_num_sections_raw h;
    }

-- The tests of a sectioned header before its entries are read.
unfoldable pub sectioned_header_ok : Header → Bool
sectioned_header_ok h =
    field h.flags 8 8 == 0
    && leb (make_version 3 1) h.udynlink_version
    && get_num_sections_raw h != 0
    && leb h.symt_size max_image_size

-- `none` is `UDYNLINK_ERR_LOAD_BAD_SECTION_TABLE`, the one error of this function.
unfoldable pub get_sectab : Memory → ℕ → Bool → Option SectView
get_sectab m p check_names =
    let h = header_at m p in
    let view = table_view m p in
    if not (is_sectioned h)
    then if hdr_num_sections h.flags != 0 then none else some (empty_view m p)
    else if sectioned_header_ok h
        && entries_ok m h view check_names view.num 0 no_entry
        && main_sections_ok m h view
    then some view
    else none

-- `(void)get_sectab(p_header, &tab, 0)`.
unfoldable pub sectab_of : Memory → ℕ → SectView
sectab_of m p = Option.get_or (get_sectab m p false) (empty_view m p)

-- The bytes from the start of section `i` that resolve to it: a main section but the last runs up
-- to the next one.
unfoldable pub sect_span : Memory → SectView → ℕ → ℕ
sect_span m tab i =
    if ltb (i + 1) 3 && ltb (i + 1) tab.num
    then ((sect_entry_at m tab (i + 1)).va + 2 ^ 64 - (sect_entry_at m tab i).va) % 2 ^ 64
    else (sect_entry_at m tab i).size

-- `sect_find_by_va` from entry `i` with `left` entries to go; `none` is its -1.
unfoldable pub find_by_va_loop : Memory → SectView → ℕ → ℕ → ℕ → Option ℕ
find_by_va_loop m tab va zero i = none
find_by_va_loop m tab va (suc left) i =
    let e = sect_entry_at m tab i in
    let rest = find_by_va_loop m tab va left (i + 1) in
    if ltb va e.va then none else if ltb (va - e.va) (sect_span m tab i) then some i else rest

unfoldable pub sect_find_by_va : Memory → SectView → ℕ → Option ℕ
sect_find_by_va m tab va = find_by_va_loop m tab va tab.num 0
