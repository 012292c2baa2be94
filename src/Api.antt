-- ===== src/Api.antt =====
-- The queries of udynlink/udynlink.c on a header, an image or a loaded module: sections and symbols.
-- A NULL pointer is the address 0, and a NULL handle is `none`.
pub mod Implicit
use udynlink.Prelude.{
  ℕ, zero, suc, ◌+◌, ◌-◌, ◌*◌, Bool, true, false, ◌&&◌, ◌||◌, not, Option, some, none, List, ltb,
  leb, ◌==◌, ◌!=◌, if◌then◌else◌,
}
use mathlib.Core.Option
use udynlink.Memory.{Memory, has_nul}
use udynlink.Header.{
  Header, header_at, ErrorCode, ok, invalid_module, load_bad_section_table, is_sectioned,
  get_sym_table_pointer,
}
use udynlink.Sections.{
  SectView, sect_entry_at, sect_host_flags, get_sectab, class_code, class_data, class_bss,
}
use udynlink.Symbols.{Sym, get_sym_at, get_sym_at_raw, bounded_sym_count}
use udynlink.Modules.{
  Module, Resolver, header_of, get_code_pointer, get_data_pointer, get_section_base_idx, offset_sym,
  lookup_symbol,
}
use udynlink.Loader.Copy.{Image}

unfoldable pub get_section_count : Memory → ℕ → ℕ
get_section_count m p_header =
    if p_header == 0
    then 0
    else if not (is_sectioned (header_at m p_header))
    then 3
    else elim (get_sectab m p_header false) [ none ↦ 0 | some tab ↦ tab.num ]

-- `udynlink_section_info_t`; a NULL name is `none`.
pub record SectionInfo : Type 0 where
  pub size : ℕ
  pub align : ℕ
  pub flags : ℕ
  pub sec_class : ℕ
  pub name : Option ℕ

-- The number of sections with the three that an untagged module has implicitly.
abbrev pub view_count : SectView → ℕ
view_count tab = if ltb 0 tab.num then tab.num else 3

unfoldable pub implicit_info : Header → ℕ → SectionInfo
implicit_info h idx = record {
  size = if idx == 0 then h.code_size else if idx == 1 then h.data_size else h.bss_size;
  align = 4;
  flags = 0;
  sec_class = if idx == 0 then class_code else if idx == 1 then class_data else class_bss;
  name = none;
}

unfoldable pub entry_info : Memory → Header → SectView → ℕ → Option SectionInfo
entry_info m h tab idx =
    let e = sect_entry_at m tab idx in
    let named : Option ℕ → SectionInfo = λ name. record {
      size = e.size;
      align = e.align;
      flags = sect_host_flags e;
      sec_class = e.cls;
      name = name;
    } in
    if e.name_off == 0
    then some (named none)
    else if leb h.symt_size e.name_off
        || not (has_nul m (tab.p_pool + e.name_off) (h.symt_size - e.name_off))
    then none
    else some (named (some (tab.p_pool + e.name_off)))

-- `udynlink_get_section_info` with an `out` that is not NULL; on an error `out` is not to be read.
unfoldable pub get_section_info : Memory → ℕ → ℕ → ErrorCode × Option SectionInfo
unfolding implicit_info entry_info
get_section_info m p_header idx =
    let h = header_at m p_header in
    if p_header == 0 then (invalid_module, none) else elim (get_sectab m p_header false) [
      | none ↦ (load_bad_section_table, none)
      | some tab ↦
          if leb (view_count tab) idx
          then (invalid_module, none)
          else if tab.num == 0
          then (ok, some (implicit_info h idx))
          else elim (entry_info m h tab idx) [
            | none ↦ (load_bad_section_table, none)
            | some info ↦ (ok, some info)
          ]
    ]

unfoldable pub get_section_base : Memory → Option Module → ℕ → ℕ
get_section_base m none idx = 0
get_section_base m (some p_mod) idx =
    if p_mod.p_header == 0 then 0 else elim (get_sectab m p_mod.p_header false) [
      | none ↦ 0
      | some tab ↦
          if leb (view_count tab) idx
          then 0
          else if tab.num == 0
          then if idx == 0
            then get_code_pointer m p_mod
            else if idx == 1
            then get_data_pointer m p_mod
            else get_data_pointer m p_mod + (header_of m p_mod).data_size
          else get_section_base_idx m p_mod tab idx
    ]

-- `udynlink_get_symbol_value`, 0 for a symbol that is not found.
unfoldable pub get_symbol_value : Resolver → Memory → Module → List ℕ → ℕ
get_symbol_value resolve m p_mod name = elim (lookup_symbol resolve m (some p_mod) name) [
  | none ↦ 0
  | some sym ↦ sym.val
]

unfoldable pub is_symbol_resolved : Resolver → Memory → Option Module → List ℕ → Bool
is_symbol_resolved resolve m p_mod name = elim (lookup_symbol resolve m p_mod name) [
  | none ↦ false
  | some sym ↦ sym.val != 0
]

-- The two counts; the image is one whose pointers are not checked yet.
unfoldable pub image_get_symbol_count : Memory → Image → ℕ
image_get_symbol_count m image =
    if image.p_header == 0 || image.p_symtab == 0
    then 0
    else bounded_sym_count m image.p_symtab (header_at m image.p_header).symt_size

unfoldable pub get_symbol_count : Memory → Option Module → ℕ
get_symbol_count m none = 0
get_symbol_count m (some p_mod) =
    let h = header_of m p_mod in
    if p_mod.p_header == 0
    then 0
    else bounded_sym_count m (get_sym_table_pointer h p_mod.p_header) h.symt_size

unfoldable pub image_get_symbol : Memory → Image → ℕ → Option Sym
image_get_symbol m image index =
    if image.p_header == 0 || image.p_symtab == 0
    then none
    else get_sym_at_raw m image.p_symtab index (header_at m image.p_header).symt_size

-- The symbol at an index with its run-time value.
unfoldable pub get_symbol : Memory → Option Module → ℕ → Option Sym
get_symbol m none index = none
get_symbol m (some p_mod) index =
    if p_mod.p_header == 0
    then none
    else Option.map (offset_sym m p_mod) (get_sym_at m p_mod.p_header index)
