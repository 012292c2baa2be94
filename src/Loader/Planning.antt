-- ===== src/Loader/Planning.antt =====
-- The checks of `udynlink_load_module_image`, udynlink/udynlink.c, before anything is allocated. The
-- image and allocation totals are 64-bit sums, which do not wrap.
use udynlink.Prelude.{ℕ, ◌+◌, true, ◌&&◌, not, some, none, ltb, if◌then◌else◌}
use udynlink.Memory.{Memory}
use udynlink.Header.{
  Header, header_at, LoadMode, ErrorCode, ok, load_bad_relocation_table, load_bad_section_table,
  validate_header, max_image_size, max_ram_size, get_code_offset,
}
use udynlink.Sections.{SectView, get_sectab}
use udynlink.Layout.{
  tagged_sizes, is_payload, any_class, get_ram_size_sections, get_ram_size_for_header,
  get_main_align,
}
use udynlink.Relocs.{is_ok}

abbrev pub no_view : SectView
no_view = record { p_entries = 0; p_pool = 0; num = 0 }

-- What the checks before the allocation come to. On an error the view and the alignment are those
-- that the error path sees.
pub record Plan : Type 0 where
  pub code : ErrorCode
  pub tab : SectView
  pub main_align : ℕ
  pub ram_size : ℕ

unfoldable pub block_size : Memory → ℕ → SectView → LoadMode → ℕ
block_size m p_header tab mode =
    if ltb 0 tab.num
    then get_ram_size_sections m (header_at m p_header) tab mode
    else get_ram_size_for_header m p_header mode

unfoldable pub image_extent : Memory → Header → SectView → ℕ
image_extent m h tab =
    get_code_offset h
    + h.code_size
    + h.data_size
    + (if ltb 0 tab.num then tagged_sizes m tab is_payload else 0)

-- The caps on the image and on what is allocated for it.
unfoldable pub check_sizes : Memory → ℕ → SectView → LoadMode → ErrorCode
unfolding block_size image_extent
check_sizes m p_header tab mode =
    let ram_size = block_size m p_header tab mode in
    if ltb max_image_size (image_extent m (header_at m p_header) tab)
    then if ltb 0 tab.num then load_bad_section_table else load_bad_relocation_table
    else if ltb max_ram_size ram_size
    then load_bad_relocation_table
    else if ltb 0 tab.num && ltb max_ram_size (ram_size + tagged_sizes m tab any_class)
    then load_bad_section_table
    else ok

abbrev pub failed_plan : ErrorCode → Plan
failed_plan code = record { code = code; tab = no_view; main_align = 4; ram_size = 0 }

-- The checks in their order: header, section table, sizes.
unfoldable pub plan_load : Memory → ℕ → LoadMode → Plan
unfolding check_sizes
plan_load m p_header mode =
    let h = header_at m p_header in
    if not (is_ok (validate_header h))
    then failed_plan (validate_header h)
    else elim (get_sectab m p_header true) [
      | none ↦ failed_plan load_bad_section_table
      | some tab ↦ record {
        code = check_sizes m p_header tab mode;
        tab = tab;
        main_align = if ltb 0 tab.num then get_main_align m tab else 4;
        ram_size = block_size m p_header tab mode;
      }
    ]
