-- ===== src/Header.antt =====
-- The module header of udynlink/udynlink.h, its load modes and error codes, and what the loader
-- derives from a header alone: versions, architecture tags, and the offsets of udynlink/udynlink.c
-- that read no table. `size_t` has the 32 bits of the target, so sums of sizes wrap.
pub mod Checks
pub mod Offsets
use udynlink.Prelude.{
  ℕ, ◌+◌, ◌-◌, ◌*◌, ◌/◌, ◌%◌, ◌^◌, ◌<◌, Bool, true, false, ◌&&◌, ◌||◌, not, ltb, leb, ◌==◌, ◌!=◌,
  if◌then◌else◌, u32, add32, field,
}
use udynlink.Memory.{Memory, read16, read32}

pub data ErrorCode : Type 0 where
  ok : ErrorCode
  load_invalid_sign : ErrorCode
  load_ram_len_low : ErrorCode
  load_out_of_memory : ErrorCode
  load_xip_unsupported : ErrorCode
  load_invalid_mode : ErrorCode
  load_bad_relocation_table : ErrorCode
  load_unknown_symbol : ErrorCode
  load_duplicate_name : ErrorCode
  load_version_mismatch : ErrorCode
  load_arch_mismatch : ErrorCode
  load_io_error : ErrorCode
  invalid_module : ErrorCode
  load_hook_aborted : ErrorCode
  load_ram_unaligned : ErrorCode
  load_section_unresolved : ErrorCode
  load_section_unaligned : ErrorCode
  load_bad_section_table : ErrorCode

pub data LoadMode : Type 0 where
  copy_all copy_text_data xip : LoadMode

pub record Header : Type 0 where
  pub sign : ℕ
  pub mod_version : ℕ
  pub udynlink_version : ℕ
  pub arch_tag : ℕ
  pub num_lot : ℕ
  pub num_rels : ℕ
  pub flags : ℕ
  pub symt_size : ℕ
  pub code_size : ℕ
  pub data_size : ℕ
  pub bss_size : ℕ

-- The header that a `udynlink_module_header_t *` points to.
unfoldable pub header_at : Memory → ℕ → Header
header_at m p = record {
  sign = read32 m p;
  mod_version = read16 m (p + 4);
  udynlink_version = read16 m (p + 6);
  arch_tag = read16 m (p + 8);
  num_lot = read16 m (p + 10);
  num_rels = read16 m (p + 12);
  flags = read16 m (p + 14);
  symt_size = read32 m (p + 16);
  code_size = read32 m (p + 20);
  data_size = read32 m (p + 24);
  bss_size = read32 m (p + 28);
}

-- The fields have the widths that the struct gives them.
pub record IsHeader (h : Header) : Type 0 where
  pub sign_fits : h.sign < 2 ^ 32
  pub version_fits : h.udynlink_version < 2 ^ 16
  pub lot_fits : h.num_lot < 2 ^ 16
  pub rels_fits : h.num_rels < 2 ^ 16
  pub flags_fit : h.flags < 2 ^ 16
  pub symt_fits : h.symt_size < 2 ^ 32
  pub code_fits : h.code_size < 2 ^ 32
  pub data_fits : h.data_size < 2 ^ 32
  pub bss_fits : h.bss_size < 2 ^ 32

abbrev pub module_sign : ℕ
module_sign = 0x4D4C4455

abbrev pub max_ram_size : ℕ
max_ram_size = 16 * 1024 * 1024

abbrev pub max_image_size : ℕ
max_image_size = 4 * 1024 * 1024

abbrev pub max_sections : ℕ
max_sections = 63

abbrev pub make_version : ℕ → ℕ → ℕ
make_version major minor = major * 2 ^ 8 + minor

abbrev pub loader_abi_version : ℕ
loader_abi_version = make_version 3 1

unfoldable pub check_arch_tag : ℕ → ℕ → ErrorCode
check_arch_tag mod_arch host_arch =
    let mod_float = field mod_arch 5 2 in
    let host_float = field host_arch 5 2 in
    if mod_arch % 2 ^ 4 != host_arch % 2 ^ 4
    then load_arch_mismatch
    else if mod_float == 2 && host_float != 2
    then load_arch_mismatch
    else if mod_float == 1 && host_float == 0
    then load_arch_mismatch
    else ok

unfoldable pub validate_header : Header → ErrorCode
validate_header h =
    if h.sign != module_sign
    then load_invalid_sign
    else if ltb loader_abi_version h.udynlink_version
    then load_version_mismatch
    else ok

abbrev pub is_sectioned : Header → Bool
is_sectioned h = h.flags % 2 != 0

-- `UDYNLINK_HDR_NUM_SECTIONS`, bits 7:1.
abbrev pub hdr_num_sections : ℕ → ℕ
hdr_num_sections flags = field flags 1 7

unfoldable pub get_header_size : Header → ℕ
get_header_size h =
    if leb (make_version 3 0) h.udynlink_version
    then 32
    else if leb (make_version 2 0) h.udynlink_version
    then 36
    else 32

-- `(res + 3) & ~3`.
abbrev pub align4 : ℕ → ℕ
align4 res = add32 res 3 / 2 ^ 2 * 2 ^ 2

unfoldable pub get_symtab_end_offset : Header → ℕ
unfolding get_header_size
get_symtab_end_offset h = align4 (add32 (add32 (get_header_size h) (h.num_rels * 8)) h.symt_size)

unfoldable pub get_num_sections_raw : Header → ℕ
get_num_sections_raw h =
    let num = hdr_num_sections h.flags in
    if not (is_sectioned h) || num == 0 || ltb max_sections num then 0 else num

unfoldable pub get_code_offset : Header → ℕ
unfolding get_symtab_end_offset get_num_sections_raw
get_code_offset h = align4 (add32 (get_symtab_end_offset h) (get_num_sections_raw h * 24))

-- Where the symbol table of the header at `p` starts.
unfoldable pub get_sym_table_pointer : Header → ℕ → ℕ
unfolding get_header_size
get_sym_table_pointer h p = p + get_header_size h / 4 * 4 + h.num_rels * 8

unfoldable pub get_sectab_offset : Header → ℕ
unfolding get_symtab_end_offset
get_sectab_offset h = get_symtab_end_offset h

-- The relocations stand right behind the header.
unfoldable pub get_relocs_pointer : Header → ℕ → ℕ
unfolding get_header_size
get_relocs_pointer h p = p + get_header_size h / 4 * 4

-- `memcmp(base_addr, "UDLM", 4) == 0`.
abbrev pub has_signature : Memory → ℕ → Bool
has_signature m p = m p == b'U' && m (p + 1) == b'D' && m (p + 2) == b'L' && m (p + 3) == b'M'

unfoldable pub get_image_size : Memory → ℕ → ℕ
unfolding get_code_offset header_at
get_image_size m p =
    let h = header_at m p in
    if has_signature m p then add32 (add32 (get_code_offset h) h.code_size) h.data_size else 0
