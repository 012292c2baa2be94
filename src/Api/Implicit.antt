-- ===== src/Api/Implicit.antt =====
-- The queries against what the loader does: symbols in range, and section bases.
use udynlink.Prelude.{◌^◌, ◌-◌, ℕ, ◌≡◌, ◌<◌, arith, inl, inr, Option-cases, some}
use udynlink.Memory.{Memory}
use udynlink.Header.{ok, get_sym_table_pointer}
use udynlink.Sections.{get_sectab, empty_view, sectioned_header_ok, table_view}
use udynlink.Symbols.{Sym, get_sym_at, get_sym_at_raw}
use udynlink.Symbols.Bounds.{get_sym_at_raw_bounds}
use udynlink.Modules.{Module, header_of}
use udynlink.Api.{get_section_count, get_section_info, get_symbol_count, get_symbol}

-- A symbol is only handed out for an index below the count of symbols, among the indices whose double,
-- plus 2, is a 32-bit number.
pub get_symbol-get_symbol_count :
    (m : Memory) (p_mod : Module) (index : ℕ) {found : Sym}
    → index < 2 ^ 31 - 1
    → get_symbol m (some p_mod) index ≡ some found
    → index < get_symbol_count m (some p_mod)
unfolding get_symbol get_symbol_count get_sym_at
get_symbol-get_symbol_count m p_mod index {found} low e =
    let h = header_of m p_mod in
    let p_symt = get_sym_table_pointer h p_mod.p_header in
    elim (Option-cases (get_sym_at_raw m p_symt index h.symt_size)) [
      | inl out ↦ ground (arith, out)
      | inr (raw, at) ↦ ground (arith, get_sym_at_raw_bounds m p_symt index h.symt_size low at)
    ]

-- Information on a section is only handed out for an index below the count of sections.
pub get_section_info-get_section_count :
    (m : Memory) (p_header idx : ℕ)
    → (get_section_info m p_header idx).0 ≡ ok
    → idx < get_section_count m p_header
unfolding get_section_info get_section_count get_sectab empty_view sectioned_header_ok table_view
get_section_info-get_section_count m p_header idx good = ground arith
