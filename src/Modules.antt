-- ===== src/Modules.antt =====
-- A loaded module, udynlink/udynlink.c: its handle, where its code, data and sections stand, the
-- symbols with their run-time values, and the lookup of a symbol by name. A pointer is an address,
-- and 0 is NULL. The flags of `info` are the fields `mode` and `foreign_ram`.
pub mod Search
use udynlink.Prelude.{
  ℕ, zero, suc, ◌+◌, ◌-◌, ◌*◌, ◌/◌, ◌%◌, ◌^◌, Ordering, Bool, true, false, ◌&&◌, ◌||◌, not, Option,
  some, none, List, [], ◌∷◌, ltb, leb, ◌==◌, ◌!=◌, if◌then◌else◌, u32, add32, sub32,
}
use mathlib.Core.Option
use udynlink.Memory.{Memory, read32, write32}
use udynlink.Header.{
  Header, header_at, LoadMode, copy_all, copy_text_data, xip, is_sectioned, get_code_offset,
  get_relocs_pointer,
}
use udynlink.Sections.{
  SectView, SectEntry, sect_entry_at, sect_find_by_va, get_sectab, sectab_of, class_bss, class_code,
  class_data,
}
use udynlink.Layout.{get_main_section_offset, get_ram_size_for_header}
use udynlink.Symbols.{
  Sym, SymName, not_available, pooled, get_sym_at, bounded_sym_count, compare_name, is_eq,
  type_internal, type_exported, type_weak,
}

pub record Module : Type 0 where
  pub p_header : ℕ
  pub p_ram : ℕ
  pub mode : LoadMode
  pub foreign_ram : Bool
  pub num_named_syms : ℕ
  pub user_ctx : ℕ

-- `mark_module_free`: the handle with every byte 0.
abbrev pub free_module : Module
free_module = record {
  p_header = 0;
  p_ram = 0;
  mode = copy_all;
  foreign_ram = false;
  num_named_syms = 0;
  user_ctx = 0;
}

abbrev pub header_of : Memory → Module → Header
header_of m p_mod = header_at m p_mod.p_header

-- What the host's `udynlink_external_resolve_symbol` answers; it is handed the module and the name.
abbrev pub Resolver : Type 0
Resolver = Memory → Module → SymName → ℕ

-- The answer that defers a symbol.
abbrev pub sym_deferred : ℕ
sym_deferred = 1

unfoldable pub get_code_pointer_untagged : Header → Module → LoadMode → ℕ
get_code_pointer_untagged h p_mod copy_text_data = p_mod.p_ram + h.num_lot * 4
get_code_pointer_untagged h p_mod copy_all = p_mod.p_header + get_code_offset h
get_code_pointer_untagged h p_mod xip = p_mod.p_header + get_code_offset h

abbrev pub is_xip : LoadMode → Bool
is_xip xip = true
is_xip _ = false

unfoldable pub get_code_pointer : Memory → Module → ℕ
unfolding get_code_pointer_untagged
get_code_pointer m p_mod =
    let h = header_of m p_mod in
    if is_sectioned h
    then if is_xip p_mod.mode
      then p_mod.p_header + get_code_offset h
      else p_mod.p_ram + get_main_section_offset m h (sectab_of m p_mod.p_header) p_mod.mode 0
    else get_code_pointer_untagged h p_mod p_mod.mode

unfoldable pub get_data_pointer_untagged : Header → Module → LoadMode → ℕ
get_data_pointer_untagged h p_mod xip = p_mod.p_ram + h.num_lot * 4
get_data_pointer_untagged h p_mod copy_text_data = p_mod.p_ram + h.num_lot * 4 + h.code_size
get_data_pointer_untagged h p_mod copy_all = p_mod.p_header + get_code_offset h + h.code_size

unfoldable pub get_data_pointer : Memory → Module → ℕ
unfolding get_data_pointer_untagged
get_data_pointer m p_mod =
    let h = header_of m p_mod in
    if is_sectioned h
    then p_mod.p_ram + get_main_section_offset m h (sectab_of m p_mod.p_header) p_mod.mode 1
    else get_data_pointer_untagged h p_mod p_mod.mode

-- The word of the base array for the tagged section with this ordinal.
abbrev pub base_slot : Header → Module → ℕ → ℕ
base_slot h p_mod ordinal = p_mod.p_ram + h.num_lot * 4 + ordinal * 4

unfoldable pub get_section_base_idx : Memory → Module → SectView → ℕ → ℕ
get_section_base_idx m p_mod tab idx =
    let h = header_of m p_mod in
    if ltb idx 3
    then if idx == 0 && is_xip p_mod.mode
      then add32 p_mod.p_header (get_code_offset h)
      else add32 p_mod.p_ram (get_main_section_offset m h tab p_mod.mode idx)
    else if p_mod.p_ram == 0
    then 0
    else read32 m (base_slot h p_mod (idx - 3))

unfoldable pub set_section_base_idx : Memory → Module → ℕ → ℕ → Memory
set_section_base_idx m p_mod ordinal base =
    write32 m (base_slot (header_of m p_mod) p_mod ordinal) base

-- `none` is `*p_found == 0`.
unfoldable pub resolve_runtime_va : Memory → Module → SectView → ℕ → Option ℕ
resolve_runtime_va m p_mod tab va = elim (sect_find_by_va m tab va) [
  | none ↦ none
  | some idx ↦
      some (add32 (get_section_base_idx m p_mod tab idx) (sub32 va (sect_entry_at m tab idx).va))
]

-- The target in a sectioned module: the run-time address of `va`, unless it lies in a BSS section.
unfoldable pub sectioned_target : Memory → Module → SectView → ℕ → Option ℕ
sectioned_target m p_mod tab va = elim (sect_find_by_va m tab va) [
  | none ↦ none
  | some idx ↦
      let e = sect_entry_at m tab idx in
      if e.cls != class_code && e.cls != class_data
      then none
      else some (add32 (get_section_base_idx m p_mod tab idx) (sub32 va e.va))
]

-- The link-time address that a `lot_offset` behind the LOT stands for.
abbrev pub reloc_va : Header → ℕ → ℕ
reloc_va h lot_offset = u32 (h.code_size + 4 * (lot_offset - h.num_lot))

unfoldable pub get_reloc_target : Memory → Module → SectView → ℕ → Option ℕ
unfolding sectioned_target
get_reloc_target m p_mod tab lot_offset =
    let h = header_of m p_mod in
    let word_idx = lot_offset - h.num_lot in
    if ltb lot_offset h.num_lot
    then if p_mod.p_ram == 0 then none else some (p_mod.p_ram + lot_offset * 4)
    else if tab.num == 0
    then if leb (h.data_size / 4) word_idx
      then none
      else some (get_data_pointer m p_mod + word_idx * 4)
    else sectioned_target m p_mod tab (reloc_va h lot_offset)

-- The symbols that live in the module.
abbrev pub is_own : ℕ → Bool
is_own type = type == type_internal || type == type_exported || type == type_weak

-- The run-time value of a symbol of a sectioned module, 0 where its address is in no section.
unfoldable pub sectioned_value : Memory → Module → ℕ → ℕ
sectioned_value m p_mod val = elim (get_sectab m p_mod.p_header false) [
  | none ↦ 0
  | some tab ↦ Option.get_or (resolve_runtime_va m p_mod tab (u32 val)) 0
]

unfoldable pub offset_sym : Memory → Module → Sym → Sym
offset_sym m p_mod sym =
    if is_own sym.type
    then if is_sectioned (header_of m p_mod)
      then record sym { val = sectioned_value m p_mod sym.val }
      else record sym {
        val =
            add32 sym.val
              (if sym.in_code then get_code_pointer m p_mod else get_data_pointer m p_mod);
      }
    else sym

-- A weak symbol that the host overrides has the host's address.
unfoldable pub weak_override : Resolver → Memory → Module → SymName → Sym → Sym
weak_override resolve m p_mod name sym =
    let sym_addr = resolve m p_mod name in
    if sym.type == type_weak && sym_addr != sym_deferred && ltb 0 sym_addr
    then record sym { val = sym_addr }
    else sym

-- The binary search over the named entries `lo` to `hi`. `fuel` bounds the rounds; more than
-- `hi - lo` is enough (`Modules.Search`).
unfoldable pub search_names : Memory → ℕ → List ℕ → ℕ → ℕ → ℕ → Option Sym
search_names m p_header name zero lo hi = none
search_names m p_header name (suc fuel) lo hi =
    let mid = lo + (hi - lo) / 2 in
    let below = search_names m p_header name fuel lo (mid - 1) in
    let above = search_names m p_header name fuel (mid + 1) hi in
    if ltb hi lo then none else elim (get_sym_at m p_header mid) [
      | none ↦ none
      | some sym ↦ elim (compare_name m sym.name name) [
        | Ordering.eq ↦ some sym
        | Ordering.lt ↦ above
        | Ordering.gt ↦ below
      ]
    ]

-- The linear search from an index on, with `left` entries to go.
unfoldable pub scan_names : Memory → ℕ → List ℕ → ℕ → ℕ → Option Sym
scan_names m p_header name zero idx = none
scan_names m p_header name (suc left) idx =
    let rest = scan_names m p_header name left (idx + 1) in
    elim (get_sym_at m p_header idx) [
      | none ↦ none
      | some sym ↦
          if sym.type != type_internal && is_eq (compare_name m sym.name name)
          then some sym
          else rest
    ]

-- The entry that `udynlink_lookup_symbol` finds, before its value is computed. An entry takes eight
-- bytes, so the linear search ends before the index reaches the size of the table.
unfoldable pub find_symbol : Memory → Module → List ℕ → Option Sym
find_symbol m p_mod name =
    if ltb 0 p_mod.num_named_syms
    then search_names m p_mod.p_header name (p_mod.num_named_syms + 1) 1 p_mod.num_named_syms
    else scan_names m p_mod.p_header name (header_of m p_mod).symt_size 1

-- A NULL handle is `none`. The host is asked about the text that was looked for, which is the text of
-- the symbol found.
unfoldable pub lookup_symbol : Resolver → Memory → Option Module → List ℕ → Option Sym
lookup_symbol resolve m none name = none
lookup_symbol resolve m (some p_mod) name =
    Option.map (λ sym. weak_override resolve m p_mod sym.name (offset_sym m p_mod sym))
      (find_symbol m p_mod name)
