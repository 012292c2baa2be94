-- ===== src/Relocs.antt =====
-- The relocation walk of the load in udynlink/udynlink.c. The walk reads the relocation table word
-- by word; the sizes that bound it are read once, at its start.
pub mod Errors
pub mod Frame
pub mod Passes
pub mod Reads
pub mod Verdicts
pub mod Slots
pub mod Wishes
pub mod Rounds
pub mod Entry
pub mod Linked
pub mod Reach
use udynlink.Prelude.{
  ℕ, zero, suc, ◌+◌, ◌-◌, ◌*◌, ◌%◌, ◌^◌, Bool, true, false, ◌&&◌, ◌||◌, Option, some, none, ltb,
  ◌==◌, ◌!=◌, if◌then◌else◌, u32, add32, field,
}
use udynlink.Memory.{Memory, read32, write32}
use udynlink.Header.{
  header_at, ErrorCode, ok, load_bad_relocation_table, load_unknown_symbol, load_bad_section_table,
  is_sectioned,
}
use udynlink.Sections.{SectView, get_sectab, empty_view}
use udynlink.Symbols.{
  Sym, get_sym_at_raw, type_internal, type_exported, type_extern, type_module_name, type_weak,
}
use udynlink.Modules.{
  Module, Resolver, sym_deferred, get_code_pointer, get_data_pointer, get_reloc_target,
  resolve_runtime_va, offset_sym,
}

-- The two marks of a relocation's second word.
abbrev pub is_abs32 : ℕ → Bool
is_abs32 symt_offset = field symt_offset 31 1 != 0

abbrev pub is_code_base : ℕ → Bool
is_code_base symt_offset = field symt_offset 30 1 != 0

-- A step of the walk gives an error code and the memory as it is then.
abbrev pub Outcome : Type 0
Outcome = ErrorCode × Memory

abbrev pub is_ok : ErrorCode → Bool
is_ok ok = true
is_ok _ = false

-- What the load-time walk works on.
pub record Walk : Type 0 where
  pub p_mod : Module
  pub tab : SectView
  pub num_lot : ℕ
  pub symt_size : ℕ
  pub p_relocations : ℕ
  pub p_symtab : ℕ

-- An `R_ARM_ABS32` or code-base relocation. In an untagged module `plus` is added to the word.
unfoldable pub apply_base : Memory → Walk → ℕ → ℕ → Outcome
apply_base m w lot_offset plus =
    if ltb lot_offset w.num_lot
    then (load_bad_relocation_table, m)
    else elim (get_reloc_target m w.p_mod w.tab lot_offset) [
      | none ↦ (load_bad_relocation_table, m)
      | some p ↦
          if ltb 0 w.tab.num
          then elim (resolve_runtime_va m w.p_mod w.tab (read32 m p)) [
            | none ↦ (load_bad_relocation_table, m)
            | some target ↦ (ok, write32 m p target)
          ]
          else (ok, write32 m p (add32 (read32 m p) plus))
    ]

-- The run-time value of an own symbol, `none` where a sectioned module has no section for it.
unfoldable pub own_value : Memory → Walk → Sym → Option ℕ
own_value m w sym =
    if ltb 0 w.tab.num
    then resolve_runtime_va m w.p_mod w.tab (u32 sym.val)
    else some (offset_sym m w.p_mod sym).val

-- The second write of a weak relocation, where the host overrides the symbol.
unfoldable pub override_weak : Resolver → Memory → Walk → Sym → ℕ → Memory
override_weak resolve m w sym p =
    let sym_addr = resolve m w.p_mod sym.name in
    if sym_addr != sym_deferred && ltb 0 sym_addr then write32 m p sym_addr else m

unfoldable pub apply_extern : Resolver → Memory → Walk → Sym → ℕ → Outcome
apply_extern resolve m w sym p =
    let sym_addr = resolve m w.p_mod sym.name in
    if sym_addr == sym_deferred
    then (ok, write32 m p 0)
    else if ltb 0 sym_addr
    then (ok, write32 m p sym_addr)
    else (load_unknown_symbol, m)

-- The `switch` on the type of the symbol; `p` is the word to write. The types 5 to 7 have no case.
unfoldable pub apply_symbol : Resolver → Memory → Walk → Sym → ℕ → Outcome
unfolding apply_extern
apply_symbol resolve m w sym p =
    if sym.type == type_internal || sym.type == type_exported
    then elim (own_value m w sym) [
      | none ↦ (load_bad_relocation_table, m)
      | some target ↦ (ok, write32 m p target)
    ]
    else if sym.type == type_weak
    then elim (own_value m w sym) [
      | none ↦ (load_bad_relocation_table, m)
      | some target ↦ (ok, override_weak resolve (write32 m p target) w sym p)
    ]
    else if sym.type == type_extern
    then apply_extern resolve m w sym p
    else if sym.type == type_module_name
    then (load_bad_relocation_table, m)
    else (ok, m)

unfoldable pub apply_named : Resolver → Memory → Walk → ℕ → ℕ → Outcome
unfolding apply_symbol
apply_named resolve m w lot_offset symt_offset =
    elim (get_sym_at_raw m w.p_symtab symt_offset w.symt_size) [
      | none ↦ (load_bad_relocation_table, m)
      | some sym ↦ elim (get_reloc_target m w.p_mod w.tab lot_offset) [
        | none ↦ (load_bad_relocation_table, m)
        | some p ↦ apply_symbol resolve m w sym p
      ]
    ]

-- The body of the loop. The first form adds `&data - value`, the second `&code`.
unfoldable pub apply_one : Resolver → Memory → Walk → ℕ → ℕ → Outcome
unfolding apply_base apply_named
apply_one resolve m w lot_offset symt_offset =
    if is_abs32 symt_offset
    then apply_base m w lot_offset
        ((get_data_pointer m w.p_mod + 2 ^ 32 - symt_offset % 2 ^ 31) % 2 ^ 32)
    else if is_code_base symt_offset
    then apply_base m w lot_offset (get_code_pointer m w.p_mod)
    else apply_named resolve m w lot_offset symt_offset

-- The two words of relocation `i`.
abbrev pub lot_word : Memory → ℕ → ℕ → ℕ
lot_word m p_rels i = read32 m (p_rels + i * 8)

abbrev pub symt_word : Memory → ℕ → ℕ → ℕ
symt_word m p_rels i = read32 m (p_rels + i * 8 + 4)

-- The loop from relocation `i` with `left` to go. It stops at the first error.
unfoldable pub apply_loop : Resolver → Walk → ℕ → ℕ → Memory → Outcome
unfolding apply_one
apply_loop resolve w zero i m = (ok, m)
apply_loop resolve w (suc left) i m =
    let (code, m') =
      apply_one resolve m w (lot_word m w.p_relocations i) (symt_word m w.p_relocations i) in
    let rest = apply_loop resolve w left (i + 1) m' in if is_ok code then rest else (code, m')

-- The loop is entered with the view of the table, or with an empty one in an untagged module whose
-- count bits are set.
unfoldable pub load_apply_relocations : Resolver → Memory → Module → ℕ → ℕ → ℕ → Outcome
unfolding apply_loop
load_apply_relocations resolve m p_mod p_header p_relocations p_symtab =
    let h = header_at m p_header in
    let none_view : Walk = record {
      p_mod = p_mod;
      tab = empty_view m p_header;
      num_lot = h.num_lot;
      symt_size = h.symt_size;
      p_relocations = p_relocations;
      p_symtab = p_symtab;
    } in
    elim (get_sectab m p_header false) [
      | none ↦
          if is_sectioned h
          then (load_bad_section_table, m)
          else apply_loop resolve none_view h.num_rels 0 m
      | some tab ↦ apply_loop resolve (record none_view { tab = tab }) h.num_rels 0 m
    ]
