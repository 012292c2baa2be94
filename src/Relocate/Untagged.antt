-- ===== src/Relocate/Untagged.antt =====
-- `rebase_module_pointers`, udynlink/udynlink.c: shifting the pointers of a moved untagged module.
-- The sizes that bound the walk are read once.
pub mod Rounds
pub mod Moved
use udynlink.Prelude.{
  ℕ, zero, suc, ◌+◌, ◌*◌, ◌&&◌, ◌||◌, some, none, ltb, ◌==◌, if◌then◌else◌, add32, sub32,
}
use udynlink.Memory.{Memory, read32, write32}
use udynlink.Header.{get_relocs_pointer, get_sym_table_pointer}
use udynlink.Symbols.{Sym, get_sym_at_raw, type_internal, type_exported, type_weak}
use udynlink.Modules.{Module, header_of, get_data_pointer}
use udynlink.Relocs.{is_abs32, is_code_base, lot_word, symt_word}

-- By how much the bases have moved, and where they were.
pub record Shift : Type 0 where
  pub code_delta : ℕ
  pub data_delta : ℕ
  pub old_code : ℕ
  pub old_data : ℕ

-- What the walk keeps in variables.
pub record Rebase : Type 0 where
  pub shift : Shift
  pub p_lot : ℕ
  pub p_data : ℕ
  pub num_lot : ℕ
  pub p_symt : ℕ
  pub symt_size : ℕ

unfoldable pub add_delta : Memory → ℕ → ℕ → Memory
add_delta m p delta = write32 m p (add32 (read32 m p) delta)

-- The word of .data for a relocation; the index is not checked here.
unfoldable pub data_slot : Rebase → ℕ → ℕ
data_slot r lot_offset = add32 r.p_data (sub32 lot_offset r.num_lot * 4)

abbrev pub delta_of : Rebase → Sym → ℕ
delta_of r sym = if sym.in_code then r.shift.code_delta else r.shift.data_delta

-- The module's own value of a weak symbol before the move.
abbrev pub default_old : Rebase → Sym → ℕ
default_old r sym = add32 (if sym.in_code then r.shift.old_code else r.shift.old_data) sym.val

unfoldable pub rebase_symbol : Memory → Rebase → Sym → ℕ → Memory
unfolding add_delta
rebase_symbol m r sym p_rel =
    if sym.type == type_internal || sym.type == type_exported
    then add_delta m p_rel (delta_of r sym)
    else if sym.type == type_weak && read32 m p_rel == default_old r sym
    then add_delta m p_rel (delta_of r sym)
    else m

unfoldable pub rebase_one : Memory → Rebase → ℕ → ℕ → Memory
unfolding rebase_symbol data_slot add_delta
rebase_one m r lot_offset symt_offset =
    if is_abs32 symt_offset
    then add_delta m (data_slot r lot_offset) r.shift.data_delta
    else if is_code_base symt_offset
    then add_delta m (data_slot r lot_offset) r.shift.code_delta
    else elim (get_sym_at_raw m r.p_symt symt_offset r.symt_size) [
      | none ↦ m
      | some sym ↦
          rebase_symbol m r sym
            (if ltb lot_offset r.num_lot then r.p_lot + lot_offset * 4 else data_slot r lot_offset)
    ]

unfoldable pub rebase_loop : Rebase → ℕ → ℕ → ℕ → Memory → Memory
unfolding rebase_one
rebase_loop r p_rels zero i m = m
rebase_loop r p_rels (suc left) i m =
    rebase_loop r p_rels left (i + 1) (rebase_one m r (lot_word m p_rels i) (symt_word m p_rels i))

unfoldable pub rebase_module_pointers : Memory → Module → Shift → Memory
unfolding rebase_loop
rebase_module_pointers m p_mod shift =
    let h = header_of m p_mod in
    let r : Rebase = record {
      shift = shift;
      p_lot = p_mod.p_ram;
      p_data = get_data_pointer m p_mod;
      num_lot = h.num_lot;
      p_symt = get_sym_table_pointer h p_mod.p_header;
      symt_size = h.symt_size;
    } in
    rebase_loop r (get_relocs_pointer h p_mod.p_header) h.num_rels 0 m
