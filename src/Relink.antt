-- ===== src/Relink.antt =====
-- The walks of udynlink/udynlink.c over the relocations of a loaded module: resolving the extern
-- symbols again, and patching the slots of one symbol. The sizes that bound a walk are read once.
pub mod Slots
pub mod Linked
use udynlink.Prelude.{
  ℕ, zero, suc, ◌+◌, Bool, true, false, ◌&&◌, ◌||◌, Option, some, none, List, ◌==◌, ◌!=◌,
  if◌then◌else◌,
}
use udynlink.Memory.{Memory, read32, write32}
use udynlink.Header.{ok, load_unknown_symbol, invalid_module, get_relocs_pointer}
use udynlink.Sections.{SectView, sectab_of}
use udynlink.Symbols.{get_sym_at, compare_name, is_eq, type_extern}
use udynlink.Modules.{Module, Resolver, header_of, sym_deferred, get_reloc_target}
use udynlink.Relocs.{is_abs32, is_code_base, Outcome, lot_word, symt_word}

-- One relocation of `apply_extern_relocations_impl`.
unfoldable pub relink_one : Resolver → Bool → Module → SectView → Memory → ℕ → ℕ → Memory
relink_one resolve incremental p_mod tab m lot_offset symt_offset =
    if is_abs32 symt_offset || is_code_base symt_offset
    then m
    else elim (get_sym_at m p_mod.p_header symt_offset) [
      | none ↦ m
      | some sym ↦
          if sym.type != type_extern then m else elim (get_reloc_target m p_mod tab lot_offset) [
            | none ↦ m
            | some p ↦
                if incremental && read32 m p != 0
                then m
                else let sym_addr = resolve m p_mod sym.name in
                  if sym_addr == sym_deferred then write32 m p 0 else write32 m p sym_addr
          ]
    ]

unfoldable pub relink_loop : Resolver → Bool → Module → SectView → ℕ → ℕ → ℕ → Memory → Memory
unfolding relink_one
relink_loop resolve incremental p_mod tab p_rels zero i m = m
relink_loop resolve incremental p_mod tab p_rels (suc left) i m =
    relink_loop resolve incremental p_mod tab p_rels left (i + 1)
      (relink_one resolve incremental p_mod tab m (lot_word m p_rels i) (symt_word m p_rels i))

unfoldable pub apply_extern_relocations : Resolver → Bool → Module → Memory → Memory
unfolding relink_loop
apply_extern_relocations resolve incremental p_mod m =
    let h = header_of m p_mod in
    relink_loop resolve incremental p_mod (sectab_of m p_mod.p_header)
      (get_relocs_pointer h p_mod.p_header) h.num_rels 0 m

-- `udynlink_link_incremental` and, for `incremental` false, `udynlink_relink_all`. A NULL handle is
-- `none`.
unfoldable pub link : Resolver → Bool → Option Module → Memory → Outcome
unfolding apply_extern_relocations
link resolve incremental none m = (invalid_module, m)
link resolve incremental (some p_mod) m =
    if p_mod.p_header == 0
    then (invalid_module, m)
    else (ok, apply_extern_relocations resolve incremental p_mod m)

-- The target of relocation `i` in `udynlink_link_symbol`, if its symbol has the name.
unfoldable pub named_target : Module → SectView → List ℕ → Memory → ℕ → ℕ → Option ℕ
named_target p_mod tab sym_name m lot_offset symt_offset =
    if is_abs32 symt_offset || is_code_base symt_offset
    then none
    else elim (get_sym_at m p_mod.p_header symt_offset) [
      | none ↦ none
      | some sym ↦
          if is_eq (compare_name m sym.name sym_name)
          then get_reloc_target m p_mod tab lot_offset
          else none
    ]

unfoldable pub patch_loop :
    Module → SectView → List ℕ → ℕ → ℕ → ℕ → ℕ → Bool → Memory → Bool × Memory
unfolding named_target
patch_loop p_mod tab sym_name sym_addr p_rels zero i found m = (found, m)
patch_loop p_mod tab sym_name sym_addr p_rels (suc left) i found m =
    let target = named_target p_mod tab sym_name m (lot_word m p_rels i) (symt_word m p_rels i) in
    let found' : Bool = elim target [ none ↦ found | some p ↦ true ] in
    let m' : Memory = elim target [ none ↦ m | some p ↦ write32 m p sym_addr ] in
    patch_loop p_mod tab sym_name sym_addr p_rels left (i + 1) found' m'

-- `udynlink_link_symbol`; a NULL handle or name is `none`.
unfoldable pub link_symbol : Option Module → Option (List ℕ) → ℕ → Memory → Outcome
unfolding patch_loop
link_symbol none name sym_addr m = (invalid_module, m)
link_symbol (some p_mod) none sym_addr m = (invalid_module, m)
link_symbol (some p_mod) (some name) sym_addr m =
    let h = header_of m p_mod in
    let (found, m') =
      patch_loop p_mod (sectab_of m p_mod.p_header) name sym_addr
        (get_relocs_pointer h p_mod.p_header) h.num_rels 0 false m in
    if p_mod.p_header == 0
    then (invalid_module, m)
    else if found
    then (ok, m')
    else (load_unknown_symbol, m')
