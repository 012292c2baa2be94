-- ===== src/Relocs/Entry.antt =====
-- How the load of an untagged module enters its relocation walk, udynlink/udynlink.c.
use udynlink.Prelude.{ℕ, ◌≡◌, arith, false}
use udynlink.Memory.{Memory}
use udynlink.Header.{is_sectioned, header_at}
use udynlink.Sections.{get_sectab, empty_view}
use udynlink.Modules.{Module, Resolver}
use udynlink.Relocs.{Walk, apply_loop, load_apply_relocations}

-- What the load of an untagged image walks over.
abbrev pub load_walk : Memory → Module → ℕ → ℕ → ℕ → Walk
load_walk m p_mod p_header p_relocations p_symtab = record {
  p_mod = p_mod;
  tab = empty_view m p_header;
  num_lot = (header_at m p_header).num_lot;
  symt_size = (header_at m p_header).symt_size;
  p_relocations = p_relocations;
  p_symtab = p_symtab;
}

pub load_apply_relocations-untagged :
    (resolve : Resolver) (m : Memory) (p_mod : Module) (p_header p_relocations p_symtab : ℕ)
    → is_sectioned (header_at m p_header) ≡ false
    → load_apply_relocations resolve m p_mod p_header p_relocations p_symtab
      ≡ apply_loop resolve
          (load_walk m p_mod p_header p_relocations p_symtab)
          (header_at m p_header).num_rels
          0
          m
unfolding load_apply_relocations get_sectab
load_apply_relocations-untagged resolve m p_mod p_header p_relocations p_symtab untagged =
    ground (arith, untagged)
