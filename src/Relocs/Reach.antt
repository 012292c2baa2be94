-- ===== src/Relocs/Reach.antt =====
-- What the whole relocation walk of a load in udynlink/udynlink.c can write, in an untagged module,
-- whether it ends well or not.
use udynlink.Prelude.{
  ℕ, zero, suc, ◌+◌, ◌*◌, ◌≡◌, ◌⊎◌, ◌<◌, ◌≤◌, refl, inl, inr, arith, false, some, ap, sym, ◌∙◌,
  Bool-cases,
}
use udynlink.Memory.{Memory}
use udynlink.Header.{is_sectioned, header_at}
use udynlink.Sections.{empty_view}
use udynlink.Modules.{Resolver, Module, header_of, get_data_pointer, get_reloc_target}
use udynlink.Relocs.{
  Walk, is_ok, apply_one, apply_loop, lot_word, symt_word, load_apply_relocations,
}
use udynlink.Relocs.Frame.{apply_one_outside}
use udynlink.Relocs.Reads.{header_at-Agree, get_reloc_target_same}
use udynlink.Relocs.Entry.{load_walk, load_apply_relocations-untagged}

-- Neither in the LOT of an untagged module nor in its .data.
abbrev pub OffSlots : Memory → Module → ℕ → Type 0
OffSlots m p_mod a =
    ((a < p_mod.p_ram) ⊎ (p_mod.p_ram + (header_of m p_mod).num_lot * 4 ≤ a))
    × ((a < get_data_pointer m p_mod)
        ⊎ (get_data_pointer m p_mod + (header_of m p_mod).data_size ≤ a))

target_off :
    (m : Memory) (w : Walk) (lot a p : ℕ)
    → w.tab.num ≡ 0
    → OffSlots m w.p_mod a
    → get_reloc_target m w.p_mod w.tab lot ≡ some p
    → (a < p) ⊎ (p + 4 ≤ a)
unfolding get_reloc_target
target_off m w lot a p empty off at = ground arith

-- The walk `w`, from the memory `m`, in a module whose header is in neither.
module _ (resolve : Resolver) (m : Memory) (w : Walk) (empty : w.tab.num ≡ 0)
    (untagged : is_sectioned (header_of m w.p_mod) ≡ false)
    (header_off : (a : ℕ)
      → w.p_mod.p_header ≤ a
      → a < w.p_mod.p_header + 32
      → OffSlots m w.p_mod a) where
  step_outside :
      (n : Memory) (lot symt a : ℕ)
      → header_of n w.p_mod ≡ header_of m w.p_mod
      → OffSlots m w.p_mod a
      → (apply_one resolve n w lot symt).1 a ≡ n a
  step_outside n lot symt a same off = apply_one_outside resolve n w lot symt a (λ p at.
      target_off m w lot a p empty off
        (sym (get_reloc_target_same m n w.p_mod same untagged w.tab lot empty) ∙ at))

  apply_loop_outside :
      (left i : ℕ) (n : Memory) (a : ℕ)
      → header_of n w.p_mod ≡ header_of m w.p_mod
      → OffSlots m w.p_mod a
      → (apply_loop resolve w left i n).1 a ≡ n a
  unfolding apply_loop
  apply_loop_outside zero i n a same off = refl
  apply_loop_outside (suc left) i n a same off =
      let lot = lot_word n w.p_relocations i in
      let symt = symt_word n w.p_relocations i in
      let n' = (apply_one resolve n w lot symt).1 in
      let kept : header_of n' w.p_mod ≡ header_of m w.p_mod =
        header_at-Agree w.p_mod.p_header n n'
          (λ b lo hi. step_outside n lot symt b same (header_off b lo hi))
        ∙ same in
      let here = step_outside n lot symt a same off in
      let later = apply_loop_outside left (i + 1) n' a kept off in
      elim (Bool-cases (is_ok (apply_one resolve n w lot symt).0)) [
        | inl good ↦ rw good (later ∙ here)
        | inr bad ↦ rw bad here
      ]

-- The relocation walk of the load of an untagged module writes to the LOT and to .data only, whatever
-- the relocations are and however it ends, if the header is in neither.
pub load_apply_relocations_outside :
    (resolve : Resolver) (m : Memory) (p_mod : Module) (p_header p_relocations p_symtab a : ℕ)
    → is_sectioned (header_at m p_header) ≡ false
    → is_sectioned (header_of m p_mod) ≡ false
    → ((b : ℕ) → p_mod.p_header ≤ b → b < p_mod.p_header + 32 → OffSlots m p_mod b)
    → OffSlots m p_mod a
    → (load_apply_relocations resolve m p_mod p_header p_relocations p_symtab).1 a ≡ m a
unfolding empty_view
load_apply_relocations_outside resolve m p_mod p_header p_relocations p_symtab a none untagged
      header_off off =
    let w = load_walk m p_mod p_header p_relocations p_symtab in
    ap (λ r. r.1 a)
      (load_apply_relocations-untagged resolve m p_mod p_header p_relocations p_symtab none)
    ∙ apply_loop_outside resolve m w refl untagged header_off (header_at m p_header).num_rels 0 m a
        refl off
