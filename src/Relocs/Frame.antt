-- ===== src/Relocs/Frame.antt =====
-- What a step of the relocation walk of udynlink/udynlink.c writes.
use udynlink.Prelude.{
  ℕ, ◌+◌, ◌-◌, ◌%◌, ◌^◌, add32, ◌≡◌, ◌⊎◌, ◌<◌, ◌≤◌, inl, inr, arith, Option-cases, some,
}
use udynlink.Memory.{Memory, read32, write32}
use udynlink.Memory.Laws.{write32_outside}
use udynlink.Symbols.{Sym, get_sym_at_raw}
use udynlink.Modules.{
  Resolver, get_reloc_target, resolve_runtime_va, get_code_pointer, get_data_pointer,
}
use udynlink.Relocs.{
  Walk, override_weak, own_value, apply_base, apply_extern, apply_symbol, apply_named, apply_one,
}

module _ (resolve : Resolver) (m : Memory) (w : Walk) (a p : ℕ)
    (apart : (a < p) ⊎ (p + 4 ≤ a)) where
  override_weak_outside : (n : Memory) (s : Sym) → n a ≡ m a → override_weak resolve n w s p a ≡ m a
  unfolding override_weak
  override_weak_outside n s same =
      ground (arith, same, write32_outside n p (resolve n w.p_mod s.name) a apart)

  apply_extern_outside : (s : Sym) → (apply_extern resolve m w s p).1 a ≡ m a
  unfolding apply_extern
  apply_extern_outside s =
      ground (
        arith,
        write32_outside m p 0 a apart,
        write32_outside m p (resolve m w.p_mod s.name) a apart,
      )

  apply_symbol_outside : (s : Sym) → (apply_symbol resolve m w s p).1 a ≡ m a
  unfolding apply_symbol
  apply_symbol_outside s = elim (Option-cases (own_value m w s)) [
    | inl missing ↦ ground (arith, missing, apply_extern_outside s)
    | inr (v, known) ↦ ground (
      arith,
      known,
      apply_extern_outside s,
      write32_outside m p v a apart,
      override_weak_outside (write32 m p v) s (write32_outside m p v a apart),
    )
  ]

  apply_base_outside :
      (lot plus : ℕ)
      → get_reloc_target m w.p_mod w.tab lot ≡ some p
      → (apply_base m w lot plus).1 a ≡ m a
  unfolding apply_base
  apply_base_outside lot plus at =
      elim (Option-cases (resolve_runtime_va m w.p_mod w.tab (read32 m p))) [
        | inl missing ↦
            ground (arith, at, missing, write32_outside m p (add32 (read32 m p) plus) a apart)
        | inr (v, known) ↦ ground (
          arith,
          at,
          known,
          write32_outside m p v a apart,
          write32_outside m p (add32 (read32 m p) plus) a apart,
        )
      ]

  apply_named_outside :
      (lot symt : ℕ)
      → get_reloc_target m w.p_mod w.tab lot ≡ some p
      → (apply_named resolve m w lot symt).1 a ≡ m a
  unfolding apply_named
  apply_named_outside lot symt at =
      elim (Option-cases (get_sym_at_raw m w.p_symtab symt w.symt_size)) [
        | inl missing ↦ ground (arith, missing)
        | inr (s, known) ↦ ground (arith, at, known, apply_symbol_outside s)
      ]

-- A step of the relocation walk of a load writes at most the word that `get_reloc_target` gives for
-- it: the LOT entry, or a word of .data or of a section with a payload. Where that gives none, nothing
-- is written.
pub apply_one_outside :
    (resolve : Resolver) (m : Memory) (w : Walk) (lot symt a : ℕ)
    → ((p : ℕ) → get_reloc_target m w.p_mod w.tab lot ≡ some p → (a < p) ⊎ (p + 4 ≤ a))
    → (apply_one resolve m w lot symt).1 a ≡ m a
unfolding apply_one apply_base apply_named
apply_one_outside resolve m w lot symt a apart =
    elim (Option-cases (get_reloc_target m w.p_mod w.tab lot)) [
      | inl missing ↦ ground (arith, missing)
      | inr (p, at) ↦ ground (
        arith,
        apply_base_outside resolve m w a p (apart p at) lot (get_code_pointer m w.p_mod) at,
        apply_base_outside resolve m w a p (apart p at) lot
            ((get_data_pointer m w.p_mod + 2 ^ 32 - symt % 2 ^ 31) % 2 ^ 32) at,
        apply_named_outside resolve m w a p (apart p at) lot symt at,
      )
    ]
