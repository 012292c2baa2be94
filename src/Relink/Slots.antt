-- ===== src/Relink/Slots.antt =====
-- One round of linking a loaded, untagged module again, in udynlink/udynlink.c, against what its
-- relocation asks for.
use udynlink.Prelude.{
  Bool-cases, ℕ, ◌≡◌, ◌<◌, ◌==◌, ◌!=◌, ◌||◌, ◌&&◌, refl, inl, inr, arith, Bool, Option-cases,
  Option, some, none, ap, sym, ◌∙◌, if◌then◌else◌,
}
use udynlink.Memory.{Memory, read32}
use udynlink.Memory.Laws.{write32_outside}
use udynlink.Header.{get_relocs_pointer, get_sym_table_pointer}
use udynlink.Sections.{sectab_of}
use udynlink.Symbols.{Sym, SymName, get_sym_at, get_sym_at_raw, type_extern}
use udynlink.Modules.{Module, Resolver, header_of, sym_deferred, get_reloc_target}
use udynlink.Relocs.{Walk, lot_word, symt_word, is_abs32, is_code_base}
use udynlink.Relocs.Passes.{AwayFrom, SameBut}
use udynlink.Relocs.Verdicts.{Verdict, leave, put, carry_out}
use udynlink.Relocs.Slots.{
  slot, IsLinkable, header_same, symt_same, lot_word_same, symt_word_same, target_same,
}
use udynlink.Relink.{relink_one}

-- What a walk over a loaded module works on.
abbrev pub link_walk : Memory → Module → Walk
link_walk m p_mod =
    let h = header_of m p_mod in
    record {
      p_mod = p_mod;
      tab = sectab_of m p_mod.p_header;
      num_lot = h.num_lot;
      symt_size = h.symt_size;
      p_relocations = get_relocs_pointer h p_mod.p_header;
      p_symtab = get_sym_table_pointer h p_mod.p_header;
    }

-- The extern symbol that a relocation refers to, if it is one to an extern symbol.
unfoldable pub extern_symbol : Memory → Walk → ℕ → Option Sym
extern_symbol m w symt =
    if is_abs32 symt || is_code_base symt
    then none
    else elim (get_sym_at_raw m w.p_symtab symt w.symt_size) [
      | none ↦ none
      | some s ↦ if s.type == type_extern then some s else none
    ]

-- The host's address of a symbol, and 0 while that is deferred.
abbrev pub host_address : Resolver → Memory → Module → SymName → ℕ
host_address resolve m p_mod name =
    let sym_addr = resolve m p_mod name in if sym_addr == sym_deferred then 0 else sym_addr

unfoldable pub extern_verdict : Resolver → Bool → Memory → Walk → ℕ → ℕ → Verdict
extern_verdict resolve incremental m w p symt = elim (extern_symbol m w symt) [
  | none ↦ leave
  | some s ↦
      if incremental && read32 m p != 0 then leave else put (host_address resolve m w.p_mod s.name)
]

abbrev pub round : Resolver → Bool → Walk → ℕ → Memory → Memory
round resolve incremental w j n =
    relink_one resolve incremental w.p_mod w.tab n (lot_word n w.p_relocations j)
      (symt_word n w.p_relocations j)

relink_one-carry_out :
    (resolve : Resolver) (incremental : Bool) (m : Memory) (w : Walk) (lot symt p a : ℕ)
    → get_sym_at m w.p_mod.p_header symt ≡ get_sym_at_raw m w.p_symtab symt w.symt_size
    → get_reloc_target m w.p_mod w.tab lot ≡ some p
    → relink_one resolve incremental w.p_mod w.tab m lot symt a
      ≡ carry_out (extern_verdict resolve incremental m w p symt) m p a
unfolding relink_one extern_verdict extern_symbol
relink_one-carry_out resolve incremental m w lot symt p a symbols at =
    elim (Option-cases (get_sym_at_raw m w.p_symtab symt w.symt_size)) [
      | inl missing ↦ ground (arith, symbols, missing)
      | inr (s, known) ↦ ground (arith, symbols, known, at)
    ]

relink_one_outside :
    (resolve : Resolver) (incremental : Bool) (m : Memory) (w : Walk) (lot symt a : ℕ)
    → AwayFrom a (get_reloc_target m w.p_mod w.tab lot)
    → relink_one resolve incremental w.p_mod w.tab m lot symt a ≡ m a
unfolding relink_one
relink_one_outside resolve incremental m w lot symt a outside =
    elim (Option-cases (get_sym_at m w.p_mod.p_header symt)) [
      | inl missing ↦ ground (arith, missing)
      | inr (s, known) ↦ elim (Option-cases (get_reloc_target m w.p_mod w.tab lot)) [
        | inl nowhere ↦ ground (arith, known, nowhere)
        | inr (p, at) ↦ ground (
          arith,
          known,
          at,
          write32_outside m p 0 a (outside p at),
          write32_outside m p (resolve m w.p_mod s.name) a (outside p at),
        )
      ]
    ]

module _ (resolve : Resolver) (incremental : Bool) (m : Memory) (w : Walk) (num_rels : ℕ)
    (linkable : IsLinkable resolve m w num_rels)
    (table : w.p_symtab ≡ get_sym_table_pointer (header_of m w.p_mod) w.p_mod.p_header)
    (size : w.symt_size ≡ (header_of m w.p_mod).symt_size) where
  -- What a walk behind the first rounds reads.
  module _ (n : Memory) (near : SameBut (slot m w) num_rels m n) where
    symbol_at :
        (symt : ℕ)
        → get_sym_at n w.p_mod.p_header symt ≡ get_sym_at_raw n w.p_symtab symt w.symt_size
    unfolding get_sym_at
    symbol_at symt = rw (header_same resolve m w num_rels linkable n near, table, size) refl

    extern_symbol_same : (symt : ℕ) → extern_symbol n w symt ≡ extern_symbol m w symt
    unfolding extern_symbol
    extern_symbol_same symt = elim (Bool-cases (is_code_base symt)) [
      | inl code ↦ rw code (ground arith)
      | inr low ↦ rw (symt_same resolve m w num_rels linkable n near symt low) refl
    ]

    extern_verdict_same :
        (p symt : ℕ)
        → read32 n p ≡ read32 m p
        → extern_verdict resolve incremental n w p symt
          ≡ extern_verdict resolve incremental m w p symt
    unfolding extern_verdict
    extern_verdict_same p symt word = elim (Option-cases (extern_symbol m w symt)) [
      | inl other ↦ ground (arith, extern_symbol_same symt, other)
      | inr (s, known) ↦
          ground (arith, extern_symbol_same symt, known, word, linkable.steady n s.name near)
    ]

    words_same :
        (j : ℕ)
        → j < num_rels
        → (lot_word n w.p_relocations j ≡ lot_word m w.p_relocations j)
          × (symt_word n w.p_relocations j ≡ symt_word m w.p_relocations j)
    words_same j lt = (
      lot_word_same resolve m w num_rels linkable n near j lt,
      symt_word_same resolve m w num_rels linkable n near j lt,
    )

    -- A round does in its own slot what it would do alone.
    pub round_byte :
        (j p a : ℕ)
        → j < num_rels
        → slot m w j ≡ some p
        → read32 n p ≡ read32 m p
        → round resolve incremental w j n a
          ≡ carry_out
              (extern_verdict resolve incremental m w p (symt_word m w.p_relocations j))
              n
              p
              a
    round_byte j p a lt at word =
        let (lot_same, sym_same) = words_same j lt in
        let lot = lot_word m w.p_relocations j in
        let symt = symt_word m w.p_relocations j in
        let at' = target_same resolve m w num_rels linkable n near lot ∙ at in
        let alone =
          relink_one-carry_out resolve incremental n w lot symt p a (symbol_at symt) at' in
        rw (lot_same, sym_same)
          (alone ∙ ap (λ v. carry_out v n p a) (extern_verdict_same p symt word))

    pub round_outside :
        (j a : ℕ) → j < num_rels → AwayFrom a (slot m w j) → round resolve incremental w j n a ≡ n a
    round_outside j a lt outside =
        relink_one_outside resolve incremental n w (lot_word n w.p_relocations j)
          (symt_word n w.p_relocations j) a
          (λ p at. outside p (
            sym (target_same resolve m w num_rels linkable n near (lot_word m w.p_relocations j))
            ∙ ap (get_reloc_target n w.p_mod w.tab) (sym (words_same j lt).0)
            ∙ at))
