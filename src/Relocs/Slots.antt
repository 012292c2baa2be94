-- ===== src/Relocs/Slots.antt =====
-- The whole relocation walk of a load in udynlink/udynlink.c, for an untagged module.
use udynlink.Prelude.{
  ℕ, ◌+◌, ◌*◌, ◌≡◌, ◌≢◌, ◌⊎◌, ◌<◌, ◌≤◌, refl, inl, inr, arith, false, Option-cases, Option, some,
  none,
}
use udynlink.Memory.{Memory, read32, write32}
use udynlink.Header.{load_bad_relocation_table, is_sectioned}
use udynlink.Symbols.{Sym, SymName, get_sym_at_raw}
use udynlink.Modules.{Resolver, header_of, get_data_pointer, get_reloc_target, weak_override}
use udynlink.Relocs.{
  is_code_base, Walk, Outcome, apply_base, apply_named, apply_one, lot_word, symt_word,
}
use udynlink.Relocs.Passes.{AwayFrom, Within, SameBut}
use udynlink.Relocs.Reads.{
  Agree, read32-Agree, header_at-Agree, get_sym_at_raw-Agree, get_code_pointer_same,
  get_data_pointer_same, get_reloc_target_same, offset_sym_same,
}
use udynlink.Relocs.Verdicts.{Verdict, refuse, leave, put, symbol_verdict, verdict, carry_out}

-- The word that relocation `j` patches.
abbrev pub slot : Memory → Walk → ℕ → Option ℕ
slot m w j = get_reloc_target m w.p_mod w.tab (lot_word m w.p_relocations j)

-- What relocation `j` asks for.
abbrev pub wish : Resolver → Memory → Walk → ℕ → Verdict
wish resolve m w j =
    verdict resolve m w (lot_word m w.p_relocations j) (symt_word m w.p_relocations j)

abbrev pub round : Resolver → Walk → ℕ → Memory → Outcome
round resolve w j n =
    apply_one resolve n w (lot_word n w.p_relocations j) (symt_word n w.p_relocations j)

-- The `num_rels` relocations of an untagged module patch words of its block, each at most once. The
-- header, the relocations and the symbols lie elsewhere, and the host's answers do not hang on what
-- the words hold.
pub record IsLinkable (resolve : Resolver) (m : Memory) (w : Walk) (num_rels : ℕ) : Type 0 where
  pub untagged : is_sectioned (header_of m w.p_mod) ≡ false
  pub empty : w.tab.num ≡ 0
  pub once :
      (i j : ℕ)
      → i < num_rels
      → j < num_rels
      → i ≢ j
      → lot_word m w.p_relocations i ≢ lot_word m w.p_relocations j
  pub behind_lot : w.p_mod.p_ram + (header_of m w.p_mod).num_lot * 4 ≤ get_data_pointer m w.p_mod
  pub header_apart :
      (j a : ℕ)
      → j < num_rels
      → w.p_mod.p_header ≤ a
      → a < w.p_mod.p_header + 32
      → AwayFrom a (slot m w j)
  pub rels_apart :
      (j a : ℕ)
      → j < num_rels
      → w.p_relocations ≤ a
      → a < w.p_relocations + num_rels * 8
      → AwayFrom a (slot m w j)
  pub symt_apart :
      (j a : ℕ)
      → j < num_rels
      → w.p_symtab ≤ a
      → a < w.p_symtab + w.symt_size
      → AwayFrom a (slot m w j)
  pub steady :
      (n : Memory) (name : SymName)
      → SameBut (slot m w) num_rels m n
      → resolve n w.p_mod name ≡ resolve m w.p_mod name

-- Two words of the block for two places in it are apart.
pub targets_apart :
    (m : Memory) (w : Walk) (l k p q : ℕ)
    → w.tab.num ≡ 0
    → w.p_mod.p_ram + (header_of m w.p_mod).num_lot * 4 ≤ get_data_pointer m w.p_mod
    → l ≢ k
    → get_reloc_target m w.p_mod w.tab l ≡ some p
    → get_reloc_target m w.p_mod w.tab k ≡ some q
    → (p + 4 ≤ q) ⊎ (q + 4 ≤ p)
unfolding get_reloc_target
targets_apart m w l k p q empty behind ne at at' = ground arith

pub apply_one_missing :
    (resolve : Resolver) (m : Memory) (w : Walk) (lot symt : ℕ)
    → get_reloc_target m w.p_mod w.tab lot ≡ none
    → (apply_one resolve m w lot symt).0 ≡ load_bad_relocation_table
unfolding apply_one apply_base apply_named
apply_one_missing resolve m w lot symt missing =
    elim (Option-cases (get_sym_at_raw m w.p_symtab symt w.symt_size)) [
      | inl nameless ↦ ground (arith, missing, nameless)
      | inr (s, known) ↦ ground (arith, missing, known)
    ]

pub verdict_missing :
    (resolve : Resolver) (m : Memory) (w : Walk) (lot symt : ℕ)
    → get_reloc_target m w.p_mod w.tab lot ≡ none
    → verdict resolve m w lot symt ≡ refuse load_bad_relocation_table
unfolding verdict
verdict_missing resolve m w lot symt missing = rw (missing, verdict) refl

pub carry_out_within :
    (v : Verdict) (m n : Memory) (p a : ℕ)
    → p ≤ a
    → a < p + 4
    → n a ≡ m a
    → carry_out v n p a ≡ carry_out v m p a
unfolding write32
carry_out_within (refuse code) m n p a lo hi same = same
carry_out_within leave m n p a lo hi same = same
carry_out_within (put v) m n p a lo hi same = ground arith

pub rounds-apart :
    (resolve : Resolver) (m : Memory) (w : Walk) (num_rels : ℕ)
    → IsLinkable resolve m w num_rels
    → (i j a : ℕ) → i < num_rels
    → j < num_rels
    → i ≢ j
    → Within a (slot m w i)
    → AwayFrom a (slot m w j)
rounds-apart resolve m w num_rels link i j a lt lt' ne (p, at, lo, hi) q at' =
    let far =
      targets_apart m w (lot_word m w.p_relocations i) (lot_word m w.p_relocations j) p q link.empty
        link.behind_lot (link.once i j lt lt' ne) at at' in
    ground (arith, far)

module _ (resolve : Resolver) (m : Memory) (w : Walk) (num_rels : ℕ)
    (link : IsLinkable resolve m w num_rels) (n : Memory)
    (same : SameBut (slot m w) num_rels m n) where
  pub header_same : header_of n w.p_mod ≡ header_of m w.p_mod
  header_same =
      header_at-Agree w.p_mod.p_header m n
        (λ a lo hi. same a (λ j lt. link.header_apart j a lt lo hi))

  pub symt_same :
      (index : ℕ)
      → is_code_base index ≡ false
      → get_sym_at_raw n w.p_symtab index w.symt_size
        ≡ get_sym_at_raw m w.p_symtab index w.symt_size
  symt_same index low =
      get_sym_at_raw-Agree w.p_symtab index w.symt_size m n low
        (λ a lo hi. same a (λ j lt. link.symt_apart j a lt lo hi))

  rels-Agree :
      (j k : ℕ)
      → j < num_rels
      → k ≤ 4
      → Agree (w.p_relocations + j * 8 + k) (w.p_relocations + j * 8 + k + 4) m n
  rels-Agree j k lt le a lo hi =
      same a (λ i inside. link.rels_apart i a inside (omega arith) (omega arith))

  pub lot_word_same :
      (j : ℕ) → j < num_rels → lot_word n w.p_relocations j ≡ lot_word m w.p_relocations j
  lot_word_same j lt =
      read32-Agree (w.p_relocations + j * 8) m n
        (λ a lo hi. rels-Agree j 0 lt (omega arith) a (omega arith) (omega arith))

  pub symt_word_same :
      (j : ℕ) → j < num_rels → symt_word n w.p_relocations j ≡ symt_word m w.p_relocations j
  symt_word_same j lt =
      read32-Agree (w.p_relocations + j * 8 + 4) m n (rels-Agree j 4 lt (omega arith))

  pub target_same :
      (lot : ℕ) → get_reloc_target n w.p_mod w.tab lot ≡ get_reloc_target m w.p_mod w.tab lot
  target_same lot = get_reloc_target_same m n w.p_mod header_same link.untagged w.tab lot link.empty

  symbol_verdict_same :
      (s : Sym) → symbol_verdict resolve n w.p_mod s ≡ symbol_verdict resolve m w.p_mod s
  unfolding symbol_verdict weak_override
  symbol_verdict_same s =
      rw (link.steady n s.name same, offset_sym_same m n w.p_mod header_same link.untagged s) refl

  -- A relocation asks for the same as long as its own word is the same.
  pub verdict_same :
      (lot symt p : ℕ)
      → get_reloc_target m w.p_mod w.tab lot ≡ some p
      → read32 n p ≡ read32 m p
      → verdict resolve n w lot symt ≡ verdict resolve m w lot symt
  unfolding verdict
  verdict_same lot symt p at word =
      let data_ptr = get_data_pointer_same m n w.p_mod header_same link.untagged in
      let code_ptr = get_code_pointer_same m n w.p_mod header_same link.untagged in
      elim (Option-cases (get_sym_at_raw m w.p_symtab symt w.symt_size)) [
        | inl missing ↦
            ground (arith, target_same lot, at, word, data_ptr, code_ptr, symt_same symt, missing)
        | inr (s, known) ↦ ground (
          arith,
          target_same lot,
          at,
          word,
          data_ptr,
          code_ptr,
          symt_same symt,
          known,
          symbol_verdict_same s,
        )
      ]
