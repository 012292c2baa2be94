-- ===== src/Relocs/Rounds.antt =====
-- The rounds of the relocation walk of a load in udynlink/udynlink.c, in an untagged module, each against
-- what its relocation asks for.
use mathlib.Core.Path.{subst}
use udynlink.Prelude.{ℕ, ◌≡◌, ◌<◌, refl, inl, inr, arith, Option-cases, some, none, ap, sym, ◌∙◌}
use udynlink.Memory.{Memory, read32, write32}
use udynlink.Memory.Laws.{write32_outside}
use udynlink.Symbols.{SymName}
use udynlink.Modules.{Resolver, get_reloc_target}
use udynlink.Relocs.{Walk, apply_one, lot_word, symt_word}
use udynlink.Relocs.Frame.{apply_one_outside}
use udynlink.Relocs.Passes.{AwayFrom, Within, SameBut, IsPass}
use udynlink.Relocs.Reads.{read32-Agree}
use udynlink.Relocs.Verdicts.{code_of, carry_out, CarriesOut, apply_one-CarriesOut}
use udynlink.Relocs.Slots.{
  slot, wish, round, IsLinkable, apply_one_missing, carry_out_within, lot_word_same, symt_word_same,
  target_same, verdict_same, verdict_missing, rounds-apart,
}

module _ (resolve : Resolver) (m : Memory) (w : Walk) (num_rels : ℕ)
    (link : IsLinkable resolve m w num_rels) where
  Near-write32 :
      (j p v : ℕ) (n : Memory)
      → j < num_rels
      → slot m w j ≡ some p
      → SameBut (slot m w) num_rels m n
      → SameBut (slot m w) num_rels m (write32 n p v)
  Near-write32 j p v n lt at near a outside =
      write32_outside n p v a (outside j lt p at) ∙ near a outside

  -- In its own slot a relocation behaves on any such memory as its wish says.
  round-CarriesOut :
      (j p : ℕ) (n : Memory)
      → j < num_rels
      → slot m w j ≡ some p
      → SameBut (slot m w) num_rels m n
      → read32 n p ≡ read32 m p
      → CarriesOut (wish resolve m w j) n p (round resolve w j n)
  round-CarriesOut j p n lt at near word =
      let lot = lot_word m w.p_relocations j in
      let symt = symt_word m w.p_relocations j in
      let steady : (v : ℕ) (name : SymName)
          → resolve (write32 n p v) w.p_mod name ≡ resolve n w.p_mod name =
        λ v name.
          link.steady (write32 n p v) name (Near-write32 j p v n lt at near)
          ∙ sym (link.steady n name near) in
      let at' = target_same resolve m w num_rels link n near lot ∙ at in
      let done = apply_one-CarriesOut resolve n w p link.empty steady lot symt at' in
      let same = verdict_same resolve m w num_rels link n near lot symt p at word in
      let carried = subst (λ v. CarriesOut v n p (apply_one resolve n w lot symt)) same done in
      rw
        (
          lot_word_same resolve m w num_rels link n near j lt,
          symt_word_same resolve m w num_rels link n near j lt,
        )
        carried

  round_outside :
      (j : ℕ) (n : Memory) (a : ℕ)
      → j < num_rels
      → SameBut (slot m w) num_rels m n
      → AwayFrom a (slot m w j)
      → (round resolve w j n).1 a ≡ n a
  round_outside j n a lt near outside =
      apply_one_outside resolve n w (lot_word n w.p_relocations j) (symt_word n w.p_relocations j) a
        (λ p at. outside p (
          sym (target_same resolve m w num_rels link n near (lot_word m w.p_relocations j))
          ∙ ap (get_reloc_target n w.p_mod w.tab)
              (sym (lot_word_same resolve m w num_rels link n near j lt))
          ∙ at))

  weaken :
      (j : ℕ) (n : Memory)
      → j < num_rels
      → SameBut (slot m w) j m n
      → SameBut (slot m w) num_rels m n
  weaken j n lt near a outside = near a (λ i inside. outside i (omega arith))

  no_target :
      (j : ℕ) (n : Memory)
      → j < num_rels
      → SameBut (slot m w) num_rels m n
      → slot m w j ≡ none
      → slot n w j ≡ none
  no_target j n lt near missing =
      ap (get_reloc_target n w.p_mod w.tab) (lot_word_same resolve m w num_rels link n near j lt)
      ∙ target_same resolve m w num_rels link n near (lot_word m w.p_relocations j)
      ∙ missing

  round_alone :
      (j : ℕ) (n : Memory)
      → j < num_rels
      → SameBut (slot m w) num_rels m n
      → ((a : ℕ) → Within a (slot m w j) → n a ≡ m a)
      → ((round resolve w j n).0 ≡ (round resolve w j m).0)
        × ((a : ℕ) → Within a (slot m w j) → (round resolve w j n).1 a ≡ (round resolve w j m).1 a)
  round_alone j n lt near fresh = elim (Option-cases (slot m w j)) [
    | inl missing ↦ (
      apply_one_missing resolve n w (lot_word n w.p_relocations j) (symt_word n w.p_relocations j)
            (no_target j n lt near missing)
          ∙ sym (
              apply_one_missing resolve m w (lot_word m w.p_relocations j)
                (symt_word m w.p_relocations j) missing),
      λ a (q, at, lo, hi). absurd (cc),
    )
    | inr (p, at) ↦
        let word : read32 n p ≡ read32 m p =
          read32-Agree p m n (λ a lo hi. fresh a (p, at, lo, hi)) in
        let (code, byte) = round-CarriesOut j p n lt at near word in
        let (code', byte') = round-CarriesOut j p m lt at (λ a outside. refl) refl in
        (
          code ∙ sym code',
          λ a (q, at'', lo, hi).
              let one : p ≡ q = cc in
              byte a
              ∙ carry_out_within (wish resolve m w j) m n p a (omega arith) (omega arith)
                  (fresh a (q, at'', lo, hi))
              ∙ sym (byte' a),
        )
  ]

  pub relocs-IsPass : IsPass (round resolve w) (slot m w) num_rels m
  relocs-IsPass = record {
    apart = rounds-apart resolve m w num_rels link;
    frame = λ j n a lt near outside. round_outside j n a lt (weaken j n lt near) outside;
    alone = λ j n lt near fresh. round_alone j n lt (weaken j n lt near) fresh;
  }

  -- On the memory at the start each round ends with the code of its wish.
  pub round_code : (j : ℕ) → j < num_rels → (round resolve w j m).0 ≡ code_of (wish resolve m w j)
  round_code j lt = elim (Option-cases (slot m w j)) [
    | inl missing ↦
        apply_one_missing resolve m w (lot_word m w.p_relocations j) (symt_word m w.p_relocations j)
          missing
        ∙ sym (
            ap code_of (
              verdict_missing resolve m w (lot_word m w.p_relocations j)
                (symt_word m w.p_relocations j) missing))
    | inr (p, at) ↦ (round-CarriesOut j p m lt at (λ a outside. refl) refl).0
  ]

  -- The word of a slot behind the walk, from its bytes.
  pub slot_word :
      (j p : ℕ) (n : Memory)
      → j < num_rels
      → slot m w j ≡ some p
      → ((a : ℕ) → Within a (slot m w j) → n a ≡ (round resolve w j m).1 a)
      → read32 n p ≡ read32 (carry_out (wish resolve m w j) m p) p
  slot_word j p n lt at bytes =
      let (code, byte) = round-CarriesOut j p m lt at (λ a outside. refl) refl in
      read32-Agree p (carry_out (wish resolve m w j) m p) n
        (λ a lo hi. bytes a (p, at, lo, hi) ∙ byte a)
