-- ===== src/Relocate/Untagged/Rounds.antt =====
-- One round of `rebase_module_pointers`, udynlink/udynlink.c, which shifts the pointers of a moved
-- untagged module.
use udynlink.Prelude.{
  ℕ, ◌+◌, ◌*◌, ◌^◌, ◌≡◌, ◌⊎◌, ◌<◌, ◌≤◌, ◌==◌, ◌||◌, ◌&&◌, ltb, refl, inl, inr, arith, true, false,
  Bool-cases, Option-cases, some, none, ◌∙◌, if◌then◌else◌, add32,
}
use udynlink.Memory.{Memory, read32}
use udynlink.Memory.Laws.{write32_outside}
use udynlink.Symbols.{get_sym_at_raw, type_internal, type_exported, type_weak}
use udynlink.Modules.{Module, Resolver, header_of, get_data_pointer, get_reloc_target}
use udynlink.Relocs.{Walk, lot_word, symt_word, is_abs32, is_code_base}
use udynlink.Relocs.Passes.{SameBut, AwayFrom}
use udynlink.Relocs.Verdicts.{refuse, Verdict, leave, put, carry_out}
use udynlink.Relocs.Slots.{slot, IsLinkable, symt_same, lot_word_same, symt_word_same}
use udynlink.Relink.Slots.{link_walk}
use udynlink.Relocate.Untagged.{Shift, Rebase, data_slot, default_old, delta_of, rebase_one}

-- What the walk keeps in variables.
abbrev pub rebase_of : Memory → Module → Shift → Rebase
rebase_of m p_mod shift = record {
  shift = shift;
  p_lot = p_mod.p_ram;
  p_data = get_data_pointer m p_mod;
  num_lot = (header_of m p_mod).num_lot;
  p_symt = (link_walk m p_mod).p_symtab;
  symt_size = (link_walk m p_mod).symt_size;
}

-- No name is asked of the host.
abbrev pub nobody : Resolver
nobody m p_mod name = 0

-- The relocations were accepted by the load: each has a word to patch, inside the address space, and
-- the ones that add a base stand for words of .data.
pub record IsLoaded (m : Memory) (p_mod : Module) (num_rels : ℕ) : Type 0 where
  pub linkable : IsLinkable nobody m (link_walk m p_mod) num_rels
  pub placed :
      (j : ℕ) → j < num_rels → (p : ℕ) × (slot m (link_walk m p_mod) j ≡ some p) × (p + 4 ≤ 2 ^ 32)
  pub lots_fit : (j : ℕ) → j < num_rels → lot_word m (link_walk m p_mod).p_relocations j < 2 ^ 32
  pub bases_in_data :
      (j : ℕ)
      → j < num_rels
      → (is_abs32 (symt_word m (link_walk m p_mod).p_relocations j)
          || is_code_base (symt_word m (link_walk m p_mod).p_relocations j))
        ≡ true
      → (header_of m p_mod).num_lot ≤ lot_word m (link_walk m p_mod).p_relocations j

-- What a round is to do with the word at `p`.
unfoldable pub rebase_verdict : Memory → Rebase → ℕ → ℕ → Verdict
rebase_verdict m r p symt =
    if is_abs32 symt
    then put (add32 (read32 m p) r.shift.data_delta)
    else if is_code_base symt
    then put (add32 (read32 m p) r.shift.code_delta)
    else elim (get_sym_at_raw m r.p_symt symt r.symt_size) [
      | none ↦ leave
      | some s ↦
          if s.type == type_internal
            || s.type == type_exported
            || (s.type == type_weak && read32 m p == default_old r s)
          then put (add32 (read32 m p) (delta_of r s))
          else leave
    ]

-- The word that a round finds is the one of the load.
rebase_place : Rebase → ℕ → ℕ
rebase_place r lot = if ltb lot r.num_lot then r.p_lot + lot * 4 else data_slot r lot

rebase_place_lem :
    (m : Memory) (p_mod : Module) (shift : Shift) (w : Walk) (lot p : ℕ)
    → w.tab.num ≡ 0
    → get_reloc_target m p_mod w.tab lot ≡ some p
    → p + 4 ≤ 2 ^ 32
    → lot < 2 ^ 32
    → rebase_place (rebase_of m p_mod shift) lot ≡ p
unfolding rebase_place data_slot get_reloc_target
rebase_place_lem m p_mod shift w lot p empty at inside fits = ground arith

rebase_place_behind :
    (r : Rebase) (lot p : ℕ) → r.num_lot ≤ lot → rebase_place r lot ≡ p → data_slot r lot ≡ p
unfolding rebase_place
rebase_place_behind r lot p behind place = ground (arith, place)

rebase_base-carry_out :
    (n : Memory) (r : Rebase) (lot symt p a : ℕ)
    → data_slot r lot ≡ p
    → (is_abs32 symt || is_code_base symt) ≡ true
    → rebase_one n r lot symt a ≡ carry_out (rebase_verdict n r p symt) n p a
unfolding rebase_one rebase_verdict
rebase_base-carry_out n r lot symt p a place base = ground (arith, place, base)

rebase_named-carry_out :
    (n : Memory) (r : Rebase) (lot symt p a : ℕ)
    → rebase_place r lot ≡ p
    → (is_abs32 symt || is_code_base symt) ≡ false
    → rebase_one n r lot symt a ≡ carry_out (rebase_verdict n r p symt) n p a
unfolding rebase_one rebase_verdict rebase_place
rebase_named-carry_out n r lot symt p a place named =
    elim (Option-cases (get_sym_at_raw n r.p_symt symt r.symt_size)) [
      | inl missing ↦ ground (arith, missing)
      | inr (s, known) ↦ rw (← place) (ground (arith, known))
    ]

carry_out_outside :
    (v : Verdict) (m : Memory) (p a : ℕ) → (a < p) ⊎ (p + 4 ≤ a) → carry_out v m p a ≡ m a
carry_out_outside (refuse code) m p a apart = refl
carry_out_outside leave m p a apart = refl
carry_out_outside (put v) m p a apart = write32_outside m p v a apart

module _ (m : Memory) (p_mod : Module) (num_rels : ℕ) (shift : Shift)
    (loaded : IsLoaded m p_mod num_rels) (n : Memory)
    (near : SameBut (slot m (link_walk m p_mod)) num_rels m n) where
  pub rebase_verdict_same :
      (p symt : ℕ)
      → read32 n p ≡ read32 m p
      → rebase_verdict n (rebase_of m p_mod shift) p symt
        ≡ rebase_verdict m (rebase_of m p_mod shift) p symt
  unfolding rebase_verdict
  rebase_verdict_same p symt word =
      elim (Option-cases
        (get_sym_at_raw m (link_walk m p_mod).p_symtab symt (link_walk m p_mod).symt_size)) [
          | inl missing ↦ ground (
            arith,
            word,
            symt_same nobody m (link_walk m p_mod) num_rels loaded.linkable n near symt,
            missing,
          )
          | inr (s, known) ↦ ground (
            arith,
            word,
            symt_same nobody m (link_walk m p_mod) num_rels loaded.linkable n near symt,
            known,
          )
        ]

  -- A round does in its own slot what the relocation asks for.
  pub rebase_carried :
      (j p a : ℕ)
      → j < num_rels
      → slot m (link_walk m p_mod) j ≡ some p
      → rebase_one n
          (rebase_of m p_mod shift)
          (lot_word n (link_walk m p_mod).p_relocations j)
          (symt_word n (link_walk m p_mod).p_relocations j)
          a
        ≡ carry_out
            (rebase_verdict n
              (rebase_of m p_mod shift)
              p
              (symt_word m (link_walk m p_mod).p_relocations j))
            n
            p
            a
  rebase_carried j p a lt at =
      let w = link_walk m p_mod in
      let r = rebase_of m p_mod shift in
      let lot = lot_word m w.p_relocations j in
      let symt = symt_word m w.p_relocations j in
      let (q, at', inside) = loaded.placed j lt in
      let one : q ≡ p = cc in
      let place =
        rebase_place_lem m p_mod shift w lot p loaded.linkable.empty at (omega arith)
          (loaded.lots_fit j lt) in
      let alone : rebase_one n r lot symt a ≡ carry_out (rebase_verdict n r p symt) n p a =
        elim (Bool-cases (is_abs32 symt || is_code_base symt)) [
          | inl base ↦
              rebase_base-carry_out n r lot symt p a
                (rebase_place_behind r lot p (loaded.bases_in_data j lt base) place) base
          | inr named ↦ rebase_named-carry_out n r lot symt p a place named
        ] in
      rw
        (
          lot_word_same nobody m w num_rels loaded.linkable n near j lt,
          symt_word_same nobody m w num_rels loaded.linkable n near j lt,
        )
        alone

  pub rebase_outside :
      (j a : ℕ)
      → j < num_rels
      → AwayFrom a (slot m (link_walk m p_mod) j)
      → rebase_one n
          (rebase_of m p_mod shift)
          (lot_word n (link_walk m p_mod).p_relocations j)
          (symt_word n (link_walk m p_mod).p_relocations j)
          a
        ≡ n a
  rebase_outside j a lt outside =
      let (p, at, inside) = loaded.placed j lt in
      rebase_carried j p a lt at
      ∙ carry_out_outside
          (rebase_verdict n (rebase_of m p_mod shift) p
            (symt_word m (link_walk m p_mod).p_relocations j))
          n p a (outside p at)
