-- ===== src/Loader/Faithful.antt =====
-- A loaded untagged image, udynlink/udynlink.c, against the image, in the modes that keep the header
-- where it is.
use mathlib.Core.Path.{subst}
use udynlink.Prelude.{
  ℕ, ◌+◌, ◌*◌, ◌^◌, ◌≡◌, ◌≢◌, ◌⊎◌, ◌<◌, ◌≤◌, refl, arith, false, some, ap, sym, ◌∙◌,
}
use udynlink.Memory.{Memory}
use udynlink.Header.{copy_text_data, Header, LoadMode, is_sectioned, max_ram_size}
use udynlink.Sections.{empty_view}
use udynlink.Symbols.{SymName}
use udynlink.Modules.{Module, Resolver, header_of, get_data_pointer, get_reloc_target}
use udynlink.Relocs.{Walk, lot_word}
use udynlink.Relocs.Passes.{AwayFrom}
use udynlink.Relocs.Reads.{header_at-Agree, read32-Agree}
use udynlink.Relocs.Slots.{slot, IsLinkable}
use udynlink.Relocs.Entry.{load_walk}
use udynlink.Loader.Copy.{Image, is_copy_all}
use udynlink.Loader.Extents.{ram_of, data_at, bss_inside, get_data_pointer-data_at}
use udynlink.Loader.Content.{filled, filled_outside}

-- Not in the block of the module.
abbrev pub OffBlock : Memory → Module → LoadMode → ℕ → Type 0
OffBlock m p_mod mode a = (a < p_mod.p_ram) ⊎ (p_mod.p_ram + ram_of (header_of m p_mod) mode ≤ a)

-- The image fits the block that its handle names: what the load reads lies elsewhere, no word is
-- relocated twice, and the host's answers do not hang on what the block holds. Where .text
-- is copied, .data follows it in the image, as `udynlink_image_from_memory` has it: that copy
-- does not look at `p_data`. The size of the block is a 32-bit number.
pub record IsLoadable (resolve : Resolver) (m : Memory) (image : Image) (p_mod : Module)
    (mode : LoadMode) : Type 0 where
  pub here : p_mod.p_header ≡ image.p_header
  pub moded : p_mod.mode ≡ mode
  pub stays : is_copy_all mode ≡ false
  pub untagged : is_sectioned (header_of m p_mod) ≡ false
  pub whole : ram_of (header_of m p_mod) mode < 2 ^ 32
  pub data_behind :
      mode ≡ copy_text_data → image.p_data ≡ image.p_code + (header_of m p_mod).code_size
  pub header_off : (a : ℕ) → p_mod.p_header ≤ a → a < p_mod.p_header + 32 → OffBlock m p_mod mode a
  pub rels_off :
      (a : ℕ)
      → image.p_relocations ≤ a
      → a < image.p_relocations + (header_of m p_mod).num_rels * 8
      → OffBlock m p_mod mode a
  pub symt_off :
      (a : ℕ)
      → image.p_symtab ≤ a
      → a < image.p_symtab + (header_of m p_mod).symt_size
      → OffBlock m p_mod mode a
  pub once :
      (i j : ℕ)
      → i < (header_of m p_mod).num_rels
      → j < (header_of m p_mod).num_rels
      → i ≢ j
      → lot_word m image.p_relocations i ≢ lot_word m image.p_relocations j
  pub steady :
      (n : Memory) (name : SymName)
      → ((a : ℕ) → OffBlock m p_mod mode a → n a ≡ m a)
      → resolve n p_mod name ≡ resolve m p_mod name

-- A word that a relocation patches is an entry of the LOT or a word of .data.
slot_place :
    (n : Memory) (w : Walk) (mode : LoadMode) (h : Header) (lot p : ℕ)
    → header_of n w.p_mod ≡ h
    → w.tab.num ≡ 0
    → get_data_pointer n w.p_mod ≡ data_at h mode w.p_mod.p_ram
    → get_reloc_target n w.p_mod w.tab lot ≡ some p
    → ((w.p_mod.p_ram ≤ p) × (p + 4 ≤ w.p_mod.p_ram + h.num_lot * 4))
      ⊎ ((data_at h mode w.p_mod.p_ram ≤ p) × (p + 4 ≤ data_at h mode w.p_mod.p_ram + h.data_size))
unfolding get_reloc_target
slot_place n w mode h lot p same empty start at =
    let lots = ap (λ (h : Header). h.num_lot) same in
    let size = ap (λ (h : Header). h.data_size) same in ground (arith, lots, size)

module _ (resolve : Resolver) (m : Memory) (image : Image) (p_mod : Module) (mode : LoadMode)
    (loadable : IsLoadable resolve m image p_mod mode)
    (fits : ram_of (header_of m p_mod) mode ≤ max_ram_size) where
  pub outside_same : (a : ℕ) → OffBlock m p_mod mode a → filled m image p_mod mode a ≡ m a
  outside_same =
      filled_outside m image p_mod mode loadable.moded loadable.stays loadable.untagged fits
        loadable.header_off

  pub header_kept : header_of (filled m image p_mod mode) p_mod ≡ header_of m p_mod
  header_kept =
      header_at-Agree p_mod.p_header m (filled m image p_mod mode)
        (λ a lo hi. outside_same a (loadable.header_off a lo hi))

  data_start :
      get_data_pointer (filled m image p_mod mode) p_mod
      ≡ data_at (header_of m p_mod) mode p_mod.p_ram
  data_start =
      let header = header_kept in
      get_data_pointer-data_at (filled m image p_mod mode) p_mod mode loadable.moded
        (rw header loadable.untagged) loadable.stays
      ∙ ap (λ h. data_at h mode p_mod.p_ram) header

  abbrev walk : Walk
  walk =
      load_walk (filled m image p_mod mode) p_mod p_mod.p_header image.p_relocations image.p_symtab

  lot_kept :
      (j : ℕ)
      → j < (header_of m p_mod).num_rels
      → lot_word (filled m image p_mod mode) image.p_relocations j
        ≡ lot_word m image.p_relocations j
  lot_kept j lt =
      read32-Agree (image.p_relocations + j * 8) m (filled m image p_mod mode)
        (λ a lo hi. outside_same a (loadable.rels_off a (omega arith) (omega arith)))

  pub slot_within :
      (j p : ℕ)
      → slot
          (filled m image p_mod mode)
          (load_walk
            (filled m image p_mod mode)
            p_mod
            p_mod.p_header
            image.p_relocations
            image.p_symtab)
          j
        ≡ some p
      → ((p_mod.p_ram ≤ p) × (p + 4 ≤ p_mod.p_ram + (header_of m p_mod).num_lot * 4))
        ⊎ ((data_at (header_of m p_mod) mode p_mod.p_ram ≤ p)
            × (p + 4
                ≤ data_at (header_of m p_mod) mode p_mod.p_ram + (header_of m p_mod).data_size))
  unfolding empty_view
  slot_within j p at =
      slot_place (filled m image p_mod mode)
        (load_walk (filled m image p_mod mode) p_mod p_mod.p_header image.p_relocations
          image.p_symtab)
        mode (header_of m p_mod) (lot_word (filled m image p_mod mode) image.p_relocations j) p
        header_kept refl data_start at

  pub slot_off :
      (j a : ℕ)
      → OffBlock m p_mod mode a
      → AwayFrom a (
          slot
            (filled m image p_mod mode)
            (load_walk
              (filled m image p_mod mode)
              p_mod
              p_mod.p_header
              image.p_relocations
              image.p_symtab)
            j)
  slot_off j a off p at =
      let within = slot_within j p at in
      let end = bss_inside (header_of m p_mod) mode p_mod.p_ram in ground (arith, within, end)

  pub filled-IsLinkable :
      IsLinkable resolve
        (filled m image p_mod mode)
        (load_walk
          (filled m image p_mod mode)
          p_mod
          p_mod.p_header
          image.p_relocations
          image.p_symtab)
        (header_of m p_mod).num_rels
  unfolding empty_view
  filled-IsLinkable =
      let header = header_kept in
      record {
        untagged = rw header loadable.untagged;
        empty = refl;
        once = λ i j lt lt' ne. rw (lot_kept i lt, lot_kept j lt') (loadable.once i j lt lt' ne);
        behind_lot = rw (data_start, header) (bss_inside (header_of m p_mod) mode p_mod.p_ram).0;
        header_apart = λ j a lt lo hi. slot_off j a (loadable.header_off a lo hi);
        rels_apart = λ j a lt lo hi. slot_off j a (loadable.rels_off a lo hi);
        symt_apart = λ j a lt lo hi.
            slot_off j a
              (loadable.symt_off a lo (subst (λ h. a < image.p_symtab + h.symt_size) header hi));
        steady = λ n name near.
            loadable.steady n name (λ a off. near a (λ j lt. slot_off j a off) ∙ outside_same a off)
            ∙ sym (loadable.steady (filled m image p_mod mode) name outside_same);
      }
