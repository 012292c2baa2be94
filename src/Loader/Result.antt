-- ===== src/Loader/Result.antt =====
-- A successful load of an untagged image, udynlink/udynlink.c, against the image, in the modes that
-- keep the header where it is.
use mathlib.Core.Path.{subst}
use udynlink.Prelude.{ℕ, ◌+◌, ◌*◌, ◌^◌, ◌≡◌, ◌<◌, ◌≤◌, refl, arith, true, false, some, ap, sym, ◌∙◌}
use udynlink.Memory.{Memory}
use udynlink.Header.{header_at, LoadMode, copy_text_data, is_sectioned, max_ram_size}
use udynlink.Modules.{Module, Resolver, header_of}
use udynlink.Relocs.{is_ok, load_apply_relocations}
use udynlink.Relocs.Passes.{AwayFrom}
use udynlink.Relocs.Slots.{slot, IsLinkable}
use udynlink.Relocs.Entry.{load_walk}
use udynlink.Relocs.Linked.{AreSlots, load_apply_relocations-AreSlots}
use udynlink.Host.{Host, World}
use udynlink.Loader.{load_module_image}
use udynlink.Loader.Copy.{Image}
use udynlink.Loader.Planning.{check_sizes, plan_load, block_size}
use udynlink.Loader.Leaks.{plan_load_untagged}
use udynlink.Loader.Extents.{ram_of, data_at, bss_inside, get_ram_size_for_header-ram_of}
use udynlink.Loader.Content.{filled, filled_text, filled_data, filled_bss}
use udynlink.Loader.Loaded.{placed, load_module_image_relocated}
use udynlink.Loader.Faithful.{
  OffBlock, IsLoadable, outside_same, header_kept, slot_within, slot_off, filled-IsLinkable,
}

-- What a loaded image holds, in the memory `m'` of a load from `m`: the .text that is copied, .data but
-- for the words that are relocated, an empty .bss, and the relocated words.
pub record IsCopy (resolve : Resolver) (m : Memory) (image : Image) (p_mod : Module)
    (mode : LoadMode) (m' : Memory) : Type 0 where
  pub text :
      (i : ℕ)
      → mode ≡ copy_text_data
      → i < (header_of m p_mod).code_size
      → m' (p_mod.p_ram + (header_of m p_mod).num_lot * 4 + i) ≡ m (image.p_code + i)
  pub unrelocated :
      (i : ℕ)
      → i < (header_of m p_mod).data_size
      → ((j : ℕ)
          → j < (header_of m p_mod).num_rels
          → AwayFrom (data_at (header_of m p_mod) mode p_mod.p_ram + i) (
              slot
                (filled m image p_mod mode)
                (load_walk
                  (filled m image p_mod mode)
                  p_mod
                  p_mod.p_header
                  image.p_relocations
                  image.p_symtab)
                j))
      → m' (data_at (header_of m p_mod) mode p_mod.p_ram + i) ≡ m (image.p_data + i)
  pub relocated :
      AreSlots resolve
        (filled m image p_mod mode)
        (load_walk
          (filled m image p_mod mode)
          p_mod
          p_mod.p_header
          image.p_relocations
          image.p_symtab)
        (header_of m p_mod).num_rels
        m'
  pub bss :
      (i : ℕ)
      → i < (header_of m p_mod).bss_size
      → m' (data_at (header_of m p_mod) mode p_mod.p_ram + (header_of m p_mod).data_size + i) ≡ 0
  pub beyond : (a : ℕ) → OffBlock m p_mod mode a → m' a ≡ m a

-- The copy of the image, relocated.
filled-IsCopy :
    (resolve : Resolver) (m m' : Memory) (image : Image) (p_mod : Module) (mode : LoadMode)
    (loadable : IsLoadable resolve m image p_mod mode)
    (fits : ram_of (header_of m p_mod) mode ≤ max_ram_size)
    → AreSlots resolve
        (filled m image p_mod mode)
        (load_walk
          (filled m image p_mod mode)
          p_mod
          p_mod.p_header
          image.p_relocations
          image.p_symtab)
        (header_of m p_mod).num_rels
        m'
    → IsCopy resolve m image p_mod mode m'
filled-IsCopy resolve m m' image p_mod mode loadable fits slots = record {
  text = λ i text inside.
      slots.outside (p_mod.p_ram + (header_of m p_mod).num_lot * 4 + i) (λ j lt p at.
        let within = slot_within resolve m image p_mod mode loadable fits j p at in
        let start : data_at (header_of m p_mod) mode p_mod.p_ram
            ≡ p_mod.p_ram + (header_of m p_mod).num_lot * 4 + (header_of m p_mod).code_size =
          rw text refl in
        ground (arith, within, start))
      ∙ filled_text m image p_mod mode loadable.moded loadable.stays loadable.untagged fits
          loadable.header_off i text inside;
  unrelocated = λ i inside away.
      slots.outside (data_at (header_of m p_mod) mode p_mod.p_ram + i) away
      ∙ filled_data m image p_mod mode loadable.moded loadable.stays loadable.untagged fits
          loadable.header_off i loadable.data_behind inside;
  relocated = slots;
  bss = λ i inside.
      slots.outside
        (data_at (header_of m p_mod) mode p_mod.p_ram + (header_of m p_mod).data_size + i)
        (λ j lt p at.
          let within = slot_within resolve m image p_mod mode loadable fits j p at in
          let end = bss_inside (header_of m p_mod) mode p_mod.p_ram in ground (arith, within, end))
      ∙ filled_bss m image p_mod mode loadable.moded loadable.stays loadable.untagged fits
          loadable.header_off i inside;
  beyond = λ a off.
      slots.outside a (λ j lt. slot_off resolve m image p_mod mode loadable fits j a off)
      ∙ outside_same resolve m image p_mod mode loadable fits a off;
}

-- The block of an untagged image that passes the checks has the size of its parts, within the cap.
pub plan_load_fits :
    (m : Memory) (p_header : ℕ) (mode : LoadMode)
    → is_sectioned (header_at m p_header) ≡ false
    → ram_of (header_at m p_header) mode < 2 ^ 32
    → is_ok (plan_load m p_header mode).code ≡ true
    → ((plan_load m p_header mode).ram_size ≡ ram_of (header_at m p_header) mode)
      × (ram_of (header_at m p_header) mode ≤ max_ram_size)
unfolding plan_load check_sizes block_size
plan_load_fits m p_header mode untagged whole good =
    let size = get_ram_size_for_header-ram_of m p_header mode untagged whole in
    let tab = (plan_load_untagged m p_header mode untagged).0 in
    (ground (arith, size, tab), ground (arith, size, tab))

-- A load of an untagged image in a mode that keeps its header where it is, that ends well, leaves in
-- the block .text, if it is copied, and .data as they are in the image but for the relocated
-- words, zeros in .bss, and in each relocated word what its relocation asks for; and nothing is
-- written outside the block. The conditions are those of IsLoadable: the header, the relocations and
-- the symbol table lie apart from the block; no word is relocated twice; the host's answers for
-- symbols do not hang on what the block holds; the sizes sum up to a 32-bit number; and where .text is
-- copied, .data follows it in the image without a gap, since that copy takes both from `p_code` and
-- does not look at `p_data`.
pub load_module_image-IsCopy :
    (host : Host) (w : World) (p_mod : Module) (image : Image) (addr size : ℕ) (mode : LoadMode)
    → is_ok (load_module_image host w (some p_mod) image addr size mode).code ≡ true
    → let s = load_module_image host w (some p_mod) image addr size mode in
      IsLoadable host.resolve w.mem image (placed p_mod image mode s.p_mod) mode
      → let s = load_module_image host w (some p_mod) image addr size mode in
        IsCopy host.resolve w.mem image (placed p_mod image mode s.p_mod) mode s.world.mem
load_module_image-IsCopy host w p_mod image addr size mode good loadable =
    let s = load_module_image host w (some p_mod) image addr size mode in
    let handle = placed p_mod image mode s.p_mod in
    let (planned, run) =
      load_module_image_relocated host w p_mod image addr size mode loadable.untagged loadable.stays
        good in
    let (sized, fits) =
      plan_load_fits w.mem image.p_header mode loadable.untagged loadable.whole planned in
    let m = filled w.mem image handle mode in
    let tab = load_walk m handle image.p_header image.p_relocations image.p_symtab in
    let header = header_kept host.resolve w.mem image handle mode loadable fits in
    let linkable = filled-IsLinkable host.resolve w.mem image handle mode loadable fits in
    let slots =
      load_apply_relocations-AreSlots host.resolve m handle image.p_header image.p_relocations
        image.p_symtab (ap is_sectioned header ∙ loadable.untagged)
        (subst (λ h. IsLinkable host.resolve m tab h.num_rels) (sym header) linkable) in
    let whole = slots.1 (ap (λ r. r.0) run) in
    filled-IsCopy host.resolve w.mem s.world.mem image handle mode loadable fits (
      subst (λ m'. AreSlots host.resolve m tab (header_of w.mem handle).num_rels m')
        (ap (λ r. r.1) run)
        (subst
          (λ h.
            AreSlots host.resolve m tab h.num_rels
              (load_apply_relocations host.resolve m handle image.p_header image.p_relocations
                image.p_symtab).1)
          header whole))
