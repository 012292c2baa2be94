-- ===== src/Loader/Reach.antt =====
-- What the load of an untagged image can write, udynlink/udynlink.c, in any mode and whether it ends
-- well or not: the stages behind the one that finds the block.
use udynlink.Prelude.{ℕ, ◌+◌, ◌*◌, ◌≡◌, ◌⊎◌, ◌<◌, ◌≤◌, refl, arith, false, ap, sym, ◌∙◌}
use udynlink.Memory.{Memory}
use udynlink.Memory.Laws.{memset_outside}
use udynlink.Header.{
  Header, header_at, LoadMode, copy_all, copy_text_data, xip, is_sectioned, get_code_offset,
}
use udynlink.Modules.{Module, header_of, get_data_pointer}
use udynlink.Relocs.Reads.{header_at-Agree, header_at-Shifted}
use udynlink.Relocs.{load_apply_relocations}
use udynlink.Modules.{Resolver}
use udynlink.Relocs.Reach.{OffSlots, load_apply_relocations_outside}
use udynlink.Loader.Copy.{Image, copy_untagged, clear_bss, moved_header}
use udynlink.Loader.Extents.{ram_of, data_at, get_data_pointer-data_at, bss_inside}
use udynlink.Loader.Copied.{Fits, copy_untagged_reach, copy_untagged_header, metadata_ends}

-- Not in the block of `size` bytes at `p`.
abbrev pub OutOf : ℕ → ℕ → ℕ → Type 0
OutOf p size a = (a < p) ⊎ (p + size ≤ a)

-- The handle behind the copying has the header of the image, in RAM or where it was.
moved_head_off :
    (h : Header) (mode : LoadMode) (p_mod : Module) (b : ℕ)
    → Fits h mode
    → ((c : ℕ) → p_mod.p_header ≤ c → c < p_mod.p_header + 32 → OutOf p_mod.p_ram (ram_of h mode) c)
    → let head = (moved_header mode (p_mod.p_ram + h.num_lot * 4) p_mod).p_header in
      head ≤ b
      → b < head + 32
      → ((b < p_mod.p_ram) ⊎ (p_mod.p_ram + h.num_lot * 4 ≤ b))
        × ((b < data_at h mode p_mod.p_ram) ⊎ (p_mod.p_ram + ram_of h mode ≤ b))
moved_head_off h copy_all p_mod b (wf, small, cap) off lo hi =
    let ends = metadata_ends h wf small in (omega arith, omega (arith, ends))
moved_head_off h copy_text_data p_mod b fits off lo hi =
    let out = off b lo hi in (ground (arith, out), ground (arith, out))
moved_head_off h xip p_mod b fits off lo hi =
    let out = off b lo hi in (ground (arith, out), ground (arith, out))

moved_ram :
    (mode : LoadMode) (p_mod : Module) (dst : ℕ) → (moved_header mode dst p_mod).p_ram ≡ p_mod.p_ram
moved_ram copy_all p_mod dst = refl
moved_ram copy_text_data p_mod dst = refl
moved_ram xip p_mod dst = refl

moved_data :
    (n : Memory) (h : Header) (mode : LoadMode) (p_mod : Module)
    → p_mod.mode ≡ mode
    → is_sectioned h ≡ false
    → let moved = moved_header mode (p_mod.p_ram + h.num_lot * 4) p_mod in
      header_of n moved ≡ h → get_data_pointer n moved ≡ data_at h mode p_mod.p_ram
unfolding get_data_pointer
moved_data n h copy_all p_mod is untagged same =
    let plain = ap is_sectioned same ∙ untagged in
    let found : get_data_pointer n (record p_mod { p_header = p_mod.p_ram + h.num_lot * 4 })
        ≡ p_mod.p_ram
          + h.num_lot * 4
          + get_code_offset (header_at n (p_mod.p_ram + h.num_lot * 4))
          + (header_at n (p_mod.p_ram + h.num_lot * 4)).code_size =
      rw (plain, is) refl in
    found ∙ ap (λ k. p_mod.p_ram + h.num_lot * 4 + get_code_offset k + k.code_size) same
moved_data n h copy_text_data p_mod is untagged same =
    get_data_pointer-data_at n p_mod copy_text_data is (ap is_sectioned same ∙ untagged) refl
    ∙ ap (λ k. data_at k copy_text_data p_mod.p_ram) same
moved_data n h xip p_mod is untagged same =
    get_data_pointer-data_at n p_mod xip is (ap is_sectioned same ∙ untagged) refl
    ∙ ap (λ k. data_at k xip p_mod.p_ram) same

copied_moved_header :
    (m : Memory) (h : Header) (image : Image) (mode : LoadMode) (p_mod : Module)
    → Fits h mode
    → h ≡ header_at m image.p_header
    → p_mod.p_header ≡ image.p_header
    → ((c : ℕ) → p_mod.p_header ≤ c → c < p_mod.p_header + 32 → OutOf p_mod.p_ram (ram_of h mode) c)
    → let dst = p_mod.p_ram + h.num_lot * 4 in
      header_of (copy_untagged m h image mode dst) (moved_header mode dst p_mod) ≡ h
copied_moved_header m h image copy_all p_mod fits is here off =
    header_at-Shifted image.p_header (p_mod.p_ram + h.num_lot * 4) m _ (λ k a b lt at at'.
      ap (copy_untagged m h image copy_all (p_mod.p_ram + h.num_lot * 4)) at
      ∙ copy_untagged_header m h image p_mod.p_ram k fits lt
      ∙ ap m (sym at'))
    ∙ sym is
copied_moved_header m h image copy_text_data p_mod fits is here off =
    header_at-Agree p_mod.p_header m _ (λ a lo hi.
      copy_untagged_reach m h image copy_text_data p_mod.p_ram a fits
        (let out = off a lo hi in ground (arith, out)))
    ∙ ap (header_at m) here
    ∙ sym is
copied_moved_header m h image xip p_mod fits is here off =
    header_at-Agree p_mod.p_header m _ (λ a lo hi.
      copy_untagged_reach m h image xip p_mod.p_ram a fits
        (let out = off a lo hi in ground (arith, out)))
    ∙ ap (header_at m) here
    ∙ sym is

-- The memory that the relocation finds, and its handle.
module _ (m : Memory) (h : Header) (image : Image) (mode : LoadMode) (p_mod : Module)
    (fits : Fits h mode) (is : h ≡ header_at m image.p_header)
    (here : p_mod.p_header ≡ image.p_header) (moded : p_mod.mode ≡ mode)
    (untagged : is_sectioned h ≡ false)
    (off : (c : ℕ)
      → p_mod.p_header ≤ c
      → c < p_mod.p_header + 32
      → OutOf p_mod.p_ram (ram_of h mode) c) where
  abbrev moved : Module
  moved = moved_header mode (p_mod.p_ram + h.num_lot * 4) p_mod

  abbrev copied : Memory
  copied = copy_untagged m h image mode (p_mod.p_ram + h.num_lot * 4)

  cleared_reach :
      (a : ℕ)
      → (a < data_at h mode p_mod.p_ram) ⊎ (p_mod.p_ram + ram_of h mode ≤ a)
      → clear_bss copied h moved a ≡ copied a
  unfolding clear_bss
  cleared_reach a out =
      let start =
        moved_data copied h mode p_mod moded untagged
          (copied_moved_header m h image mode p_mod fits is here off) in
      let end = bss_inside h mode p_mod.p_ram in
      rw start (
        ground (
          arith,
          memset_outside copied (data_at h mode p_mod.p_ram + h.data_size) 0 h.bss_size a,
          end,
          out,
        ))

  pub cleared_beyond :
      (a : ℕ) → OutOf p_mod.p_ram (ram_of h mode) a → clear_bss copied h moved a ≡ m a
  cleared_beyond a out =
      let end = bss_inside h mode p_mod.p_ram in
      cleared_reach a (ground (arith, out, end))
      ∙ copy_untagged_reach m h image mode p_mod.p_ram a fits (ground (arith, out, end))

  pub cleared_header : header_of (clear_bss copied h moved) moved ≡ h
  cleared_header =
      header_at-Agree moved.p_header copied (clear_bss copied h moved)
        (λ a lo hi. cleared_reach a (moved_head_off h mode p_mod a fits off lo hi).1)
      ∙ copied_moved_header m h image mode p_mod fits is here off

  pub slots_inside :
      (a : ℕ)
      → ((a < p_mod.p_ram) ⊎ (p_mod.p_ram + h.num_lot * 4 ≤ a))
        × ((a < data_at h mode p_mod.p_ram) ⊎ (p_mod.p_ram + ram_of h mode ≤ a))
      → OffSlots (clear_bss copied h moved) moved a
  slots_inside a out =
      let same = cleared_header in
      let start = moved_data (clear_bss copied h moved) h mode p_mod moded untagged same in
      let end = bss_inside h mode p_mod.p_ram in
      rw (start, same, moved_ram mode p_mod (p_mod.p_ram + h.num_lot * 4))
        (out.0, ground (arith, out, end))

  pub relocated_beyond :
      (resolve : Resolver) (a : ℕ)
      → OutOf p_mod.p_ram (ram_of h mode) a
      → (load_apply_relocations resolve
            (clear_bss copied h moved)
            moved
            image.p_header
            image.p_relocations
            image.p_symtab).1
          a
        ≡ m a
  relocated_beyond resolve a out =
      let end = bss_inside h mode p_mod.p_ram in
      let image_header : header_at (clear_bss copied h moved) image.p_header ≡ h =
        header_at-Agree image.p_header m (clear_bss copied h moved)
          (λ b lo hi. cleared_beyond b (off b (omega (arith, lo, here)) (omega (arith, hi, here))))
        ∙ sym is in
      load_apply_relocations_outside resolve (clear_bss copied h moved) moved image.p_header
        image.p_relocations image.p_symtab a (ap is_sectioned image_header ∙ untagged)
        (ap is_sectioned cleared_header ∙ untagged)
        (λ b lo hi. slots_inside b (moved_head_off h mode p_mod b fits off lo hi))
        (slots_inside a (ground (arith, out, end)))
      ∙ cleared_beyond a out
