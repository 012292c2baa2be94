-- ===== src/Loader/Content.antt =====
-- What the copying of an untagged image into its block leaves in memory, udynlink/udynlink.c, in the
-- modes that keep the header where it is.
use mathlib.Core.Path.{subst}
use udynlink.Prelude.{refl, ℕ, ◌+◌, ◌*◌, ◌%◌, ◌^◌, ◌≡◌, ◌⊎◌, ◌<◌, ◌≤◌, arith, false, ap, ◌∙◌}
use udynlink.Memory.{Memory}
use udynlink.Memory.Laws.{memcpy_outside, memcpy_inside, memset_outside, memset_inside}
use udynlink.Header.{Header, LoadMode, copy_all, copy_text_data, xip, is_sectioned, max_ram_size}
use udynlink.Modules.{Module, header_of, get_data_pointer}
use udynlink.Relocs.Reads.{header_at-Agree}
use udynlink.Loader.Copy.{Image, copy_untagged, clear_bss, is_copy_all}
use udynlink.Loader.Extents.{ram_of, data_at, get_data_pointer-data_at, bss_inside}

-- The copy, in a block at `p`.
copy_untagged_outside :
    (m : Memory) (h : Header) (image : Image) (mode : LoadMode) (p a : ℕ)
    → is_copy_all mode ≡ false
    → ram_of h mode ≤ max_ram_size
    → (a < p) ⊎ (p + ram_of h mode ≤ a)
    → copy_untagged m h image mode (p + h.num_lot * 4) a ≡ m a
unfolding copy_untagged
copy_untagged_outside m h image copy_all p a stays fits apart = absurd (cc)
copy_untagged_outside m h image copy_text_data p a stays fits apart =
    memcpy_outside m (p + h.num_lot * 4) image.p_code ((h.code_size + h.data_size) % 2 ^ 32) a
      (ground arith)
copy_untagged_outside m h image xip p a stays fits apart =
    memcpy_outside m (p + h.num_lot * 4) image.p_data h.data_size a (ground arith)

copy_untagged_text :
    (m : Memory) (h : Header) (image : Image) (p i : ℕ)
    → ram_of h copy_text_data ≤ max_ram_size
    → i < h.code_size + h.data_size
    → copy_untagged m h image copy_text_data (p + h.num_lot * 4) (p + h.num_lot * 4 + i)
      ≡ m (image.p_code + i)
unfolding copy_untagged
copy_untagged_text m h image p i fits inside =
    memcpy_inside m (p + h.num_lot * 4) image.p_code ((h.code_size + h.data_size) % 2 ^ 32) i
      (omega arith)

copy_untagged_data :
    (m : Memory) (h : Header) (image : Image) (mode : LoadMode) (p i : ℕ)
    → is_copy_all mode ≡ false
    → ram_of h mode ≤ max_ram_size
    → (mode ≡ copy_text_data → image.p_data ≡ image.p_code + h.code_size)
    → i < h.data_size
    → copy_untagged m h image mode (p + h.num_lot * 4) (data_at h mode p + i) ≡ m (image.p_data + i)
unfolding copy_untagged
copy_untagged_data m h image copy_all p i stays fits behind inside = absurd (cc)
copy_untagged_data m h image copy_text_data p i stays fits behind inside =
    let place : p + h.num_lot * 4 + h.code_size + i ≡ p + h.num_lot * 4 + (h.code_size + i) =
      omega arith in
    let source : image.p_data + i ≡ image.p_code + (h.code_size + i) = omega (arith, behind refl) in
    rw (place, source)
      (memcpy_inside m (p + h.num_lot * 4) image.p_code ((h.code_size + h.data_size) % 2 ^ 32)
        (h.code_size + i) (omega arith))
copy_untagged_data m h image xip p i stays fits behind inside =
    memcpy_inside m (p + h.num_lot * 4) image.p_data h.data_size i inside

-- Behind the copying of .text and .data.
abbrev copied : Memory → Image → Module → LoadMode → Memory
copied m image p_mod mode =
    copy_untagged m (header_of m p_mod) image mode (p_mod.p_ram + (header_of m p_mod).num_lot * 4)

unfoldable pub filled : Memory → Image → Module → LoadMode → Memory
filled m image p_mod mode =
    let h = header_of m p_mod in
    clear_bss (copy_untagged m h image mode (p_mod.p_ram + h.num_lot * 4)) h p_mod

-- The handle that the copying finds: a block at `p_ram`, apart from the image's header.
module _ (m : Memory) (image : Image) (p_mod : Module) (mode : LoadMode) (is : p_mod.mode ≡ mode)
    (stays : is_copy_all mode ≡ false) (untagged : is_sectioned (header_of m p_mod) ≡ false)
    (fits : ram_of (header_of m p_mod) mode ≤ max_ram_size)
    (apart : (a : ℕ)
      → p_mod.p_header ≤ a
      → a < p_mod.p_header + 32
      → (a < p_mod.p_ram) ⊎ (p_mod.p_ram + ram_of (header_of m p_mod) mode ≤ a)) where
  copied_header :
      header_of
        (copy_untagged m
          (header_of m p_mod)
          image
          mode
          (p_mod.p_ram + (header_of m p_mod).num_lot * 4))
        p_mod
      ≡ header_of m p_mod
  copied_header = header_at-Agree p_mod.p_header m _ (λ a lo hi.
      copy_untagged_outside m (header_of m p_mod) image mode p_mod.p_ram a stays fits
        (apart a lo hi))

  -- The .bss is cleared right behind .data.
  bss_place :
      get_data_pointer
        (copy_untagged m
          (header_of m p_mod)
          image
          mode
          (p_mod.p_ram + (header_of m p_mod).num_lot * 4))
        p_mod
      ≡ data_at (header_of m p_mod) mode p_mod.p_ram
  bss_place =
      let header = copied_header in
      get_data_pointer-data_at _ p_mod mode is (rw header untagged) stays
      ∙ ap (λ h. data_at h mode p_mod.p_ram) header

  -- What is in memory behind the copying.
  pub filled_outside :
      (a : ℕ)
      → (a < p_mod.p_ram) ⊎ (p_mod.p_ram + ram_of (header_of m p_mod) mode ≤ a)
      → filled m image p_mod mode a ≡ m a
  unfolding clear_bss filled
  filled_outside a out =
      let c = copy_untagged_outside m (header_of m p_mod) image mode p_mod.p_ram a stays fits out in
      rw bss_place (
        ground (
          arith,
          c,
          memset_outside (copied m image p_mod mode)
              (data_at (header_of m p_mod) mode p_mod.p_ram + (header_of m p_mod).data_size) 0
              (header_of m p_mod).bss_size a,
          bss_inside (header_of m p_mod) mode p_mod.p_ram,
        ))

  pub filled_text :
      (i : ℕ)
      → mode ≡ copy_text_data
      → i < (header_of m p_mod).code_size
      → filled m image p_mod mode (p_mod.p_ram + (header_of m p_mod).num_lot * 4 + i)
        ≡ m (image.p_code + i)
  unfolding clear_bss filled
  filled_text i text inside =
      let end = bss_inside (header_of m p_mod) mode p_mod.p_ram in
      let before : p_mod.p_ram + (header_of m p_mod).num_lot * 4 + i
          < data_at (header_of m p_mod) mode p_mod.p_ram + (header_of m p_mod).data_size =
        rw text (omega (arith, inside)) in
      let c : copied m image p_mod mode (p_mod.p_ram + (header_of m p_mod).num_lot * 4 + i)
          ≡ m (image.p_code + i) =
        rw text (
          copy_untagged_text m (header_of m p_mod) image p_mod.p_ram i
            (subst (λ md. ram_of (header_of m p_mod) md ≤ max_ram_size) text fits)
            (omega (arith, inside))) in
      rw bss_place (
        ground (
          arith,
          c,
          memset_outside (copied m image p_mod mode)
              (data_at (header_of m p_mod) mode p_mod.p_ram + (header_of m p_mod).data_size) 0
              (header_of m p_mod).bss_size (p_mod.p_ram + (header_of m p_mod).num_lot * 4 + i),
        ))

  pub filled_data :
      (i : ℕ)
      → (mode ≡ copy_text_data → image.p_data ≡ image.p_code + (header_of m p_mod).code_size)
      → i < (header_of m p_mod).data_size
      → filled m image p_mod mode (data_at (header_of m p_mod) mode p_mod.p_ram + i)
        ≡ m (image.p_data + i)
  unfolding clear_bss filled
  filled_data i behind inside =
      let c =
        copy_untagged_data m (header_of m p_mod) image mode p_mod.p_ram i stays fits behind
          inside in
      rw bss_place (
        ground (
          arith,
          c,
          memset_outside (copied m image p_mod mode)
              (data_at (header_of m p_mod) mode p_mod.p_ram + (header_of m p_mod).data_size) 0
              (header_of m p_mod).bss_size (data_at (header_of m p_mod) mode p_mod.p_ram + i),
        ))

  pub filled_bss :
      (i : ℕ)
      → i < (header_of m p_mod).bss_size
      → filled m image p_mod mode
          (data_at (header_of m p_mod) mode p_mod.p_ram + (header_of m p_mod).data_size + i)
        ≡ 0
  unfolding clear_bss filled
  filled_bss i inside = rw bss_place (
      ground (
        arith,
        memset_inside (copied m image p_mod mode)
            (data_at (header_of m p_mod) mode p_mod.p_ram + (header_of m p_mod).data_size) 0
            (header_of m p_mod).bss_size i inside,
      ))
