-- ===== src/Loader/Extents.antt =====
-- The extents of the parts of an untagged block, udynlink/udynlink.c, with no wrap-around.
use udynlink.Prelude.{ℕ, ◌+◌, ◌*◌, ◌^◌, ◌≡◌, ◌<◌, ◌≤◌, refl, arith, false}
use udynlink.Memory.{Memory}
use udynlink.Header.{
  Header, header_at, LoadMode, copy_all, copy_text_data, xip, is_sectioned, get_code_offset,
}
use udynlink.Layout.{get_ram_size_for_header, get_ram_size_untagged}
use udynlink.Modules.{Module, header_of, get_data_pointer}
use udynlink.Loader.Copy.{is_copy_all}

-- The bytes of the LOT and of .data, .bss and what else is copied, with no wrap-around.
abbrev pub ram_of : Header → LoadMode → ℕ
ram_of h copy_all = h.num_lot * 4 + h.data_size + h.bss_size + (get_code_offset h + h.code_size)
ram_of h copy_text_data = h.num_lot * 4 + h.data_size + h.bss_size + h.code_size
ram_of h xip = h.num_lot * 4 + h.data_size + h.bss_size

pub get_ram_size_for_header-ram_of :
    (m : Memory) (p_header : ℕ) (mode : LoadMode)
    → is_sectioned (header_at m p_header) ≡ false
    → ram_of (header_at m p_header) mode < 2 ^ 32
    → get_ram_size_for_header m p_header mode ≡ ram_of (header_at m p_header) mode
unfolding get_ram_size_for_header get_ram_size_untagged
get_ram_size_for_header-ram_of m p_header copy_all untagged whole = ground (arith, untagged)
get_ram_size_for_header-ram_of m p_header copy_text_data untagged whole = ground (arith, untagged)
get_ram_size_for_header-ram_of m p_header xip untagged whole = ground (arith, untagged)

-- Where .data starts, in a block at `p`.
abbrev pub data_at : Header → LoadMode → ℕ → ℕ
data_at h copy_all p = p + h.num_lot * 4 + get_code_offset h + h.code_size
data_at h copy_text_data p = p + h.num_lot * 4 + h.code_size
data_at h xip p = p + h.num_lot * 4

pub get_data_pointer-data_at :
    (m : Memory) (p_mod : Module) (mode : LoadMode)
    → p_mod.mode ≡ mode
    → is_sectioned (header_of m p_mod) ≡ false
    → is_copy_all mode ≡ false
    → get_data_pointer m p_mod ≡ data_at (header_of m p_mod) mode p_mod.p_ram
unfolding get_data_pointer
get_data_pointer-data_at m p_mod copy_all is untagged stays = absurd (cc)
get_data_pointer-data_at m p_mod copy_text_data is untagged stays = rw (is, untagged) refl
get_data_pointer-data_at m p_mod xip is untagged stays = rw (is, untagged) refl

-- The .bss ends where the block ends.
pub bss_inside :
    (h : Header) (mode : LoadMode) (p : ℕ)
    → (p + h.num_lot * 4 ≤ data_at h mode p)
      × (data_at h mode p + h.data_size + h.bss_size ≡ p + ram_of h mode)
bss_inside h copy_all p = omega arith
bss_inside h copy_text_data p = omega arith
bss_inside h xip p = omega arith
