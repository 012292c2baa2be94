-- ===== src/Examples/Loading.antt =====
-- Applications to loads and unloads.
use udynlink.Prelude.{ℕ, ◌+◌, ◌≡◌, refl, arith, true, false, some, []}
use udynlink.Memory.{Memory}
use udynlink.Header.{header_at, LoadMode, copy_text_data, ErrorCode, ok, is_sectioned}
use udynlink.Modules.{Module, free_module}
use udynlink.Relocs.{is_ok}
use udynlink.Host.{Host, World, external_free}
use udynlink.Host.Balance.{Balanced}
use udynlink.Loader.{Stage, load_module_image, unload_module}
use udynlink.Loader.Copy.{Image}
use udynlink.Loader.Planning.{plan_load}
use udynlink.Loader.Accounts.{load_module_image-Balanced, unload_module-load_module_image}
use udynlink.Loader.Checks.{IsAccepted, IsPlaced, load_module_image-IsPlaced}
use udynlink.Examples.Images.{base, plain, from_words}

-- Hosts that know no symbol, and give every request this address.
abbrev host_at : ℕ → Host
host_at p = record { resolve = λ m p_mod name. 0; malloc = λ log r. p }

abbrev image : Image
image = record {
  p_header = base;
  p_relocations = base + 32;
  p_symtab = base + 32;
  p_code = base + 68;
  p_data = base + 76;
}

abbrev start : World
start = record { mem = plain; log = [] }

-- A load without memory, and one that goes well.
abbrev refused_load : Stage
refused_load = load_module_image (host_at 0) start (some free_module) image 0 0 copy_text_data

abbrev good_load : Stage
good_load = load_module_image (host_at 0x8000) start (some free_module) image 0 0 copy_text_data

plain_untagged : is_sectioned (header_at plain base) ≡ false
unfolding header_at udynlink.Memory.read16 from_words
plain_untagged = refl

no_memory : is_ok refused_load.code ≡ false
unfolding load_module_image udynlink.Header.validate_header header_at udynlink.Memory.read32
    from_words udynlink.Memory.read16 udynlink.Sections.get_sectab udynlink.Header.get_code_offset
    udynlink.Sections.empty_view udynlink.Layout.get_ram_size_for_header
    udynlink.Layout.get_ram_size_untagged udynlink.Host.external_malloc
no_memory = refl

good : is_ok good_load.code ≡ true
unfolding load_module_image udynlink.Header.validate_header header_at udynlink.Memory.read32
    from_words udynlink.Memory.read16 udynlink.Sections.get_sectab udynlink.Header.get_code_offset
    udynlink.Sections.empty_view udynlink.Layout.get_ram_size_for_header
    udynlink.Layout.get_ram_size_untagged udynlink.Host.external_malloc
    udynlink.Relocs.load_apply_relocations udynlink.Loader.Copy.clear_bss udynlink.Memory.memset
    udynlink.Modules.get_data_pointer udynlink.Loader.Copy.copy_untagged udynlink.Memory.memcpy
    udynlink.Header.get_sym_table_pointer
good = refl

in_use : good_load.p_mod.p_header ≡ base
unfolding load_module_image udynlink.Header.validate_header header_at udynlink.Memory.read32
    from_words udynlink.Memory.read16 udynlink.Sections.get_sectab udynlink.Header.get_code_offset
    udynlink.Sections.empty_view udynlink.Layout.get_ram_size_for_header
    udynlink.Layout.get_ram_size_untagged udynlink.Host.external_malloc
    udynlink.Relocs.load_apply_relocations udynlink.Loader.Copy.clear_bss udynlink.Memory.memset
    udynlink.Modules.get_data_pointer udynlink.Loader.Copy.copy_untagged udynlink.Memory.memcpy
    udynlink.Header.get_sym_table_pointer
in_use = refl

load_module_image-Balanced_example :
    (refused_load.p_mod ≡ free_module) × Balanced [] refused_load.world.log
load_module_image-Balanced_example =
    load_module_image-Balanced (host_at 0) start free_module image 0 0 copy_text_data refl
      plain_untagged no_memory

still_untagged : is_sectioned (header_at plain good_load.p_mod.p_header) ≡ false
still_untagged = rw in_use plain_untagged

unload_module-load_module_image_example :
    ((unload_module (record good_load.world { mem = plain }) (some good_load.p_mod)).0 ≡ ok)
    × Balanced []
        (unload_module (record good_load.world { mem = plain }) (some good_load.p_mod)).1.log
unload_module-load_module_image_example =
    unload_module-load_module_image (host_at 0x8000) start free_module image 0 0 copy_text_data refl
      plain_untagged plain (omega (arith, in_use)) still_untagged

load_module_image-IsPlaced_example :
    IsAccepted plain base (plan_load plain base copy_text_data)
    × IsPlaced (plan_load plain base copy_text_data) 0 0 good_load.p_mod
load_module_image-IsPlaced_example =
    load_module_image-IsPlaced (host_at 0x8000) start free_module image 0 0 copy_text_data good

-- Memory without an image.
abbrev blank : World
blank = record { mem = from_words 0 []; log = [] }
