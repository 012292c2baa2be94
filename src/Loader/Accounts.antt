-- ===== src/Loader/Accounts.antt =====
-- The accounts of a whole load and of an unload with the host's allocator, for untagged images.
use udynlink.Prelude.{ℕ, ◌≡◌, ◌≢◌, arith, false, some}
use udynlink.Memory.{Memory}
use udynlink.Header.{header_at, LoadMode, ok, is_sectioned}
use udynlink.Modules.{Module, free_module}
use udynlink.Relocs.{is_ok}
use udynlink.Host.{Host, World}
use udynlink.Host.Balance.{Balanced}
use udynlink.Loader.{Stage, load_module_image, unload_module}
use udynlink.Loader.Copy.{Image}
use udynlink.Loader.Planning.{plan_load}
use udynlink.Loader.Leaks.{
  free_main-Balanced, plan_load_untagged, load_module_image-Keeps, load_exit_failed,
  unload_module_untagged,
}

module _ (host : Host) (w : World) (p_mod : Module) (image : Image) (addr size : ℕ)
    (mode : LoadMode) (clear : p_mod.p_ram ≡ 0)
    (untagged : is_sectioned (header_at w.mem image.p_header) ≡ false) where
  abbrev loaded : Stage
  loaded = load_module_image host w (some p_mod) image addr size mode

  loaded_failed : is_ok loaded.code ≡ false → loaded.p_mod ≡ free_module
  unfolding load_module_image
  loaded_failed = load_exit_failed (plan_load w.mem image.p_header mode) _

  -- A load of an untagged image that fails clears the handle, and has freed every block that it
  -- allocated, with the arguments of its allocation, and no other. The handle has to come with a NULL
  -- `p_ram`.
  pub load_module_image-Balanced :
      is_ok loaded.code ≡ false → (loaded.p_mod ≡ free_module) × Balanced w.log loaded.world.log
  load_module_image-Balanced failed =
      let kept = load_module_image-Keeps host w p_mod image addr size mode clear untagged in
      (loaded_failed failed, λ hits. ground (arith, kept hits, loaded_failed failed))

  -- Unloading gives back what the load of an untagged image allocated, and succeeds, whatever was
  -- written to memory in between, as long as the handle has a header and the header in use is still
  -- an untagged one. The handle has to come to the load with a NULL `p_ram`.
  pub unload_module-load_module_image :
      (mem : Memory)
      → loaded.p_mod.p_header ≢ 0
      → is_sectioned (header_at mem loaded.p_mod.p_header) ≡ false
      → ((unload_module (record loaded.world { mem = mem }) (some loaded.p_mod)).0 ≡ ok)
        × Balanced w.log
            (unload_module (record loaded.world { mem = mem }) (some loaded.p_mod)).1.log
  unload_module-load_module_image mem live left =
      let kept = load_module_image-Keeps host w p_mod image addr size mode clear untagged in
      let unloaded =
        unload_module_untagged loaded.p_mod (record loaded.world { mem = mem }) live left in
      let align = (plan_load_untagged w.mem image.p_header mode untagged).1 in
      let balanced =
        free_main-Balanced (plan_load w.mem image.p_header mode).main_align w.log loaded.p_mod
          (record loaded.world { mem = mem }) kept in
      (ground (arith, unloaded), λ hits. rw (unloaded, ← align) (balanced hits))
