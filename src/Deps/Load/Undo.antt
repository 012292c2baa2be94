-- ===== src/Deps/Load/Undo.antt =====
-- Unloading through the dependency manager undoes a load through it.
use udynlink.Prelude.{
  ℕ, ◌≡◌, ◌≢◌, ◌<◌, refl, ap, sym, arith, true, false, ◌||◌, Bool-cases, inl, inr, Option,
  Option-cases, some, none, List, ◌∷◌, length, ltb, leb, ◌==◌,
}
use mathlib.Core.Option
use mathlib.Core.Path.{subst}
use udynlink.Memory.{Memory}
use udynlink.Header.{ErrorCode, LoadMode, header_at, is_sectioned, ok}
use udynlink.Symbols.{SymName, get_module_name}
use udynlink.Modules.{Module, free_module}
use udynlink.Relocs.{is_ok}
use udynlink.Host.{Host, World, Event}
use udynlink.Host.Balance.{Balanced}
use udynlink.Loader.{Stage, load_module, unload_module}
use udynlink.Loader.Copy.{image_from_memory}
use udynlink.Loader.Accounts.{unload_module-load_module_image}
use udynlink.Deps.{
  DepMgr, Handles, dep_max_depth, is_loading, push_loading, pop_loading, dep_register,
  register_module, find_entry,
}
use udynlink.Deps.Names.{name_text}
use udynlink.Deps.Registry.{unregister_module-dep_register}
use udynlink.Deps.Load.{
  DepResult, begin_load, end_load, load_begun, with_thunks, set_handle, dep_load, dep_unload,
}

-- A load that brings no others about registers the module, and leaves the rest of the manager.
end_load-begin_load :
    (m : Memory) (mgr begun : DepMgr) (mod_name : Option SymName) (p_mod : ℕ)
    → length mgr.loading_stack < dep_max_depth
    → begin_load m mgr mod_name ≡ some begun
    → end_load begun mod_name true p_mod ≡ dep_register mgr p_mod
unfolding begin_load end_load push_loading pop_loading dep_register register_module
end_load-begin_load m mgr begun none p_mod room e =
    let same : mgr ≡ begun = ap (λ o. Option.get_or o mgr) e in rw same refl
end_load-begin_load m mgr begun (some n) p_mod room e =
    elim (Bool-cases (is_loading m mgr (name_text m n))) [
      | inl again ↦ absurd (ground (arith, again, e))
      | inr new ↦
          let free : ltb (length mgr.loading_stack) dep_max_depth ≡ true = ground arith in
          let same : record mgr { loading_stack = n ∷ mgr.loading_stack } ≡ begun =
            ap (λ o. Option.get_or o mgr) (rw (new, free) at e) in
          rw (← same) (elim (Bool-cases (leb mgr.capacity (length mgr.entries))) [
            | inl full ↦ rw (dep_register, full) refl
            | inr fits ↦ rw (dep_register, fits) refl
          ])
    ]

set_handle_same :
    (handles : Handles) (p_mod : ℕ) (v : Module) → set_handle handles p_mod v p_mod ≡ v
unfolding set_handle
set_handle_same handles p_mod v = ground arith

-- The module in this state is unloaded, with the manager and the allocations as given.
abbrev Undone : ℕ → DepMgr → List Event → DepResult → Type 0
Undone p_mod mgr log r =
    let unloaded = dep_unload r.mgr r.handles r.world p_mod in
    (unloaded.code ≡ ok)
    × (unloaded.mgr ≡ some mgr)
    × (unloaded.handles p_mod ≡ free_module)
    × Balanced log unloaded.world.log

dep_unload-Undone :
    (code : ErrorCode) (mgr : DepMgr) (handles : Handles) (w : World) (p_mod : ℕ) (log : List Event)
    → p_mod ≢ 0
    → length mgr.entries < mgr.capacity
    → find_entry mgr p_mod ≡ none
    → (unload_module w (some (handles p_mod))).0 ≡ ok
    → Balanced log (unload_module w (some (handles p_mod))).1.log
    → Undone p_mod mgr log
        (record { code = code; mgr = some (dep_register mgr p_mod); handles = handles; world = w })
unfolding dep_unload
dep_unload-Undone code mgr handles w p_mod log given slot new good balanced =
    let present : (p_mod == 0) ≡ false = ground (arith, given) in
    rw (present, good, unregister_module-dep_register mgr p_mod slot new)
      (refl, refl, set_handle_same handles p_mod free_module, balanced)

module _ (host : Host) (mgr : DepMgr) (handles : Handles) (w : World)
    (p_mod base_addr load_addr load_size : ℕ) (mode : LoadMode) where
  -- A load of a module without dependencies.
  abbrev loaded : DepResult
  loaded =
      dep_load host (λ begun. begun) (some mgr) handles w p_mod base_addr load_addr load_size mode

  -- The load of the core loader in it.
  abbrev core : Stage
  core = load_module host w (some (handles p_mod)) base_addr load_addr load_size mode

  -- One that succeeds has passed the tests and registered the module.
  dep_load_good :
      is_ok loaded.code ≡ true
      → length mgr.loading_stack < dep_max_depth
      → (p_mod ≢ 0)
        × (is_ok core.code ≡ true)
        × (loaded ≡ record {
          code = core.code;
          mgr = some (dep_register mgr p_mod);
          handles = set_handle handles p_mod core.p_mod;
          world = with_thunks host core.world core.p_mod;
        })
  unfolding dep_load load_begun
  dep_load_good good room = elim (Bool-cases (p_mod == 0 || base_addr == 0)) [
    | inl null ↦ absurd (ground (arith, null, good))
    | inr given ↦ elim (Option-cases (begin_load w.mem mgr (get_module_name w.mem base_addr))) [
      | inl refused ↦ absurd (ground (arith, given, refused, good))
      | inr (begun, e) ↦
          let fine : is_ok core.code ≡ true = rw (given, e) at good in
          let same =
            end_load-begin_load w.mem mgr begun (get_module_name w.mem base_addr) p_mod room e in
          (ground (arith, given), fine, rw (given, e, fine, same) refl)
    ]
  ]

  -- Unloading a module gives back what a load without nested loads allocated, the manager as it was,
  -- and a cleared handle. The module has to be untagged, with a handle whose `p_ram` is NULL before
  -- the load, there has to be room in the registry and on the stack, the module must not have been
  -- registered before, and the thunks that the load wrote must leave it untagged.
  pub dep_unload-dep_load :
      is_ok loaded.code ≡ true
      → (handles p_mod).p_ram ≡ 0
      → is_sectioned (header_at w.mem base_addr) ≡ false
      → length mgr.loading_stack < dep_max_depth
      → length mgr.entries < mgr.capacity
      → find_entry mgr p_mod ≡ none
      → core.p_mod.p_header ≢ 0
      → is_sectioned (header_at loaded.world.mem core.p_mod.p_header) ≡ false
      → let unloaded = dep_unload loaded.mgr loaded.handles loaded.world p_mod in
        (unloaded.code ≡ ok)
        × (unloaded.mgr ≡ some mgr)
        × (unloaded.handles p_mod ≡ free_module)
        × Balanced w.log unloaded.world.log
  unfolding load_module with_thunks image_from_memory
  dep_unload-dep_load good clear untagged room slot new live left =
      let (given, fine, same) = dep_load_good good room in
      let mem = (with_thunks host core.world core.p_mod).mem in
      let (done, balanced) =
        unload_module-load_module_image host w (handles p_mod) (image_from_memory w.mem base_addr)
          load_addr load_size mode clear untagged mem live
          (rw (ap (λ (r : DepResult). r.world.mem) same) at left) in
      let stored = set_handle_same handles p_mod core.p_mod in
      subst (Undone p_mod mgr w.log) (sym same) (
        dep_unload-Undone core.code mgr (set_handle handles p_mod core.p_mod)
          (with_thunks host core.world core.p_mod) p_mod w.log given slot new (rw stored done)
          (rw stored balanced))
