-- ===== src/Deps/Load.antt =====
-- Loading and unloading with the dependency manager, udynlink/udynlink_deps.c. While a module is
-- being loaded, the host's resolver may load and register the modules that it needs: what these calls
-- do to the manager is the argument `nested`. They leave the handle of the module that is being
-- loaded alone.
pub mod Depth
pub mod Circular
pub mod Limits
pub mod Undo
use udynlink.Prelude.{ℕ, Bool, true, false, ◌||◌, Option, some, none, List, ◌==◌, if◌then◌else◌}
use udynlink.Memory.{Memory}
use udynlink.Header.{ErrorCode, ok, invalid_module, load_unknown_symbol, LoadMode}
use udynlink.Symbols.{SymName, get_module_name}
use udynlink.Modules.{Module, free_module}
use udynlink.Relocs.{is_ok}
use udynlink.Host.{Host, World}
use udynlink.Loader.{Stage, load_module, unload_module}
use udynlink.Deps.{
  DepMgr, Handles, is_loading, push_loading, pop_loading, dep_register, unregister_module,
}
use udynlink.Deps.Names.{name_text}
use udynlink.Deps.Exports.{generate_thunks}

-- The manager when the load of the module with this name begins; `none` refuses it.
unfoldable pub begin_load : Memory → DepMgr → Option SymName → Option DepMgr
begin_load m mgr none = some mgr
begin_load m mgr (some mod_name) =
    if is_loading m mgr (name_text m mod_name) then none else some (push_loading mgr mod_name)

-- And when it has ended.
unfoldable pub end_load : DepMgr → Option SymName → Bool → ℕ → DepMgr
end_load mgr mod_name good p_mod =
    let registered = if good then dep_register mgr p_mod else mgr in
    elim mod_name [ none ↦ registered | some n ↦ pop_loading registered ]

unfoldable pub set_handle : Handles → ℕ → Module → Handles
set_handle handles p_mod v a = if a == p_mod then v else handles a

-- A result of the two calls; a NULL manager is `none`.
pub record DepResult : Type 0 where
  pub code : ErrorCode
  pub mgr : Option DepMgr
  pub handles : Handles
  pub world : World

unfoldable pub with_thunks : Host → World → Module → World
with_thunks host w p_mod = record w { mem = generate_thunks host.resolve w.mem (some p_mod) }

-- The load itself, with the manager that the nested calls leave.
unfoldable pub load_begun :
    Host → DepMgr → Option SymName → Handles → World → ℕ → ℕ → ℕ → ℕ → LoadMode → DepResult
unfolding end_load set_handle with_thunks
load_begun host mgr mod_name handles w p_mod base_addr load_addr load_size mode =
    let s = load_module host w (some (handles p_mod)) base_addr load_addr load_size mode in
    record {
      code = s.code;
      mgr = some (end_load mgr mod_name (is_ok s.code) p_mod);
      handles = set_handle handles p_mod s.p_mod;
      world = if is_ok s.code then with_thunks host s.world s.p_mod else s.world;
    }

-- `udynlink_dep_load`; the pool that it is handed is not used.
unfoldable pub dep_load :
    Host
    → (DepMgr → DepMgr)
    → Option DepMgr
    → Handles
    → World
    → ℕ
    → ℕ
    → ℕ
    → ℕ
    → LoadMode
    → DepResult
unfolding begin_load load_begun
dep_load host nested none handles w p_mod base_addr load_addr load_size mode = record {
  code = invalid_module;
  mgr = none;
  handles = handles;
  world = w;
}
dep_load host nested (some mgr) handles w p_mod base_addr load_addr load_size mode =
    let mod_name = get_module_name w.mem base_addr in
    let refused : ErrorCode → DepResult =
      λ code. record { code = code; mgr = some mgr; handles = handles; world = w } in
    if p_mod == 0 || base_addr == 0
    then refused invalid_module
    else elim (begin_load w.mem mgr mod_name) [
      | none ↦ refused load_unknown_symbol
      | some begun ↦
          load_begun host (nested begun) mod_name handles w p_mod base_addr load_addr load_size mode
    ]

-- `udynlink_dep_unload`. A handle without a header is refused when it has left the registry.
unfoldable pub dep_unload : Option DepMgr → Handles → World → ℕ → DepResult
unfolding set_handle
dep_unload none handles w p_mod = record {
  code = invalid_module;
  mgr = none;
  handles = handles;
  world = w;
}
dep_unload (some mgr) handles w p_mod =
    let (code, w') = unload_module w (some (handles p_mod)) in
    if p_mod == 0
    then record { code = invalid_module; mgr = some mgr; handles = handles; world = w }
    else record {
      code = code;
      mgr = some (unregister_module mgr p_mod);
      handles = if is_ok code then set_handle handles p_mod free_module else handles;
      world = w';
    }
