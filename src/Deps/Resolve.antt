-- ===== src/Deps/Resolve.antt =====
-- What the dependency manager answers to the loader's resolver, udynlink/udynlink_deps.c: a handle
-- for a dependency, a stub for a function of another module, an address for its data.
pub mod Stubs
use udynlink.Prelude.{
  ℕ, zero, suc, ◌+◌, ◌^◌, ◌≡◌, ◌≢◌, ◌<◌, ◌≤◌, refl, arith, ap, ◌∙◌, bit_or, Bool, true, false, ◌&&◌,
  ◌||◌, not, Bool-cases, inl, inr, Option, Option-cases, some, none, List, [], ◌∷◌, ◌++◌, length,
  ltb, leb, ◌==◌, ◌!=◌, if◌then◌else◌, u32,
}
use udynlink.Memory.{Memory, read16}
use udynlink.Symbols.{SymName}
use udynlink.Modules.{Module, Resolver, sym_deferred, lookup_symbol}
use udynlink.Thunk.{Pool, find_stub, alloc_gateway, alloc_stub}
use udynlink.Deps.{DepEntry, DepMgr, Handles, dep_find, is_loading, push_loading}
use udynlink.Deps.Names.{dep_prefix, dep_get_name, thunk_export_prefix}
use udynlink.Deps.Exports.{is_exported_data}

-- UDYNLINK_DEP_MAX_NAME.
abbrev pub dep_max_name : ℕ
dep_max_name = 64

-- `udynlink_dep_resolve_dependency`. `dep_load` is the host's `udynlink_external_dep_load`.
unfoldable pub resolve_dependency : (List ℕ → ℕ) → Memory → Handles → DepMgr → Option (List ℕ) → ℕ
resolve_dependency dep_load m handles mgr name = elim (dep_get_name name) [
  | none ↦ 0
  | some dep_name ↦
      let p_mod = dep_find m handles (some mgr) (some dep_name) in
      if is_loading m mgr dep_name
      then sym_deferred
      else if p_mod != 0
      then p_mod
      else dep_load dep_name
]

-- The stub that the module keeps for this name, 0 where there is none.
unfoldable pub own_stub : Resolver → Memory → Module → List ℕ → ℕ
own_stub resolve m p_mod name =
    if length name == 0 || ltb dep_max_name (length name)
    then 0
    else elim (lookup_symbol resolve m (some p_mod) (thunk_export_prefix ++ name)) [
      | none ↦ 0
      | some tsym ↦ if is_exported_data tsym && read16 m tsym.val != 0 then bit_or tsym.val 1 else 0
    ]

-- The answer for a name, with the state behind it.
pub record Served : Type 0 where
  pub addr : ℕ
  pub mem : Memory
  pub pool : Pool
  pub entries : List DepEntry

unfoldable pub new_stub : Memory → Pool → DepEntry → List DepEntry → ℕ → Served
new_stub m pool e es func_addr =
    let (addr, m', pool') = alloc_stub m pool func_addr e.gateway in
    record { addr = addr; mem = m'; pool = pool'; entries = e ∷ es }

-- A stub of the pool: one that is there, or a new one on the module's gateway.
unfoldable pub pool_stub : Memory → Pool → DepEntry → List DepEntry → ℕ → ℕ → Served
unfolding new_stub
pool_stub m pool e es ram_base func_addr =
    let existing = find_stub m (some pool) func_addr in
    if existing != 0
    then record { addr = existing; mem = m; pool = pool; entries = e ∷ es }
    else if e.gateway != 0
    then new_stub m pool e es func_addr
    else elim (alloc_gateway m pool ram_base) [
      | none ↦ record { addr = 0; mem = m; pool = pool; entries = e ∷ es }
      | some (g, m', pool') ↦ new_stub m' pool' (record e { gateway = g }) es func_addr
    ]

-- What the loop does at an entry that has the function at `func_addr`.
unfoldable pub serve_entry :
    Resolver → Memory → Pool → Handles → DepEntry → List DepEntry → List ℕ → ℕ → Served
unfolding pool_stub
serve_entry resolve m pool handles e es name val =
    let own = own_stub resolve m (handles e.p_mod) name in
    if own != 0
    then record { addr = own; mem = m; pool = pool; entries = e ∷ es }
    else pool_stub m pool e es (u32 (handles e.p_mod).p_ram) (u32 val)

-- The loop over the entries.
unfoldable pub func_loop : Resolver → Memory → Pool → Handles → List DepEntry → List ℕ → Served
unfolding serve_entry
func_loop resolve m pool handles [] name = record { addr = 0; mem = m; pool = pool; entries = [] }
func_loop resolve m pool handles (e ∷ es) name =
    let rest = func_loop resolve m pool handles es name in
    let next : Served = record rest { entries = e ∷ rest.entries } in
    if e.p_mod == 0 then next else elim (lookup_symbol resolve m (some (handles e.p_mod)) name) [
      | none ↦ next
      | some sym ↦
          if not sym.in_code then next else serve_entry resolve m pool handles e es name sym.val
    ]

-- `udynlink_dep_resolve_func` on pointers that are not NULL.
unfoldable pub resolve_func :
    Resolver → Memory → Pool → Handles → DepMgr → List ℕ → ℕ × Memory × Pool × DepMgr
unfolding func_loop
resolve_func resolve m pool handles mgr name =
    let served = func_loop resolve m pool handles mgr.entries name in
    (served.addr, served.mem, served.pool, record mgr { entries = served.entries })

unfoldable pub data_loop : Resolver → Memory → Handles → List DepEntry → List ℕ → ℕ
data_loop resolve m handles [] name = 0
data_loop resolve m handles (e ∷ es) name =
    let rest = data_loop resolve m handles es name in
    if e.p_mod == 0 then rest else elim (lookup_symbol resolve m (some (handles e.p_mod)) name) [
      | none ↦ rest
      | some sym ↦ if sym.in_code then rest else sym.val
    ]

-- `udynlink_dep_resolve_data`; a NULL manager or name is `none`.
unfoldable pub resolve_data : Resolver → Memory → Handles → Option DepMgr → Option (List ℕ) → ℕ
unfolding data_loop
resolve_data resolve m handles none name = 0
resolve_data resolve m handles (some mgr) none = 0
resolve_data resolve m handles (some mgr) (some name) = data_loop resolve m handles mgr.entries name
