-- ===== src/Deps.antt =====
-- The dependency manager, udynlink/udynlink_deps.c and udynlink_deps.h: the registry of loaded
-- modules and the stack of the names that are being loaded. A module pointer is the address of a
-- handle, 0 for NULL; the handles are a function of the address. The first `count` entries of the
-- array are a list, and the stack holds the newest name first.
pub mod Names
pub mod Resolve
pub mod Exports
pub mod Load
pub mod Registry
use udynlink.Prelude.{
  ℕ, zero, suc, Bool, true, false, ◌||◌, Option, some, none, List, [], ◌∷◌, ◌++◌, length, ltb, leb,
  ◌==◌, if◌then◌else◌,
}
use udynlink.Memory.{Memory}
use udynlink.Symbols.{SymName, compare_name, is_eq, get_module_name}
use udynlink.Modules.{Module}

-- UDYNLINK_DEP_MAX_DEPTH.
abbrev pub dep_max_depth : ℕ
dep_max_depth = 8

-- `udynlink_dep_entry_t`.
pub record DepEntry : Type 0 where
  pub p_mod : ℕ
  pub gateway : ℕ

-- `udynlink_dep_mgr_t`.
pub record DepMgr : Type 0 where
  pub entries : List DepEntry
  pub capacity : ℕ
  pub loading_stack : List SymName

abbrev pub Handles : Type 0
Handles = ℕ → Module

-- `udynlink_dep_mgr_init`.
unfoldable pub mgr_init : ℕ → DepMgr
mgr_init cap = record { entries = []; capacity = cap; loading_stack = [] }

-- Whether a module has this name.
unfoldable pub has_name : Memory → Module → List ℕ → Bool
has_name m p_mod name = elim (get_module_name m p_mod.p_header) [
  | none ↦ false
  | some mod_name ↦ is_eq (compare_name m mod_name name)
]

unfoldable pub find_loop : Memory → Handles → List DepEntry → List ℕ → ℕ
find_loop m handles [] name = 0
find_loop m handles (e ∷ es) name =
    let rest = find_loop m handles es name in
    if e.p_mod == 0 then rest else if has_name m (handles e.p_mod) name then e.p_mod else rest

-- `udynlink_dep_find`; a NULL manager or name is `none`.
unfoldable pub dep_find : Memory → Handles → Option DepMgr → Option (List ℕ) → ℕ
dep_find m handles none name = 0
dep_find m handles (some mgr) none = 0
dep_find m handles (some mgr) (some name) = find_loop m handles mgr.entries name

unfoldable pub loading_loop : Memory → List SymName → List ℕ → Bool
loading_loop m [] name = false
loading_loop m (s ∷ stack) name = is_eq (compare_name m s name) || loading_loop m stack name

unfoldable pub is_loading : Memory → DepMgr → List ℕ → Bool
is_loading m mgr name = loading_loop m mgr.loading_stack name

unfoldable pub push_loading : DepMgr → SymName → DepMgr
push_loading mgr name =
    if ltb (length mgr.loading_stack) dep_max_depth
    then record mgr { loading_stack = name ∷ mgr.loading_stack }
    else mgr

abbrev pub tail {ℓ} : {A : Type ℓ} → List A → List A
tail [] = []
tail (x ∷ xs) = xs

unfoldable pub pop_loading : DepMgr → DepMgr
pop_loading mgr = record mgr { loading_stack = tail mgr.loading_stack }

-- `register_module`, with 0 or -1 as `true` or `false`.
unfoldable pub register_module : DepMgr → ℕ → Bool × DepMgr
register_module mgr p_mod = if leb mgr.capacity (length mgr.entries) then (false, mgr) else (
  true,
  record mgr { entries = mgr.entries ++ (record { p_mod = p_mod; gateway = 0 } ∷ []) },
)

unfoldable pub last_entry : DepEntry → List DepEntry → DepEntry
last_entry e [] = e
last_entry e (f ∷ fs) = last_entry f fs

unfoldable pub without_last : DepEntry → List DepEntry → List DepEntry
without_last e [] = []
without_last e (f ∷ fs) = e ∷ without_last f fs

-- The last entry in the place of the one that goes, in front of `es`.
unfoldable pub fill_hole : List DepEntry → List DepEntry
fill_hole [] = []
fill_hole (e ∷ es) = last_entry e es ∷ without_last e es

unfoldable pub unregister_loop : List DepEntry → ℕ → List DepEntry
unregister_loop [] p_mod = []
unregister_loop (e ∷ es) p_mod =
    let rest = unregister_loop es p_mod in if e.p_mod == p_mod then fill_hole es else e ∷ rest

unfoldable pub unregister_module : DepMgr → ℕ → DepMgr
unregister_module mgr p_mod = record mgr { entries = unregister_loop mgr.entries p_mod }

-- `find_entry`; NULL is `none`.
unfoldable pub find_entry_loop : List DepEntry → ℕ → Option DepEntry
find_entry_loop [] p_mod = none
find_entry_loop (e ∷ es) p_mod =
    let rest = find_entry_loop es p_mod in if e.p_mod == p_mod then some e else rest

unfoldable pub find_entry : DepMgr → ℕ → Option DepEntry
find_entry mgr p_mod = find_entry_loop mgr.entries p_mod

-- `udynlink_dep_register`, which drops the answer.
unfoldable pub dep_register : DepMgr → ℕ → DepMgr
unfolding register_module
dep_register mgr p_mod = (register_module mgr p_mod).1
