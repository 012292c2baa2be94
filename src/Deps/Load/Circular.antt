-- ===== src/Deps/Load/Circular.antt =====
-- Circular dependencies: a module that is being loaded is deferred where it is required, and refused
-- where it is loaded again.
use udynlink.Prelude.{
  ℕ, zero, suc, ◌+◌, ◌^◌, ◌≡◌, ◌≢◌, ◌≤◌, ◌<◌, refl, arith, Ordering, true, false, ◌||◌, inl, inr,
  ◌⊎◌, some, List, ◌++◌, length, ◌==◌,
}
use udynlink.Memory.{Memory, strcmp}
use udynlink.Header.{LoadMode, load_unknown_symbol}
use udynlink.Symbols.{
  SymName, pooled, not_available, compare_name, compare_texts, is_eq, get_module_name,
}
use udynlink.Modules.{sym_deferred}
use udynlink.Host.{Host, Event}
use udynlink.Deps.{DepMgr, Handles, dep_max_depth, is_loading, loading_loop}
use udynlink.Deps.Names.{read_text, name_text, dep_prefix, dep_get_name-append}
use udynlink.Deps.Resolve.{resolve_dependency}
use udynlink.Deps.Load.{begin_load, dep_load}
use udynlink.Deps.Load.Depth.{
  Calls, run_calls, nesting, run_calls_stack, begin_load_stack, pushed, length-pushed,
}

-- A text in memory has an end.
abbrev pub HasEnd : Memory → SymName → Type 0
HasEnd m not_available = Unit
HasEnd m (pooled p) = (k : ℕ) × (k < 2 ^ 32) × (m (p + k) ≡ 0)

zero_cases : (n : ℕ) → (n ≡ 0) ⊎ ((c : ℕ) × (n ≡ suc c))
zero_cases zero = inl refl
zero_cases (suc c) = inr (c, refl)

strcmp-read_text :
    (fuel k : ℕ) (m : Memory) (p : ℕ)
    → k < fuel
    → m (p + k) ≡ 0
    → strcmp m p (read_text fuel m p) ≡ Ordering.eq
unfolding strcmp read_text
strcmp-read_text zero k m p below end = absurd (omega arith)
strcmp-read_text (suc fuel) k m p below end = elim (zero_cases (m p)) [
  | inl done ↦ rw (read_text, done) (ground (arith, done))
  | inr (c, char) ↦ elim (zero_cases k) [
    | inl first ↦
        let same : p + k ≡ p = omega (arith, first) in
        absurd (omega (arith, char, (rw same at end)))
    | inr (j, more) ↦
        let moved : p + k ≡ p + 1 + j = omega (arith, more) in
        let rest =
          strcmp-read_text fuel j m (p + 1) (omega (arith, more, below)) (rw moved at end) in
        rw (read_text, char) (ground (arith, char, rest))
  ]
]

compare_name-name_text :
    (m : Memory) (name : SymName)
    → HasEnd m name
    → is_eq (compare_name m name (name_text m name)) ≡ true
unfolding compare_name name_text compare_texts
compare_name-name_text m not_available _ = refl
compare_name-name_text m (pooled p) (k, below, end) =
    rw (strcmp-read_text (2 ^ 32) k m p below end) refl

module _ (m : Memory) (mgr begun : DepMgr) (calls : Calls) (mod_name : SymName)
    (end : HasEnd m mod_name)
    (room : length mgr.loading_stack + suc (nesting calls) ≤ dep_max_depth)
    (begins : begin_load m mgr (some mod_name) ≡ some begun) where
  -- It is on the stack, whatever was loaded and registered since.
  still_loading : is_loading m (run_calls m calls begun) (name_text m mod_name) ≡ true
  unfolding is_loading loading_loop pushed
  still_loading =
      let stack = begin_load_stack m mgr begun (some mod_name) (omega (arith, room)) begins in
      let deeper : length begun.loading_stack ≤ suc (length mgr.loading_stack) =
        rw stack (length-pushed (some mod_name) mgr.loading_stack) in
      let same = run_calls_stack m calls begun (omega (arith, deeper, room)) in
      rw (same, stack, compare_name-name_text m mod_name end) refl

  -- While a module is being loaded, its dependency symbol is deferred, whatever modules the host has
  -- registered, and whatever it has loaded since within the room of the stack.
  pub resolve_dependency_circular :
      (load : List ℕ → ℕ) (handles : Handles)
      → resolve_dependency load m handles
          (run_calls m calls begun)
          (some (dep_prefix ++ name_text m mod_name))
        ≡ sym_deferred
  unfolding resolve_dependency
  resolve_dependency_circular load handles =
      rw (resolve_dependency, dep_get_name-append (name_text m mod_name), still_loading) refl

  -- While a module is being loaded by name, a load of an image with the same name is refused with
  -- UDYNLINK_ERR_LOAD_UNKNOWN_SYMBOL, with nothing changed: the manager, the handles, the memory and
  -- the log. Since the load of the module began, any tree of nested calls may have run whose depth
  -- fits the room of the loading stack, eight names with the names that were on it before and that
  -- of the module. The name ends with a NUL, and the handle and the image are not NULL.
  pub dep_load_circular :
      (host : Host) (nested : DepMgr → DepMgr) (handles : Handles) (log : List Event)
      (p_mod base_addr load_addr load_size : ℕ) (mode : LoadMode)
      → p_mod ≢ 0
      → base_addr ≢ 0
      → get_module_name m base_addr ≡ some mod_name
      → dep_load host nested
          (some (run_calls m calls begun))
          handles
          (record { mem = m; log = log })
          p_mod
          base_addr
          load_addr
          load_size
          mode
        ≡ record {
          code = load_unknown_symbol;
          mgr = some (run_calls m calls begun);
          handles = handles;
          world = record { mem = m; log = log };
        }
  unfolding dep_load begin_load
  dep_load_circular host nested handles log p_mod base_addr load_addr load_size mode given image
        named =
      let present : (p_mod == 0 || base_addr == 0) ≡ false = ground (arith, given, image) in
      rw (present, named, still_loading) refl
