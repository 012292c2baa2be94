-- ===== src/Deps/Load/Depth.antt =====
-- The stack of the names that are being loaded: loads that nest restore it, and a module whose load
-- has begun is deferred and refused.
use udynlink.Prelude.{
  ℕ, suc, ◌+◌, ◌≡◌, ◌≤◌, ◌<◌, refl, ap, sym, ◌∙◌, arith, Bool, true, false, ◌||◌, Bool-cases, inl,
  inr, Option, Option-cases, some, none, List, ◌∷◌, length, ltb, ◌==◌,
}
use Prim.Native.Nat.{max}
use mathlib.Core.Option
use udynlink.Memory.{Memory}
use udynlink.Header.{LoadMode}
use udynlink.Symbols.{SymName, get_module_name}
use udynlink.Host.{Host, World}
use udynlink.Deps.{
  DepMgr, Handles, dep_max_depth, is_loading, push_loading, pop_loading, dep_register,
  unregister_module, tail,
}
use udynlink.Deps.Names.{name_text}
use udynlink.Deps.Load.{begin_load, end_load, load_begun, dep_load}

-- What the host does to the manager while a module is being loaded: it registers and unregisters
-- modules, and loads others, while which it may do the same. `good` says whether such a load succeeds.
pub data Calls : Type 0 where
  no_more : Calls
  registering : ℕ → Calls → Calls
  unregistering : ℕ → Calls → Calls
  loading : Option SymName → ℕ → Bool → Calls → Calls → Calls

unfoldable pub run_calls : Memory → Calls → DepMgr → DepMgr
run_calls m no_more mgr = mgr
run_calls m (registering p_mod rest) mgr = run_calls m rest (dep_register mgr p_mod)
run_calls m (unregistering p_mod rest) mgr = run_calls m rest (unregister_module mgr p_mod)
run_calls m (loading mod_name p_mod good inner rest) mgr = elim (begin_load m mgr mod_name) [
  | none ↦ run_calls m rest mgr
  | some begun ↦ run_calls m rest (end_load (run_calls m inner begun) mod_name good p_mod)
]

-- How deep the loads nest.
unfoldable pub nesting : Calls → ℕ
nesting no_more = 0
nesting (registering p_mod rest) = nesting rest
nesting (unregistering p_mod rest) = nesting rest
nesting (loading mod_name p_mod good inner rest) = max (suc (nesting inner)) (nesting rest)

register_stack :
    (mgr : DepMgr) (p_mod : ℕ) → (dep_register mgr p_mod).loading_stack ≡ mgr.loading_stack
unfolding dep_register udynlink.Deps.register_module
register_stack mgr p_mod = ground arith

unfoldable pub pushed : Option SymName → List SymName → List SymName
pushed none stack = stack
pushed (some n) stack = n ∷ stack

popped : Option SymName → List SymName → List SymName
popped none stack = stack
popped (some n) stack = tail stack

popped-pushed :
    (mod_name : Option SymName) (stack : List SymName)
    → popped mod_name (pushed mod_name stack) ≡ stack
unfolding popped pushed
popped-pushed none stack = refl
popped-pushed (some n) stack = refl

pub length-pushed :
    (mod_name : Option SymName) (stack : List SymName)
    → length (pushed mod_name stack) ≤ suc (length stack)
unfolding pushed
length-pushed none stack = omega arith
length-pushed (some n) stack = omega arith

pub begin_load_stack :
    (m : Memory) (mgr begun : DepMgr) (mod_name : Option SymName)
    → length mgr.loading_stack < dep_max_depth
    → begin_load m mgr mod_name ≡ some begun
    → begun.loading_stack ≡ pushed mod_name mgr.loading_stack
unfolding begin_load push_loading pushed
begin_load_stack m mgr begun none room e = ap (λ o. (Option.get_or o mgr).loading_stack) (sym e)
begin_load_stack m mgr begun (some n) room e =
    elim (Bool-cases (is_loading m mgr (name_text m n))) [
      | inl again ↦ absurd (ground (arith, again, e))
      | inr new ↦
          let free : ltb (length mgr.loading_stack) dep_max_depth ≡ true = ground arith in
          ap (λ o. (Option.get_or o mgr).loading_stack) (sym (rw (new, free) at e))
    ]

end_load_stack :
    (mgr : DepMgr) (mod_name : Option SymName) (good : Bool) (p_mod : ℕ)
    → (end_load mgr mod_name good p_mod).loading_stack ≡ popped mod_name mgr.loading_stack
unfolding end_load pop_loading popped
end_load_stack mgr none true p_mod = register_stack mgr p_mod
end_load_stack mgr none false p_mod = refl
end_load_stack mgr (some n) true p_mod = ap tail (register_stack mgr p_mod)
end_load_stack mgr (some n) false p_mod = refl

-- The end of a load takes off what the beginning put there.
load_stack :
    (m : Memory) (mgr begun after : DepMgr) (mod_name : Option SymName) (good : Bool) (p_mod : ℕ)
    → length mgr.loading_stack < dep_max_depth
    → begin_load m mgr mod_name ≡ some begun
    → after.loading_stack ≡ begun.loading_stack
    → (end_load after mod_name good p_mod).loading_stack ≡ mgr.loading_stack
load_stack m mgr begun after mod_name good p_mod room e same =
    end_load_stack after mod_name good p_mod
    ∙ ap (popped mod_name) (same ∙ begin_load_stack m mgr begun mod_name room e)
    ∙ popped-pushed mod_name mgr.loading_stack

-- Whatever the host registers, unregisters and loads, and however the loads end, the stack is as it
-- was when the loads do not nest deeper than the room that is left.
pub run_calls_stack :
    (m : Memory) (calls : Calls) (mgr : DepMgr)
    → length mgr.loading_stack + nesting calls ≤ dep_max_depth
    → (run_calls m calls mgr).loading_stack ≡ mgr.loading_stack
unfolding run_calls nesting unregister_module
run_calls_stack m no_more mgr room = refl
run_calls_stack m (registering p_mod rest) mgr room =
    let same = register_stack mgr p_mod in
    run_calls_stack m rest (dep_register mgr p_mod) (rw same room) ∙ same
run_calls_stack m (unregistering p_mod rest) mgr room =
    run_calls_stack m rest (unregister_module mgr p_mod) room
run_calls_stack m (loading mod_name p_mod good inner rest) mgr room =
    elim (Option-cases (begin_load m mgr mod_name)) [
      | inl refused ↦ rw (run_calls, refused) (run_calls_stack m rest mgr (omega arith))
      | inr (begun, e) ↦
          let after = run_calls m inner begun in
          let stack = begin_load_stack m mgr begun mod_name (omega arith) e in
          let deeper : length begun.loading_stack ≤ suc (length mgr.loading_stack) =
            rw stack (length-pushed mod_name mgr.loading_stack) in
          let same = run_calls_stack m inner begun (omega (arith, deeper)) in
          let back = load_stack m mgr begun after mod_name good p_mod (omega arith) e same in
          rw (run_calls, e)
            (run_calls_stack m rest (end_load after mod_name good p_mod) (rw back (omega arith))
              ∙ back)
    ]

-- A load through the manager leaves the stack as it was, whether it succeeds, fails or is refused, if
-- the loads that it brings about do not nest deeper than the room that is left.
pub dep_load_stack :
    (host : Host) (m : Memory) (calls : Calls) (mgr : DepMgr) (handles : Handles) (w : World)
    (p_mod base_addr load_addr load_size : ℕ) (mode : LoadMode)
    → length mgr.loading_stack + suc (nesting calls) ≤ dep_max_depth
    → Option.map
        (λ after. after.loading_stack)
        (dep_load host
          (run_calls m calls)
          (some mgr)
          handles
          w
          p_mod
          base_addr
          load_addr
          load_size
          mode).mgr
      ≡ some mgr.loading_stack
unfolding dep_load load_begun
dep_load_stack host m calls mgr handles w p_mod base_addr load_addr load_size mode room =
    elim (Bool-cases (p_mod == 0 || base_addr == 0)) [
      | inl null ↦ rw null refl
      | inr given ↦ elim (Option-cases (begin_load w.mem mgr (get_module_name w.mem base_addr))) [
        | inl refused ↦ rw (given, refused) refl
        | inr (begun, e) ↦
            let mod_name = get_module_name w.mem base_addr in
            let after = run_calls m calls begun in
            let stack = begin_load_stack w.mem mgr begun mod_name (omega arith) e in
            let deeper : length begun.loading_stack ≤ suc (length mgr.loading_stack) =
              rw stack (length-pushed mod_name mgr.loading_stack) in
            let same = run_calls_stack m calls begun (omega (arith, deeper)) in
            rw (given, e)
              (ap some (load_stack w.mem mgr begun after mod_name _ p_mod (omega arith) e same))
      ]
    ]
