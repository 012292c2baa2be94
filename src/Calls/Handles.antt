-- ===== src/Calls/Handles.antt =====
-- The two ways to call a function by its name: the macro of udynlink/udynlink_call.h and the class
-- Func of udynlink/udynlink.hpp.
use udynlink.Prelude.{
  Option-cases, inl, inr, ℕ, ◌≡◌, ◌≢◌, arith, ◌==◌, if◌then◌else◌, false, some, List,
}
use udynlink.Header.{ok, load_unknown_symbol}
use udynlink.Symbols.{Sym}
use udynlink.Modules.{Module, Resolver, lookup_symbol}
use udynlink.Calls.{
  Machine, Code, variadic, exact, prepare_call, call_module_func, resolve_module_func, call_func,
  guarded_call, invoke_func, func_by_name, func_call, is_resolved,
}

-- By name, the C macro and a C++ handle that was just constructed do the same with a module whose
-- symbol, if it is found, does not have the value 0, and with arguments that the code takes alike
-- through a variadic type, by which the macro calls it, and through its exact type, by which the
-- handle does (floating-point numbers it need not): the macro has a defined end, with the result,
-- the memory and the r9 of the call of the handle, and its error is UDYNLINK_OK when the handle is
-- resolved, and that the symbol is unknown when it is not.
pub call_module_func-func_call :
    (resolve : Resolver) (code : Code) (p_mod : Module) (name args : List ℕ) (m : Machine)
    → ((addr : ℕ) (at : Machine) → code variadic addr args at ≡ code exact addr args at)
    → ((found : Sym) → lookup_symbol resolve m.mem (some p_mod) name ≡ some found → found.val ≢ 0)
    → call_module_func resolve code (some p_mod) (some name) args m
      ≡ some (
          let f = func_by_name resolve m.mem p_mod (some name) in
          let (result, m') = func_call code f args m in
          (if is_resolved f then ok else load_unknown_symbol, result, m'))
unfolding call_module_func resolve_module_func call_func guarded_call func_by_name func_call
    invoke_func is_resolved
call_module_func-func_call resolve code p_mod name args m alike placed =
    elim (Option-cases (lookup_symbol resolve m.mem (some p_mod) name)) [
      | inl absent ↦ ground (arith, absent)
      | inr (found, e) ↦
          let full : (found.val == 0) ≡ false = ground (arith, placed found e) in
          let same = alike (found.val) (prepare_call p_mod m) in ground (arith, e, full, same)
    ]
