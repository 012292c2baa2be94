-- ===== src/Calls.antt =====
-- Calls into a module: the handles and macros of udynlink/udynlink_call.h, the macro that loads r9
-- of udynlink/udynlink.h, and the classes FuncInvoker, Func and Context of udynlink/udynlink.hpp. The
-- code of a module is a parameter: what a function at an address gives back for its arguments, and the
-- memory and r9 behind it.
pub mod Contexts
pub mod Handles
use mathlib.Core.Option
use udynlink.Prelude.{ℕ, ◌==◌, ◌%◌, Bool, not, Option, some, none, List, if◌then◌else◌}
use udynlink.Memory.{Memory}
use udynlink.Header.{ErrorCode, ok, invalid_module, load_unknown_symbol}
use udynlink.Modules.{Module, Resolver, lookup_symbol}
use udynlink.Relocs.{is_ok}
use udynlink.Objects.{Object}

-- What the host and the module share: memory and the register r9.
pub record Machine : Type 0 where
  pub mem : Memory
  pub r9 : ℕ

-- Through which type a function is called: the macros of C cast its address to `ret(*)(...)`, so that a
-- float is passed as a double and by the convention of variadic calls; the templates of C++ cast it to
-- its exact type.
pub data CallType : Type 0 where
  variadic : CallType
  exact : CallType

abbrev pub Entry : Type 0
Entry = ℕ → List ℕ → Machine → ℕ × Machine

abbrev pub Code : Type 0
Code = CallType → Entry

-- `udynlink_func_t`. A NULL pointer is `none`.
pub record FuncHandle : Type 0 where
  pub p_mod : Option Module
  pub addr : ℕ
  pub name : Option (List ℕ)

abbrev pub no_handle : FuncHandle
no_handle = record { p_mod = none; addr = 0; name = none }

-- `udynlink_resolve_func` into a handle that is not NULL.
unfoldable pub resolve_module_func :
    Resolver → Memory → Option Module → Option (List ℕ) → ErrorCode × FuncHandle
resolve_module_func resolve m none name = (invalid_module, no_handle)
resolve_module_func resolve m (some p_mod) none = (invalid_module, no_handle)
resolve_module_func resolve m (some p_mod) (some name) =
    elim (lookup_symbol resolve m (some p_mod) name) [
      | none ↦ (load_unknown_symbol, no_handle)
      | some sym ↦ (ok, record { p_mod = some p_mod; addr = sym.val; name = some name })
    ]

-- `UDYNLINK_PREPARE_CALL`.
unfoldable pub prepare_call : Module → Machine → Machine
prepare_call p_mod m = record m { r9 = p_mod.p_ram % 4294967296 }

-- The assembly around a call: r9 is saved, loaded for the module and restored.
unfoldable pub guarded_call : Entry → Module → ℕ → List ℕ → Machine → ℕ × Machine
unfolding prepare_call
guarded_call entry p_mod addr args m =
    let prev_r9 = m.r9 in
    let (result, m') = entry addr args (prepare_call p_mod m) in
    (result, record m' { r9 = prev_r9 })

-- `UDYNLINK_CALL`, and `UDYNLINK_CALL_VOID` less the result. A handle without a module is not to be
-- called: the macro reads behind a NULL pointer.
unfoldable pub call_func : Code → FuncHandle → List ℕ → Machine → Option (ℕ × Machine)
unfolding guarded_call
call_func code p_func args m =
    Option.map (λ p_mod. guarded_call (code variadic) p_mod p_func.addr args m) p_func.p_mod

-- `UDYNLINK_CALL_MODULE_FUNC`: the error, what is written to `p_out_ret`, and the machine.
unfoldable pub call_module_func :
    Resolver
    → Code
    → Option Module
    → Option (List ℕ)
    → List ℕ
    → Machine
    → Option (ErrorCode × ℕ × Machine)
unfolding resolve_module_func call_func
call_module_func resolve code p_mod name args m =
    let (err, hdl) = resolve_module_func resolve m.mem p_mod name in
    if is_ok err
    then Option.map (λ r. (err, r.0, r.1)) (call_func code hdl args m)
    else some (err, 0, m)

-- `Func<R(Args...)>`, constructed with a module.
pub record Func : Type 0 where
  pub p_mod_ : Module
  pub addr_ : ℕ

-- `Func(mod, name)`.
unfoldable pub func_by_name : Resolver → Memory → Module → Option (List ℕ) → Func
unfolding resolve_module_func
func_by_name resolve m p_mod none = record { p_mod_ = p_mod; addr_ = 0 }
func_by_name resolve m p_mod (some name) =
    let (err, h) = resolve_module_func resolve m (some p_mod) (some name) in
    record { p_mod_ = p_mod; addr_ = if is_ok err then h.addr else 0 }

-- `Func(mod, addr)`.
unfoldable pub func_at : Module → ℕ → Func
func_at p_mod addr = record { p_mod_ = p_mod; addr_ = addr }

-- `operator bool`.
unfoldable pub is_resolved : Func → Bool
is_resolved f = not (f.addr_ == 0)

-- `Module::resolve`.
unfoldable pub object_resolve : Resolver → Memory → Object → Option (List ℕ) → Option Func
unfolding func_by_name is_resolved
object_resolve resolve m this name =
    let f = func_by_name resolve m this.mod_ name in if is_resolved f then some f else none

-- `FuncInvoker::invoke`, where `R()` is 0.
unfoldable pub invoke_func : Code → ℕ → Module → List ℕ → Machine → ℕ × Machine
unfolding guarded_call
invoke_func code addr mod_ args m =
    if addr == 0 then (0, m) else guarded_call (code exact) mod_ addr args m

-- `operator()`.
unfoldable pub func_call : Code → Func → List ℕ → Machine → ℕ × Machine
unfolding invoke_func
func_call code f args m = invoke_func code f.addr_ f.p_mod_ args m

-- `Context`.
pub record Context : Type 0 where
  pub p_mod_ : Module
  pub prev_r9_ : ℕ

-- `Context(mod)`.
unfoldable pub context_new : Module → Machine → Context × Machine
unfolding prepare_call
context_new p_mod m = (record { p_mod_ = p_mod; prev_r9_ = m.r9 }, prepare_call p_mod m)

-- `~Context`.
unfoldable pub context_destroy : Context → Machine → Machine
context_destroy this m = record m { r9 = this.prev_r9_ }

-- `rebind`.
unfoldable pub context_rebind : Context → Module → Machine → Context × Machine
context_rebind this p_mod m =
    (record this { p_mod_ = p_mod }, record m { r9 = p_mod.p_ram % 4294967296 })
