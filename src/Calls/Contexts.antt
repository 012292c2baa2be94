-- ===== src/Calls/Contexts.antt =====
-- Programs that call into several modules: which steps they take, and what r9 holds on the way.
use mathlib.Core.Option
use udynlink.Prelude.{
  ap, none, ℕ, ◌≡◌, refl, ◌%◌, ◌==◌, Bool-cases, inl, inr, Option, some, List, [], ◌∷◌,
}
use udynlink.Memory.{Memory}
use udynlink.Modules.{Module}
use udynlink.Calls.{
  Machine, Code, Entry, variadic, FuncHandle, call_func, guarded_call, Func, func_call, Context,
  context_new, context_destroy, context_rebind,
}

-- One step, with the live contexts, the innermost first. What the host does by itself leaves r9 as it
-- is.
pub data Step (code : Code) : List Context → Machine → List Context → Machine → Type 0 where
  enter :
      {cs : List Context} {m : Machine} (p_mod : Module)
      → Step code cs m ((context_new p_mod m).0 ∷ cs) (context_new p_mod m).1
  rebind :
      {cs : List Context} {c : Context} {m : Machine} (p_mod : Module)
      → Step code (c ∷ cs) m ((context_rebind c p_mod m).0 ∷ cs) (context_rebind c p_mod m).1
  leave :
      {cs : List Context} {c : Context} {m : Machine}
      → Step code (c ∷ cs) m cs (context_destroy c m)
  call :
      {cs : List Context} {m : Machine} (f : Func) (args : List ℕ)
      → Step code cs m cs (func_call code f args m).1
  call_handle :
      {cs : List Context} {m m' : Machine} (p_func : FuncHandle) (args : List ℕ) (result : ℕ)
      → call_func code p_func args m ≡ some (result, m')
      → Step code cs m cs m'
  write :
      {cs : List Context} {m : Machine} (mem : Memory) → Step code cs m cs (record m { mem = mem })

pub data Steps (code : Code) : List Context → Machine → List Context → Machine → Type 0 where
  stop : {cs : List Context} {m : Machine} → Steps code cs m cs m
  next :
      {cs cs' cs'' : List Context} {m m' m'' : Machine}
      → Step code cs m cs' m'
      → Steps code cs' m' cs'' m''
      → Steps code cs m cs'' m''

-- The register holds the base of the innermost context's module, and each context has saved what the
-- next one needs; below the last there is `outer`.
unfoldable pub IsBound : ℕ → List Context → ℕ → Type 0
IsBound outer [] r9 = r9 ≡ outer
IsBound outer (c ∷ cs) r9 = (r9 ≡ c.p_mod_.p_ram % 4294967296) × IsBound outer cs c.prev_r9_

func_call_r9 :
    (code : Code) (f : Func) (args : List ℕ) (m : Machine) → (func_call code f args m).1.r9 ≡ m.r9
unfolding func_call
func_call_r9 code f args m = elim (Bool-cases (f.addr_ == 0)) [
  | inl null ↦ rw null refl
  | inr full ↦ rw full refl
]

-- The register behind a call; a call that is undefined counts as none.
r9_behind : ℕ → Option (ℕ × Machine) → ℕ
r9_behind r9 none = r9
r9_behind r9 (some r) = r.1.r9

r9_behind-guarded_call :
    (entry : Entry) (addr : ℕ) (args : List ℕ) (m : Machine) (p_mod : Option Module)
    → r9_behind m.r9 (Option.map (λ p_mod. guarded_call entry p_mod addr args m) p_mod) ≡ m.r9
unfolding r9_behind guarded_call
r9_behind-guarded_call entry addr args m none = refl
r9_behind-guarded_call entry addr args m (some p_mod) = refl

call_func_r9 :
    (code : Code) (p_func : FuncHandle) (args : List ℕ) (m m' : Machine) (result : ℕ)
    → call_func code p_func args m ≡ some (result, m')
    → m'.r9 ≡ m.r9
unfolding call_func r9_behind
call_func_r9 code p_func args m m' result e =
    let same = r9_behind-guarded_call (code variadic) p_func.addr args m p_func.p_mod in
    let behind = ap (r9_behind m.r9) e in cc

Step-IsBound :
    (code : Code) (outer : ℕ) (cs cs' : List Context) (m m' : Machine)
    → Step code cs m cs' m'
    → IsBound outer cs m.r9
    → IsBound outer cs' m'.r9
unfolding IsBound context_new context_rebind context_destroy
Step-IsBound code outer cs _ m _ (enter p_mod) bound = (refl, bound)
Step-IsBound code outer (c ∷ cs) _ m _ (rebind p_mod) (_, below) = (refl, below)
Step-IsBound code outer (c ∷ cs) _ m _ leave (_, below) = below
Step-IsBound code outer cs _ m _ (call f args) bound = rw (func_call_r9 code f args m) bound
Step-IsBound code outer cs _ m m' (call_handle p_func args result e) bound =
    rw (call_func_r9 code p_func args m m' result e) bound
Step-IsBound code outer cs _ m _ (write mem) bound = bound

Steps-IsBound :
    (code : Code) (outer : ℕ) (cs cs' : List Context) (m m' : Machine)
    → Steps code cs m cs' m'
    → IsBound outer cs m.r9
    → IsBound outer cs' m'.r9
Steps-IsBound code outer cs _ m _ stop bound = bound
Steps-IsBound code outer cs cs'' m m'' (next {cs' = cs'} {m' = m'} step steps) bound =
    Steps-IsBound code outer cs' cs'' m' m'' steps (Step-IsBound code outer cs cs' m m' step bound)

-- A program that enters and leaves contexts, rebinds the innermost live one, and calls functions of
-- any modules, whatever their code does to r9, finds in r9 at each point the base of the module its
-- innermost live context is bound to, and when every context is left, the value that r9 had at its
-- start. Contexts end in the reverse order of their entering, and a context is rebound only while no
-- later one is live: the rebinding of an outer one writes r9 at once, and is no step of such a
-- program.
pub contexts-IsBound :
    (code : Code) (cs : List Context) (m m' : Machine)
    → Steps code [] m cs m'
    → IsBound m.r9 cs m'.r9
unfolding IsBound
contexts-IsBound code cs m m' steps = Steps-IsBound code m.r9 [] cs m m' steps refl
