-- ===== src/Objects/Steps.antt =====
-- Programs over the objects of the C++ layer: which steps they take, and that what the objects have
-- loaded is given back when they end.
use udynlink.Prelude.{
  ℕ, zero, suc, ◌+◌, ◌≡◌, ◌≢◌, ◌<◌, refl, ap, sym, arith, Bool, true, false, Bool-cases, inl, inr,
  List, [], ◌∷◌, length, get_or, set, length-set, if◌then◌else◌,
}
use mathlib.Core.Path.{subst}
use udynlink.Memory.{Memory}
use udynlink.Header.{LoadMode, header_at, is_sectioned}
use udynlink.Host.{Host, World, Block}
use udynlink.Host.Balance.{Balanced, handed_out, taken_back}
use udynlink.Objects.{
  Object, fresh_object, object_unload, object_load, object_destroy, object_move, object_assign,
  object_swap,
}
use udynlink.Objects.Accounts.{
  holding, IsIdle, IsReady, Exchange, nothing, object_unload-Exchange, object_load-Exchange,
}

-- The live objects, the youngest first, by their position.
abbrev pub obj : List Object → ℕ → Object
obj objs i = get_or objs i fresh_object

-- One step of a program. Images are untagged, and stay so in memory while they are loaded.
pub data Step (call : Memory → ℕ → Memory) (host : Host)
    : List Object → World → List Object → World → Type 0 where
  create : {objs : List Object} {w : World} → Step call host objs w (fresh_object ∷ objs) w
  load :
      {objs : List Object} {w : World} (i base_addr load_addr load_size : ℕ) (mode : LoadMode)
      → i < length objs
      → IsReady w.mem (obj objs i)
      → is_sectioned (header_at (object_unload w (obj objs i)).2.mem base_addr) ≡ false
      → Step call host objs w
          (set objs i (object_load call host w (obj objs i) base_addr load_addr load_size mode).1)
          (object_load call host w (obj objs i) base_addr load_addr load_size mode).2
  unload :
      {objs : List Object} {w : World} (i : ℕ)
      → i < length objs
      → IsReady w.mem (obj objs i)
      → Step call host objs w
          (set objs i (object_unload w (obj objs i)).1)
          (object_unload w (obj objs i)).2
  move :
      {objs : List Object} {w : World} (i : ℕ)
      → i < length objs
      → Step call host objs w
          ((object_move (obj objs i)).0 ∷ set objs i (object_move (obj objs i)).1)
          w
  assign :
      {objs : List Object} {w : World} (i j : ℕ)
      → i < length objs
      → j < length objs
      → i ≢ j
      → IsReady w.mem (obj objs i)
      → Step call host objs w
          (set
            (set objs i (object_assign w (obj objs i) (obj objs j)).0)
            j
            (object_assign w (obj objs i) (obj objs j)).1)
          (object_assign w (obj objs i) (obj objs j)).2
  swap :
      {objs : List Object} {w : World} (i j : ℕ)
      → i < length objs
      → j < length objs
      → i ≢ j
      → Step call host objs w
          (set
            (set objs i (object_swap (obj objs i) (obj objs j)).0)
            j
            (object_swap (obj objs i) (obj objs j)).1)
          w
  -- Module code and the host write to memory, but not to the log.
  write :
      {objs : List Object} {w : World} (mem : Memory)
      → Step call host objs w objs (record w { mem = mem })
  destroy :
      {objs : List Object} {w : World} {o : Object}
      → IsReady w.mem o
      → Step call host (o ∷ objs) w objs (object_destroy w o)

pub data Steps (call : Memory → ℕ → Memory) (host : Host)
    : List Object → World → List Object → World → Type 0 where
  stop : {objs : List Object} {w : World} → Steps call host objs w objs w
  next :
      {objs objs' objs'' : List Object} {w w' w'' : World}
      → Step call host objs w objs' w'
      → Steps call host objs' w' objs'' w''
      → Steps call host objs w objs'' w''

abbrev pub total : (Block → ℕ) → List Object → ℕ
total hits [] = 0
total hits (o ∷ objs) = holding hits o + total hits objs

abbrev pub AllIdle : List Object → Type 0
AllIdle [] = Unit
AllIdle (o ∷ objs) = IsIdle o × AllIdle objs

total-set :
    (hits : Block → ℕ) (objs : List Object) (i : ℕ) (o : Object)
    → i < length objs
    → total hits (set objs i o) + holding hits (obj objs i) ≡ total hits objs + holding hits o
total-set hits [] i o inside = absurd (omega arith)
total-set hits (p ∷ objs) zero o inside = omega arith
total-set hits (p ∷ objs) (suc i) o inside = omega (arith, total-set hits objs i o (omega arith))

AllIdle-set :
    (objs : List Object) (i : ℕ) (o : Object) → AllIdle objs → IsIdle o → AllIdle (set objs i o)
AllIdle-set [] i o all idle = tt
AllIdle-set (p ∷ objs) zero o (_, all) idle = (idle, all)
AllIdle-set (p ∷ objs) (suc i) o (first, all) idle = (first, AllIdle-set objs i o all idle)

AllIdle-obj : (objs : List Object) (i : ℕ) → AllIdle objs → IsIdle (obj objs i)
AllIdle-obj [] i all = λ _. refl
AllIdle-obj (p ∷ objs) zero (first, all) = first
AllIdle-obj (p ∷ objs) (suc i) (first, all) = AllIdle-obj objs i all

obj-set_other :
    (objs : List Object) (i j : ℕ) (o : Object) → i ≢ j → obj (set objs i o) j ≡ obj objs j
obj-set_other [] i j o ne = refl
obj-set_other (p ∷ objs) zero zero o ne = absurd (ne refl)
obj-set_other (p ∷ objs) zero (suc j) o ne = refl
obj-set_other (p ∷ objs) (suc i) zero o ne = refl
obj-set_other (p ∷ objs) (suc i) (suc j) o ne = obj-set_other objs i j o (λ e. ne (ap suc e))

-- Two objects replaced.
total-set_both :
    (hits : Block → ℕ) (objs : List Object) (i j : ℕ) (o p : Object)
    → i < length objs
    → j < length objs
    → i ≢ j
    → total hits (set (set objs i o) j p) + holding hits (obj objs i) + holding hits (obj objs j)
      ≡ total hits objs + holding hits o + holding hits p
total-set_both hits objs i j o p inside inside' ne =
    let one = total-set hits objs i o inside in
    let both = total-set hits (set objs i o) j p (omega (arith, length-set objs i o)) in
    let same = ap (holding hits) (obj-set_other objs i j o ne) in omega (arith, one, both, same)

-- Since `old`, the host is owed what the objects hold.
abbrev pub Kept : World → List Object → World → Type 0
Kept old objs w =
    AllIdle objs
    × ((hits : Block → ℕ)
        → handed_out hits w.log + taken_back hits old.log
          ≡ handed_out hits old.log + taken_back hits w.log + total hits objs)

if_true {ℓ} : {A : Type ℓ} (b : Bool) (x y : A) → b ≡ true → (if b then x else y) ≡ x
if_true b x y e = rw e refl

object_destroy_lem : (w : World) (o : Object) → object_destroy w o ≡ (object_unload w o).2
unfolding object_destroy object_unload
object_destroy_lem w o = elim (Bool-cases o.loaded_) [
  | inl full ↦ if_true o.loaded_ (object_unload w o).2 w full
  | inr empty ↦ rw empty refl
]

-- An object whose end has come, or that takes over another's module, gives back what it holds.
object_destroy-Exchange :
    (w : World) (o : Object)
    → IsReady w.mem o
    → IsIdle o
    → Exchange w (λ hits. holding hits o) (object_destroy w o) nothing
object_destroy-Exchange w o v idle =
    let (good, _, exchange, _) = object_unload-Exchange w o v idle in
    subst (λ w'. Exchange w (λ hits. holding hits o) w' nothing) (sym (object_destroy_lem w o))
      exchange

Step-Kept :
    (call : Memory → ℕ → Memory) (host : Host) (old : World) (objs : List Object) (w : World)
    (objs' : List Object) (w' : World)
    → Step call host objs w objs' w'
    → Kept old objs w
    → Kept old objs' w'
unfolding nothing object_move object_swap object_assign object_destroy
Step-Kept call host old objs w _ _ create (all, kept) =
    (((λ _. refl), all), λ hits. omega (arith, kept hits))
Step-Kept call host old objs w _ _ (load i base_addr load_addr load_size mode inside v untagged)
      (all, kept) =
    let o = obj objs i in
    let (idle, exchange) =
      object_load-Exchange call host w o base_addr load_addr load_size mode v
        (AllIdle-obj objs i all) untagged in
    let o' = (object_load call host w o base_addr load_addr load_size mode).1 in
    (
      AllIdle-set objs i o' all idle,
      λ hits. omega (arith, exchange hits, kept hits, total-set hits objs i o' inside),
    )
Step-Kept call host old objs w _ _ (unload i inside v) (all, kept) =
    let (good, idle, exchange, clear) =
      object_unload-Exchange w (obj objs i) v (AllIdle-obj objs i all) in
    let o' = (object_unload w (obj objs i)).1 in
    (
      AllIdle-set objs i o' all idle,
      λ hits. ground (arith, exchange hits, kept hits, total-set hits objs i o' inside, clear),
    )
Step-Kept call host old objs w _ _ (move i inside) (all, kept) = (
  (AllIdle-obj objs i all, AllIdle-set objs i fresh_object all (λ _. refl)),
  λ hits. omega (arith, kept hits, total-set hits objs i fresh_object inside),
)
Step-Kept call host old objs w _ _ (assign i j inside inside' ne v) (all, kept) =
    let one = AllIdle-set objs i (obj objs j) all (AllIdle-obj objs j all) in
    let exchange = object_destroy-Exchange w (obj objs i) v (AllIdle-obj objs i all) in
    (
      AllIdle-set (set objs i (obj objs j)) j fresh_object one (λ _. refl),
      λ hits. omega (
        arith,
        exchange hits,
        kept hits,
        total-set_both hits objs i j (obj objs j) fresh_object inside inside' ne,
      ),
    )
Step-Kept call host old objs w _ _ (swap i j inside inside' ne) (all, kept) =
    let one = AllIdle-set objs i (obj objs j) all (AllIdle-obj objs j all) in
    (
      AllIdle-set (set objs i (obj objs j)) j (obj objs i) one (AllIdle-obj objs i all),
      λ hits. omega (
        arith,
        kept hits,
        total-set_both hits objs i j (obj objs j) (obj objs i) inside inside' ne,
      ),
    )
Step-Kept call host old objs w _ _ (write mem) kept = kept
Step-Kept call host old (o ∷ objs) w _ _ (destroy v) ((idle, all), kept) =
    let exchange = object_destroy-Exchange w o v idle in
    (all, λ hits. omega (arith, exchange hits, kept hits))

Steps-Kept :
    (call : Memory → ℕ → Memory) (host : Host) (old : World) (objs : List Object) (w : World)
    (objs' : List Object) (w' : World)
    → Steps call host objs w objs' w'
    → Kept old objs w
    → Kept old objs' w'
Steps-Kept call host old objs w _ _ stop kept = kept
Steps-Kept call host old objs w objs'' w'' (next {objs' = objs'} {w' = w'} step steps) kept =
    Steps-Kept call host old objs' w' objs'' w'' steps
      (Step-Kept call host old objs w objs' w' step kept)

-- When the objects of a program whose steps are those of Step have ended, every block that their
-- loads allocated has been freed as often as it was allocated, with the arguments of its allocation,
-- however the modules were loaded, moved, assigned and swapped, and whichever loads failed. The
-- modules are of untagged images, and their headers are untagged in memory also when an object is
-- loaded, unloaded, assigned or ended; constructors of the modules leave the log of the host's
-- allocator as it is. Images with sections are not covered.
pub Steps-Balanced :
    (call : Memory → ℕ → Memory) (host : Host) (w w' : World)
    → Steps call host [] w [] w'
    → Balanced w.log w'.log
Steps-Balanced call host w w' steps =
    let (_, kept) = Steps-Kept call host w [] w [] w' steps (tt, λ hits. omega arith) in
    λ hits. omega (arith, kept hits)
