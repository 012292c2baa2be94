-- ===== src/Deps/Registry.antt =====
-- The registry of the dependency manager as a bag: what is registered is there, and what is
-- unregistered goes, with the last entry moved to its place.
use udynlink.Prelude.{
  ℕ, ◌≡◌, ◌≢◌, ◌<◌, refl, ap, arith, true, false, Bool-cases, inl, inr, ◌⊎◌, some, none, List, [],
  ◌∷◌, ◌++◌, length, leb, ◌==◌,
}
use mathlib.Core.Option
use mathlib.Core.List.{Perm}
use mathlib.Core.List.Perm
use udynlink.Memory.{Memory}
use udynlink.Deps.{
  Handles, has_name, find_loop, dep_find, DepEntry, DepMgr, last_entry, without_last, fill_hole,
  unregister_loop, unregister_module, find_entry_loop, find_entry, register_module, dep_register,
}

last-Perm :
    (e : DepEntry) (es : List DepEntry) → Perm (last_entry e es ∷ without_last e es) (e ∷ es)
unfolding last_entry without_last
last-Perm e [] = Perm.refl _
last-Perm e (f ∷ fs) = Perm.trans (Perm.swap _ _ _) (Perm.cons _ (last-Perm f fs))

fill_hole-Perm : (es : List DepEntry) → Perm es (fill_hole es)
unfolding fill_hole
fill_hole-Perm [] = Perm.refl []
fill_hole-Perm (e ∷ es) = Perm.symm (last-Perm e es)

unregister_loop_found :
    (es : List DepEntry) (p_mod : ℕ) (entry : DepEntry)
    → find_entry_loop es p_mod ≡ some entry
    → Perm es (entry ∷ unregister_loop es p_mod)
unfolding find_entry_loop unregister_loop
unregister_loop_found [] p_mod entry e = absurd (ground (arith, e))
unregister_loop_found (f ∷ es) p_mod entry e = elim (Bool-cases (f.p_mod == p_mod)) [
  | inl here ↦
      let it : f ≡ entry = ap (λ o. Option.get_or o f) (rw here at e) in
      rw (here, it) (Perm.cons entry (fill_hole-Perm es))
  | inr later ↦
      let rest = unregister_loop_found es p_mod entry (rw later at e) in
      rw later (Perm.trans (Perm.cons f rest) (Perm.swap _ _ _))
]

-- Unregistering a registered module takes its entry out of the registry, and no other, though the
-- order changes.
pub unregister_module-find_entry :
    (mgr : DepMgr) (p_mod : ℕ) (entry : DepEntry)
    → find_entry mgr p_mod ≡ some entry
    → Perm mgr.entries (entry ∷ (unregister_module mgr p_mod).entries)
unfolding unregister_module find_entry
unregister_module-find_entry mgr p_mod entry e = unregister_loop_found mgr.entries p_mod entry e

pub unregister_loop_append :
    (es : List DepEntry) (p_mod gateway : ℕ)
    → find_entry_loop es p_mod ≡ none
    → unregister_loop (es ++ (record { p_mod = p_mod; gateway = gateway } ∷ [])) p_mod ≡ es
unfolding find_entry_loop unregister_loop fill_hole
unregister_loop_append [] p_mod gateway e = ground arith
unregister_loop_append (f ∷ es) p_mod gateway e = elim (Bool-cases (f.p_mod == p_mod)) [
  | inl here ↦ absurd (ground (arith, here, e))
  | inr later ↦ rw later (ap (◌∷◌ f) (unregister_loop_append es p_mod gateway (rw later at e)))
]

-- Unregistering what was just registered gives the manager back, if there was room for the module
-- and it was not registered before.
pub unregister_module-dep_register :
    (mgr : DepMgr) (p_mod : ℕ)
    → length mgr.entries < mgr.capacity
    → find_entry mgr p_mod ≡ none
    → unregister_module (dep_register mgr p_mod) p_mod ≡ mgr
unfolding unregister_module dep_register register_module find_entry
unregister_module-dep_register mgr p_mod room new =
    let free : leb mgr.capacity (length mgr.entries) ≡ false = ground arith in
    rw (dep_register, free)
      (ap (λ es. record mgr { entries = es }) (unregister_loop_append mgr.entries p_mod 0 new))

-- No module of these entries has the name.
abbrev pub NoneNamed : Memory → Handles → List DepEntry → List ℕ → Type 0
NoneNamed m handles [] name = Unit
NoneNamed m handles (e ∷ es) name =
    (e.p_mod ≢ 0 → has_name m (handles e.p_mod) name ≡ false) × NoneNamed m handles es name

find_loop_lem :
    (m : Memory) (handles : Handles) (es : List DepEntry) (name : List ℕ)
    → let p_mod = find_loop m handles es name in
      ((p_mod ≡ 0) × NoneNamed m handles es name)
      ⊎ ((p_mod ≢ 0) × (has_name m (handles p_mod) name ≡ true) × (find_entry_loop es p_mod ≢ none))
unfolding find_loop find_entry_loop
find_loop_lem m handles [] name = inl (refl, tt)
find_loop_lem m handles (e ∷ es) name =
    let rest = find_loop_lem m handles es name in
    elim (Bool-cases (e.p_mod == 0)) [
      | inl null ↦ rw null (elim rest [
        | inl (missing, others) ↦ inl (missing, ((λ h. absurd (ground (arith, null, h))), others))
        | inr (found, named, there) ↦ inr (found, named, ground (arith, there))
      ])
      | inr more ↦ elim (Bool-cases (has_name m (handles e.p_mod) name)) [
        | inl here ↦ rw (more, here) (inr (ground (arith, more), here, ground arith))
        | inr other ↦
            rw (more, other)
              (elim rest [
                | inl (missing, others) ↦ inl (missing, ((λ _. refl), others))
                | inr (found, named, there) ↦ inr (found, named, ground (arith, there))
              ])
      ]
    ]

-- A module that is found by name is registered and has that name; where none is found, no registered
-- module has it.
dep_find_lem :
    (m : Memory) (handles : Handles) (mgr : DepMgr) (name : List ℕ)
    → let p_mod = dep_find m handles (some mgr) (some name) in
      ((p_mod ≡ 0) × NoneNamed m handles mgr.entries name)
      ⊎ ((p_mod ≢ 0) × (has_name m (handles p_mod) name ≡ true) × (find_entry mgr p_mod ≢ none))
unfolding dep_find find_entry
dep_find_lem m handles mgr name = find_loop_lem m handles mgr.entries name
