-- ===== src/Deps/Load/Limits.antt =====
-- The dependency manager stays within its arrays.
use udynlink.Prelude.{
  ℕ, suc, ◌≡◌, ◌≤◌, refl, ap, arith, Bool, true, false, Bool-cases, inl, inr, Option, Option-cases,
  some, none, List, [], ◌∷◌, length, length-append, ltb, leb,
}
use mathlib.Core.Option
use udynlink.Memory.{Memory}
use udynlink.Symbols.{SymName}
use udynlink.Deps.{
  DepEntry, DepMgr, dep_max_depth, is_loading, push_loading, pop_loading, dep_register,
  register_module, unregister_module, unregister_loop, fill_hole, without_last, tail,
}
use udynlink.Deps.Names.{name_text}
use udynlink.Deps.Load.{begin_load, end_load}
use udynlink.Deps.Load.Depth.{Calls, no_more, registering, unregistering, loading, run_calls}

-- The entries fit the host's array, and the names that are being loaded fit the stack.
pub record IsMgr (mgr : DepMgr) : Type 0 where
  pub entries_fit : length mgr.entries ≤ mgr.capacity
  pub stack_fits : length mgr.loading_stack ≤ dep_max_depth

length-without_last : (e : DepEntry) (es : List DepEntry) → length (without_last e es) ≡ length es
unfolding without_last
length-without_last e [] = refl
length-without_last e (f ∷ fs) = ap suc (length-without_last f fs)

length-fill_hole : (es : List DepEntry) → length (fill_hole es) ≡ length es
unfolding fill_hole
length-fill_hole [] = refl
length-fill_hole (e ∷ es) = ap suc (length-without_last e es)

length-unregister_loop :
    (es : List DepEntry) (p_mod : ℕ) → length (unregister_loop es p_mod) ≤ length es
unfolding unregister_loop
length-unregister_loop [] p_mod = omega arith
length-unregister_loop (e ∷ es) p_mod =
    ground (arith, length-unregister_loop es p_mod, length-fill_hole es)

dep_register-IsMgr : (mgr : DepMgr) (p_mod : ℕ) → IsMgr mgr → IsMgr (dep_register mgr p_mod)
unfolding dep_register register_module
dep_register-IsMgr mgr p_mod v = elim (Bool-cases (leb mgr.capacity (length mgr.entries))) [
  | inl full ↦ rw (dep_register, full) v
  | inr room ↦
      rw (dep_register, room)
        (record {
          entries_fit =
              let grown = length-append mgr.entries (record { p_mod = p_mod; gateway = 0 } ∷ []) in
              ground (arith, grown, room);
          stack_fits = v.stack_fits;
        })
]

begin_load-IsMgr :
    (m : Memory) (mgr begun : DepMgr) (mod_name : Option SymName)
    → IsMgr mgr
    → begin_load m mgr mod_name ≡ some begun
    → IsMgr begun
unfolding begin_load push_loading
begin_load-IsMgr m mgr begun none v e =
    let same : mgr ≡ begun = ap (λ o. Option.get_or o mgr) e in rw (← same) v
begin_load-IsMgr m mgr begun (some n) v e = elim (Bool-cases (is_loading m mgr (name_text m n))) [
  | inl again ↦ absurd (ground (arith, again, e))
  | inr new ↦
      let pushed : push_loading mgr n ≡ begun = ap (λ o. Option.get_or o mgr) (rw new at e) in
      rw (← pushed) (elim (Bool-cases (ltb (length mgr.loading_stack) dep_max_depth)) [
        | inl room ↦
            rw (push_loading, room)
              (record { entries_fit = v.entries_fit; stack_fits = ground (arith, room) })
        | inr full ↦ rw (push_loading, full) v
      ])
]

length-tail : (stack : List SymName) → length (tail stack) ≤ length stack
length-tail [] = omega arith
length-tail (s ∷ stack) = omega arith

pop_loading-IsMgr : (mgr : DepMgr) → IsMgr mgr → IsMgr (pop_loading mgr)
unfolding pop_loading
pop_loading-IsMgr mgr v = record {
  entries_fit = v.entries_fit;
  stack_fits = omega (arith, length-tail mgr.loading_stack, v.stack_fits);
}

end_load-IsMgr :
    (mgr : DepMgr) (mod_name : Option SymName) (good : Bool) (p_mod : ℕ)
    → IsMgr mgr
    → IsMgr (end_load mgr mod_name good p_mod)
unfolding end_load
end_load-IsMgr mgr none true p_mod v = dep_register-IsMgr mgr p_mod v
end_load-IsMgr mgr none false p_mod v = v
end_load-IsMgr mgr (some n) true p_mod v =
    pop_loading-IsMgr (dep_register mgr p_mod) (dep_register-IsMgr mgr p_mod v)
end_load-IsMgr mgr (some n) false p_mod v = pop_loading-IsMgr mgr v

-- The manager stays within its arrays, whatever is registered, unregistered and loaded, and however
-- deep the loads nest.
pub run_calls-IsMgr :
    (m : Memory) (calls : Calls) (mgr : DepMgr) → IsMgr mgr → IsMgr (run_calls m calls mgr)
unfolding run_calls unregister_module
run_calls-IsMgr m no_more mgr v = v
run_calls-IsMgr m (registering p_mod rest) mgr v =
    run_calls-IsMgr m rest (dep_register mgr p_mod) (dep_register-IsMgr mgr p_mod v)
run_calls-IsMgr m (unregistering p_mod rest) mgr v =
    run_calls-IsMgr m rest (unregister_module mgr p_mod) (record {
      entries_fit = omega (arith, length-unregister_loop mgr.entries p_mod, v.entries_fit);
      stack_fits = v.stack_fits;
    })
run_calls-IsMgr m (loading mod_name p_mod good inner rest) mgr v =
    elim (Option-cases (begin_load m mgr mod_name)) [
      | inl refused ↦ rw (run_calls, refused) (run_calls-IsMgr m rest mgr v)
      | inr (begun, e) ↦
          let inside = run_calls-IsMgr m inner begun (begin_load-IsMgr m mgr begun mod_name v e) in
          let after = end_load (run_calls m inner begun) mod_name good p_mod in
          rw (run_calls, e)
            (run_calls-IsMgr m rest after
              (end_load-IsMgr (run_calls m inner begun) mod_name good p_mod inside))
    ]
