-- ===== src/Deps/Resolve/Stubs.antt =====
-- What resolving a function does to the thunk pool and to the registry.
use udynlink.Prelude.{
  ℕ, ◌+◌, ◌-◌, ◌^◌, ◌≡◌, ◌≢◌, ◌<◌, ◌≤◌, ◌⊎◌, refl, ap, sym, ◌∙◌, arith, true, not, Bool-cases, inl,
  inr, Option-cases, some, List, [], ◌∷◌, ltb, ◌==◌, ◌!=◌, u32, add32,
}
use udynlink.Memory.{Memory}
use udynlink.Modules.{Resolver, lookup_symbol}
use udynlink.Thunk.{
  Pool, find_stub, alloc_gateway, alloc_stub, stub_result, write_stub, gateway_size, stub_size,
  write_gateway,
}
use udynlink.Thunk.Bounds.{
  IsPool, alloc_stub_full, alloc_stub_room, write_stub_outside, write_gateway_outside,
  alloc_gateway-IsPool,
}
use udynlink.Thunk.Stubs.{find_stub-alloc_stub}
use udynlink.Deps.{DepEntry, DepMgr, Handles}
use udynlink.Deps.Resolve.{
  Served, own_stub, new_stub, pool_stub, serve_entry, func_loop, resolve_func,
}

abbrev pub modules : List DepEntry → List ℕ
modules [] = []
modules (e ∷ es) = e.p_mod ∷ modules es

-- The pool is well formed on the same region, and the byte at `a` is as before.
abbrev pub Keeps : ℕ → Memory → Pool → Memory → Pool → Type 0
Keeps a m pool m' pool' =
    IsPool pool' × (pool'.base ≡ pool.base) × (pool'.size ≡ pool.size) × (m' a ≡ m a)

module _ (a : ℕ) where
  abbrev AwayFrom : Pool → Type 0
  AwayFrom pool = (a < pool.base) ⊎ (pool.base + pool.size ≤ a)

  alloc_stub-Keeps :
      (m : Memory) (pool : Pool) (f g : ℕ)
      → IsPool pool
      → AwayFrom pool
      → Keeps a m pool (alloc_stub m pool f g).1 (alloc_stub m pool f g).2
  unfolding stub_result
  alloc_stub-Keeps m pool f g v out =
      elim (Bool-cases (ltb pool.gateway_top (pool.used + stub_size))) [
        | inl full ↦ rw (alloc_stub_full pool v m f g full) (v, refl, refl, refl)
        | inr room ↦
            let beyond : (a < pool.base + pool.used) ⊎ (pool.base + pool.used + stub_size ≤ a) =
              ground (arith, out, v.inside, room) in
            let same = write_stub_outside m (pool.base + pool.used) f g a beyond in
            rw (alloc_stub_room pool v m f g room)
              (elim (Bool-cases ((write_stub m (pool.base + pool.used) f g).0 == 0)) [
                | inl failed ↦ rw failed (ground arith, refl, refl, same)
                | inr done ↦ rw done (ground arith, refl, refl, same)
              ])
      ]

  abbrev pub Serves : Memory → Pool → List DepEntry → Served → Type 0
  Serves m pool entries s = Keeps a m pool s.mem s.pool × (modules s.entries ≡ modules entries)

  new_stub-Serves :
      (m : Memory) (pool : Pool) (e : DepEntry) (es : List DepEntry) (f : ℕ)
      → IsPool pool
      → AwayFrom pool
      → Serves m pool (e ∷ es) (new_stub m pool e es f)
  unfolding new_stub
  new_stub-Serves m pool e es f v out = (alloc_stub-Keeps m pool f e.gateway v out, refl)

  pool_stub-Serves :
      (m : Memory) (pool : Pool) (e : DepEntry) (es : List DepEntry) (r f : ℕ)
      → IsPool pool
      → AwayFrom pool
      → Serves m pool (e ∷ es) (pool_stub m pool e es r f)
  unfolding pool_stub alloc_gateway
  pool_stub-Serves m pool e es r f v out =
      let kept : Serves m pool (e ∷ es)
          (record { addr = 0; mem = m; pool = pool; entries = e ∷ es }) =
        ((v, refl, refl, refl), refl) in
      elim (Bool-cases (find_stub m (some pool) f != 0)) [
        | inl there ↦ rw there kept
        | inr new ↦ elim (Bool-cases (e.gateway != 0)) [
          | inl given ↦ rw (new, given) (new_stub-Serves m pool e es f v out)
          | inr none_yet ↦ elim (Bool-cases (ltb pool.gateway_top (add32 pool.used gateway_size))) [
            | inl full ↦ rw (new, none_yet, full) kept
            | inr room ↦
                let top = pool.gateway_top - gateway_size in
                let g = pool.base + top in
                let lower : Pool = record pool { gateway_top = top } in
                let fits : add32 pool.used gateway_size ≡ pool.used + gateway_size =
                  omega (arith, v.ordered, v.inside, v.addressable) in
                let free : pool.used + gateway_size ≤ pool.gateway_top =
                  ground (arith, fits, room) in
                let v' : IsPool lower =
                  ground (arith, v.ordered, v.inside, v.addressable, v.aligned, free) in
                let beyond : (a < g) ⊎ (g + gateway_size ≤ a) =
                  ground (arith, out, v.inside, free) in
                let same = write_gateway_outside m g r a beyond in
                let ((w, base, size, rest), mods) =
                  new_stub-Serves (write_gateway m g r) lower (record e { gateway = g }) es f v'
                    out in
                rw (new, none_yet, room) ((w, base, size, rest ∙ same), mods)
          ]
        ]
      ]

  func_loop-Serves :
      (resolve : Resolver) (m : Memory) (pool : Pool) (handles : Handles) (es : List DepEntry)
      (name : List ℕ)
      → IsPool pool
      → AwayFrom pool
      → Serves m pool es (func_loop resolve m pool handles es name)
  unfolding func_loop serve_entry
  func_loop-Serves resolve m pool handles [] name v out = ((v, refl, refl, refl), refl)
  func_loop-Serves resolve m pool handles (e ∷ es) name v out =
      let (kept, mods) = func_loop-Serves resolve m pool handles es name v out in
      elim (Bool-cases (e.p_mod == 0)) [
        | inl null ↦ rw null (kept, ap (◌∷◌ e.p_mod) mods)
        | inr given ↦ elim (Option-cases (lookup_symbol resolve m (some (handles e.p_mod)) name)) [
          | inl missing ↦ rw (given, missing) (kept, ap (◌∷◌ e.p_mod) mods)
          | inr (sym, found) ↦ elim (Bool-cases (not sym.in_code)) [
            | inl data_sym ↦ rw (given, found, data_sym) (kept, ap (◌∷◌ e.p_mod) mods)
            | inr code ↦ elim (Bool-cases (own_stub resolve m (handles e.p_mod) name != 0)) [
              | inl own ↦ rw (given, found, code, own) ((v, refl, refl, refl), refl)
              | inr none_own ↦
                  rw (given, found, code, none_own)
                    (pool_stub-Serves m pool e es (u32 (handles e.p_mod).p_ram) (u32 sym.val) v out)
            ]
          ]
        ]
      ]

  -- Resolving a function keeps the pool well formed and on its region, writes nothing outside of that
  -- region, and leaves the registered modules in their order.
  pub resolve_func-IsPool :
      (resolve : Resolver) (m : Memory) (pool : Pool) (handles : Handles) (mgr : DepMgr)
      (name : List ℕ)
      → IsPool pool
      → (a < pool.base) ⊎ (pool.base + pool.size ≤ a)
      → let (addr, m', pool', mgr') = resolve_func resolve m pool handles mgr name in
        Keeps a m pool m' pool' × (modules mgr'.entries ≡ modules mgr.entries)
  unfolding resolve_func
  resolve_func-IsPool resolve m pool handles mgr name v out =
      func_loop-Serves resolve m pool handles mgr.entries name v out

new_stub_found :
    (m : Memory) (pool : Pool) (e : DepEntry) (es : List DepEntry) (f : ℕ)
    → IsPool pool
    → f < 2 ^ 32
    → (new_stub m pool e es f).addr ≢ 0
    → find_stub (new_stub m pool e es f).mem (some (new_stub m pool e es f).pool) f
      ≡ (new_stub m pool e es f).addr
unfolding new_stub
new_stub_found m pool e es f v small = find_stub-alloc_stub m pool f e.gateway v small

pool_stub_found :
    (m : Memory) (pool : Pool) (e : DepEntry) (es : List DepEntry) (r f : ℕ)
    → IsPool pool
    → f < 2 ^ 32
    → (pool_stub m pool e es r f).addr ≢ 0
    → find_stub (pool_stub m pool e es r f).mem (some (pool_stub m pool e es r f).pool) f
      ≡ (pool_stub m pool e es r f).addr
unfolding pool_stub
pool_stub_found m pool e es r f v small = elim (Bool-cases (find_stub m (some pool) f != 0)) [
  | inl there ↦ rw there (λ _. refl)
  | inr new ↦ elim (Bool-cases (e.gateway != 0)) [
    | inl given ↦ rw (new, given) (new_stub_found m pool e es f v small)
    | inr none_yet ↦ elim (alloc_gateway-IsPool m pool r v) [
      | inl (full, low) ↦ rw (new, none_yet, full) (λ h. absurd (h refl))
      | inr (g, m', pool', made, v', end, used, base, same) ↦
          rw (new, none_yet, made)
            (new_stub_found m' pool' (record e { gateway = g }) es f v' small)
    ]
  ]
]

-- In a well-formed pool, a stub that was served for a 32-bit function address is served again,
-- whichever module asks for it, and nothing is written, allocated or changed in the registry.
pub pool_stub-pool_stub :
    (m : Memory) (pool : Pool) (e e' : DepEntry) (es es' : List DepEntry) (r r' f : ℕ)
    → IsPool pool
    → f < 2 ^ 32
    → (pool_stub m pool e es r f).addr ≢ 0
    → let served = pool_stub m pool e es r f in
      pool_stub served.mem served.pool e' es' r' f ≡ record served { entries = e' ∷ es' }
unfolding pool_stub
pool_stub-pool_stub m pool e e' es es' r r' f v small given =
    let served = pool_stub m pool e es r f in
    let found = pool_stub_found m pool e es r f v small given in
    let hit : (find_stub served.mem (some served.pool) f != 0) ≡ true =
      ground (arith, found, given) in
    rw hit (ap (λ (n : ℕ). record served { addr = n; entries = e' ∷ es' }) found)
