-- ===== src/Thunk/Call.antt =====
-- `udynlink_thunk_make_call`, udynlink/udynlink_thunk.c: a callable address for a symbol of a module.
-- A stub that the pool has is served again, and a gateway of the module is shared.
use udynlink.Prelude.{
  ℕ, ◌^◌, ◌<◌, ◌≡◌, ◌≢◌, ap, ◌∙◌, refl, arith, Option-cases, some, none, List, inl, inr, Bool-cases,
  ◌!=◌, if◌then◌else◌, u32,
}
use udynlink.Memory.{Memory}
use udynlink.Modules.{Module, Resolver, lookup_symbol}
use udynlink.Thunk.{Pool, find_stub, find_gateway, alloc_gateway, alloc_stub}
use udynlink.Thunk.Bounds.{IsPool, alloc_gateway-IsPool}
use udynlink.Thunk.Stubs.{find_stub-alloc_stub}

-- A stub with a new gateway for `ram_base`.
unfoldable pub with_new_gateway : Memory → Pool → ℕ → ℕ → ℕ × Memory × Pool
with_new_gateway m pool func_addr ram_base = elim (alloc_gateway m pool ram_base) [
  | none ↦ (0, m, pool)
  | some (g, m', pool') ↦ alloc_stub m' pool' func_addr g
]

-- A callable address for `func_addr`, 0 where the pool is full.
unfoldable pub serve_stub : Memory → Pool → ℕ → ℕ → ℕ × Memory × Pool
unfolding with_new_gateway
serve_stub m pool func_addr ram_base =
    let existing = find_stub m (some pool) func_addr in
    if existing != 0 then (existing, m, pool) else elim (find_gateway m (some pool) ram_base) [
      | none ↦ with_new_gateway m pool func_addr ram_base
      | some g ↦ alloc_stub m pool func_addr g
    ]

-- `udynlink_thunk_make_call` on pointers that are not NULL.
unfoldable pub make_call : Resolver → Memory → Pool → Module → List ℕ → ℕ × Memory × Pool
unfolding serve_stub
make_call resolve m pool p_mod sym_name = elim (lookup_symbol resolve m (some p_mod) sym_name) [
  | none ↦ (0, m, pool)
  | some sym ↦
      if sym.in_code then serve_stub m pool (u32 sym.val) (u32 p_mod.p_ram) else (0, m, pool)
]

with_new_gateway_found :
    (m : Memory) (pool : Pool) (f r : ℕ)
    → IsPool pool
    → f < 2 ^ 32
    → (with_new_gateway m pool f r).0 ≢ 0
    → find_stub (with_new_gateway m pool f r).1 (some (with_new_gateway m pool f r).2) f
      ≡ (with_new_gateway m pool f r).0
unfolding with_new_gateway
with_new_gateway_found m pool f r v small = elim (alloc_gateway-IsPool m pool r v) [
  | inl (full, low) ↦ rw (full, with_new_gateway) (λ h. absurd (h refl))
  | inr (g, m', pool', made, v', end, used, base, same) ↦
      rw (made, with_new_gateway) (find_stub-alloc_stub m' pool' f g v' small)
]

serve_stub_found :
    (m : Memory) (pool : Pool) (f r : ℕ)
    → IsPool pool
    → f < 2 ^ 32
    → (serve_stub m pool f r).0 ≢ 0
    → find_stub (serve_stub m pool f r).1 (some (serve_stub m pool f r).2) f
      ≡ (serve_stub m pool f r).0
unfolding serve_stub
serve_stub_found m pool f r v small = elim (Bool-cases (find_stub m (some pool) f != 0)) [
  | inl there ↦ rw there (λ h. refl)
  | inr new ↦ elim (Option-cases (find_gateway m (some pool) r)) [
    | inl missing ↦ rw (new, missing) (with_new_gateway_found m pool f r v small)
    | inr (g, at) ↦ rw (new, at) (find_stub-alloc_stub m pool f g v small)
  ]
]

serve_stub_hit :
    (m : Memory) (pool : Pool) (f r : ℕ)
    → find_stub m (some pool) f ≢ 0
    → serve_stub m pool f r ≡ (find_stub m (some pool) f, m, pool)
unfolding serve_stub
serve_stub_hit m pool f r there = ground arith

-- In a well-formed pool, an address that was served is served again for the same 32-bit function
-- address, whatever the module's base, and nothing is written or allocated for it.
pub serve_stub-serve_stub :
    (m : Memory) (pool : Pool) (f r r' : ℕ)
    → IsPool pool
    → f < 2 ^ 32
    → (serve_stub m pool f r).0 ≢ 0
    → serve_stub (serve_stub m pool f r).1 (serve_stub m pool f r).2 f r' ≡ serve_stub m pool f r
serve_stub-serve_stub m pool f r r' v small served =
    let found = serve_stub_found m pool f r v small served in
    serve_stub_hit (serve_stub m pool f r).1 (serve_stub m pool f r).2 f r' (ground (arith, found))
    ∙ ap (λ s. (s, (serve_stub m pool f r).1, (serve_stub m pool f r).2)) found
