-- ===== src/Deps/Exports.antt =====
-- The thunks that a module keeps in its own .bss, udynlink/udynlink_deps.c: a gateway and a stub for
-- each of its thunk exports.
use udynlink.Prelude.{
  ℕ, zero, suc, ◌+◌, ◌^◌, Bool, true, ◌&&◌, not, Option, some, none, List, [], ◌∷◌, ◌==◌,
  if◌then◌else◌, u32,
}
use udynlink.Memory.{Memory}
use udynlink.Symbols.{Sym, SymName, not_available, pooled, na_text, type_exported}
use udynlink.Modules.{Module, Resolver, lookup_symbol}
use udynlink.Api.{get_symbol, get_symbol_count}
use udynlink.Thunk.{write_gateway, write_stub}
use udynlink.Deps.Names.{
  read_text, starts_with, skip, prefix_len, thunk_export_prefix, thunk_gateway_name,
}

-- An exported symbol in the data of its module.
abbrev pub is_exported_data : Sym → Bool
is_exported_data sym = sym.type == type_exported && not sym.in_code

-- `memcmp` of memory with a constant.
unfoldable pub has_bytes : Memory → ℕ → List ℕ → Bool
has_bytes m p [] = true
has_bytes m p (c ∷ cs) = m p == c && has_bytes m (p + 1) cs

-- The name behind the export prefix, `none` where the prefix is not there.
unfoldable pub exported_name : Memory → SymName → Option (List ℕ)
exported_name m not_available =
    if starts_with thunk_export_prefix na_text then some (skip prefix_len na_text) else none
exported_name m (pooled p) =
    if has_bytes m p thunk_export_prefix then some (read_text (2 ^ 32) m (p + prefix_len)) else none

-- The stub for one symbol, where it is a thunk export of a function.
unfoldable pub fill_slot : Resolver → Memory → Module → ℕ → Sym → Memory
fill_slot resolve m p_mod gateway s =
    if not (is_exported_data s) then m else elim (exported_name m s.name) [
      | none ↦ m
      | some fn ↦ elim (lookup_symbol resolve m (some p_mod) fn) [
        | none ↦ m
        | some fsym ↦ if fsym.in_code then (write_stub m s.val (u32 fsym.val) gateway).1 else m
      ]
    ]

-- The loop over the symbols from `i` on, with `left` to go.
unfoldable pub fill_slots : Resolver → Module → ℕ → ℕ → ℕ → Memory → Memory
fill_slots resolve p_mod gateway zero i m = m
fill_slots resolve p_mod gateway (suc left) i m =
    let m' : Memory = elim (get_symbol m (some p_mod) i) [
      | none ↦ m
      | some s ↦ fill_slot resolve m p_mod gateway s
    ] in
    fill_slots resolve p_mod gateway left (i + 1) m'

-- `udynlink_dep_generate_thunks`; a NULL handle is `none`.
unfoldable pub generate_thunks : Resolver → Memory → Option Module → Memory
generate_thunks resolve m none = m
generate_thunks resolve m (some p_mod) =
    if p_mod.p_header == 0
    then m
    else elim (lookup_symbol resolve m (some p_mod) thunk_gateway_name) [
      | none ↦ m
      | some gw ↦
          if not (is_exported_data gw)
          then m
          else let m' = write_gateway m gw.val (u32 p_mod.p_ram) in
            fill_slots resolve p_mod gw.val (get_symbol_count m' (some p_mod)) 0 m'
    ]
