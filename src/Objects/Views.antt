-- ===== src/Objects/Views.antt =====
-- The views of a symbol table, udynlink/udynlink.hpp: `SymbolView`, its elements and its iterator. A
-- `Symbol` with no descriptor, which is false as a Boolean, is `none`.
use udynlink.Prelude.{
  ℕ, zero, suc, ◌+◌, ◌≡◌, refl, arith, Bool, Option, some, none, List, [], ◌∷◌, length, get_elem?,
  ltb, ◌==◌, not, if◌then◌else◌,
}
use udynlink.Memory.{Memory}
use udynlink.Symbols.{Sym, type_internal, type_exported, type_extern, type_module_name, type_weak}
use udynlink.Modules.{Module}
use udynlink.Loader.Copy.{Image, image_from_memory}
use udynlink.Api.{get_symbol, get_symbol_count, image_get_symbol, image_get_symbol_count}

-- The predicates of `Symbol`.
unfoldable pub is_exported : Sym → Bool
is_exported s = s.type == type_exported

unfoldable pub is_extern : Sym → Bool
is_extern s = s.type == type_extern

unfoldable pub is_weak : Sym → Bool
is_weak s = s.type == type_weak

unfoldable pub is_internal : Sym → Bool
is_internal s = s.type == type_internal

unfoldable pub is_module_name : Sym → Bool
is_module_name s = s.type == type_module_name

unfoldable pub is_function : Sym → Bool
is_function s = s.in_code

unfoldable pub is_data : Sym → Bool
is_data s = not s.in_code

-- A view of a loaded module or of an image, or the view of neither: an image of NULL pointers.
pub data SymbolView : Type 0 where
  of_module : Module → SymbolView
  of_image : Image → SymbolView

abbrev pub null_image : Image
null_image = record { p_header = 0; p_relocations = 0; p_symtab = 0; p_code = 0; p_data = 0 }

-- `SymbolView()` and `SymbolView(base_addr)`.
abbrev pub null_view : SymbolView
null_view = of_image null_image

unfoldable pub view_of_memory : Memory → ℕ → SymbolView
view_of_memory m base_addr = of_image (image_from_memory m base_addr)

unfoldable pub view_size : Memory → SymbolView → ℕ
view_size m (of_module p_mod) = get_symbol_count m (some p_mod)
view_size m (of_image image) = image_get_symbol_count m image

-- The descriptor that the two C functions fill in.
unfoldable pub view_symbol : Memory → SymbolView → ℕ → Option Sym
view_symbol m (of_module p_mod) index = get_symbol m (some p_mod) index
view_symbol m (of_image image) index = image_get_symbol m image index

-- `operator[]`.
unfoldable pub view_at : Memory → SymbolView → ℕ → Option Sym
unfolding view_size view_symbol
view_at m view index = if ltb index (view_size m view) then view_symbol m view index else none

-- The symbols that an iterator passes from index `i` on, with `left` steps to `end()`.
unfoldable pub iterate : Memory → SymbolView → ℕ → ℕ → List (Option Sym)
unfolding view_at
iterate m view zero i = []
iterate m view (suc left) i = view_at m view i ∷ iterate m view left (i + 1)

-- From `begin()` to `end()`.
unfoldable pub view_symbols : Memory → SymbolView → List (Option Sym)
unfolding iterate
view_symbols m view = iterate m view (view_size m view) 0

iterate_lem :
    (m : Memory) (view : SymbolView) (left i k : ℕ)
    → (length (iterate m view left i) ≡ left)
      × (get_elem? (iterate m view left i) k
          ≡ (if ltb k left then some (view_at m view (i + k)) else none))
unfolding iterate
iterate_lem m view zero i k = (refl, ground arith)
iterate_lem m view (suc left) i zero =
    let (count, _) = iterate_lem m view left (i + 1) 0 in
    let here : i + 0 ≡ i = omega arith in (omega (arith, count), rw here (ground arith))
iterate_lem m view (suc left) i (suc k) =
    let (count, rest) = iterate_lem m view left (i + 1) k in
    let there : i + suc k ≡ i + 1 + k = omega arith in
    (omega (arith, count), rw there (ground (arith, rest)))

-- Iterating over a view gives as many symbols as its size says, and each in its place is what the
-- view has at that index.
pub view_symbols-view_at :
    (m : Memory) (view : SymbolView) (k : ℕ)
    → (length (view_symbols m view) ≡ view_size m view)
      × (get_elem? (view_symbols m view) k
          ≡ (if ltb k (view_size m view) then some (view_at m view k) else none))
unfolding view_symbols
view_symbols-view_at m view k =
    let (count, elems) = iterate_lem m view (view_size m view) 0 k in
    let here : 0 + k ≡ k = omega arith in (count, rw here at elems)
